-- ===== src/Icl/Cache/Cleared.antt =====
-- icl/generic_cache.cc: what flush() and trim() leave of the cache.
use simple_ssd.Base.{
  ℕ, zero, suc, ◌+◌, ◌≤◌, ◌<◌, ◌≡◌, inl, inr, Bool, true, false, ◌&&◌, ◌||◌, arith, ltb, leb, ◌==◌,
  if◌then◌else◌, Bool-cases,
}
use simple_ssd.Icl.Cache.State.{Place, Cache, LpnRange, line_at, put_line}
use simple_ssd.Icl.Cache.Lines.{IsShaped, InCache, line_at-put_line, put_line-IsShaped}
use simple_ssd.Icl.Cache.Coherent.{IsCoherent, Weaker, Weaker-IsCoherent}
use simple_ssd.Icl.Cache.Ranges.{in_range, invalid_line, Sweep, sweep_ways, sweep_sets}

-- The lines of the range among those that `done` names are invalid, and nothing else has changed.
pub record Cleared (c : Cache) (r : LpnRange) (done : ℕ → ℕ → Bool) (c' : Cache) : Type 0 where
  pub same_geometry : c'.geometry ≡ c.geometry
  pub same_evict : c'.evict_data ≡ c.evict_data
  pub shaped : IsShaped c'
  pub lines :
      (p : Place)
      → InCache c p
      → line_at c' p ≡ (
          if done p.0 p.1 && in_range r (line_at c p).tag
          then invalid_line (line_at c p)
          else line_at c p)

pub Cleared-ext :
    {c c' : Cache} {r : LpnRange} {done : ℕ → ℕ → Bool} (all : ℕ → ℕ → Bool)
    → ((i k : ℕ) → done i k ≡ all i k)
    → Cleared c r done c'
    → Cleared c r all c'
Cleared-ext {done = done} all e s = record {
  same_geometry = s.same_geometry;
  same_evict = s.same_evict;
  shaped = s.shaped;
  lines = λ p h. rw⁻¹ (e p.0 p.1) (s.lines p h);
}

-- What a round does to the cache.
abbrev pub clear_line : LpnRange → Cache → Place → Cache
clear_line r c p =
    if in_range r (line_at c p).tag then put_line c p (invalid_line (line_at c p)) else c

pub clear_line-Cleared :
    {c c' : Cache} {r : LpnRange} {done : ℕ → ℕ → Bool} (p : Place)
    → InCache c p
    → Cleared c r done c'
    → Cleared c r (λ i k. done i k || (p.0 == i && (p.1 == k))) (clear_line r c' p)
clear_line-Cleared {c} {c'} {r} {done} p here s =
    let before = s.lines p here in
    let same_tag : (line_at c' p).tag ≡ (line_at c p).tag = ground arith in
    let there : InCache c' p = ground (arith, here, s.same_geometry) in
    elim (Bool-cases (in_range r (line_at c' p).tag)) [
      | inl e ↦
          let x = invalid_line (line_at c' p) in
          let after = λ (q : Place). line_at-put_line s.shaped p x there q in
          rw e (record {
            same_geometry = s.same_geometry;
            same_evict = s.same_evict;
            shaped = put_line-IsShaped s.shaped p x there;
            lines = λ q hq. ground (arith, after q, s.lines q hq, before);
          })
      | inr e ↦ rw e (record {
        same_geometry = s.same_geometry;
        same_evict = s.same_evict;
        shaped = s.shaped;
        lines = λ q hq. ground (arith, s.lines q hq, before, same_tag);
      })
    ]

-- The places that the loops have passed: one more, `n` ways of a set, all.
abbrev pub and_place : (ℕ → ℕ → Bool) → Place → ℕ → ℕ → Bool
and_place done p i k = done i k || (p.0 == i && (p.1 == k))

abbrev pub everywhere : Cache → ℕ → ℕ → Bool
everywhere c i k = ltb i c.geometry.set_size && ltb k c.geometry.way_size

-- A property of the places that are passed and of what the loops keep, that every round keeps.
module _ {D : Type 0} (round : Sweep D → Place → Sweep D) (c : Cache)
    (P : (ℕ → ℕ → Bool) → Sweep D → Type 0)
    (ext : (done all : ℕ → ℕ → Bool) (w : Sweep D)
      → ((i k : ℕ) → done i k ≡ all i k)
      → P done w
      → P all w)
    (same_ways : (done : ℕ → ℕ → Bool) (w : Sweep D)
      → P done w
      → w.cache.geometry.way_size ≡ c.geometry.way_size)
    (step : (done : ℕ → ℕ → Bool) (w : Sweep D) (p : Place)
      → InCache c p
      → P done w
      → P (and_place done p) (round w p)) where
  sweep_ways-keeps :
      (n : ℕ) (done : ℕ → ℕ → Bool) (w : Sweep D) (i way : ℕ)
      → i < c.geometry.set_size
      → way + n ≤ c.geometry.way_size
      → P done w
      → P
          (λ j k. done j k || (i == j && (leb way k && ltb k (way + n))))
          (sweep_ways round n w i way)
  unfolding sweep_ways
  sweep_ways-keeps zero done w i way hi hw s = ext _ _ w (λ j k. ground arith) s
  sweep_ways-keeps (suc n) done w i way hi hw s =
      ext _ _ (sweep_ways round n (round w (i, way)) i (way + 1)) (λ j k. ground arith)
        (sweep_ways-keeps n (and_place done (i, way)) (round w (i, way)) i (way + 1) hi
          (omega arith) (step done w (i, way) (hi, omega arith) s))

  sweep_sets-keeps :
      (n : ℕ) (done : ℕ → ℕ → Bool) (w : Sweep D) (i : ℕ)
      → i + n ≤ c.geometry.set_size
      → P done w
      → P
          (λ j k. done j k || ((leb i j && ltb j (i + n)) && ltb k c.geometry.way_size))
          (sweep_sets round n w i)
  unfolding sweep_sets
  sweep_sets-keeps zero done w i hi s = ext _ _ w (λ j k. ground arith) s
  sweep_sets-keeps (suc n) done w i hi s =
      let m = w.cache.geometry.way_size in
      let ways = same_ways done w s in
      let one = sweep_ways-keeps m done w i 0 (omega arith) (omega (arith, ways)) s in
      ext _ _ (sweep_sets round n (sweep_ways round m w i 0) (i + 1)) (λ j k. ground (arith, ways))
        (sweep_sets-keeps n (λ j k. done j k || (i == j && (leb 0 k && ltb k (0 + m))))
          (sweep_ways round m w i 0) (i + 1) (omega arith) one)

  pub sweep-keeps :
      (w : Sweep D)
      → P (λ j k. false) w
      → P (everywhere c) (sweep_sets round c.geometry.set_size w 0)
  sweep-keeps w s =
      ext _ (everywhere c) (sweep_sets round c.geometry.set_size w 0) (λ j k. ground arith)
        (sweep_sets-keeps c.geometry.set_size (λ j k. false) w 0 (omega arith) s)

-- After a flush or a trim of a range: the cache is coherent, the lines of the range are invalid, and
-- the others are as they were.
pub record Swept (c : Cache) (r : LpnRange) (c' : Cache) : Type 0 where
  pub coherent : IsCoherent c'
  pub dropped :
      (p : Place) → InCache c p → in_range r (line_at c p).tag ≡ true → (line_at c' p).valid ≡ false
  pub kept :
      (p : Place) → InCache c p → in_range r (line_at c p).tag ≡ false → line_at c' p ≡ line_at c p

pub Cleared-Swept :
    {c c' : Cache} {r : LpnRange} → IsCoherent c → Cleared c r (everywhere c) c' → Swept c r c'
Cleared-Swept {c} {c'} {r} v s = record {
  coherent =
      Weaker-IsCoherent v weaker
        (record {
          rows = ground (arith, s.same_evict, s.same_geometry, v.grid.rows);
          cols = λ i hi. ground (
            arith,
            s.same_evict,
            s.same_geometry,
            v.grid.cols i (ground (arith, hi, s.same_geometry)),
          );
        })
        (λ i k. ground (arith, s.same_evict, v.idle i k))
        (λ p h.
          let h' : InCache c p = ground (arith, h, s.same_geometry) in
          ground (arith, s.lines p h', v.timely p h'));
  dropped = λ p h e. ground (arith, s.lines p h, h);
  kept = λ p h e. ground (arith, s.lines p h, h);
}
  where
    weaker : Weaker c c'
    weaker = record {
      same_geometry = s.same_geometry;
      shaped = s.shaped;
      lines = λ p h. elim (Bool-cases (in_range r (line_at c p).tag)) [
        | inl e ↦ inr (ground (arith, s.lines p h, h))
        | inr e ↦ inl (ground (arith, s.lines p h))
      ];
    }
