-- ===== src/Icl/Cache/Flushes.antt =====
-- icl/generic_cache.cc: what flush() and trim() do to the lines of a range, and what they ask of the
-- FTL.
use simple_ssd.Base.{
  ℕ, ◌+◌, ◌*◌, ◌/◌, ◌%◌, ◌^◌, ◌<◌, ◌≡◌, ◌∙◌, ap, inl, inr, refl, Bool, true, arith, if◌then◌else◌,
  Bool-cases, max, subst,
}
use simple_ssd.Util.Bitset
use simple_ssd.Util.Bitset.Access.{test-set_at, set_at-IsValid, data_size-set_at}
use simple_ssd.Util.Bitset.Whole.{create-IsValid, data_size-create}
use native.Mathlib.Nat.{mod-lt}
use simple_ssd.Ftl.PageMapping.State
use simple_ssd.Ftl.PageMapping.State.{Clock}
use simple_ssd.Icl.Cache.State.{
  Line, Place, Cache, Geometry, LpnRange, Lower, CacheFunction, line_at, put_line, cache_flush,
  cache_trim, cache_latency,
}
use simple_ssd.Icl.Cache.Lines.{IsShaped, InCache, same_place-eq}
use simple_ssd.Icl.Cache.Coherent.{IsCoherent}
use simple_ssd.Icl.Cache.Ranges.{
  in_range, name_unit, invalid_line, Sweep, sweep_sets, flush_line, trim_line, start_sweep,
  has_cache, flush, trim,
}
use simple_ssd.Icl.Cache.Cleared.{
  Cleared, Cleared-ext, clear_line, clear_line-Cleared, and_place, everywhere, sweep-keeps, Swept,
  Cleared-Swept,
}

-- A request to the FTL names the logical page and the unit of an LCA.
pub record Names (g : Geometry) (q : State.Request) (lca : ℕ) : Type 0 where
  pub page : q.lpn ≡ lca / g.line_count_in_super_page
  pub unit : Bitset.test q.io_flag (lca % g.line_count_in_super_page) ≡ true

-- The request of the loops has the size that its flags need.
record IsSized (g : Geometry) (q : State.Request) : Type 0 where
  bits : Bitset.IsValid q.io_flag
  size : q.io_flag.data_size ≡ g.line_count_in_super_page

module _ {g : Geometry} (pos : 0 < g.line_count_in_super_page) where
  module _ {q : State.Request} (v : IsSized g q) (lca : ℕ) where
    unit_lt : lca % g.line_count_in_super_page < q.io_flag.data_size
    unit_lt = rw v.size (mod-lt lca pos)

    name_unit-IsSized : IsSized g (name_unit g q lca)
    name_unit-IsSized = record {
      bits = set_at-IsValid v.bits (lca % g.line_count_in_super_page) unit_lt true;
      size = data_size-set_at v.bits (lca % g.line_count_in_super_page) unit_lt true ∙ v.size;
    }

    name_unit-Names : Names g (name_unit g q lca) lca
    name_unit-Names = record {
      page = refl;
      unit = ground (
        arith,
        test-set_at v.bits (lca % g.line_count_in_super_page) unit_lt true
            (lca % g.line_count_in_super_page),
      );
    }

-- A round of flush() and of trim(), for what is asked of the FTL and the lines that it is asked for.
module _ {D : Type 0} (ask : State.Request → Clock D → Clock D) (needs : Line → Bool) where
  unfoldable ask_line : LpnRange → Sweep D → Place → Sweep D
  ask_line r w p =
      let g = w.cache.geometry in
      let x = line_at w.cache p in
      let named = name_unit g w.request x.tag in
      let tick = w.tick + cache_latency g * 8 in
      let end = ask named (record { tick = tick; device = w.device }) in
      let later = record w { tick = tick } in
      if in_range r x.tag
      then (if needs x
          then record {
            cache = put_line w.cache p (invalid_line x);
            request = named;
            tick = tick;
            finished_at = max w.finished_at end.tick;
            device = end.device;
          }
          else record later { cache = put_line w.cache p (invalid_line x) })
      else later

  ask_line-clears :
      (r : LpnRange) (w : Sweep D) (p : Place) → (ask_line r w p).cache ≡ clear_line r w.cache p
  unfolding ask_line
  ask_line-clears r w p = elim (Bool-cases (in_range r (line_at w.cache p).tag)) [
    | inl e ↦ elim (Bool-cases (needs (line_at w.cache p))) [
      | inl n ↦ rw (e, n) refl
      | inr n ↦ rw (e, n) refl
    ]
    | inr e ↦ rw e refl
  ]

  module _ (Done : ℕ → D → Type 0) (c : Cache) (pos : 0 < c.geometry.line_count_in_super_page)
      (does : (q : State.Request) (k : Clock D) (lca : ℕ)
        → Names c.geometry q lca
        → Done lca (ask q k).device)
      (keeps : (q : State.Request) (k : Clock D) (lca : ℕ)
        → Done lca k.device
        → Done lca (ask q k).device)
      (same_need : (x : Line) → needs (invalid_line x) ≡ needs x) (r : LpnRange) where
    -- The lines that are passed and that need it are done.
    record Passed (done : ℕ → ℕ → Bool) (w : Sweep D) : Type 0 where
      cleared : Cleared c r done w.cache
      sized : IsSized c.geometry w.request
      asked :
          (p : Place)
          → InCache c p
          → done p.0 p.1 ≡ true
          → in_range r (line_at c p).tag ≡ true
          → needs (line_at c p) ≡ true
          → Done (line_at c p).tag w.device

    Passed-ext :
        (done all : ℕ → ℕ → Bool) (w : Sweep D)
        → ((i k : ℕ) → done i k ≡ all i k)
        → Passed done w
        → Passed all w
    Passed-ext done all w e s = record {
      cleared = Cleared-ext all e s.cleared;
      sized = s.sized;
      asked = λ p h d. s.asked p h (e p.0 p.1 ∙ d);
    }

    -- A line and what the loops have left of it.
    same_line :
        {done : ℕ → ℕ → Bool} {w : Sweep D} (p : Place)
        → InCache c p
        → Passed done w
        → ((line_at w.cache p).tag ≡ (line_at c p).tag)
          × (needs (line_at w.cache p) ≡ needs (line_at c p))
    same_line p h s = (
      ground (arith, s.cleared.lines p h),
      ground (arith, s.cleared.lines p h, same_need (line_at c p)),
    )

    ask_line-Passed :
        (done : ℕ → ℕ → Bool) (w : Sweep D) (p : Place)
        → InCache c p
        → Passed done w
        → Passed (and_place done p) (ask_line r w p)
    unfolding ask_line
    ask_line-Passed done w p here s =
        let x = line_at w.cache p in
        let cleared : Cleared c r (and_place done p) (ask_line r w p).cache =
          rw (ask_line-clears r w p) (clear_line-Cleared p here s.cleared) in
        let (is_tag, is_need) = same_line p here s in
        let named = name_unit w.cache.geometry w.request x.tag in
        let k : Clock D = record {
          tick = w.tick + cache_latency w.cache.geometry * 8;
          device = w.device;
        } in
        let sized : IsSized c.geometry named =
          rw s.cleared.same_geometry (name_unit-IsSized pos s.sized x.tag) in
        let names : Names c.geometry named x.tag =
          rw s.cleared.same_geometry (name_unit-Names pos s.sized x.tag) in
        let there = same_place-eq p in
        elim (Bool-cases (in_range r x.tag)) [
          | inl e ↦ elim (Bool-cases (needs x)) [
            | inl n ↦ record {
              cleared = cleared;
              sized = rw (e, n) sized;
              asked = λ q hq d inside need. elim (Bool-cases (done q.0 q.1)) [
                | inl before ↦ rw (e, n) (keeps named k _ (s.asked q hq before inside need))
                | inr fresh ↦
                    let q_is : p ≡ q = there q (ground arith) in
                    rw (e, n)
                      (subst (λ t. Done t (ask named k).device)
                        (is_tag ∙ ap (λ p. (line_at c p).tag) q_is) (does named k x.tag names))
              ];
            }
            | inr n ↦ record {
              cleared = cleared;
              sized = rw (e, n) s.sized;
              asked = λ q hq d inside need. elim (Bool-cases (done q.0 q.1)) [
                | inl before ↦ rw (e, n) (s.asked q hq before inside need)
                | inr fresh ↦
                    let q_is : p ≡ q = there q (ground arith) in
                    absurd (ground (arith, n, is_need, ap (λ p. needs (line_at c p)) q_is))
              ];
            }
          ]
          | inr e ↦ record {
            cleared = cleared;
            sized = rw e s.sized;
            asked = λ q hq d inside need. elim (Bool-cases (done q.0 q.1)) [
              | inl before ↦ rw e (s.asked q hq before inside need)
              | inr fresh ↦
                  let q_is : p ≡ q = there q (ground arith) in
                  absurd (ground (arith, e, is_tag, ap (λ p. (line_at c p).tag) q_is))
            ];
          }
        ]

    sweep-Passed :
        (k : Clock D)
        → IsShaped c
        → c.geometry.line_count_in_super_page < 2 ^ 32
        → Passed (everywhere c) (sweep_sets (ask_line r) c.geometry.set_size (start_sweep c k) 0)
    sweep-Passed k v small =
        sweep-keeps (ask_line r) c Passed Passed-ext
          (λ done w s. ap (λ g. g.way_size) s.cleared.same_geometry) ask_line-Passed
          (start_sweep c k)
          (record {
            cleared = record {
              same_geometry = refl;
              same_evict = refl;
              shaped = v;
              lines = λ p h. refl;
            };
            sized = record {
              bits = create-IsValid c.geometry.line_count_in_super_page small;
              size = data_size-create c.geometry.line_count_in_super_page;
            };
            asked = λ p h d e n. cc;
          })

-- The rounds of the source are of this form.
flush_line-ask :
    {D : Type 0} (hw : Lower D) (r : LpnRange)
    → flush_line hw r ≡ ask_line hw.ftl_write (λ x. x.dirty) r
unfolding flush_line ask_line
flush_line-ask hw r = refl

trim_line-ask :
    {D : Type 0} (hw : Lower D) (r : LpnRange) → trim_line hw r ≡ ask_line hw.ftl_trim (λ x. true) r
unfolding trim_line ask_line
trim_line-ask hw r = refl

module _ {D : Type 0} (hw : Lower D) (Done : ℕ → D → Type 0) {c : Cache} (v : IsCoherent c)
    (small : c.geometry.line_count_in_super_page < 2 ^ 32) (cached : has_cache c ≡ true)
    (latency : (f : CacheFunction) (k : Clock D) (lca : ℕ)
      → Done lca k.device
      → Done lca (hw.apply_latency f k).device) where
  -- In a coherent cache with caching, flush() invalidates exactly the lines of the range, and
  -- leaves a coherent cache. Whatever a write by the FTL of a request that names an LCA achieves
  -- for good, is achieved for every dirty line of the range; a page has less than 2^32 lines.
  pub flush-Swept :
      ((q : State.Request) (k : Clock D) (lca : ℕ)
        → Names c.geometry q lca
        → Done lca (hw.ftl_write q k).device)
      → ((q : State.Request) (k : Clock D) (lca : ℕ)
          → Done lca k.device
          → Done lca (hw.ftl_write q k).device)
      → (r : LpnRange) (k : Clock D)
      → Swept c r (flush hw c r k).0
        × ((p : Place)
            → InCache c p
            → in_range r (line_at c p).tag ≡ true
            → (line_at c p).dirty ≡ true
            → Done (line_at c p).tag (flush hw c r k).1.device)
  unfolding flush
  flush-Swept does keeps r k =
      let s =
        sweep-Passed hw.ftl_write (λ x. x.dirty) Done c v.lines_pos does keeps (λ x. refl) r k
          v.shaped small in
      rw (cached, flush_line-ask hw r)
        (
          Cleared-Swept v s.cleared,
          λ p h inside dirty.
              latency cache_flush _ _ (s.asked p h (ground (arith, h)) inside dirty),
        )

  -- In a coherent cache with caching, trim() invalidates exactly the lines of the range, and leaves
  -- a coherent cache. Whatever a trim by the FTL of a request that names an LCA achieves for good,
  -- is achieved for every line of the range that the cache has; a page has less than 2^32 lines.
  pub trim-Swept :
      ((q : State.Request) (k : Clock D) (lca : ℕ)
        → Names c.geometry q lca
        → Done lca (hw.ftl_trim q k).device)
      → ((q : State.Request) (k : Clock D) (lca : ℕ)
          → Done lca k.device
          → Done lca (hw.ftl_trim q k).device)
      → (r : LpnRange) (k : Clock D)
      → Swept c r (trim hw c r k).0
        × ((p : Place)
            → InCache c p
            → in_range r (line_at c p).tag ≡ true
            → Done (line_at c p).tag (trim hw c r k).1.device)
  unfolding trim
  trim-Swept does keeps r k =
      let s =
        sweep-Passed hw.ftl_trim (λ x. true) Done c v.lines_pos does keeps (λ x. refl) r k v.shaped
          small in
      rw (cached, trim_line-ask hw r)
        (
          Cleared-Swept v s.cleared,
          λ p h inside. latency cache_trim _ _ (s.asked p h (ground (arith, h)) inside refl),
        )
