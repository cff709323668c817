-- ===== src/Icl/Cache/Victims.antt =====
-- icl/generic_cache.cc: the victims that write() chooses when a set is full.
use simple_ssd.Base.{
  ℕ, zero, suc, ◌+◌, ◌≤◌, ◌<◌, ◌≡◌, ◌∙◌, sym, ◌⊎◌, inl, inr, refl, true, ◌&&◌, Option, none, some,
  arith, ltb, ◌==◌, Bool-cases,
}
use simple_ssd.Icl.Cache.State.{
  Place, Cache, Geometry, line_at, evict_at, put_evict, calc_io_position,
}
use simple_ssd.Icl.Cache.Lines.{InCache}
use simple_ssd.Icl.Cache.Ways.{compare_lines, stamp}
use simple_ssd.Icl.Cache.Coherent.{IsGrid, IsCoherent}
use simple_ssd.Icl.Cache.Position.{calc_io_position-InGrid}
use simple_ssd.Icl.Cache.Evictions.{evict_at-put_evict, put_evict-IsGrid}
use simple_ssd.Icl.Cache.Store.{offer, offer_ways, offer_sets}

-- A pointer, if there is one, is to a valid line of the cache.
abbrev pub IsVictim : Cache → Option Place → Type 0
IsVictim c o = (q : Place) → o ≡ some q → InCache c q × ((line_at c q).valid ≡ true)

pub compare_lines-either :
    (c : Cache) (a b : Option Place) → (compare_lines c a b ≡ a) ⊎ (compare_lines c a b ≡ b)
unfolding compare_lines
compare_lines-either c none b = inr refl
compare_lines-either c (some a) none = inl refl
compare_lines-either c (some a) (some b) =
    elim (Bool-cases (
      ltb (stamp c.geometry.conf.policy (line_at c a))
        (stamp c.geometry.conf.policy (line_at c b)))) [ inl e ↦ inl (rw e) | inr e ↦ inr (rw e) ]

pub compare_lines-IsVictim :
    (s c : Cache) (a b : Option Place)
    → IsVictim s a
    → IsVictim s b
    → IsVictim s (compare_lines c a b)
compare_lines-IsVictim s c a b ha hb q e = elim (compare_lines-either c a b) [
  | inl is_a ↦ ha q (sym is_a ∙ e)
  | inr is_b ↦ hb q (sym is_b ∙ e)
]

-- `c` is the cache `s` with valid lines set aside.
pub record Offered (s c : Cache) : Type 0 where
  pub same_data : c.cache_data ≡ s.cache_data
  pub same_geometry : c.geometry ≡ s.geometry
  pub grid : IsGrid c
  pub victims : (r k : ℕ) → IsVictim s (evict_at c r k)

module _ {s : Cache} (v : IsCoherent s) where
  pub row_col-lt :
      (lca : ℕ)
      → ((calc_io_position s.geometry lca).0 < s.geometry.line_count_in_super_page)
        × ((calc_io_position s.geometry lca).1 < s.geometry.conf.parallel_io)
  row_col-lt lca =
      let (row_lt, col_lt, _) =
        calc_io_position-InGrid s.geometry s.geometry.conf.parallel_io lca v.lines_pos
          v.parallel_pos v.max_io in
      (row_lt, col_lt)

  pub put_evict-Offered :
      (g : Geometry) {c : Cache} (lca : ℕ) (o : Option Place)
      → g ≡ s.geometry
      → Offered s c
      → IsVictim s o
      → Offered s (put_evict c (calc_io_position g lca).0 (calc_io_position g lca).1 o)
  put_evict-Offered g {c} lca o same f h =
      let at = calc_io_position g lca in
      let (row_s, col_s) = row_col-lt lca in
      let row_lt : at.0 < c.geometry.line_count_in_super_page =
        ground (arith, f.same_geometry, same, row_s) in
      let col_lt : at.1 < c.geometry.conf.parallel_io =
        ground (arith, f.same_geometry, same, col_s) in
      let after = λ (r k : ℕ). evict_at-put_evict f.grid at.0 at.1 row_lt col_lt o r k in
      record {
        same_data = f.same_data;
        same_geometry = f.same_geometry;
        grid = put_evict-IsGrid f.grid at.0 at.1 row_lt col_lt o;
        victims = λ r k q e. elim (Bool-cases (at.0 == r && (at.1 == k))) [
          | inl here ↦ h q (ground (arith, after r k))
          | inr other ↦ f.victims r k q (ground (arith, after r k))
        ];
      }

  offer-Offered : {c : Cache} (p : Place) → Offered s c → InCache s p → Offered s (offer c p)
  unfolding offer
  offer-Offered {c} p f here = elim (Bool-cases (line_at c p).valid) [
    | inl e ↦
        let at = calc_io_position c.geometry (line_at c p).tag in
        let valid : (line_at s p).valid ≡ true = ground (arith, f.same_data) in
        rw e (
          put_evict-Offered c.geometry (line_at c p).tag
            (compare_lines c (evict_at c at.0 at.1) (some p)) f.same_geometry f
            (compare_lines-IsVictim s c (evict_at c at.0 at.1) (some p) (f.victims at.0 at.1)
              (λ q eq. ground (arith, here, valid))))
    | inr e ↦ rw e f
  ]

  offer_ways-Offered :
      (n : ℕ) {c : Cache} (i way : ℕ)
      → Offered s c
      → i < s.geometry.set_size
      → way + n ≤ s.geometry.way_size
      → Offered s (offer_ways n c i way)
  unfolding offer_ways
  offer_ways-Offered zero i way f hi hw = f
  offer_ways-Offered (suc n) i way f hi hw =
      offer_ways-Offered n i (way + 1) (offer-Offered (i, way) f (hi, omega arith)) hi (omega arith)

  pub offer_sets-Offered :
      (n : ℕ) {c : Cache} (i : ℕ)
      → Offered s c
      → i + n ≤ s.geometry.set_size
      → Offered s (offer_sets n c i)
  unfolding offer_sets
  offer_sets-Offered zero i f hi = f
  offer_sets-Offered (suc n) {c} i f hi =
      offer_sets-Offered n (i + 1)
        (offer_ways-Offered c.geometry.way_size i 0 f (omega arith)
          (ground (arith, f.same_geometry)))
        (omega arith)
