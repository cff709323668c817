-- ===== src/Icl/Cache/Placed.antt =====
-- icl/generic_cache.cc: a line that is stored for an LCA, in a coherent cache.
use simple_ssd.Base.{
  ℕ, ◌+◌, ◌<◌, ◌≡◌, ◌≢◌, ◌∙◌, ap, ◌⊎◌, inl, inr, refl, Bool, true, false, ◌&&◌, [], none, arith,
  ltb, leb, get_or, Bool-cases, get_or_above,
}
use simple_ssd.Icl.Cache.State.{
  Line, Place, Cache, Lower, line_at, put_line, evict_at, max64, calc_set_index,
}
use simple_ssd.Icl.Cache.Lines.{IsShaped, InCache, same_place, line_at-put_line}
use simple_ssd.Icl.Cache.Search.{holds, set_index-lt, get_empty_way-Least}
use simple_ssd.Icl.Cache.Ways.{get_empty_way}
use simple_ssd.Icl.Cache.Coherent.{IsCoherent, Weaker, Weaker-IsCoherent, put_line-IsCoherent}
use simple_ssd.Icl.Cache.Evict.{evict_cache}
use simple_ssd.Icl.Cache.Evictions.{Evicts, evict_cache-Evicts}
use simple_ssd.Icl.Cache.Chosen.{Chosen}

-- After a write of an LCA: the cache is coherent, one line holds it, and the others are the lines
-- that were there, or invalid.
pub record Stored (c c' : Cache) (lca : ℕ) (dirty : Bool) : Type 0 where
  pub same_geometry : c'.geometry ≡ c.geometry
  pub coherent : IsCoherent c'
  pub place : Place
  pub here : InCache c place
  pub valid : (line_at c' place).valid ≡ true
  pub tag : (line_at c' place).tag ≡ lca
  pub is_dirty : (line_at c' place).dirty ≡ dirty
  pub others :
      (q : Place)
      → InCache c q
      → same_place place q ≡ false
      → (line_at c' q ≡ line_at c q) ⊎ ((line_at c' q).valid ≡ false)

-- No line of the cache holds the LCA.
abbrev pub IsAbsent : Cache → ℕ → Type 0
IsAbsent c lca =
    (j : ℕ)
    → j < c.geometry.way_size
    → holds lca (line_at c (calc_set_index c.geometry lca, j)) ≡ false

pub IsAbsent-Weaker :
    {c c' : Cache} (lca : ℕ) → IsCoherent c → Weaker c c' → IsAbsent c lca → IsAbsent c' lca
IsAbsent-Weaker {c} {c'} lca v w absent j hj =
    let i = calc_set_index c.geometry lca in
    let hi : i < c.geometry.set_size = set_index-lt c.geometry lca v.shaped.sets_pos in
    let j_lt : j < c.geometry.way_size = ground (arith, hj, w.same_geometry) in
    let at : calc_set_index c'.geometry lca ≡ i = ap (λ g. calc_set_index g lca) w.same_geometry in
    ground (arith, at, w.lines (i, j) (hi, j_lt), absent j j_lt)

-- Storing a line for an LCA that is absent, or again at its place.
pub put_absent-Stored :
    {c s : Cache} (lca way : ℕ) (x : Line)
    → IsCoherent s
    → IsCoherent c
    → Weaker s c
    → IsAbsent c lca
    → way < c.geometry.way_size
    → x.tag ≡ lca
    → x.valid ≡ true
    → x.inserted_at < max64
    → (i : ℕ) → i ≡ calc_set_index c.geometry lca
    → (after : Stored s (put_line c (i, way) x) lca x.dirty) × (after.place ≡ (i, way))
put_absent-Stored {c} {s} lca way x vs v w absent hw is_lca valid early i at =
    let hi : i < c.geometry.set_size = rw at (set_index-lt c.geometry lca v.shaped.sets_pos) in
    let after = λ (q : Place). line_at-put_line v.shaped (i, way) x (hi, hw) q in
    let mine = after (i, way) in
    (
      record {
        same_geometry = w.same_geometry;
        coherent =
            put_line-IsCoherent v (i, way) x (hi, hw) (ground (arith, at, is_lca))
              (λ q hq e t. ground (arith, at, is_lca, v.home q hq, absent q.1 hq.1)) early;
        place = (i, way);
        here = ground (arith, hi, hw, w.same_geometry);
        valid = ground (arith, mine);
        tag = ground (arith, mine);
        is_dirty = ground (arith, mine);
        others = λ q hq ne. ground (arith, after q, w.lines q hq);
      },
      refl,
    )

pub put_found-Stored :
    {c : Cache} (lca way : ℕ) (x : Line)
    → IsCoherent c
    → way < c.geometry.way_size
    → (i : ℕ) → i ≡ calc_set_index c.geometry lca
    → holds lca (line_at c (i, way)) ≡ true
    → x.tag ≡ lca
    → x.valid ≡ true
    → x.inserted_at < max64
    → (after : Stored c (put_line c (i, way) x) lca x.dirty) × (after.place ≡ (i, way))
put_found-Stored {c} lca way x v hw i at found is_lca valid early =
    let hi : i < c.geometry.set_size = rw at (set_index-lt c.geometry lca v.shaped.sets_pos) in
    let after = λ (q : Place). line_at-put_line v.shaped (i, way) x (hi, hw) q in
    let mine = after (i, way) in
    (
      record {
        same_geometry = refl;
        coherent =
            put_line-IsCoherent v (i, way) x (hi, hw) (ground (arith, at, is_lca))
              (λ q hq e t.
                v.unique (i, way) q (hi, hw) hq (ground (arith, found)) e
                  (ground (arith, found, is_lca)))
              early;
        place = (i, way);
        here = (hi, hw);
        valid = ground (arith, mine);
        tag = ground (arith, mine);
        is_dirty = ground (arith, mine);
        others = λ q hq ne. ground (arith, after q);
      },
      refl,
    )

-- A full set.
pub full-valid :
    {s : Cache} (v : IsCoherent s) (i tick : ℕ)
    → i < s.geometry.set_size
    → (get_empty_way s i tick).0 ≡ s.geometry.way_size
    → (way : ℕ) → way < s.geometry.way_size
    → (line_at s (i, way)).valid ≡ true
full-valid {s} v i tick hi full way hw = elim (Bool-cases (line_at s (i, way)).valid) [
  | inl e ↦ e
  | inr e ↦ elim (get_empty_way-Least v.shaped i tick hi) [
    | inl (at, late) ↦ absurd (omega (arith, late way hw e, v.timely (i, way) (hi, hw)))
    | inr (lt, _, _) ↦ absurd (omega (arith, lt, full))
  ]
]

module _ {D : Type 0} (hw : Lower D) {s : Cache} (v : IsCoherent s) (i tick : ℕ)
    (hi : i < s.geometry.set_size) (d : D) (chosen : Cache) (f : Chosen s i chosen) where
  abbrev evicted : Cache
  evicted = (evict_cache hw chosen tick true d).0

  chosen-IsShaped : IsShaped chosen
  chosen-IsShaped = record {
    sets = ground (arith, f.offered.same_data, f.offered.same_geometry, v.shaped.sets);
    ways = λ j hj. ground (
      arith,
      f.offered.same_data,
      f.offered.same_geometry,
      v.shaped.ways j (ground (arith, hj, f.offered.same_geometry)),
    );
    sets_pos = ground (arith, f.offered.same_geometry, v.shaped.sets_pos);
    ways_pos = ground (arith, f.offered.same_geometry, v.shaped.ways_pos);
  }

  chosen-Evicts :
      Evicts chosen
        (λ r k.
          (leb 0 r && ltb r (0 + chosen.geometry.line_count_in_super_page))
          && ltb k chosen.geometry.conf.parallel_io)
        evicted
  chosen-Evicts =
      evict_cache-Evicts hw tick {c = chosen} d chosen-IsShaped f.offered.grid
        (λ r k p e. ground (arith, f.offered.victims r k p e, f.offered.same_geometry))

  pub evicted-Weaker : Weaker s evicted
  evicted-Weaker =
      let w = chosen-Evicts.weaker in
      record {
        same_geometry = w.same_geometry ∙ f.offered.same_geometry;
        shaped = w.shaped;
        lines = λ p h.
            ground
              (arith, w.lines p (ground (arith, h, f.offered.same_geometry)), f.offered.same_data);
      }

  evicted-idle : (r k : ℕ) → evict_at evicted r k ≡ none
  evicted-idle r k =
      let e = chosen-Evicts in
      let g = f.offered.grid in
      elim (Bool-cases (
        ltb r chosen.geometry.line_count_in_super_page && ltb k chosen.geometry.conf.parallel_io)) [
          | inl inside ↦ e.cleared r k (ground arith)
          | inr outside ↦
              e.kept r k (ground arith)
              ∙ elim (Bool-cases (ltb r chosen.geometry.line_count_in_super_page)) [
                | inl hr ↦
                    get_or_above (get_or chosen.evict_data r []) k none
                      (ground (arith, g.cols r (ground arith)))
                | inr hr ↦
                    let no_row = get_or_above chosen.evict_data r [] (ground (arith, g.rows)) in
                    rw no_row refl
              ]
        ]

  module _ (timely : (p : Place) → InCache s p → (line_at evicted p).inserted_at < max64) where
    pub evicted-IsCoherent : IsCoherent evicted
    evicted-IsCoherent =
        Weaker-IsCoherent v evicted-Weaker chosen-Evicts.grid evicted-idle
          (λ p h. timely p (ground (arith, h, evicted-Weaker.same_geometry)))

    -- There is room for a line of the set.
    pub evicted-way :
        ((get_empty_way evicted i tick).0 < evicted.geometry.way_size)
        × ((get_empty_way evicted i tick).0 ≢ evicted.geometry.way_size)
    evicted-way =
        let e = chosen-Evicts in
        let row_lt : f.row < chosen.geometry.line_count_in_super_page =
          ground (arith, f.row_lt, f.offered.same_geometry) in
        let col_lt : f.col < chosen.geometry.conf.parallel_io =
          ground (arith, f.col_lt, f.offered.same_geometry) in
        let gone = e.gone f.row f.col (i, f.way) (ground (arith, row_lt, col_lt)) f.there in
        let same = evicted-Weaker.same_geometry in
        let lt : f.way < evicted.geometry.way_size = ground (arith, f.way_lt, same) in
        elim (get_empty_way-Least evicted-Weaker.shaped i tick (ground (arith, hi, same))) [
          | inl (at, late) ↦
              absurd (omega (arith, late f.way lt gone, timely (i, f.way) (hi, f.way_lt)))
          | inr (found, _, _) ↦ (found, λ eq. omega (arith, found, eq))
        ]
