-- ===== src/Icl/Cache/Evictions.antt =====
-- icl/generic_cache.cc: what evictCache() does to the lines that are set aside.
use simple_ssd.Base.{
  ℕ, zero, suc, ◌+◌, ◌≤◌, ◌<◌, ◌≡◌, ◌∙◌, inl, inr, refl, Bool, true, false, ◌&&◌, ◌||◌, [], Option,
  none, some, arith, ltb, leb, ◌==◌, if◌then◌else◌, get_or, set, get_or-set, length-set, Bool-cases,
  Option-cases, ℕ_discrete,
}
use simple_ssd.Icl.Cache.State.{Place, Cache, Lower, line_at, put_line, evict_at, put_evict}
use simple_ssd.Icl.Cache.Lines.{IsShaped, line_at-put_line, put_line-IsShaped, evict_data-IsShaped}
use simple_ssd.Icl.Cache.Coherent.{IsGrid, PointsIn, Weaker, Weaker-refl, Weaker-trans}
use simple_ssd.Icl.Cache.Evict.{
  evicted_line, write_back, evict_one, evict_row, evict_rows, evict_cache,
}

-- A store into the grid.
module _ {c : Cache} (g : IsGrid c) (row col : ℕ) (hr : row < c.geometry.line_count_in_super_page)
    (hc : col < c.geometry.conf.parallel_io) (p : Option Place) where
  row_after :
      (r : ℕ)
      → get_or (put_evict c row col p).evict_data r []
        ≡ (if row == r then set (get_or c.evict_data row []) col p else get_or c.evict_data r [])
  row_after r =
      get_or-set c.evict_data row r (set (get_or c.evict_data row []) col p) []
        (omega (arith, g.rows))

  pub evict_at-put_evict :
      (r k : ℕ)
      → evict_at (put_evict c row col p) r k
        ≡ (if row == r && (col == k) then p else evict_at c r k)
  evict_at-put_evict r k = elim (ℕ_discrete row r) [
    | yes e ↦ ground (
      arith,
      row_after r,
      get_or-set (get_or c.evict_data row []) col k p none (omega (arith, g.cols row hr)),
    )
    | no ne ↦ ground (arith, row_after r)
  ]

  pub put_evict-IsGrid : IsGrid (put_evict c row col p)
  put_evict-IsGrid = record {
    rows = length-set c.evict_data row (set (get_or c.evict_data row []) col p) ∙ g.rows;
    cols = λ r h. ground (
      arith,
      row_after r,
      g.cols r h,
      g.cols row hr,
      length-set (get_or c.evict_data row []) col p,
    );
  }

-- What evicting the positions of `done` does: their lines are invalid, and they are cleared.
pub record Evicts (c : Cache) (done : ℕ → ℕ → Bool) (c' : Cache) : Type 0 where
  pub weaker : Weaker c c'
  pub grid : IsGrid c'
  pub cleared : (r k : ℕ) → done r k ≡ true → evict_at c' r k ≡ none
  pub kept : (r k : ℕ) → done r k ≡ false → evict_at c' r k ≡ evict_at c r k
  pub gone :
      (r k : ℕ) (p : Place)
      → done r k ≡ true
      → evict_at c r k ≡ some p
      → (line_at c' p).valid ≡ false

Evicts-none : {c : Cache} → IsShaped c → IsGrid c → Evicts c (λ r k. false) c
Evicts-none v g = record {
  weaker = Weaker-refl v;
  grid = g;
  cleared = λ r k e. cc;
  kept = λ r k e. refl;
  gone = λ r k p e h. cc;
}

Evicts-ext :
    {c c' : Cache} {done : ℕ → ℕ → Bool} (all : ℕ → ℕ → Bool)
    → ((r k : ℕ) → done r k ≡ all r k)
    → Evicts c done c'
    → Evicts c all c'
Evicts-ext {done = done} all e s = record {
  weaker = s.weaker;
  grid = s.grid;
  cleared = λ r k h. s.cleared r k (ground (arith, e r k));
  kept = λ r k h. s.kept r k (ground (arith, e r k));
  gone = λ r k p h at. s.gone r k p (ground (arith, e r k)) at;
}

Evicts-trans :
    {a b c : Cache} {first second : ℕ → ℕ → Bool}
    → PointsIn a
    → Evicts a first b
    → Evicts b second c
    → Evicts a (λ r k. first r k || second r k) c
Evicts-trans {a} {b} {c} {first} {second} points s t = record {
  weaker = Weaker-trans s.weaker t.weaker;
  grid = t.grid;
  cleared = λ r k h. elim (Bool-cases (second r k)) [
    | inl e ↦ t.cleared r k e
    | inr e ↦ t.kept r k e ∙ s.cleared r k (ground arith)
  ];
  kept = λ r k h. t.kept r k (ground arith) ∙ s.kept r k (ground arith);
  gone = λ r k p h at. elim (Bool-cases (first r k)) [
    | inr e ↦ t.gone r k p (ground arith) (s.kept r k e ∙ at)
    | inl e ↦
        let was = s.gone r k p e at in
        ground (arith, was, points r k p at, t.weaker.lines p, s.weaker.same_geometry)
  ];
}

-- Pointers that are left are still to lines of the cache.
pub Evicts-PointsIn :
    {c c' : Cache} {done : ℕ → ℕ → Bool} → Evicts c done c' → PointsIn c → PointsIn c'
Evicts-PointsIn {c} {c'} {done} s points r k p at = elim (Bool-cases (done r k)) [
  | inl e ↦ ground (arith, s.cleared r k e)
  | inr e ↦ ground (arith, s.kept r k e, points r k p, s.weaker.same_geometry)
]

abbrev this : ℕ → ℕ → ℕ → ℕ → Bool
this row col r k = row == r && (col == k)

-- The positions of `n` columns, and of `n` rows of `m` columns.
abbrev in_columns : ℕ → ℕ → ℕ → ℕ → ℕ → Bool
in_columns n row col r k = row == r && (leb col k && ltb k (col + n))

abbrev in_area : ℕ → ℕ → ℕ → ℕ → ℕ → Bool
in_area n m row r k = (leb row r && ltb r (row + n)) && ltb k m

module _ {D : Type 0} (hw : Lower D) (tick : ℕ) where
  pub evict_one-Evicts :
      {c : Cache} (row col : ℕ) (d : D)
      → IsShaped c
      → IsGrid c
      → PointsIn c
      → row < c.geometry.line_count_in_super_page
      → col < c.geometry.conf.parallel_io
      → Evicts c (this row col) (evict_one hw c row col tick true d).0
  unfolding evict_one
  evict_one-Evicts {c} row col d v g points hr hc = elim (Option-cases (evict_at c row col)) [
    | inl e ↦
        rw (evict_one, e)
          (record {
            weaker = Weaker-refl v;
            grid = g;
            cleared = λ r k h. ground (arith, e);
            kept = λ r k h. refl;
            gone = λ r k p h at. ground (arith, e);
          })
    | inr (p, e) ↦
        let here = points row col p e in
        let at = (write_back hw c (line_at c p) row tick d).tick in
        let x = evicted_line (line_at c p) true at in
        let c' = put_line c p x in
        let after = λ (q : Place). line_at-put_line v p x here q in
        let clear = λ (r k : ℕ).
          evict_at-put_evict {c = c'} (record { rows = g.rows; cols = g.cols }) row col hr hc none r
            k in
        rw (evict_one, e)
          (record {
            weaker = record {
              same_geometry = refl;
              shaped =
                  evict_data-IsShaped (put_evict c' row col none).evict_data
                    (put_line-IsShaped v p x here);
              lines = λ q hq. ground (arith, after q);
            };
            grid =
                put_evict-IsGrid {c = c'} (record { rows = g.rows; cols = g.cols }) row col hr hc
                  none;
            cleared = λ r k h. ground (arith, clear r k);
            kept = λ r k h. ground (arith, clear r k);
            gone = λ r k q h at. ground (arith, after q, e);
          })
  ]

  pub evict_row-Evicts :
      (n : ℕ) {c : Cache} (row col : ℕ) (d : D)
      → IsShaped c
      → IsGrid c
      → PointsIn c
      → row < c.geometry.line_count_in_super_page
      → col + n ≤ c.geometry.conf.parallel_io
      → Evicts c (in_columns n row col) (evict_row hw n c row col tick true d).0
  unfolding evict_row
  evict_row-Evicts zero {c} row col d v g points hr hc =
      Evicts-ext (in_columns 0 row col) (λ r k. ground arith) (Evicts-none v g)
  evict_row-Evicts (suc n) {c} row col d v g points hr hc =
      let one = evict_one-Evicts {c = c} row col d v g points hr (omega arith) in
      let next = evict_one hw c row col tick true d in
      let rest =
        evict_row-Evicts n {c = next.0} row (col + 1) next.1 one.weaker.shaped one.grid
          (Evicts-PointsIn one points) (ground (arith, one.weaker.same_geometry))
          (ground (arith, one.weaker.same_geometry)) in
      Evicts-ext (in_columns (suc n) row col) (λ r k. ground arith) (Evicts-trans points one rest)

  evict_rows-Evicts :
      (n : ℕ) {c : Cache} (row : ℕ) (d : D)
      → IsShaped c
      → IsGrid c
      → PointsIn c
      → row + n ≤ c.geometry.line_count_in_super_page
      → Evicts c (in_area n c.geometry.conf.parallel_io row) (evict_rows hw n c row tick true d).0
  unfolding evict_rows
  evict_rows-Evicts zero {c} row d v g points hr =
      Evicts-ext (in_area 0 c.geometry.conf.parallel_io row) (λ r k. ground arith) (Evicts-none v g)
  evict_rows-Evicts (suc n) {c} row d v g points hr =
      let m = c.geometry.conf.parallel_io in
      let one = evict_row-Evicts m {c = c} row 0 d v g points (omega arith) (omega arith) in
      let next = evict_row hw m c row 0 tick true d in
      let rest =
        evict_rows-Evicts n {c = next.0} (row + 1) next.1 one.weaker.shaped one.grid
          (Evicts-PointsIn one points) (ground (arith, one.weaker.same_geometry)) in
      let same : next.0.geometry.conf.parallel_io ≡ m = ground (arith, one.weaker.same_geometry) in
      Evicts-ext (in_area (suc n) m row) (λ r k. ground (arith, same))
        (Evicts-trans points one rest)

  -- Every position is cleared, and its line is invalid.
  pub evict_cache-Evicts :
      {c : Cache} (d : D)
      → IsShaped c
      → IsGrid c
      → PointsIn c
      → Evicts c
          (in_area c.geometry.line_count_in_super_page c.geometry.conf.parallel_io 0)
          (evict_cache hw c tick true d).0
  unfolding evict_cache
  evict_cache-Evicts {c} d v g points =
      evict_rows-Evicts c.geometry.line_count_in_super_page {c = c} 0 d v g points (omega arith)
