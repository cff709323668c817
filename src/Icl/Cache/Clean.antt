-- ===== src/Icl/Cache/Clean.antt =====
-- icl/generic_cache.cc: evictCache() when no line that is set aside is dirty.
use simple_ssd.Base.{
  ℕ, zero, suc, ◌+◌, ◌≤◌, ◌<◌, ◌≡◌, ◌∙◌, ap, inl, inr, refl, true, false, none, some, arith,
  Bool-cases, Option-cases,
}
use simple_ssd.Icl.Cache.State.{Line, Place, Cache, Lower, line_at, put_line, evict_at}
use simple_ssd.Icl.Cache.Lines.{IsShaped, line_at-put_line}
use simple_ssd.Icl.Cache.Coherent.{IsGrid, PointsIn}
use simple_ssd.Icl.Cache.Evict.{
  evicted_line, write_back, evict_one, evict_row, evict_rows, evict_cache,
}
use simple_ssd.Icl.Cache.Evictions.{
  Evicts-PointsIn, evict_at-put_evict, evict_one-Evicts, evict_row-Evicts,
}

-- No line that is set aside is dirty.
abbrev pub IsClean : Cache → Type 0
IsClean c = (r k : ℕ) (p : Place) → evict_at c r k ≡ some p → (line_at c p).dirty ≡ false

module _ {D : Type 0} (hw : Lower D) (tick : ℕ) where
  write_back-clean :
      (c : Cache) (x : Line) (row : ℕ) (d : D)
      → x.dirty ≡ false
      → write_back hw c x row tick d ≡ record { tick = tick; device = d }
  unfolding write_back
  write_back-clean c x row d e = elim (Bool-cases x.valid) [
    | inl v ↦ rw (e, v) refl
    | inr v ↦ rw v refl
  ]

  evict_one-IsClean :
      (c : Cache) (row col : ℕ) (d : D)
      → IsShaped c
      → IsGrid c
      → PointsIn c
      → row < c.geometry.line_count_in_super_page
      → col < c.geometry.conf.parallel_io
      → IsClean c
      → ((evict_one hw c row col tick true d).1 ≡ d)
        × IsClean (evict_one hw c row col tick true d).0
  unfolding evict_one
  evict_one-IsClean c row col d v g points hr hc clean = elim (Option-cases (evict_at c row col)) [
    | inl e ↦ rw (evict_one, e) (refl, clean)
    | inr (p, e) ↦
        let here = points row col p e in
        let back = write_back-clean c (line_at c p) row d (clean row col p e) in
        let x = evicted_line (line_at c p) true (write_back hw c (line_at c p) row tick d).tick in
        let after = λ (q : Place). line_at-put_line v p x here q in
        let clear = λ (r k : ℕ).
          evict_at-put_evict {c = put_line c p x} (record { rows = g.rows; cols = g.cols }) row col
            hr hc none r k in
        rw (evict_one, e)
          (ap (λ k. k.device) back, λ r k q at. ground (arith, clear r k, after q, clean r k q))
  ]

  evict_row-IsClean :
      (n : ℕ) (c : Cache) (row col : ℕ) (d : D)
      → IsShaped c
      → IsGrid c
      → PointsIn c
      → row < c.geometry.line_count_in_super_page
      → col + n ≤ c.geometry.conf.parallel_io
      → IsClean c
      → ((evict_row hw n c row col tick true d).1 ≡ d)
        × IsClean (evict_row hw n c row col tick true d).0
  unfolding evict_row
  evict_row-IsClean zero c row col d v g points hr hc clean = (refl, clean)
  evict_row-IsClean (suc n) c row col d v g points hr hc clean =
      let one = evict_one-Evicts hw tick {c = c} row col d v g points hr (omega arith) in
      let (same, still) = evict_one-IsClean c row col d v g points hr (omega arith) clean in
      let next = evict_one hw c row col tick true d in
      let (same', still') =
        evict_row-IsClean n next.0 row (col + 1) next.1 one.weaker.shaped one.grid
          (Evicts-PointsIn one points) (ground (arith, one.weaker.same_geometry))
          (ground (arith, one.weaker.same_geometry)) still in
      (same' ∙ same, still')

  evict_rows-IsClean :
      (n : ℕ) (c : Cache) (row : ℕ) (d : D)
      → IsShaped c
      → IsGrid c
      → PointsIn c
      → row + n ≤ c.geometry.line_count_in_super_page
      → IsClean c
      → (evict_rows hw n c row tick true d).1 ≡ d
  unfolding evict_rows
  evict_rows-IsClean zero c row d v g points hr clean = refl
  evict_rows-IsClean (suc n) c row d v g points hr clean =
      let m = c.geometry.conf.parallel_io in
      let one = evict_row-Evicts hw tick m {c = c} row 0 d v g points (omega arith) (omega arith) in
      let (same, still) =
        evict_row-IsClean m c row 0 d v g points (omega arith) (omega arith) clean in
      let next = evict_row hw m c row 0 tick true d in
      evict_rows-IsClean n next.0 (row + 1) next.1 one.weaker.shaped one.grid
        (Evicts-PointsIn one points) (ground (arith, one.weaker.same_geometry)) still
      ∙ same

  pub evict_cache-IsClean :
      (c : Cache) (d : D)
      → IsShaped c
      → IsGrid c
      → PointsIn c
      → IsClean c
      → (evict_cache hw c tick true d).1 ≡ d
  unfolding evict_cache
  evict_cache-IsClean c d v g points clean =
      evict_rows-IsClean c.geometry.line_count_in_super_page c 0 d v g points (omega arith) clean
