-- ===== src/Icl/Cache/Position.antt =====
-- icl/generic_cache.cc: calcIOPosition().
use native.Mathlib.Nat.{mod-lt, div-add-mod', div-lt_iff_lt-mul, suc-mul}
use simple_ssd.Base.{sym, ℕ, ◌+◌, ◌*◌, ◌%◌, ◌<◌, ◌≡◌, arith, zero, suc}
use simple_ssd.Icl.Cache.State.{Geometry, calc_io_position}

product_pos : (m n : ℕ) → 0 < m → 0 < n → 0 < m * n
product_pos zero n h k = absurd (omega arith)
product_pos (suc m) n h k = omega (arith, suc-mul m n)

-- calcIOPosition() returns a row and a column of the grid of victims, which determine the LCA
-- modulo the size of the grid.
pub calc_io_position-InGrid :
    (g : Geometry) (parallel lca : ℕ)
    → 0 < g.line_count_in_super_page
    → 0 < parallel
    → g.line_count_in_max_io ≡ parallel * g.line_count_in_super_page
    → ((calc_io_position g lca).0 < g.line_count_in_super_page)
      × ((calc_io_position g lca).1 < parallel)
      × (lca % g.line_count_in_max_io
          ≡ (calc_io_position g lca).1 * g.line_count_in_super_page + (calc_io_position g lca).0)
unfolding calc_io_position
calc_io_position-InGrid g parallel lca lines_pos parallel_pos e =
    let tmp = lca % g.line_count_in_max_io in
    let bound : tmp < parallel * g.line_count_in_super_page =
      rw e (mod-lt lca (product_pos parallel g.line_count_in_super_page parallel_pos lines_pos)) in
    (
      mod-lt tmp lines_pos,
      (div-lt_iff_lt-mul lines_pos).1 bound,
      sym (div-add-mod' tmp g.line_count_in_super_page),
    )
