-- ===== src/Icl/Cache/Created.antt =====
-- icl/generic_cache.cc: the cache that the constructor leaves.
use native.Mathlib.Nat.{div-le_self}
use simple_ssd.Base.{
  if◌then◌else◌, Bool, true, false, ◌||◌, ◌^◌, ◌/◌, ◌*◌, subst, sym, ℕ, ◌<◌, ◌≡◌, ◌∙◌, ap, inl, inr,
  refl, List, [], Option, none, arith, ltb, length, get_or, Bool-cases, get_or-replicate,
  length-replicate, replicate, get_or_above,
}
use simple_ssd.Icl.Cache.State.{
  Place, Config, Geometry, geometry, build, create, empty_line, set_of, line_at, evict_at,
}
use simple_ssd.Icl.Cache.Lines.{InCache}
use simple_ssd.Icl.Cache.Coherent.{IsCoherent}

if_true {ℓ} : {A : Type ℓ} (b : Bool) (x y : A) → b ≡ true → (if b then x else y) ≡ x
if_true true x y e = refl
if_true false x y e = cc

abbrev no_place : Option Place
no_place = none

module _ (f : Config) where
  abbrev g : Geometry
  g = geometry f

  created_set : (i : ℕ) → i < g.set_size → set_of (build f) i ≡ replicate g.way_size empty_line
  unfolding build
  created_set i h = get_or-replicate g.set_size i (replicate g.way_size empty_line) [] h

  pub created_line : (p : Place) → InCache (build f) p → line_at (build f) p ≡ empty_line
  unfolding build
  created_line (i, way) h =
      ap (λ s. get_or s way empty_line) (created_set i h.0)
      ∙ get_or-replicate g.way_size way empty_line empty_line h.1

  created_row :
      (r : ℕ)
      → r < g.line_count_in_super_page
      → get_or (build f).evict_data r [] ≡ replicate f.parallel_io none
  unfolding build
  created_row r h =
      get_or-replicate g.line_count_in_super_page r (replicate f.parallel_io none) [] h

  created_idle : (r k : ℕ) → evict_at (build f) r k ≡ none
  unfolding build
  created_idle r k = elim (Bool-cases (ltb r g.line_count_in_super_page)) [
    | inl e ↦
        let row = created_row r (ground arith) in
        elim (Bool-cases (ltb k f.parallel_io)) [
          | inl e' ↦
              ap (λ s. get_or s k none) row
              ∙ get_or-replicate f.parallel_io k none none (ground arith)
          | inr e' ↦
              ap (λ s. get_or s k none) row
              ∙ get_or_above (replicate f.parallel_io none) k none
                  (ground (arith, length-replicate f.parallel_io no_place))
        ]
    | inr e ↦
        let rows : List (List (Option Place)) =
          replicate g.line_count_in_super_page (replicate f.parallel_io none) in
        ap (λ s. get_or s k none)
          (get_or_above rows r [] (
            ground (
              arith,
              length-replicate g.line_count_in_super_page (replicate f.parallel_io no_place),
            )))
  ]

module _ (f : Config) (capacity_small : f.cache_size / (geometry f).line_size < 2 ^ 32)
    (ways_small : f.ways < 2 ^ 32)
    (max_small : f.parallel_io * (geometry f).line_count_in_super_page < 2 ^ 32)
    (parallel_pos : 0 < f.parallel_io) (units_pos : 0 < f.io_unit_in_page) where
  abbrev capacity : ℕ
  capacity = f.cache_size / (geometry f).line_size

  sets_small : capacity / f.ways < 2 ^ 32
  sets_small = omega (arith, div-le_self capacity f.ways, capacity_small)

  sizes_pos : (0 < (geometry f).set_size) × (0 < (geometry f).way_size)
  sizes_pos = (grind (arith, sets_small), grind (arith, capacity_small))

  pub build-IsCoherent : IsCoherent (build f)
  unfolding build
  build-IsCoherent = record {
    shaped = record {
      sets = length-replicate (geometry f).set_size (replicate (geometry f).way_size empty_line);
      ways =
          λ i h. ap length (created_set f i h) ∙ length-replicate (geometry f).way_size empty_line;
      sets_pos = sizes_pos.0;
      ways_pos = sizes_pos.1;
    };
    grid = record {
      rows = length-replicate (geometry f).line_count_in_super_page (replicate f.parallel_io none);
      cols = λ r h. ap length (created_row f r h) ∙ length-replicate f.parallel_io no_place;
    };
    lines_pos = ground (arith, units_pos);
    parallel_pos = parallel_pos;
    max_io = grind (arith, max_small);
    home = λ p h e. ground (arith, created_line f p h);
    unique = λ p q hp hq e e' t. ground (arith, created_line f p hp);
    timely = λ p h. ground (arith, created_line f p h);
    idle = created_idle f;
  }

  -- With caching of reads or of writes, for a device with pages in parallel and units in a page,
  -- and if the number of lines, that of the ways and that of the units in parallel fit in a
  -- uint32_t, the constructor leaves a coherent cache.
  pub create-IsCoherent :
      f.use_read_caching || f.use_write_caching ≡ true → (unset : ℕ) → IsCoherent (create unset f)
  unfolding create
  create-IsCoherent cached unset =
      subst IsCoherent (sym (if_true (f.use_read_caching || f.use_write_caching) _ _ cached))
        build-IsCoherent
