-- ===== src/Icl/Cache/Lines.antt =====
-- icl/generic_cache.cc: the lines of the cache as a map from places, and the ways of a set.
use simple_ssd.Base.{
  ℕ, ◌<◌, ◌≡◌, ◌∙◌, Bool, true, ◌&&◌, List, [], Option, arith, ◌==◌, if◌then◌else◌, length, set,
  get_or-set, length-set, ℕ_discrete,
}
use simple_ssd.Icl.Cache.State.{Line, Place, Cache, empty_line, set_of, line_at, put_line}

-- The arrays have the sizes that the geometry says.
pub record IsShaped (c : Cache) : Type 0 where
  pub sets : length c.cache_data ≡ c.geometry.set_size
  pub ways : (i : ℕ) → i < c.geometry.set_size → length (set_of c i) ≡ c.geometry.way_size
  pub sets_pos : 0 < c.geometry.set_size
  pub ways_pos : 0 < c.geometry.way_size

-- A place of the cache, and the test for one place.
abbrev pub InCache : Cache → Place → Type 0
InCache c p = (p.0 < c.geometry.set_size) × (p.1 < c.geometry.way_size)

abbrev pub same_place : Place → Place → Bool
same_place p q = p.0 == q.0 && (p.1 == q.1)

pub same_place-eq : (p q : Place) → same_place p q ≡ true → p ≡ q
same_place-eq (a, b) (i, j) e = let x : a ≡ i = ground arith in let y : b ≡ j = ground arith in cc

module _ {c : Cache} (v : IsShaped c) (p : Place) (x : Line) (here : InCache c p) where
  set_after :
      (i : ℕ)
      → set_of (put_line c p x) i ≡ (if p.0 == i then set (set_of c p.0) p.1 x else set_of c i)
  set_after i =
      get_or-set c.cache_data p.0 i (set (set_of c p.0) p.1 x) [] (omega (arith, v.sets, here.0))

  pub line_at-put_line :
      (q : Place) → line_at (put_line c p x) q ≡ (if same_place p q then x else line_at c q)
  line_at-put_line (i, way) = elim (ℕ_discrete p.0 i) [
    | yes e ↦
        let stored =
          get_or-set (set_of c p.0) p.1 way x empty_line
            (omega (arith, v.ways p.0 here.0, here.1)) in
        ground (arith, set_after i, stored)
    | no ne ↦ ground (arith, set_after i)
  ]

  pub put_line-IsShaped : IsShaped (put_line c p x)
  put_line-IsShaped = record {
    sets = length-set c.cache_data p.0 (set (set_of c p.0) p.1 x) ∙ v.sets;
    ways = λ i hi.
        ground
          (arith, set_after i, v.ways i hi, v.ways p.0 here.0, length-set (set_of c p.0) p.1 x);
    sets_pos = v.sets_pos;
    ways_pos = v.ways_pos;
  }

-- What is set aside is no part of the shape.
pub evict_data-IsShaped :
    {c : Cache} (rows : List (List (Option Place)))
    → IsShaped c
    → IsShaped (record c { evict_data = rows })
evict_data-IsShaped rows v = record {
  sets = v.sets;
  ways = v.ways;
  sets_pos = v.sets_pos;
  ways_pos = v.ways_pos;
}
