-- ===== src/Icl/Cache/Search.antt =====
-- icl/generic_cache.cc: what getEmptyWay(), getValidWay() and the victim's choice find.
use simple_ssd.Base.{
  ℕ, zero, suc, ◌+◌, ◌*◌, ◌≤◌, ◌<◌, ◌≡◌, ◌⊎◌, inl, inr, refl, Bool, true, false, ◌&&◌, List, [],
  ◌∷◌, arith, ltb, ◌==◌, if◌then◌else◌, length, get_or, Bool-cases,
}
use simple_ssd.Icl.Cache.State.{
  Line, Geometry, Cache, empty_line, set_of, line_at, max64, calc_set_index, cache_latency,
}
use simple_ssd.Icl.Cache.Ways.{
  least_way, is_empty, inserted, get_empty_way, valid_way, get_valid_way, stamp, any_line,
  evict_way,
}
use simple_ssd.Icl.Cache.Lines.{IsShaped}

pub set_index-lt : (g : Geometry) (lca : ℕ) → 0 < g.set_size → calc_set_index g lca < g.set_size
unfolding calc_set_index
set_index-lt g lca h = grind arith

-- Does the line hold the LCA?
abbrev pub holds : ℕ → Line → Bool
holds lca x = x.valid && x.tag == lca

-- Way `k` of the list.
abbrev pub way_of : List Line → ℕ → Line
way_of xs k = get_or xs k empty_line

-- The first line that holds the LCA, or the end of the list.
abbrev ValidWay : ℕ → List Line → ℕ → ℕ → Type 0
ValidWay lca xs i r =
    ((r ≡ i + length xs) × ((k : ℕ) → k < length xs → holds lca (way_of xs k) ≡ false))
    ⊎ ((k : ℕ) × (k < length xs) × (r ≡ i + k) × (holds lca (way_of xs k) ≡ true))

valid_way-ValidWay :
    (cost lca : ℕ) (xs : List Line) (i tick : ℕ)
    → ValidWay lca xs i (valid_way cost lca xs i tick).0
unfolding valid_way
valid_way-ValidWay cost lca [] i tick = inl (omega arith, λ k h. absurd (omega arith))
valid_way-ValidWay cost lca (x ∷ xs) i tick = elim (Bool-cases (holds lca x)) [
  | inl e ↦ inr (0, omega arith, ground arith, e)
  | inr e ↦ elim (valid_way-ValidWay cost lca xs (i + 1) (tick + cost)) [
    | inl (at, none_holds) ↦ inl (ground arith, later e none_holds)
    | inr (k, hk, at, found) ↦ inr (suc k, omega arith, ground arith, found)
  ]
]
  where
    later :
        holds lca x ≡ false
        → ((k : ℕ) → k < length xs → holds lca (way_of xs k) ≡ false)
        → (k : ℕ) → k < suc (length xs)
        → holds lca (way_of (x ∷ xs) k) ≡ false
    later e h zero lt = e
    later e h (suc k) lt = h k (omega arith)

-- The line with the least key of those that are looked at, below the bound.
abbrev Least : (Line → Bool) → (Line → ℕ) → List Line → ℕ → ℕ → ℕ → ℕ → Type 0
Least seen key xs i least found r =
    ((r ≡ found)
      × ((j : ℕ) → j < length xs → seen (way_of xs j) ≡ true → least ≤ key (way_of xs j)))
    ⊎ ((k : ℕ) × (k < length xs)
        × (r ≡ i + k)
        × (seen (way_of xs k) ≡ true)
        × (key (way_of xs k) < least)
        × ((j : ℕ)
            → j < length xs
            → seen (way_of xs j) ≡ true
            → key (way_of xs k) ≤ key (way_of xs j)))

module _ (seen : Line → Bool) (key : Line → ℕ) (cost : ℕ) where
  extend :
      (x : Line) (xs : List Line) (n : ℕ)
      → (seen x ≡ true → n ≤ key x)
      → ((j : ℕ) → j < length xs → seen (way_of xs j) ≡ true → n ≤ key (way_of xs j))
      → (j : ℕ) → j < suc (length xs)
      → seen (way_of (x ∷ xs) j) ≡ true
      → n ≤ key (way_of (x ∷ xs) j)
  extend x xs n h rest zero lt e = h e
  extend x xs n h rest (suc j) lt e = rest j (omega arith) e

  better : Line → ℕ → Bool
  better x least = seen x && ltb (key x) least

  step :
      (x : Line) (xs : List Line) (i least found tick : ℕ) (b : Bool)
      → better x least ≡ b
      → least_way seen key cost (x ∷ xs) i least found tick
        ≡ least_way seen key cost xs
            (i + 1)
            (if b then key x else least)
            (if b then i else found)
            (if seen x then tick + cost else tick)
  unfolding least_way better
  step x xs i least found tick b e = rw e

  least_way-Least :
      (xs : List Line) (i least found tick : ℕ)
      → Least seen key xs i least found (least_way seen key cost xs i least found tick).0
  unfolding least_way better
  least_way-Least [] i least found tick = inl (refl, λ j h e. absurd (omega arith))
  least_way-Least (x ∷ xs) i least found tick = elim (Bool-cases (better x least)) [
    | inl e ↦
        let next = if seen x then tick + cost else tick in
        rw (step x xs i least found tick true e) (elim (least_way-Least xs (i + 1) (key x) i next) [
          | inl (at, low) ↦ inr (
            0,
            omega arith,
            omega (arith, at),
            ground (arith, e),
            ground (arith, e),
            extend x xs (key x) (λ _. omega arith) low,
          )
          | inr (k, hk, at, s, lt, low) ↦ inr (
            suc k,
            omega arith,
            omega (arith, at),
            s,
            ground (arith, e),
            extend x xs (key (way_of xs k)) (λ _. omega arith) low,
          )
        ])
    | inr e ↦
        let next = if seen x then tick + cost else tick in
        rw (step x xs i least found tick false e)
          (elim (least_way-Least xs (i + 1) least found next) [
            | inl (at, low) ↦ inl (at, extend x xs least (λ s. ground (arith, e)) low)
            | inr (k, hk, at, s, lt, low) ↦ inr (
              suc k,
              omega arith,
              omega (arith, at),
              s,
              lt,
              extend x xs (key (way_of xs k)) (λ s'. ground (arith, e)) low,
            )
          ])
  ]

module _ {c : Cache} (v : IsShaped c) (i tick : ℕ) (hi : i < c.geometry.set_size) where
  pub ways_here : length (set_of c i) ≡ c.geometry.way_size
  ways_here = v.ways i hi

  -- In a cache of the right shape, getEmptyWay() returns the invalid way that was inserted first,
  -- or the number of ways if every invalid line has the greatest time.
  pub get_empty_way-Least :
      (((get_empty_way c i tick).0 ≡ c.geometry.way_size)
        × ((j : ℕ)
            → j < c.geometry.way_size
            → (line_at c (i, j)).valid ≡ false
            → max64 ≤ (line_at c (i, j)).inserted_at))
      ⊎ (((get_empty_way c i tick).0 < c.geometry.way_size)
          × ((line_at c (i, (get_empty_way c i tick).0)).valid ≡ false)
          × ((j : ℕ)
              → j < c.geometry.way_size
              → (line_at c (i, j)).valid ≡ false
              → (line_at c (i, (get_empty_way c i tick).0)).inserted_at
                ≤ (line_at c (i, j)).inserted_at))
  unfolding get_empty_way
  get_empty_way-Least =
      elim (least_way-Least is_empty inserted (cache_latency c.geometry * 8) (set_of c i) 0 max64
        c.geometry.way_size tick) [
          | inl (at, low) ↦ inl (at, λ j hj e. low j (omega (arith, ways_here)) (ground (arith, e)))
          | inr (k, hk, at, empty, lt, low) ↦
              let at_k : (get_empty_way c i tick).0 ≡ k = omega (arith, at) in
              rw at_k (
                inr (
                  omega (arith, ways_here),
                  ground (arith, empty),
                  λ j hj e. low j (omega (arith, ways_here)) (ground (arith, e)),
                ))
        ]

  -- The victim of a set is one of its ways.
  pub evict_way-lt : (evict_way c i tick).0 < c.geometry.way_size
  unfolding evict_way
  evict_way-lt =
      elim (least_way-Least any_line (stamp c.geometry.conf.policy) (cache_latency c.geometry * 8)
        (set_of c i) 0 max64 0 tick) [
          | inl (at, _) ↦ omega (arith, at, v.ways_pos)
          | inr (k, hk, at, _, _, _) ↦ omega (arith, hk, at, ways_here)
        ]

  -- In a cache of the right shape whose times are below the greatest uint64_t, evictFunction()
  -- returns a way with the least time.
  pub evict_way-Least :
      ((j : ℕ) → j < c.geometry.way_size → stamp c.geometry.conf.policy (line_at c (i, j)) < max64)
      → ((evict_way c i tick).0 < c.geometry.way_size)
        × ((j : ℕ)
            → j < c.geometry.way_size
            → stamp c.geometry.conf.policy (line_at c (i, (evict_way c i tick).0))
              ≤ stamp c.geometry.conf.policy (line_at c (i, j)))
  unfolding evict_way
  evict_way-Least small =
      elim (least_way-Least any_line (stamp c.geometry.conf.policy) (cache_latency c.geometry * 8)
        (set_of c i) 0 max64 0 tick) [
          | inl (at, low) ↦
              absurd (
                omega
                  (arith, small 0 v.ways_pos, low 0 (omega (arith, ways_here, v.ways_pos)) refl))
          | inr (k, hk, at, empty, lt, low) ↦
              let at_k : (evict_way c i tick).0 ≡ k = omega (arith, at) in
              rw at_k (omega (arith, ways_here), λ j hj. low j (omega (arith, ways_here)) refl)
        ]

-- In a cache of the right shape, getValidWay() returns the way of a line that holds the LCA, or the
-- number of ways if no line of the set holds it.
pub get_valid_way-Found :
    {c : Cache}
    → IsShaped c
    → (lca tick : ℕ)
    → (((get_valid_way c lca tick).0 ≡ c.geometry.way_size)
        × ((j : ℕ)
            → j < c.geometry.way_size
            → holds lca (line_at c (calc_set_index c.geometry lca, j)) ≡ false))
      ⊎ (((get_valid_way c lca tick).0 < c.geometry.way_size)
          × (holds lca (line_at c (calc_set_index c.geometry lca, (get_valid_way c lca tick).0))
              ≡ true))
unfolding get_valid_way
get_valid_way-Found {c} v lca tick =
    let i = calc_set_index c.geometry lca in
    let here = ways_here v i tick (set_index-lt c.geometry lca v.sets_pos) in
    elim (valid_way-ValidWay (cache_latency c.geometry * 8) lca (set_of c i) 0 tick) [
      | inl (at, absent) ↦ inl (omega (arith, at, here), λ j hj. absent j (omega (arith, here)))
      | inr (k, hk, at, found) ↦
          let at_k : (get_valid_way c lca tick).0 ≡ k = omega (arith, at) in
          rw at_k (inr (omega (arith, here), found))
    ]
