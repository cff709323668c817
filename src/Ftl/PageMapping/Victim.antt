-- ===== src/Ftl/PageMapping/Victim.antt =====
-- ftl/page_mapping.cc: calculateVictimWeight() and selectVictimBlock(), with the policies that draw
-- no random numbers. Weights are floats: their type and its operations are parameters, and so is
-- std::sort.
use simple_ssd.Base.{
  subst, Bool-cases, inl, inr, ◌<◌, ℕ, zero, suc, ◌+◌, ◌-◌, ◌%◌, ◌^◌, ◌≡◌, refl, Bool, false, List,
  [], ◌∷◌, ◌++◌, map, min, length, take, drop, length-take, take-append-drop, ◌==◌, if◌then◌else◌,
  arith,
}
use mathlib.Core.List.{Perm}
use simple_ssd.Ftl.Block
use simple_ssd.Ftl.Block.{Block}
use simple_ssd.Ftl.PageMapping.State.{PageMapping, Clock, Hardware, select_victim_block_cost}

-- GC_MODE, and EVICT_POLICY without the random ones.
pub data GcMode : Type 0 where
  gc_mode_0 : GcMode
  gc_mode_1 : GcMode

pub data Policy : Type 0 where
  greedy : Policy
  cost_benefit : Policy

-- What the collector reads from the configuration. `to_reclaim` is
-- `param.totalPhysicalBlocks * t - nFreeBlocks` and `is_low` is `freeBlockRatio() < gcThreshold`,
-- both of the numbers of blocks in all and of free ones.
pub record GcConfig : Type 0 where
  pub mode : GcMode
  pub policy : Policy
  pub reclaim_block : ℕ
  pub to_reclaim : ℕ → ℕ → ℕ
  pub is_low : ℕ → ℕ → Bool
  pub bad_block_threshold : ℕ

-- The weights: a number of valid pages, the cost of a number of valid pages, the pages in a block
-- and an age, and the order.
pub record Weights (W : Type 0) : Type 0 where
  pub of_count : ℕ → W
  pub of_cost : ℕ → ℕ → ℕ → W
  pub less : W → W → Bool

module _ {W : Type 0} (ws : Weights W) where
  abbrev pub weight_of : Policy → PageMapping → ℕ → Block → W
  weight_of greedy s tick b = ws.of_count (Block.valid_page_count_raw b)
  weight_of cost_benefit s tick b =
      ws.of_cost (Block.valid_page_count_raw b) s.param.pages_in_block
        ((tick + 2 ^ 64 - b.last_accessed) % 2 ^ 64)

  -- calculateVictimWeight(weight, policy, tick): the blocks that are full.
  unfoldable pub victim_weights : Policy → PageMapping → ℕ → List (ℕ × Block) → List (ℕ × W)
  victim_weights policy s tick [] = []
  victim_weights policy s tick ((k, b) ∷ bs) =
      let rest = victim_weights policy s tick bs in
      if Block.next_write_page_index b == s.param.pages_in_block
      then (k, weight_of policy s tick b) ∷ rest
      else rest

abbrev pub index_of {ℓ} : {W : Type ℓ} → ℕ × W → ℕ
index_of (k, w) = k

-- The number of blocks to reclaim.
unfoldable pub blocks_to_reclaim : GcConfig → PageMapping → ℕ
blocks_to_reclaim f s =
    let n : ℕ = elim f.mode [
      | gc_mode_0 ↦ f.reclaim_block
      | gc_mode_1 ↦ f.to_reclaim s.param.total_physical_blocks s.n_free_blocks
    ] in
    if s.reclaim_more then (n + s.param.page_count_to_max_perf) % 2 ^ 64 else n

-- selectVictimBlock(list, tick): the list, the state and the clock.
unfoldable pub select_victim_block :
    {W D : Type 0}
    → Weights W
    → (List (ℕ × W) → List (ℕ × W))
    → Hardware D
    → GcConfig
    → PageMapping
    → Clock D
    → List ℕ × PageMapping × Clock D
select_victim_block ws sort hw f s c =
    let sorted = sort (victim_weights ws f.policy s c.tick s.blocks) in
    (
      map index_of (take (min (blocks_to_reclaim f s) (length sorted)) sorted),
      record s { reclaim_more = false },
      hw.apply_latency select_victim_block_cost c,
    )

-- No weight of the list is less than `w`; and the entries of a list against those of another.
abbrev pub AreNotLess : {W : Type 0} → Weights W → W → List (ℕ × W) → Type 0
AreNotLess ws w [] = Unit {0}
AreNotLess ws w ((k, x) ∷ xs) = (ws.less x w ≡ false) × AreNotLess ws w xs

abbrev pub AreLeast : {W : Type 0} → Weights W → List (ℕ × W) → List (ℕ × W) → Type 0
AreLeast ws [] ys = Unit {0}
AreLeast ws ((k, x) ∷ xs) ys = AreNotLess ws x ys × AreLeast ws xs ys

abbrev pub IsSorted : {W : Type 0} → Weights W → List (ℕ × W) → Type 0
IsSorted ws [] = Unit {0}
IsSorted ws ((k, x) ∷ xs) = AreNotLess ws x xs × IsSorted ws xs

-- The blocks that have been written to the last page of some unit.
abbrev pub full_blocks : ℕ → List (ℕ × Block) → List (ℕ × Block)
full_blocks pages [] = []
full_blocks pages ((k, b) ∷ bs) =
    let rest = full_blocks pages bs in
    if Block.next_write_page_index b == pages then (k, b) ∷ rest else rest

-- How many blocks the configuration asks for: a fixed number or up to the threshold, and one for
-- each stripe if an open block was used up.
abbrev pub wanted_by : GcMode → GcConfig → PageMapping → ℕ
wanted_by gc_mode_0 f s = f.reclaim_block
wanted_by gc_mode_1 f s = f.to_reclaim s.param.total_physical_blocks s.n_free_blocks

abbrev pub wanted : GcConfig → PageMapping → ℕ
wanted f s = wanted_by f.mode f s + (if s.reclaim_more then s.param.page_count_to_max_perf else 0)

blocks_to_reclaim-wanted :
    (f : GcConfig) (s : PageMapping) → wanted f s < 2 ^ 64 → blocks_to_reclaim f s ≡ wanted f s
unfolding blocks_to_reclaim
blocks_to_reclaim-wanted f s small = elim (Bool-cases s.reclaim_more) [
  | inl e ↦ simp e (by_mode f.mode s.param.page_count_to_max_perf (ground (arith, small, e)))
  | inr e ↦ simp e (plain f.mode)
]
  where
    base : GcMode → ℕ
    base m = elim m as (λ _. ℕ) [
      | gc_mode_0 ↦ f.reclaim_block
      | gc_mode_1 ↦ f.to_reclaim s.param.total_physical_blocks s.n_free_blocks
    ]

    by_mode :
        (m : GcMode) (n : ℕ)
        → wanted_by m f s + n < 2 ^ 64
        → (base m + n) % 2 ^ 64 ≡ wanted_by m f s + n
    by_mode gc_mode_0 n h = grind arith
    by_mode gc_mode_1 n h = grind arith

    plain : (m : GcMode) → base m ≡ wanted_by m f s + 0
    plain gc_mode_0 = omega arith
    plain gc_mode_1 = omega arith

module _ {W : Type 0} (ws : Weights W) where
  AreNotLess-drop :
      (n : ℕ) (w : W) (xs : List (ℕ × W)) → AreNotLess ws w xs → AreNotLess ws w (drop n xs)
  AreNotLess-drop zero w xs h = h
  AreNotLess-drop (suc n) w [] h = h
  AreNotLess-drop (suc n) w ((k, x) ∷ xs) (first, h) = AreNotLess-drop n w xs h

  IsSorted-AreLeast :
      (n : ℕ) (xs : List (ℕ × W)) → IsSorted ws xs → AreLeast ws (take n xs) (drop n xs)
  IsSorted-AreLeast zero xs h = tt
  IsSorted-AreLeast (suc n) [] h = tt
  IsSorted-AreLeast (suc n) ((k, x) ∷ xs) (first, h) =
      (AreNotLess-drop n x xs first, IsSorted-AreLeast n xs h)

  -- The weight of a block by the policy: its valid pages, or the cost of them at its age.
  abbrev entry : Policy → ℕ → ℕ → ℕ × Block → ℕ × W
  entry greedy pages tick (k, b) = (k, ws.of_count (Block.valid_page_count_raw b))
  entry cost_benefit pages tick (k, b) = (
    k,
    ws.of_cost (Block.valid_page_count_raw b) pages ((tick + 2 ^ 64 - b.last_accessed) % 2 ^ 64),
  )

  victim_weights-entry :
      (policy : Policy) (s : PageMapping) (tick : ℕ) (bs : List (ℕ × Block))
      → victim_weights ws policy s tick bs
        ≡ map (entry policy s.param.pages_in_block tick) (full_blocks s.param.pages_in_block bs)
  unfolding victim_weights
  victim_weights-entry policy s tick [] = refl
  victim_weights-entry policy s tick ((k, b) ∷ bs) =
      let rest = victim_weights-entry policy s tick bs in
      elim (Bool-cases (Block.next_write_page_index b == s.param.pages_in_block)) [
        | inl e ↦ rw (e, rest) (first policy)
        | inr e ↦ rw (e, rest) refl
      ]
    where
      first :
          (p : Policy)
          → (k, weight_of ws p s tick b)
              ∷ map
                  (entry policy s.param.pages_in_block tick)
                  (full_blocks s.param.pages_in_block bs)
            ≡ entry p s.param.pages_in_block tick (k, b)
              ∷ map
                  (entry policy s.param.pages_in_block tick)
                  (full_blocks s.param.pages_in_block bs)
      first greedy = refl
      first cost_benefit = refl

  -- If std::sort returns a permutation of its input in the order of the weights, and the number of
  -- blocks that the configuration asks for, with one for each stripe after an open block was used
  -- up, is below 2^64, selectVictimBlock() chooses that many of the blocks in use whose next page
  -- is the number of pages, or all of them, such that none of the others has a smaller weight by
  -- the policy; of the mapping it only clears bReclaimMore.
  pub select_victim_block-Least :
      {D : Type 0} (sort : List (ℕ × W) → List (ℕ × W))
      → ((xs : List (ℕ × W)) → Perm (sort xs) xs)
      → ((xs : List (ℕ × W)) → IsSorted ws (sort xs))
      → (hw : Hardware D) (f : GcConfig) (s : PageMapping) (c : Clock D) → wanted f s < 2 ^ 64
      → (chosen : List (ℕ × W)) × (rest : List (ℕ × W)) × ((select_victim_block ws sort hw f s c).0
          ≡ map index_of chosen)
        × Perm (chosen ++ rest) (
            map
              (entry f.policy s.param.pages_in_block c.tick)
              (full_blocks s.param.pages_in_block s.blocks))
        × (length chosen ≡ min (wanted f s) (length (chosen ++ rest)))
        × AreLeast ws chosen rest
        × ((select_victim_block ws sort hw f s c).1 ≡ record s { reclaim_more = false })
  unfolding select_victim_block
  select_victim_block-Least sort perm sorted hw f s c small =
      let weights = victim_weights ws f.policy s c.tick s.blocks in
      let xs = sort weights in
      let n = min (blocks_to_reclaim f s) (length xs) in
      let all = take-append-drop n xs in
      let count = blocks_to_reclaim-wanted f s small in
      (
        take n xs,
        drop n xs,
        refl,
        rw all (
            subst (λ ys. Perm xs ys) (victim_weights-entry f.policy s c.tick s.blocks)
              (perm weights)),
        rw all (omega (arith, length-take n xs, count)),
        IsSorted-AreLeast n xs (sorted weights),
        refl,
      )
