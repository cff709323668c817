-- ===== src/Ftl/PageMapping/VictimTests.antt =====
-- The theorems on the choice of victims and on the status of ftl/page_mapping.cc, at two blocks of
-- four pages of one unit: block 0 is full and block 1 is not.
use mathlib.Core.List.{Perm}
use mathlib.Core.List.Perm
use simple_ssd.Base.{
  ℕ, ◌≤◌, ◌≡◌, refl, inl, inr, true, false, List, [], ◌∷◌, ◌++◌, map, min, length, ltb,
  if◌then◌else◌, Bool-cases, arith,
}
use simple_ssd.Base.Map.{find}
use simple_ssd.Util.Bitset
use simple_ssd.Ftl.Block
use simple_ssd.Ftl.Block.{Block}
use simple_ssd.Ftl.PageMapping.State.{PageMapping, Clock, Hardware}
use simple_ssd.Ftl.PageMapping.Victim.{
  GcConfig, gc_mode_0, greedy, Weights, AreNotLess, AreLeast, IsSorted, index_of,
  select_victim_block, select_victim_block-Least,
}
use simple_ssd.Ftl.PageMapping.Upkeep.{count_mapped, get_status}
use simple_ssd.Ftl.PageMapping.Status.{get_status-count}

abbrev counts : Weights ℕ
counts = record { of_count = λ n. n; of_cost = λ n m age. n; less = ltb }

-- An order of weights that has the laws of std::sort.
abbrev insert_entry : ℕ × ℕ → List (ℕ × ℕ) → List (ℕ × ℕ)
insert_entry (k, w) [] = (k, w) ∷ []
insert_entry (k, w) ((j, v) ∷ xs) =
    let rest = insert_entry (k, w) xs in if ltb v w then (j, v) ∷ rest else (k, w) ∷ (j, v) ∷ xs

abbrev sort_entries : List (ℕ × ℕ) → List (ℕ × ℕ)
sort_entries [] = []
sort_entries (x ∷ xs) = insert_entry x (sort_entries xs)

insert_entry-Perm : (k w : ℕ) (xs : List (ℕ × ℕ)) → Perm (insert_entry (k, w) xs) ((k, w) ∷ xs)
insert_entry-Perm k w [] = Perm.rfl
insert_entry-Perm k w ((j, v) ∷ xs) = elim (Bool-cases (ltb v w)) [
  | inl e ↦
      rw e (Perm.trans (Perm.cons (j, v) (insert_entry-Perm k w xs)) (Perm.swap (k, w) (j, v) xs))
  | inr e ↦ rw e Perm.rfl
]

sort_entries-Perm : (xs : List (ℕ × ℕ)) → Perm (sort_entries xs) xs
sort_entries-Perm [] = Perm.rfl
sort_entries-Perm ((k, w) ∷ xs) =
    Perm.trans (insert_entry-Perm k w (sort_entries xs)) (Perm.cons (k, w) (sort_entries-Perm xs))

insert_entry-AreNotLess :
    (u k w : ℕ) (xs : List (ℕ × ℕ))
    → ltb w u ≡ false
    → AreNotLess counts u xs
    → AreNotLess counts u (insert_entry (k, w) xs)
insert_entry-AreNotLess u k w [] e h = (e, tt)
insert_entry-AreNotLess u k w ((j, v) ∷ xs) e (first, h) = elim (Bool-cases (ltb v w)) [
  | inl b ↦ rw b (first, insert_entry-AreNotLess u k w xs e h)
  | inr b ↦ rw b (e, (first, h))
]

AreNotLess-le :
    (u v : ℕ) (xs : List (ℕ × ℕ)) → u ≤ v → AreNotLess counts v xs → AreNotLess counts u xs
AreNotLess-le u v [] le h = tt
AreNotLess-le u v ((k, x) ∷ xs) le (first, h) = (ground (arith, first), AreNotLess-le u v xs le h)

insert_entry-IsSorted :
    (k w : ℕ) (xs : List (ℕ × ℕ)) → IsSorted counts xs → IsSorted counts (insert_entry (k, w) xs)
insert_entry-IsSorted k w [] h = (tt, tt)
insert_entry-IsSorted k w ((j, v) ∷ xs) (first, h) = elim (Bool-cases (ltb v w)) [
  | inl e ↦
      rw e
        (insert_entry-AreNotLess v k w xs (ground (arith, e)) first, insert_entry-IsSorted k w xs h)
  | inr e ↦ rw e ((e, AreNotLess-le w v xs (ground (arith, e)) first), (first, h))
]

sort_entries-IsSorted : (xs : List (ℕ × ℕ)) → IsSorted counts (sort_entries xs)
sort_entries-IsSorted [] = tt
sort_entries-IsSorted ((k, w) ∷ xs) =
    insert_entry-IsSorted k w (sort_entries xs) (sort_entries-IsSorted xs)

abbrev block_with : ℕ → ℕ → Block
block_with idx next = record {
  idx = idx;
  page_count = 4;
  io_unit_in_page = 1;
  p_next_write_page_index = next ∷ [];
  p_valid_bits = Bitset.create 4;
  p_erased_bits = Bitset.create 4;
  p_lpns = 0 ∷ 0 ∷ 0 ∷ 0 ∷ [];
  valid_bits = [];
  erased_bits = [];
  pp_lpns = [];
  last_accessed = 0;
  erase_count = 1;
}

abbrev two_blocks : PageMapping
two_blocks = record {
  param = record {
    total_physical_blocks = 2;
    total_logical_blocks = 1;
    pages_in_block = 4;
    page_size = 4096;
    io_unit_in_page = 1;
    page_count_to_max_perf = 1;
  };
  table = (3, (0, 0) ∷ []) ∷ (1, (0, 1) ∷ []) ∷ [];
  blocks = (0, block_with 0 4) ∷ (1, block_with 1 2) ∷ [];
  free_blocks = [];
  n_free_blocks = 0;
  last_free_block = 1 ∷ [];
  last_free_block_io_map = Bitset.create 1;
  last_free_block_index = 0;
  reclaim_more = true;
  random_tweak = false;
  bitset_size = 1;
}

abbrev still : Hardware ℕ
still = record {
  pal_read = λ r c. c;
  pal_write = λ r c. c;
  pal_erase = λ r c. c;
  dram_read = λ lpn n c. c;
  dram_write = λ lpn n c. c;
  apply_latency = λ f c. c;
}

abbrev policy : GcConfig
policy = record {
  mode = gc_mode_0;
  policy = greedy;
  reclaim_block = 1;
  to_reclaim = λ n m. 0;
  is_low = λ n m. true;
  bad_block_threshold = 100;
}

abbrev now : Clock ℕ
now = record { tick = 7; device = 0 }

select_victim_block-Least_example :
    (chosen : List (ℕ × ℕ)) × (rest : List (ℕ × ℕ)) × ((select_victim_block counts sort_entries
        still policy two_blocks now).0
      ≡ map index_of chosen)
    × Perm (chosen ++ rest) ((0, Block.valid_page_count_raw (block_with 0 4)) ∷ [])
    × (length chosen ≡ min 2 (length (chosen ++ rest)))
    × AreLeast counts chosen rest
    × ((select_victim_block counts sort_entries still policy two_blocks now).1
        ≡ record two_blocks { reclaim_more = false })
unfolding Block.next_write_page_index
select_victim_block-Least_example =
    select_victim_block-Least counts sort_entries sort_entries-Perm sort_entries-IsSorted still
      policy two_blocks now (omega arith)

get_status-count_example : get_status two_blocks 0 4 ≡ (0, count_mapped 4 two_blocks.table 0)
unfolding find
get_status-count_example =
    get_status-count two_blocks 0 4 (refl, omega arith, (refl, omega arith, tt))
