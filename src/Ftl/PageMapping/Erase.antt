-- ===== src/Ftl/PageMapping/Erase.antt =====
-- ftl/page_mapping.cc: what eraseInternal() makes of the mapping and of the free blocks.
use mathlib.Core.List.{reverse, reverse-reverse, Perm}
use mathlib.Core.List.Perm
use simple_ssd.Base.{
  ℕ, ◌+◌, ◌<◌, ◌≡◌, ◌≢◌, inl, inr, refl, arith, false, Bool-cases, length, List, [], ◌∷◌, none,
  some, ltb, leb, ◌==◌, if◌then◌else◌,
}
use simple_ssd.Base.Result.{Result, ok}
use simple_ssd.Base.Map
use simple_ssd.Base.Map.{find, find-erase}
use simple_ssd.Ftl.Block
use simple_ssd.Ftl.Block.{Block}
use simple_ssd.Ftl.Block.View.{valid_at}
use simple_ssd.Ftl.Block.Count.{valid_page_count_zero_iff}
use simple_ssd.Ftl.PageMapping.State.{PageMapping, PalRequest, erase_internal_cost, Clock, Hardware}
use simple_ssd.Ftl.PageMapping.Consistent.{IsConsistent, Holds}
use simple_ssd.Ftl.PageMapping.Recycle.{
  place, place-IsFalling, IsFalling, insert_free, erase_internal,
}

place-Perm : (b : Block) (xs : List Block) → Perm (place b xs) (b ∷ xs)
unfolding place
place-Perm b [] = Perm.refl (b ∷ [])
place-Perm b (x ∷ xs) = elim (Bool-cases (leb x.erase_count b.erase_count)) [
  | inl e ↦ rw e (Perm.refl (b ∷ x ∷ xs))
  | inr e ↦ rw e (Perm.trans (Perm.cons x (place-Perm b xs)) (Perm.swap b x xs))
]

-- The list after an insertion has the block and the blocks that it had, and stays in order.
record Inserted (b : Block) (xs : List Block) (r : Result (List Block)) : Type 0 where
  after : List Block
  result : r ≡ ok after
  sorted : IsFalling (reverse after)
  same : Perm (reverse after) (b ∷ reverse xs)

insert_free-Inserted :
    (b : Block) (xs : List Block)
    → 0 < length xs
    → IsFalling (reverse xs)
    → Inserted b xs (insert_free b xs)
unfolding insert_free
insert_free-Inserted b [] some_left f = absurd (omega arith)
insert_free-Inserted b (x ∷ xs) some_left f =
    let placed = place b (reverse (x ∷ xs)) in
    record {
      after = reverse placed;
      result = refl;
      sorted = rw (reverse-reverse placed) (place-IsFalling b (reverse (x ∷ xs)) f);
      same = rw (reverse-reverse placed) (place-Perm b (reverse (x ∷ xs)));
    }

-- Without the blocks of a key that has no valid unit, the mapping is as it was.
module _ {s : PageMapping} (v : IsConsistent s (λ l i. false)) (k : ℕ) (b : Block)
    (found : find k s.blocks ≡ some b) (no_valid : Block.valid_page_count b ≡ 0) where
  pub without : List Block → ℕ → PageMapping
  without free n = record s { blocks = Map.erase k s.blocks; free_blocks = free; n_free_blocks = n }

  blocks_left : (j : ℕ) → find j (Map.erase k s.blocks) ≡ (if k == j then none else find j s.blocks)
  blocks_left j = find-erase k s.blocks j

  nothing_valid :
      (p i : ℕ) → p < s.param.pages_in_block → i < s.param.io_unit_in_page → valid_at b p i ≡ false
  nothing_valid p i hp hi =
      let sized = (v.blocks_ok k b found).0 in
      (valid_page_count_zero_iff sized.valid).0 no_valid p i (omega (arith, sized.pages))
        (omega (arith, sized.units))

  keep_held :
      (free : List Block) (n : ℕ) {j p i l : ℕ}
      → i < s.bitset_size
      → Holds s j p i l
      → Holds (without free n) j p i l
  unfolding without
  keep_held free n {j} {p} {i} hi h =
      let clear = nothing_valid p i h.page_lt (omega (arith, v.units_le)) in
      record {
        block = h.block;
        found = ground (arith, blocks_left j, h.found, h.valid, clear);
        page_lt = h.page_lt;
        valid = h.valid;
        lpn = h.lpn;
      }

  without-IsConsistent : (free : List Block) (n : ℕ) → IsConsistent (without free n) (λ l i. false)
  unfolding without
  without-IsConsistent free n = record {
    blocks_ok = λ j c e. v.blocks_ok j c (ground (arith, blocks_left j));
    table_ok = v.table_ok;
    units_le = v.units_le;
    forward = λ l m i e hi h. elim (v.forward l m i e hi h) [
      | inl held ↦ inl (keep_held free n hi held)
      | inr nowhere ↦ inr nowhere
    ];
    backward =
        λ j c p i e hp hi valid. v.backward j c p i (ground (arith, blocks_left j)) hp hi valid;
  }

-- A block that was erased: it is no longer in use, the mapping is as it was, and the block is among
-- the free blocks, which stay in order, unless it is worn out.
pub record Recycled {D : Type 0} (s : PageMapping) (threshold k : ℕ) (b : Block) (c : Clock D)
    (r : Result (PageMapping × Clock D)) : Type 0 where
  pub next : PageMapping
  pub result : r ≡ ok (next, c)
  pub consistent : IsConsistent next (λ l i. false)
  pub gone : find k next.blocks ≡ none
  pub others : (j : ℕ) → j ≢ k → find j next.blocks ≡ find j s.blocks
  pub same_table : next.table ≡ s.table
  pub freed : Perm (reverse next.free_blocks) (
      if ltb (Block.erase b).erase_count threshold
      then Block.erase b ∷ reverse s.free_blocks
      else reverse s.free_blocks)
  pub n_free :
      next.n_free_blocks
      ≡ s.n_free_blocks + (if ltb (Block.erase b).erase_count threshold then 1 else 0)
  pub sorted : IsFalling (reverse next.free_blocks)

module _ {D : Type 0} (hw : Hardware D) (threshold : ℕ) {s : PageMapping} (req : PalRequest)
    (c : Clock D) (b : Block) (v : IsConsistent s (λ l i. false))
    (found : find req.block_index s.blocks ≡ some b) (no_valid : Block.valid_page_count b ≡ 0)
    (some_left : 0 < length s.free_blocks) (sorted : IsFalling (reverse s.free_blocks)) where
  -- In a consistent state with a free block, whose free blocks are in the order of their erase
  -- counts, and for a block in use without a valid page, eraseInternal() returns: the block is no
  -- longer in use, the other blocks and the table stay, the state is consistent, and the erased
  -- block joins the free blocks, in order, if its erase count is below the threshold, and is
  -- dropped if it is not.
  pub erase_internal-Recycled :
      Recycled s threshold req.block_index b
        (hw.apply_latency erase_internal_cost (hw.pal_erase req c))
        (erase_internal hw threshold s req c)
  unfolding erase_internal without
  erase_internal-Recycled =
      let k = req.block_index in
      let gone = find-erase k s.blocks k in
      elim (Bool-cases (ltb (Block.erase b).erase_count threshold)) [
        | inl e ↦
            let put = insert_free-Inserted (Block.erase b) s.free_blocks some_left sorted in
            record {
              next = without v k b found no_valid put.after (s.n_free_blocks + 1);
              result = rw (found, erase_internal, no_valid, e, put.result);
              consistent =
                  without-IsConsistent v k b found no_valid put.after (s.n_free_blocks + 1);
              gone = ground (arith, gone);
              others = λ j ne. ground (arith, find-erase k s.blocks j);
              same_table = refl;
              freed = rw e put.same;
              n_free = rw e refl;
              sorted = put.sorted;
            }
        | inr e ↦ record {
          next = without v k b found no_valid s.free_blocks s.n_free_blocks;
          result = rw (found, erase_internal, no_valid, e);
          consistent = without-IsConsistent v k b found no_valid s.free_blocks s.n_free_blocks;
          gone = ground (arith, gone);
          others = λ j ne. ground (arith, find-erase k s.blocks j);
          same_table = refl;
          freed = rw e (Perm.refl (reverse s.free_blocks));
          n_free = rw e (omega arith);
          sorted = sorted;
        }
      ]
