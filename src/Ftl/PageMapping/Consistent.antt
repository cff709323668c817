-- ===== src/Ftl/PageMapping/Consistent.antt =====
-- ftl/page_mapping.cc: the mapping table and the blocks agree, and go on agreeing when a unit of a
-- logical page is detached (its old place invalidated) and attached again (written elsewhere).
use simple_ssd.Base.{
  ℕ, ◌≤◌, ◌<◌, ◌≡◌, ◌⊎◌, inl, inr, Bool, true, false, ◌||◌, List, some, arith, ◌==◌, if◌then◌else◌,
  length, get_or, ℕ_discrete,
}
use simple_ssd.Base.Map
use simple_ssd.Base.Map.{find, find-insert}
use simple_ssd.Ftl.Block.{Block}
use simple_ssd.Ftl.Block.View
use simple_ssd.Ftl.Block.View.{valid_at, lpn_at, erased_at}
use simple_ssd.Ftl.Block.Write.{same_unit}
use simple_ssd.Ftl.Block.Clear.{Invalidated}
use simple_ssd.Ftl.PageMapping.State.{PageMapping, Parameter}

-- A block of the sizes that the parameters say.
pub record IsSized (pa : Parameter) (b : Block) : Type 0 where
  pub valid : View.IsValid b
  pub pages : b.page_count ≡ pa.pages_in_block
  pub units : b.io_unit_in_page ≡ pa.io_unit_in_page

-- Unit `i` of page `p` of block `k` is valid and holds the data of `l`.
pub record Holds (s : PageMapping) (k p i l : ℕ) : Type 0 where
  pub block : Block
  pub found : find k s.blocks ≡ some block
  pub page_lt : p < s.param.pages_in_block
  pub valid : valid_at block p i ≡ true
  pub lpn : lpn_at block p i ≡ l

-- Unit `i` of a mapping.
abbrev pub unit_of : List (ℕ × ℕ) → ℕ → ℕ × ℕ
unit_of mapping i = get_or mapping i (0, 0)

abbrev pub IsUnmapped : PageMapping → ℕ × ℕ → Type 0
IsUnmapped s m = (m.0 ≡ s.param.total_physical_blocks) × (m.1 ≡ s.param.pages_in_block)

-- But for the detached units, `away`: what a logical page is mapped to is valid and holds it, and
-- every valid unit is the place of the logical page that it holds.
pub record IsConsistent (s : PageMapping) (away : ℕ → ℕ → Bool) : Type 0 where
  pub blocks_ok :
      (k : ℕ) (b : Block)
      → find k s.blocks ≡ some b
      → IsSized s.param b × (k < s.param.total_physical_blocks)
  pub table_ok :
      (l : ℕ) (mapping : List (ℕ × ℕ))
      → find l s.table ≡ some mapping
      → length mapping ≡ s.bitset_size
  pub units_le : s.bitset_size ≤ s.param.io_unit_in_page
  pub forward :
      (l : ℕ) (mapping : List (ℕ × ℕ)) (i : ℕ)
      → find l s.table ≡ some mapping
      → i < s.bitset_size
      → away l i ≡ false
      → Holds s (unit_of mapping i).0 (unit_of mapping i).1 i l ⊎ IsUnmapped s (unit_of mapping i)
  pub backward :
      (k : ℕ) (b : Block) (p i : ℕ)
      → find k s.blocks ≡ some b
      → p < s.param.pages_in_block
      → i < s.bitset_size
      → valid_at b p i ≡ true
      → (away (lpn_at b p i) i ≡ false)
        × (mapping : List (ℕ × ℕ)) × (find (lpn_at b p i) s.table ≡ some mapping)
        × ((unit_of mapping i).0 ≡ k)
        × ((unit_of mapping i).1 ≡ p)

abbrev pub and_away : (ℕ → ℕ → Bool) → ℕ → ℕ → ℕ → ℕ → Bool
and_away away l i l' i' = same_unit l i l' i' || away l' i'

-- The blocks after one of them has changed.
blocks_update :
    (s : PageMapping) (k : ℕ) (c : Block) (j : ℕ)
    → find j (Map.insert k c s.blocks) ≡ (if k == j then some c else find j s.blocks)
blocks_update s k c j = find-insert k c s.blocks j

module _ {s : PageMapping} {away : ℕ → ℕ → Bool} (v : IsConsistent s away) (l : ℕ)
    (mapping : List (ℕ × ℕ)) (mapped : find l s.table ≡ some mapping) (i : ℕ)
    (hi : i < s.bitset_size) where
  -- A unit that is not mapped holds nothing, so it may count as detached.
  pub unmapped-away : IsUnmapped s (unit_of mapping i) → IsConsistent s (and_away away l i)
  unmapped-away none_there = record {
    blocks_ok = v.blocks_ok;
    table_ok = v.table_ok;
    units_le = v.units_le;
    forward = λ l' m i' e hi' h. v.forward l' m i' e hi' (ground arith);
    backward = λ k b p i' e hp hi' valid.
        let (here, m, at_l, at_k, at_p) = v.backward k b p i' e hp hi' valid in
        (ground (arith, v.blocks_ok k b e), m, at_l, at_k, at_p);
  }

  module _ (k p : ℕ) (b c : Block) (at_k : (unit_of mapping i).0 ≡ k)
      (at_p : (unit_of mapping i).1 ≡ p) (found : find k s.blocks ≡ some b)
      (holds : lpn_at b p i ≡ l) (inv : Invalidated b p i c) (c_valid : View.IsValid c) where
    abbrev pub invalidated : PageMapping
    invalidated = record s { blocks = Map.insert k c s.blocks }

    keep_held :
        {k' p' i' l' : ℕ}
        → Holds s k' p' i' l'
        → (k' ≡ k → same_unit p i p' i' ≡ true → ⊥)
        → i' < s.bitset_size
        → Holds invalidated k' p' i' l'
    keep_held {k'} {p'} {i'} {l'} held other hi' = elim (ℕ_discrete k' k) [
      | yes e ↦
          let same_block : held.block ≡ b = ground (arith, held.found) in
          let sized = (v.blocks_ok k b found).0 in
          record {
            block = c;
            found = ground (arith, blocks_update s k c k');
            page_lt = held.page_lt;
            valid = ground (
              arith,
              held.valid,
              held.page_lt,
              sized.pages,
              sized.units,
              v.units_le,
              other e,
              inv.valid p' i',
            );
            lpn = ground (arith, held.lpn, inv.lpns p' i');
          }
      | no ne ↦ record {
        block = held.block;
        found = ground (arith, held.found, blocks_update s k c k');
        page_lt = held.page_lt;
        valid = held.valid;
        lpn = held.lpn;
      }
    ]

    -- The unit that was invalidated was the only place of its data.
    pub invalidated-away : IsConsistent invalidated (and_away away l i)
    invalidated-away = record {
      blocks_ok = λ j b' e. ground (
        arith,
        blocks_update s k c j,
        v.blocks_ok j b',
        v.blocks_ok k b,
        inv.same_pages,
        inv.same_units,
      );
      table_ok = v.table_ok;
      units_le = v.units_le;
      forward = λ l' m i' e hi' h. elim (v.forward l' m i' e hi' (ground arith)) [
        | inl held ↦ inl (keep_held held (λ ek same. ground (arith, held.found, held.lpn)) hi')
        | inr nowhere ↦ inr nowhere
      ];
      backward = λ k' b' p' i' e hp hi' valid. elim (ℕ_discrete k' k) [
        | yes same_key ↦
            let sized = (v.blocks_ok k b found).0 in
            let same_block : b' ≡ c = ground (arith, blocks_update s k c k') in
            let still =
              inv.valid p' i' (omega (arith, sized.pages))
                (omega (arith, sized.units, v.units_le)) in
            let was : valid_at b p' i' ≡ true = ground arith in
            let (here, m, at_l, is_k, is_p) = v.backward k b p' i' found hp hi' was in
            let same_lpn : lpn_at b' p' i' ≡ lpn_at b p' i' = ground (arith, inv.lpns p' i') in
            (ground arith, m, ground arith, ground arith, is_p)
        | no ne ↦
            let old : find k' s.blocks ≡ some b' = ground (arith, blocks_update s k c k') in
            let (here, m, at_l, is_k, is_p) = v.backward k' b' p' i' old hp hi' valid in
            (ground arith, m, at_l, is_k, is_p)
      ];
    }
