-- ===== src/Ftl/PageMapping/Open.antt =====
-- ftl/page_mapping.cc: getFreeBlock() and getLastFreeBlock() find room for a page.
use simple_ssd.Base.{
  ℕ, ◌^◌, ◌<◌, ◌≡◌, ◌⊎◌, inl, inr, Bool, List, some, arith, ◌==◌, if◌then◌else◌, length, get_or,
  ℕ_discrete,
}
use simple_ssd.Base.Map
use simple_ssd.Base.Map.{find, find-insert}
use simple_ssd.Util.Bitset
use simple_ssd.Util.Bitset.{Bitset}
use simple_ssd.Ftl.Block.{Block}
use simple_ssd.Ftl.PageMapping.State.{PageMapping}
use simple_ssd.Ftl.PageMapping.Consistent.{IsConsistent, Holds, IsUnmapped}
use simple_ssd.Ftl.PageMapping.FreeList.{IsFree, AreFree}

-- The free blocks and the open blocks are as getFreeBlock() and getLastFreeBlock() expect them.
pub record IsAllocated (s : PageMapping) : Type 0 where
  pub free : AreFree s.param s.blocks s.free_blocks
  pub counted : s.n_free_blocks ≡ length s.free_blocks
  pub open_length : length s.last_free_block ≡ s.param.page_count_to_max_perf
  pub open_index : s.last_free_block_index < s.param.page_count_to_max_perf
  pub open_used :
      (j : ℕ)
      → j < s.param.page_count_to_max_perf
      → (b : Block) × (find (get_or s.last_free_block j 0) s.blocks ≡ some b)
  pub map_ok : Bitset.IsValid s.last_free_block_io_map
  pub map_size : s.last_free_block_io_map.data_size ≡ s.param.io_unit_in_page
  pub perf_small : s.param.page_count_to_max_perf < 2 ^ 32
  pub pages_pos : 0 < s.param.pages_in_block

-- The fields that the mapping does not rest on.
abbrev pub with_open : PageMapping → List Block → ℕ → List ℕ → Bitset → ℕ → Bool → PageMapping
with_open s free n open_blocks io_map index more = record s {
  free_blocks = free;
  n_free_blocks = n;
  last_free_block = open_blocks;
  last_free_block_io_map = io_map;
  last_free_block_index = index;
  reclaim_more = more;
}

module _ {s : PageMapping} {away : ℕ → ℕ → Bool} (v : IsConsistent s away) (free : List Block)
    (n : ℕ) (open_blocks : List ℕ) (io_map : Bitset) (index : ℕ) (more : Bool) where
  place_with_open :
      {u : ℕ × ℕ} {i l : ℕ}
      → Holds s u.0 u.1 i l ⊎ IsUnmapped s u
      → Holds (with_open s free n open_blocks io_map index more) u.0 u.1 i l ⊎ IsUnmapped s u
  place_with_open (inl h) = inl (record {
    block = h.block;
    found = h.found;
    page_lt = h.page_lt;
    valid = h.valid;
    lpn = h.lpn;
  })
  place_with_open (inr u) = inr u

  pub with_open-IsConsistent : IsConsistent (with_open s free n open_blocks io_map index more) away
  with_open-IsConsistent = record {
    blocks_ok = v.blocks_ok;
    table_ok = v.table_ok;
    units_le = v.units_le;
    forward = λ l m i e hi h. place_with_open (v.forward l m i e hi h);
    backward = v.backward;
  }

-- A free block comes into use.
module _ {s : PageMapping} {away : ℕ → ℕ → Bool} (v : IsConsistent s away) (b : Block)
    (free : IsFree s.param s.blocks b) where
  abbrev pub in_use : PageMapping
  in_use = record s { blocks = Map.insert b.idx b s.blocks }

  used_after : (j : ℕ) → find j in_use.blocks ≡ (if b.idx == j then some b else find j s.blocks)
  used_after j = find-insert b.idx b s.blocks j

  stays_put :
      {u : ℕ × ℕ} {i l : ℕ}
      → Holds s u.0 u.1 i l ⊎ IsUnmapped s u
      → Holds in_use u.0 u.1 i l ⊎ IsUnmapped s u
  stays_put {u} (inl h) = inl (record {
    block = h.block;
    found = ground (arith, h.found, free.unused, used_after u.0);
    page_lt = h.page_lt;
    valid = h.valid;
    lpn = h.lpn;
  })
  stays_put (inr u) = inr u

  pub in_use-IsConsistent : IsConsistent in_use away
  in_use-IsConsistent = record {
    blocks_ok = λ k c e. ground (arith, used_after k, v.blocks_ok k c, free.sized, free.index_lt);
    table_ok = v.table_ok;
    units_le = v.units_le;
    forward = λ l m i e hi h. stays_put (v.forward l m i e hi h);
    backward = λ k c p i e hp hi valid. elim (ℕ_discrete k b.idx) [
      | yes is_b ↦
          let same : c ≡ b = ground (arith, used_after k) in
          let blank =
            free.sized.valid.ahead_invalid p i (omega (arith, free.sized.pages))
              (omega (arith, free.sized.units, v.units_le)) (omega (arith, free.clean i)) in
          absurd (ground arith)
      | no other ↦ v.backward k c p i (ground (arith, used_after k)) hp hi valid
    ];
  }
