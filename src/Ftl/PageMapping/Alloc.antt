-- ===== src/Ftl/PageMapping/Alloc.antt =====
-- ftl/page_mapping.cc: getFreeBlock() and getLastFreeBlock().
use simple_ssd.Base.{
  ℕ, ◌+◌, ◌-◌, ◌%◌, ◌^◌, Bool, true, false, List, [], ◌∷◌, Option, none, some, ltb, leb, ◌==◌,
  if◌then◌else◌, set,
}
use simple_ssd.Base.Result.{
  Result, ok, panic, ◌>>=◌, at, index_out_of_range, corrupted, no_free_block, past_the_end,
}
use simple_ssd.Base.Map.{find, insert}
use simple_ssd.Util.Bitset
use simple_ssd.Util.Bitset.{Bitset}
use simple_ssd.Ftl.Block
use simple_ssd.Ftl.Block.{Block}
use simple_ssd.Ftl.PageMapping.State.{PageMapping}

-- The first free block whose index is `idx` modulo `m`, and the others.
unfoldable pub pick_aligned : ℕ → ℕ → List Block → Option (Block × List Block)
pick_aligned m idx [] = none
pick_aligned m idx (b ∷ bs) =
    if b.idx % m == idx
    then some (b, bs)
    else elim (pick_aligned m idx bs) [ none ↦ none | some (c, rest) ↦ some (c, b ∷ rest) ]

abbrev pub pick_first : List Block → Option (Block × List Block)
pick_first [] = none
pick_first (b ∷ bs) = some (b, bs)

-- The block of the search, or the first one.
unfoldable pub pick_free : ℕ → ℕ → List Block → Option (Block × List Block)
pick_free m idx bs = elim (pick_aligned m idx bs) [ some r ↦ some r | none ↦ pick_first bs ]

-- Move a free block to the blocks in use.
abbrev pub take_free : PageMapping → Option (Block × List Block) → Result (ℕ × PageMapping)
take_free s none = panic past_the_end
take_free s (some (b, rest)) = elim (find b.idx s.blocks) [
  | some _ ↦ panic corrupted
  | none ↦ ok (
    b.idx,
    record s {
      blocks = insert b.idx b s.blocks;
      free_blocks = rest;
      n_free_blocks = s.n_free_blocks - 1;
    },
  )
]

-- getFreeBlock(idx)
unfoldable pub get_free_block : PageMapping → ℕ → Result (ℕ × PageMapping)
get_free_block s idx =
    if leb s.param.page_count_to_max_perf idx
    then panic index_out_of_range
    else if ltb 0 s.n_free_blocks
    then take_free s (pick_free s.param.page_count_to_max_perf idx s.free_blocks)
    else panic no_free_block

-- `lastFreeBlockIndex++`, back to 0 at the end
abbrev pub next_index : PageMapping → ℕ
next_index s =
    let i = (s.last_free_block_index + 1) % 2 ^ 32 in
    if i == s.param.page_count_to_max_perf then 0 else i

-- `!bRandomTweak || (lastFreeBlockIOMap & iomap).any()`
abbrev pub needs_next : PageMapping → Bitset → Result Bool
needs_next s iomap =
    if s.random_tweak
    then (do both ← Bitset.and_with s.last_free_block_io_map iomap; ok (Bitset.any both))
    else ok true

-- Go to the next open block, or stay and note the units.
abbrev pub rotate : PageMapping → Bitset → Bool → Result PageMapping
rotate s iomap true =
    ok (record s { last_free_block_index = next_index s; last_free_block_io_map = iomap })
rotate s iomap false = do
  used ← Bitset.or_with s.last_free_block_io_map iomap
  ok (record s { last_free_block_io_map = used })

-- The open block, or a new one in its place if it is full.
unfoldable pub open_block : PageMapping → Result (ℕ × PageMapping)
open_block s = do
  key ← at s.last_free_block s.last_free_block_index
  elim (find key s.blocks) [
    | none ↦ panic corrupted
    | some b ↦
        if Block.next_write_page_index b == s.param.pages_in_block
        then (do
          fresh ← get_free_block s s.last_free_block_index
          ok (
            fresh.0,
            record fresh.1 {
              last_free_block = set fresh.1.last_free_block s.last_free_block_index fresh.0;
              reclaim_more = true;
            },
          ))
        else ok (key, s)
  ]

-- getLastFreeBlock(iomap)
unfoldable pub get_last_free_block : PageMapping → Bitset → Result (ℕ × PageMapping)
get_last_free_block s iomap = do
  next ← needs_next s iomap
  moved ← rotate s iomap next
  open_block moved
