-- ===== src/Ftl/PageMapping/Collect.antt =====
-- ftl/page_mapping.cc: doGarbageCollection(), and writeInternal() with its call.
use simple_ssd.Base.{
  ℕ, zero, suc, ◌+◌, ◌*◌, Bool, not, List, [], ◌∷◌, ◌++◌, none, some, max, if◌then◌else◌, set,
}
use simple_ssd.Base.Result.{
  Result, ok, panic, ◌>>=◌, at, invalid_block, invalid_mapping, past_the_end,
  collection_in_initialization,
}
use simple_ssd.Base.Map
use simple_ssd.Base.Map.{find}
use simple_ssd.Util.Bitset
use simple_ssd.Util.Bitset.{Bitset}
use simple_ssd.Ftl.Block
use simple_ssd.Ftl.Block.{Block}
use simple_ssd.Ftl.PageMapping.State.{
  PageMapping, Request, PalRequest, Clock, Hardware, unit_flag, do_garbage_collection_cost,
}
use simple_ssd.Ftl.PageMapping.Alloc.{get_last_free_block}
use simple_ssd.Ftl.PageMapping.Access.{invalidate_found, write_pages}
use simple_ssd.Ftl.PageMapping.Recycle.{erase_internal}
use simple_ssd.Ftl.PageMapping.Victim.{GcConfig, Weights, select_victim_block}

-- What the first loops keep: the mapping, the requests for the PAL, and the clock.
pub record Collection (D : Type 0) : Type 0 where
  pub mapping : PageMapping
  pub reads : List PalRequest
  pub writes : List PalRequest
  pub erases : List PalRequest
  pub clock : Clock D

abbrev pub collector_request : ℕ → ℕ → Bitset → PalRequest
collector_request block page flag = record {
  req_id = 0;
  req_sub_id = 0;
  block_index = block;
  page_index = page;
  io_flag = flag;
}

-- `freeBlock->second.write(...)`, and the entry of the table that follows it.
abbrev pub move_unit : PageMapping → ℕ → ℕ → List (ℕ × ℕ) → ℕ → ℕ → Result (ℕ × PageMapping)
move_unit s target lpn mapping i written_at = do
  old ← at mapping i
  elim (find target s.blocks) [
    | none ↦ panic past_the_end
    | some b ↦
        let page = Block.next_write_page_index_at b i in
        (do
          written ← Block.write b page lpn i written_at
          ok (
            page,
            record s {
              blocks = Map.insert target written.0 s.blocks;
              table = Map.insert lpn (set mapping i (target, page)) s.table;
            },
          ))
  ]

-- `written_at` is `beginAt`, which the function passes on before it assigns to it.
module _ {D : Type 0} (hw : Hardware D) (written_at : ℕ) where
  -- One round of the loop over the units of a page.
  unfoldable pub copy_unit : Collection D → ℕ → ℕ → List ℕ → Bitset → ℕ → ℕ → Result (Collection D)
  copy_unit w key page lpns bits target i =
      if Bitset.test bits i
      then (do
        s ← invalidate_found w.mapping key page i (find key w.mapping.blocks)
        lpn ← at lpns i
        elim (find lpn s.table) [
          | none ↦ panic invalid_mapping
          | some mapping ↦ (do
            moved ← move_unit s target lpn mapping i written_at
            ok (record w {
              mapping = moved.1;
              writes = w.writes ++ collector_request target moved.0 (unit_flag s bits i) ∷ [];
              clock = hw.dram_read lpn (8 * s.param.io_unit_in_page) w.clock;
            }))
        ])
      else ok w

  unfoldable pub copy_units :
      ℕ → ℕ → Collection D → ℕ → ℕ → List ℕ → Bitset → ℕ → Result (Collection D)
  copy_units zero i w key page lpns bits target = ok w
  copy_units (suc n) i w key page lpns bits target = do
    next ← copy_unit w key page lpns bits target i
    copy_units n (i + 1) next key page lpns bits target

  -- One round of the loop over the pages of a block.
  unfoldable pub copy_page : Collection D → ℕ → ℕ → Result (Collection D)
  copy_page w key page = elim (find key w.mapping.blocks) [
    | none ↦ panic past_the_end
    | some b ↦ (do
      info ← Block.page_info b page (Bitset.create w.mapping.param.io_unit_in_page)
      let bits = if w.mapping.random_tweak then info.bits else Bitset.set_all info.bits
      if not info.any then ok w else (do
        opened ← get_last_free_block w.mapping bits
        copy_units w.mapping.bitset_size 0
            (record w {
              mapping = opened.1;
              reads = w.reads ++ collector_request key page bits ∷ [];
            })
            key page info.lpns bits opened.0))
  ]

  unfoldable pub copy_pages : ℕ → ℕ → Collection D → ℕ → Result (Collection D)
  copy_pages zero page w key = ok w
  copy_pages (suc n) page w key = do next ← copy_page w key page; copy_pages n (page + 1) next key

  -- The loop over the blocks to reclaim.
  unfoldable pub collect_blocks : List ℕ → Collection D → Result (Collection D)
  collect_blocks [] w = ok w
  collect_blocks (key ∷ keys) w = elim (find key w.mapping.blocks) [
    | none ↦ panic invalid_block
    | some b ↦ (do
      copied ← copy_pages w.mapping.param.pages_in_block 0 w key
      collect_blocks keys (record copied {
        erases =
            copied.erases
            ++ collector_request key 0
                (Bitset.set_all (Bitset.create copied.mapping.param.io_unit_in_page))
              ∷ [];
      }))
  ]

-- The loop over requests to the PAL: each begins at `begin`, and the clock has the last end.
unfoldable pub issue :
    {D : Type 0} → (PalRequest → Clock D → Clock D) → List PalRequest → ℕ → Clock D → Clock D
issue op [] begin c = c
issue op (r ∷ rs) begin c =
    let end = op r (record { tick = begin; device = c.device }) in
    issue op rs begin (record { tick = max c.tick end.tick; device = end.device })

module _ {D : Type 0} (hw : Hardware D) where
  unfoldable pub issue_erases :
      ℕ → List PalRequest → ℕ → PageMapping → Clock D → Result (PageMapping × Clock D)
  issue_erases threshold [] begin s c = ok (s, c)
  issue_erases threshold (r ∷ rs) begin s c = do
    done ← erase_internal hw threshold s r (record { tick = begin; device = c.device })
    issue_erases threshold rs begin done.0
        (record { tick = max c.tick done.1.tick; device = done.1.device })

  -- doGarbageCollection(blocksToReclaim, tick)
  unfoldable pub do_garbage_collection :
      ℕ → ℕ → PageMapping → List ℕ → Clock D → Result (PageMapping × Clock D)
  do_garbage_collection threshold written_at s [] c = ok (s, c)
  do_garbage_collection threshold written_at s (key ∷ keys) c = do
    w ←
        collect_blocks hw written_at (key ∷ keys)
          (record { mapping = s; reads = []; writes = []; erases = []; clock = c })
    let begun : D → Clock D = λ d. record { tick = c.tick; device = d }
    let read = issue hw.pal_read w.reads w.clock.tick (begun w.clock.device)
    let written = issue hw.pal_write w.writes read.tick (begun read.device)
    erased ← issue_erases threshold w.erases read.tick w.mapping (begun written.device)
    ok (
      erased.0,
      hw.apply_latency do_garbage_collection_cost
          (record erased.1 { tick = max written.tick erased.1.tick }),
    )

  -- writeInternal(req, tick, sendToPAL); the collection takes no time of the request.
  unfoldable pub write_internal :
      {W : Type 0}
      → Weights W
      → (List (ℕ × W) → List (ℕ × W))
      → GcConfig
      → ℕ
      → PageMapping
      → Request
      → Bool
      → Clock D
      → Result (PageMapping × Clock D)
  write_internal ws sort f written_at s req send c = do
    r ← write_pages hw s req send c
    let chosen = select_victim_block ws sort hw f r.0 r.1
    if not (f.is_low r.0.n_free_blocks r.0.param.total_physical_blocks)
        then ok r
        else if not send
        then panic collection_in_initialization
        else (do
          done ← do_garbage_collection f.bad_block_threshold written_at chosen.1 chosen.0 chosen.2
          ok (done.0, record done.1 { tick = r.1.tick }))
