-- ===== src/Ftl/PageMapping/Access.antt =====
-- ftl/page_mapping.cc: readInternal(), trimInternal(), and writeInternal() up to its call of the
-- garbage collector.
use simple_ssd.Base.{
  ℕ, zero, suc, ◌+◌, ◌*◌, Bool, not, ◌&&◌, ◌||◌, List, Option, none, some, ltb, max, if◌then◌else◌,
  set, replicate,
}
use simple_ssd.Base.Result.{
  Result, ok, panic, ◌>>=◌, at, block_not_in_use, no_such_block, past_the_end,
}
use simple_ssd.Base.Map
use simple_ssd.Base.Map.{find}
use simple_ssd.Util.Bitset
use simple_ssd.Util.Bitset.{Bitset}
use simple_ssd.Ftl.Block
use simple_ssd.Ftl.Block.{Block}
use simple_ssd.Ftl.PageMapping.State.{
  PageMapping, Request, pal_request, read_internal_cost, write_internal_cost, trim_internal_cost,
  Clock, Hardware, unit_flag,
}
use simple_ssd.Ftl.PageMapping.Alloc.{get_last_free_block}

-- `req.ioFlag.test(idx) || !bRandomTweak`
abbrev pub selected : PageMapping → Bitset → ℕ → Bool
selected s flag i = Bitset.test flag i || not s.random_tweak

-- `mapping.first < totalPhysicalBlocks && mapping.second < pagesInBlock`
abbrev pub is_mapped : PageMapping → ℕ × ℕ → Bool
is_mapped s (k, p) = ltb k s.param.total_physical_blocks && ltb p s.param.pages_in_block

-- `block->second.invalidate(mapping.second, idx)` through an iterator
abbrev pub invalidate_found : PageMapping → ℕ → ℕ → ℕ → Option Block → Result PageMapping
invalidate_found s k p i none = panic past_the_end
invalidate_found s k p i (some b) = do
  c ← Block.invalidate b p i
  ok (record s { blocks = Map.insert k c s.blocks })

-- One round of the first loop of writeInternal().
unfoldable pub detach_unit : PageMapping → Bitset → List (ℕ × ℕ) → ℕ → Result PageMapping
detach_unit s flag mapping i =
    if selected s flag i
    then (do
      m ← at mapping i
      if is_mapped s m then invalidate_found s m.0 m.1 i (find m.0 s.blocks) else ok s)
    else ok s

-- The loop from unit `i`, with `n` units to go.
unfoldable pub detach_units : ℕ → ℕ → PageMapping → Bitset → List (ℕ × ℕ) → Result PageMapping
detach_units zero i s flag mapping = ok s
detach_units (suc n) i s flag mapping = do
  t ← detach_unit s flag mapping i
  detach_units n (i + 1) t flag mapping

-- Invalidate the units that are written again, or create an empty mapping.
unfoldable pub detach : PageMapping → Request → Result PageMapping
detach s req = elim (find req.lpn s.table) [
  | some mapping ↦ detach_units s.bitset_size 0 s req.io_flag mapping
  | none ↦
      let unmapped : ℕ × ℕ = (s.param.total_physical_blocks, s.param.pages_in_block) in
      ok (record s { table = Map.insert req.lpn (replicate s.bitset_size unmapped) s.table })
]

-- The accesses to the mapping table in DRAM.
abbrev pub entry_bytes : PageMapping → Request → ℕ
entry_bytes s req = if s.random_tweak then 8 * Bitset.count req.io_flag else 8

-- One round of trimInternal(): every unit, mapped or not.
unfoldable pub trim_units : ℕ → ℕ → PageMapping → List (ℕ × ℕ) → Result PageMapping
trim_units zero i s mapping = ok s
trim_units (suc n) i s mapping = do
  m ← at mapping i
  t ← elim (find m.0 s.blocks) [
    | none ↦ panic block_not_in_use
    | some b ↦ invalidate_found s m.0 m.1 i (some b)
  ]
  trim_units n (i + 1) t mapping

module _ {D : Type 0} (hw : Hardware D) where
  open hw use {pal_read, pal_write, dram_read, dram_write, apply_latency}

  -- The requests to the PAL for one unit: the old data, if it is read first, and the new.
  abbrev pub write_io : PageMapping → Request → Bool → ℕ × ℕ → ℕ → ℕ → ℕ → Clock D → Clock D
  write_io s req send old key page i at_begin =
      let partial = not s.random_tweak && not (Bitset.all req.io_flag) in
      let r = pal_request req in
      let old_read =
        if partial && send
        then pal_read
            (record r {
              block_index = old.0;
              page_index = old.1;
              io_flag = Bitset.flip_all req.io_flag;
            })
            at_begin
        else at_begin in
      if send
      then pal_write
          (record r { block_index = key; page_index = page; io_flag = unit_flag s req.io_flag i })
          old_read
      else old_read

  -- One round of the second loop of writeInternal(): the state, `finishedAt` and the device.
  unfoldable pub write_unit :
      PageMapping → Request → Bool → ℕ → ℕ → ℕ → Clock D → Result (PageMapping × Clock D)
  write_unit s req send key i tick c =
      if selected s req.io_flag i
      then elim (find key s.blocks) [
        | none ↦ panic past_the_end
        | some b ↦ elim (find req.lpn s.table) [
          | none ↦ panic past_the_end
          | some mapping ↦ (do
            let page = Block.next_write_page_index_at b i
            old ← at mapping i
            written ← Block.write b page req.lpn i tick
            let end = write_io s req send old key page i (record { tick = tick; device = c.device })
            ok (
              record s {
                blocks = Map.insert key written.0 s.blocks;
                table = Map.insert req.lpn (set mapping i (key, page)) s.table;
              },
              record { tick = max c.tick end.tick; device = end.device },
            ))
        ]
      ]
      else ok (s, c)

  unfoldable pub write_units :
      ℕ → ℕ → PageMapping → Request → Bool → ℕ → ℕ → Clock D → Result (PageMapping × Clock D)
  write_units zero i s req send key tick c = ok (s, c)
  write_units (suc n) i s req send key tick c = do
    r ← write_unit s req send key i tick c
    write_units n (i + 1) r.0 req send key tick r.1

  -- writeInternal(req, tick, sendToPAL), up to the garbage collection.
  unfoldable pub write_pages :
      PageMapping → Request → Bool → Clock D → Result (PageMapping × Clock D)
  write_pages s req send c = do
    detached ← detach s req
    opened ← get_last_free_block detached req.io_flag
    let t = opened.1
    let bytes = entry_bytes t req
    let fetched = if send then dram_write req.lpn bytes (dram_read req.lpn bytes c) else c
    let loop_clock : Clock D = record { tick = c.tick; device = fetched.device }
    elim (find opened.0 t.blocks) [
      | none ↦ panic no_such_block
      | some _ ↦ (do
        done ← write_units t.bitset_size 0 t req send opened.0 fetched.tick loop_clock
        ok (
          done.0,
          if send
              then apply_latency write_internal_cost done.1
              else record { tick = fetched.tick; device = done.1.device },
        ))
    ]

  -- One round of readInternal().
  unfoldable pub read_unit :
      PageMapping → Request → List (ℕ × ℕ) → ℕ → ℕ → Clock D → Result (PageMapping × Clock D)
  read_unit s req mapping i tick c =
      if selected s req.io_flag i
      then (do
        m ← at mapping i
        if is_mapped s m
            then elim (find m.0 s.blocks) [
              | none ↦ panic block_not_in_use
              | some b ↦ (do
                r ← Block.read b m.1 i tick
                let req' = record (pal_request req) {
                  block_index = m.0;
                  page_index = m.1;
                  io_flag = unit_flag s req.io_flag i;
                }
                let end = pal_read req' (record { tick = tick; device = c.device })
                ok (
                  record s { blocks = Map.insert m.0 r.0 s.blocks },
                  record { tick = max c.tick end.tick; device = end.device },
                ))
            ]
            else ok (s, c))
      else ok (s, c)

  unfoldable pub read_units :
      ℕ → ℕ → PageMapping → Request → List (ℕ × ℕ) → ℕ → Clock D → Result (PageMapping × Clock D)
  read_units zero i s req mapping tick c = ok (s, c)
  read_units (suc n) i s req mapping tick c = do
    r ← read_unit s req mapping i tick c
    read_units n (i + 1) r.0 req mapping tick r.1

  -- readInternal(req, tick)
  unfoldable pub read_internal : PageMapping → Request → Clock D → Result (PageMapping × Clock D)
  read_internal s req c = elim (find req.lpn s.table) [
    | none ↦ ok (s, c)
    | some mapping ↦ (do
      let fetched = dram_read req.lpn (entry_bytes s req) c
      r ←
          read_units s.bitset_size 0 s req mapping fetched.tick
            (record { tick = c.tick; device = fetched.device })
      ok (r.0, apply_latency read_internal_cost r.1))
  ]

  -- trimInternal(req, tick)
  unfoldable pub trim_internal : PageMapping → Request → Clock D → Result (PageMapping × Clock D)
  trim_internal s req c = elim (find req.lpn s.table) [
    | none ↦ ok (s, c)
    | some mapping ↦ (do
      let fetched = dram_read req.lpn (entry_bytes s req) c
      t ← trim_units s.bitset_size 0 s mapping
      ok (record t { table = Map.erase req.lpn t.table }, apply_latency trim_internal_cost fetched))
  ]
