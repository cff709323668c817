-- ===== src/Icl/Cache/Fetch.antt =====
-- icl/generic_cache.cc: checkSequential() and read().
use simple_ssd.Base.{
  ℕ, zero, suc, ◌+◌, ◌-◌, ◌*◌, ◌/◌, ◌%◌, ◌^◌, Bool, true, false, not, ◌&&◌, ◌||◌, List, [], ◌∷◌,
  ◌++◌, Option, none, some, leb, ◌==◌, if◌then◌else◌, max,
}
use simple_ssd.Ftl.PageMapping.State.{Clock}
use simple_ssd.Icl.Cache.State.{
  Place, Cache, Geometry, Request, SequentialDetect, Lower, line_at, put_line, put_evict,
  calc_set_index, calc_io_position, unit_request, ftl_request, cache_read,
}
use simple_ssd.Icl.Cache.Ways.{get_empty_way, get_valid_way, evict_way}
use simple_ssd.Icl.Cache.Evict.{evict_cache}

-- The end of a request, and its begin, in bytes.
abbrev pub begin_of : Geometry → Request → ℕ
begin_of g r = r.range.slpn * g.line_size + r.offset

abbrev pub end_of : Geometry → Request → ℕ
end_of g r = begin_of g r + r.length

-- checkSequential(req, data)
unfoldable pub check_sequential : Geometry → Request → SequentialDetect → SequentialDetect
check_sequential g req d =
    let last = d.last_request in
    let hits = (d.hit_counter + 1) % 2 ^ 32 in
    let bytes = (d.access_counter + last.offset + last.length) % 2 ^ 32 in
    let long_enough = leb g.conf.prefetch_io_count hits && g.conf.ratio_reached bytes in
    if last.req_id == req.req_id
    then record d {
      last_request = record last { range = req.range; offset = req.offset; length = req.length };
    }
    else if end_of g last == begin_of g req
    then (if d.enabled then record d { last_request = req } else record {
      enabled = long_enough;
      last_request = req;
      hit_counter = hits;
      access_counter = bytes;
    })
    else record { enabled = false; last_request = req; hit_counter = 0; access_counter = 0 }

-- The LCAs that a miss reads: the first, and one past the last.
unfoldable pub read_ahead : Cache → ℕ → Cache × ℕ
read_ahead c first =
    let g = c.geometry in
    let count =
      if g.conf.prefetch_all || not g.super_page
      then g.line_count_in_max_io
      else g.line_count_in_super_page in
    if c.read_detect.enabled
    then (
      record c { prefetch_trigger = first + count / 2; last_prefetched = first + count },
      first + count,
    )
    else (c, first + 1)

-- A way for `lca`: an empty one, or that of a victim, which is set aside if it is dirty.
unfoldable pub take_way : Cache → ℕ → ℕ → Cache × ℕ × ℕ
take_way c i tick =
    let g = c.geometry in
    let free = get_empty_way c i tick in
    let victim = evict_way c i free.1 in
    let x = line_at c (i, victim.0) in
    let at = calc_io_position g x.tag in
    if free.0 == g.way_size
    then (if x.dirty then put_evict c at.0 at.1 (some (i, victim.0)) else c, victim.0, victim.1)
    else (c, free.0, free.1)

-- What the first loop keeps: the cache, the lines to read, and `finishedAt`.
pub record Fetching : Type 0 where
  pub cache : Cache
  pub read_list : List (ℕ × Place)
  pub finished_at : ℕ

-- One round of the first loop. The tag is set only when the data has come.
unfoldable pub reserve : Fetching → ℕ → ℕ → Fetching
reserve f lca tick =
    let c = f.cache in
    let hit = get_valid_way c lca tick in
    let i = calc_set_index c.geometry lca in
    let (taken, way, at) = take_way c i hit.1 in
    let line = record (line_at taken (i, way)) {
      inserted_at = at;
      last_accessed = at;
      valid = true;
      dirty = false;
    } in
    if hit.0 == c.geometry.way_size
    then record {
      cache = put_line taken (i, way) line;
      read_list = f.read_list ++ (lca, (i, way)) ∷ [];
      finished_at = max f.finished_at at;
    }
    else f

unfoldable pub reserve_all : ℕ → Fetching → ℕ → ℕ → Fetching
reserve_all zero f lca tick = f
reserve_all (suc n) f lca tick = reserve_all n (reserve f lca tick) (lca + 1) tick

module _ {D : Type 0} (hw : Lower D) where
  -- One round of the second loop: the cache, `finishedAt` and the device.
  unfoldable pub load_line : Request → ℕ → Cache → ℕ × Place → ℕ → D → Cache × ℕ × D
  load_line req tick c (lca, place) finished d =
      let g = c.geometry in
      let lines = g.line_count_in_super_page in
      let x = line_at c place in
      let r = record (unit_request g (lca / lines) (lca % lines)) {
        req_id = req.req_id;
        req_sub_id = req.req_sub_id;
      } in
      let flash = hw.ftl_read r (record { tick = tick; device = d }) in
      let stored =
        hw.dram_write (some place) g.line_size
          (record { tick = x.inserted_at; device = flash.device }) in
      let at = max flash.tick stored.tick in
      (
        put_line c place (record x { inserted_at = at; last_accessed = at; tag = lca }),
        if lca == req.range.slpn then at else finished,
        stored.device,
      )

  unfoldable pub load_lines : Request → ℕ → Cache → List (ℕ × Place) → ℕ → D → Cache × ℕ × D
  load_lines req tick c [] finished d = (c, finished, d)
  load_lines req tick c (x ∷ xs) finished d =
      let (c', finished', d') = load_line req tick c x finished d in
      load_lines req tick c' xs finished' d'

  -- From the label ICL_GENERIC_CACHE_READ on; `arrived` is there if this is a prefetch.
  unfoldable pub fetch : Cache → Request → Option ℕ → Clock D → Cache × Clock D
  fetch c req arrived k =
      let first = req.range.slpn in
      let ahead = c.read_detect.enabled in
      let d = if ahead then hw.set_scheduling false k.device else k.device in
      let (begun, past) = read_ahead c first in
      let f =
        reserve_all (past - first) (record { cache = begun; read_list = []; finished_at = k.tick })
          first k.tick in
      let (evicted, d') = evict_cache hw f.cache f.finished_at true d in
      let (loaded, finished, d'') =
        load_lines req f.finished_at evicted f.read_list f.finished_at d' in
      let tick = if ahead then elim arrived [ none ↦ finished | some t ↦ t ] else finished in
      (loaded, record { tick = tick; device = if ahead then hw.set_scheduling true d'' else d'' })

  -- A hit at `place`, from `tick` on: the line, and the access to the DRAM.
  unfoldable pub read_hit : Cache → Request → Place → Clock D → Cache × Clock D
  read_hit c req place k =
      let x = line_at c place in
      let at = max k.tick x.inserted_at in
      (
        put_line c place (record x { last_accessed = at }),
        hw.dram_read (some place) req.length (record k { tick = at }),
      )

  -- The branch of read() with read caching.
  unfoldable pub read_cached : Cache → Request → Clock D → Cache × Bool × Clock D
  read_cached c req k =
      let g = c.geometry in
      let watched =
        if g.conf.use_read_prefetch
        then record c { read_detect = check_sequential g req c.read_detect }
        else c in
      let (way, searched) = get_valid_way watched req.range.slpn k.tick in
      let k' = record k { tick = searched } in
      let (hit, done) = read_hit watched req (calc_set_index g req.range.slpn, way) k' in
      let again = g.conf.use_read_prefetch && req.range.slpn == hit.prefetch_trigger in
      let ahead = record req { range = record req.range { slpn = hit.last_prefetched } } in
      let (after, end) =
        if way == g.way_size
        then fetch watched req none k'
        else if again
        then fetch hit ahead (some done.tick) (record done { tick = searched })
        else (hit, done) in
      (after, not (way == g.way_size), hw.apply_latency cache_read end)

  -- read(req, tick): true on a hit.
  unfoldable pub read : Cache → Request → Clock D → Cache × Bool × Clock D
  read c req k =
      let direct = hw.ftl_read (ftl_request c.geometry req) (hw.dram_write none req.length k) in
      let (after, ret, end) =
        if c.geometry.conf.use_read_caching then read_cached c req k else (c, false, direct) in
      let st = after.stat in
      (
        record after {
          stat = record st {
            reads = st.reads + 1;
            read_hits = if ret then st.read_hits + 1 else st.read_hits;
          };
        },
        ret,
        end,
      )
