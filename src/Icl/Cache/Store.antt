-- ===== src/Icl/Cache/Store.antt =====
-- icl/generic_cache.cc: write().
use simple_ssd.Base.{
  ℕ, zero, suc, ◌+◌, ◌*◌, Bool, true, false, not, ◌||◌, List, [], ◌∷◌, Option, none, some, ltb,
  ◌==◌, if◌then◌else◌, max,
}
use simple_ssd.Base.Result.{Result, ok, panic, unless_stopped, panic_or, ◌>>=◌, cache_corrupted}
use simple_ssd.Ftl.PageMapping.State.{Clock}
use simple_ssd.Icl.Cache.State.{
  Line, Place, Cache, Request, Lower, empty_line, line_at, put_line, evict_at, put_evict,
  calc_set_index, calc_io_position, cache_latency, ftl_request, cache_write,
}
use simple_ssd.Icl.Cache.Ways.{get_empty_way, get_valid_way, compare_lines}
use simple_ssd.Icl.Cache.Evict.{evict_cache}

-- The data in the line at `place`: it is dirty, or the FTL has it at `flash`.
unfoldable pub stored_line : Line → Bool → ℕ → ℕ → ℕ → Line
stored_line x dirty lca tick flash =
    let at = if dirty then tick else flash in
    record { tag = lca; last_accessed = at; inserted_at = at; dirty = dirty; valid = true }

-- One line of the loop over all sets: the better victim at its position.
unfoldable pub offer : Cache → Place → Cache
offer c p =
    let x = line_at c p in
    let (row, col) = calc_io_position c.geometry x.tag in
    if x.valid then put_evict c row col (compare_lines c (evict_at c row col) (some p)) else c

unfoldable pub offer_ways : ℕ → Cache → ℕ → ℕ → Cache
offer_ways zero c i way = c
offer_ways (suc n) c i way = offer_ways n (offer c (i, way)) i (way + 1)

unfoldable pub offer_sets : ℕ → Cache → ℕ → Cache
offer_sets zero c i = c
offer_sets (suc n) c i = offer_sets n (offer_ways c.geometry.way_size c i 0) (i + 1)

-- A row of `evictData` in the super page mode: the best victim moves to the last column.
unfoldable pub shift_from : Cache → Option Place → List (Option Place) → List (Option Place)
shift_from c best [] = best ∷ []
shift_from c best (x ∷ xs) = none ∷ shift_from c (compare_lines c best x) xs

abbrev pub shift_row : Cache → List (Option Place) → List (Option Place)
shift_row c [] = []
shift_row c (x ∷ xs) = shift_from c x xs

abbrev pub shift_rows : Cache → List (List (Option Place)) → List (List (Option Place))
shift_rows c [] = []
shift_rows c (r ∷ rs) = shift_row c r ∷ shift_rows c rs

-- Is there a line of the set in `evictData`?
unfoldable pub in_row : Cache → ℕ → List (Option Place) → Bool
in_row c i [] = false
in_row c i (none ∷ xs) = in_row c i xs
in_row c i (some p ∷ xs) =
    let rest = in_row c i xs in calc_set_index c.geometry (line_at c p).tag == i || rest

unfoldable pub in_rows : Cache → ℕ → List (List (Option Place)) → Bool
in_rows c i [] = false
in_rows c i (r ∷ rs) = in_row c i r || in_rows c i rs

-- The best victim of a set, from way `way` with `n` to go.
unfoldable pub victim_of : ℕ → Cache → ℕ → ℕ → Option Place → Option Place
victim_of zero c i way best = best
victim_of (suc n) c i way best =
    victim_of n c i (way + 1)
      (if (line_at c (i, way)).valid then compare_lines c best (some (i, way)) else best)

-- The victims of a full set: one line of the set is among them.
unfoldable pub choose_victims : Cache → ℕ → Cache
choose_victims c i =
    let g = c.geometry in
    let offered = offer_sets g.set_size c 0 in
    let shifted =
      if g.conf.evict_super_page
      then record offered { evict_data = shift_rows offered offered.evict_data }
      else offered in
    if in_rows shifted i shifted.evict_data
    then shifted
    else elim (victim_of g.way_size shifted i 0 none) [
      | none ↦ shifted
      | some p ↦
          let (row, col) = calc_io_position g (line_at shifted p).tag in
          put_evict shifted row col (some p)
    ]

module _ {D : Type 0} (hw : Lower D) where
  -- The request's data goes to the line at `place`, once the line has arrived.
  unfoldable pub store_at : Cache → Request → Place → Bool → ℕ → ℕ → Clock D → Cache × Clock D
  store_at c req place dirty tag flash k =
      let x = line_at c place in
      let tick = max k.tick x.inserted_at in
      (
        put_line c place (stored_line x dirty tag tick flash),
        hw.dram_write (some place) req.length (record k { tick = tick }),
      )

  -- A miss with the set full: evict, then store.
  unfoldable pub flush_and_store : Cache → Request → ℕ → Clock D → Result (Cache × Clock D)
  flush_and_store c req i k =
      let g = c.geometry in
      let tick = k.tick + cache_latency g * g.set_size * g.way_size * 8 in
      let (evicted, d) = evict_cache hw (choose_victims c i) tick true k.device in
      let (way, at) = get_empty_way evicted i tick in
      let end = hw.dram_write (some (i, way)) req.length (record { tick = at; device = d }) in
      if way == g.way_size
      then panic (panic_or (hw.stopped d) cache_corrupted)
      else ok (
        put_line evicted (i, way) (stored_line empty_line true req.range.slpn end.tick end.tick),
        end,
      )

  -- The branch of write() with write caching; true if the line was there or a way was empty.
  unfoldable pub write_cached :
      Cache → Request → Bool → ℕ → Clock D → Result (Cache × Bool × Clock D)
  write_cached c req dirty flash k =
      let g = c.geometry in
      let lca = req.range.slpn in
      let i = calc_set_index g lca in
      let (way, searched) = get_valid_way c lca k.tick in
      let (free, at) = get_empty_way c i searched in
      let hit =
        store_at c req (i, way) dirty (line_at c (i, way)).tag flash
          (record k { tick = searched }) in
      let filled = store_at c req (i, free) dirty lca flash (record k { tick = at }) in
      if not (way == g.way_size)
      then ok (hit.0, true, hw.apply_latency cache_write hit.1)
      else if not (free == g.way_size)
      then ok (filled.0, true, hw.apply_latency cache_write filled.1)
      else (do
        r ← flush_and_store c req i (record k { tick = at })
        ok (r.0, false, hw.apply_latency cache_write r.1))

  -- write(req, tick): a request of a whole line goes to the FTL at once.
  unfoldable pub write : Cache → Request → Clock D → Result (Cache × Bool × Clock D)
  write c req k =
      let g = c.geometry in
      let r = ftl_request g req in
      let dirty = ltb req.length g.line_size in
      let flash = if dirty then k else hw.ftl_write r k in
      let now : Clock D = record { tick = k.tick; device = flash.device } in
      let through = if dirty then hw.ftl_write r now else flash in
      let read_out =
        hw.dram_read none req.length
          (record through { device = hw.set_scheduling false through.device }) in
      let uncached = record read_out { device = hw.set_scheduling true read_out.device } in
      do
        (after, ret, end) ←
            if g.conf.use_write_caching
            then write_cached c req dirty flash.tick now
            else ok (c, false, uncached)
        let st = after.stat
        unless_stopped (hw.stopped end.device) (
          record after {
            stat = record st {
              writes = st.writes + 1;
              write_hits = if ret then st.write_hits + 1 else st.write_hits;
            };
          },
          ret,
          end,
        )
