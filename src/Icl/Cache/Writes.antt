-- ===== src/Icl/Cache/Writes.antt =====
-- icl/generic_cache.cc: what write() leaves.
use simple_ssd.Base.{
  ℕ, ◌+◌, ◌*◌, ◌≤◌, ◌<◌, ◌≡◌, ◌∙◌, sym, ap, inl, inr, refl, Bool, true, false, some, arith, ltb,
  ◌==◌, if◌then◌else◌, max,
}
use simple_ssd.Base.Result.{Result, ok, unless_stopped, ◌>>=◌}
use simple_ssd.Ftl.PageMapping.State.{Clock}
use simple_ssd.Icl.Cache.State.{
  Line, Place, Cache, Request, Lower, set_of, line_at, put_line, max64, calc_set_index,
  cache_latency, cache_write, ftl_request, empty_line, Stat,
}
use simple_ssd.Icl.Cache.Lines.{InCache}
use simple_ssd.Icl.Cache.Search.{set_index-lt, get_empty_way-Least, get_valid_way-Found, ways_here}
use simple_ssd.Icl.Cache.Ways.{is_empty, inserted, get_empty_way, get_valid_way}
use simple_ssd.Icl.Cache.Coherent.{IsCoherent, Weaker-refl}
use simple_ssd.Icl.Cache.Placed.{
  Stored, IsAbsent, IsAbsent-Weaker, put_absent-Stored, put_found-Stored, full-valid,
  evicted-Weaker, evicted-IsCoherent, evicted-way,
}
use simple_ssd.Icl.Cache.Chosen.{choose_victims-Chosen}
use simple_ssd.Icl.Cache.Store.{
  stored_line, store_at, choose_victims, flush_and_store, write_cached, write,
}
use simple_ssd.Icl.Cache.Times.{
  valid_way_time, least_way_time, search_time, write_time, HasRoom, searched_at, evicting, storing,
  WriteTimes,
}
use simple_ssd.Icl.Cache.Evict.{evict_cache}

-- The branch of a caching cache, in a chain of results.
run_cached {ℓ ℓ'} :
    {A : Type ℓ} {B : Type ℓ'} {a : A} (b : Bool) (x y : Result A) (f : A → Result B)
    → b ≡ true
    → x ≡ ok a
    → ((if b then x else y) >>= f) ≡ f a
run_cached true x y f cached e = rw e refl
run_cached false x y f cached e = cc

-- The counters are no part of it.
Stored-stat :
    {c c' : Cache} {lca : ℕ} {dirty : Bool} (st : Stat)
    → (s : Stored c c' lca dirty)
    → (after : Stored c (record c' { stat = st }) lca dirty) × (after.place ≡ s.place)
Stored-stat st s = (
  record {
    same_geometry = s.same_geometry;
    coherent = record {
      shaped = record {
        sets = s.coherent.shaped.sets;
        ways = s.coherent.shaped.ways;
        sets_pos = s.coherent.shaped.sets_pos;
        ways_pos = s.coherent.shaped.ways_pos;
      };
      grid = record { rows = s.coherent.grid.rows; cols = s.coherent.grid.cols };
      lines_pos = s.coherent.lines_pos;
      parallel_pos = s.coherent.parallel_pos;
      max_io = s.coherent.max_io;
      home = s.coherent.home;
      unique = s.coherent.unique;
      timely = s.coherent.timely;
      idle = s.coherent.idle;
    };
    place = s.place;
    here = s.here;
    valid = s.valid;
    tag = s.tag;
    is_dirty = s.is_dirty;
    others = s.others;
  },
  refl,
)

module _ {D : Type 0} (hw : Lower D) {c : Cache} (v : IsCoherent c) (req : Request) where
  abbrev lca : ℕ
  lca = req.range.slpn

  abbrev home : ℕ
  home = calc_set_index c.geometry lca

  home_lt : home < c.geometry.set_size
  home_lt = set_index-lt c.geometry lca v.shaped.sets_pos

  get_valid_way_time : (tick : ℕ) → (get_valid_way c lca tick).1 ≤ tick + search_time c.geometry
  unfolding get_valid_way
  get_valid_way_time tick =
      let n = ways_here v.shaped home tick home_lt in
      let t = valid_way_time (cache_latency c.geometry * 8) lca (set_of c home) 0 tick in rw n at t

  get_empty_way_time : (tick : ℕ) → (get_empty_way c home tick).1 ≤ tick + search_time c.geometry
  unfolding get_empty_way
  get_empty_way_time tick =
      let n = ways_here v.shaped home tick home_lt in
      let t =
        least_way_time is_empty inserted (cache_latency c.geometry * 8) (set_of c home) 0 max64
          c.geometry.way_size tick in
      rw n at t

  -- A line that is stored at `place`.
  stored-early :
      (x : Line) (dirty : Bool) (tag tick flash : ℕ)
      → tick < max64
      → flash < max64
      → (stored_line x dirty tag tick flash).inserted_at < max64
  unfolding stored_line
  stored-early x true tag tick flash h e = h
  stored-early x false tag tick flash h e = e

  stored-is :
      (x : Line) (dirty : Bool) (tag tick flash : ℕ)
      → ((stored_line x dirty tag tick flash).tag ≡ tag)
        × ((stored_line x dirty tag tick flash).valid ≡ true)
        × ((stored_line x dirty tag tick flash).dirty ≡ dirty)
  unfolding stored_line
  stored-is x dirty tag tick flash = (refl, refl, refl)

  flush_and_store-Stored :
      (k : Clock D)
      → ((p : Place) → InCache c p → (line_at (evicting hw c home k).0 p).inserted_at < max64)
      → (storing hw c req home k).tick < max64
      → (before : ℕ) → (get_empty_way c home before).0 ≡ c.geometry.way_size
      → IsAbsent c lca
      → (c' : Cache) × (end : Clock D) × (flush_and_store hw c req home k ≡ ok (c', end))
        × (after : Stored c c' lca true) × (into : Clock D) × (end
            ≡ hw.dram_write (some after.place) req.length into)
  unfolding flush_and_store stored_line
  flush_and_store-Stored k timely stored_lt before full absent =
      let g = c.geometry in
      let tick = k.tick + cache_latency g * g.set_size * g.way_size * 8 in
      let f = choose_victims-Chosen v home home_lt (full-valid v home before home_lt full) in
      let chosen = choose_victims c home in
      let e = evict_cache hw chosen tick true k.device in
      let w = evicted-Weaker hw v home tick home_lt k.device chosen f in
      let ev = evicted-IsCoherent hw v home tick home_lt k.device chosen f timely in
      let (way_lt, way_ne) = evicted-way hw v home tick home_lt k.device chosen f timely in
      let way = get_empty_way e.0 home tick in
      let end =
        hw.dram_write (some (home, way.0)) req.length (record { tick = way.1; device = e.1 }) in
      let x = stored_line empty_line true lca end.tick end.tick in
      let away : (way.0 == g.way_size) ≡ false = ground (arith, way_ne, w.same_geometry) in
      let at : home ≡ calc_set_index e.0.geometry lca =
        ap (λ g. calc_set_index g lca) (sym w.same_geometry) in
      let after =
        put_absent-Stored lca way.0 x v ev w (IsAbsent-Weaker lca v w absent) way_lt refl refl
          stored_lt home at in
      (
        put_line e.0 (home, way.0) x,
        end,
        rw away refl,
        after.0,
        record { tick = way.1; device = e.1 },
        ap (λ p. hw.dram_write (some p) req.length (record { tick = way.1; device = e.1 }))
            (sym after.1),
      )

  write_cached-Stored :
      (dirty : Bool) (flash : ℕ) (k : Clock D)
      → k.tick + write_time c.geometry < max64
      → flash < max64
      → ((p : Place)
          → InCache c p
          → (line_at (evicting hw c home (searched_at c lca k)).0 p).inserted_at < max64)
      → (storing hw c req home (searched_at c lca k)).tick < max64
      → (c' : Cache) × (ret : Bool) × (end : Clock D) × (write_cached hw c req dirty flash k
          ≡ ok (c', ret, end))
        × HasRoom c lca ret
        × (after : Stored c c' lca (if ret then dirty else true)) × (into : Clock D) × (end
            ≡ hw.apply_latency cache_write (hw.dram_write (some after.place) req.length into))
  unfolding write_cached store_at stored_line
  write_cached-Stored dirty flash k soon flash_lt timely stored_lt =
      let g = c.geometry in
      let way = get_valid_way c lca k.tick in
      let free = get_empty_way c home way.1 in
      let way_time = get_valid_way_time k.tick in
      let free_time = get_empty_way_time way.1 in
      elim (get_valid_way-Found v.shaped lca k.tick) [
        | inr (way_lt, found) ↦
            let r =
              store_at hw c req (home, way.0) dirty (line_at c (home, way.0)).tag flash
                (record k { tick = way.1 }) in
            let hit : (way.0 == g.way_size) ≡ false = ground arith in
            let x = line_at c (home, way.0) in
            let (is_tag, is_valid, is_dirty) =
              stored-is x dirty x.tag (max way.1 x.inserted_at) flash in
            let s =
              put_found-Stored lca way.0 (stored_line x dirty x.tag (max way.1 x.inserted_at) flash)
                v way_lt home refl found (ground (arith, is_tag, found)) is_valid
                (stored-early x dirty x.tag (max way.1 x.inserted_at) flash
                  (ground (arith, way_time, soon, v.timely (home, way.0) (home_lt, way_lt)))
                  flash_lt) in
            (
              r.0,
              true,
              hw.apply_latency cache_write r.1,
              rw hit refl,
              inl (refl, way.0, way_lt, inl found),
              s.0,
              record { tick = max way.1 x.inserted_at; device = k.device },
              ap
                  (λ p. hw.apply_latency cache_write (
                    hw.dram_write (some p) req.length
                      (record { tick = max way.1 x.inserted_at; device = k.device })))
                  (sym s.1),
            )
        | inl (at_end, absent) ↦
            let miss : (way.0 == g.way_size) ≡ true = ground arith in
            elim (get_empty_way-Least v.shaped home way.1 home_lt) [
              | inr (free_lt, is_free, _) ↦
                  let r =
                    store_at hw c req (home, free.0) dirty lca flash (record k { tick = free.1 }) in
                  let room : (free.0 == g.way_size) ≡ false = ground arith in
                  let x = line_at c (home, free.0) in
                  let (is_tag, is_valid, is_dirty) =
                    stored-is x dirty lca (max free.1 x.inserted_at) flash in
                  let s =
                    put_absent-Stored lca free.0
                      (stored_line x dirty lca (max free.1 x.inserted_at) flash) v v
                      (Weaker-refl v.shaped) absent free_lt is_tag is_valid
                      (stored-early x dirty lca (max free.1 x.inserted_at) flash
                        (ground (
                          arith,
                          way_time,
                          free_time,
                          soon,
                          v.timely (home, free.0) (home_lt, free_lt),
                        ))
                        flash_lt)
                      home refl in
                  (
                    r.0,
                    true,
                    hw.apply_latency cache_write r.1,
                    rw (miss, room) refl,
                    inl (refl, free.0, free_lt, inr is_free),
                    s.0,
                    record { tick = max free.1 x.inserted_at; device = k.device },
                    ap
                        (λ p. hw.apply_latency cache_write (
                          hw.dram_write (some p) req.length
                            (record { tick = max free.1 x.inserted_at; device = k.device })))
                        (sym s.1),
                  )
              | inl (full, _) ↦
                  let no_room : (free.0 == g.way_size) ≡ true = ground arith in
                  let (c', end, e, s, into, is_into) =
                    flush_and_store-Stored (record k { tick = free.1 }) timely stored_lt way.1 full
                      absent in
                  (
                    c',
                    false,
                    hw.apply_latency cache_write end,
                    rw (miss, no_room, e) refl,
                    inr (refl, λ j hj. (absent j hj, full-valid v home way.1 home_lt full j hj)),
                    s,
                    into,
                    ap (hw.apply_latency cache_write) is_into,
                  )
            ]
      ]

  -- In a coherent cache that caches writes, if all the searches end before the greatest uint64_t,
  -- and so do the calls of the FTL and the DRAM in this write, write() does not find its cache
  -- corrupted: it returns, unless a call of the FTL has panicked, and then ends in that panic. It
  -- returns true if a line of the set held the LCA or was invalid, and false if none. It leaves a
  -- coherent cache in which one line holds the LCA, valid, and dirty if the data is short of a line
  -- or the set had no room; the data is written to the DRAM at that line, and every other line is
  -- as it was or invalid.
  pub write-Stored :
      (k : Clock D)
      → c.geometry.conf.use_write_caching ≡ true
      → k.tick + write_time c.geometry < max64
      → WriteTimes hw c req k
      → (c' : Cache) × (ret : Bool) × (end : Clock D) × (write hw c req k
          ≡ unless_stopped (hw.stopped end.device) (c', ret, end))
        × HasRoom c lca ret
        × (after : Stored c c' lca (if ret then ltb req.length c.geometry.line_size else true))
        × (into : Clock D) × (end
            ≡ hw.apply_latency cache_write (hw.dram_write (some after.place) req.length into))
  unfolding write
  write-Stored k cached soon times =
      let dirty = ltb req.length c.geometry.line_size in
      let flash = if dirty then k else hw.ftl_write (ftl_request c.geometry req) k in
      let now : Clock D = record { tick = k.tick; device = flash.device } in
      let flash_lt : flash.tick < max64 = ground (arith, soon, times.through_lt) in
      let (c', ret, end, e, room, s, into, is_into) =
        write_cached-Stored dirty flash.tick now soon flash_lt times.evicted_lt times.stored_lt in
      let st : Stat = record c'.stat {
        writes = c'.stat.writes + 1;
        write_hits = if ret then c'.stat.write_hits + 1 else c'.stat.write_hits;
      } in
      let after = Stored-stat st s in
      (
        record c' { stat = st },
        ret,
        end,
        run_cached c.geometry.conf.use_write_caching _ _ _ cached e,
        room,
        after.0,
        into,
        is_into
            ∙ ap (λ p. hw.apply_latency cache_write (hw.dram_write (some p) req.length into))
                (sym after.1),
      )
