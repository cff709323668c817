-- ===== src/Icl/Cache/Ranges.antt =====
-- icl/generic_cache.cc: flush(), trim() and format(). One request to the FTL is used for a whole
-- loop, and the flags of its units are set and never cleared, as in the source.
use simple_ssd.Base.{
  ℕ, zero, suc, ◌+◌, ◌-◌, ◌*◌, ◌/◌, ◌%◌, Bool, true, false, ◌&&◌, ◌||◌, ltb, leb, ◌==◌,
  if◌then◌else◌, max,
}
use simple_ssd.Util.Bitset
use simple_ssd.Ftl.PageMapping.State
use simple_ssd.Ftl.PageMapping.State.{Clock}
use simple_ssd.Icl.Cache.State.{
  Line, Place, Cache, Geometry, LpnRange, Lower, line_at, put_line, calc_set_index, cache_latency,
  cache_flush, cache_trim, cache_format,
}
use simple_ssd.Icl.Cache.Ways.{get_valid_way}

-- `tag >= range.slpn && tag < range.slpn + range.nlp`
abbrev pub in_range : LpnRange → ℕ → Bool
in_range r tag = leb r.slpn tag && ltb tag (r.slpn + r.nlp)

-- FTL::Request(iocount)
abbrev pub empty_request : Geometry → State.Request
empty_request g = record {
  req_id = 0;
  req_sub_id = 0;
  lpn = 0;
  io_flag = Bitset.create g.line_count_in_super_page;
}

-- `reqInternal.lpn = ...; reqInternal.ioFlag.set(...)`
abbrev pub name_unit : Geometry → State.Request → ℕ → State.Request
name_unit g r tag = record r {
  lpn = tag / g.line_count_in_super_page;
  io_flag = Bitset.set_at r.io_flag (tag % g.line_count_in_super_page) true;
}

abbrev pub invalid_line : Line → Line
invalid_line x = record x { valid = false }

-- What the loops keep: the cache, the request, `tick`, `finishedAt` and the device.
pub record Sweep (D : Type 0) : Type 0 where
  pub cache : Cache
  pub request : State.Request
  pub tick : ℕ
  pub finished_at : ℕ
  pub device : D

abbrev pub start_sweep : {D : Type 0} → Cache → Clock D → Sweep D
start_sweep c k = record {
  cache = c;
  request = empty_request c.geometry;
  tick = k.tick;
  finished_at = k.tick;
  device = k.device;
}

abbrev pub end_sweep : {D : Type 0} → Sweep D → Clock D
end_sweep w = record { tick = max w.tick w.finished_at; device = w.device }

abbrev pub has_cache : Cache → Bool
has_cache c = c.geometry.conf.use_read_caching || c.geometry.conf.use_write_caching

-- The loops over sets and ways, with the round as a parameter.
module _ {D : Type 0} (round : Sweep D → Place → Sweep D) where
  unfoldable pub sweep_ways : ℕ → Sweep D → ℕ → ℕ → Sweep D
  sweep_ways zero w i way = w
  sweep_ways (suc n) w i way = sweep_ways n (round w (i, way)) i (way + 1)

  unfoldable pub sweep_sets : ℕ → Sweep D → ℕ → Sweep D
  sweep_sets zero w i = w
  sweep_sets (suc n) w i = sweep_sets n (sweep_ways w.cache.geometry.way_size w i 0) (i + 1)

module _ {D : Type 0} (hw : Lower D) where
  -- One round of flush(): a dirty line of the range is written, and every line of it is invalidated.
  unfoldable pub flush_line : LpnRange → Sweep D → Place → Sweep D
  flush_line r w p =
      let g = w.cache.geometry in
      let x = line_at w.cache p in
      let named = name_unit g w.request x.tag in
      let tick = w.tick + cache_latency g * 8 in
      let end = hw.ftl_write named (record { tick = tick; device = w.device }) in
      let later = record w { tick = tick } in
      if in_range r x.tag
      then (if x.dirty
          then record {
            cache = put_line w.cache p (invalid_line x);
            request = named;
            tick = tick;
            finished_at = max w.finished_at end.tick;
            device = end.device;
          }
          else record later { cache = put_line w.cache p (invalid_line x) })
      else later

  -- One round of trim(): the logical page of every line of the range is trimmed.
  unfoldable pub trim_line : LpnRange → Sweep D → Place → Sweep D
  trim_line r w p =
      let g = w.cache.geometry in
      let x = line_at w.cache p in
      let named = name_unit g w.request x.tag in
      let tick = w.tick + cache_latency g * 8 in
      let end = hw.ftl_trim named (record { tick = tick; device = w.device }) in
      if in_range r x.tag
      then record {
        cache = put_line w.cache p (invalid_line x);
        request = named;
        tick = tick;
        finished_at = max w.finished_at end.tick;
        device = end.device;
      }
      else record w { tick = tick }

  -- flush(range, tick)
  unfoldable pub flush : Cache → LpnRange → Clock D → Cache × Clock D
  flush c r k =
      let w = sweep_sets (flush_line r) c.geometry.set_size (start_sweep c k) 0 in
      if has_cache c then (w.cache, hw.apply_latency cache_flush (end_sweep w)) else (c, k)

  -- trim(range, tick)
  unfoldable pub trim : Cache → LpnRange → Clock D → Cache × Clock D
  trim c r k =
      let w = sweep_sets (trim_line r) c.geometry.set_size (start_sweep c k) 0 in
      if has_cache c then (w.cache, hw.apply_latency cache_trim (end_sweep w)) else (c, k)

-- The loop of format(), from `lpn` with `n` pages to go: the cache and the tick.
unfoldable pub drop_lines : ℕ → Cache → ℕ → ℕ → Cache × ℕ
drop_lines zero c lpn tick = (c, tick)
drop_lines (suc n) c lpn tick =
    let (way, at) = get_valid_way c lpn tick in
    let p : Place = (calc_set_index c.geometry lpn, way) in
    drop_lines n
      (if way == c.geometry.way_size then c else put_line c p (invalid_line (line_at c p)))
      (lpn + 1) at

module _ {D : Type 0} (hw : Lower D) where
  -- format(range, tick); `range` is converted in place, and its `nlp` is positive.
  unfoldable pub format : Cache → LpnRange → Clock D → Cache × LpnRange × Clock D
  format c r k =
      let lines = c.geometry.line_count_in_super_page in
      let (dropped, tick) = drop_lines r.nlp c r.slpn k.tick in
      let r' : LpnRange = record { slpn = r.slpn / lines; nlp = (r.nlp - 1) / lines + 1 } in
      let (after, begin) = if has_cache c then (dropped, record k { tick = tick }) else (c, k) in
      (after, r', hw.apply_latency cache_format (hw.ftl_format r' begin))
