-- ===== src/Icl/Front.antt =====
-- icl/icl.cc: ICL, which splits the requests of the host interface into lines for the cache.
use simple_ssd.Base.{ℕ, zero, suc, ◌+◌, ◌-◌, ◌*◌, ◌/◌, ◌%◌, ◌^◌, Bool, min, max, if◌then◌else◌}
use simple_ssd.Base.Result.{Result, ok, unless_stopped, ◌>>=◌}
use simple_ssd.Ftl.PageMapping.State
use simple_ssd.Ftl.PageMapping.State.{Clock}
use simple_ssd.Icl.Cache.State.{Cache, Request, LpnRange, Lower}
use simple_ssd.Icl.Cache.Fetch
use simple_ssd.Icl.Cache.Store
use simple_ssd.Icl.Cache.Ranges

pub record Icl : Type 0 where
  pub total_logical_pages : ℕ
  pub logical_page_size : ℕ
  pub cache : Cache

-- ICL(conf): the sizes.
abbrev pub total_logical_pages : State.Parameter → Bool → ℕ
total_logical_pages p tweak =
    if tweak
    then p.total_logical_blocks * p.pages_in_block * p.io_unit_in_page
    else p.total_logical_blocks * p.pages_in_block

abbrev pub logical_page_size : State.Parameter → Bool → ℕ
logical_page_size p tweak = if tweak then p.page_size / p.io_unit_in_page else p.page_size

unfoldable pub create : State.Parameter → Bool → Cache → Icl
create p tweak cache = record {
  total_logical_pages = total_logical_pages p tweak;
  logical_page_size = logical_page_size p tweak;
  cache = cache;
}

-- The functions that the layer names in applyLatency().
pub data IclFunction : Type 0 where
  icl_read : IclFunction
  icl_write : IclFunction
  icl_flush : IclFunction
  icl_trim : IclFunction
  icl_format : IclFunction

-- `reqInternal` in round `i`, with `remain` bytes to go; the offset is that of the first round or 0.
unfoldable pub sub_request : ℕ → Request → ℕ → ℕ → ℕ → Request
sub_request size req i offset remain = record {
  req_id = req.req_id;
  req_sub_id = i + 1;
  offset = offset;
  length = min remain ((size + 2 ^ 64 - offset) % 2 ^ 64);
  range = record { slpn = req.range.slpn + i; nlp = 0 };
}

-- The loop of read() and of write() from round `i`, with `n` rounds to go. Each access begins at
-- `tick`; the clock of the result has `finishedAt`.
module _ {C D : Type 0} (access : C → Request → Clock D → Result (C × Clock D)) where
  unfoldable pub each_line : ℕ → ℕ → Request → ℕ → ℕ → ℕ → ℕ → C → Clock D → Result (C × Clock D)
  each_line zero size req i offset remain tick c k = ok (c, k)
  each_line (suc n) size req i offset remain tick c k = do
    let r = sub_request size req i offset remain
    (c', end) ← access c r (record { tick = tick; device = k.device })
    each_line n size req (i + 1) 0 (remain - r.length) tick c'
        (record { tick = max k.tick end.tick; device = end.device })

module _ {D : Type 0} (hw : Lower D) (latency : IclFunction → Clock D → Clock D) where
  abbrev pub read_line : Cache → Request → Clock D → Result (Cache × Clock D)
  read_line c r k =
      let done = Fetch.read hw c r k in unless_stopped (hw.stopped done.2.device) (done.0, done.2)

  abbrev pub write_line : Cache → Request → Clock D → Result (Cache × Clock D)
  write_line c r k = do done ← Store.write hw c r k; ok (done.0, done.2)

  -- read(req, tick)
  unfoldable pub read : Icl → Request → Clock D → Result (Icl × Clock D)
  read s req k = do
    r ←
        each_line read_line req.range.nlp s.logical_page_size req 0 req.offset req.length k.tick
          s.cache k
    ok (record s { cache = r.0 }, latency icl_read r.1)

  -- write(req, tick)
  unfoldable pub write : Icl → Request → Clock D → Result (Icl × Clock D)
  write s req k = do
    r ←
        each_line write_line req.range.nlp s.logical_page_size req 0 req.offset req.length k.tick
          s.cache k
    ok (record s { cache = r.0 }, latency icl_write r.1)

  -- flush(range, tick), trim(range, tick) and format(range, tick)
  unfoldable pub flush : Icl → LpnRange → Clock D → Result (Icl × Clock D)
  flush s r k =
      let done = Ranges.flush hw s.cache r k in
      unless_stopped (hw.stopped done.1.device)
        (record s { cache = done.0 }, latency icl_flush done.1)

  unfoldable pub trim : Icl → LpnRange → Clock D → Result (Icl × Clock D)
  trim s r k =
      let done = Ranges.trim hw s.cache r k in
      unless_stopped (hw.stopped done.1.device)
        (record s { cache = done.0 }, latency icl_trim done.1)

  unfoldable pub format : Icl → LpnRange → Clock D → Result (Icl × LpnRange × Clock D)
  format s r k =
      let done = Ranges.format hw s.cache r k in
      unless_stopped (hw.stopped done.2.device)
        (record s { cache = done.0 }, done.1, latency icl_format done.2)

-- getUsedPageCount(lcaBegin, lcaEnd), with that of the FTL
unfoldable pub get_used_page_count : (ℕ → ℕ → ℕ) → ℕ → ℕ → ℕ → ℕ
get_used_page_count used ratio from to = used (from / ratio) (to / ratio) * ratio
