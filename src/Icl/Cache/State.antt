-- ===== src/Icl/Cache/State.antt =====
-- The state of `GenericCache` (icl/generic_cache.hh) and its lines (icl/abstract_cache.hh), the
-- requests (util/def.hh), and what the cache calls: the FTL, the DRAM and the CPU model, as functions
-- on a state of type `D`. Random eviction is not modelled.
use simple_ssd.Base.{
  ◌||◌, ℕ, ◌-◌, ◌*◌, ◌/◌, ◌%◌, ◌^◌, Bool, true, false, not, List, [], Option, none, ◌==◌,
  if◌then◌else◌, get_or, set, replicate, max,
}
use simple_ssd.Base.Result.{Panic}
use simple_ssd.Util.Bitset
use simple_ssd.Ftl.PageMapping.State
use simple_ssd.Ftl.PageMapping.State.{Clock}

pub record LpnRange : Type 0 where
  pub slpn : ℕ
  pub nlp : ℕ

-- ICL::Request
pub record Request : Type 0 where
  pub req_id : ℕ
  pub req_sub_id : ℕ
  pub offset : ℕ
  pub length : ℕ
  pub range : LpnRange

pub record Line : Type 0 where
  pub tag : ℕ
  pub last_accessed : ℕ
  pub inserted_at : ℕ
  pub dirty : Bool
  pub valid : Bool

abbrev pub empty_line : Line
empty_line = record { tag = 0; last_accessed = 0; inserted_at = 0; dirty = false; valid = false }

-- EVICT_POLICY, but for the random one.
pub data Policy : Type 0 where
  fifo : Policy
  least_recently_used : Policy

-- What the constructor reads from the configuration and from the FTL's parameters. The test of two
-- floats, `(float)accessCounter / superPageSize >= prefetchIORatio`, is a function of the counter.
pub record Config : Type 0 where
  pub super_page_size : ℕ
  pub parallel_io : ℕ
  pub io_unit_in_page : ℕ
  pub ways : ℕ
  pub cache_size : ℕ
  pub latency : ℕ
  pub core : ℕ
  pub prefetch_io_count : ℕ
  pub ratio_reached : ℕ → Bool
  pub use_read_caching : Bool
  pub use_write_caching : Bool
  pub use_read_prefetch : Bool
  pub random_tweak : Bool
  pub prefetch_all : Bool
  pub evict_super_page : Bool
  pub policy : Policy

-- The members that the constructor computes and never changes.
pub record Geometry : Type 0 where
  pub conf : Config
  pub line_count_in_super_page : ℕ
  pub line_count_in_max_io : ℕ
  pub line_size : ℕ
  pub set_size : ℕ
  pub way_size : ℕ
  pub super_page : Bool

-- A line by its set and its way: the pointers of `evictData`.
abbrev pub Place : Type 0
Place = ℕ × ℕ

pub record SequentialDetect : Type 0 where
  pub enabled : Bool
  pub last_request : Request
  pub hit_counter : ℕ
  pub access_counter : ℕ

pub record Stat : Type 0 where
  pub reads : ℕ
  pub read_hits : ℕ
  pub writes : ℕ
  pub write_hits : ℕ

pub record Cache : Type 0 where
  pub geometry : Geometry
  pub cache_data : List (List Line)
  pub evict_data : List (List (Option Place))
  pub read_detect : SequentialDetect
  pub prefetch_trigger : ℕ
  pub last_prefetched : ℕ
  pub stat : Stat

-- The functions of CPU::FUNCTION that the cache names in applyLatency().
pub data CacheFunction : Type 0 where
  cache_read : CacheFunction
  cache_write : CacheFunction
  cache_flush : CacheFunction
  cache_trim : CacheFunction
  cache_format : CacheFunction

-- A call of the FTL that panics stops the program: `stopped` is then the panic.
-- A DRAM access names the line, or none for the null pointer, and a size.
pub record Lower (D : Type 0) : Type 0 where
  pub ftl_read : State.Request → Clock D → Clock D
  pub ftl_write : State.Request → Clock D → Clock D
  pub ftl_trim : State.Request → Clock D → Clock D
  pub ftl_format : LpnRange → Clock D → Clock D
  pub dram_read : Option Place → ℕ → Clock D → Clock D
  pub dram_write : Option Place → ℕ → Clock D → Clock D
  pub set_scheduling : Bool → D → D
  pub stopped : D → Option Panic
  pub apply_latency : CacheFunction → Clock D → Clock D

-- std::numeric_limits<uint64_t>::max()
abbrev pub max64 : ℕ
max64 = 2 ^ 64 - 1

-- GenericCache(...): the sizes, with caching of reads or of writes; the counts are `uint32_t`.
-- `super_page` is false where the constructor leaves the member without a value.
abbrev pub geometry : Config → Geometry
geometry f =
    let unit = f.super_page_size / f.io_unit_in_page in
    let line_size = if f.random_tweak then unit else f.super_page_size in
    let lines = if f.random_tweak then f.io_unit_in_page else 1 in
    let capacity = f.cache_size / line_size in
    record {
      conf = f;
      line_count_in_super_page = lines;
      line_count_in_max_io = f.parallel_io * lines % 2 ^ 32;
      line_size = line_size;
      set_size = if f.ways == 0 then 1 else max (capacity / f.ways) 1 % 2 ^ 32;
      way_size = if f.ways == 0 then max capacity 1 % 2 ^ 32 else f.ways;
      super_page = not (unit == f.super_page_size);
    }

abbrev pub no_request : Request
no_request = record {
  req_id = 0;
  req_sub_id = 0;
  offset = 0;
  length = 0;
  range = record { slpn = 0; nlp = 0 };
}

-- GenericCache(...), with caching of reads or of writes.
unfoldable pub build : Config → Cache
build f =
    let g = geometry f in
    record {
      geometry = g;
      cache_data = replicate g.set_size (replicate g.way_size empty_line);
      evict_data = replicate g.line_count_in_super_page (replicate f.parallel_io none);
      read_detect = record {
        enabled = false;
        last_request = record no_request { req_id = 1 };
        hit_counter = 0;
        access_counter = 0;
      };
      prefetch_trigger = max64;
      last_prefetched = 0;
      stat = record { reads = 0; read_hits = 0; writes = 0; write_hits = 0 };
    }

-- GenericCache(...): without caching it returns before it sets `setSize`, makes the lines, or sets
-- the trigger; `unset` is what those members hold then.
unfoldable pub create : ℕ → Config → Cache
create unset f = if f.use_read_caching || f.use_write_caching then build f else record (build f) {
  geometry = record (geometry f) { set_size = unset; way_size = f.ways };
  cache_data = [];
  evict_data = [];
  prefetch_trigger = unset;
}

-- `cacheData[set]`, `cacheData[set][way]`, and a store to the latter
abbrev pub set_of : Cache → ℕ → List Line
set_of c i = get_or c.cache_data i []

abbrev pub line_at : Cache → Place → Line
line_at c (i, way) = get_or (set_of c i) way empty_line

abbrev pub put_line : Cache → Place → Line → Cache
put_line c (i, way) line = record c { cache_data = set c.cache_data i (set (set_of c i) way line) }

-- `evictData[row][col]`, and a store to it
abbrev pub evict_at : Cache → ℕ → ℕ → Option Place
evict_at c row col = get_or (get_or c.evict_data row []) col none

abbrev pub put_evict : Cache → ℕ → ℕ → Option Place → Cache
put_evict c row col p = record c {
  evict_data = set c.evict_data row (set (get_or c.evict_data row []) col p);
}

-- getCacheLatency()
abbrev pub cache_latency : Geometry → ℕ
cache_latency g = if g.conf.core == 0 then 0 else g.conf.latency / g.conf.core

-- calcSetIndex(lca)
unfoldable pub calc_set_index : Geometry → ℕ → ℕ
calc_set_index g lca = lca % g.set_size

-- calcIOPosition(lca, row, col)
unfoldable pub calc_io_position : Geometry → ℕ → ℕ × ℕ
calc_io_position g lca =
    let tmp = lca % g.line_count_in_max_io in
    (tmp % g.line_count_in_super_page, tmp / g.line_count_in_super_page)

-- FTL::Request(iocount), for a logical page and the flag of one unit
abbrev pub unit_request : Geometry → ℕ → ℕ → State.Request
unit_request g lpn unit = record {
  req_id = 0;
  req_sub_id = 0;
  lpn = lpn;
  io_flag = Bitset.set_at (Bitset.reset_all (Bitset.create g.line_count_in_super_page)) unit true;
}

-- FTL::Request(iocount, r)
abbrev pub ftl_request : Geometry → Request → State.Request
ftl_request g r = record {
  req_id = r.req_id;
  req_sub_id = r.req_sub_id;
  lpn = r.range.slpn / g.line_count_in_super_page;
  io_flag =
      Bitset.set_at (Bitset.create g.line_count_in_super_page)
        (r.range.slpn % g.line_count_in_super_page) true;
}
