-- ===== src/Icl/Cache/Tests.antt =====
-- The cache on concrete inputs, and the theorems of icl/generic_cache.cc applied to them.
use simple_ssd.Base.{
  ℕ, zero, suc, ◌+◌, ◌<◌, ◌≡◌, ◌≢◌, ◌⊎◌, refl, Bool, true, false, List, [], ◌∷◌, Option, none, some,
  arith, get_or, ◌%◌, ◌*◌, if◌then◌else◌,
}
use simple_ssd.Base.Result.{ok}
use simple_ssd.Ftl.PageMapping.State
use simple_ssd.Ftl.PageMapping.State.{Clock}
use simple_ssd.Icl.Cache.State.{
  Line, Place, Cache, Config, Request, Lower, least_recently_used, create, build, line_at, put_line,
  calc_set_index, calc_io_position, cache_read, cache_write, geometry,
}
use simple_ssd.Icl.Cache.Lines.{InCache}
use simple_ssd.Icl.Cache.Search.{get_valid_way-Found, holds}
use simple_ssd.Icl.Cache.Ways.{
  get_valid_way, evict_way, get_empty_way, valid_way, least_way, compare_lines,
}
use simple_ssd.Icl.Cache.Coherent.{IsCoherent, put_line-IsCoherent}
use simple_ssd.Icl.Cache.Created.{build-IsCoherent, create-IsCoherent}
use simple_ssd.Icl.Cache.Position.{calc_io_position-InGrid}
use simple_ssd.Icl.Cache.Placed.{Stored, IsAbsent}
use simple_ssd.Icl.Cache.Writes.{write-Stored}
use simple_ssd.Icl.Cache.Times.{HasRoom, WriteTimes, evicting, storing}
use simple_ssd.Icl.Cache.Store.{
  write, choose_victims, offer_sets, offer_ways, offer, in_rows, in_row,
}
use simple_ssd.Icl.Cache.Evict.{evict_cache, evict_rows, evict_row, evict_one, write_back}
use simple_ssd.Icl.Cache.Ranges.{in_range, flush, trim}
use simple_ssd.Icl.Cache.Cleared.{Swept}
use simple_ssd.Icl.Cache.Flushes.{Names, flush-Swept, trim-Swept}
use simple_ssd.Icl.Cache.Fetch.{fetch, read}
use simple_ssd.Icl.Cache.Misses.{fetch-loses, page_request}
use simple_ssd.Icl.Cache.Hits.{write-read}

-- Two sets of one line of 8 bytes; two units in a page, and two pages in parallel.
abbrev pub conf : Config
conf = record {
  super_page_size = 16;
  parallel_io = 2;
  io_unit_in_page = 2;
  ways = 1;
  cache_size = 16;
  latency = 0;
  core = 1;
  prefetch_io_count = 1;
  ratio_reached = λ n. true;
  use_read_caching = true;
  use_write_caching = true;
  use_read_prefetch = false;
  random_tweak = true;
  prefetch_all = false;
  evict_super_page = false;
  policy = least_recently_used;
}

-- The device lists what it was asked: a write or a trim leaves its request.
abbrev pub Log : Type 0
Log = List (Option State.Request)

-- Every call ends later than it begins.
abbrev pub lower : Lower Log
lower = record {
  ftl_read = λ q k. record { tick = k.tick + 40; device = k.device };
  ftl_write = λ q k. record { tick = k.tick + 300; device = some q ∷ k.device };
  ftl_trim = λ q k. record { tick = k.tick + 20; device = some q ∷ k.device };
  ftl_format = λ r k. record { tick = k.tick + 100; device = k.device };
  dram_read = λ p n k. record k { tick = k.tick + 2 };
  dram_write = λ p n k. record k { tick = k.tick + 3 };
  set_scheduling = λ b d. d;
  stopped = λ d. none;
  apply_latency = λ f k. record k { tick = k.tick + 1 };
}

abbrev pub start : Clock Log
start = record { tick = 1; device = [] }

abbrev pub partial_write : Request
partial_write = record {
  req_id = 1;
  req_sub_id = 1;
  offset = 0;
  length = 4;
  range = record { slpn = 0; nlp = 1 };
}

-- One dirty line.
abbrev dirty_line : Line
dirty_line = record { tag = 0; last_accessed = 1; inserted_at = 1; dirty = true; valid = true }

abbrev pub one_dirty : Cache
one_dirty = put_line (build conf) (0, 0) dirty_line

pub one_dirty-IsCoherent : IsCoherent one_dirty
unfolding build calc_set_index
one_dirty-IsCoherent =
    put_line-IsCoherent
      (build-IsCoherent conf (omega arith) (omega arith) (omega arith) (omega arith) (omega arith))
      (0, 0) dirty_line (omega arith, omega arith) refl (λ q h e t. ground (arith, h)) (omega arith)

abbrev other_write : Request
other_write = record partial_write { range = record { slpn = 2; nlp = 1 } }

-- A request of the log that names the LCA.
abbrev Logged : ℕ → Log → Type 0
Logged lca d =
    (i : ℕ) × (q : State.Request) × (get_or d i none ≡ some q) × Names (geometry conf) q lca

log_keeps : (q : Option State.Request) (lca : ℕ) (d : Log) → Logged lca d → Logged lca (q ∷ d)
log_keeps q lca d (i, r, at, n) = (suc i, r, at, n)

calc_io_position-InGrid_example :
    ((calc_io_position (geometry conf) 7).0 < 2)
    × ((calc_io_position (geometry conf) 7).1 < 2)
    × (7 % 4 ≡ (calc_io_position (geometry conf) 7).1 * 2 + (calc_io_position (geometry conf) 7).0)
calc_io_position-InGrid_example =
    calc_io_position-InGrid (geometry conf) 2 7 (omega arith) (omega arith) refl

get_valid_way-Found_example :
    (((get_valid_way one_dirty 0 1).0 ≡ 1)
      × ((j : ℕ)
          → j < 1
          → holds 0 (line_at one_dirty (calc_set_index one_dirty.geometry 0, j)) ≡ false))
    ⊎ (((get_valid_way one_dirty 0 1).0 < 1)
        × (holds 0 (
              line_at one_dirty
                (calc_set_index one_dirty.geometry 0, (get_valid_way one_dirty 0 1).0))
            ≡ true))
unfolding build
get_valid_way-Found_example = get_valid_way-Found one_dirty-IsCoherent.shaped 0 1

create-IsCoherent_example : IsCoherent (create 0 conf)
create-IsCoherent_example =
    create-IsCoherent conf (omega arith) (omega arith) (omega arith) (omega arith) (omega arith)
      refl 0

-- The set of LCA 2 is full: the dirty line of LCA 0 is written to the FTL, which ends at tick 301.
evicted_times :
    (p : Place)
    → InCache one_dirty p
    → (line_at (evicting lower one_dirty 0 start).0 p).inserted_at < 302
unfolding build calc_set_index choose_victims offer_sets offer_ways offer calc_io_position in_rows
    in_row evict_cache evict_rows evict_row evict_one write_back compare_lines
evicted_times (zero, zero) h = omega arith
evicted_times (suc zero, zero) h = omega arith
evicted_times (suc (suc i), zero) h = absurd (omega arith)
evicted_times (i, suc j) h = absurd (omega arith)

stored_time : (storing lower one_dirty other_write 0 start).tick < 5
unfolding build calc_set_index choose_victims offer_sets offer_ways offer calc_io_position in_rows
    in_row evict_cache evict_rows evict_row evict_one write_back compare_lines get_empty_way
    least_way
stored_time = omega arith

other_write_times : WriteTimes lower one_dirty other_write start
unfolding build calc_set_index get_valid_way valid_way get_empty_way least_way
other_write_times = record {
  through_lt = omega arith;
  evicted_lt = λ p h. omega (arith, evicted_times p h);
  stored_lt = omega (arith, stored_time);
}

write-Stored_example :
    (c : Cache) × (ret : Bool) × (end : Clock Log) × (write lower one_dirty other_write start
      ≡ ok (c, ret, end))
    × HasRoom one_dirty 2 ret
    × (after : Stored one_dirty c 2 (if ret then true else true)) × (into : Clock Log) × (end
        ≡ lower.apply_latency cache_write
            (lower.dram_write (some after.place) other_write.length into))
unfolding build
write-Stored_example =
    write-Stored lower one_dirty-IsCoherent other_write start refl (omega arith) other_write_times

-- The write that evicts, read back by a request for the whole line.
abbrev read_back : Request
read_back = record other_write { length = 8 }

write-read_example :
    (c : Cache) × (ret : Bool) × (end : Clock Log) × (write lower one_dirty other_write start
      ≡ ok (c, ret, end))
    × (place : Place) × (into : Clock Log) × (end
        ≡ lower.apply_latency cache_write (lower.dram_write (some place) other_write.length into))
    × ((read lower c read_back (record start { tick = 900 })).1 ≡ true)
    × (t : ℕ) × ((read lower c read_back (record start { tick = 900 })).2
        ≡ lower.apply_latency cache_read
            (lower.dram_read (some place) 8 (record start { tick = t })))
unfolding build
write-read_example =
    write-read lower one_dirty-IsCoherent other_write start refl (omega arith) other_write_times
      refl refl read_back refl (record start { tick = 900 })

flush-Swept_example :
    Swept one_dirty
      (record { slpn = 0; nlp = 1 })
      (flush lower one_dirty (record { slpn = 0; nlp = 1 }) start).0
    × ((p : Place)
        → InCache one_dirty p
        → in_range (record { slpn = 0; nlp = 1 }) (line_at one_dirty p).tag ≡ true
        → (line_at one_dirty p).dirty ≡ true
        → Logged
            (line_at one_dirty p).tag
            (flush lower one_dirty (record { slpn = 0; nlp = 1 }) start).1.device)
unfolding build
flush-Swept_example =
    flush-Swept lower Logged one_dirty-IsCoherent (omega arith) refl (λ f k lca l. l)
      (λ q k lca n. (0, q, refl, n)) (λ q k lca l. log_keeps (some q) lca k.device l)
      (record { slpn = 0; nlp = 1 }) start

trim-Swept_example :
    Swept one_dirty
      (record { slpn = 0; nlp = 1 })
      (trim lower one_dirty (record { slpn = 0; nlp = 1 }) start).0
    × ((p : Place)
        → InCache one_dirty p
        → in_range (record { slpn = 0; nlp = 1 }) (line_at one_dirty p).tag ≡ true
        → Logged
            (line_at one_dirty p).tag
            (trim lower one_dirty (record { slpn = 0; nlp = 1 }) start).1.device)
unfolding build
trim-Swept_example =
    trim-Swept lower Logged one_dirty-IsCoherent (omega arith) refl (λ f k lca l. l)
      (λ q k lca n. (0, q, refl, n)) (λ q k lca l. log_keeps (some q) lca k.device l)
      (record { slpn = 0; nlp = 1 }) start

-- A read of LCA 2 takes the dirty line of LCA 0.
two_IsAbsent : IsAbsent one_dirty 2
unfolding build calc_set_index
two_IsAbsent zero h = refl
two_IsAbsent (suc j) h = absurd (omega arith)

abbrev read_two : Clock Log → Cache × Clock Log
read_two k = fetch lower one_dirty other_write none k

two_full :
    (get_empty_way one_dirty
      (calc_set_index one_dirty.geometry 2)
      (get_valid_way one_dirty 2 1).1).0
    ≡ 1
unfolding build calc_set_index get_valid_way valid_way get_empty_way least_way
two_full = refl

abbrev two_victim : ℕ × ℕ
two_victim =
    evict_way one_dirty (calc_set_index one_dirty.geometry 2)
      (get_empty_way one_dirty (calc_set_index one_dirty.geometry 2)
        (get_valid_way one_dirty 2 1).1).1

two_dirty : (line_at one_dirty (calc_set_index one_dirty.geometry 2, two_victim.0)).dirty ≡ true
unfolding build calc_set_index get_valid_way valid_way get_empty_way least_way evict_way
two_dirty = refl

fetch-loses_example :
    ((t : ℕ) × ((read_two start).1.device
        ≡ (lower.dram_write (some (0, 0)) 8 (record {
          tick = t;
          device =
              (lower.ftl_read
                (page_request (geometry conf) other_write 2)
                (record { tick = 1; device = [] })).device;
        })).device))
    × ((q : Place)
        → InCache one_dirty q
        → (line_at (read_two start).0 q).valid ≡ true
        → (line_at (read_two start).0 q).tag ≢ 0)
unfolding build calc_set_index get_valid_way valid_way get_empty_way least_way evict_way
fetch-loses_example =
    fetch-loses one_dirty-IsCoherent 2 1 two_IsAbsent two_full two_dirty lower other_write refl refl
      []
