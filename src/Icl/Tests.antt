-- ===== src/Icl/Tests.antt =====
-- The split of requests on concrete inputs, and the theorems of icl/icl.cc applied to them.
use simple_ssd.Base.{zero, suc, ◌<◌, ℕ, ◌≡◌, refl, List, [], ◌∷◌, ◌++◌, arith}
use simple_ssd.Base.Result.{Result, ok, panic}
use simple_ssd.Ftl.PageMapping.State.{Clock}
use simple_ssd.Icl.Cache.State.{Request}
use simple_ssd.Icl.Cache.Tests.{Log, start}
use simple_ssd.Icl.Front.{Icl, IclFunction, each_line, sub_request, write}
use simple_ssd.Icl.Keeps.{LineTimes, StopsOr, write-IsCoherent}
use simple_ssd.Icl.Cache.Coherent.{IsCoherent}
use simple_ssd.Icl.Cache.State.{Place, max64, build, calc_set_index, calc_io_position}
use simple_ssd.Icl.Cache.Tests.{lower, one_dirty, one_dirty-IsCoherent}
use simple_ssd.Icl.Cache.Store
use simple_ssd.Icl.Cache.Store.{
  victim_of, write_cached, flush_and_store, store_at, stored_line, choose_victims, offer_sets,
  offer_ways, offer, in_rows, in_row,
}
use simple_ssd.Icl.Cache.Evict.{evict_cache, evict_rows, evict_row, evict_one, write_back}
use simple_ssd.Icl.Cache.Ways.{compare_lines, get_valid_way, valid_way, get_empty_way, least_way}
use simple_ssd.Icl.Split.{each_part, each_line-Parts}

-- 12 bytes from byte 5 of line 3, with lines of 8 bytes: bytes 5 to 7, 0 to 7 and 0.
abbrev request : Request
request = record {
  req_id = 1;
  req_sub_id = 1;
  offset = 5;
  length = 12;
  range = record { slpn = 3; nlp = 3 };
}

-- An access that lists the offset, the length and the line.
abbrev note : List (ℕ × ℕ × ℕ) → Request → Clock Log → Result (List (ℕ × ℕ × ℕ) × Clock Log)
note c r k = ok (c ++ (r.offset, r.length, r.range.slpn) ∷ [], k)

abbrev noted : Result (List (ℕ × ℕ × ℕ) × Clock Log) → List (ℕ × ℕ × ℕ)
noted (panic e) = []
noted (ok r) = r.0

each_line_test :
    noted (each_line note 3 8 request 0 5 12 1 [] start) ≡ (5, 3, 3) ∷ (0, 8, 4) ∷ (0, 1, 5) ∷ []
unfolding each_line sub_request
each_line_test = refl

each_line-Parts_example :
    each_line note 3 8 request 0 5 12 1 [] start ≡ each_part note 3 8 request 29 41 0 1 [] start
each_line-Parts_example = each_line-Parts note 8 request 1 [] start (omega arith) (omega arith)

abbrev front : Icl
front = record { total_logical_pages = 8; logical_page_size = 8; cache = one_dirty }

abbrev no_latency : IclFunction → Clock Log → Clock Log
no_latency f k = k

at_places : (P : Place → Type 0) → P (0, 0) → P (1, 0) → (p : Place) → (p.0 < 2) × (p.1 < 1) → P p
at_places P first second (zero, zero) h = first
at_places P first second (suc zero, zero) h = second
at_places P first second (suc (suc i), zero) h = absurd (omega arith)
at_places P first second (i, suc j) h = absurd (omega arith)

four_lt : 4 < max64
four_lt = omega arith

-- Line 3 finds an empty way, line 4 evicts the dirty line of LCA 0, and line 5 evicts line 3.
line_times : LineTimes lower 3 8 request 0 5 12 1 one_dirty start
unfolding LineTimes build sub_request victim_of calc_set_index Store.write write_cached
    flush_and_store store_at stored_line choose_victims offer_sets offer_ways offer calc_io_position
    in_rows in_row evict_cache evict_rows evict_row evict_one write_back compare_lines get_valid_way
    valid_way get_empty_way least_way
line_times = (
  record {
    through_lt = omega arith;
    evicted_lt = at_places _ (omega arith) (omega arith);
    stored_lt = four_lt;
  },
  (
    record {
      through_lt = omega arith;
      evicted_lt = at_places _ (omega arith) (omega arith);
      stored_lt = four_lt;
    },
    (
      record {
        through_lt = omega arith;
        evicted_lt = at_places _ (omega arith) (omega arith);
        stored_lt = four_lt;
      },
      tt,
    ),
  ),
)

write-IsCoherent_example :
    StopsOr lower
      (λ done.
        IsCoherent done.0.cache
        × (done.0.cache.geometry ≡ one_dirty.geometry)
        × (done.0.logical_page_size ≡ 8))
      (write lower no_latency front request start)
unfolding build
write-IsCoherent_example =
    write-IsCoherent lower no_latency front request start one_dirty-IsCoherent refl (omega arith)
      line_times
