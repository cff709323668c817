-- ===== src/Icl/Cache/Times.antt =====
-- icl/generic_cache.cc: the times of a write, those of the searches and those that the FTL and the
-- DRAM return.
use native.Mathlib.Nat.{suc-mul}
use simple_ssd.Base.{
  ℕ, ◌+◌, ◌*◌, ◌≤◌, ◌<◌, ◌≡◌, inl, inr, Bool, true, false, ◌&&◌, List, [], ◌∷◌, ◌⊎◌, some, arith,
  ltb, ◌==◌, if◌then◌else◌, length, Bool-cases,
}
use simple_ssd.Ftl.PageMapping.State.{Clock}
use simple_ssd.Icl.Cache.State.{
  Line, Place, Cache, Geometry, Request, Lower, line_at, max64, calc_set_index, cache_latency,
  ftl_request,
}
use simple_ssd.Icl.Cache.Lines.{InCache}
use simple_ssd.Icl.Cache.Search.{holds}
use simple_ssd.Icl.Cache.Ways.{valid_way, least_way, get_empty_way, get_valid_way}
use simple_ssd.Icl.Cache.Store.{choose_victims}
use simple_ssd.Icl.Cache.Evict.{evict_cache}

-- The searches take no more than a step for every way.
pub valid_way_time :
    (cost lca : ℕ) (xs : List Line) (i tick : ℕ)
    → (valid_way cost lca xs i tick).1 ≤ tick + length xs * cost
unfolding valid_way
valid_way_time cost lca [] i tick = omega arith
valid_way_time cost lca (x ∷ xs) i tick =
    let rest = valid_way_time cost lca xs (i + 1) (tick + cost) in
    elim (Bool-cases (x.valid && x.tag == lca)) [
      | inl e ↦ rw e (omega (arith, suc-mul (length xs) cost))
      | inr e ↦ rw e (omega (arith, rest, suc-mul (length xs) cost))
    ]

pub least_way_time :
    (seen : Line → Bool) (key : Line → ℕ) (cost : ℕ) (xs : List Line) (i least found tick : ℕ)
    → (least_way seen key cost xs i least found tick).1 ≤ tick + length xs * cost
unfolding least_way
least_way_time seen key cost [] i least found tick = omega arith
least_way_time seen key cost (x ∷ xs) i least found tick =
    let better = seen x && ltb (key x) least in
    let next = if seen x then tick + cost else tick in
    let rest =
      least_way_time seen key cost xs (i + 1) (if better then key x else least)
        (if better then i else found) next in
    let bound : next ≤ tick + cost = ground arith in
    omega (arith, rest, bound, suc-mul (length xs) cost)

-- The time of one search of a set, and what write() spends at most before it uses the DRAM.
abbrev pub search_time : Geometry → ℕ
search_time g = g.way_size * (cache_latency g * 8)

abbrev pub write_time : Geometry → ℕ
write_time g = search_time g + search_time g + cache_latency g * g.set_size * g.way_size * 8

-- Had the set of the LCA room for it: a line that holds the LCA, or an invalid one?
abbrev pub HasRoom : Cache → ℕ → Bool → Type 0
HasRoom c lca ret =
    let at = λ (j : ℕ). line_at c (calc_set_index c.geometry lca, j) in
    ((ret ≡ true)
      × (j : ℕ) × (j < c.geometry.way_size)
      × ((holds lca (at j) ≡ true) ⊎ ((at j).valid ≡ false)))
    ⊎ ((ret ≡ false)
        × ((j : ℕ) → j < c.geometry.way_size → (holds lca (at j) ≡ false) × ((at j).valid ≡ true)))

-- The clock after both searches of the set of the LCA.
abbrev pub searched_at : {D : Type 0} → Cache → ℕ → Clock D → Clock D
searched_at c lca k = record k {
  tick = (get_empty_way c (calc_set_index c.geometry lca) (get_valid_way c lca k.tick).1).1;
}

-- The tick at which a full set is evicted, what evictCache() then leaves, and the clock that the DRAM
-- returns for the data of the request.
abbrev pub evicting_tick : {D : Type 0} → Cache → Clock D → ℕ
evicting_tick c k =
    k.tick + cache_latency c.geometry * c.geometry.set_size * c.geometry.way_size * 8

abbrev pub evicting : {D : Type 0} → Lower D → Cache → ℕ → Clock D → Cache × D
evicting hw c i k = evict_cache hw (choose_victims c i) (evicting_tick c k) true k.device

abbrev pub storing : {D : Type 0} → Lower D → Cache → Request → ℕ → Clock D → Clock D
storing hw c req i k =
    let e = evicting hw c i k in
    let way = get_empty_way e.0 i (evicting_tick c k) in
    hw.dram_write (some (i, way.0)) req.length (record { tick = way.1; device = e.1 })

-- The device after the data of a whole line has gone to the FTL.
abbrev pub written_through : {D : Type 0} → Lower D → Cache → Request → Clock D → Clock D
written_through hw c req k =
    let flash =
      if ltb req.length c.geometry.line_size
      then k
      else hw.ftl_write (ftl_request c.geometry req) k in
    record { tick = k.tick; device = flash.device }

-- The times that the FTL and the DRAM return to write() are below the greatest uint64_t: of the
-- data that is written through, of the lines that are evicted, and of the data in the DRAM.
pub record WriteTimes {D : Type 0} (hw : Lower D) (c : Cache) (req : Request) (k : Clock D)
    : Type 0 where
  pub through_lt : (hw.ftl_write (ftl_request c.geometry req) k).tick < max64
  pub evicted_lt :
      (p : Place)
      → InCache c p
      → (line_at
          (evicting hw c
            (calc_set_index c.geometry req.range.slpn)
            (searched_at c req.range.slpn (written_through hw c req k))).0
          p).inserted_at
        < max64
  pub stored_lt :
      (storing hw c req
        (calc_set_index c.geometry req.range.slpn)
        (searched_at c req.range.slpn (written_through hw c req k))).tick
      < max64
