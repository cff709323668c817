-- ===== src/Icl/Cache/Misses.antt =====
-- icl/generic_cache.cc: a read that misses in a full set, when the victim is dirty.
use simple_ssd.Base.{
  ℕ, zero, suc, ◌+◌, ◌-◌, ◌/◌, ◌%◌, ◌<◌, ◌≡◌, ◌≢◌, ap, inl, inr, refl, Bool, true, false, ◌&&◌,
  List, [], ◌∷◌, none, some, arith, ltb, leb, ◌==◌, if◌then◌else◌, Bool-cases, max, ◌++◌,
}
use simple_ssd.Ftl.PageMapping.State
use simple_ssd.Ftl.PageMapping.State.{Clock}
use simple_ssd.Icl.Cache.State.{
  Line, Place, Cache, Geometry, Request, Lower, line_at, put_line, evict_at, put_evict,
  calc_set_index, calc_io_position, unit_request,
}
use simple_ssd.Icl.Cache.Lines.{
  IsShaped, InCache, same_place, same_place-eq, line_at-put_line, put_line-IsShaped,
  evict_data-IsShaped,
}
use simple_ssd.Icl.Cache.Search.{set_index-lt, get_valid_way-Found, evict_way-lt}
use simple_ssd.Icl.Cache.Ways.{get_empty_way, get_valid_way, evict_way}
use simple_ssd.Icl.Cache.Coherent.{IsGrid, IsCoherent, PointsIn}
use simple_ssd.Icl.Cache.Evict.{evict_cache}
use simple_ssd.Icl.Cache.Evictions.{
  Evicts, evict_at-put_evict, put_evict-IsGrid, evict_cache-Evicts,
}
use simple_ssd.Icl.Cache.Position.{calc_io_position-InGrid}
use simple_ssd.Icl.Cache.Placed.{IsAbsent, full-valid}
use simple_ssd.Icl.Cache.Fetch.{
  Fetching, read_ahead, take_way, reserve, reserve_all, load_line, load_lines, fetch,
}
use simple_ssd.Icl.Cache.Clean.{IsClean, evict_cache-IsClean}

if_false {ℓ} : {A : Type ℓ} (b : Bool) (x y : A) → b ≡ false → (if b then x else y) ≡ y
if_false true x y e = cc
if_false false x y e = refl

read_ahead-single :
    (c : Cache) (first : ℕ) → c.read_detect.enabled ≡ false → read_ahead c first ≡ (c, first + 1)
unfolding read_ahead
read_ahead-single c first e = if_false c.read_detect.enabled _ _ e

reserve_all-single :
    (f : Fetching) (lca tick : ℕ) → reserve_all (lca + 1 - lca) f lca tick ≡ reserve f lca tick
unfolding reserve_all reserve
reserve_all-single f lca tick = let one : lca + 1 - lca ≡ suc zero = omega arith in rw one refl

-- The second loop stores the tag and the times, and nothing else.
load_line-put_line :
    {D : Type 0} (hw : Lower D) (req : Request) (tick : ℕ) (c : Cache) (lca : ℕ) (p : Place)
    (finished : ℕ) (d : D)
    → (x : Line) × (x.valid ≡ (line_at c p).valid)
      × ((load_line hw req tick c (lca, p) finished d).0 ≡ put_line c p x)
unfolding load_line
load_line-put_line hw req tick c lca p finished d = (_, refl, refl)

-- The request to the FTL for the page that the host reads.
abbrev pub page_request : Geometry → Request → ℕ → State.Request
page_request g req lca =
    record (unit_request g (lca / g.line_count_in_super_page) (lca % g.line_count_in_super_page)) {
      req_id = req.req_id;
      req_sub_id = req.req_sub_id;
    }

-- The line that reserve() takes for a miss.
abbrev reserved_line : Line → ℕ → Line
reserved_line x at = record x { inserted_at = at; last_accessed = at; valid = true; dirty = false }

-- A miss in a full set with a dirty victim, and no prefetch.
module _ {c : Cache} (v : IsCoherent c) (lca tick : ℕ) (absent : IsAbsent c lca) where
  abbrev pub home : ℕ
  home = calc_set_index c.geometry lca

  abbrev pub searched : ℕ
  searched = (get_valid_way c lca tick).1

  abbrev pub free : ℕ × ℕ
  free = get_empty_way c home searched

  abbrev pub victim : ℕ × ℕ
  victim = evict_way c home free.1

  abbrev at_row : ℕ × ℕ
  at_row = calc_io_position c.geometry (line_at c (home, victim.0)).tag

  -- What the first loop leaves.
  abbrev taken : Cache
  taken =
      put_line (put_evict c at_row.0 at_row.1 (some (home, victim.0))) (home, victim.0)
        (reserved_line (line_at c (home, victim.0)) victim.1)

  miss : (get_valid_way c lca tick).0 ≡ c.geometry.way_size
  miss = elim (get_valid_way-Found v.shaped lca tick) [
    | inl (at, none_holds) ↦ at
    | inr (lt, found) ↦ absurd (ground (arith, absent _ lt, found))
  ]

  module _ (full : free.0 ≡ c.geometry.way_size)
      (dirty : (line_at c (home, victim.0)).dirty ≡ true) where
    take_way-victim :
        take_way c home searched
        ≡ (put_evict c at_row.0 at_row.1 (some (home, victim.0)), victim.0, victim.1)
    unfolding take_way
    take_way-victim =
        let is_full : (free.0 == c.geometry.way_size) ≡ true = ground arith in
        rw (is_full, dirty) refl

    reserve-victim :
        (begun : List (ℕ × Place)) (finished : ℕ)
        → reserve (record { cache = c; read_list = begun; finished_at = finished }) lca tick
          ≡ record {
            cache = taken;
            read_list = begun ++ (lca, (home, victim.0)) ∷ [];
            finished_at = max finished victim.1;
          }
    unfolding reserve
    reserve-victim begun finished =
        let is_miss : ((get_valid_way c lca tick).0 == c.geometry.way_size) ≡ true =
          ground (arith, miss) in
        rw (is_miss, take_way-victim) refl

    module _ {D : Type 0} (hw : Lower D) (req : Request) (here : req.range.slpn ≡ lca)
        (single : c.read_detect.enabled ≡ false) (d : D) where
      abbrev pub begin : ℕ
      begin = max tick victim.1

      abbrev after_eviction : Cache × D
      after_eviction = evict_cache hw taken begin true d

      abbrev loaded : Cache × ℕ × D
      loaded =
          load_line hw req begin after_eviction.0 (lca, (home, victim.0)) begin after_eviction.1

      fetch-victim :
          fetch hw c req none (record { tick = tick; device = d })
          ≡ (loaded.0, record { tick = loaded.1; device = loaded.2 })
      unfolding fetch load_lines
      fetch-victim =
          simp (single, here, read_ahead-single c lca single, reserve_all-single, reserve-victim)

      abbrev pub place : Place
      place = (home, victim.0)

      victim_lt : victim.0 < c.geometry.way_size
      victim_lt = evict_way-lt v.shaped home free.1 (set_index-lt c.geometry lca v.shaped.sets_pos)

      in_cache : InCache c place
      in_cache = (set_index-lt c.geometry lca v.shaped.sets_pos, victim_lt)

      row_col :
          (at_row.0 < c.geometry.line_count_in_super_page)
          × (at_row.1 < c.geometry.conf.parallel_io)
      row_col =
          let (row_lt, col_lt, _) =
            calc_io_position-InGrid c.geometry c.geometry.conf.parallel_io (line_at c place).tag
              v.lines_pos v.parallel_pos v.max_io in
          (row_lt, col_lt)

      set_aside-IsShaped : IsShaped (put_evict c at_row.0 at_row.1 (some place))
      set_aside-IsShaped =
          evict_data-IsShaped (put_evict c at_row.0 at_row.1 (some place)).evict_data v.shaped

      taken-IsShaped : IsShaped taken
      taken-IsShaped =
          put_line-IsShaped set_aside-IsShaped place (reserved_line (line_at c place) victim.1)
            in_cache

      taken-IsGrid : IsGrid taken
      taken-IsGrid =
          let g = put_evict-IsGrid v.grid at_row.0 at_row.1 row_col.0 row_col.1 (some place) in
          record { rows = g.rows; cols = g.cols }

      line_at-taken :
          (q : Place)
          → line_at taken q
            ≡ (if same_place place q then reserved_line (line_at c place) victim.1 else line_at c q)
      line_at-taken q =
          line_at-put_line set_aside-IsShaped place (reserved_line (line_at c place) victim.1)
            in_cache q

      evict_at-taken :
          (r k : ℕ)
          → evict_at taken r k ≡ (if at_row.0 == r && (at_row.1 == k) then some place else none)
      evict_at-taken r k = ground (
        arith,
        evict_at-put_evict v.grid at_row.0 at_row.1 row_col.0 row_col.1 (some place) r k,
        v.idle r k,
      )

      taken-PointsIn : PointsIn taken
      taken-PointsIn r k p e = ground (arith, evict_at-taken r k, in_cache)

      taken-IsClean : IsClean taken
      taken-IsClean r k p e = ground (arith, evict_at-taken r k, line_at-taken place)

      taken-Evicts :
          Evicts taken
            (λ r k.
              (leb 0 r && ltb r (0 + taken.geometry.line_count_in_super_page))
              && ltb k taken.geometry.conf.parallel_io)
            after_eviction.0
      taken-Evicts =
          evict_cache-Evicts hw begin {c = taken} d taken-IsShaped taken-IsGrid taken-PointsIn

      place-invalid : (line_at after_eviction.0 place).valid ≡ false
      place-invalid =
          taken-Evicts.gone at_row.0 at_row.1 place (ground (arith, row_col))
            (ground (arith, evict_at-taken at_row.0 at_row.1))

      line_at-loaded :
          (q : Place)
          → InCache c q
          → ((line_at loaded.0 place).valid ≡ false)
            × (same_place place q ≡ false → line_at loaded.0 q ≡ line_at after_eviction.0 q)
      line_at-loaded q hq =
          let w = taken-Evicts.weaker in
          let inside : InCache after_eviction.0 place = ground (arith, in_cache, w.same_geometry) in
          let (x, valid, e) =
            load_line-put_line hw req begin after_eviction.0 lca place begin after_eviction.1 in
          let after = λ (p : Place). line_at-put_line w.shaped place x inside p in
          (
            ground (arith, ap (λ c. line_at c place) e, after place, valid, place-invalid),
            λ ne. ground (arith, ap (λ c. line_at c q) e, after q),
          )

      device-loaded :
          (t : ℕ) × (loaded.2
            ≡ (hw.dram_write (some place) c.geometry.line_size (record {
              tick = t;
              device =
                  (hw.ftl_read
                    (page_request c.geometry req lca)
                    (record { tick = begin; device = d })).device;
            })).device)
      unfolding load_line
      device-loaded =
          let same =
            evict_cache-IsClean hw begin taken d taken-IsShaped taken-IsGrid taken-PointsIn
              taken-IsClean in
          let geo = taken-Evicts.weaker.same_geometry in
          ((line_at after_eviction.0 place).inserted_at, simp (same, geo))

      -- If a read without prefetch misses in a coherent cache, its set is full and the line that
      -- the policy evicts is dirty, then the FTL is asked to read the page, the DRAM is written,
      -- and nothing else is asked of the device: the dirty data is not written. Afterwards no valid
      -- line has the tag of that line.
      pub fetch-loses :
          ((t : ℕ) × ((fetch hw c req none (record { tick = tick; device = d })).1.device
              ≡ (hw.dram_write (some place) c.geometry.line_size (record {
                tick = t;
                device =
                    (hw.ftl_read
                      (page_request c.geometry req lca)
                      (record { tick = begin; device = d })).device;
              })).device))
          × ((q : Place)
              → InCache c q
              → (line_at (fetch hw c req none (record { tick = tick; device = d })).0 q).valid
                ≡ true
              → (line_at (fetch hw c req none (record { tick = tick; device = d })).0 q).tag
                ≢ (line_at c place).tag)
      fetch-loses = rw fetch-victim (device-loaded, no_other)
        where
          victim_valid : (line_at c place).valid ≡ true
          victim_valid =
              full-valid v home searched (set_index-lt c.geometry lca v.shaped.sets_pos) full
                victim.0 victim_lt

          no_other :
              (q : Place)
              → InCache c q
              → (line_at loaded.0 q).valid ≡ true
              → (line_at loaded.0 q).tag ≢ (line_at c place).tag
          no_other q hq valid same =
              let (gone, others) = line_at-loaded q hq in
              let victims_home = v.home place in_cache victim_valid in
              elim (Bool-cases (same_place place q)) [
                | inl e ↦
                    let q_is = same_place-eq place q e in
                    absurd (ground (arith, gone, valid, ap (λ p. (line_at loaded.0 p).valid) q_is))
                | inr ne ↦
                    let line_is : line_at loaded.0 q ≡ line_at c q = ground (
                      arith,
                      others ne,
                      taken-Evicts.weaker.lines q hq,
                      line_at-taken q,
                      ne,
                      valid,
                    ) in
                    let valid_c : (line_at c q).valid ≡ true = ground (arith, line_is, valid) in
                    let tag_c : (line_at c q).tag ≡ (line_at c place).tag =
                      ground (arith, line_is, same) in
                    let one = v.unique q place hq in_cache valid_c victim_valid tag_c in
                    let at_home = v.home q hq valid_c in
                    let index : calc_set_index c.geometry (line_at c q).tag
                        ≡ calc_set_index c.geometry (line_at c place).tag =
                      ap (calc_set_index c.geometry) tag_c in
                    ground (arith, one, at_home, victims_home, index, ne)
              ]
