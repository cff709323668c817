-- ===== src/Icl/Cache/Hits.antt =====
-- icl/generic_cache.cc: a read of what was written.
use simple_ssd.Base.{ℕ, ◌+◌, ◌<◌, ◌≡◌, ◌∙◌, ap, inl, inr, Bool, true, false, some, arith, ◌==◌, max}
use simple_ssd.Ftl.PageMapping.State.{Clock}
use simple_ssd.Icl.Cache.State.{
  Place, Cache, Request, Lower, line_at, calc_set_index, cache_read, cache_write, max64,
}
use simple_ssd.Icl.Cache.Lines.{InCache}
use simple_ssd.Icl.Cache.Search.{get_valid_way-Found, set_index-lt}
use simple_ssd.Icl.Cache.Ways.{get_valid_way}
use simple_ssd.Icl.Cache.Coherent.{IsCoherent}
use simple_ssd.Icl.Cache.Placed.{Stored}
use simple_ssd.Icl.Cache.Writes.{write-Stored}
use simple_ssd.Icl.Cache.Times.{write_time, WriteTimes}
use simple_ssd.Icl.Cache.Store.{write}
use simple_ssd.Base.Result.{unless_stopped}
use simple_ssd.Icl.Cache.Fetch.{read_hit, read_cached, read}

-- getValidWay() finds the one line that holds the LCA.
pub get_valid_way-held :
    {c : Cache} (v : IsCoherent c) (lca tick : ℕ) (p : Place)
    → InCache c p
    → (line_at c p).valid ≡ true
    → (line_at c p).tag ≡ lca
    → ((get_valid_way c lca tick).0 ≡ p.1)
      × ((calc_set_index c.geometry lca, (get_valid_way c lca tick).0) ≡ p)
      × (((get_valid_way c lca tick).0 == c.geometry.way_size) ≡ false)
get_valid_way-held {c} v lca tick (i, way) here valid tag =
    let home : i ≡ calc_set_index c.geometry lca =
      v.home (i, way) here valid ∙ ap (calc_set_index c.geometry) tag in
    elim (get_valid_way-Found v.shaped lca tick) [
      | inl (_, absent) ↦ absurd (ground (arith, absent way here.1, home, valid, tag))
      | inr (lt, found) ↦
          let at = (get_valid_way c lca tick).0 in
          let one : at ≡ way =
            v.unique (calc_set_index c.geometry lca, at) (i, way)
              (set_index-lt c.geometry lca v.shaped.sets_pos, lt) here (ground (arith, found)) valid
              (ground (arith, found, tag)) in
          (one, cc, ground (arith, lt))
    ]

module _ {D : Type 0} (hw : Lower D) {before c : Cache} {lca : ℕ} {dirty : Bool}
    (s : Stored before c lca dirty) (req : Request) (same : req.range.slpn ≡ lca) where
  -- A read of an LCA that is stored.
  read-Stored :
      (k : Clock D)
      → c.geometry.conf.use_read_caching ≡ true
      → c.geometry.conf.use_read_prefetch ≡ false
      → ((read hw c req k).1 ≡ true)
        × ((t : ℕ) × ((read hw c req k).2
              ≡ hw.apply_latency cache_read
                  (hw.dram_read (some s.place) req.length (record k { tick = t }))))
  unfolding read read_cached read_hit
  read-Stored k cached no_prefetch =
      let here : InCache c s.place = ground (arith, s.here, s.same_geometry) in
      let (_, at, hit) = get_valid_way-held s.coherent lca k.tick s.place here s.valid s.tag in
      (
        simp (cached, no_prefetch, same, hit),
        (
          max (get_valid_way c lca k.tick).1 (line_at c s.place).inserted_at,
          simp (cached, no_prefetch, same, hit)
              (ap
                (λ p. hw.apply_latency cache_read (
                  hw.dram_read (some p) req.length (record k {
                    tick = max (get_valid_way c lca k.tick).1 (line_at c p).inserted_at;
                  })))
                at),
        ),
      )

module _ {D : Type 0} (hw : Lower D) {c : Cache} (v : IsCoherent c) (req : Request) where
  -- In a coherent cache that caches reads and writes and does not prefetch, if all the searches end
  -- before the greatest uint64_t, and so do the calls of the FTL and the DRAM in this write,
  -- write() returns, unless a call of the FTL has panicked, having written the data to the DRAM at
  -- a line; and a read() of the same LCA from the cache that it leaves is a hit, which reads the
  -- DRAM at that line and asks nothing of the FTL.
  pub write-read :
      (k : Clock D)
      → c.geometry.conf.use_write_caching ≡ true
      → k.tick + write_time c.geometry < max64
      → WriteTimes hw c req k
      → c.geometry.conf.use_read_caching ≡ true
      → c.geometry.conf.use_read_prefetch ≡ false
      → (again : Request) → again.range.slpn ≡ req.range.slpn
      → (later : Clock D)
      → (c' : Cache) × (ret : Bool) × (end : Clock D) × (write hw c req k
          ≡ unless_stopped (hw.stopped end.device) (c', ret, end))
        × (place : Place) × (into : Clock D) × (end
            ≡ hw.apply_latency cache_write (hw.dram_write (some place) req.length into))
        × ((read hw c' again later).1 ≡ true)
        × (t : ℕ) × ((read hw c' again later).2
            ≡ hw.apply_latency cache_read
                (hw.dram_read (some place) again.length (record later { tick = t })))
  write-read k writes soon times reads no_prefetch again same later =
      let (c', ret, end, e, _, s, into, is_into) = write-Stored hw v req k writes soon times in
      let (hit, (t, from)) =
        read-Stored hw s again same later
          (ap (λ g. g.conf.use_read_caching) s.same_geometry ∙ reads)
          (ap (λ g. g.conf.use_read_prefetch) s.same_geometry ∙ no_prefetch) in
      (c', ret, end, e, s.place, into, is_into, hit, t, from)
