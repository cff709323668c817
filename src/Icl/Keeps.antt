-- ===== src/Icl/Keeps.antt =====
-- icl/icl.cc: a request to write, down to the lines of the cache.
use simple_ssd.Base.{
  ℕ, zero, suc, ◌+◌, ◌-◌, ◌<◌, ◌≡◌, ◌∙◌, ap, subst, ◌⊎◌, inl, inr, refl, true, max, some,
  Option-cases,
}
use simple_ssd.Base.Result.{Result, Panic, ok, panic, unless_stopped}
use simple_ssd.Ftl.PageMapping.State.{Clock}
use simple_ssd.Icl.Cache.State.{Cache, Request, Lower, max64}
use simple_ssd.Icl.Cache.Coherent.{IsCoherent}
use simple_ssd.Icl.Cache.Times.{write_time, WriteTimes}
use simple_ssd.Icl.Cache.Writes.{write-Stored}
use simple_ssd.Icl.Cache.Store
use simple_ssd.Icl.Front.{Icl, IclFunction, icl_write, sub_request, each_line, write_line, write}

-- What holds of the result of a run, if it returns.
abbrev pub Returned {ℓ} : {A : Type ℓ} → (A → Type 0) → Result A → Type 0
Returned P (panic e) = Unit {0}
Returned P (ok x) = P x

module _ {D : Type 0} (hw : Lower D) where
  -- The times that the FTL and the DRAM return to the writes of the lines, one after the other.
  unfoldable pub LineTimes : ℕ → ℕ → Request → ℕ → ℕ → ℕ → ℕ → Cache → Clock D → Type 0
  LineTimes zero size req i offset remain tick c k = Unit {0}
  LineTimes (suc n) size req i offset remain tick c k =
      let r = sub_request size req i offset remain in
      let begin : Clock D = record { tick = tick; device = k.device } in
      WriteTimes hw c r begin
      × Returned
          (λ done.
            LineTimes n size req (i + 1) 0 (remain - r.length) tick done.0
              (record { tick = max k.tick done.2.tick; device = done.2.device }))
          (Store.write hw c r begin)

  -- A run that ends in the panic of a called component, or returns.
  abbrev pub StopsOr : {A : Type 0} → (A → Type 0) → Result A → Type 0
  StopsOr {A = A} P run =
      ((e : Panic) × (d : D) × (hw.stopped d ≡ some e) × (run ≡ panic e))
      ⊎ ((x : A) × (run ≡ ok x) × P x)

module _ {D : Type 0} (hw : Lower D) (latency : IclFunction → Clock D → Clock D) where
  each_line-IsCoherent :
      (n size : ℕ) (req : Request) (i offset remain tick : ℕ) {c : Cache} (k : Clock D)
      → IsCoherent c
      → c.geometry.conf.use_write_caching ≡ true
      → tick + write_time c.geometry < max64
      → LineTimes hw n size req i offset remain tick c k
      → StopsOr hw
          (λ done. IsCoherent done.0 × (done.0.geometry ≡ c.geometry))
          (each_line (write_line hw latency) n size req i offset remain tick c k)
  unfolding each_line LineTimes
  each_line-IsCoherent zero size req i offset remain tick {c} k v cached soon times =
      inr ((c, k), refl, (v, refl))
  each_line-IsCoherent (suc n) size req i offset remain tick {c} k v cached soon times =
      let r = sub_request size req i offset remain in
      let begin : Clock D = record { tick = tick; device = k.device } in
      let (c1, ret, end, e, _, s, _, _) = write-Stored hw v r begin cached soon times.0 in
      elim (Option-cases (hw.stopped end.device)) [
        | inr (p, stop) ↦
            let run : Store.write hw c r begin ≡ panic p =
              e ∙ ap (λ o. unless_stopped o (c1, ret, end)) stop in
            inl (p, end.device, stop, rw run refl)
        | inl free ↦
            let run : Store.write hw c r begin ≡ ok (c1, ret, end) =
              e ∙ ap (λ o. unless_stopped o (c1, ret, end)) free in
            let rest =
              each_line-IsCoherent n size req (i + 1) 0 (remain - r.length) tick {c = c1}
                (record { tick = max k.tick end.tick; device = end.device }) s.coherent
                (ap (λ g. g.conf.use_write_caching) s.same_geometry ∙ cached)
                (rw s.same_geometry soon) (subst (Returned _) run times.1) in
            rw run (elim rest [
              | inl stops ↦ inl stops
              | inr (x, e', (v', same)) ↦ inr (x, e', (v', same ∙ s.same_geometry))
            ])
      ]

  -- If the cache is coherent and caches writes, all searches end before the greatest uint64_t, and
  -- so do the calls of the FTL and the DRAM for the lines of the request, one after the other, then
  -- write() of the ICL, for a request of any number of lines, ends in a panic that stopped the
  -- device, or returns, and leaves a coherent cache of the same geometry and the same size of a
  -- line.
  pub write-IsCoherent :
      (s : Icl) (req : Request) (k : Clock D)
      → IsCoherent s.cache
      → s.cache.geometry.conf.use_write_caching ≡ true
      → k.tick + write_time s.cache.geometry < max64
      → LineTimes hw req.range.nlp s.logical_page_size req 0 req.offset req.length k.tick s.cache k
      → StopsOr hw
          (λ done.
            IsCoherent done.0.cache
            × (done.0.cache.geometry ≡ s.cache.geometry)
            × (done.0.logical_page_size ≡ s.logical_page_size))
          (write hw latency s req k)
  unfolding write
  write-IsCoherent s req k v cached soon times =
      elim (each_line-IsCoherent req.range.nlp s.logical_page_size req 0 req.offset req.length
        k.tick k v cached soon times) [
          | inl (p, d, stop, e) ↦ inl (p, d, stop, rw e refl)
          | inr (x, e, (v', same)) ↦
              inr ((record s { cache = x.0 }, latency icl_write x.1), rw e refl, (v', same, refl))
        ]
