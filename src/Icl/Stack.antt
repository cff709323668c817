-- ===== src/Icl/Stack.antt =====
-- icl/icl.cc and icl/generic_cache.cc: the FTL below the cache. The device is the FTL with what is
-- below it; after a panic of the FTL no call of it runs.
use simple_ssd.Base.{ℕ, Bool, List, Option, none, some}
use simple_ssd.Base.Result.{Result, ok, panic, Panic}
use simple_ssd.Ftl.PageMapping.State.{PageMapping, Clock, Hardware}
use simple_ssd.Ftl.PageMapping.Victim.{GcConfig, Weights}
use simple_ssd.Ftl.Front
use simple_ssd.Ftl.Front.{FtlFunction}
use simple_ssd.Icl.Cache.State.{Place, Lower, CacheFunction}

pub record Ssd (D : Type 0) : Type 0 where
  pub mapping : PageMapping
  pub below : D
  pub failed : Option Panic

-- A call of the FTL.
unfoldable pub call :
    {D : Type 0}
    → (PageMapping → Clock D → Result (PageMapping × Clock D))
    → Clock (Ssd D)
    → Clock (Ssd D)
call run k = elim k.device.failed [
  | some e ↦ k
  | none ↦ elim (run k.device.mapping (record { tick = k.tick; device = k.device.below })) [
    | panic e ↦ record k { device = record k.device { failed = some e } }
    | ok r ↦ record {
      tick = r.1.tick;
      device = record { mapping = r.0; below = r.1.device; failed = none };
    }
  ]
]

-- A call that does not reach the FTL.
abbrev beside : {D : Type 0} → (Clock D → Clock D) → Clock (Ssd D) → Clock (Ssd D)
beside run k =
    let end = run (record { tick = k.tick; device = k.device.below }) in
    record { tick = end.tick; device = record k.device { below = end.device } }

module _ {W D : Type 0} (ws : Weights W) (sort : List (ℕ × W) → List (ℕ × W)) (hw : Hardware D)
    (f : GcConfig) (written_at : ℕ) (latency : FtlFunction → Clock D → Clock D)
    (dram_read dram_write : Option Place → ℕ → Clock D → Clock D) (scheduling : Bool → D → D)
    (cache_latency : CacheFunction → Clock D → Clock D) where
  unfoldable pub lower : Lower (Ssd D)
  lower = record {
    ftl_read = λ r. call (λ s c. Front.read ws sort hw f written_at latency s r c);
    ftl_write = λ r. call (λ s c. Front.write ws sort hw f written_at latency s r c);
    ftl_trim = λ r. call (λ s c. Front.trim ws sort hw f written_at latency s r c);
    ftl_format = λ r. call (λ s c. Front.format ws sort hw f written_at latency s r c);
    dram_read = λ p n. beside (dram_read p n);
    dram_write = λ p n. beside (dram_write p n);
    set_scheduling = λ b d. record d { below = scheduling b d.below };
    stopped = λ d. d.failed;
    apply_latency = λ n. beside (cache_latency n);
  }
