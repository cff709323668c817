-- ===== src/Ftl/Front.antt =====
-- ftl/ftl.cc: FTL, between the cache and the mapping of pages.
use simple_ssd.Base.{ℕ, ◌+◌, ◌/◌, List, leb}
use simple_ssd.Base.Result.{Result, ok, ◌>>=◌, ◌>>◌, panic_if, over_provision_too_small}
use simple_ssd.Ftl.PageMapping.State.{PageMapping, Parameter, Request, Clock, Hardware}
use simple_ssd.Ftl.PageMapping.Handlers
use simple_ssd.Ftl.PageMapping.Victim.{GcConfig, Weights}
use simple_ssd.Ftl.PageMapping.Upkeep
use simple_ssd.Icl.Cache.State.{LpnRange}
use simple_ssd.Pal.Address

-- FTL(conf, dram): the sizes, from those of the PAL, and the check of them. `without_spare` is the
-- product of a number of blocks and one minus the ratio of over-provision, a float.
unfoldable pub parameter : Address.Config → Address.Parameter → (ℕ → ℕ) → Result Parameter
parameter f p without_spare = do
  let param : Parameter = record {
    total_physical_blocks = p.super_block;
    total_logical_blocks = without_spare p.super_block;
    pages_in_block = f.page;
    page_size = p.super_page_size;
    io_unit_in_page = p.page_in_super_page;
    page_count_to_max_perf = p.super_block / f.block;
  }
  panic_if
      (leb param.total_physical_blocks (param.total_logical_blocks + param.page_count_to_max_perf))
      over_provision_too_small
  ok param

-- The functions that the layer names in applyLatency().
pub data FtlFunction : Type 0 where
  ftl_read : FtlFunction
  ftl_write : FtlFunction
  ftl_trim : FtlFunction
  ftl_format : FtlFunction

module _ {W D : Type 0} (ws : Weights W) (sort : List (ℕ × W) → List (ℕ × W)) (hw : Hardware D)
    (f : GcConfig) (written_at : ℕ) (latency : FtlFunction → Clock D → Clock D) where
  -- read(req, tick), write(req, tick), trim(req, tick) and format(range, tick)
  unfoldable pub read : PageMapping → Request → Clock D → Result (PageMapping × Clock D)
  read s req c = do r ← Handlers.read hw s req c; ok (r.0, latency ftl_read r.1)

  unfoldable pub write : PageMapping → Request → Clock D → Result (PageMapping × Clock D)
  write s req c = do
    r ← Upkeep.write ws sort hw f written_at s req c
    ok (r.0, latency ftl_write r.1)

  unfoldable pub trim : PageMapping → Request → Clock D → Result (PageMapping × Clock D)
  trim s req c = do r ← Handlers.trim hw s req c; ok (r.0, latency ftl_trim r.1)

  unfoldable pub format : PageMapping → LpnRange → Clock D → Result (PageMapping × Clock D)
  format s range c = do
    r ← Upkeep.format ws sort hw f written_at s range.slpn range.nlp c
    ok (r.0, latency ftl_format r.1)

-- getUsedPageCount(lpnBegin, lpnEnd)
unfoldable pub get_used_page_count : PageMapping → ℕ → ℕ → ℕ
get_used_page_count s from to = (Upkeep.get_status s from to).1
