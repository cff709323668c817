-- ===== src/Ftl/PageMapping/Handlers.antt =====
-- ftl/page_mapping.cc: read() and trim(), what the layer above calls.
use simple_ssd.Base.{ℕ, ◌<◌, ◌≡◌, List, some, ltb, if◌then◌else◌}
use simple_ssd.Base.Result.{Result, ok, ◌>>=◌}
use simple_ssd.Base.Map.{find}
use simple_ssd.Util.Bitset
use simple_ssd.Util.Bitset.{Bitset}
use simple_ssd.Ftl.PageMapping.State.{PageMapping, Request, Clock, Hardware, read_cost, trim_cost}
use simple_ssd.Ftl.PageMapping.Access.{read_internal, trim_internal}
use simple_ssd.Ftl.PageMapping.Consistent.{unit_of, IsUnmapped}
use simple_ssd.Ftl.PageMapping.Write.{IsValid}
use simple_ssd.Ftl.PageMapping.Trim.{Trimmed, trim_internal-Trimmed}

module _ {D : Type 0} (hw : Hardware D) where
  -- read(req, tick); a request without units only takes time.
  unfoldable pub read : PageMapping → Request → Clock D → Result (PageMapping × Clock D)
  read s req c =
      if ltb 0 (Bitset.count req.io_flag)
      then (do r ← read_internal hw s req c; ok (r.0, hw.apply_latency read_cost r.1))
      else ok (s, hw.apply_latency read_cost c)

  -- trim(req, tick)
  unfoldable pub trim : PageMapping → Request → Clock D → Result (PageMapping × Clock D)
  trim s req c = do r ← trim_internal hw s req c; ok (r.0, hw.apply_latency trim_cost r.1)

module _ {D : Type 0} (hw : Hardware D) {s : PageMapping} (req : Request) (c : Clock D)
    (v : IsValid s) where
  -- trim() of a logical page whose units are all mapped, or of one not in the table.
  pub trim-Trimmed :
      ((mapping : List (ℕ × ℕ)) (i : ℕ)
        → find req.lpn s.table ≡ some mapping
        → i < s.bitset_size
        → ¬ IsUnmapped s (unit_of mapping i))
      → Trimmed s req.lpn (trim hw s req c)
  unfolding trim
  trim-Trimmed all =
      let t = trim_internal-Trimmed hw {s = s} req c v all in
      record {
        next = t.next;
        clock = hw.apply_latency trim_cost t.clock;
        result = rw t.result;
        valid = t.valid;
        gone = t.gone;
        nowhere = t.nowhere;
        others = t.others;
      }
