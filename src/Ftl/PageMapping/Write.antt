-- ===== src/Ftl/PageMapping/Write.antt =====
-- ftl/page_mapping.cc: writeInternal() up to the garbage collection, as a whole.
use simple_ssd.Base.{
  ℕ, ◌<◌, ◌≡◌, ◌≢◌, ◌∙◌, inl, inr, refl, Bool, true, false, List, none, some, arith, if◌then◌else◌,
  get_or,
}
use simple_ssd.Base.Result.{Result, ok, ◌>>=◌}
use simple_ssd.Base.Map.{find}
use simple_ssd.Util.Bitset.{Bitset}
use simple_ssd.Ftl.Block.{Block}
use simple_ssd.Ftl.PageMapping.State.{PageMapping, Request, Clock, Hardware, write_internal_cost}
use simple_ssd.Ftl.PageMapping.Access.{selected, write_pages, detach, entry_bytes}
use simple_ssd.Ftl.PageMapping.Alloc.{get_last_free_block}
use simple_ssd.Ftl.PageMapping.Consistent.{IsConsistent, Holds, unit_of, IsUnmapped}
use simple_ssd.Ftl.PageMapping.Detach.{
  IsConsistent-ext, SameBlocks, Ready, detach-Ready, done_below,
}
use simple_ssd.Ftl.PageMapping.FreeList.{AreFree-used}
use simple_ssd.Ftl.PageMapping.Open.{IsAllocated}
use simple_ssd.Ftl.PageMapping.Room.{IsFlag, Opened, get_last_free_block-Opened}
use simple_ssd.Ftl.PageMapping.WriteLoop.{away_from, SameKeys, Wrote, write_units-Wrote}

-- The invariant of the mapping between requests: nothing is detached.
pub record IsValid (s : PageMapping) : Type 0 where
  pub consistent : IsConsistent s (λ l i. false)
  pub allocated : IsAllocated s

-- A write of `l` that returned: the invariant holds, each selected unit of `l` is on a valid unit of
-- a block that holds it, its other units are where they were (nowhere, if it had no mapping), and so
-- are the other logical pages.
pub record Stores {D : Type 0} (s : PageMapping) (flag : Bitset) (l : ℕ)
    (r : Result (PageMapping × Clock D)) : Type 0 where
  pub next : PageMapping
  pub clock : Clock D
  pub result : r ≡ ok (next, clock)
  pub valid : IsValid next
  pub mapping : List (ℕ × ℕ)
  pub mapped : find l next.table ≡ some mapping
  pub stored :
      (i : ℕ)
      → i < s.bitset_size
      → selected s flag i ≡ true
      → Holds next (unit_of mapping i).0 (unit_of mapping i).1 i l
  pub kept :
      (i : ℕ) (old : List (ℕ × ℕ))
      → find l s.table ≡ some old
      → selected s flag i ≡ false
      → unit_of mapping i ≡ unit_of old i
  pub fresh :
      (i : ℕ)
      → i < s.bitset_size
      → find l s.table ≡ none
      → selected s flag i ≡ false
      → IsUnmapped s (unit_of mapping i)
  pub same_param : next.param ≡ s.param
  pub same_size : next.bitset_size ≡ s.bitset_size
  pub same_tweak : next.random_tweak ≡ s.random_tweak
  pub others : (l' : ℕ) → l' ≢ l → find l' next.table ≡ find l' s.table

pub IsAllocated-blocks :
    {s : PageMapping} (blocks : List (ℕ × Block)) (table : List (ℕ × List (ℕ × ℕ)))
    → SameKeys s.blocks blocks
    → IsAllocated s
    → IsAllocated (record s { blocks = blocks; table = table })
IsAllocated-blocks {s} blocks table k a = record {
  free = AreFree-used s.param s.blocks blocks s.free_blocks k.absent a.free;
  counted = a.counted;
  open_length = a.open_length;
  open_index = a.open_index;
  open_used =
      λ j h. let (b, at_b) = a.open_used j h in k.present (get_or s.last_free_block j 0) b at_b;
  map_ok = a.map_ok;
  map_size = a.map_size;
  perf_small = a.perf_small;
  pages_pos = a.pages_pos;
}

pub same_keys : {bs cs : List (ℕ × Block)} → SameBlocks bs cs → SameKeys bs cs
same_keys f = record {
  absent = f.absent;
  present = λ k b h. let (c, at_c, _) = f.present k b h in (c, at_c);
}

module _ {D : Type 0} (hw : Hardware D) {s : PageMapping} (req : Request) (send : Bool)
    (c : Clock D) (v : IsValid s) (f : IsFlag s req.io_flag) (some_free : 0 < s.n_free_blocks) where
  ready : Ready s req.io_flag req.lpn (detach s req)
  ready = detach-Ready req v.consistent

  abbrev detached : PageMapping
  detached = record s { blocks = ready.blocks; table = ready.table }

  opened :
      Opened detached
        (done_below s req.io_flag req.lpn s.bitset_size)
        (get_last_free_block detached req.io_flag)
  opened =
      get_last_free_block-Opened {s = detached} ready.consistent
        (IsAllocated-blocks ready.blocks ready.table (same_keys ready.same) v.allocated) some_free
        (record { valid = f.valid; sized = f.sized })

  -- What the loop makes of the state, it makes of the whole: the clock is set at the end.
  finish :
      {m : Result (PageMapping × Clock D)} (k : Clock D → Clock D)
      → Wrote opened.next req.io_flag req.lpn opened.key ready.mapping opened.next.bitset_size m
      → Stores s req.io_flag req.lpn (m >>= λ done. ok (done.0, k done.1))
  finish k w =
      let next = record opened.next { blocks = w.blocks; table = w.table } in
      let whole : IsConsistent next (λ l i. false) =
        IsConsistent-ext (λ l i. false) (λ l i. ground arith) w.consistent in
      record {
        next = next;
        clock = k w.clock;
        result = rw w.result;
        valid = record {
          consistent = whole;
          allocated = IsAllocated-blocks w.blocks w.table w.same opened.allocated;
        };
        mapping = w.after;
        mapped = w.mapped;
        stored = λ i hi sel.
            let in_range : i < opened.next.bitset_size = omega (arith, opened.same_size) in
            let there = w.placed i in_range (ground (arith, opened.same_tweak)) in
            let key_lt = (whole.blocks_ok opened.key w.block w.found).1 in
            elim (whole.forward req.lpn w.after i w.mapped in_range refl) [
              | inl held ↦ held
              | inr nowhere ↦ absurd (omega (arith, nowhere.0, there, key_lt))
            ];
        kept = λ i old h sel.
            w.kept i (ground (arith, opened.same_tweak)) ∙ ground (arith, ready.was old h);
        fresh =
            λ i hi h sel. rw (w.kept i (ground (arith, opened.same_tweak))) (ready.fresh i hi h);
        same_param = opened.same_param;
        same_size = opened.same_size;
        same_tweak = opened.same_tweak;
        others = λ l' ne. w.others l' ne ∙ ground (arith, opened.same_table, ready.others l' ne);
      }

  -- In a state of the invariant with a free block, and for a valid flag with one bit for each unit
  -- of a page, a write returns and keeps the invariant; the selected units of its logical page are
  -- on valid units of blocks that hold it, its other units stay where they were (nowhere, if it had
  -- no mapping), and so do the other logical pages.
  pub write_pages-Stores : Stores s req.io_flag req.lpn (write_pages hw s req send c)
  unfolding write_pages
  write_pages-Stores =
      let t = opened.next in
      let bytes = entry_bytes t req in
      let fetched =
        if send then hw.dram_write req.lpn bytes (hw.dram_read req.lpn bytes c) else c in
      let loop_clock : Clock D = record { tick = c.tick; device = fetched.device } in
      let k = λ (d : Clock D).
        (if send
          then hw.apply_latency write_internal_cost d
          else record { tick = fetched.tick; device = d.device }) in
      let loop =
        write_units-Wrote hw t.bitset_size {s = t} req send opened.key 0 fetched.tick loop_clock
          ready.mapping opened.block
          (IsConsistent-ext (away_from t req.io_flag req.lpn 0)
            (λ l i. ground (arith, opened.same_size, opened.same_tweak)) opened.consistent)
          (ground (arith, opened.same_table, ready.mapped)) opened.found
          (λ j h. ground (arith, opened.room j, opened.same_param)) (λ j h. absurd (omega arith))
          (omega arith) in
      rw (ready.result, opened.result, ◌>>=◌, opened.found) (finish k loop)
