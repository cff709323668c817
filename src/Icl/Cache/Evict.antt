-- ===== src/Icl/Cache/Evict.antt =====
-- icl/generic_cache.cc: evictCache().
use simple_ssd.Base.{ℕ, zero, suc, ◌+◌, ◌/◌, Bool, false, ◌&&◌, none, some, if◌then◌else◌}
use simple_ssd.Ftl.PageMapping.State.{Clock}
use simple_ssd.Icl.Cache.State.{
  Line, Cache, Lower, line_at, put_line, evict_at, put_evict, unit_request,
}

-- The line after its eviction.
abbrev pub evicted_line : Line → Bool → ℕ → Line
evicted_line x flush at = record {
  tag = if flush then 0 else x.tag;
  last_accessed = at;
  inserted_at = at;
  dirty = false;
  valid = if flush then false else x.valid;
}

module _ {D : Type 0} (hw : Lower D) where
  -- The write to the FTL, if the line has to be written; it starts at `tick`.
  unfoldable pub write_back : Cache → Line → ℕ → ℕ → D → Clock D
  write_back c x row tick d =
      let begin : Clock D = record { tick = tick; device = d } in
      if x.valid && x.dirty
      then hw.ftl_write (unit_request c.geometry (x.tag / c.geometry.line_count_in_super_page) row)
          begin
      else begin

  -- One round of the inner loop.
  unfoldable pub evict_one : Cache → ℕ → ℕ → ℕ → Bool → D → Cache × D
  evict_one c row col tick flush d = elim (evict_at c row col) [
    | none ↦ (c, d)
    | some p ↦
        let end = write_back c (line_at c p) row tick d in
        (
          put_evict (put_line c p (evicted_line (line_at c p) flush end.tick)) row col none,
          end.device,
        )
  ]

  -- The inner loop from column `col`, and the outer one from row `row`, with `n` rounds to go.
  unfoldable pub evict_row : ℕ → Cache → ℕ → ℕ → ℕ → Bool → D → Cache × D
  evict_row zero c row col tick flush d = (c, d)
  evict_row (suc n) c row col tick flush d =
      let r = evict_one c row col tick flush d in evict_row n r.0 row (col + 1) tick flush r.1

  unfoldable pub evict_rows : ℕ → Cache → ℕ → ℕ → Bool → D → Cache × D
  evict_rows zero c row tick flush d = (c, d)
  evict_rows (suc n) c row tick flush d =
      let r = evict_row c.geometry.conf.parallel_io c row 0 tick flush d in
      evict_rows n r.0 (row + 1) tick flush r.1

  -- evictCache(tick, flush); the time that it takes shows only in the lines.
  unfoldable pub evict_cache : Cache → ℕ → Bool → D → Cache × D
  evict_cache c tick flush d = evict_rows c.geometry.line_count_in_super_page c 0 tick flush d
