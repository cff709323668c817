-- ===== src/Ftl/PageMapping/Read.antt =====
-- ftl/page_mapping.cc: readInternal().
use simple_ssd.Base.{
  ℕ, zero, suc, ◌+◌, ◌<◌, ◌≡◌, ◌∙◌, sym, ◌⊎◌, inl, inr, refl, Bool, true, false, ◌&&◌, List, none,
  some, arith, ◌==◌, if◌then◌else◌, ℕ_discrete, Option-cases, Bool-cases, max,
}
use simple_ssd.Base.Result.{Result, ok, ◌>>=◌, at-eq-get_or}
use simple_ssd.Base.Map
use simple_ssd.Base.Map.{find, find-insert}
use simple_ssd.Ftl.Block.{Block, read}
use simple_ssd.Ftl.Block.View
use simple_ssd.Ftl.Block.View.{valid_at, erased_at, lpn_at, unit_bit_valid, counters-IsShaped}
use simple_ssd.Ftl.PageMapping.State.{
  PageMapping, Request, pal_request, Clock, Hardware, unit_flag, read_internal_cost,
}
use simple_ssd.Ftl.PageMapping.Access.{
  selected, is_mapped, read_unit, read_units, read_internal, entry_bytes,
}
use simple_ssd.Ftl.PageMapping.Consistent.{IsConsistent, IsSized, Holds, unit_of, IsUnmapped}
use simple_ssd.Ftl.PageMapping.Detach.{
  SameBlocks, SameBlocks-refl, SameBlocks-trans, SameBlocks-insert,
}
use simple_ssd.Ftl.PageMapping.Write.{IsValid, IsAllocated-blocks, same_keys}

-- A block whose time of access has changed.
abbrev touched : Block → ℕ → Block
touched b tick = record b { last_accessed = tick }

touched-IsValid : {b : Block} (tick : ℕ) → View.IsValid b → View.IsValid (touched b tick)
unfolding valid_at erased_at
touched-IsValid {b} tick v = record {
  shaped = counters-IsShaped b b.p_next_write_page_index tick b.erase_count v.shaped;
  small = v.small;
  nexts_length = v.nexts_length;
  next_le = v.next_le;
  ahead_erased = v.ahead_erased;
  ahead_invalid = v.ahead_invalid;
  valid_written = v.valid_written;
}

same_units :
    (b : Block) (tick p i : ℕ)
    → (valid_at (touched b tick) p i ≡ valid_at b p i)
      × (lpn_at (touched b tick) p i ≡ lpn_at b p i)
unfolding valid_at lpn_at
same_units b tick p i = (refl, refl)

-- Reading a valid unit notes the time, and returns true.
pub read_valid :
    {b : Block} {p i : ℕ} (tick : ℕ)
    → View.IsValid b
    → p < b.page_count
    → i < b.io_unit_in_page
    → valid_at b p i ≡ true
    → read b p i tick ≡ ok (touched b tick, true)
unfolding read
read_valid tick v hp hi e = rw (unit_bit_valid hp hi v.shaped, e)

module _ {s : PageMapping} {away : ℕ → ℕ → Bool} (v : IsConsistent s away) (k tick : ℕ) (b : Block)
    (found : find k s.blocks ≡ some b) where
  abbrev after_read : PageMapping
  after_read = record s { blocks = Map.insert k (touched b tick) s.blocks }

  blocks_after :
      (j : ℕ)
      → find j after_read.blocks ≡ (if k == j then some (touched b tick) else find j s.blocks)
  blocks_after j = find-insert k (touched b tick) s.blocks j

  keep_held : {k' p i l : ℕ} → Holds s k' p i l → Holds after_read k' p i l
  keep_held {k'} {p} {i} h = elim (ℕ_discrete k' k) [
    | yes e ↦
        let same : h.block ≡ b = ground (arith, h.found) in
        record {
          block = touched b tick;
          found = ground (arith, blocks_after k');
          page_lt = h.page_lt;
          valid = ground (arith, h.valid, same_units b tick p i);
          lpn = ground (arith, h.lpn, same_units b tick p i);
        }
    | no ne ↦ record {
      block = h.block;
      found = ground (arith, h.found, blocks_after k');
      page_lt = h.page_lt;
      valid = h.valid;
      lpn = h.lpn;
    }
  ]

  stays_put :
      {u : ℕ × ℕ} {i l : ℕ}
      → Holds s u.0 u.1 i l ⊎ IsUnmapped s u
      → Holds after_read u.0 u.1 i l ⊎ IsUnmapped s u
  stays_put (inl h) = inl (keep_held h)
  stays_put (inr u) = inr u

  touched-IsSized : IsSized s.param (touched b tick)
  touched-IsSized =
      let sized = (v.blocks_ok k b found).0 in
      record { valid = touched-IsValid tick sized.valid; pages = sized.pages; units = sized.units }

  after_read-IsConsistent : IsConsistent after_read away
  after_read-IsConsistent = record {
    blocks_ok = λ j c e.
        ground (arith, blocks_after j, v.blocks_ok j c, v.blocks_ok k b found, touched-IsSized);
    table_ok = v.table_ok;
    units_le = v.units_le;
    forward = λ l m i e hi h. stays_put (v.forward l m i e hi h);
    backward = λ k' c p i e hp hi valid. elim (ℕ_discrete k' k) [
      | yes is_k ↦
          let same : c ≡ touched b tick = ground (arith, blocks_after k') in
          let was : valid_at b p i ≡ true = ground (arith, same_units b tick p i) in
          let (here, m, at_x, at_k, at_p) = v.backward k b p i found hp hi was in
          let lpns : lpn_at c p i ≡ lpn_at b p i = ground (arith, same_units b tick p i) in
          rw lpns (here, m, at_x, at_k ∙ sym is_k, at_p)
      | no ne ↦ v.backward k' c p i (ground (arith, blocks_after k')) hp hi valid
    ];
  }

module _ {D : Type 0} (hw : Hardware D) where
  -- What a read does to the clock: for each selected unit that is mapped, one request to the PAL at
  -- its block and page; they all start at `tick`, and the last to end counts.
  issue_unit : PageMapping → Request → List (ℕ × ℕ) → ℕ → ℕ → Clock D → Clock D
  issue_unit s req mapping i tick c =
      let m = unit_of mapping i in
      if selected s req.io_flag i && is_mapped s m
      then (let end =
            hw.pal_read
              (record (pal_request req) {
                block_index = m.0;
                page_index = m.1;
                io_flag = unit_flag s req.io_flag i;
              })
              (record { tick = tick; device = c.device }) in
          record { tick = max c.tick end.tick; device = end.device })
      else c

  pub issue_units : ℕ → ℕ → PageMapping → Request → List (ℕ × ℕ) → ℕ → Clock D → Clock D
  issue_units zero i s req mapping tick c = c
  issue_units (suc n) i s req mapping tick c =
      issue_units n (i + 1) s req mapping tick (issue_unit s req mapping i tick c)

  -- One round, or the loop: the mapping stays, and the clock is that of the requests.
  record Reads (s : PageMapping) (c : Clock D) (r : Result (PageMapping × Clock D)) : Type 0 where
    blocks : List (ℕ × Block)
    result : r ≡ ok (record s { blocks = blocks }, c)
    consistent : IsConsistent (record s { blocks = blocks }) (λ l i. false)
    same : SameBlocks s.blocks blocks

  read_unit-Reads :
      {s : PageMapping} (req : Request) (mapping : List (ℕ × ℕ)) (i tick : ℕ) (c : Clock D)
      → IsConsistent s (λ l i. false)
      → find req.lpn s.table ≡ some mapping
      → i < s.bitset_size
      → Reads s (issue_unit s req mapping i tick c) (read_unit hw s req mapping i tick c)
  unfolding read_unit issue_unit
  read_unit-Reads {s} req mapping i tick c v mapped hi =
      let at_i = at-eq-get_or mapping i (0, 0) (omega (arith, v.table_ok req.lpn mapping mapped)) in
      elim (Bool-cases (selected s req.io_flag i)) [
        | inr skip ↦ record {
          blocks = s.blocks;
          result = rw skip;
          consistent = v;
          same = SameBlocks-refl s.blocks;
        }
        | inl sel ↦ elim (v.forward req.lpn mapping i mapped hi refl) [
          | inr nowhere ↦
              let no_place : is_mapped s (unit_of mapping i) ≡ false = ground arith in
              record {
                blocks = s.blocks;
                result = rw (sel, at_i, ◌>>=◌, no_place);
                consistent = v;
                same = SameBlocks-refl s.blocks;
              }
          | inl held ↦
              let k = (unit_of mapping i).0 in
              let (sized, key_lt) = v.blocks_ok k held.block held.found in
              let here : is_mapped s (unit_of mapping i) ≡ true =
                ground (arith, held.page_lt, key_lt) in
              let run =
                read_valid {p = (unit_of mapping i).1} {i = i} tick sized.valid
                  (omega (arith, held.page_lt, sized.pages))
                  (omega (arith, sized.units, v.units_le)) held.valid in
              record {
                blocks = Map.insert k (touched held.block tick) s.blocks;
                result = rw (sel, at_i, ◌>>=◌, here, held.found, run);
                consistent = after_read-IsConsistent v k tick held.block held.found;
                same =
                    SameBlocks-insert s.blocks k held.block (touched held.block tick) held.found
                      refl;
              }
        ]
      ]

  issue_units-blocks :
      (n i : ℕ) (s : PageMapping) (blocks : List (ℕ × Block)) (req : Request)
      (mapping : List (ℕ × ℕ)) (tick : ℕ) (c : Clock D)
      → issue_units n i (record s { blocks = blocks }) req mapping tick c
        ≡ issue_units n i s req mapping tick c
  unfolding issue_units issue_unit
  issue_units-blocks zero i s blocks req mapping tick c = refl
  issue_units-blocks (suc n) i s blocks req mapping tick c =
      issue_units-blocks n (i + 1) s blocks req mapping tick (issue_unit s req mapping i tick c)

  read_units-Reads :
      {s : PageMapping} (req : Request) (mapping : List (ℕ × ℕ)) (n i tick : ℕ) (c : Clock D)
      → IsConsistent s (λ l i. false)
      → find req.lpn s.table ≡ some mapping
      → n + i ≡ s.bitset_size
      → Reads s (issue_units n i s req mapping tick c) (read_units hw n i s req mapping tick c)
  unfolding read_units issue_units
  read_units-Reads {s} req mapping zero i tick c v mapped fit = record {
    blocks = s.blocks;
    result = refl;
    consistent = v;
    same = SameBlocks-refl s.blocks;
  }
  read_units-Reads {s} req mapping (suc n) i tick c v mapped fit =
      let one = read_unit-Reads {s = s} req mapping i tick c v mapped (omega (arith, fit)) in
      let rest =
        read_units-Reads {s = record s { blocks = one.blocks }} req mapping n (i + 1) tick
          (issue_unit s req mapping i tick c) one.consistent mapped (omega (arith, fit)) in
      record {
        blocks = rest.blocks;
        result =
            rw
              (
                one.result,
                ◌>>=◌,
                sym (
                    issue_units-blocks n (i + 1) s one.blocks req mapping tick
                      (issue_unit s req mapping i tick c)),
              )
              rest.result;
        consistent = rest.consistent;
        same = SameBlocks-trans one.same rest.same;
      }

-- A read that returned: no mapping and no page changed, and the clock is that of its requests.
pub record Kept {D : Type 0} (s : PageMapping) (c : Clock D) (r : Result (PageMapping × Clock D))
    : Type 0 where
  pub blocks : List (ℕ × Block)
  pub result : r ≡ ok (record s { blocks = blocks }, c)
  pub valid : IsValid (record s { blocks = blocks })
  pub same : SameBlocks s.blocks blocks

module _ {D : Type 0} (hw : Hardware D) (s : PageMapping) (req : Request) (c : Clock D) where
  -- The clock after a read: that of the access to the table, then of the requests to the PAL.
  unfoldable pub read_clock : Clock D
  read_clock = elim (find req.lpn s.table) [
    | none ↦ c
    | some mapping ↦
        let fetched = hw.dram_read req.lpn (entry_bytes s req) c in
        hw.apply_latency read_internal_cost (
          issue_units hw s.bitset_size 0 s req mapping fetched.tick
            (record { tick = c.tick; device = fetched.device }))
  ]

module _ {D : Type 0} (hw : Hardware D) {s : PageMapping} (req : Request) (c : Clock D)
    (v : IsValid s) where
  -- In a state of the invariant, readInternal() returns and keeps the invariant; of the state only
  -- the blocks change, and they keep their keys and next pages; the clock is that of one request to
  -- the PAL for each selected unit that is mapped, at its block and page, all started when the
  -- table entry has been read.
  pub read_internal-Kept : Kept s (read_clock hw s req c) (read_internal hw s req c)
  unfolding read_internal read_clock
  read_internal-Kept = elim (Option-cases (find req.lpn s.table)) [
    | inl e ↦ record {
      blocks = s.blocks;
      result = rw (read_clock, e, read_internal);
      valid = v;
      same = SameBlocks-refl s.blocks;
    }
    | inr (mapping, e) ↦
        let fetched = hw.dram_read req.lpn (entry_bytes s req) c in
        let loop =
          read_units-Reads hw {s = s} req mapping s.bitset_size 0 fetched.tick
            (record { tick = c.tick; device = fetched.device }) v.consistent e (omega arith) in
        record {
          blocks = loop.blocks;
          result = rw (read_clock, e, read_internal, loop.result);
          valid = record {
            consistent = loop.consistent;
            allocated = IsAllocated-blocks loop.blocks s.table (same_keys loop.same) v.allocated;
          };
          same = loop.same;
        }
  ]
