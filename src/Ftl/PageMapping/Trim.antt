-- ===== src/Ftl/PageMapping/Trim.antt =====
-- ftl/page_mapping.cc: trimInternal().
use simple_ssd.Base.{
  ℕ, zero, suc, ◌+◌, ◌≤◌, ◌<◌, ◌≡◌, ◌≢◌, ◌∙◌, ◌⊎◌, inl, inr, refl, Bool, false, ◌&&◌, List, none,
  some, arith, ltb, ◌==◌, if◌then◌else◌, ℕ_discrete, Option-cases,
}
use simple_ssd.Base.Result.{Result, ok, panic, ◌>>=◌, at, at-eq-get_or, block_not_in_use}
use simple_ssd.Base.Map
use simple_ssd.Base.Map.{find, find-insert, find-erase}
use simple_ssd.Ftl.Block.{Block}
use simple_ssd.Ftl.Block.View.{lpn_at}
use simple_ssd.Ftl.Block.Clear.{invalidate-Invalidated}
use simple_ssd.Ftl.PageMapping.State.{PageMapping, Request, Clock, Hardware, trim_internal_cost}
use simple_ssd.Ftl.PageMapping.Access.{trim_units, trim_internal, entry_bytes}
use simple_ssd.Ftl.PageMapping.Consistent.{
  IsConsistent, Holds, unit_of, IsUnmapped, invalidated-away,
}
use simple_ssd.Ftl.PageMapping.Detach.{
  IsConsistent-ext, SameBlocks, SameBlocks-refl, SameBlocks-trans, SameBlocks-insert,
}
use simple_ssd.Ftl.PageMapping.Write.{IsValid, IsAllocated-blocks, same_keys}

-- The units of `l` below `n`.
abbrev below : ℕ → ℕ → ℕ → ℕ → Bool
below l n l' i = l == l' && ltb i n

-- One round on a mapped unit: the unit is detached.
record Step (s : PageMapping) (l i : ℕ) (mapping : List (ℕ × ℕ)) : Type 0 where
  blocks : List (ℕ × Block)
  result :
      (n : ℕ)
      → trim_units (suc n) i s mapping ≡ trim_units n (i + 1) (record s { blocks = blocks }) mapping
  consistent : IsConsistent (record s { blocks = blocks }) (below l (i + 1))
  same : SameBlocks s.blocks blocks

module _ {s : PageMapping} (l : ℕ) (mapping : List (ℕ × ℕ)) (i : ℕ) (v : IsConsistent s (below l i))
    (mapped : find l s.table ≡ some mapping) (hi : i < s.bitset_size) where
  in_mapping : at mapping i ≡ ok (unit_of mapping i)
  in_mapping = at-eq-get_or mapping i (0, 0) (omega (arith, v.table_ok l mapping mapped))

  trim_mapped : Holds s (unit_of mapping i).0 (unit_of mapping i).1 i l → Step s l i mapping
  unfolding trim_units
  trim_mapped held =
      let k = (unit_of mapping i).0 in
      let p = (unit_of mapping i).1 in
      let (sized, key_lt) = v.blocks_ok k held.block held.found in
      let (c, run, inv, c_valid) =
        invalidate-Invalidated {p = p} {i = i} sized.valid
          (omega (arith, held.page_lt, sized.pages)) (omega (arith, sized.units, v.units_le)) in
      record {
        blocks = Map.insert k c s.blocks;
        result = λ n. rw (in_mapping, ◌>>=◌, held.found, run);
        consistent =
            IsConsistent-ext (below l (i + 1)) (λ l' j. ground arith)
              (invalidated-away v l mapping mapped i hi k p held.block c refl refl held.found
                held.lpn inv c_valid);
        same = SameBlocks-insert s.blocks k held.block c held.found inv.same_nexts;
      }

  -- One round on a unit that is not mapped.
  trim_unmapped :
      IsUnmapped s (unit_of mapping i)
      → (n : ℕ) → trim_units (suc n) i s mapping ≡ panic block_not_in_use
  unfolding trim_units
  trim_unmapped u n = elim (Option-cases (find (unit_of mapping i).0 s.blocks)) [
    | inl e ↦ rw (in_mapping, ◌>>=◌, e)
    | inr (b, e) ↦ absurd (omega (arith, (v.blocks_ok (unit_of mapping i).0 b e).1, u.0))
  ]

  place : Holds s (unit_of mapping i).0 (unit_of mapping i).1 i l ⊎ IsUnmapped s (unit_of mapping i)
  place = v.forward l mapping i mapped hi (ground arith)

-- A unit that is not mapped, from `i` on, makes the loop panic.
trim_units_unmapped :
    (n i : ℕ) (s : PageMapping) (l j : ℕ) (mapping : List (ℕ × ℕ))
    → IsConsistent s (below l i)
    → find l s.table ≡ some mapping
    → i + n ≡ s.bitset_size
    → i ≤ j
    → j < s.bitset_size
    → IsUnmapped s (unit_of mapping j)
    → trim_units n i s mapping ≡ panic block_not_in_use
trim_units_unmapped zero i s l j mapping v mapped e le lt u = absurd (omega arith)
trim_units_unmapped (suc n) i s l j mapping v mapped e le lt u =
    let hi : i < s.bitset_size = omega arith in
    elim (place l mapping i v mapped hi) [
      | inr nowhere ↦ trim_unmapped l mapping i v mapped hi nowhere n
      | inl held ↦
          let one = trim_mapped l mapping i v mapped hi held in
          let later : suc i ≤ j = other_unit i j held u le in
          one.result n
          ∙ trim_units_unmapped n (i + 1) (record s { blocks = one.blocks }) l j mapping
              one.consistent mapped (omega arith) (omega arith) lt u
    ]
  where
    other_unit :
        (a b : ℕ)
        → Holds s (unit_of mapping a).0 (unit_of mapping a).1 a l
        → IsUnmapped s (unit_of mapping b)
        → a ≤ b
        → suc a ≤ b
    other_unit a b held u le = elim (ℕ_discrete a b) [
      | yes same ↦ absurd (ground (arith, v.blocks_ok (unit_of mapping a).0 held.block held.found))
      | no ne ↦ omega arith
    ]

-- With every unit from `i` on mapped, the loop detaches them all.
trim_units_mapped :
    (n i : ℕ) (s : PageMapping) (l : ℕ) (mapping : List (ℕ × ℕ))
    → IsConsistent s (below l i)
    → find l s.table ≡ some mapping
    → i + n ≡ s.bitset_size
    → ((j : ℕ) → i ≤ j → j < s.bitset_size → ¬ IsUnmapped s (unit_of mapping j))
    → (blocks : List (ℕ × Block)) × (trim_units n i s mapping ≡ ok (record s { blocks = blocks }))
      × IsConsistent (record s { blocks = blocks }) (below l s.bitset_size)
      × SameBlocks s.blocks blocks
unfolding trim_units
trim_units_mapped zero i s l mapping v mapped e all = (
  s.blocks,
  refl,
  IsConsistent-ext (below l s.bitset_size) (λ l' j. ground arith) v,
  SameBlocks-refl s.blocks,
)
trim_units_mapped (suc n) i s l mapping v mapped e all =
    let hi : i < s.bitset_size = omega arith in
    elim (place l mapping i v mapped hi) [
      | inr nowhere ↦ absurd (all i (omega arith) hi nowhere)
      | inl held ↦
          let one = trim_mapped l mapping i v mapped hi held in
          let (blocks, run, w, same) =
            trim_units_mapped n (i + 1) (record s { blocks = one.blocks }) l mapping one.consistent
              mapped (omega arith) (λ j le. all j (omega arith)) in
          (blocks, one.result n ∙ run, w, SameBlocks-trans one.same same)
    ]

-- With its units detached, a logical page can leave the table.
module _ {s : PageMapping} (l : ℕ) (v : IsConsistent s (below l s.bitset_size)) where
  abbrev forgotten : PageMapping
  forgotten = record s { table = Map.erase l s.table }

  table_after : (j : ℕ) → find j forgotten.table ≡ (if l == j then none else find j s.table)
  table_after j = find-erase l s.table j

  stays_put :
      {u : ℕ × ℕ} {i l' : ℕ}
      → Holds s u.0 u.1 i l' ⊎ IsUnmapped s u
      → Holds forgotten u.0 u.1 i l' ⊎ IsUnmapped s u
  stays_put (inl h) = inl (record {
    block = h.block;
    found = h.found;
    page_lt = h.page_lt;
    valid = h.valid;
    lpn = h.lpn;
  })
  stays_put (inr u) = inr u

  forgotten-IsConsistent : IsConsistent forgotten (λ l i. false)
  forgotten-IsConsistent = record {
    blocks_ok = v.blocks_ok;
    table_ok = λ l' m e. ground (arith, table_after l', v.table_ok l' m);
    units_le = v.units_le;
    forward = λ l' m i e hi _.
        stays_put
          (v.forward l' m i (ground (arith, table_after l')) hi (ground (arith, table_after l')));
    backward = λ k b p i e hp hi valid.
        let (here, m, at_x, is_k, is_p) = v.backward k b p i e hp hi valid in
        (refl, m, ground (arith, table_after (lpn_at b p i)), is_k, is_p);
  }

-- A trim that returned: the logical page is gone from the table and from every valid unit, the other
-- pages stay, and the invariant holds.
pub record Trimmed {D : Type 0} (s : PageMapping) (l : ℕ) (r : Result (PageMapping × Clock D))
    : Type 0 where
  pub next : PageMapping
  pub clock : Clock D
  pub result : r ≡ ok (next, clock)
  pub valid : IsValid next
  pub gone : find l next.table ≡ none
  pub nowhere : (k p i : ℕ) → i < s.bitset_size → ¬ Holds next k p i l
  pub others : (l' : ℕ) → l' ≢ l → find l' next.table ≡ find l' s.table

-- In a state of the invariant no valid unit holds a page that is not in the table.
nothing_left :
    {s : PageMapping} (l : ℕ)
    → IsConsistent s (λ l i. false)
    → find l s.table ≡ none
    → (k p i : ℕ) → i < s.bitset_size
    → ¬ Holds s k p i l
nothing_left l v missing k p i hi held =
    let (_, m, at_m, _, _) = v.backward k held.block p i held.found held.page_lt hi held.valid in
    ground (arith, held.lpn)

module _ {D : Type 0} (hw : Hardware D) {s : PageMapping} (req : Request) (c : Clock D)
    (v : IsValid s) where
  starts_below : IsConsistent s (below req.lpn 0)
  starts_below = IsConsistent-ext (below req.lpn 0) (λ l i. ground arith) v.consistent

  -- In a state of the invariant, trimInternal() of a logical page whose units are all mapped, or of
  -- one not in the table, returns; the page is gone from the table and from every valid unit, the
  -- other pages stay in the table as they were, and the invariant holds.
  pub trim_internal-Trimmed :
      ((mapping : List (ℕ × ℕ)) (i : ℕ)
        → find req.lpn s.table ≡ some mapping
        → i < s.bitset_size
        → ¬ IsUnmapped s (unit_of mapping i))
      → Trimmed s req.lpn (trim_internal hw s req c)
  unfolding trim_internal
  trim_internal-Trimmed all = elim (Option-cases (find req.lpn s.table)) [
    | inl e ↦ record {
      next = s;
      clock = c;
      result = rw (e, trim_internal);
      valid = v;
      gone = e;
      nowhere = nothing_left req.lpn v.consistent e;
      others = λ l' ne. refl;
    }
    | inr (mapping, e) ↦
        let (blocks, run, w, same) =
          trim_units_mapped s.bitset_size 0 s req.lpn mapping starts_below e (omega arith)
            (λ j _ lt. all mapping j e lt) in
        let next = record s { blocks = blocks; table = Map.erase req.lpn s.table } in
        let whole : IsConsistent next (λ l i. false) = forgotten-IsConsistent req.lpn w in
        let gone : find req.lpn next.table ≡ none =
          ground (arith, find-erase req.lpn s.table req.lpn) in
        record {
          next = next;
          clock = hw.apply_latency trim_internal_cost (hw.dram_read req.lpn (entry_bytes s req) c);
          result = rw (e, trim_internal, run);
          valid = record {
            consistent = whole;
            allocated = IsAllocated-blocks blocks next.table (same_keys same) v.allocated;
          };
          gone = gone;
          nowhere = nothing_left req.lpn whole gone;
          others = λ l' ne. ground (arith, find-erase req.lpn s.table l');
        }
  ]

  -- In a state of the invariant, trimInternal() of a logical page in the table with a unit that is
  -- not mapped panics.
  pub trim_internal_unmapped :
      (mapping : List (ℕ × ℕ)) (i : ℕ)
      → find req.lpn s.table ≡ some mapping
      → i < s.bitset_size
      → IsUnmapped s (unit_of mapping i)
      → trim_internal hw s req c ≡ panic block_not_in_use
  unfolding trim_internal
  trim_internal_unmapped mapping i e hi u = rw (
    e,
    trim_internal,
    trim_units_unmapped s.bitset_size 0 s req.lpn i mapping starts_below e (omega arith)
        (omega arith) hi u,
  )
