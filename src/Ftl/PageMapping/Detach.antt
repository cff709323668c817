-- ===== src/Ftl/PageMapping/Detach.antt =====
-- ftl/page_mapping.cc: the first loop of writeInternal(), which invalidates the old units.
use simple_ssd.Base.{
  ℕ, zero, suc, ◌+◌, ◌<◌, ◌≡◌, ◌≢◌, ◌∙◌, ◌⊎◌, inl, inr, refl, Bool, true, false, ◌&&◌, List, none,
  some, arith, ltb, ◌==◌, if◌then◌else◌, ℕ_discrete, Bool-cases, Option-cases, subst, fun_ext,
  replicate, get_or-replicate, length-replicate,
}
use simple_ssd.Base.Result.{Result, ok, at, at-eq-get_or}
use simple_ssd.Base.Map
use simple_ssd.Base.Map.{find, find-insert}
use simple_ssd.Util.Bitset.{Bitset}
use simple_ssd.Ftl.Block.{Block}
use simple_ssd.Ftl.Block.View.{lpn_at}
use simple_ssd.Ftl.Block.Clear.{invalidate-Invalidated}
use simple_ssd.Ftl.PageMapping.State.{PageMapping, Request}
use simple_ssd.Ftl.PageMapping.Access.{selected, detach_unit, detach_units, detach}
use simple_ssd.Ftl.PageMapping.Consistent.{
  IsConsistent, Holds, unit_of, IsUnmapped, and_away, unmapped-away, invalidated-away,
}

pub IsConsistent-ext :
    {s : PageMapping} {away : ℕ → ℕ → Bool} (away' : ℕ → ℕ → Bool)
    → ((l i : ℕ) → away l i ≡ away' l i)
    → IsConsistent s away
    → IsConsistent s away'
IsConsistent-ext {s} away' h v =
    subst (λ e. IsConsistent s e) (fun_ext (λ l. fun_ext (λ i. h l i))) v

-- The same blocks, in the same states of writing.
pub record SameBlocks (bs cs : List (ℕ × Block)) : Type 0 where
  pub absent : (k : ℕ) → find k bs ≡ none → find k cs ≡ none
  pub present :
      (k : ℕ) (b : Block)
      → find k bs ≡ some b
      → (c : Block) × (find k cs ≡ some c) × (c.p_next_write_page_index ≡ b.p_next_write_page_index)

pub SameBlocks-refl : (bs : List (ℕ × Block)) → SameBlocks bs bs
SameBlocks-refl bs = record { absent = λ k e. e; present = λ k b e. (b, e, refl) }

pub SameBlocks-trans :
    {bs cs ds : List (ℕ × Block)} → SameBlocks bs cs → SameBlocks cs ds → SameBlocks bs ds
SameBlocks-trans f g = record {
  absent = λ k e. g.absent k (f.absent k e);
  present = λ k b e.
      let (c, at_c, same_c) = f.present k b e in
      let (d, at_d, same_d) = g.present k c at_c in (d, at_d, same_d ∙ same_c);
}

pub SameBlocks-insert :
    (bs : List (ℕ × Block)) (k : ℕ) (b c : Block)
    → find k bs ≡ some b
    → c.p_next_write_page_index ≡ b.p_next_write_page_index
    → SameBlocks bs (Map.insert k c bs)
SameBlocks-insert bs k b c e same = record {
  absent = λ j h. ground (arith, find-insert k c bs j);
  present = λ j d h. elim (ℕ_discrete k j) [
    | yes p ↦ (c, ground (arith, find-insert k c bs j), ground arith)
    | no p ↦ (d, ground (arith, find-insert k c bs j), refl)
  ];
}

-- The units of `l` below `n` that the request writes.
abbrev pub done_below : PageMapping → Bitset → ℕ → ℕ → ℕ → ℕ → Bool
done_below s flag l n l' i = l == l' && (ltb i n && selected s flag i)

-- What a part of the loop makes of the state: other blocks, and the units detached.
pub record Detached (s : PageMapping) (away : ℕ → ℕ → Bool) (r : Result PageMapping) : Type 0 where
  pub blocks : List (ℕ × Block)
  pub result : r ≡ ok (record s { blocks = blocks })
  pub consistent : IsConsistent (record s { blocks = blocks }) away
  pub same : SameBlocks s.blocks blocks

module _ {s : PageMapping} (flag : Bitset) (l : ℕ) (mapping : List (ℕ × ℕ)) (i : ℕ)
    (v : IsConsistent s (done_below s flag l i)) (mapped : find l s.table ≡ some mapping)
    (hi : i < s.bitset_size) where
  in_mapping : at mapping i ≡ ok (unit_of mapping i)
  in_mapping = at-eq-get_or mapping i (0, 0) (omega (arith, v.table_ok l mapping mapped))

  skipped :
      selected s flag i ≡ false
      → Detached s (done_below s flag l (i + 1)) (detach_unit s flag mapping i)
  unfolding detach_unit
  skipped e = record {
    blocks = s.blocks;
    result = rw e;
    consistent = IsConsistent-ext (done_below s flag l (i + 1)) (λ l' j. ground arith) v;
    same = SameBlocks-refl s.blocks;
  }

  unit_done :
      selected s flag i ≡ true
      → (l' j : ℕ) → and_away (done_below s flag l i) l i l' j ≡ done_below s flag l (i + 1) l' j
  unit_done e l' j = ground arith

  nowhere :
      selected s flag i ≡ true
      → IsUnmapped s (unit_of mapping i)
      → Detached s (done_below s flag l (i + 1)) (detach_unit s flag mapping i)
  unfolding detach_unit
  nowhere e u = record {
    blocks = s.blocks;
    result = ground (arith, in_mapping);
    consistent =
        IsConsistent-ext (done_below s flag l (i + 1)) (unit_done e)
          (unmapped-away v l mapping mapped i hi u);
    same = SameBlocks-refl s.blocks;
  }

  somewhere :
      selected s flag i ≡ true
      → Holds s (unit_of mapping i).0 (unit_of mapping i).1 i l
      → Detached s (done_below s flag l (i + 1)) (detach_unit s flag mapping i)
  unfolding detach_unit
  somewhere e held =
      let k = (unit_of mapping i).0 in
      let p = (unit_of mapping i).1 in
      let (sized, key_lt) = v.blocks_ok k held.block held.found in
      let (c, run, inv, c_valid) =
        invalidate-Invalidated {p = p} {i = i} sized.valid
          (omega (arith, held.page_lt, sized.pages)) (omega (arith, sized.units, v.units_le)) in
      record {
        blocks = Map.insert k c s.blocks;
        result = ground (arith, in_mapping, held.found, run, key_lt, held.page_lt);
        consistent = IsConsistent-ext (done_below s flag l (i + 1)) (unit_done e) (
            invalidated-away v l mapping mapped i hi k p held.block c refl refl held.found held.lpn
              inv c_valid);
        same = SameBlocks-insert s.blocks k held.block c held.found inv.same_nexts;
      }

  not_yet : done_below s flag l i l i ≡ false
  not_yet = ground arith

  detach_unit-Detached : Detached s (done_below s flag l (i + 1)) (detach_unit s flag mapping i)
  detach_unit-Detached = elim (Bool-cases (selected s flag i)) [
    | inl e ↦ elim (v.forward l mapping i mapped hi not_yet) [
      | inl held ↦ somewhere e held
      | inr u ↦ nowhere e u
    ]
    | inr e ↦ skipped e
  ]

-- The loop detaches the selected units from `i` on.
detach_units-Detached :
    (n : ℕ) {s : PageMapping} (flag : Bitset) (l : ℕ) (mapping : List (ℕ × ℕ)) (i : ℕ)
    → IsConsistent s (done_below s flag l i)
    → find l s.table ≡ some mapping
    → i + n ≡ s.bitset_size
    → Detached s (done_below s flag l s.bitset_size) (detach_units n i s flag mapping)
unfolding detach_units
detach_units-Detached zero {s} flag l mapping i v mapped e =
    let ends : i ≡ s.bitset_size = omega arith in
    record {
      blocks = s.blocks;
      result = refl;
      consistent = IsConsistent-ext (done_below s flag l s.bitset_size) (λ l' j. ground arith) v;
      same = SameBlocks-refl s.blocks;
    }
detach_units-Detached (suc n) {s} flag l mapping i v mapped e =
    let one = detach_unit-Detached flag l mapping i v mapped (omega arith) in
    let rest = detach_units-Detached n flag l mapping (i + 1) one.consistent mapped (omega arith) in
    record {
      blocks = rest.blocks;
      result = rw one.result rest.result;
      consistent = rest.consistent;
      same = SameBlocks-trans one.same rest.same;
    }

-- What detach() makes of the state: the mapping of `l` is there, and its selected units are away.
pub record Ready (s : PageMapping) (flag : Bitset) (l : ℕ) (r : Result PageMapping) : Type 0 where
  pub blocks : List (ℕ × Block)
  pub table : List (ℕ × List (ℕ × ℕ))
  pub mapping : List (ℕ × ℕ)
  pub result : r ≡ ok (record s { blocks = blocks; table = table })
  pub consistent :
      IsConsistent (record s { blocks = blocks; table = table }) (done_below s flag l s.bitset_size)
  pub same : SameBlocks s.blocks blocks
  pub mapped : find l table ≡ some mapping
  pub others : (l' : ℕ) → l' ≢ l → find l' table ≡ find l' s.table
  pub was : (old : List (ℕ × ℕ)) → find l s.table ≡ some old → mapping ≡ old
  pub fresh : (i : ℕ) → i < s.bitset_size → find l s.table ≡ none → IsUnmapped s (unit_of mapping i)

-- A logical page without a mapping gets an empty one.
module _ {s : PageMapping} (flag : Bitset) (l : ℕ) (v : IsConsistent s (λ l i. false))
    (missing : find l s.table ≡ none) where
  abbrev unmapped : ℕ × ℕ
  unmapped = (s.param.total_physical_blocks, s.param.pages_in_block)

  abbrev fresh_mapping : List (ℕ × ℕ)
  fresh_mapping = replicate s.bitset_size unmapped

  abbrev fresh_table : List (ℕ × List (ℕ × ℕ))
  fresh_table = Map.insert l fresh_mapping s.table

  fresh_unit : (i : ℕ) → i < s.bitset_size → IsUnmapped s (unit_of fresh_mapping i)
  fresh_unit i hi = rw (get_or-replicate s.bitset_size i unmapped (0, 0) hi) (refl, refl)

  table_after :
      (j : ℕ) → find j fresh_table ≡ (if l == j then some fresh_mapping else find j s.table)
  table_after j = find-insert l fresh_mapping s.table j

  place_after :
      (l' : ℕ) (m : List (ℕ × ℕ)) (i : ℕ)
      → find l' fresh_table ≡ some m
      → i < s.bitset_size
      → Holds s (unit_of m i).0 (unit_of m i).1 i l' ⊎ IsUnmapped s (unit_of m i)
  place_after l' m i e hi = elim (ℕ_discrete l' l) [
    | yes el ↦
        let m_is : m ≡ fresh_mapping = ground (arith, table_after l') in
        let at_i : unit_of m i ≡ unmapped =
          rw m_is (get_or-replicate s.bitset_size i unmapped (0, 0) hi) in
        inr (rw at_i (refl, refl))
    | no ne ↦ v.forward l' m i (ground (arith, table_after l')) hi refl
  ]

  with_fresh : PageMapping
  with_fresh = record s { table = fresh_table }

  keep_held : {k p i l' : ℕ} → Holds s k p i l' → Holds with_fresh k p i l'
  unfolding with_fresh
  keep_held h = record {
    block = h.block;
    found = h.found;
    page_lt = h.page_lt;
    valid = h.valid;
    lpn = h.lpn;
  }

  fresh-IsConsistent : IsConsistent with_fresh (done_below s flag l s.bitset_size)
  unfolding with_fresh
  fresh-IsConsistent = record {
    blocks_ok = v.blocks_ok;
    table_ok = λ l' m e.
        ground (arith, table_after l', v.table_ok l' m, length-replicate s.bitset_size unmapped);
    units_le = v.units_le;
    forward = λ l' m i e hi h. elim (place_after l' m i e hi) [
      | inl held ↦ inl (keep_held held)
      | inr u ↦ inr u
    ];
    backward = λ k b p i e hp hi valid.
        let (_, m, at_x, is_k, is_p) = v.backward k b p i e hp hi valid in
        let other : l ≢ lpn_at b p i = λ eq. ground arith in
        (ground arith, m, ground (arith, table_after (lpn_at b p i)), is_k, is_p);
  }

pub detach-Ready :
    {s : PageMapping} (req : Request)
    → IsConsistent s (λ l i. false)
    → Ready s req.io_flag req.lpn (detach s req)
unfolding detach with_fresh
detach-Ready {s} req v = elim (Option-cases (find req.lpn s.table)) [
  | inl e ↦ record {
    blocks = s.blocks;
    table = fresh_table req.io_flag req.lpn v e;
    mapping = fresh_mapping req.io_flag req.lpn v e;
    result = rw (e, detach);
    consistent = fresh-IsConsistent req.io_flag req.lpn v e;
    same = SameBlocks-refl s.blocks;
    mapped = ground (arith, table_after req.io_flag req.lpn v e req.lpn);
    others = λ l' ne. ground (arith, table_after req.io_flag req.lpn v e l');
    was = λ old h. absurd (ground arith);
    fresh = λ i hi _. fresh_unit req.io_flag req.lpn v e i hi;
  }
  | inr (mapping, e) ↦
      let d =
        detach_units-Detached s.bitset_size req.io_flag req.lpn mapping 0
          (IsConsistent-ext (done_below s req.io_flag req.lpn 0) (λ l i. ground arith) v) e
          (omega arith) in
      record {
        blocks = d.blocks;
        table = s.table;
        mapping = mapping;
        result = rw (e, detach) d.result;
        consistent = d.consistent;
        same = d.same;
        mapped = e;
        others = λ l' ne. refl;
        was = λ old h. ground arith;
        fresh = λ i hi h. absurd (ground arith);
      }
]
