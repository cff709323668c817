-- ===== src/Ftl/PageMapping/Attach.antt =====
-- ftl/page_mapping.cc: a detached unit is written to the open block, and the mapping points there.
use simple_ssd.Base.{
  ℕ, ◌<◌, ◌≡◌, ◌≢◌, ◌∙◌, sym, ◌⊎◌, inl, inr, Bool, true, false, not, ◌&&◌, List, some, arith, ◌==◌,
  if◌then◌else◌, set, get_or-set, length-set, ℕ_discrete, Bool-cases,
}
use simple_ssd.Base.Map
use simple_ssd.Base.Map.{find, find-insert}
use simple_ssd.Ftl.Block.{Block}
use simple_ssd.Ftl.Block.View.{valid_at, lpn_at}
use simple_ssd.Ftl.Block.Write.{Written, same_unit}
use simple_ssd.Ftl.PageMapping.State.{PageMapping}
use simple_ssd.Ftl.PageMapping.Consistent.{IsConsistent, Holds, unit_of, IsUnmapped}

-- All but unit `i` of `l`, which is back.
abbrev pub but_away : (ℕ → ℕ → Bool) → ℕ → ℕ → ℕ → ℕ → Bool
but_away away l i l' i' = not (same_unit l i l' i') && away l' i'

module _ {s : PageMapping} {away : ℕ → ℕ → Bool} (v : IsConsistent s away) (l : ℕ)
    (mapping : List (ℕ × ℕ)) (mapped : find l s.table ≡ some mapping) (i : ℕ)
    (hi : i < s.bitset_size) (gone : away l i ≡ true) (key p tick : ℕ) (b c : Block)
    (found : find key s.blocks ≡ some b) (hp : p < s.param.pages_in_block)
    (unused : valid_at b p i ≡ false) (w : Written b p l i tick c) where
  abbrev pub attached : PageMapping
  attached = record s {
    blocks = Map.insert key c s.blocks;
    table = Map.insert l (set mapping i (key, p)) s.table;
  }

  pub blocks_after :
      (j : ℕ) → find j attached.blocks ≡ (if key == j then some c else find j s.blocks)
  blocks_after j = find-insert key c s.blocks j

  pub table_after :
      (j : ℕ)
      → find j attached.table ≡ (if l == j then some (set mapping i (key, p)) else find j s.table)
  table_after j = find-insert l (set mapping i (key, p)) s.table j

  pub unit_after :
      (j : ℕ)
      → unit_of (set mapping i (key, p)) j ≡ (if i == j then (key, p) else unit_of mapping j)
  unit_after j = get_or-set mapping i j (key, p) (0, 0) (omega (arith, v.table_ok l mapping mapped))

  new_held : Holds attached key p i l
  new_held =
      let sized = (v.blocks_ok key b found).0 in
      let in_units : i < b.io_unit_in_page = omega (arith, sized.units, v.units_le) in
      let in_pages : p < b.page_count = omega (arith, sized.pages) in
      record {
        block = c;
        found = ground (arith, blocks_after key);
        page_lt = hp;
        valid = ground (arith, w.valid p i in_pages in_units);
        lpn = ground (arith, w.lpns p i in_pages in_units);
      }

  keep_held :
      {k' p' i' l' : ℕ} → i' < s.bitset_size → Holds s k' p' i' l' → Holds attached k' p' i' l'
  keep_held {k'} {p'} {i'} {l'} hi' held = elim (ℕ_discrete k' key) [
    | yes e ↦
        let sized = (v.blocks_ok key b found).0 in
        let same_block : held.block ≡ b = ground (arith, held.found) in
        let in_units : i' < b.io_unit_in_page = omega (arith, sized.units, v.units_le) in
        let in_pages : p' < b.page_count = omega (arith, sized.pages, held.page_lt) in
        let was : valid_at b p' i' ≡ true = ground (arith, held.valid) in
        record {
          block = c;
          found = ground (arith, blocks_after k');
          page_lt = held.page_lt;
          valid = ground (arith, w.valid p' i' in_pages in_units);
          lpn = ground (arith, held.lpn, w.lpns p' i' in_pages in_units);
        }
    | no ne ↦ record {
      block = held.block;
      found = ground (arith, held.found, blocks_after k');
      page_lt = held.page_lt;
      valid = held.valid;
      lpn = held.lpn;
    }
  ]

  -- Where a logical page was, it still is, but for the unit that was written.
  carry :
      (x i' k' p' : ℕ) (m : List (ℕ × ℕ))
      → away x i' ≡ false
      → find x s.table ≡ some m
      → (unit_of m i').0 ≡ k'
      → (unit_of m i').1 ≡ p'
      → (but_away away l i x i' ≡ false)
        × (m' : List (ℕ × ℕ)) × (find x attached.table ≡ some m')
        × ((unit_of m' i').0 ≡ k')
        × ((unit_of m' i').1 ≡ p')
  carry x i' k' p' m here at_x is_k is_p = elim (ℕ_discrete x l) [
    | yes e ↦
        let same_mapping : m ≡ mapping = ground arith in
        let other : i ≢ i' = λ ei. ground arith in
        (
          ground arith,
          set mapping i (key, p),
          ground (arith, table_after x),
          ground (arith, unit_after i'),
          ground (arith, unit_after i'),
        )
    | no ne ↦ (ground arith, m, ground (arith, table_after x), is_k, is_p)
  ]

  Place : ℕ × ℕ → ℕ → ℕ → Type 0
  Place u i' l' = Holds attached u.0 u.1 i' l' ⊎ IsUnmapped attached u

  stays_put :
      (u : ℕ × ℕ) (i' l' : ℕ)
      → i' < s.bitset_size
      → Holds s u.0 u.1 i' l' ⊎ IsUnmapped s u
      → Place u i' l'
  unfolding Place
  stays_put u i' l' hi' (inl held) = inl (keep_held hi' held)
  stays_put u i' l' hi' (inr nowhere) = inr nowhere

  forward_after :
      (l' : ℕ) (m : List (ℕ × ℕ)) (i' : ℕ)
      → find l' attached.table ≡ some m
      → i' < s.bitset_size
      → but_away away l i l' i' ≡ false
      → Place (unit_of m i') i' l'
  unfolding Place
  forward_after l' m i' e hi' h = elim (ℕ_discrete l' l) [
    | yes el ↦
        let m_is : m ≡ set mapping i (key, p) = ground (arith, table_after l') in
        elim (ℕ_discrete i' i) [
          | yes ei ↦
              let here : unit_of m i' ≡ (key, p) = ground (arith, unit_after i') in
              rw (here, el, ei) (inl new_held)
          | no ni ↦
              let there : unit_of m i' ≡ unit_of mapping i' = ground (arith, unit_after i') in
              rw (there, el)
                (stays_put (unit_of mapping i') i' l hi'
                  (v.forward l mapping i' mapped hi' (ground arith)))
        ]
    | no ne ↦
        stays_put (unit_of m i') i' l' hi'
          (v.forward l' m i' (ground (arith, table_after l')) hi' (ground arith))
  ]

  pub attached-IsConsistent : IsConsistent attached (but_away away l i)
  unfolding Place
  attached-IsConsistent = record {
    blocks_ok = λ j b' e. ground (
      arith,
      blocks_after j,
      v.blocks_ok j b',
      v.blocks_ok key b found,
      w.same_pages,
      w.same_units,
      w.valid_block,
    );
    table_ok = λ l' m e. ground (
      arith,
      table_after l',
      v.table_ok l' m,
      v.table_ok l mapping mapped,
      length-set mapping i (key, p),
    );
    units_le = v.units_le;
    forward = forward_after;
    backward = λ k' b' p' i' e hp' hi' valid. elim (ℕ_discrete k' key) [
      | yes ek ↦
          let sized = (v.blocks_ok key b found).0 in
          let in_units : i' < b.io_unit_in_page = omega (arith, sized.units, v.units_le) in
          let in_pages : p' < b.page_count = omega (arith, sized.pages) in
          let is_c : b' ≡ c = ground (arith, blocks_after k') in
          elim (Bool-cases (same_unit p i p' i')) [
            | inl same ↦
                let holds_l : lpn_at b' p' i' ≡ l =
                  ground (arith, w.lpns p' i' in_pages in_units) in
                (
                  ground arith,
                  set mapping i (key, p),
                  ground (arith, table_after l),
                  ground (arith, unit_after i'),
                  ground (arith, unit_after i'),
                )
            | inr other ↦
                let was : valid_at b p' i' ≡ true =
                  ground (arith, w.valid p' i' in_pages in_units) in
                let same_lpn : lpn_at b' p' i' ≡ lpn_at b p' i' =
                  ground (arith, w.lpns p' i' in_pages in_units) in
                let (here, m, at_x, is_k, is_p) = v.backward key b p' i' found hp' hi' was in
                rw same_lpn (carry (lpn_at b p' i') i' k' p' m here at_x (is_k ∙ sym ek) is_p)
          ]
      | no ne ↦
          let old : find k' s.blocks ≡ some b' = ground (arith, blocks_after k') in
          let (here, m, at_x, is_k, is_p) = v.backward k' b' p' i' old hp' hi' valid in
          carry (lpn_at b' p' i') i' k' p' m here at_x is_k is_p
    ];
  }
