-- ===== src/Ftl/Block/Clear.antt =====
-- ftl/common/block.cc: invalidate() and erase().
use simple_ssd.Base.{
  ℕ, ◌+◌, ◌%◌, ◌^◌, ◌<◌, ◌≡◌, ◌∙◌, sym, inl, inr, refl, true, false, not, ◌&&◌, arith, ◌==◌, length,
  get_or, set, get_or-set, length-set, keeps_set, get_or-map, length-map, Bool-cases, replicate,
  get_or-replicate_self, length-replicate,
}
use simple_ssd.Base.Result.{ok, at-eq-get_or}
use simple_ssd.Util.Bitset
use simple_ssd.Util.Bitset.{Bitset}
use simple_ssd.Util.Bitset.Access.{test-reset_at, reset_at-IsValid, data_size-reset_at}
use simple_ssd.Util.Bitset.Whole.{
  test-set_all, test-reset_all, set_all-IsValid, reset_all-IsValid, data_size-set_all,
  data_size-reset_all,
}
use simple_ssd.Ftl.Block.{Block, no_bits, next_write_page_index_at, invalidate, erase}
use simple_ssd.Ftl.Block.View.{valid_at, erased_at, lpn_at, IsSingle, IsMulti, IsShaped, IsValid}
use simple_ssd.Ftl.Block.Write.{same_unit}

-- What invalidate() does: the unit is no longer valid, and nothing else changes.
pub record Invalidated (b : Block) (p i : ℕ) (c : Block) : Type 0 where
  pub shaped : IsShaped c
  pub same_pages : c.page_count ≡ b.page_count
  pub same_units : c.io_unit_in_page ≡ b.io_unit_in_page
  pub same_nexts : c.p_next_write_page_index ≡ b.p_next_write_page_index
  pub valid :
      (q j : ℕ)
      → q < b.page_count
      → j < b.io_unit_in_page
      → valid_at c q j ≡ (not (same_unit p i q j) && valid_at b q j)
  pub erased : (q j : ℕ) → erased_at c q j ≡ erased_at b q j
  pub lpns : (q j : ℕ) → lpn_at c q j ≡ lpn_at b q j

module _ {b : Block} {p i : ℕ} (hp : p < b.page_count) (hi : i < b.io_unit_in_page) where
  invalidate_single :
      (b.io_unit_in_page ≡ 1)
      → IsSingle b
      → (c : Block) × (invalidate b p i ≡ ok c) × Invalidated b p i c
  unfolding invalidate valid_at erased_at lpn_at
  invalidate_single one s =
      let hv : p < b.p_valid_bits.data_size = omega (arith, s.valid_size) in
      (
        record b { p_valid_bits = Bitset.reset_at b.p_valid_bits p },
        ground arith,
        record {
          shaped = inl (
            one,
            record {
              valid_ok = reset_at-IsValid s.valid_ok p hv;
              erased_ok = s.erased_ok;
              valid_size = data_size-reset_at s.valid_ok p hv ∙ s.valid_size;
              erased_size = s.erased_size;
              lpns_length = s.lpns_length;
            },
          );
          same_pages = refl;
          same_units = refl;
          same_nexts = refl;
          valid = λ q j hq hj. ground (arith, test-reset_at s.valid_ok p hv q);
          erased = λ q j. refl;
          lpns = λ q j. refl;
        },
      )

  invalidate_multi :
      (1 < b.io_unit_in_page)
      → IsMulti b
      → (c : Block) × (invalidate b p i ≡ ok c) × Invalidated b p i c
  unfolding invalidate valid_at erased_at lpn_at
  invalidate_multi many s =
      let v = get_or b.valid_bits p no_bits in
      let hv : i < v.data_size = omega (arith, s.valid_size p hp) in
      let inside : p < length b.valid_bits = omega (arith, s.valid_length) in
      let set_v = λ (q : ℕ). get_or-set b.valid_bits p q (Bitset.reset_at v i) no_bits inside in
      (
        record b { valid_bits = set b.valid_bits p (Bitset.reset_at v i) },
        ground (arith, at-eq-get_or b.valid_bits p no_bits inside),
        record {
          shaped = inr (
            many,
            record {
              valid_length = length-set b.valid_bits p (Bitset.reset_at v i) ∙ s.valid_length;
              erased_length = s.erased_length;
              lpns_length = s.lpns_length;
              valid_ok =
                  keeps_set Bitset.IsValid b.valid_bits p b.page_count (Bitset.reset_at v i) no_bits
                    inside (reset_at-IsValid (s.valid_ok p hp) i hv) s.valid_ok;
              erased_ok = s.erased_ok;
              valid_size = λ q hq. ground (
                arith,
                set_v q,
                s.valid_size q hq,
                data_size-reset_at (s.valid_ok p hp) i hv,
                s.valid_size p hp,
              );
              erased_size = s.erased_size;
              units_length = s.units_length;
            },
          );
          same_pages = refl;
          same_units = refl;
          same_nexts = refl;
          valid = λ q j hq hj. ground (arith, set_v q, test-reset_at (s.valid_ok p hp) i hv j);
          erased = λ q j. refl;
          lpns = λ q j. refl;
        },
      )

  invalidate_unit : IsShaped b → (c : Block) × (invalidate b p i ≡ ok c) × Invalidated b p i c
  invalidate_unit (inl (one, s)) = invalidate_single one s
  invalidate_unit (inr (many, s)) = invalidate_multi many s

invalidated-IsValid : {b c : Block} {p i : ℕ} → IsValid b → Invalidated b p i c → IsValid c
invalidated-IsValid {b} {c} {p} {i} v s = record {
  shaped = s.shaped;
  small = omega (arith, v.small, s.same_pages);
  nexts_length = ground (arith, v.nexts_length, s.same_nexts, s.same_units);
  next_le = λ j hj. ground (arith, v.next_le j, s.same_nexts, s.same_pages, s.same_units);
  ahead_erased = λ q j hq hj le.
      ground (arith, s.erased q j, v.ahead_erased q j, s.same_nexts, s.same_pages, s.same_units);
  ahead_invalid = λ q j hq hj le.
      ground (arith, s.valid q j, v.ahead_invalid q j, s.same_nexts, s.same_pages, s.same_units);
  valid_written = λ q j hq hj.
      ground (arith, s.valid q j, s.erased q j, v.valid_written q j, s.same_pages, s.same_units);
}

-- On a unit of a valid block, invalidate() returns, clears the unit's valid bit, leaves every other
-- bit, LPN and next page, and keeps the block valid.
pub invalidate-Invalidated :
    {b : Block} {p i : ℕ}
    → IsValid b
    → p < b.page_count
    → i < b.io_unit_in_page
    → (c : Block) × (invalidate b p i ≡ ok c) × Invalidated b p i c × IsValid c
invalidate-Invalidated v hp hi =
    let (c, run, s) = invalidate_unit hp hi v.shaped in (c, run, s, invalidated-IsValid v s)

-- What erase() does: every unit is erased and none is valid, and writing starts over at page 0.
pub record Erased (b c : Block) : Type 0 where
  pub valid_block : IsValid c
  pub same_index : c.idx ≡ b.idx
  pub same_pages : c.page_count ≡ b.page_count
  pub same_units : c.io_unit_in_page ≡ b.io_unit_in_page
  pub valid : (p i : ℕ) → p < b.page_count → i < b.io_unit_in_page → valid_at c p i ≡ false
  pub erased : (p i : ℕ) → p < b.page_count → i < b.io_unit_in_page → erased_at c p i ≡ true
  pub nexts : (i : ℕ) → next_write_page_index_at c i ≡ 0
  pub counted : c.erase_count ≡ (b.erase_count + 1) % 2 ^ 32

erase-IsShaped : (b : Block) → 0 < b.page_count → IsShaped b → IsShaped (erase b)
unfolding erase
erase-IsShaped b pos (inl (one, s)) =
    let e : (b.io_unit_in_page == 1) ≡ true = ground arith in
    rw e (
      inl (
        one,
        record {
          valid_ok = reset_all-IsValid s.valid_ok;
          erased_ok = set_all-IsValid s.erased_ok (omega (arith, s.erased_size));
          valid_size = data_size-reset_all b.p_valid_bits ∙ s.valid_size;
          erased_size = data_size-set_all b.p_erased_bits ∙ s.erased_size;
          lpns_length = s.lpns_length;
        },
      ))
erase-IsShaped b pos (inr (many, s)) =
    let e : (b.io_unit_in_page == 1) ≡ false = ground arith in
    let vs = λ (p : ℕ) (h : p < b.page_count).
      get_or-map Bitset.reset_all b.valid_bits no_bits p (omega (arith, s.valid_length)) in
    let es = λ (p : ℕ) (h : p < b.page_count).
      get_or-map Bitset.set_all b.erased_bits no_bits p (omega (arith, s.erased_length)) in
    rw e (
      inr (
        many,
        record {
          valid_length = length-map b.valid_bits Bitset.reset_all ∙ s.valid_length;
          erased_length = length-map b.erased_bits Bitset.set_all ∙ s.erased_length;
          lpns_length = s.lpns_length;
          valid_ok = λ p h. rw (vs p h) (reset_all-IsValid (s.valid_ok p h));
          erased_ok = λ p h.
              rw (es p h) (set_all-IsValid (s.erased_ok p h) (omega (arith, s.erased_size p h)));
          valid_size = λ p h.
              rw (vs p h) (data_size-reset_all (get_or b.valid_bits p no_bits) ∙ s.valid_size p h);
          erased_size = λ p h.
              rw (es p h) (data_size-set_all (get_or b.erased_bits p no_bits) ∙ s.erased_size p h);
          units_length = s.units_length;
        },
      ))

module _ {b : Block} (pos : 0 < b.page_count) {p i : ℕ} (hp : p < b.page_count)
    (hi : i < b.io_unit_in_page) where
  valid_at-erase : IsShaped b → valid_at (erase b) p i ≡ false
  unfolding erase valid_at
  valid_at-erase (inl (one, s)) = ground (arith, test-reset_all s.valid_ok p)
  valid_at-erase (inr (many, s)) = ground (
    arith,
    get_or-map Bitset.reset_all b.valid_bits no_bits p (omega (arith, s.valid_length)),
    test-reset_all (s.valid_ok p hp) i,
  )

  erased_at-erase : IsShaped b → erased_at (erase b) p i ≡ true
  unfolding erase erased_at
  erased_at-erase (inl (one, s)) =
      ground (arith, s.erased_size, test-set_all s.erased_ok (omega (arith, s.erased_size)) p)
  erased_at-erase (inr (many, s)) = ground (
    arith,
    s.erased_size p hp,
    get_or-map Bitset.set_all b.erased_bits no_bits p (omega (arith, s.erased_length)),
    test-set_all (s.erased_ok p hp) (omega (arith, s.erased_size p hp)) i,
  )

pub erase_counts :
    (b : Block)
    → ((erase b).idx ≡ b.idx)
      × ((erase b).page_count ≡ b.page_count)
      × ((erase b).io_unit_in_page ≡ b.io_unit_in_page)
      × ((erase b).p_next_write_page_index ≡ replicate b.io_unit_in_page 0)
      × ((erase b).erase_count ≡ (b.erase_count + 1) % 2 ^ 32)
unfolding erase
erase_counts b = elim (Bool-cases (b.io_unit_in_page == 1)) [
  | inl e ↦ rw e (refl, refl, refl, refl, refl)
  | inr e ↦ rw e (refl, refl, refl, refl, refl)
]

pub next-erase : (b : Block) (i : ℕ) → next_write_page_index_at (erase b) i ≡ 0
next-erase b i = rw (erase_counts b).3 (get_or-replicate_self {A = ℕ} b.io_unit_in_page i 0)

-- erase() sets up the invariant by itself, whatever the bits were.
pub erase_shaped-IsValid :
    {b : Block} → 0 < b.page_count → b.page_count < 2 ^ 32 → IsShaped b → IsValid (erase b)
erase_shaped-IsValid {b} pos small shaped =
    let (_, pages, units, nexts, _) = erase_counts b in
    record {
      shaped = erase-IsShaped b pos shaped;
      small = omega (arith, pages);
      nexts_length = rw nexts (length-replicate b.io_unit_in_page 0 ∙ sym units);
      next_le = λ i h. omega (arith, next-erase b i);
      ahead_erased =
          λ p i hp hi _. erased_at-erase pos (omega (arith, pages)) (omega (arith, units)) shaped;
      ahead_invalid =
          λ p i hp hi _. valid_at-erase pos (omega (arith, pages)) (omega (arith, units)) shaped;
      valid_written = λ p i hp hi e. ground (
        arith,
        valid_at-erase pos {p = p} {i = i} (omega (arith, pages)) (omega (arith, units)) shaped,
      );
    }

-- On a valid block with pages, erase() leaves every unit erased and none valid, sets the next page
-- of each unit to 0, adds one to the erase count modulo 2 ^ 32, and keeps the block valid.
pub erase-Erased : {b : Block} → 0 < b.page_count → IsValid b → Erased b (erase b)
erase-Erased {b} pos v =
    let (same_idx, pages, units, nexts, counted) = erase_counts b in
    record {
      valid_block = erase_shaped-IsValid pos v.small v.shaped;
      same_index = same_idx;
      same_pages = pages;
      same_units = units;
      valid = λ p i hp hi. valid_at-erase pos hp hi v.shaped;
      erased = λ p i hp hi. erased_at-erase pos hp hi v.shaped;
      nexts = next-erase b;
      counted = counted;
    }
