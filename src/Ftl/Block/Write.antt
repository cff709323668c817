-- ===== src/Ftl/Block/Write.antt =====
-- ftl/common/block.cc: write().
use simple_ssd.Base.{
  ℕ, ◌+◌, ◌%◌, ◌^◌, ◌≤◌, ◌<◌, ◌≡◌, ◌≢◌, ◌↔◌, ◌∙◌, sym, inl, inr, refl, Bool, true, false, not, ◌&&◌,
  ◌||◌, [], arith, ltb, ◌==◌, if◌then◌else◌, get_or, set, get_or-set, length-set, keeps_set,
  Bool-cases,
}
use simple_ssd.Base.Result.{Panic, ok, panic, at-eq-get_or, not_sequential, not_erased}
use simple_ssd.Util.Bitset
use simple_ssd.Util.Bitset.{Bitset}
use simple_ssd.Util.Bitset.Access.{
  test-set_at, test-reset_at, set_at-IsValid, reset_at-IsValid, data_size-set_at,
  data_size-reset_at,
}
use simple_ssd.Ftl.Block.{Block, no_bits, next_write_page_index_at, store_unit, write}
use simple_ssd.Ftl.Block.View.{
  valid_at, erased_at, lpn_at, IsSingle, IsMulti, IsShaped, IsValid, unit_bit_erased,
  counters-IsShaped,
}

-- Is this the unit that was named?
abbrev pub same_unit : ℕ → ℕ → ℕ → ℕ → Bool
same_unit p i q j = p == q && (i == j)

-- The units of `c` are those of `b`, but that unit `i` of page `p` holds `lpn`.
pub record Stored (b : Block) (p lpn i : ℕ) (c : Block) : Type 0 where
  pub shaped : IsShaped c
  pub same_pages : c.page_count ≡ b.page_count
  pub same_units : c.io_unit_in_page ≡ b.io_unit_in_page
  pub same_nexts : c.p_next_write_page_index ≡ b.p_next_write_page_index
  pub same_access : c.last_accessed ≡ b.last_accessed
  pub valid :
      (q j : ℕ)
      → q < b.page_count
      → j < b.io_unit_in_page
      → valid_at c q j ≡ (same_unit p i q j || valid_at b q j)
  pub erased :
      (q j : ℕ)
      → q < b.page_count
      → j < b.io_unit_in_page
      → erased_at c q j ≡ (not (same_unit p i q j) && erased_at b q j)
  pub lpns :
      (q j : ℕ)
      → q < b.page_count
      → j < b.io_unit_in_page
      → lpn_at c q j ≡ (if same_unit p i q j then lpn else lpn_at b q j)

module _ {b : Block} {p i : ℕ} (lpn : ℕ) (hp : p < b.page_count) (hi : i < b.io_unit_in_page) where
  store_single :
      (b.io_unit_in_page ≡ 1)
      → IsSingle b
      → (c : Block) × (store_unit b p lpn i ≡ ok c) × Stored b p lpn i c
  unfolding store_unit valid_at erased_at lpn_at
  store_single one s =
      let hv : p < b.p_valid_bits.data_size = omega (arith, s.valid_size) in
      let he : p < b.p_erased_bits.data_size = omega (arith, s.erased_size) in
      (
        record b {
          p_erased_bits = Bitset.reset_at b.p_erased_bits p;
          p_valid_bits = Bitset.set_at b.p_valid_bits p true;
          p_lpns = set b.p_lpns p lpn;
        },
        ground arith,
        record {
          shaped = inl (
            one,
            record {
              valid_ok = set_at-IsValid s.valid_ok p hv true;
              erased_ok = reset_at-IsValid s.erased_ok p he;
              valid_size = data_size-set_at s.valid_ok p hv true ∙ s.valid_size;
              erased_size = data_size-reset_at s.erased_ok p he ∙ s.erased_size;
              lpns_length = length-set b.p_lpns p lpn ∙ s.lpns_length;
            },
          );
          same_pages = refl;
          same_units = refl;
          same_nexts = refl;
          same_access = refl;
          valid = λ q j hq hj. ground (arith, test-set_at s.valid_ok p hv true q);
          erased = λ q j hq hj. ground (arith, test-reset_at s.erased_ok p he q);
          lpns = λ q j hq hj. ground (arith, s.lpns_length, get_or-set b.p_lpns p q lpn 0);
        },
      )

  store_multi :
      (1 < b.io_unit_in_page)
      → IsMulti b
      → (c : Block) × (store_unit b p lpn i ≡ ok c) × Stored b p lpn i c
  unfolding store_unit valid_at erased_at lpn_at
  store_multi many s =
      let v = get_or b.valid_bits p no_bits in
      let e = get_or b.erased_bits p no_bits in
      let us = get_or b.pp_lpns p [] in
      let hv : i < v.data_size = omega (arith, s.valid_size p hp) in
      let he : i < e.data_size = omega (arith, s.erased_size p hp) in
      let set_v = λ (q : ℕ).
        get_or-set b.valid_bits p q (Bitset.set_at v i true) no_bits
          (omega (arith, s.valid_length)) in
      let set_e = λ (q : ℕ).
        get_or-set b.erased_bits p q (Bitset.reset_at e i) no_bits
          (omega (arith, s.erased_length)) in
      let set_u =
        λ (q : ℕ). get_or-set b.pp_lpns p q (set us i lpn) [] (omega (arith, s.lpns_length)) in
      (
        record b {
          erased_bits = set b.erased_bits p (Bitset.reset_at e i);
          valid_bits = set b.valid_bits p (Bitset.set_at v i true);
          pp_lpns = set b.pp_lpns p (set us i lpn);
        },
        ground (
          arith,
          at-eq-get_or b.erased_bits p no_bits (omega (arith, s.erased_length)),
          at-eq-get_or b.valid_bits p no_bits (omega (arith, s.valid_length)),
        ),
        record {
          shaped = inr (
            many,
            record {
              valid_length = length-set b.valid_bits p (Bitset.set_at v i true) ∙ s.valid_length;
              erased_length = length-set b.erased_bits p (Bitset.reset_at e i) ∙ s.erased_length;
              lpns_length = length-set b.pp_lpns p (set us i lpn) ∙ s.lpns_length;
              valid_ok =
                  keeps_set Bitset.IsValid b.valid_bits p b.page_count (Bitset.set_at v i true)
                    no_bits (omega (arith, s.valid_length))
                    (set_at-IsValid (s.valid_ok p hp) i hv true) s.valid_ok;
              erased_ok =
                  keeps_set Bitset.IsValid b.erased_bits p b.page_count (Bitset.reset_at e i)
                    no_bits (omega (arith, s.erased_length))
                    (reset_at-IsValid (s.erased_ok p hp) i he) s.erased_ok;
              valid_size = λ q hq. ground (
                arith,
                set_v q,
                s.valid_size q hq,
                data_size-set_at (s.valid_ok p hp) i hv true,
                s.valid_size p hp,
              );
              erased_size = λ q hq. ground (
                arith,
                set_e q,
                s.erased_size q hq,
                data_size-reset_at (s.erased_ok p hp) i he,
                s.erased_size p hp,
              );
              units_length = λ q hq.
                  ground
                    (arith, set_u q, s.units_length q hq, s.units_length p hp, length-set us i lpn);
            },
          );
          same_pages = refl;
          same_units = refl;
          same_nexts = refl;
          same_access = refl;
          valid = λ q j hq hj. ground (arith, set_v q, test-set_at (s.valid_ok p hp) i hv true j);
          erased = λ q j hq hj. ground (arith, set_e q, test-reset_at (s.erased_ok p hp) i he j);
          lpns = λ q j hq hj. ground (arith, set_u q, s.units_length p hp, get_or-set us i j lpn 0);
        },
      )

  store_unit-Stored : IsShaped b → (c : Block) × (store_unit b p lpn i ≡ ok c) × Stored b p lpn i c
  store_unit-Stored (inl (one, s)) = store_single one s
  store_unit-Stored (inr (many, s)) = store_multi many s

-- What write() does: it stores the unit, moves the unit's next page past it, and notes the time.
pub record Written (b : Block) (p lpn i tick : ℕ) (c : Block) : Type 0 where
  pub valid_block : IsValid c
  pub same_pages : c.page_count ≡ b.page_count
  pub same_units : c.io_unit_in_page ≡ b.io_unit_in_page
  pub valid :
      (q j : ℕ)
      → q < b.page_count
      → j < b.io_unit_in_page
      → valid_at c q j ≡ (same_unit p i q j || valid_at b q j)
  pub erased :
      (q j : ℕ)
      → q < b.page_count
      → j < b.io_unit_in_page
      → erased_at c q j ≡ (not (same_unit p i q j) && erased_at b q j)
  pub lpns :
      (q j : ℕ)
      → q < b.page_count
      → j < b.io_unit_in_page
      → lpn_at c q j ≡ (if same_unit p i q j then lpn else lpn_at b q j)
  pub nexts :
      (j : ℕ)
      → next_write_page_index_at c j ≡ (if i == j then p + 1 else next_write_page_index_at b j)
  pub accessed : c.last_accessed ≡ tick

panic-ne-ok {ℓ} : {A : Type ℓ} (e : Panic) (a : A) → panic e ≢ ok a
panic-ne-ok e a h = cc

module _ {b : Block} (v : IsValid b) {p i : ℕ} (hp : p < b.page_count)
    (hi : i < b.io_unit_in_page) where
  advance :
      (lpn tick : ℕ)
      → next_write_page_index_at b i ≤ p
      → (c : Block) → Stored (record b { last_accessed = tick }) p lpn i c
      → Written b p lpn i tick (record c {
        p_next_write_page_index = set c.p_next_write_page_index i ((p + 1) % 2 ^ 32);
      })
  unfolding valid_at erased_at lpn_at
  advance lpn tick le c s =
      let nexts = λ (j : ℕ).
        get_or-set b.p_next_write_page_index i j (p + 1) 0 (omega (arith, v.nexts_length)) in
      let wrap : (p + 1) % 2 ^ 32 ≡ p + 1 = omega (arith, v.small) in
      rw (wrap, s.same_nexts)
        (record {
          valid_block = record {
            shaped =
                counters-IsShaped c (set b.p_next_write_page_index i (p + 1)) c.last_accessed
                  c.erase_count s.shaped;
            small = omega (arith, v.small, s.same_pages);
            nexts_length =
                length-set b.p_next_write_page_index i (p + 1) ∙ v.nexts_length ∙ sym s.same_units;
            next_le = λ j hj. ground (arith, nexts j, v.next_le j, s.same_pages, s.same_units);
            ahead_erased = λ q j hq hj le'.
                ground
                  (arith, nexts j, s.erased q j, v.ahead_erased q j, s.same_pages, s.same_units);
            ahead_invalid = λ q j hq hj le'.
                ground
                  (arith, nexts j, s.valid q j, v.ahead_invalid q j, s.same_pages, s.same_units);
            valid_written = λ q j hq hj.
                ground (
                  arith,
                  s.valid q j,
                  s.erased q j,
                  v.valid_written q j,
                  s.same_pages,
                  s.same_units,
                );
          };
          same_pages = s.same_pages;
          same_units = s.same_units;
          valid = s.valid;
          erased = s.erased;
          lpns = s.lpns;
          nexts = nexts;
          accessed = s.same_access;
        })

  -- On a unit of a valid block that is erased, and a page not before the unit's next page, write()
  -- returns true: the unit is valid, no longer erased and holds the LPN, its next page is the one
  -- after, the other units stay, the time is noted, and the block is valid.
  pub write-Written :
      (lpn tick : ℕ)
      → erased_at b p i ≡ true
      → next_write_page_index_at b i ≤ p
      → (c : Block) × (write b p lpn i tick ≡ ok (c, true)) × Written b p lpn i tick c
  unfolding write
  write-Written lpn tick e le =
      let timed = record b { last_accessed = tick } in
      let (c, run, s) =
        store_unit-Stored {b = timed} {p = p} {i = i} lpn hp hi
          (counters-IsShaped b b.p_next_write_page_index tick b.erase_count v.shaped) in
      let in_order : ltb p (next_write_page_index_at b i) ≡ false = ground arith in
      (
        record c { p_next_write_page_index = set c.p_next_write_page_index i ((p + 1) % 2 ^ 32) },
        rw (unit_bit_erased hp hi v.shaped, e, in_order, run),
        advance lpn tick le c s,
      )

  -- What is written otherwise; the first of two reasons is reported.
  write_refused :
      (lpn tick : ℕ)
      → erased_at b p i && not (ltb p (next_write_page_index_at b i)) ≡ false
      → write b p lpn i tick ≡ panic (if erased_at b p i then not_sequential else not_erased)
  unfolding write
  write_refused lpn tick e = elim (Bool-cases (erased_at b p i)) [
    | inl written ↦
        let early : ltb p (next_write_page_index_at b i) ≡ true = ground arith in
        rw (unit_bit_erased hp hi v.shaped, written, early)
    | inr kept ↦ rw (unit_bit_erased hp hi v.shaped, kept)
  ]

  -- On a unit of a valid block, write() returns exactly when the unit is erased and its page is not
  -- before the next page of the unit; otherwise it panics.
  pub write_ok_iff :
      (lpn tick : ℕ)
      → ((c : Block) × (done : Bool) × (write b p lpn i tick ≡ ok (c, done)))
        ↔ ((erased_at b p i ≡ true) × (next_write_page_index_at b i ≤ p))
  write_ok_iff lpn tick = (
    (λ r. elim (Bool-cases (erased_at b p i && not (ltb p (next_write_page_index_at b i)))) [
      | inl e ↦ (ground (arith, e), ground (arith, e))
      | inr e ↦ absurd (panic-ne-ok _ _ (sym (write_refused lpn tick e) ∙ r.2))
    ]),
    (λ h. let (c, run, _) = write-Written lpn tick h.0 h.1 in (c, true, run)),
  )
