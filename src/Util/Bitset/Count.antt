-- ===== src/Util/Bitset/Count.antt =====
-- util/bitset.cc, the methods that read every bit: count(), none(), any() and all().
use simple_ssd.Base.{
  ℕ, zero, suc, ◌+◌, ◌-◌, ◌*◌, ◌/◌, ◌%◌, ◌<◌, ◌≡◌, ◌↔◌, ◌∙◌, refl, ap, Bool, true, false, not,
  arith, ◌==◌, length, get_or, fold_first, List, [], ◌∷◌, bit_or, dec_lt, ℕ_discrete, inl, inr,
  Bool-cases, ==_iff,
}
use native.Mathlib.Nat.{add-zero, add-suc}
use simple_ssd.Base.Bits.{bit_or-eq-zero, bit_ext, bit-zero, bit-le}
use simple_ssd.Util.Bitset.{Bitset, IsValid, byte, test, none, any, count}
use simple_ssd.Util.Bitset.Byte.{
  test_bit, popcount, popcount_lem, count_below, test_bit-eq-bit, test_bit_zero,
}

-- Position `j` of an array of bytes.
abbrev array_bit : List ℕ → ℕ → Bool
array_bit xs j = test_bit (get_or xs (j / 8) 0) (j % 8)

count_below-ext :
    (n : ℕ) (p q : ℕ → Bool) → ((j : ℕ) → j < n → p j ≡ q j) → count_below n p ≡ count_below n q
count_below-ext zero p q h = refl
count_below-ext (suc n) p q h =
    ground (arith, h n (omega arith), count_below-ext n p q (λ j lt. h j (omega arith)))

count_below-add :
    (m n : ℕ) (p : ℕ → Bool)
    → count_below (m + n) p ≡ count_below m p + count_below n (λ j. p (m + j))
count_below-add m zero p = rw (add-zero m) (omega arith)
count_below-add m (suc n) p = rw (add-suc m n) (omega (arith, count_below-add m n p))

first_byte : (x : ℕ) (xs : List ℕ) (j : ℕ) → j < 8 → array_bit (x ∷ xs) j ≡ test_bit x j
first_byte x xs j lt =
    let e : j / 8 ≡ 0 = omega arith in let r : j % 8 ≡ j = omega arith in rw (e, r)

later_byte : (x : ℕ) (xs : List ℕ) (j : ℕ) → array_bit (x ∷ xs) (8 + j) ≡ array_bit xs j
later_byte x xs j =
    let e : (8 + j) / 8 ≡ suc (j / 8) = omega arith in
    let r : (8 + j) % 8 ≡ j % 8 = omega arith in rw (e, r)

count_below_none : (n : ℕ) (p : ℕ → Bool) → ((j : ℕ) → p j ≡ false) → count_below n p ≡ 0
count_below_none zero p h = refl
count_below_none (suc n) p h = ground (arith, h n, count_below_none n p h)

-- The loop of count() over the first `n` bytes counts their positions.
count_loop :
    (n acc : ℕ) (xs : List ℕ)
    → length xs ≡ n
    → ((i : ℕ) → get_or xs i 0 < 256)
    → fold_first n (λ m x. m + popcount x) acc xs ≡ acc + count_below (n * 8) (array_bit xs)
count_loop zero acc xs e h = omega arith
count_loop (suc n) acc [] e h = absurd (omega arith)
count_loop (suc n) acc (x ∷ xs) e h =
    let split : suc n * 8 ≡ 8 + n * 8 = omega arith in
    rw split (
      omega (
        arith,
        count_below-add 8 (n * 8) (array_bit (x ∷ xs)),
        count_below-ext 8 (array_bit (x ∷ xs)) (test_bit x) (first_byte x xs),
        count_below-ext (n * 8) (λ j. array_bit (x ∷ xs) (8 + j)) (array_bit xs)
            (λ j _. later_byte x xs j),
        popcount_lem x (h 0),
        count_loop n (acc + popcount x) xs (omega arith) (λ i. h (suc i)),
      ))

-- On a valid Bitset, count() is the number of positions below the size whose bit is set.
pub count_lem : {b : Bitset} → IsValid b → count b ≡ count_below b.data_size (test b)
unfolding count test
count_lem {b} v =
    let split : b.alloc_size * 8 ≡ b.data_size + (b.alloc_size * 8 - b.data_size) =
      omega (arith, v.room) in
    omega (
      arith,
      count_loop b.alloc_size 0 b.bytes v.allocated v.bytes_small,
      ap (λ (n : ℕ). count_below n (array_bit b.bytes)) split,
      count_below-add b.data_size (b.alloc_size * 8 - b.data_size) (array_bit b.bytes),
      count_below_none (b.alloc_size * 8 - b.data_size) (λ j. array_bit b.bytes (b.data_size + j))
          (λ j. v.tail_clear (b.data_size + j) (omega arith)),
    )

none_loop :
    (n acc : ℕ) (xs : List ℕ)
    → length xs ≡ n
    → fold_first n bit_or acc xs ≡ 0
    → (acc ≡ 0) × ((i : ℕ) → get_or xs i 0 ≡ 0)
none_loop zero acc [] e h = (h, λ i. refl)
none_loop zero acc (x ∷ xs) e h = absurd (omega arith)
none_loop (suc n) acc [] e h = absurd (omega arith)
none_loop (suc n) acc (x ∷ xs) e h =
    let (both, rest) = none_loop n (bit_or acc x) xs (omega arith) h in
    let (first, second) = bit_or-eq-zero acc x both in (first, λ i. at_index i second rest)
  where
    at_index : (i : ℕ) → x ≡ 0 → ((k : ℕ) → get_or xs k 0 ≡ 0) → get_or (x ∷ xs) i 0 ≡ 0
    at_index zero p r = p
    at_index (suc i) p r = r i

zero_loop : (n : ℕ) (xs : List ℕ) → ((i : ℕ) → get_or xs i 0 ≡ 0) → fold_first n bit_or 0 xs ≡ 0
zero_loop zero xs h = refl
zero_loop (suc n) [] h = refl
zero_loop (suc n) (x ∷ xs) h = rw (h 0) (zero_loop n xs (λ i. h (suc i)))

byte_clear : (x : ℕ) → x < 256 → ((k : ℕ) → k < 8 → test_bit x k ≡ false) → x ≡ 0
byte_clear x lt h =
    bit_ext 8 x 0 lt (omega arith)
      (λ k hk. ground (arith, h k hk, test_bit-eq-bit x k lt hk, bit-le x k, bit-zero k))

module _ {b : Bitset} (v : IsValid b) where
  -- On a valid Bitset, none() holds exactly when no bit is set.
  pub none_iff : (none b ≡ true) ↔ ((j : ℕ) → test b j ≡ false)
  unfolding none test
  none_iff = (clear, empty)
    where
      clear :
          (fold_first b.alloc_size bit_or 0 b.bytes == 0) ≡ true
          → (j : ℕ) → array_bit b.bytes j ≡ false
      clear h j =
          let zero_byte =
            (none_loop b.alloc_size 0 b.bytes v.allocated ((==_iff _ 0).0 h)).1 (j / 8) in
          rw zero_byte (test_bit_zero (j % 8) (omega arith))

      empty :
          ((j : ℕ) → array_bit b.bytes j ≡ false)
          → (fold_first b.alloc_size bit_or 0 b.bytes == 0) ≡ true
      empty h = (==_iff _ 0).1 (
          zero_loop b.alloc_size b.bytes (λ i. byte_clear (byte b i) (v.bytes_small i) (λ k hk.
            (let e : (i * 8 + k) / 8 ≡ i = omega arith in
              let r : (i * 8 + k) % 8 ≡ k = omega arith in rw (e, r) at (h (i * 8 + k))))))

  -- any() holds when some bit is set.
  pub any_of_test : (j : ℕ) → test b j ≡ true → any b ≡ true
  unfolding any
  any_of_test j h = elim (Bool-cases (none b)) [
    | inl e ↦ ground (arith, none_iff.0 e j)
    | inr e ↦ rw e
  ]

  pub any_false : ((j : ℕ) → test b j ≡ false) → any b ≡ false
  unfolding any
  any_false h = rw (none_iff.1 h)

count_below-zero : (n : ℕ) (p : ℕ → Bool) → count_below n p ≡ 0 → (j : ℕ) → j < n → p j ≡ false
count_below-zero zero p h j lt = absurd (omega arith)
count_below-zero (suc n) p h j lt = elim (ℕ_discrete j n) [
  | yes e ↦ rw e (ground arith)
  | no ne ↦ count_below-zero n p (ground arith) j (omega arith)
]

module _ {b : Bitset} (v : IsValid b) where
  -- count() is 0 exactly when no bit below the size is set.
  pub count_zero_iff : (count b ≡ 0) ↔ ((j : ℕ) → j < b.data_size → test b j ≡ false)
  count_zero_iff = (
    λ h. count_below-zero b.data_size (test b) (omega (arith, count_lem v)),
    λ h.
        count_lem v
        ∙ count_below-ext b.data_size (test b) (λ j. false) h
        ∙ count_below_none b.data_size (λ j. false) (λ j. refl),
  )

  -- any() is false exactly when no bit below the size is set.
  pub any_false_iff : (any b ≡ false) ↔ ((j : ℕ) → j < b.data_size → test b j ≡ false)
  unfolding any
  any_false_iff = (
    λ h j lt. (none_iff v).0 (not_false (none b) h) j,
    λ h.
        any_false v (λ j. elim (dec_lt j b.data_size) [
          | yes p ↦ h j p
          | no p ↦ v.tail_clear j (omega arith)
        ]),
  )
    where
      not_false : (t : Bool) → not t ≡ false → t ≡ true
      not_false true e = refl
      not_false false e = cc
