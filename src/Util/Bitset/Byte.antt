-- ===== src/Util/Bitset/Byte.antt =====
-- The bit operations on one `uint8_t` of util/bitset.cc. C++ computes them on 32-bit integers, and
-- the store into the array truncates.
use simple_ssd.Base.{
  ℕ, zero, suc, ◌-◌, ◌%◌, ◌^◌, ◌<◌, bit_and, bit_or, bit_xor, ◌≡◌, refl, Bool, true, not,
  if◌then◌else◌, beq_sound, ◌&&◌, ◌||◌, arith, ◌==◌, ==_iff, zero, suc, ◌+◌, ◌*◌, ◌/◌, beq,
  all_below, ltb, ◌-◌, false, all_below_sound,
}
use simple_ssd.Base.Bits.{bit, bit-and, bit-or, bit-xor, bit-le}

-- The truncation of a store.
abbrev pub u8 : ℕ → ℕ
u8 x = x % 256

-- `~x` of an `int`.
abbrev pub complement : ℕ → ℕ
complement x = 2 ^ 32 - 1 - x

-- `x & (0x01 << k)`, as a condition
unfoldable pub test_bit : ℕ → ℕ → Bool
test_bit x k = not (bit_and x (2 ^ k) == 0)

unfoldable pub clear_bit : ℕ → ℕ → ℕ
clear_bit x k = u8 (bit_and x (complement (2 ^ k)))

unfoldable pub set_bit : ℕ → ℕ → ℕ
set_bit x k = u8 (bit_or x (2 ^ k))

unfoldable pub flip_bit : ℕ → ℕ → ℕ
flip_bit x k = u8 (bit_or (bit_and (complement x) (2 ^ k)) (bit_and x (complement (2 ^ k))))

unfoldable pub not_byte : ℕ → ℕ
not_byte x = u8 (complement x)

-- A fact about all bytes and two bit positions, checked by evaluation.
abbrev all_bytes : (ℕ → ℕ → ℕ → Bool) → Bool
all_bytes p = all_below 256 (λ x. all_below 8 (λ k. all_below 8 (p x k)))

all_bytes_sound :
    (p : ℕ → ℕ → ℕ → Bool) (x k j : ℕ)
    → all_bytes p ≡ true
    → x < 256
    → k < 8
    → j < 8
    → p x k j ≡ true
all_bytes_sound p x k j h hx hk hj =
    all_below_sound 8 (p x k) j
      (all_below_sound 8 (λ k. all_below 8 (p x k)) k
        (all_below_sound 256 (λ x. all_below 8 (λ k. all_below 8 (p x k))) x h hx) hk)
      hj

set_table : all_bytes (λ x k j. beq (test_bit (set_bit x k) j) (k == j || test_bit x j)) ≡ true
unfolding all_below test_bit set_bit
set_table = refl

clear_table :
    all_bytes (λ x k j. beq (test_bit (clear_bit x k) j) (not (k == j) && test_bit x j)) ≡ true
unfolding all_below test_bit clear_bit
clear_table = refl

flip_table :
    all_bytes (λ x k j.
      beq (test_bit (flip_bit x k) j) (if k == j then not (test_bit x j) else test_bit x j))
    ≡ true
unfolding all_below test_bit flip_bit
flip_table = refl

not_table : all_bytes (λ x k j. beq (test_bit (not_byte x) j) (not (test_bit x j))) ≡ true
unfolding all_below test_bit not_byte
not_table = refl

digit_table : all_bytes (λ x k j. beq (test_bit x j) (bit x j == 1)) ≡ true
unfolding all_below test_bit
digit_table = refl

module _ (x k j : ℕ) (hx : x < 256) (hk : k < 8) (hj : j < 8) where
  pub test_bit-set_bit : test_bit (set_bit x k) j ≡ (k == j || test_bit x j)
  test_bit-set_bit = beq_sound _ _ (all_bytes_sound _ x k j set_table hx hk hj)

  pub test_bit-clear_bit : test_bit (clear_bit x k) j ≡ (not (k == j) && test_bit x j)
  test_bit-clear_bit = beq_sound _ _ (all_bytes_sound _ x k j clear_table hx hk hj)

  pub test_bit-flip_bit :
      test_bit (flip_bit x k) j ≡ (if k == j then not (test_bit x j) else test_bit x j)
  test_bit-flip_bit = beq_sound _ _ (all_bytes_sound _ x k j flip_table hx hk hj)

pub set_bit-lt : (x k : ℕ) → set_bit x k < 256
unfolding set_bit
set_bit-lt x k = omega arith

pub clear_bit-lt : (x k : ℕ) → clear_bit x k < 256
unfolding clear_bit
clear_bit-lt x k = omega arith

pub flip_bit-lt : (x k : ℕ) → flip_bit x k < 256
unfolding flip_bit
flip_bit-lt x k = omega arith

pub not_byte-lt : (x : ℕ) → not_byte x < 256
unfolding not_byte
not_byte-lt x = omega arith

pub test_bit-not_byte : (x j : ℕ) → x < 256 → j < 8 → test_bit (not_byte x) j ≡ not (test_bit x j)
test_bit-not_byte x j hx hj = beq_sound _ _ (all_bytes_sound _ x 0 j not_table hx (omega arith) hj)

pub test_bit-eq-bit : (x j : ℕ) → x < 256 → j < 8 → test_bit x j ≡ (bit x j == 1)
test_bit-eq-bit x j hx hj = beq_sound _ _ (all_bytes_sound _ x 0 j digit_table hx (omega arith) hj)

-- The truncation keeps the digits below 8.
bit-u8 : (x j : ℕ) → j < 8 → bit (u8 x) j ≡ bit x j
bit-u8 x zero h = omega arith
bit-u8 x (suc zero) h = omega arith
bit-u8 x (suc (suc zero)) h = omega arith
bit-u8 x (suc (suc (suc zero))) h = omega arith
bit-u8 x (suc (suc (suc (suc zero)))) h = omega arith
bit-u8 x (suc (suc (suc (suc (suc zero))))) h = omega arith
bit-u8 x (suc (suc (suc (suc (suc (suc zero)))))) h = omega arith
bit-u8 x (suc (suc (suc (suc (suc (suc (suc zero))))))) h = omega arith
bit-u8 x (suc (suc (suc (suc (suc (suc (suc (suc j)))))))) h = absurd (omega arith)

u8-lt : (x : ℕ) → u8 x < 256
u8-lt x = omega arith

unfoldable pub and_byte : ℕ → ℕ → ℕ
and_byte x y = u8 (bit_and x y)

unfoldable pub or_byte : ℕ → ℕ → ℕ
or_byte x y = u8 (bit_or x y)

unfoldable pub xor_byte : ℕ → ℕ → ℕ
xor_byte x y = u8 (bit_xor x y)

module _ (x y j : ℕ) (hx : x < 256) (hy : y < 256) (hj : j < 8) where
  pub test_bit-and_byte : test_bit (and_byte x y) j ≡ (test_bit x j && test_bit y j)
  unfolding and_byte
  test_bit-and_byte = ground (
    arith,
    test_bit-eq-bit (u8 (bit_and x y)) j (u8-lt (bit_and x y)) hj,
    test_bit-eq-bit x j hx hj,
    test_bit-eq-bit y j hy hj,
    bit-u8 (bit_and x y) j hj,
    bit-and x y j,
    bit-le x j,
    bit-le y j,
  )

  pub test_bit-or_byte : test_bit (or_byte x y) j ≡ (test_bit x j || test_bit y j)
  unfolding or_byte
  test_bit-or_byte = ground (
    arith,
    test_bit-eq-bit (u8 (bit_or x y)) j (u8-lt (bit_or x y)) hj,
    test_bit-eq-bit x j hx hj,
    test_bit-eq-bit y j hy hj,
    bit-u8 (bit_or x y) j hj,
    bit-or x y j,
    bit-le x j,
    bit-le y j,
  )

  pub test_bit-xor_byte : test_bit (xor_byte x y) j ≡ not (beq (test_bit x j) (test_bit y j))
  unfolding xor_byte
  test_bit-xor_byte = ground (
    arith,
    test_bit-eq-bit (u8 (bit_xor x y)) j (u8-lt (bit_xor x y)) hj,
    test_bit-eq-bit x j hx hj,
    test_bit-eq-bit y j hy hj,
    bit-u8 (bit_xor x y) j hj,
    bit-xor x y j,
    bit-le x j,
    bit-le y j,
  )

-- `popcount` of util/algorithm.hh at `uint8_t`: each line stores into a byte.
unfoldable pub popcount : ℕ → ℕ
popcount v =
    let v₁ = u8 (v + 256 - bit_and (v / 2) (255 / 3)) in
    let v₂ = u8 (bit_and v₁ (255 / 15 * 3) + bit_and (v₁ / 4) (255 / 15 * 3)) in
    let v₃ = u8 (bit_and (v₂ + v₂ / 16) (255 / 255 * 15)) in
    u8 (v₃ * (255 / 255)) / 2 ^ ((1 - 1) * 8)

-- How many of the positions below `n` satisfy `p`.
abbrev pub count_below : ℕ → (ℕ → Bool) → ℕ
count_below zero p = 0
count_below (suc n) p = count_below n p + (if p n then 1 else 0)

popcount_table : all_below 256 (λ x. popcount x == count_below 8 (test_bit x)) ≡ true
unfolding all_below popcount test_bit
popcount_table = refl

pub popcount_lem : (x : ℕ) → x < 256 → popcount x ≡ count_below 8 (test_bit x)
popcount_lem x h =
    (==_iff _ _).0
      (all_below_sound 256 (λ x. popcount x == count_below 8 (test_bit x)) x popcount_table h)

-- `0xFF >> s` keeps the low `8 - s` bits, and `0` none.
mask_table :
    all_below 8 (λ s. all_below 8 (λ k. beq (test_bit (u8 (255 / 2 ^ s)) k) (ltb k (8 - s)))) ≡ true
unfolding all_below test_bit
mask_table = refl

pub test_bit_mask : (s k : ℕ) → s < 8 → k < 8 → test_bit (u8 (255 / 2 ^ s)) k ≡ ltb k (8 - s)
test_bit_mask s k hs hk = beq_sound _ _ (
    all_below_sound 8 (λ k. beq (test_bit (u8 (255 / 2 ^ s)) k) (ltb k (8 - s))) k
      (all_below_sound 8
        (λ s. all_below 8 (λ k. beq (test_bit (u8 (255 / 2 ^ s)) k) (ltb k (8 - s)))) s mask_table
        hs)
      hk)

full_table : all_below 8 (test_bit 255) ≡ true
unfolding all_below test_bit
full_table = refl

pub test_bit_full : (k : ℕ) → k < 8 → test_bit 255 k ≡ true
test_bit_full k h = all_below_sound 8 (test_bit 255) k full_table h

empty_table : all_below 8 (λ k. not (test_bit 0 k)) ≡ true
unfolding all_below test_bit
empty_table = refl

pub test_bit_zero : (k : ℕ) → k < 8 → test_bit 0 k ≡ false
test_bit_zero k h = ground (arith, all_below_sound 8 (λ k. not (test_bit 0 k)) k empty_table h)

pub and_byte-lt : (x y : ℕ) → and_byte x y < 256
unfolding and_byte
and_byte-lt x y = omega arith

pub or_byte-lt : (x y : ℕ) → or_byte x y < 256
unfolding or_byte
or_byte-lt x y = omega arith

pub xor_byte-lt : (x y : ℕ) → xor_byte x y < 256
unfolding xor_byte
xor_byte-lt x y = omega arith
