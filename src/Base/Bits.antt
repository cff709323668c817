-- ===== src/Base/Bits.antt =====
-- The binary digits of a native number, and of the results of `&`, `|` and `^`.
use Prim.Native.Nat.{
  ℕ, zero, suc, ◌+◌, ◌*◌, ◌/◌, ◌%◌, ◌^◌, ◌≤◌, ◌<◌, min, max, bit_and, bit_or, bit_xor, digits,
  bit_and-bitwise, bit_or-bitwise, bit_xor-bitwise, differ,
}
use mathlib.Core.Path.{◌≡◌, refl, ap, ◌∙◌}
use mathlib.Core.Logic.{◌≢◌}
use native.Mathlib.Nat.{pow-suc}
use native.Mathlib.Omega.{arith}

-- Digit `k` of `x`: 0 or 1.
abbrev pub bit : ℕ → ℕ → ℕ
bit x zero = x % 2
bit x (suc k) = bit (x / 2) k

pub bit-le : (x k : ℕ) → bit x k ≤ 1
bit-le x zero = omega arith
bit-le x (suc k) = bit-le (x / 2) k

pub bit-zero : (k : ℕ) → bit 0 k ≡ 0
bit-zero zero = refl
bit-zero (suc k) = bit-zero k

-- A number below `2 ^ n` has no digit from `n` on.
pub bit_above : (n k x : ℕ) → x < 2 ^ n → n ≤ k → bit x k ≡ 0
bit_above zero k x h le = let e : x ≡ 0 = omega arith in rw e (bit-zero k)
bit_above (suc n) zero x h le = absurd (omega arith)
bit_above (suc n) (suc k) x h le = bit_above n k (x / 2) (omega (arith, pow-suc 2 n)) (omega arith)

module _ (z : ℕ → ℕ) (f : ℕ → ℕ → ℕ) (z_digits : (b k : ℕ) → bit (z b) k ≡ f 0 (bit b k))
    (f_digit : (u v : ℕ) → u ≤ 1 → v ≤ 1 → f u v ≤ 1) where
  bit-digits : (n k a b : ℕ) → a ≤ n → bit (digits z f n a b) k ≡ f (bit a k) (bit b k)
  bit-digits zero k zero b h = rw (z_digits b k, bit-zero k)
  bit-digits zero k (suc a) b h = absurd (omega arith)
  bit-digits (suc n) k zero b h = rw (z_digits b k, bit-zero k)
  bit-digits (suc n) zero (suc a) b h =
      omega (arith, f_digit (suc a % 2) (b % 2) (omega arith) (omega arith))
  bit-digits (suc n) (suc k) (suc a) b h =
      let low = f_digit (suc a % 2) (b % 2) (omega arith) (omega arith) in
      let halved : (digits z f n (suc a / 2) (b / 2) * 2 + f (suc a % 2) (b % 2)) / 2
          ≡ digits z f n (suc a / 2) (b / 2) =
        omega arith in
      rw halved (bit-digits n k (suc a / 2) (b / 2) (omega arith))

pub bit-and : (a b k : ℕ) → bit (bit_and a b) k ≡ min (bit a k) (bit b k)
bit-and a b k = rw bit_and-bitwise (
    bit-digits (λ b. 0) min (λ b k. omega (arith, bit-zero k)) (λ u v p q. omega arith) a k a b
      (omega arith))

pub bit-or : (a b k : ℕ) → bit (bit_or a b) k ≡ max (bit a k) (bit b k)
bit-or a b k =
    rw bit_or-bitwise
      (bit-digits (λ b. b) max (λ b k. omega arith) (λ u v p q. omega arith) a k a b (omega arith))

-- The exclusive or of two digits is the parity of their sum.
differ-eq-mod : (u v : ℕ) → u ≤ 1 → v ≤ 1 → differ u v ≡ (u + v) % 2
differ-eq-mod zero v p q = omega arith
differ-eq-mod (suc zero) zero p q = refl
differ-eq-mod (suc zero) (suc v) p q = let e : v ≡ 0 = omega arith in rw e
differ-eq-mod (suc (suc u)) v p q = absurd (omega arith)

pub bit-xor : (a b k : ℕ) → bit (bit_xor a b) k ≡ (bit a k + bit b k) % 2
bit-xor a b k = rw bit_xor-bitwise (
    bit-digits (λ b. b) differ (λ b k. refl) (λ u v p q. omega (arith, differ-eq-mod u v p q)) a k a
      b (omega arith)
    ∙ differ-eq-mod (bit a k) (bit b k) (bit-le a k) (bit-le b k))

-- Numbers with the same digits below `n` are equal below `2 ^ n`.
pub bit_ext : (n x y : ℕ) → x < 2 ^ n → y < 2 ^ n → ((k : ℕ) → k < n → bit x k ≡ bit y k) → x ≡ y
bit_ext zero x y p q h = omega arith
bit_ext (suc n) x y p q h = omega (
  arith,
  h 0 (omega arith),
  bit_ext n (x / 2) (y / 2) (omega (arith, pow-suc 2 n)) (omega (arith, pow-suc 2 n))
      (λ k lt. h (suc k) (omega arith)),
)

-- `x & (1 << k)` keeps digit `k`.
pub bit_pow_self : (k : ℕ) → bit (2 ^ k) k ≡ 1
bit_pow_self zero = refl
bit_pow_self (suc k) =
    let e : 2 ^ suc k / 2 ≡ 2 ^ k = omega (arith, pow-suc 2 k) in rw e (bit_pow_self k)

pub bit_pow_ne : (k j : ℕ) → k ≢ j → bit (2 ^ k) j ≡ 0
bit_pow_ne zero zero h = absurd (h refl)
bit_pow_ne zero (suc j) h = bit-zero j
bit_pow_ne (suc k) zero h = omega (arith, pow-suc 2 k)
bit_pow_ne (suc k) (suc j) h =
    let e : 2 ^ suc k / 2 ≡ 2 ^ k = omega (arith, pow-suc 2 k) in
    rw e (bit_pow_ne k j (λ e. h (ap suc e)))

lt_pow : (x : ℕ) → x < 2 ^ x
lt_pow zero = omega arith
lt_pow (suc x) = omega (arith, lt_pow x, pow-suc 2 x)

pub zero_of_bits : (x : ℕ) → ((k : ℕ) → bit x k ≡ 0) → x ≡ 0
zero_of_bits x h =
    bit_ext x x 0 (lt_pow x) (omega (arith, lt_pow x)) (λ k _. omega (arith, h k, bit-zero k))

-- `a | b` is 0 only at zeros.
pub bit_or-eq-zero : (a b : ℕ) → bit_or a b ≡ 0 → (a ≡ 0) × (b ≡ 0)
bit_or-eq-zero a b h =
    (zero_of_bits a (λ k. omega (arith, none k)), zero_of_bits b (λ k. omega (arith, none k)))
  where
    none : (k : ℕ) → max (bit a k) (bit b k) ≡ 0
    none k = omega (arith, bit-or a b k, ap (λ (t : ℕ). bit t k) h, bit-zero k)
