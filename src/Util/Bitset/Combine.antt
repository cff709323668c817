-- ===== src/Util/Bitset/Combine.antt =====
-- util/bitset.cc and util/bitset.hh, the operators on two bitsets.
use simple_ssd.Base.{
  ℕ, ◌/◌, ◌%◌, ◌<◌, ◌≡◌, ◌≢◌, ◌∙◌, refl, Bool, false, not, ◌&&◌, ◌||◌, arith, beq, length,
  zip_first, get_or-zip_first, length-zip_first, get_or_above, inl, inr, dec_lt,
}
use simple_ssd.Base.Result.{ok, panic, size_mismatch}
use simple_ssd.Util.Bitset.{Bitset, IsValid, byte, test, combine, and_with, or_with, xor_with}
use simple_ssd.Util.Bitset.Byte.{
  test_bit, and_byte, or_byte, xor_byte, and_byte-lt, or_byte-lt, xor_byte-lt, test_bit-and_byte,
  test_bit-or_byte, test_bit-xor_byte,
}
use simple_ssd.Util.Bitset.Whole.{in_or_above, test_above}

-- What an operator yields: the bits combined one by one.
pub record Combines (op : Bool → Bool → Bool) (b c r : Bitset) : Type 0 where
  pub valid : IsValid r
  pub same_size : r.data_size ≡ b.data_size
  pub bits : (j : ℕ) → test r j ≡ op (test b j) (test c j)

same_alloc :
    {b c : Bitset} → IsValid b → IsValid c → b.data_size ≡ c.data_size → b.alloc_size ≡ c.alloc_size
same_alloc v w e = omega (arith, v.room, v.tight, w.room, w.tight)

module _ (f : ℕ → ℕ → ℕ) (op : Bool → Bool → Bool) (f_small : (x y : ℕ) → f x y < 256)
    (f_bits : (x y j : ℕ)
      → x < 256
      → y < 256
      → j < 8
      → test_bit (f x y) j ≡ op (test_bit x j) (test_bit y j))
    (op_clear : op false false ≡ false) {b c : Bitset} (v : IsValid b) (w : IsValid c)
    (e : b.data_size ≡ c.data_size) where
  result : Bitset
  result = record b { bytes = zip_first b.alloc_size f b.bytes c.bytes }

  byte-result : (i : ℕ) → i < length b.bytes → byte result i ≡ f (byte b i) (byte c i)
  unfolding result
  byte-result i lt = ground (
    arith,
    v.allocated,
    get_or-zip_first b.alloc_size f 0 b.bytes c.bytes i lt
        (omega (arith, v.allocated, w.allocated, same_alloc v w e)),
  )

  length-result : length result.bytes ≡ length b.bytes
  unfolding result
  length-result = length-zip_first b.alloc_size f b.bytes c.bytes

  test-result : (j : ℕ) → test result j ≡ op (test b j) (test c j)
  unfolding test
  test-result j = elim (in_or_above b j) [
    | inl p ↦ ground (
      arith,
      byte-result (j / 8) p,
      f_bits (byte b (j / 8)) (byte c (j / 8)) (j % 8) (v.bytes_small (j / 8))
          (w.bytes_small (j / 8)) (omega arith),
    )
    | inr p ↦ ground (
      arith,
      op_clear,
      test_above result j (omega (arith, length-result)),
      test_above b j p,
      test_above c j (omega (arith, v.allocated, w.allocated, same_alloc v w e)),
    )
  ]

  result-Combines : Combines op b c result
  unfolding result
  result-Combines = record {
    valid = record {
      room = v.room;
      tight = v.tight;
      allocated = length-result ∙ v.allocated;
      small = v.small;
      bytes_small = λ i. elim (dec_lt i (length b.bytes)) [
        | yes p ↦ omega (arith, byte-result i p, f_small (byte b i) (byte c i))
        | no p ↦ omega (arith, get_or_above result.bytes i 0 (omega (arith, length-result)))
      ];
      tail_clear = λ j le.
          test-result j ∙ ground (arith, op_clear, v.tail_clear j le, w.tail_clear j (omega arith));
    };
    same_size = refl;
    bits = test-result;
  }

  combine-Combines : (r : Bitset) × (combine f b c ≡ ok r) × Combines op b c r
  unfolding combine result
  combine-Combines = (result, ground arith, result-Combines)

xor : Bool → Bool → Bool
xor x y = not (beq x y)

module _ {b c : Bitset} (v : IsValid b) (w : IsValid c) (e : b.data_size ≡ c.data_size) where
  -- On two valid Bitsets of one size, operator&= returns a valid Bitset of that size, whose bits
  -- are the conjunctions of theirs.
  pub and_with-Combines : (r : Bitset) × (and_with b c ≡ ok r) × Combines ◌&&◌ b c r
  unfolding and_with
  and_with-Combines = combine-Combines and_byte ◌&&◌ and_byte-lt test_bit-and_byte refl v w e

  -- On two valid Bitsets of one size, operator|= returns a valid Bitset of that size, whose bits
  -- are the disjunctions of theirs.
  pub or_with-Combines : (r : Bitset) × (or_with b c ≡ ok r) × Combines ◌||◌ b c r
  unfolding or_with
  or_with-Combines = combine-Combines or_byte ◌||◌ or_byte-lt test_bit-or_byte refl v w e

  -- On two valid Bitsets of one size, operator^= returns a valid Bitset of that size, whose bits
  -- are set where theirs differ.
  pub xor_with-Combines :
      (r : Bitset) × (xor_with b c ≡ ok r) × Combines (λ x y. not (beq x y)) b c r
  unfolding xor_with
  xor_with-Combines =
      combine-Combines xor_byte (λ x y. not (beq x y)) xor_byte-lt test_bit-xor_byte refl v w e

pub combine_mismatch :
    (f : ℕ → ℕ → ℕ) (b c : Bitset) → b.data_size ≢ c.data_size → combine f b c ≡ panic size_mismatch
unfolding combine
combine_mismatch f b c ne = ground arith
