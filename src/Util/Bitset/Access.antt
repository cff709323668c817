-- ===== src/Util/Bitset/Access.antt =====
-- util/bitset.cc, the methods on one bit.
use simple_ssd.Base.{
  ℕ, ◌/◌, ◌%◌, ◌<◌, ◌≡◌, ◌≢◌, ◌∙◌, Bool, true, false, not, ◌&&◌, ◌||◌, refl, arith, ◌==◌,
  if◌then◌else◌, length, get_or-set, length-set,
}
use simple_ssd.Util.Bitset.{Bitset, IsValid, byte, test, update, reset_at, set_at, flip_at}
use simple_ssd.Util.Bitset.Byte.{
  test_bit, set_bit, clear_bit, flip_bit, test_bit-set_bit, test_bit-clear_bit, test_bit-flip_bit,
  set_bit-lt, clear_bit-lt, flip_bit-lt,
}

module _ {b : Bitset} (v : IsValid b) (i : ℕ) (h : i < b.data_size) where
  in_array : i / 8 < length b.bytes
  in_array = omega (arith, v.room, v.allocated)

  test-update :
      (f : ℕ → ℕ → ℕ) (j : ℕ)
      → test (update f b i) j
        ≡ (if i / 8 == j / 8 then test_bit (f (byte b (i / 8)) (i % 8)) (j % 8) else test b j)
  unfolding test update
  test-update f j =
      ground (arith, get_or-set b.bytes (i / 8) (j / 8) (f (byte b (i / 8)) (i % 8)) 0 in_array)

  update-IsValid :
      (f : ℕ → ℕ → ℕ)
      → ((x k : ℕ) → f x k < 256)
      → ((x k j : ℕ) → x < 256 → k < 8 → j < 8 → k ≢ j → test_bit (f x k) j ≡ test_bit x j)
      → IsValid (update f b i)
  unfolding test update
  update-IsValid f small keeps = record {
    room = v.room;
    tight = v.tight;
    allocated = length-set b.bytes (i / 8) (f (byte b (i / 8)) (i % 8)) ∙ v.allocated;
    small = v.small;
    bytes_small = λ k. ground (
      arith,
      get_or-set b.bytes (i / 8) k (f (byte b (i / 8)) (i % 8)) 0 in_array,
      small (byte b (i / 8)) (i % 8),
      v.bytes_small k,
    );
    tail_clear = λ j le.
        test-update f j
        ∙ ground (
          arith,
          keeps (byte b (i / 8)) (i % 8) (j % 8) (v.bytes_small (i / 8)) (omega arith)
              (omega arith),
          v.tail_clear j le,
        );
  }

  pub test-reset_at : (j : ℕ) → test (reset_at b i) j ≡ (not (i == j) && test b j)
  unfolding test reset_at
  test-reset_at j =
      test-update clear_bit j
      ∙ ground (arith, test_bit-clear_bit (byte b (i / 8)) (i % 8) (j % 8) (v.bytes_small (i / 8)))

  -- For an index below the size of a valid Bitset, flip(idx) inverts the bit at the index, and
  -- leaves every other bit as it was.
  pub test-flip_at : (j : ℕ) → test (flip_at b i) j ≡ (if i == j then not (test b j) else test b j)
  unfolding test flip_at
  test-flip_at j =
      test-update flip_bit j
      ∙ ground (arith, test_bit-flip_bit (byte b (i / 8)) (i % 8) (j % 8) (v.bytes_small (i / 8)))

  test-mark : (j : ℕ) → test (update set_bit b i) j ≡ (i == j || test b j)
  unfolding test
  test-mark j =
      test-update set_bit j
      ∙ ground (arith, test_bit-set_bit (byte b (i / 8)) (i % 8) (j % 8) (v.bytes_small (i / 8)))

  pub reset_at-IsValid : IsValid (reset_at b i)
  unfolding reset_at
  reset_at-IsValid =
      update-IsValid clear_bit clear_bit-lt
        λ x k j hx hk hj ne. ground (arith, test_bit-clear_bit x k j hx hk hj)

  pub flip_at-IsValid : IsValid (flip_at b i)
  unfolding flip_at
  flip_at-IsValid =
      update-IsValid flip_bit flip_bit-lt
        λ x k j hx hk hj ne. ground (arith, test_bit-flip_bit x k j hx hk hj)

  mark-IsValid : IsValid (update set_bit b i)
  mark-IsValid =
      update-IsValid set_bit set_bit-lt
        λ x k j hx hk hj ne. ground (arith, test_bit-set_bit x k j hx hk hj)

  pub data_size-reset_at : (reset_at b i).data_size ≡ b.data_size
  unfolding reset_at update
  data_size-reset_at = refl

module _ {b : Bitset} (v : IsValid b) (i : ℕ) (h : i < b.data_size) where
  cleared_in_range : i < (reset_at b i).data_size
  cleared_in_range = rw (data_size-reset_at v i h) h

  -- For an index below the size of a valid Bitset, set(idx, value) stores `value` at the index, and
  -- leaves every other bit as it was.
  pub test-set_at :
      (value : Bool) (j : ℕ) → test (set_at b i value) j ≡ (if i == j then value else test b j)
  unfolding set_at
  test-set_at true j =
      ground (arith, test-mark (reset_at-IsValid v i h) i cleared_in_range j, test-reset_at v i h j)
  test-set_at false j = ground (arith, test-reset_at v i h j)

  pub set_at-IsValid : (value : Bool) → IsValid (set_at b i value)
  unfolding set_at
  set_at-IsValid true = mark-IsValid (reset_at-IsValid v i h) i cleared_in_range
  set_at-IsValid false = reset_at-IsValid v i h

  pub data_size-set_at : (value : Bool) → (set_at b i value).data_size ≡ b.data_size
  unfolding set_at reset_at update
  data_size-set_at true = refl
  data_size-set_at false = refl
