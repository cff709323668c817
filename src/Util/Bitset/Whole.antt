-- ===== src/Util/Bitset/Whole.antt =====
-- util/bitset.cc, the methods that write every bit: the constructor, set(), reset() and flip().
use simple_ssd.Base.{
  ℕ, ◌+◌, ◌-◌, ◌*◌, ◌/◌, ◌%◌, ◌^◌, ◌≤◌, ◌<◌, ◌≡◌, ◌∙◌, refl, false, not, ◌&&◌, arith, ltb, ◌==◌,
  if◌then◌else◌, length, get_or, fill, map_first, get_or-set, length-set, length-fill,
  length-map_first, get_or-fill, get_or-map_first, get_or_above, get_or-replicate_self,
  length-replicate, ◌⊎◌, inl, inr, dec_lt, zero, suc, replicate,
}
use simple_ssd.Util.Bitset.{
  Bitset, IsValid, byte, test, create, set_all, reset_all, flip_all, last_byte, low_mask,
}
use simple_ssd.Util.Bitset.Byte.{
  test_bit, not_byte, and_byte, not_byte-lt, and_byte-lt, test_bit-not_byte, test_bit-and_byte,
  test_bit_mask, test_bit_full, test_bit_zero,
}

-- The last byte is at `allocSize - 1`, and its mask has the bits that the size leaves.
last_byte-eq : {b : Bitset} → IsValid b → 0 < b.data_size → last_byte b ≡ b.alloc_size - 1
last_byte-eq v h = omega (arith, v.room, v.tight, v.small)

mask_bit :
    {b : Bitset}
    → IsValid b
    → 0 < b.data_size
    → (j : ℕ) → j / 8 ≡ b.alloc_size - 1
    → test_bit (low_mask b) (j % 8) ≡ ltb j b.data_size
mask_bit {b} v h j e = ground (
  arith,
  v.room,
  v.tight,
  test_bit_mask (b.alloc_size * 8 - b.data_size) (j % 8) (omega (arith, v.tight)) (omega arith),
)

-- A bit past the array reads as clear.
pub test_above : (b : Bitset) (j : ℕ) → length b.bytes * 8 ≤ j → test b j ≡ false
unfolding test
test_above b j h =
    rw (get_or_above b.bytes (j / 8) 0 (omega arith)) (test_bit_zero (j % 8) (omega arith))

-- A bit is in the array or past it.
pub in_or_above : (b : Bitset) (j : ℕ) → (j / 8 < length b.bytes) ⊎ (length b.bytes * 8 ≤ j)
in_or_above b j = elim (dec_lt (j / 8) (length b.bytes)) [
  | yes p ↦ inl p
  | no p ↦ inr (omega arith)
]

module _ {b : Bitset} (v : IsValid b) where
  length-reset_all : length (reset_all b).bytes ≡ length b.bytes
  unfolding reset_all
  length-reset_all = length-fill b.alloc_size 0 b.bytes

  byte-reset_all : (i : ℕ) → byte (reset_all b) i ≡ 0
  unfolding reset_all
  byte-reset_all i = elim (dec_lt i (length b.bytes)) [
    | yes p ↦ ground (arith, get_or-fill b.alloc_size 0 0 b.bytes i p, v.allocated)
    | no p ↦
        get_or_above (fill b.alloc_size 0 b.bytes) i 0
          (omega (arith, length-fill b.alloc_size 0 b.bytes))
  ]

  -- reset() clears every bit.
  pub test-reset_all : (j : ℕ) → test (reset_all b) j ≡ false
  unfolding test
  test-reset_all j = rw (byte-reset_all (j / 8)) (test_bit_zero (j % 8) (omega arith))

  pub reset_all-IsValid : IsValid (reset_all b)
  unfolding reset_all
  reset_all-IsValid = record {
    room = v.room;
    tight = v.tight;
    allocated = length-reset_all ∙ v.allocated;
    small = v.small;
    bytes_small = λ i. omega (arith, byte-reset_all i);
    tail_clear = λ j _. test-reset_all j;
  }

module _ {b : Bitset} (v : IsValid b) (h : 0 < b.data_size) where
  length-set_all : length (set_all b).bytes ≡ length b.bytes
  unfolding set_all
  length-set_all =
      length-set (fill (last_byte b) 255 b.bytes) (last_byte b) (low_mask b)
      ∙ length-fill (last_byte b) 255 b.bytes

  byte-set_all :
      (i : ℕ)
      → i < length b.bytes
      → byte (set_all b) i ≡ (if i == b.alloc_size - 1 then low_mask b else 255)
  unfolding set_all
  byte-set_all i lt = ground (
    arith,
    last_byte-eq v h,
    v.allocated,
    v.room,
    get_or-set (fill (last_byte b) 255 b.bytes) (last_byte b) i (low_mask b) 0 (
        omega
          (arith, length-fill (last_byte b) 255 b.bytes, last_byte-eq v h, v.allocated, v.room)),
    get_or-fill (last_byte b) 255 0 b.bytes i lt,
  )

  -- On a valid Bitset that is not empty, set() sets the bits below the size, and no other.
  pub test-set_all : (j : ℕ) → test (set_all b) j ≡ ltb j b.data_size
  unfolding test
  test-set_all j = elim (in_or_above b j) [
    | inl p ↦ ground (
      arith,
      byte-set_all (j / 8) p,
      mask_bit v h j,
      test_bit_full (j % 8) (omega arith),
      v.room,
      v.tight,
      v.allocated,
    )
    | inr p ↦
        test_above (set_all b) j (omega (arith, length-set_all))
        ∙ ground (arith, v.room, v.allocated)
  ]

  pub set_all-IsValid : IsValid (set_all b)
  unfolding set_all
  set_all-IsValid = record {
    room = v.room;
    tight = v.tight;
    allocated = length-set_all ∙ v.allocated;
    small = v.small;
    bytes_small = λ i. elim (dec_lt i (length b.bytes)) [
      | yes p ↦ ground (arith, byte-set_all i p)
      | no p ↦ ground (arith, get_or_above (set_all b).bytes i 0 (omega (arith, length-set_all)))
    ];
    tail_clear = λ j le. test-set_all j ∙ ground arith;
  }

  length-flip_all : length (flip_all b).bytes ≡ length b.bytes
  unfolding flip_all
  length-flip_all =
      length-set (map_first b.alloc_size not_byte b.bytes) (last_byte b)
        (and_byte (get_or (map_first b.alloc_size not_byte b.bytes) (last_byte b) 0) (low_mask b))
      ∙ length-map_first b.alloc_size not_byte b.bytes

  byte-flip_all :
      (i : ℕ)
      → i < length b.bytes
      → byte (flip_all b) i ≡ (
          if i == b.alloc_size - 1
          then and_byte (not_byte (byte b i)) (low_mask b)
          else not_byte (byte b i))
  unfolding flip_all
  byte-flip_all i lt =
      let flipped = map_first b.alloc_size not_byte b.bytes in
      let inside : last_byte b < length flipped = omega (
        arith,
        length-map_first b.alloc_size not_byte b.bytes,
        last_byte-eq v h,
        v.allocated,
        v.room,
      ) in
      ground (
        arith,
        last_byte-eq v h,
        v.allocated,
        get_or-set flipped (last_byte b) i (and_byte (get_or flipped (last_byte b) 0) (low_mask b))
            0 inside,
        get_or-map_first b.alloc_size not_byte 0 b.bytes i lt,
      )

  -- On a valid Bitset that is not empty, flip() inverts the bits below the size, and leaves those
  -- past it clear.
  pub test-flip_all : (j : ℕ) → test (flip_all b) j ≡ (ltb j b.data_size && not (test b j))
  unfolding test
  test-flip_all j = elim (in_or_above b j) [
    | inl p ↦ ground (
      arith,
      byte-flip_all (j / 8) p,
      mask_bit v h j,
      test_bit-not_byte (byte b (j / 8)) (j % 8) (v.bytes_small (j / 8)) (omega arith),
      test_bit-and_byte (not_byte (byte b (j / 8))) (low_mask b) (j % 8)
          (not_byte-lt (byte b (j / 8))) (omega arith) (omega arith),
      v.room,
      v.tight,
      v.allocated,
    )
    | inr p ↦
        test_above (flip_all b) j (omega (arith, length-flip_all))
        ∙ ground (arith, v.room, v.allocated)
  ]

  pub flip_all-IsValid : IsValid (flip_all b)
  unfolding flip_all
  flip_all-IsValid = record {
    room = v.room;
    tight = v.tight;
    allocated = length-flip_all ∙ v.allocated;
    small = v.small;
    bytes_small = λ i. elim (dec_lt i (length b.bytes)) [
      | yes p ↦ ground (
        arith,
        byte-flip_all i p,
        not_byte-lt (byte b i),
        and_byte-lt (not_byte (byte b i)) (low_mask b),
      )
      | no p ↦ ground (arith, get_or_above (flip_all b).bytes i 0 (omega (arith, length-flip_all)))
    ];
    tail_clear = λ j le. test-flip_all j ∙ ground arith;
  }

-- The constructor at a size above 0.
create-suc :
    (n : ℕ)
    → create (suc n)
      ≡ record { bytes = replicate (n / 8 + 1) 0; data_size = suc n; alloc_size = n / 8 + 1 }
unfolding create
create-suc n = ground arith

byte-create : (n i : ℕ) → byte (create n) i ≡ 0
unfolding create
byte-create zero i = refl
byte-create (suc n) i = rw (create-suc n) (get_or-replicate_self (n / 8 + 1) i 0)

pub test-create : (n j : ℕ) → test (create n) j ≡ false
unfolding test
test-create n j = rw (byte-create n (j / 8)) (test_bit_zero (j % 8) (omega arith))

-- A new Bitset has the size asked for, and every bit clear.
pub create-IsValid : (n : ℕ) → n < 2 ^ 32 → IsValid (create n)
unfolding create
create-IsValid zero h = record {
  room = omega arith;
  tight = omega arith;
  allocated = refl;
  small = h;
  bytes_small = λ i. omega arith;
  tail_clear = λ j _. test-create 0 j;
}
create-IsValid (suc n) h = rw (create-suc n) (record {
  room = omega arith;
  tight = omega arith;
  allocated = length-replicate (n / 8 + 1) 0;
  small = h;
  bytes_small = λ i. omega (arith, get_or-replicate_self {A = ℕ} (n / 8 + 1) i 0);
  tail_clear = λ j _. rw (create-suc n) at (test-create (suc n) j);
})

pub data_size-set_all : (b : Bitset) → (set_all b).data_size ≡ b.data_size
unfolding set_all
data_size-set_all b = refl

pub data_size-reset_all : (b : Bitset) → (reset_all b).data_size ≡ b.data_size
unfolding reset_all
data_size-reset_all b = refl

pub data_size-create : (n : ℕ) → (create n).data_size ≡ n
unfolding create
data_size-create zero = refl
data_size-create (suc n) = ground arith
