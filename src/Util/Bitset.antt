-- ===== src/Util/Bitset.antt =====
-- `Bitset` of util/bitset.cc and util/bitset.hh: an array of bytes, with a size in bits and one in
-- bytes. Each method that changes the object returns the new one. An index past the array is
-- undefined in C++; here it reads 0 and writes nothing, and the theorems ask for an index in range.
pub mod Byte
pub mod Access
pub mod Whole
pub mod Count
pub mod Combine
pub mod Tests
use simple_ssd.Base.{
  ℕ, ◌+◌, ◌-◌, ◌*◌, ◌/◌, ◌%◌, ◌^◌, ◌≤◌, ◌<◌, ◌≡◌, Bool, true, false, not, List, [], arith, ltb,
  ◌==◌, if◌then◌else◌, length, get_or, set, replicate, fill, map_first, zip_first, fold_first,
  bit_and, bit_or,
}
use simple_ssd.Base.Result.{Result, ok, panic, size_mismatch}
use Byte.{
  u8, test_bit, set_bit, clear_bit, flip_bit, not_byte, and_byte, or_byte, xor_byte, popcount,
}

pub record Bitset : Type 0 where
  pub bytes : List ℕ
  pub data_size : ℕ
  pub alloc_size : ℕ

-- The macro DIVCEIL of util/algorithm.hh; it is used at `0 < x`.
abbrev pub div_ceil : ℕ → ℕ → ℕ
div_ceil x y = (x - 1) / y + 1

-- Bitset(size); `calloc` clears the bytes.
unfoldable pub create : ℕ → Bitset
create size =
    if ltb 0 size
    then record {
      bytes = replicate (div_ceil size 8) 0;
      data_size = size;
      alloc_size = div_ceil size 8;
    }
    else record { bytes = []; data_size = 0; alloc_size = 0 }

abbrev pub byte : Bitset → ℕ → ℕ
byte b i = get_or b.bytes i 0

-- test(idx), and operator[]
unfoldable pub test : Bitset → ℕ → Bool
test b idx = test_bit (byte b (idx / 8)) (idx % 8)

-- `allocSize - 1` of a `uint32_t`
abbrev pub last_byte : Bitset → ℕ
last_byte b = (b.alloc_size + 2 ^ 32 - 1) % 2 ^ 32

-- `0xFF >> (allocSize * 8 - dataSize)`, stored in a `uint8_t`
abbrev pub low_mask : Bitset → ℕ
low_mask b = u8 (255 / 2 ^ (b.alloc_size * 8 - b.data_size))

-- `0xFF << (dataSize + 8 - allocSize * 8)`, stored in a `uint8_t`
abbrev pub high_mask : Bitset → ℕ
high_mask b = u8 (255 * 2 ^ (b.data_size + 8 - b.alloc_size * 8))

unfoldable pub all : Bitset → Bool
all b =
    let ret = fold_first (last_byte b) bit_and 255 b.bytes in
    bit_and ret (bit_or (byte b (last_byte b)) (high_mask b)) == 255

unfoldable pub none : Bitset → Bool
none b = fold_first b.alloc_size bit_or 0 b.bytes == 0

unfoldable pub any : Bitset → Bool
any b = not (none b)

unfoldable pub count : Bitset → ℕ
count b = fold_first b.alloc_size (λ n x. n + popcount x) 0 b.bytes

abbrev pub size : Bitset → ℕ
size b = b.data_size

-- `data[idx / 8] = f(data[idx / 8], idx % 8)`
unfoldable pub update : (ℕ → ℕ → ℕ) → Bitset → ℕ → Bitset
update f b idx = record b { bytes = set b.bytes (idx / 8) (f (byte b (idx / 8)) (idx % 8)) }

-- reset(idx)
unfoldable pub reset_at : Bitset → ℕ → Bitset
reset_at = update clear_bit

-- set(idx, value): clear the bit, then set it if `value` says so.
unfoldable pub set_at : Bitset → ℕ → Bool → Bitset
set_at b idx value =
    let cleared = reset_at b idx in if value then update set_bit cleared idx else cleared

-- flip(idx)
unfoldable pub flip_at : Bitset → ℕ → Bitset
flip_at = update flip_bit

-- set()
unfoldable pub set_all : Bitset → Bitset
set_all b = record b { bytes = set (fill (last_byte b) 255 b.bytes) (last_byte b) (low_mask b) }

-- reset()
unfoldable pub reset_all : Bitset → Bitset
reset_all b = record b { bytes = fill b.alloc_size 0 b.bytes }

-- flip()
unfoldable pub flip_all : Bitset → Bitset
flip_all b =
    let flipped = map_first b.alloc_size not_byte b.bytes in
    record b {
      bytes = set flipped (last_byte b) (and_byte (get_or flipped (last_byte b) 0) (low_mask b));
    }

-- The loop of `&=`, `|=` and `^=`, behind their check of the sizes.
unfoldable pub combine : (ℕ → ℕ → ℕ) → Bitset → Bitset → Result Bitset
combine f b rhs =
    if b.data_size == rhs.data_size
    then ok (record b { bytes = zip_first b.alloc_size f b.bytes rhs.bytes })
    else panic size_mismatch

-- operator& and operator&=
unfoldable pub and_with : Bitset → Bitset → Result Bitset
and_with = combine and_byte

-- operator| and operator|=
unfoldable pub or_with : Bitset → Bitset → Result Bitset
or_with = combine or_byte

-- operator^ and operator^=
unfoldable pub xor_with : Bitset → Bitset → Result Bitset
xor_with = combine xor_byte

-- operator~
unfoldable pub complement : Bitset → Bitset
complement = flip_all

-- What every Bitset keeps: the array has room for the bits and no more, and the bits of its last
-- byte past the size are clear. The size is a `uint32_t`.
pub record IsValid (b : Bitset) : Type 0 where
  pub room : b.data_size ≤ b.alloc_size * 8
  pub tight : b.alloc_size * 8 < b.data_size + 8
  pub allocated : length b.bytes ≡ b.alloc_size
  pub small : b.data_size < 2 ^ 32
  pub bytes_small : (i : ℕ) → byte b i < 256
  pub tail_clear : (j : ℕ) → b.data_size ≤ j → test b j ≡ false
