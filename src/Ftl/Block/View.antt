-- ===== src/Ftl/Block/View.antt =====
-- ftl/common/block.cc: what a block holds at a page and a unit of it, whichever of the two
-- representations it has, and the invariant of its methods.
use simple_ssd.Base.{
  ℕ, ◌^◌, ◌≤◌, ◌<◌, ◌≡◌, ◌⊎◌, inl, inr, Bool, true, false, List, [], arith, if◌then◌else◌, length,
  get_or,
}
use simple_ssd.Base.Result.{ok, at-eq-get_or}
use simple_ssd.Util.Bitset
use simple_ssd.Util.Bitset.{Bitset}
use simple_ssd.Ftl.Block.{Block, is_single, no_bits, next_write_page_index_at, unit_bit}

-- Is unit `i` of page `p` valid; is it erased; whose data does it hold?
unfoldable pub valid_at : Block → ℕ → ℕ → Bool
valid_at b p i =
    if is_single b
    then Bitset.test b.p_valid_bits p
    else Bitset.test (get_or b.valid_bits p no_bits) i

unfoldable pub erased_at : Block → ℕ → ℕ → Bool
erased_at b p i =
    if is_single b
    then Bitset.test b.p_erased_bits p
    else Bitset.test (get_or b.erased_bits p no_bits) i

unfoldable pub lpn_at : Block → ℕ → ℕ → ℕ
lpn_at b p i = if is_single b then get_or b.p_lpns p 0 else get_or (get_or b.pp_lpns p []) i 0

-- The arrays have the sizes that the block's counts say.
pub record IsSingle (b : Block) : Type 0 where
  pub valid_ok : Bitset.IsValid b.p_valid_bits
  pub erased_ok : Bitset.IsValid b.p_erased_bits
  pub valid_size : b.p_valid_bits.data_size ≡ b.page_count
  pub erased_size : b.p_erased_bits.data_size ≡ b.page_count
  pub lpns_length : length b.p_lpns ≡ b.page_count

pub record IsMulti (b : Block) : Type 0 where
  pub valid_length : length b.valid_bits ≡ b.page_count
  pub erased_length : length b.erased_bits ≡ b.page_count
  pub lpns_length : length b.pp_lpns ≡ b.page_count
  pub valid_ok : (p : ℕ) → p < b.page_count → Bitset.IsValid (get_or b.valid_bits p no_bits)
  pub erased_ok : (p : ℕ) → p < b.page_count → Bitset.IsValid (get_or b.erased_bits p no_bits)
  pub valid_size :
      (p : ℕ) → p < b.page_count → (get_or b.valid_bits p no_bits).data_size ≡ b.io_unit_in_page
  pub erased_size :
      (p : ℕ) → p < b.page_count → (get_or b.erased_bits p no_bits).data_size ≡ b.io_unit_in_page
  pub units_length : (p : ℕ) → p < b.page_count → length (get_or b.pp_lpns p []) ≡ b.io_unit_in_page

abbrev pub IsShaped : Block → Type 0
IsShaped b = ((b.io_unit_in_page ≡ 1) × IsSingle b) ⊎ ((1 < b.io_unit_in_page) × IsMulti b)

-- What every block keeps. From a unit's next page on, the unit is erased and not valid; a valid
-- unit is not erased.
pub record IsValid (b : Block) : Type 0 where
  pub shaped : IsShaped b
  pub small : b.page_count < 2 ^ 32
  pub nexts_length : length b.p_next_write_page_index ≡ b.io_unit_in_page
  pub next_le : (i : ℕ) → i < b.io_unit_in_page → next_write_page_index_at b i ≤ b.page_count
  pub ahead_erased :
      (p i : ℕ)
      → p < b.page_count
      → i < b.io_unit_in_page
      → next_write_page_index_at b i ≤ p
      → erased_at b p i ≡ true
  pub ahead_invalid :
      (p i : ℕ)
      → p < b.page_count
      → i < b.io_unit_in_page
      → next_write_page_index_at b i ≤ p
      → valid_at b p i ≡ false
  pub valid_written :
      (p i : ℕ)
      → p < b.page_count
      → i < b.io_unit_in_page
      → valid_at b p i ≡ true
      → erased_at b p i ≡ false

pub units_pos : {b : Block} → IsShaped b → 0 < b.io_unit_in_page
units_pos (inl (one, _)) = omega arith
units_pos (inr (many, _)) = omega arith

-- read() and write() look at the bit of the unit.
module _ {b : Block} {p i : ℕ} (hp : p < b.page_count) (hi : i < b.io_unit_in_page) where
  pub unit_bit_valid : IsShaped b → unit_bit b b.p_valid_bits b.valid_bits p i ≡ ok (valid_at b p i)
  unfolding valid_at
  unit_bit_valid (inl (one, s)) = ground arith
  unit_bit_valid (inr (many, s)) =
      ground (arith, s.valid_length, at-eq-get_or b.valid_bits p no_bits)

  pub unit_bit_erased :
      IsShaped b → unit_bit b b.p_erased_bits b.erased_bits p i ≡ ok (erased_at b p i)
  unfolding erased_at
  unit_bit_erased (inl (one, s)) = ground arith
  unit_bit_erased (inr (many, s)) =
      ground (arith, s.erased_length, at-eq-get_or b.erased_bits p no_bits)

-- The counters and the time are no part of the shape.
pub counters-IsShaped :
    (b : Block) (nexts : List ℕ) (tick erases : ℕ)
    → IsShaped b
    → IsShaped
        (record b { p_next_write_page_index = nexts; last_accessed = tick; erase_count = erases })
counters-IsShaped b nexts tick erases (inl (one, s)) = inl (
  one,
  record {
    valid_ok = s.valid_ok;
    erased_ok = s.erased_ok;
    valid_size = s.valid_size;
    erased_size = s.erased_size;
    lpns_length = s.lpns_length;
  },
)
counters-IsShaped b nexts tick erases (inr (many, s)) = inr (
  many,
  record {
    valid_length = s.valid_length;
    erased_length = s.erased_length;
    lpns_length = s.lpns_length;
    valid_ok = s.valid_ok;
    erased_ok = s.erased_ok;
    valid_size = s.valid_size;
    erased_size = s.erased_size;
    units_length = s.units_length;
  },
)
