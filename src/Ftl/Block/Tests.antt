-- ===== src/Ftl/Block/Tests.antt =====
-- The theorems on ftl/common/block.cc at new blocks of four pages, of two units and of one.
use simple_ssd.Base.{ℕ, Bool, ◌≤◌, ◌<◌, ◌≡◌, ◌↔◌, ◌∙◌, sym, true, false, arith, get_or}
use simple_ssd.Base.Result.{ok}
use simple_ssd.Util.Bitset
use simple_ssd.Util.Bitset.{Bitset}
use simple_ssd.Util.Bitset.Whole
use simple_ssd.Util.Bitset.Whole.{data_size-create}
use simple_ssd.Ftl.Block.{
  Block, create, erase, write, invalidate, valid_page_count, PageInfo, page_info,
  next_write_page_index_at,
}
use simple_ssd.Ftl.Block.View.{valid_at, erased_at, lpn_at, IsValid}
use simple_ssd.Ftl.Block.Create.{IsNew, create-IsNew}
use simple_ssd.Ftl.Block.Write.{Written, write-Written, write_ok_iff}
use simple_ssd.Ftl.Block.Clear.{Erased, erase-Erased, Invalidated, invalidate-Invalidated}
use simple_ssd.Ftl.Block.Count.{valid_page_count_zero_iff, page_info_multi, page_info_single}

create-IsNew_example : (b : Block) × (create 5 4 2 ≡ ok b) × IsNew 5 4 2 b
create-IsNew_example = create-IsNew 5 4 (omega arith) (omega arith) 2 (omega arith) (omega arith)

abbrev Made : (io_unit : ℕ) → Type 0
Made io_unit = (b : Block) × (create 5 4 io_unit ≡ ok b) × IsNew 5 4 io_unit b

abbrev two_units : Made 2
two_units = create-IsNew 5 4 (omega arith) (omega arith) 2 (omega arith) (omega arith)

abbrev one_unit : Made 1
one_unit = create-IsNew 5 4 (omega arith) (omega arith) 1 (omega arith) (omega arith)

abbrev pair : Block
pair = two_units.0

abbrev single : Block
single = one_unit.0

abbrev new_pair : IsNew 5 4 2 pair
new_pair = two_units.2

first_page : 0 < pair.page_count
first_page = omega (arith, new_pair.pages)

second_unit : 1 < pair.io_unit_in_page
second_unit = omega (arith, new_pair.units)

at_front : next_write_page_index_at pair 1 ≤ 0
at_front = omega (arith, new_pair.nexts 1)

new_unit_erased : erased_at pair 0 1 ≡ true
new_unit_erased = new_pair.valid.ahead_erased 0 1 first_page second_unit at_front

write-Written_example :
    (c : Block) × (write pair 0 9 1 100 ≡ ok (c, true)) × Written pair 0 9 1 100 c
write-Written_example =
    write-Written {b = pair} new_pair.valid {p = 0} {i = 1} first_page second_unit 9 100
      new_unit_erased at_front

-- The block with that unit written.
abbrev once : (c : Block) × (write pair 0 9 1 100 ≡ ok (c, true)) × Written pair 0 9 1 100 c
once =
    write-Written {b = pair} new_pair.valid {p = 0} {i = 1} first_page second_unit 9 100
      new_unit_erased at_front

abbrev written : Block
written = once.0

abbrev was_written : Written pair 0 9 1 100 written
was_written = once.2

again_page : 0 < written.page_count
again_page = omega (arith, was_written.same_pages, first_page)

again_unit : 1 < written.io_unit_in_page
again_unit = omega (arith, was_written.same_units, second_unit)

no_longer_erased : erased_at written 0 1 ≡ false
no_longer_erased = was_written.erased 0 1 first_page second_unit

write_ok_iff_example :
    ((c : Block) × (done : Bool) × (write written 0 9 1 101 ≡ ok (c, done)))
    ↔ ((erased_at written 0 1 ≡ true) × (next_write_page_index_at written 1 ≤ 0))
write_ok_iff_example =
    write_ok_iff {b = written} was_written.valid_block {p = 0} {i = 1} again_page again_unit 9 101

invalidate-Invalidated_example :
    (c : Block) × (invalidate written 0 1 ≡ ok c) × Invalidated written 0 1 c × IsValid c
invalidate-Invalidated_example =
    invalidate-Invalidated {b = written} {p = 0} {i = 1} was_written.valid_block again_page
      again_unit

erase-Erased_example : Erased written (erase written)
erase-Erased_example = erase-Erased {b = written} again_page was_written.valid_block

valid_page_count_zero_iff_example : (valid_page_count written ≡ 0) ↔ (
    (p i : ℕ) → p < written.page_count → i < written.io_unit_in_page → valid_at written p i ≡ false)
valid_page_count_zero_iff_example = valid_page_count_zero_iff {b = written} was_written.valid_block

abbrev two_bits : Bitset
two_bits = Bitset.create 2

abbrev one_bit : Bitset
one_bit = Bitset.create 1

page_info_multi_example :
    (r : PageInfo) × (page_info written 0 two_bits ≡ ok r)
    × ((i : ℕ) → i < written.io_unit_in_page → Bitset.test r.bits i ≡ valid_at written 0 i)
    × ((i : ℕ) → i < written.io_unit_in_page → get_or r.lpns i 0 ≡ lpn_at written 0 i)
    × ((r.any ≡ false) ↔ ((i : ℕ) → i < written.io_unit_in_page → valid_at written 0 i ≡ false))
page_info_multi_example =
    page_info_multi written two_bits 0 was_written.valid_block again_unit
      (data_size-create 2 ∙ sym new_pair.units ∙ sym was_written.same_units) again_page

page_info_single_example :
    (r : PageInfo) × (page_info single 0 one_bit ≡ ok r)
    × (r.any ≡ true)
    × (Bitset.test r.bits 0 ≡ true)
page_info_single_example =
    page_info_single single one_bit 0 one_unit.2.units (Whole.create-IsValid 1 (omega arith))
      (data_size-create 1)
