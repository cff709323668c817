-- ===== src/Ftl/PageMapping/Tests.antt =====
-- The theorems on ftl/page_mapping.cc at concrete states: four blocks of four pages, of two units
-- each, with one stripe and the random I/O tweak.
use mathlib.Core.List.{reverse}
use simple_ssd.Base.{
  get_or, [], ◌∷◌, inl, inr, Bool-cases, ℕ, ◌+◌, ◌-◌, ◌<◌, ◌≡◌, ◌∙◌, sym, true, false, List, none,
  some, arith,
}
use simple_ssd.Base.Result.{ok, panic, block_not_in_use}
use simple_ssd.Base.Map
use simple_ssd.Base.Map.{find}
use simple_ssd.Util.Bitset
use simple_ssd.Util.Bitset.{Bitset}
use simple_ssd.Util.Bitset.Whole
use simple_ssd.Util.Bitset.Whole.{
  test-set_all, set_all-IsValid, data_size-set_all, data_size-create, test-create,
}
use simple_ssd.Util.Bitset.Access.{set_at-IsValid, data_size-set_at, test-set_at}
use simple_ssd.Ftl.Block
use simple_ssd.Ftl.Block.{Block}
use simple_ssd.Ftl.Block.View.{valid_at, lpn_at}
use simple_ssd.Ftl.Block.Count.{valid_page_count_zero_iff}
use simple_ssd.Ftl.Block.Create.{IsNew, create-IsNew}
use simple_ssd.Ftl.PageMapping.Open.{with_open, with_open-IsConsistent}
use simple_ssd.Ftl.PageMapping.Recycle.{IsFalling, erase_internal}
use simple_ssd.Ftl.PageMapping.Erase.{Recycled, erase_internal-Recycled}
use simple_ssd.Ftl.PageMapping.State.{PageMapping, Parameter, Request, PalRequest, Clock, Hardware}
use simple_ssd.Ftl.PageMapping.Alloc.{get_free_block, get_last_free_block}
use simple_ssd.Ftl.PageMapping.Access.{write_pages, read_internal, trim_internal}
use simple_ssd.Ftl.PageMapping.Consistent.{IsConsistent, unit_of, IsUnmapped}
use simple_ssd.Ftl.PageMapping.FreeList.{Picked, TakenFrom}
use simple_ssd.Ftl.PageMapping.Room.{
  IsFlag, Opened, get_free_block-Picked, get_last_free_block-Opened,
}
use simple_ssd.Ftl.PageMapping.Write.{IsValid, Stores, write_pages-Stores}
use simple_ssd.Ftl.PageMapping.Create.{IsParameter, create, create-IsValid}
use simple_ssd.Ftl.PageMapping.Trim.{Trimmed, trim_internal-Trimmed, trim_internal_unmapped}
use simple_ssd.Ftl.PageMapping.Read.{Kept, read_clock, read_internal-Kept}

abbrev small : Parameter
small = record {
  total_physical_blocks = 4;
  total_logical_blocks = 2;
  pages_in_block = 4;
  page_size = 4096;
  io_unit_in_page = 2;
  page_count_to_max_perf = 1;
}

small-IsParameter : IsParameter small
small-IsParameter = record {
  pages_pos = omega arith;
  pages_small = omega arith;
  units_pos = omega arith;
  units_small = omega arith;
  perf_pos = omega arith;
  perf_small = omega arith;
  enough = omega arith;
}

create-IsValid_example :
    (s : PageMapping) × (create small true ≡ ok s)
    × IsValid s
    × (s.param ≡ small)
    × (s.random_tweak ≡ true)
    × (s.bitset_size ≡ 2)
    × (s.n_free_blocks + 1 ≡ 4)
    × ((l : ℕ) → find l s.table ≡ none)
create-IsValid_example = create-IsValid small true small-IsParameter

-- The new mapping.
abbrev made :
    (s : PageMapping) × (create small true ≡ ok s)
    × IsValid s
    × (s.param ≡ small)
    × (s.random_tweak ≡ true)
    × (s.bitset_size ≡ 2)
    × (s.n_free_blocks + 1 ≡ 4)
    × ((l : ℕ) → find l s.table ≡ none)
made = create-IsValid small true small-IsParameter

abbrev first : PageMapping
first = made.0

first-IsValid : IsValid first
first-IsValid = made.2

first_has_free : 0 < first.n_free_blocks
first_has_free = omega (arith, made.6)

-- Each call to the hardware takes some time, and is counted.
abbrev timed : ℕ → Clock ℕ → Clock ℕ
timed n c = record { tick = c.tick + n; device = c.device + 1 }

abbrev slow : Hardware ℕ
slow = record {
  pal_read = λ r c. timed 50 c;
  pal_write = λ r c. timed 200 c;
  pal_erase = λ r c. timed 900 c;
  dram_read = λ l n c. timed n c;
  dram_write = λ l n c. timed n c;
  apply_latency = λ f c. timed 1 c;
}

abbrev start : Clock ℕ
start = record { tick = 100; device = 0 }

-- One of two units, and both.
abbrev half : Bitset
half = Bitset.set_at (Bitset.create 2) 0 true

abbrev full : Bitset
full = Bitset.set_all (Bitset.create 2)

empty-IsValid : Bitset.IsValid (Bitset.create 2)
empty-IsValid = Whole.create-IsValid 2 (omega arith)

empty_size : (Bitset.create 2).data_size ≡ 2
empty_size = data_size-create 2

half-IsFlag : IsFlag first half
half-IsFlag = record {
  valid = set_at-IsValid empty-IsValid 0 (omega (arith, empty_size)) true;
  sized =
      data_size-set_at empty-IsValid 0 (omega (arith, empty_size)) true
      ∙ empty_size
      ∙ sym (ground (arith, made.3));
}

abbrev write_half : Request
write_half = record { req_id = 1; req_sub_id = 1; lpn = 7; io_flag = half }

abbrev write_full : Request
write_full = record { req_id = 2; req_sub_id = 1; lpn = 7; io_flag = full }

write_pages-Stores_example : Stores first half 7 (write_pages slow first write_half true start)
write_pages-Stores_example =
    write_pages-Stores slow {s = first} write_half true start first-IsValid half-IsFlag
      first_has_free

full-IsFlag : IsFlag first full
full-IsFlag = record {
  valid = set_all-IsValid empty-IsValid (omega (arith, empty_size));
  sized = data_size-set_all (Bitset.create 2) ∙ empty_size ∙ sym (ground (arith, made.3));
}

-- The mapping after one write of both units, and after one of the first.
stored_full : Stores first full 7 (write_pages slow first write_full true start)
stored_full =
    write_pages-Stores slow {s = first} write_full true start first-IsValid full-IsFlag
      first_has_free

stored_half : Stores first half 7 (write_pages slow first write_half true start)
stored_half =
    write_pages-Stores slow {s = first} write_half true start first-IsValid half-IsFlag
      first_has_free

abbrev after_full : PageMapping
after_full = stored_full.next

abbrev after_half : PageMapping
after_half = stored_half.next

all_mapped :
    (mapping : List (ℕ × ℕ)) (i : ℕ)
    → find 7 after_full.table ≡ some mapping
    → i < after_full.bitset_size
    → ¬ IsUnmapped after_full (unit_of mapping i)
all_mapped mapping i e hi u =
    let small_i : i < 2 = omega (arith, stored_full.same_size, made.5) in
    let full_i : Bitset.test full i ≡ true =
      ground (arith, test-set_all empty-IsValid (omega (arith, empty_size)) i, empty_size) in
    let held = stored_full.stored i (omega (arith, made.5)) (ground arith) in
    let same : stored_full.mapping ≡ mapping = ground (arith, stored_full.mapped) in
    ground (arith, held.page_lt)

trim_internal-Trimmed_example :
    Trimmed after_full 7 (trim_internal slow after_full write_full start)
trim_internal-Trimmed_example =
    trim_internal-Trimmed slow {s = after_full} write_full start stored_full.valid all_mapped

second_left_out : Bitset.test half 1 ≡ false
second_left_out =
    ground (arith, test-set_at empty-IsValid 0 (omega (arith, empty_size)) true 1, test-create 2 1)

second_nowhere : IsUnmapped after_half (unit_of stored_half.mapping 1)
second_nowhere =
    let fresh =
      stored_half.fresh 1 (omega (arith, made.5)) (made.7 7)
        (ground (arith, second_left_out, made.4)) in
    (
      ground (arith, fresh.0, stored_half.same_param),
      ground (arith, fresh.1, stored_half.same_param),
    )

trim_internal_unmapped_example :
    trim_internal slow after_half write_half start ≡ panic block_not_in_use
trim_internal_unmapped_example =
    trim_internal_unmapped slow {s = after_half} write_half start stored_half.valid
      stored_half.mapping 1 stored_half.mapped (omega (arith, stored_half.same_size, made.5))
      second_nowhere

read_internal-Kept_example :
    Kept after_half
      (read_clock slow after_half write_full start)
      (read_internal slow after_half write_full start)
read_internal-Kept_example =
    read_internal-Kept slow {s = after_half} write_full start stored_half.valid

get_last_free_block-Opened_example : Opened first (λ l i. false) (get_last_free_block first half)
get_last_free_block-Opened_example =
    get_last_free_block-Opened {s = first} {away = λ l i. false} first-IsValid.consistent
      first-IsValid.allocated first_has_free {flag = half} half-IsFlag

get_free_block-Picked_example :
    (b : Block) × (rest : List Block) × (get_free_block first 0
      ≡ ok (
        b.idx,
        record first {
          blocks = Map.insert b.idx b first.blocks;
          free_blocks = rest;
          n_free_blocks = first.n_free_blocks - 1;
        },
      ))
    × Picked first.param first.blocks first.free_blocks b rest
    × TakenFrom first.param.page_count_to_max_perf 0 first.free_blocks b rest
get_free_block-Picked_example =
    get_free_block-Picked {s = first} 0 first-IsValid.allocated.free first-IsValid.allocated.counted
      first_has_free (ground (arith, made.3))

-- The first mapping with one free block, index 3, left.
abbrev new_spare : (b : Block) × (Block.create 3 4 2 ≡ ok b) × IsNew 3 4 2 b
new_spare = create-IsNew 3 4 (omega arith) (omega arith) 2 (omega arith) (omega arith)

abbrev spare : Block
spare = new_spare.0

abbrev nearly_full : PageMapping
nearly_full =
    with_open first (spare ∷ []) 1 first.last_free_block first.last_free_block_io_map
      first.last_free_block_index first.reclaim_more

nearly_full-IsConsistent : IsConsistent nearly_full (λ l i. false)
nearly_full-IsConsistent =
    with_open-IsConsistent first-IsValid.consistent (spare ∷ []) 1 first.last_free_block
      first.last_free_block_io_map first.last_free_block_index first.reclaim_more

-- Its open block has no valid page, as nothing is mapped.
abbrev open_key : ℕ
open_key = get_or first.last_free_block 0 0

stripe_exists : 0 < first.param.page_count_to_max_perf
stripe_exists = ground (arith, made.3)

abbrev opened_block : (b : Block) × (find open_key first.blocks ≡ some b)
opened_block = first-IsValid.allocated.open_used 0 (stripe_exists)

nothing_valid : Block.valid_page_count opened_block.0 ≡ 0
nothing_valid =
    let sized = (first-IsValid.consistent.blocks_ok open_key opened_block.0 opened_block.1).0 in
    let two : first.param.io_unit_in_page ≡ 2 = ground (arith, made.3) in
    (valid_page_count_zero_iff sized.valid).1 (λ p i hp hi.
      elim (Bool-cases (valid_at opened_block.0 p i)) [
        | inr e ↦ e
        | inl e ↦
            let (_, m, at_m, _, _) =
              first-IsValid.consistent.backward open_key opened_block.0 p i opened_block.1
                (omega (arith, sized.pages)) (omega (arith, sized.units, made.5, two)) e in
            absurd (ground (arith, made.7 (lpn_at opened_block.0 p i)))
      ])

abbrev erase_open : PalRequest
erase_open = record {
  req_id = 0;
  req_sub_id = 0;
  block_index = open_key;
  page_index = 0;
  io_flag = full;
}

spare-IsFalling : IsFalling (reverse (spare ∷ []))
spare-IsFalling = (tt, tt)

erase_internal-Recycled_example :
    Recycled nearly_full 100 open_key opened_block.0
      (record { tick = 1001; device = 2 })
      (erase_internal slow 100 nearly_full erase_open start)
erase_internal-Recycled_example =
    erase_internal-Recycled slow 100 {s = nearly_full} erase_open start opened_block.0
      nearly_full-IsConsistent opened_block.1 nothing_valid (omega arith) spare-IsFalling
