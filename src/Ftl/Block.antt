-- ===== src/Ftl/Block.antt =====
-- `Block` of ftl/common/block.cc: the pages of one (super)block. Each page has `ioUnitInPage`
-- units; with one unit the state is in `p_valid_bits`, `p_erased_bits` and `p_lpns`, with more in
-- `valid_bits`, `erased_bits` and `pp_lpns`. The raw arrays of numbers read 0 past their end.
pub mod View
pub mod Write
pub mod Clear
pub mod Count
pub mod Create
pub mod Tests
use simple_ssd.Base.{
  ℕ, zero, suc, ◌+◌, ◌*◌, ◌%◌, ◌^◌, ◌≤◌, ◌<◌, ◌≡◌, Bool, true, false, ◌&&◌, List, [], ◌∷◌, map,
  arith, ltb, ◌==◌, if◌then◌else◌, length, get_or, set, replicate,
}
use simple_ssd.Base.Result.{
  Result, ok, panic, ◌>>=◌, ◌>>◌, panic_if, at, io_map_size_mismatch, invalid_io_unit,
  not_sequential, not_erased, size_mismatch,
}
use simple_ssd.Util.Bitset
use simple_ssd.Util.Bitset.{Bitset}

pub record Block : Type 0 where
  pub idx : ℕ
  pub page_count : ℕ
  pub io_unit_in_page : ℕ
  pub p_next_write_page_index : List ℕ
  pub p_valid_bits : Bitset
  pub p_erased_bits : Bitset
  pub p_lpns : List ℕ
  pub valid_bits : List Bitset
  pub erased_bits : List Bitset
  pub pp_lpns : List (List ℕ)
  pub last_accessed : ℕ
  pub erase_count : ℕ

-- `ioUnitInPage == 1`
abbrev pub is_single : Block → Bool
is_single b = b.io_unit_in_page == 1

-- A null pointer to a Bitset.
abbrev pub no_bits : Bitset
no_bits = record { bytes = []; data_size = 0; alloc_size = 0 }

-- erase()
unfoldable pub erase : Block → Block
erase b =
    let counted = record b {
      p_next_write_page_index = replicate b.io_unit_in_page 0;
      erase_count = (b.erase_count + 1) % 2 ^ 32;
    } in
    if is_single b
    then record counted {
      p_valid_bits = Bitset.reset_all b.p_valid_bits;
      p_erased_bits = Bitset.set_all b.p_erased_bits;
    }
    else record counted {
      valid_bits = map Bitset.reset_all b.valid_bits;
      erased_bits = map Bitset.set_all b.erased_bits;
    }

-- Block(blockIdx, count, ioUnit)
unfoldable pub create : ℕ → ℕ → ℕ → Result Block
unfolding erase
create block_idx count io_unit =
    let blank : Block = record {
      idx = block_idx;
      page_count = count;
      io_unit_in_page = io_unit;
      p_next_write_page_index = replicate io_unit 0;
      p_valid_bits = no_bits;
      p_erased_bits = no_bits;
      p_lpns = [];
      valid_bits = [];
      erased_bits = [];
      pp_lpns = [];
      last_accessed = 0;
      erase_count = 0;
    } in
    let one = record blank {
      p_valid_bits = Bitset.create count;
      p_erased_bits = Bitset.create count;
      p_lpns = replicate count 0;
    } in
    let many = record blank {
      valid_bits = replicate count (Bitset.create io_unit);
      erased_bits = replicate count (Bitset.create io_unit);
      pp_lpns = replicate count (replicate io_unit 0);
    } in
    if io_unit == 1
    then ok (record (erase one) { erase_count = 0 })
    else if ltb 1 io_unit
    then ok (record (erase many) { erase_count = 0 })
    else panic invalid_io_unit

-- getNextWritePageIndex(idx)
abbrev pub next_write_page_index_at : Block → ℕ → ℕ
next_write_page_index_at b idx = get_or b.p_next_write_page_index idx 0

-- getNextWritePageIndex(): the greatest over the units.
abbrev pub greatest : List ℕ → ℕ → ℕ
greatest [] m = m
greatest (x ∷ xs) m = greatest xs (if ltb m x then x else m)

unfoldable pub next_write_page_index : Block → ℕ
next_write_page_index b = greatest b.p_next_write_page_index 0

-- How many of the bitsets have a bit set, and how many bits they have.
pub count_any : List Bitset → ℕ
count_any [] = 0
count_any (x ∷ xs) = (if Bitset.any x then 1 else 0) + count_any xs

pub count_bits : List Bitset → ℕ
count_bits [] = 0
count_bits (x ∷ xs) = Bitset.count x + count_bits xs

-- getValidPageCount()
unfoldable pub valid_page_count : Block → ℕ
valid_page_count b = if is_single b then Bitset.count b.p_valid_bits else count_any b.valid_bits

-- getValidPageCountRaw()
unfoldable pub valid_page_count_raw : Block → ℕ
valid_page_count_raw b =
    if is_single b then Bitset.count b.p_valid_bits else count_bits b.valid_bits

-- `~(valid | erased)`
abbrev pub dirty_bits : Bitset → Bitset → Result Bitset
dirty_bits valid erased = do used ← Bitset.or_with valid erased; ok (Bitset.complement used)

-- The loop of getDirtyPageCount() from page `i`, with `n` pages to go.
pub dirty_pages : Block → ℕ → ℕ → Result ℕ
dirty_pages b zero i = ok 0
dirty_pages b (suc n) i = do
  valid ← at b.valid_bits i
  erased ← at b.erased_bits i
  dirty ← dirty_bits valid erased
  rest ← dirty_pages b n (i + 1)
  ok ((if Bitset.any dirty then 1 else 0) + rest)

-- getDirtyPageCount()
unfoldable pub dirty_page_count : Block → Result ℕ
dirty_page_count b =
    if is_single b
    then (do dirty ← dirty_bits b.p_valid_bits b.p_erased_bits; ok (Bitset.count dirty))
    else dirty_pages b b.page_count 0

-- getPageInfo(pageIndex, lpn, map): the new `map` and `lpn`, and the result.
pub record PageInfo : Type 0 where
  pub lpns : List ℕ
  pub bits : Bitset
  pub any : Bool

unfoldable pub page_info : Block → ℕ → Bitset → Result PageInfo
page_info b page_index bits =
    if is_single b && (Bitset.size bits == 1)
    then (do
      let all = Bitset.set_all bits
      ok (record { lpns = get_or b.p_lpns page_index 0 ∷ []; bits = all; any = Bitset.any all }))
    else if Bitset.size bits == b.io_unit_in_page
    then (do
      stored ← at b.valid_bits page_index
      ok (record { lpns = get_or b.pp_lpns page_index []; bits = stored; any = Bitset.any stored }))
    else panic io_map_size_mismatch

-- The bit that read() and write() look at, in one of the two arrays.
abbrev pub unit_bit : Block → Bitset → List Bitset → ℕ → ℕ → Result Bool
unit_bit b one many page_index idx =
    if is_single b && (idx == 0)
    then ok (Bitset.test one page_index)
    else if ltb idx b.io_unit_in_page
    then (do bits ← at many page_index; ok (Bitset.test bits idx))
    else panic io_map_size_mismatch

-- read(pageIndex, idx, tick)
unfoldable pub read : Block → ℕ → ℕ → ℕ → Result (Block × Bool)
read b page_index idx tick = do
  valid ← unit_bit b b.p_valid_bits b.valid_bits page_index idx
  ok (if valid then record b { last_accessed = tick } else b, valid)

-- The stores of write() into the bits and the LPNs.
unfoldable pub store_unit : Block → ℕ → ℕ → ℕ → Result Block
store_unit b page_index lpn idx =
    if is_single b
    then ok (record b {
      p_erased_bits = Bitset.reset_at b.p_erased_bits page_index;
      p_valid_bits = Bitset.set_at b.p_valid_bits page_index true;
      p_lpns = set b.p_lpns page_index lpn;
    })
    else (do
      erased ← at b.erased_bits page_index
      valid ← at b.valid_bits page_index
      ok (record b {
        erased_bits = set b.erased_bits page_index (Bitset.reset_at erased idx);
        valid_bits = set b.valid_bits page_index (Bitset.set_at valid idx true);
        pp_lpns = set b.pp_lpns page_index (set (get_or b.pp_lpns page_index []) idx lpn);
      }))

-- write(pageIndex, lpn, idx, tick)
unfoldable pub write : Block → ℕ → ℕ → ℕ → ℕ → Result (Block × Bool)
write b page_index lpn idx tick = do
  erased ← unit_bit b b.p_erased_bits b.erased_bits page_index idx
  if erased
      then (do
        panic_if (ltb page_index (next_write_page_index_at b idx)) not_sequential
        stored ← store_unit (record b { last_accessed = tick }) page_index lpn idx
        ok (
          record stored {
            p_next_write_page_index =
                set stored.p_next_write_page_index idx ((page_index + 1) % 2 ^ 32);
          },
          true,
        ))
      else panic not_erased

-- invalidate(pageIndex, idx)
unfoldable pub invalidate : Block → ℕ → ℕ → Result Block
invalidate b page_index idx =
    if is_single b
    then ok (record b { p_valid_bits = Bitset.reset_at b.p_valid_bits page_index })
    else (do
      valid ← at b.valid_bits page_index
      ok (record b { valid_bits = set b.valid_bits page_index (Bitset.reset_at valid idx) }))
