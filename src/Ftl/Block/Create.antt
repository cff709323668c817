-- ===== src/Ftl/Block/Create.antt =====
-- ftl/common/block.cc: the constructor.
use simple_ssd.Base.{
  ℕ, zero, suc, ◌^◌, ◌<◌, ◌≡◌, inl, inr, refl, List, [], arith, replicate, length-replicate,
  get_or-replicate,
}
use simple_ssd.Base.Result.{ok}
use simple_ssd.Util.Bitset
use simple_ssd.Util.Bitset.{Bitset}
use simple_ssd.Util.Bitset.Whole.{create-IsValid, data_size-create}
use simple_ssd.Ftl.Block.{Block, no_bits, next_write_page_index_at, create, erase}
use simple_ssd.Ftl.Block.View.{valid_at, erased_at, IsShaped, IsValid, counters-IsShaped}
use simple_ssd.Ftl.Block.Clear.{erase_shaped-IsValid, erase_counts, next-erase}

-- The erase count is no part of the invariant.
uncounted-IsValid : {b : Block} → IsValid b → IsValid (record b { erase_count = 0 })
unfolding valid_at erased_at
uncounted-IsValid {b} v = record {
  shaped = counters-IsShaped b b.p_next_write_page_index b.last_accessed 0 v.shaped;
  small = v.small;
  nexts_length = v.nexts_length;
  next_le = v.next_le;
  ahead_erased = v.ahead_erased;
  ahead_invalid = v.ahead_invalid;
  valid_written = v.valid_written;
}

-- A block as the constructor leaves it.
pub record IsNew (index count io_unit : ℕ) (b : Block) : Type 0 where
  pub valid : IsValid b
  pub same_index : b.idx ≡ index
  pub pages : b.page_count ≡ count
  pub units : b.io_unit_in_page ≡ io_unit
  pub nexts : (i : ℕ) → next_write_page_index_at b i ≡ 0
  pub unworn : b.erase_count ≡ 0

new-IsNew :
    (b : Block)
    → 0 < b.page_count
    → b.page_count < 2 ^ 32
    → IsShaped b
    → IsNew b.idx b.page_count b.io_unit_in_page (record (erase b) { erase_count = 0 })
new-IsNew b pos small shaped =
    let (same_idx, same_pages, same_units, _, _) = erase_counts b in
    record {
      valid = uncounted-IsValid (erase_shaped-IsValid pos small shaped);
      same_index = same_idx;
      pages = same_pages;
      units = same_units;
      nexts = next-erase b;
      unworn = refl;
    }

module _ (index count : ℕ) (pos : 0 < count) (small : count < 2 ^ 32) where
  create_single : (b : Block) × (create index count 1 ≡ ok b) × IsNew index count 1 b
  unfolding create
  create_single =
      let one : Block = record {
        idx = index;
        page_count = count;
        io_unit_in_page = 1;
        p_next_write_page_index = replicate 1 0;
        p_valid_bits = Bitset.create count;
        p_erased_bits = Bitset.create count;
        p_lpns = replicate count 0;
        valid_bits = [];
        erased_bits = [];
        pp_lpns = [];
        last_accessed = 0;
        erase_count = 0;
      } in
      (
        record (erase one) { erase_count = 0 },
        refl,
        new-IsNew one pos small (
            inl (
              refl,
              record {
                valid_ok = create-IsValid count small;
                erased_ok = create-IsValid count small;
                valid_size = data_size-create count;
                erased_size = data_size-create count;
                lpns_length = length-replicate count 0;
              },
            )),
      )

  create_multi :
      (io_unit : ℕ)
      → 1 < io_unit
      → io_unit < 2 ^ 32
      → (b : Block) × (create index count io_unit ≡ ok b) × IsNew index count io_unit b
  unfolding create
  create_multi io_unit many units_small =
      let bits = Bitset.create io_unit in
      let each = λ (p : ℕ) (h : p < count). get_or-replicate count p bits no_bits h in
      let zeros : List ℕ = replicate io_unit 0 in
      let units = λ (p : ℕ) (h : p < count). get_or-replicate count p zeros [] h in
      let blank : Block = record {
        idx = index;
        page_count = count;
        io_unit_in_page = io_unit;
        p_next_write_page_index = replicate io_unit 0;
        p_valid_bits = no_bits;
        p_erased_bits = no_bits;
        p_lpns = [];
        valid_bits = replicate count bits;
        erased_bits = replicate count bits;
        pp_lpns = replicate count (replicate io_unit 0);
        last_accessed = 0;
        erase_count = 0;
      } in
      (
        record (erase blank) { erase_count = 0 },
        ground arith,
        new-IsNew blank pos small (
            inr (
              many,
              record {
                valid_length = length-replicate count bits;
                erased_length = length-replicate count bits;
                lpns_length = length-replicate count zeros;
                valid_ok = λ p h. rw (each p h) (create-IsValid io_unit units_small);
                erased_ok = λ p h. rw (each p h) (create-IsValid io_unit units_small);
                valid_size = λ p h. rw (each p h) (data_size-create io_unit);
                erased_size = λ p h. rw (each p h) (data_size-create io_unit);
                units_length = λ p h. rw (units p h) (length-replicate io_unit 0);
              },
            )),
      )

  -- With a number of pages and of units that is positive and below 2 ^ 32, the constructor returns
  -- a valid block of these sizes, with next page 0 in every unit and an erase count of 0.
  pub create-IsNew :
      (io_unit : ℕ)
      → 0 < io_unit
      → io_unit < 2 ^ 32
      → (b : Block) × (create index count io_unit ≡ ok b) × IsNew index count io_unit b
  create-IsNew zero h _ = absurd (omega arith)
  create-IsNew (suc zero) h _ = create_single
  create-IsNew (suc (suc n)) h lt = create_multi (suc (suc n)) (omega arith) lt
