-- ===== src/Ftl/PageMapping/Room.antt =====
-- ftl/page_mapping.cc: getFreeBlock() and getLastFreeBlock() return a block with room.
use simple_ssd.Base.{
  ℕ, zero, suc, ◌-◌, ◌≤◌, ◌<◌, ◌≡◌, ◌≢◌, ◌∙◌, sym, inl, inr, refl, Bool, true, false, List, [], ◌∷◌,
  some, arith, ltb, if◌then◌else◌, length, get_or, set, get_or-set, length-set, ℕ_discrete,
  Bool-cases,
}
use simple_ssd.Base.Result.{Result, ok, panic, ◌>>=◌, at-eq-get_or, no_free_block}
use simple_ssd.Base.Map
use simple_ssd.Base.Map.{find, find-insert}
use simple_ssd.Util.Bitset
use simple_ssd.Util.Bitset.{Bitset}
use simple_ssd.Util.Bitset.Combine.{and_with-Combines, or_with-Combines}
use simple_ssd.Ftl.Block.{Block, next_write_page_index_at, next_write_page_index, greatest}
use simple_ssd.Ftl.PageMapping.State.{PageMapping, Parameter}
use simple_ssd.Ftl.PageMapping.Alloc.{
  get_free_block, next_index, needs_next, rotate, open_block, get_last_free_block,
}
use simple_ssd.Ftl.PageMapping.Consistent.{IsConsistent, IsSized}
use simple_ssd.Ftl.PageMapping.FreeList.{
  AreFree, AreFree-insert, Picked, TakenFrom, pick_free-Picked,
}
use simple_ssd.Ftl.PageMapping.Open.{
  IsAllocated, with_open, with_open-IsConsistent, in_use, in_use-IsConsistent,
}

le_greatest : (xs : List ℕ) (m : ℕ) → m ≤ greatest xs m
le_greatest [] m = omega arith
le_greatest (x ∷ xs) m = ground (arith, le_greatest xs (if ltb m x then x else m))

element-le-greatest : (xs : List ℕ) (m i : ℕ) → get_or xs i 0 ≤ greatest xs m
element-le-greatest [] m i = omega arith
element-le-greatest (x ∷ xs) m zero = ground (arith, le_greatest xs (if ltb m x then x else m))
element-le-greatest (x ∷ xs) m (suc i) = element-le-greatest xs (if ltb m x then x else m) i

greatest-le :
    (xs : List ℕ) (m top : ℕ)
    → m ≤ top
    → ((i : ℕ) → i < length xs → get_or xs i 0 ≤ top)
    → greatest xs m ≤ top
greatest-le [] m top h all = h
greatest-le (x ∷ xs) m top h all =
    greatest-le xs (if ltb m x then x else m) top (ground (arith, all 0))
      (λ i lt. all (suc i) (omega arith))

-- A block is full when its furthest unit is; then no unit of any other block is past the last page.
room_of_not_full :
    {pa : Parameter} {b : Block}
    → IsSized pa b
    → next_write_page_index b ≢ pa.pages_in_block
    → (i : ℕ) → next_write_page_index_at b i < pa.pages_in_block
unfolding next_write_page_index
room_of_not_full {pa} {b} z ne i = omega (
  arith,
  element-le-greatest b.p_next_write_page_index 0 i,
  greatest-le b.p_next_write_page_index 0 b.page_count (omega arith)
      (λ j lt. z.valid.next_le j (omega (arith, z.valid.nexts_length))),
  z.pages,
)

-- A run that returns a block with room, in a state that is as consistent as before.
pub record Opened (s : PageMapping) (away : ℕ → ℕ → Bool) (r : Result (ℕ × PageMapping))
    : Type 0 where
  pub key : ℕ
  pub next : PageMapping
  pub result : r ≡ ok (key, next)
  pub consistent : IsConsistent next away
  pub allocated : IsAllocated next
  pub block : Block
  pub found : find key next.blocks ≡ some block
  pub room : (i : ℕ) → next_write_page_index_at block i < s.param.pages_in_block
  pub same_param : next.param ≡ s.param
  pub same_table : next.table ≡ s.table
  pub same_size : next.bitset_size ≡ s.bitset_size
  pub same_tweak : next.random_tweak ≡ s.random_tweak

-- While a block is free, and the free blocks are erased, unused and distinct and their number is
-- right, getFreeBlock(idx) of a stripe that exists takes the first free block whose index has the
-- remainder of the stripe, or the first one if none has, into use as it is, and leaves the others
-- in their order.
pub get_free_block-Picked :
    {s : PageMapping} (idx : ℕ)
    → AreFree s.param s.blocks s.free_blocks
    → s.n_free_blocks ≡ length s.free_blocks
    → 0 < s.n_free_blocks
    → idx < s.param.page_count_to_max_perf
    → (b : Block) × (rest : List Block) × (get_free_block s idx
        ≡ ok (
          b.idx,
          record s {
            blocks = Map.insert b.idx b s.blocks;
            free_blocks = rest;
            n_free_blocks = s.n_free_blocks - 1;
          },
        ))
      × Picked s.param s.blocks s.free_blocks b rest
      × TakenFrom s.param.page_count_to_max_perf idx s.free_blocks b rest
unfolding get_free_block
get_free_block-Picked {s} idx free counted some_free h =
    let (b, rest, found, picked, taken) =
      pick_free-Picked s.param s.blocks s.param.page_count_to_max_perf idx s.free_blocks free
        (omega arith) in
    (b, rest, ground (arith, found, picked.free.unused), picked, taken)

-- With no free block left it panics.
pub get_free_block_empty :
    (s : PageMapping) (idx : ℕ)
    → idx < s.param.page_count_to_max_perf
    → s.n_free_blocks ≡ 0
    → get_free_block s idx ≡ panic no_free_block
unfolding get_free_block
get_free_block_empty s idx h e = ground arith

module _ {s : PageMapping} {away : ℕ → ℕ → Bool} (v : IsConsistent s away) (a : IsAllocated s)
    (some_free : 0 < s.n_free_blocks) where
  abbrev current : ℕ
  current = get_or s.last_free_block s.last_free_block_index 0

  still_open :
      (b : Block) (j : ℕ)
      → j < s.param.page_count_to_max_perf
      → (x : Block) × (find
            (get_or (set s.last_free_block s.last_free_block_index b.idx) j 0)
            (Map.insert b.idx b s.blocks)
          ≡ some x)
  still_open b j hj =
      let set_at_index =
        get_or-set s.last_free_block s.last_free_block_index j b.idx 0
          (omega (arith, a.open_length, a.open_index)) in
      let (old, at_old) = a.open_used j hj in
      let after = λ (k : ℕ). find-insert b.idx b s.blocks k in
      elim (ℕ_discrete s.last_free_block_index j) [
        | yes e ↦ (b, ground (arith, set_at_index, after b.idx))
        | no e ↦ elim (ℕ_discrete b.idx (get_or s.last_free_block j 0)) [
          | yes p ↦ (b, ground (arith, set_at_index, after b.idx))
          | no p ↦ (old, ground (arith, set_at_index, at_old, after (get_or s.last_free_block j 0)))
        ]
      ]

  fresh_block :
      (b : Block)
      → find current s.blocks ≡ some b
      → next_write_page_index b ≡ s.param.pages_in_block
      → Opened s away (open_block s)
  unfolding open_block
  fresh_block old at_old full =
      let index = s.last_free_block_index in
      let (b, rest, run, picked, _) =
        get_free_block-Picked {s = s} index a.free a.counted some_free a.open_index in
      let opened = set s.last_free_block index b.idx in
      record {
        key = b.idx;
        next =
            with_open (in_use v b picked.free) rest (s.n_free_blocks - 1) opened
              s.last_free_block_io_map index true;
        result = ground (
          arith,
          run,
          at_old,
          at-eq-get_or s.last_free_block index 0 (omega (arith, a.open_length, a.open_index)),
        );
        consistent =
            with_open-IsConsistent (in_use-IsConsistent v b picked.free) rest (s.n_free_blocks - 1)
              opened s.last_free_block_io_map index true;
        allocated = record {
          free = AreFree-insert s.param s.blocks b.idx b rest picked.apart picked.others;
          counted = omega (arith, a.counted, picked.counted);
          open_length = length-set s.last_free_block index b.idx ∙ a.open_length;
          open_index = a.open_index;
          open_used = still_open b;
          map_ok = a.map_ok;
          map_size = a.map_size;
          perf_small = a.perf_small;
          pages_pos = a.pages_pos;
        };
        block = b;
        found = ground (arith, find-insert b.idx b s.blocks b.idx);
        room = λ i. omega (arith, picked.free.clean i, a.pages_pos);
        same_param = refl;
        same_table = refl;
        same_size = refl;
        same_tweak = refl;
      }

  -- The open block of the current stripe, or a free one in its place.
  open_block-Opened : Opened s away (open_block s)
  unfolding open_block
  open_block-Opened =
      let (b, at_b) = a.open_used s.last_free_block_index a.open_index in
      elim (ℕ_discrete (next_write_page_index b) s.param.pages_in_block) [
        | yes full ↦ fresh_block b at_b full
        | no not_full ↦ record {
          key = current;
          next = s;
          result = unfold_open b at_b not_full;
          consistent = v;
          allocated = a;
          block = b;
          found = at_b;
          room = room_of_not_full (v.blocks_ok current b at_b).0 not_full;
          same_param = refl;
          same_table = refl;
          same_size = refl;
          same_tweak = refl;
        }
      ]
    where
      unfold_open :
          (b : Block)
          → find current s.blocks ≡ some b
          → next_write_page_index b ≢ s.param.pages_in_block
          → open_block s ≡ ok (current, s)
      unfold_open b at_b ne = ground (
        arith,
        at-eq-get_or s.last_free_block s.last_free_block_index 0
            (omega (arith, a.open_length, a.open_index)),
      )

-- A request's flag: a bitset of one bit for each unit.
pub record IsFlag (s : PageMapping) (flag : Bitset) : Type 0 where
  pub valid : Bitset.IsValid flag
  pub sized : flag.data_size ≡ s.param.io_unit_in_page

module _ {s : PageMapping} {away : ℕ → ℕ → Bool} (v : IsConsistent s away) (a : IsAllocated s)
    (some_free : 0 < s.n_free_blocks) {flag : Bitset} (f : IsFlag s flag) where
  needs_next-ok : (t : Bool) × (needs_next s flag ≡ ok t)
  needs_next-ok =
      let (both, run, _) = and_with-Combines a.map_ok f.valid (a.map_size ∙ sym f.sized) in
      elim (Bool-cases s.random_tweak) [
        | inl e ↦ (Bitset.any both, ground (arith, run))
        | inr e ↦ (true, ground arith)
      ]

  abbrev moved : Bitset → ℕ → PageMapping
  moved io_map index =
      with_open s s.free_blocks s.n_free_blocks s.last_free_block io_map index s.reclaim_more

  moved-Opened :
      (io_map : Bitset) (index : ℕ)
      → Bitset.IsValid io_map
      → io_map.data_size ≡ s.param.io_unit_in_page
      → index < s.param.page_count_to_max_perf
      → Opened s away (open_block (moved io_map index))
  moved-Opened io_map index ok_map sized h =
      let o =
        open_block-Opened {s = moved io_map index}
          (with_open-IsConsistent v s.free_blocks s.n_free_blocks s.last_free_block io_map index
            s.reclaim_more)
          (record {
            free = a.free;
            counted = a.counted;
            open_length = a.open_length;
            open_index = h;
            open_used = a.open_used;
            map_ok = ok_map;
            map_size = sized;
            perf_small = a.perf_small;
            pages_pos = a.pages_pos;
          })
          some_free in
      record {
        key = o.key;
        next = o.next;
        result = o.result;
        consistent = o.consistent;
        allocated = o.allocated;
        block = o.block;
        found = o.found;
        room = o.room;
        same_param = o.same_param;
        same_table = o.same_table;
        same_size = o.same_size;
        same_tweak = o.same_tweak;
      }

  rotated-Opened : (t : Bool) → Opened s away (rotate s flag t >>= open_block)
  rotated-Opened true =
      moved-Opened flag (next_index s) f.valid f.sized (ground (arith, a.open_index, a.perf_small))
  rotated-Opened false =
      let (used, run, c) = or_with-Combines a.map_ok f.valid (a.map_size ∙ sym f.sized) in
      rw run
        (moved-Opened used s.last_free_block_index c.valid (c.same_size ∙ a.map_size) a.open_index)

  -- While a block is free, in a consistent and allocated state and for a valid flag of the right
  -- size, getLastFreeBlock() returns the key of a block in use in which every unit has a page left
  -- to write; the state stays consistent and allocated, and the table and parameters stay.
  pub get_last_free_block-Opened : Opened s away (get_last_free_block s flag)
  unfolding get_last_free_block
  get_last_free_block-Opened = let (t, run) = needs_next-ok in rw run (rotated-Opened t)
