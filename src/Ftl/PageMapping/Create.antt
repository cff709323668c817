-- ===== src/Ftl/PageMapping/Create.antt =====
-- ftl/page_mapping.cc: the constructor.
use simple_ssd.Base.{
  ℕ, zero, suc, ◌+◌, ◌-◌, ◌^◌, ◌≤◌, ◌<◌, ◌≡◌, ◌∙◌, sym, refl, Bool, false, List, [], ◌∷◌, none,
  some, arith, if◌then◌else◌, length, get_or, set, replicate, get_or-set, length-set,
  length-replicate, ℕ_discrete, subst,
}
use simple_ssd.Base.Result.{Result, ok, ◌>>=◌, at, at-eq-get_or}
use simple_ssd.Base.Map.{find, find-insert}
use simple_ssd.Util.Bitset
use simple_ssd.Util.Bitset.{Bitset}
use simple_ssd.Util.Bitset.Whole
use simple_ssd.Util.Bitset.Whole.{data_size-create}
use simple_ssd.Ftl.Block
use simple_ssd.Ftl.Block.{Block}
use simple_ssd.Ftl.Block.Create.{create-IsNew}
use simple_ssd.Ftl.PageMapping.State.{PageMapping, Parameter}
use simple_ssd.Ftl.PageMapping.Alloc.{get_free_block}
use simple_ssd.Ftl.PageMapping.Consistent.{IsConsistent}
use simple_ssd.Ftl.PageMapping.FreeList.{Absent, AreFree, AreFree-insert}
use simple_ssd.Ftl.PageMapping.Open.{in_use, in_use-IsConsistent, with_open, with_open-IsConsistent}
use simple_ssd.Ftl.PageMapping.Room.{get_free_block-Picked}
use simple_ssd.Ftl.PageMapping.Write.{IsValid}

-- The loop that fills the free list, from block `i` with `n` blocks to go.
create_blocks : Parameter → ℕ → ℕ → Result (List Block)
create_blocks pa zero i = ok []
create_blocks pa (suc n) i = do
  b ← Block.create i pa.pages_in_block pa.io_unit_in_page
  bs ← create_blocks pa n (i + 1)
  ok (b ∷ bs)

-- The loop that opens a block for each stripe, from stripe `i` with `n` to go.
open_blocks : ℕ → ℕ → PageMapping → Result PageMapping
open_blocks zero i s = ok s
open_blocks (suc n) i s = do
  _ ← at s.last_free_block i
  opened ← get_free_block s i
  let t = opened.1
  open_blocks n (i + 1) (record t { last_free_block = set t.last_free_block i opened.0 })

-- The state before any block is open.
abbrev closed : Parameter → Bool → List Block → PageMapping
closed pa tweak bs = record {
  param = pa;
  table = [];
  blocks = [];
  free_blocks = bs;
  n_free_blocks = pa.total_physical_blocks;
  last_free_block = replicate pa.page_count_to_max_perf 0;
  last_free_block_io_map = Bitset.create pa.io_unit_in_page;
  last_free_block_index = 0;
  reclaim_more = false;
  random_tweak = tweak;
  bitset_size = if tweak then pa.io_unit_in_page else 1;
}

-- PageMapping(...), with FTL_USE_RANDOM_IO_TWEAK
unfoldable pub create : Parameter → Bool → Result PageMapping
unfolding create_blocks open_blocks
create pa tweak = do
  bs ← create_blocks pa pa.total_physical_blocks 0
  open_blocks pa.page_count_to_max_perf 0 (closed pa tweak bs)

-- What the constructor asks of the parameters; FTL::FTL panics where the blocks are too few.
pub record IsParameter (pa : Parameter) : Type 0 where
  pub pages_pos : 0 < pa.pages_in_block
  pub pages_small : pa.pages_in_block < 2 ^ 32
  pub units_pos : 0 < pa.io_unit_in_page
  pub units_small : pa.io_unit_in_page < 2 ^ 32
  pub perf_pos : 0 < pa.page_count_to_max_perf
  pub perf_small : pa.page_count_to_max_perf < 2 ^ 32
  pub enough : pa.page_count_to_max_perf ≤ pa.total_physical_blocks

-- Indices below `i` are not in a list that starts at `i`.
abbrev From : ℕ → List Block → Type 0
From i [] = Unit {0}
From i (b ∷ bs) = (i ≤ b.idx) × From i bs

From-lower : (i j : ℕ) (bs : List Block) → i ≤ j → From j bs → From i bs
From-lower i j [] h f = tt
From-lower i j (b ∷ bs) h f = (omega arith, From-lower i j bs h f.1)

From-Absent : (i k : ℕ) (bs : List Block) → k < i → From i bs → Absent k bs
From-Absent i k [] h f = tt
From-Absent i k (b ∷ bs) h f = (omega arith, From-Absent i k bs h f.1)

create_blocks-AreFree :
    (pa : Parameter)
    → IsParameter pa
    → (n i : ℕ) → i + n ≤ pa.total_physical_blocks
    → (bs : List Block) × (create_blocks pa n i ≡ ok bs)
      × AreFree pa [] bs
      × From i bs
      × (length bs ≡ n)
unfolding create_blocks find
create_blocks-AreFree pa ok_pa zero i h = ([], refl, tt, tt, refl)
create_blocks-AreFree pa ok_pa (suc n) i h =
    let (b, run, new) =
      create-IsNew i pa.pages_in_block ok_pa.pages_pos ok_pa.pages_small pa.io_unit_in_page
        ok_pa.units_pos ok_pa.units_small in
    let (bs, runs, free, from, count) = create_blocks-AreFree pa ok_pa n (i + 1) (omega arith) in
    (
      b ∷ bs,
      rw (run, runs),
      (
        record {
          sized = record { valid = new.valid; pages = new.pages; units = new.units };
          clean = new.nexts;
          unused = refl;
          index_lt = omega (arith, new.same_index);
        },
        From-Absent (i + 1) b.idx bs (omega (arith, new.same_index)) from,
        free,
      ),
      (omega (arith, new.same_index), From-lower i (i + 1) bs (omega arith) from),
      omega (arith, count),
    )

-- The loop's invariant: the stripes below `i` have an open block.
record IsOpening (pa : Parameter) (tweak : Bool) (i : ℕ) (s : PageMapping) : Type 0 where
  consistent : IsConsistent s (λ l i. false)
  same_param : s.param ≡ pa
  same_tweak : s.random_tweak ≡ tweak
  same_size : s.bitset_size ≡ (if tweak then pa.io_unit_in_page else 1)
  free : AreFree s.param s.blocks s.free_blocks
  counted : s.n_free_blocks ≡ length s.free_blocks
  taken : s.n_free_blocks + i ≡ pa.total_physical_blocks
  open_length : length s.last_free_block ≡ pa.page_count_to_max_perf
  first : s.last_free_block_index ≡ 0
  open_used :
      (j : ℕ) → j < i → (b : Block) × (find (get_or s.last_free_block j 0) s.blocks ≡ some b)
  map_ok : Bitset.IsValid s.last_free_block_io_map
  map_size : s.last_free_block_io_map.data_size ≡ pa.io_unit_in_page
  unmapped : (l : ℕ) → find l s.table ≡ none

open_blocks-IsOpening :
    (pa : Parameter) (tweak : Bool) (n i : ℕ) (s : PageMapping)
    → IsParameter pa
    → i + n ≡ pa.page_count_to_max_perf
    → IsOpening pa tweak i s
    → (t : PageMapping) × (open_blocks n i s ≡ ok t)
      × IsOpening pa tweak pa.page_count_to_max_perf t
unfolding open_blocks
open_blocks-IsOpening pa tweak zero i s ok_pa e o =
    let at_end : i ≡ pa.page_count_to_max_perf = omega arith in
    (s, refl, subst (λ k. IsOpening pa tweak k s) at_end o)
open_blocks-IsOpening pa tweak (suc n) i s ok_pa e o =
    let hi : i < s.param.page_count_to_max_perf = ground (arith, o.same_param) in
    let left : 0 < s.n_free_blocks = omega (arith, o.taken, ok_pa.enough) in
    let (b, rest, run, picked, _) = get_free_block-Picked {s = s} i o.free o.counted left hi in
    let slots = set s.last_free_block i b.idx in
    let slot = λ (j : ℕ). get_or-set s.last_free_block i j b.idx 0 (omega (arith, o.open_length)) in
    let after = λ (k : ℕ). find-insert b.idx b s.blocks k in
    let next =
      with_open (in_use o.consistent b picked.free) rest (s.n_free_blocks - 1) slots
        s.last_free_block_io_map s.last_free_block_index s.reclaim_more in
    let (t, runs, done) =
      open_blocks-IsOpening pa tweak n (i + 1) next ok_pa (omega arith) (record {
        consistent =
            with_open-IsConsistent (in_use-IsConsistent o.consistent b picked.free) rest
              (s.n_free_blocks - 1) slots s.last_free_block_io_map s.last_free_block_index
              s.reclaim_more;
        same_param = o.same_param;
        same_tweak = o.same_tweak;
        same_size = o.same_size;
        free = AreFree-insert s.param s.blocks b.idx b rest picked.apart picked.others;
        counted = omega (arith, o.counted, picked.counted);
        taken = omega (arith, o.taken);
        open_length = length-set s.last_free_block i b.idx ∙ o.open_length;
        first = o.first;
        open_used = λ j hj. elim (ℕ_discrete b.idx (get_or slots j 0)) [
          | yes p ↦ (b, ground (arith, after (get_or slots j 0)))
          | no p ↦
              let (old, at_old) = o.open_used j (ground (arith, slot j)) in
              (old, ground (arith, slot j, after (get_or slots j 0)))
        ];
        map_ok = o.map_ok;
        map_size = o.map_size;
        unmapped = o.unmapped;
      }) in
    (t, rw (at-eq-get_or s.last_free_block i 0 (omega (arith, o.open_length)), run) runs, done)

closed-IsOpening :
    (pa : Parameter) (tweak : Bool) (bs : List Block)
    → IsParameter pa
    → AreFree pa [] bs
    → length bs ≡ pa.total_physical_blocks
    → IsOpening pa tweak 0 (closed pa tweak bs)
unfolding find
closed-IsOpening pa tweak bs ok_pa free count = record {
  consistent = record {
    blocks_ok = λ k b e. absurd (ground arith);
    table_ok = λ l m e. absurd (ground arith);
    units_le = ground (arith, ok_pa.units_pos);
    forward = λ l m i e. absurd (ground arith);
    backward = λ k b p i e. absurd (ground arith);
  };
  same_param = refl;
  same_tweak = refl;
  same_size = refl;
  free = free;
  counted = sym count;
  taken = omega arith;
  open_length = length-replicate pa.page_count_to_max_perf 0;
  first = refl;
  open_used = λ j h. absurd (omega arith);
  map_ok = Whole.create-IsValid pa.io_unit_in_page ok_pa.units_small;
  map_size = data_size-create pa.io_unit_in_page;
  unmapped = λ l. refl;
}

-- With parameters in range the constructor returns a state that keeps the invariant, with nothing
-- mapped, and with all but the open blocks free.
pub create-IsValid :
    (pa : Parameter) (tweak : Bool)
    → IsParameter pa
    → (s : PageMapping) × (create pa tweak ≡ ok s)
      × IsValid s
      × (s.param ≡ pa)
      × (s.random_tweak ≡ tweak)
      × (s.bitset_size ≡ (if tweak then pa.io_unit_in_page else 1))
      × (s.n_free_blocks + pa.page_count_to_max_perf ≡ pa.total_physical_blocks)
      × ((l : ℕ) → find l s.table ≡ none)
unfolding create
create-IsValid pa tweak ok_pa =
    let (bs, runs, free, _, count) =
      create_blocks-AreFree pa ok_pa pa.total_physical_blocks 0 (omega arith) in
    let (t, opens, o) =
      open_blocks-IsOpening pa tweak pa.page_count_to_max_perf 0 (closed pa tweak bs) ok_pa
        (omega arith) (closed-IsOpening pa tweak bs ok_pa free count) in
    (
      t,
      rw runs opens,
      record {
        consistent = o.consistent;
        allocated = record {
          free = o.free;
          counted = o.counted;
          open_length = ground (arith, o.open_length, o.same_param);
          open_index = ground (arith, o.first, o.same_param, ok_pa.perf_pos);
          open_used = λ j h. o.open_used j (ground (arith, o.same_param));
          map_ok = o.map_ok;
          map_size = ground (arith, o.map_size, o.same_param);
          perf_small = ground (arith, ok_pa.perf_small, o.same_param);
          pages_pos = ground (arith, ok_pa.pages_pos, o.same_param);
        };
      },
      o.same_param,
      o.same_tweak,
      o.same_size,
      o.taken,
      o.unmapped,
    )
