-- ===== src/Ftl/PageMapping/Upkeep.antt =====
-- ftl/page_mapping.cc: write(), format(), getStatus() and initialize(), and the pages of all blocks.
use simple_ssd.Base.{
  ℕ, zero, suc, ◌+◌, ◌-◌, ◌*◌, ◌%◌, ◌^◌, Bool, true, false, ◌&&◌, List, [], ◌∷◌, ◌++◌, none, some,
  map, length, ltb, leb, ◌==◌, if◌then◌else◌,
}
use simple_ssd.Base.Result.{Result, ok, ◌>>=◌}
use simple_ssd.Base.Map
use simple_ssd.Base.Map.{find}
use simple_ssd.Util.Bitset
use simple_ssd.Ftl.Block
use simple_ssd.Ftl.Block.{Block}
use simple_ssd.Ftl.PageMapping.State.{
  PageMapping, Request, Clock, Hardware, write_cost, format_cost,
}
use simple_ssd.Ftl.PageMapping.Access.{trim_units}
use simple_ssd.Ftl.PageMapping.Victim.{GcConfig, Weights}
use simple_ssd.Ftl.PageMapping.Collect.{do_garbage_collection, write_internal}

abbrev pub block_of : ℕ × ℕ → ℕ
block_of (block, page) = block

-- `iter->first >= range.slpn && iter->first < range.slpn + range.nlp`
abbrev pub in_pages : ℕ → ℕ → ℕ → Bool
in_pages first count lpn = leb first lpn && ltb lpn (first + count)

-- The loop of format() over the table: the mapping, and the blocks of the entries.
unfoldable pub format_entries :
    ℕ → ℕ → List (ℕ × List (ℕ × ℕ)) → PageMapping → List ℕ → Result (PageMapping × List ℕ)
format_entries first count [] s list = ok (s, list)
format_entries first count ((lpn, mapping) ∷ entries) s list =
    if in_pages first count lpn
    then (do
      t ← trim_units s.bitset_size 0 s mapping
      format_entries first count entries (record t { table = Map.erase lpn t.table })
          (list ++ map block_of mapping))
    else format_entries first count entries s list

-- std::sort and std::unique: the numbers of a list in order, each once.
unfoldable pub add_once : ℕ → List ℕ → List ℕ
add_once k [] = k ∷ []
add_once k (j ∷ js) =
    let rest = add_once k js in if ltb k j then k ∷ j ∷ js else if k == j then j ∷ js else j ∷ rest

unfoldable pub sort_unique : List ℕ → List ℕ
sort_unique [] = []
sort_unique (k ∷ ks) = add_once k (sort_unique ks)

-- `status.totalLogicalPages`
abbrev pub total_pages : PageMapping → ℕ
total_pages s = s.param.total_logical_blocks * s.param.pages_in_block

-- The loop of getStatus() from `lpn`, with `n` pages to go.
unfoldable pub count_mapped : ℕ → List (ℕ × List (ℕ × ℕ)) → ℕ → ℕ
count_mapped zero table lpn = 0
count_mapped (suc n) table lpn =
    let rest = count_mapped n table (lpn + 1) in
    elim (find lpn table) [ none ↦ rest | some m ↦ rest + 1 ]

-- getStatus(lpnBegin, lpnEnd): the free blocks and the mapped logical pages.
unfoldable pub get_status : PageMapping → ℕ → ℕ → ℕ × ℕ
get_status s from to =
    let all = count_mapped (to - from) s.table from in
    (s.n_free_blocks, if from == 0 && leb (total_pages s) to then length s.table else all)

-- calculateTotalPages(valid, invalid)
unfoldable pub total_valid : List (ℕ × Block) → ℕ
total_valid [] = 0
total_valid ((k, b) ∷ bs) = Block.valid_page_count b + total_valid bs

unfoldable pub total_invalid : List (ℕ × Block) → Result ℕ
total_invalid [] = ok 0
total_invalid ((k, b) ∷ bs) = do
  n ← Block.dirty_page_count b
  rest ← total_invalid bs
  ok (n + rest)

-- FILLING_MODE
pub data FillingMode : Type 0 where
  filling_mode_0 : FillingMode
  filling_mode_1 : FillingMode
  filling_mode_2 : FillingMode

-- What initialize() reads from the configuration: the products with the ratios, and
-- `maxPagesBeforeGC`. The draws of the two distributions are functions of the round.
pub record Filling : Type 0 where
  pub mode : FillingMode
  pub to_warmup : ℕ → ℕ
  pub to_invalidate : ℕ → ℕ
  pub max_before_collection : ℕ
  pub first_draw : ℕ → ℕ
  pub second_draw : ℕ → ℕ

abbrev pub invalidate_count : Filling → ℕ → ℕ
invalidate_count f total =
    let warmup = f.to_warmup total in
    if ltb f.max_before_collection (warmup + f.to_invalidate total)
    then (f.max_before_collection + 2 ^ 64 - warmup) % 2 ^ 64
    else f.to_invalidate total

-- The page that is written in round `i` of the first loop, and of the second.
abbrev pub first_page : Filling → ℕ → ℕ
first_page f i = elim f.mode as (λ _. ℕ) [
  | filling_mode_0 ↦ i
  | filling_mode_1 ↦ i
  | filling_mode_2 ↦ f.first_draw i
]

abbrev pub second_page : Filling → ℕ → ℕ
second_page f i = elim f.mode as (λ _. ℕ) [
  | filling_mode_0 ↦ i
  | filling_mode_1 ↦ f.second_draw i
  | filling_mode_2 ↦ f.second_draw i
]

module _ {W D : Type 0} (ws : Weights W) (sort : List (ℕ × W) → List (ℕ × W)) (hw : Hardware D)
    (f : GcConfig) (written_at : ℕ) where
  -- write(req, tick)
  unfoldable pub write : PageMapping → Request → Clock D → Result (PageMapping × Clock D)
  write s req c =
      if ltb 0 (Bitset.count req.io_flag)
      then (do
        r ← write_internal hw ws sort f written_at s req true c
        ok (r.0, hw.apply_latency write_cost r.1))
      else ok (s, hw.apply_latency write_cost c)

  -- format(range, tick)
  unfoldable pub format : PageMapping → ℕ → ℕ → Clock D → Result (PageMapping × Clock D)
  format s first count c = do
    r ← format_entries first count s.table s []
    done ← do_garbage_collection hw f.bad_block_threshold written_at r.0 (sort_unique r.1) c
    ok (done.0, hw.apply_latency format_cost done.1)

  -- A loop of initialize(): the pages are written without the PAL, each at tick 0.
  unfoldable pub fill : ℕ → ℕ → (ℕ → ℕ) → PageMapping → Request → D → Result (PageMapping × D)
  fill zero i page s req d = ok (s, d)
  fill (suc n) i page s req d = do
    r ←
        write_internal hw ws sort f written_at s (record req { lpn = page i }) false
          (record { tick = 0; device = d })
    fill n (i + 1) page r.0 req r.1.device

  -- initialize()
  unfoldable pub initialize : Filling → PageMapping → D → Result (PageMapping × D)
  initialize fl s d = do
    let total = total_pages s
    let req : Request = record {
      req_id = 0;
      req_sub_id = 0;
      lpn = 0;
      io_flag = Bitset.set_all (Bitset.create s.param.io_unit_in_page);
    }
    r ← fill (fl.to_warmup total) 0 (first_page fl) s req d
    fill (invalidate_count fl total) 0 (second_page fl) r.0 req r.1
