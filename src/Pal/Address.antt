-- ===== src/Pal/Address.antt =====
-- pal/pal.cc: the sizes of super blocks, and pal/pal_old.cc: convertCPDPBP(), which lists the flash
-- pages of a request, with the handlers that submit them to the timing model.
use simple_ssd.Base.{
  ℕ, zero, suc, ◌+◌, ◌*◌, ◌/◌, ◌%◌, ◌^◌, Bool, not, ◌&&◌, ◌||◌, List, [], ◌∷◌, ◌++◌, max, ◌==◌,
  if◌then◌else◌,
}
use simple_ssd.Base.Result.{Result, ok, panic, ◌>>=◌, io_map_size_mismatch}
use simple_ssd.Util.Bitset
use simple_ssd.Util.Bitset.{Bitset}
use simple_ssd.Ftl.PageMapping.State.{PalRequest, Clock}

-- INDEX_CHANNEL and the others.
pub data Index : Type 0 where
  index_channel : Index
  index_package : Index
  index_die : Index
  index_plane : Index

-- What is read from the configuration: the order of allocation, and the dimensions that a super
-- block spans.
pub record Config : Type 0 where
  pub size_of : Index → ℕ
  pub block : ℕ
  pub page : ℕ
  pub page_size : ℕ
  pub page_allocation : List Index
  pub superblock : Index → Bool
  pub multi_plane : Bool
  pub random_tweak : Bool

-- PAL::Parameter, but for the sizes of the configuration.
pub record Parameter : Type 0 where
  pub super_block : ℕ
  pub super_page_size : ℕ
  pub page_in_super_page : ℕ

-- `superblock & INDEX_...`, where multi-plane operations span the planes too
abbrev pub spans : Config → Index → Bool
spans f index_plane = f.multi_plane || f.superblock index_plane
spans f index_channel = f.superblock index_channel
spans f index_package = f.superblock index_package
spans f index_die = f.superblock index_die

-- One step of PAL(conf): a dimension multiplies the size of a super page, or the number of super
-- blocks.
abbrev pub add_dimension : Config → Index → Parameter → Parameter
add_dimension f i p =
    if spans f i
    then record p { super_page_size = p.super_page_size * f.size_of i % 2 ^ 32 }
    else record p { super_block = p.super_block * f.size_of i % 2 ^ 32 }

-- PAL(conf)
unfoldable pub create : Config → Parameter
create f =
    let start : Parameter = record {
      super_block = f.block;
      super_page_size = f.page_size;
      page_in_super_page = 0;
    } in
    let p = add_dimension f index_plane (
      add_dimension f index_die
        (add_dimension f index_package (add_dimension f index_channel start))) in
    let pages = p.super_page_size / f.page_size in
    record p { page_in_super_page = if f.multi_plane then pages / f.size_of index_plane else pages }

pub record Cpdpbp : Type 0 where
  pub at_channel : ℕ
  pub at_package : ℕ
  pub at_die : ℕ
  pub at_plane : ℕ
  pub at_block : ℕ
  pub at_page : ℕ

abbrev pub put : Index → ℕ → Cpdpbp → Cpdpbp
put index_channel n a = record a { at_channel = n }
put index_package n a = record a { at_package = n }
put index_die n a = record a { at_die = n }
put index_plane n a = record a { at_plane = n }

-- What the loop over the order of allocation keeps: the address, the rest of the block's index, and
-- the dimensions of the super block, the outermost first (`value` and `ptr`).
pub record Split : Type 0 where
  pub address : Cpdpbp
  pub left : ℕ
  pub dimensions : List (Index × ℕ)

abbrev pub take_dimension : Config → Index → Split → Split
take_dimension f i s =
    if f.superblock i
    then record s { dimensions = (i, f.size_of i) ∷ s.dimensions }
    else record s { address = put i (s.left % f.size_of i) s.address; left = s.left / f.size_of i }

abbrev pub split_step : Config → Index → Split → Split
split_step f index_plane s = if f.multi_plane then s else take_dimension f index_plane s
split_step f index_channel s = take_dimension f index_channel s
split_step f index_package s = take_dimension f index_package s
split_step f index_die s = take_dimension f index_die s

unfoldable pub split_block : Config → List Index → Split → Split
split_block f [] s = s
split_block f (i ∷ is) s = split_block f is (split_step f i s)

-- A loop over a dimension: the addresses, and the position in the flags.
unfoldable pub each : {A : Type 0} → ℕ → ℕ → (ℕ → ℕ → List A × ℕ) → ℕ → List A × ℕ
each zero i body tmp = ([], tmp)
each (suc n) i body tmp =
    let first = body i tmp in let rest = each n (i + 1) body first.1 in (first.0 ++ rest.0, rest.1)

-- The nested loops, for the dimensions from the outermost on.
unfoldable pub units : List (Index × ℕ) → Bitset → Cpdpbp → ℕ → List Cpdpbp × ℕ
units [] flag a tmp = (if Bitset.test flag tmp then a ∷ [] else [], tmp + 1)
units ((i, n) ∷ outer) flag a tmp = each n 0 (λ k at. units outer flag (put i k a) at) tmp

-- convertCPDPBP(req, list)
unfoldable pub convert_cpdpbp : Config → Parameter → PalRequest → Result (List Cpdpbp)
convert_cpdpbp f p req =
    let fits = Bitset.size req.io_flag == p.page_in_super_page in
    let flag = if fits then req.io_flag else Bitset.set_all (Bitset.create p.page_in_super_page) in
    let blank : Cpdpbp = record {
      at_channel = 0;
      at_package = 0;
      at_die = 0;
      at_plane = 0;
      at_block = 0;
      at_page = 0;
    } in
    let s =
      split_block f f.page_allocation
        (record { address = blank; left = req.block_index; dimensions = [] }) in
    let a = record s.address { at_block = s.left; at_page = req.page_index } in
    let r = units s.dimensions flag a 0 in
    if f.random_tweak && not fits
    then panic io_map_size_mismatch
    else if r.1 == p.page_in_super_page
    then ok r.0
    else panic io_map_size_mismatch

-- The loop of read(), of write() and of erase(): every page is submitted at `tick`, and the clock has
-- the last end.
unfoldable pub submit_all :
    {D : Type 0} → (Cpdpbp → Clock D → Clock D) → List Cpdpbp → ℕ → Clock D → Clock D
submit_all submit [] tick c = c
submit_all submit (a ∷ rest) tick c =
    let end = submit a (record { tick = tick; device = c.device }) in
    submit_all submit rest tick (record { tick = max c.tick end.tick; device = end.device })

-- read(req, tick), write(req, tick) and erase(req, tick), by the operation that is submitted
unfoldable pub access :
    {D : Type 0}
    → (Cpdpbp → Clock D → Clock D)
    → Config
    → Parameter
    → PalRequest
    → Clock D
    → Result (Clock D)
access submit f p req c = do list ← convert_cpdpbp f p req; ok (submit_all submit list c.tick c)
