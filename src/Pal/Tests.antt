-- ===== src/Pal/Tests.antt =====
-- The addresses of flash pages on a concrete drive: two channels, which a super block spans, and three
-- packages of one die and one plane.
use simple_ssd.Base.{
  ℕ, ◌<◌, ◌≡◌, refl, Bool, true, false, List, [], ◌∷◌, arith, length, ◌==◌, if◌then◌else◌,
}
use simple_ssd.Base.Result.{ok, panic, io_map_size_mismatch}
use simple_ssd.Util.Bitset
use simple_ssd.Ftl.PageMapping.State.{PalRequest}
use simple_ssd.Pal.Address.{
  Index, index_channel, index_package, index_die, index_plane, Config, Cpdpbp, create,
  convert_cpdpbp, split_block,
}
use simple_ssd.Pal.InRange.{
  Each, IsInRange, product, count_from, block_split, convert_cpdpbp-InRange,
}

abbrev sizes : Index → ℕ
sizes index_channel = 2
sizes index_package = 3
sizes index_die = 1
sizes index_plane = 1

abbrev by_channel : Index → Bool
by_channel index_channel = true
by_channel index_package = false
by_channel index_die = false
by_channel index_plane = false

abbrev drive : Config
drive = record {
  size_of = sizes;
  block = 8;
  page = 4;
  page_size = 512;
  page_allocation = index_channel ∷ index_package ∷ index_die ∷ index_plane ∷ [];
  superblock = by_channel;
  multi_plane = false;
  random_tweak = true;
}

sizes_pos : (i : Index) → 0 < sizes i
sizes_pos index_channel = omega arith
sizes_pos index_package = omega arith
sizes_pos index_die = omega arith
sizes_pos index_plane = omega arith

-- The second channel of block 4.
abbrev one_page : PalRequest
one_page = record {
  req_id = 0;
  req_sub_id = 0;
  block_index = 4;
  page_index = 3;
  io_flag = record { bytes = 2 ∷ []; data_size = 2; alloc_size = 1 };
}

-- Its super page has a page on each channel.
create_test : (create drive).page_in_super_page ≡ product (block_split drive sizes_pos 4).dimensions
unfolding create split_block
create_test = refl

convert_cpdpbp-InRange_example :
    (list : List Cpdpbp) × (convert_cpdpbp drive (create drive) one_page ≡ (
      if product (block_split drive sizes_pos 4).dimensions == (create drive).page_in_super_page
      then ok list
      else panic io_map_size_mismatch))
    × Each (IsInRange drive) list
    × (length list
        ≡ count_from
            (product (block_split drive sizes_pos 4).dimensions)
            0
            (Bitset.test one_page.io_flag))
unfolding create
convert_cpdpbp-InRange_example = convert_cpdpbp-InRange drive sizes_pos (create drive) one_page refl
