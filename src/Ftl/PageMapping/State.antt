-- ===== src/Ftl/PageMapping/State.antt =====
-- The state of `PageMapping` (ftl/page_mapping.hh), its parameters (ftl/ftl.hh), the requests
-- (util/def.hh), and what it calls: the PAL, the DRAM and the CPU model, as functions on a state
-- of type `D`. They see and move the tick, and no part of the mapping.
use simple_ssd.Base.{ℕ, Bool, List, if◌then◌else◌, true}
use simple_ssd.Util.Bitset
use simple_ssd.Util.Bitset.{Bitset}
use simple_ssd.Ftl.Block.{Block}

-- FTL::Parameter
pub record Parameter : Type 0 where
  pub total_physical_blocks : ℕ
  pub total_logical_blocks : ℕ
  pub pages_in_block : ℕ
  pub page_size : ℕ
  pub io_unit_in_page : ℕ
  pub page_count_to_max_perf : ℕ

-- FTL::Request; the identifiers are only passed on.
pub record Request : Type 0 where
  pub req_id : ℕ
  pub req_sub_id : ℕ
  pub lpn : ℕ
  pub io_flag : Bitset

-- PAL::Request
pub record PalRequest : Type 0 where
  pub req_id : ℕ
  pub req_sub_id : ℕ
  pub block_index : ℕ
  pub page_index : ℕ
  pub io_flag : Bitset

-- PAL::Request(FTL::Request)
abbrev pub pal_request : Request → PalRequest
pal_request r = record {
  req_id = r.req_id;
  req_sub_id = r.req_sub_id;
  block_index = 0;
  page_index = 0;
  io_flag = r.io_flag;
}

-- The functions of CPU::FUNCTION that the mapping names in applyLatency().
pub data CpuFunction : Type 0 where
  read_internal_cost : CpuFunction
  write_internal_cost : CpuFunction
  trim_internal_cost : CpuFunction
  erase_internal_cost : CpuFunction
  read_cost : CpuFunction
  trim_cost : CpuFunction
  write_cost : CpuFunction
  format_cost : CpuFunction
  select_victim_block_cost : CpuFunction
  do_garbage_collection_cost : CpuFunction

-- A tick and the state of the hardware.
pub record Clock (D : Type 0) : Type 0 where
  pub tick : ℕ
  pub device : D

-- Each call may move the tick. DRAM calls name the table entry by its LPN, and a size in bytes;
-- `apply_latency` adds what it returns to the tick.
pub record Hardware (D : Type 0) : Type 0 where
  pub pal_read : PalRequest → Clock D → Clock D
  pub pal_write : PalRequest → Clock D → Clock D
  pub pal_erase : PalRequest → Clock D → Clock D
  pub dram_read : ℕ → ℕ → Clock D → Clock D
  pub dram_write : ℕ → ℕ → Clock D → Clock D
  pub apply_latency : CpuFunction → Clock D → Clock D

-- The maps are association lists; a mapping is a block index and a page index for each unit.
pub record PageMapping : Type 0 where
  pub param : Parameter
  pub table : List (ℕ × List (ℕ × ℕ))
  pub blocks : List (ℕ × Block)
  pub free_blocks : List Block
  pub n_free_blocks : ℕ
  pub last_free_block : List ℕ
  pub last_free_block_io_map : Bitset
  pub last_free_block_index : ℕ
  pub reclaim_more : Bool
  pub random_tweak : Bool
  pub bitset_size : ℕ

-- The `ioFlag` of the request to the PAL for unit `i`.
abbrev pub unit_flag : PageMapping → Bitset → ℕ → Bitset
unit_flag s flag i =
    if s.random_tweak then Bitset.set_at (Bitset.reset_all flag) i true else Bitset.set_all flag
