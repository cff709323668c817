-- ===== src/Hil/Nvme/Queue.antt =====
-- hil/nvme/queue.cc: the rings of the submission and completion queues, and the wrappers of their
-- entries. The DMA engine moves an entry to or from an address that the queue gives.
pub mod Ring
pub mod Phase
pub mod Tests
use simple_ssd.Base.{
  ℕ, Option, none, some, ◌+◌, ◌-◌, ◌*◌, ◌/◌, ◌%◌, ◌^◌, Bool, true, false, not, ◌==◌, leb,
  if◌then◌else◌,
}
use simple_ssd.Base.Result.{Result, ok, panic, queue_overflow}

-- The fields of CQEntry.
pub record CqEntry : Type 0 where
  pub dword0 : ℕ
  pub reserved : ℕ
  pub sq_head : ℕ
  pub sq_id : ℕ
  pub command_id : ℕ
  pub status : ℕ

-- Queue, without its DMA engine.
pub record Queue : Type 0 where
  pub id : ℕ
  pub head : ℕ
  pub tail : ℕ
  pub size : ℕ
  pub stride : ℕ

abbrev pub new_queue : ℕ → ℕ → Queue
new_queue qid length = record { id = qid; head = 0; tail = 0; size = length; stride = 0 }

-- getItemCount(), a `uint16_t`
unfoldable pub item_count : Queue → ℕ
item_count q =
    if leb q.head q.tail then q.tail - q.head else (q.size + 2 ^ 16 - q.head + q.tail) % 2 ^ 16

-- setBase(p, s)
abbrev pub set_base : ℕ → Queue → Queue
set_base s q = record q { stride = s }

-- A `uint16_t` that goes back to 0 at `size`.
unfoldable pub next_slot : ℕ → ℕ → ℕ
next_slot size i = let j = (i + 1) % 2 ^ 16 in if j == size then 0 else j

pub record CQueue : Type 0 where
  pub queue : Queue
  pub ien : Bool
  pub phase : Bool
  pub interrupt_vector : ℕ

-- CQueue(iv, en, qid, size)
unfoldable pub create : ℕ → Bool → ℕ → ℕ → CQueue
create iv en qid size = record {
  queue = new_queue qid size;
  ien = en;
  phase = true;
  interrupt_vector = iv;
}

-- What setData() hands to the DMA engine: 16 bytes of an entry, for an address.
pub record Written : Type 0 where
  pub address : ℕ
  pub entry : CqEntry

-- `status &= 0xFFFE; status |= phase`
abbrev pub with_phase : CqEntry → Bool → CqEntry
with_phase e phase = record e { status = e.status / 2 * 2 + (if phase then 1 else 0) }

-- setData(entry) with an entry
unfoldable pub set_data : CQueue → CqEntry → Result (CQueue × Written)
set_data c e =
    let q = c.queue in
    let slot = next_slot q.size q.tail in
    let wrapped = (q.tail + 1) % 2 ^ 16 == q.size in
    let done : Written = record {
      address = q.tail * q.stride % 2 ^ 64;
      entry = with_phase e c.phase;
    } in
    if q.head == slot
    then panic queue_overflow
    else ok (
      record c {
        queue = record q { tail = slot };
        phase = if wrapped then not c.phase else c.phase;
      },
      done,
    )

-- incHead()
unfoldable pub inc_head : CQueue → CQueue
inc_head c = let q = c.queue in record c { queue = record q { head = next_slot q.size q.head } }

-- setHead(newHead)
unfoldable pub set_head : CQueue → ℕ → CQueue
set_head c new_head = let q = c.queue in record c { queue = record q { head = new_head } }

pub record SQueue : Type 0 where
  pub queue : Queue
  pub cq_id : ℕ
  pub priority : ℕ

-- setTail(newTail)
unfoldable pub set_tail : SQueue → ℕ → SQueue
set_tail s new_tail = let q = s.queue in record s { queue = record q { tail = new_tail } }

-- getData(entry) with an entry: the address that the DMA engine reads 64 bytes from, if any.
unfoldable pub get_data : SQueue → SQueue × Option ℕ
get_data s =
    let q = s.queue in
    if q.head == q.tail then (s, none) else (
      record s { queue = record q { head = next_slot q.size q.head } },
      some (q.head * q.stride % 2 ^ 64),
    )
