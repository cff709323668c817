-- ===== src/Hil/Nvme/Queue/Ring.antt =====
-- hil/nvme/queue.cc: what setData() and getData() do to the number of items.
use simple_ssd.Base.{
  ℕ, ◌+◌, ◌-◌, ◌*◌, ◌/◌, ◌%◌, ◌^◌, ◌<◌, ◌≡◌, refl, false, not, arith, leb, ◌==◌, if◌then◌else◌,
  Option, some,
}
use simple_ssd.Base.Result.{Result, ok, panic, queue_overflow}
use simple_ssd.Hil.Nvme.Queue.{
  Queue, CQueue, SQueue, CqEntry, Written, with_phase, item_count, next_slot, set_data, get_data,
}

-- The indices of a ring are in range.
pub record IsRing (q : Queue) : Type 0 where
  pub head_lt : q.head < q.size
  pub tail_lt : q.tail < q.size
  pub small : q.size < 2 ^ 16

pub next_slot-lt : (size i : ℕ) → size < 2 ^ 16 → i < size → next_slot size i < size
unfolding next_slot
next_slot-lt size i small h = ground arith

-- The count by the two cases, without the wrap-around of a `uint16_t`.
pub item_count-eq :
    (q : Queue)
    → IsRing q
    → item_count q ≡ (if leb q.head q.tail then q.tail - q.head else q.size - q.head + q.tail)
unfolding item_count
item_count-eq q r = ground (arith, r.head_lt, r.tail_lt, r.small)

-- A completion was put into the queue.
pub record Put (c : CQueue) (e : CqEntry) (r : Result (CQueue × Written)) : Type 0 where
  pub next : CQueue
  pub written : Written
  pub result : r ≡ ok (next, written)
  pub ring : IsRing next.queue
  pub counted : item_count next.queue ≡ item_count c.queue + 1
  pub same_head : next.queue.head ≡ c.queue.head
  pub slot : written.address ≡ c.queue.tail * c.queue.stride % 2 ^ 64
  pub tag : written.entry.status % 2 ≡ (if c.phase then 1 else 0)
  pub same_status : written.entry.status / 2 ≡ e.status / 2
  pub same_words : written.entry ≡ record e { status = written.entry.status }

module _ (c : CQueue) (e : CqEntry) (r : IsRing c.queue) where
  -- On a completion queue with indices in range and room for one more than one entry, setData()
  -- returns: one item more is in the queue, the head stays, the indices are in range, and the slot
  -- of the old tail holds the entry, as it is but for the phase in bit 0 of its status.
  pub set_data-Put : item_count c.queue + 1 < c.queue.size → Put c e (set_data c e)
  unfolding set_data next_slot
  set_data-Put room =
      let q = c.queue in
      let count = item_count-eq q r in
      let slot = next_slot q.size q.tail in
      let lt = next_slot-lt q.size q.tail r.small r.tail_lt in
      let next = record c {
        queue = record q { tail = slot };
        phase = if (q.tail + 1) % 2 ^ 16 == q.size then not c.phase else c.phase;
      } in
      let ring : IsRing next.queue = record {
        head_lt = r.head_lt;
        tail_lt = lt;
        small = r.small;
      } in
      record {
        next = next;
        written = record { address = q.tail * q.stride % 2 ^ 64; entry = with_phase e c.phase };
        result = ground (arith, r.head_lt, r.tail_lt, r.small, count, room);
        ring = ring;
        counted =
            ground
              (arith, r.head_lt, r.tail_lt, r.small, count, room, item_count-eq next.queue ring);
        same_head = refl;
        slot = refl;
        tag = ground arith;
        same_status = grind arith;
        same_words = refl;
      }

  -- On a completion queue with indices in range and room for one entry only, setData() panics.
  pub set_data_full : item_count c.queue + 1 ≡ c.queue.size → set_data c e ≡ panic queue_overflow
  unfolding set_data next_slot
  set_data_full full = ground (arith, r.head_lt, r.tail_lt, r.small, item_count-eq c.queue r, full)

-- A submission was read.
pub record Taken (s : SQueue) (r : SQueue × Option ℕ) : Type 0 where
  pub ring : IsRing r.0.queue
  pub counted : item_count r.0.queue + 1 ≡ item_count s.queue
  pub same_tail : r.0.queue.tail ≡ s.queue.tail
  pub slot : r.1 ≡ some (s.queue.head * s.queue.stride % 2 ^ 64)

-- On a submission queue with indices in range that is not empty, getData() reads the slot of the
-- head; one item less is in the queue, the tail stays, and the indices are in range.
pub get_data-Taken : (s : SQueue) → IsRing s.queue → 0 < item_count s.queue → Taken s (get_data s)
unfolding get_data next_slot
get_data-Taken s r some_left =
    let count = item_count-eq s.queue r in
    let moved : s.queue.head == s.queue.tail ≡ false = ground (arith, count, some_left) in
    let q = record s.queue { head = next_slot s.queue.size s.queue.head } in
    let ring : IsRing q = record {
      head_lt = next_slot-lt s.queue.size s.queue.head r.small r.head_lt;
      tail_lt = r.tail_lt;
      small = r.small;
    } in
    rw moved (record {
      ring = ring;
      counted =
          ground (arith, r.head_lt, r.tail_lt, r.small, count, some_left, item_count-eq q ring);
      same_tail = refl;
      slot = refl;
    })
