-- ===== src/Hil/Nvme/Queue/Tests.antt =====
-- The theorems on hil/nvme/queue.cc at queues of two and of four entries.
use simple_ssd.Base.{
  ℕ, ◌+◌, ◌*◌, ◌%◌, ◌^◌, ◌<◌, ◌≡◌, refl, true, false, arith, if◌then◌else◌, suc, zero,
}
use simple_ssd.Base.Result.{ok, panic, queue_overflow}
use simple_ssd.Hil.Nvme.Queue.{
  CQueue, SQueue, CqEntry, Written, with_phase, item_count, next_slot, create, set_data, set_head,
  get_data,
}
use simple_ssd.Hil.Nvme.Queue.Ring.{IsRing, Put, set_data-Put, set_data_full, Taken, get_data-Taken}
use simple_ssd.Hil.Nvme.Queue.Phase.{Reached, start, put, move, even, set_data_tagged}

abbrev success : CqEntry
success = record { dword0 = 0; reserved = 0; sq_head = 1; sq_id = 1; command_id = 7; status = 0 }

-- Two entries, the head at the first.
abbrev pair : CQueue
pair = record {
  queue = record { id = 1; head = 0; tail = 0; size = 2; stride = 16 };
  ien = true;
  phase = true;
  interrupt_vector = 3;
}

pair-IsRing : IsRing pair.queue
pair-IsRing = record { head_lt = omega arith; tail_lt = omega arith; small = omega arith }

nothing_there : item_count pair.queue ≡ 0
unfolding item_count
nothing_there = refl

set_data-Put_example : Put pair success (set_data pair success)
set_data-Put_example = set_data-Put pair success pair-IsRing (omega (arith, nothing_there))

abbrev one_there : CQueue
one_there = record pair { queue = record pair.queue { tail = 1 } }

one_there-IsRing : IsRing one_there.queue
one_there-IsRing = record { head_lt = omega arith; tail_lt = omega arith; small = omega arith }

one_item : item_count one_there.queue ≡ 1
unfolding item_count
one_item = refl

set_data_full_example : set_data one_there success ≡ panic queue_overflow
set_data_full_example = set_data_full one_there success one_there-IsRing (omega (arith, one_item))

-- Three submissions, across the end of a ring of four.
abbrev across : SQueue
across = record {
  queue = record { id = 1; head = 3; tail = 2; size = 4; stride = 64 };
  cq_id = 1;
  priority = 0;
}

across-IsRing : IsRing across.queue
across-IsRing = record { head_lt = omega arith; tail_lt = omega arith; small = omega arith }

three_items : item_count across.queue ≡ 3
unfolding item_count
three_items = refl

get_data-Taken_example : Taken across (get_data across)
get_data-Taken_example = get_data-Taken across across-IsRing (omega (arith, three_items))

-- The first completion is put and consumed; the second goes to slot 1.
abbrev tagged : ℕ → Written
tagged address = record { address = address; entry = with_phase success true }

first_put : set_data pair success ≡ ok (one_there, tagged 0)
unfolding set_data next_slot
first_put = refl

begin : Reached 3 true 1 2 16 pair 0
unfolding create
begin = start

after_one : Reached 3 true 1 2 16 (set_head one_there 1) 1
after_one = move (put success (tagged 0) begin first_put) 1

abbrev wrapped : CQueue
wrapped = record pair { queue = record pair.queue { head = 1; tail = 0 }; phase = false }

second_put : set_data (set_head one_there 1) success ≡ ok (wrapped, tagged 16)
unfolding set_data next_slot set_head
second_put = refl

set_data_tagged_example :
    (laps : ℕ) × (slot : ℕ) × (suc zero ≡ laps * 2 + slot)
    × (slot < 2)
    × ((tagged 16).address ≡ slot * 16 % 2 ^ 64)
    × ((tagged 16).entry.status % 2 ≡ (if even laps then 1 else 0))
set_data_tagged_example =
    set_data_tagged success (tagged 16) (omega arith) (omega arith) after_one second_put
