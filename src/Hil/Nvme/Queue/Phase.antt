-- ===== src/Hil/Nvme/Queue/Phase.antt =====
-- hil/nvme/queue.cc: the phase bit, by which the host tells a new completion from an old one.
use simple_ssd.Base.{
  ℕ, ◌+◌, ◌*◌, ◌%◌, ◌^◌, ◌<◌, ◌≡◌, inl, inr, refl, Bool, true, not, arith, ◌==◌, if◌then◌else◌,
  Bool-cases, zero, suc,
}
use native.Mathlib.Nat.{suc-mul}
use simple_ssd.Base.Result.{ok}
use simple_ssd.Hil.Nvme.Queue.{
  CQueue, CqEntry, Written, next_slot, create, set_data, set_head, set_base,
}

-- The completion queues that a controller reaches from a new one of `size` entries, when it has put
-- `n` completions and the host has moved the head in any way.
pub data Reached (iv : ℕ) (en : Bool) (qid size stride : ℕ) : CQueue → ℕ → Type 0 where
  start :
      Reached iv en qid size stride
        (let c = create iv en qid size in record c { queue = set_base stride c.queue })
        0
  put :
      {c d : CQueue} {n : ℕ} (e : CqEntry) (w : Written)
      → Reached iv en qid size stride c n
      → set_data c e ≡ ok (d, w)
      → Reached iv en qid size stride d (suc n)
  move :
      {c : CQueue} {n : ℕ}
      → Reached iv en qid size stride c n
      → (head : ℕ) → Reached iv en qid size stride (set_head c head) n

abbrev pub even : ℕ → Bool
even zero = true
even (suc n) = not (even n)

-- After `n` completions the tail has gone round `laps` times, and the phase tells whether that is even.
pub record Lap (size stride : ℕ) (c : CQueue) (n : ℕ) : Type 0 where
  pub laps : ℕ
  pub total : n ≡ laps * size + c.queue.tail
  pub tail_lt : c.queue.tail < size
  pub phase : c.phase ≡ even laps
  pub same_size : c.queue.size ≡ size
  pub same_stride : c.queue.stride ≡ stride

-- setData() that returned.
after_put :
    (c d : CQueue) (e : CqEntry) (w : Written)
    → set_data c e ≡ ok (d, w)
    → (d.queue.tail ≡ next_slot c.queue.size c.queue.tail)
      × (d.phase ≡ (if (c.queue.tail + 1) % 2 ^ 16 == c.queue.size then not c.phase else c.phase))
      × (d.queue.size ≡ c.queue.size)
      × (d.queue.stride ≡ c.queue.stride)
      × (w.address ≡ c.queue.tail * c.queue.stride % 2 ^ 64)
      × (w.entry.status % 2 ≡ (if c.phase then 1 else 0))
unfolding set_data
after_put c d e w h = (
  ground (arith, h),
  ground (arith, h),
  ground (arith, h),
  ground (arith, h),
  ground (arith, h),
  ground (arith, h),
)

Lap-next :
    (size stride : ℕ) (c d : CQueue) (n : ℕ) (e : CqEntry) (w : Written)
    → size < 2 ^ 16
    → set_data c e ≡ ok (d, w)
    → Lap size stride c n
    → Lap size stride d (suc n)
unfolding next_slot
Lap-next size stride c d n e w small run l =
    let (tail, phase, same_size, same_stride, _, _) = after_put c d e w run in
    elim (Bool-cases (c.queue.tail + 1 == size)) [
      | inl last ↦
          let full : c.queue.tail + 1 ≡ size = ground (arith, last) in
          let back : d.queue.tail ≡ 0 = ground (arith, tail, full, l.same_size, small) in
          record {
            laps = suc l.laps;
            total = omega (arith, l.total, suc-mul l.laps size, full, back);
            tail_lt = omega (arith, back, l.tail_lt);
            phase = ground (arith, phase, full, l.phase, l.same_size, small);
            same_size = ground (arith, same_size, l.same_size);
            same_stride = ground (arith, same_stride, l.same_stride);
          }
      | inr on ↦
          let up : d.queue.tail ≡ c.queue.tail + 1 =
            ground (arith, tail, on, l.tail_lt, l.same_size, small) in
          record {
            laps = l.laps;
            total = omega (arith, l.total, up);
            tail_lt = ground (arith, tail, on, l.tail_lt, l.same_size, small);
            phase = ground (arith, phase, on, l.phase, l.tail_lt, l.same_size, small);
            same_size = ground (arith, same_size, l.same_size);
            same_stride = ground (arith, same_stride, l.same_stride);
          }
    ]

Reached-Lap :
    {iv : ℕ} {en : Bool} {qid size stride : ℕ} {c : CQueue} {n : ℕ}
    → 0 < size
    → size < 2 ^ 16
    → Reached iv en qid size stride c n
    → Lap size stride c n
unfolding create set_head
Reached-Lap pos small start = record {
  laps = 0;
  total = omega arith;
  tail_lt = pos;
  phase = refl;
  same_size = refl;
  same_stride = refl;
}
Reached-Lap {size = size} {stride = stride} pos small (put {c} {d} {n} e w before run) =
    Lap-next size stride c d n e w small run (Reached-Lap pos small before)
Reached-Lap pos small (move before head) =
    let l = Reached-Lap pos small before in
    record {
      laps = l.laps;
      total = l.total;
      tail_lt = l.tail_lt;
      phase = l.phase;
      same_size = l.same_size;
      same_stride = l.same_stride;
    }

-- On a completion queue of a positive size below 2 ^ 16 that was reached from a new one by `n`
-- completions and any moves of the head, setData() that returns writes to slot `n` modulo the size,
-- and bit 0 of the status is 1 exactly when the tail has gone round the ring an even number of
-- times.
pub set_data_tagged :
    {iv : ℕ} {en : Bool} {qid size stride : ℕ} {c d : CQueue} {n : ℕ} (e : CqEntry) (w : Written)
    → 0 < size
    → size < 2 ^ 16
    → Reached iv en qid size stride c n
    → set_data c e ≡ ok (d, w)
    → (laps : ℕ) × (slot : ℕ) × (n ≡ laps * size + slot)
      × (slot < size)
      × (w.address ≡ slot * stride % 2 ^ 64)
      × (w.entry.status % 2 ≡ (if even laps then 1 else 0))
set_data_tagged {c = c} {d = d} e w pos small before run =
    let l = Reached-Lap pos small before in
    let (_, _, _, _, address, tag) = after_put c d e w run in
    (
      l.laps,
      c.queue.tail,
      l.total,
      l.tail_lt,
      ground (arith, address, l.same_stride),
      ground (arith, tag, l.phase),
    )
