-- ===== src/Icl/Split.antt =====
-- icl/icl.cc: the split of a request, against the bytes that it covers.
use native.Mathlib.Nat.{suc-mul}
use simple_ssd.Base.{
  ℕ, zero, suc, ◌+◌, ◌-◌, ◌*◌, ◌%◌, ◌^◌, ◌≤◌, ◌<◌, ◌≡◌, ◌∙◌, ap, refl, arith, min, max,
}
use simple_ssd.Base.Result.{Result, ok, panic, ◌>>=◌}
use simple_ssd.Ftl.PageMapping.State.{Clock}
use simple_ssd.Icl.Cache.State.{Request}
use simple_ssd.Icl.Front.{sub_request, each_line}

bind_ext {ℓ ℓ'} :
    {A : Type ℓ} {B : Type ℓ'} (x : Result A) (f g : A → Result B)
    → ((a : A) → f a ≡ g a)
    → (x >>= f) ≡ (x >>= g)
bind_ext (panic e) f g h = refl
bind_ext (ok a) f g h = h a

next_line : (size first i : ℕ) → (first + (i + 1)) * size ≡ (first + i) * size + size
next_line size first i =
    let e : first + (i + 1) ≡ suc (first + i) = omega arith in rw e (suc-mul (first + i) size)

-- The part of a request in a line: the bytes from `begin` up to `end` that are bytes of the line.
abbrev pub part : ℕ → Request → ℕ → ℕ → ℕ → Request
part size req begin end i =
    let line = (req.range.slpn + i) * size in
    record {
      req_id = req.req_id;
      req_sub_id = i + 1;
      offset = max begin line - line;
      length = min end (line + size) - max begin line;
      range = record { slpn = req.range.slpn + i; nlp = 0 };
    }

-- The accesses to `n` lines from line `i` of the request on, all of them begun at `tick`.
module _ {C D : Type 0} (access : C → Request → Clock D → Result (C × Clock D)) where
  unfoldable pub each_part : ℕ → ℕ → Request → ℕ → ℕ → ℕ → ℕ → C → Clock D → Result (C × Clock D)
  each_part zero size req begin end i tick c k = ok (c, k)
  each_part (suc n) size req begin end i tick c k = do
    (c', after) ← access c (part size req begin end i) (record { tick = tick; device = k.device })
    each_part n size req begin end (i + 1) tick c'
        (record { tick = max k.tick after.tick; device = after.device })

  each_line-part :
      (n size : ℕ) (req : Request) (begin end i offset remain tick : ℕ) (c : C) (k : Clock D)
      → size < 2 ^ 64
      → begin < (req.range.slpn + i) * size + size
      → begin ≤ end
      → offset ≡ max begin ((req.range.slpn + i) * size) - (req.range.slpn + i) * size
      → remain ≡ end - max begin ((req.range.slpn + i) * size)
      → each_line access n size req i offset remain tick c k
        ≡ each_part n size req begin end i tick c k
  unfolding each_line each_part sub_request
  each_line-part zero size req begin end i offset remain tick c k small first le at left = refl
  each_line-part (suc n) size req begin end i offset remain tick c k small first le at left =
      let line = (req.range.slpn + i) * size in
      let next = next_line size (req.range.slpn) i in
      let room : (size + 2 ^ 64 - offset) % 2 ^ 64 ≡ size - offset = grind arith in
      let taken : min remain (size - offset) ≡ min end (line + size) - max begin line =
        omega arith in
      let same : sub_request size req i offset remain ≡ part size req begin end i =
        rw (ap (min remain) room ∙ taken, at) refl in
      let sub = sub_request size req i offset remain in
      let length_is : sub.length ≡ (part size req begin end i).length = ap (λ r. r.length) same in
      let clock : Clock D = record { tick = tick; device = k.device } in
      bind_ext (access c sub clock) _ _ (λ r.
        each_line-part n size req begin end (i + 1) 0 (remain - sub.length) tick r.0
          (record { tick = max k.tick r.1.tick; device = r.1.device }) small (omega (arith, next))
          le (omega (arith, next)) (omega (arith, next, left, length_is)))
      ∙ ap
          (λ q. access c q clock >>= λ r.
            each_part n size req begin end (i + 1) tick r.0
              (record { tick = max k.tick r.1.tick; device = r.1.device }))
          same

  -- With lines of less than 2^64 bytes and an offset in the first line, the loop of ICL::read() and
  -- ICL::write() makes one access for each line, to the bytes of that line that lie between the
  -- begin and the end of the request, all of them begun at the same tick.
  pub each_line-Parts :
      (size : ℕ) (req : Request) (tick : ℕ) (c : C) (k : Clock D)
      → size < 2 ^ 64
      → req.offset < size
      → each_line access req.range.nlp size req 0 req.offset req.length tick c k
        ≡ each_part req.range.nlp size req
            (req.range.slpn * size + req.offset)
            (req.range.slpn * size + req.offset + req.length)
            0
            tick
            c
            k
  each_line-Parts size req tick c k small inside =
      let at : (req.range.slpn + 0) * size ≡ req.range.slpn * size =
        ap (λ x. x * size) (omega arith) in
      each_line-part req.range.nlp size req (req.range.slpn * size + req.offset)
        (req.range.slpn * size + req.offset + req.length) 0 req.offset req.length tick c k small
        (omega (arith, at)) (omega arith) (omega (arith, at)) (omega (arith, at))
