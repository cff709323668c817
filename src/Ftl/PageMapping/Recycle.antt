-- ===== src/Ftl/PageMapping/Recycle.antt =====
-- ftl/page_mapping.cc: eraseInternal(), and the list of free blocks that it keeps in the order of
-- their erase counts.
use mathlib.Core.List.{reverse}
use simple_ssd.Base.{
  ℕ, ◌+◌, ◌≤◌, inl, inr, arith, Bool-cases, not, List, [], ◌∷◌, none, some, ltb, leb, ◌==◌,
  if◌then◌else◌,
}
use simple_ssd.Base.Result.{
  Result, ok, panic, ◌>>=◌, ◌>>◌, panic_if, no_such_block, valid_pages_in_victim, past_the_end,
}
use simple_ssd.Base.Map
use simple_ssd.Base.Map.{find}
use simple_ssd.Ftl.Block
use simple_ssd.Ftl.Block.{Block}
use simple_ssd.Ftl.PageMapping.State.{PageMapping, PalRequest, erase_internal_cost, Clock, Hardware}

-- The search from the back of the list (here its front): before the first block that was erased no
-- more often, or at the very end.
unfoldable pub place : Block → List Block → List Block
place b [] = b ∷ []
place b (x ∷ xs) = if leb x.erase_count b.erase_count then b ∷ x ∷ xs else x ∷ place b xs

-- Insert an erased block. The search starts at the last free block: with none it leaves the list.
unfoldable pub insert_free : Block → List Block → Result (List Block)
insert_free b [] = panic past_the_end
insert_free b (x ∷ xs) = ok (reverse (place b (reverse (x ∷ xs))))

-- The block goes to the free blocks, unless it is worn out.
abbrev pub recycle : PageMapping → ℕ → Block → Result PageMapping
recycle s threshold b =
    if ltb b.erase_count threshold
    then (do
      free ← insert_free b s.free_blocks
      ok (record s { free_blocks = free; n_free_blocks = s.n_free_blocks + 1 }))
    else ok s

-- eraseInternal(req, tick), with FTL_BAD_BLOCK_THRESHOLD
unfoldable pub erase_internal :
    {D : Type 0}
    → Hardware D
    → ℕ
    → PageMapping
    → PalRequest
    → Clock D
    → Result (PageMapping × Clock D)
erase_internal hw threshold s req c = elim (find req.block_index s.blocks) [
  | none ↦ panic no_such_block
  | some b ↦ (do
    panic_if (not (Block.valid_page_count b == 0)) valid_pages_in_victim
    let erased = Block.erase b
    let done = hw.pal_erase req c
    t ← recycle s threshold erased
    ok (
      record t { blocks = Map.erase req.block_index t.blocks },
      hw.apply_latency erase_internal_cost done,
    ))
]

-- Erase counts do not rise along the list.
abbrev pub AreBelow : ℕ → List Block → Type 0
AreBelow n [] = Unit {0}
AreBelow n (x ∷ xs) = (x.erase_count ≤ n) × AreBelow n xs

abbrev pub IsFalling : List Block → Type 0
IsFalling [] = Unit {0}
IsFalling (x ∷ xs) = AreBelow x.erase_count xs × IsFalling xs

AreBelow-le : (m n : ℕ) (xs : List Block) → m ≤ n → AreBelow m xs → AreBelow n xs
AreBelow-le m n [] le h = tt
AreBelow-le m n (x ∷ xs) le (first, h) = (omega (arith, first), AreBelow-le m n xs le h)

place-AreBelow :
    (n : ℕ) (b : Block) (xs : List Block)
    → b.erase_count ≤ n
    → AreBelow n xs
    → AreBelow n (place b xs)
unfolding place
place-AreBelow n b [] le h = (le, tt)
place-AreBelow n b (x ∷ xs) le (first, h) = elim (Bool-cases (leb x.erase_count b.erase_count)) [
  | inl e ↦ rw e (le, (first, h))
  | inr e ↦ rw e (first, place-AreBelow n b xs le h)
]

pub place-IsFalling : (b : Block) (xs : List Block) → IsFalling xs → IsFalling (place b xs)
unfolding place
place-IsFalling b [] f = (tt, tt)
place-IsFalling b (x ∷ xs) (first, f) = elim (Bool-cases (leb x.erase_count b.erase_count)) [
  | inl e ↦
      let le : x.erase_count ≤ b.erase_count = ground (arith, e) in
      rw e ((le, AreBelow-le x.erase_count b.erase_count xs le first), (first, f))
  | inr e ↦
      rw e (place-AreBelow x.erase_count b xs (ground (arith, e)) first, place-IsFalling b xs f)
]
