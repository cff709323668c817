-- ===== src/Ftl/PageMapping/FreeList.antt =====
-- ftl/page_mapping.cc: the list of free blocks, and the search of getFreeBlock() in it.
use simple_ssd.Base.{
  ℕ, suc, ◌%◌, ◌<◌, ◌≡◌, ◌≢◌, sym, ◌⊎◌, inl, inr, refl, ap, false, ◌++◌, List, [], ◌∷◌, Option,
  none, some, arith, ◌==◌, length, Bool-cases,
}
use simple_ssd.Base.Map
use simple_ssd.Base.Map.{find, find-insert}
use simple_ssd.Ftl.Block.{Block, next_write_page_index_at}
use simple_ssd.Ftl.PageMapping.State.{Parameter}
use simple_ssd.Ftl.PageMapping.Alloc.{pick_aligned, pick_free}
use simple_ssd.Ftl.PageMapping.Consistent.{IsSized}

-- No block of the list has the index.
abbrev pub Absent : ℕ → List Block → Type 0
Absent k [] = Unit {0}
Absent k (b ∷ bs) = (b.idx ≢ k) × Absent k bs

-- An erased block that is not in use.
pub record IsFree (pa : Parameter) (used : List (ℕ × Block)) (b : Block) : Type 0 where
  pub sized : IsSized pa b
  pub clean : (i : ℕ) → next_write_page_index_at b i ≡ 0
  pub unused : find b.idx used ≡ none
  pub index_lt : b.idx < pa.total_physical_blocks

-- The free blocks are such blocks, with distinct indices.
abbrev pub AreFree : Parameter → List (ℕ × Block) → List Block → Type 0
AreFree pa used [] = Unit {0}
AreFree pa used (b ∷ bs) = IsFree pa used b × Absent b.idx bs × AreFree pa used bs

-- The blocks in use may change, if no free index comes to use.
pub AreFree-used :
    (pa : Parameter) (used used' : List (ℕ × Block)) (bs : List Block)
    → ((k : ℕ) → find k used ≡ none → find k used' ≡ none)
    → AreFree pa used bs
    → AreFree pa used' bs
AreFree-used pa used used' [] h f = tt
AreFree-used pa used used' (b ∷ bs) h (free, apart, rest) = (
  record {
    sized = free.sized;
    clean = free.clean;
    unused = h b.idx free.unused;
    index_lt = free.index_lt;
  },
  apart,
  AreFree-used pa used used' bs h rest,
)

pub AreFree-insert :
    (pa : Parameter) (used : List (ℕ × Block)) (k : ℕ) (c : Block) (bs : List Block)
    → Absent k bs
    → AreFree pa used bs
    → AreFree pa (Map.insert k c used) bs
AreFree-insert pa used k c [] a f = tt
AreFree-insert pa used k c (b ∷ bs) (differs, apart') (free, apart, rest) = (
  record {
    sized = free.sized;
    clean = free.clean;
    unused = ground (arith, free.unused, find-insert k c used b.idx);
    index_lt = free.index_lt;
  },
  apart,
  AreFree-insert pa used k c bs apart' rest,
)

-- A search takes one block out of the list, and leaves the others.
pub record Picked (pa : Parameter) (used : List (ℕ × Block)) (bs : List Block) (b : Block)
    (rest : List Block) : Type 0 where
  pub free : IsFree pa used b
  pub apart : Absent b.idx rest
  pub others : AreFree pa used rest
  pub counted : length bs ≡ suc (length rest)
  pub absent : (k : ℕ) → Absent k bs → (b.idx ≢ k) × Absent k rest

-- The first block of the list.
first-Picked :
    (pa : Parameter) (used : List (ℕ × Block)) (b : Block) (bs : List Block)
    → AreFree pa used (b ∷ bs)
    → Picked pa used (b ∷ bs) b bs
first-Picked pa used b bs (free, apart, others) = record {
  free = free;
  apart = apart;
  others = others;
  counted = refl;
  absent = λ k a. a;
}

-- A block behind the first one.
later-Picked :
    (pa : Parameter) (used : List (ℕ × Block)) (x : Block) (xs : List Block) (b : Block)
    (rest : List Block)
    → AreFree pa used (x ∷ xs)
    → Picked pa used xs b rest
    → Picked pa used (x ∷ xs) b (x ∷ rest)
later-Picked pa used x xs b rest (free, apart, others) k = record {
  free = k.free;
  apart = ((λ e. (k.absent x.idx apart).0 (sym e)), k.apart);
  others = (free, (k.absent x.idx apart).1, k.others);
  counted = omega (arith, k.counted);
  absent = λ j a. ((k.absent j a.1).0, (a.0, (k.absent j a.1).1));
}

-- No index of the list has the remainder.
abbrev pub AreOther : ℕ → ℕ → List Block → Type 0
AreOther m idx [] = Unit {0}
AreOther m idx (b ∷ bs) = ((b.idx % m == idx) ≡ false) × AreOther m idx bs

-- The block is the first of the list with the remainder, and the rest is the list without it.
pub record First (m idx : ℕ) (bs : List Block) (b : Block) (rest : List Block) : Type 0 where
  pub before : List Block
  pub after : List Block
  pub all : bs ≡ before ++ b ∷ after
  pub without : rest ≡ before ++ after
  pub aligned : b.idx % m ≡ idx
  pub others : AreOther m idx before

-- getFreeBlock() takes that block, or the first one if no index has the remainder.
abbrev pub TakenFrom : ℕ → ℕ → List Block → Block → List Block → Type 0
TakenFrom m idx bs b rest = First m idx bs b rest ⊎ ((bs ≡ b ∷ rest) × AreOther m idx bs)

-- The search finds nothing, or a block of the wanted remainder.
abbrev Search :
    Parameter → List (ℕ × Block) → ℕ → ℕ → List Block → Option (Block × List Block) → Type 0
Search pa used m idx bs r =
    ((r ≡ none) × AreOther m idx bs)
    ⊎ ((b : Block) × (rest : List Block) × (r ≡ some (b, rest))
        × Picked pa used bs b rest
        × First m idx bs b rest)

pick_aligned-Search :
    (pa : Parameter) (used : List (ℕ × Block)) (m idx : ℕ) (bs : List Block)
    → AreFree pa used bs
    → Search pa used m idx bs (pick_aligned m idx bs)
unfolding pick_aligned
pick_aligned-Search pa used m idx [] f = inl (refl, tt)
pick_aligned-Search pa used m idx (x ∷ xs) f = elim (Bool-cases (x.idx % m == idx)) [
  | inl e ↦ inr (
    x,
    xs,
    ground arith,
    first-Picked pa used x xs f,
    record {
      before = [];
      after = xs;
      all = refl;
      without = refl;
      aligned = ground arith;
      others = tt;
    },
  )
  | inr e ↦ elim (pick_aligned-Search pa used m idx xs f.2) [
    | inl (missing, none_there) ↦ inl (ground arith, (e, none_there))
    | inr (b, rest, found, picked, first) ↦ inr (
      b,
      x ∷ rest,
      ground arith,
      later-Picked pa used x xs b rest f picked,
      record {
        before = x ∷ first.before;
        after = first.after;
        all = ap (λ ys. x ∷ ys) first.all;
        without = ap (λ ys. x ∷ ys) first.without;
        aligned = first.aligned;
        others = (e, first.others);
      },
    )
  ]
]

-- From a list that is not empty getFreeBlock() takes a block: one of the wanted remainder if the
-- search finds one.
pub pick_free-Picked :
    (pa : Parameter) (used : List (ℕ × Block)) (m idx : ℕ) (bs : List Block)
    → AreFree pa used bs
    → 0 < length bs
    → (b : Block) × (rest : List Block) × (pick_free m idx bs ≡ some (b, rest))
      × Picked pa used bs b rest
      × TakenFrom m idx bs b rest
unfolding pick_free
pick_free-Picked pa used m idx [] f h = absurd (omega arith)
pick_free-Picked pa used m idx (x ∷ xs) f h = elim (pick_aligned-Search pa used m idx (x ∷ xs) f) [
  | inl (missing, none_there) ↦
      (x, xs, rw (missing, pick_free), first-Picked pa used x xs f, inr (refl, none_there))
  | inr (b, rest, found, picked, first) ↦ (b, rest, rw (found, pick_free), picked, inl first)
]
