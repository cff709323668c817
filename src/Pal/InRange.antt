-- ===== src/Pal/InRange.antt =====
-- pal/pal_old.cc: the addresses that convertCPDPBP() lists.
use native.Mathlib.Nat.{suc-mul, mod-lt}
use simple_ssd.Base.{
  ℕ, zero, suc, ◌+◌, ◌*◌, ◌%◌, ◌<◌, ◌≡◌, ◌∙◌, sym, ap, refl, inl, inr, Bool, true, false, ◌&&◌,
  List, [], ◌∷◌, ◌++◌, arith, length, ◌==◌, if◌then◌else◌, Bool-cases,
}
use simple_ssd.Base.Result.{ok, panic, io_map_size_mismatch}
use simple_ssd.Util.Bitset
use simple_ssd.Util.Bitset.{Bitset}
use simple_ssd.Ftl.PageMapping.State.{PalRequest}
use simple_ssd.Pal.Address.{
  Index, index_channel, index_package, index_die, index_plane, Config, Parameter, Cpdpbp, put,
  Split, take_dimension, split_step, split_block, each, units, convert_cpdpbp,
}

-- Every entry has the property.
abbrev pub Each : {A : Type 0} → (A → Type 0) → List A → Type 0
Each P [] = Unit {0}
Each P (x ∷ xs) = P x × Each P xs

Each-append :
    {A : Type 0} (P : A → Type 0) (xs ys : List A) → Each P xs → Each P ys → Each P (xs ++ ys)
Each-append P [] ys h k = k
Each-append P (x ∷ xs) ys (first, h) k = (first, Each-append P xs ys h k)

-- The number of positions from `t` on, of `n`, that are marked.
abbrev pub count_from : ℕ → ℕ → (ℕ → Bool) → ℕ
count_from zero t p = 0
count_from (suc n) t p = (if p t then 1 else 0) + count_from n (t + 1) p

count_from-add :
    (m n t : ℕ) (p : ℕ → Bool) → count_from (m + n) t p ≡ count_from m t p + count_from n (t + m) p
count_from-add zero n t p =
    let e : zero + n ≡ n = omega arith in let k : t + 0 ≡ t = omega arith in rw (e, k) (omega arith)
count_from-add (suc m) n t p =
    let e : suc m + n ≡ suc (m + n) = omega arith in
    let k : t + suc m ≡ t + 1 + m = omega arith in
    rw (e, k) (omega (arith, count_from-add m n (t + 1) p))

length-append : {A : Type 0} (xs ys : List A) → length (xs ++ ys) ≡ length xs + length ys
length-append [] ys = omega arith
length-append (x ∷ xs) ys = omega (arith, length-append xs ys)

-- The pages of a super block.
abbrev pub product : List (Index × ℕ) → ℕ
product [] = 1
product ((i, n) ∷ dims) = n * product dims

abbrev pub IsInRange : Config → Cpdpbp → Type 0
IsInRange f a =
    (a.at_channel < f.size_of index_channel)
    × (a.at_package < f.size_of index_package)
    × (a.at_die < f.size_of index_die)
    × (a.at_plane < f.size_of index_plane)

put-IsInRange :
    (f : Config) (i : Index) (n : ℕ) (a : Cpdpbp)
    → n < f.size_of i
    → IsInRange f a
    → IsInRange f (put i n a)
put-IsInRange f index_channel n a h (c, p, d, l) = (h, p, d, l)
put-IsInRange f index_package n a h (c, p, d, l) = (c, h, d, l)
put-IsInRange f index_die n a h (c, p, d, l) = (c, p, h, l)
put-IsInRange f index_plane n a h (c, p, d, l) = (c, p, d, h)

-- What a nest of loops lists from position `t` on.
record Lists (f : Config) (flag : Bitset) (m t : ℕ) (r : List Cpdpbp × ℕ) : Type 0 where
  past : r.1 ≡ t + m
  marked : length r.0 ≡ count_from m t (Bitset.test flag)
  in_range : Each (IsInRange f) r.0

-- The dimensions have the sizes of the configuration.
abbrev AreSizes : Config → List (Index × ℕ) → Type 0
AreSizes f [] = Unit {0}
AreSizes f ((i, n) ∷ dims) = (n ≡ f.size_of i) × AreSizes f dims

module _ (f : Config) (flag : Bitset) where
  each-Lists :
      (n i m : ℕ) (body : ℕ → ℕ → List Cpdpbp × ℕ) (t : ℕ)
      → ((k at : ℕ) → k < i + n → Lists f flag m at (body k at))
      → Lists f flag (n * m) t (each n i body t)
  unfolding each
  each-Lists zero i m body t h =
      let e : 0 * m ≡ 0 = omega arith in
      rw e (record { past = omega arith; marked = refl; in_range = tt })
  each-Lists (suc n) i m body t h =
      let first = h i t (omega arith) in
      let rest = each-Lists n (i + 1) m body (body i t).1 (λ k at lt. h k at (omega arith)) in
      let e : suc n * m ≡ m + n * m = omega (arith, suc-mul n m) in
      rw e (record {
        past = omega (arith, first.past, rest.past);
        marked =
            length-append (body i t).0 (each n (i + 1) body (body i t).1).0
            ∙ later t (body i t) (each n (i + 1) body (body i t).1) first rest
            ∙ sym (count_from-add m (n * m) t (Bitset.test flag));
        in_range =
            Each-append (IsInRange f) (body i t).0 (each n (i + 1) body (body i t).1).0
              first.in_range rest.in_range;
      })
    where
      later :
          {m k : ℕ} (t : ℕ) (r q : List Cpdpbp × ℕ)
          → Lists f flag m t r
          → Lists f flag k r.1 q
          → length r.0 + length q.0
            ≡ count_from m t (Bitset.test flag) + count_from k (t + m) (Bitset.test flag)
      later {k = k} t r q a b =
          let same : count_from k r.1 (Bitset.test flag) ≡ count_from k (t + _) (Bitset.test flag) =
            ap (λ x. count_from k x (Bitset.test flag)) a.past in
          omega (arith, a.marked, b.marked, same)

  units-Lists :
      (dims : List (Index × ℕ)) (a : Cpdpbp) (t : ℕ)
      → AreSizes f dims
      → IsInRange f a
      → Lists f flag (product dims) t (units dims flag a t)
  unfolding units
  units-Lists [] a t sizes h = elim (Bool-cases (Bitset.test flag t)) [
    | inl e ↦ rw e (record { past = refl; marked = ground (arith, e); in_range = (h, tt) })
    | inr e ↦ rw e (record { past = refl; marked = ground (arith, e); in_range = tt })
  ]
  units-Lists ((i, n) ∷ dims) a t (size, sizes) h =
      each-Lists n 0 (product dims) (λ k at. units dims flag (put i k a) at) t
        (λ k at lt.
          units-Lists dims (put i k a) at sizes (put-IsInRange f i k a (omega (arith, size)) h))

-- What the loop over the order of allocation keeps.
module _ (f : Config) (sizes : (i : Index) → 0 < f.size_of i) where
  abbrev IsSplit : Split → Type 0
  IsSplit s = AreSizes f s.dimensions × IsInRange f s.address

  take_dimension-IsSplit : (i : Index) (s : Split) → IsSplit s → IsSplit (take_dimension f i s)
  take_dimension-IsSplit i s (dims, h) = elim (Bool-cases (f.superblock i)) [
    | inl e ↦ rw e ((refl, dims), h)
    | inr e ↦
        rw e (dims, put-IsInRange f i (s.left % f.size_of i) s.address (mod-lt s.left (sizes i)) h)
  ]

  split_step-IsSplit : (i : Index) (s : Split) → IsSplit s → IsSplit (split_step f i s)
  split_step-IsSplit index_channel s h = take_dimension-IsSplit index_channel s h
  split_step-IsSplit index_package s h = take_dimension-IsSplit index_package s h
  split_step-IsSplit index_die s h = take_dimension-IsSplit index_die s h
  split_step-IsSplit index_plane s h = elim (Bool-cases f.multi_plane) [
    | inl e ↦ rw e h
    | inr e ↦ rw e (take_dimension-IsSplit index_plane s h)
  ]

  split_block-IsSplit : (is : List Index) (s : Split) → IsSplit s → IsSplit (split_block f is s)
  unfolding split_block
  split_block-IsSplit [] s h = h
  split_block-IsSplit (i ∷ is) s h =
      split_block-IsSplit is (split_step f i s) (split_step-IsSplit i s h)

  -- The dimensions of a super block, for a block's index.
  abbrev pub block_split : ℕ → Split
  block_split block = split_block f f.page_allocation (record {
    address = record {
      at_channel = 0;
      at_package = 0;
      at_die = 0;
      at_plane = 0;
      at_block = 0;
      at_page = 0;
    };
    left = block;
    dimensions = [];
  })

  -- If no dimension of the drive is 0 and the request has a flag for each page of a super page,
  -- convertCPDPBP() lists as many pages as the flags that are set among the first ones, one for
  -- each page of a super block, and every channel, package, die and plane in the list is one of the
  -- drive; it returns the list if a super block has as many pages as the parameter says, and panics
  -- otherwise.
  pub convert_cpdpbp-InRange :
      (p : Parameter) (req : PalRequest)
      → Bitset.size req.io_flag ≡ p.page_in_super_page
      → (list : List Cpdpbp) × (convert_cpdpbp f p req ≡ (
          if product (block_split req.block_index).dimensions == p.page_in_super_page
          then ok list
          else panic io_map_size_mismatch))
        × Each (IsInRange f) list
        × (length list
            ≡ count_from
                (product (block_split req.block_index).dimensions)
                0
                (Bitset.test req.io_flag))
  unfolding convert_cpdpbp
  convert_cpdpbp-InRange p req size =
      let s = block_split req.block_index in
      let (dims, h) =
        split_block-IsSplit f.page_allocation _
          (tt, (sizes index_channel, sizes index_package, sizes index_die, sizes index_plane)) in
      let a : Cpdpbp = record s.address { at_block = s.left; at_page = req.page_index } in
      let u = units-Lists f req.io_flag s.dimensions a 0 dims h in
      let fits : (Bitset.size req.io_flag == p.page_in_super_page) ≡ true = ground (arith, size) in
      let past : (units s.dimensions req.io_flag a 0).1 ≡ product s.dimensions =
        omega (arith, u.past) in
      let random : (f.random_tweak && false) ≡ false = ground arith in
      ((units s.dimensions req.io_flag a 0).0, simp (fits, past, random), u.in_range, u.marked)
