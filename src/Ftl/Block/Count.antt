-- ===== src/Ftl/Block/Count.antt =====
-- ftl/common/block.cc: getValidPageCount(), getPageInfo() and getNextWritePageIndex().
use simple_ssd.Base.{
  ℕ, zero, suc, ◌+◌, ◌<◌, ◌≡◌, ◌↔◌, inl, inr, refl, true, false, List, [], ◌∷◌, arith,
  if◌then◌else◌, length, get_or,
}
use simple_ssd.Base.Result.{ok, at-eq-get_or}
use simple_ssd.Util.Bitset
use simple_ssd.Util.Bitset.{Bitset}
use simple_ssd.Util.Bitset.Whole.{test-set_all, set_all-IsValid}
use simple_ssd.Util.Bitset.Count.{count_zero_iff, any_false_iff, any_of_test}
use simple_ssd.Ftl.Block.{Block, no_bits, count_any, valid_page_count, PageInfo, page_info}
use simple_ssd.Ftl.Block.View.{valid_at, lpn_at, IsValid}

-- The loop of getValidPageCount() gives 0 exactly when no bitset has a bit set.
count_any-zero :
    (xs : List Bitset)
    → (count_any xs ≡ 0) ↔ ((k : ℕ) → k < length xs → Bitset.any (get_or xs k no_bits) ≡ false)
unfolding count_any
count_any-zero [] = (λ h k lt. absurd (omega arith), λ h. refl)
count_any-zero (x ∷ xs) = (
  λ h k. none_set k h ((count_any-zero xs).0 (omega arith)),
  λ h. ground (arith, h 0, (count_any-zero xs).1 (λ k lt. h (suc k) (omega arith))),
)
  where
    none_set :
        (k : ℕ)
        → (if Bitset.any x then 1 else 0) + count_any xs ≡ 0
        → ((j : ℕ) → j < length xs → Bitset.any (get_or xs j no_bits) ≡ false)
        → k < suc (length xs)
        → Bitset.any (get_or (x ∷ xs) k no_bits) ≡ false
    none_set zero h rest lt = ground arith
    none_set (suc k) h rest lt = rest k (omega arith)

-- On a valid block, getValidPageCount() is 0 exactly when no unit of the block is valid.
pub valid_page_count_zero_iff :
    {b : Block}
    → IsValid b
    → (valid_page_count b ≡ 0)
      ↔ ((p i : ℕ) → p < b.page_count → i < b.io_unit_in_page → valid_at b p i ≡ false)
unfolding valid_page_count valid_at
valid_page_count_zero_iff {b} v = elim v.shaped [
  | inl (one, s) ↦ (
    λ h p i hp hi.
        ground
          (arith, (count_zero_iff s.valid_ok).0 (ground arith) p (omega (arith, s.valid_size))),
    λ h. ground (
      arith,
      (count_zero_iff s.valid_ok).1
          (λ j lt. ground (arith, h j 0 (omega (arith, s.valid_size)) (omega arith))),
    ),
  )
  | inr (many, s) ↦ (
    λ h p i hp hi. ground (
      arith,
      (any_false_iff (s.valid_ok p hp)).0
          ((count_any-zero b.valid_bits).0 (ground arith) p (omega (arith, s.valid_length))) i
          (omega (arith, s.valid_size p hp)),
    ),
    λ h. ground (
      arith,
      (count_any-zero b.valid_bits).1 (λ k lt.
          let hk : k < b.page_count = omega (arith, s.valid_length) in
          (any_false_iff (s.valid_ok k hk)).1
            (λ j hj. ground (arith, h k j hk (omega (arith, s.valid_size k hk))))),
    ),
  )
]

-- On a page of a valid block of several units, and with a map of as many bits, getPageInfo() gives
-- the valid bits of the page and its LPNs, and says whether any unit is valid.
pub page_info_multi :
    (b : Block) (bits : Bitset) (p : ℕ)
    → IsValid b
    → 1 < b.io_unit_in_page
    → Bitset.size bits ≡ b.io_unit_in_page
    → p < b.page_count
    → (r : PageInfo) × (page_info b p bits ≡ ok r)
      × ((i : ℕ) → i < b.io_unit_in_page → Bitset.test r.bits i ≡ valid_at b p i)
      × ((i : ℕ) → i < b.io_unit_in_page → get_or r.lpns i 0 ≡ lpn_at b p i)
      × ((r.any ≡ false) ↔ ((i : ℕ) → i < b.io_unit_in_page → valid_at b p i ≡ false))
unfolding page_info valid_at lpn_at
page_info_multi b bits p v many size hp = elim v.shaped [
  | inl (one, s) ↦ absurd (omega arith)
  | inr (_, s) ↦
      let stored = get_or b.valid_bits p no_bits in
      let inside : p < length b.valid_bits = omega (arith, s.valid_length) in
      let sized : stored.data_size ≡ b.io_unit_in_page = s.valid_size p hp in
      (
        record { lpns = get_or b.pp_lpns p []; bits = stored; any = Bitset.any stored },
        ground (arith, at-eq-get_or b.valid_bits p no_bits inside),
        λ i hi. ground arith,
        λ i hi. ground arith,
        (
          λ h i hi. ground (arith, (any_false_iff (s.valid_ok p hp)).0 h i),
          λ h. (any_false_iff (s.valid_ok p hp)).1 (λ i hi. ground (arith, h i)),
        ),
      )
]

-- On a block of one unit in a page, and with a valid map of one bit, getPageInfo() says that the
-- page is valid, whatever its valid bit.
pub page_info_single :
    (b : Block) (bits : Bitset) (p : ℕ)
    → b.io_unit_in_page ≡ 1
    → Bitset.IsValid bits
    → Bitset.size bits ≡ 1
    → (r : PageInfo) × (page_info b p bits ≡ ok r) × (r.any ≡ true) × (Bitset.test r.bits 0 ≡ true)
unfolding page_info
page_info_single b bits p one w size =
    let set_bit : Bitset.test (Bitset.set_all bits) 0 ≡ true =
      ground (arith, test-set_all w (omega arith) 0) in
    (
      record {
        lpns = get_or b.p_lpns p 0 ∷ [];
        bits = Bitset.set_all bits;
        any = Bitset.any (Bitset.set_all bits);
      },
      ground arith,
      any_of_test (set_all-IsValid w (omega arith)) 0 set_bit,
      set_bit,
    )
