-- ===== src/Ftl/PageMapping/Status.antt =====
-- ftl/page_mapping.cc: getStatus() counts the same pages in its two ways.
use simple_ssd.Base.{
  ℕ, zero, suc, ◌+◌, ◌-◌, ◌≤◌, ◌<◌, ◌≡◌, ◌∙◌, sym, ap, refl, inl, inr, ◌&&◌, List, [], ◌∷◌, none,
  length, ltb, leb, ◌==◌, if◌then◌else◌, Bool-cases, Option-cases, arith,
}
use simple_ssd.Base.Map.{find}
use simple_ssd.Ftl.PageMapping.State.{PageMapping}
use simple_ssd.Ftl.PageMapping.Upkeep.{total_pages, count_mapped, get_status}

-- The keys stand once each, and are below the number of logical pages.
abbrev pub AreKeys : ℕ → List (ℕ × List (ℕ × ℕ)) → Type 0
AreKeys n [] = Unit {0}
AreKeys n ((k, v) ∷ m) = (find k m ≡ none) × (k < n) × AreKeys n m

count_mapped-cons :
    (n : ℕ) (k : ℕ) (v : List (ℕ × ℕ)) (m : List (ℕ × List (ℕ × ℕ))) (lpn : ℕ)
    → find k m ≡ none
    → count_mapped n ((k, v) ∷ m) lpn
      ≡ count_mapped n m lpn + (if leb lpn k && ltb k (lpn + n) then 1 else 0)
unfolding count_mapped find
count_mapped-cons zero k v m lpn fresh = ground arith
count_mapped-cons (suc n) k v m lpn fresh =
    let rest = count_mapped-cons n k v m (lpn + 1) fresh in
    elim (Bool-cases (k == lpn)) [
      | inl e ↦
          let none_here : find lpn m ≡ none = ap (λ j. find j m) (ground (arith, e)) ∙ fresh in
          ground (arith, rest, e, none_here)
      | inr e ↦ elim (Option-cases (find lpn m)) [
        | inl here ↦ ground (arith, rest, e, here)
        | inr (w, here) ↦ ground (arith, rest, e, here)
      ]
    ]

count_mapped-nil : (n lpn : ℕ) → count_mapped n [] lpn ≡ 0
unfolding count_mapped find
count_mapped-nil zero lpn = refl
count_mapped-nil (suc n) lpn = count_mapped-nil n (lpn + 1)

count_mapped-all :
    (total n : ℕ) (m : List (ℕ × List (ℕ × ℕ)))
    → AreKeys total m
    → total ≤ n
    → count_mapped n m 0 ≡ length m
count_mapped-all total n [] keys le = count_mapped-nil n 0
count_mapped-all total n ((k, v) ∷ m) (fresh, lt, keys) le =
    ground (arith, count_mapped-cons n k v m 0 fresh, count_mapped-all total n m keys le)

-- If the keys of the table are distinct and below the number of logical pages, getStatus() returns
-- the number of free blocks and that of the mapped pages of the range, also where it takes the size
-- of the table.
pub get_status-count :
    (s : PageMapping) (from to : ℕ)
    → AreKeys (total_pages s) s.table
    → get_status s from to ≡ (s.n_free_blocks, count_mapped (to - from) s.table from)
unfolding get_status
get_status-count s from to keys = elim (Bool-cases (from == 0 && leb (total_pages s) to)) [
  | inl e ↦
      let zero_is : from ≡ 0 = ground (arith, e) in
      let all = count_mapped-all (total_pages s) (to - 0) s.table keys (ground (arith, e)) in
      rw (e, zero_is) (ap (λ n. (s.n_free_blocks, n)) (sym all))
  | inr e ↦ rw e refl
]
