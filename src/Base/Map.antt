-- ===== src/Base/Map.antt =====
-- A map with numbers for keys as an association list: `std::unordered_map`, whose iterators are
-- keys. A key stands at most once; the order of the entries is one that the map may have.
use Prim.Native.Nat.{ℕ}
use mathlib.Core.Path.{◌≡◌, refl}
use mathlib.Core.List.{List, [], ◌∷◌}
use mathlib.Core.Option.{Option, none, some}
use native.Mathlib.Omega.{arith}
use simple_ssd.Base.Tests.{◌==◌, if◌then◌else◌}

module _ {ℓ} {V : Type ℓ} where
  unfoldable pub find : ℕ → List (ℕ × V) → Option V
  find k [] = none
  find k ((j, v) ∷ m) = if j == k then some v else find k m

  -- The entry of `k` becomes `v`; a new key goes to the end.
  unfoldable pub insert : ℕ → V → List (ℕ × V) → List (ℕ × V)
  insert key value [] = (key, value) ∷ []
  insert key value ((other, old) ∷ rest) =
      if other == key then (key, value) ∷ rest else (other, old) ∷ insert key value rest

  -- Every entry of `k` goes.
  unfoldable pub erase : ℕ → List (ℕ × V) → List (ℕ × V)
  erase k [] = []
  erase k ((j, w) ∷ m) = let rest = erase k m in if j == k then rest else (j, w) ∷ rest

  pub find-insert :
      (k : ℕ) (v : V) (m : List (ℕ × V)) (j : ℕ)
      → find j (insert k v m) ≡ (if k == j then some v else find j m)
  unfolding find insert
  find-insert k v [] j = refl
  find-insert k v ((i, w) ∷ m) j = ground (arith, find-insert k v m j)

  pub find-erase :
      (k : ℕ) (m : List (ℕ × V)) (j : ℕ) → find j (erase k m) ≡ (if k == j then none else find j m)
  unfolding find erase
  find-erase k [] j = ground arith
  find-erase k ((i, w) ∷ m) j = ground (arith, find-erase k m j)
