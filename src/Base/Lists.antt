-- ===== src/Base/Lists.antt =====
-- Lists measured and indexed by native numbers, under the library's names.
use Prim.Native.Nat.{ℕ, zero, suc, ◌+◌, ◌-◌, ◌≤◌, ◌<◌, min}
use mathlib.Core.Path.{◌≡◌, refl, ap}
use mathlib.Core.Logic.{◌≢◌}
use mathlib.Core.List.{List, [], ◌∷◌, ◌++◌, map}
use mathlib.Core.Option.{Option, none, some}
use mathlib.Core.Bool.{Bool, true, false}
use native.Mathlib.Omega.{arith}
use simple_ssd.Base.Tests.{ltb, ◌==◌, if◌then◌else◌}

module _ {ℓ} {A : Type ℓ} where
  abbrev pub length : List A → ℕ
  length [] = 0
  length (x ∷ xs) = suc (length xs)

  abbrev pub get_elem? : List A → ℕ → Option A
  get_elem? [] i = none
  get_elem? (x ∷ xs) zero = some x
  get_elem? (x ∷ xs) (suc i) = get_elem? xs i

  -- A write out of bounds changes nothing.
  abbrev pub set : List A → ℕ → A → List A
  set [] i v = []
  set (x ∷ xs) zero v = v ∷ xs
  set (x ∷ xs) (suc i) v = x ∷ set xs i v

  pub length-append : (xs ys : List A) → length (xs ++ ys) ≡ length xs + length ys
  length-append [] ys = omega arith
  length-append (x ∷ xs) ys = omega (arith, length-append xs ys)

module _ {ℓ} {A : Type ℓ} where
  pub length-set : (xs : List A) (i : ℕ) (v : A) → length (set xs i v) ≡ length xs
  length-set [] i v = refl
  length-set (x ∷ xs) zero v = refl
  length-set (x ∷ xs) (suc i) v = ap suc (length-set xs i v)

  pub get_elem?-set_self :
      (xs : List A) (i : ℕ) (v : A) → i < length xs → get_elem? (set xs i v) i ≡ some v
  get_elem?-set_self [] i v h = elim h [ ]
  get_elem?-set_self (x ∷ xs) zero v h = refl
  get_elem?-set_self (x ∷ xs) (suc i) v h = get_elem?-set_self xs i v (omega arith)

  pub get_elem?-set_ne :
      (xs : List A) {i j : ℕ} (v : A) → i ≢ j → get_elem? (set xs i v) j ≡ get_elem? xs j
  get_elem?-set_ne [] v h = refl
  get_elem?-set_ne (x ∷ xs) {i = zero} {j = zero} v h = absurd (h refl)
  get_elem?-set_ne (x ∷ xs) {i = zero} {j = suc j} v h = refl
  get_elem?-set_ne (x ∷ xs) {i = suc i} {j = zero} v h = refl
  get_elem?-set_ne (x ∷ xs) {i = suc i} {j = suc j} v h = get_elem?-set_ne xs v (λ e. h (ap suc e))

module _ {ℓ} {A : Type ℓ} where
  abbrev pub get_or : List A → ℕ → A → A
  get_or [] i d = d
  get_or (x ∷ xs) zero d = x
  get_or (x ∷ xs) (suc i) d = get_or xs i d

  abbrev pub take : ℕ → List A → List A
  take zero xs = []
  take (suc n) [] = []
  take (suc n) (x ∷ xs) = x ∷ take n xs

  abbrev pub drop : ℕ → List A → List A
  drop zero xs = xs
  drop (suc n) [] = []
  drop (suc n) (x ∷ xs) = drop n xs

  abbrev pub replicate : ℕ → A → List A
  replicate zero a = []
  replicate (suc n) a = a ∷ replicate n a

  pub take-append-drop : (n : ℕ) (xs : List A) → take n xs ++ drop n xs ≡ xs
  take-append-drop zero xs = refl
  take-append-drop (suc n) [] = refl
  take-append-drop (suc n) (x ∷ xs) = rw (take-append-drop n xs)

  pub length-take : (n : ℕ) (xs : List A) → length (take n xs) ≡ min n (length xs)
  length-take zero xs = omega arith
  length-take (suc n) [] = omega arith
  length-take (suc n) (x ∷ xs) = omega (arith, length-take n xs)

  pub length-drop : (n : ℕ) (xs : List A) → length (drop n xs) ≡ length xs - n
  length-drop zero xs = omega arith
  length-drop (suc n) [] = omega arith
  length-drop (suc n) (x ∷ xs) = omega (arith, length-drop n xs)

  pub length-replicate : (n : ℕ) (a : A) → length (replicate n a) ≡ n
  length-replicate zero a = refl
  length-replicate (suc n) a = ap suc (length-replicate n a)

  pub length-map {κ} : {B : Type κ} (xs : List A) (f : A → B) → length (map f xs) ≡ length xs
  length-map [] f = refl
  length-map (x ∷ xs) f = ap suc (length-map xs f)

module _ {ℓ} {A : Type ℓ} where
  -- for (i = 0; i < n; i++) xs[i] = v
  abbrev pub fill : ℕ → A → List A → List A
  fill zero v xs = xs
  fill (suc n) v [] = []
  fill (suc n) v (x ∷ xs) = v ∷ fill n v xs

  -- for (i = 0; i < n; i++) xs[i] = f(xs[i])
  abbrev pub map_first : ℕ → (A → A) → List A → List A
  map_first zero f xs = xs
  map_first (suc n) f [] = []
  map_first (suc n) f (x ∷ xs) = f x ∷ map_first n f xs

  -- for (i = 0; i < n; i++) xs[i] = f(xs[i], ys[i])
  abbrev pub zip_first : ℕ → (A → A → A) → List A → List A → List A
  zip_first zero f xs ys = xs
  zip_first (suc n) f [] ys = []
  zip_first (suc n) f (x ∷ xs) [] = x ∷ xs
  zip_first (suc n) f (x ∷ xs) (y ∷ ys) = f x y ∷ zip_first n f xs ys

  -- for (i = 0; i < n; i++) acc = f(acc, xs[i])
  abbrev pub fold_first {κ} : {B : Type κ} → ℕ → (B → A → B) → B → List A → B
  fold_first zero f acc xs = acc
  fold_first (suc n) f acc [] = acc
  fold_first (suc n) f acc (x ∷ xs) = fold_first n f (f acc x) xs

  pub length-fill : (n : ℕ) (v : A) (xs : List A) → length (fill n v xs) ≡ length xs
  length-fill zero v xs = refl
  length-fill (suc n) v [] = refl
  length-fill (suc n) v (x ∷ xs) = ap suc (length-fill n v xs)

  pub length-map_first : (n : ℕ) (f : A → A) (xs : List A) → length (map_first n f xs) ≡ length xs
  length-map_first zero f xs = refl
  length-map_first (suc n) f [] = refl
  length-map_first (suc n) f (x ∷ xs) = ap suc (length-map_first n f xs)

  pub length-zip_first :
      (n : ℕ) (f : A → A → A) (xs ys : List A) → length (zip_first n f xs ys) ≡ length xs
  length-zip_first zero f xs ys = refl
  length-zip_first (suc n) f [] ys = refl
  length-zip_first (suc n) f (x ∷ xs) [] = refl
  length-zip_first (suc n) f (x ∷ xs) (y ∷ ys) = ap suc (length-zip_first n f xs ys)

  pub get_or-fill :
      (n : ℕ) (v d : A) (xs : List A) (i : ℕ)
      → i < length xs
      → get_or (fill n v xs) i d ≡ (if ltb i n then v else get_or xs i d)
  get_or-fill n v d [] i h = absurd (omega arith)
  get_or-fill zero v d (x ∷ xs) i h = ground arith
  get_or-fill (suc n) v d (x ∷ xs) zero h = ground arith
  get_or-fill (suc n) v d (x ∷ xs) (suc i) h = ground (arith, get_or-fill n v d xs i)

  pub get_or-map_first :
      (n : ℕ) (f : A → A) (d : A) (xs : List A) (i : ℕ)
      → i < length xs
      → get_or (map_first n f xs) i d ≡ (if ltb i n then f (get_or xs i d) else get_or xs i d)
  get_or-map_first n f d [] i h = absurd (omega arith)
  get_or-map_first zero f d (x ∷ xs) i h = ground arith
  get_or-map_first (suc n) f d (x ∷ xs) zero h = ground arith
  get_or-map_first (suc n) f d (x ∷ xs) (suc i) h = ground (arith, get_or-map_first n f d xs i)

  pub get_or-zip_first :
      (n : ℕ) (f : A → A → A) (d : A) (xs ys : List A) (i : ℕ)
      → i < length xs
      → length xs ≡ length ys
      → get_or (zip_first n f xs ys) i d
        ≡ (if ltb i n then f (get_or xs i d) (get_or ys i d) else get_or xs i d)
  get_or-zip_first n f d [] ys i h e = absurd (omega arith)
  get_or-zip_first zero f d (x ∷ xs) ys i h e = ground arith
  get_or-zip_first (suc n) f d (x ∷ xs) [] i h e = absurd (omega arith)
  get_or-zip_first (suc n) f d (x ∷ xs) (y ∷ ys) zero h e = ground arith
  get_or-zip_first (suc n) f d (x ∷ xs) (y ∷ ys) (suc i) h e =
      ground (arith, get_or-zip_first n f d xs ys i)

  pub get_or-set :
      (xs : List A) (i j : ℕ) (v d : A)
      → i < length xs
      → get_or (set xs i v) j d ≡ (if i == j then v else get_or xs j d)
  get_or-set [] i j v d h = absurd (omega arith)
  get_or-set (x ∷ xs) zero zero v d h = ground arith
  get_or-set (x ∷ xs) zero (suc j) v d h = ground arith
  get_or-set (x ∷ xs) (suc i) zero v d h = ground arith
  get_or-set (x ∷ xs) (suc i) (suc j) v d h = ground (arith, get_or-set xs i j v d)

  pub get_or_above : (xs : List A) (i : ℕ) (d : A) → length xs ≤ i → get_or xs i d ≡ d
  get_or_above [] i d h = refl
  get_or_above (x ∷ xs) zero d h = absurd (omega arith)
  get_or_above (x ∷ xs) (suc i) d h = get_or_above xs i d (omega arith)

  pub get_or-replicate : (n i : ℕ) (a d : A) → i < n → get_or (replicate n a) i d ≡ a
  get_or-replicate zero i a d h = absurd (omega arith)
  get_or-replicate (suc n) zero a d h = refl
  get_or-replicate (suc n) (suc i) a d h = get_or-replicate n i a d (omega arith)

  pub get_or-replicate_self : (n i : ℕ) (a : A) → get_or (replicate n a) i a ≡ a
  get_or-replicate_self zero i a = refl
  get_or-replicate_self (suc n) zero a = refl
  get_or-replicate_self (suc n) (suc i) a = get_or-replicate_self n i a

-- What holds of every element below `n` still does when one is replaced by another such.
pub keeps_set {ℓ κ} :
    {A : Type ℓ} (P : A → Type κ) (xs : List A) (i n : ℕ) (v d : A)
    → i < length xs
    → P v
    → ((k : ℕ) → k < n → P (get_or xs k d))
    → (k : ℕ) → k < n
    → P (get_or (set xs i v) k d)
keeps_set P xs i n v d h pv all k lt = rw (get_or-set xs i k v d h) (choose (i == k))
  where
    choose : (t : Bool) → P (if t then v else get_or xs k d)
    choose true = pv
    choose false = all k lt

pub keeps_map {ℓ κ} :
    {A : Type ℓ} (P : A → Type κ) (f : A → A) (xs : List A) (d : A)
    → ((k : ℕ) → k < length xs → P (f (get_or xs k d)))
    → (k : ℕ) → k < length xs
    → P (get_or (map f xs) k d)
keeps_map P f [] d h k lt = absurd (omega arith)
keeps_map P f (x ∷ xs) d h zero lt = h zero lt
keeps_map P f (x ∷ xs) d h (suc k) lt =
    keeps_map P f xs d (λ m hm. h (suc m) (omega arith)) k (omega arith)

pub get_or-map {ℓ} :
    {A : Type ℓ} (f : A → A) (xs : List A) (d : A) (k : ℕ)
    → k < length xs
    → get_or (map f xs) k d ≡ f (get_or xs k d)
get_or-map f [] d k h = absurd (omega arith)
get_or-map f (x ∷ xs) d zero h = refl
get_or-map f (x ∷ xs) d (suc k) h = get_or-map f xs d k (omega arith)
