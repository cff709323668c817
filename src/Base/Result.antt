-- ===== src/Base/Result.antt =====
-- A run either returns or panics; `panic` of sim/log.cc prints its message and stops the program.
use mathlib.Core.Path.{◌≡◌, refl}
use mathlib.Core.Bool.{Bool, true, false}
use mathlib.Core.Option.{Option, none, some}
use mathlib.Core.List.{List, [], ◌∷◌}
use Prim.Native.Nat.{ℕ, zero, suc, ◌<◌}
use native.Mathlib.Omega.{arith}
use simple_ssd.Base.Lists.{length, get_or}

-- The messages of the panics that the modelled code can reach.
pub data Panic : Type 0 where
  size_mismatch : Panic
  invalid_io_unit : Panic
  io_map_size_mismatch : Panic
  not_sequential : Panic
  not_erased : Panic
  index_out_of_range : Panic
  corrupted : Panic
  no_free_block : Panic
  block_not_in_use : Panic
  no_such_block : Panic
  invalid_block : Panic
  invalid_mapping : Panic
  valid_pages_in_victim : Panic
  queue_overflow : Panic
  cache_corrupted : Panic
  collection_in_initialization : Panic
  over_provision_too_small : Panic
  -- no panic of the program: an iterator past the end is dereferenced, which is undefined
  past_the_end : Panic
  -- the exception of `std::vector::at`
  out_of_range : Panic

pub data Result {ℓ} (A : Type ℓ) : Type ℓ where
  ok : A → Result A
  panic : Panic → Result A

-- A panic skips the rest of the run.
infixl 5 ◌>>=◌
abbrev pub ◌>>=◌ {ℓ ℓ'} : {A : Type ℓ} {B : Type ℓ'} → Result A → (A → Result B) → Result B
panic p >>= next = panic p
ok a >>= next = next a

infixl 5 ◌>>◌
abbrev pub ◌>>◌ {ℓ} : {A : Type ℓ} → Result (Unit {0}) → Result A → Result A
check >> rest = check >>= λ _. rest

-- A run in which a called component may have stopped the program.
abbrev pub unless_stopped {ℓ} : {A : Type ℓ} → Option Panic → A → Result A
unless_stopped none x = ok x
unless_stopped (some e) x = panic e

abbrev pub panic_or : Option Panic → Panic → Panic
panic_or none e = e
panic_or (some first) e = first

-- if (bad) panic(e)
abbrev pub panic_if : Bool → Panic → Result (Unit {0})
panic_if true e = panic e
panic_if false e = ok tt

-- xs.at(i)
abbrev pub at {ℓ} : {A : Type ℓ} → List A → ℕ → Result A
at [] i = panic out_of_range
at (x ∷ xs) zero = ok x
at (x ∷ xs) (suc i) = at xs i

pub at-eq-get_or {ℓ} :
    {A : Type ℓ} (xs : List A) (i : ℕ) (d : A) → i < length xs → at xs i ≡ ok (get_or xs i d)
at-eq-get_or [] i d h = absurd (omega arith)
at-eq-get_or (x ∷ xs) zero d h = refl
at-eq-get_or (x ∷ xs) (suc i) d h = at-eq-get_or xs i d (omega arith)
