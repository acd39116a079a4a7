-- ===== src/Base/Lists.antt =====
-- Lists measured by native numbers, and predicates on their elements.
use Prim.Native.Nat.{ℕ, zero, suc, ◌+◌, ◌-◌, ◌<◌, min}
use mathlib.Core.Path.{◌≡◌, refl, ap}
use mathlib.Core.List.{List, [], ◌∷◌, ◌++◌}
use mathlib.Core.Option.{Option, none, some}
use mathlib.Core.Option
use native.Mathlib.Omega.{arith}
use coseq.Base.Tests.{◌==◌, if◌then◌else◌}

module _ {ℓ} {A : Type ℓ} where
  abbrev pub length : List A → ℕ
  length [] = 0
  length (x ∷ xs) = suc (length xs)

  abbrev pub get_elem? : List A → ℕ → Option A
  get_elem? [] i = none
  get_elem? (x ∷ xs) zero = some x
  get_elem? (x ∷ xs) (suc i) = get_elem? xs i

  abbrev pub take : ℕ → List A → List A
  take zero xs = []
  take (suc n) [] = []
  take (suc n) (x ∷ xs) = x ∷ take n xs

  abbrev pub drop : ℕ → List A → List A
  drop zero xs = xs
  drop (suc n) [] = []
  drop (suc n) (x ∷ xs) = drop n xs

  -- The element at `i` replaced by its image; nothing changes out of range.
  abbrev pub modify_at : ℕ → (A → A) → List A → List A
  modify_at i h [] = []
  modify_at zero h (x ∷ xs) = h x ∷ xs
  modify_at (suc i) h (x ∷ xs) = x ∷ modify_at i h xs

module _ {ℓ} {A : Type ℓ} where
  pub length-append : (xs ys : List A) → length (xs ++ ys) ≡ length xs + length ys
  length-append [] ys = omega arith
  length-append (x ∷ xs) ys = omega (arith, length-append xs ys)

  pub length-take : (n : ℕ) (xs : List A) → length (take n xs) ≡ min n (length xs)
  length-take zero xs = omega arith
  length-take (suc n) [] = omega arith
  length-take (suc n) (x ∷ xs) = omega (arith, length-take n xs)

  pub length-drop : (n : ℕ) (xs : List A) → length (drop n xs) ≡ length xs - n
  length-drop zero xs = omega arith
  length-drop (suc n) [] = omega arith
  length-drop (suc n) (x ∷ xs) = omega (arith, length-drop n xs)

  pub take-length-append : (xs ys : List A) → take (length xs) (xs ++ ys) ≡ xs
  take-length-append [] ys = refl
  take-length-append (x ∷ xs) ys = ap (◌∷◌ x) (take-length-append xs ys)

  pub take-length_self : (xs : List A) → take (length xs) xs ≡ xs
  take-length_self [] = refl
  take-length_self (x ∷ xs) = ap (◌∷◌ x) (take-length_self xs)

  pub take-take_of_le : (n : ℕ) (xs : List A) → take n (take n xs) ≡ take n xs
  take-take_of_le zero xs = refl
  take-take_of_le (suc n) [] = refl
  take-take_of_le (suc n) (x ∷ xs) = ap (◌∷◌ x) (take-take_of_le n xs)

abbrev pub All {ℓ κ} : {A : Type ℓ} → (A → Type κ) → List A → Type κ
All P [] = Unit
All P (x ∷ xs) = P x × All P xs

pub All-trivial {ℓ} : {A : Type ℓ} (xs : List A) → All (λ (_ : A). Unit {0}) xs
All-trivial [] = tt
All-trivial (x ∷ xs) = (tt, All-trivial xs)

module _ {ℓ} {A : Type ℓ} where
  pub get_elem?-modify_at :
      (i j : ℕ) (h : A → A) (xs : List A)
      → get_elem? (modify_at i h xs) j
        ≡ (if i == j then Option.map h (get_elem? xs j) else get_elem? xs j)
  get_elem?-modify_at i j h [] = ground arith
  get_elem?-modify_at zero zero h (x ∷ xs) = ground arith
  get_elem?-modify_at zero (suc j) h (x ∷ xs) = ground arith
  get_elem?-modify_at (suc i) zero h (x ∷ xs) = ground arith
  get_elem?-modify_at (suc i) (suc j) h (x ∷ xs) = ground (arith, get_elem?-modify_at i j h xs)

  pub length-modify_at : (i : ℕ) (h : A → A) (xs : List A) → length (modify_at i h xs) ≡ length xs
  length-modify_at i h [] = refl
  length-modify_at zero h (x ∷ xs) = refl
  length-modify_at (suc i) h (x ∷ xs) = ap suc (length-modify_at i h xs)

  pub get_elem?-lt : (xs : List A) (i : ℕ) → i < length xs → (x : A) × (get_elem? xs i ≡ some x)
  get_elem?-lt [] i h = elim h [ ]
  get_elem?-lt (x ∷ xs) zero h = (x, refl)
  get_elem?-lt (x ∷ xs) (suc i) h = get_elem?-lt xs i (omega arith)

  pub get_elem?-bound : (xs : List A) (i : ℕ) (x : A) → get_elem? xs i ≡ some x → i < length xs
  get_elem?-bound [] i x h = cc
  get_elem?-bound (y ∷ xs) zero x h = omega arith
  get_elem?-bound (y ∷ xs) (suc i) x h = omega (arith, get_elem?-bound xs i x h)
