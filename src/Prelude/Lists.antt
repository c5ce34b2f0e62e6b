-- ===== src/Prelude/Lists.antt =====
-- Lists over the native numbers, with the predicates by recursion that the proofs use.
use Prim.Native.Nat.{ℕ, suc, ◌+◌, ◌≤◌}
use mathlib.Core.Path.{◌≡◌, refl}
use mathlib.Core.Bool.{Bool, true, false, ◌&&◌, ◌||◌}
use mathlib.Core.List.{List, [], ◌∷◌, ◌++◌}
use native.Mathlib.Omega.{arith}
use wezterm_attention.Prelude.Tests.{if◌then◌else◌}

module _ {ℓ} {A : Type ℓ} where
  abbrev pub length : List A → ℕ
  length [] = 0
  length (x ∷ xs) = suc (length xs)

  -- `Iterator::any` and `Iterator::all`.
  abbrev pub any : (A → Bool) → List A → Bool
  any p [] = false
  any p (x ∷ xs) = p x || any p xs

  abbrev pub all : (A → Bool) → List A → Bool
  all p [] = true
  all p (x ∷ xs) = p x && all p xs

  -- `Vec::retain`, and the kept half of `Iterator::partition`.
  abbrev pub retain : (A → Bool) → List A → List A
  retain p [] = []
  retain p (x ∷ xs) = let rest = retain p xs in if p x then x ∷ rest else rest

  pub length-append : (xs ys : List A) → length (xs ++ ys) ≡ length xs + length ys
  length-append [] ys = omega arith
  length-append (x ∷ xs) ys = omega (arith, length-append xs ys)

  pub length-retain-le : (p : A → Bool) (xs : List A) → length (retain p xs) ≤ length xs
  length-retain-le p [] = omega arith
  length-retain-le p (x ∷ xs) = ground (arith, length-retain-le p xs)

  -- A retain that keeps the length keeps the list.
  pub retain_of_length :
      (p : A → Bool) (xs : List A) → length (retain p xs) ≡ length xs → retain p xs ≡ xs
  retain_of_length p [] e = refl
  retain_of_length p (x ∷ xs) e = ground (arith, retain_of_length p xs, length-retain-le p xs)

  pub retain-retain : (p : A → Bool) (xs : List A) → retain p (retain p xs) ≡ retain p xs
  retain-retain p [] = refl
  retain-retain p (x ∷ xs) = ground (arith, retain-retain p xs)

module _ {ℓ κ} {A : Type ℓ} (P : A → Type κ) where
  abbrev pub All : List A → Type κ
  All [] = Unit
  All (x ∷ xs) = P x × All xs

  pub All-append : (xs ys : List A) → All xs → All ys → All (xs ++ ys)
  All-append [] ys h k = k
  All-append (x ∷ xs) ys (p, h) k = (p, All-append xs ys h k)

  pub All-retain : (p : A → Bool) (xs : List A) → All xs → All (retain p xs)
  All-retain p [] h = tt
  All-retain p (x ∷ xs) (a, h) = ground (arith, All-retain p xs h)

-- A predicate that follows from another holds of all elements.
pub All-implied {ℓ κ μ} :
    {A : Type ℓ} (P : A → Type κ) (Q : A → Type μ) (xs : List A)
    → ((x : A) → P x → Q x)
    → All P xs
    → All Q xs
All-implied P Q [] f h = tt
All-implied P Q (x ∷ xs) f (p, h) = (f x p, All-implied P Q xs f h)

-- What is kept passes the test.
pub All-retained {ℓ} :
    {A : Type ℓ} (p : A → Bool) (xs : List A) → All (λ x. p x ≡ true) (retain p xs)
All-retained p [] = tt
All-retained p (x ∷ xs) = ground (arith, All-retained p xs)
