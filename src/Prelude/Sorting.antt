-- ===== src/Prelude/Sorting.antt =====
-- `slice::sort_by`, which is stable, as an insertion sort, and the lexicographic order of tuples.
use Prim.Native.Nat.{suc}
use Prim.Native.String.{String}
use mathlib.Core.Path.{◌≡◌, refl}
use mathlib.Core.Logic.{inl, inr}
use mathlib.Core.Bool.{Bool, true, false, ◌&&◌, ◌||◌}
use mathlib.Core.List.{List, [], ◌∷◌}
use native.Mathlib.Omega.{arith}
use text.Mathlib.TextEquality.{eq_iff}
use wezterm_attention.Prelude.Tests.{if◌then◌else◌, Bool-cases}
use wezterm_attention.Prelude.Lists.{length, any, All, All-implied}
use wezterm_attention.Prelude.Texts.{
  str_eq, str_ltb, str_ltb_irrefl, str_ltb_trans, str_ltb_tri, str_ltb_asym, str_ltb_of_not,
}

-- `(a, b) < (c, d)` on two texts.
abbrev pub pair_ltb : String → String → String → String → Bool
pair_ltb a b c d = str_ltb a c || (str_eq a c && str_ltb b d)

pub pair_ltb_irrefl : (a b : String) → pair_ltb a b a b ≡ false
pair_ltb_irrefl a b = ground (arith, str_ltb_irrefl a, str_ltb_irrefl b)

pub pair_ltb_trans :
    (a b c d e f : String)
    → pair_ltb a b c d ≡ true
    → pair_ltb c d e f ≡ true
    → pair_ltb a b e f ≡ true
pair_ltb_trans a b c d e f h k =
    ground (arith, str_ltb_trans a c e, str_ltb_trans b d f, eq_iff a c, eq_iff c e, eq_iff a e)

module _ {ℓ} {A : Type ℓ} (lt : A → A → Bool) where
  -- After the elements that are smaller, before those that are equal or greater.
  abbrev pub insert_sorted : A → List A → List A
  insert_sorted x [] = x ∷ []
  insert_sorted x (y ∷ ys) =
      let rest = insert_sorted x ys in if lt y x then y ∷ rest else x ∷ y ∷ ys

  abbrev pub sort_by : List A → List A
  sort_by [] = []
  sort_by (x ∷ xs) = insert_sorted x (sort_by xs)

  -- No element is smaller than one before it.
  abbrev pub Ascending : List A → Type 0
  Ascending [] = Unit
  Ascending (x ∷ xs) = All (λ y. lt y x ≡ false) xs × Ascending xs

  length-insert_sorted : (x : A) (ys : List A) → length (insert_sorted x ys) ≡ suc (length ys)
  length-insert_sorted x [] = refl
  length-insert_sorted x (y ∷ ys) = ground (arith, length-insert_sorted x ys)

  pub length-sort_by : (xs : List A) → length (sort_by xs) ≡ length xs
  length-sort_by [] = refl
  length-sort_by (x ∷ xs) = omega (arith, length-insert_sorted x (sort_by xs), length-sort_by xs)

  any-insert_sorted :
      (p : A → Bool) (x : A) (ys : List A) → any p (insert_sorted x ys) ≡ (p x || any p ys)
  any-insert_sorted p x [] = refl
  any-insert_sorted p x (y ∷ ys) = ground (arith, any-insert_sorted p x ys)

  pub any-sort_by : (p : A → Bool) (xs : List A) → any p (sort_by xs) ≡ any p xs
  any-sort_by p [] = refl
  any-sort_by p (x ∷ xs) = ground (arith, any-insert_sorted p x (sort_by xs), any-sort_by p xs)

module _ {ℓ κ} {A : Type ℓ} (P : A → Type κ) (lt : A → A → Bool) where
  All-insert_sorted : (x : A) (ys : List A) → P x → All P ys → All P (insert_sorted lt x ys)
  All-insert_sorted x [] p h = (p, tt)
  All-insert_sorted x (y ∷ ys) p (q, h) = ground (arith, All-insert_sorted x ys p h)

  pub All-sort_by : (xs : List A) → All P xs → All P (sort_by lt xs)
  All-sort_by [] h = tt
  All-sort_by (x ∷ xs) (p, h) = All-insert_sorted x (sort_by lt xs) p (All-sort_by xs h)

module _ {ℓ} {A : Type ℓ} (lt : A → A → Bool) (asym : (x y : A) → lt x y ≡ true → lt y x ≡ false)
    (later : (x y z : A) → lt y x ≡ false → lt z y ≡ false → lt z x ≡ false) where
  Ascending-insert_sorted :
      (x : A) (ys : List A) → Ascending lt ys → Ascending lt (insert_sorted lt x ys)
  Ascending-insert_sorted x [] h = (tt, tt)
  Ascending-insert_sorted x (y ∷ ys) (first, h) = elim (Bool-cases (lt y x)) [
    | inl smaller ↦ rw smaller (
      All-insert_sorted (λ z. lt z y ≡ false) lt x ys (asym y x smaller) first,
      Ascending-insert_sorted x ys h,
    )
    | inr not_smaller ↦ rw not_smaller (
      (
        not_smaller,
        All-implied (λ z. lt z y ≡ false) (λ z. lt z x ≡ false) ys
            (λ z k. later x y z not_smaller k) first,
      ),
      (first, h),
    )
  ]

  pub Ascending-sort_by : (xs : List A) → Ascending lt (sort_by lt xs)
  Ascending-sort_by [] = tt
  Ascending-sort_by (x ∷ xs) = Ascending-insert_sorted x (sort_by lt xs) (Ascending-sort_by xs)

-- The order of pairs is strict, and what is not before passes on.
pub pair_ltb_asym : (a b c d : String) → pair_ltb a b c d ≡ true → pair_ltb c d a b ≡ false
pair_ltb_asym a b c d h = ground (arith, pair_ltb_trans a b c d a b h, pair_ltb_irrefl a b)

pub str_ltb_later :
    (s t u : String) → str_ltb t s ≡ false → str_ltb u t ≡ false → str_ltb u s ≡ false
str_ltb_later s t u h k = ground (
  arith,
  str_ltb_of_not t s h,
  str_ltb_of_not u t k,
  str_ltb_trans s t u,
  str_ltb_asym s u,
  eq_iff t s,
  eq_iff u t,
)

pub str_ltb_later_eq :
    (s t : String) → str_ltb s t ≡ false → str_ltb t s ≡ false → str_eq s t ≡ true
str_ltb_later_eq s t h k = ground (arith, str_ltb_tri s t h k, eq_iff s t)
