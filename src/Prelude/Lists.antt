-- ===== src/Prelude/Lists.antt =====
-- Lists measured by native numbers, and membership by an equality test.
use Prim.Native.Nat.{ℕ, zero, suc, ◌+◌, ◌≤◌}
use mathlib.Core.Path.{◌≡◌, sym, ap, ◌∙◌}
use mathlib.Core.Logic.{inl, inr}
use mathlib.Core.Bool.{Bool, true, false, ◌||◌}
use mathlib.Core.List.{Memᴰ, List, [], ◌∷◌, ◌++◌}
use mathlib.Core.Option.{Option, none, some}
use native.Mathlib.Omega.{arith}
use fobe.Prelude.Tests.{HasEq, ◌==◌, if◌then◌else◌, Bool-cases}

module _ {ℓ} {A : Type ℓ} where
  abbrev pub length : List A → ℕ
  length [] = 0
  length (x ∷ xs) = suc (length xs)

  abbrev pub take : ℕ → List A → List A
  take zero xs = []
  take (suc n) [] = []
  take (suc n) (x ∷ xs) = x ∷ take n xs

  pub length-append : (xs ys : List A) → length (xs ++ ys) ≡ length xs + length ys
  length-append [] ys = omega arith
  length-append (x ∷ xs) ys = omega (arith, length-append xs ys)

  pub length-take-le : (n : ℕ) (xs : List A) → length (take n xs) ≤ n
  length-take-le (suc n) (x ∷ xs) = omega (arith, length-take-le n xs)
  length-take-le _ _ = omega arith

  -- The elements that pass a Boolean test, in order.
  abbrev pub keep : (A → Bool) → List A → List A
  keep p [] = []
  keep p (x ∷ xs) = if p x then x ∷ keep p xs else keep p xs

  pub length-keep-le : (p : A → Bool) (xs : List A) → length (keep p xs) ≤ length xs
  length-keep-le p [] = omega arith
  length-keep-le p (x ∷ xs) = ground (arith, length-keep-le p xs)

  abbrev pub any_of : (A → Bool) → List A → Bool
  any_of p [] = false
  any_of p (x ∷ xs) = p x || any_of p xs

  -- The first element that passes.
  abbrev pub first_of? : (A → Bool) → List A → Option A
  first_of? p [] = none
  first_of? p (x ∷ xs) = if p x then some x else first_of? p xs

  abbrev pub All {κ} : (A → Type κ) → List A → Type κ
  All P [] = Unit
  All P (x ∷ xs) = P x × All P xs

abbrev pub contains {ℓ} : {A : Type ℓ} ⦃e : HasEq A⦄ → A → List A → Bool
contains a [] = false
contains a (x ∷ xs) = (x == a) || contains a xs

module _ {ℓ} {A : Type ℓ} where
  pub first_of?-Memᴰ :
      (p : A → Bool) (xs : List A) (a : A) → first_of? p xs ≡ some a → Memᴰ a xs × (p a ≡ true)
  first_of?-Memᴰ p [] a h = ground arith
  first_of?-Memᴰ p (x ∷ xs) a h = elim (Bool-cases (p x)) [
    | inl y ↦ let k : some x ≡ some a = rw y at h in let e : a ≡ x = cc in (Memᴰ.head e, ap p e ∙ y)
    | inr y ↦ let (found, holds) = first_of?-Memᴰ p xs a (rw y at h) in (Memᴰ.tail found, holds)
  ]

  kept :
      (p : A → Bool) (x : A) (xs : List A) (a : A)
      → p x ≡ true
      → (Memᴰ a (keep p xs) → Memᴰ a xs × (p a ≡ true))
      → Memᴰ a (x ∷ keep p xs)
      → Memᴰ a (x ∷ xs) × (p a ≡ true)
  kept p x xs a y rest (Memᴰ.head e) = (Memᴰ.head e, ap p e ∙ y)
  kept p x xs a y rest (Memᴰ.tail m) = (Memᴰ.tail (rest m).0, (rest m).1)

  pub keep-Memᴰ :
      (p : A → Bool) (xs : List A) (a : A) → Memᴰ a (keep p xs) → Memᴰ a xs × (p a ≡ true)
  keep-Memᴰ p [] a h = elim h [ ]
  keep-Memᴰ p (x ∷ xs) a h = elim (Bool-cases (p x)) [
    | inl y ↦ kept p x xs a y (keep-Memᴰ p xs a) (rw y at h)
    | inr y ↦ let (found, holds) = keep-Memᴰ p xs a (rw y at h) in (Memᴰ.tail found, holds)
  ]

  pub any_of-Memᴰ :
      (p : A → Bool) (xs : List A) (a : A) → Memᴰ a xs → p a ≡ true → any_of p xs ≡ true
  any_of-Memᴰ p [] a m h = elim m [ ]
  any_of-Memᴰ p (x ∷ xs) a (Memᴰ.head e) h =
      let k : p x ≡ true = sym (ap p e) ∙ h in ground (arith, k)
  any_of-Memᴰ p (x ∷ xs) a (Memᴰ.tail m) h = ground (arith, any_of-Memᴰ p xs a m h)
