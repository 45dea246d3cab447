-- ===== src/Prelude/Tests.antt =====
-- Boolean tests on the native numbers, equality tests as an interface, and the conditional.
use Prim.Native.Nat.{ℕ, ◌≤◌, ◌<◌, compare, Ordering}
use Prim.Native.String.{String}
use mathlib.Core.Path.{◌≡◌, refl, ap₂}
use mathlib.Core.Logic.{◌↔◌, ◌⊎◌, inl, inr}
use mathlib.Core.Bool.{Bool, true, false, ◌&&◌}
use mathlib.Core.Option.{Option, none, some}
use native.Mathlib.Omega.{arith}
use text.Mathlib.Text.{◌==◌ as str_eq}
use text.Mathlib.TextEquality.{eq_iff}

-- These compute to `compare`, which `ground` and `grind` read with no lemma listed.
abbrev pub ltb : ℕ → ℕ → Bool
ltb a b = elim (compare a b) [ Ordering.lt ↦ true | _ ↦ false ]

abbrev pub leb : ℕ → ℕ → Bool
leb a b = elim (compare a b) [ Ordering.gt ↦ false | _ ↦ true ]

abbrev pub nat_beq : ℕ → ℕ → Bool
nat_beq a b = elim (compare a b) [ Ordering.eq ↦ true | _ ↦ false ]

infix 1 if◌then◌else◌
abbrev pub if◌then◌else◌ {ℓ} : {A : Type ℓ} → Bool → A → A → A
if true then x else y = x
if false then x else y = y

pub ltb→lt : (a b : ℕ) → ltb a b ≡ true → a < b
ltb→lt a b h = ground arith

pub leb→le : (a b : ℕ) → leb a b ≡ true → a ≤ b
leb→le a b h = ground arith

pub nat_beq_iff : (a b : ℕ) → (nat_beq a b ≡ true) ↔ (a ≡ b)
nat_beq_iff a b = ground arith

-- Go's `==` on a type of keys: texts, numbers, and pairs of those.
pub record HasEq {ℓ} (K : Type ℓ) : Type ℓ where
  pub same : K → K → Bool
  pub same_iff : (x y : K) → (same x y ≡ true) ↔ (x ≡ y)

infix 50 ◌==◌
abbrev pub ◌==◌ {ℓ} : {K : Type ℓ} ⦃keys : HasEq K⦄ → K → K → Bool
◌==◌ ⦃keys⦄ x y = keys.same x y

instance abbrev pub String-HasEq : HasEq String
String-HasEq = record { same = str_eq; same_iff = eq_iff }

instance abbrev pub ℕ-HasEq : HasEq ℕ
ℕ-HasEq = record { same = nat_beq; same_iff = nat_beq_iff }

module _ {ℓ} {A : Type ℓ} ⦃e : HasEq A⦄ where
  pub beq→eq : (a b : A) → (a == b) ≡ true → a ≡ b
  beq→eq a b h = (e.same_iff a b).0 h

  pub eq→beq : (a b : A) → a ≡ b → (a == b) ≡ true
  eq→beq a b h = (e.same_iff a b).1 h

  pub beq_refl : (a : A) → (a == a) ≡ true
  beq_refl a = (e.same_iff a a).1 refl

module _ {ℓ κ} {A : Type ℓ} {B : Type κ} ⦃a : HasEq A⦄ ⦃b : HasEq B⦄ where
  abbrev pub pair_beq : A × B → A × B → Bool
  pair_beq x y = (x.0 == y.0) && (x.1 == y.1)

  pub pair_beq_iff : (x y : A × B) → (pair_beq x y ≡ true) ↔ (x ≡ y)
  pair_beq_iff (x, u) (y, v) = (
    λ h. ap₂ (λ (s : A) (t : B). (s, t)) (beq→eq x y (ground arith)) (beq→eq u v (ground arith)),
    λ h. ground (arith, eq→beq x y (ground arith), eq→beq u v (ground arith)),
  )

instance abbrev pub pair-HasEq {ℓ κ} :
    {A : Type ℓ} {B : Type κ} ⦃a : HasEq A⦄ ⦃b : HasEq B⦄ → HasEq (A × B)
pair-HasEq = record { same = pair_beq; same_iff = pair_beq_iff }

-- To split on a computed value and keep the equation.
pub Bool-cases : (b : Bool) → (b ≡ true) ⊎ (b ≡ false)
Bool-cases true = inl refl
Bool-cases false = inr refl

pub Option-cases {ℓ} : {A : Type ℓ} (o : Option A) → (o ≡ none) ⊎ ((a : A) × (o ≡ some a))
Option-cases none = inl refl
Option-cases (some a) = inr (a, refl)
