-- ===== src/Prelude/Table.antt =====
-- A table with a primary key: the rows as an association list. A lookup reads the first row with
-- the key; `IsKeyed` says that there is no second one.
use mathlib.Core.Path.{◌≡◌, refl}
use mathlib.Core.Bool.{Bool}
use mathlib.Core.List.{List, [], ◌∷◌}
use mathlib.Core.Option.{Option, none, some}
use native.Mathlib.Omega.{arith}
use fobe.Prelude.Tests.{HasEq, ◌==◌, if◌then◌else◌}

module _ {κ} {V : Type κ} where
  -- What an upsert leaves behind in the place of a row.
  abbrev pub merge : V → (V → V) → Option V → V
  merge new old none = new
  merge new old (some v) = old v

  -- What a delete by a condition leaves behind of a row.
  abbrev pub survive : (V → Bool) → Option V → Option V
  survive p none = none
  survive p (some v) = if p v then none else some v

  -- What an update by a condition makes of a row.
  abbrev pub change : (V → Bool) → (V → V) → Option V → Option V
  change p f none = none
  change p f (some v) = some (if p v then f v else v)

module _ {ℓ κ} {K : Type ℓ} {V : Type κ} where
  -- DELETE by a condition on the key and the row.
  unfoldable pub delete : (K → V → Bool) → List (K × V) → List (K × V)
  delete p [] = []
  delete p ((j, v) ∷ m) = let rest = delete p m in if p j v then rest else (j, v) ∷ rest

  -- UPDATE by a condition on the key and the row.
  unfoldable pub update : (K → V → Bool) → (V → V) → List (K × V) → List (K × V)
  update p f [] = []
  update p f ((j, v) ∷ m) = (j, (if p j v then f v else v)) ∷ update p f m

module _ {ℓ κ} {K : Type ℓ} {V : Type κ} ⦃e : HasEq K⦄ where
  unfoldable pub lookup : K → List (K × V) → Option V
  lookup k [] = none
  lookup k ((j, v) ∷ m) = if j == k then some v else lookup k m

  -- An upsert whose conflict clause computes the new row from the old one.
  unfoldable pub upsert : K → V → (V → V) → List (K × V) → List (K × V)
  upsert k new old [] = (k, new) ∷ []
  upsert k new old ((j, v) ∷ m) = if j == k then (k, old v) ∷ m else (j, v) ∷ upsert k new old m

  -- An upsert that writes every column.
  abbrev pub put : K → V → List (K × V) → List (K × V)
  put k v = upsert k v (λ _. v)

  -- No key stands twice.
  abbrev pub IsKeyed : List (K × V) → Type κ
  IsKeyed [] = Unit
  IsKeyed ((j, v) ∷ m) = (lookup j m ≡ none) × IsKeyed m

  pub lookup-upsert :
      (k j : K) (new : V) (old : V → V) (m : List (K × V))
      → lookup j (upsert k new old m)
        ≡ (if k == j then some (merge new old (lookup k m)) else lookup j m)
  unfolding lookup upsert
  lookup-upsert k j new old [] = refl
  lookup-upsert k j new old ((i, v) ∷ m) = ground (
    arith,
    e.same_iff k j,
    e.same_iff i k,
    e.same_iff i j,
    e.same_iff k k,
    lookup-upsert k j new old m,
  )

  pub lookup-delete-none :
      (p : K → V → Bool) (k : K) (m : List (K × V))
      → lookup k m ≡ none
      → lookup k (delete p m) ≡ none
  unfolding lookup delete
  lookup-delete-none p k [] h = refl
  lookup-delete-none p k ((j, v) ∷ m) h = ground (arith, lookup-delete-none p k m)

  pub lookup-delete :
      (p : K → V → Bool) (k : K) (m : List (K × V))
      → IsKeyed m
      → lookup k (delete p m) ≡ survive (p k) (lookup k m)
  unfolding lookup delete
  lookup-delete p k [] d = refl
  lookup-delete p k ((j, v) ∷ m) d =
      ground (arith, e.same_iff j k, lookup-delete p k m d.1, lookup-delete-none p k m)

  pub lookup-update :
      (p : K → V → Bool) (f : V → V) (k : K) (m : List (K × V))
      → lookup k (update p f m) ≡ change (p k) f (lookup k m)
  unfolding lookup update
  lookup-update p f k [] = refl
  lookup-update p f k ((j, v) ∷ m) = ground (arith, e.same_iff j k, lookup-update p f k m)

  pub upsert-IsKeyed :
      (k : K) (new : V) (old : V → V) (m : List (K × V)) → IsKeyed m → IsKeyed (upsert k new old m)
  unfolding lookup upsert
  upsert-IsKeyed k new old [] d = (refl, tt)
  upsert-IsKeyed k new old ((j, v) ∷ m) d = ground (
    arith,
    e.same_iff j k,
    e.same_iff k j,
    lookup-upsert k j new old m,
    upsert-IsKeyed k new old m d.1,
  )

  pub delete-IsKeyed : (p : K → V → Bool) (m : List (K × V)) → IsKeyed m → IsKeyed (delete p m)
  unfolding delete
  delete-IsKeyed p [] d = tt
  delete-IsKeyed p ((j, v) ∷ m) d =
      ground (arith, delete-IsKeyed p m d.1, lookup-delete-none p j m d.0)

  pub update-IsKeyed :
      (p : K → V → Bool) (f : V → V) (m : List (K × V)) → IsKeyed m → IsKeyed (update p f m)
  unfolding update
  update-IsKeyed p f [] d = tt
  update-IsKeyed p f ((j, v) ∷ m) d =
      ground (arith, update-IsKeyed p f m d.1, lookup-update p f j m)
