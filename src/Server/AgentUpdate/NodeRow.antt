-- ===== src/Server/AgentUpdate/NodeRow.antt =====
-- The row of one node (internal/server/store/nodes.go), through the writes of others.
use fobe.Prelude.{
  ℕ, String, Bool, true, false, not, ◌||◌, some, ◌≡◌, refl, sym, ap, ◌∙◌, arith, if◌then◌else◌,
  ◌==◌, String-HasEq, nat_beq, Bool-cases, beq→eq, inl, inr,
}
use fobe.Prelude.Table.{lookup, update, lookup-update}
use text.Mathlib.TextEquality.{eq_iff}
use fobe.Store.Nodes.{Node, Rows, planned, recorded, set_agent_update_planned, record_agent_update}
use fobe.Server.AgentUpdate.{close_plan}

module _ (id : String) where
  -- The node has a row, and the property holds of it.
  abbrev pub Holds {ℓ} : (Node → Type ℓ) → Rows → Type ℓ
  Holds P rows = (n : Node) × (lookup id rows ≡ some n) × P n

  -- Is this the row of the node itself?
  pub own_row :
      (k : String) (rows : Rows) (n m : Node)
      → k ≡ id
      → lookup id rows ≡ some n
      → lookup k rows ≡ some m
      → m ≡ n
  own_row k rows n m e h g = let s : some m ≡ some n = sym g ∙ ap (λ j. lookup j rows) e ∙ h in cc

module _ {ℓ} (id : String) (P : Node → Type ℓ) where
  pub update-Holds :
      (k : String) (f : Node → Node) (rows : Rows)
      → (k ≡ id → (n : Node) → P n → P (f n))
      → Holds id P rows
      → Holds id P (update (λ j _. j == k) f rows)
  update-Holds k f rows h (n, e, w) = elim (Bool-cases (k == id)) [
    | inl y ↦ (
      f n,
      ground (arith, lookup-update (λ j _. j == k) f id rows, eq_iff id k, eq_iff k id),
      h (beq→eq k id y) n w,
    )
    | inr y ↦
        (n, ground (arith, lookup-update (λ j _. j == k) f id rows, eq_iff id k, eq_iff k id), w)
  ]

  pub if-Holds :
      (b : Bool) (x y : Rows)
      → (b ≡ true → Holds id P x)
      → (b ≡ false → Holds id P y)
      → Holds id P (if b then x else y)
  if-Holds true x y h k = h refl
  if-Holds false x y h k = k refl

  -- The two writes that close a plan.
  pub close_plan-Holds :
      (now : ℕ) (k t : String) (m : Node) (rows : Rows)
      → (k ≡ id → (n : Node) → P n → P (planned t 0 n))
      → (k ≡ id → (n : Node) → P n → P (recorded t "committed" m.agent_update_attempts "" now n))
      → Holds id P rows
      → Holds id P (close_plan now k t m rows)
  unfolding set_agent_update_planned record_agent_update
  close_plan-Holds now k t m rows h g a =
      let closed = record_agent_update k t "committed" m.agent_update_attempts "" now rows in
      if-Holds
        (not (m.agent_update_state == "committed") || not (nat_beq m.agent_update_planned_at 0))
        (set_agent_update_planned k t 0 closed) rows
        (λ _.
          update-Holds k (planned t 0) closed h
            (update-Holds k (recorded t "committed" m.agent_update_attempts "" now) rows g a))
        (λ _. a)
