-- ===== src/Scheduler/Liveness/Sweep.antt =====
-- Which rows a sweep shows as offline (`detectOffline` of internal/server/scheduler/scheduler.go).
use text.Mathlib.TextEquality.{eq_iff}
use fobe.Prelude.{
  ℕ, String, List, [], ◌∷◌, Bool, ◌&&◌, ◌||◌, Option, ◌+◌, ltb, leb, none, some, if◌then◌else◌,
  ◌==◌, String-HasEq, ◌≡◌, refl, sym, ap, ◌∙◌, arith, beq→eq, Bool-cases, inl, inr,
}
use fobe.Prelude.Table.{lookup, change, lookup-update, IsKeyed}
use fobe.Scheduler.Liveness.{
  Node, State, mark_node_offline, is_silent, judge, judge_all, detect_offline,
}

-- The last sign of life, or the creation if there was none.
abbrev pub sign_of : Option ℕ → ℕ → ℕ
sign_of none created_at = created_at
sign_of (some t) created_at = t

-- An online node whose last sign of life, its creation if there was none, lies more than 90
-- seconds back and, in the 300 seconds after a start, not before the start.
abbrev pub has_gone : ℕ → ℕ → Node → Bool
has_gone started_at now n =
    let sign = sign_of n.last_seen n.created_at in
    (n.status == "online")
    && (ltb (sign + 90) now
        && (leb started_at 0 || (leb (started_at + 300) now || leb started_at sign)))

module _ (silent_text : ℕ → String) (online_text : String → ℕ → String) where
  lookup-judge :
      (started_at now : ℕ) (id : String) (n : Node) (i : String) (s : State)
      → lookup i (judge silent_text online_text started_at now id n s).nodes ≡ (
          if id == i
          then change
              (λ _. is_silent started_at now n)
              (λ m. record m { status = "offline" })
              (lookup i s.nodes)
          else lookup i s.nodes)
  unfolding judge mark_node_offline
  lookup-judge started_at now id n i s = elim (Bool-cases (is_silent started_at now n)) [
    | inl y ↦
        rw
          (
            y,
            judge,
            lookup-update (λ k _. k == id) (λ m. record m { status = "offline" }) i s.nodes,
          )
          (ground (arith, eq_iff id i, eq_iff i id))
    | inr y ↦ rw (y, judge) (ground arith)
  ]

  lookup-judge_all :
      (started_at now : ℕ) (rows : List (String × Node)) (i : String) (s : State)
      → IsKeyed rows
      → lookup i (judge_all silent_text online_text started_at now rows s).nodes
        ≡ elim (lookup i rows) [
          | none ↦ lookup i s.nodes
          | some n ↦
              change
                (λ _. is_silent started_at now n)
                (λ m. record m { status = "offline" })
                (lookup i s.nodes)
        ]
  unfolding judge_all lookup
  lookup-judge_all started_at now [] i s d = refl
  lookup-judge_all started_at now ((id, n) ∷ rows) i s d = elim (Bool-cases (id == i)) [
    | inl y ↦
        let absent : lookup i rows ≡ none = sym (ap (λ k. lookup k rows) (beq→eq id i y)) ∙ d.0 in
        let rest =
          lookup-judge_all started_at now rows i
            (judge silent_text online_text started_at now id n s) d.1 in
        ground (arith, y, absent, rest, lookup-judge started_at now id n i s)
    | inr y ↦
        let rest =
          lookup-judge_all started_at now rows i
            (judge silent_text online_text started_at now id n s) d.1 in
        ground (arith, y, rest, lookup-judge started_at now id n i s)
  ]

  is_silent-lem :
      (started_at now : ℕ) (n : Node) → is_silent started_at now n ≡ has_gone started_at now n
  unfolding is_silent
  is_silent-lem started_at now n = ground (arith, same n.last_seen)
    where
      same :
          (o : Option ℕ)
          → elim o as (λ _. ℕ) [ none ↦ n.created_at | some t ↦ t ] ≡ sign_of o n.created_at
      same none = refl
      same (some t) = refl

  -- A sweep that nothing else falls into, in a table whose keys stand once, shows as offline
  -- exactly those of the online nodes that have given no sign for over 90 seconds, and, in the
  -- five minutes after the start, have given one since the start; every other row it leaves as
  -- it was.
  pub lookup-detect_offline :
      (started_at now : ℕ) (i : String) (s : State)
      → IsKeyed s.nodes
      → lookup i (detect_offline silent_text online_text started_at now s).nodes
        ≡ change (has_gone started_at now) (λ m. record m { status = "offline" }) (lookup i s.nodes)
  unfolding detect_offline
  lookup-detect_offline started_at now i s d =
      lookup-judge_all started_at now s.nodes i s d ∙ go (lookup i s.nodes)
    where
      go :
          (o : Option Node)
          → elim o as (λ x. Option Node) [
            | none ↦ o
            | some n ↦
                change (λ _. is_silent started_at now n) (λ m. record m { status = "offline" }) o
          ]
            ≡ change (has_gone started_at now) (λ m. record m { status = "offline" }) o
      go none = refl
      go (some n) = rw (is_silent-lem started_at now n) refl
