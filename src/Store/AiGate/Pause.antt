-- ===== src/Store/AiGate/Pause.antt =====
-- How long a pause of the gate (internal/server/store/ai.go) can last.
use fobe.Prelude.{
  ℕ, ◌+◌, ◌≤◌, ◌<◌, String, List, [], ◌∷◌, Bool, ◌≡◌, refl, ap, inl, inr, arith, keep, All,
  Bool-cases, beq→eq, ltb, take, ◌==◌, String-HasEq, if◌then◌else◌,
}
use fobe.Prelude.Table.{lookup, put, lookup-upsert}
use fobe.Store.Commands.{Db}
use fobe.Store.AiGate.{
  allowed, NodeState, States, Check, ended, by_ai, ai_results, newest_first, leading_failures,
  consecutive, paused_until, next_pause, count_recent, check_ai_command_gate, run, node_state,
}

-- No command of the assistant on the node is made or ends after `last`.
abbrev pub IsQuiet : String → ℕ → Db → Type 0
IsQuiet node last db =
    All (λ r. (r.1.created_at ≤ last) × (ended r.1 ≤ last)) (keep (λ r. by_ai node r.1) db)

module _ (id_lt : String → String → Bool) (node : String) (last : ℕ) where
  ai_results-nil :
      (at : ℕ) (db : Db) → IsQuiet node last db → last + 600 < at → ai_results node at db ≡ []
  unfolding ai_results
  ai_results-nil at [] q h = refl
  ai_results-nil at ((id, c) ∷ db) q h = elim (Bool-cases (by_ai node c)) [
    | inl y ↦
        let rows : All (λ r. (r.1.created_at ≤ last) × (ended r.1 ≤ last))
            ((id, c) ∷ keep (λ r. by_ai node r.1) db) =
          rw y at q in
        ground (arith, ai_results-nil at db rows.1 h, rows.0.1)
    | inr y ↦
        let rows : IsQuiet node last db = rw y at q in ground (arith, ai_results-nil at db rows h)
  ]

  -- No failure in the window, none counted.
  consecutive-zero :
      (at : ℕ) (db : Db) → IsQuiet node last db → last + 600 < at → consecutive id_lt node at db ≡ 0
  unfolding consecutive newest_first leading_failures
  consecutive-zero at db q h =
      ap (λ rows. leading_failures (take 3 (newest_first id_lt rows))) (ai_results-nil at db q h)

  count_recent-zero :
      (at : ℕ) (db : Db) → IsQuiet node last db → last + 60 < at → count_recent node at db ≡ 0
  count_recent-zero at [] q h = refl
  count_recent-zero at ((id, c) ∷ db) q h = elim (Bool-cases (by_ai node c)) [
    | inl y ↦
        let rows : All (λ r. (r.1.created_at ≤ last) × (ended r.1 ≤ last))
            ((id, c) ∷ keep (λ r. by_ai node r.1) db) =
          rw y at q in
        ground (arith, count_recent-zero at db rows.1 h, rows.0.0)
    | inr y ↦
        let rows : IsQuiet node last db = rw y at q in
        ground (arith, count_recent-zero at db rows h)
  ]

  next_pause-le :
      (at : ℕ) (db : Db) (until : ℕ)
      → IsQuiet node last db
      → until ≤ last + 900
      → next_pause at (consecutive id_lt node at db) until ≤ last + 900
  unfolding next_pause
  next_pause-le at db until q h = elim (Bool-cases (ltb (last + 600) at)) [
    | inl late ↦ ground (arith, consecutive-zero at db q (ground arith))
    | inr soon ↦ ground arith
  ]

  paused_until-put :
      (k : String) (s : NodeState) (states : States)
      → paused_until node (put k s states)
        ≡ (if k == node then s.paused_until else paused_until node states)
  unfolding paused_until
  paused_until-put k s states = ground (arith, lookup-upsert k node s (λ _. s) states)

  paused_until-check :
      (k : String) (limit at : ℕ) (db : Db) (states : States)
      → IsQuiet node last db
      → paused_until node states ≤ last + 900
      → paused_until node (check_ai_command_gate id_lt k limit at db states).1 ≤ last + 900
  unfolding check_ai_command_gate
  paused_until-check k limit at db states q h = elim (Bool-cases (ltb at (paused_until k states))) [
    | inl y ↦ ground arith
    | inr y ↦
        let failures = consecutive id_lt k at db in
        let until = next_pause at failures (paused_until k states) in
        elim (Bool-cases (k == node)) [
          | inl same ↦
              let e : k ≡ node = beq→eq k node same in
              let bound : until ≤ last + 900 = omega (
                arith,
                ap (λ n. next_pause at (consecutive id_lt n at db) (paused_until n states)) e,
                next_pause-le at db (paused_until node states) q h,
              ) in
              ground (arith, paused_until-put k (node_state failures until at) states)
          | inr other ↦ ground (arith, paused_until-put k (node_state failures until at) states)
        ]
  ]

  paused_until-run :
      (cs : List Check) (states : States)
      → All (λ c. IsQuiet node last c.commands) cs
      → paused_until node states ≤ last + 900
      → paused_until node (run id_lt cs states) ≤ last + 900
  unfolding run
  paused_until-run [] states q h = h
  paused_until-run (c ∷ cs) states q h =
      paused_until-run cs (check_ai_command_gate id_lt c.node c.limit c.at c.commands states).1 q.1
        (paused_until-check c.node c.limit c.at c.commands states q.0 h)

  paused_until-nil : paused_until node [] ≡ 0
  unfolding paused_until lookup
  paused_until-nil = refl

  -- If no command of the assistant on a node is made or ends after a time `last`, then from 900
  -- seconds after it on the gate of the node is open: after any history of checks from the empty
  -- table, of this node and others, with the commands as they were then, and whatever the limit.
  pub check_ai_command_gate-run :
      (cs : List Check) (limit at : ℕ) (db : Db)
      → All (λ c. IsQuiet node last c.commands) cs
      → IsQuiet node last db
      → last + 900 ≤ at
      → (check_ai_command_gate id_lt node limit at db (run id_lt cs [])).0 ≡ allowed
  unfolding check_ai_command_gate next_pause
  check_ai_command_gate-run cs limit at db qs q h =
      let bound = paused_until-run cs [] qs (omega (arith, paused_until-nil)) in
      ground (
        arith,
        bound,
        consecutive-zero at db q (ground arith),
        count_recent-zero at db q (ground arith),
      )
