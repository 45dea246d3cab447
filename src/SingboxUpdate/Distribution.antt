-- ===== src/SingboxUpdate/Distribution.antt =====
-- What one distribution does to the table of desired versions, and what it reports of each node
-- (internal/server/singboxupdate/singboxupdate.go, runJob and pushOne).
pub mod Report
pub mod ByRow
pub mod Whole
use fobe.Prelude.{
  ℕ, ◌+◌, String, List, [], ◌∷◌, ◌++◌, Bool, true, false, not, ◌&&◌, Option, none, some, ltb,
  contains, map, first_of?, if◌then◌else◌, ◌==◌, String-HasEq, HasEq, beq→eq, eq→beq, beq_refl, ◌≡◌,
  refl, sym, ap, ◌∙◌, arith, Bool-cases, Option-cases, inl, inr, ◌⊎◌,
}
use fobe.Prelude.Table.{lookup, put, upsert, lookup-upsert}
use fobe.Store.Singbox.{
  Node, NodeSingbox, Rows, SingboxTarget, get_node_singbox, upsert_node_singbox,
  list_singbox_targets,
}
use fobe.SingboxUpdate.Job.{
  Job, NodeResult, Outcome, already_current, pushed, offline_pending, not_updated,
  state_downloading, state_pushing, state_done, count_results, is_terminal,
}
use fobe.SingboxUpdate.Manager.{
  Texts, Panel, Manager, save_job, alter_job, set_state, record_result, finish_job,
  default_converge_after,
}
use fobe.SingboxUpdate.Runner.{
  Download, HubAnswer, moved, is_current, is_cached, push_one, arm_own, ensure_cached, run_spawned,
  run_fetching, run_push, run_pushes, run_done, run_job, push_targets, fetch_target,
}

-- What a distribution means for the row of a node: the version moves, unless it is there already.
abbrev pub distributed :
    Texts → ℕ → String → Option SingboxTarget → Option NodeSingbox → Option NodeSingbox
distributed texts now target none row = row
distributed texts now target (some t) none = none
distributed texts now target (some t) (some sb) =
    if is_current texts target t
    then some sb
    else some (record (moved texts target t sb) { updated_at = now })

-- What it reports of a node.
abbrev pub outcome_of : Texts → String → HubAnswer → SingboxTarget → Option NodeSingbox → Outcome
outcome_of texts target answer t row =
    if is_current texts target t then already_current else elim row [
      | none ↦ not_updated
      | some sb ↦
          if not answer.online then offline_pending else if answer.sent then pushed else not_updated
    ]

abbrev pub target_of : String → List SingboxTarget → Option SingboxTarget
target_of node = first_of? (λ t. t.node == node)

-- No node stands twice.
abbrev pub Distinct : List SingboxTarget → Type 0
Distinct [] = Unit
Distinct (t ∷ ts) = (target_of t.node ts ≡ none) × Distinct ts

lookup-upsert_node_singbox :
    (now : ℕ) (node other : String) (sb : NodeSingbox) (rows : Rows)
    → lookup other (upsert_node_singbox now node sb rows)
      ≡ (if node == other then some (record sb { updated_at = now }) else lookup other rows)
unfolding upsert_node_singbox
lookup-upsert_node_singbox now node other sb rows =
    lookup-upsert node other (record sb { updated_at = now }) (λ _. record sb { updated_at = now })
      rows
    ∙ elim (Option-cases (lookup node rows)) [ inl y ↦ rw y refl | inr (old, y) ↦ rw y refl ]

module _ (texts : Texts) (now : ℕ) (answers : String → HubAnswer) (target : String) where
  rows-push_one :
      (t : SingboxTarget) (rows : Rows)
      → (push_one texts now (answers t.node) target t rows).1 ≡ (
          if is_current texts target t then rows else elim (lookup t.node rows) [
            | none ↦ rows
            | some sb ↦ upsert_node_singbox now t.node (moved texts target t sb) rows
          ])
  unfolding push_one get_node_singbox
  rows-push_one t rows = ground arith

  pub lookup-push_one :
      (t : SingboxTarget) (rows : Rows) (node : String)
      → lookup node (push_one texts now (answers t.node) target t rows).1
        ≡ distributed texts now target (if t.node == node then some t else none) (lookup node rows)
  lookup-push_one t rows node =
      let moves = λ (sb : NodeSingbox).
        lookup-upsert_node_singbox now t.node node (moved texts target t sb) rows in
      rw (rows-push_one t rows) (elim (Bool-cases (t.node == node)) [
        | inl y ↦
            let same : t.node ≡ node = beq→eq t.node node y in
            rw y (
              rw same (elim (Option-cases (lookup node rows)) [
                | inl z ↦ rw z (ground (arith, z))
                | inr (sb, z) ↦ rw z (let k = rw y at (moves sb) in ground (arith, z, k))
              ]))
        | inr y ↦ rw y (elim (Option-cases (lookup t.node rows)) [
          | inl z ↦ rw z (ground arith)
          | inr (sb, z) ↦ rw z (let k = rw y at (moves sb) in ground (arith, k))
        ])
      ])

  pub outcome-push_one :
      (t : SingboxTarget) (rows : Rows)
      → (push_one texts now (answers t.node) target t rows).0.outcome
        ≡ outcome_of texts target (answers t.node) t (lookup t.node rows)
  unfolding push_one get_node_singbox
  outcome-push_one t rows = ground arith

  pub node-push_one :
      (t : SingboxTarget) (rows : Rows)
      → (push_one texts now (answers t.node) target t rows).0.node ≡ t.node
  unfolding push_one get_node_singbox
  node-push_one t rows = ground arith

  singbox-alter_job :
      (id : String) (f : Job → Job) (p : Panel) → (alter_job id f p).singbox ≡ p.singbox
  unfolding alter_job save_job
  singbox-alter_job id f p = ground arith

  module _ (id : String) where
    pub singbox-run_push :
        (t : SingboxTarget) (p : Panel)
        → (run_push texts now (answers t.node) id target t p).singbox
          ≡ (push_one texts now (answers t.node) target t p.singbox).1
    unfolding run_push record_result
    singbox-run_push t p = singbox-alter_job id _ _

    pub lookup-run_pushes :
        (ts : List SingboxTarget) (p : Panel) (node : String)
        → Distinct ts
        → lookup node (run_pushes texts now answers id target ts p).singbox
          ≡ distributed texts now target (target_of node ts) (lookup node p.singbox)
    unfolding run_pushes
    lookup-run_pushes [] p node d = refl
    lookup-run_pushes (t ∷ ts) p node (new, d) =
        let first = ap (lookup node) (singbox-run_push t p) ∙ lookup-push_one t p.singbox node in
        let rest =
          lookup-run_pushes ts (run_push texts now (answers t.node) id target t p) node d in
        elim (Bool-cases (t.node == node)) [
          | inl y ↦
              let none_left : target_of node ts ≡ none = rw (sym (beq→eq t.node node y)) new in
              rest ∙ rw none_left (rw y (rw y at first))
          | inr y ↦
              rest ∙ rw y (ap (distributed texts now target (target_of node ts)) (rw y at first))
        ]
