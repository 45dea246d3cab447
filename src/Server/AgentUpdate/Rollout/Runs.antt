-- ===== src/Server/AgentUpdate/Rollout/Runs.antt =====
-- The row of a node and the reports of its probe (internal/server/agentupdate/agentupdate.go).
use fobe.Prelude.{
  ℕ, ◌<◌, String, List, [], ◌∷◌, Bool, true, false, none, All, ◌≡◌, refl, ap, ◌∙◌, arith,
  if◌then◌else◌, ◌==◌, String-HasEq, inl, inr, eq→beq,
}
use fobe.Prelude.Table.{lookup-update}
use text.Mathlib.TextEquality.{eq_iff}
use fobe.Store.Nodes.{Node, Rows, reports_version, set_agent_version}
use fobe.Agent.SelfUpdate.{Report}
use fobe.Server.AgentUpdate.{Texts, Offer, Panel, is_on, status, target_of, on_report, hello}
use fobe.Server.AgentUpdate.Calls.{target_of-closed, told, on_report-nodes}
use fobe.Server.AgentUpdate.NodeRow.{Holds, update-Holds, close_plan-Holds}
use fobe.Server.AgentUpdate.Plan.{Waits, IsAnchored, target_of-IsAnchored, on_report-IsAnchored}
use fobe.Server.AgentUpdate.Rollout.{deliver}

-- The row of a node that runs the build of the panel.
module _ (texts : Texts) (o : Offer) (id : String) where
  abbrev pub Runs : Node → Type 0
  Runs n = n.agent_version ≡ o.server_version

  pub deliver-Runs :
      (now : ℕ) (out : List Report) (p : Panel)
      → Holds id Runs p.nodes
      → Holds id Runs (deliver texts id now out p).nodes
  unfolding deliver
  deliver-Runs now [] p h = h
  deliver-Runs now (r ∷ rs) p h =
      deliver-Runs now rs (on_report texts now id r p) (elim (on_report-nodes texts now id r p) [
        | inl e ↦ rw e h
        | inr e ↦ rw e (update-Holds id Runs id (told texts now r) p.nodes (λ _ n w. w) h)
      ])

  -- There is nothing to offer to it.
  pub target_of-Runs :
      (now : ℕ) (rows : Rows)
      → is_on (status texts o) ≡ true
      → Holds id Runs rows
      → ((target_of texts o now id rows).0 ≡ none) × Holds id Runs (target_of texts o now id rows).1
  target_of-Runs now rows on' (n, e, w) =
      rw (target_of-closed texts o now id rows n on' e (eq→beq n.agent_version o.server_version w))
        (
          refl,
          close_plan-Holds id Runs now id o.server_version n rows (λ _ m v. v) (λ _ m v. v)
              (n, e, w),
        )

  pub hello-Runs :
      (now : ℕ) (version : String) (rows : Rows)
      → is_on (status texts o) ≡ true
      → (o.server_version == "") ≡ false
      → version ≡ o.server_version
      → Holds id (λ _. Unit {0}) rows
      → Holds id Runs (hello texts o now id version rows)
  unfolding hello set_agent_version
  hello-Runs now version rows on' full same (n, e, _) =
      (target_of-Runs now (set_agent_version id version rows) on' (
        reports_version version n,
        ground
            (arith, lookup-update (λ j _. j == id) (reports_version version) id rows, eq_iff id id),
        rw (ap (λ v. v == "") same ∙ full) same,
      )).1

  pub deliver-IsAnchored :
      (now anchor : ℕ) (out : List Report) (p : Panel)
      → All (λ r. r.target ≡ o.server_version) out
      → IsAnchored id o.server_version anchor p.nodes
      → IsAnchored id o.server_version anchor (deliver texts id now out p).nodes
  unfolding deliver
  deliver-IsAnchored now anchor [] p s a = a
  deliver-IsAnchored now anchor (r ∷ rs) p s a =
      deliver-IsAnchored now anchor rs (on_report texts now id r p) s.1 (
        on_report-IsAnchored texts id o.server_version anchor now id r p
          (ground (arith, eq→beq r.target o.server_version s.0)) a)

  pub hello-IsAnchored :
      (now anchor : ℕ) (version : String) (rows : Rows)
      → 0 < anchor
      → (version == o.server_version) ≡ false
      → IsAnchored id o.server_version anchor rows
      → IsAnchored id o.server_version anchor (hello texts o now id version rows)
  unfolding hello set_agent_version
  hello-IsAnchored now anchor version rows pos v a =
      target_of-IsAnchored texts id o.server_version anchor o now id _ pos refl (
        update-Holds id (Waits id o.server_version anchor) id (reports_version version) rows
          (λ _ n w. (ground (arith, v, w.0), w.1, w.2)) a)

pub either :
    (P : Rows → Type 0) (online : Bool) (p q : Panel)
    → P p.nodes
    → P q.nodes
    → P (if online then p else q).nodes
either P true p q x y = x
either P false p q x y = y
