-- ===== src/Server/AgentUpdate/Rollout.antt =====
-- The update of one node, the panel (internal/server/agentupdate/agentupdate.go, called from
-- internal/server/hub) and its probe (internal/agent/selfupdate.go) together.
pub mod Runs
pub mod Phases
pub mod Breaker
use fobe.Prelude.{
  ℕ, zero, suc, ◌+◌, ◌≤◌, ◌<◌, String, List, [], ◌∷◌, ◌++◌, Bool, true, false, not, ◌&&◌, ◌||◌,
  Option, none, some, All, ◌≡◌, ◌⊎◌, refl, sym, ap, ◌∙◌, arith, if◌then◌else◌, ◌==◌, String-HasEq,
  Bool-cases, inl, inr, eq→beq,
}
use fobe.Prelude.Table.{lookup, lookup-update}
use text.Mathlib.TextEquality.{eq_iff}
use fobe.Store.Nodes.{Node, Rows, reports_version, set_agent_version}
use fobe.Agent.SelfUpdate as Probe
use fobe.Agent.SelfUpdate.{Report, Updater, Host, consider}
use fobe.Agent.SelfUpdate.Budget.{
  terminal_failures, terminal_failures-append, IsActive, IsDone, IsGood, Keeps, consider-Keeps,
}
use fobe.Agent.SelfUpdate.Breaker.{IsNew, step-Keeps}
use fobe.Agent.SelfUpdate.Placed.{
  IsOwn, consider-IsDone, step-IsDone, withdrawn-IsDone, step-IsNew, new-IsActive, own-IsPlanned,
}
use fobe.Server.AgentUpdate.{
  Texts, Offer, Panel, is_on, status, stagger_offset, anchor_of, target_of, desired, on_report,
  hello,
}
use fobe.Server.AgentUpdate.Calls.{target_of-closed, told, on_report-nodes}
use fobe.Server.AgentUpdate.NodeRow.{Holds, update-Holds, close_plan-Holds}
use fobe.Server.AgentUpdate.Plan.{
  Waits, IsAnchored, target_of-IsAnchored, on_report-IsAnchored, target_of-anchored, first-pos,
  first-IsAnchored,
}

pub record System : Type 0 where
  pub panel : Panel
  pub probe : Updater

-- The probe connects, the panel pushes its desired state, or the probe is at work by itself, with a
-- connection for its reports or without.
pub data Event : Type 0 where
  connects : Host → ℕ → Event
  pushes : Host → ℕ → Event
  works : ℕ → Bool → Probe.Event → Event

module _ (texts : Texts) (id : String) where
  unfoldable pub deliver : ℕ → List Report → Panel → Panel
  deliver now [] p = p
  deliver now (r ∷ rs) p = deliver now rs (on_report texts now id r p)

  -- The offer reaches the probe, and what it says the panel.
  abbrev pub hand_over : Host → ℕ → Option (String × ℕ) → Rows → System → System × List Report
  hand_over host now plan rows s =
      let (u, out) = consider host now (desired plan).0 (desired plan).1 s.probe in
      (record { panel = deliver now out (record s.panel { nodes = rows }); probe = u }, out)

module _ (texts : Texts) (o : Offer) (id : String) where
  unfoldable pub step : Event → System → System × List Report
  step (connects host now) s =
      let (plan, rows) = target_of texts o now id s.panel.nodes in
      hand_over texts id host now plan (hello texts o now id s.probe.version rows) s
  step (pushes host now) s =
      let (plan, rows) = target_of texts o now id s.panel.nodes in
      hand_over texts id host now plan rows s
  step (works now online e) s =
      let (u, out) = Probe.step e s.probe in
      (
        record { panel = if online then deliver texts id now out s.panel else s.panel; probe = u },
        out,
      )

  unfoldable pub run : List Event → System → System × List Report
  run [] s = (s, [])
  run (e ∷ es) s = let (s₁, out) = step e s in let (s₂, rest) = run es s₁ in (s₂, out ++ rest)

-- The clock has started, and no offer comes but from the panel.
abbrev pub IsReal : Event → Type 0
IsReal (connects host now) = 0 < now
IsReal (pushes host now) = 0 < now
IsReal (works now online e) = IsOwn e
