-- ===== src/Scheduler/Liveness.antt =====
-- Which probes are online: the verdict of silence (`detectOffline` of
-- internal/server/scheduler/scheduler.go), the signs of life (`markOnlineAudited` of
-- internal/server/hub/handlers.go) and the two updates of internal/server/store/nodes.go. The texts
-- of audit entries are parameters. A query that fails is left out, and with it the alert that the
-- sweep raises after a failed update. A sign of life, its update and its recovery, is one step; the
-- update and the alert of a sweep are two, between which other steps may fall.
pub mod Edges
pub mod Sweep
mod Tests
use fobe.Prelude.{
  ℕ, ◌+◌, ◌-◌, String, List, [], ◌∷◌, Bool, true, false, not, ◌&&◌, Option, none, some, ltb,
  if◌then◌else◌, ◌==◌, String-HasEq,
}
use fobe.Prelude.Table.{lookup, update}
use fobe.Store.Alerts.{create_alert, recover_alert}
use fobe.Store.Alerts
use fobe.Scheduler.Delivery.{Entry}

pub record Node : Type 0 where
  pub status : String
  pub created_at : ℕ
  pub last_seen : Option ℕ
  pub agent_version : String

pub record State : Type 0 where
  pub nodes : List (String × Node)
  pub alerts : Alerts.Db
  pub audit : List Entry

abbrev pub heartbeat_window : ℕ
heartbeat_window = 90

-- Five minutes.
abbrev pub boot_grace : ℕ
boot_grace = 300

unfoldable pub mark_node_offline : String → List (String × Node) → List (String × Node)
mark_node_offline id nodes = update (λ k _. k == id) (λ n. record n { status = "offline" }) nodes

unfoldable pub seen_online : String → ℕ → Node → Node
seen_online version now n = record n {
  status = "online";
  last_seen = some now;
  agent_version = if version == "" then n.agent_version else version;
}

abbrev pub last_sign : Node → ℕ
last_sign n = elim n.last_seen [ none ↦ n.created_at | some t ↦ t ]

unfoldable pub is_silent : ℕ → ℕ → Node → Bool
is_silent started_at now n =
    (n.status == "online")
    && (not
          ((ltb 0 started_at && ltb now (started_at + boot_grace)) && ltb (last_sign n) started_at)
        && ltb heartbeat_window (now - last_sign n))

abbrev pub entry : String → String → String → Entry
entry action node text = record { actor = "system"; node = node; action = action; command = text }

-- What the goroutines of the panel do to the rows: the sweep's update of a silent row, its alert
-- after that, for a silence of so many seconds, and a sign of life with the version it carries.
pub data Step : Type 0 where
  marks : String → Step
  raises : String → ℕ → Step
  hears : String → String → Step

module _ (silent_text : ℕ → String) (online_text : String → ℕ → String) where
  -- What follows the update of a row that has fallen silent: the audit entry and the alert.
  unfoldable pub raise_offline : ℕ → String → ℕ → State → State
  raise_offline now id silence s = record s {
    alerts = (create_alert now "node_offline" id "{}" 3600 s.alerts).2;
    audit = entry "node_offline" id (silent_text silence) ∷ s.audit;
  }

  -- One row of the list that the job has read, its update and its alert as one; `step` has them
  -- apart.
  unfoldable pub judge : ℕ → ℕ → String → Node → State → State
  unfolding is_silent mark_node_offline raise_offline
  judge started_at now id n s =
      if is_silent started_at now n
      then raise_offline now id (now - last_sign n)
          (record s { nodes = mark_node_offline id s.nodes })
      else s

  unfoldable pub judge_all : ℕ → ℕ → List (String × Node) → State → State
  unfolding judge
  judge_all started_at now [] s = s
  judge_all started_at now ((id, n) ∷ rows) s =
      judge_all started_at now rows (judge started_at now id n s)

  -- A pass over the rows as it has read them, in which nothing else falls.
  unfoldable pub detect_offline : ℕ → ℕ → State → State
  unfolding judge_all
  detect_offline started_at now s = judge_all started_at now s.nodes s

  abbrev pub silent_for : ℕ → Node → ℕ
  silent_for now n = elim n.last_seen [ none ↦ 0 | some t ↦ now - t ]

  -- A hello with the probe's version, or a ping with none; an unknown node is an error, logged.
  unfoldable pub mark_online_audited : String → String → ℕ → State → State
  unfolding seen_online
  mark_online_audited id version now s = elim (lookup id s.nodes) [
    | none ↦ s
    | some n ↦
        let nodes = update (λ k _. k == id) (seen_online version now) s.nodes in
        if n.status == "online" then record s { nodes = nodes } else record {
          nodes = nodes;
          alerts = recover_alert now "node_offline" id s.alerts;
          audit = entry "node_online" id (online_text version (silent_for now n)) ∷ s.audit;
        }
  ]

  unfoldable pub step : ℕ → Step → State → State
  unfolding mark_node_offline raise_offline mark_online_audited
  step now (marks id) s = record s { nodes = mark_node_offline id s.nodes }
  step now (raises id silence) s = raise_offline now id silence s
  step now (hears id version) s = mark_online_audited id version now s

  unfoldable pub run : List (ℕ × Step) → State → State
  unfolding step
  run [] s = s
  run ((now, e) ∷ es) s = run es (step now e s)
