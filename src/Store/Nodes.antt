-- ===== src/Store/Nodes.antt =====
-- The columns of the table `nodes` that keep the agent's build and its update
-- (internal/server/store/nodes.go). The nodes stand in the order of their creation.
use fobe.Prelude.{
  ℕ, ◌+◌, String, List, Bool, not, ◌&&◌, ◌||◌, if◌then◌else◌, ◌==◌, String-HasEq, ltb, leb, keep,
}
use fobe.Prelude.Table.{update}

pub record Node : Type 0 where
  pub name : String
  pub agent_version : String
  pub agent_target_version : String
  pub agent_update_state : String
  pub agent_update_attempts : ℕ
  pub agent_update_error : String
  pub agent_update_planned_at : ℕ
  pub agent_update_done_at : ℕ

abbrev pub Rows : Type 0
Rows = List (String × Node)

abbrev pub planned : String → ℕ → Node → Node
planned target planned_at n = record n {
  agent_target_version = target;
  agent_update_planned_at = planned_at;
  agent_update_done_at = if n.agent_target_version == target then n.agent_update_done_at else 0;
}

unfoldable pub set_agent_update_planned : String → String → ℕ → Rows → Rows
set_agent_update_planned id target planned_at = update (λ k _. k == id) (planned target planned_at)

-- Whether the target is new or not, the attempts are those of the call.
abbrev pub recorded : String → String → ℕ → String → ℕ → Node → Node
recorded target state attempts error done_at n = record n {
  agent_update_attempts = if n.agent_target_version == target then attempts else attempts;
  agent_update_state = state;
  agent_update_error = error;
  agent_update_done_at = if ltb 0 done_at then done_at else n.agent_update_done_at;
  agent_target_version = if target == "" then n.agent_target_version else target;
}

unfoldable pub record_agent_update : String → String → String → ℕ → String → ℕ → Rows → Rows
record_agent_update id target state attempts error done_at =
    update (λ k _. k == id) (recorded target state attempts error done_at)

abbrev pub cleared : Node → Node
cleared n = record n {
  agent_update_attempts = 0;
  agent_update_error = "";
  agent_update_state = "";
  agent_update_planned_at = 0;
}

unfoldable pub clear_agent_update : String → Rows → Rows
clear_agent_update id = update (λ k _. k == id) cleared

-- What a hello writes of these columns (MarkNodeOnline).
abbrev pub reports_version : String → Node → Node
reports_version version n = record n {
  agent_version = if version == "" then n.agent_version else version;
}

unfoldable pub set_agent_version : String → String → Rows → Rows
set_agent_version id version = update (λ k _. k == id) (reports_version version)

-- state IN ('failed', 'suppressed', 'unsupported')
abbrev pub has_given_up : String → Bool
has_given_up state = (state == "failed") || ((state == "suppressed") || (state == "unsupported"))

-- The deadline is `window` seconds before `now`.
abbrev pub is_behind : ℕ → ℕ → Node → Bool
is_behind now window n =
    (not (n.agent_target_version == "") && not (n.agent_target_version == n.agent_version))
    && ((ltb 0 n.agent_update_planned_at && leb (n.agent_update_planned_at + window) now)
        && not (has_given_up n.agent_update_state))

unfoldable pub stale_agent_updates : ℕ → ℕ → Rows → Rows
stale_agent_updates now window = keep (λ r. is_behind now window r.1)
