-- ===== src/Server/AgentUpdate.antt =====
-- The server's half of the agent's update, internal/server/agentupdate/agentupdate.go: which build
-- is offered to a node and from when on, what the node reports, the operator's retry and the sweep
-- for nodes that are behind. It writes the columns of Store.Nodes, raises and recovers alerts in
-- Store.Alerts and adds entries to the audit log. Texts and the bytes of a text are parameters.
pub mod Calls
pub mod NodeRow
pub mod Plan
pub mod Alarms
pub mod Rollout
mod Tests
use Prim.Native.Nat.{bit_xor}
use Prim.Native.String.{◌++◌ as string_append}
use fobe.Prelude.{
  ℕ, zero, ◌+◌, ◌-◌, ◌*◌, ◌%◌, ◌^◌, String, List, [], ◌∷◌, ◌++◌, Bool, true, false, not, ◌&&◌, ◌||◌,
  Option, none, some, ltb, leb, nat_beq, if◌then◌else◌, ◌==◌, String-HasEq, any_of, map,
}
use fobe.Prelude.Table.{lookup}
use fobe.Store.Alerts as Alerts
use fobe.Store.Alerts.{create_alert, recover_alert}
use fobe.Store.Nodes.{
  Node, Rows, set_agent_update_planned, record_agent_update, clear_agent_update, set_agent_version,
  stale_agent_updates,
}
use fobe.Agent.SelfUpdate.{Report}

-- What the code takes of its libraries: trimming, the bytes of a text, the cut of a long text, and
-- the payloads and lines that it writes.
pub record Texts : Type 0 where
  pub trim_space : String → String
  pub bytes : String → List ℕ
  pub truncate : String → ℕ → String
  pub node_payload : Report → String → String
  pub stale_payload : String → ℕ → Rows → String
  pub report_line : Report → String
  pub stale_line : String → Rows → String

-- The settings, the answer of the artifact volume, and the spans in seconds.
pub record Offer : Type 0 where
  pub enabled : Bool
  pub dl_dir : String
  pub artifact : Bool
  pub server_version : String
  pub stagger : ℕ
  pub converge_after : ℕ

pub record Audit : Type 0 where
  pub node : String
  pub action : String
  pub command : String
  pub reason : String
  pub risk : String

pub record Panel : Type 0 where
  pub nodes : Rows
  pub alerts : Alerts.Db
  pub audits : List Audit

-- Why nothing is offered.
pub data Status : Type 0 where
  on switch_off no_dl_dir not_released artifact_missing : Status

abbrev pub is_on : Status → Bool
is_on on = true
is_on _ = false

-- `New` puts the default in the place of a span that is not positive.
abbrev pub span_or : ℕ → ℕ → ℕ
span_or default zero = default
span_or default n = n

abbrev prime : ℕ
prime = 1099511628211

-- uint64
unfoldable pub fnv1a : ℕ → List ℕ → ℕ
fnv1a h [] = h
fnv1a h (b ∷ bs) = fnv1a ((bit_xor h b * prime) % 2 ^ 64) bs

abbrev is_digit : ℕ → Bool
is_digit b = leb b'0' b && leb b b'9'

abbrev pub close_plan : ℕ → String → String → Node → Rows → Rows
close_plan now id target n rows =
    if not (n.agent_update_state == "committed") || not (nat_beq n.agent_update_planned_at 0)
    then set_agent_update_planned id target 0
        (record_agent_update id target "committed" n.agent_update_attempts "" now rows)
    else rows

-- The pair of node and target is seen for the first time, or its plan is closed.
abbrev pub is_unplanned : String → Node → Bool
is_unplanned target n =
    not (n.agent_target_version == target) || nat_beq n.agent_update_planned_at 0

abbrev pub anchor_of : ℕ → String → Node → ℕ
anchor_of now target n = if is_unplanned target n then now else n.agent_update_planned_at

-- Both fields of the desired state: no target is "" and 0.
abbrev pub desired : Option (String × ℕ) → String × ℕ
desired none = ("", 0)
desired (some plan) = plan

abbrev pub state_of : Report → String
state_of r = if (r.phase == "failed") && (r.class == "transient") then "transient" else r.phase

abbrev pub alert_risk : String → String
alert_risk state =
    if (state == "failed") || (state == "suppressed")
    then "high"
    else (if state == "transient" then "medium" else "low")

abbrev pub recover_both : ℕ → String → Alerts.Db → Alerts.Db
recover_both now node db =
    recover_alert now "agent_update_transient" node
      (recover_alert now "agent_update_failed" node db)

abbrev pub has_changed : Report → Node → Bool
has_changed r n =
    not (state_of r == n.agent_update_state)
    || (not (nat_beq r.attempts n.agent_update_attempts) || not (r.error == n.agent_update_error))

abbrev pub unsupported_recovers : ℕ → String → String → Alerts.Db → Alerts.Db
unsupported_recovers now node state db =
    if state == "unsupported" then recover_both now node db else db

unfoldable pub retry : String → Panel → Panel
retry node p = record p { nodes = clear_agent_update node p.nodes }

module _ (texts : Texts) where
  unfoldable pub is_release_version : String → Bool
  is_release_version v =
      let s = texts.trim_space v in
      not
        ((s == "") || ((s == "dev") || ((s == "compose") || ((s == "latest") || (s == "unknown")))))
      && any_of is_digit (texts.bytes s)

  unfoldable pub status : Offer → Status
  unfolding is_release_version
  status o =
      if not o.enabled
      then switch_off
      else (if o.dl_dir == ""
          then no_dl_dir
          else (if not (is_release_version o.server_version)
              then not_released
              else (if o.artifact then on else artifact_missing)))

  unfoldable pub stagger_offset : Offer → String → String → ℕ
  stagger_offset o node target =
      fnv1a 14695981039346656037 (texts.bytes node ++ (0 ∷ texts.bytes target))
      % span_or 300 o.stagger

  abbrev pub offer_plan : Offer → ℕ → String → String → Node → Rows → Option (String × ℕ) × Rows
  offer_plan o now id target n rows = (
    some (target, anchor_of now target n + stagger_offset o id target),
    if is_unplanned target n then set_agent_update_planned id target now rows else rows,
  )

  -- The build that the node should run and the second from which it may start, if there is one. The
  -- reading of the node and the writing of its plan, two statements, are taken as one step.
  unfoldable pub target_of : Offer → ℕ → String → Rows → Option (String × ℕ) × Rows
  target_of o now id rows = if not (is_on (status o)) then (none, rows) else elim (lookup id rows) [
    | none ↦ (none, rows)
    | some n ↦
        if n.agent_version == o.server_version
        then (none, close_plan now id o.server_version n rows)
        else offer_plan o now id o.server_version n rows
  ]

  unfoldable pub planned_start : Offer → String → Node → ℕ
  planned_start o id n =
      if nat_beq n.agent_update_planned_at 0
      then 0
      else (if (n.agent_target_version == "") || (n.agent_version == n.agent_target_version)
          then 0
          else n.agent_update_planned_at + stagger_offset o id n.agent_target_version)

  abbrev pub raise_node_alert : ℕ → String → String → String → Report → Alerts.Db → Alerts.Db
  raise_node_alert now kind node why r db =
      (create_alert now kind node (texts.node_payload r why) 3600 db).2

  unfoldable pub alert_on : ℕ → String → String → Report → Alerts.Db → Alerts.Db
  alert_on now node state r db =
      if state == "committed"
      then recover_both now node db
      else (if state == "failed"
          then raise_node_alert now "agent_update_failed" node "terminal failure" r db
          else (if state == "suppressed"
              then raise_node_alert now "agent_update_failed" node "gave up after repeated failures"
                  r db
              else (if (state == "transient") && leb 3 r.attempts
                  then raise_node_alert now "agent_update_transient" node
                      "repeated environment failures" r db
                  else db)))

  abbrev pub audit_of : String → Report → Audit
  audit_of node r = record {
    node = node;
    action = string_append "agent_update_" (state_of r);
    command = texts.report_line r;
    reason = texts.truncate r.error 300;
    risk = alert_risk (state_of r);
  }

  abbrev pub take_report : ℕ → String → Report → Node → Panel → Panel
  take_report now node r n p =
      let rows =
        record_agent_update node r.target (state_of r) r.attempts (texts.truncate r.error 500)
          (if state_of r == "committed" then now else 0) p.nodes in
      let alerts = unsupported_recovers now node (state_of r) p.alerts in
      if has_changed r n
      then record {
        nodes = rows;
        alerts = alert_on now node (state_of r) r alerts;
        audits = audit_of node r ∷ p.audits;
      }
      else record { nodes = rows; alerts = alerts; audits = p.audits }

  unfoldable pub on_report : ℕ → String → Report → Panel → Panel
  on_report now node r p =
      if (r.target == "") || (r.phase == "")
      then p
      else elim (lookup node p.nodes) [ none ↦ p | some n ↦ take_report now node r n p ]

  abbrev pub stale_audit : Offer → Rows → Audit
  stale_audit o stale = record {
    node = "";
    action = "agent_update_stale";
    command = texts.stale_line o.server_version stale;
    reason = "";
    risk = "medium";
  }

  abbrev pub raise_stale : Offer → ℕ → Rows → Panel → Panel
  raise_stale o now stale p = record p {
    alerts =
        (create_alert now "agent_update_stale" "" (texts.stale_payload o.server_version now stale)
          3600 p.alerts).2;
    audits = stale_audit o stale ∷ p.audits;
  }

  unfoldable pub sweep : Offer → ℕ → Panel → Panel
  sweep o now p =
      if not (is_on (status o))
      then p
      else elim (stale_agent_updates now (span_or 900 o.converge_after) p.nodes) [
        | [] ↦ record p { alerts = recover_alert now "agent_update_stale" "" p.alerts }
        | r ∷ rest ↦ raise_stale o now (r ∷ rest) p
      ]

  -- A hello: the build that the agent reports, and the plan once more.
  unfoldable pub hello : Offer → ℕ → String → String → Rows → Rows
  hello o now id version rows = (target_of o now id (set_agent_version id version rows)).1
