-- ===== src/Scheduler/Delivery.antt =====
-- Delivering alerts (`deliverAlerts`, `deliverOne` and `auditDelivery` of
-- internal/server/scheduler/scheduler.go). A channel is what the interface notify.Notifier says of
-- it during one pass. The text of an audit entry and the names of nodes are parameters; a query
-- that fails changes nothing and is left out.
pub mod Queue
pub mod Audit
mod Tests
use fobe.Prelude.{
  ℕ, String, List, [], ◌∷◌, ◌++◌, Bool, true, false, not, ◌&&◌, Option, none, some, keep, contains,
  if◌then◌else◌, ◌==◌, ℕ-HasEq, String-HasEq, pair-HasEq,
}
use fobe.Prelude.Table.{lookup, put, upsert}
use fobe.Store.Alerts.{Alert, mark_delivered, undelivered}
use fobe.Store.Alerts

pub record Event : Type 0 where
  pub kind : String
  pub node : String
  pub node_name : String
  pub payload : String
  pub created_at : ℕ
  pub recovered_at : Option ℕ

-- The error of a delivery, if any: the channel lost its settings, or a text that is safe to show.
pub data Attempt : Type 0 where
  taken not_configured : Attempt
  fails : String → Attempt

pub record Notifier : Type 0 where
  pub name : String
  pub configured : Bool
  pub accepts : Event → Bool
  pub deliver : Event → Attempt

pub record Outcome : Type 0 where
  pub sent : List String
  pub failed : List String
  pub errs : List (String × String)

abbrev pub nothing : Outcome
nothing = record { sent = []; failed = []; errs = [] }

abbrev pub attempted : String → Attempt → Outcome → Outcome
attempted name taken out = record out { sent = out.sent ++ (name ∷ []) }
attempted name not_configured out = out
attempted name (fails err) out = record out {
  failed = out.failed ++ (name ∷ []);
  errs = put name err out.errs;
}

-- The loop over the channels.
unfoldable pub deliver_each : List Notifier → Event → Outcome → Outcome
deliver_each [] ev out = out
deliver_each (n ∷ ns) ev out =
    deliver_each ns ev (if n.accepts ev then attempted n.name (n.deliver ev) out else out)

unfoldable pub deliver_one : List Notifier → Event → Outcome
unfolding deliver_each
deliver_one targets ev = deliver_each targets ev nothing

pub record Entry : Type 0 where
  pub actor : String
  pub node : String
  pub action : String
  pub command : String

pub record State : Type 0 where
  pub alerts : Alerts.Db
  pub audited_delivery : List (ℕ × (String × String))
  pub audit : List Entry

abbrev pub no_names : List String → Bool
no_names [] = true
no_names (x ∷ xs) = false

abbrev pub error_of : String → Outcome → String
error_of channel out = elim (lookup channel out.errs) [ none ↦ "" | some e ↦ e ]

module _ (delivery_detail : String → Event → String → String) where
  -- An entry, unless the memo holds it.
  unfoldable pub audit_channel : ℕ → Event → String → String → String → State → State
  audit_channel id ev action err ch s =
      if contains (id, (action, ch)) s.audited_delivery then s else record s {
        audited_delivery = (id, (action, ch)) ∷ s.audited_delivery;
        audit =
            record {
              actor = "system";
              node = ev.node;
              action = action;
              command = delivery_detail ch ev err;
            }
            ∷ s.audit;
      }

  unfoldable pub audit_channels :
      ℕ → Event → String → (String → String) → List String → State → State
  unfolding audit_channel
  audit_channels id ev action err [] s = s
  audit_channels id ev action err (ch ∷ chs) s =
      audit_channels id ev action err chs (audit_channel id ev action (err ch) ch s)

  unfoldable pub audit_delivery : ℕ → Event → Outcome → State → State
  unfolding audit_channels
  audit_delivery id ev out s =
      audit_channels id ev "notify_failed" (λ ch. error_of ch out) out.failed
        (audit_channels id ev "notify_sent" (λ ch. "") out.sent s)

  module _ (node_name : String → String) where
    abbrev pub event_of : Alert → Event
    event_of a = record {
      kind = a.kind;
      node = a.node;
      node_name = node_name a.node;
      payload = a.payload;
      created_at = a.created_at;
      recovered_at = a.recovered_at;
    }

    abbrev pub forget : ℕ → List (ℕ × (String × String)) → List (ℕ × (String × String))
    forget id memo = keep (λ m. not (m.0 == id)) memo

    -- One alert: it leaves the queue unless a channel that accepts it failed.
    unfoldable pub deliver_alert : ℕ → List Notifier → Alert → State → State
    unfolding deliver_one audit_delivery
    deliver_alert now targets a s =
        let out = deliver_one targets (event_of a) in
        let s' = audit_delivery a.id (event_of a) out s in
        if no_names out.failed
        then record s' {
          audited_delivery = forget a.id s'.audited_delivery;
          alerts = mark_delivered now a.id s'.alerts;
        }
        else s'

    unfoldable pub deliver_list : ℕ → List Notifier → List Alert → State → State
    unfolding deliver_alert
    deliver_list now targets [] s = s
    deliver_list now targets (a ∷ rest) s =
        deliver_list now targets rest (deliver_alert now targets a s)

    unfoldable pub deliver_alerts : ℕ → List Notifier → State → State
    unfolding deliver_list
    deliver_alerts now notifiers s = elim (keep (λ n. n.configured) notifiers) [
      | [] ↦ s
      | n ∷ ns ↦ deliver_list now (n ∷ ns) (undelivered s.alerts) s
    ]
