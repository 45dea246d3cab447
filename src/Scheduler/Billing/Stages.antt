-- ===== src/Scheduler/Billing/Stages.antt =====
-- One reminder for each stage (internal/server/scheduler/scheduler.go).
use text.Mathlib.TextEquality.{eq_iff}
use fobe.Prelude.{
  ℕ, ◌+◌, ◌*◌, String, List, [], ◌∷◌, true, Option, none, some, first_of?, ℕ-HasEq, String-HasEq,
  beq_refl, ◌≡◌, refl, sym, ap, ◌∙◌, ◌⊎◌, arith, Bool-cases, inl, inr,
}
use fobe.Prelude.Int.{ℤ, pos, negsuc, pos_part}
use fobe.Store.Alerts.{
  Alert, create_alert, duplicate, insert, recover_alert, open_alert, fresh_alert, is_open,
}
use fobe.Store.Alerts
use fobe.Store.Alerts.Queue.{open_alert-recover_alert}
use fobe.Scheduler.Billing.{
  day, days_until, billing_kind, close_billing_alerts, billing_stage_open, remind, check_billing,
}

duplicate-none :
    (now window : ℕ) (kind node : String) (rows : List Alert)
    → first_of? (is_open kind node) rows ≡ none
    → duplicate now window kind node rows ≡ none
unfolding duplicate
duplicate-none now window kind node [] h = refl
duplicate-none now window kind node (a ∷ rows) h = elim (Bool-cases (is_open kind node a)) [
  | inl y ↦ ground (arith, y)
  | inr y ↦ ground (arith, y, duplicate-none now window kind node rows)
]

-- With no open alert of the kind and node, one is raised.
open_alert-create_alert_fresh :
    (now : ℕ) (kind node payload : String) (db : Alerts.Db)
    → open_alert kind node db ≡ none
    → open_alert kind node (create_alert now kind node payload (7 * day) db).2
      ≡ some (fresh_alert (db.last_id + 1) kind node payload now)
unfolding open_alert create_alert insert
open_alert-create_alert_fresh now kind node payload db h =
    rw (duplicate-none now (7 * day) kind node db.rows h)
      (ground (arith, eq_iff kind kind, eq_iff node node))

billing_kind-cases :
    (days : ℤ) (kind : String)
    → billing_kind days ≡ some kind
    → (kind ≡ "due_overdue") ⊎ (kind ≡ "billing_due")
unfolding billing_kind
billing_kind-cases (negsuc n) kind h = inl (ground arith)
billing_kind-cases (pos n) kind h = ground arith

open_alert-close :
    (now : ℕ) (node kind : String) (db : Alerts.Db)
    → (kind ≡ "due_overdue") ⊎ (kind ≡ "billing_due")
    → open_alert kind node (close_billing_alerts now node db) ≡ none
open_alert-close now node kind db h = ground (
  arith,
  h,
  eq_iff node node,
  eq_iff "due_overdue" kind,
  eq_iff "billing_due" kind,
  open_alert-recover_alert now "due_overdue" node kind node
      (recover_alert now "billing_due" node db),
  open_alert-recover_alert now "billing_due" node kind node db,
)

module _ (payload : ℤ → ℕ → String) (days_of : String → Option ℤ) where
  billing_stage_open-fresh :
      (kind node : String) (days : ℤ) (a : Alert) (db : Alerts.Db)
      → open_alert kind node db ≡ some a
      → days_of a.payload ≡ some days
      → billing_stage_open payload days_of kind node (pos_part days) db ≡ true
  unfolding billing_stage_open
  billing_stage_open-fresh kind node days a db h k =
      rw (h, billing_stage_open) (rw k (beq_refl (pos_part days)))

  billing_stage_open-remind :
      (now due : ℕ) (node kind : String) (days : ℤ) (db : Alerts.Db)
      → (kind ≡ "due_overdue") ⊎ (kind ≡ "billing_due")
      → days_of (payload days due) ≡ some days
      → billing_stage_open payload days_of kind node
          (pos_part days)
          (remind payload days_of now due node kind days db)
        ≡ true
  unfolding remind
  billing_stage_open-remind now due node kind days db k h =
      elim (Bool-cases (billing_stage_open payload days_of kind node (pos_part days) db)) [
        | inl y ↦ rw (y, remind) y
        | inr y ↦
            let closed = close_billing_alerts now node db in
            let raised =
              open_alert-create_alert_fresh now kind node (payload days due) closed
                (open_alert-close now node kind db k) in
            rw (y, remind)
              (billing_stage_open-fresh kind node days _
                (create_alert now kind node (payload days due) (7 * day) closed).2 raised h)
      ]

  remind-again :
      (now due : ℕ) (node kind : String) (days : ℤ) (db : Alerts.Db)
      → billing_stage_open payload days_of kind node (pos_part days) db ≡ true
      → remind payload days_of now due node kind days db ≡ db
  unfolding remind
  remind-again now due node kind days db h = rw (h, remind) refl

  -- If the days of a reminder can be read back from its payload, two passes over a node in the
  -- same stage, of one kind and with the same days to go or both overdue, raise one reminder at
  -- most: the second changes nothing.
  pub check_billing-again :
      (now later due : ℕ) (node kind : String) (db : Alerts.Db)
      → billing_kind (days_until now due) ≡ some kind
      → billing_kind (days_until later due) ≡ some kind
      → pos_part (days_until now due) ≡ pos_part (days_until later due)
      → days_of (payload (days_until now due) due) ≡ some (days_until now due)
      → check_billing payload days_of later due node (check_billing payload days_of now due node db)
        ≡ check_billing payload days_of now due node db
  unfolding check_billing
  check_billing-again now later due node kind db h k e r =
      let raised = remind payload days_of now due node kind (days_until now due) db in
      let first : check_billing payload days_of now due node db ≡ raised =
        rw (h, check_billing) refl in
      let stage : billing_stage_open payload days_of kind node (pos_part (days_until later due))
            raised
          ≡ true =
        rw (sym e) (
          billing_stage_open-remind now due node kind (days_until now due) db
            (billing_kind-cases (days_until now due) kind h) r) in
      let second : check_billing payload days_of later due node raised ≡ raised =
        rw (k, check_billing)
          (remind-again later due node kind (days_until later due) raised stage) in
      ap (check_billing payload days_of later due node) first ∙ second ∙ sym first
