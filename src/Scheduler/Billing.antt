-- ===== src/Scheduler/Billing.antt =====
-- Reminders of bills that fall due (`checkBillingDue` of internal/server/scheduler/scheduler.go, for
-- one node that has a due time). The JSON of an alert and the reading of its days are parameters;
-- the float64 division is exact for the times at hand and is taken as that of integers.
pub mod Stages
mod Tests
use fobe.Prelude.{
  ℕ, ◌+◌, ◌-◌, ◌*◌, ◌/◌, String, Bool, true, false, ◌||◌, Option, none, some, ltb, if◌then◌else◌,
  ◌==◌, ℕ-HasEq,
}
use fobe.Prelude.Int.{ℤ, pos, negsuc, pos_part}
use fobe.Store.Alerts.{create_alert, recover_alert, open_alert}
use fobe.Store.Alerts

abbrev pub day : ℕ
day = 86400

-- math.Ceil of the days from `now` to `due`.
unfoldable pub days_until : ℕ → ℕ → ℤ
days_until now due =
    if ltb now due
    then pos ((due - now + (day - 1)) / day)
    else if ltb (now - due) day
    then pos 0
    else negsuc ((now - due) / day - 1)

unfoldable pub billing_kind : ℤ → Option String
billing_kind (negsuc n) = some "due_overdue"
billing_kind (pos n) =
    if n == 0
    then some "due_overdue"
    else if (n == 7) || ((n == 3) || (n == 1))
    then some "billing_due"
    else none

abbrev pub close_billing_alerts : ℕ → String → Alerts.Db → Alerts.Db
close_billing_alerts now node db =
    recover_alert now "due_overdue" node (recover_alert now "billing_due" node db)

module _ (payload : ℤ → ℕ → String) (days_of : String → Option ℤ) where
  unfoldable pub billing_stage_open : String → String → ℕ → Alerts.Db → Bool
  billing_stage_open kind node stage db = elim (open_alert kind node db) [
    | none ↦ false
    | some a ↦ elim (days_of a.payload) [ none ↦ true | some d ↦ pos_part d == stage ]
  ]

  unfoldable pub remind : ℕ → ℕ → String → String → ℤ → Alerts.Db → Alerts.Db
  unfolding billing_stage_open
  remind now due node kind days db =
      if billing_stage_open kind node (pos_part days) db
      then db
      else (create_alert now kind node (payload days due) (7 * day)
          (close_billing_alerts now node db)).2

  unfoldable pub check_billing : ℕ → ℕ → String → Alerts.Db → Alerts.Db
  unfolding days_until billing_kind remind
  check_billing now due node db = elim (billing_kind (days_until now due)) [
    | none ↦ if ltb 7 (pos_part (days_until now due)) then close_billing_alerts now node db else db
    | some kind ↦ remind now due node kind (days_until now due) db
  ]
