-- ===== src/Scheduler/Billing/Tests.antt =====
-- Two passes three days before a bill (internal/server/scheduler/scheduler.go).
use fobe.Prelude.{
  ℕ, String, [], ◌∷◌, Option, none, some, if◌then◌else◌, ◌==◌, String-HasEq, ◌≡◌, refl,
}
use fobe.Prelude.Int.{ℤ, pos, negsuc, ℤ-HasEq}
use fobe.Store.Alerts.{
  create_alert, duplicate, insert, recover_alert, open_alert, fresh_alert, empty,
}
use fobe.Store.Alerts
use fobe.Scheduler.Billing.{days_until, billing_kind, billing_stage_open, remind, check_billing}
use fobe.Scheduler.Billing.Stages.{check_billing-again}

program : Unit {0}
unfolding create_alert duplicate insert recover_alert open_alert days_until billing_kind
    billing_stage_open remind check_billing
program = tt

abbrev payload : ℤ → ℕ → String
payload days due = if days == pos 3 then "3" else "late"

abbrev days_of : String → Option ℤ
days_of s = if s == "3" then some (pos 3) else none

overdue : days_until 1000000 900000 ≡ negsuc 0
unfolding program
overdue = refl

abbrev reminded : Alerts.Db
reminded = record { last_id = 1; rows = fresh_alert 1 "billing_due" "a" "3" 740800 ∷ [] }

first_pass : check_billing payload days_of 740800 1000000 "a" empty ≡ reminded
unfolding program
first_pass = refl

check_billing-again_example :
    check_billing payload days_of 762400 1000000 "a"
      (check_billing payload days_of 740800 1000000 "a" empty)
    ≡ check_billing payload days_of 740800 1000000 "a" empty
unfolding program
check_billing-again_example =
    check_billing-again payload days_of 740800 762400 1000000 "a" "billing_due" empty refl refl refl
      refl
