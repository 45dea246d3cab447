-- ===== src/Store/Alerts/Tests.antt =====
-- Runs of the alerts table (internal/server/store/ops.go) on a small history.
use fobe.Prelude.{ℕ, List, [], ◌∷◌, true, false, some, ◌≡◌, refl, arith, ℕ-HasEq, String-HasEq}
use fobe.Store.Alerts.{
  Alert, Db, Call, creates, delivers, recovers, fresh_alert, insert, duplicate, create_alert,
  mark_delivered, recover_alert, step, run, empty,
}
use fobe.Store.Alerts.Queue.{is_queued, is_queued-recover_alert}

program : Unit {0}
unfolding step run create_alert duplicate insert mark_delivered recover_alert is_queued
program = tt

abbrev offline : Alert
offline = record (fresh_alert 1 "node_offline" "a" "{}" 100) { delivered_at = some 160 }

abbrev outage : Db
outage = record { last_id = 1; rows = offline ∷ [] }

abbrev silence : List (ℕ × Call)
silence =
    (100, creates "node_offline" "a" "{}" 3600)
    ∷ (130, creates "node_offline" "a" "{}" 3600)
    ∷ (140, delivers 1)
    ∷ (3700, creates "node_offline" "a" "{}" 3600)
    ∷ []

abbrev later : List (ℕ × Call)
later = (500, recovers "node_offline" "a") ∷ (600, creates "node_offline" "a" "{}" 3600) ∷ []

-- The window over, the second outage is raised; the repetition inside it is not.
silence_rows : run silence empty ≡ record {
  last_id = 2;
  rows =
      fresh_alert 2 "node_offline" "a" "{}" 3700
      ∷ record (fresh_alert 1 "node_offline" "a" "{}" 100) { delivered_at = some 140 }
      ∷ [];
}
unfolding program
silence_rows = refl

is_queued-recover_alert_example :
    (is_queued 1 (recover_alert 300 "node_offline" "a" outage) ≡ true)
    × (is_queued 1 (run later (mark_delivered 360 1 (recover_alert 300 "node_offline" "a" outage)))
        ≡ false)
is_queued-recover_alert_example =
    is_queued-recover_alert 300 360 1 "node_offline" "a" later outage offline (omega arith) refl
      refl
