-- ===== src/Hub/Traffic/Tests.antt =====
-- A counter that rises, falls with a reboot, and rises again (internal/server/hub/handlers.go).
use fobe.Prelude.{
  ℕ, ◌+◌, ◌^◌, ◌<◌, Bool, true, false, some, String, List, [], ◌∷◌, none, ◌≡◌, refl, arith,
  String-HasEq, pair-HasEq, if◌then◌else◌, ◌==◌,
}
use fobe.Prelude.Int.{ℤ, pos, ◌-ℤ◌}
use fobe.Prelude.Table.{lookup, upsert}
use fobe.Store.Alerts.{empty}
use fobe.Hub.Traffic.{Counter, Network, Calendar, Db, on_traffic, accumulate}
use fobe.Hub.Traffic.Counting.{side, pick, total}
use fobe.Hub.Traffic.Totals.{
  Report, gained_over, last_reading, IsKnown, feed, feed-total, feed-rising,
}

-- One lifetime period, and one day.
abbrev one_day : Calendar
one_day = record { period_start = λ c r z t. pos 0; local_date = λ t z. "2026-01-01" }

abbrev plain : String → String → ℤ → String
plain iface direction delta = "{}"

abbrev eth : Network
eth = record { iface = "eth0"; cycle_type = "none"; next_reset_at = none; tz = "UTC" }

abbrev seen : Counter
seen = record { last_raw = pos 100; last_ts = pos 10; period_start = pos 0; period_used = pos 0 }

abbrev sent : Counter
sent = record { last_raw = pos 40; last_ts = pos 12; period_start = pos 0; period_used = pos 0 }

abbrev panel : Db
panel = record {
  counters = (("a", ("eth0", "rx")), seen) ∷ (("a", ("eth0", "tx")), sent) ∷ [];
  daily = [];
  alerts = empty;
  networks = ("a", eth) ∷ [];
  node_tz = [];
}

abbrev since : Bool → ℤ
since b = pick b (pos 10) (pos 12)

abbrev from : Bool → ℕ
from b = pick b 100 40

panel-seen :
    (b : Bool)
    → (prev : Counter) × (lookup ("a", ("eth0", side b)) panel.counters ≡ some prev)
      × (prev.last_raw ≡ pos (from b))
      × (prev.last_ts ≡ since b)
unfolding lookup
panel-seen true = (seen, refl, refl, refl)
panel-seen false = (sent, refl, refl, refl)

panel-bounded : (b : Bool) → from b < 2 ^ 63
panel-bounded true = omega arith
panel-bounded false = omega arith

panel-IsKnown : IsKnown "a" eth since from panel
unfolding lookup
panel-IsKnown = record { row = refl; seen = panel-seen; bounded = panel-bounded }

-- The reception falls with a reboot, the sending goes on; the last report has no time of its own.
abbrev reboot : List Report
reboot = (20, (pos 20, (150, 60))) ∷ (30, (pos 30, (7, 90))) ∷ (40, (pos 0, (9, 95))) ∷ []

feed-total_example :
    total true "a" (feed one_day plain "a" "eth0" reboot panel).daily
    ≡ total true "a" panel.daily
      + (if ◌==◌ {K = String} "a" "a" then gained_over true (pos 10) 100 reboot else 0)
feed-total_example =
    feed-total one_day plain "a" eth reboot since from panel refl panel-IsKnown (omega arith) true
      "a"

reboot_received : gained_over true (pos 10) 100 reboot ≡ 52
reboot_received = refl

reboot_sent : total false "a" (feed one_day plain "a" "eth0" reboot panel).daily ≡ 55
unfolding feed on_traffic accumulate lookup upsert ◌-ℤ◌
reboot_sent = refl

feed-rising_example :
    total false "a" (feed one_day plain "a" "eth0" reboot panel).daily + 40
    ≡ total false "a" panel.daily + last_reading false 40 reboot
feed-rising_example =
    feed-rising one_day plain "a" eth reboot since from panel false refl panel-IsKnown (omega arith)
      (omega arith, refl, (omega arith, refl, (omega arith, refl, tt)))

-- The first report of a counter is its baseline and counts nothing.
first_report :
    (on_traffic one_day plain 50 "b"
      (pos 0)
      (record { iface = "eth0"; rx = 900; tx = 5 })
      panel).daily
    ≡ []
unfolding on_traffic accumulate lookup upsert
first_report = refl
