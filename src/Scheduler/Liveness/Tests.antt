-- ===== src/Scheduler/Liveness/Tests.antt =====
-- A probe that falls silent and comes back (internal/server/scheduler/scheduler.go with
-- internal/server/hub/handlers.go).
use fobe.Prelude.{
  ℕ, String, Bool, true, false, Option, some, List, [], ◌∷◌, none, some, ◌≡◌, refl, String-HasEq,
}
use fobe.Prelude.Table.{lookup, update}
use fobe.Store.Alerts.{Alert, create_alert, duplicate, insert, recover_alert, open_alert, empty}
use fobe.Scheduler.Liveness.{
  Node, State, Step, marks, raises, hears, raise_offline, mark_node_offline, seen_online, is_silent,
  judge, judge_all, detect_offline, mark_online_audited, step, run,
}
use fobe.Scheduler.Liveness.Edges.{is_online, open_alert-run}
use fobe.Scheduler.Liveness.Sweep.{lookup-detect_offline}

program : Unit {0}
unfolding lookup update create_alert duplicate insert recover_alert open_alert mark_node_offline
    seen_online is_silent raise_offline judge judge_all detect_offline mark_online_audited step run
    is_online
program = tt

abbrev is_some : Option Alert → Bool
is_some none = false
is_some (some a) = true

abbrev silent_text : ℕ → String
silent_text n = "silent"

abbrev online_text : String → ℕ → String
online_text version n = version

abbrev probe : Node
probe = record { status = "online"; created_at = 1; last_seen = some 1000; agent_version = "1.0" }

abbrev panel : State
panel = record { nodes = ("a", probe) ∷ []; alerts = empty; audit = [] }

-- Swept at 1120, then heard again.
abbrev history : List (ℕ × Step)
history = (1120, marks "a") ∷ (1120, raises "a" 120) ∷ (1150, hears "a" "") ∷ []

open_alert-run_example :
    open_alert "node_offline" "a" (run silent_text online_text history panel).alerts ≡ none
unfolding program
open_alert-run_example =
    open_alert-run silent_text online_text history "a" panel refl (refl, (refl, (refl, tt))) refl

-- A sign of life between the two halves of a sweep leaves an online node with an open alert.
abbrev race : List (ℕ × Step)
race = (1120, marks "a") ∷ (1120, hears "a" "") ∷ (1120, raises "a" 120) ∷ []

race_rings :
    (is_online "a" (run silent_text online_text race panel) ≡ true)
    × (is_some (open_alert "node_offline" "a" (run silent_text online_text race panel).alerts)
        ≡ true)
unfolding program
race_rings = (refl, refl)

lookup-detect_offline_example :
    lookup "a" (detect_offline silent_text online_text 0 1120 panel).nodes
    ≡ some (record probe { status = "offline" })
unfolding program
lookup-detect_offline_example =
    lookup-detect_offline silent_text online_text 0 1120 "a" panel (refl, tt)

-- The process has just started: the silence before it says nothing.
grace : lookup "a" (detect_offline silent_text online_text 1100 1120 panel).nodes ≡ some probe
unfolding program
grace = refl
