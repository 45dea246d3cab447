-- ===== src/Hub/Drain/Tests.antt =====
-- A drain of two waiting commands (internal/server/hub/hub.go).
use fobe.Prelude.{String, List, take, ◌++◌, [], ◌∷◌, some, ◌≡◌, refl, arith, String-HasEq}
use fobe.Prelude.Table.{lookup, update}
use fobe.Store.Commands.{
  Command, Db, Meta, new_command, claim, oldest_pending, next_pending_command,
}
use fobe.Hub.Drain.{hello_ack, cmd, capacity, send_envelope, drain_rounds, drain_command_queue}
use fobe.Hub.Drain.Whole.{frames, Drained, drain_command_queue_total}

abbrev panel : Meta
panel = record { actor = "panel"; ai_session_id = ""; reason = ""; risk = "" }

abbrev first : Command
first = new_command 100 "a" "reboot" "{}" 600 panel

abbrev second : Command
second = new_command 90 "a" "shell" "{}" 600 panel

abbrev queued : Db
queued = ("c1", first) ∷ ("c2", second) ∷ []

oldest_first :
    drain_command_queue 120 "a" (hello_ack ∷ []) queued
    ≡ some (
      hello_ack ∷ cmd ("c2", second) ∷ cmd ("c1", first) ∷ [],
      ("c1", claim 120 first) ∷ ("c2", claim 120 second) ∷ [],
    )
unfolding lookup update oldest_pending next_pending_command send_envelope drain_rounds
    drain_command_queue
oldest_first = refl

drain_command_queue_total_example :
    (given : List (String × Command)) × (db' : Db) × (drain_command_queue 120 "a"
        (hello_ack ∷ [])
        queued
      ≡ some (take capacity ((hello_ack ∷ []) ++ frames given), db'))
    × Drained 120 "a" queued given db'
unfolding lookup
drain_command_queue_total_example =
    drain_command_queue_total 120 "a" (hello_ack ∷ []) queued (refl, (refl, tt)) (omega arith)
