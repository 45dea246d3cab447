-- ===== src/Store/Commands/Tests.antt =====
-- Runs of the command queue (internal/server/store/ops.go) on a small history.
use fobe.Prelude.{ℕ, List, [], ◌∷◌, true, none, some, ◌≡◌, refl, String-HasEq}
use fobe.Prelude.Table.{lookup, update}
use fobe.Store.Commands.{
  Command, Db, Call, claims, finishes, expires, waits_for, ok, Meta, new_command, create_command,
  claim, waits_for, oldest_pending, next_pending_command, finish_command, timeout_stale_commands,
  step, run,
}
use fobe.Store.Commands.Lifecycle.{Follows, run-Follows, run-finished}

program : Unit {0}
unfolding lookup update create_command oldest_pending next_pending_command finish_command
    timeout_stale_commands step run
program = tt

abbrev panel : Meta
panel = record { actor = "panel"; ai_session_id = ""; reason = ""; risk = "" }

abbrev reboot : Command
reboot = new_command 100 "a" "reboot" "{}" 600 panel

abbrev closed : Command
closed = record reboot { status = ok; result = "{}"; finished_at = some 130 }

-- Claimed at 120; the answer of another probe at 125 meets nothing, that of its own at 130 does.
abbrev history : List (ℕ × Call)
history =
    (120, claims "a")
    ∷ (125, finishes "b" "c1" true "stolen")
    ∷ (130, finishes "a" "c1" true "{}")
    ∷ (9000, expires)
    ∷ []

history_end :
    lookup "c1" (run history (("c1", reboot) ∷ [])) ≡ some (record closed { sent_at = some 120 })
unfolding program
history_end = refl

create_taken : create_command 1 "c1" "b" "k" "" 1 panel (("c1", reboot) ∷ []) ≡ none
unfolding program
create_taken = refl

run-Follows_example :
    (d : Command) × (lookup "c1" (run history (("c1", reboot) ∷ [])) ≡ some d) × Follows reboot d
unfolding program
run-Follows_example = run-Follows history "c1" reboot (("c1", reboot) ∷ []) (refl, tt) refl

run-finished_example : lookup "c1" (run history (("c1", closed) ∷ [])) ≡ some closed
unfolding program
run-finished_example = run-finished history "c1" closed (("c1", closed) ∷ []) (refl, tt) refl refl

abbrev waiting : Db
waiting = ("c2", record reboot { created_at = 110 }) ∷ ("c1", reboot) ∷ []

abbrev taken : Db
taken = ("c2", record reboot { created_at = 110 }) ∷ ("c1", claim 120 reboot) ∷ []
