-- ===== src/Store/AiGate/Tests.antt =====
-- Checks of the gate (internal/server/store/ai.go) on a node whose commands fail.
use fobe.Prelude.{ℕ, suc, String, [], ◌∷◌, Bool, false, some, ◌≡◌, refl, arith, String-HasEq}
use fobe.Prelude.Table.{lookup, upsert}
use fobe.Store.Commands.{Meta, Command, Db, failed, new_command}
use fobe.Store.AiGate.{
  failure_paused, rate_limited, allowed, Check, ai_results, insert_result, newest_first,
  leading_failures, consecutive, paused_until, next_pause, check_ai_command_gate, run,
}
use fobe.Store.AiGate.Pause.{IsQuiet, check_ai_command_gate-run}

program : Unit {0}
unfolding lookup upsert ai_results insert_result newest_first leading_failures consecutive
    paused_until next_pause check_ai_command_gate run
program = tt

abbrev assistant : Meta
assistant = record { actor = "ai"; ai_session_id = "s"; reason = ""; risk = "" }

abbrev failure : ℕ → Command
failure at = record (new_command at "a" "shell" "{}" 60 assistant) {
  status = failed;
  finished_at = some (suc at);
}

abbrev three_failures : Db
three_failures = ("c1", failure 1000) ∷ ("c3", failure 1020) ∷ ("c2", failure 1010) ∷ []

abbrev later_first : String → String → Bool
later_first _ _ = false

abbrev check_at : ℕ → Check
check_at at = record { node = "a"; limit = 30; at = at; commands = three_failures }

-- The pause that the check at 1030 begins, and the one that the same failures begin again.
pause_test : (check_ai_command_gate later_first "a" 30 1030 three_failures []).0 ≡ failure_paused
unfolding program
pause_test = refl

pause_again_test :
    (check_ai_command_gate later_first "a" 30 1400 three_failures
      (run later_first (check_at 1030 ∷ []) [])).0
    ≡ failure_paused
unfolding program
pause_again_test = refl

rate_limit_test :
    (check_ai_command_gate later_first "a" 2 1700
      (("c4", new_command 1690 "a" "shell" "{}" 60 assistant)
        ∷ ("c5", new_command 1650 "a" "shell" "{}" 60 assistant)
        ∷ [])
      []).0
    ≡ rate_limited
unfolding program
rate_limit_test = refl

three_failures-IsQuiet : IsQuiet "a" 1021 three_failures
three_failures-IsQuiet =
    ((omega arith, omega arith), ((omega arith, omega arith), ((omega arith, omega arith), tt)))

check_ai_command_gate-run_example :
    (check_ai_command_gate later_first "a" 30 1921 three_failures
      (run later_first (check_at 1030 ∷ check_at 1400 ∷ []) [])).0
    ≡ allowed
check_ai_command_gate-run_example =
    check_ai_command_gate-run later_first "a" 1021 (check_at 1030 ∷ check_at 1400 ∷ []) 30 1921
      three_failures (three_failures-IsQuiet, (three_failures-IsQuiet, tt)) three_failures-IsQuiet
      (omega arith)
