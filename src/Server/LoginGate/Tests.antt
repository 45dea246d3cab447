-- ===== src/Server/LoginGate/Tests.antt =====
-- A flood of arrivals at the gate (internal/server/httpapi/loginlimit.go).
use fobe.Prelude.{◌+◌, ◌*◌, ◌≤◌, List, [], ◌∷◌, ◌≡◌, refl, arith}
use fobe.Server.LoginGate.{
  Event, arrives, leaves, token, burst, new_gate, refill, try_acquire, release, run,
}
use fobe.Server.LoginGate.Bounds.{ending, granted-run}

program : Unit {0}
unfolding run try_acquire refill release
program = tt

-- Five arrive at once, and the last finds no place free.
abbrev flood : List Event
flood = arrives 7 ∷ arrives 7 ∷ arrives 7 ∷ arrives 7 ∷ arrives 7 ∷ []

flood_granted : (run flood new_gate).0 ≡ 4
unfolding program
flood_granted = refl

granted-run_example :
    (run (arrives 9 ∷ arrives 10 ∷ leaves ∷ arrives 20 ∷ []) (run flood new_gate).1).0 * token + 9
    ≤ burst + ending 9 (arrives 10 ∷ leaves ∷ arrives 20 ∷ [])
granted-run_example =
    granted-run flood 9 (arrives 10 ∷ leaves ∷ arrives 20 ∷ []) (omega arith, (omega arith, tt))
