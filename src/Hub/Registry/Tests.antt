-- ===== src/Hub/Registry/Tests.antt =====
-- Runs of the connection registry (internal/server/hub/hub.go): a reconnect, then the late end of
-- the old connection.
use fobe.Prelude.{List, [], ◌∷◌, some, ◌≡◌, refl, ◌⊎◌, arith, ℕ-HasEq, String-HasEq}
use fobe.Prelude.Table.{lookup, upsert, delete}
use fobe.Hub.Registry.{
  Hub, is_closed, register, teardown, write_failed, Event, connects, ends, step, run, queued,
  dropped, panicked, Sends, queues, panics,
}
use fobe.Hub.Registry.Open.{run_no_panic, run-register}

program : Unit {0}
unfolding lookup upsert delete register teardown write_failed step run
program = tt

abbrev reconnect : List Event
reconnect = connects "a" ∷ connects "a" ∷ ends "a" 0 ∷ []

abbrev once : Hub
once = record { conns = ("a", 0) ∷ []; closed = []; next = 1 }

run_no_panic_example : (queued ≡ queued) ⊎ (queued ≡ dropped)
unfolding program
run_no_panic_example =
    run_no_panic reconnect "a" 1 5 queued (refl, (refl, (refl, tt))) refl
      (queues refl (omega arith))

-- A failed write leaves its connection registered and closed: a push may panic.
write_failed_panics :
    (lookup "a" (write_failed "a" 0 once).conns ≡ some 0)
    × Sends 5 (is_closed "a" 0 (write_failed "a" 0 once)) panicked
unfolding program
write_failed_panics = (refl, panics refl)

run-register_example : lookup "a" (run (ends "a" 0 ∷ []) (register "a" once)).conns ≡ some 1
unfolding program
run-register_example = run-register (ends "a" 0 ∷ []) "a" once (refl, tt) (refl, tt)
