-- ===== src/Store/Inbounds/Invariant.antt =====
-- What holds of the listener table after any history of calls (internal/server/store/ops.go).
use fobe.Prelude.{
  ℕ, String, List, [], ◌∷◌, false, some, ◌≡◌, arith, ℕ-HasEq, String-HasEq, pair-HasEq,
}
use fobe.Prelude.Table.{lookup, IsKeyed}
use fobe.Store.Inbounds.{
  Row, Db, Call, adds, deletes, restores, removes, prunes, reports, pending, step, run,
}
use fobe.Store.Inbounds.Reports.{lookup-reconcile}
use fobe.Store.Inbounds.Intents.{
  lookup-set_pending, lookup-set_deleting, lookup-restore, lookup-drop, lookup-prune_optimism,
  step-IsKeyed,
}

-- What the probe never confirmed is a pending add.
abbrev pub IsOptimistic : Db → Type 0
IsOptimistic db =
    (node : String) (p : ℕ) (r : Row)
    → lookup (node, p) db ≡ some r
    → r.reported ≡ false
    → r.status ≡ pending

step-IsOptimistic :
    (now : ℕ) (c : Call) (db : Db) → IsKeyed db → IsOptimistic db → IsOptimistic (step now c db)
unfolding step
step-IsOptimistic now (adds n i) db d h node p r e u =
    ground (arith, h node p r, lookup-set_pending now n i node p db)
step-IsOptimistic now (deletes n i) db d h node p r e u =
    ground (arith, h node p r, lookup-set_deleting now n i node p db d)
step-IsOptimistic now (restores n i) db d h node p r e u =
    ground (arith, h node p r, lookup-restore now n i node p db)
step-IsOptimistic now (removes n q) db d h node p r e u =
    ground (arith, h node p r, lookup-drop n node q p db d)
step-IsOptimistic now (prunes n declared) db d h node p r e u =
    ground (arith, h node p r, lookup-prune_optimism n node declared p db d)
step-IsOptimistic now (reports n is effective known) db d h node p r e u =
    ground (arith, h node p r, lookup-reconcile now n is effective known node p db d)

run-IsOptimistic_from :
    (cs : List (ℕ × Call)) (db : Db)
    → IsKeyed db
    → IsOptimistic db
    → IsKeyed (run cs db) × IsOptimistic (run cs db)
unfolding run
run-IsOptimistic_from [] db d h = (d, h)
run-IsOptimistic_from ((now, c) ∷ cs) db d h =
    run-IsOptimistic_from cs (step now c db) (step-IsKeyed now c db d)
      (step-IsOptimistic now c db d h)

-- After any history of calls from the empty table, a row that the probe has not confirmed is
-- pending.
pub status-run :
    (cs : List (ℕ × Call)) (node : String) (p : ℕ) (r : Row)
    → lookup (node, p) (run cs []) ≡ some r
    → r.reported ≡ false
    → r.status ≡ pending
unfolding lookup
status-run cs = (run-IsOptimistic_from cs [] tt (λ node p r e u. ground arith)).1
