-- ===== src/Store/Inbounds/Tests.antt =====
-- Runs of the listener table (internal/server/store/ops.go) on a small history.
use fobe.Prelude.{ℕ, List, [], ◌∷◌, true, false, none, ◌≡◌, refl, ℕ-HasEq, String-HasEq, pair-HasEq}
use fobe.Prelude.Table.{lookup, upsert, delete, update}
use fobe.Store.Inbounds.{
  Inbound, Db, Call, adds, reports, pending, running, row_of, step, run, set_pending, set_deleting,
  reconcile, reconcile_rows, reconcile_row, reported_ports, stale_ports, drop_all, drop,
}
use fobe.Store.Inbounds.Reports.{last_entry, lookup-reconcile}
use fobe.Store.Inbounds.Intents.{IsLeaving, run-set_deleting}
use fobe.Store.Inbounds.Invariant.{status-run}

program : Unit {0}
unfolding lookup upsert delete update step run set_pending set_deleting reconcile reconcile_rows
    reconcile_row reported_ports stale_ports drop_all drop last_entry
program = tt

abbrev vless : Inbound
vless = record { port = 443; kind = "vless"; tag = "in"; status = pending }

abbrev socks : Inbound
socks = record { port = 1080; kind = "socks"; tag = "s"; status = pending }

abbrev served : Db
served = (("a", 443), row_of 1 running true vless) ∷ []

-- A report that still lists the listener, and one of another node.
abbrev traffic : List (ℕ × Call)
traffic = (5, reports "a" (vless ∷ []) (443 ∷ []) true) ∷ (6, reports "b" (socks ∷ []) [] true) ∷ []

abbrev early : List (ℕ × Call)
early = (5, reports "a" (vless ∷ []) (443 ∷ []) true) ∷ []

lookup-reconcile_example : lookup ("a", 443) (reconcile 9 "a" (socks ∷ []) [] true served) ≡ none
unfolding program
lookup-reconcile_example = lookup-reconcile 9 "a" (socks ∷ []) [] true "a" 443 served (refl, tt)

run-set_deleting_example :
    IsLeaving (lookup ("a", 443) (run traffic (set_deleting 4 "a" vless served)))
    × (lookup
          ("a", 443)
          (reconcile 9 "a" (socks ∷ []) [] true (run traffic (set_deleting 4 "a" vless served)))
        ≡ none)
unfolding program
run-set_deleting_example =
    run-set_deleting 4 "a" vless traffic served (row_of 1 running true vless) 9 (socks ∷ []) [] true
      (refl, tt) refl refl (refl, (refl, tt)) refl

status-run_example : (row_of 1 pending false socks).status ≡ pending
unfolding program
status-run_example =
    status-run ((1, adds "a" socks) ∷ []) "a" 1080 (row_of 1 pending false socks) refl refl
