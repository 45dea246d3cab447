-- ===== src/Store/Inbounds/Reports.antt =====
-- What a report makes of the listener table (internal/server/store/ops.go): the state of every
-- row after `ReconcileNodeSingboxInbounds`, and the lives of the panel's intents across reports.
use text.Mathlib.TextEquality.{eq_iff}
use fobe.Prelude.{
  ℕ, String, List, [], ◌∷◌, Bool, true, false, not, ◌&&◌, Option, none, some, contains,
  if◌then◌else◌, ◌==◌, ℕ-HasEq, String-HasEq, pair-HasEq, ◌≡◌, ◌≢◌, refl, arith, Bool-cases,
  Option-cases, inl, inr,
}
use fobe.Prelude.Table.{
  lookup, IsKeyed, merge, survive, lookup-upsert, lookup-delete, upsert-IsKeyed, delete-IsKeyed,
}
use fobe.Store.Inbounds.{
  Inbound, Row, Db, row_of, confirm, first_status, drop, reconcile_row, reconcile_rows,
  reported_ports, stale_ports, drop_all, reconcile,
}

-- The last entry of a report for a port above 0.
unfoldable pub last_entry : ℕ → List Inbound → Option Inbound
last_entry p [] = none
last_entry p (i ∷ is) = elim (last_entry p is) [
  | some j ↦ some j
  | none ↦ if (i.port == p) && not (i.port == 0) then some i else none
]

last_entry-port :
    (p : ℕ) (is : List Inbound) (j : Inbound)
    → last_entry p is ≡ some j
    → (j.port ≡ p) × (j.port ≢ 0)
unfolding last_entry
last_entry-port p [] j h = ground arith
last_entry-port p (i ∷ is) j h = ground (arith, last_entry-port p is j)

-- What a report makes of the row of one of its ports.
abbrev pub reported_row : ℕ → List ℕ → Bool → Inbound → Option Row → Row
reported_row now effective known i =
    merge (row_of now (first_status effective known i) true i) (confirm now effective known i)

-- Of two entries for one port the later one decides.
reported_row_again :
    (now : ℕ) (effective : List ℕ) (known : Bool) (i j : Inbound) (r : Option Row)
    → i.port ≡ j.port
    → reported_row now effective known j (some (reported_row now effective known i r))
      ≡ reported_row now effective known j r
reported_row_again now effective known i j none h = ground arith
reported_row_again now effective known i j (some r) h = ground arith

-- A row after the upserts of a report.
abbrev after_rows : ℕ → List ℕ → Bool → Option Inbound → Option Row → Option Row
after_rows now effective known none r = r
after_rows now effective known (some i) r = some (reported_row now effective known i r)

module _ (now : ℕ) (node : String) (effective : List ℕ) (known : Bool) where
  lookup-reconcile_row :
      (n : String) (p : ℕ) (i : Inbound) (db : Db)
      → lookup (n, p) (reconcile_row now node effective known i db) ≡ (
          if (node == n) && ((i.port == p) && not (i.port == 0))
          then some (reported_row now effective known i (lookup (n, p) db))
          else lookup (n, p) db)
  unfolding reconcile_row
  lookup-reconcile_row n p i db = ground (
    arith,
    eq_iff node n,
    lookup-upsert (node, i.port) (n, p) (row_of now (first_status effective known i) true i)
        (confirm now effective known i) db,
  )

  lookup-reconcile_rows :
      (n : String) (p : ℕ) (is : List Inbound) (db : Db)
      → lookup (n, p) (reconcile_rows now node effective known is db) ≡ (
          if node == n
          then after_rows now effective known (last_entry p is) (lookup (n, p) db)
          else lookup (n, p) db)
  unfolding reconcile_rows last_entry
  lookup-reconcile_rows n p [] db = ground arith
  lookup-reconcile_rows n p (i ∷ is) db =
      let ih = lookup-reconcile_rows n p is (reconcile_row now node effective known i db) in
      let here = lookup-reconcile_row n p i db in
      elim (Option-cases (last_entry p is)) [
        | inl e ↦ ground (arith, ih, here)
        | inr (j, e) ↦ ground (
          arith,
          ih,
          here,
          last_entry-port p is j e,
          reported_row_again now effective known i j (lookup (n, p) db),
        )
      ]

  pub reconcile_rows-IsKeyed :
      (is : List Inbound) (db : Db)
      → IsKeyed db
      → IsKeyed (reconcile_rows now node effective known is db)
  unfolding reconcile_rows reconcile_row
  reconcile_rows-IsKeyed [] db d = d
  reconcile_rows-IsKeyed (i ∷ is) db d = elim (Bool-cases (i.port == 0)) [
    | inl z ↦ rw z (reconcile_rows-IsKeyed is db d)
    | inr z ↦ rw z (reconcile_rows-IsKeyed is _ (upsert-IsKeyed _ _ _ db d))
  ]

pub drop-IsKeyed : (node : String) (p : ℕ) (db : Db) → IsKeyed db → IsKeyed (drop node p db)
unfolding drop
drop-IsKeyed node p db d = delete-IsKeyed _ db d

lookup-drop_all :
    (n node : String) (p : ℕ) (ps : List ℕ) (db : Db)
    → IsKeyed db
    → lookup (n, p) (drop_all node ps db)
      ≡ (if (node == n) && contains p ps then none else lookup (n, p) db)
unfolding drop_all drop
lookup-drop_all n node p [] db d = ground arith
lookup-drop_all n node p (q ∷ ps) db d = ground (
  arith,
  eq_iff node n,
  eq_iff n node,
  lookup-drop_all n node p ps (drop node q db) (drop-IsKeyed node q db d),
  lookup-delete (λ k (_ : Row). k == (node, q)) (n, p) db d,
)

pub contains-reported_ports :
    (p : ℕ) (is : List Inbound)
    → contains p (reported_ports is) ≡ elim (last_entry p is) [ none ↦ false | some _ ↦ true ]
unfolding reported_ports last_entry
contains-reported_ports p [] = refl
contains-reported_ports p (i ∷ is) = ground (arith, contains-reported_ports p is)

-- The ports to drop are those of the node's confirmed rows that the report leaves out.
contains-stale_ports :
    (node : String) (p : ℕ) (ports : List ℕ) (db : Db)
    → IsKeyed db
    → contains p (stale_ports node ports db)
      ≡ elim (lookup (node, p) db) [ none ↦ false | some r ↦ r.reported && not (contains p ports) ]
unfolding stale_ports lookup
contains-stale_ports node p ports [] d = refl
contains-stale_ports node p ports (((n, q), r) ∷ db) d =
    ground (arith, eq_iff n node, contains-stale_ports node p ports db d.1)

-- A row after a whole report of its node.
abbrev pub after_report : ℕ → List ℕ → Bool → Option Inbound → Option Row → Option Row
after_report now effective known none r = survive (λ v. v.reported) r
after_report now effective known (some i) r = some (reported_row now effective known i r)

-- After a report of a node, in a table whose keys stand once: every listed port has a confirmed
-- row in the state that the report and the old row give, a confirmed row of the node that the
-- report leaves out is gone, an unconfirmed one stays as it was, and the rows of other nodes
-- stay as they were.
pub lookup-reconcile :
    (now : ℕ) (node : String) (is : List Inbound) (effective : List ℕ) (known : Bool) (n : String)
    (p : ℕ) (db : Db)
    → IsKeyed db
    → lookup (n, p) (reconcile now node is effective known db) ≡ (
        if node == n
        then after_report now effective known (last_entry p is) (lookup (n, p) db)
        else lookup (n, p) db)
unfolding reconcile
lookup-reconcile now node is effective known n p db d =
    let db' = reconcile_rows now node effective known is db in
    let keyed = reconcile_rows-IsKeyed now node effective known is db d in
    ground (
      arith,
      eq_iff node n,
      lookup-drop_all n node p (stale_ports node (reported_ports is) db') db' keyed,
      contains-stale_ports node p (reported_ports is) db' keyed,
      contains-reported_ports p is,
      lookup-reconcile_rows now node effective known n p is db,
    )

pub drop_all-IsKeyed :
    (node : String) (ps : List ℕ) (db : Db) → IsKeyed db → IsKeyed (drop_all node ps db)
unfolding drop_all
drop_all-IsKeyed node [] db d = d
drop_all-IsKeyed node (p ∷ ps) db d =
    drop_all-IsKeyed node ps (drop node p db) (drop-IsKeyed node p db d)

pub reconcile-IsKeyed :
    (now : ℕ) (node : String) (is : List Inbound) (effective : List ℕ) (known : Bool) (db : Db)
    → IsKeyed db
    → IsKeyed (reconcile now node is effective known db)
unfolding reconcile
reconcile-IsKeyed now node is effective known db d =
    drop_all-IsKeyed node _ _ (reconcile_rows-IsKeyed now node effective known is db d)
