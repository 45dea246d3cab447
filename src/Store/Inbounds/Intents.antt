-- ===== src/Store/Inbounds/Intents.antt =====
-- The panel's intents on a listener (internal/server/store/ops.go): an add that the probe has not
-- seen yet, a removal that it has not applied yet, and what every other call leaves of them.
use text.Mathlib.TextEquality.{eq_iff}
use fobe.Prelude.{
  ℕ, String, List, [], ◌∷◌, Bool, true, false, not, ◌&&◌, ◌||◌, Option, none, some, contains, All,
  if◌then◌else◌, ◌==◌, ℕ-HasEq, String-HasEq, pair-HasEq, ◌≡◌, refl, arith, Bool-cases,
  Option-cases, inl, inr,
}
use fobe.Prelude.Table.{
  lookup, IsKeyed, lookup-upsert, lookup-delete, lookup-update, upsert-IsKeyed, delete-IsKeyed,
  update-IsKeyed,
}
use fobe.Store.Inbounds.{
  Inbound, Row, Db, Call, adds, deletes, restores, removes, prunes, reports, pending, running,
  deleting, is_pending, row_of, set_pending, drop, restore, prune_optimism, set_deleting, reconcile,
  step, run, reported_ports,
}
use fobe.Store.Inbounds.Reports.{
  last_entry, contains-reported_ports, lookup-reconcile, reconcile-IsKeyed, drop-IsKeyed,
}

-- What `set_deleting` leaves in the place of a row.
abbrev pub after_deleting : ℕ → Inbound → Option Row → Option Row
after_deleting now i none = some (row_of now deleting true i)
after_deleting now i (some r) = if r.reported then some (row_of now deleting true i) else none

module _ (now : ℕ) (node : String) where
  pub lookup-set_pending :
      (i : Inbound) (n : String) (p : ℕ) (db : Db)
      → lookup (n, p) (set_pending now node i db) ≡ (
          if (node == n) && (i.port == p)
          then some (row_of now pending false i)
          else lookup (n, p) db)
  unfolding set_pending
  lookup-set_pending i n p db =
      let row = row_of now pending false i in
      ground (arith, lookup-upsert (node, i.port) (n, p) row (λ _. row) db)

  pub lookup-restore :
      (i : Inbound) (n : String) (p : ℕ) (db : Db)
      → lookup (n, p) (restore now node i db) ≡ (
          if (node == n) && (i.port == p)
          then some (row_of now i.status true i)
          else lookup (n, p) db)
  unfolding restore
  lookup-restore i n p db =
      let row = row_of now i.status true i in
      ground (arith, lookup-upsert (node, i.port) (n, p) row (λ _. row) db)

  -- A removal turns a confirmed listener, or one that the table does not know, into deleting,
  -- forgets an add that the probe never confirmed, and leaves every other row as it was, in a
  -- table whose keys stand once.
  pub lookup-set_deleting :
      (i : Inbound) (n : String) (p : ℕ) (db : Db)
      → IsKeyed db
      → lookup (n, p) (set_deleting now node i db) ≡ (
          if (node == n) && (i.port == p)
          then after_deleting now i (lookup (n, p) db)
          else lookup (n, p) db)
  unfolding set_deleting
  lookup-set_deleting i n p db d =
      let row = row_of now deleting true i in
      ground (
        arith,
        eq_iff node n,
        eq_iff n node,
        lookup-upsert (node, i.port) (n, p) row (λ _. row) db,
        lookup-update (λ k (v : Row). (k == (node, i.port)) && v.reported) (λ v. row) (n, p) db,
        lookup-delete (λ k (v : Row). (k == (node, i.port)) && not v.reported) (n, p) db d,
      )

set_deleting-IsKeyed :
    (now : ℕ) (node : String) (i : Inbound) (db : Db)
    → IsKeyed db
    → IsKeyed (set_deleting now node i db)
unfolding set_deleting
set_deleting-IsKeyed now node i db d = elim (Option-cases (lookup (node, i.port) db)) [
  | inl e ↦ rw (e, set_deleting) (upsert-IsKeyed _ _ _ db d)
  | inr (r, e) ↦
      rw (e, set_deleting)
        (elim (Bool-cases r.reported) [
          | inl y ↦ rw y (update-IsKeyed _ _ db d)
          | inr y ↦ rw y (delete-IsKeyed _ db d)
        ])
]

pub lookup-drop :
    (node n : String) (q p : ℕ) (db : Db)
    → IsKeyed db
    → lookup (n, p) (drop node q db) ≡ (if (node == n) && (q == p) then none else lookup (n, p) db)
unfolding drop
lookup-drop node n q p db d =
    ground (
      arith,
      eq_iff node n,
      eq_iff n node,
      lookup-delete (λ k (v : Row). k == (node, q)) (n, p) db d,
    )

-- An optimistic row that the pushed document does not declare.
abbrev is_stale : List ℕ → ℕ → Row → Bool
is_stale declared p r = not r.reported && (is_pending r.status && not (contains p declared))

-- Only the node's optimistic rows for undeclared ports are pruned.
pub lookup-prune_optimism :
    (node n : String) (declared : List ℕ) (p : ℕ) (db : Db)
    → IsKeyed db
    → lookup (n, p) (prune_optimism node declared db) ≡ elim (lookup (n, p) db) [
      | none ↦ none
      | some r ↦ if (node == n) && is_stale declared p r then none else some r
    ]
unfolding prune_optimism
lookup-prune_optimism node n declared p db d = ground (
  arith,
  eq_iff node n,
  eq_iff n node,
  lookup-delete
      (λ k (r : Row).
        (k.0 == node) && (not r.reported && (is_pending r.status && not (contains k.1 declared))))
      (n, p) db d,
)

-- A call that says nothing about the listener of `node` on port `p`, or is a report that lists it.
abbrev pub spares : String → ℕ → Call → Bool
spares node p (adds n i) = not ((node == n) && (i.port == p))
spares node p (deletes n i) = not ((node == n) && (i.port == p))
spares node p (restores n i) = not ((node == n) && (i.port == p))
spares node p (removes n q) = not ((node == n) && (q == p))
spares node p (prunes n declared) = true
spares node p (reports n is effective known) = not (node == n) || contains p (reported_ports is)

-- A call that says nothing about the listener, prunes with it declared, or is a report without it.
abbrev pub ignores : String → ℕ → Call → Bool
ignores node p (adds n i) = not ((node == n) && (i.port == p))
ignores node p (deletes n i) = not ((node == n) && (i.port == p))
ignores node p (restores n i) = not ((node == n) && (i.port == p))
ignores node p (removes n q) = not ((node == n) && (q == p))
ignores node p (prunes n declared) = not (node == n) || contains p declared
ignores node p (reports n is effective known) =
    not (node == n) || not (contains p (reported_ports is))

pub step-IsKeyed : (now : ℕ) (c : Call) (db : Db) → IsKeyed db → IsKeyed (step now c db)
unfolding step set_pending restore prune_optimism
step-IsKeyed now (adds node i) db d = upsert-IsKeyed _ _ _ db d
step-IsKeyed now (deletes node i) db d = set_deleting-IsKeyed now node i db d
step-IsKeyed now (restores node i) db d = upsert-IsKeyed _ _ _ db d
step-IsKeyed now (removes node p) db d = drop-IsKeyed node p db d
step-IsKeyed now (prunes node declared) db d = delete-IsKeyed _ db d
step-IsKeyed now (reports node is effective known) db d =
    reconcile-IsKeyed now node is effective known db d

-- The state of a listener whose removal the probe has not confirmed.
abbrev pub IsLeaving : Option Row → Type 0
IsLeaving r = (v : Row) × (r ≡ some v) × (v.status ≡ deleting) × (v.reported ≡ true)

step-IsLeaving :
    (now : ℕ) (c : Call) (node : String) (p : ℕ) (db : Db)
    → IsKeyed db
    → spares node p c ≡ true
    → IsLeaving (lookup (node, p) db)
    → IsLeaving (lookup (node, p) (step now c db))
unfolding step
step-IsLeaving now (adds n i) node p db d s h =
    ground (arith, eq_iff node n, eq_iff n node, lookup-set_pending now n i node p db)
step-IsLeaving now (deletes n i) node p db d s h =
    ground (arith, eq_iff node n, eq_iff n node, lookup-set_deleting now n i node p db d)
step-IsLeaving now (restores n i) node p db d s h =
    ground (arith, eq_iff node n, eq_iff n node, lookup-restore now n i node p db)
step-IsLeaving now (removes n q) node p db d s h =
    ground (arith, eq_iff node n, eq_iff n node, lookup-drop n node q p db d)
step-IsLeaving now (prunes n declared) node p db d s h =
    ground (arith, eq_iff node n, eq_iff n node, lookup-prune_optimism n node declared p db d)
step-IsLeaving now (reports n is effective known) node p db d s h = ground (
  arith,
  eq_iff node n,
  eq_iff n node,
  contains-reported_ports p is,
  lookup-reconcile now n is effective known node p db d,
)

run-IsLeaving :
    (cs : List (ℕ × Call)) (node : String) (p : ℕ) (db : Db)
    → IsKeyed db
    → All (λ c. spares node p c.1 ≡ true) cs
    → IsLeaving (lookup (node, p) db)
    → IsKeyed (run cs db) × IsLeaving (lookup (node, p) (run cs db))
unfolding run
run-IsLeaving [] node p db d s h = (d, h)
run-IsLeaving ((now, c) ∷ cs) node p db d s h =
    run-IsLeaving cs node p (step now c db) (step-IsKeyed now c db d) s.1
      (step-IsLeaving now c node p db d s.0 h)

-- A confirmed listener that the panel removes stays deleting through every call that spares it,
-- the reports that still list it included, and a report of its node without it drops its row.
pub run-set_deleting :
    (now : ℕ) (node : String) (i : Inbound) (cs : List (ℕ × Call)) (db : Db) (r : Row) (t : ℕ)
    (is : List Inbound) (effective : List ℕ) (known : Bool)
    → IsKeyed db
    → lookup (node, i.port) db ≡ some r
    → r.reported ≡ true
    → All (λ c. spares node i.port c.1 ≡ true) cs
    → contains i.port (reported_ports is) ≡ false
    → IsLeaving (lookup (node, i.port) (run cs (set_deleting now node i db)))
      × (lookup
            (node, i.port)
            (reconcile t node is effective known (run cs (set_deleting now node i db)))
          ≡ none)
run-set_deleting now node i cs db r t is effective known d e c s out =
    let start : IsLeaving (lookup (node, i.port) (set_deleting now node i db)) = (
      row_of now deleting true i,
      ground (arith, eq_iff node node, lookup-set_deleting now node i node i.port db d),
      refl,
      refl,
    ) in
    let (keyed, left) =
      run-IsLeaving cs node i.port _ (set_deleting-IsKeyed now node i db d) s start in
    (
      left,
      ground (
        arith,
        eq_iff node node,
        contains-reported_ports i.port is,
        lookup-reconcile t node is effective known node i.port (run cs (set_deleting now node i db))
            keyed,
      ),
    )

step-ignores :
    (now : ℕ) (c : Call) (node : String) (p : ℕ) (db : Db) (r : Row)
    → IsKeyed db
    → ignores node p c ≡ true
    → r.reported ≡ false
    → lookup (node, p) db ≡ some r
    → lookup (node, p) (step now c db) ≡ some r
unfolding step
step-ignores now (adds n i) node p db r d s u h =
    ground (arith, eq_iff node n, eq_iff n node, lookup-set_pending now n i node p db)
step-ignores now (deletes n i) node p db r d s u h =
    ground (arith, eq_iff node n, eq_iff n node, lookup-set_deleting now n i node p db d)
step-ignores now (restores n i) node p db r d s u h =
    ground (arith, eq_iff node n, eq_iff n node, lookup-restore now n i node p db)
step-ignores now (removes n q) node p db r d s u h =
    ground (arith, eq_iff node n, eq_iff n node, lookup-drop n node q p db d)
step-ignores now (prunes n declared) node p db r d s u h =
    ground (arith, eq_iff node n, eq_iff n node, lookup-prune_optimism n node declared p db d)
step-ignores now (reports n is effective known) node p db r d s u h = ground (
  arith,
  eq_iff node n,
  eq_iff n node,
  contains-reported_ports p is,
  lookup-reconcile now n is effective known node p db d,
)

run-ignores :
    (cs : List (ℕ × Call)) (node : String) (p : ℕ) (db : Db) (r : Row)
    → IsKeyed db
    → All (λ c. ignores node p c.1 ≡ true) cs
    → r.reported ≡ false
    → lookup (node, p) db ≡ some r
    → IsKeyed (run cs db) × (lookup (node, p) (run cs db) ≡ some r)
unfolding run
run-ignores [] node p db r d s u h = (d, h)
run-ignores ((now, c) ∷ cs) node p db r d s u h =
    run-ignores cs node p (step now c db) r (step-IsKeyed now c db d) s.1 u
      (step-ignores now c node p db r d s.0 u h)

-- An optimistic add stays exactly as written through every call that ignores it, and a report of
-- its node that lists it confirms it, as running if that report knows its port as effective and
-- as pending otherwise.
run-set_pending :
    (now : ℕ) (node : String) (i : Inbound) (cs : List (ℕ × Call)) (db : Db) (t : ℕ)
    (is : List Inbound) (effective : List ℕ) (known : Bool) (j : Inbound)
    → IsKeyed db
    → All (λ c. ignores node i.port c.1 ≡ true) cs
    → last_entry i.port is ≡ some j
    → (lookup (node, i.port) (run cs (set_pending now node i db))
        ≡ some (row_of now pending false i))
      × (lookup
            (node, i.port)
            (reconcile t node is effective known (run cs (set_pending now node i db)))
          ≡ some
              (row_of t (if known && contains j.port effective then running else pending) true j))
unfolding set_pending
run-set_pending now node i cs db t is effective known j d s listed =
    let row = row_of now pending false i in
    let start : lookup (node, i.port) (set_pending now node i db) ≡ some row =
      ground
        (arith, eq_iff node node, lookup-upsert (node, i.port) (node, i.port) row (λ _. row) db) in
    let (keyed, same) = run-ignores cs node i.port _ row (upsert-IsKeyed _ _ _ db d) s refl start in
    (
      same,
      ground (
        arith,
        eq_iff node node,
        lookup-reconcile t node is effective known node i.port (run cs (set_pending now node i db))
            keyed,
      ),
    )
