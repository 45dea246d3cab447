-- ===== src/Store/Inbounds.antt =====
-- The listener lifecycle table `node_singbox_inbounds` (internal/server/store/ops.go): the panel
-- writes its intents, a report of the probe is reconciled with them. Ports are the numbers from 0;
-- the source treats a negative port as it treats 0. The time of a write is an argument.
pub mod Invariant
pub mod Reports
pub mod Intents
mod Tests
use fobe.Prelude.{
  ℕ, String, List, [], ◌∷◌, Bool, true, false, not, ◌&&◌, none, some, contains, if◌then◌else◌, ◌==◌,
  ℕ-HasEq, String-HasEq, pair-HasEq,
}
use fobe.Prelude.Table.{lookup, upsert, put, delete, update}

pub data Status : Type 0 where
  pending running deleting : Status

abbrev pub is_deleting : Status → Bool
is_deleting deleting = true
is_deleting _ = false

abbrev pub is_pending : Status → Bool
is_pending pending = true
is_pending _ = false

-- One listener, as the panel and a report name it.
pub record Inbound : Type 0 where
  pub port : ℕ
  pub kind : String
  pub tag : String
  pub status : Status

-- The columns beside the key (node, port).
pub record Row : Type 0 where
  pub kind : String
  pub tag : String
  pub status : Status
  pub reported : Bool
  pub updated_at : ℕ

abbrev pub Key : Type 0
Key = String × ℕ

abbrev pub Db : Type 0
Db = List (Key × Row)

abbrev pub row_of : ℕ → Status → Bool → Inbound → Row
row_of now status reported i = record {
  kind = i.kind;
  tag = i.tag;
  status = status;
  reported = reported;
  updated_at = now;
}

unfoldable pub set_pending : ℕ → String → Inbound → Db → Db
set_pending now node i = put (node, i.port) (row_of now pending false i)

unfoldable pub drop : String → ℕ → Db → Db
drop node port = delete (λ k _. k == (node, port))

unfoldable pub restore : ℕ → String → Inbound → Db → Db
restore now node i = put (node, i.port) (row_of now i.status true i)

-- The panel's optimistic rows for ports that the document it pushed does not declare.
unfoldable pub prune_optimism : String → List ℕ → Db → Db
prune_optimism node declared =
    delete λ k r.
      (k.0 == node) && (not r.reported && (is_pending r.status && not (contains k.1 declared)))

-- The three statements of the transaction: flip a confirmed row, else drop an unconfirmed one, else
-- insert. Whether a statement met a row is what `RowsAffected` says.
unfoldable pub set_deleting : ℕ → String → Inbound → Db → Db
set_deleting now node i db = elim (lookup (node, i.port) db) [
  | none ↦ put (node, i.port) (row_of now deleting true i) db
  | some r ↦
      if r.reported
      then update (λ k v. (k == (node, i.port)) && v.reported) (λ v. row_of now deleting true i) db
      else delete (λ k v. (k == (node, i.port)) && not v.reported) db
]

-- What one entry of a report makes of a row that is there.
abbrev pub confirm : ℕ → List ℕ → Bool → Inbound → Row → Row
confirm now effective known i r = record {
  kind = i.kind;
  tag = i.tag;
  status =
      if known
      then (if is_deleting r.status
          then deleting
          else if contains i.port effective
          then running
          else pending)
      else r.status;
  reported = true;
  updated_at = now;
}

abbrev pub first_status : List ℕ → Bool → Inbound → Status
first_status effective known i =
    if known then (if contains i.port effective then running else pending) else pending

-- One turn of the loop over a report: an entry without a port is skipped.
unfoldable pub reconcile_row : ℕ → String → List ℕ → Bool → Inbound → Db → Db
reconcile_row now node effective known i db =
    if i.port == 0
    then db
    else upsert (node, i.port) (row_of now (first_status effective known i) true i)
        (confirm now effective known i) db

unfoldable pub reconcile_rows : ℕ → String → List ℕ → Bool → List Inbound → Db → Db
reconcile_rows now node effective known [] db = db
reconcile_rows now node effective known (i ∷ is) db =
    reconcile_rows now node effective known is (reconcile_row now node effective known i db)

-- The ports above 0 of a report.
unfoldable pub reported_ports : List Inbound → List ℕ
reported_ports [] = []
reported_ports (i ∷ is) =
    let rest = reported_ports is in if i.port == 0 then rest else i.port ∷ rest

-- SELECT port … WHERE node_id = ? AND reported = 1, less the ports of the report.
unfoldable pub stale_ports : String → List ℕ → Db → List ℕ
stale_ports node reported [] = []
stale_ports node reported ((k, r) ∷ db) =
    let rest = stale_ports node reported db in
    if (k.0 == node) && (r.reported && not (contains k.1 reported)) then k.1 ∷ rest else rest

unfoldable pub drop_all : String → List ℕ → Db → Db
drop_all node [] db = db
drop_all node (p ∷ ps) db = drop_all node ps (drop node p db)

unfoldable pub reconcile : ℕ → String → List Inbound → List ℕ → Bool → Db → Db
reconcile now node inbounds effective known db =
    let db' = reconcile_rows now node effective known inbounds db in
    drop_all node (stale_ports node (reported_ports inbounds) db') db'

-- A call of the table's writers, with the time at which it is made.
pub data Call : Type 0 where
  adds deletes restores : String → Inbound → Call
  removes : String → ℕ → Call
  prunes : String → List ℕ → Call
  reports : String → List Inbound → List ℕ → Bool → Call

unfoldable pub step : ℕ → Call → Db → Db
step now (adds node i) db = set_pending now node i db
step now (deletes node i) db = set_deleting now node i db
step now (restores node i) db = restore now node i db
step now (removes node port) db = drop node port db
step now (prunes node declared) db = prune_optimism node declared db
step now (reports node is effective known) db = reconcile now node is effective known db

unfoldable pub run : List (ℕ × Call) → Db → Db
run [] db = db
run ((now, c) ∷ cs) db = run cs (step now c db)
