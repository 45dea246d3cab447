-- ===== src/Store/Alerts.antt =====
-- The table `alerts` (internal/server/store/ops.go): alerts are raised with a dedupe window, leave
-- the delivery queue when they are delivered, and come back to it once when they recover. The rows
-- stand newest first; ids are counted by the table and never used again.
pub mod Queue
pub mod Dedupe
mod Tests
use fobe.Prelude.{
  ℕ, ◌+◌, String, List, [], ◌∷◌, ◌++◌, Bool, true, false, ◌&&◌, Option, none, some, ltb, keep,
  first_of?, if◌then◌else◌, ◌==◌, ℕ-HasEq, String-HasEq, map, take,
}

pub record Alert : Type 0 where
  pub id : ℕ
  pub kind : String
  pub node : String
  pub payload : String
  pub created_at : ℕ
  pub delivered_at : Option ℕ
  pub recovered_at : Option ℕ

pub record Db : Type 0 where
  pub last_id : ℕ
  pub rows : List Alert

abbrev pub is_null : Option ℕ → Bool
is_null none = true
is_null (some t) = false

-- kind = ? AND node_id = ? AND recovered_at IS NULL
abbrev pub is_open : String → String → Alert → Bool
is_open kind node a = (a.kind == kind) && ((a.node == node) && is_null a.recovered_at)

abbrev pub fresh_alert : ℕ → String → String → String → ℕ → Alert
fresh_alert id kind node payload now = record {
  id = id;
  kind = kind;
  node = node;
  payload = payload;
  created_at = now;
  delivered_at = none;
  recovered_at = none;
}

unfoldable pub insert : ℕ → String → String → String → Db → Db
insert now kind node payload db = record {
  last_id = db.last_id + 1;
  rows = fresh_alert (db.last_id + 1) kind node payload now ∷ db.rows;
}

-- The open alert that a window of `window` seconds before `now` holds, newest first.
-- `created_at > now - window` is written with no subtraction.
unfoldable pub duplicate : ℕ → ℕ → String → String → List Alert → Option Alert
duplicate now window kind node =
    first_of? (λ a. is_open kind node a && ltb now (a.created_at + window))

-- The id of the alert, whether it is new, and the table.
unfoldable pub create_alert : ℕ → String → String → String → ℕ → Db → ℕ × Bool × Db
create_alert now kind node payload window db =
    if ltb 0 window
    then elim (duplicate now window kind node db.rows) [
      | some a ↦ (a.id, false, db)
      | none ↦ (db.last_id + 1, true, insert now kind node payload db)
    ]
    else (db.last_id + 1, true, insert now kind node payload db)

unfoldable pub mark_delivered : ℕ → ℕ → Db → Db
mark_delivered now id db = record db {
  rows = map (λ a. if a.id == id then record a { delivered_at = some now } else a) db.rows;
}

unfoldable pub recover_alert : ℕ → String → String → Db → Db
recover_alert now kind node db = record db {
  rows =
      map
        (λ a.
          if is_open kind node a
          then record a { delivered_at = none; recovered_at = some now }
          else a)
        db.rows;
}

unfoldable pub open_alert : String → String → Db → Option Alert
open_alert kind node db = first_of? (is_open kind node) db.rows

unfoldable pub list_alerts : ℕ → Db → List Alert
list_alerts limit db = take limit db.rows

abbrev pub oldest_first : List Alert → List Alert
oldest_first [] = []
oldest_first (a ∷ rest) = oldest_first rest ++ (a ∷ [])

unfoldable pub undelivered : Db → List Alert
undelivered db = oldest_first (keep (λ a. is_null a.delivered_at) db.rows)

abbrev pub empty : Db
empty = record { last_id = 0; rows = [] }

pub data Call : Type 0 where
  creates : String → String → String → ℕ → Call
  delivers : ℕ → Call
  recovers : String → String → Call

unfoldable pub step : ℕ → Call → Db → Db
step now (creates kind node payload window) db = (create_alert now kind node payload window db).2
step now (delivers id) db = mark_delivered now id db
step now (recovers kind node) db = recover_alert now kind node db

unfoldable pub run : List (ℕ × Call) → Db → Db
run [] db = db
run ((now, c) ∷ cs) db = run cs (step now c db)
