-- ===== src/Store/Commands.antt =====
-- The command queue, table `commands` (internal/server/store/ops.go): a command waits for its
-- probe, is claimed, and ends with the probe's answer or by its time to live.
pub mod Lifecycle
pub mod Claims
mod Tests
use fobe.Prelude.{
  ℕ, suc, ◌+◌, String, List, [], ◌∷◌, ◌++◌, Bool, true, false, ◌&&◌, Option, none, some, ltb, leb,
  if◌then◌else◌, ◌==◌, String-HasEq,
}
use fobe.Prelude.Table.{lookup, update}

pub data Status : Type 0 where
  pending sent ok failed timeout : Status

abbrev pub is_pending : Status → Bool
is_pending pending = true
is_pending _ = false

-- status IN ('pending','sent')
abbrev pub is_unfinished : Status → Bool
is_unfinished pending = true
is_unfinished sent = true
is_unfinished _ = false

pub record Meta : Type 0 where
  pub actor : String
  pub ai_session_id : String
  pub reason : String
  pub risk : String

-- The columns beside the key `id`.
pub record Command : Type 0 where
  pub node : String
  pub kind : String
  pub payload : String
  pub status : Status
  pub created_at : ℕ
  pub sent_at : Option ℕ
  pub finished_at : Option ℕ
  pub result : String
  pub ttl_seconds : ℕ
  pub about : Meta

abbrev pub Db : Type 0
Db = List (String × Command)

abbrev pub new_command : ℕ → String → String → String → ℕ → Meta → Command
new_command now node kind payload ttl about = record {
  node = node;
  kind = kind;
  payload = payload;
  status = pending;
  created_at = now;
  sent_at = none;
  finished_at = none;
  result = "";
  ttl_seconds = ttl;
  about = about;
}

-- The INSERT is refused where the id is taken.
unfoldable pub create_command : ℕ → String → String → String → String → ℕ → Meta → Db → Option Db
create_command now id node kind payload ttl about db = elim (lookup id db) [
  | none ↦ some (db ++ ((id, new_command now node kind payload ttl about) ∷ []))
  | some c ↦ none
]

abbrev pub waits_for : String → Command → Bool
waits_for node c = (c.node == node) && is_pending c.status

-- The first of two candidates in the order of creation.
abbrev pub earlier : String × Command → Option (String × Command) → String × Command
earlier x none = x
earlier (i, c) (some (j, d)) = if leb c.created_at d.created_at then (i, c) else (j, d)

-- SELECT … WHERE node_id = ? AND status = 'pending' ORDER BY created_at LIMIT 1
unfoldable pub oldest_pending : String → Db → Option (String × Command)
oldest_pending node [] = none
oldest_pending node ((id, c) ∷ db) =
    let rest = oldest_pending node db in
    if waits_for node c then some (earlier (id, c) rest) else rest

abbrev pub claim : ℕ → Command → Command
claim now c = record c { status = sent; sent_at = some now }

-- The command as it was read, and the table with it claimed.
unfoldable pub next_pending_command : ℕ → String → Db → Option ((String × Command) × Db)
next_pending_command now node db = elim (oldest_pending node db) [
  | none ↦ none
  | some (id, c) ↦ some ((id, c), update (λ k _. k == id) (claim now) db)
]

abbrev pub answers : String → String → String → Command → Bool
answers node id k c = (k == id) && ((c.node == node) && is_unfinished c.status)

abbrev pub finish : ℕ → Status → String → Command → Command
finish now status result c = record c { status = status; result = result; finished_at = some now }

-- Whether the answer met a row, and the table.
unfoldable pub finish_command : ℕ → String → String → Status → String → Db → Bool × Db
finish_command now node id status result db = (
  elim (lookup id db) [ none ↦ false | some c ↦ answers node id id c ],
  update (answers node id) (finish now status result) db,
)

abbrev pub is_stale : ℕ → Command → Bool
is_stale now c = is_unfinished c.status && ltb (c.created_at + c.ttl_seconds) now

abbrev pub expire : ℕ → Command → Command
expire now c = record c { status = timeout; finished_at = some now }

abbrev count_stale : ℕ → Db → ℕ
count_stale now [] = 0
count_stale now ((id, c) ∷ db) =
    if is_stale now c then suc (count_stale now db) else count_stale now db

unfoldable pub timeout_stale_commands : ℕ → Db → ℕ × Db
timeout_stale_commands now db = (count_stale now db, update (λ _ c. is_stale now c) (expire now) db)

pub data Call : Type 0 where
  claims : String → Call
  finishes : String → String → Bool → String → Call
  expires : Call

-- `onCmdResult` answers with `ok` or `failed`.
unfoldable pub step : ℕ → Call → Db → Db
step now (claims node) db = elim (next_pending_command now node db) [ none ↦ db | some r ↦ r.1 ]
step now (finishes node id good result) db =
    (finish_command now node id (if good then ok else failed) result db).1
step now expires db = (timeout_stale_commands now db).1

unfoldable pub run : List (ℕ × Call) → Db → Db
run [] db = db
run ((now, c) ∷ cs) db = run cs (step now c db)
