-- ===== src/Store/AiGate.antt =====
-- The gate before the commands of the assistant, CheckAICommandGate of internal/server/store/ai.go:
-- at most a number of commands in a minute for each node, and a pause after three failures. It
-- reads the table `commands` and keeps its own, `ai_node_state`. The order in which SQLite compares
-- ids is a parameter.
pub mod Pause
mod Tests
use fobe.Prelude.{
  ℕ, zero, suc, ◌+◌, String, List, [], ◌∷◌, Bool, true, false, not, ◌&&◌, ◌||◌, none, some, ltb,
  leb, nat_beq, if◌then◌else◌, ◌==◌, String-HasEq, length, take, keep,
}
use fobe.Prelude.Table.{lookup, put}
use fobe.Store.Commands.{Status, ok, failed, Command, Db}

pub record NodeState : Type 0 where
  pub consecutive_failures : ℕ
  pub paused_until : ℕ
  pub updated_at : ℕ

abbrev pub States : Type 0
States = List (String × NodeState)

-- The first two are the reasons of a refusal.
pub data Answer : Type 0 where
  failure_paused rate_limited allowed : Answer

-- COALESCE(finished_at, created_at)
abbrev pub ended : Command → ℕ
ended c = elim c.finished_at [ none ↦ c.created_at | some at ↦ at ]

-- node_id = ? AND actor = 'ai'
abbrev pub by_ai : String → Command → Bool
by_ai node c = (c.node == node) && (c.about.actor == "ai")

-- status IN ('ok', 'failed')
abbrev pub is_answered : Status → Bool
is_answered ok = true
is_answered failed = true
is_answered _ = false

abbrev pub has_failed : Status → Bool
has_failed failed = true
has_failed _ = false

-- Answered in the failure window of 600 seconds.
abbrev pub is_result : ℕ → Command → Bool
is_result at c = is_answered c.status && leb at (ended c + 600)

-- The rows that the first query reads, before it sorts them.
unfoldable pub ai_results : String → ℕ → Db → Db
ai_results node at db = keep (λ r. by_ai node r.1 && is_result at r.1) db

-- ORDER BY COALESCE(finished_at, created_at) DESC, id DESC
abbrev pub precedes : (String → String → Bool) → String × Command → String × Command → Bool
precedes id_lt (i, c) (j, d) = ltb (ended d) (ended c) || (nat_beq (ended d) (ended c) && id_lt j i)

unfoldable pub insert_result : (String → String → Bool) → String × Command → Db → Db
insert_result id_lt r [] = r ∷ []
insert_result id_lt r (s ∷ rest) =
    let later = insert_result id_lt r rest in if precedes id_lt s r then s ∷ later else r ∷ s ∷ rest

unfoldable pub newest_first : (String → String → Bool) → Db → Db
newest_first id_lt [] = []
newest_first id_lt (r ∷ rest) = insert_result id_lt r (newest_first id_lt rest)

-- How many rows failed before the first that did not.
unfoldable pub leading_failures : Db → ℕ
leading_failures [] = 0
leading_failures ((id, c) ∷ rest) = if has_failed c.status then suc (leading_failures rest) else 0

unfoldable pub consecutive : (String → String → Bool) → String → ℕ → Db → ℕ
consecutive id_lt node at db =
    leading_failures (take 3 (newest_first id_lt (ai_results node at db)))

unfoldable pub paused_until : String → States → ℕ
paused_until node states = elim (lookup node states) [ none ↦ 0 | some s ↦ s.paused_until ]

-- The pause that is over is taken back, and three failures begin another.
unfoldable pub next_pause : ℕ → ℕ → ℕ → ℕ
next_pause at failures until =
    if leb 3 failures
    then at + 300
    else (if not (nat_beq until 0) && leb until at then 0 else until)

abbrev pub count_recent : String → ℕ → Db → ℕ
count_recent node at db = length (keep (λ r. by_ai node r.1 && leb at (r.1.created_at + 60)) db)

-- A limit that is not positive is 10.
abbrev pub limit_or_default : ℕ → ℕ
limit_or_default zero = 10
limit_or_default (suc n) = suc n

abbrev pub node_state : ℕ → ℕ → ℕ → NodeState
node_state failures until at = record {
  consecutive_failures = failures;
  paused_until = until;
  updated_at = at;
}

abbrev pub count_gate : ℕ → ℕ → ℕ → Answer
count_gate limit at recent = if leb (limit_or_default limit) recent then rate_limited else allowed

unfoldable pub check_ai_command_gate :
    (String → String → Bool) → String → ℕ → ℕ → Db → States → Answer × States
check_ai_command_gate id_lt node limit at db states =
    if ltb at (paused_until node states)
    then (failure_paused, states)
    else (let failures = consecutive id_lt node at db in
        let until = next_pause at failures (paused_until node states) in
        (
          if ltb at until then failure_paused else count_gate limit at (count_recent node at db),
          put node (node_state failures until at) states,
        ))

-- A check with the commands as they were then.
pub record Check : Type 0 where
  pub node : String
  pub limit : ℕ
  pub at : ℕ
  pub commands : Db

unfoldable pub run : (String → String → Bool) → List Check → States → States
run id_lt [] states = states
run id_lt (c ∷ cs) states =
    run id_lt cs (check_ai_command_gate id_lt c.node c.limit c.at c.commands states).1
