-- ===== src/Ai/Budget.antt =====
-- The limits of one turn (internal/server/httpapi/ai_turn.go). The canonical form of a call's
-- arguments (normalizeToolArgs, over encoding/json) is a parameter.
use fobe.Prelude.{
  ℕ, ◌+◌, String, List, [], Bool, true, false, not, Option, none, some, ltb, leb, if◌then◌else◌,
  ◌==◌, String-HasEq, pair-HasEq,
}
use fobe.Prelude.Table.{lookup, put}
use fobe.Ai.Transcript.{ToolCall}

abbrev pub turn_change_budget : ℕ
turn_change_budget = 10

-- Ten minutes, in seconds.
abbrev pub turn_deadline : ℕ
turn_deadline = 600

abbrev pub turn_read_limit : ℕ
turn_read_limit = 10

pub record TurnBudget : Type 0 where
  pub change_budget : ℕ
  pub changes : ℕ
  pub deadline : ℕ
  pub calls : List ((String × String) × ℕ)
  pub read_streak : ℕ

unfoldable pub new_turn_budget : ℕ → TurnBudget
new_turn_budget now = record {
  change_budget = turn_change_budget;
  changes = 0;
  deadline = now + turn_deadline;
  calls = [];
  read_streak = 0;
}

abbrev pub reads : String → Bool
reads tool = tool == "read_terminal"

-- An unknown tool counts as a change.
abbrev pub is_change : String → Bool
is_change tool = not (reads tool)

abbrev pub may_go_on : ℕ → TurnBudget → Bool
may_go_on now b = not (ltb b.deadline now)

abbrev pub count_of : String × String → List ((String × String) × ℕ) → ℕ
count_of key calls = elim (lookup key calls) [ none ↦ 0 | some n ↦ n ]

module _ (normalize : String → String) where
  unfoldable pub note_call : ToolCall → TurnBudget → Bool × TurnBudget
  note_call call b =
      let key : String × String = (call.name, normalize call.arguments) in
      let count = count_of key b.calls + 1 in
      (
        leb count 1,
        record b {
          read_streak = if reads call.name then b.read_streak else 0;
          calls = put key count b.calls;
        },
      )

unfoldable pub note_read : TurnBudget → Bool × TurnBudget
note_read b =
    (leb (b.read_streak + 1) turn_read_limit, record b { read_streak = b.read_streak + 1 })

unfoldable pub note_change : TurnBudget → Bool × TurnBudget
note_change b =
    if leb b.change_budget b.changes
    then (false, b)
    else (true, record b { changes = b.changes + 1 })

abbrev verdict_of : String → Bool × TurnBudget → Option String × TurnBudget
verdict_of reason (ok, b) = ((if ok then none else some reason), b)

-- What the loop makes of a call that changes something, once it is noted.
unfoldable pub admit_change : Bool × TurnBudget → Option String × TurnBudget
unfolding note_change
admit_change (false, b) = (some "repeat_call", b)
admit_change (true, b) = verdict_of "turn_budget" (note_change b)

-- What the loop makes of a call before it runs: the reason of a refusal, if any.
unfoldable pub admit : (String → String) → ToolCall → TurnBudget → Option String × TurnBudget
unfolding note_call note_read admit_change
admit normalize call b =
    if reads call.name
    then verdict_of "read_limit" (note_read b)
    else admit_change (note_call normalize call b)
