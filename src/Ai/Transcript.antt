-- ===== src/Ai/Transcript.antt =====
-- The rows of an assistant's conversation, table `ai_messages` (internal/server/store/ai.go), as
-- internal/server/httpapi/ai_loop.go writes and repairs them. `blocks` is the decoded envelope of a
-- row, and `none` where the column is blank; the marker of a turn's end has a payload there, which
-- decodes as an envelope without calls and results. JSON and insertion do not fail.
use fobe.Prelude.{
  ℕ, zero, suc, ◌-◌, String, List, [], ◌∷◌, ◌++◌, Bool, true, false, ◌&&◌, ◌||◌, Option, none, some,
  length, contains, ltb, if◌then◌else◌, ◌==◌, String-HasEq, ℕ-HasEq,
}

pub record ToolCall : Type 0 where
  pub id : String
  pub name : String
  pub arguments : String

pub record ToolResult : Type 0 where
  pub call_id : String
  pub is_error : Bool
  pub content : String

pub record Envelope : Type 0 where
  pub raw : String
  pub tool_calls : List ToolCall
  pub tool_results : List ToolResult

pub record Message : Type 0 where
  pub role : String
  pub content : String
  pub blocks : Option Envelope

abbrev pub Transcript : Type 0
Transcript = List Message

abbrev pub loop_history_limit : ℕ
loop_history_limit = 60

abbrev pub no_calls : List ToolCall → Bool
no_calls [] = true
no_calls (c ∷ cs) = false

abbrev pub drop : ℕ → Transcript → Transcript
drop zero rows = rows
drop (suc n) [] = []
drop (suc n) (r ∷ rows) = drop n rows

-- A limit out of range stands for 50.
abbrev pub row_limit : ℕ → ℕ
row_limit limit = if (limit == 0) || ltb 100 limit then 50 else limit

-- The last rows, oldest first.
unfoldable pub list_messages : ℕ → Transcript → Transcript
list_messages limit rows = drop (length rows - row_limit limit) rows

abbrev pub user_row : String → Message
user_row text = record { role = "user"; content = text; blocks = none }

-- A turn with no text, calls or blocks is no message. `is_blank` is strings.TrimSpace(text) == "".
unfoldable pub persist_assistant :
    (String → Bool) → String → String → List ToolCall → Transcript → Transcript
persist_assistant is_blank text raw calls rows =
    if is_blank text && (no_calls calls && (raw == ""))
    then rows
    else rows
      ++ (record {
        role = "assistant";
        content = text;
        blocks = some (record { raw = raw; tool_calls = calls; tool_results = [] });
      }
          ∷ [])

-- The content, which joins the results' for the reader, is left out.
unfoldable pub persist_tool_results : List ToolResult → Transcript → Transcript
persist_tool_results results rows =
    rows
    ++ (record {
      role = "tool";
      content = "";
      blocks = some (record { raw = ""; tool_calls = []; tool_results = results });
    }
        ∷ [])

unfoldable pub persist_turn_end : String → Transcript → Transcript
persist_turn_end reason rows =
    rows
    ++ (record {
      role = "turn_end";
      content = reason;
      blocks = some (record { raw = ""; tool_calls = []; tool_results = [] });
    }
        ∷ [])

abbrev pub call_ids : List ToolResult → List String
call_ids [] = []
call_ids (r ∷ results) = r.call_id ∷ call_ids results

-- The scan over the rows: the answered calls, and those of the newest row that asked for any.
pub record Scan : Type 0 where
  pub answered : List String
  pub open_calls : List ToolCall

abbrev pub scan_row : Message → Scan → Scan
scan_row m s = elim m.blocks [
  | none ↦ s
  | some e ↦
      if m.role == "tool"
      then record s { answered = s.answered ++ call_ids e.tool_results }
      else record s { open_calls = e.tool_calls }
]

unfoldable pub scan : Transcript → Scan → Scan
scan [] s = s
scan (m ∷ rows) s = scan rows (scan_row m s)

abbrev pub start : Scan
start = record { answered = []; open_calls = [] }

abbrev pub not_executed : List String → List ToolCall → List ToolResult
not_executed answered [] = []
not_executed answered (c ∷ calls) =
    let rest = not_executed answered calls in
    if contains c.id answered
    then rest
    else record { call_id = c.id; is_error = true; content = "not executed" } ∷ rest

unfoldable pub close_dangling_tool_calls : Transcript → Transcript
unfolding list_messages scan persist_tool_results
close_dangling_tool_calls rows =
    let s = scan (list_messages loop_history_limit rows) start in
    elim (not_executed s.answered s.open_calls) [
      | [] ↦ rows
      | r ∷ rest ↦ persist_tool_results (r ∷ rest) rows
    ]
