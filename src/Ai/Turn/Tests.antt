-- ===== src/Ai/Turn/Tests.antt =====
-- Turns of the assistant at a concrete world: the number of the model's calls so far.
use fobe.Prelude.{
  ℕ, suc, [], ◌∷◌, ◌≤◌, ◌≡◌, refl, false, true, none, some, length, if◌then◌else◌, ◌==◌, ℕ-HasEq,
  String-HasEq,
}
use fobe.Prelude.Table.{lookup, upsert}
use fobe.Ai.Transcript.{
  ToolCall, close_dangling_tool_calls, list_messages, scan, persist_assistant, persist_turn_end,
  user_row,
}
use fobe.Ai.Budget.{new_turn_budget, admit, turn_change_budget}
use fobe.Ai.Turn.{
  World, Reply, complete, Turn, run_ai_turn, tool_result, needs_confirm, text_delta, turn_end, chat,
}
use fobe.Ai.Turn.Ending.{close_dangling-run_ai_turn}
use fobe.Ai.Turn.Bounds.{run_ai_turn-IsBounded, changing}

abbrev look : ToolCall
look = record { id = "c1"; name = "read_terminal"; arguments = "{}" }

abbrev restart : ToolCall
restart = record { id = "c2"; name = "service_action"; arguments = "{restart}" }

abbrev asking : Reply
asking = record {
  text = "on it";
  raw = "";
  tool_calls = look ∷ restart ∷ [];
  stream_end = complete;
}

abbrev silent : Reply
silent = record { text = "done"; raw = ""; tool_calls = []; stream_end = complete }

-- The model asks for a reading and a restart, which wants a confirmation.
abbrev panel : World ℕ
panel = record {
  clock = λ w. w;
  stream = λ w rows. ((if w == 0 then asking else silent), suc w);
  execute = λ w call. (
    record {
      needs_confirmation = call.name == "service_action";
      is_asked = true;
      status = "ok";
      is_error = false;
      content = "$ ";
    },
    w,
  );
  parse_content = λ w text. (none, w);
  is_blank = λ text. text == "";
  normalize = λ arguments. arguments;
}

abbrev asked : Turn ℕ
asked = record {
  world = 1;
  budget = record {
    change_budget = 10;
    changes = 1;
    deadline = 600;
    calls = (("service_action", "{restart}"), 1) ∷ [];
    read_streak = 0;
  };
  rows = persist_turn_end "needs_confirmation" (
      persist_assistant (λ text. text == "") "on it" "" (look ∷ restart ∷ [])
        (user_row "restart it" ∷ []));
  events =
      text_delta "on it"
      ∷ tool_result "c1" "ok"
      ∷ needs_confirm "c2"
      ∷ turn_end "needs_confirmation" 1
      ∷ [];
  executed = restart ∷ look ∷ [];
}

chat_example : chat panel 5 "restart it" [] 0 ≡ some asked
unfolding chat admit close_dangling_tool_calls list_messages scan new_turn_budget lookup upsert
chat_example = refl

-- Neither call has a result, and the repair adds none.
close_dangling-run_ai_turn_example : close_dangling_tool_calls asked.rows ≡ asked.rows
unfolding run_ai_turn admit new_turn_budget lookup upsert
close_dangling-run_ai_turn_example =
    close_dangling-run_ai_turn panel (λ w call. refl) 5 (user_row "restart it" ∷ []) 0 asked refl

run_ai_turn-IsBounded_example :
    (t : Turn ℕ) × (run_ai_turn panel 121 (user_row "restart it" ∷ []) 0 ≡ some t)
    × (length t.executed ≤ 120)
    × (changing t.executed ≤ turn_change_budget)
run_ai_turn-IsBounded_example = run_ai_turn-IsBounded panel (user_row "restart it" ∷ []) 0
