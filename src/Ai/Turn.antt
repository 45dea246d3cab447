-- ===== src/Ai/Turn.antt =====
-- One turn of the assistant (`runAITurn` of internal/server/httpapi/ai_loop.go): calls of the model
-- and of the tools that it asks for, until it asks for none or a limit ends the turn. The world W
-- holds what the clock, the model and the tools are; they are parameters, and so are the parsing of
-- a call in a text and strings.TrimSpace. The database and the random numbers do not fail, and the
-- first event of a turn goes out; the turn that asks for a confirmation in vain is broken off.
pub mod Bounds
pub mod Ending
mod Tests
use fobe.Prelude.{
  ℕ, zero, suc, String, List, [], ◌∷◌, ◌++◌, Bool, true, false, Option, none, some, if◌then◌else◌,
  ◌==◌, String-HasEq,
}
use fobe.Ai.Transcript.{
  ToolCall, ToolResult, Transcript, persist_assistant, persist_tool_results, persist_turn_end,
  close_dangling_tool_calls, user_row,
}
use fobe.Ai.Budget.{TurnBudget, new_turn_budget, may_go_on, admit}

-- How the stream of the model ended.
pub data StreamEnd : Type 0 where
  complete canceled upstream_failed : StreamEnd

pub record Reply : Type 0 where
  pub text : String
  pub raw : String
  pub tool_calls : List ToolCall
  pub stream_end : StreamEnd

-- `is_asked`: did the browser get the event that asks for the confirmation?
pub record ToolOutcome : Type 0 where
  pub needs_confirmation : Bool
  pub is_asked : Bool
  pub status : String
  pub is_error : Bool
  pub content : String

pub record World (W : Type 0) : Type 0 where
  pub clock : W → ℕ
  pub stream : W → Transcript → Reply × W
  pub execute : W → ToolCall → ToolOutcome × W
  pub parse_content : W → String → Option ToolCall × W
  pub is_blank : String → Bool
  pub normalize : String → String

-- What the browser is told.
pub data SseEvent : Type 0 where
  text_delta : String → SseEvent
  tool_result : String → String → SseEvent
  needs_confirm : String → SseEvent
  upstream_error : SseEvent
  turn_end : String → ℕ → SseEvent

-- `executed` is kept for the proofs: the calls handed to the tools, newest first.
pub record Turn (W : Type 0) : Type 0 where
  pub world : W
  pub budget : TurnBudget
  pub rows : Transcript
  pub events : List SseEvent
  pub executed : List ToolCall

-- A round of calls ends the turn, or goes on with its results.
pub data Round (W : Type 0) : Type 0 where
  ends : Turn W → Round W
  goes_on : List ToolResult → Turn W → Round W

abbrev pub refusal : ToolCall → String → ToolResult
refusal call reason = record { call_id = call.id; is_error = true; content = reason }

module _ {W : Type 0} where
  unfoldable pub finish_turn : String → ℕ → Turn W → Turn W
  finish_turn reason changes t = record t {
    rows = persist_turn_end reason t.rows;
    events = t.events ++ (turn_end reason changes ∷ []);
  }

  unfoldable pub refuse : ToolCall → String → List ToolResult → Turn W → Turn W
  unfolding finish_turn
  refuse call reason results t = finish_turn reason t.budget.changes (record t {
    rows = persist_tool_results (results ++ (refusal call reason ∷ [])) t.rows;
    events = t.events ++ (tool_result call.id "refused" ∷ []);
  })

module _ {W : Type 0} (env : World W) where
  -- A call that the budget admits.
  unfoldable pub perform : ToolCall → Turn W → ToolOutcome × Turn W
  perform call t =
      let (outcome, w) = env.execute t.world call in
      (outcome, record t { world = w; executed = call ∷ t.executed })

  abbrev pub result_of : ToolCall → ToolOutcome → ToolResult
  result_of call o = record { call_id = call.id; is_error = o.is_error; content = o.content }

  -- The loop over the calls of one reply.
  unfoldable pub run_calls : List ToolCall → List ToolResult → Turn W → Round W
  unfolding perform refuse finish_turn
  run_calls [] results t = goes_on results t
  run_calls (call ∷ calls) results t =
      let (verdict, budget) = admit env.normalize call t.budget in
      let t₁ : Turn W = record t { budget = budget } in
      elim verdict [
        | some reason ↦ ends (refuse call reason results t₁)
        | none ↦
            let (outcome, t₂) = perform call t₁ in
            elim outcome.needs_confirmation [
              | true ↦ ends (
                  if outcome.is_asked
                  then finish_turn "needs_confirmation" t₂.budget.changes
                      (record t₂ { events = t₂.events ++ (needs_confirm call.id ∷ []) })
                  else t₂)
              | false ↦
                  run_calls calls (results ++ (result_of call outcome ∷ []))
                    (record t₂ { events = t₂.events ++ (tool_result call.id outcome.status ∷ []) })
            ]
      ]

  -- The calls of a reply that has ended well, those in its text where it has none; and the turn.
  unfoldable pub calls_of : Reply → Turn W → List ToolCall × Turn W
  calls_of reply t = elim reply.tool_calls [
    | c ∷ cs ↦ (c ∷ cs, t)
    | [] ↦
        let (found, w) = env.parse_content t.world reply.text in
        elim found [
          | none ↦ ([], record t { world = w })
          | some call ↦ (
            call ∷ [],
            record t {
              world = w;
              rows = persist_assistant env.is_blank reply.text reply.raw (call ∷ []) t.rows;
            },
          )
        ]
  ]

  -- One call of the model, recorded whatever comes of it.
  unfoldable pub ask : Turn W → Reply × Turn W
  ask t =
      let (reply, w) = env.stream t.world t.rows in
      (
        reply,
        record t {
          world = w;
          rows = persist_assistant env.is_blank reply.text reply.raw reply.tool_calls t.rows;
          events = t.events ++ (text_delta reply.text ∷ []);
        },
      )

  -- What follows a call of the model.
  unfoldable pub respond : StreamEnd → List ToolCall × Turn W → Turn W → Round W
  unfolding run_calls finish_turn
  respond canceled found t = ends (finish_turn "stopped" t.budget.changes t)
  respond upstream_failed found t =
      ends
        (finish_turn "upstream_error" 0 (record t { events = t.events ++ (upstream_error ∷ []) }))
  respond complete ([], t') t = ends (finish_turn "completed" t'.budget.changes t')
  respond complete (call ∷ calls, t') t = run_calls (call ∷ calls) [] t'

  -- One iteration of the loop: the turn is over, or another call of the model follows.
  unfoldable pub iterate : Turn W → Round W
  unfolding ask calls_of respond finish_turn
  iterate t = elim (may_go_on (env.clock t.world) t.budget) [
    | false ↦ ends (finish_turn "turn_timeout" t.budget.changes t)
    | true ↦ let (reply, t₁) = ask t in respond reply.stream_end (calls_of reply t₁) t₁
  ]

  unfoldable pub run_loop : ℕ → Turn W → Option (Turn W)
  unfolding iterate
  run_loop zero t = none
  run_loop (suc fuel) t = elim (iterate t) [
    | ends t' ↦ some t'
    | goes_on results t' ↦ run_loop fuel (record t' { rows = persist_tool_results results t'.rows })
  ]

  abbrev pub begin_turn : Transcript → W → Turn W
  begin_turn rows w = record {
    world = w;
    budget = new_turn_budget (env.clock w);
    rows = rows;
    events = [];
    executed = [];
  }

  unfoldable pub run_ai_turn : ℕ → Transcript → W → Option (Turn W)
  unfolding run_loop
  run_ai_turn fuel rows w = run_loop fuel (begin_turn rows w)

  -- A new message of the operator, which first repairs the transcript.
  unfoldable pub chat : ℕ → String → Transcript → W → Option (Turn W)
  unfolding run_ai_turn
  chat fuel message rows w =
      let repaired = close_dangling_tool_calls rows in
      run_ai_turn fuel (if message == "" then repaired else repaired ++ (user_row message ∷ [])) w

  -- The decision on a confirmation, as the result of its call, and the turn that follows.
  unfoldable pub continue_turn : ℕ → ToolResult → Transcript → W → Option (Turn W)
  unfolding run_ai_turn
  continue_turn fuel result rows w = run_ai_turn fuel (persist_tool_results (result ∷ []) rows) w
