-- ===== src/Ai/Turn/Ending.antt =====
-- How turns end (internal/server/httpapi/ai_loop.go): with a marker, which hides what the turn left
-- unanswered from the repair that runs before the next one.
use fobe.Prelude.{
  ℕ, zero, suc, ◌-◌, ◌≤◌, String, List, [], ◌∷◌, ◌++◌, true, some, length, String-HasEq, ◌≡◌, refl,
  ap, ◌∙◌, arith, length-append, Bool-cases, Option-cases, inl, inr, ◌⊎◌,
}
use fobe.Ai.Transcript.{
  ToolCall, ToolResult, Message, Transcript, drop, loop_history_limit, list_messages,
  persist_turn_end, scan, scan_row, start, Scan, close_dangling_tool_calls,
}
use fobe.Ai.Budget.{admit, may_go_on}
use fobe.Ai.Turn.{
  World, StreamEnd, complete, canceled, upstream_failed, respond, Turn, Round, ends, goes_on,
  finish_turn, refuse, perform, run_calls, calls_of, ask, iterate, run_loop, run_ai_turn,
  begin_turn,
}

-- The last row is the marker of a turn's end.
abbrev pub EndsTurn : Transcript → Type 0
EndsTurn rows = (before : Transcript) × (reason : String) × (rows ≡ persist_turn_end reason before)

drop-short :
    (n : ℕ) (rows : Transcript) (m : Message)
    → n ≤ length rows
    → drop n (rows ++ (m ∷ [])) ≡ drop n rows ++ (m ∷ [])
drop-short zero rows m h = refl
drop-short (suc n) [] m h = absurd (omega arith)
drop-short (suc n) (r ∷ rows) m h = drop-short n rows m (omega arith)

list_messages-append :
    (rows : Transcript) (m : Message)
    → list_messages loop_history_limit (rows ++ (m ∷ [])) ≡ drop (length rows - 59) rows ++ (m ∷ [])
unfolding list_messages
list_messages-append rows m =
    let count : length (rows ++ (m ∷ [])) - 60 ≡ length rows - 59 =
      omega (arith, length-append rows (m ∷ [])) in
    rw count (drop-short (length rows - 59) rows m (omega arith))

scan-append :
    (rows : Transcript) (m : Message) (s : Scan)
    → scan (rows ++ (m ∷ [])) s ≡ scan_row m (scan rows s)
unfolding scan
scan-append [] m s = refl
scan-append (r ∷ rows) m s = scan-append rows m (scan_row r s)

open_calls-persist_turn_end :
    (reason : String) (rows : Transcript)
    → (scan (list_messages loop_history_limit (persist_turn_end reason rows)) start).open_calls ≡ []
unfolding persist_turn_end
open_calls-persist_turn_end reason rows =
    let marker : Message = record {
      role = "turn_end";
      content = reason;
      blocks = some (record { raw = ""; tool_calls = []; tool_results = [] });
    } in
    ap (λ w. (scan w start).open_calls) (list_messages-append rows marker)
    ∙ ap (λ s. s.open_calls) (scan-append (drop (length rows - 59) rows) marker start)

close_dangling-persist_turn_end :
    (reason : String) (rows : Transcript)
    → close_dangling_tool_calls (persist_turn_end reason rows) ≡ persist_turn_end reason rows
unfolding close_dangling_tool_calls persist_turn_end
close_dangling-persist_turn_end reason rows =
    rw (open_calls-persist_turn_end reason rows, close_dangling_tool_calls) refl

pub Round-cases :
    {W : Type 0} (r : Round W)
    → ((t : Turn W) × (r ≡ ends t))
      ⊎ ((results : List ToolResult) × (t : Turn W) × (r ≡ goes_on results t))
Round-cases (ends t) = inl (t, refl)
Round-cases (goes_on results t) = inr (results, t, refl)

module _ {W : Type 0} (env : World W)
    (asks : (w : W) (call : ToolCall) → (env.execute w call).0.is_asked ≡ true) where
  -- The turn that a round ends, if it does, ends with the marker.
  abbrev Marked : Round W → Type 0
  Marked (ends t) = EndsTurn t.rows
  Marked (goes_on results t) = Unit

  run_calls-Marked :
      (calls : List ToolCall) (results : List ToolResult) (t : Turn W)
      → Marked (run_calls env calls results t)
  unfolding run_calls refuse finish_turn
  run_calls-Marked [] results t = tt
  run_calls-Marked (call ∷ calls) results t =
      let (verdict, budget) = admit env.normalize call t.budget in
      let t₁ : Turn W = record t { budget = budget } in
      let (outcome, t₂) = perform env call t₁ in
      elim (Option-cases verdict) [
        | inr (reason, e) ↦ rw (e, run_calls) (_, reason, refl)
        | inl e ↦ elim (Bool-cases outcome.needs_confirmation) [
          | inl y ↦
              rw (e, run_calls) (rw y (rw (asks t₁.world call) (_, "needs_confirmation", refl)))
          | inr y ↦ rw (e, run_calls) (rw y (run_calls-Marked calls _ _))
        ]
      ]

  respond-Marked :
      (e : StreamEnd) (found : List ToolCall × Turn W) (t : Turn W) → Marked (respond env e found t)
  unfolding respond finish_turn
  respond-Marked canceled found t = (_, "stopped", refl)
  respond-Marked upstream_failed found t = (_, "upstream_error", refl)
  respond-Marked complete ([], t') t = (_, "completed", refl)
  respond-Marked complete (call ∷ calls, t') t = run_calls-Marked (call ∷ calls) [] t'

  iterate-Marked : (t : Turn W) → Marked (iterate env t)
  unfolding iterate finish_turn
  iterate-Marked t = elim (Bool-cases (may_go_on (env.clock t.world) t.budget)) [
    | inr y ↦ rw (y, iterate) (_, "turn_timeout", refl)
    | inl y ↦
        let (reply, t₁) = ask env t in
        rw (y, iterate) (respond-Marked reply.stream_end (calls_of env reply t₁) t₁)
  ]

  run_loop-EndsTurn : (fuel : ℕ) (t t' : Turn W) → run_loop env fuel t ≡ some t' → EndsTurn t'.rows
  unfolding run_loop
  run_loop-EndsTurn zero t t' h = ground arith
  run_loop-EndsTurn (suc fuel) t t' h = elim (Round-cases (iterate env t)) [
    | inl (t₁, e) ↦
        let same : t₁ ≡ t' = (let k : some t₁ ≡ some t' = rw (e, run_loop) at h in cc) in
        let marked : Marked (ends t₁) = rw e at (iterate-Marked t) in rw same at marked
    | inr (results, t₁, e) ↦ run_loop-EndsTurn fuel _ t' (rw (e, run_loop) at h)
  ]

  -- While the browser gets every request for a confirmation, the repair of unanswered calls
  -- leaves the transcript of a turn that has ended as it is: it closes none, not even a call
  -- that waits for a confirmation.
  pub close_dangling-run_ai_turn :
      (fuel : ℕ) (rows : Transcript) (w : W) (t : Turn W)
      → run_ai_turn env fuel rows w ≡ some t
      → close_dangling_tool_calls t.rows ≡ t.rows
  unfolding run_ai_turn
  close_dangling-run_ai_turn fuel rows w t h =
      let (before, reason, e) = run_loop-EndsTurn fuel (begin_turn env rows w) t h in
      rw e (close_dangling-persist_turn_end reason before)
