-- ===== src/Ai/Turn/Bounds.antt =====
-- What one turn may do (internal/server/httpapi/ai_turn.go and ai_loop.go), whatever the clock, the
-- model and the tools do.
use fobe.Prelude.{
  ℕ, zero, suc, ◌+◌, ◌-◌, ◌*◌, ◌≤◌, ◌<◌, String, List, [], ◌∷◌, ◌++◌, Bool, true, false, not, none,
  some, length, keep, leb, if◌then◌else◌, String-HasEq, pair-HasEq, ◌≡◌, refl, ap, arith,
  Bool-cases, Option-cases, inl, inr,
}
use fobe.Ai.Transcript.{ToolCall, ToolResult, Transcript, persist_tool_results}
use fobe.Ai.Budget.{
  TurnBudget, new_turn_budget, turn_change_budget, turn_read_limit, reads, is_change, may_go_on,
  note_call, note_read, note_change, admit, admit_change,
}
use fobe.Ai.Turn.{
  World, Reply, StreamEnd, complete, canceled, upstream_failed, respond, Turn, Round, ends, goes_on,
  finish_turn, refuse, perform, run_calls, calls_of, ask, iterate, run_loop, run_ai_turn,
  begin_turn, tool_result,
}
use fobe.Ai.Turn.Ending.{Round-cases}

abbrev pub changing : List ToolCall → ℕ
changing calls = length (keep (λ c. is_change c.name) calls)

-- The calls that the limits still let through.
abbrev credit : TurnBudget → ℕ
credit b = (b.change_budget - b.changes) * 11 + (turn_read_limit - b.read_streak)

record IsWithin (b : TurnBudget) : Type 0 where
  full : b.change_budget ≡ turn_change_budget
  changes : b.changes ≤ turn_change_budget

-- An admitted call uses up some credit, and is counted if it changes anything.
record IsSpent (call : ToolCall) (b b' : TurnBudget) : Type 0 where
  within : IsWithin b'
  credit_falls : credit b' < credit b
  counted : b'.changes ≡ b.changes + changing (call ∷ [])

admit_change-IsSpent :
    (call : ToolCall) (ok : Bool) (b b' : TurnBudget)
    → IsWithin b
    → is_change call.name ≡ true
    → b'.change_budget ≡ b.change_budget
    → b'.changes ≡ b.changes
    → b'.read_streak ≡ 0
    → (admit_change (ok, b')).0 ≡ none
    → IsSpent call b (admit_change (ok, b')).1
unfolding admit_change note_change
admit_change-IsSpent call false b b' h y x c r e = ground arith
admit_change-IsSpent call true b b' h y x c r e =
    elim (Bool-cases (leb b'.change_budget b'.changes)) [
      | inl z ↦ absurd (let k = rw (z, admit_change, note_change) at e in ground arith)
      | inr z ↦
          rw (z, admit_change, note_change)
            (record {
              within = record { full = omega arith; changes = ground arith };
              credit_falls = ground arith;
              counted = ground arith;
            })
    ]

if_false : {A : Type 0} (c : Bool) (x y : A) → c ≡ false → (if c then x else y) ≡ y
if_false c x y h = rw h refl

note_call-IsSpent :
    (normalize : String → String) (call : ToolCall) (b : TurnBudget)
    → IsWithin b
    → reads call.name ≡ false
    → (admit_change (note_call normalize call b)).0 ≡ none
    → IsSpent call b (admit_change (note_call normalize call b)).1
unfolding note_call
note_call-IsSpent normalize call b h y e =
    admit_change-IsSpent call _ b (note_call normalize call b).1 h (ap not y) refl refl (rw y refl)
      e

admit-IsSpent :
    (normalize : String → String) (call : ToolCall) (b : TurnBudget)
    → IsWithin b
    → (admit normalize call b).0 ≡ none
    → IsSpent call b (admit normalize call b).1
unfolding admit note_read
admit-IsSpent normalize call b h e = elim (Bool-cases (reads call.name)) [
  | inl y ↦
      let free : b.read_streak < 10 = (let k = rw (y, admit) at e in ground arith) in
      rw (y, admit)
        (record {
          within = record { full = h.full; changes = h.changes };
          credit_falls = omega arith;
          counted = rw y (omega arith);
        })
  | inr y ↦
      let same : admit normalize call b ≡ admit_change (note_call normalize call b) =
        if_false (reads call.name) _ _ y in
      rw same (note_call-IsSpent normalize call b h y (rw same at e))
]

-- What an ended turn has done.
record IsBounded {W : Type 0} (t : Turn W) : Type 0 where
  calls : length t.executed ≤ 120
  changes : changing t.executed ≤ turn_change_budget

-- Between rounds: each call was paid for, and each change is counted.
record IsPaid {W : Type 0} (t : Turn W) : Type 0 where
  within : IsWithin t.budget
  paid : credit t.budget + length t.executed ≤ 120
  counted : t.budget.changes ≡ changing t.executed

IsPaid-IsBounded : {W : Type 0} (t t' : Turn W) → IsPaid t → t'.executed ≡ t.executed → IsBounded t'
IsPaid-IsBounded t t' h e = record {
  calls = rw e (omega (arith, h.paid));
  changes = rw e (omega (arith, h.counted, h.within.changes));
}

IsPaid-same :
    {W : Type 0} (t t' : Turn W)
    → IsPaid t
    → t'.budget ≡ t.budget
    → t'.executed ≡ t.executed
    → IsPaid t'
IsPaid-same t t' h e e' = record {
  within = rw e h.within;
  paid = rw (e, e') h.paid;
  counted = rw (e, e') h.counted;
}

-- The turn with one more call that is admitted.
abbrev with_call : {W : Type 0} → ToolCall → TurnBudget → W → Turn W → Turn W
with_call call b w t = record t { budget = b; world = w; executed = call ∷ t.executed }

changing-cons :
    (call : ToolCall) (calls : List ToolCall)
    → changing (call ∷ calls) ≡ changing calls + changing (call ∷ [])
changing-cons call calls = elim (Bool-cases (is_change call.name)) [
  | inl y ↦ rw y (omega arith)
  | inr y ↦ rw y (omega arith)
]

IsPaid-with_call :
    {W : Type 0} (call : ToolCall) (b : TurnBudget) (w : W) (t : Turn W)
    → IsPaid t
    → IsSpent call t.budget b
    → IsPaid (with_call call b w t)
IsPaid-with_call call b w t h s = record {
  within = s.within;
  paid = omega (arith, h.paid, s.credit_falls);
  counted = omega (arith, changing-cons call t.executed, s.counted, h.counted);
}

-- An ended turn, or one that goes on after at least `least` calls.
abbrev Spent : {W : Type 0} → ℕ → Turn W → Round W → Type 0
Spent least t (ends t') = IsBounded t'
Spent least t (goes_on results t') = IsPaid t' × (credit t'.budget + least ≤ credit t.budget)

Spent-weaken :
    {W : Type 0} (least least' : ℕ) (t t' : Turn W) (r : Round W)
    → credit t'.budget + least ≤ credit t.budget + least'
    → Spent least' t' r
    → Spent least t r
Spent-weaken least least' t t' (ends t₁) h s = s
Spent-weaken least least' t t' (goes_on results t₁) h (paid, falls) = (paid, omega arith)

module _ {W : Type 0} (env : World W) where
  run_calls-Spent :
      (calls : List ToolCall) (results : List ToolResult) (t : Turn W)
      → IsPaid t
      → Spent (length calls) t (run_calls env calls results t)
  unfolding run_calls perform refuse finish_turn
  run_calls-Spent [] results t h = (h, omega arith)
  run_calls-Spent (call ∷ calls) results t h =
      let (verdict, budget) = admit env.normalize call t.budget in
      let t₁ : Turn W = record t { budget = budget } in
      let (outcome, t₂) = perform env call t₁ in
      let paid : verdict ≡ none → IsPaid t₂ = λ e.
        IsPaid-with_call call budget t₂.world t h
          (admit-IsSpent env.normalize call t.budget h.within e) in
      elim (Option-cases verdict) [
        | inr (reason, e) ↦ rw (e, run_calls) (IsPaid-IsBounded t _ h refl)
        | inl e ↦ elim (Bool-cases outcome.needs_confirmation) [
          | inl y ↦ elim (Bool-cases outcome.is_asked) [
            | inl z ↦ rw (e, run_calls) (rw y (rw z (IsPaid-IsBounded _ _ (paid e) refl)))
            | inr z ↦ rw (e, run_calls) (rw y (rw z (IsPaid-IsBounded _ _ (paid e) refl)))
          ]
          | inr y ↦
              rw (e, run_calls)
                (rw y (
                  let t₃ : Turn W = record t₂ {
                    events = t₂.events ++ (tool_result call.id outcome.status ∷ []);
                  } in
                  let spent = admit-IsSpent env.normalize call t.budget h.within e in
                  Spent-weaken (suc (length calls)) (length calls) t t₃ _
                    (omega (arith, spent.credit_falls))
                    (run_calls-Spent calls _ t₃ (IsPaid-same t₂ t₃ (paid e) refl refl))))
        ]
      ]

  respond-Spent :
      (e : StreamEnd) (found : List ToolCall × Turn W) (t : Turn W)
      → IsPaid t
      → IsPaid found.1
      → credit found.1.budget ≤ credit t.budget
      → Spent 1 t (respond env e found t)
  unfolding respond finish_turn
  respond-Spent canceled found t h h' k = IsPaid-IsBounded t _ h refl
  respond-Spent upstream_failed found t h h' k = IsPaid-IsBounded t _ h refl
  respond-Spent complete ([], t') t h h' k = IsPaid-IsBounded t' _ h' refl
  respond-Spent complete (call ∷ calls, t') t h h' k =
      Spent-weaken 1 (suc (length calls)) t t' _ (omega arith)
        (run_calls-Spent (call ∷ calls) [] t' h')

  -- Reading the calls of a reply spends nothing.
  calls_of-lem :
      (reply : Reply) (t : Turn W)
      → ((calls_of env reply t).1.budget ≡ t.budget)
        × ((calls_of env reply t).1.executed ≡ t.executed)
  unfolding calls_of
  calls_of-lem reply t = ground arith

  iterate-Spent : (t : Turn W) → IsPaid t → Spent 1 t (iterate env t)
  unfolding iterate finish_turn ask
  iterate-Spent t h = elim (Bool-cases (may_go_on (env.clock t.world) t.budget)) [
    | inr y ↦ rw (y, iterate) (IsPaid-IsBounded t _ h refl)
    | inl y ↦
        let (reply, t₁) = ask env t in
        let found = calls_of env reply t₁ in
        let (same_budget, same_executed) = calls_of-lem reply t₁ in
        rw (y, iterate)
          (respond-Spent reply.stream_end found t₁ (IsPaid-same t t₁ h refl refl)
            (IsPaid-same t found.1 h same_budget same_executed) (rw same_budget (omega arith)))
  ]

  run_loop-IsBounded :
      (fuel : ℕ) (t : Turn W)
      → IsPaid t
      → credit t.budget < fuel
      → (t' : Turn W) × (run_loop env fuel t ≡ some t') × IsBounded t'
  unfolding run_loop
  run_loop-IsBounded zero t h k = absurd (omega arith)
  run_loop-IsBounded (suc fuel) t h k =
      let spent = iterate-Spent t h in
      elim (Round-cases (iterate env t)) [
        | inl (t₁, e) ↦ let done : IsBounded t₁ = rw e at spent in (t₁, rw (e, run_loop) refl, done)
        | inr (results, t₁, e) ↦
            let (paid, falls) : IsPaid t₁ × (credit t₁.budget + 1 ≤ credit t.budget) =
              rw e at spent in
            rw (e, run_loop)
              (run_loop-IsBounded fuel (record t₁ { rows = persist_tool_results results t₁.rows })
                (IsPaid-same t₁ _ paid refl refl) (omega arith))
      ]

  -- Whatever the clock, the model and the tools do, the loop of a turn ends within 121
  -- iterations, and by then has handed at most 120 calls to the tools and at most 10 that change
  -- anything.
  pub run_ai_turn-IsBounded :
      (rows : Transcript) (w : W)
      → (t : Turn W) × (run_ai_turn env 121 rows w ≡ some t)
        × (length t.executed ≤ 120)
        × (changing t.executed ≤ turn_change_budget)
  unfolding run_ai_turn new_turn_budget
  run_ai_turn-IsBounded rows w =
      let (t, e, h) =
        run_loop-IsBounded 121 (begin_turn env rows w)
          (record {
            within = record { full = refl; changes = omega arith };
            paid = omega arith;
            counted = refl;
          })
          (omega arith) in
      (t, e, h.calls, h.changes)
