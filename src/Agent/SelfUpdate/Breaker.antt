-- ===== src/Agent/SelfUpdate/Breaker.antt =====
-- The budget of failures of one plan (internal/agent/selfupdate.go), through timers, attempts and
-- restarts.
use fobe.Prelude.{
  ℕ, ◌+◌, ◌≤◌, ◌<◌, String, List, [], ◌∷◌, false, none, some, ◌≡◌, inl, inr, refl, arith, ◌==◌,
  String-HasEq, leb, Bool-cases, Option-cases, beq→eq,
}
use fobe.Agent.SelfUpdate.{
  Updater, Host, consider, fire, restart, Event, offers, fires, downloads, verifies, restarts, step,
  run,
}
use fobe.Agent.SelfUpdate.Budget.{
  terminal_failures, terminal_failures-append, IsTimed, IsGood, Keeps, still, if-Keeps,
  consider-Keeps,
}
use fobe.Agent.SelfUpdate.Cases.{fire-none, fire-some}
use fobe.Agent.SelfUpdate.Attempts.{download_ends-Keeps, verify_ends-Keeps}

-- Every offer is one of the plan.
abbrev pub IsPlanned : String → ℕ → List Event → Type 0
IsPlanned t a [] = Unit
IsPlanned t a (offers host now target after ∷ es) = (target ≡ t) × (after ≡ a) × IsPlanned t a es
IsPlanned t a (fires host now ∷ es) = IsPlanned t a es
IsPlanned t a (downloads now error ∷ es) = IsPlanned t a es
IsPlanned t a (verifies now outcome ∷ es) = IsPlanned t a es
IsPlanned t a (restarts ∷ es) = IsPlanned t a es

-- A probe with no budget for the target yet, nothing under way, and another build than it.
pub record IsNew (t : String) (u : Updater) : Type 0 where
  pub other : (u.version == t) ≡ false
  pub unknown : (u.state.target == t) ≡ false
  pub unsaved : (u.file.target == t) ≡ false
  pub quiet : u.running ≡ none
  pub unset : u.timer ≡ none

module _ (t : String) (a : ℕ) where
  unset-IsGood : (n : ℕ) (u : Updater) → IsGood t a n u → IsGood t a n (record u { timer = none })
  unset-IsGood n u (inl v) = inl (record {
    limited = v.limited;
    other = v.other;
    state = v.state;
    file = v.file;
    timer = tt;
    trying = v.trying;
  })
  unset-IsGood n u (inr v) = inr (record {
    limited = v.limited;
    same = v.same;
    placed = v.placed;
    timer = tt;
    quiet = v.quiet;
  })

  timer-IsTimed : (n : ℕ) (u : Updater) → IsGood t a n u → IsTimed t a u.timer
  timer-IsTimed n u (inl v) = v.timer
  timer-IsTimed n u (inr v) = v.timer

  pub fire-Keeps :
      (host : Host) (now n : ℕ) (u : Updater)
      → 0 < a
      → IsGood t a n u
      → Keeps t a n (fire host now u)
  fire-Keeps host now n u pos g = elim (Option-cases u.timer) [
    | inl e ↦ rw (fire-none host now u e) (still t a n u [] (refl, tt) g)
    | inr (x, e) ↦
        let timed : IsTimed t a (some x) = rw e at (timer-IsTimed n u g) in
        let u₁ = record u { timer = none } in
        let fired : Keeps t a n (consider host now x.target x.after u₁) =
          rw (timed.0, timed.1) (consider-Keeps t a host now n u₁ pos (unset-IsGood n u g)) in
        rw (fire-some host now u x e) (
          if-Keeps t a n (leb x.due now) (consider host now x.target x.after u₁) (u, [])
            (λ _. fired) (λ _. still t a n u [] (refl, tt) g))
  ]

  restart-Keeps : (n : ℕ) (u : Updater) → IsGood t a n u → Keeps t a n (restart u, [])
  unfolding restart
  restart-Keeps n u (inr v) =
      still t a n (restart u) [] (refl, tt)
        (inr (record {
          limited = v.limited;
          same = v.placed;
          placed = v.placed;
          timer = tt;
          quiet = refl;
        }))
  restart-Keeps n u (inl v) =
      still t a n (restart u) [] (refl, tt)
        (elim (Bool-cases (u.installed == t)) [
          | inl y ↦
              let e = beq→eq u.installed t y in
              inr (record { limited = v.limited; same = e; placed = e; timer = tt; quiet = refl })
          | inr y ↦ inl (record {
            limited = v.limited;
            other = y;
            state = v.file;
            file = v.file;
            timer = tt;
            trying = tt;
          })
        ])

  pub step-Keeps :
      (n : ℕ) (e : Event) (u : Updater)
      → 0 < a
      → IsPlanned t a (e ∷ [])
      → IsGood t a n u
      → Keeps t a n (step e u)
  unfolding step
  step-Keeps n (offers host now target after) u pos (e, f, _) g =
      rw (e, f) (consider-Keeps t a host now n u pos g)
  step-Keeps n (fires host now) u pos p g = fire-Keeps host now n u pos g
  step-Keeps n (downloads now error) u pos p g = download_ends-Keeps t a now n error u g
  step-Keeps n (verifies now outcome) u pos p g = verify_ends-Keeps t a now n outcome u g
  step-Keeps n restarts u pos p g = restart-Keeps n u g

  limited-IsGood : (n : ℕ) (u : Updater) → IsGood t a n u → n ≤ 3
  limited-IsGood n u (inl v) = v.limited
  limited-IsGood n u (inr v) = v.limited

  IsPlanned-cases :
      (e : Event) (es : List Event)
      → IsPlanned t a (e ∷ es)
      → IsPlanned t a (e ∷ []) × IsPlanned t a es
  IsPlanned-cases (offers host now target after) es p = ((p.0, p.1, tt), p.2)
  IsPlanned-cases (fires host now) es p = (tt, p)
  IsPlanned-cases (downloads now error) es p = (tt, p)
  IsPlanned-cases (verifies now outcome) es p = (tt, p)
  IsPlanned-cases restarts es p = (tt, p)

  run-IsGood :
      (n : ℕ) (es : List Event) (u : Updater)
      → 0 < a
      → IsPlanned t a es
      → IsGood t a n u
      → n + terminal_failures (run es u).1 ≤ 3
  unfolding run
  run-IsGood n [] u pos p g = omega (arith, limited-IsGood n u g)
  run-IsGood n (e ∷ es) u pos p g =
      let (first, later) = IsPlanned-cases e es p in
      let kept = step-Keeps n e u pos first g in
      let rest =
        run-IsGood (n + terminal_failures (step e u).1) es (step e u).0 pos later kept.good in
      omega (arith, rest, terminal_failures-append (step e u).1 (run es (step e u).0).1)

  -- From a new probe, a plan sees at most three terminal failures, through restarts as well.
  pub terminal_failures-run :
      (es : List Event) (u : Updater)
      → 0 < a
      → IsPlanned t a es
      → IsNew t u
      → terminal_failures (run es u).1 ≤ 3
  terminal_failures-run es u pos p new = omega (
    arith,
    run-IsGood 0 es u pos p (
        inl (record {
          limited = omega arith;
          other = new.other;
          state = inr (new.unknown, refl);
          file = inr (new.unsaved, refl);
          timer = rw new.unset tt;
          trying = rw new.quiet tt;
        })),
  )
