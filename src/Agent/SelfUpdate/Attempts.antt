-- ===== src/Agent/SelfUpdate/Attempts.antt =====
-- The halves of an attempt and the budget of its plan (internal/agent/selfupdate.go).
use fobe.Prelude.{
  All, ℕ, suc, ◌+◌, ◌≤◌, ◌<◌, String, [], ◌∷◌, true, Option, none, some, ◌≡◌, inl, inr, refl, ap,
  arith, String-HasEq, leb, Bool-cases, Option-cases,
}
use text.Mathlib.TextEquality.{eq_iff}
use fobe.Agent.SelfUpdate.{
  UpdateState, report, Attempt, Updater, record_terminal, record_transient, suppression, own_budget,
  failed_terminal, failed_transient, download_half, download_ends, verify_ends, Outcome, unverified,
  refused, replaced, replaced_unsaved, restart, finish, persist, committed, idled,
}
use fobe.Agent.SelfUpdate.Budget.{
  terminal_failures, Knows, IsTrying, IsActive, IsDone, IsGood, Keeps, still, if-Keeps,
}
use fobe.Agent.SelfUpdate.Cases.{
  download_ends-none, download_ends-some, verify_ends-none, verify_ends-some,
}

module _ (t : String) (a : ℕ) where
  -- The state after a failure of the plan, with nothing under way.
  ended-IsActive :
      (n m : ℕ) (st : UpdateState) (u : Updater)
      → IsActive t a n u
      → m ≤ 3
      → Knows t a m st
      → IsActive t a m (record u { state = st; file = st; running = none })
  ended-IsActive n m st u v h k = record {
    limited = h;
    other = v.other;
    state = inl k;
    file = inl k;
    timer = v.timer;
    trying = tt;
  }

  own_budget-Knows : (n : ℕ) (st : UpdateState) → Knows t a n st → own_budget t st ≡ st
  own_budget-Knows n st k = ground (arith, eq_iff st.target t)

  suppression-target :
      (st : UpdateState) (error : String) → All (λ x. x.target ≡ t) (suppression t st error)
  suppression-target st error = elim (Bool-cases (leb 3 st.terminal_attempts)) [
    | inl y ↦ rw y (refl, tt)
    | inr y ↦ rw y tt
  ]

  transient-Keeps :
      (now n : ℕ) (error : String) (u : Updater)
      → IsActive t a n u
      → Knows t a n u.state
      → Keeps t a n (idled (record_transient now t error u))
  unfolding record_transient
  transient-Keeps now n error u v k =
      let st = failed_transient now error u.state in
      let out = report t "failed" "transient" st.transient_streak error ∷ suppression t st error in
      let about : All (λ x. x.target ≡ t) out = (refl, suppression-target st error) in
      rw (own_budget-Knows n u.state k) (
        still t a n (record u { state = st; file = st; running = none }) out (ground arith, about)
          (inl (ended-IsActive n n st u v v.limited k)))

  terminal-Keeps :
      (now n : ℕ) (error : String) (u : Updater)
      → IsActive t a n u
      → Knows t a n u.state
      → n < 3
      → Keeps t a n (idled (record_terminal now t error u))
  unfolding record_terminal
  terminal-Keeps now n error u v k h =
      let st = failed_terminal now error u.state in
      let out = report t "failed" "terminal" st.terminal_attempts error ∷ suppression t st error in
      let about : All (λ x. x.target ≡ t) out = (refl, suppression-target st error) in
      let one : suc n ≡ n + terminal_failures out = ground arith in
      rw (own_budget-Knows n u.state k) (record {
        about = about;
        good =
            rw (← one) (inl (ended-IsActive n (suc n) st u v (omega arith) (k.0, k.1, ap suc k.2)));
      })

  placed-IsDone :
      (n : ℕ) (u : Updater) → n ≤ 3 → IsDone t a n (restart (record u { installed = t }))
  unfolding restart
  placed-IsDone n u h = record { limited = h; same = refl; placed = refl; timer = tt; quiet = refl }

  finish-Keeps :
      (now n : ℕ) (outcome : Outcome) (u : Updater)
      → IsActive t a n u
      → Knows t a n u.state
      → n < 3
      → Keeps t a n (finish now t outcome u)
  finish-Keeps now n (unverified e) u v k h = transient-Keeps now n e u v k
  finish-Keeps now n (refused e) u v k h = terminal-Keeps now n e u v k h
  finish-Keeps now n replaced u v k h =
      still t a n (restart (record (persist (committed t) u) { installed = t }))
        (report t "committed" "" 0 "" ∷ []) (refl, (refl, tt))
        (inr (placed-IsDone n (persist (committed t) u) v.limited))
  finish-Keeps now n replaced_unsaved u v k h =
      still t a n (restart (record u { installed = t })) [] (refl, tt)
        (inr (placed-IsDone n u v.limited))

  half-Keeps :
      (now n : ℕ) (error : Option String) (x : Attempt) (u : Updater)
      → IsActive t a n u
      → IsTrying t a n u.state (some x)
      → Keeps t a n (download_half now error x u)
  half-Keeps now n (some e) x u v h = rw h.0 (transient-Keeps now n e u v h.1)
  half-Keeps now n none x u v h =
      still t a n (record u { running = some (record x { downloaded = true }) })
        (report x.target "verifying" "" u.state.terminal_attempts "" ∷ []) (refl, (h.0, tt))
        (inl (record {
          limited = v.limited;
          other = v.other;
          state = v.state;
          file = v.file;
          timer = v.timer;
          trying = h;
        }))

  pub download_ends-Keeps :
      (now n : ℕ) (error : Option String) (u : Updater)
      → IsGood t a n u
      → Keeps t a n (download_ends now error u)
  download_ends-Keeps now n error u (inr v) =
      rw (download_ends-none now error u v.quiet) (still t a n u [] (refl, tt) (inr v))
  download_ends-Keeps now n error u (inl v) = elim (Option-cases u.running) [
    | inl e ↦ rw (download_ends-none now error u e) (still t a n u [] (refl, tt) (inl v))
    | inr (x, e) ↦
        let trying : IsTrying t a n u.state (some x) = rw e at v.trying in
        rw (download_ends-some now error u x e) (
          if-Keeps t a n x.downloaded (u, []) (download_half now error x u)
            (λ _. still t a n u [] (refl, tt) (inl v)) (λ _. half-Keeps now n error x u v trying))
  ]

  pub verify_ends-Keeps :
      (now n : ℕ) (outcome : Outcome) (u : Updater)
      → IsGood t a n u
      → Keeps t a n (verify_ends now outcome u)
  verify_ends-Keeps now n outcome u (inr v) =
      rw (verify_ends-none now outcome u v.quiet) (still t a n u [] (refl, tt) (inr v))
  verify_ends-Keeps now n outcome u (inl v) = elim (Option-cases u.running) [
    | inl e ↦ rw (verify_ends-none now outcome u e) (still t a n u [] (refl, tt) (inl v))
    | inr (x, e) ↦
        let trying : IsTrying t a n u.state (some x) = rw e at v.trying in
        rw (verify_ends-some now outcome u x e) (
          if-Keeps t a n x.downloaded (finish now x.target outcome u) (u, [])
            (λ _. rw trying.0 (finish-Keeps now n outcome u v trying.1 trying.2))
            (λ _. still t a n u [] (refl, tt) (inl v)))
  ]
