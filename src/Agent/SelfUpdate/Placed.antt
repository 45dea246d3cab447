-- ===== src/Agent/SelfUpdate/Placed.antt =====
-- A probe that runs the build of its plan, and one that has not heard of it yet
-- (internal/agent/selfupdate.go).
use fobe.Prelude.{
  ℕ, ◌+◌, ◌<◌, String, [], ◌∷◌, false, none, ◌≡◌, inl, inr, refl, ◌∙◌, arith, ◌==◌, String-HasEq,
  Bool-cases, Option-cases, eq→beq,
}
use text.Mathlib.TextEquality.{eq_iff}
use fobe.Agent.SelfUpdate.{
  Action, idle, wait, begin, suppressed, unsupported, Updater, Host, decide, converge, act, follow,
  consider, fire, restart, Event, offers, fires, downloads, verifies, restarts, step,
}
use fobe.Agent.SelfUpdate.Budget.{IsActive, IsDone, terminal_failures}
use fobe.Agent.SelfUpdate.Breaker.{IsNew, step-Keeps, IsPlanned}
use fobe.Agent.SelfUpdate.Cases.{fire-none, fire-some, download_ends-none, verify_ends-none}

act-version :
    (host : Host) (now after : ℕ) (target : String) (action : Action) (u : Updater)
    → (act host now target after action u).0.version ≡ u.version
act-version host now after target idle u = refl
act-version host now after target unsupported u = refl
act-version host now after target suppressed u = refl
act-version host now after target (wait seconds) u = ground arith
act-version host now after target begin u = ground arith

-- An offer does not change the build that runs.
consider-version :
    (host : Host) (now after : ℕ) (target : String) (u : Updater)
    → (consider host now target after u).0.version ≡ u.version
unfolding consider converge follow
consider-version host now after target u = elim (Bool-cases (target == u.version)) [
  | inl y ↦ ground arith
  | inr y ↦ elim (Bool-cases host.located) [
    | inr z ↦ ground arith
    | inl z ↦ rw (y, z) (act-version host now after target _ _)
  ]
]

module _ (t : String) (a : ℕ) where
  fire-version : (host : Host) (now : ℕ) (u : Updater) → (fire host now u).0.version ≡ u.version
  fire-version host now u = elim (Option-cases u.timer) [
    | inl e ↦ rw (fire-none host now u e) refl
    | inr (x, e) ↦ ground (
      arith,
      fire-some host now u x e,
      consider-version host now x.after x.target (record u { timer = none }),
    )
  ]

  restart-version : (u : Updater) → (restart u).version ≡ u.installed
  unfolding restart
  restart-version u = refl

  step-version : (n : ℕ) (e : Event) (u : Updater) → IsDone t a n u → (step e u).0.version ≡ t
  unfolding step
  step-version n (offers host now target after) u v =
      consider-version host now after target u ∙ v.same
  step-version n (fires host now) u v = fire-version host now u ∙ v.same
  step-version n (downloads now error) u v = rw (download_ends-none now error u v.quiet) v.same
  step-version n (verifies now outcome) u v = rw (verify_ends-none now outcome u v.quiet) v.same
  step-version n restarts u v = restart-version u ∙ v.placed

  -- It stays so, whatever happens.
  pub step-IsDone :
      (n : ℕ) (e : Event) (u : Updater)
      → 0 < a
      → IsPlanned t a (e ∷ [])
      → IsDone t a n u
      → IsDone t a (n + terminal_failures (step e u).1) (step e u).0
  step-IsDone n e u pos p v = elim (step-Keeps t a n e u pos p (inr v)).good [
    | inr w ↦ w
    | inl w ↦ absurd (ground (arith, w.other, eq→beq (step e u).0.version t (step-version n e u v)))
  ]

  pub consider-IsDone :
      (host : Host) (now n : ℕ) (u : Updater)
      → 0 < a
      → IsDone t a n u
      → IsDone t a (n + terminal_failures (consider host now t a u).1) (consider host now t a u).0
  unfolding step
  consider-IsDone host now n u pos v = step-IsDone n (offers host now t a) u pos (refl, refl, tt) v

  -- No offer: nothing happens, and nothing is said.
  pub withdrawn-IsDone :
      (host : Host) (now n : ℕ) (u : Updater)
      → (t == "") ≡ false
      → IsDone t a n u
      → IsDone t a n (consider host now "" 0 u).0 × ((consider host now "" 0 u).1 ≡ [])
  unfolding consider follow decide
  withdrawn-IsDone host now n u h v =
      let other : ("" == u.version) ≡ false =
        ground (arith, eq_iff "" u.version, eq_iff t "", v.same, h) in
      elim (Bool-cases host.located) [
        | inl y ↦
            rw (other, y)
              (
                record {
                  limited = v.limited;
                  same = v.same;
                  placed = v.placed;
                  timer = v.timer;
                  quiet = v.quiet;
                },
                refl,
              )
        | inr y ↦ rw (other, y) (v, refl)
      ]

-- What happens to a probe beside the offers.
abbrev pub IsOwn : Event → Type 0
IsOwn (offers host now target after) = ⊥
IsOwn e = Unit

module _ (t : String) where
  pub step-IsNew :
      (e : Event) (u : Updater)
      → IsOwn e
      → IsNew t u
      → (u.installed == t) ≡ false
      → (IsNew t (step e u).0 × ((step e u).0.installed == t) ≡ false) × ((step e u).1 ≡ [])
  unfolding step restart
  step-IsNew (offers host now target after) u o v h = elim o [ ]
  step-IsNew (fires host now) u o v h = rw (fire-none host now u v.unset) ((v, h), refl)
  step-IsNew (downloads now error) u o v h =
      rw (download_ends-none now error u v.quiet) ((v, h), refl)
  step-IsNew (verifies now outcome) u o v h =
      rw (verify_ends-none now outcome u v.quiet) ((v, h), refl)
  step-IsNew restarts u o v h = (
    (record { other = h; unknown = v.unsaved; unsaved = v.unsaved; quiet = refl; unset = refl }, h),
    refl,
  )

  pub new-IsActive : (a : ℕ) (u : Updater) → IsNew t u → IsActive t a 0 u
  new-IsActive a u v = record {
    limited = omega arith;
    other = v.other;
    state = inr (v.unknown, refl);
    file = inr (v.unsaved, refl);
    timer = rw v.unset tt;
    trying = rw v.quiet tt;
  }

  pub own-IsPlanned : (a : ℕ) (e : Event) → IsOwn e → IsPlanned t a (e ∷ [])
  own-IsPlanned a (offers host now target after) o = elim o [ ]
  own-IsPlanned a (fires host now) o = tt
  own-IsPlanned a (downloads now error) o = tt
  own-IsPlanned a (verifies now outcome) o = tt
  own-IsPlanned a restarts o = tt
