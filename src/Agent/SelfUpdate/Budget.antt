-- ===== src/Agent/SelfUpdate/Budget.antt =====
-- The budget of failures of one plan (internal/agent/selfupdate.go): what an offer of the plan makes
-- of it.
use fobe.Prelude.{
  All, ℕ, suc, ◌+◌, ◌≤◌, ◌<◌, String, List, [], ◌∷◌, ◌++◌, Bool, true, false, not, ◌&&◌, Option,
  none, some, ◌≡◌, ◌⊎◌, inl, inr, refl, arith, if◌then◌else◌, ◌==◌, String-HasEq, Option-cases,
}
use text.Mathlib.TextEquality.{eq_iff}
use fobe.Agent.SelfUpdate.{
  UpdateState, Action, idle, wait, begin, suppressed, unsupported, UpdateInput, decide, reanchor,
  fresh, Report, report, Timer, Attempt, Updater, Host, converge, act, start, schedule, follow,
  consider, persist,
}

-- How many failures for good are among the reports.
abbrev pub is_terminal_failure : Report → Bool
is_terminal_failure r = (r.phase == "failed") && (r.class == "terminal")

abbrev pub terminal_failures : List Report → ℕ
terminal_failures [] = 0
terminal_failures (r ∷ rs) =
    let rest = terminal_failures rs in if is_terminal_failure r then suc rest else rest

pub terminal_failures-append :
    (xs ys : List Report)
    → terminal_failures (xs ++ ys) ≡ terminal_failures xs + terminal_failures ys
terminal_failures-append [] ys = omega arith
terminal_failures-append (x ∷ xs) ys = ground (arith, terminal_failures-append xs ys)

module _ (t : String) (a : ℕ) where
  -- The state has counted `n` failures for the plan, or knows of no such target and none is.
  abbrev pub Knows : ℕ → UpdateState → Type 0
  Knows n st = (st.target ≡ t) × (st.anchor ≡ a) × (st.terminal_attempts ≡ n)

  abbrev pub Fits : ℕ → UpdateState → Type 0
  Fits n st = Knows n st ⊎ (((st.target == t) ≡ false) × (n ≡ 0))

  abbrev pub IsTimed : Option Timer → Type 0
  IsTimed none = Unit
  IsTimed (some x) = (x.target ≡ t) × (x.after ≡ a)

  abbrev pub IsTrying : ℕ → UpdateState → Option Attempt → Type 0
  IsTrying n st none = Unit
  IsTrying n st (some x) = (x.target ≡ t) × Knows n st × (n < 3)

  -- Before the build is replaced.
  pub record IsActive (n : ℕ) (u : Updater) : Type 0 where
    pub limited : n ≤ 3
    pub other : (u.version == t) ≡ false
    pub state : Fits n u.state
    pub file : Fits n u.file
    pub timer : IsTimed u.timer
    pub trying : IsTrying n u.state u.running

  -- And after it.
  pub record IsDone (n : ℕ) (u : Updater) : Type 0 where
    pub limited : n ≤ 3
    pub same : u.version ≡ t
    pub placed : u.installed ≡ t
    pub timer : IsTimed u.timer
    pub quiet : u.running ≡ none

  abbrev pub IsGood : ℕ → Updater → Type 0
  IsGood n u = IsActive n u ⊎ IsDone n u

  -- What a step makes of the count.
  pub record Keeps (n : ℕ) (r : Updater × List Report) : Type 0 where
    pub good : IsGood (n + terminal_failures r.1) r.0
    pub about : All (λ x. x.target ≡ t) r.1

  reanchor-Fits : (n : ℕ) (st : UpdateState) → 0 < a → Fits n st → Knows n (reanchor st t a)
  unfolding reanchor
  reanchor-Fits n st pos (inl k) = ground (arith, eq_iff st.target t)
  reanchor-Fits n st pos (inr k) = ground (arith, eq_iff st.target t)

  decide-begin :
      (x : UpdateInput)
      → x.state.target ≡ x.target
      → decide x ≡ begin
      → x.state.terminal_attempts < 3
  unfolding decide
  decide-begin x e h = ground (arith, eq_iff x.state.target x.target)

  pub still :
      (n : ℕ) (u : Updater) (out : List Report)
      → (terminal_failures out ≡ 0) × All (λ r. r.target ≡ t) out
      → IsGood n u
      → Keeps n (u, out)
  still n u out e g =
      let e' : n ≡ n + terminal_failures out = omega (arith, e.0) in
      record { good = rw (← e') g; about = e.1 }

  start-Keeps : (n : ℕ) (u : Updater) → IsActive n u → Knows n u.state → n < 3 → Keeps n (start t u)
  start-Keeps n u v k h = elim (Option-cases u.running) [
    | inl e ↦
        let begun : start t u ≡ (
          record u {
            running = some (record { target = t; downloaded = false });
            state = record u.state { target = t };
          },
          report t "downloading" "" u.state.terminal_attempts "" ∷ [],
        ) =
          ground arith in
        let out = report t "downloading" "" u.state.terminal_attempts "" ∷ [] in
        rw begun (
          still n _ out (refl, (refl, tt))
            (inl (record {
              limited = v.limited;
              other = v.other;
              state = inl (refl, k.1, k.2);
              file = v.file;
              timer = v.timer;
              trying = (refl, (refl, k.1, k.2), h);
            })))
    | inr (x, e) ↦
        let busy : start t u ≡ (u, []) = ground arith in rw busy (still n u [] (refl, tt) (inl v))
  ]

  schedule-IsActive :
      (now n seconds : ℕ) (u : Updater) → IsActive n u → IsActive n (schedule now t a seconds u)
  schedule-IsActive now n seconds u v = elim (Option-cases u.running) [
    | inl e ↦
        let set : schedule now t a seconds u
            ≡ record u { timer = some (record { target = t; after = a; due = now + seconds }) } =
          ground arith in
        rw set (record {
          limited = v.limited;
          other = v.other;
          state = v.state;
          file = v.file;
          timer = (refl, refl);
          trying = v.trying;
        })
    | inr (x, e) ↦ let busy : schedule now t a seconds u ≡ u = ground arith in rw busy v
  ]

  act-Keeps :
      (host : Host) (now n : ℕ) (action : Action) (u : Updater)
      → IsActive n u
      → Knows n u.state
      → (action ≡ begin → n < 3)
      → Keeps n (act host now t a action u)
  act-Keeps host now n idle u v k h = still n u (act host now t a idle u).1 (refl, tt) (inl v)
  act-Keeps host now n unsupported u v k h =
      still n u (act host now t a unsupported u).1 (refl, (refl, tt)) (inl v)
  act-Keeps host now n suppressed u v k h =
      still n u (act host now t a suppressed u).1 (refl, (refl, tt)) (inl v)
  act-Keeps host now n (wait seconds) u v k h =
      still n _ [] (refl, tt) (inl (schedule-IsActive now n seconds u v))
  act-Keeps host now n begin u v k h = start-Keeps n u v k (h refl)

  trying-Knows :
      (n : ℕ) (st st' : UpdateState) (o : Option Attempt)
      → Knows n st'
      → IsTrying n st o
      → IsTrying n st' o
  trying-Knows n st st' none k h = tt
  trying-Knows n st st' (some x) k h = (h.0, k, h.2)

  pub if-Keeps :
      (n : ℕ) (b : Bool) (x y : Updater × List Report)
      → (b ≡ true → Keeps n x)
      → (b ≡ false → Keeps n y)
      → Keeps n (if b then x else y)
  if-Keeps n true x y h k = h refl
  if-Keeps n false x y h k = k refl

  abbrev in' : Host → ℕ → Updater → UpdateInput
  in' host now u = record {
    self_update = host.supported;
    current = u.version;
    target = t;
    after = a;
    now = now;
    state = reanchor u.state t a;
  }

  -- An offer of the plan, before the build is replaced.
  follow-Keeps :
      (host : Host) (now n : ℕ) (u : Updater)
      → 0 < a
      → IsActive n u
      → Keeps n (follow host now t a u)
  unfolding follow
  follow-Keeps host now n u pos v =
      let k = reanchor-Fits n u.state pos v.state in
      act-Keeps host now n (decide (in' host now u)) (record u { state = reanchor u.state t a })
        (record {
          limited = v.limited;
          other = v.other;
          state = inl k;
          file = v.file;
          timer = v.timer;
          trying = trying-Knows n u.state (reanchor u.state t a) u.running k v.trying;
        })
        k (λ e. omega (arith, decide-begin (in' host now u) k.0 e, k.2))

  saved-Keeps :
      (n : ℕ) (st : UpdateState) (u : Updater) (out : List Report)
      → (terminal_failures out ≡ 0) × All (λ r. r.target ≡ t) out
      → IsDone n u
      → Keeps n (persist st u, out)
  saved-Keeps n st u out e v = still n (persist st u) out e (
      inr (record {
        limited = v.limited;
        same = v.same;
        placed = v.placed;
        timer = v.timer;
        quiet = v.quiet;
      }))

  converge-Keeps : (n : ℕ) (u : Updater) → IsDone n u → Keeps n (converge t u)
  unfolding converge
  converge-Keeps n u v =
      let st = record (fresh t) { committed_version = u.version } in
      let out = report t "committed" "" 0 "" ∷ [] in
      let moved = not (u.state.target == "") && not (u.state.target == t) in
      if-Keeps n ((u.state.target == t) && not (u.state.committed_version == u.version))
        (persist st u, out) (if moved then (persist st u, []) else (u, []))
        (λ _. saved-Keeps n st u out (refl, (refl, tt)) v)
        (λ _.
          if-Keeps n moved (persist st u, []) (u, []) (λ _. saved-Keeps n st u [] (refl, tt) v)
            (λ _. still n u [] (refl, tt) (inr v)))

  pub consider-Keeps :
      (host : Host) (now n : ℕ) (u : Updater)
      → 0 < a
      → IsGood n u
      → Keeps n (consider host now t a u)
  unfolding consider
  consider-Keeps host now n u pos g =
      if-Keeps n (t == u.version) (converge t u)
        (if host.located then follow host now t a u else (u, []))
        (λ h. elim g [
          | inl v ↦ absurd (ground (arith, eq_iff t u.version, eq_iff u.version t, h, v.other))
          | inr v ↦ converge-Keeps n u v
        ])
        (λ h. elim g [
          | inl v ↦
              if-Keeps n host.located (follow host now t a u) (u, [])
                (λ _. follow-Keeps host now n u pos v) (λ _. still n u [] (refl, tt) (inl v))
          | inr v ↦ absurd (ground (arith, eq_iff t u.version, h, v.same))
        ])
