-- ===== src/SingboxUpdate/Invariant/Goroutine.antt =====
-- A step of the goroutine of a job keeps the invariant.
use fobe.Prelude.{
  ℕ, ◌+◌, String, List, [], ◌∷◌, ◌++◌, true, false, Option, none, some, ltb, ◌&&◌, ◌==◌,
  String-HasEq, beq→eq, eq→beq, ◌≡◌, refl, sym, ◌∙◌, arith, Bool-cases, Option-cases, inl, inr,
}
use fobe.Store.Singbox.{SingboxTarget}
use fobe.SingboxUpdate.Job.{
  Job, state_downloading, state_pushing, state_done, is_terminal, count_results,
}
use fobe.SingboxUpdate.Manager.{
  Texts, Panel, Runner, Phase, spawned, fetching, pushing, save_job, alter_job, set_state, fail,
  record_result, finish_job, default_converge_after,
}
use fobe.SingboxUpdate.Runner.{
  Download, HubAnswer, advance, push_one, ensure_cached, run_spawned, run_fetching, after_cached,
  run_push, run_done, arm_own, to_fetching, to_pushing,
}
use fobe.SingboxUpdate.History.{with_runner}
use fobe.SingboxUpdate.Invariant.{
  IsSound, IsProper, IsSame, Working, Rests, save_job-IsSound, same-IsSound, alter_job-lem,
  arm-IsSound,
}

-- The one goroutine there is, at work on its unfinished job.
pub record IsSole (before after : List Runner) (r : Runner) (current : Option Job) : Type 0 where
  pub job : Job
  pub no_other : (before ≡ []) × (after ≡ [])
  pub is_current : current ≡ some job
  pub own : (job.id == r.job_id) ≡ true
  pub awake : is_terminal job.state ≡ false

pub Working-IsSole :
    (before after : List Runner) (r : Runner) (current : Option Job)
    → Working (before ++ (r ∷ after)) current
    → IsSole before after r current
Working-IsSole [] [] r (some job) (same, awake) = record {
  job = job;
  no_other = (refl, refl);
  is_current = refl;
  own = eq→beq job.id r.job_id (sym same);
  awake = awake;
}
Working-IsSole [] [] r none w = absurd w
Working-IsSole [] (s ∷ after) r current w = absurd w
Working-IsSole (b ∷ []) after r current w = absurd w
Working-IsSole (b ∷ c ∷ before) after r current w = absurd w

-- A panel whose unfinished job is the goroutine's own.
module _ (p : Panel) (h : IsSound p) (job : Job) (e : p.manager.job ≡ some job) (id : String)
    (own : (job.id == id) ≡ true) (awake : is_terminal job.state ≡ false) where
  IsSame-job : (job' : Job) → job'.id ≡ job.id → IsSame job job'
  IsSame-job job' same = record { id = same; ended = λ y. absurd cc }

  IsProper-job : IsProper job
  IsProper-job = rw e at h.proper

  -- The goroutine alters its job, and goes on.
  works-IsSound :
      (f : Job → Job) (phase : Phase)
      → (f job).id ≡ job.id
      → IsProper (f job)
      → is_terminal (f job).state ≡ false
      → IsSound (with_runner [] [] id (some phase, alter_job id f p))
  works-IsSound f phase same proper busy = rw (alter_job-lem id f p job e own) (
      save_job-IsSound p (record { job_id = id; phase = phase } ∷ []) job (f job) h e
        (IsSame-job (f job) same) proper (sym (beq→eq job.id id own) ∙ sym same, busy))

  -- It alters its job for the last time, and ends.
  ends-IsSound :
      (f : Job → Job)
      → (f job).id ≡ job.id
      → IsProper (f job)
      → is_terminal (f job).state ≡ true
      → IsSound (with_runner [] [] id (none, alter_job id f p))
  ends-IsSound f same proper over =
      rw (alter_job-lem id f p job e own)
        (save_job-IsSound p [] job (f job) h e (IsSame-job (f job) same) proper over)

arm_own-IsSound :
    (id : String) (p : Panel) (rs : List Runner)
    → IsSound (record p { runners = rs })
    → Rests id p.manager.job
    → IsSound (record (arm_own id p) { runners = rs })
unfolding arm_own
arm_own-IsSound id p rs h rests = elim (Option-cases p.manager.job) [
  | inl y ↦ rw (y, arm_own) h
  | inr (job, y) ↦ elim (Bool-cases ((job.id == id) && ltb 0 job.deadline)) [
    | inl z ↦ rw (y, arm_own) (rw z (arm-IsSound id p rs h rests))
    | inr z ↦ rw (y, arm_own) (rw z h)
  ]
]

module _ (texts : Texts) (p : Panel) (h : IsSound p) (job : Job) (e : p.manager.job ≡ some job)
    (id : String) (own : (job.id == id) ≡ true) (awake : is_terminal job.state ≡ false) where
  run_spawned-lem :
      run_spawned texts id p
      ≡ (alter_job id (λ j. record j { state = state_downloading }) p, some job.target_version)
  unfolding run_spawned set_state save_job
  run_spawned-lem =
      rw
        (
          alter_job-lem id (λ j. record j { state = state_downloading }) p job e own,
          run_spawned,
          set_state,
        )
        (rw own refl)

  spawned-IsSound : IsSound (with_runner [] [] id (to_fetching texts (run_spawned texts id p)))
  spawned-IsSound = rw run_spawned-lem (
      works-IsSound p h job e id own awake (λ j. record j { state = state_downloading }) _ refl
        (let proper = IsProper-job p h job e id own awake in
          record { named = proper.named; tallied = proper.tallied })
        refl)

  push-IsSound :
      (now : ℕ) (answer : HubAnswer) (target : String) (t : SingboxTarget) (ts : List SingboxTarget)
      → IsSound
          (with_runner [] [] id (some (pushing target ts), run_push texts now answer id target t p))
  unfolding run_push record_result
  push-IsSound now answer target t ts =
      let (res, rows) = push_one texts now answer target t p.singbox in
      let p₁ : Panel = record p { singbox = rows } in
      let proper = IsProper-job p h job e id own awake in
      works-IsSound p₁ (same-IsSound p p₁ h refl refl refl refl) job e id own awake
        (λ j.
          let nodes = j.nodes ++ (res ∷ []) in
          record j { nodes = nodes; counts = count_results nodes })
        _ refl (record { named = proper.named; tallied = refl }) awake

  -- The download touches nothing but the cache.
  ensure_cached-lem :
      (download : Download) (target : String)
      → let p₁ = (ensure_cached texts download target p).0 in
        (p₁.manager ≡ p.manager)
        × (p₁.last_update ≡ p.last_update)
        × (p₁.runners ≡ p.runners)
        × (p₁.checks ≡ p.checks)
  unfolding ensure_cached
  ensure_cached-lem download target = ground arith

  after_cached-IsSound :
      (now : ℕ) (target : String) (failure : Option String)
      → IsSound
          (with_runner [] [] id (to_pushing texts target (after_cached texts now id (p, failure))))
  unfolding after_cached fail set_state
  after_cached-IsSound now target none =
      let proper = IsProper-job p h job e id own awake in
      works-IsSound p h job e id own awake (λ j. record j { state = state_pushing }) _ refl
        (record { named = proper.named; tallied = proper.tallied }) refl
  after_cached-IsSound now target (some reason) =
      let proper = IsProper-job p h job e id own awake in
      ends-IsSound p h job e id own awake _ refl
        (record { named = proper.named; tallied = proper.tallied }) refl

  done-IsSound : (now : ℕ) → IsSound (with_runner [] [] id (none, run_done texts now id p))
  unfolding run_done finish_job save_job
  done-IsSound now =
      let f : Job → Job = (λ j. record j {
        state = state_done;
        finished_at = now;
        deadline = now + default_converge_after;
      }) in
      let proper = IsProper-job p h job e id own awake in
      let sound =
        ends-IsSound p h job e id own awake f refl
          (record { named = proper.named; tallied = proper.tallied }) refl in
      let rests : Rests id (alter_job id f p).manager.job =
        rw (alter_job-lem id f p job e own) (λ _. refl) in
      arm_own-IsSound id (alter_job id f p) [] sound rests

module _ (texts : Texts) (p : Panel) (h : IsSound p) (job : Job) (e : p.manager.job ≡ some job)
    (id : String) (own : (job.id == id) ≡ true) (awake : is_terminal job.state ≡ false) where
  fetching-IsSound :
      (now : ℕ) (download : Download) (target : String)
      → IsSound (
          with_runner [] [] id
            (to_pushing texts target (run_fetching texts now download id target p)))
  unfolding run_fetching
  fetching-IsSound now download target =
      let (p₁, failure) = ensure_cached texts download target p in
      let (manager, last_update, runners, checks) =
        ensure_cached-lem texts p h job e id own awake download target in
      let sound = same-IsSound p p₁ h manager last_update runners checks in
      after_cached-IsSound texts p₁ sound job (rw manager e) id own awake now target failure

  pub advance-IsSound :
      (now : ℕ) (download : Download) (answer : HubAnswer) (phase : Phase)
      → IsSound (with_runner [] [] id (advance texts now download answer id phase p))
  unfolding advance
  advance-IsSound now download answer spawned = spawned-IsSound texts p h job e id own awake
  advance-IsSound now download answer (fetching target) = fetching-IsSound now download target
  advance-IsSound now download answer (pushing target []) =
      done-IsSound texts p h job e id own awake now
  advance-IsSound now download answer (pushing target (t ∷ ts)) =
      push-IsSound texts p h job e id own awake now answer target t ts
