-- ===== src/SingboxUpdate/Distribution/Whole.antt =====
-- The whole of a distribution that nothing disturbs.
use fobe.Prelude.{
  ℕ, ◌+◌, String, List, [], ◌∷◌, ◌++◌, true, Option, none, some, first_of?, ◌==◌, String-HasEq, ◌≡◌,
  refl, ap, ◌∙◌, arith, Bool-cases, Option-cases, inl, inr,
}
use fobe.Prelude.Table.{lookup}
use fobe.Store.Singbox.{Node, Rows, list_singbox_targets, is_target}
use fobe.SingboxUpdate.Job.{Job, state_downloading, state_pushing, state_done, count_results}
use fobe.SingboxUpdate.Manager.{
  Texts, Panel, save_job, alter_job, set_state, finish_job, default_converge_after, arm,
}
use fobe.SingboxUpdate.Runner.{
  Download, HubAnswer, is_cached, arm_own, ensure_cached, run_spawned, run_fetching, after_cached,
  run_pushes, run_done, run_job, fetch_target, push_targets,
}
use fobe.SingboxUpdate.Invariant.{alter_job-lem}
use fobe.SingboxUpdate.Distribution.{target_of, Distinct, lookup-run_pushes}
use fobe.SingboxUpdate.Distribution.ByRow.{rolled_out, report_of, distributed-list, reported-list}
use fobe.SingboxUpdate.Distribution.Report.{summary, run_pushes-IsReported}

abbrev node_of : String → List Node → Option Node
node_of id = first_of? (λ n. n.id == id)

abbrev pub DistinctNodes : List Node → Type 0
DistinctNodes [] = Unit
DistinctNodes (n ∷ nodes) = (node_of n.id nodes ≡ none) × DistinctNodes nodes

target_of-none :
    (id : String) (nodes : List Node) (rows : Rows)
    → node_of id nodes ≡ none
    → target_of id (list_singbox_targets nodes rows) ≡ none
unfolding list_singbox_targets
target_of-none id [] rows h = refl
target_of-none id (n ∷ nodes) rows h = ground (arith, target_of-none id nodes rows)

list_singbox_targets-Distinct :
    (nodes : List Node) (rows : Rows)
    → DistinctNodes nodes
    → Distinct (list_singbox_targets nodes rows)
unfolding list_singbox_targets
list_singbox_targets-Distinct [] rows d = tt
list_singbox_targets-Distinct (n ∷ nodes) rows (new, d) =
    let rest = list_singbox_targets-Distinct nodes rows d in
    elim (Option-cases (lookup n.id rows)) [
      | inl y ↦ rw (y, list_singbox_targets) rest
      | inr (sb, y) ↦ elim (Bool-cases (is_target sb)) [
        | inl z ↦ rw (y, list_singbox_targets) (rw z (target_of-none n.id nodes rows new, rest))
        | inr z ↦ rw (y, list_singbox_targets) (rw z rest)
      ]
    ]

module _ (texts : Texts) (now : ℕ) (id : String) where
  ensure_cached-lem :
      (download : Download) (target : String) (p : Panel)
      → is_cached texts target p ≡ true
      → ensure_cached texts download target p ≡ (p, none)
  unfolding ensure_cached
  ensure_cached-lem download target p h = rw (h, ensure_cached) refl

  -- The cache has the release: the goroutine comes to its pushes.
  run_fetching-lem :
      (download : Download) (target : String) (p : Panel)
      → is_cached texts target p ≡ true
      → run_fetching texts now download id target p
        ≡ (set_state id state_pushing p, some (list_singbox_targets p.nodes p.singbox))
  unfolding run_fetching after_cached
  run_fetching-lem download target p h =
      ap (after_cached texts now id) (ensure_cached-lem download target p h)

  run_spawned-lem :
      (p : Panel) (job : Job)
      → p.manager.job ≡ some job
      → (job.id == id) ≡ true
      → run_spawned texts id p
        ≡ (save_job (record job { state = state_downloading }) p, some job.target_version)
  unfolding run_spawned set_state save_job
  run_spawned-lem p job e own =
      rw
        (
          alter_job-lem id (λ j. record j { state = state_downloading }) p job e own,
          run_spawned,
          set_state,
        )
        (rw own refl)

  arm_own-lem :
      (p : Panel)
      → ((arm_own id p).manager.job ≡ p.manager.job) × ((arm_own id p).singbox ≡ p.singbox)
  unfolding arm_own arm
  arm_own-lem p = ground arith

  -- What the end of a goroutine leaves of its job and of the rows.
  run_done-lem :
      (p : Panel) (job : Job)
      → p.manager.job ≡ some job
      → (job.id == id) ≡ true
      → ((run_done texts now id p).manager.job
          ≡ some (record job {
            state = state_done;
            finished_at = now;
            deadline = now + default_converge_after;
          }))
        × ((run_done texts now id p).singbox ≡ p.singbox)
  unfolding run_done finish_job save_job
  run_done-lem p job e own =
      let f : Job → Job = (λ j. record j {
        state = state_done;
        finished_at = now;
        deadline = now + default_converge_after;
      }) in
      let (current, rows) = arm_own-lem (alter_job id f p) in
      let altered = alter_job-lem id f p job e own in
      (current ∙ ap (λ q. q.manager.job) altered, rows ∙ ap (λ q. q.singbox) altered)

  module _ (answers : String → HubAnswer) where
    -- A job whose release is in the cache and which nothing disturbs, on nodes of distinct ids
    -- and with counts that tally, ends as done with its check due 15 minutes later: the row of a
    -- node where sing-box is desired, not being removed, and its version or its desired version
    -- is another one, has its desired version moved, counts as installing unless it has the
    -- version already, and keeps every other column but its time; no other row changes, and the
    -- report lists each node where sing-box is desired with its outcome (already current,
    -- pushed, offline, or not updated) in order, its counts being their tally.
    pub run_job-lem :
        (download : Download) (p : Panel) (job : Job)
        → p.manager.job ≡ some job
        → (job.id == id) ≡ true
        → job.counts ≡ count_results job.nodes
        → is_cached texts job.target_version p ≡ true
        → DistinctNodes p.nodes
        → let p' = run_job texts now download answers id p in
          ((node : String)
            → lookup node p'.singbox
              ≡ rolled_out texts now job.target_version node p.nodes (lookup node p.singbox))
          × (job' : Job) × (p'.manager.job ≡ some job')
          × (job'.state ≡ state_done)
          × (job'.deadline ≡ now + 900)
          × (job'.counts ≡ count_results job'.nodes)
          × (summary job'.nodes
              ≡ summary job.nodes ++ report_of texts answers job.target_version p.nodes p.singbox)
    unfolding run_job set_state save_job
    run_job-lem download p job e own tallied cached d =
        let ts = list_singbox_targets p.nodes p.singbox in
        let p₁ = save_job (record job { state = state_downloading }) p in
        let job₂ : Job = record job { state = state_pushing } in
        let p₂ = save_job job₂ p₁ in
        let ready : set_state id state_pushing p₁ ≡ p₂ =
          alter_job-lem id (λ j. record j { state = state_pushing }) p₁ _ refl own in
        let whole : run_job texts now download answers id p
            ≡ run_done texts now id (run_pushes texts now answers id job.target_version ts p₂) =
          ap (fetch_target texts now download answers id) (run_spawned-lem p job e own)
          ∙ ap (push_targets texts now answers id job.target_version)
              (run_fetching-lem download job.target_version p₁ cached)
          ∙ ap
              (λ q. run_done texts now id (run_pushes texts now answers id job.target_version ts q))
              ready in
        let distinct = list_singbox_targets-Distinct p.nodes p.singbox d in
        let told =
          run_pushes-IsReported texts now answers job.target_version id ts p₂ job₂ refl own tallied
            distinct in
        let p₃ = run_pushes texts now answers id job.target_version ts p₂ in
        let (finished, rows) = run_done-lem p₃ told.job' told.is_current (rw told.same_id own) in
        rw whole (
          λ node. rw rows (
              lookup-run_pushes texts now answers job.target_version id ts p₂ node distinct
              ∙ distributed-list texts now job.target_version p.singbox node p.nodes),
          _,
          finished,
          refl,
          refl,
          told.tallied,
          told.added
              ∙ ap (λ lines. summary job.nodes ++ lines)
                  (reported-list texts now job.target_version p.singbox answers p.nodes),
        )
