-- ===== src/SingboxUpdate/Invariant/Timers.antt =====
-- A convergence check keeps the invariant, whatever has happened since its snapshot.
use fobe.Prelude.{
  ℕ, String, List, [], ◌∷◌, ◌++◌, true, not, ◌||◌, Option, some, contains, map, All, length, suc,
  ◌==◌, String-HasEq, beq→eq, ◌≡◌, refl, sym, ap, ◌∙◌, arith, Bool-cases, Option-cases, inl, inr,
}
use fobe.Store.Singbox.{Rows}
use fobe.SingboxUpdate.Job.{Job, NodeResult, Counts, is_terminal, count_results, count, tally}
use fobe.SingboxUpdate.Manager.{Texts, Panel, Runner, save_job, alter_job, disarm}
use fobe.SingboxUpdate.Check.{
  begin_check, end_check, check_job, check_node, raise_stale_alert, alert_stale,
}
use fobe.SingboxUpdate.History.{with_check}
use fobe.SingboxUpdate.Invariant.{
  IsSound, IsProper, IsSame, IsSnapshot, Working, Rests, save_job-IsSound, same-IsSound,
}
use fobe.SingboxUpdate.Invariant.Calls.{load-lem, disarm-IsSound, runners-lem}

-- A change that keeps the id, the state and the tally of every job keeps the invariant.
altered-IsSound :
    (id : String) (f : Job → Job) (p : Panel)
    → IsSound p
    → ((job : Job)
        → p.manager.job ≡ some job
        → (job.id == id) ≡ true
        → IsSame job (f job) × IsProper (f job) × Working p.runners (some (f job)))
    → IsSound (alter_job id f p)
unfolding alter_job save_job
altered-IsSound id f p h g = elim (Option-cases p.manager.job) [
  | inl y ↦ rw (y, alter_job) h
  | inr (job, y) ↦ elim (Bool-cases (job.id == id)) [
    | inl z ↦
        let (same, proper, working) = g job y z in
        rw (y, alter_job) (rw z (save_job-IsSound p p.runners job (f job) h y same proper working))
    | inr z ↦ rw (y, alter_job) (rw z h)
  ]
]

Working-same :
    (rs : List Runner) (job job' : Job)
    → job'.id ≡ job.id
    → job'.state ≡ job.state
    → Working rs (some job)
    → Working rs (some job')
Working-same [] job job' e f w = rw f w
Working-same (r ∷ []) job job' e f w = rw (e, f) w
Working-same (r ∷ s ∷ rs) job job' e f w = w

module _ (texts : Texts) where
  outcome-check_node :
      (rows : Rows) (now : ℕ) (target : String) (n : NodeResult)
      → (check_node texts rows now target n).outcome ≡ n.outcome
  unfolding check_node
  outcome-check_node rows now target n = ground arith

  tally-check_node :
      (rows : Rows) (now : ℕ) (target : String) (nodes : List NodeResult) (c : Counts)
      → tally (map (check_node texts rows now target) nodes) c ≡ tally nodes c
  tally-check_node rows now target [] c = refl
  tally-check_node rows now target (n ∷ nodes) c =
      rw (outcome-check_node rows now target n)
        (tally-check_node rows now target nodes (count n.outcome c))

  length-check_node :
      (rows : Rows) (now : ℕ) (target : String) (nodes : List NodeResult)
      → length (map (check_node texts rows now target) nodes) ≡ length nodes
  length-check_node rows now target [] = refl
  length-check_node rows now target (n ∷ nodes) = ap suc (length-check_node rows now target nodes)

  check_job-IsProper :
      (rows : Rows) (now : ℕ) (job : Job) → IsProper job → IsProper (check_job texts rows now job).0
  unfolding check_job count_results
  check_job-IsProper rows now job h = record {
    named = h.named;
    tallied =
        h.tallied
        ∙ sym (
            rw (length-check_node rows now job.target_version job.nodes)
              (tally-check_node rows now job.target_version job.nodes _));
  }

  raise-IsSound :
      (now : ℕ) (job : Job) (stale : List NodeResult) (p : Panel)
      → IsSound p
      → IsSound (raise_stale_alert texts now job stale p)
  unfolding raise_stale_alert
  raise-IsSound now job stale p h =
      altered-IsSound job.id (λ j. record j { stale_alerted = true }) _
        (same-IsSound p _ h refl refl refl refl)
        (λ j y z.
          let proper : IsProper j = rw y at h.proper in
          (
            record { id = refl; ended = λ e. e },
            record { named = proper.named; tallied = proper.tallied },
            Working-same p.runners j _ refl refl (rw y at h.working),
          ))

  alert_stale-IsSound :
      (now : ℕ) (job : Job) (stale : List NodeResult) (p : Panel)
      → IsSound p
      → IsSound (alert_stale texts now job stale p)
  alert_stale-IsSound now job [] p h = h
  alert_stale-IsSound now job (n ∷ stale) p h = raise-IsSound now job (n ∷ stale) p h

  commit-IsSound :
      (now : ℕ) (job : Job) (p : Panel)
      → IsSound p
      → IsSnapshot p.manager.job job
      → IsSound (alter_job job.id (λ _. (check_job texts p.singbox now job).0) p)
  unfolding check_job
  commit-IsSound now job p h s =
      altered-IsSound job.id (λ _. (check_job texts p.singbox now job).0) p h
        (λ j y z. (
          record { id = sym (beq→eq j.id job.id z); ended = λ e. s.ended },
          check_job-IsProper p.singbox now job s.proper,
          let rests : Rests job.id (some j) = rw y at s.rests in
              rw (runners-lem p j h y (rests z)) s.ended,
        ))

  end_check-IsSound :
      (now : ℕ) (job : Job) (p : Panel)
      → IsSound p
      → IsSnapshot p.manager.job job
      → IsSound (end_check texts now job p)
  unfolding end_check check_job
  end_check-IsSound now job p h s =
      let (job', stale) = check_job texts p.singbox now job in
      alert_stale-IsSound now job' stale _ (commit-IsSound now job p h s)

taken :
    (current : Option Job) (before after : List Job) (job : Job)
    → All (IsSnapshot current) (before ++ (job ∷ after))
    → All (IsSnapshot current) (before ++ after) × IsSnapshot current job
taken current [] after job (a, rest) = (rest, a)
taken current (b ∷ before) after job (a, rest) =
    let (others, it) = taken current before after job rest in ((a, others), it)

pub checks_off-IsSound :
    (texts : Texts) (now : ℕ) (before after : List Job) (job : Job) (p : Panel)
    → IsSound p
    → p.checks ≡ before ++ (job ∷ after)
    → IsSound (disarm job.id (end_check texts now job (record p { checks = before ++ after })))
checks_off-IsSound texts now before after job p h e =
    let (others, it) = taken p.manager.job before after job (rw e at h.checks) in
    let q : IsSound (record p { checks = before ++ after }) = record {
      loaded = h.loaded;
      saved = h.saved;
      working = h.working;
      proper = h.proper;
      armed = h.armed;
      checks = others;
    } in
    disarm-IsSound job.id _ (end_check-IsSound texts now job _ q it)

snapshot-IsSound :
    (job : Job) (p : Panel)
    → IsSound p
    → p.manager.job ≡ some job
    → is_terminal job.state ≡ true
    → IsSound (record p { checks = job ∷ p.checks })
snapshot-IsSound job p h y ended = record {
  loaded = h.loaded;
  saved = h.saved;
  working = h.working;
  proper = h.proper;
  armed = h.armed;
  checks =
      (record { proper = rw y at h.proper; ended = ended; rests = rw y (λ _. ended) }, h.checks);
}

pub fires-IsSound :
    (id : String) (p : Panel)
    → IsSound p
    → contains id p.manager.armed_at ≡ true
    → IsSound (with_check id (begin_check id p))
unfolding begin_check
fires-IsSound id p h a = elim (Option-cases p.manager.job) [
  | inl y ↦ rw (load-lem p h.loaded, begin_check) (rw y (disarm-IsSound id p h))
  | inr (job, y) ↦
      elim (Bool-cases
        (not (job.id == id) || (job.convergence_checked || (job.target_version == "")))) [
          | inl z ↦ rw (load-lem p h.loaded, begin_check) (rw y (rw z (disarm-IsSound id p h)))
          | inr z ↦
              let own : (job.id == id) ≡ true = ground arith in
              let rests : Rests id (some job) = rw y at (h.armed id a) in
              rw (load-lem p h.loaded, begin_check)
                (rw y (rw z (snapshot-IsSound job p h y (rests own))))
        ]
]
