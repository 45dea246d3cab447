-- ===== src/SingboxUpdate/Convergence.antt =====
-- What a convergence check finds and how often it speaks (internal/server/singboxupdate/singboxupdate.go).
use fobe.Prelude.{
  ℕ, String, List, [], ◌∷◌, true, false, Option, none, some, map, keep, ◌==◌, String-HasEq,
  beq_refl, beq→eq, Bool, not, ◌&&◌, Option-cases, ◌≡◌, refl, sym, ap, arith, Bool-cases, inl, inr,
}
use fobe.Store.Alerts.{Db, create_alert}
use fobe.Store.Singbox.{NodeSingbox, Rows, get_node_singbox}
use fobe.Prelude.Table.{lookup}
use fobe.SingboxUpdate.Job.{
  Job, NodeResult, Outcome, already_current, pushed, offline_pending, not_updated,
}
use fobe.SingboxUpdate.Manager.{Texts, Panel, save_job, alter_job, stale_alert_dedupe_secs}
use fobe.SingboxUpdate.Check.{
  alert_singbox_update_stale, begin_check, end_check, check_job, check_node, stale_nodes, is_behind,
  is_settled, verdict, alert_stale, raise_stale_alert, check_convergence, finish_check,
}
use fobe.SingboxUpdate.Invariant.{alter_job-lem}
use fobe.SingboxUpdate.Invariant.Calls.{load-lem}

-- Was the node sent the version, or is it to have it when it comes back?
abbrev was_asked : Outcome → Bool
was_asked already_current = false
was_asked not_updated = false
was_asked pushed = true
was_asked offline_pending = true

-- Does the row report the version? No row reports none.
abbrev reports : (String → String) → String → Option NodeSingbox → Bool
reports norm target none = false
reports norm target (some sb) = norm sb.version == target

abbrev pub is_late : (String → String) → Rows → String → NodeResult → Bool
is_late norm rows target n = was_asked n.outcome && not (reports norm target (lookup n.node rows))

-- The ids of the nodes that were asked and do not report the version, in the order of the job.
abbrev pub late : (String → String) → Rows → String → List NodeResult → List String
late norm rows target nodes = map (λ n. n.node) (keep (is_late norm rows target) nodes)

-- What an alert tells of: the job as checked, and its late nodes.
pub record Telling (id : String) (stale : List String) : Type 0 where
  pub told : Job
  pub behind : List NodeResult
  pub of_job : told.id ≡ id
  pub names : told.stale ≡ stale
  pub same : map (λ n. n.node) behind ≡ stale

-- One alert if any node is late, which an open one of the last hour stands for.
abbrev pub Alerted : Texts → ℕ → String → List String → Db → Db → Type 0
Alerted texts now id [] before after = after ≡ before
Alerted texts now id (node ∷ stale) before after =
    (t : Telling id (node ∷ stale)) × (after
      ≡ (create_alert now "singbox_update_stale" "" (texts.encode t.told t.behind) 3600 before).2)

module _ (texts : Texts) where
  verdict-reports :
      (rows : Rows) (target node : String)
      → (verdict texts rows target node).0 ≡ reports texts.norm target (lookup node rows)
  unfolding get_node_singbox
  verdict-reports rows target node = elim (Option-cases (lookup node rows)) [
    | inl e ↦ rw (e, verdict) refl
    | inr (sb, e) ↦ rw (e, verdict) (ground arith)
  ]

  is_settled-was_asked : (o : Outcome) → not (is_settled o) ≡ was_asked o
  is_settled-was_asked already_current = refl
  is_settled-was_asked not_updated = refl
  is_settled-was_asked pushed = refl
  is_settled-was_asked offline_pending = refl

  is_behind-lem :
      (rows : Rows) (target : String) (n : NodeResult)
      → is_behind texts rows target n ≡ is_late texts.norm rows target n
  is_behind-lem rows target n =
      rw (is_settled-was_asked n.outcome, verdict-reports rows target n.node) refl

  stale_nodes-lem :
      (rows : Rows) (now : ℕ) (target : String) (nodes : List NodeResult)
      → map (λ n. n.node) (stale_nodes texts rows now target nodes)
        ≡ late texts.norm rows target nodes
  unfolding stale_nodes check_node
  stale_nodes-lem rows now target [] = refl
  stale_nodes-lem rows now target (n ∷ nodes) =
      ground (arith, is_behind-lem rows target n, stale_nodes-lem rows now target nodes)

  -- A job is checked once.
  begin_check-checked :
      (id : String) (p : Panel) (job : Job)
      → p.manager.loaded ≡ true
      → p.manager.job ≡ some job
      → job.convergence_checked ≡ true
      → begin_check id p ≡ (p, none)
  unfolding begin_check
  begin_check-checked id p job l e c =
      rw (load-lem p l, begin_check)
        (rw (e, begin_check)
          (rw c (elim (Bool-cases (job.id == id)) [ inl y ↦ rw y refl | inr y ↦ rw y refl ])))

  begin_check-lem :
      (id : String) (p : Panel) (job : Job)
      → p.manager.loaded ≡ true
      → p.manager.job ≡ some job
      → (job.id == id) ≡ true
      → job.convergence_checked ≡ false
      → (job.target_version == "") ≡ false
      → begin_check id p ≡ (p, some job)
  unfolding begin_check
  begin_check-lem id p job l e own fresh named =
      rw (load-lem p l, begin_check) (rw (e, begin_check) (rw (own, fresh) (rw named refl)))

  -- The job that a check leaves, and the alerts.
  record IsChecked (now : ℕ) (id : String) (stale : List String) (before : Db) (p : Panel)
      : Type 0 where
    job' : Job
    is_current : p.manager.job ≡ some job'
    checked : job'.convergence_checked ≡ true
    found : job'.stale ≡ stale
    alerted : Alerted texts now id stale before p.alerts
    loaded : p.manager.loaded ≡ true

  alert_stale-IsChecked :
      (now : ℕ) (id : String) (job : Job) (stale : List NodeResult) (p : Panel)
      → p.manager.loaded ≡ true
      → p.manager.job ≡ some job
      → (job.id ≡ id)
      → job.convergence_checked ≡ true
      → job.stale ≡ map (λ n. n.node) stale
      → IsChecked now id (map (λ n. n.node) stale) p.alerts (alert_stale texts now job stale p)
  unfolding raise_stale_alert save_job
  alert_stale-IsChecked now id job [] p l e own c s = record {
    job' = job;
    is_current = e;
    checked = c;
    found = s;
    alerted = refl;
    loaded = l;
  }
  alert_stale-IsChecked now id job (n ∷ stale) p l e own c s =
      let db =
        (create_alert now alert_singbox_update_stale "" (texts.encode job (n ∷ stale))
          stale_alert_dedupe_secs p.alerts).2 in
      rw
        (
          alter_job-lem job.id (λ j. record j { stale_alerted = true }) (record p { alerts = db })
              job e (beq_refl job.id),
          raise_stale_alert,
        )
        (record {
          job' = record job { stale_alerted = true };
          is_current = refl;
          checked = c;
          found = s;
          alerted = (
            record { told = job; behind = n ∷ stale; of_job = own; names = s; same = refl },
            refl,
          );
          loaded = l;
        })

  end_check-IsChecked :
      (now : ℕ) (id : String) (job : Job) (p : Panel)
      → p.manager.loaded ≡ true
      → p.manager.job ≡ some job
      → job.id ≡ id
      → IsChecked now id
          (late texts.norm p.singbox job.target_version job.nodes)
          p.alerts
          (end_check texts now job p)
  unfolding end_check check_job save_job
  end_check-IsChecked now id job p l e own =
      let (job', stale) = check_job texts p.singbox now job in
      let committed : alter_job job.id (λ _. job') p ≡ save_job job' p =
        alter_job-lem job.id (λ _. job') p job e (beq_refl job.id) in
      let told = alert_stale-IsChecked now id job' stale (save_job job' p) l refl own refl refl in
      rw (sym (stale_nodes-lem p.singbox now job.target_version job.nodes))
        (rw (committed, end_check) told)

  check_convergence-begin_check :
      (now : ℕ) (id : String) (p : Panel) (begun : Panel × Option Job)
      → begin_check id p ≡ begun
      → check_convergence texts now id p ≡ finish_check texts now begun
  unfolding check_convergence
  check_convergence-begin_check now id p begun e = ap (finish_check texts now) e

  -- The check of a current job that is not checked yet and has a target names as stale exactly
  -- the nodes of its report, pushed or offline, whose row is missing or does not report the
  -- target version, raises one alert that tells of them if there are any, which an open one of
  -- the last hour stands for, and none otherwise; a second check changes nothing.
  pub check_convergence-lem :
      (now : ℕ) (id : String) (p : Panel) (job : Job)
      → p.manager.loaded ≡ true
      → p.manager.job ≡ some job
      → (job.id == id) ≡ true
      → job.convergence_checked ≡ false
      → (job.target_version == "") ≡ false
      → let p' = check_convergence texts now id p in
        let stale = late texts.norm p.singbox job.target_version job.nodes in
        (job' : Job) × (p'.manager.job ≡ some job')
        × (job'.stale ≡ stale)
        × Alerted texts now id stale p.alerts p'.alerts
        × ((later : ℕ) → check_convergence texts later id p' ≡ p')
  check_convergence-lem now id p job l e own fresh named =
      let begun : begin_check id p ≡ (p, some job) = begin_check-lem id p job l e own fresh named in
      let first : check_convergence texts now id p ≡ end_check texts now job p =
        check_convergence-begin_check now id p _ begun in
      let h = end_check-IsChecked now id job p l e (beq→eq job.id id own) in
      rw first (
        h.job',
        h.is_current,
        h.found,
        h.alerted,
        λ later. check_convergence-begin_check later id (end_check texts now job p) _ (
            begin_check-checked id (end_check texts now job p) h.job' h.loaded h.is_current
              h.checked),
      )
