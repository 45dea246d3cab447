-- ===== src/SingboxUpdate/Check.antt =====
-- The check of a finished job, `CheckConvergence` and `raiseStaleAlert`
-- (internal/server/singboxupdate/singboxupdate.go): a snapshot of the job, its nodes against the
-- table, the job with the outcome, and one alert for the nodes that are behind. The clock stands
-- still while one check runs.
use Prim.Native.String.{◌++◌}
use fobe.Prelude.{
  ℕ, String, List, [], ◌∷◌, Bool, true, false, not, ◌&&◌, ◌||◌, Option, none, some, if◌then◌else◌,
  ◌==◌, String-HasEq, map,
}
use fobe.Store.Alerts.{create_alert}
use fobe.Store.Singbox.{Rows, get_node_singbox}
use fobe.SingboxUpdate.Job.{Job, NodeResult, Outcome, already_current, not_updated}
use fobe.SingboxUpdate.Manager.{Texts, Panel, load, alter_job, stale_alert_dedupe_secs}

abbrev pub alert_singbox_update_stale : String
alert_singbox_update_stale = "singbox_update_stale"

-- The snapshot, where there is something to check.
unfoldable pub begin_check : String → Panel → Panel × Option Job
unfolding load
begin_check id p =
    let p₁ = load p in
    (
      p₁,
      elim p₁.manager.job [
        | none ↦ none
        | some job ↦
            if not (job.id == id) || (job.convergence_checked || (job.target_version == ""))
            then none
            else some job
      ],
    )

abbrev pub is_settled : Outcome → Bool
is_settled already_current = true
is_settled not_updated = true
is_settled o = false

module _ (texts : Texts) where
  abbrev display_version : String → String
  display_version version = if texts.is_blank version then "(unknown)" else version

  -- Is the node on the target version, and what is there to say if it is not?
  abbrev pub verdict : Rows → String → String → Bool × String
  verdict rows target node = elim (get_node_singbox node rows) [
    | none ↦ (false, "node state unreadable: not found")
    | some sb ↦
        if texts.norm sb.version == target
        then (true, "")
        else (false, "reports " ++ display_version sb.version)
  ]

  unfoldable pub check_node : Rows → ℕ → String → NodeResult → NodeResult
  unfolding get_node_singbox
  check_node rows now target n =
      if is_settled n.outcome
      then n
      else (let (converged, reason) = verdict rows target n.node in
          record n {
            converged = some converged;
            checked_at = now;
            reason = if not converged && not (reason == "") then reason else n.reason;
          })

  -- The nodes that the check has found behind.
  abbrev pub is_behind : Rows → String → NodeResult → Bool
  is_behind rows target n = not (is_settled n.outcome) && not (verdict rows target n.node).0

  unfoldable pub stale_nodes : Rows → ℕ → String → List NodeResult → List NodeResult
  unfolding check_node get_node_singbox
  stale_nodes rows now target [] = []
  stale_nodes rows now target (n ∷ nodes) =
      let rest = stale_nodes rows now target nodes in
      if is_behind rows target n then check_node rows now target n ∷ rest else rest

  unfoldable pub check_job : Rows → ℕ → Job → Job × List NodeResult
  unfolding check_node stale_nodes
  check_job rows now job =
      let stale = stale_nodes rows now job.target_version job.nodes in
      (
        record job {
          nodes = map (check_node rows now job.target_version) job.nodes;
          convergence_checked = true;
          checked_at = now;
          stale = map (λ n. n.node) stale;
        },
        stale,
      )

  -- One alert, which an open one of the last hour stands for.
  unfoldable pub raise_stale_alert : ℕ → Job → List NodeResult → Panel → Panel
  unfolding create_alert alter_job
  raise_stale_alert now job stale p =
      let (alert, fresh, db) =
        create_alert now alert_singbox_update_stale "" (texts.encode job stale)
          stale_alert_dedupe_secs p.alerts in
      alter_job job.id (λ j. record j { stale_alerted = true }) (record p { alerts = db })

  abbrev pub alert_stale : ℕ → Job → List NodeResult → Panel → Panel
  alert_stale now job [] p = p
  alert_stale now job (n ∷ stale) p = raise_stale_alert now job (n ∷ stale) p

  -- What the check does with its snapshot. The alert goes out even if a new job has come.
  unfoldable pub end_check : ℕ → Job → Panel → Panel
  unfolding check_job alter_job raise_stale_alert
  end_check now snapshot p =
      let (job, stale) = check_job p.singbox now snapshot in
      alert_stale now job stale (alter_job job.id (λ _. job) p)

  abbrev pub finish_check : ℕ → Panel × Option Job → Panel
  finish_check now (p, none) = p
  finish_check now (p, some job) = end_check now job p

  unfoldable pub check_convergence : ℕ → String → Panel → Panel
  unfolding begin_check end_check
  check_convergence now id p = finish_check now (begin_check id p)
