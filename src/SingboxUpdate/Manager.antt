-- ===== src/SingboxUpdate/Manager.antt =====
-- The manager of the distribution (internal/server/singboxupdate/singboxupdate.go): each function is
-- one stretch of the code under the manager's lock, or between two of them. The parsing and trimming
-- of texts and the encoding of the alert are parameters, what the hub and the download answer comes
-- with the call, and the database and the saved JSON do not fail.
use fobe.Prelude.{
  ℕ, ◌+◌, String, List, [], ◌∷◌, ◌++◌, Bool, true, false, not, ◌&&◌, Option, none, some, ltb,
  contains, keep, if◌then◌else◌, ◌==◌, String-HasEq,
}
use fobe.Store.Alerts.{Db}
use fobe.Store.Singbox.{Node, Rows, SingboxTarget, desired_version_refs}
use fobe.SingboxUpdate.Job.{
  Job, JobState, state_done, state_failed, NodeResult, count_results, is_terminal, new_job,
}

-- Fifteen minutes, and the window of the alert, in seconds.
abbrev pub default_converge_after : ℕ
default_converge_after = 900

abbrev pub stale_alert_dedupe_secs : ℕ
stale_alert_dedupe_secs = 3600

pub record Texts : Type 0 where
  pub canonical : String → Option String
  pub norm : String → String
  pub is_blank : String → Bool
  pub encode : Job → List NodeResult → String

pub record Manager : Type 0 where
  pub job : Option Job
  pub loaded : Bool
  pub armed_at : List String

-- Where a job's goroutine stands: before its first state, at the download, or at the nodes left.
pub data Phase : Type 0 where
  spawned : Phase
  fetching : String → Phase
  pushing : String → List SingboxTarget → Phase

pub record Runner : Type 0 where
  pub job_id : String
  pub phase : Phase

-- The panel around the manager. `last_update` is the setting, `checks` are the snapshots that
-- running convergence checks hold.
pub record Panel : Type 0 where
  pub manager : Manager
  pub last_update : Option Job
  pub dl_dir : Bool
  pub cache : List String
  pub nodes : List Node
  pub singbox : Rows
  pub alerts : Db
  pub runners : List Runner
  pub checks : List Job

abbrev pub new_manager : Manager
new_manager = record { job = none; loaded = false; armed_at = [] }

abbrev pub with_job : Option Job → Panel → Panel
with_job job p = record p { manager = record p.manager { job = job } }

-- Set and persisted.
unfoldable pub save_job : Job → Panel → Panel
save_job job p = record (with_job (some job) p) { last_update = some job }

abbrev saved_job : Option Job → Option Job
saved_job none = none
saved_job (some job) = if job.id == "" then none else some job

unfoldable pub load : Panel → Panel
load p = if p.manager.loaded then p else record p {
  manager = record p.manager {
    loaded = true;
    job = elim (saved_job p.last_update) [ none ↦ p.manager.job | some job ↦ some job ];
  };
}

-- The job, if it is still the one that the caller is about.
unfoldable pub alter_job : String → (Job → Job) → Panel → Panel
unfolding save_job
alter_job id f p = elim p.manager.job [
  | none ↦ p
  | some job ↦ if job.id == id then save_job (f job) p else p
]

unfoldable pub set_state : String → JobState → Panel → Panel
unfolding alter_job
set_state id state = alter_job id (λ job. record job { state = state })

unfoldable pub fail : ℕ → String → String → Panel → Panel
unfolding alter_job
fail now id reason =
    alter_job id (λ job. record job { state = state_failed; error = reason; finished_at = now })

unfoldable pub record_result : String → NodeResult → Panel → Panel
unfolding alter_job count_results
record_result id result = alter_job id (λ job.
    let nodes = job.nodes ++ (result ∷ []) in
    record job { nodes = nodes; counts = count_results nodes })

unfoldable pub finish_job : ℕ → String → Panel → Panel
unfolding alter_job
finish_job now id = alter_job id (λ job. record job {
  state = state_done;
  finished_at = now;
  deadline = now + default_converge_after;
})

unfoldable pub arm : String → Panel → Panel
arm id p =
    if contains id p.manager.armed_at
    then p
    else record p { manager = record p.manager { armed_at = id ∷ p.manager.armed_at } }

unfoldable pub disarm : String → Panel → Panel
disarm id p = record p {
  manager = record p.manager { armed_at = keep (λ i. not (i == id)) p.manager.armed_at };
}

abbrev pub running : Panel → Bool
running p = elim p.manager.job [ none ↦ false | some job ↦ not (is_terminal job.state) ]

-- A job that the last process left unfinished has failed.
unfoldable pub interrupt : ℕ → Panel → Panel
unfolding save_job
interrupt now p = elim p.manager.job [
  | none ↦ p
  | some job ↦
      if is_terminal job.state
      then p
      else save_job
          (record job {
            state = state_failed;
            error = "interrupted by server restart";
            finished_at = now;
          })
          p
]

abbrev pub wants_check : Job → Bool
wants_check job =
    not (job.target_version == "") && (ltb 0 job.deadline && not job.convergence_checked)

unfoldable pub rearm : Panel → Panel
unfolding arm
rearm p = elim p.manager.job [ none ↦ p | some job ↦ if wants_check job then arm job.id p else p ]

unfoldable pub start : ℕ → Panel → Panel
unfolding load interrupt rearm
start now p = rearm (interrupt now (load p))

-- A new process: nothing of the old one is left but what it saved.
unfoldable pub restart : ℕ → Panel → Panel
unfolding start
restart now p = start now (record p { manager = new_manager; runners = []; checks = [] })

pub data StartReply : Type 0 where
  bad_version : StartReply
  in_progress : Job → StartReply
  started : Job → StartReply

abbrev pub begin_job : ℕ → String → String → String → Panel → StartReply × Panel
begin_job now id requested target p =
    let job = new_job now id (if requested == "" then target else requested) target in
    (
      started job,
      record (save_job job p) {
        runners = p.runners ++ (record { job_id = id; phase = spawned } ∷ []);
      },
    )

-- One job at a time.
unfoldable pub begin_update : ℕ → String → String → String → Panel → StartReply × Panel
unfolding save_job
begin_update now id requested target p = elim p.manager.job [
  | none ↦ begin_job now id requested target p
  | some job ↦
      if is_terminal job.state then begin_job now id requested target p else (in_progress job, p)
]

-- `id` is the random id of the new job.
unfoldable pub start_update : Texts → ℕ → String → String → String → Panel → StartReply × Panel
unfolding load begin_update
start_update texts now id version requested p = elim (texts.canonical version) [
  | none ↦ (bad_version, p)
  | some target ↦ begin_update now id requested target (load p)
]

pub data DeleteReply : Type 0 where
  deleted bad_version_text update_running no_dl_dir not_cached : DeleteReply
  in_use : ℕ → DeleteReply

-- The files of a version go as `singboxdl.DeleteVersion` has it: an unknown version is an error.
unfoldable pub delete_cached : String → Bool → Panel → DeleteReply × Panel
unfolding desired_version_refs
delete_cached v force p =
    if running p
    then (update_running, p)
    else if not p.dl_dir
    then (no_dl_dir, p)
    else if ltb 0 (desired_version_refs v p.singbox) && not force
    then (in_use (desired_version_refs v p.singbox), p)
    else if contains v p.cache
    then (deleted, record p { cache = keep (λ c. not (c == v)) p.cache })
    else (not_cached, p)

unfoldable pub delete_version : Texts → String → Bool → Panel → DeleteReply × Panel
unfolding load delete_cached
delete_version texts version force p = elim (texts.canonical version) [
  | none ↦ (bad_version_text, p)
  | some v ↦ delete_cached v force (load p)
]
