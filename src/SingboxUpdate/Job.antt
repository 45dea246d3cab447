-- ===== src/SingboxUpdate/Job.antt =====
-- What a distribution is about (internal/server/singboxupdate/singboxupdate.go): one result for each
-- node, their tally, and the job that the panel shows. The actor and the address, which only the
-- audit reads, are left out, and the release, which the download takes.
use fobe.Prelude.{ℕ, ◌+◌, String, List, [], ◌∷◌, Bool, true, false, Option, length}

pub data JobState : Type 0 where
  state_pending state_downloading state_pushing state_done state_failed : JobState

pub data Outcome : Type 0 where
  already_current pushed offline_pending not_updated : Outcome

pub record NodeResult : Type 0 where
  pub node : String
  pub name : String
  pub online : Bool
  pub outcome : Outcome
  pub reason : String
  pub version : String
  pub desired_version : String
  pub converged : Option Bool
  pub checked_at : ℕ

pub record Counts : Type 0 where
  pub total : ℕ
  pub already_current_count : ℕ
  pub pushed_count : ℕ
  pub offline_pending_count : ℕ
  pub failed_count : ℕ

pub record Job : Type 0 where
  pub id : String
  pub state : JobState
  pub requested : String
  pub target_version : String
  pub started_at : ℕ
  pub finished_at : ℕ
  pub deadline : ℕ
  pub error : String
  pub nodes : List NodeResult
  pub counts : Counts
  pub convergence_checked : Bool
  pub checked_at : ℕ
  pub stale : List String
  pub stale_alerted : Bool

abbrev pub no_counts : Counts
no_counts = record {
  total = 0;
  already_current_count = 0;
  pushed_count = 0;
  offline_pending_count = 0;
  failed_count = 0;
}

abbrev pub count : Outcome → Counts → Counts
count already_current c = record c { already_current_count = c.already_current_count + 1 }
count pushed c = record c { pushed_count = c.pushed_count + 1 }
count offline_pending c = record c { offline_pending_count = c.offline_pending_count + 1 }
count not_updated c = record c { failed_count = c.failed_count + 1 }

abbrev pub tally : List NodeResult → Counts → Counts
tally [] c = c
tally (n ∷ nodes) c = tally nodes (count n.outcome c)

unfoldable pub count_results : List NodeResult → Counts
count_results nodes = tally nodes (record no_counts { total = length nodes })

abbrev pub is_terminal : JobState → Bool
is_terminal state_done = true
is_terminal state_failed = true
is_terminal s = false

abbrev pub new_job : ℕ → String → String → String → Job
new_job now id requested target = record {
  id = id;
  state = state_pending;
  requested = requested;
  target_version = target;
  started_at = now;
  finished_at = 0;
  deadline = 0;
  error = "";
  nodes = [];
  counts = no_counts;
  convergence_checked = false;
  checked_at = 0;
  stale = [];
  stale_alerted = false;
}
