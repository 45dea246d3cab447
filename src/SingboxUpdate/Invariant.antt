-- ===== src/SingboxUpdate/Invariant.antt =====
-- What holds of the distribution whenever nobody holds the manager's lock
-- (internal/server/singboxupdate/singboxupdate.go).
pub mod Goroutine
pub mod Calls
pub mod Timers
pub mod Reach
use fobe.Prelude.{
  ℕ, String, List, [], ◌∷◌, ◌++◌, Bool, true, false, Option, none, some, contains, All,
  if◌then◌else◌, ◌==◌, String-HasEq, HasEq, beq→eq, beq_refl, ◌≡◌, refl, sym, ap, ◌∙◌, arith,
  Bool-cases, Option-cases, inl, inr, ◌⊎◌, keep, not,
}
use fobe.SingboxUpdate.Job.{Job, JobState, is_terminal, count_results}
use fobe.SingboxUpdate.Manager.{
  Texts, Panel, Manager, Runner, save_job, alter_job, set_state, load, arm, disarm,
}

abbrev pub Tallied : Job → Type 0
Tallied job = job.counts ≡ count_results job.nodes

-- An unfinished job has one goroutine, its own, and nothing else has one.
abbrev pub Working : List Runner → Option Job → Type 0
Working [] none = Unit
Working [] (some job) = is_terminal job.state ≡ true
Working (r ∷ []) (some job) = (r.job_id ≡ job.id) × (is_terminal job.state ≡ false)
Working _ _ = ⊥

-- A job that a timer or a check holds has ended, if it is still the current one.
abbrev pub Rests : String → Option Job → Type 0
Rests id none = Unit
Rests id (some job) = (job.id == id) ≡ true → is_terminal job.state ≡ true

abbrev pub OptionAll : (Job → Type 0) → Option Job → Type 0
OptionAll P none = Unit
OptionAll P (some job) = P job

pub record IsProper (job : Job) : Type 0 where
  pub named : (job.id == "") ≡ false
  pub tallied : Tallied job

pub record IsSnapshot (current : Option Job) (job : Job) : Type 0 where
  pub proper : IsProper job
  pub ended : is_terminal job.state ≡ true
  pub rests : Rests job.id current

pub record IsSound (p : Panel) : Type 0 where
  pub loaded : p.manager.loaded ≡ true
  pub saved : p.last_update ≡ p.manager.job
  pub working : Working p.runners p.manager.job
  pub proper : OptionAll IsProper p.manager.job
  pub armed : (id : String) → contains id p.manager.armed_at ≡ true → Rests id p.manager.job
  pub checks : All (IsSnapshot p.manager.job) p.checks

-- A change of the job that keeps its id and does not wake it.
pub record IsSame (job job' : Job) : Type 0 where
  pub id : job'.id ≡ job.id
  pub ended : is_terminal job.state ≡ true → is_terminal job'.state ≡ true

Rests-IsSame :
    (id : String) (job job' : Job) → IsSame job job' → Rests id (some job) → Rests id (some job')
Rests-IsSame id job job' h r = λ e. h.ended (r (rw h.id at e))

IsSnapshot-IsSame :
    (job job' : Job)
    → IsSame job job'
    → (snapshots : List Job) → All (IsSnapshot (some job)) snapshots
    → All (IsSnapshot (some job')) snapshots
IsSnapshot-IsSame job job' h [] a = tt
IsSnapshot-IsSame job job' h (s ∷ snapshots) (a, rest) = (
  record { proper = a.proper; ended = a.ended; rests = Rests-IsSame s.id job job' h a.rests },
  IsSnapshot-IsSame job job' h snapshots rest,
)

-- Facts of a panel are facts of its manager, setting, goroutines and checks.
pub save_job-IsSound :
    (p : Panel) (rs : List Runner) (job job' : Job)
    → IsSound p
    → p.manager.job ≡ some job
    → IsSame job job'
    → IsProper job'
    → Working rs (some job')
    → IsSound (record (save_job job' p) { runners = rs })
unfolding save_job
save_job-IsSound p rs job job' h e same proper working = record {
  loaded = h.loaded;
  saved = refl;
  working = working;
  proper = proper;
  armed = λ id a. Rests-IsSame id job job' same (rw e at (h.armed id a));
  checks = IsSnapshot-IsSame job job' same p.checks (rw e at h.checks);
}

pub same-IsSound :
    (p p' : Panel)
    → IsSound p
    → p'.manager ≡ p.manager
    → p'.last_update ≡ p.last_update
    → p'.runners ≡ p.runners
    → p'.checks ≡ p.checks
    → IsSound p'
same-IsSound p p' h m l r c = record {
  loaded = rw m h.loaded;
  saved = rw (m, l) h.saved;
  working = rw (m, r) h.working;
  proper = rw m h.proper;
  armed = rw m h.armed;
  checks = rw (m, c) h.checks;
}

pub alter_job-lem :
    (id : String) (f : Job → Job) (p : Panel) (job : Job)
    → p.manager.job ≡ some job
    → (job.id == id) ≡ true
    → alter_job id f p ≡ save_job (f job) p
unfolding alter_job
alter_job-lem id f p job e same = rw (e, alter_job) (rw same refl)

armed_with :
    (id : String) (current : Option Job) (armed_at : List String)
    → ((i : String) → contains i armed_at ≡ true → Rests i current)
    → Rests id current
    → (i : String) → contains i (id ∷ armed_at) ≡ true
    → Rests i current
armed_with id current armed_at h rests i a = elim (Bool-cases (id == i)) [
  | inl y ↦ rw (sym (beq→eq id i y)) rests
  | inr y ↦ h i (rw y at a)
]

pub arm-IsSound :
    (id : String) (p : Panel) (rs : List Runner)
    → IsSound (record p { runners = rs })
    → Rests id p.manager.job
    → IsSound (record (arm id p) { runners = rs })
unfolding arm
arm-IsSound id p rs h rests = elim (Bool-cases (contains id p.manager.armed_at)) [
  | inl y ↦ rw (y, arm) h
  | inr y ↦
      rw (y, arm)
        (record {
          loaded = h.loaded;
          saved = h.saved;
          working = h.working;
          proper = h.proper;
          armed = armed_with id p.manager.job p.manager.armed_at h.armed rests;
          checks = h.checks;
        })
]
