-- ===== src/SingboxUpdate/Invariant/Calls.antt =====
-- The calls, the timers and a restart keep the invariant.
use fobe.Prelude.{
  ℕ, String, List, [], ◌∷◌, Bool, true, false, not, Option, none, some, contains, keep, All, ◌==◌,
  String-HasEq, beq→eq, ◌≡◌, refl, arith, Bool-cases, Option-cases, inl, inr,
}
use fobe.SingboxUpdate.Job.{Job, is_terminal, count_results}
use fobe.SingboxUpdate.Manager.{
  Texts, Panel, Runner, new_manager, save_job, load, interrupt, rearm, start, restart, start_update,
  delete_version, arm, disarm, begin_job, wants_check, begin_update, delete_cached,
}
use fobe.SingboxUpdate.History.{IsFresh}
use fobe.SingboxUpdate.Invariant.{
  IsSound, IsProper, IsSnapshot, Working, OptionAll, Rests, same-IsSound, arm-IsSound,
}

pub load-lem : (p : Panel) → p.manager.loaded ≡ true → load p ≡ p
unfolding load
load-lem p h = rw (h, load) refl

contains-keep :
    (id i : String) (armed_at : List String)
    → contains i (keep (λ j. not (j == id)) armed_at) ≡ true
    → contains i armed_at ≡ true
contains-keep id i [] h = h
contains-keep id i (j ∷ armed_at) h = ground (arith, contains-keep id i armed_at)

pub disarm-IsSound : (id : String) (p : Panel) → IsSound p → IsSound (disarm id p)
unfolding disarm
disarm-IsSound id p h = record {
  loaded = h.loaded;
  saved = h.saved;
  working = h.working;
  proper = h.proper;
  armed = λ i a. h.armed i (contains-keep id i p.manager.armed_at a);
  checks = h.checks;
}

-- A new process, and what it loads.
reloaded : Option Job → Panel → Panel
reloaded job p = record p {
  manager = record { job = job; loaded = true; armed_at = [] };
  runners = [];
  checks = [];
}

-- Loading is all but sound: the job may be unfinished.
interrupt-IsSound :
    (now : ℕ) (p : Panel) (job : Option Job)
    → p.last_update ≡ job
    → OptionAll IsProper job
    → IsSound (interrupt now (reloaded job p))
unfolding reloaded interrupt save_job
interrupt-IsSound now p none e proper = record {
  loaded = refl;
  saved = e;
  working = tt;
  proper = tt;
  armed = λ id a. tt;
  checks = tt;
}
interrupt-IsSound now p (some job) e proper = elim (Bool-cases (is_terminal job.state)) [
  | inl y ↦
      rw (y, interrupt)
        (record {
          loaded = refl;
          saved = e;
          working = y;
          proper = proper;
          armed = λ id a. absurd cc;
          checks = tt;
        })
  | inr y ↦
      rw (y, interrupt)
        (record {
          loaded = refl;
          saved = refl;
          working = refl;
          proper = record { named = proper.named; tallied = proper.tallied };
          armed = λ id a. absurd cc;
          checks = tt;
        })
]

pub Rests-ended : (id : String) (p : Panel) → IsSound p → p.runners ≡ [] → Rests id p.manager.job
Rests-ended id p h e = elim (Option-cases p.manager.job) [
  | inl y ↦ rw y tt
  | inr (job, y) ↦ rw y (λ _. rw (e, y) at h.working)
]

runners-interrupt :
    (now : ℕ) (p : Panel) (job : Option Job) → (interrupt now (reloaded job p)).runners ≡ []
unfolding reloaded interrupt save_job
runners-interrupt now p none = refl
runners-interrupt now p (some job) = elim (Bool-cases (is_terminal job.state)) [
  | inl y ↦ rw (y, interrupt) refl
  | inr y ↦ rw (y, interrupt) refl
]

load-restart :
    (p : Panel) (job : Option Job)
    → p.last_update ≡ job
    → OptionAll IsProper job
    → load (record p { manager = new_manager; runners = []; checks = [] }) ≡ reloaded job p
unfolding load reloaded
load-restart p none e proper = rw (e, load) refl
load-restart p (some job) e proper = rw (e, load) (rw proper.named refl)

runners-arm : (id : String) (p : Panel) → (arm id p).runners ≡ p.runners
unfolding arm
runners-arm id p = ground arith

rearm-IsSound : (p : Panel) → IsSound p → p.runners ≡ [] → IsSound (rearm p)
unfolding rearm
rearm-IsSound p h e = elim (Option-cases p.manager.job) [
  | inl y ↦ rw (y, rearm) h
  | inr (job, y) ↦ elim (Bool-cases (wants_check job)) [
    | inl z ↦
        rw (y, rearm)
          (rw z (
            same-IsSound _ (arm job.id p)
              (arm-IsSound job.id p p.runners h (Rests-ended job.id p h e)) refl refl
              (runners-arm job.id p) refl))
    | inr z ↦ rw (y, rearm) (rw z h)
  ]
]

pub restart-IsSound :
    (now : ℕ) (p : Panel) → OptionAll IsProper p.last_update → IsSound (restart now p)
unfolding restart start
restart-IsSound now p proper = rw (load-restart p p.last_update refl proper) (
    rearm-IsSound _ (interrupt-IsSound now p p.last_update refl proper)
      (runners-interrupt now p p.last_update))

contains-lem :
    (id i : String) (ids : List String)
    → contains i ids ≡ true
    → contains id ids ≡ false
    → (id == i) ≡ false
contains-lem id i ids h k = elim (Bool-cases (id == i)) [
  | inr y ↦ y
  | inl y ↦ absurd (let same : id ≡ i = beq→eq id i y in cc)
]

unchecked-IsSnapshot :
    (current : Option Job) (job : Job) (snapshots : List Job)
    → All (IsSnapshot current) snapshots
    → All (λ s. (job.id == s.id) ≡ false) snapshots
    → All (IsSnapshot (some job)) snapshots
unchecked-IsSnapshot current job [] a b = tt
unchecked-IsSnapshot current job (s ∷ snapshots) (a, rest) (b, others) = (
  record { proper = a.proper; ended = a.ended; rests = λ e. absurd cc },
  unchecked-IsSnapshot current job snapshots rest others,
)

started_with :
    (now : ℕ) (id requested target : String) (p : Panel)
    → IsSound p
    → IsFresh id p
    → p.runners ≡ []
    → IsSound (begin_job now id requested target p).1
unfolding save_job count_results
started_with now id requested target p h fresh e = record {
  loaded = h.loaded;
  saved = refl;
  working = rw e (refl, refl);
  proper = record { named = fresh.named; tallied = refl };
  armed = λ i a b. absurd (let k = contains-lem id i p.manager.armed_at a fresh.unarmed in cc);
  checks = unchecked-IsSnapshot p.manager.job _ p.checks h.checks fresh.unchecked;
}

pub runners-lem :
    (p : Panel) (job : Job)
    → IsSound p
    → p.manager.job ≡ some job
    → is_terminal job.state ≡ true
    → p.runners ≡ []
runners-lem p job h e y = ended p.runners job (rw e at h.working) y
  where
    ended :
        (rs : List Runner) (job : Job)
        → Working rs (some job)
        → is_terminal job.state ≡ true
        → rs ≡ []
    ended [] job w y = refl
    ended (r ∷ []) job (same, awake) y = absurd cc
    ended (r ∷ s ∷ rs) job w y = absurd w

runners-none : (rs : List Runner) → Working rs none → rs ≡ []
runners-none [] w = refl
runners-none (r ∷ []) w = absurd w
runners-none (r ∷ s ∷ rs) w = absurd w

begin_update-IsSound :
    (now : ℕ) (id requested target : String) (p : Panel)
    → IsSound p
    → IsFresh id p
    → IsSound (begin_update now id requested target p).1
unfolding begin_update
begin_update-IsSound now id requested target p h fresh = elim (Option-cases p.manager.job) [
  | inl z ↦
      rw (z, begin_update)
        (started_with now id requested target p h fresh
          (runners-none p.runners (rw z at h.working)))
  | inr (job, z) ↦ elim (Bool-cases (is_terminal job.state)) [
    | inl w ↦
        rw (z, begin_update)
          (rw w (started_with now id requested target p h fresh (runners-lem p job h z w)))
    | inr w ↦ rw (z, begin_update) (rw w h)
  ]
]

pub start_update-IsSound :
    (texts : Texts) (now : ℕ) (id version requested : String) (p : Panel)
    → IsSound p
    → IsFresh id p
    → IsSound (start_update texts now id version requested p).1
unfolding start_update
start_update-IsSound texts now id version requested p h fresh =
    elim (Option-cases (texts.canonical version)) [
      | inl y ↦ rw (y, start_update) h
      | inr (target, y) ↦
          rw (y, start_update)
            (rw (load-lem p h.loaded) (begin_update-IsSound now id requested target p h fresh))
    ]

delete_cached-IsSound :
    (v : String) (force : Bool) (p : Panel) → IsSound p → IsSound (delete_cached v force p).1
unfolding delete_cached
delete_cached-IsSound v force p h =
    let (manager, last_update, runners, checks) : ((delete_cached v force p).1.manager ≡ p.manager)
        × ((delete_cached v force p).1.last_update ≡ p.last_update)
        × ((delete_cached v force p).1.runners ≡ p.runners)
        × ((delete_cached v force p).1.checks ≡ p.checks) =
      ground arith in
    same-IsSound p _ h manager last_update runners checks

pub delete_version-IsSound :
    (texts : Texts) (version : String) (force : Bool) (p : Panel)
    → IsSound p
    → IsSound (delete_version texts version force p).1
unfolding delete_version
delete_version-IsSound texts version force p h = elim (Option-cases (texts.canonical version)) [
  | inl y ↦ rw (y, delete_version) h
  | inr (v, y) ↦
      rw (y, delete_version) (rw (load-lem p h.loaded) (delete_cached-IsSound v force p h))
]
