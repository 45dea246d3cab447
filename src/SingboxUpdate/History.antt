-- ===== src/SingboxUpdate/History.antt =====
-- What may happen to the panel around the distribution, in any order
-- (internal/server/singboxupdate/singboxupdate.go): each step is a call, a stretch of a goroutine
-- between two locks, a restart, or a change of what the manager only reads.
use fobe.Prelude.{
  ℕ, String, List, [], ◌∷◌, ◌++◌, Bool, true, false, Option, none, some, contains, All, ◌==◌,
  String-HasEq, ◌≡◌,
}
use fobe.Store.Alerts.{Db}
use fobe.Store.Singbox.{Node, Rows}
use fobe.SingboxUpdate.Job.{Job}
use fobe.SingboxUpdate.Manager.{
  Texts, Panel, Runner, Phase, new_manager, restart, start_update, delete_version, disarm,
}
use fobe.SingboxUpdate.Runner.{Download, HubAnswer, advance}
use fobe.SingboxUpdate.Check.{begin_check, end_check}

-- The first run of a panel that has no job yet.
abbrev pub installation : Panel
installation = record {
  manager = new_manager;
  last_update = none;
  dl_dir = true;
  cache = [];
  nodes = [];
  singbox = [];
  alerts = record { last_id = 0; rows = [] };
  runners = [];
  checks = [];
}

-- The goroutine in its new place, or gone.
abbrev pub with_runner : List Runner → List Runner → String → Option Phase × Panel → Panel
with_runner before after id (none, p) = record p { runners = before ++ after }
with_runner before after id (some phase, p) = record p {
  runners = before ++ (record { job_id = id; phase = phase } ∷ after);
}

-- A timer fires: its check is under way, or there was none to make.
abbrev pub with_check : String → Panel × Option Job → Panel
with_check id (p, none) = disarm id p
with_check id (p, some job) = record p { checks = job ∷ p.checks }

-- The random id of a job is none that a timer or a check still holds.
pub record IsFresh (id : String) (p : Panel) : Type 0 where
  pub named : (id == "") ≡ false
  pub unarmed : contains id p.manager.armed_at ≡ false
  pub unchecked : All (λ job. (id == job.id) ≡ false) p.checks

module _ (texts : Texts) where
  pub data Step (p : Panel) : Panel → Type 0 where
    boots : (now : ℕ) → Step p (restart now p)
    starts :
        (now : ℕ) (id version requested : String)
        → IsFresh id p
        → Step p (start_update texts now id version requested p).1
    advances :
        (now : ℕ) (download : Download) (answer : HubAnswer) (before after : List Runner)
        (r : Runner)
        → p.runners ≡ before ++ (r ∷ after)
        → Step p (
            with_runner before after r.job_id
              (advance texts now download answer r.job_id r.phase p))
    fires :
        (id : String)
        → contains id p.manager.armed_at ≡ true
        → Step p (with_check id (begin_check id p))
    checks_off :
        (now : ℕ) (before after : List Job) (job : Job)
        → p.checks ≡ before ++ (job ∷ after)
        → Step p (disarm job.id (end_check texts now job (record p { checks = before ++ after })))
    deletes : (version : String) (force : Bool) → Step p (delete_version texts version force p).1
    outside :
        (dl_dir : Bool) (cache : List String) (nodes : List Node) (singbox : Rows) (alerts : Db)
        → Step p (record p {
          dl_dir = dl_dir;
          cache = cache;
          nodes = nodes;
          singbox = singbox;
          alerts = alerts;
        })

  pub data Reachable : Panel → Type 0 where
    first_boot : (now : ℕ) → Reachable (restart now installation)
    later : (p p' : Panel) → Reachable p → Step p p' → Reachable p'
