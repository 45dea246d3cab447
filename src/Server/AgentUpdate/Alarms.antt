-- ===== src/Server/AgentUpdate/Alarms.antt =====
-- The alerts of one node's update (internal/server/agentupdate/agentupdate.go, OnReport).
use fobe.Prelude.{
  ℕ, String, List, [], ◌∷◌, Bool, true, false, ◌&&◌, ◌||◌, Option, none, some, ◌≡◌, refl, sym, ap,
  ◌∙◌, arith, if◌then◌else◌, ◌==◌, String-HasEq, leb, ltb, not, first_of?, Bool-cases, beq→eq,
  Option-cases, inl, inr,
}
use fobe.Prelude.Table.{lookup}
use text.Mathlib.TextEquality.{eq_iff}
use fobe.Store.Alerts as Alerts
use fobe.Store.Alerts.{Alert, is_open, create_alert, recover_alert, open_alert, duplicate, insert}
use fobe.Store.Alerts.Queue.{open_alert-recover_alert}
use fobe.Store.Nodes.{Node}
use fobe.Agent.SelfUpdate.{Report}
use fobe.Server.AgentUpdate.{
  Texts, Panel, state_of, has_changed, recover_both, unsupported_recovers, alert_on, on_report,
}

abbrev pub is_some {ℓ} : {A : Type ℓ} → Option A → Bool
is_some none = false
is_some (some a) = true

-- Is an alert of the kind open for the node?
abbrev pub rings : String → String → Alerts.Db → Bool
rings kind node db = is_some (open_alert kind node db)

duplicate-open :
    (now window : ℕ) (kind node : String) (rows : List Alert) (a : Alert)
    → duplicate now window kind node rows ≡ some a
    → is_some (first_of? (is_open kind node) rows) ≡ true
unfolding duplicate
duplicate-open now window kind node [] a h = ground arith
duplicate-open now window kind node (x ∷ xs) a h =
    ground (arith, duplicate-open now window kind node xs a)

rings-create_alert :
    (now window : ℕ) (kind node payload k : String) (db : Alerts.Db)
    → rings k node (create_alert now kind node payload window db).2
      ≡ (if kind == k then true else rings k node db)
unfolding create_alert open_alert insert
rings-create_alert now window kind node payload k db =
    elim (Option-cases (duplicate now window kind node db.rows)) [
      | inl e ↦ ground (arith, eq_iff kind k, eq_iff node node)
      | inr (a, e) ↦
          let rung = duplicate-open now window kind node db.rows a e in
          elim (Bool-cases (kind == k)) [
            | inl y ↦
                let same : kind ≡ k = (eq_iff kind k).0 y in
                let rung' : is_some (first_of? (is_open k node) db.rows) ≡ true =
                  sym (ap (λ j. is_some (first_of? (is_open j node) db.rows)) same) ∙ rung in
                ground (arith, rung', eq_iff node node)
            | inr y ↦ ground (arith, eq_iff node node)
          ]
    ]

abbrev failed_after : String → Bool → Bool
failed_after s before =
    if (s == "committed") || (s == "unsupported")
    then false
    else (if (s == "failed") || (s == "suppressed") then true else before)

abbrev transient_after : String → ℕ → Bool → Bool
transient_after s attempts before =
    if (s == "committed") || (s == "unsupported")
    then false
    else (if (s == "transient") && leb 3 attempts then true else before)

-- The states that the switch of OnReport tells apart.
data Kind (s : String) : Type 0 where
  committed : s ≡ "committed" → Kind s
  unsupported : s ≡ "unsupported" → Kind s
  failed : s ≡ "failed" → Kind s
  suppressed : s ≡ "suppressed" → Kind s
  transient : s ≡ "transient" → Kind s
  other :
      (s == "committed") ≡ false
      → (s == "unsupported") ≡ false
      → (s == "failed") ≡ false
      → (s == "suppressed") ≡ false
      → (s == "transient") ≡ false
      → Kind s

state_cases : (s : String) → Kind s
state_cases s = elim (Bool-cases (s == "committed")) [
  | inl y ↦ Kind.committed (beq→eq s "committed" y)
  | inr a ↦ elim (Bool-cases (s == "unsupported")) [
    | inl y ↦ Kind.unsupported (beq→eq s "unsupported" y)
    | inr b ↦ elim (Bool-cases (s == "failed")) [
      | inl y ↦ Kind.failed (beq→eq s "failed" y)
      | inr c ↦ elim (Bool-cases (s == "suppressed")) [
        | inl y ↦ Kind.suppressed (beq→eq s "suppressed" y)
        | inr d ↦ elim (Bool-cases (s == "transient")) [
          | inl y ↦ Kind.transient (beq→eq s "transient" y)
          | inr f ↦ Kind.other a b c d f
        ]
      ]
    ]
  ]
]

-- A report that changes something reaches the alerts.
alerts-on_report :
    (texts : Texts) (now : ℕ) (node : String) (r : Report) (n : Node) (p : Panel)
    → lookup node p.nodes ≡ some n
    → (r.target == "") ≡ false
    → (r.phase == "") ≡ false
    → has_changed r n ≡ true
    → (on_report texts now node r p).alerts
      ≡ alert_on texts now node (state_of r) r (unsupported_recovers now node (state_of r) p.alerts)
unfolding on_report
alerts-on_report texts now node r n p e h k c = rw (h, k) (rw e (rw c refl))

module _ (now : ℕ) (node : String) where
  rings-recover_alert :
      (kind k : String) (db : Alerts.Db)
      → rings k node (recover_alert now kind node db)
        ≡ (if kind == k then false else rings k node db)
  rings-recover_alert kind k db =
      ground (arith, open_alert-recover_alert now kind node k node db, eq_iff node node)

  failed-recover_both :
      (db : Alerts.Db) → rings "agent_update_failed" node (recover_both now node db) ≡ false
  failed-recover_both db =
      rings-recover_alert "agent_update_transient" "agent_update_failed"
        (recover_alert now "agent_update_failed" node db)
      ∙ rings-recover_alert "agent_update_failed" "agent_update_failed" db

  transient-recover_both :
      (db : Alerts.Db) → rings "agent_update_transient" node (recover_both now node db) ≡ false
  transient-recover_both db =
      rings-recover_alert "agent_update_transient" "agent_update_transient"
        (recover_alert now "agent_update_failed" node db)

  failed-alert_on :
      (texts : Texts) (s : String) (r : Report) (db : Alerts.Db)
      → rings "agent_update_failed" node
          (alert_on texts now node s r (unsupported_recovers now node s db))
        ≡ failed_after s (rings "agent_update_failed" node db)
  unfolding alert_on
  failed-alert_on texts s r db = elim (state_cases s) [
    | committed e ↦ rw e (failed-recover_both db)
    | unsupported e ↦ rw e (failed-recover_both db)
    | failed e ↦ rw e (rung (texts.node_payload r "terminal failure"))
    | suppressed e ↦ rw e (rung (texts.node_payload r "gave up after repeated failures"))
    | transient e ↦ elim (Bool-cases (leb 3 r.attempts)) [
      | inl y ↦ rw (e, y) (spared (texts.node_payload r "repeated environment failures"))
      | inr y ↦ rw (e, y) refl
    ]
    | other a b c d f ↦ rw (a, b, c, d, f) refl
  ]
    where
      rung :
          (payload : String)
          → rings "agent_update_failed" node
              (create_alert now "agent_update_failed" node payload 3600 db).2
            ≡ true
      rung payload =
          rings-create_alert now 3600 "agent_update_failed" node payload "agent_update_failed" db

      spared :
          (payload : String)
          → rings "agent_update_failed" node
              (create_alert now "agent_update_transient" node payload 3600 db).2
            ≡ rings "agent_update_failed" node db
      spared payload =
          rings-create_alert now 3600 "agent_update_transient" node payload "agent_update_failed" db

  transient-alert_on :
      (texts : Texts) (s : String) (r : Report) (db : Alerts.Db)
      → rings "agent_update_transient" node
          (alert_on texts now node s r (unsupported_recovers now node s db))
        ≡ transient_after s r.attempts (rings "agent_update_transient" node db)
  unfolding alert_on
  transient-alert_on texts s r db = elim (state_cases s) [
    | committed e ↦ rw e (transient-recover_both db)
    | unsupported e ↦ rw e (transient-recover_both db)
    | failed e ↦ rw e (spared (texts.node_payload r "terminal failure"))
    | suppressed e ↦ rw e (spared (texts.node_payload r "gave up after repeated failures"))
    | transient e ↦ elim (Bool-cases (leb 3 r.attempts)) [
      | inl y ↦ rw (e, y) (rung (texts.node_payload r "repeated environment failures"))
      | inr y ↦ rw (e, y) refl
    ]
    | other a b c d f ↦ rw (a, b, c, d, f) refl
  ]
    where
      rung :
          (payload : String)
          → rings "agent_update_transient" node
              (create_alert now "agent_update_transient" node payload 3600 db).2
            ≡ true
      rung payload =
          rings-create_alert now 3600 "agent_update_transient" node payload "agent_update_transient"
            db

      spared :
          (payload : String)
          → rings "agent_update_transient" node
              (create_alert now "agent_update_failed" node payload 3600 db).2
            ≡ rings "agent_update_transient" node db
      spared payload =
          rings-create_alert now 3600 "agent_update_failed" node payload "agent_update_transient" db

-- An attempt that has failed for good: a failure that is not of the environment, or a giving up.
abbrev pub ends_badly : Report → Bool
ends_badly r = ((r.phase == "failed") && not (r.class == "transient")) || (r.phase == "suppressed")

-- A failure of the environment, the third attempt at least; a report may also name it itself.
abbrev pub fails_again : Report → Bool
fails_again r =
    (((r.phase == "failed") && (r.class == "transient")) || (r.phase == "transient"))
    && ltb 2 r.attempts

abbrev pub recovers : Report → Bool
recovers r = (r.phase == "committed") || (r.phase == "unsupported")

environment :
    (r : Report) → r.phase ≡ "failed" → (r.class == "transient") ≡ true → state_of r ≡ "transient"
environment r e y = rw (e, y) refl

no_environment :
    (r : Report) → r.phase ≡ "failed" → (r.class == "transient") ≡ false → state_of r ≡ "failed"
no_environment r e y = rw (e, y) refl

failed_after-state_of :
    (r : Report) (before : Bool)
    → failed_after (state_of r) before
      ≡ (if recovers r then false else (if ends_badly r then true else before))
failed_after-state_of r before = elim (state_cases r.phase) [
  | committed e ↦ rw e refl
  | unsupported e ↦ rw e refl
  | failed e ↦ elim (Bool-cases (r.class == "transient")) [
    | inl y ↦ ap (λ s. failed_after s before) (environment r e y) ∙ rw (e, y) (ground arith)
    | inr y ↦ ap (λ s. failed_after s before) (no_environment r e y) ∙ rw (e, y) (ground arith)
  ]
  | suppressed e ↦ rw e refl
  | transient e ↦ rw e (ground arith)
  | other a b c d f ↦ rw c (ground (arith, a, b, c, d, f))
]

transient_after-state_of :
    (r : Report) (before : Bool)
    → transient_after (state_of r) r.attempts before
      ≡ (if recovers r then false else (if fails_again r then true else before))
transient_after-state_of r before = elim (state_cases r.phase) [
  | committed e ↦ rw e refl
  | unsupported e ↦ rw e refl
  | failed e ↦ elim (Bool-cases (r.class == "transient")) [
    | inl y ↦
        ap (λ s. transient_after s r.attempts before) (environment r e y) ∙ rw (e, y) (ground arith)
    | inr y ↦
        ap (λ s. transient_after s r.attempts before) (no_environment r e y)
        ∙ rw (e, y) (ground arith)
  ]
  | suppressed e ↦ rw e refl
  | transient e ↦ rw e (ground arith)
  | other a b c d f ↦ rw c (ground (arith, a, b, c, d, f))
]

-- A report with a target and a phase, from a node of the table and unlike what the table holds,
-- leaves an alert on a terminal failure open for that node after a failed or suppressed attempt,
-- none after a committed or unsupported one, and else as it was; and one on transient failures
-- open after a transient failure that is at least the third, none after a committed or
-- unsupported one, and else as it was.
pub rings-on_report :
    (texts : Texts) (now : ℕ) (node : String) (r : Report) (n : Node) (p : Panel)
    → lookup node p.nodes ≡ some n
    → (r.target == "") ≡ false
    → (r.phase == "") ≡ false
    → has_changed r n ≡ true
    → (rings "agent_update_failed" node (on_report texts now node r p).alerts ≡ (
        if recovers r
        then false
        else (if ends_badly r then true else rings "agent_update_failed" node p.alerts)))
      × (rings "agent_update_transient" node (on_report texts now node r p).alerts ≡ (
          if recovers r
          then false
          else (if fails_again r then true else rings "agent_update_transient" node p.alerts)))
rings-on_report texts now node r n p e h k c =
    let taken = alerts-on_report texts now node r n p e h k c in
    rw taken (
      failed-alert_on now node texts (state_of r) r p.alerts
          ∙ failed_after-state_of r (rings "agent_update_failed" node p.alerts),
      transient-alert_on now node texts (state_of r) r p.alerts
          ∙ transient_after-state_of r (rings "agent_update_transient" node p.alerts),
    )
