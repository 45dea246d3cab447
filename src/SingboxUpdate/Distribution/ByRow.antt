-- ===== src/SingboxUpdate/Distribution/ByRow.antt =====
-- What a distribution means for one row, and for the report, in terms of the rows alone
-- (internal/server/singboxupdate/singboxupdate.go, runJob and pushOne).
use fobe.Prelude.{
  ℕ, String, List, [], ◌∷◌, Bool, true, false, not, ◌&&◌, ◌||◌, Option, none, some, any_of,
  if◌then◌else◌, ◌==◌, String-HasEq, beq→eq, ◌≡◌, refl, ap, ◌∙◌, arith, Bool-cases, Option-cases,
  inl, inr,
}
use fobe.Prelude.Table.{lookup}
use fobe.Store.Singbox.{Node, NodeSingbox, Rows, SingboxTarget, list_singbox_targets, is_target}
use fobe.SingboxUpdate.Job.{Outcome, already_current, pushed, offline_pending, not_updated}
use fobe.SingboxUpdate.Manager.{Texts}
use fobe.SingboxUpdate.Runner.{HubAnswer}
use fobe.SingboxUpdate.Distribution.{distributed, outcome_of, target_of}
use fobe.SingboxUpdate.Distribution.Report.{reported}

-- Sing-box is wanted there.
abbrev pub is_wanted : NodeSingbox → Bool
is_wanted sb = not ((sb.desired_version == "") || sb.desired_uninstall)

-- The row after a distribution: every column is written out.
abbrev pub row_after : Texts → ℕ → String → NodeSingbox → NodeSingbox
row_after texts now target sb =
    if is_wanted sb
      && not ((texts.norm sb.version == target) && (texts.norm sb.desired_version == target))
    then record {
      version = sb.version;
      desired_version = target;
      desired_uninstall = sb.desired_uninstall;
      config_hash = sb.config_hash;
      status = if texts.norm sb.version == target then sb.status else "installing";
      last_error = sb.last_error;
      cert_pem = sb.cert_pem;
      cert_sha256 = sb.cert_sha256;
      cert_not_after = sb.cert_not_after;
      port = sb.port;
      updated_at = now;
    }
    else sb

-- The row of a node after it; a row of no node stays.
abbrev pub rolled_out :
    Texts → ℕ → String → String → List Node → Option NodeSingbox → Option NodeSingbox
rolled_out texts now target node nodes none = none
rolled_out texts now target node nodes (some sb) =
    if any_of (λ n. n.id == node) nodes then some (row_after texts now target sb) else some sb

abbrev pub outcome_for : Texts → String → HubAnswer → NodeSingbox → Outcome
outcome_for texts target answer sb =
    if (texts.norm sb.version == target) && (texts.norm sb.desired_version == target)
    then already_current
    else (if answer.online then (if answer.sent then pushed else not_updated) else offline_pending)

abbrev line_of :
    Texts
    → (String → HubAnswer)
    → String
    → String
    → Option NodeSingbox
    → List (String × Outcome)
    → List (String × Outcome)
line_of texts answers target node none rest = rest
line_of texts answers target node (some sb) rest =
    if is_wanted sb then (node, outcome_for texts target (answers node) sb) ∷ rest else rest

-- The lines of the report: the nodes where sing-box is wanted, in the order of the nodes.
abbrev pub report_of :
    Texts → (String → HubAnswer) → String → List Node → Rows → List (String × Outcome)
report_of texts answers target [] rows = []
report_of texts answers target (n ∷ nodes) rows =
    line_of texts answers target n.id (lookup n.id rows) (report_of texts answers target nodes rows)

distributed-none :
    (texts : Texts) (now : ℕ) (target : String) (t : Option SingboxTarget)
    → distributed texts now target t none ≡ none
distributed-none texts now target none = refl
distributed-none texts now target (some t) = refl

abbrev target_for : Node → NodeSingbox → SingboxTarget
target_for n sb = record {
  node = n.id;
  name = n.name;
  status = n.status;
  version = sb.version;
  desired_version = sb.desired_version;
}

unwanted : (sb : NodeSingbox) → is_target sb ≡ false → is_wanted sb ≡ false
unwanted sb h = ground arith

distributed-row :
    (texts : Texts) (now : ℕ) (target : String) (n : Node) (sb : NodeSingbox)
    → is_target sb ≡ true
    → distributed texts now target (some (target_for n sb)) (some sb)
      ≡ some (row_after texts now target sb)
distributed-row texts now target n sb h = ground arith

outcome_of-row :
    (texts : Texts) (target : String) (answer : HubAnswer) (n : Node) (sb : NodeSingbox)
    → outcome_of texts target answer (target_for n sb) (some sb)
      ≡ outcome_for texts target answer sb
outcome_of-row texts target answer n sb = ground arith

module _ (texts : Texts) (now : ℕ) (target : String) (rows : Rows) where
  -- A row that is no target stays, whether or not there are targets of its node.
  distributed-unwanted :
      (node : String) (nodes : List Node) (sb : NodeSingbox)
      → lookup node rows ≡ some sb
      → is_target sb ≡ false
      → target_of node (list_singbox_targets nodes rows) ≡ none
  unfolding list_singbox_targets
  distributed-unwanted node [] sb e h = refl
  distributed-unwanted node (n ∷ nodes) sb e h =
      let rest = distributed-unwanted node nodes sb e h in
      elim (Bool-cases (n.id == node)) [
        | inl y ↦
            let e' : lookup n.id rows ≡ some sb =
              ap (λ k. lookup k rows) (beq→eq n.id node y) ∙ e in
            rw (e', list_singbox_targets) (rw h rest)
        | inr y ↦ elim (Option-cases (lookup n.id rows)) [
          | inl z ↦ rw (z, list_singbox_targets) rest
          | inr (old, z) ↦ elim (Bool-cases (is_target old)) [
            | inl w ↦ rw (z, list_singbox_targets) (rw w (rw y rest))
            | inr w ↦ rw (z, list_singbox_targets) (rw w rest)
          ]
        ]
      ]

  -- The first target of a node is made of its row.
  target_of-list :
      (node : String) (nodes : List Node) (sb : NodeSingbox)
      → lookup node rows ≡ some sb
      → is_target sb ≡ true
      → distributed texts now target (target_of node (list_singbox_targets nodes rows)) (some sb)
        ≡ rolled_out texts now target node nodes (some sb)
  unfolding list_singbox_targets
  target_of-list node [] sb e h = refl
  target_of-list node (n ∷ nodes) sb e h =
      let rest = target_of-list node nodes sb e h in
      elim (Bool-cases (n.id == node)) [
        | inl y ↦
            let e' : lookup n.id rows ≡ some sb =
              ap (λ k. lookup k rows) (beq→eq n.id node y) ∙ e in
            rw (e', list_singbox_targets) (rw h (rw y (distributed-row texts now target n sb h)))
        | inr y ↦ elim (Option-cases (lookup n.id rows)) [
          | inl z ↦ rw (z, list_singbox_targets) (rw y rest)
          | inr (old, z) ↦ elim (Bool-cases (is_target old)) [
            | inl w ↦ rw (z, list_singbox_targets) (rw w (rw y rest))
            | inr w ↦ rw (z, list_singbox_targets) (rw w (rw y rest))
          ]
        ]
      ]

  pub distributed-list :
      (node : String) (nodes : List Node)
      → distributed texts now target
          (target_of node (list_singbox_targets nodes rows))
          (lookup node rows)
        ≡ rolled_out texts now target node nodes (lookup node rows)
  distributed-list node nodes = elim (Option-cases (lookup node rows)) [
    | inl e ↦ rw e (distributed-none texts now target _)
    | inr (sb, e) ↦ elim (Bool-cases (is_target sb)) [
      | inl h ↦ rw e (target_of-list node nodes sb e h)
      | inr h ↦
          let w = unwanted sb h in
          rw e (rw (distributed-unwanted node nodes sb e h) (ground (arith, w)))
    ]
  ]

  pub reported-list :
      (answers : String → HubAnswer) (nodes : List Node)
      → reported texts now answers target rows (list_singbox_targets nodes rows)
        ≡ report_of texts answers target nodes rows
  unfolding list_singbox_targets
  reported-list answers [] = refl
  reported-list answers (n ∷ nodes) = elim (Option-cases (lookup n.id rows)) [
    | inl e ↦ rw (e, list_singbox_targets) (reported-list answers nodes)
    | inr (sb, e) ↦ elim (Bool-cases (is_target sb)) [
      | inl h ↦
          rw (e, list_singbox_targets)
            (rw (h, e)
              (ground (
                arith,
                h,
                outcome_of-row texts target (answers n.id) n sb,
                reported-list answers nodes,
              )))
      | inr h ↦
          let w = unwanted sb h in
          rw (e, list_singbox_targets) (rw h (ground (arith, w, reported-list answers nodes)))
    ]
  ]
