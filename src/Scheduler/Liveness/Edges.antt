-- ===== src/Scheduler/Liveness/Edges.antt =====
-- Open alerts and verdicts agree (internal/server/scheduler/scheduler.go with
-- internal/server/hub/handlers.go).
use text.Mathlib.TextEquality.{eq_iff}
use fobe.Prelude.{
  ◌-◌, ℕ, String, List, [], ◌∷◌, Bool, true, false, not, ◌&&◌, ◌||◌, Option, none, some,
  if◌then◌else◌, ◌==◌, String-HasEq, ◌≡◌, refl, sym, ap, ◌∙◌, arith, beq→eq, Bool-cases,
  Option-cases, inl, inr,
}
use fobe.Prelude.Table.{lookup, update, change, lookup-update}
use fobe.Store.Alerts.{create_alert, recover_alert, open_alert, insert, is_null}
use fobe.Store.Alerts
use fobe.Store.Alerts.Queue.{open_alert-recover_alert}
use fobe.Scheduler.Liveness.{
  Node, State, Step, marks, raises, hears, raise_offline, mark_node_offline, seen_online, is_silent,
  last_sign, judge, mark_online_audited, step, run,
}

abbrev pub is_online_row : Option Node → Bool
is_online_row none = false
is_online_row (some n) = n.status == "online"

-- Whether the panel shows the node as online.
unfoldable pub is_online : String → State → Bool
is_online id s = is_online_row (lookup id s.nodes)

abbrev is_none : Option Alerts.Alert → Bool
is_none none = true
is_none (some a) = false

-- Offline, or without an open offline alert.
unfoldable calm : String → State → Bool
unfolding is_online
calm id s = not (is_online id s) || is_none (open_alert "node_offline" id s.alerts)

open_alert-create_alert :
    (now : ℕ) (kind node payload : String) (window : ℕ) (k n : String) (db : Alerts.Db)
    → ((kind == k) && (node == n)) ≡ false
    → open_alert k n (create_alert now kind node payload window db).2 ≡ open_alert k n db
unfolding open_alert create_alert insert
open_alert-create_alert now kind node payload window k n db h = ground arith

is_online_row-marked :
    (id i : String) (o : Option Node)
    → is_online_row (change (λ (n : Node). i == id) (λ n. record n { status = "offline" }) o)
      ≡ (not (id == i) && is_online_row o)
is_online_row-marked id i none = ground arith
is_online_row-marked id i (some n) = elim (Bool-cases (i == id)) [
  | inl y ↦ rw y (ground (arith, y, eq_iff id i, eq_iff i id))
  | inr y ↦ rw y (ground (arith, y, eq_iff id i, eq_iff i id))
]

heard-calm :
    (id i : String) (version : String) (now : ℕ) (m : Node) (o : Option Node)
    (a b : Option Alerts.Alert)
    → b ≡ (if id == i then none else a)
    → (not (is_online_row o) || is_none a) ≡ true
    → (not (is_online_row (change (λ (n : Node). i == id) (seen_online version now) o))
        || is_none b)
      ≡ true
unfolding seen_online
heard-calm id i version now m none a b e h = refl
heard-calm id i version now m (some n) a b e h = elim (Bool-cases (i == id)) [
  | inl y ↦ ground (arith, y, e, eq_iff id i, eq_iff i id)
  | inr y ↦ ground (arith, y, e, h, eq_iff id i, eq_iff i id)
]

none_of : (a : Option Alerts.Alert) → is_none a ≡ true → a ≡ none
none_of none h = refl
none_of (some a) h = ground arith

known-calm :
    (id i : String) (n : Node) (o : Option Node) (a : Option Alerts.Alert)
    → ((id == i) ≡ true → o ≡ some n)
    → (n.status == "online") ≡ true
    → (not (is_online_row o) || is_none a) ≡ true
    → a ≡ (if id == i then none else a)
known-calm id i n o a same online h = elim (Bool-cases (id == i)) [
  | inr y ↦ ground (arith, y)
  | inl y ↦
      let k : (not (n.status == "online") || is_none a) ≡ true = rw (same y) at h in
      let l : is_none a ≡ true = ground (arith, online, k) in ground (arith, y, none_of a l)
]

-- No sign of life of the node falls between the update of its row and the alert, and the alert
-- comes only after the update.
abbrev pub in_turn : String → Bool → Step → Bool
in_turn i marked (marks id) = true
in_turn i marked (raises id silence) = not (id == i) || marked
in_turn i marked (hears id version) = not (id == i) || not marked

-- Is the row marked, and its alert still to come?
abbrev pub after : String → Bool → Step → Bool
after i marked (marks id) = marked || (id == i)
after i marked (raises id silence) = marked && not (id == i)
after i marked (hears id version) = marked

abbrev pub IsUnbroken : String → Bool → List (ℕ × Step) → Type 0
IsUnbroken i marked [] = Unit
IsUnbroken i marked ((now, e) ∷ es) =
    (in_turn i marked e ≡ true) × IsUnbroken i (after i marked e) es

module _ (silent_text : ℕ → String) (online_text : String → ℕ → String) where
  mark_online-calm :
      (id version : String) (now : ℕ) (i : String) (s : State)
      → calm i s ≡ true
      → calm i (mark_online_audited silent_text online_text id version now s) ≡ true
  unfolding calm is_online mark_online_audited seen_online
  mark_online-calm id version now i s h = elim (Option-cases (lookup id s.nodes)) [
    | inl e ↦ rw (e, mark_online_audited) h
    | inr (n, e) ↦ elim (Bool-cases (n.status == "online")) [
      | inl y ↦
          rw (e, mark_online_audited)
            (rw (y, lookup-update (λ k _. k == id) (seen_online version now) i s.nodes)
              (heard-calm id i version now n (lookup i s.nodes)
                (open_alert "node_offline" i s.alerts) (open_alert "node_offline" i s.alerts)
                (known-calm id i n (lookup i s.nodes) (open_alert "node_offline" i s.alerts)
                  (λ same. sym (ap (λ k. lookup k s.nodes) (beq→eq id i same)) ∙ e) y h)
                h))
      | inr y ↦
          rw (e, mark_online_audited)
            (rw (y, lookup-update (λ k _. k == id) (seen_online version now) i s.nodes)
              (heard-calm id i version now n (lookup i s.nodes)
                (open_alert "node_offline" i s.alerts) _
                (open_alert-recover_alert now "node_offline" id "node_offline" i s.alerts) h))
    ]
  ]

  is_online-mark :
      (id i : String) (s : State)
      → is_online i (record s { nodes = mark_node_offline id s.nodes })
        ≡ (not (id == i) && is_online i s)
  unfolding is_online mark_node_offline
  is_online-mark id i s =
      ap is_online_row
        (lookup-update (λ k (_ : Node). k == id) (λ n. record n { status = "offline" }) i s.nodes)
      ∙ is_online_row-marked id i (lookup i s.nodes)

  is_online-hears :
      (id version : String) (now : ℕ) (i : String) (s : State)
      → (id == i) ≡ false
      → is_online i (mark_online_audited silent_text online_text id version now s) ≡ is_online i s
  unfolding is_online mark_online_audited
  is_online-hears id version now i s h = elim (Option-cases (lookup id s.nodes)) [
    | inl e ↦ rw (e, mark_online_audited) refl
    | inr (n, e) ↦
        let same : lookup i (update (λ k _. k == id) (seen_online version now) s.nodes)
            ≡ lookup i s.nodes =
          lookup-update (λ k _. k == id) (seen_online version now) i s.nodes
          ∙ other (lookup i s.nodes) in
        elim (Bool-cases (n.status == "online")) [
          | inl y ↦ rw (e, mark_online_audited) (rw y (ap is_online_row same))
          | inr y ↦ rw (e, mark_online_audited) (rw y (ap is_online_row same))
        ]
  ]
    where
      other : (o : Option Node) → change (λ (n : Node). i == id) (seen_online version now) o ≡ o
      other none = refl
      other (some n) = ground (arith, eq_iff id i, eq_iff i id)

  -- Calm, and offline between the update of the row and its alert.
  record IsCalm (i : String) (marked : Bool) (s : State) : Type 0 where
    quiet : calm i s ≡ true
    down : marked ≡ true → is_online i s ≡ false

  raised-down :
      (now : ℕ) (id : String) (silence : ℕ) (i : String) (s : State)
      → is_online i (raise_offline silent_text online_text now id silence s) ≡ is_online i s
  unfolding is_online raise_offline
  raised-down now id silence i s = refl

  raised-calm :
      (now : ℕ) (id : String) (silence : ℕ) (i : String) (marked : Bool) (s : State)
      → in_turn i marked (raises id silence) ≡ true
      → IsCalm i marked s
      → calm i (raise_offline silent_text online_text now id silence s) ≡ true
  unfolding calm raise_offline
  raised-calm now id silence i marked s o c = elim (Bool-cases (id == i)) [
    | inl y ↦
        let down : is_online i s ≡ false = c.down (ground (arith, o, y)) in
        ground (arith, raised-down now id silence i s, down)
    | inr y ↦
        let same =
          open_alert-create_alert now "node_offline" id "{}" 3600 "node_offline" i s.alerts
            (ground (arith, y)) in
        let quiet = c.quiet in ground (arith, raised-down now id silence i s, same, quiet)
  ]

  step-IsCalm :
      (now : ℕ) (e : Step) (i : String) (marked : Bool) (s : State)
      → in_turn i marked e ≡ true
      → IsCalm i marked s
      → IsCalm i (after i marked e) (step silent_text online_text now e s)
  unfolding calm step
  step-IsCalm now (marks id) i marked s o c = record {
    quiet = ground (arith, is_online-mark id i s, c.quiet);
    down = λ h. ground (arith, is_online-mark id i s, c.down, h);
  }
  step-IsCalm now (raises id silence) i marked s o c = record {
    quiet = raised-calm now id silence i marked s o c;
    down = λ h. raised-down now id silence i s ∙ c.down (ground (arith, h));
  }
  step-IsCalm now (hears id version) i marked s o c = record {
    quiet = mark_online-calm id version now i s c.quiet;
    down = λ h. is_online-hears id version now i s (ground (arith, o, h)) ∙ c.down h;
  }

  run-IsCalm :
      (es : List (ℕ × Step)) (i : String) (marked : Bool) (s : State)
      → IsUnbroken i marked es
      → IsCalm i marked s
      → calm i (run silent_text online_text es s) ≡ true
  unfolding run
  run-IsCalm [] i marked s o c = c.quiet
  run-IsCalm ((now, e) ∷ es) i marked s (o, os) c =
      run-IsCalm es i (after i marked e) (step silent_text online_text now e s) os
        (step-IsCalm now e i marked s o c)

  -- After any history of the two halves of sweeps, the update of a row and its alert, and of
  -- hellos and pings, from a state without an open offline alert for the node: if its alerts
  -- come only after its updates and no sign of life of it falls between the two, a node that the
  -- panel shows as online has no open offline alert.
  pub open_alert-run :
      (es : List (ℕ × Step)) (i : String) (s : State)
      → open_alert "node_offline" i s.alerts ≡ none
      → IsUnbroken i false es
      → is_online i (run silent_text online_text es s) ≡ true
      → open_alert "node_offline" i (run silent_text online_text es s).alerts ≡ none
  unfolding calm
  open_alert-run es i s h o online =
      let start : IsCalm i false s = record {
        quiet = rw h (ground arith);
        down = λ k. ground arith;
      } in
      let last : calm i (run silent_text online_text es s) ≡ true =
        run-IsCalm es i false s o start in
      none_of _ (ground (arith, last, online))

  -- A silent row of a sweep is these two steps, when nothing falls between them.
  judge-run :
      (started_at now : ℕ) (id : String) (n : Node) (s : State)
      → is_silent started_at now n ≡ true
      → judge silent_text online_text started_at now id n s
        ≡ run silent_text online_text
            ((now, marks id) ∷ (now, raises id (now - last_sign n)) ∷ [])
            s
  unfolding judge run step
  judge-run started_at now id n s h = rw (h, judge) refl
