-- ===== src/Scheduler/Delivery/Queue.antt =====
-- Which alerts a pass takes out of the delivery queue (internal/server/scheduler/scheduler.go).
use fobe.Prelude.{
  ℕ, String, contains, String-HasEq, pair-HasEq, List, [], ◌∷◌, Bool, true, false, not, ◌++◌, ◌&&◌,
  some, any_of, keep, map, if◌then◌else◌, ◌==◌, ℕ-HasEq, ◌≡◌, refl, sym, ap, ◌∙◌, arith, Bool-cases,
  inl, inr,
}
use fobe.Store.Alerts.{Alert, mark_delivered, undelivered}
use fobe.Scheduler.Delivery.{
  nothing, attempted, deliver_each, Attempt, taken, not_configured, fails, Event, Notifier, Outcome,
  State, no_names, deliver_one, error_of, audit_channel, audit_channels, audit_delivery, event_of,
  deliver_alert, deliver_list, deliver_alerts,
}

abbrev pub has_failed : Attempt → Bool
has_failed (fails err) = true
has_failed _ = false

module _ (detail : String → Event → String → String) (node_name : String → String) where
  audit_channel-alerts :
      (id : ℕ) (ev : Event) (action err ch : String) (s : State)
      → (audit_channel detail id ev action err ch s).alerts ≡ s.alerts
  unfolding audit_channel
  audit_channel-alerts id ev action err ch s =
      elim (Bool-cases (contains (id, (action, ch)) s.audited_delivery)) [
        | inl y ↦ rw y refl
        | inr y ↦ rw y refl
      ]

  audit_channels-alerts :
      (id : ℕ) (ev : Event) (action : String) (err : String → String) (chs : List String)
      (s : State)
      → (audit_channels detail id ev action err chs s).alerts ≡ s.alerts
  unfolding audit_channels
  audit_channels-alerts id ev action err [] s = refl
  audit_channels-alerts id ev action err (ch ∷ chs) s =
      audit_channels-alerts id ev action err chs (audit_channel detail id ev action (err ch) ch s)
      ∙ audit_channel-alerts id ev action (err ch) ch s

  audit_delivery-alerts :
      (id : ℕ) (ev : Event) (out : Outcome) (s : State)
      → (audit_delivery detail id ev out s).alerts ≡ s.alerts
  unfolding audit_delivery
  audit_delivery-alerts id ev out s =
      audit_channels-alerts id ev "notify_failed" (λ ch. error_of ch out) out.failed
        (audit_channels detail id ev "notify_sent" (λ ch. "") out.sent s)
      ∙ audit_channels-alerts id ev "notify_sent" (λ ch. "") out.sent s

  -- A channel that accepts the event and fails to deliver it.
  abbrev pub fails_on : Event → Notifier → Bool
  fails_on ev n = n.accepts ev && has_failed (n.deliver ev)

  -- Whether no channel that accepts the alert fails.
  unfoldable pub settled : List Notifier → Alert → Bool
  settled targets a = not (any_of (fails_on (event_of detail node_name a)) targets)

  attempted-failed :
      (name : String) (t : Attempt) (out : Outcome)
      → no_names (attempted name t out).failed ≡ (no_names out.failed && not (has_failed t))
  attempted-failed name taken out = ground arith
  attempted-failed name not_configured out = ground arith
  attempted-failed name (fails err) out = appended out.failed
    where
      appended : (xs : List String) → no_names (xs ++ (name ∷ [])) ≡ (no_names xs && false)
      appended [] = refl
      appended (x ∷ xs) = refl

  deliver_each-failed :
      (targets : List Notifier) (ev : Event) (out : Outcome)
      → no_names (deliver_each targets ev out).failed
        ≡ (no_names out.failed && not (any_of (fails_on ev) targets))
  unfolding deliver_each
  deliver_each-failed [] ev out = ground arith
  deliver_each-failed (n ∷ targets) ev out = elim (Bool-cases (n.accepts ev)) [
    | inl y ↦ ground (
      arith,
      y,
      deliver_each-failed targets ev (attempted n.name (n.deliver ev) out),
      attempted-failed n.name (n.deliver ev) out,
    )
    | inr y ↦ ground (arith, y, deliver_each-failed targets ev out)
  ]

  failed-settled :
      (targets : List Notifier) (a : Alert)
      → no_names (deliver_one targets (event_of detail node_name a)).failed ≡ settled targets a
  unfolding settled deliver_one
  failed-settled targets a = deliver_each-failed targets (event_of detail node_name a) nothing

  -- What a pass makes of a row.
  abbrev pub marked : ℕ → List Notifier → List Alert → Alert → Alert
  marked now targets alerts r =
      if any_of (λ a. (r.id == a.id) && settled targets a) alerts
      then record r { delivered_at = some now }
      else r

  map-map : (f g : Alert → Alert) (rows : List Alert) → map f (map g rows) ≡ map (λ r. f (g r)) rows
  map-map f g [] = refl
  map-map f g (r ∷ rows) = ap (λ l. f (g r) ∷ l) (map-map f g rows)

  map-ext :
      (f g : Alert → Alert) (rows : List Alert)
      → ((r : Alert) → f r ≡ g r)
      → map f rows ≡ map g rows
  map-ext f g [] h = refl
  map-ext f g (r ∷ rows) h = rw (h r, map-ext f g rows h) refl

  map-same : (f : Alert → Alert) (rows : List Alert) → ((r : Alert) → f r ≡ r) → map f rows ≡ rows
  map-same f [] h = refl
  map-same f (r ∷ rows) h = rw (h r, map-same f rows h) refl

  marked-one :
      (now : ℕ) (targets : List Notifier) (a : Alert) (alerts : List Alert) (r : Alert)
      → marked now targets alerts (marked now targets (a ∷ []) r)
        ≡ marked now targets (a ∷ alerts) r
  marked-one now targets a alerts r = ground arith

  logged :
      (now : ℕ) (targets : List Notifier) (a : Alert) (s : State)
      → (audit_delivery detail a.id
          (event_of detail node_name a)
          (deliver_one targets (event_of detail node_name a))
          s).alerts
        ≡ s.alerts
  logged now targets a s =
      audit_delivery-alerts a.id (event_of detail node_name a)
        (deliver_one targets (event_of detail node_name a)) s

  marked-settled :
      (now : ℕ) (targets : List Notifier) (a r : Alert)
      → settled targets a ≡ true
      → (if r.id == a.id then record r { delivered_at = some now } else r)
        ≡ marked now targets (a ∷ []) r
  marked-settled now targets a r h = ground arith

  marked-unsettled :
      (now : ℕ) (targets : List Notifier) (a r : Alert)
      → settled targets a ≡ false
      → marked now targets (a ∷ []) r ≡ r
  marked-unsettled now targets a r h = ground arith

  deliver_alert-rows :
      (now : ℕ) (targets : List Notifier) (a : Alert) (s : State)
      → (deliver_alert detail node_name now targets a s).alerts.rows
        ≡ map (marked now targets (a ∷ [])) s.alerts.rows
  unfolding deliver_alert mark_delivered
  deliver_alert-rows now targets a s = elim (Bool-cases (settled targets a)) [
    | inl y ↦
        rw (failed-settled targets a, y, deliver_alert)
          (ap
              (λ d.
                map (λ r. if r.id == a.id then record r { delivered_at = some now } else r) d.rows)
              (logged now targets a s)
            ∙ map-ext _ (marked now targets (a ∷ [])) s.alerts.rows
                (λ r. marked-settled now targets a r y))
    | inr y ↦
        rw (failed-settled targets a, y, deliver_alert)
          (ap (λ d. d.rows) (logged now targets a s)
            ∙ sym (
                map-same (marked now targets (a ∷ [])) s.alerts.rows
                  (λ r. marked-unsettled now targets a r y)))
  ]

  deliver_list-rows :
      (now : ℕ) (targets : List Notifier) (alerts : List Alert) (s : State)
      → (deliver_list detail node_name now targets alerts s).alerts.rows
        ≡ map (marked now targets alerts) s.alerts.rows
  unfolding deliver_list
  deliver_list-rows now targets [] s =
      sym (map-same (marked now targets []) s.alerts.rows (λ r. refl))
  deliver_list-rows now targets (a ∷ alerts) s =
      deliver_list-rows now targets alerts (deliver_alert detail node_name now targets a s)
      ∙ ap (map (marked now targets alerts)) (deliver_alert-rows now targets a s)
      ∙ map-map (marked now targets alerts) (marked now targets (a ∷ [])) s.alerts.rows
      ∙ map-ext _ (marked now targets (a ∷ alerts)) s.alerts.rows (marked-one now targets a alerts)

  -- After a pass with a channel that is configured, an alert that was in the queue has been
  -- marked delivered if no configured channel that accepts it failed on it, and otherwise is as
  -- it was; so is every row with the id of none in the queue. A pass with no such channel
  -- changes no row.
  pub deliver_alerts_lem :
      (now : ℕ) (notifiers : List Notifier) (s : State)
      → (deliver_alerts detail node_name now notifiers s).alerts.rows
        ≡ elim (keep (λ n. n.configured) notifiers) [
          | [] ↦ s.alerts.rows
          | n ∷ ns ↦ map (marked now (n ∷ ns) (undelivered s.alerts)) s.alerts.rows
        ]
  unfolding deliver_alerts
  deliver_alerts_lem now notifiers s = go (keep (λ n. n.configured) notifiers)
    where
      go :
          (targets : List Notifier)
          → (elim targets as (λ l. State) [
            | [] ↦ s
            | n ∷ ns ↦ deliver_list detail node_name now (n ∷ ns) (undelivered s.alerts) s
          ]).alerts.rows
            ≡ elim targets [
              | [] ↦ s.alerts.rows
              | n ∷ ns ↦ map (marked now (n ∷ ns) (undelivered s.alerts)) s.alerts.rows
            ]
      go [] = refl
      go (n ∷ ns) = deliver_list-rows now (n ∷ ns) (undelivered s.alerts) s
