-- ===== src/Scheduler/Delivery/Tests.antt =====
-- A pass with one channel that works and one that does not (internal/server/scheduler/scheduler.go).
use fobe.Prelude.{String, [], ◌∷◌, true, none, some, ◌==◌, String-HasEq, ◌≡◌}
use fobe.Store.Alerts.{fresh_alert, undelivered}
use fobe.Scheduler.Delivery.{
  Event, taken, fails, Notifier, Outcome, State, deliver_each, deliver_one, deliver_alerts,
}
use fobe.Scheduler.Delivery.Queue.{settled, deliver_alerts_lem}

program : Unit {0}
unfolding undelivered deliver_each deliver_one settled
program = tt

abbrev plain : String → Event → String → String
plain channel ev err = channel

abbrev node_name : String → String
node_name n = n

abbrev telegram : Notifier
telegram = record {
  name = "telegram";
  configured = true;
  accepts = λ ev. true;
  deliver = λ ev. taken;
}

-- The webhook fails on the alerts of node b.
abbrev webhook : Notifier
webhook = record {
  name = "webhook";
  configured = true;
  accepts = λ ev. ev.node == "b";
  deliver = λ ev. fails "refused";
}

abbrev queue : State
queue = record {
  alerts = record {
    last_id = 2;
    rows =
        fresh_alert 2 "node_offline" "b" "{}" 110 ∷ fresh_alert 1 "node_offline" "a" "{}" 100 ∷ [];
  };
  audited_delivery = [];
  audit = [];
}

deliver_alerts_lem_example :
    (deliver_alerts plain node_name 200 (telegram ∷ webhook ∷ []) queue).alerts.rows
    ≡ fresh_alert 2 "node_offline" "b" "{}" 110
      ∷ record (fresh_alert 1 "node_offline" "a" "{}" 100) { delivered_at = some 200 }
      ∷ []
unfolding program
deliver_alerts_lem_example = deliver_alerts_lem plain node_name 200 (telegram ∷ webhook ∷ []) queue

abbrev half : Outcome
half = record {
  sent = "telegram" ∷ [];
  failed = "webhook" ∷ [];
  errs = ("webhook", "refused") ∷ [];
}

abbrev offline : Event
offline = record {
  kind = "node_offline";
  node = "b";
  node_name = "b";
  payload = "{}";
  created_at = 110;
  recovered_at = none;
}
