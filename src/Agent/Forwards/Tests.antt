-- ===== src/Agent/Forwards/Tests.antt =====
-- Edits of a probe that forwards two ports (internal/agent/forwards.go).
use fobe.Prelude.{[], ◌∷◌, true, false, any_of, ◌≡◌, refl, String-HasEq, pair-HasEq}
use fobe.Prelude.Int.{pos, ℤ-HasEq}
use fobe.Agent.Forwards.{
  ForwardRule, MasqRule, NftLayout, ForwardsRead, ForwardsPlan, Grammar, done, delete_prerouting,
  delete_postrouting, add_dnat, add_masquerade, same_forward, takes_port, conflict_with,
  validate_comment, validate_forward, resolve_targets, without,
}
use fobe.Agent.Forwards.Plan.{
  drops_for, masq_handles_to_drop, init_stmts, delete_stmts, plan_add, plan_update, plan_delete,
}
use fobe.Agent.Forwards.Conflicts.{
  Packet, matches, plain_takes, other_takes, plan_add-done, plan_update-done,
}
use fobe.Agent.Forwards.Deletion.{plan_delete-twice}

program : Unit {0}
unfolding same_forward takes_port conflict_with validate_comment validate_forward resolve_targets
    without drops_for masq_handles_to_drop init_stmts delete_stmts plan_add plan_update plan_delete
    matches
program = tt

abbrev anything : Grammar
anything = record { is_ipv4 = λ s. true; is_iface = λ s. true; runes = λ s. [] }

abbrev web : ForwardRule
web = record {
  proto = "tcp";
  src_port = pos 80;
  iface = "";
  dst_ip = "10.0.0.2";
  dst_port = pos 8080;
  comment = "";
  handle = pos 5;
  extra_match = false;
}

abbrev dns : ForwardRule
dns = record web { proto = "udp"; src_port = pos 53; dst_port = pos 53; handle = pos 6 }

abbrev candidate : ForwardRule
candidate = record web { src_port = pos 443; iface = "eth0"; handle = pos 0 }

abbrev web_masq : MasqRule
web_masq = record { handle = pos 7; dst_ip = "10.0.0.2"; proto = "tcp"; dst_port = pos 8080 }

abbrev ready : NftLayout
ready = record { table = true; prerouting = true; postrouting = true }

abbrev probe : ForwardsRead
probe = record { rules = web ∷ dns ∷ []; masq = web_masq ∷ []; layout = ready }

abbrev https : Packet
https = record { proto = "tcp"; port = pos 443; iface = "eth0" }

plan_add-done_example : any_of (plain_takes https) probe.rules ≡ false
unfolding program
plan_add-done_example =
    plan_add-done anything probe candidate
      (record {
        stmts = add_dnat candidate ∷ add_masquerade candidate ∷ [];
        ensure_forwarding = true;
      })
      https refl refl

abbrev moved : ForwardsPlan
moved = record {
  stmts =
      delete_prerouting (pos 5)
      ∷ delete_postrouting (pos 7)
      ∷ add_dnat candidate
      ∷ add_masquerade candidate
      ∷ [];
  ensure_forwarding = true;
}

plan_update-done_example : any_of (other_takes (pos 5) https) probe.rules ≡ false
unfolding program
plan_update-done_example = plan_update-done anything probe web candidate moved https refl refl

plan_delete-twice_example :
    plan_delete
      (record {
        rules = web ∷ record web { handle = pos 9; extra_match = true } ∷ dns ∷ [];
        masq = web_masq ∷ [];
        layout = ready;
      })
      web
    ≡ done (record {
      stmts = delete_prerouting (pos 5) ∷ delete_postrouting (pos 7) ∷ [];
      ensure_forwarding = false;
    })
unfolding program
plan_delete-twice_example =
    plan_delete-twice web (record web { handle = pos 9; extra_match = true }) (dns ∷ []) web_masq
      ready refl refl refl refl refl refl
