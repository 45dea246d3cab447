-- ===== src/Server/RealIp/Tests.antt =====
-- A spoofed header behind one proxy (internal/server/security/xff.go).
use fobe.Prelude.{String, [], ◌∷◌, false, none, some, if◌then◌else◌, ◌==◌, String-HasEq, ◌≡◌, refl}
use fobe.Server.RealIp.{
  Net, Strings, Request, is_trusted, socket_ip, parse_forwarded, walk, real_ip,
}
use fobe.Server.RealIp.Walk.{real_ip_lem}

program : Unit {0}
unfolding is_trusted socket_ip parse_forwarded walk real_ip
program = tt

-- Addresses are texts, and a range holds one.
abbrev small_net : Net String String
small_net = record {
  within = λ n ip. n == ip;
  parse_ip = λ s. if s == "junk" then none else some s;
  split_host_port = λ s. none;
  to_text = λ o. elim o [ none ↦ "<nil>" | some ip ↦ ip ];
  is_loopback = λ ip. ip == "127.0.0.1";
  is_private = λ ip. false;
  is_link_local_unicast = λ ip. false;
  is_unspecified = λ ip. false;
}

abbrev small_strings : Strings
small_strings = record {
  trim_space = λ s. s;
  split_commas = λ s. "10.0.0.9" ∷ "203.0.113.5" ∷ "127.0.0.1" ∷ [];
}

abbrev spoofed : Request
spoofed = record { remote_addr = "127.0.0.1"; forwarded_for = "10.0.0.9,203.0.113.5,127.0.0.1" }

real_ip_lem_example : real_ip small_net small_strings ("127.0.0.1" ∷ []) spoofed ≡ "203.0.113.5"
unfolding program
real_ip_lem_example =
    real_ip_lem small_net small_strings ("127.0.0.1" ∷ []) spoofed ("10.0.0.9" ∷ [])
      ("127.0.0.1" ∷ []) "203.0.113.5" refl refl refl (refl, tt) refl
