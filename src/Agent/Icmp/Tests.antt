-- ===== src/Agent/Icmp/Tests.antt =====
-- An echo request, and its answer behind an IPv4 header of 20 bytes.
use fobe.Prelude.{ℕ, List, [], ◌∷◌, ◌++◌, some, ◌≡◌, refl, arith}
use fobe.Agent.Icmp.{build_icmp_echo_request, icmp_checksum, find_echo_reply, uint64_bytes}
use fobe.Agent.Icmp.RoundTrip.{answered, find_echo_reply-build_icmp_echo_request}

abbrev ip_header : List ℕ
ip_header = 69 ∷ 0 ∷ 0 ∷ 36 ∷ 0 ∷ 0 ∷ 0 ∷ 0 ∷ 64 ∷ 1 ∷ 0 ∷ 0 ∷ 8 ∷ 8 ∷ 8 ∷ 8 ∷ 10 ∷ 0 ∷ 0 ∷ 1 ∷ []

build_test :
    build_icmp_echo_request 258 7 1000
    ≡ some (8 ∷ 0 ∷ 243 ∷ 14 ∷ 1 ∷ 2 ∷ 0 ∷ 7 ∷ 0 ∷ 0 ∷ 0 ∷ 0 ∷ 0 ∷ 0 ∷ 3 ∷ 232 ∷ [])
unfolding build_icmp_echo_request
build_test = refl

find_echo_reply-build_icmp_echo_request_example :
    (pkt : List ℕ) × (build_icmp_echo_request 258 7 1000 ≡ some pkt)
    × (icmp_checksum pkt ≡ some 0)
    × (find_echo_reply (ip_header ++ answered 251 14 pkt)
        ≡ some (record { id = 258; seq = 7; payload = uint64_bytes 1000 }))
find_echo_reply-build_icmp_echo_request_example =
    find_echo_reply-build_icmp_echo_request ip_header 251 14 258 7 1000 (refl, omega arith, refl)
      (omega arith) (omega arith)
