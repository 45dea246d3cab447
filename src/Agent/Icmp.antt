-- ===== src/Agent/Icmp.antt =====
-- The echo packets of the latency probe (internal/agent/icmp_packet.go). A packet is a list of bytes,
-- numbers below 256; a timestamp is the bit pattern of its 64 bits.
pub mod RoundTrip
mod Tests
use fobe.Prelude.{
  ℕ, zero, suc, ◌+◌, ◌-◌, ◌*◌, ◌/◌, ◌%◌, ◌^◌, List, [], ◌∷◌, Bool, true, false, not, ◌&&◌, ◌||◌,
  Option, none, some, length, take, ltb, leb, if◌then◌else◌, ◌==◌, ℕ-HasEq,
}

abbrev pub icmp_header_len : ℕ
icmp_header_len = 8

abbrev pub icmp_payload_len : ℕ
icmp_payload_len = 8

-- The sum of the 16-bit words, in 32 bits.
unfoldable pub sum_words : ℕ → List ℕ → ℕ
sum_words sum [] = sum
sum_words sum (x ∷ []) = (sum + x * 256) % 2 ^ 32
sum_words sum (x ∷ y ∷ rest) = sum_words ((sum + (x * 256 + y)) % 2 ^ 32) rest

-- The loop that folds the carries in; `none` is out of fuel.
unfoldable pub fold_carries : ℕ → ℕ → Option ℕ
fold_carries zero sum = none
fold_carries (suc fuel) sum =
    let rest = fold_carries fuel (sum / 2 ^ 16 + sum % 2 ^ 16) in
    if sum / 2 ^ 16 == 0 then some sum else rest

abbrev complement : ℕ → ℕ
complement sum = 2 ^ 16 - 1 - sum % 2 ^ 16

unfoldable pub icmp_checksum : List ℕ → Option ℕ
unfolding sum_words fold_carries
icmp_checksum bytes = elim (fold_carries 3 (sum_words 0 bytes)) [
  | none ↦ none
  | some sum ↦ some (complement sum)
]

abbrev pub byte : ℕ → ℕ → ℕ
byte n shift = n / 2 ^ shift % 256

abbrev pub uint64_bytes : ℕ → List ℕ
uint64_bytes n =
    byte n 56 ∷ byte n 48 ∷ byte n 40 ∷ byte n 32 ∷ byte n 24 ∷ byte n 16 ∷ byte n 8 ∷ byte n 0 ∷ []

-- The packet with a given checksum field.
unfoldable pub echo_request : ℕ → ℕ → ℕ → ℕ → List ℕ
echo_request checksum id seq sent_nano =
    8
    ∷ 0
    ∷ byte checksum 8
    ∷ byte checksum 0
    ∷ byte id 8
    ∷ byte id 0
    ∷ byte seq 8
    ∷ byte seq 0
    ∷ uint64_bytes sent_nano

unfoldable pub build_icmp_echo_request : ℕ → ℕ → ℕ → Option (List ℕ)
unfolding icmp_checksum echo_request
build_icmp_echo_request id seq sent_nano = elim (icmp_checksum (echo_request 0 id seq sent_nano)) [
  | none ↦ none
  | some checksum ↦ some (echo_request checksum id seq sent_nano)
]

pub record EchoReply : Type 0 where
  pub id : ℕ
  pub seq : ℕ
  pub payload : List ℕ

abbrev pub drop : ℕ → List ℕ → List ℕ
drop zero bytes = bytes
drop (suc n) [] = []
drop (suc n) (b ∷ bytes) = drop n bytes

-- An echo reply in an ICMP segment.
unfoldable pub find_in_segment : List ℕ → Option EchoReply
find_in_segment (kind ∷ code ∷ k₁ ∷ k₀ ∷ i₁ ∷ i₀ ∷ s₁ ∷ s₀ ∷ rest) =
    if ltb (length rest) icmp_payload_len || not (kind == 0)
    then none
    else some
        (record { id = i₁ * 256 + i₀; seq = s₁ * 256 + s₀; payload = take icmp_payload_len rest })
find_in_segment bytes = none

-- The segment behind an IPv4 header, if there is one.
unfoldable pub strip_ip_header : List ℕ → Option (List ℕ)
strip_ip_header [] = some []
strip_ip_header (b ∷ bytes) =
    let ihl = b % 16 * 4 in
    if leb 20 (length (b ∷ bytes)) && (b / 16 == 4)
    then (if ltb ihl 20 || ltb (length (b ∷ bytes)) (ihl + icmp_header_len)
        then none
        else some (drop ihl (b ∷ bytes)))
    else some (b ∷ bytes)

unfoldable pub find_echo_reply : List ℕ → Option EchoReply
unfolding find_in_segment strip_ip_header
find_echo_reply pkt = elim (strip_ip_header pkt) [
  | none ↦ none
  | some segment ↦ find_in_segment segment
]
