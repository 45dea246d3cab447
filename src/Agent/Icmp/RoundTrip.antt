-- ===== src/Agent/Icmp/RoundTrip.antt =====
-- An echo request carries a right checksum, and the answer to it is found again.
use fobe.Prelude.{
  ℕ, suc, ◌+◌, ◌-◌, ◌*◌, ◌/◌, ◌%◌, ◌^◌, ◌≤◌, ◌<◌, List, [], ◌∷◌, ◌++◌, true, false, ◌&&◌, ◌||◌,
  some, length, ltb, leb, ◌==◌, ℕ-HasEq, ◌≡◌, refl, sym, ap, ◌∙◌, arith, length-append, inl, inr,
  Bool-cases,
}
use fobe.Agent.Icmp.{
  icmp_header_len, sum_words, fold_carries, complement, icmp_checksum, byte, uint64_bytes,
  echo_request, build_icmp_echo_request, drop, find_in_segment, strip_ip_header, find_echo_reply,
}

-- The sum with no bound on it.
plain_sum : List ℕ → ℕ
plain_sum [] = 0
plain_sum (x ∷ []) = x * 256
plain_sum (x ∷ y ∷ rest) = x * 256 + y + plain_sum rest

sum_words-plain_sum :
    (sum : ℕ) (bytes : List ℕ)
    → sum + plain_sum bytes < 2 ^ 32
    → sum_words sum bytes ≡ sum + plain_sum bytes
unfolding sum_words plain_sum
sum_words-plain_sum sum [] h = omega arith
sum_words-plain_sum sum (x ∷ []) h = omega arith
sum_words-plain_sum sum (x ∷ y ∷ rest) h =
    let small : (sum + (x * 256 + y)) % 2 ^ 32 ≡ sum + (x * 256 + y) = omega arith in
    rw small (sum_words-plain_sum (sum + (x * 256 + y)) rest (omega arith) ∙ omega arith)

-- Folding ends, with the remainder by 65535 that is not zero.
abbrev folded : ℕ → ℕ
folded sum = (sum - 1) % (2 ^ 16 - 1) + 1

folded-small : (sum : ℕ) → 0 < sum → sum < 2 ^ 16 → folded sum ≡ sum
folded-small sum h k = omega arith

folded-step : (sum : ℕ) → 2 ^ 16 ≤ sum → folded (sum / 2 ^ 16 + sum % 2 ^ 16) ≡ folded sum
folded-step sum h = omega arith

fold_carries-fits : (fuel sum : ℕ) → sum < 2 ^ 16 → fold_carries (suc fuel) sum ≡ some sum
unfolding fold_carries
fold_carries-fits fuel sum h =
    let none_left : (sum / 2 ^ 16 == 0) ≡ true = ground arith in rw none_left refl

fold_carries-step :
    (fuel sum : ℕ)
    → 2 ^ 16 ≤ sum
    → fold_carries (suc fuel) sum ≡ fold_carries fuel (sum / 2 ^ 16 + sum % 2 ^ 16)
unfolding fold_carries
fold_carries-step fuel sum h =
    let carries : (sum / 2 ^ 16 == 0) ≡ false = ground arith in rw carries refl

fold_carries-folded : (sum : ℕ) → 0 < sum → sum < 2 ^ 20 → fold_carries 3 sum ≡ some (folded sum)
fold_carries-folded sum h k =
    let once : ℕ = sum / 2 ^ 16 + sum % 2 ^ 16 in
    let twice : ℕ = once / 2 ^ 16 + once % 2 ^ 16 in
    elim (Bool-cases (ltb sum (2 ^ 16))) [
      | inl y ↦
          fold_carries-fits 2 sum (ground arith) ∙ ap some (sym (folded-small sum h (ground arith)))
      | inr y ↦ fold_carries-step 2 sum (ground arith) ∙ elim (Bool-cases (ltb once (2 ^ 16))) [
        | inl z ↦
            fold_carries-fits 1 once (ground arith)
            ∙ ap some (
                sym (folded-small once (ground arith) (ground arith))
                ∙ folded-step sum (ground arith))
        | inr z ↦
            let bound : once < 2 ^ 16 + 16 = omega arith in
            let small : twice < 2 ^ 16 = ground arith in
            fold_carries-step 1 once (ground arith)
            ∙ fold_carries-fits 0 twice small
            ∙ ap some (
                sym (folded-small twice (ground arith) small)
                ∙ folded-step once (ground arith)
                ∙ folded-step sum (ground arith))
      ]
    ]

byte-lt : (n shift : ℕ) → byte n shift < 256
byte-lt n shift = ground arith

-- One word of a packet, and the words after it.
word-lt :
    (hi lo rest bound : ℕ)
    → hi < 256
    → lo < 256
    → rest < bound
    → hi * 256 + lo + rest < 2 ^ 16 + bound
word-lt hi lo rest bound h k r = omega arith

word-bytes : (n : ℕ) → n < 2 ^ 16 → byte n 8 * 256 + byte n 0 ≡ n
word-bytes n h = omega arith

-- A packet's sum is that of its checksum field and that of the rest.
rest_sum : ℕ → ℕ → ℕ → ℕ
unfolding plain_sum echo_request
rest_sum id seq sent_nano = plain_sum (echo_request 0 id seq sent_nano)

positive : (rest : ℕ) → 0 < 2048 + (0 + rest)
positive rest = omega arith

under :
    (rest : ℕ)
    → rest < 2 ^ 16 + (2 ^ 16 + (2 ^ 16 + (2 ^ 16 + (2 ^ 16 + (2 ^ 16 + 1)))))
    → 2048 + (0 + rest) < 2 ^ 19
under rest h = omega arith

regroup :
    (word rest checksum : ℕ) → word ≡ checksum → 2048 + (word + rest) ≡ 2048 + (0 + rest) + checksum
regroup word rest checksum h = omega arith

rest_sum-bounds :
    (id seq sent_nano : ℕ) → (0 < rest_sum id seq sent_nano) × (rest_sum id seq sent_nano < 2 ^ 19)
unfolding rest_sum
rest_sum-bounds id seq sent_nano =
    let word = λ (n hi lo rest bound : ℕ).
      word-lt (byte n hi) (byte n lo) rest bound (byte-lt n hi) (byte-lt n lo) in
    let rest = word id 8 0 _ _ (
      word seq 8 0 _ _ (
        word sent_nano 56 48 _ _ (
          word sent_nano 40 32 _ _
            (word sent_nano 24 16 _ _ (word sent_nano 8 0 0 1 (omega arith)))))) in
    (positive _, under _ rest)

plain_sum-echo_request :
    (checksum id seq sent_nano : ℕ)
    → checksum < 2 ^ 16
    → plain_sum (echo_request checksum id seq sent_nano) ≡ rest_sum id seq sent_nano + checksum
unfolding rest_sum plain_sum echo_request
plain_sum-echo_request checksum id seq sent_nano h = regroup _ _ checksum (word-bytes checksum h)

completed : (sum : ℕ) → 0 < sum → folded (sum + complement (folded sum)) ≡ 2 ^ 16 - 1
completed sum h = omega arith

icmp_checksum-lem :
    (bytes : List ℕ)
    → 0 < plain_sum bytes
    → plain_sum bytes < 2 ^ 20
    → icmp_checksum bytes ≡ some (complement (folded (plain_sum bytes)))
unfolding icmp_checksum
icmp_checksum-lem bytes h k =
    let sum : sum_words 0 bytes ≡ plain_sum bytes =
      sum_words-plain_sum 0 bytes (omega arith) ∙ omega arith in
    rw (sum, icmp_checksum) (rw (fold_carries-folded (plain_sum bytes) h k) refl)

-- The checksum that a request gets, and the request.
request_checksum : ℕ → ℕ → ℕ → ℕ
request_checksum id seq sent_nano = complement (folded (rest_sum id seq sent_nano))

build-lem :
    (id seq sent_nano : ℕ)
    → build_icmp_echo_request id seq sent_nano
      ≡ some (echo_request (request_checksum id seq sent_nano) id seq sent_nano)
unfolding build_icmp_echo_request request_checksum rest_sum
build-lem id seq sent_nano =
    let (low, high) = rest_sum-bounds id seq sent_nano in
    rw
      (
        icmp_checksum-lem (echo_request 0 id seq sent_nano) low (omega arith),
        build_icmp_echo_request,
      )
      refl

checksum-build :
    (id seq sent_nano : ℕ)
    → icmp_checksum (echo_request (request_checksum id seq sent_nano) id seq sent_nano) ≡ some 0
unfolding request_checksum
checksum-build id seq sent_nano =
    let (low, high) = rest_sum-bounds id seq sent_nano in
    let checksum : ℕ = complement (folded (rest_sum id seq sent_nano)) in
    let sum = plain_sum-echo_request checksum id seq sent_nano (omega arith) in
    let whole = completed (rest_sum id seq sent_nano) low in
    icmp_checksum-lem _ (omega arith) (omega arith)
    ∙ ap some (ap (λ s. complement (folded s)) sum ∙ ap complement whole)

-- What a host makes of a request: a reply with a checksum of its own.
abbrev pub answered : ℕ → ℕ → List ℕ → List ℕ
answered k₁ k₀ (kind ∷ code ∷ c₁ ∷ c₀ ∷ rest) = 0 ∷ 0 ∷ k₁ ∷ k₀ ∷ rest
answered k₁ k₀ bytes = bytes

-- What a raw socket puts in front: an IPv4 header, or nothing.
abbrev pub IsIpHeader : List ℕ → Type 0
IsIpHeader [] = Unit
IsIpHeader (b ∷ rest) = (b / 16 ≡ 4) × (20 ≤ length (b ∷ rest)) × (length (b ∷ rest) ≡ b % 16 * 4)

drop-append : (header rest : List ℕ) → drop (length header) (header ++ rest) ≡ rest
drop-append [] rest = refl
drop-append (b ∷ header) rest = drop-append header rest

strip-header :
    (header segment : List ℕ) (b : ℕ)
    → IsIpHeader (b ∷ header)
    → icmp_header_len ≤ length segment
    → strip_ip_header ((b ∷ header) ++ segment) ≡ some segment
unfolding strip_ip_header
strip-header header segment b (version, enough, ihl) long =
    let size = length-append (b ∷ header) segment in
    let whole : ℕ = length (b ∷ (header ++ segment)) in
    let is_ip : (leb 20 whole && (b / 16 == 4)) ≡ true = ground (arith, size) in
    let complete : (ltb (b % 16 * 4) 20 || ltb whole (b % 16 * 4 + icmp_header_len)) ≡ false =
      ground (arith, size) in
    let dropped : drop (b % 16 * 4) ((b ∷ header) ++ segment) ≡ segment =
      rw (sym ihl) (drop-append (b ∷ header) segment) in
    rw (is_ip, strip_ip_header) (rw complete (ap some dropped))

strip_answered :
    (header : List ℕ) (k₁ k₀ checksum id seq sent_nano : ℕ)
    → IsIpHeader header
    → strip_ip_header (header ++ answered k₁ k₀ (echo_request checksum id seq sent_nano))
      ≡ some (answered k₁ k₀ (echo_request checksum id seq sent_nano))
unfolding strip_ip_header echo_request
strip_answered [] k₁ k₀ checksum id seq sent_nano ip = refl
strip_answered (b ∷ header) k₁ k₀ checksum id seq sent_nano ip =
    strip-header header (answered k₁ k₀ (echo_request checksum id seq sent_nano)) b ip (omega arith)

segment-find :
    (k₁ k₀ checksum id seq sent_nano : ℕ)
    → id < 2 ^ 16
    → seq < 2 ^ 16
    → find_in_segment (answered k₁ k₀ (echo_request checksum id seq sent_nano))
      ≡ some (record { id = id; seq = seq; payload = uint64_bytes sent_nano })
unfolding find_in_segment echo_request
segment-find k₁ k₀ checksum id seq sent_nano h k = rw (word-bytes id h, word-bytes seq k) refl

-- For every id and sequence number of 16 bits and every timestamp, an echo request is built, its
-- own checksum verifies, and the answer to it, with whatever checksum and with or without an
-- IPv4 header in front, is found with the same id, sequence number and timestamp bytes.
pub find_echo_reply-build_icmp_echo_request :
    (header : List ℕ) (k₁ k₀ id seq sent_nano : ℕ)
    → IsIpHeader header
    → id < 2 ^ 16
    → seq < 2 ^ 16
    → (pkt : List ℕ) × (build_icmp_echo_request id seq sent_nano ≡ some pkt)
      × (icmp_checksum pkt ≡ some 0)
      × (find_echo_reply (header ++ answered k₁ k₀ pkt)
          ≡ some (record { id = id; seq = seq; payload = uint64_bytes sent_nano }))
unfolding find_echo_reply
find_echo_reply-build_icmp_echo_request header k₁ k₀ id seq sent_nano ip h k =
    let checksum = request_checksum id seq sent_nano in
    let stripped = strip_answered header k₁ k₀ checksum id seq sent_nano ip in
    (
      echo_request checksum id seq sent_nano,
      build-lem id seq sent_nano,
      checksum-build id seq sent_nano,
      rw (stripped, find_echo_reply) (segment-find k₁ k₀ checksum id seq sent_nano h k),
    )
