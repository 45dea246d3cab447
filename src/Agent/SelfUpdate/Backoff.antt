-- ===== src/Agent/SelfUpdate/Backoff.antt =====
-- The pause after a failed download (internal/agent/selfupdate.go), where the shift of 64 bits runs
-- over.
use Prim.Native.Nat.pow
use fobe.Prelude.{
  ℕ, zero, suc, ◌+◌, ◌-◌, ◌*◌, ◌%◌, ◌^◌, ◌≤◌, ◌<◌, Bool, true, ◌&&◌, ◌≡◌, refl, ap, ◌∙◌, arith,
  if◌then◌else◌, ltb, inl, inr, Bool-cases, nat_beq, nat_beq_iff,
}
use fobe.Agent.SelfUpdate.{backoff, shifted, transient_backoff_min}

-- Past 31 doublings the number is a multiple of 2^42, which is more than an hour.
doubled : (k : ℕ) → (x : ℕ) × (transient_backoff_min * 2 ^ (k + 31) ≡ x * 2 ^ 42)
doubled zero = (29296875, refl)
doubled (suc k) =
    let (x, e) = doubled k in
    let next : 2 ^ (suc k + 31) ≡ 2 ^ (k + 31) * 2 =
      ap (λ n. 2 ^ n) (omega arith) ∙ pow.suc 2 (k + 31) in
    (2 * x, omega (arith, next, e))

-- The pause without a limit of bits, in seconds.
abbrev pub doubling : ℕ → ℕ
doubling streak = if ltb streak 6 then 60 * 2 ^ streak else 3600

agrees : ℕ → Bool
agrees k = nat_beq (backoff k) (doubling k)

all_below : ℕ → Bool
all_below zero = true
all_below (suc n) = agrees n && all_below n

small : all_below 31 ≡ true
unfolding all_below agrees backoff
small = refl

below : (n k : ℕ) → all_below n ≡ true → k < n → agrees k ≡ true
unfolding all_below
below zero k h lt = absurd (omega arith)
below (suc n) k h lt = elim (Bool-cases (nat_beq k n)) [
  | inl y ↦ let e : k ≡ n = (nat_beq_iff k n).0 y in ap agrees e ∙ ground arith
  | inr y ↦ below n k (ground arith) (ground arith)
]

-- What the shift leaves of it is zero or above the limit.
large : (k : ℕ) → backoff (k + 31) ≡ 3600
unfolding backoff
large k =
    let (x, e) = doubled k in
    let wrapped : shifted (k + 31) ≡ (x * 2 ^ 42) % 2 ^ 64 = ap (λ n. n % 2 ^ 64) e in
    let whole : (x * 2 ^ 42) % 2 ^ 64 % 2 ^ 42 ≡ 0 = omega arith in ground (arith, wrapped, whole)

-- The pause after a download that failed, `streak` failures having gone before, is 60 · 2^streak
-- seconds below six of them and an hour from then on, also where the shift of 64 bits runs over.
pub backoff-doubling : (streak : ℕ) → backoff streak ≡ doubling streak
unfolding agrees
backoff-doubling streak = elim (Bool-cases (ltb streak 31)) [
  | inl y ↦ (nat_beq_iff _ _).0 (below 31 streak small (ground arith))
  | inr y ↦
      let e : streak ≡ streak - 31 + 31 = ground arith in
      let far : backoff streak ≡ 3600 = ap backoff e ∙ large (streak - 31) in ground (arith, far)
]

doubling_bounds : (streak : ℕ) → (60 ≤ doubling streak) × (doubling streak ≤ 3600)
doubling_bounds zero = ground arith
doubling_bounds (suc zero) = ground arith
doubling_bounds (suc (suc zero)) = ground arith
doubling_bounds (suc (suc (suc zero))) = ground arith
doubling_bounds (suc (suc (suc (suc zero)))) = ground arith
doubling_bounds (suc (suc (suc (suc (suc zero))))) = ground arith
doubling_bounds (suc (suc (suc (suc (suc (suc k)))))) = ground arith

-- A minute at least and an hour at most.
pub backoff_bounds : (streak : ℕ) → (60 ≤ backoff streak) × (backoff streak ≤ 3600)
backoff_bounds streak = rw (backoff-doubling streak) (doubling_bounds streak)
