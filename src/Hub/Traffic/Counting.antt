-- ===== src/Hub/Traffic/Counting.antt =====
-- What one reading of one counter adds to the day buckets (`accumulate` of
-- internal/server/hub/handlers.go).
use text.Mathlib.TextEquality.{eq_iff}
use fobe.Prelude.{
  ℕ, ◌+◌, ◌-◌, ◌^◌, ◌<◌, String, List, [], ◌∷◌, Bool, true, false, not, ◌&&◌, ◌||◌, some, ltb,
  if◌then◌else◌, ◌==◌, String-HasEq, pair-HasEq, ◌≡◌, refl, arith,
}
use fobe.Prelude.Int.{ℤ, pos, ◌-ℤ◌, ltb_ℤ}
use fobe.Prelude.Table.{lookup, upsert, lookup-upsert}
use fobe.Hub.Traffic.{
  Counter, Day, Network, Calendar, Db, wrap64, is_reset, delta_of, advance, add_traffic_daily,
  warn_counter_reset, accumulate,
}

-- The two directions: `true` is receiving.
abbrev pub side : Bool → String
side true = "rx"
side false = "tx"

abbrev pub pick {ℓ} : {A : Type ℓ} → Bool → A → A → A
pick true rx tx = rx
pick false rx tx = tx

-- All bytes that the buckets of a node hold in one direction.
abbrev pub total : Bool → String → List ((String × String) × Day) → ℕ
total b node [] = 0
total b node (((n, date), d) ∷ daily) =
    (if n == node then pick b d.rx_bytes d.tx_bytes else 0) + total b node daily

-- The bytes between two readings: none on a fall of the counter or of the time.
abbrev pub gained : ℤ → ℕ → ℤ → ℕ → ℕ
gained t₀ r₀ t r = if ltb r r₀ || ltb_ℤ t t₀ then 0 else r - r₀

delta_of-gained :
    (prev : Counter) (r₀ r : ℕ) (t : ℤ)
    → prev.last_raw ≡ pos r₀
    → r₀ < 2 ^ 63
    → r < 2 ^ 63
    → delta_of prev t (pos r) ≡ pos (gained prev.last_ts r₀ t r)
unfolding delta_of is_reset wrap64 ◌-ℤ◌
delta_of-gained prev r₀ r t e h k = ground arith

total-add :
    (b : Bool) (node date m : String) (rx tx : ℕ) (daily : List ((String × String) × Day))
    → total b m (
        upsert
          (node, date)
          (record { rx_bytes = rx; tx_bytes = tx })
          (λ d. record { rx_bytes = d.rx_bytes + rx; tx_bytes = d.tx_bytes + tx })
          daily)
      ≡ total b m daily + (if node == m then pick b rx tx else 0)
unfolding upsert
total-add true node date m rx tx [] = ground arith
total-add false node date m rx tx [] = ground arith
total-add true node date m rx tx (((n, x), d) ∷ daily) =
    ground (arith, eq_iff n node, eq_iff n m, eq_iff node m, total-add true node date m rx tx daily)
total-add false node date m rx tx (((n, x), d) ∷ daily) =
    ground
      (arith, eq_iff n node, eq_iff n m, eq_iff node m, total-add false node date m rx tx daily)

abbrev pub same_side : Bool → Bool → Bool
same_side true c = c
same_side false c = not c

module _ (quota : Calendar) (payload : String → String → ℤ → String) where
  -- A report of a known counter in the direction `c`, and the bytes of the direction `b`.
  pub accumulate-total :
      (b c : Bool) (now : ℕ) (node : String) (net : Network) (t : ℤ) (r₀ r : ℕ) (prev : Counter)
      (m : String) (db : Db)
      → lookup (node, (net.iface, side c)) db.counters ≡ some prev
      → prev.last_raw ≡ pos r₀
      → r₀ < 2 ^ 63
      → r < 2 ^ 63
      → total b m (accumulate quota payload now node net t (side c) (pos r) db).daily
        ≡ total b m db.daily
          + (if (node == m) && same_side b c then gained prev.last_ts r₀ t r else 0)
  unfolding accumulate add_traffic_daily warn_counter_reset
  accumulate-total true true now node net t r₀ r prev m db e h k l = ground (
    arith,
    delta_of-gained prev r₀ r t h k l,
    total-add true node (quota.local_date t net.tz) m (gained prev.last_ts r₀ t r) 0 db.daily,
  )
  accumulate-total false true now node net t r₀ r prev m db e h k l = ground (
    arith,
    delta_of-gained prev r₀ r t h k l,
    total-add false node (quota.local_date t net.tz) m (gained prev.last_ts r₀ t r) 0 db.daily,
  )
  accumulate-total true false now node net t r₀ r prev m db e h k l = ground (
    arith,
    delta_of-gained prev r₀ r t h k l,
    total-add true node (quota.local_date t net.tz) m 0 (gained prev.last_ts r₀ t r) db.daily,
  )
  accumulate-total false false now node net t r₀ r prev m db e h k l = ground (
    arith,
    delta_of-gained prev r₀ r t h k l,
    total-add false node (quota.local_date t net.tz) m 0 (gained prev.last_ts r₀ t r) db.daily,
  )

  pub advance-seen :
      (net : Network) (t raw : ℤ) (prev : Counter)
      → ((advance quota net t raw prev).last_raw ≡ raw)
        × ((advance quota net t raw prev).last_ts ≡ t)
  unfolding advance
  advance-seen net t raw prev = (refl, refl)

  -- The counters after a report: its own moves on, the others stay.
  pub accumulate-lookup :
      (now : ℕ) (node : String) (net : Network) (t : ℤ) (dir other : String) (raw : ℤ)
      (prev : Counter) (db : Db)
      → lookup (node, (net.iface, dir)) db.counters ≡ some prev
      → lookup
          (node, (net.iface, other))
          (accumulate quota payload now node net t dir raw db).counters
        ≡ (if dir == other
            then some (advance quota net t raw prev)
            else lookup (node, (net.iface, other)) db.counters)
  unfolding accumulate add_traffic_daily warn_counter_reset
  accumulate-lookup now node net t dir other raw prev db e =
      let next = advance quota net t raw prev in
      ground (
        arith,
        eq_iff node node,
        eq_iff net.iface net.iface,
        eq_iff dir other,
        lookup-upsert (node, (net.iface, dir)) (node, (net.iface, other)) next (λ _. next)
            db.counters,
      )

  pub accumulate-networks :
      (now : ℕ) (node : String) (net : Network) (t : ℤ) (dir : String) (raw : ℤ) (db : Db)
      → (accumulate quota payload now node net t dir raw db).networks ≡ db.networks
  unfolding accumulate add_traffic_daily warn_counter_reset
  accumulate-networks now node net t dir raw db = ground arith
