-- ===== src/Hub/Traffic.antt =====
-- Traffic accounting (`onTraffic`, `accumulate` and `warnCounterReset` of
-- internal/server/hub/handlers.go, with the queries of internal/server/store/traffic.go that they
-- call). A probe's counters are uint64 and are kept as int64, whose wrap-around is written out; the
-- sums in `traffic_daily` are not bounded. A query that fails changes nothing and is left out. What
-- package quota computes from Go's calendar, and the JSON of an alert, are parameters.
pub mod Counting
pub mod Totals
mod Tests
use fobe.Prelude.{
  ℕ, ◌+◌, ◌-◌, ◌^◌, String, List, Bool, true, false, not, ◌&&◌, ◌||◌, Option, none, some, ltb,
  if◌then◌else◌, ◌==◌, String-HasEq, pair-HasEq,
}
use fobe.Prelude.Int.{ℤ, pos, negsuc, ◌+ℤ◌, ◌-ℤ◌, ltb_ℤ, beq_ℤ}
use fobe.Prelude.Table.{lookup, upsert, put}
use fobe.Store.Alerts.{create_alert}
use fobe.Store.Alerts

-- An integer of less than twice the range of int64, as int64 keeps it.
unfoldable pub wrap64 : ℤ → ℤ
wrap64 (pos n) = if ltb n (2 ^ 63) then pos n else pos n -ℤ pos (2 ^ 64)
wrap64 (negsuc n) = if ltb n (2 ^ 63) then negsuc n else negsuc n +ℤ pos (2 ^ 64)

-- int64 of a uint64.
unfoldable pub int64 : ℕ → ℤ
unfolding wrap64
int64 n = wrap64 (pos n)

-- The columns of `traffic_counters` beside the key (node, interface, direction).
pub record Counter : Type 0 where
  pub last_raw : ℤ
  pub last_ts : ℤ
  pub period_start : ℤ
  pub period_used : ℤ

pub record Day : Type 0 where
  pub rx_bytes : ℕ
  pub tx_bytes : ℕ

pub record Network : Type 0 where
  pub iface : String
  pub cycle_type : String
  pub next_reset_at : Option ℤ
  pub tz : String

pub record Traffic : Type 0 where
  pub iface : String
  pub rx : ℕ
  pub tx : ℕ

-- What package quota says of an instant.
pub record Calendar : Type 0 where
  pub period_start : String → Option ℤ → String → ℤ → ℤ
  pub local_date : ℤ → String → String

abbrev pub CounterKey : Type 0
CounterKey = String × (String × String)

pub record Db : Type 0 where
  pub counters : List (CounterKey × Counter)
  pub daily : List ((String × String) × Day)
  pub alerts : Alerts.Db
  pub networks : List (String × Network)
  pub node_tz : List (String × String)

abbrev positive : ℤ → ℕ
positive (pos n) = n
positive (negsuc n) = 0

-- INSERT … ON CONFLICT DO UPDATE SET rx_bytes = rx_bytes + …
unfoldable pub add_traffic_daily : String → String → ℕ → ℕ → Db → Db
add_traffic_daily node date rx tx db = record db {
  daily =
      upsert (node, date) (record { rx_bytes = rx; tx_bytes = tx })
        (λ d. record { rx_bytes = d.rx_bytes + rx; tx_bytes = d.tx_bytes + tx }) db.daily;
}

-- Whether a report is no continuation of the last one: wrap, reboot or reordering.
unfoldable pub is_reset : Counter → ℤ → ℤ → Bool
unfolding wrap64
is_reset prev ts raw = ltb_ℤ (wrap64 (raw -ℤ prev.last_raw)) (pos 0) || ltb_ℤ ts prev.last_ts

-- The bytes that a report adds.
unfoldable pub delta_of : Counter → ℤ → ℤ → ℤ
unfolding wrap64 is_reset
delta_of prev ts raw = if is_reset prev ts raw then pos 0 else wrap64 (raw -ℤ prev.last_raw)

-- The node's network row, or the defaults of a node that has none.
unfoldable pub network_for : String → Traffic → Db → Network
network_for node t db = elim (lookup node db.networks) [
  | some net ↦ if net.iface == "" then record net { iface = t.iface } else net
  | none ↦ record {
    iface = t.iface;
    cycle_type = "none";
    next_reset_at = none;
    tz = elim (lookup node db.node_tz) [ none ↦ "UTC" | some tz ↦ if tz == "" then "UTC" else tz ];
  }
]

module _ (quota : Calendar) where
  abbrev pub start_of : Network → ℤ → ℤ
  start_of net ts = quota.period_start net.cycle_type net.next_reset_at net.tz ts

  -- The first sight of a counter: a baseline.
  abbrev pub baseline : Network → ℤ → ℤ → Counter
  baseline net ts raw = record {
    last_raw = raw;
    last_ts = ts;
    period_start = start_of net ts;
    period_used = pos 0;
  }

  -- The next state of a known counter; a new period restarts the cache.
  unfoldable pub advance : Network → ℤ → ℤ → Counter → Counter
  unfolding wrap64 delta_of
  advance net ts raw prev = record {
    last_raw = raw;
    last_ts = ts;
    period_start = start_of net ts;
    period_used =
        if beq_ℤ (start_of net ts) prev.period_start
        then wrap64 (prev.period_used +ℤ delta_of prev ts raw)
        else delta_of prev ts raw;
  }

module _ (payload : String → String → ℤ → String) where
  unfoldable pub warn_counter_reset : ℕ → String → String → String → ℤ → Db → Db
  warn_counter_reset now node iface direction delta db = record db {
    alerts =
        (create_alert now "counter_reset" node (payload iface direction delta) 3600 db.alerts).2;
  }

module _ (quota : Calendar) (payload : String → String → ℤ → String) where
  -- A counter that has no row starts at the reading. So it does where its row cannot be read, a
  -- failing query, which is left out.
  unfoldable pub accumulate : ℕ → String → Network → ℤ → String → ℤ → Db → Db
  unfolding wrap64 is_reset delta_of advance warn_counter_reset add_traffic_daily
  accumulate now node net ts direction raw db =
      elim (lookup (node, (net.iface, direction)) db.counters) [
        | none ↦ record db {
          counters = put (node, (net.iface, direction)) (baseline quota net ts raw) db.counters;
        }
        | some prev ↦
            let warned =
              (if is_reset prev ts raw
                then warn_counter_reset payload now node net.iface direction
                    (wrap64 (raw -ℤ prev.last_raw)) db
                else db) in
            let counted = record warned {
              counters =
                  put (node, (net.iface, direction)) (advance quota net ts raw prev)
                    warned.counters;
            } in
            let delta = delta_of prev ts raw in
            if ltb_ℤ (pos 0) delta
            then add_traffic_daily node (quota.local_date ts net.tz)
                (if direction == "rx" then positive delta else 0)
                (if direction == "rx" then 0 else positive delta) counted
            else counted
      ]

  unfoldable pub on_traffic : ℕ → String → ℤ → Traffic → Db → Db
  unfolding network_for int64
  on_traffic now node ts t db =
      let at : ℤ = if beq_ℤ ts (pos 0) then pos now else ts in
      let net = network_for node t db in
      if not (t.iface == "") && not (t.iface == net.iface)
      then db
      else accumulate now node net at "tx" (int64 t.tx)
          (accumulate now node net at "rx" (int64 t.rx) db)
