-- ===== src/Hub/Traffic/Totals.antt =====
-- What the day buckets hold after a history of traffic reports (`onTraffic` of
-- internal/server/hub/handlers.go), in both directions.
use text.Mathlib.TextEquality.{eq_iff}
use fobe.Prelude.{
  ℕ, ◌+◌, ◌^◌, ◌≤◌, ◌<◌, String, List, [], ◌∷◌, Bool, true, false, some, All, if◌then◌else◌, ◌==◌,
  String-HasEq, pair-HasEq, ◌≡◌, refl, ap, ◌∙◌, arith, beq_refl,
}
use fobe.Prelude.Int.{ℤ, pos, ltb_ℤ, beq_ℤ}
use fobe.Prelude.Table.{lookup}
use fobe.Hub.Traffic.Counting.{
  side, pick, total, gained, accumulate-total, advance-seen, accumulate-lookup, accumulate-networks,
}
use fobe.Hub.Traffic.{
  Counter, Network, Traffic, Calendar, Db, wrap64, int64, accumulate, network_for, on_traffic,
}

-- A report: the panel's time, the report's time, and what was received and sent.
abbrev pub Report : Type 0
Report = ℕ × (ℤ × (ℕ × ℕ))

-- The time of a report that has none is the panel's.
abbrev pub time_of : Report → ℤ
time_of (now, (t, _)) = if beq_ℤ t (pos 0) then pos now else t

abbrev pub reading : Bool → Report → ℕ
reading b (now, (t, (rx, tx))) = pick b rx tx

abbrev pub gained_over : Bool → ℤ → ℕ → List Report → ℕ
gained_over b t₀ r₀ [] = 0
gained_over b t₀ r₀ (r ∷ rs) =
    gained t₀ r₀ (time_of r) (reading b r) + gained_over b (time_of r) (reading b r) rs

-- The node has its network row, and both counters are known: at what reading, and since when.
pub record IsKnown (node : String) (net : Network) (t₀ : Bool → ℤ) (r₀ : Bool → ℕ) (db : Db)
    : Type 0 where
  pub row : lookup node db.networks ≡ some net
  pub seen :
      (b : Bool)
      → (prev : Counter) × (lookup (node, (net.iface, side b)) db.counters ≡ some prev)
        × (prev.last_raw ≡ pos (r₀ b))
        × (prev.last_ts ≡ t₀ b)
  pub bounded : (b : Bool) → r₀ b < 2 ^ 63

abbrev pub IsBounded : Report → Type 0
IsBounded (now, (t, (rx, tx))) = (rx < 2 ^ 63) × (tx < 2 ^ 63)

module _ (quota : Calendar) (payload : String → String → ℤ → String) where
  -- Reports of one node, one after the other.
  unfoldable pub feed : String → String → List Report → Db → Db
  feed node iface [] db = db
  feed node iface ((now, (t, (rx, tx))) ∷ rs) db =
      feed node iface rs
        (on_traffic quota payload now node t (record { iface = iface; rx = rx; tx = tx }) db)

  int64-lem : (n : ℕ) → n < 2 ^ 63 → int64 n ≡ pos n
  unfolding int64 wrap64
  int64-lem n h = ground arith

  network_for-lem :
      (node : String) (r : Traffic) (net : Network) (db : Db)
      → lookup node db.networks ≡ some net
      → (net.iface == "") ≡ false
      → network_for node r db ≡ net
  unfolding network_for
  network_for-lem node r net db e full = ground (arith, e, full)

  on_traffic-lem :
      (now : ℕ) (t : ℤ) (rx tx : ℕ) (node : String) (net : Network) (db : Db)
      → lookup node db.networks ≡ some net
      → (net.iface == "") ≡ false
      → rx < 2 ^ 63
      → tx < 2 ^ 63
      → let at = time_of (now, (t, (rx, tx))) in
        on_traffic quota payload now node t (record { iface = net.iface; rx = rx; tx = tx }) db
        ≡ accumulate quota payload now node net at "tx"
            (pos tx)
            (accumulate quota payload now node net at "rx" (pos rx) db)
  unfolding on_traffic
  on_traffic-lem now t rx tx node net db e full h k =
      rw
        (
          network_for-lem node (record { iface = net.iface; rx = rx; tx = tx }) net db e full,
          full,
          beq_refl net.iface,
          int64-lem rx h,
          int64-lem tx k,
        )
        refl

  -- The reception, then the sending.
  unfoldable both : ℕ → ℤ → ℕ → ℕ → String → Network → Db → Db
  both now t rx tx node net db =
      accumulate quota payload now node net t "tx" (pos tx)
        (accumulate quota payload now node net t "rx" (pos rx) db)

  on_traffic-both :
      (now : ℕ) (t : ℤ) (rx tx : ℕ) (node : String) (net : Network) (db : Db)
      → lookup node db.networks ≡ some net
      → (net.iface == "") ≡ false
      → rx < 2 ^ 63
      → tx < 2 ^ 63
      → on_traffic quota payload now node t (record { iface = net.iface; rx = rx; tx = tx }) db
        ≡ both now (time_of (now, (t, (rx, tx)))) rx tx node net db
  unfolding both
  on_traffic-both now t rx tx node net db e full h k =
      on_traffic-lem now t rx tx node net db e full h k

  module _ (now : ℕ) (t : ℤ) (rx tx : ℕ) (node : String) (net : Network) (t₀ : Bool → ℤ)
      (r₀ : Bool → ℕ) (db : Db) (known : IsKnown node net t₀ r₀ db) where
    sent-lookup :
        lookup
          (node, (net.iface, "tx"))
          (accumulate quota payload now node net t "rx" (pos rx) db).counters
        ≡ some (known.seen false).0
    sent-lookup =
        accumulate-lookup quota payload now node net t "rx" "tx" (pos rx) (known.seen true).0 db
          (known.seen true).1
        ∙ (known.seen false).1

    both-total :
        (b : Bool) (m : String)
        → rx < 2 ^ 63
        → tx < 2 ^ 63
        → total b m (both now t rx tx node net db).daily
          ≡ total b m db.daily + (if node == m then gained (t₀ b) (r₀ b) t (pick b rx tx) else 0)
    unfolding both
    both-total true m h k =
        let (in', e, f, g) = known.seen true in
        let (out, e', f', g') = known.seen false in
        let mid = accumulate quota payload now node net t "rx" (pos rx) db in
        let one =
          accumulate-total quota payload true true now node net t (r₀ true) rx in' m db e f
            (known.bounded true) h in
        let two =
          accumulate-total quota payload true false now node net t (r₀ false) tx out m mid
            sent-lookup f' (known.bounded false) k in
        ground (arith, one, two, g)
    both-total false m h k =
        let (in', e, f, g) = known.seen true in
        let (out, e', f', g') = known.seen false in
        let mid = accumulate quota payload now node net t "rx" (pos rx) db in
        let one =
          accumulate-total quota payload false true now node net t (r₀ true) rx in' m db e f
            (known.bounded true) h in
        let two =
          accumulate-total quota payload false false now node net t (r₀ false) tx out m mid
            sent-lookup f' (known.bounded false) k in
        ground (arith, one, two, g')

    both-seen :
        (b : Bool)
        → (prev : Counter) × (lookup
              (node, (net.iface, side b))
              (both now t rx tx node net db).counters
            ≡ some prev)
          × (prev.last_raw ≡ pos (pick b rx tx))
          × (prev.last_ts ≡ t)
    unfolding both
    both-seen false =
        let out = (known.seen false).0 in
        let mid = accumulate quota payload now node net t "rx" (pos rx) db in
        let (raw, ts) = advance-seen quota payload net t (pos tx) out in
        (
          _,
          accumulate-lookup quota payload now node net t "tx" "tx" (pos tx) out mid sent-lookup,
          raw,
          ts,
        )
    both-seen true =
        let in' = (known.seen true).0 in
        let out = (known.seen false).0 in
        let mid = accumulate quota payload now node net t "rx" (pos rx) db in
        let (raw, ts) = advance-seen quota payload net t (pos rx) in' in
        (
          _,
          accumulate-lookup quota payload now node net t "tx" "rx" (pos tx) out mid sent-lookup
              ∙ accumulate-lookup quota payload now node net t "rx" "rx" (pos rx) in' db
                  (known.seen true).1,
          raw,
          ts,
        )

    pick-bounded : rx < 2 ^ 63 → tx < 2 ^ 63 → (b : Bool) → pick b rx tx < 2 ^ 63
    pick-bounded h k true = h
    pick-bounded h k false = k

    both-IsKnown :
        rx < 2 ^ 63
        → tx < 2 ^ 63
        → IsKnown node net (λ _. t) (λ b. pick b rx tx) (both now t rx tx node net db)
    unfolding both
    both-IsKnown h k = record {
      row =
          ap (lookup node) (
            accumulate-networks quota payload now node net t "tx" (pos tx)
              (accumulate quota payload now node net t "rx" (pos rx) db)
            ∙ accumulate-networks quota payload now node net t "rx" (pos rx) db)
          ∙ known.row;
      seen = both-seen;
      bounded = pick-bounded h k;
    }

  -- For a node with a network row whose interface is named, both of whose counters are known,
  -- and whose readings, the known and the reported ones, are below 2^63: a history of its
  -- traffic reports on that interface adds to the bytes received in the day buckets of the node
  -- exactly the rises between consecutive readings of what was received, and to the bytes sent
  -- exactly those of what was sent, a fall of that counter or of the report time counting
  -- nothing and a report without a time counting as of the panel's; it adds nothing to the
  -- buckets of another node.
  pub feed-total :
      (node : String) (net : Network) (rs : List Report) (t₀ : Bool → ℤ) (r₀ : Bool → ℕ) (db : Db)
      → (net.iface == "") ≡ false
      → IsKnown node net t₀ r₀ db
      → All IsBounded rs
      → (b : Bool) (m : String)
      → total b m (feed node net.iface rs db).daily
        ≡ total b m db.daily + (if node == m then gained_over b (t₀ b) (r₀ b) rs else 0)
  unfolding feed
  feed-total node net [] t₀ r₀ db full known l b m = ground arith
  feed-total node net ((now, (t, (rx, tx))) ∷ rs) t₀ r₀ db full known (h, l) b m =
      let at = time_of (now, (t, (rx, tx))) in
      let moved =
        ap (λ (d : Db). total b m (feed node net.iface rs d).daily)
          (on_traffic-both now t rx tx node net db known.row full h.0 h.1) in
      let here = both-total now at rx tx node net t₀ r₀ db known b m h.0 h.1 in
      let there =
        feed-total node net rs (λ _. at) (λ c. pick c rx tx) (both now at rx tx node net db) full
          (both-IsKnown now at rx tx node net t₀ r₀ db known h.0 h.1) l b m in
      moved ∙ ground (arith, here, there)

-- While neither the counter nor the time falls, the rises add up to the last reading less the first.
abbrev pub IsRising : Bool → ℤ → ℕ → List Report → Type 0
IsRising b t₀ r₀ [] = Unit
IsRising b t₀ r₀ (r ∷ rs) =
    (r₀ ≤ reading b r) × (ltb_ℤ (time_of r) t₀ ≡ false) × IsRising b (time_of r) (reading b r) rs

abbrev pub last_reading : Bool → ℕ → List Report → ℕ
last_reading b r₀ [] = r₀
last_reading b r₀ (r ∷ rs) = last_reading b (reading b r) rs

gained_over-rising :
    (b : Bool) (t₀ : ℤ) (r₀ : ℕ) (rs : List Report)
    → IsRising b t₀ r₀ rs
    → r₀ + gained_over b t₀ r₀ rs ≡ last_reading b r₀ rs
gained_over-rising b t₀ r₀ [] h = omega arith
gained_over-rising b t₀ r₀ (r ∷ rs) h =
    ground (arith, gained_over-rising b (time_of r) (reading b r) rs h.2)

-- Under the conditions of feed-total, and while the counter of a direction, received or sent,
-- and the report time do not fall, the bytes of that direction in the day buckets of the node
-- grow by the last reading less the first, however the stretch is cut into reports.
pub feed-rising :
    (quota : Calendar) (payload : String → String → ℤ → String) (node : String) (net : Network)
    (rs : List Report) (t₀ : Bool → ℤ) (r₀ : Bool → ℕ) (db : Db) (b : Bool)
    → (net.iface == "") ≡ false
    → IsKnown node net t₀ r₀ db
    → All IsBounded rs
    → IsRising b (t₀ b) (r₀ b) rs
    → total b node (feed quota payload node net.iface rs db).daily + r₀ b
      ≡ total b node db.daily + last_reading b (r₀ b) rs
feed-rising quota payload node net rs t₀ r₀ db b full known l rising =
    let sum = feed-total quota payload node net rs t₀ r₀ db full known l b node in
    let rise = gained_over-rising b (t₀ b) (r₀ b) rs rising in
    ground (arith, eq_iff node node, sum, rise)
