-- ===== src/Store/Alerts/Dedupe.antt =====
-- The dedupe window of `CreateAlert` (internal/server/store/ops.go) over whole histories.
use fobe.Prelude.{
  ℕ, ◌+◌, ◌≤◌, String, List, [], ◌∷◌, Bool, true, ◌&&◌, not, ◌||◌, leb, Option, none, some,
  if◌then◌else◌, ◌==◌, ℕ-HasEq, String-HasEq,
}
use fobe.Store.Alerts.{Alert, Call, creates, delivers, recovers, is_open}

-- When the newest open alert of the kind and node was raised.
abbrev pub newest_open : String → String → List Alert → Option ℕ
newest_open kind node [] = none
newest_open kind node (a ∷ rest) =
    if is_open kind node a then some a.created_at else newest_open kind node rest

abbrev After : ℕ → Option ℕ → ℕ → Type 0
After window none t = Unit
After window (some s) t = s + window ≤ t

-- Each open alert of the kind and node was raised at least `window` after the open one before it.
abbrev pub IsSpaced : ℕ → String → String → List Alert → Type 0
IsSpaced window kind node [] = Unit
IsSpaced window kind node (a ∷ rest) =
    (if is_open kind node a then After window (newest_open kind node rest) a.created_at else Unit)
    × IsSpaced window kind node rest

-- A creation of this kind and node asks for at least this window.
abbrev pub asks_for : ℕ → String → String → Call → Bool
asks_for window kind node (creates k n payload w) = not ((k == kind) && (n == node)) || leb window w
asks_for window kind node (delivers id) = true
asks_for window kind node (recovers k n) = true
