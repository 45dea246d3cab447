-- ===== src/Geoip/Lru/Recency.antt =====
-- What the cache promises: a list of keys and codes, most recently used first, cut at the capacity.
use fobe.Prelude.{ℕ, String, List, [], ◌∷◌, Option, none, some, take, ◌==◌, String-HasEq}
use fobe.Prelude.Table.{lookup, delete}
use fobe.Geoip.Lru.{Call, gets, puts}

abbrev pub Recency : Type 0
Recency = List (String × String)

abbrev pub without : String → Recency → Recency
without key = delete (λ k _. k == key)

abbrev pub touch : String → Recency → Recency
touch key l = elim (lookup key l) [ none ↦ l | some code ↦ (key, code) ∷ without key l ]

abbrev pub remember : ℕ → String → String → Recency → Recency
remember capacity key code l = take capacity ((key, code) ∷ without key l)

abbrev pub answers : ℕ → List Call → Recency → List (Option String)
answers capacity [] l = []
answers capacity (gets key ∷ calls) l = lookup key l ∷ answers capacity calls (touch key l)
answers capacity (puts key code ∷ calls) l = answers capacity calls (remember capacity key code l)
