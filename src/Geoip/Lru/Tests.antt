-- ===== src/Geoip/Lru/Tests.antt =====
-- A cache of two countries, asked for three addresses.
use fobe.Prelude.{List, [], ◌∷◌, none, some, ltb, if◌then◌else◌, ◌≡◌, refl}
use fobe.Geoip.Lru.{new_lru, Call, gets, puts, run}
use fobe.Geoip.Lru.Recency.{answers}
use fobe.Geoip.Lru.Refinement.{run-new_lru}
use fobe.Prelude.Table.{lookup, delete}

abbrev calls : List Call
calls =
    puts "1.1.1.1" "AU"
    ∷ puts "8.8.8.8" "US"
    ∷ gets "1.1.1.1"
    ∷ puts "9.9.9.9" "CH"
    ∷ gets "8.8.8.8"
    ∷ gets "1.1.1.1"
    ∷ []

answers_test : answers 2 calls [] ≡ some "AU" ∷ none ∷ some "AU" ∷ []
unfolding lookup delete
answers_test = refl

run-new_lru_example : run calls (new_lru 2) ≡ some (answers (if ltb 2 1 then 1 else 2) calls [])
run-new_lru_example = run-new_lru 2 calls
