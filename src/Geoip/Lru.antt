-- ===== src/Geoip/Lru.antt =====
-- The cache of looked-up countries (internal/server/geoip/lru.go): a list of elements, most recently
-- used first, and a map from keys to the elements of the list. An element is known by a number that
-- stands for its address; the mutex makes each call one step.
pub mod Recency
pub mod Elements
pub mod Hits
pub mod Refinement
mod Tests
use fobe.Prelude.{
  ℕ, zero, suc, ◌+◌, String, List, [], ◌∷◌, Bool, true, false, Option, none, some, ltb, length,
  if◌then◌else◌, ◌==◌, String-HasEq, ℕ-HasEq,
}
use fobe.Prelude.Table.{lookup, put, upsert, delete, update}

pub record Item : Type 0 where
  pub key : String
  pub code : String

abbrev pub Elements : Type 0
Elements = List (ℕ × Item)

pub record Lru : Type 0 where
  pub capacity : ℕ
  pub ll : Elements
  pub els : List (String × ℕ)
  pub fresh : ℕ

unfoldable pub new_lru : ℕ → Lru
new_lru capacity = record {
  capacity = if ltb capacity 1 then 1 else capacity;
  ll = [];
  els = [];
  fresh = 0;
}

-- Of container/list: Remove, MoveToFront and Back.
unfoldable pub remove : ℕ → Elements → Elements
unfolding delete
remove el ll = delete (λ i _. i == el) ll

unfoldable pub move_to_front : ℕ → Elements → Elements
unfolding lookup remove
move_to_front el ll = elim (lookup el ll) [ none ↦ ll | some item ↦ (el, item) ∷ remove el ll ]

abbrev pub back : Elements → Option (ℕ × Item)
back [] = none
back (e ∷ []) = some e
back (e ∷ f ∷ rest) = back (f ∷ rest)

abbrev pub code_of : ℕ → Elements → Option String
code_of el ll = elim (lookup el ll) [ none ↦ none | some item ↦ some item.code ]

unfoldable pub get : String → Lru → Option String × Lru
unfolding lookup move_to_front
get key c = elim (lookup key c.els) [
  | none ↦ (none, c)
  | some el ↦ let ll = move_to_front el c.ll in (code_of el ll, record c { ll = ll })
]

-- One round of the loop that makes room, and the loop: `none` is out of fuel.
abbrev pub drop_oldest : ℕ × Item → Lru → Lru
drop_oldest (el, item) c = record c {
  ll = remove el c.ll;
  els = delete (λ key _. key == item.key) c.els;
}

unfoldable pub evict : ℕ → Lru → Option Lru
unfolding remove delete
evict zero c = none
evict (suc fuel) c = elim (ltb c.capacity (length c.els)) [
  | false ↦ some c
  | true ↦ elim (back c.ll) [ none ↦ some c | some oldest ↦ evict fuel (drop_oldest oldest c) ]
]

abbrev pub with_code : String → Item → Item
with_code code item = record item { code = code }

abbrev pub push_front : String → String → Lru → Lru
push_front key code c = record c {
  ll = (c.fresh, record { key = key; code = code }) ∷ c.ll;
  els = put key c.fresh c.els;
  fresh = c.fresh + 1;
}

unfoldable pub put_code : String → String → Lru → Option Lru
unfolding lookup move_to_front update evict upsert
put_code key code c = elim (lookup key c.els) [
  | some el ↦
      some (record c { ll = update (λ i _. i == el) (with_code code) (move_to_front el c.ll) })
  | none ↦ let c₁ = push_front key code c in evict (suc (length c₁.ll)) c₁
]

-- A history of calls, and what the lookups gave.
pub data Call : Type 0 where
  gets : String → Call
  puts : String → String → Call

unfoldable pub run : List Call → Lru → Option (List (Option String))
unfolding get put_code
run [] c = some []
run (gets key ∷ calls) c =
    let (found, c₁) = get key c in
    elim (run calls c₁) [ none ↦ none | some rest ↦ some (found ∷ rest) ]
run (puts key code ∷ calls) c = elim (put_code key code c) [ none ↦ none | some c₁ ↦ run calls c₁ ]
