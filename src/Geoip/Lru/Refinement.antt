-- ===== src/Geoip/Lru/Refinement.antt =====
-- The cache does what its recency list says.
use fobe.Prelude.{
  ℕ, suc, ◌+◌, ◌≤◌, String, List, [], ◌∷◌, Bool, true, false, Option, none, some, take, length, ltb,
  if◌then◌else◌, ◌==◌, String-HasEq, ℕ-HasEq, ◌≡◌, refl, sym, ap, ◌∙◌, arith, Bool-cases,
  Option-cases, inl, inr,
}
use fobe.Prelude.Table.{
  lookup, update, put, upsert, IsKeyed, lookup-delete, delete-IsKeyed, lookup-upsert,
  upsert-IsKeyed, survive,
}
use fobe.Geoip.Lru.{
  Item, Elements, Lru, new_lru, remove, move_to_front, back, get, drop_oldest, evict, with_code,
  push_front, put_code, Call, gets, puts, run,
}
use fobe.Geoip.Lru.Recency.{Recency, without, touch, remember, answers}
use fobe.Geoip.Lru.Elements.{
  recency, element_of, recency-remove, element_of-remove, length-delete, delete-absent,
  element_of-back, take-remove, element_of-recency,
}
use fobe.Geoip.Lru.Hits.{
  IsWell, Refines, hit-Refines, get-lem, move_to_front-lem, update-front, take-all, length-recency,
  IsHeld-lem, absent-delete, fronted,
}

back-some : (e : ℕ × Item) (ll : Elements) → (oldest : ℕ × Item) × (back (e ∷ ll) ≡ some oldest)
back-some e [] = (e, refl)
back-some e (f ∷ ll) = back-some f ll

survive-lem : {V : Type 0} (b : Bool) (o : Option V) → survive (λ _. b) o ≡ (if b then none else o)
survive-lem true none = refl
survive-lem true (some v) = refl
survive-lem false none = refl
survive-lem false (some v) = refl

beq_sym : (a b : String) → (a == b) ≡ (b == a)
beq_sym a b = ground (arith, String-HasEq.same_iff a b, String-HasEq.same_iff b a)

mapped-drop_oldest :
    (el : ℕ) (item : Item) (c : Lru)
    → IsWell c
    → element_of item.key c.ll ≡ some el
    → (other : String)
    → lookup other (drop_oldest (el, item) c).els ≡ element_of other (drop_oldest (el, item) c).ll
mapped-drop_oldest el item c h own other =
    let left =
      lookup-delete (λ k _. k == item.key) other c.els h.keyed
      ∙ survive-lem (other == item.key) (lookup other c.els) in
    let right = element_of-remove item.key el c.ll other h.proper own in
    left ∙ rw (beq_sym other item.key, h.mapped other) (sym right)

-- Dropping an element keeps the map and the list in step.
drop_oldest-IsWell :
    (el : ℕ) (item : Item) (c : Lru)
    → IsWell c
    → element_of item.key c.ll ≡ some el
    → IsWell (drop_oldest (el, item) c)
unfolding remove
drop_oldest-IsWell el item c h own =
    let proper = h.proper in
    let held = IsHeld-lem item.key el c h (h.mapped item.key ∙ own) in
    record {
      proper = record {
        elements = delete-IsKeyed (λ i _. i == el) c.ll proper.elements;
        keys =
            rw (recency-remove item.key el c.ll proper own)
              (delete-IsKeyed (λ k _. k == item.key) (recency c.ll) proper.keys);
      };
      mapped = mapped-drop_oldest el item c h own;
      keyed = delete-IsKeyed (λ k _. k == item.key) c.els h.keyed;
      sized =
          (let in_map = length-delete item.key el c.els h.keyed (h.mapped item.key ∙ own) in
            let in_list = length-delete el held.item c.ll proper.elements held.found in
            omega (arith, in_map, in_list, h.sized));
      unused =
          λ i k. lookup-delete (λ j _. j == el) i c.ll proper.elements ∙ rw (h.unused i k) refl;
    }

length-put :
    (key : String) (el : ℕ) (els : List (String × ℕ))
    → lookup key els ≡ none
    → length (put key el els) ≡ suc (length els)
unfolding lookup upsert
length-put key el [] h = refl
length-put key el ((k, e) ∷ els) h = ground (arith, length-put key el els)

later_unequal : (fresh i : ℕ) → fresh + 1 ≤ i → (fresh == i) ≡ false
later_unequal fresh i h = ground arith

-- A new key in front.
push_front-IsWell :
    (key code : String) (c : Lru)
    → IsWell c
    → lookup key c.els ≡ none
    → IsWell (push_front key code c)
unfolding lookup
push_front-IsWell key code c h absent =
    let proper = h.proper in
    record {
      proper = record {
        elements = (h.unused c.fresh (omega arith), proper.elements);
        keys = (element_of-recency key c.ll (sym (h.mapped key) ∙ absent), proper.keys);
      };
      mapped = λ other.
          lookup-upsert key other c.fresh (λ _. c.fresh) c.els
          ∙ rw absent (rw (h.mapped other) refl);
      keyed = upsert-IsKeyed key c.fresh (λ _. c.fresh) c.els h.keyed;
      sized = length-put key c.fresh c.els absent ∙ ap suc h.sized;
      unused = λ i k. rw (later_unequal c.fresh i k) (h.unused i (omega arith));
    }

back-full :
    (ll : Elements) (n : ℕ) → length ll ≡ suc n → (oldest : ℕ × Item) × (back ll ≡ some oldest)
back-full [] n h = absurd (omega arith)
back-full (e ∷ ll) n h = back-some e ll

length-remove :
    (el : ℕ) (item : Item) (ll : Elements)
    → IsKeyed ll
    → lookup el ll ≡ some item
    → suc (length (remove el ll)) ≡ length ll
unfolding remove
length-remove el item ll d h = length-delete el item ll d h

-- Making room for one.
record Evicted (c : Lru) (c' : Lru) : Type 0 where
  well : IsWell c'
  same_capacity : c'.capacity ≡ c.capacity
  bounded : length c'.ll ≤ c.capacity
  cut : recency c'.ll ≡ take c.capacity (recency c.ll)

evict-fits :
    (fuel : ℕ) (c : Lru) → ltb c.capacity (length c.els) ≡ false → evict (suc fuel) c ≡ some c
unfolding evict
evict-fits fuel c h = rw (h, evict) refl

evict-full :
    (fuel : ℕ) (c : Lru) (oldest : ℕ × Item)
    → ltb c.capacity (length c.els) ≡ true
    → back c.ll ≡ some oldest
    → evict (suc fuel) c ≡ evict fuel (drop_oldest oldest c)
unfolding evict
evict-full fuel c oldest h b = rw (h, evict) (rw b refl)

evict-Evicted :
    (fuel : ℕ) (c : Lru)
    → IsWell c
    → length c.ll ≤ suc c.capacity
    → (c' : Lru) × (evict (suc (suc fuel)) c ≡ some c') × Evicted c c'
evict-Evicted fuel c h l = elim (Bool-cases (ltb c.capacity (length c.els))) [
  | inr y ↦
      let fits : length c.ll ≤ c.capacity = (let sized = h.sized in ground arith) in
      (
        c,
        evict-fits (suc fuel) c y,
        record {
          well = h;
          same_capacity = refl;
          bounded = fits;
          cut = sym (take-all c.capacity (recency c.ll) (omega (arith, length-recency c.ll)));
        },
      )
  | inl y ↦
      let sized = h.sized in
      let full : length c.ll ≡ suc c.capacity = ground arith in
      let ((el, item), last) = back-full c.ll c.capacity full in
      let own = element_of-back el item c.ll c.capacity h.proper last full in
      let c₁ = drop_oldest (el, item) c in
      let well₁ = drop_oldest-IsWell el item c h own in
      let cut = take-remove el item c.ll c.capacity h.proper last full in
      let left : length c₁.ll ≡ c.capacity =
        (let held = IsHeld-lem item.key el c h (h.mapped item.key ∙ own) in
          let proper = h.proper in
          let fewer = length-remove el held.item c.ll proper.elements held.found in omega arith) in
      let fits : ltb c₁.capacity (length c₁.els) ≡ false =
        (let sized₁ = well₁.sized in ground arith) in
      (
        c₁,
        evict-full (suc fuel) c (el, item) y last ∙ evict-fits fuel c₁ fits,
        record { well = well₁; same_capacity = refl; bounded = omega arith; cut = cut },
      )
]

absent-remove : (el : ℕ) (ll : Elements) → IsKeyed ll → lookup el (remove el ll) ≡ none
unfolding remove
absent-remove el ll d = absent-delete el ll d

-- Writes.
put_code-miss :
    (capacity : ℕ) (key code : String) (c : Lru) (l : Recency)
    → Refines capacity c l
    → lookup key c.els ≡ none
    → (c' : Lru) × (evict (suc (suc (length c.ll))) (push_front key code c) ≡ some c')
      × Refines capacity c' (remember capacity key code l)
put_code-miss capacity key code c l r y =
    let well = r.well in
    let absent : lookup key l ≡ none =
      rw (sym r.stands) (element_of-recency key c.ll (sym (well.mapped key) ∙ y)) in
    let same_capacity = r.same_capacity in
    let room = r.bounded in
    let (c', e, made) =
      evict-Evicted (length c.ll) (push_front key code c) (push_front-IsWell key code c well y)
        (omega arith) in
    (
      c',
      e,
      record {
        well = made.well;
        stands =
            made.cut
            ∙ rw (delete-absent key l absent, r.stands)
                (ap (λ n. take n ((key, code) ∷ l)) same_capacity);
        same_capacity = made.same_capacity ∙ same_capacity;
        bounded = rw (sym same_capacity) made.bounded;
      },
    )

put_code-hit :
    (capacity : ℕ) (key code : String) (el : ℕ) (c : Lru) (l : Recency)
    → Refines capacity c l
    → lookup key c.els ≡ some el
    → (c' : Lru) × (record c {
      ll = update (λ i _. i == el) (with_code code) (move_to_front el c.ll);
    }
        ≡ c')
      × Refines capacity c' (remember capacity key code l)
put_code-hit capacity key code el c l r y =
    let held = IsHeld-lem key el c r.well y in
    let well = r.well in
    let proper = well.proper in
    let item : Item = with_code code held.item in
    let same : update (λ i _. i == el) (with_code code) (move_to_front el c.ll)
        ≡ (el, item) ∷ remove el c.ll =
      rw (move_to_front-lem el held.item c.ll held.found) (
        update-front (with_code code) el held.item (remove el c.ll)
          (absent-remove el c.ll proper.elements)) in
    let h = hit-Refines capacity key el item c l r y held.key_of in
    let short : length ((key, code) ∷ without key l) ≤ capacity =
      (let stands : recency (fronted el item c).ll ≡ (key, code) ∷ without key l = h.stands in
        let size = ap (λ m. length m) stands in
        omega (arith, size, length-recency (fronted el item c).ll, h.bounded)) in
    (
      fronted el item c,
      ap (λ ll. record c { ll = ll }) same,
      rw (take-all capacity ((key, code) ∷ without key l) short) h,
    )

put_code-lem :
    (capacity : ℕ) (key code : String) (c : Lru) (l : Recency)
    → Refines capacity c l
    → (c' : Lru) × (put_code key code c ≡ some c')
      × Refines capacity c' (remember capacity key code l)
unfolding put_code
put_code-lem capacity key code c l r = elim (Option-cases (lookup key c.els)) [
  | inl y ↦ rw (y, put_code) (put_code-miss capacity key code c l r y)
  | inr (el, y) ↦
      let (c', e, h) = put_code-hit capacity key code el c l r y in
      rw (y, put_code) (c', ap some e, h)
]

run-Refines :
    (capacity : ℕ) (calls : List Call) (c : Lru) (l : Recency)
    → Refines capacity c l
    → run calls c ≡ some (answers capacity calls l)
unfolding run
run-Refines capacity [] c l r = refl
run-Refines capacity (gets key ∷ calls) c l r =
    let (found, next) = get-lem capacity key c l r in
    rw (run-Refines capacity calls (get key c).1 (touch key l) next)
      (ap some (ap (λ o. o ∷ answers capacity calls (touch key l)) found))
run-Refines capacity (puts key code ∷ calls) c l r =
    let (c', e, next) = put_code-lem capacity key code c l r in
    rw (e, run) (run-Refines capacity calls c' (remember capacity key code l) next)

-- Any history of lookups and writes on a new cache runs to its end and answers exactly as the
-- recency list of its capacity, at least one, does: keys and codes with the most recently used
-- first, a known key coming to the front, and the list cut at the capacity.
pub run-new_lru :
    (capacity : ℕ) (calls : List Call)
    → run calls (new_lru capacity)
      ≡ some (answers (if ltb capacity 1 then 1 else capacity) calls [])
unfolding new_lru lookup
run-new_lru capacity calls =
    run-Refines (if ltb capacity 1 then 1 else capacity) calls (new_lru capacity) [] (record {
      well = record {
        proper = record { elements = tt; keys = tt };
        mapped = λ key. refl;
        keyed = tt;
        sized = refl;
        unused = λ el h. refl;
      };
      stands = refl;
      same_capacity = refl;
      bounded = omega arith;
    })
