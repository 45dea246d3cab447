-- ===== src/Server/Login/Guesses.antt =====
-- How many passwords one address can try (internal/server/httpapi/auth_handlers.go), whatever the
-- requests of other addresses do meanwhile.
use fobe.Prelude.{
  ℕ, ◌+◌, ◌*◌, ◌≤◌, String, List, [], ◌∷◌, true, false, ◌||◌, Option, none, All, ◌≡◌, refl, arith,
  ◌==◌, String-HasEq, inl, inr,
}
use fobe.Prelude.Table.{lookup, IsKeyed}
use fobe.Server.Login.{Guard, Panel, Answer, System, Event, enters, finishes, unblocks, step, run}
use fobe.Server.Login.Budget.{room-later}
use fobe.Server.Login.Requests.{count_of}
use fobe.Server.Login.Spending.{
  head, room_of, IsFine, Spends, enters-Spends, finishes-Spends, unblocks-Spends,
}

-- The wrong passwords of the address before the first right one.
abbrev pub guesses : String → List (Option (String × Answer)) → ℕ
guesses ip [] = 0
guesses ip (a ∷ rest) = head ip a (guesses ip rest)

abbrev pub clock : Event → ℕ
clock (enters tick now ip) = now
clock (finishes n now t) = now
clock (unblocks now ip) = now

-- The seconds, from `t` on, do not fall.
abbrev pub IsOrdered : ℕ → List Event → Type 0
IsOrdered t [] = Unit
IsOrdered t (e ∷ es) = (t ≤ clock e) × IsOrdered (clock e) es

abbrev pub ending : ℕ → List Event → ℕ
ending t [] = t
ending t (e ∷ es) = ending (clock e) es

ending_le : (t : ℕ) (es : List Event) → IsOrdered t es → t ≤ ending t es
ending_le t [] o = omega arith
ending_le t (e ∷ es) o = omega (arith, o.0, ending_le (clock e) es o.1)

-- The address is not released by hand.
abbrev pub Spares : String → Event → Type 0
Spares ip (unblocks now j) = ((j == ip) || (j == "all")) ≡ false
Spares ip _ = Unit

-- A request of the address begins where none of its own is under way.
abbrev pub Alone : String → Event → System → Type 0
Alone ip (enters tick now j) s = (j == ip) ≡ true → count_of ip s.pending ≡ 0
Alone ip _ s = Unit

-- The address tries one password after the other.
abbrev pub IsSerial : Guard → String → List Event → System → Type 0
IsSerial guard ip [] s = Unit
IsSerial guard ip (e ∷ es) s = Alone ip e s × IsSerial guard ip es (step guard e s).1

module _ (guard : Guard) (ip : String) where
  step-Spends :
      (now : ℕ) (e : Event) (s : System)
      → guard.never_blacklist ip ≡ false
      → clock e ≡ now
      → Spares ip e
      → Alone ip e s
      → IsFine guard ip now s
      → Spends guard ip now s (step guard e s)
  step-Spends now (enters tick now' j) s open' c h lone f =
      rw c (enters-Spends guard ip tick now j s open' lone f)
  step-Spends now (finishes k now' t) s open' c h lone f =
      rw c (finishes-Spends guard ip k now t s open' f)
  step-Spends now (unblocks now' j) s open' c h lone f = rw c (unblocks-Spends guard ip now j s h f)

  bound :
      (es : List Event) (t : ℕ) (s : System)
      → guard.never_blacklist ip ≡ false
      → IsOrdered t es
      → All (Spares ip) es
      → IsSerial guard ip es s
      → IsFine guard ip t s
      → 600 * guesses ip (run guard es s).0 + t ≤ room_of guard ip t s + ending t es
  unfolding run room_of
  bound [] t s open' o sp lone f = omega arith
  bound (e ∷ es) t s open' o sp lone f =
      let now = clock e in
      let (sound, more) =
        room-later t now (count_of ip s.pending) (lookup ip s.panel.db.blacklist) o.0 f.sound in
      let later : IsFine guard ip now s = record {
        held = f.held;
        small = f.small;
        keyed = f.keyed;
        sound = sound;
      } in
      let s' = (step guard e s).1 in
      elim (step-Spends now e s open' refl sp.0 lone.0 later) [
        | inl z ↦ rw (z (guesses ip (run guard es s').0)) (omega (arith, o.0, ending_le now es o.1))
        | inr (g, spent) ↦ omega (
          arith,
          spent (guesses ip (run guard es s').0),
          bound es now s' open' o.1 sp.1 lone.1 g,
          more,
          o.0,
        )
      ]

-- From a panel with no login under way and no row for an address that can be blocked, in whose
-- table each address stands once: whatever logins of any addresses begin and end, in any order,
-- those of the address itself one after the other, while the seconds do not fall and nobody
-- unblocks the address, it gets at most three passwords wrong before its first right one, and
-- one more for each ten minutes since the start.
pub guesses-run :
    (guard : Guard) (ip : String) (t : ℕ) (es : List Event) (p : Panel)
    → guard.never_blacklist ip ≡ false
    → p.gate.inflight ≡ 0
    → IsKeyed p.db.blacklist
    → lookup ip p.db.blacklist ≡ none
    → IsOrdered t es
    → All (Spares ip) es
    → IsSerial guard ip es (record { panel = p; pending = [] })
    → 600 * guesses ip (run guard es (record { panel = p; pending = [] })).0 + t
      ≤ 1800 + ending t es
unfolding room_of
guesses-run guard ip t es p open' idle keyed new o sp lone =
    let start : System = record { panel = p; pending = [] } in
    let fine : IsFine guard ip t start = record {
      held = idle;
      small = omega arith;
      keyed = keyed;
      sound = rw new (omega arith);
    } in
    rw new at (bound guard ip es t start open' o sp lone fine)
