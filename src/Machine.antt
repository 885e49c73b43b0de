-- ===== src/Machine.antt =====
-- Runs of C code over an explicit state: a result with the new state, or one of the ways in which
-- the program stops.
pub mod Memory
use comp304_assignments.Prelude.{Bool, true, false, if◌then◌else◌, ◌≡◌, refl, subst}

-- `fault` is an access to memory that is not mapped (SIGSEGV), `exit` the `exit(1)` of the test
-- framework's `error` and `assert`, `out_of_fuel` a loop that has used up its rounds.
pub data Run (S A : Type 0) : Type 0 where
  ok : A → S → Run S A
  fault : Run S A
  exit : Run S A
  out_of_fuel : Run S A

abbrev pub Cmd : Type 0 → Type 0 → Type 0
Cmd S A = S → Run S A

abbrev pub pure : {S A : Type 0} → A → Cmd S A
pure = ok

module _ {S A B : Type 0} where
  abbrev pub and_then : Run S A → (A → Cmd S B) → Run S B
  and_then (ok a s) k = k a s
  and_then fault k = fault
  and_then exit k = exit
  and_then out_of_fuel k = out_of_fuel

  infixl 5 ◌>>=◌ ◌>>◌
  abbrev pub ◌>>=◌ : Cmd S A → (A → Cmd S B) → Cmd S B
  m >>= k = λ s. and_then (m s) k

  abbrev pub ◌>>◌ : Cmd S A → Cmd S B → Cmd S B
  m >> n = m >>= λ _. n

module _ {S : Type 0} where
  -- `assert(cond, …)`
  abbrev pub assert : Bool → Cmd S (Unit {0})
  assert b = if b then pure tt else λ _. exit

  abbrev pub when : Bool → Cmd S (Unit {0}) → Cmd S (Unit {0})
  when b m = if b then m else pure tt

-- A command on a part of the state.
module _ {S T A : Type 0} where
  abbrev pub put_back : S → (T → S → S) → Run T A → Run S A
  put_back s put (ok a t) = ok a (put t s)
  put_back s put fault = fault
  put_back s put exit = exit
  put_back s put out_of_fuel = out_of_fuel

  abbrev pub zoom : (S → T) → (T → S → S) → Cmd T A → Cmd S A
  zoom get put m s = put_back s put (m (get s))

-- Total correctness of a run: it ends, without a fault, and the postcondition holds.
pub data Returns {S A : Type 0} (P : A → S → Type 0) : Run S A → Type 0 where
  returns : {a : A} {s : S} → P a s → Returns P (ok a s)

module _ {S A : Type 0} {P : A → S → Type 0} where
  pub Returns-bind :
      {B : Type 0} {Q : B → S → Type 0} {r : Run S A} {k : A → Cmd S B}
      → Returns P r
      → ((a : A) (s : S) → P a s → Returns Q (k a s))
      → Returns Q (and_then r k)
  Returns-bind (returns p) next = next _ _ p

  pub Returns-mono :
      {Q : A → S → Type 0} {r : Run S A}
      → Returns P r
      → ((a : A) (s : S) → P a s → Q a s)
      → Returns Q r
  Returns-mono (returns p) weaken = returns (weaken _ _ p)

  Returns-here : {a : A} {s : S} → Returns P (ok a s) → P a s
  Returns-here (returns p) = p

  pub Returns-at : {r : Run S A} {a : A} {s : S} → Returns P r → r ≡ ok a s → P a s
  Returns-at p e = Returns-here (subst (Returns P) e p)

  pub Returns-run : {r : Run S A} → Returns P r → Returns (λ a s. P a s × (r ≡ ok a s)) r
  Returns-run (returns p) = returns (p, refl)

-- The rule for a command on a part of the state, with what follows it.
pub Returns-zoom :
    {S T A B : Type 0} {P : A → T → Type 0} {Q : B → S → Type 0} {r : Run T A} (s : S)
    (put : T → S → S) (k : A → Cmd S B)
    → Returns P r
    → ((a : A) (t : T) → P a t → Returns Q (k a (put t s)))
    → Returns Q (and_then (put_back s put r) k)
Returns-zoom s put k (returns p) next = next _ _ p
