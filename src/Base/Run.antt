-- ===== src/Base/Run.antt =====
-- Stateful kernel code: a command takes the state and ends with a value and the new state, or in
-- one of the ways a kernel stops.
use mathlib.Core.Bool.{Bool, true, false}

-- `panicked` is a failed `assert` or a call of `panic`, `fault` a read or write through a bad
-- pointer, `deadlock` a lock that its holder takes again, `out_of_fuel` a loop that has not ended.
pub data Run (S A : Type 0) : Type 0 where
  ok : A → S → Run S A
  panicked fault deadlock out_of_fuel : Run S A

abbrev pub Cmd : Type 0 → Type 0 → Type 0
Cmd S A = S → Run S A

module _ {S A : Type 0} where
  abbrev pub pure : A → Cmd S A
  pure a s = ok a s

module _ {S A B : Type 0} where
  abbrev pub and_then : Run S A → (A → Cmd S B) → Run S B
  and_then (ok a s) k = k a s
  and_then panicked k = panicked
  and_then fault k = fault
  and_then deadlock k = deadlock
  and_then out_of_fuel k = out_of_fuel

  infixl 5 ◌>>=◌ ◌>>◌
  abbrev pub ◌>>=◌ : Cmd S A → (A → Cmd S B) → Cmd S B
  m >>= k = λ s. and_then (m s) k

  abbrev pub ◌>>◌ : Cmd S A → Cmd S B → Cmd S B
  m >> n = m >>= λ _. n

module _ {S : Type 0} where
  -- Reads the state, and writes it.
  abbrev pub gets : {A : Type 0} → (S → A) → Cmd S A
  gets f s = ok (f s) s

  abbrev pub modify : (S → S) → Cmd S (Unit {0})
  modify f s = ok tt (f s)

  -- `assert`.
  abbrev pub assert : Bool → Cmd S (Unit {0})
  assert true s = ok tt s
  assert false s = panicked
