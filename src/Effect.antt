-- ===== src/Effect.antt =====
-- A driver or a program as a command over the log of the external calls that it has made.
-- Each call is an event that carries its arguments and its answer, the newest event first.
-- `fault` is an access through a pointer that names no object, or past the end of an array.
pub mod Bag
pub mod Held
pub mod Ledger
pub mod Outcome
pub mod Spec
use sample_code.Base.{Option, none, some, List, ◌∷◌}

pub data Run (E A : Type 0) : Type 0 where
  ok : A → List E → Run E A
  fault : List E → Run E A

abbrev pub Cmd : Type 0 → Type 0 → Type 0
Cmd E A = List E → Run E A

module _ {E : Type 0} where
  abbrev pub pure : {A : Type 0} → A → Cmd E A
  pure a l = ok a l

  -- An invalid memory access.
  abbrev pub crash : {A : Type 0} → Cmd E A
  crash l = fault l

  -- `*p`, where `none` is a pointer that names no object.
  abbrev pub deref : {A : Type 0} → Option A → Cmd E A
  deref none = crash
  deref (some a) = pure a

  module _ {A B : Type 0} where
    abbrev pub and_then : Run E A → (A → Cmd E B) → Run E B
    and_then (ok a l) f = f a l
    and_then (fault l) f = fault l

    infixl 5 ◌>>=◌ ◌>>◌
    abbrev pub ◌>>=◌ : Cmd E A → (A → Cmd E B) → Cmd E B
    m >>= f = λ l. and_then (m l) f

    abbrev pub ◌>>◌ : Cmd E A → Cmd E B → Cmd E B
    m >> n = m >>= λ _. n

  -- A call whose answer is read off the log by the environment.
  abbrev pub call : {A : Type 0} → (List E → A) → (A → E) → Cmd E A
  call answer event l = ok (answer l) (event (answer l) ∷ l)

  -- A call that returns nothing.
  abbrev pub emit : E → Cmd E (Unit {0})
  emit e l = ok tt (e ∷ l)
