-- ===== src/Effect/Spec.antt =====
-- Postconditions of runs: `Returns P r` says that the run ends without a fault, with an answer
-- and a log that satisfy `P`.
use sample_code.Base.{◌≡◌, List, arith}
use sample_code.Effect.{Run, ok, Cmd, and_then}

pub data Returns {E A : Type 0} (P : A → List E → Type 0) : Run E A → Type 0 where
  returns : {a : A} {l : List E} → P a l → Returns P (ok a l)

module _ {E A : Type 0} {P : A → List E → Type 0} where
  pub bind :
      {B : Type 0} {Q : B → List E → Type 0} {r : Run E A} {f : A → Cmd E B}
      → Returns P r
      → ((a : A) (l : List E) → P a l → Returns Q (f a l))
      → Returns Q (and_then r f)
  bind (returns p) next = next _ _ p

  pub mono :
      {Q : A → List E → Type 0} {r : Run E A}
      → Returns P r
      → ((a : A) (l : List E) → P a l → Q a l)
      → Returns Q r
  mono (returns p) weaken = returns (weaken _ _ p)

  -- What a run that returns is known to satisfy.
  pub at_result : {r : Run E A} (a : A) (l : List E) → Returns P r → r ≡ ok a l → P a l
  at_result a l (returns p) e = ground (arith, p)

-- A run whose end is known.
pub known :
    {E A : Type 0} {P : A → List E → Type 0} {r : Run E A} (a : A) (l : List E)
    → r ≡ ok a l
    → P a l
    → Returns P r
known a l e p = rw e (returns p)
