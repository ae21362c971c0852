-- ===== src/Effect/Outcome.antt =====
-- What a run ends with when a fault is one of the ways to end.
use sample_code.Base.{List}
use sample_code.Effect.{Run, ok, fault, Cmd, and_then}

-- An answer and a log that satisfy `P`, or a fault and a log that satisfies `Q`.
pub data Outcome {E A : Type 0} (P : A → List E → Type 0) (Q : List E → Type 0)
    : Run E A → Type 0 where
  ended : {a : A} {l : List E} → P a l → Outcome P Q (ok a l)
  faulted : {l : List E} → Q l → Outcome P Q (fault l)

pub bind :
    {E A B : Type 0} {P : A → List E → Type 0} {P' : B → List E → Type 0} {Q : List E → Type 0}
    {r : Run E A} {f : A → Cmd E B}
    → Outcome P Q r
    → ((a : A) (l : List E) → P a l → Outcome P' Q (f a l))
    → Outcome P' Q (and_then r f)
bind (ended p) next = next _ _ p
bind (faulted q) next = faulted q

pub weaken :
    {E A : Type 0} {P P' : A → List E → Type 0} {Q Q' : List E → Type 0} {r : Run E A}
    → Outcome P Q r
    → ((a : A) (l : List E) → P a l → P' a l)
    → ((l : List E) → Q l → Q' l)
    → Outcome P' Q' r
weaken (ended p) f g = ended (f _ _ p)
weaken (faulted q) f g = faulted (g _ q)
