-- ===== src/Effect/Held.antt =====
-- How one more call changes what a log leaves held.
use sample_code.Base.{◌≡◌, ◌≢◌, ◌∙◌, some, List, ◌∷◌}
use sample_code.Effect.Ledger
use sample_code.Effect.Ledger.{Act}

module _ {E R : Type 0} (disc : Discrete R) (act : E → Act R) where
  -- After the calls of `l`, `h` is held, the newest first, and nothing was released wrongly.
  pub record Holds (l : List E) (h : List R) : Type 0 where
    pub is : Ledger.ledger disc act l ≡ some h

  module _ {l : List E} {h : List R} where
    pub gain : (e : E) {r : R} → act e ≡ Ledger.acquire r → Holds l h → Holds (e ∷ l) (r ∷ h)
    unfolding Ledger.ledger
    gain e a p = record { is = rw (a, p.is) }

    pub skip : (e : E) → act e ≡ Ledger.neutral → Holds l h → Holds (e ∷ l) h
    unfolding Ledger.ledger
    skip e a p = record { is = rw (a, p.is) }

    -- A release of what was obtained last.
    pub drop : (e : E) {r : R} → act e ≡ Ledger.release r → Holds l (r ∷ h) → Holds (e ∷ l) h
    unfolding Ledger.ledger
    drop e {r} a p = record { is = rw (a, p.is) (Ledger.remove_self disc r h) }

    -- Calls that use what is held.
    pub gain_from :
        (e : E) {r s : R}
        → act e ≡ Ledger.needs s (Ledger.acquire r)
        → Ledger.Has disc s h
        → Holds l h
        → Holds (e ∷ l) (r ∷ h)
    unfolding Ledger.ledger Ledger.settle
    gain_from e {r} {s} a n p = record {
      is = rw (a, p.is) (Ledger.settle-needs disc s (Ledger.acquire r) h n);
    }

    pub skip_from :
        (e : E) {s : R}
        → act e ≡ Ledger.needs s Ledger.neutral
        → Ledger.Has disc s h
        → Holds l h
        → Holds (e ∷ l) h
    unfolding Ledger.ledger Ledger.settle
    skip_from e {s} a n p = record {
      is = rw (a, p.is) (Ledger.settle-needs disc s Ledger.neutral h n);
    }

    pub drop_from :
        (e : E) {r s : R}
        → act e ≡ Ledger.needs s (Ledger.release r)
        → Ledger.Has disc s (r ∷ h)
        → Holds l (r ∷ h)
        → Holds (e ∷ l) h
    unfolding Ledger.ledger Ledger.settle
    drop_from e {r} {s} a n p = record {
      is =
          rw (a, p.is)
            (Ledger.settle-needs disc s (Ledger.release r) (r ∷ h) n ∙ Ledger.remove_self disc r h);
    }

    -- A release of what was obtained last but one.
    pub drop_below :
        (e : E) {r s : R}
        → act e ≡ Ledger.release r
        → r ≢ s
        → Holds l (s ∷ r ∷ h)
        → Holds (e ∷ l) (s ∷ h)
    unfolding Ledger.ledger
    drop_below e {r} {s} a ne p = record { is = rw (a, p.is) (Ledger.remove_below disc r s h ne) }

    -- A release of what was obtained last but two.
    pub drop_third :
        (e : E) {r s t : R}
        → act e ≡ Ledger.release r
        → r ≢ s
        → r ≢ t
        → Holds l (s ∷ t ∷ r ∷ h)
        → Holds (e ∷ l) (s ∷ t ∷ h)
    unfolding Ledger.ledger
    drop_third e {r} {s} {t} a ne ne' p = record {
      is = rw (a, p.is) (Ledger.remove_third disc r s t h ne ne');
    }
