-- ===== src/Effect/Bag.antt =====
-- The ledger of a log with the order of its resources forgotten, for resources that are given
-- back in another order than they were obtained.
use mathlib.Core.List.{append-nil}
use mathlib.Core.Option
use mathlib.Core.Quot
use mathlib.Core.Quot.{Quot}
use sample_code.Base.{◌<◌, ◌≡◌, refl, ap, ◌∙◌, Option, some, List, [], ◌∷◌, ◌++◌, arith}
use sample_code.Effect.Ledger
use sample_code.Effect.Ledger.{Act, acquire, release, neutral, count}
use sample_code.Effect.Held
use sample_code.Effect.Held.{Holds}

module _ {R : Type 0} (disc : Discrete R) where
  -- Two lists hold the same items, as often.
  abbrev pub SameItems : List R → List R → Type 0
  SameItems xs ys = (a : R) → count disc a xs ≡ count disc a ys

  abbrev pub Bag : Type 0
  Bag = Quot SameItems

  pub SameItems-append : (xs ys zs : List R) → SameItems ys zs → SameItems (xs ++ ys) (xs ++ zs)
  SameItems-append [] ys zs s a = s a
  SameItems-append (x ∷ xs) ys zs s a = omega (arith, SameItems-append xs ys zs s a)

  pub SameItems-swap : (xs ys zs : List R) → SameItems (xs ++ (ys ++ zs)) (ys ++ (xs ++ zs))
  SameItems-swap xs ys zs a = omega (
    arith,
    Ledger.count-append disc a xs (ys ++ zs),
    Ledger.count-append disc a ys zs,
    Ledger.count-append disc a ys (xs ++ zs),
    Ledger.count-append disc a xs zs,
  )

  pub SameItems-append_right :
      (xs ys zs : List R) → SameItems xs ys → SameItems (xs ++ zs) (ys ++ zs)
  SameItems-append_right xs ys zs s a =
      omega (arith, s a, Ledger.count-append disc a xs zs, Ledger.count-append disc a ys zs)

  module _ {E : Type 0} (act : E → Act R) where
    -- What is held after `l`, as a bag.
    abbrev pub held_bag : List E → Option Bag
    held_bag l = Option.map Quot.mk (Ledger.ledger disc act l)

    -- After the calls of `l`, the items of `h` are held, in some order, and nothing was released
    -- wrongly.
    pub record Keeps (l : List E) (h : List R) : Type 0 where
      pub order : List R
      pub holds : Holds disc act l order
      pub same : SameItems order h

    pub Keeps-held_bag : {l : List E} {h : List R} → Keeps l h → held_bag l ≡ some (Quot.mk h)
    Keeps-held_bag p = ap (Option.map Quot.mk) p.holds.is ∙ ap some (Quot.sound p.same)

    module _ {l : List E} {h : List R} where
      pub Keeps-Holds : Holds disc act l h → Keeps l h
      Keeps-Holds p = record { order = h; holds = p; same = λ a. refl }

      pub reorder : {h' : List R} → SameItems h h' → Keeps l h → Keeps l h'
      reorder s p = record { order = p.order; holds = p.holds; same = λ a. p.same a ∙ s a }

      pub gain : (e : E) {r : R} → act e ≡ acquire r → Keeps l h → Keeps (e ∷ l) (r ∷ h)
      gain e {r} a p = record {
        order = r ∷ p.order;
        holds = Held.gain disc act e a p.holds;
        same = λ x. omega (arith, p.same x);
      }

      pub skip : (e : E) → act e ≡ neutral → Keeps l h → Keeps (e ∷ l) h
      skip e a p = record { order = p.order; holds = Held.skip disc act e a p.holds; same = p.same }

      -- A release that uses what is held as well.
      pub drop_from :
          (e : E) {r s : R}
          → act e ≡ Ledger.needs s (release r)
          → Ledger.Has disc s (r ∷ h)
          → Keeps l (r ∷ h)
          → Keeps (e ∷ l) h
      unfolding Ledger.ledger Ledger.settle
      drop_from e {r} {s} a n p =
          let some_r : 0 < count disc r p.order = rw (p.same r) (Ledger.count_pos disc r h) in
          let some_s : Ledger.Has disc s p.order = record { counted = rw (p.same s) n.counted } in
          let m = Ledger.remove_of_count disc r p.order some_r in
          let gone : Ledger.remove disc r p.order ≡ some m.left =
            rw (append-nil p.order, append-nil m.left) at (m.removes []) in
          record {
            order = m.left;
            holds = record {
              is =
                  rw (a, p.holds.is) (Ledger.settle-needs disc s (release r) p.order some_s ∙ gone);
            };
            same = λ x. omega (arith, m.counts x, p.same x);
          }

      -- A release of anything that is held.
      pub drop : (e : E) {r : R} → act e ≡ release r → Keeps l (r ∷ h) → Keeps (e ∷ l) h
      unfolding Ledger.ledger Ledger.settle
      drop e {r} a p =
          let some_r : 0 < count disc r p.order = rw (p.same r) (Ledger.count_pos disc r h) in
          let m = Ledger.remove_of_count disc r p.order some_r in
          let gone : Ledger.remove disc r p.order ≡ some m.left =
            rw (append-nil p.order, append-nil m.left) at (m.removes []) in
          record {
            order = m.left;
            holds = record { is = rw (a, p.holds.is) gone };
            same = λ x. omega (arith, m.counts x, p.same x);
          }
