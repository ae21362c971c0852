-- ===== src/Kernel/Bag.antt =====
-- What a log of kernel calls leaves held, in no particular order.
use sample_code.Base.{◌≡◌, sym, ◌∙◌, Option, List, ◌∷◌, ◌++◌}
use sample_code.Effect.Bag
use sample_code.Effect.Bag.{SameItems-append}
use sample_code.Effect.Ledger
use sample_code.Kernel.Types.{Res, Res-discrete}
use sample_code.Kernel.Log.{Event, act}
use sample_code.Kernel.Held.{Holds}

abbrev pub ResBag : Type 0
ResBag = Bag.Bag Res-discrete

abbrev pub SameItems : List Res → List Res → Type 0
SameItems = Bag.SameItems Res-discrete

abbrev pub Keeps : List Event → List Res → Type 0
Keeps = Bag.Keeps Res-discrete act

abbrev pub held_bag : List Event → Option ResBag
held_bag = Bag.held_bag Res-discrete act

module _ {l : List Event} {h : List Res} where
  pub Keeps-Holds : Holds l h → Keeps l h
  Keeps-Holds = Bag.Keeps-Holds Res-discrete act

  pub reorder : {h' : List Res} → SameItems h h' → Keeps l h → Keeps l h'
  reorder = Bag.reorder Res-discrete act

  pub gain : (e : Event) {r : Res} → act e ≡ Ledger.acquire r → Keeps l h → Keeps (e ∷ l) (r ∷ h)
  gain = Bag.gain Res-discrete act

  pub skip : (e : Event) → act e ≡ Ledger.neutral → Keeps l h → Keeps (e ∷ l) h
  skip = Bag.skip Res-discrete act

  pub drop : (e : Event) {r : Res} → act e ≡ Ledger.release r → Keeps l (r ∷ h) → Keeps (e ∷ l) h
  drop = Bag.drop Res-discrete act

  pub drop_from :
      (e : Event) {r s : Res}
      → act e ≡ Ledger.needs s (Ledger.release r)
      → Ledger.Has Res-discrete s (r ∷ h)
      → Keeps l (r ∷ h)
      → Keeps (e ∷ l) h
  drop_from = Bag.drop_from Res-discrete act

-- What was obtained on top of a known order.
pub Keeps_on :
    (xs : List Res) {l l' : List Event} {h : List Res} (p : Keeps l h)
    → Holds l' (xs ++ p.order)
    → Keeps l' (xs ++ h)
Keeps_on xs {h} p q = record {
  order = xs ++ p.order;
  holds = q;
  same = SameItems-append Res-discrete xs p.order h p.same;
}

pub same_bag :
    {l l' : List Event} {h : List Res} → Keeps l h → Keeps l' h → held_bag l' ≡ held_bag l
same_bag p q = Bag.Keeps-held_bag Res-discrete act q ∙ sym (Bag.Keeps-held_bag Res-discrete act p)
