-- ===== src/Kernel/Held.antt =====
-- How one more call of the kernel changes what a log leaves held.
use sample_code.Base.{◌≡◌, ◌≢◌, List, ◌∷◌}
use sample_code.Effect.Held
use sample_code.Effect.Ledger
use sample_code.Kernel.Types.{Res, Res-discrete}
use sample_code.Kernel.Log.{Event, act}

abbrev pub Holds : List Event → List Res → Type 0
Holds = Held.Holds Res-discrete act

abbrev pub Has : Res → List Res → Type 0
Has = Ledger.Has Res-discrete

pub here : (r : Res) (h : List Res) → Has r (r ∷ h)
here r h = record { counted = Ledger.count_pos Res-discrete r h }

pub later : (r x : Res) (h : List Res) → Has r h → Has r (x ∷ h)
later = Ledger.Has-later Res-discrete

module _ {l : List Event} {h : List Res} where
  pub gain : (e : Event) {r : Res} → act e ≡ Ledger.acquire r → Holds l h → Holds (e ∷ l) (r ∷ h)
  gain = Held.gain Res-discrete act

  pub skip : (e : Event) → act e ≡ Ledger.neutral → Holds l h → Holds (e ∷ l) h
  skip = Held.skip Res-discrete act

  pub drop : (e : Event) {r : Res} → act e ≡ Ledger.release r → Holds l (r ∷ h) → Holds (e ∷ l) h
  drop = Held.drop Res-discrete act

  pub gain_from :
      (e : Event) {r s : Res}
      → act e ≡ Ledger.needs s (Ledger.acquire r)
      → Has s h
      → Holds l h
      → Holds (e ∷ l) (r ∷ h)
  gain_from = Held.gain_from Res-discrete act

  pub skip_from :
      (e : Event) {s : Res}
      → act e ≡ Ledger.needs s Ledger.neutral
      → Has s h
      → Holds l h
      → Holds (e ∷ l) h
  skip_from = Held.skip_from Res-discrete act

  pub drop_from :
      (e : Event) {r s : Res}
      → act e ≡ Ledger.needs s (Ledger.release r)
      → Has s (r ∷ h)
      → Holds l (r ∷ h)
      → Holds (e ∷ l) h
  drop_from = Held.drop_from Res-discrete act

  pub drop_below :
      (e : Event) {r s : Res}
      → act e ≡ Ledger.release r
      → r ≢ s
      → Holds l (s ∷ r ∷ h)
      → Holds (e ∷ l) (s ∷ h)
  drop_below = Held.drop_below Res-discrete act
