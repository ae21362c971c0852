-- ===== src/Posix/Held.antt =====
-- What a log of system calls leaves a process with.
use sample_code.Base.{◌≡◌, refl, ℕ, ℕ_discrete, some, List, [], ◌∷◌, arith}
use sample_code.Effect.Bag
use sample_code.Effect.Ledger
use sample_code.Effect.Ledger.{Act, acquire, release, neutral}
use sample_code.Kernel.{val}
use sample_code.Posix.Calls.{Sys}

-- An open descriptor, a CPU access that was begun, and a mapping.
pub data Item : Type 0 where
  file_ref sync_ref mapping_ref : ℕ → Item

pub Item-discrete : Discrete Item
Item-discrete = hlevel ℕ_discrete

abbrev pub act : Sys → Act Item
act (Sys.open_file f (some fd)) = acquire (file_ref fd)
act (Sys.close (val fd)) = release (file_ref fd)
act (Sys.get_dmabuf fd (some (val g))) = acquire (file_ref g)
act (Sys.ion_alloc fd len (some (val g))) = acquire (file_ref g)
act (Sys.sync_start (val fd)) = acquire (sync_ref fd)
act (Sys.sync_end (val fd)) = release (sync_ref fd)
act (Sys.mmap size fd (some a)) = acquire (mapping_ref a)
act (Sys.munmap a size) = release (mapping_ref a)
act s = neutral

-- In no particular order.
abbrev pub Keeps : List Sys → List Item → Type 0
Keeps = Bag.Keeps Item-discrete act

module _ {l : List Sys} {h : List Item} where
  pub gain : (s : Sys) {r : Item} → act s ≡ acquire r → Keeps l h → Keeps (s ∷ l) (r ∷ h)
  gain = Bag.gain Item-discrete act

  pub skip : (s : Sys) → act s ≡ neutral → Keeps l h → Keeps (s ∷ l) h
  skip = Bag.skip Item-discrete act

  pub drop : (s : Sys) {r : Item} → act s ≡ release r → Keeps l (r ∷ h) → Keeps (s ∷ l) h
  drop = Bag.drop Item-discrete act

  -- A release of what was obtained last but one.
  pub drop_second :
      (s : Sys) {r q : Item} → act s ≡ release r → Keeps l (q ∷ r ∷ h) → Keeps (s ∷ l) (q ∷ h)
  drop_second s {r} {q} a p =
      Bag.drop Item-discrete act s a (Bag.reorder Item-discrete act (λ x. omega arith) p)

  -- A release of what was obtained last but two.
  pub drop_third :
      (s : Sys) {r q t : Item}
      → act s ≡ release r
      → Keeps l (q ∷ t ∷ r ∷ h)
      → Keeps (s ∷ l) (q ∷ t ∷ h)
  drop_third s {r} {q} {t} a p =
      Bag.drop Item-discrete act s a (Bag.reorder Item-discrete act (λ x. omega arith) p)

-- A process of which nothing is counted.
pub nothing : Keeps [] []
unfolding Ledger.ledger
nothing = Bag.Keeps-Holds Item-discrete act (record { is = refl })
