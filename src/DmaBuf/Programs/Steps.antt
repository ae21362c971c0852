-- ===== src/DmaBuf/Programs/Steps.antt =====
-- The steps that the programs under dma-buf/NN/dmabuf-test/ share.
use sample_code.Base.{ℕ, ◌≡◌, refl, ◌⊎◌, inl, inr, Option, none, some, List, [], ◌∷◌, Option-cases}
use sample_code.Effect.{◌>>=◌}
use sample_code.Effect.Spec.{Returns, returns}
use sample_code.Kernel.{Ret, val, err, Errno}
use sample_code.Posix.{Sys, importer, success, minus_one, minus_errno, Os, open_file, mmap}
use sample_code.Posix.Held.{
  Item, file_ref, sync_ref, mapping_ref, Keeps, gain, skip, drop, drop_second,
}
use sample_code.DmaBuf.Programs.{obtain_dmabuf, read_and_close, hand_over, read_and_end}

-- What the ioctls that ask for a buffer have answered, the newest first; `none` for one that
-- failed.
abbrev pub asked : List Sys → List (Option Ret)
asked [] = []
asked (Sys.get_dmabuf fd o ∷ l) = o ∷ asked l
asked (Sys.ion_alloc fd len o ∷ l) = o ∷ asked l
asked (_ ∷ l) = asked l

-- `dmabuf_fd` after the ioctl of an exporter, with the answers `os` before it.
pub data Stored (os : List (Option Ret)) (h : List Item) : Ret → List Sys → Type 0 where
  kept : {l : List Sys} → asked l ≡ none ∷ os → Keeps l (file_ref 0 ∷ h) → Stored os h (val 0) l
  stored :
      {l : List Sys} (g : ℕ)
      → asked l ≡ some (val g) ∷ os
      → Keeps l (file_ref g ∷ file_ref 0 ∷ h)
      → Stored os h (val g) l
  negative :
      {l : List Sys} (e : Errno)
      → asked l ≡ some (err e) ∷ os
      → Keeps l (file_ref 0 ∷ h)
      → Stored os h (err e) l

pub Stored-cases :
    (o : Option Ret)
    → (o ≡ none) ⊎ (((g : ℕ) × (o ≡ some (val g))) ⊎ ((e : Errno) × (o ≡ some (err e))))
Stored-cases none = inl refl
Stored-cases (some (val g)) = inr (inl (g, refl))
Stored-cases (some (err e)) = inr (inr (e, refl))

module _ (os : Os) where
  pub obtain_dmabuf-Stored :
      (fd : ℕ) {l : List Sys} {h : List Item}
      → Keeps l (file_ref fd ∷ file_ref 0 ∷ h)
      → Returns (Stored (asked l) h) (obtain_dmabuf os fd l)
  unfolding obtain_dmabuf
  obtain_dmabuf-Stored fd {l} p =
      let close = Sys.close (val fd) in
      elim (Stored-cases (os.get_dmabuf l fd)) [
        | inl e ↦
            rw e (returns (kept refl (drop close refl (skip (Sys.get_dmabuf fd none) refl p))))
        | inr (inl (g, e)) ↦
            let q = gain (Sys.get_dmabuf fd (some (val g))) refl p in
            rw e (returns (stored g refl (drop_second close refl q)))
        | inr (inr (c, e)) ↦
            let q = skip (Sys.get_dmabuf fd (some (err c))) refl p in
            rw e (returns (negative c refl (drop close refl q)))
      ]

  -- From the mapping of the descriptor `g` on, with what is held below it.
  pub read_and_close-Keeps :
      (g : ℕ) {l : List Sys} {h : List Item}
      → Keeps l (file_ref g ∷ h)
      → Returns
          (λ r l'.
            (asked l' ≡ asked l)
            × (((r ≡ minus_errno) × Keeps l' (file_ref g ∷ h))
                ⊎ ((a : ℕ) × (r ≡ success) × Keeps l' (mapping_ref a ∷ h))))
          ((mmap os 4096 (val g) >>= read_and_close os (val g)) l)
  unfolding read_and_close
  read_and_close-Keeps g {l} p = elim (Option-cases (os.mmap l 4096 (val g))) [
    | inl e ↦ rw e (returns (refl, inl (refl, skip (Sys.mmap 4096 (val g) none) refl p)))
    | inr (a, e) ↦
        let q = skip (Sys.read_text a) refl (gain (Sys.mmap 4096 (val g) (some a)) refl p) in
        rw e (returns (refl, inr (a, refl, drop_second (Sys.close (val g)) refl q)))
  ]

  -- The same inside of a CPU access.
  pub read_and_end-Keeps :
      (g : ℕ) {l : List Sys} {h : List Item}
      → Keeps l (sync_ref g ∷ h)
      → Returns
          (λ r l'.
            (asked l' ≡ asked l)
            × (((r ≡ minus_errno) × Keeps l' (sync_ref g ∷ h))
                ⊎ ((a : ℕ) × (r ≡ success) × Keeps l' (mapping_ref a ∷ h))))
          ((mmap os 4096 (val g) >>= read_and_end os (val g)) l)
  unfolding read_and_end
  read_and_end-Keeps g {l} p = elim (Option-cases (os.mmap l 4096 (val g))) [
    | inl e ↦ rw e (returns (refl, inl (refl, skip (Sys.mmap 4096 (val g) none) refl p)))
    | inr (a, e) ↦
        let q = skip (Sys.read_text a) refl (gain (Sys.mmap 4096 (val g) (some a)) refl p) in
        rw e (returns (refl, inr (a, refl, drop_second (Sys.sync_end (val g)) refl q)))
  ]

  pub hand_over-Keeps :
      (d : Ret) {l : List Sys} {h : List Item}
      → Keeps l h
      → Returns
          (λ r l'. (asked l' ≡ asked l) × ((r ≡ minus_one) ⊎ (r ≡ success)) × Keeps l' h)
          ((open_file os importer >>= hand_over os d) l)
  unfolding hand_over
  hand_over-Keeps d {l} p = elim (Option-cases (os.open_file l importer)) [
    | inl e ↦ rw e (returns (refl, inl refl, skip (Sys.open_file importer none) refl p))
    | inr (fd, e) ↦
        let q = gain (Sys.open_file importer (some fd)) refl p in
        let q' = skip (Sys.import_dmabuf fd d) refl q in
        rw e (returns (refl, inr refl, drop (Sys.close (val fd)) refl q'))
  ]
