-- ===== src/Mmap/Program.antt =====
-- mmap/test.c: the program that writes through one mapping of the device and reads through another.
use sample_code.Base.{ℕ, ◌*◌, ◌≡◌, refl, inl, inr, Option, none, some, List, ◌∷◌, Option-cases}
use sample_code.Effect.{Run, Cmd, pure, crash, ◌>>=◌, ◌>>◌, emit}
use sample_code.Effect.Outcome.{Outcome, ended, faulted}
use sample_code.Kernel.{val}
use sample_code.Posix.{Sys, my_dev, Exit, success, Os, open_file, mmap}
use sample_code.Posix.Held.{Item, file_ref, Keeps, gain, skip, drop}

-- `strcpy` to what `mmap` returned, and `munmap`.
unfoldable pub write_mapped : Option ℕ → Cmd Sys (Unit {0})
write_mapped none = crash
write_mapped (some str) = do emit (Sys.write_text str); emit (Sys.munmap str (4096 * 3))

-- `printf` of what `mmap` returned, and `munmap`.
unfoldable pub read_mapped : Option ℕ → Cmd Sys (Unit {0})
read_mapped none = crash
read_mapped (some str) = do emit (Sys.read_text str); emit (Sys.munmap str (4096 * 3))

module _ (os : Os) where
  unfoldable pub use_dev : ℕ → Cmd Sys Exit
  unfolding write_mapped read_mapped
  use_dev fd = do
    str ← mmap os (4096 * 3) (val fd)
    write_mapped str
    again ← mmap os (4096 * 3) (val fd)
    read_mapped again
    emit (Sys.close (val fd))
    pure success

  -- A failure of `open` is not told from success.
  unfoldable pub main : Cmd Sys Exit
  unfolding use_dev
  main = do opened ← open_file os my_dev; elim opened [ none ↦ pure success | some fd ↦ use_dev fd ]

-- It returns 0 with `h` open, or accesses MAP_FAILED with the device open too.
abbrev pub Ends : List Item → Run Sys Exit → Type 0
Ends h = Outcome (λ r l. (r ≡ success) × Keeps l h) (λ l. (fd : ℕ) × Keeps l (file_ref fd ∷ h))

module _ (os : Os) {h : List Item} where
  mapped_again :
      (fd : ℕ) {l : List Sys}
      → Keeps l (file_ref fd ∷ h)
      → Ends h (
          (mmap os (4096 * 3) (val fd) >>= λ again.
          read_mapped again >> (emit (Sys.close (val fd)) >> pure success))
            l)
  unfolding read_mapped
  mapped_again fd {l} p = elim (Option-cases (os.mmap l 12288 (val fd))) [
    | inl e ↦ rw e (faulted (fd, skip (Sys.mmap 12288 (val fd) none) refl p))
    | inr (a, e) ↦
        let p₁ = skip (Sys.read_text a) refl (gain (Sys.mmap 12288 (val fd) (some a)) refl p) in
        let p₂ = drop (Sys.munmap a 12288) refl p₁ in
        rw e (ended (refl, drop (Sys.close (val fd)) refl p₂))
  ]

  use_dev-Ends : (fd : ℕ) {l : List Sys} → Keeps l (file_ref fd ∷ h) → Ends h (use_dev os fd l)
  unfolding use_dev
  use_dev-Ends fd {l} p = elim (Option-cases (os.mmap l 12288 (val fd))) [
    | inl e ↦ rw e (faulted (fd, skip (Sys.mmap 12288 (val fd) none) refl p))
    | inr (a, e) ↦
        let p₁ = skip (Sys.write_text a) refl (gain (Sys.mmap 12288 (val fd) (some a)) refl p) in
        rw e (mapped_again fd (drop (Sys.munmap a 12288) refl p₁))
  ]

  -- From any state and whatever the system answers, the program either returns 0 with the device
  -- closed, both mappings removed and nothing else changed, or accesses memory through a failed
  -- mapping while it has only the device open.
  main-Ends : {l : List Sys} → Keeps l h → Ends h (main os l)
  unfolding main
  main-Ends {l} p = elim (Option-cases (os.open_file l my_dev)) [
    | inl e ↦ rw e (ended (refl, skip (Sys.open_file my_dev none) refl p))
    | inr (fd, e) ↦ rw e (use_dev-Ends fd (gain (Sys.open_file my_dev (some fd)) refl p))
  ]
