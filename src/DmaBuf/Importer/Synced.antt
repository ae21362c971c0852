-- ===== src/DmaBuf/Importer/Synced.antt =====
-- The order of CPU accesses and cache syncs in the importers of dma-buf/02, 06, 07 and 08.
use sample_code.Base.{
  ℕ, Bool, true, false, ◌≡◌, ◌⊎◌, refl, inl, inr, List, [], ◌∷◌, Bool-cases, ℕ-cases, suc,
}
use sample_code.Effect.Spec
use sample_code.Effect.Spec.{Returns, returns}
use sample_code.Kernel.{
  Kernel, Ptr, err_ptr, at, val, err, Errno, efault, is_null, Direction, Res, Ret, Ret-cases, Event,
}
use sample_code.Kernel.Held.{Holds, here, gain, skip, drop}
use sample_code.DmaBuf.Importer.{importer_test1}
use sample_code.DmaBuf.Importer.Dma.{importer_test1-Holds}
use sample_code.DmaBuf.Importer.Early.{importer_test_kmap, importer_ioctl_fd, importer_test_sync}

-- The log of an importer that reads the buffer `d` only between a begin and an end of its CPU
-- access. The flag says whether an access is open.
pub data Synced (d : Ptr) : Bool → List Event → Type 0 where
  start : Synced d false []
  begins :
      {l : List Event} (dir : Direction)
      → Synced d false l
      → Synced d true (Event.dma_buf_begin_cpu_access d dir ∷ l)
  ends :
      {l : List Event} (dir : Direction)
      → Synced d true l
      → Synced d false (Event.dma_buf_end_cpu_access d dir ∷ l)
  reads_page :
      {l : List Event} (n : ℕ) (p : Ptr)
      → Synced d true l
      → Synced d true (Event.dma_buf_kmap d n p ∷ l)
  leaves_page :
      {l : List Event} (n : ℕ) (p : Ptr)
      → Synced d true l
      → Synced d true (Event.dma_buf_kunmap d n p ∷ l)
  reads_all :
      {l : List Event} (p : Ptr) → Synced d true l → Synced d true (Event.dma_buf_vmap d p ∷ l)
  leaves_all :
      {l : List Event} (p : Ptr) → Synced d true l → Synced d true (Event.dma_buf_vunmap d p ∷ l)

unopened :
    {d d₁ d₂ d₃ d₄ : Ptr} {b : Bool} {p p' q q' : Ptr} {i j : ℕ}
    → ¬ Synced d b (
        Event.dma_buf_vunmap d₁ p
        ∷ Event.dma_buf_vmap d₂ p'
        ∷ Event.dma_buf_kunmap d₃ i q
        ∷ Event.dma_buf_kmap d₄ j q'
        ∷ [])
unopened (leaves_all _ (reads_all _ (leaves_page _ _ (reads_page _ _ s)))) = elim s [ ]

module _ (k : Kernel) where
  importer_test1-Synced :
      (d : Ptr) {l : List Event}
      → Synced d true l
      → Returns (λ r l'. Synced d true l') (importer_test1 k d l)
  unfolding importer_test1
  importer_test1-Synced d q =
      returns (leaves_all _ (reads_all _ (leaves_page _ _ (reads_page _ _ q))))

  -- For every kernel and every buffer, the test of dma-buf/07 reads the buffer only between the
  -- begin and the end of a CPU access, and closes the access again.
  pub importer_test_sync-Synced :
      (d : Ptr) {l : List Event}
      → Synced d false l
      → Returns (λ r l'. Synced d false l') (importer_test_sync k d l)
  unfolding importer_test_sync
  importer_test_sync-Synced d q = elim (Bool-cases (is_null d)) [
    | inl n ↦ rw n (returns q)
    | inr n ↦ rw n (Spec.bind (importer_test1-Synced d (begins _ q)) λ _ m p. returns (ends _ p))
  ]

  -- The test of dma-buf/02 reads a buffer with no access open: whatever the kernel answers, its
  -- log on a buffer that is not NULL is never `Synced`.
  importer_test_kmap-unsynced :
      (d : Ptr)
      → is_null d ≡ false
      → Returns (λ r l. (b : Bool) → ¬ Synced d b l) (importer_test_kmap k d [])
  unfolding importer_test_kmap importer_test1
  importer_test_kmap-unsynced d n = rw n (returns (λ b s. unopened s))

  -- For every kernel `importer_ioctl` of dma-buf/06 gives back all it took, and answers -EFAULT,
  -- the error of `dma_buf_get`, or 0.
  pub importer_ioctl_fd-Holds :
      (fd : Ret) {l : List Event} {h : List Res}
      → Holds l h
      → Returns
          (λ r l'. ((r ≡ val 0) ⊎ ((e : Errno) × (r ≡ err e))) × Holds l' h)
          (importer_ioctl_fd k fd l)
  unfolding importer_ioctl_fd
  importer_ioctl_fd-Holds fd {l} q = elim (ℕ-cases (k.copy_from_user l)) [
    | inr (n, e) ↦ rw e (returns (inr (efault, refl), skip (Event.copy_from_user (suc n)) refl q))
    | inl e ↦
        let l₁ = Event.copy_from_user 0 ∷ l in
        let q₁ = skip (Event.copy_from_user 0) refl q in
        rw e (elim (Ret-cases (k.dma_buf_get l₁ fd)) [
          | inr (c, f) ↦
              rw f (returns (inr (c, refl), skip (Event.dma_buf_get fd (err_ptr c)) refl q₁))
          | inl (b, f) ↦ rw f (
              Spec.bind
                (importer_test1-Holds k (at b) (here _ _)
                  (gain (Event.dma_buf_get fd (at b)) refl q₁))
                λ _ m p. returns (inl refl, drop (Event.dma_buf_put (at b)) refl p.1))
        ])
  ]
