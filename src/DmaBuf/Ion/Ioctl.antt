-- ===== src/DmaBuf/Ion/Ioctl.antt =====
-- `ion_ioctl` of dma-buf/09/exporter-ion.c, and how it treats a refused allocation.
use sample_code.Base.{
  ℕ, suc, ◌≡◌, ◌≢◌, refl, inl, inr, false, List, ◌∷◌, ℕ-cases, if◌then◌else◌, negsuc, ne_zero,
  ==_of_eq, ==_of_ne,
}
use sample_code.Effect.{ok}
use sample_code.Effect.Spec
use sample_code.Effect.Spec.{Returns, returns}
use sample_code.Kernel.{
  Kernel, Ptr, Ret, val, err, einval, efault, is_null, IonAllocationData, ion_answer, Event, Res,
}
use sample_code.Kernel.Held.{Holds, skip}
use sample_code.DmaBuf.Ion.{IonData, npages_of, ion_answer_fd, ion_ioctl}
use sample_code.DmaBuf.Ion.Alloc.{Allocated, ion_alloc-Allocated}

module _ (k : Kernel) (cmd : ℕ) (user : IonAllocationData) where
  -- What `ion_ioctl` does with the answer `p` of `ion_alloc`, after the log `m`: it makes a
  -- descriptor of it, copies it out, and reports only whether the copy worked.
  pub record Answered (p : Ptr) (m : List Event) (r : Ret) (l : List Event) : Type 0 where
    pub fd : Ret
    pub left : ℕ
    pub log :
        l
        ≡ Event.copy_to_user (ion_answer (record user { fd = fd })) left ∷ Event.dma_buf_fd p fd ∷ m
    pub reports : r ≡ (if ne_zero left then err efault else val 0)

  -- When the argument could not be read `ion_ioctl` answers -EFAULT, and to an unknown command
  -- -EINVAL, in both cases with no call but the read.
  pub ion_ioctl-rejects :
      (l : List Event)
      → ((n : ℕ)
          → k.copy_from_user l ≡ suc n
          → ion_ioctl k cmd user l ≡ ok (err efault) (Event.copy_from_user (suc n) ∷ l))
        × (k.copy_from_user l ≡ 0
            → cmd ≢ k.ion_ioc_alloc
            → ion_ioctl k cmd user l ≡ ok (err einval) (Event.copy_from_user 0 ∷ l))
  unfolding ion_ioctl
  ion_ioctl-rejects l = (λ n e. rw e, λ e ne. rw (e, ==_of_ne cmd k.ion_ioc_alloc ne))

  not_null :
      {h : List Res} (r : Ptr × IonData) (m : List Event)
      → Allocated k user.len h r m
      → is_null r.0 ≡ false
  not_null r m (inl (e, holds)) = rw e
  not_null r m (inr (b, e, made)) = rw e

  -- `ion_ioctl` behind the call of `ion_alloc`, for an answer that is not NULL.
  answer-Answered :
      (p : Ptr) (m : List Event)
      → is_null p ≡ false
      → Returns (Answered p m) (ion_answer_fd k user p m)
  unfolding ion_answer_fd
  answer-Answered p m q =
      let fd = k.dma_buf_fd m p in
      rw q (elim (ℕ-cases (k.copy_to_user (Event.dma_buf_fd p fd ∷ m))) [
        | inl z ↦ rw z (returns (record { fd = fd; left = 0; log = refl; reports = refl }))
        | inr (n, z) ↦ rw z (returns (record { fd = fd; left = suc n; log = refl; reports = refl }))
      ])

  -- What came of `ion_alloc`, and that `ion_ioctl` answered with it.
  pub record Served (h : List Res) (r : Ret) (l : List Event) : Type 0 where
    pub result : Ptr × IonData
    pub mid : List Event
    pub allocated : Allocated k user.len h result mid
    pub answered : Answered result.0 mid r l

  -- A request that passes both checks, for a size whose page count is not -1 as an `int`, hands the result of `ion_alloc` to `dma_buf_fd`, also the
  -- ERR_PTR of a refused size, and reports only whether the answer could be copied: -EFAULT if
  -- not, else 0. So its -ENOMEM is never reported.
  pub ion_ioctl-Served :
      {l : List Event} {h : List Res}
      → k.copy_from_user l ≡ 0
      → cmd ≡ k.ion_ioc_alloc
      → npages_of user.len ≢ negsuc 0
      → Holds l h
      → Returns (Served h) (ion_ioctl k cmd user l)
  unfolding ion_ioctl
  ion_ioctl-Served {l} {h} c q counted p =
      rw (c, ==_of_eq cmd k.ion_ioc_alloc q)
        (Spec.bind (ion_alloc-Allocated k user.len counted (skip (Event.copy_from_user 0) refl p))
          λ r m alloc.
            Spec.mono (answer-Answered r.0 m (not_null r m alloc))
              λ ret l' ans. record { result = r; mid = m; allocated = alloc; answered = ans })
