-- ===== src/DmaBuf/Ion/Cpu.antt =====
-- CPU access to the buffers of dma-buf/09/exporter-ion.c: the sync callbacks and the page maps.
use sample_code.Base.{
  ℕ, ◌≤◌, ◌≡◌, refl, inl, inr, ◌↔◌, List, ◌∷◌, length, get_elem?, get_elem?-none, Option-cases,
  arith,
}
use sample_code.Effect.{ok, fault}
use sample_code.Kernel.{Kernel, null, at, val, Direction, Event}
use sample_code.DmaBuf.Core.{Attachment, DmaBuf}
use sample_code.DmaBuf.Ion.{
  IonData, ion_attach, ion_begin_cpu_access, ion_end_cpu_access, page_at, ion_kmap,
}

-- `dma_buf_attach` hands `ion_attach` an attachment whose `priv` is NULL, and `ion_attach` leaves
-- it so. Once such an attachment is the first of a buffer, both sync callbacks access NULL.
pub cpu_access-fault :
    (k : Kernel) (d : DmaBuf IonData) (dir : Direction) (a a' : Attachment) (rest : List Attachment)
    (l l' m : List Event)
    → a.priv ≡ null
    → ion_attach d a l ≡ ok (val 0, a') l'
    → let d' : DmaBuf IonData = record d { attachments = a' ∷ rest } in
      (ion_begin_cpu_access k d' dir m ≡ fault m) × (ion_end_cpu_access k d' dir m ≡ fault m)
unfolding ion_attach ion_begin_cpu_access ion_end_cpu_access
cpu_access-fault k d dir a a' rest l l' m n e =
    let q : a'.priv ≡ null = ground arith in rw q (refl, refl)

-- With no attachment they make no call. With a table in the first attachment's `priv` they sync
-- the entries of that table, all of them and those only, in the direction given.
pub cpu_access-sync :
    (k : Kernel) (d : DmaBuf IonData) (dir : Direction) (a : Attachment) (rest : List Attachment)
    (t : ℕ) (l : List Event)
    → d.attachments ≡ a ∷ rest
    → a.priv ≡ at t
    → (ion_begin_cpu_access k d dir l
        ≡ ok (val 0) (Event.dma_sync_sg_for_cpu (k.sgl l (at t)) (k.nents l (at t)) dir ∷ l))
      × (ion_end_cpu_access k d dir l
          ≡ ok (val 0) (Event.dma_sync_sg_for_device (k.sgl l (at t)) (k.nents l (at t)) dir ∷ l))
unfolding ion_begin_cpu_access ion_end_cpu_access
cpu_access-sync k d dir a rest t l e f = rw (e, f) (refl, refl)

-- `ion_kmap` checks no bound: it accesses memory past the array exactly for the page numbers
-- that the buffer has not.
ion_kmap-fault :
    (k : Kernel) (d : DmaBuf IonData) (n : ℕ) (l : List Event)
    → (ion_kmap k d n l ≡ fault l) ↔ (length d.priv.pages ≤ n)
unfolding ion_kmap
ion_kmap-fault k d n l = elim (Option-cases (get_elem? d.priv.pages n)) [
  | inl e ↦ (λ _. (get_elem?-none d.priv.pages n).0 e, λ _. rw (e, page_at))
  | inr (p, e) ↦ (λ h. cc (rw (e, page_at) at h), λ h. cc ((get_elem?-none d.priv.pages n).1 h))
]
