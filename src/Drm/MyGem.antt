-- ===== src/Drm/MyGem.antt =====
-- The smallest driver of dumb buffers, drm/driver/my-gem/dumb.c, and the program that uses it,
-- drm/application/my-gem/dumb.c. What the program prints is left out.
use sample_code.Base.{
  ℕ, true, false, ◌≡◌, refl, Option, none, some, List, ◌∷◌, inl, inr, Option-cases,
}
use sample_code.Effect.{Run, Cmd, pure, ◌>>=◌, ◌>>◌, emit}
use sample_code.Kernel.{Ret, val}
use sample_code.Effect.Outcome.{Outcome, ended, faulted}
use sample_code.Drm.Tables.{CoreFunction, core, FileOperations, DrmDriver}
use sample_code.Drm.Vkms.{VkmsCall, DrmCore, dev_init, dev_register}
use sample_code.Drm.Libdrm.{Call, Device, open_card, create_dumb, map_dumb, mmap, deref}
use sample_code.Drm.Libdrm.Held.{Item, card_ref, dumb_ref, mapping_ref, Holds, gain, skip, drop}

-- drm/driver/my-gem/dumb.c
unfoldable pub mygem_init : DrmCore → Cmd VkmsCall Ret
mygem_init c = do dev_init c; dev_register c; pure (val 0)

unfoldable pub mygem_fops : FileOperations (Unit {0})
mygem_fops = record {
  open_file = some CoreFunction.drm_open;
  release = some CoreFunction.drm_release;
  unlocked_ioctl = some CoreFunction.drm_ioctl;
  poll = some CoreFunction.drm_poll;
  read = some CoreFunction.drm_read;
  mmap = some (core CoreFunction.drm_gem_cma_mmap);
}

unfoldable pub mygem_driver : DrmDriver (Unit {0}) (Unit {0})
unfolding mygem_fops
mygem_driver = record {
  driver_modeset = false;
  driver_gem = true;
  driver_atomic = false;
  fops = some mygem_fops;
  dumb_create = some (core CoreFunction.drm_gem_cma_dumb_create);
  gem_vm_ops = true;
  gem_free_object_unlocked = some CoreFunction.drm_gem_cma_free_object;
}

-- `strcpy` to what `mmap` returned, and `munmap`.
unfoldable pub write_mapped : Option ℕ → ℕ → Cmd Call (Unit {0})
write_mapped vaddr size = do
  a ← deref vaddr
  emit (Call.write_text a)
  emit (Call.munmap vaddr size)

-- `printf` of what `mmap` returned, and `munmap`.
unfoldable pub read_mapped : Option ℕ → ℕ → Cmd Call (Unit {0})
read_mapped vaddr size = do a ← deref vaddr; emit (Call.read_text a); emit (Call.munmap vaddr size)

unfoldable pub main : Device → Cmd Call ℕ
unfolding write_mapped read_mapped
main d = do
  fd ← open_card d
  create_req ← create_dumb d 240 320 32
  offset ← map_dumb d create_req.handle
  vaddr ← mmap d create_req.size offset
  write_mapped vaddr create_req.size
  again ← mmap d create_req.size offset
  read_mapped again create_req.size
  emit Call.getchar
  emit (Call.destroy_dumb create_req.handle)
  emit (Call.close fd)
  pure 0

-- It returns 0 with `h` held, or accesses MAP_FAILED with the card open and the buffer made.
abbrev pub Balanced : List Item → Run Call ℕ → Type 0
Balanced h =
    Outcome (λ r l. (r ≡ 0) × Holds l h)
      (λ l.
        (handle : ℕ) × (fd : ℕ) × Holds l (mapping_ref none ∷ dumb_ref handle ∷ card_ref fd ∷ h))

module _ (d : Device) {h : List Item} where
  -- From any state and whatever the display answers, the program either returns 0 and has given
  -- back the mappings, the dumb buffer and the file that it obtained, or accesses memory through
  -- a failed mapping.
  main-Balanced : {l : List Call} → Holds l h → Balanced h (main d l)
  unfolding main
  main-Balanced {l} p =
      let fd = d.open_card l in
      let l₁ = Call.open_card fd ∷ l in
      let req = d.create_dumb l₁ 240 320 32 in
      let l₂ = Call.create_dumb 240 320 32 req ∷ l₁ in
      let offset = d.map_dumb l₂ req.handle in
      let l₃ = Call.map_dumb req.handle offset ∷ l₂ in
      let p₁ = gain (Call.create_dumb 240 320 32 req) refl (gain (Call.open_card fd) refl p) in
      let p₂ = skip (Call.map_dumb req.handle offset) refl p₁ in
      elim (Option-cases (d.mmap l₃ req.size offset)) [
        | inl e ↦ rw e (faulted (req.handle, fd, gain (Call.mmap req.size offset none) refl p₂))
        | inr (a, e) ↦
            let m = Call.mmap req.size offset (some a) in
            let c = Call.write_text a in
            let u = Call.munmap (some a) req.size in
            let l₄ = u ∷ c ∷ m ∷ l₃ in
            let p₃ = drop u refl (skip c refl (gain m refl p₂)) in
            rw e (elim (Option-cases (d.mmap l₄ req.size offset)) [
              | inl f ↦
                  rw f (faulted (req.handle, fd, gain (Call.mmap req.size offset none) refl p₃))
              | inr (b, f) ↦
                  let q₁ = gain (Call.mmap req.size offset (some b)) refl p₃ in
                  let q₂ = skip (Call.read_text b) refl q₁ in
                  let q₃ = skip Call.getchar refl (drop (Call.munmap (some b) req.size) refl q₂) in
                  let q₄ = drop (Call.destroy_dumb req.handle) refl q₃ in
                  rw f (ended (refl, drop (Call.close fd) refl q₄))
            ])
      ]
