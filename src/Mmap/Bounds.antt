-- ===== src/Mmap/Bounds.antt =====
-- Which pages the drivers of mmap/mmap1.c, mmap2.c and mmap4.c give out.
use native.Mathlib.Nat.{mod-eq_of_lt}
use sample_code.Base.{
  ℕ, ◌+◌, ◌-◌, ◌*◌, ◌/◌, ◌%◌, ◌≤◌, ◌<◌, ◌^◌, ◌≡◌, ◌↔◌, refl, inl, inr, List, ◌∷◌, arith,
  Option-cases, to_size, u64_mod, u32_mod,
}
use sample_code.Effect.{ok}
use sample_code.Kernel.{Kernel, Ptr, at, Ret, val, err, page_size, Vma, Event}
use sample_code.Mmap.{
  VmFault, FaultResult, sigbus, nopage, done, my_mmap_all, int_offset, my_fault_int, my_fault_page,
}

-- The frames of a range of user addresses that starts at frame `pfn`, against the three frames
-- from `base`: every frame of the range is one of those.
abbrev pub Inside : ℕ → ℕ → ℕ → Type 0
Inside base pfn size = (i : ℕ) → i * page_size < size → (base ≤ pfn + i) × (pfn + i < base + 3)

pub int_offset-small : (pgoff : ℕ) → pgoff < 2 ^ 19 → to_size (int_offset pgoff) ≡ pgoff * page_size
int_offset-small pgoff h = ground arith

int_offset-wraps : (pgoff : ℕ) → int_offset (pgoff + 2 ^ 20) ≡ int_offset pgoff
int_offset-wraps pgoff =
    let e : (pgoff + 2 ^ 20) * page_size % u64_mod % u32_mod
        ≡ pgoff * page_size % u64_mod % u32_mod =
      omega arith in
    rw e

module _ (k : Kernel) where
  -- mmap1.c makes one call, whose frames all lie in the block at `kaddr` exactly when the offset
  -- and the length asked for, taken together, stay within three pages. It checks neither. The
  -- area is not empty.
  pub my_mmap_all-Inside :
      (kaddr : Ptr) (vma : Vma) (l : List Event)
      → vma.vm_start < vma.vm_end
      → let base = k.virt_to_phys kaddr / page_size in
        let pfn = base + vma.vm_pgoff in
        let size = vma.vm_end - vma.vm_start in
        ((r : Ret) × (my_mmap_all k kaddr vma l
            ≡ ok r (Event.remap_pfn_range vma.vm_start pfn size r ∷ l)))
        × (Inside base pfn size ↔ (vma.vm_pgoff * page_size + size ≤ 3 * page_size))
  unfolding my_mmap_all
  my_mmap_all-Inside kaddr vma l h =
      let last : ℕ = (vma.vm_end - vma.vm_start - 1) / page_size in
      ((_, refl), (λ inside. omega (arith, (inside last (omega arith)).1), λ le i hi. omega arith))

  -- mmap2.c and mmap4.c give out the page at `kaddr + pgoff * PAGE_SIZE` for any page offset
  -- below 2^19, whether it lies in the block of three or not, if that address does not wrap.
  my_fault-page_at :
      (kaddr : ℕ) (vmf : VmFault) (l : List Event)
      → vmf.pgoff < 2 ^ 19
      → kaddr + vmf.pgoff * page_size < u64_mod
      → let page = k.virt_to_page (kaddr + vmf.pgoff * page_size) in
        ((r : Ret) × (f : FaultResult) × (my_fault_int k (at kaddr) vmf l
            ≡ ok f (Event.vm_insert_page vmf.address page r ∷ l))
          × ((f ≡ nopage) ↔ (r ≡ val 0)))
        × (my_fault_page k (at kaddr) vmf l ≡ ok (done, page) (Event.get_page page ∷ l))
  unfolding my_fault_int my_fault_page
  my_fault-page_at kaddr vmf l small fits =
      let page = k.virt_to_page (kaddr + vmf.pgoff * page_size) in
      rw (int_offset-small vmf.pgoff small, mod-eq_of_lt fits)
        (elim (Option-cases (k.vm_insert_page l vmf.address page)) [
          | inl e ↦ rw e ((val 0, nopage, refl, ((λ _. refl), λ _. refl)), refl)
          | inr (c, e) ↦ rw e ((err c, sigbus, refl, ((λ f. cc), λ f. cc)), refl)
        ])

  -- The `int` in mmap2.c drops the bits above: a page offset that is 2^20 larger reaches the same
  -- page.
  my_fault_int-wraps :
      (kaddr : Ptr) (pgoff address : ℕ) (l : List Event)
      → my_fault_int k kaddr (record { pgoff = pgoff + 2 ^ 20; address = address }) l
        ≡ my_fault_int k kaddr (record { pgoff = pgoff; address = address }) l
  unfolding my_fault_int
  my_fault_int-wraps kaddr pgoff address l = rw (int_offset-wraps pgoff)
