-- ===== src/Mmap/Tests.antt =====
-- The theorems about mmap/ at a concrete kernel.
use sample_code.Base.{
  ℕ, Option, ◌+◌, ◌/◌, refl, ◌*◌, ◌≤◌, ◌≡◌, ◌↔◌, none, some, ltb, if◌then◌else◌, length, List, [],
  ◌∷◌, arith,
}
use sample_code.Effect.{ok}
use sample_code.Effect.Spec.{Returns}
use sample_code.Kernel.{val, Kernel, to_address, Ptr, null, at, Ret, page_size, Vma, Event}
use sample_code.Kernel.Granting.{kernel}
use sample_code.Posix.{Os, Sys, DeviceFile, success}
use sample_code.Mmap
use sample_code.Mmap.{VmFault, FaultResult, nopage, done}

-- Two pages from page 2 on: one of them is past the block.
abbrev area : Vma
area = record { vm_start = 4096; vm_end = 12288; vm_pgoff = 2 }

my_mmap_all-Inside_example :
    ((r : Ret) × (Mmap.my_mmap_all kernel (at 1) area []
        ≡ ok r (Event.remap_pfn_range 4096 2 8192 r ∷ [])))
    × (Mmap.Bounds.Inside 0 2 8192 ↔ (2 * page_size + 8192 ≤ 3 * page_size))
my_mmap_all-Inside_example = Mmap.Bounds.my_mmap_all-Inside kernel (at 1) area [] (omega arith)

abbrev touch : VmFault
touch = record { pgoff = 2; address = 4096 }

abbrev empty_table : List Ptr
empty_table = null ∷ null ∷ null ∷ []

my_fault_lazy-Touched_example :
    Returns
      (λ r l'. Mmap.Lazy.Touched kernel (at 1) empty_table 1 r.1)
      (Mmap.my_fault_lazy kernel empty_table (record { pgoff = 1; address = 4096 }) [])
my_fault_lazy-Touched_example =
    Mmap.Lazy.my_fault_lazy-Touched kernel empty_table 1 4096 [] (omega arith)

-- Only the first mapping succeeds.
abbrev once_mapped : Os
once_mapped = record {
  open_file = λ l f. some 3;
  get_dmabuf = λ l fd. none;
  ion_alloc = λ l fd len. none;
  mmap = λ l size fd. if ltb (length l) 2 then some 64 else none;
}

-- Memory begins at address 0.
abbrev linear : Kernel
linear = record kernel { virt_to_phys = to_address; page_to_pfn = λ p. to_address p / page_size }

linear-Mappable : Mmap.Eager.Mappable linear 8192
linear-Mappable = record {
  fits = omega arith;
  frames = λ d h. refl;
  maps = λ l a pfn n. refl;
  inserts = λ l a page. refl;
}

-- The second and the third page of the block.
abbrev two_pages : Vma
two_pages = record { vm_start = 4096; vm_end = 12288; vm_pgoff = 1 }

eager-lazy_example :
    Returns
      (λ _ l₁.
        Returns
          (λ _ l₂. Mmap.Eager.Each (Mmap.Eager.Agree linear 8192 two_pages l₁ l₂) (1 ∷ 0 ∷ 1 ∷ []))
          (Mmap.my_mmap_all linear (at 8192) two_pages []))
      (Mmap.Eager.touch_all linear 8192 two_pages (1 ∷ 0 ∷ 1 ∷ []) [])
eager-lazy_example =
    Mmap.Eager.eager-lazy linear 8192 linear-Mappable two_pages (omega arith) (1 ∷ 0 ∷ 1 ∷ []) [] (
      Mmap.Eager.also (omega arith)
        (Mmap.Eager.also (omega arith) (Mmap.Eager.also (omega arith) Mmap.Eager.done)))

abbrev pages_of : List Event → ℕ
pages_of l = length l + 1

abbrev blocks_of : List Event → ℕ
blocks_of l = length l + 1

abbrev opens : List Sys → DeviceFile → Option ℕ
opens l f = some 4

abbrev place : List Sys → ℕ → ℕ
place l n = (length l + 1) * 65536

load-shows_example :
    Returns
      (λ r m.
        (r.0 ≡ val 0)
        × Returns
            (λ x l.
              (x ≡ success)
              × Returns
                  (λ s m'. Mmap.RoundTrip.Shown kernel 4 pages_of blocks_of Mmap.RoundTrip.lazy 1 s)
                  (Mmap.RoundTrip.serve_all kernel Mmap.RoundTrip.lazy place l r.1 m))
            (Mmap.Program.main
              (Mmap.RoundTrip.machine kernel Mmap.RoundTrip.lazy place opens r.1 m)
              []))
      (Mmap.RoundTrip.load kernel Mmap.RoundTrip.lazy [])
load-shows_example =
    Mmap.RoundTrip.load-shows kernel 4 pages_of blocks_of opens place Mmap.RoundTrip.lazy []
      (λ l n. refl) (λ l. refl) (λ l. refl) (λ l. refl) (λ l s f n. refl) (λ l a p. refl)
