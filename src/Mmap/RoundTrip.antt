-- ===== src/Mmap/RoundTrip.antt =====
-- mmap/test.c on each of the drivers mmap1.c to mmap4.c: what it writes through its first mapping
-- against what it reads through its second.
use sample_code.Base.{
  ℕ, ◌≡◌, refl, Bool, true, Option, none, some, List, [], ◌∷◌, if◌then◌else◌, at_start, ==_same,
  u64_mod, ◌+◌, ◌/◌, ◌%◌, arith,
}
use sample_code.Effect.{Run, ok, fault, Cmd, pure, ◌>>=◌, ◌>>◌}
use sample_code.Effect.Spec.{Returns, returns}
use sample_code.Kernel.{
  val, err, enodev, Kernel, Ptr, null, at, page_size, Ret, nonzero, Vma, Event,
}
use sample_code.Mmap.{
  VmFault, VmOperations, FaultInt, FaultLazy, FaultPage, my_init, my_init_lazy, my_mmap_all,
  mdev_all, my_fops_all, mdev_int, my_fops_int, vm_ops_int, mdev_lazy, my_fops_lazy, vm_ops_lazy,
  mdev_page, my_fops_page, vm_ops_page, my_mmap_int, my_mmap_lazy, my_mmap_page, my_fault_int,
  my_fault_lazy, my_fault_page, insert_page,
}
use sample_code.Mmap.Eager.{seen, same_frame, area}
use sample_code.Mmap.Program.{main, use_dev, write_mapped, read_mapped}
use sample_code.Posix.Device.{mmap_of}
use sample_code.Posix.{Sys, DeviceFile, my_dev, success, Os}

-- mmap1.c to mmap4.c
pub data Driver : Type 0 where
  whole by_page lazy counted : Driver

-- The type of the driver's fault handler. mmap1.c has none.
abbrev pub Handler : Driver → Type 0
Handler whole = Unit {0}
Handler by_page = FaultInt
Handler lazy = FaultLazy
Handler counted = FaultPage

-- The globals of the driver; the operations of the area mapped last; the frame where the program's
-- text was written, and whether what was read last is that text.
pub record State (v : Driver) : Type 0 where
  pub kaddr : Ptr
  pub pages : List Ptr
  pub ops : VmOperations (Handler v)
  pub text_at : Option ℕ
  pub shown : Option Bool

abbrev pub no_ops : {F : Type 0} → VmOperations F
no_ops = record { fault = none }

abbrev loaded : {v : Driver} → Ptr → State v
loaded kaddr = record {
  kaddr = kaddr;
  ops = no_ops;
  pages = null ∷ null ∷ null ∷ [];
  text_at = none;
  shown = none;
}

-- `kaddr` of a driver whose init function got the block at `a`. mmap3.c has no such global.
abbrev pub start : Driver → ℕ → Ptr
start whole a = at a
start by_page a = at a
start lazy a = null
start counted a = at a

abbrev first_page : ℕ → VmFault
first_page a = record { pgoff = 0; address = a }

module _ (k : Kernel) where
  abbrev look : {v : Driver} → ℕ → State v → Cmd Event (State v × Option ℕ)
  look a s l = pure (s, seen k l a) l

  -- The frame that an access to the first page of the mapping at `a` finds, after a fault that
  -- the handler of the area serves. An area without a handler has its pages already.
  abbrev find : (v : Driver) → ℕ → State v → Cmd Event (State v × Option ℕ)
  find whole a s = look a s
  find by_page a s = elim s.ops.fault [
    | none ↦ look a s
    | some f ↦ f s.kaddr (first_page a) >> look a s
  ]
  find lazy a s = elim s.ops.fault [
    | none ↦ look a s
    | some f ↦ f s.pages (first_page a) >>= λ r. look a (record s { pages = r.1 })
  ]
  find counted a s = elim s.ops.fault [
    | none ↦ look a s
    | some f ↦ f s.kaddr (first_page a) >>= λ r. pure (s, some (k.page_to_pfn r.1))
  ]

  -- The driver's `my_mmap`, found by its tables, for an area with no flags.
  abbrev map_area : (v : Driver) → Ptr → Vma → Cmd Event (Ret × VmOperations (Handler v))
  map_area whole kaddr vma = do
    r ← mmap_of (λ p a. pure (err enodev)) (mdev_all k) kaddr vma
    pure (r, no_ops)
  map_area by_page kaddr vma = do
    r ← mmap_of (λ f. pure (err enodev, f, no_ops)) (mdev_int k) 0
    pure (r.0, r.2)
  map_area lazy kaddr vma = do
    r ← mmap_of (λ f. pure (err enodev, f, no_ops)) (mdev_lazy k) 0
    pure (r.0, r.2)
  map_area counted kaddr vma = do
    r ← mmap_of (λ f. pure (err enodev, f, no_ops)) (mdev_page k) 0
    pure (r.0, r.2)

  -- The module's init function, on which its globals are 0: the result, and the state.
  unfoldable pub load : (v : Driver) → Cmd Event (Ret × State v)
  load whole = do r ← my_init k; pure (r.0, loaded r.1)
  load by_page = do r ← my_init k; pure (r.0, loaded r.1)
  load lazy = do r ← my_init_lazy k; pure (r, loaded null)
  load counted = do r ← my_init k; pure (r.0, loaded r.1)

module _ (k : Kernel) (v : Driver) where
  module _ (place : List Sys → ℕ → ℕ) where
    -- A system call, or an access to a mapping, that is made after those of `l`.
    unfoldable pub serve : Sys → List Sys → State v → Cmd Event (State v)
    serve (Sys.mmap size g r) l s = do
      m ← map_area k v s.kaddr (area (place l size) size)
      pure (record s { ops = m.1 })
    serve (Sys.write_text a) l s = do r ← find k v a s; pure (record r.0 { text_at = r.1 })
    serve (Sys.read_text a) l s = do
      r ← find k v a s
      pure (record r.0 { shown = some (same_frame r.1 s.text_at) })
    serve c l s = pure s

    unfoldable pub serve_all : List Sys → State v → Cmd Event (State v)
    unfolding serve
    serve_all [] s = pure s
    serve_all (c ∷ l) s = serve_all l s >>= serve c l

    abbrev placed : ℕ → Run Event (Ret × VmOperations (Handler v)) → Option ℕ
    placed a (ok r l) = if nonzero r.0 then none else some a
    placed a (fault l) = none

    unfoldable pub machine : (List Sys → DeviceFile → Option ℕ) → State v → List Event → Os
    unfolding serve_all
    machine opens s₀ l₀ = record {
      open_file = opens;
      get_dmabuf = λ l fd. none;
      ion_alloc = λ l fd len. none;
      mmap = λ l size g.
          placed (place l size)
            ((serve_all l s₀ >>= λ s. map_area k v s.kaddr (area (place l size) size)) l₀);
    }

add_zero : (n : ℕ) → n + 0 ≡ n
add_zero n = omega arith

module _ (k : Kernel) (fd : ℕ) (page block : List Event → ℕ) where
  -- The frame behind the first page of the driver's memory, which begins at `kaddr` if the driver
  -- allocates it when it loads.
  abbrev pub Frame : (v : Driver) → ℕ → ℕ → Type 0
  Frame whole kaddr n = n ≡ k.virt_to_phys (at kaddr) / page_size
  Frame by_page kaddr n = n ≡ k.page_to_pfn (k.virt_to_page (kaddr % u64_mod))
  Frame lazy kaddr n = (l : List Event) × (n ≡ k.page_to_pfn (at (page l)))
  Frame counted kaddr n = n ≡ k.page_to_pfn (k.virt_to_page (kaddr % u64_mod))

  -- What was read last is the text, which stands in the first frame of the driver's memory.
  abbrev pub Shown : (v : Driver) → ℕ → State v → Type 0
  Shown v kaddr s = (s.shown ≡ some true) × ((n : ℕ) × (s.text_at ≡ some n) × Frame v kaddr n)

  module _ (opens : List Sys → DeviceFile → Option ℕ) (place : List Sys → ℕ → ℕ) where
    main-shows :
        (v : Driver) (kaddr : ℕ) (l₀ : List Event)
        → ((l : List Sys) → opens l my_dev ≡ some fd)
        → ((l : List Event) → k.alloc_page l ≡ some (page l))
        → ((l : List Event) (s f n : ℕ) → k.remap_pfn_range l s f n ≡ none)
        → ((l : List Event) (a : ℕ) (p : Ptr) → k.vm_insert_page l a p ≡ none)
        → Returns
            (λ x l.
              (x ≡ success)
              × Returns
                  (λ s m. Shown v kaddr s)
                  (serve_all k v place l (loaded (start v kaddr)) l₀))
            (main (machine k v place opens (loaded (start v kaddr)) l₀) [])
    unfolding mdev_all my_fops_all mdev_int my_fops_int vm_ops_int mdev_lazy my_fops_lazy
        vm_ops_lazy mdev_page my_fops_page vm_ops_page main use_dev write_mapped read_mapped machine
        serve_all serve my_mmap_all my_mmap_int my_mmap_lazy my_mmap_page my_fault_int my_fault_lazy
        my_fault_page insert_page seen
    main-shows whole kaddr l₀ opened gives maps inserts =
        simp (opened, maps)
          (returns (refl, simp (maps, at_start) (returns (refl, (_, refl, omega arith)))))
    main-shows by_page kaddr l₀ opened gives maps inserts =
        simp (opened, inserts)
          (returns
            (refl, simp (inserts, ==_same) (returns (refl, (_, refl, rw (add_zero kaddr) refl)))))
    main-shows lazy kaddr l₀ opened gives maps inserts =
        simp (opened, gives, inserts)
          (returns (refl, simp (gives, inserts, ==_same) (returns (refl, (_, refl, (l₀, refl))))))
    main-shows counted kaddr l₀ opened gives maps inserts =
        simp opened
          (returns (refl, simp (==_same) (returns (refl, (_, refl, rw (add_zero kaddr) refl)))))

    -- Where `kzalloc` gives a block and `misc_register` succeeds, each of mmap1.c to mmap4.c loads, and then, where the device
    -- opens, the kernel has pages to give out, and mapping and inserting succeed, mmap/test.c ends
    -- with 0, and what it reads through its second mapping is the text that it wrote through its
    -- first, wherever the kernel puts the two. The text stands in the first frame of the driver's
    -- block, or for mmap3.c in the frame of a page that the kernel gave out.
    pub load-shows :
        (v : Driver) (l₀ : List Event)
        → ((l : List Event) (n : ℕ) → k.kzalloc l n ≡ some (block l))
        → ((l : List Event) → k.misc_register l ≡ none)
        → ((l : List Sys) → opens l my_dev ≡ some fd)
        → ((l : List Event) → k.alloc_page l ≡ some (page l))
        → ((l : List Event) (s f n : ℕ) → k.remap_pfn_range l s f n ≡ none)
        → ((l : List Event) (a : ℕ) (p : Ptr) → k.vm_insert_page l a p ≡ none)
        → Returns
            (λ r m.
              (r.0 ≡ val 0)
              × Returns
                  (λ x l.
                    (x ≡ success)
                    × Returns (λ s m'. Shown v (block l₀) s) (serve_all k v place l r.1 m))
                  (main (machine k v place opens r.1 m) []))
            (load k v l₀)
    unfolding load my_init my_init_lazy
    load-shows whole l₀ has_block registers opened gives maps inserts =
        rw (has_block, registers) (returns (refl, main-shows whole _ _ opened gives maps inserts))
    load-shows by_page l₀ has_block registers opened gives maps inserts =
        rw (has_block, registers) (returns (refl, main-shows by_page _ _ opened gives maps inserts))
    load-shows lazy l₀ has_block registers opened gives maps inserts =
        rw registers (returns (refl, main-shows lazy (block l₀) _ opened gives maps inserts))
    load-shows counted l₀ has_block registers opened gives maps inserts =
        rw (has_block, registers) (returns (refl, main-shows counted _ _ opened gives maps inserts))
