-- ===== src/Mmap/Eager.antt =====
-- mmap1.c, which maps its pages when a process asks, against mmap2.c, which maps a page when it is
-- touched: the process sees the same memory.
use native.Mathlib.Nat.{mod-eq_of_lt}
use sample_code.Base.{
  ℕ, ◌+◌, ◌-◌, ◌*◌, ◌/◌, ◌≤◌, ◌<◌, ◌^◌, ◌≡◌, refl, sym, ◌∙◌, Bool, true, false, inl, inr, ◌&&◌,
  Option, none, some, List, [], ◌∷◌, ltb, leb, ◌==◌, ==_iff, ==_of_eq, Bool-cases, if◌then◌else◌,
  arith, u64_mod,
}
use sample_code.Effect.{Cmd, pure, ◌>>◌}
use sample_code.Effect.Spec
use sample_code.Effect.Spec.{Returns, returns}
use sample_code.Kernel.{Kernel, Ptr, at, val, page_size, Vma, Event}
use sample_code.Mmap.{my_mmap_all, my_fault_int}
use sample_code.Mmap.Bounds.{int_offset-small}

pub data Each (P : ℕ → Type 0) : List ℕ → Type 0 where
  done : Each P []
  also : {i : ℕ} {is : List ℕ} → P i → Each P is → Each P (i ∷ is)

Each-mono : {P Q : ℕ → Type 0} (is : List ℕ) → ((i : ℕ) → P i → Q i) → Each P is → Each Q is
Each-mono [] f done = done
Each-mono (i ∷ is) f (also p ps) = also (f i p) (Each-mono is f ps)

Each-both : {P Q : ℕ → Type 0} (is : List ℕ) → Each P is → Each Q is → Each (λ i. P i × Q i) is
Each-both [] done done = done
Each-both (i ∷ is) (also p ps) (also q qs) = also (p, q) (Each-both is ps qs)

-- A new area, which starts at the begin of its file.
abbrev pub area : ℕ → ℕ → Vma
area a size = record { vm_start = a; vm_end = a + size; vm_pgoff = 0 }

abbrev pub same_frame : Option ℕ → Option ℕ → Bool
same_frame (some f) (some g) = f == g
same_frame f g = false

module _ (k : Kernel) where
  -- The frame that a process finds at the address `a` of a page.
  unfoldable pub seen : List Event → ℕ → Option ℕ
  seen [] a = none
  seen (Event.remap_pfn_range start pfn size (val n) ∷ l) a =
      if leb start a && ltb (a - start) size then some (pfn + (a - start) / page_size) else seen l a
  seen (Event.vm_insert_page b page (val n) ∷ l) a =
      if b == a then some (k.page_to_pfn page) else seen l a
  seen (_ ∷ l) a = seen l a

  -- The kernel's part: a touch of page `i` of the area that is not there yet, or that was taken
  -- away again.
  abbrev pub touch : ℕ → Vma → ℕ → Cmd Event (Unit {0})
  touch kaddr vma i =
      my_fault_int k (at kaddr)
        (record { pgoff = vma.vm_pgoff + i; address = vma.vm_start + i * page_size })
      >> pure tt

  abbrev pub touch_all : ℕ → Vma → List ℕ → Cmd Event (Unit {0})
  touch_all kaddr vma [] = pure tt
  touch_all kaddr vma (i ∷ is) = touch_all kaddr vma is >> touch kaddr vma i

  -- The block at `kaddr` is contiguous, mapping and inserting succeed.
  pub record Mappable (kaddr : ℕ) : Type 0 where
    pub fits : kaddr + 3 * page_size ≤ u64_mod
    pub frames :
        (d : ℕ)
        → d < 3 * page_size
        → k.page_to_pfn (k.virt_to_page (kaddr + d)) ≡ (k.virt_to_phys (at kaddr) + d) / page_size
    pub maps : (l : List Event) (a pfn n : ℕ) → k.remap_pfn_range l a pfn n ≡ none
    pub inserts : (l : List Event) (a : ℕ) (page : Ptr) → k.vm_insert_page l a page ≡ none

  module _ (kaddr : ℕ) (vma : Vma) where
    abbrev pub frame : ℕ → ℕ
    frame i = k.virt_to_phys (at kaddr) / page_size + vma.vm_pgoff + i

    abbrev pub Shows : List Event → ℕ → Type 0
    Shows l i = seen l (vma.vm_start + i * page_size) ≡ some (frame i)

    -- What both processes see at page `i`.
    abbrev pub Agree : List Event → List Event → ℕ → Type 0
    Agree l₁ l₂ i =
        (seen l₁ (vma.vm_start + i * page_size) ≡ seen l₂ (vma.vm_start + i * page_size))
        × Shows l₂ i

  module _ (kaddr : ℕ) (m : Mappable kaddr) (vma : Vma)
      (inside : vma.vm_pgoff * page_size + (vma.vm_end - vma.vm_start) ≤ 3 * page_size) where
    touch-Shows :
        (i : ℕ) (is : List ℕ) (l : List Event)
        → i * page_size < vma.vm_end - vma.vm_start
        → Each (Shows kaddr vma l) is
        → Returns
            (λ _ l'. Shows kaddr vma l' i × Each (Shows kaddr vma l') is)
            (touch kaddr vma i l)
    unfolding my_fault_int seen
    touch-Shows i is l h old =
        let pg : ℕ = vma.vm_pgoff + i in
        let small : pg < 2 ^ 19 = omega arith in
        let fits : kaddr + pg * page_size < u64_mod = omega (arith, m.fits) in
        let e : k.page_to_pfn (k.virt_to_page (kaddr + pg * page_size)) ≡ frame kaddr vma i =
          m.frames (pg * page_size) (omega arith) ∙ omega arith in
        rw (int_offset-small pg small, mod-eq_of_lt fits, m.inserts)
          (returns (
            rw (==_of_eq (vma.vm_start + i * page_size) _ refl, e) refl,
            Each-mono is
                (λ j s.
                  elim (Bool-cases
                    (vma.vm_start + i * page_size == (vma.vm_start + j * page_size))) [
                      | inl t ↦
                          let same : i ≡ j = omega (arith, (==_iff _ _).0 t) in rw (t, e, same) refl
                      | inr f ↦ rw f s
                    ])
                old,
          ))

    touch_all-Shows :
        (is : List ℕ) (l : List Event)
        → Each (λ i. i * page_size < vma.vm_end - vma.vm_start) is
        → Returns (λ _ l'. Each (Shows kaddr vma l') is) (touch_all kaddr vma is l)
    touch_all-Shows [] l done = returns done
    touch_all-Shows (i ∷ is) l (also h hs) =
        Spec.bind (touch_all-Shows is l hs)
          λ _ l₁ old. Spec.mono (touch-Shows i is l₁ h old) λ _ l₂ p. also p.0 p.1

    my_mmap_all-Shows :
        (is : List ℕ) (l : List Event)
        → Each (λ i. i * page_size < vma.vm_end - vma.vm_start) is
        → Returns (λ _ l'. Each (Shows kaddr vma l') is) (my_mmap_all k (at kaddr) vma l)
    unfolding my_mmap_all seen
    my_mmap_all-Shows is l hs = rw m.maps (
        returns (
          Each-mono is
            (λ i h.
              let start = vma.vm_start in
              let above : leb start (start + i * page_size) ≡ true = ground arith in
              let off : start + i * page_size - start ≡ i * page_size = omega arith in
              let below : ltb (i * page_size) (vma.vm_end - start) ≡ true = ground (arith, h) in
              let page : i * page_size / page_size ≡ i = omega arith in
              rw (off, above, below, page) refl)
            hs))

    -- Let the block at `kaddr` be contiguous and not wrap, the area lie within its three pages,
    -- and the kernel's insertions succeed. Then a process that touches pages of the area, any of
    -- them, in any order and as often as it likes, sees with mmap2.c at each page that it touched
    -- the frame that it sees there with mmap1.c, and that is the frame of the block that it
    -- asked for.
    pub eager-lazy :
        (is : List ℕ) (l : List Event)
        → Each (λ i. i * page_size < vma.vm_end - vma.vm_start) is
        → Returns
            (λ _ l₁.
              Returns
                (λ _ l₂. Each (λ i. Agree kaddr vma l₁ l₂ i) is)
                (my_mmap_all k (at kaddr) vma l))
            (touch_all kaddr vma is l)
    eager-lazy is l hs = Spec.mono (touch_all-Shows is l hs) λ _ l₁ a.
        Spec.mono (my_mmap_all-Shows is l hs)
          λ _ l₂ b. Each-mono is (λ i p. (p.0 ∙ sym p.1, p.1)) (Each-both is a b)
