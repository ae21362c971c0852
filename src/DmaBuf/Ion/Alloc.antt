-- ===== src/DmaBuf/Ion/Alloc.antt =====
-- What `ion_alloc` of dma-buf/09/exporter-ion.c holds on each of its ways out.
use mathlib.Core.List.{reverse-reverse}
use sample_code.Base.{
  ℕ, zero, suc, ◌+◌, ◌≡◌, refl, ◌⊎◌, inl, inr, Bool, true, false, some, List, [], ◌∷◌, ◌++◌, map,
  reverse, arith, length, rounds, is_zero, ◌≢◌, ◌≤◌, ◌%◌, ◌/◌, u32_mod, to_int, ltb, ◌<◌, ◌*◌, ◌^◌,
  ℤ, pos, negsuc, leb, if◌then◌else◌, Bool-cases, Option-cases, length-reverse,
}
use sample_code.Effect.{fault}
use sample_code.Effect.Spec
use sample_code.Effect.Spec.{Returns, returns}
use sample_code.Kernel.{
  page_size, Kernel, Ptr, null, err_ptr, at, Errno, enomem, einval, Res, mem_ref, page_ref,
  buffer_ref, Ret-cases, Event,
}
use sample_code.Kernel.Held.{Holds, gain, skip, drop}
use sample_code.DmaBuf.Ion.{
  fits_block, page_align, ion_data_size, export_pages, ion_export_info, IonData, npages_of,
  alloc_pages, unwind_pages, ion_alloc_err, ion_alloc,
}

-- What `npages` can be: an `int`.
IsInt : ℤ → Type 0
IsInt (pos n) = n < 2 ^ 31
IsInt (negsuc n) = n < 2 ^ 31

to_int-IsInt : (n : ℕ) → IsInt (to_int n)
unfolding IsInt
to_int-IsInt n = elim (Bool-cases (ltb (n % u32_mod) (2 ^ 31))) [
  | inl y ↦ rw y (ground arith)
  | inr m ↦ rw m (ground arith)
]

npages_of-IsInt : (size : ℕ) → IsInt (npages_of size)
npages_of-IsInt size = to_int-IsInt (page_align size / page_size)

leb_of_le : (a b : ℕ) → a ≤ b → leb a b ≡ true
leb_of_le a b h = ground arith

-- But for a count of -1, the block has room for the count and the pages of the loop.
block_holds-pages : (n : ℤ) → IsInt n → n ≢ negsuc 0 → 8 + (rounds n + 0) * 8 ≤ ion_data_size n
unfolding IsInt
block_holds-pages (pos n) h ne = omega arith
block_holds-pages (negsuc zero) h ne = absurd (ne refl)
block_holds-pages (negsuc (suc n)) h ne = omega arith

module _ (k : Kernel) where
  -- Unwinding puts exactly the pages that were got.
  unwind_pages-held :
      (got : List Ptr) (l : List Event) (h : List Res)
      → Holds l (map page_ref got ++ h)
      → Returns (λ _ l'. Holds l' h) (unwind_pages k got l)
  unfolding unwind_pages
  unwind_pages-held [] l h p = returns p
  unwind_pages-held (q ∷ got) l h p =
      unwind_pages-held got (Event.put_page q ∷ l) h (drop (Event.put_page q) refl p)

  -- The pages got are held above what was held before, and there are as many as were asked for
  -- if the loop ran to its end.
  alloc_pages-held :
      (size n : ℕ) (got : List Ptr) (l : List Event) (h : List Res)
      → 8 + (n + length got) * 8 ≤ size
      → Holds l (map page_ref got ++ h)
      → Returns
          (λ r l'. (Holds l' (map page_ref r.1 ++ h)) × (r.0 ≡ true → length r.1 ≡ n + length got))
          (alloc_pages k size n got l)
  unfolding alloc_pages
  alloc_pages-held size zero got l h room p = returns (p, λ _. omega arith)
  alloc_pages-held size (suc n) got l h room p =
      let fits : fits_block size (8 + length got * 8) 8 ≡ true = leb_of_le _ _ (omega arith) in
      elim (Option-cases (k.alloc_page l)) [
        | inl e ↦ rw (e, fits) (returns (skip (Event.alloc_page null) refl p, λ full. cc))
        | inr (a, e) ↦
            rw (e, fits)
              (Spec.mono
                (alloc_pages-held size n (at a ∷ got) (Event.alloc_page (at a) ∷ l) h (omega arith)
                  (gain (Event.alloc_page (at a)) refl p))
                λ r l' q. (q.0, λ full. omega (arith, q.1 full)))
      ]

  -- `err:` gives back the pages and the block that stand on top.
  ion_alloc_err-held :
      (a : ℕ) (got : List Ptr) (l : List Event) (h : List Res)
      → Holds l (map page_ref got ++ (mem_ref (at a) ∷ h))
      → Returns (λ r l'. (r.0 ≡ err_ptr enomem) × (Holds l' h)) (ion_alloc_err k (at a) got l)
  unfolding ion_alloc_err
  ion_alloc_err-held a got l h p =
      Spec.bind (unwind_pages-held got l _ p)
        λ _ l' q. returns (refl, drop (Event.kfree (at a)) refl q)

  -- A buffer `b` that carries `ion`, with the pages, the block and the buffer held.
  pub record Made (size : ℕ) (h : List Res) (b : ℕ) (ion : IonData) (l : List Event) : Type 0 where
    pub block : ℕ
    pub addr : ion.addr ≡ at block
    pub nonempty : is_zero (npages_of size) ≡ false
    pub npages : ion.npages ≡ npages_of size
    pub pages : length ion.pages ≡ rounds ion.npages
    pub holds :
        Holds l (buffer_ref (at b) ∷ (map page_ref (reverse ion.pages) ++ (mem_ref (at block) ∷ h)))

  -- Why `ion_alloc` refuses a size.
  abbrev pub refusal : ℕ → Errno
  refusal size = if is_zero (npages_of size) then einval else enomem

  abbrev pub Allocated : ℕ → List Res → Ptr × IonData → List Event → Type 0
  Allocated size h r l =
      ((r.0 ≡ err_ptr (refusal size)) × Holds l h) ⊎ ((b : ℕ) × (r.0 ≡ at b) × Made size h b r.1 l)

  module _ (size : ℕ) (nonempty : is_zero (npages_of size) ≡ false)
      (counted : npages_of size ≢ negsuc 0) {h : List Res} where
    refused :
        (r : Ptr × IonData) (l : List Event)
        → (r.0 ≡ err_ptr enomem) × Holds l h
        → Allocated size h r l
    refused r l q = inl (rw nonempty q.0, q.1)

    -- `ion_alloc` behind the loop, whose result is `r`.
    export_pages-Allocated :
        (a : ℕ) (r : Bool × List Ptr) (l : List Event)
        → Holds l (map page_ref r.1 ++ (mem_ref (at a) ∷ h))
          × (r.0 ≡ true → length r.1 ≡ rounds (npages_of size) + 0)
        → Returns (Allocated size h) (export_pages k (npages_of size) (at a) r l)
    unfolding export_pages
    export_pages-Allocated a (false, got) l q = Spec.mono (ion_alloc_err-held a got l _ q.0) refused
    export_pages-Allocated a (true, got) l q =
        let ion : IonData = record { addr = at a; npages = npages_of size; pages = reverse got } in
        let info = ion_export_info ion in
        let room : fits_block (ion_data_size (npages_of size)) 0 4 ≡ true =
          leb_of_le _ _
            (omega (arith, block_holds-pages (npages_of size) (npages_of-IsInt size) counted)) in
        rw room (elim (Ret-cases (k.dma_buf_export l info)) [
          | inl (b, e) ↦ rw e (
              returns (
                inr (
                  b,
                  refl,
                  record {
                    block = a;
                    addr = refl;
                    nonempty = nonempty;
                    npages = refl;
                    pages = omega (arith, q.1 refl, length-reverse got);
                    holds =
                        rw (reverse-reverse got) (gain (Event.dma_buf_export info (at b)) refl q.0);
                  },
                )))
          | inr (c, e) ↦ rw e (
              Spec.mono
                (ion_alloc_err-held a got _ _
                  (skip (Event.dma_buf_export info (err_ptr c)) refl q.0))
                refused)
        ])

  pub ion_alloc-Allocated :
      (size : ℕ) {l : List Event} {h : List Res}
      → npages_of size ≢ negsuc 0
      → Holds l h
      → Returns (Allocated size h) (ion_alloc k size l)
  unfolding ion_alloc
  ion_alloc-Allocated size {l} {h} counted p = elim (Bool-cases (is_zero (npages_of size))) [
    | inl z ↦ rw z (returns (inl (rw z, p)))
    | inr nz ↦ rw nz (elim (Option-cases (k.kmalloc l (ion_data_size (npages_of size)))) [
      | inl e ↦
          rw e (returns (refused size nz counted _ _ (refl, skip (Event.kmalloc _ null) refl p)))
      | inr (a, e) ↦ rw e (
          Spec.bind
            (alloc_pages-held _ (rounds (npages_of size)) [] _ _
              (block_holds-pages (npages_of size) (npages_of-IsInt size) counted)
              (gain (Event.kmalloc _ (at a)) refl p))
            (export_pages-Allocated size nz counted a))
    ])
  ]

  -- A size whose page count is -1 asks for a block of 0 bytes; where `kmalloc` answers with an
  -- address, `ion_alloc` stores the count outside of any block.
  ion_alloc-fault :
      (size a : ℕ) (l : List Event)
      → npages_of size ≡ negsuc 0
      → k.kmalloc l 0 ≡ some a
      → ion_alloc k size l ≡ fault (Event.kmalloc 0 (at a) ∷ l)
  unfolding ion_alloc alloc_pages export_pages
  ion_alloc-fault size a l e m = rw (e, m) refl
