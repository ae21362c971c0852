-- ===== src/Mmap/Lazy.antt =====
-- The page table of mmap/mmap3.c, which is filled as its pages are touched.
use sample_code.Base.{
  ℕ, false, true, ◌⊎◌, ◌≤◌, ◌<◌, ◌≡◌, ◌≢◌, refl, inl, inr, some, List, ◌∷◌, arith, length,
  get_elem?, set, Option-cases, Bool-cases, get_elem?-set_self, get_elem?-set_ne, get_elem?-none,
}
use sample_code.Effect.{Run, ok, fault}
use sample_code.Effect.Spec.{Returns, returns}
use sample_code.Kernel.{Kernel, Ptr, null, err_ptr, at, Ret, val, err, is_null, to_ptr, Event}
use sample_code.Mmap.{VmFault, FaultResult, nopage, sigbus, my_fault_lazy, insert_page}

module _ (k : Kernel) where
  -- One call inserts the page, and the table stays.
  abbrev pub Inserted :
      List Ptr → ℕ → Ptr → List Event → Run Event (FaultResult × List Ptr) → Type 0
  Inserted pages address p m run =
      (f : FaultResult) × (r : Ret) × (run ≡ ok (f, pages) (Event.vm_insert_page address p r ∷ m))

  insert_page-Inserted :
      (pages : List Ptr) (address : ℕ) (p : Ptr) (m : List Event)
      → Inserted pages address p m (insert_page k address pages p m)
  unfolding insert_page
  insert_page-Inserted pages address p m = elim (Option-cases (k.vm_insert_page m address p)) [
    | inl e ↦ rw e (nopage, val 0, refl)
    | inr (c, e) ↦ rw e (sigbus, err c, refl)
  ]

  -- A touch of an entry that holds a page.
  hit :
      (pages : List Ptr) (i address : ℕ) (p : Ptr) (m : List Event)
      → get_elem? pages i ≡ some p
      → is_null p ≡ false
      → Inserted pages address p m
          (my_fault_lazy k pages (record { pgoff = i; address = address }) m)
  unfolding my_fault_lazy
  hit pages i address p m e n = rw (e, my_fault_lazy, n) (insert_page-Inserted pages address p m)

  -- What a touch of entry `i` leaves, where a new page would be `fresh`: the entry holds the page
  -- that it held before, or `fresh` if it held none; no other entry changes; and if the entry
  -- holds a page, every later touch inserts that page, with no other call and no change of the
  -- table.
  pub record Touched (fresh : Ptr) (pages : List Ptr) (i : ℕ) (pages' : List Ptr) : Type 0 where
    pub was : Ptr
    pub found : get_elem? pages i ≡ some was
    pub page : Ptr
    pub chosen : ((is_null was ≡ false) × (page ≡ was)) ⊎ ((was ≡ null) × (page ≡ fresh))
    pub held : get_elem? pages' i ≡ some page
    pub others : (j : ℕ) → i ≢ j → get_elem? pages' j ≡ get_elem? pages j
    pub again :
        is_null page ≡ false
        → (address : ℕ) (m : List Event)
        → Inserted pages' address page m
            (my_fault_lazy k pages' (record { pgoff = i; address = address }) m)

  null_of : (p : Ptr) → is_null p ≡ true → p ≡ null
  null_of null n = refl
  null_of (err_ptr e) n = cc
  null_of (at a) n = cc

  after :
      (fresh was : Ptr) (pages pages' : List Ptr) (i : ℕ) (p : Ptr)
      → get_elem? pages i ≡ some was
      → ((is_null was ≡ false) × (p ≡ was)) ⊎ ((was ≡ null) × (p ≡ fresh))
      → get_elem? pages' i ≡ some p
      → ((j : ℕ) → i ≢ j → get_elem? pages' j ≡ get_elem? pages j)
      → Touched fresh pages i pages'
  after fresh was pages pages' i p f c e same = record {
    was = was;
    found = f;
    chosen = c;
    page = p;
    held = e;
    others = same;
    again = λ n address m. hit pages' i address p m e n;
  }

  Inserted-Returns :
      {P : FaultResult × List Ptr → List Event → Type 0} {pages : List Ptr} {address : ℕ} {p : Ptr}
      {m : List Event} {run : Run Event (FaultResult × List Ptr)}
      → Inserted pages address p m run
      → ((f : FaultResult) (l : List Event) → P (f, pages) l)
      → Returns P run
  Inserted-Returns (f, r, e) q = rw e (returns (q f _))

  -- For every kernel and every table, a touch of an offset in the table stays inside the table and
  -- leaves it as `Touched` says: an entry that held no page holds what `alloc_page` answered, and
  -- once an entry holds a page, every later touch of it inserts that page and allocates nothing.
  pub my_fault_lazy-Touched :
      (pages : List Ptr) (i address : ℕ) (l : List Event)
      → i < length pages
      → Returns
          (λ r l'. Touched (to_ptr (k.alloc_page l)) pages i r.1)
          (my_fault_lazy k pages (record { pgoff = i; address = address }) l)
  unfolding my_fault_lazy
  my_fault_lazy-Touched pages i address l h = elim (Option-cases (get_elem? pages i)) [
    | inl e ↦ absurd (omega (arith, (get_elem?-none pages i).0 e))
    | inr (p, e) ↦ elim (Bool-cases (is_null p)) [
      | inr n ↦
          rw (e, my_fault_lazy, n)
            (Inserted-Returns (insert_page-Inserted pages address p l)
              λ f l'. after _ p pages pages i p e (inl (n, refl)) e λ j ne. refl)
      | inl n ↦
          let fresh = to_ptr (k.alloc_page l) in
          rw (e, my_fault_lazy, n)
            (Inserted-Returns
              (insert_page-Inserted (set pages i fresh) address fresh (Event.alloc_page fresh ∷ l))
              λ f l'.
                after fresh p pages (set pages i fresh) i fresh e (inr (null_of p n, refl))
                  (get_elem?-set_self pages i fresh h) λ j ne. get_elem?-set_ne pages fresh ne)
    ]
  ]

  -- An offset past the table is not checked: the handler accesses memory behind the array.
  my_fault_lazy-fault :
      (pages : List Ptr) (vmf : VmFault) (l : List Event)
      → length pages ≤ vmf.pgoff
      → my_fault_lazy k pages vmf l ≡ fault l
  unfolding my_fault_lazy
  my_fault_lazy-fault pages vmf l h = rw ((get_elem?-none pages vmf.pgoff).1 h, my_fault_lazy)
