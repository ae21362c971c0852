-- ===== src/DmaBuf/Ion/Map.antt =====
-- `ion_map_dma_buf` and `ion_unmap_dma_buf` of dma-buf/09/exporter-ion.c.
use mathlib.Core.List.{reverse_aux}
use sample_code.Base.{
  ℕ, suc, ◌≡◌, refl, ◌∙◌, ◌⊎◌, inl, inr, List, [], ◌∷◌, ◌++◌, reverse, length, rounds, to_uint,
  Option-cases, ℕ-cases, reverse_aux-append,
}
use sample_code.Effect.Spec
use sample_code.Effect.Spec.{Returns, returns}
use sample_code.Kernel.{
  Kernel, Ptr, null, err_ptr, at, val, err, enomem, page_size, Direction, Res, mem_ref, sg_entries,
  sg_mapping, Event,
}
use sample_code.Kernel.Held.{Holds, here, later, gain, skip, drop, drop_from}
use sample_code.DmaBuf.Core.{DmaBuf}
use sample_code.DmaBuf.Ion.{IonData, set_pages, map_entries, ion_map_dma_buf, ion_unmap_dma_buf}

-- What the scatterlist calls of a log describe, the newest first: the entry written, and the page,
-- length and offset written to it.
abbrev pub described : List Event → List (Ptr × Ptr × ℕ × ℕ)
described [] = []
described (Event.sg_set_page sg p len off ∷ l) = (sg, p, len, off) ∷ described l
described (_ ∷ l) = described l

-- Pages laid out whole, one to an entry, in the chain of entries that begins at `sg`.
abbrev pub laid : Kernel → Ptr → List Ptr → List (Ptr × Ptr × ℕ × ℕ)
laid k sg [] = []
laid k sg (p ∷ ps) = (sg, p, page_size, 0) ∷ laid k (k.sg_next sg) ps

module _ (k : Kernel) (d : DmaBuf IonData) (dir : Direction) where
  abbrev Describes : Ptr → List Ptr → List Event → List Res → List Event → Type 0
  Describes sg ps l h l' = Holds l' h × (described l' ≡ reverse_aux (laid k sg ps) (described l))

  set_pages-Describes :
      (ps : List Ptr) (sg : Ptr) {l : List Event} {h : List Res}
      → Holds l h
      → Returns (λ _. Describes sg ps l h) (set_pages k (length ps) ps sg l)
  unfolding set_pages
  set_pages-Describes [] sg p = returns (p, refl)
  set_pages-Describes (q ∷ ps) sg p =
      set_pages-Describes ps (k.sg_next sg) (skip (Event.sg_set_page sg q page_size 0) refl p)

  -- The table `t` is held with its entries and their mapping, whose first entry is `sg`.
  pub record Mapped (h : List Res) (l : List Event) (t : ℕ) (l' : List Event) : Type 0 where
    pub sg : Ptr
    pub read_at : List Event
    pub first : sg ≡ k.sgl read_at (at t)
    pub holds : Holds l' (sg_mapping sg ∷ sg_entries (at t) ∷ mem_ref (at t) ∷ h)
    pub describes : described l' ≡ reverse (laid k sg d.priv.pages) ++ described l

  abbrev pub MapResult : List Res → List Event → Ptr → List Event → Type 0
  MapResult h l r l' =
      ((r ≡ err_ptr enomem) × Holds l' h) ⊎ ((t : ℕ) × (r ≡ at t) × Mapped h l t l')

  map_entries-MapResult :
      (t : ℕ) (r : List Event) {l l' : List Event} {h : List Res}
      → Holds l' (sg_entries (at t) ∷ mem_ref (at t) ∷ h)
      → described l' ≡ reverse_aux (laid k (k.sgl r (at t)) d.priv.pages) (described l)
      → Returns (MapResult h l) (map_entries k (at t) (k.sgl r (at t)) dir l')
  unfolding map_entries
  map_entries-MapResult t r {l} {l'} p s =
      let sg = k.sgl r (at t) in
      let n = k.nents l' (at t) in
      elim (ℕ-cases (k.dma_map_sg l' sg n dir)) [
        | inl e ↦ rw e (
            returns (
              inl (
                refl,
                drop (Event.kfree (at t)) refl (
                    drop_from (Event.sg_free_table (at t)) refl (later _ _ _ (here _ _))
                      (skip (Event.dma_map_sg sg n dir 0) refl p)),
              )))
        | inr (c, e) ↦ rw e (
            returns (
              inr (
                t,
                refl,
                record {
                  sg = sg;
                  read_at = r;
                  first = refl;
                  holds = gain (Event.dma_map_sg sg n dir (suc c)) refl p;
                  describes = s ∙ reverse_aux-append (laid k sg d.priv.pages) (described l);
                },
              )))
      ]

  pub ion_map_dma_buf-MapResult :
      {l : List Event} {h : List Res}
      → length d.priv.pages ≡ rounds d.priv.npages
      → Holds l h
      → Returns (MapResult h l) (ion_map_dma_buf k d dir l)
  unfolding ion_map_dma_buf
  ion_map_dma_buf-MapResult {l} {h} n p = elim (Option-cases (k.kmalloc l k.sizeof_sg_table)) [
    | inl e ↦ rw e (returns (inl (refl, skip (Event.kmalloc _ null) refl p)))
    | inr (t, e) ↦
        let l₁ = Event.kmalloc k.sizeof_sg_table (at t) ∷ l in
        let q = gain (Event.kmalloc k.sizeof_sg_table (at t)) refl p in
        rw e (elim (Option-cases (k.sg_alloc_table l₁ (at t) (to_uint d.priv.npages))) [
          | inl f ↦
              let made = Event.sg_alloc_table (at t) (to_uint d.priv.npages) (val 0) in
              rw (f, ← n)
                (Spec.bind
                  (set_pages-Describes d.priv.pages (k.sgl (made ∷ l₁) (at t)) (gain made refl q))
                  λ _ l₂ s. map_entries-MapResult t (made ∷ l₁) s.0 s.1)
          | inr (c, f) ↦ rw f (
              returns (
                inl (
                  refl,
                  drop (Event.kfree (at t)) refl (skip (Event.sg_alloc_table _ _ (err c)) refl q),
                )))
        ])
  ]

  -- A mapped table is taken down completely: what was held before `ion_map_dma_buf` is held
  -- again. The table's first entry is taken to stay where it is.
  pub ion_unmap_dma_buf-Mapped :
      {l l' : List Event} {h : List Res} (t : ℕ)
      → ((l₁ l₂ : List Event) → k.sgl l₁ (at t) ≡ k.sgl l₂ (at t))
      → Mapped h l t l'
      → Returns (λ _ l''. Holds l'' h) (ion_unmap_dma_buf k d (at t) dir l')
  unfolding ion_unmap_dma_buf
  ion_unmap_dma_buf-Mapped {l} {l'} t fixed m =
      let sg = k.sgl l' (at t) in
      let e : m.sg ≡ sg = m.first ∙ fixed m.read_at l' in
      let unmap = Event.dma_unmap_sg sg (k.nents l' (at t)) dir in
      returns (
        drop (Event.kfree (at t)) refl (
          drop_from (Event.sg_free_table (at t)) refl (later _ _ _ (here _ _))
            (drop unmap refl (rw e at m.holds))))
