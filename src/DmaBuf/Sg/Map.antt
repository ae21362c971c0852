-- ===== src/DmaBuf/Sg/Map.antt =====
-- `exporter_map_dma_buf` and `exporter_unmap_dma_buf` of dma-buf/03/exporter-sg.c.
use sample_code.Base.{ℕ, ◌≡◌, refl, ◌⊎◌, inl, inr, List, ◌∷◌, Option-cases}
use sample_code.Effect.Spec.{Returns, returns}
use sample_code.Kernel.{
  Kernel, Ptr, null, err_ptr, at, val, err, Errno, enomem, page_size, Direction, Res, mem_ref,
  sg_entries, dma_mapping, Event,
}
use sample_code.Kernel.Held.{Holds, here, later, gain, skip, drop, drop_from}
use sample_code.DmaBuf.Core.{DmaBuf}
use sample_code.DmaBuf.Sg.{exporter_map_dma_buf, exporter_unmap_dma_buf}

module _ (k : Kernel) (d : DmaBuf Ptr) (dir : Direction) where
  -- The table `t` is held with its entry and the mapping `addr`; the entry `sg` was given the
  -- length of a page and that address.
  pub record Mapped (h : List Res) (t : ℕ) (l : List Event) : Type 0 where
    pub addr : ℕ
    pub sg : Ptr
    pub before : List Event
    pub log :
        l
        ≡ Event.set_dma_address sg addr
          ∷ Event.dma_map_single d.priv page_size dir addr
          ∷ Event.set_dma_len sg page_size
          ∷ before
    pub holds : Holds l (dma_mapping addr ∷ sg_entries (at t) ∷ mem_ref (at t) ∷ h)

  abbrev pub MapResult : List Res → Ptr → List Event → Type 0
  MapResult h r l =
      ((e : Errno) × (r ≡ err_ptr e) × Holds l h) ⊎ ((t : ℕ) × (r ≡ at t) × Mapped h t l)

  -- For every kernel the map callback returns an ERR_PTR with nothing more held than before, or a
  -- table whose one entry has a page's length and the DMA address of the block, with just the
  -- table's block, its entry and the mapping held on top. It never returns NULL.
  sg_map-MapResult :
      {l : List Event} {h : List Res}
      → Holds l h
      → Returns (MapResult h) (exporter_map_dma_buf k d dir l)
  unfolding exporter_map_dma_buf
  sg_map-MapResult {l} {h} q = elim (Option-cases (k.kmalloc l k.sizeof_sg_table)) [
    | inl e ↦ rw e (returns (inl (enomem, refl, skip (Event.kmalloc _ null) refl q)))
    | inr (t, e) ↦
        let l₁ = Event.kmalloc k.sizeof_sg_table (at t) ∷ l in
        let q₁ = gain (Event.kmalloc k.sizeof_sg_table (at t)) refl q in
        rw e (elim (Option-cases (k.sg_alloc_table l₁ (at t) 1)) [
          | inl f ↦ rw f (
              returns (
                inr (
                  t,
                  refl,
                  record {
                    addr = _;
                    sg = _;
                    before = _;
                    log = refl;
                    holds = skip (Event.set_dma_address _ _) refl (
                        gain (Event.dma_map_single _ _ _ _) refl (
                          skip (Event.set_dma_len _ _) refl
                            (gain (Event.sg_alloc_table (at t) 1 (val 0)) refl q₁)));
                  },
                )))
          | inr (c, f) ↦ rw f (
              returns (
                inl (
                  c,
                  refl,
                  drop (Event.kfree (at t)) refl
                      (skip (Event.sg_alloc_table (at t) 1 (err c)) refl q₁),
                )))
        ])
  ]

  -- Unmapping a mapped table, where its entry still reads as the address that was set, gives back
  -- the mapping, the entry and the block: what was held before the map is held again.
  sg_unmap-Mapped :
      {h : List Res} {l : List Event} {t : ℕ} (m : Mapped h t l)
      → k.sg_dma_address l (k.sgl l (at t)) ≡ m.addr
      → Returns (λ _ l'. Holds l' h) (exporter_unmap_dma_buf k d (at t) dir l)
  unfolding exporter_unmap_dma_buf
  sg_unmap-Mapped {t} m reads = rw reads (
      returns (
        drop (Event.kfree (at t)) refl (
          drop_from (Event.sg_free_table (at t)) refl (later _ _ _ (here _ _))
            (drop (Event.dma_unmap_single m.addr page_size dir) refl m.holds))))
