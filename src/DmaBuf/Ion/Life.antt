-- ===== src/DmaBuf/Ion/Life.antt =====
-- The whole life of a buffer of dma-buf/09/exporter-ion.c: made, mapped and unmapped by its users
-- in any order, and released.
use sample_code.Base.{
  ℕ, ◌≡◌, refl, ◌∙◌, inl, inr, List, [], ◌∷◌, ◌++◌, length, rounds, if◌then◌else◌,
}
use sample_code.Effect.{Cmd, pure, ◌>>=◌, ◌>>◌, emit}
use sample_code.Effect.Ledger
use sample_code.Effect.Spec
use sample_code.Effect.Spec.{Returns, returns}
use sample_code.Kernel.{
  Kernel, Ptr, at, enomem, is_err, Direction, Res, mem_ref, sg_entries, sg_mapping, Event,
}
use sample_code.Kernel.Held.{here, later}
use sample_code.Kernel.Bag.{Keeps, Keeps_on, drop, drop_from}
use sample_code.DmaBuf.Core.{DmaBuf}
use sample_code.DmaBuf.Session.{Exporter, Request, session, unmap_all}
use sample_code.DmaBuf.Ion.{IonData, ion_unmap_dma_buf, ion_alloc, exp_dmabuf_ops}
use sample_code.DmaBuf.Ion.Map.{ion_map_dma_buf-MapResult}

module _ (k : Kernel) (fixed : (l₁ l₂ : List Event) (t : Ptr) → k.sgl l₁ t ≡ k.sgl l₂ t) where
  -- What a mapping with the table at `t` holds.
  abbrev pub items_of : ℕ → List Res
  items_of t = sg_mapping (k.sgl [] (at t)) ∷ sg_entries (at t) ∷ mem_ref (at t) ∷ []

  ion_unmap-Keeps :
      (d : DmaBuf IonData) (dir : Direction) (t : ℕ) (h : List Res) {l : List Event}
      → Keeps l (items_of t ++ h)
      → Returns (λ _ l'. Keeps l' h) (ion_unmap_dma_buf k d (at t) dir l)
  unfolding ion_unmap_dma_buf
  ion_unmap-Keeps d dir t h {l} p =
      let unmap = Event.dma_unmap_sg (k.sgl l (at t)) (k.nents l (at t)) dir in
      let q = drop unmap refl (rw (fixed [] l (at t)) at p) in
      returns (
        drop (Event.kfree (at t)) refl
          (drop_from (Event.sg_free_table (at t)) refl (later _ _ _ (here _ _)) q))

  module _ (d : DmaBuf IonData) (counted : length d.priv.pages ≡ rounds d.priv.npages) where
    -- The callbacks of the ION-like exporter keep the contract.
    pub ion-Exporter : Exporter (exp_dmabuf_ops k) d
    unfolding exp_dmabuf_ops
    ion-Exporter = record {
      Ready = λ l x. x.items ≡ items_of x.table;
      maps = λ dir xs h p r. Spec.mono (ion_map_dma_buf-MapResult k d dir counted p.holds) λ a l' s.
          elim s [
            | inl (e, q) ↦ inl (enomem, e, Keeps_on [] p q, r)
            | inr (t, e, m) ↦ inr (
              record { table = t; items = items_of t },
              e,
              Keeps_on (items_of t) p (rw (m.first ∙ fixed m.read_at [] (at t)) at m.holds),
              (refl, r),
            )
          ];
      unmaps = λ dir x xs h p r.
          Spec.mono (ion_unmap-Keeps d dir x.table h (rw (r.0) at p)) λ _ l' q. (q, r.1);
    }

  -- The life of a buffer: `ion_alloc`, the requests of its users, the end of the mappings that
  -- they leave, and the last put, on which the kernel calls `ion_release`.
  unfoldable pub ion_life : ℕ → List Request → Direction → Cmd Event (Unit {0})
  ion_life size qs dir = do
    made ← ion_alloc k size
    if is_err made.0 then pure tt else do
      let d : DmaBuf IonData = record { priv = made.1; attachments = [] }
      session (exp_dmabuf_ops k) d qs [] >>= unmap_all (exp_dmabuf_ops k) d dir
      emit (Event.dma_buf_put made.0)
      (exp_dmabuf_ops k).release d
      pure tt
