-- ===== src/DmaBuf/PageExporter/Life.antt =====
-- The life of the buffer of dma-buf/08/exporter-page.c: made, mapped and unmapped by its users in
-- any order, and released.
use mathlib.Core.Logic.{ite, if_pos, if_neg}
use sample_code.Base.{
  ℕ, ◌≡◌, ◌≢◌, refl, sym, ◌∙◌, ◌⊎◌, inl, inr, Option, none, some, List, [], ◌∷◌, ◌++◌, arith,
  Option-cases,
}
use sample_code.Effect.{Cmd, pure, ◌>>=◌, ◌>>◌, emit}
use sample_code.Effect.Ledger
use sample_code.Effect.Ledger.{count}
use sample_code.Effect.Spec
use sample_code.Effect.Spec.{Returns, returns}
use sample_code.Kernel.{
  Kernel, Ptr, null, err_ptr, at, val, err, Errno, enomem, page_size, Direction, Res, mem_ref,
  page_ref, sg_entries, dma_mapping, buffer_ref, Res-discrete, Ptr-discrete, Event,
}
use sample_code.Kernel.Held.{here, later}
use sample_code.Kernel.Bag.{Keeps, gain, skip, drop, drop_from}
use sample_code.DmaBuf.Core.{DmaBuf}
use sample_code.DmaBuf.Session.{Lease, lent, AllReady, Exporter, Request, session, unmap_all}
use sample_code.DmaBuf.PageExporter.{exporter_map_dma_buf, exporter_unmap_dma_buf, exp_dmabuf_ops}

-- The address that was set last at an entry.
abbrev pub set_address : List Event → Ptr → Option ℕ
set_address [] sg = none
set_address (Event.set_dma_address s a ∷ l) sg = ite (Ptr-discrete s sg) (some a) (set_address l sg)
set_address (_ ∷ l) sg = set_address l sg

module _ (k : Kernel) where
  -- A table keeps its first entry, two tables have two, an entry reads as it was set, and a new
  -- block is none of those that are held.
  pub record Tables : Type 0 where
    pub fixed : (l : List Event) (t : Ptr) → k.sgl l t ≡ k.sgl [] t
    pub apart : (t t' : ℕ) → k.sgl [] (at t) ≡ k.sgl [] (at t') → t ≡ t'
    pub reads :
        (l : List Event) (sg : Ptr) (a : ℕ) → set_address l sg ≡ some a → k.sg_dma_address l sg ≡ a
    pub fresh :
        (l : List Event) (h : List Res) (n t : ℕ)
        → Keeps l h
        → k.kmalloc l n ≡ some t
        → count Res-discrete (mem_ref (at t)) h ≡ 0

  module _ (tb : Tables) (d : DmaBuf Ptr) where
    abbrev items_of : ℕ → ℕ → List Res
    items_of t a = dma_mapping a ∷ sg_entries (at t) ∷ mem_ref (at t) ∷ []

    -- A lease can be taken down: its entry was last set to the address that it holds.
    abbrev Ready : List Event → Lease → Type 0
    Ready l x =
        (a : ℕ) × (x.items ≡ items_of x.table a) × (set_address l (k.sgl [] (at x.table)) ≡ some a)

    block_counts : (t a : ℕ) → ◌≢◌ {A = ℕ} (count Res-discrete (mem_ref (at t)) (items_of t a)) 0
    block_counts t a e =
        absurd (omega (arith, e, Ledger.count_pos Res-discrete (mem_ref (at t)) []))

    other-Ready :
        (t a : ℕ) (x : Lease) (l : List Event)
        → count Res-discrete (mem_ref (at t)) x.items ≡ 0
        → Ready l x
        → Ready (Event.set_dma_address (k.sgl [] (at t)) a ∷ l) x
    other-Ready t a x l none_of (b, e, s) =
        let ne : k.sgl [] (at t) ≢ k.sgl [] (at x.table) =
          λ f. block_counts t b (rw (sym (tb.apart t x.table f)) at (rw e at none_of)) in
        (b, e, if_neg (Ptr-discrete (k.sgl [] (at t)) (k.sgl [] (at x.table))) ne _ _ ∙ s)

    others-Ready :
        (t a : ℕ) (xs : List Lease) (l : List Event)
        → count Res-discrete (mem_ref (at t)) (lent xs) ≡ 0
        → AllReady (Ready l) xs
        → AllReady (Ready (Event.set_dma_address (k.sgl [] (at t)) a ∷ l)) xs
    others-Ready t a [] l z r = tt
    others-Ready t a (x ∷ xs) l z r =
        let s = Ledger.count-append Res-discrete (mem_ref (at t)) x.items (lent xs) in
        (
          other-Ready t a x l (omega (arith, z, s)) r.0,
          others-Ready t a xs l (omega (arith, z, s)) r.1,
        )

    map-Ready :
        (dir : Direction) (xs : List Lease) (h : List Res) (l : List Event)
        → Keeps l (lent xs ++ h)
        → AllReady (Ready l) xs
        → Returns
            (λ r l'.
              ((e : Errno) × (r ≡ err_ptr e) × Keeps l' (lent xs ++ h) × AllReady (Ready l') xs)
              ⊎ ((x : Lease) × (r ≡ at x.table)
                  × Keeps l' (x.items ++ (lent xs ++ h))
                  × AllReady (Ready l') (x ∷ xs)))
            (exporter_map_dma_buf k d dir l)
    unfolding exporter_map_dma_buf
    map-Ready dir xs h l p r = elim (Option-cases (k.kmalloc l k.sizeof_sg_table)) [
      | inl e ↦
          rw e (returns (inl (enomem, refl, skip (Event.kmalloc k.sizeof_sg_table null) refl p, r)))
      | inr (t, e) ↦
          let l₁ = Event.kmalloc k.sizeof_sg_table (at t) ∷ l in
          let p₁ = gain (Event.kmalloc k.sizeof_sg_table (at t)) refl p in
          rw e (elim (Option-cases (k.sg_alloc_table l₁ (at t) 1)) [
            | inr (c, f) ↦
                let q = skip (Event.sg_alloc_table (at t) 1 (err c)) refl p₁ in
                rw f (returns (inl (c, refl, drop (Event.kfree (at t)) refl q, r)))
            | inl f ↦
                let sg = k.sgl [] (at t) in
                let page = Event.sg_set_page sg d.priv page_size 0 in
                let l₂ = page ∷ Event.sg_alloc_table (at t) 1 (val 0) ∷ l₁ in
                let a : ℕ = k.dma_map_page l₂ d.priv 0 page_size dir in
                let mapped = Event.dma_map_page d.priv 0 page_size dir a in
                let p₂ = gain (Event.sg_alloc_table (at t) 1 (val 0)) refl p₁ in
                let p₃ = gain mapped refl (skip page refl p₂) in
                let p₄ = skip (Event.set_dma_address sg a) refl p₃ in
                let here : set_address (Event.set_dma_address sg a ∷ mapped ∷ l₂) sg ≡ some a =
                  if_pos (Ptr-discrete sg sg) refl _ _ in
                let z = tb.fresh l (lent xs ++ h) k.sizeof_sg_table t p e in
                let both = Ledger.count-append Res-discrete (mem_ref (at t)) (lent xs) h in
                let others = others-Ready t a xs (mapped ∷ l₂) (omega (arith, z, both)) r in
                rw (f, tb.fixed)
                  (returns (
                    inr (
                      record { table = t; items = items_of t a },
                      refl,
                      p₄,
                      ((a, refl, here), others),
                    )))
          ])
    ]

    unmap-Ready :
        (dir : Direction) (x : Lease) (xs : List Lease) (h : List Res) (l : List Event)
        → Keeps l (x.items ++ h)
        → AllReady (Ready l) (x ∷ xs)
        → Returns
            (λ _ l'. Keeps l' h × AllReady (Ready l') xs)
            (exporter_unmap_dma_buf k d (at x.table) dir l)
    unfolding exporter_unmap_dma_buf
    unmap-Ready dir x xs h l p ((a, e, s), r) =
        let q = drop (Event.dma_unmap_page a page_size dir) refl (rw e at p) in
        let q' = drop_from (Event.sg_free_table (at x.table)) refl (later _ _ _ (here _ _)) q in
        rw (tb.fixed, tb.reads l (k.sgl [] (at x.table)) a s)
          (returns (drop (Event.kfree (at x.table)) refl q', r))

    -- The callbacks of the page exporter keep the contract.
    pub page-Exporter : Exporter (exp_dmabuf_ops k) d
    unfolding exp_dmabuf_ops
    page-Exporter = record {
      Ready = Ready;
      maps = λ dir xs h {l} p r. map-Ready dir xs h l p r;
      unmaps = λ dir x xs h {l} p r. unmap-Ready dir x xs h l p r;
    }

  -- The requests of a buffer's users one after another, the end of the mappings that they leave,
  -- and the last put, on which the kernel calls `exporter_release`.
  unfoldable pub page_life : DmaBuf Ptr → Ptr → List Request → Direction → Cmd Event (Unit {0})
  page_life d b qs dir = do
    session (exp_dmabuf_ops k) d qs [] >>= unmap_all (exp_dmabuf_ops k) d dir
    emit (Event.dma_buf_put b)
    (exp_dmabuf_ops k).release d
    pure tt

  -- The buffer of a page `p`, before anything is attached to it.
  abbrev pub buffer : ℕ → DmaBuf Ptr
  buffer p = record { priv = at p; attachments = [] }

  -- What becomes of the buffer that `exporter_alloc_page` made, if it made one.
  abbrev pub Lives : List Request → Direction → List Res → Ptr → List Event → Type 0
  Lives qs dir h r l =
      ((r ≡ null) × Keeps l h)
      ⊎ ((b : ℕ) × (p : ℕ) × (r ≡ at b)
          × Keeps l (buffer_ref (at b) ∷ page_ref (at p) ∷ h)
          × Returns (λ _ l'. Keeps l' h) (page_life (buffer p) (at b) qs dir l))
