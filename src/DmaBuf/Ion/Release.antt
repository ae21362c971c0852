-- ===== src/DmaBuf/Ion/Release.antt =====
-- `ion_release` of dma-buf/09/exporter-ion.c undoes what `ion_alloc` obtained.
use sample_code.Base.{
  ℕ, ◌≡◌, refl, sym, List, [], ◌∷◌, ◌++◌, map, reverse, length, rounds, map-reverse,
}
use sample_code.Effect.Spec
use sample_code.Effect.Spec.{Returns, returns}
use sample_code.Effect.Ledger
use sample_code.Kernel.{Kernel, Ptr, at, Res, mem_ref, page_ref, Res-discrete, Event, held}
use sample_code.Kernel.Held.{Holds, drop}
use sample_code.DmaBuf.Core.{DmaBuf}
use sample_code.DmaBuf.Ion.{IonData, put_pages, ion_release}

module _ (k : Kernel) where
  put_pages-held :
      (ps : List Ptr) (l : List Event)
      → Returns
          (λ _ l'. held l' ≡ Ledger.release_all Res-discrete (map page_ref ps) (held l))
          (put_pages k (length ps) ps l)
  unfolding put_pages Ledger.ledger Ledger.release_all
  put_pages-held [] l = returns refl
  put_pages-held (p ∷ ps) l = put_pages-held ps (Event.put_page p ∷ l)

  put_pages-Holds :
      (ps : List Ptr) {l : List Event} {h : List Res}
      → Holds l (map page_ref (reverse ps) ++ h)
      → Returns (λ _ l'. Holds l' h) (put_pages k (length ps) ps l)
  put_pages-Holds ps {l} {h} p = Spec.mono (put_pages-held ps l) λ _ l' q. record {
    is =
        rw (q, p.is, map-reverse)
          (Ledger.release_all-SameItems Res-discrete (map page_ref ps) (reverse (map page_ref ps)) h
            λ a. sym (Ledger.count-reverse Res-discrete a (map page_ref ps)));
  }

  -- Where the pages and the block of a buffer are held as `ion_alloc` leaves them, `ion_release`
  -- puts every page once and frees the block, so that just the rest is held.
  pub ion_release-Holds :
      (d : DmaBuf IonData) (block : ℕ) {l : List Event} {h : List Res}
      → d.priv.addr ≡ at block
      → length d.priv.pages ≡ rounds d.priv.npages
      → Holds l (map page_ref (reverse d.priv.pages) ++ (mem_ref (at block) ∷ h))
      → Returns (λ _ l'. Holds l' h) (ion_release k d l)
  unfolding ion_release
  ion_release-Holds d block a n p =
      rw (← n, a)
        (Spec.bind (put_pages-Holds d.priv.pages p)
          λ _ l' q. returns (drop (Event.kfree (at block)) refl q))
