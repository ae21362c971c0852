-- ===== src/DmaBuf/Machine/Reads.antt =====
-- What the importer of dma-buf/06 reads when share_fd.c runs and nothing fails.
use sample_code.Base.{ℕ, ◌≡◌, refl, Option, none, some, List, [], ◌∷◌, ==_of_eq, ◌≢◌, ◌∙◌}
use sample_code.Effect.{Run, ok}
use sample_code.Effect.Spec
use sample_code.Effect.Spec.{Returns, returns}
use sample_code.Kernel.{Kernel, at, val, fd_answer, Ret, Event}
use sample_code.Posix.{Sys, DeviceFile, exporter, importer, success, Exit}
use sample_code.DmaBuf.Exported
use sample_code.DmaBuf.Importer.{importer_test1}
use sample_code.DmaBuf.Importer.Early.{importer_ioctl_fd, mdev_fd, importer_fops_fd}
use sample_code.DmaBuf.Programs.{share_fd}
use sample_code.DmaBuf.ShareFd
use sample_code.DmaBuf.Machine.{given, fd_pair, drivers, replay, machine}
use sample_code.DmaBuf.Machine.Share.{
  Shares, no_exporter, no_importer, shared, exchange, share_fd-Shares,
}

-- `dma_buf_get` finds the buffer of a descriptor that `dma_buf_fd` gave.
abbrev pub Finds : Kernel → Type 0
Finds k = (l : List Event) (g a : ℕ) → given g l ≡ some (at a) → k.dma_buf_get l (val g) ≡ val a

module _ (k : Kernel) (a g : ℕ) where
  -- After `l`: the descriptor `g` is given to the program, comes back to the importer, and the
  -- buffer is read between `dma_buf_get` and `dma_buf_put`.
  unfoldable pub reading : List Event → List Event
  reading l =
      let got =
        Event.dma_buf_get (val g) (at a)
        ∷ Event.copy_from_user 0
        ∷ Event.copy_to_user (fd_answer (val g)) 0
        ∷ Event.dma_buf_fd (at a) (val g)
        ∷ l in
      let page = k.dma_buf_kmap got (at a) 0 in
      let left_page = Event.dma_buf_kunmap (at a) 0 page ∷ Event.dma_buf_kmap (at a) 0 page ∷ got in
      let all = k.dma_buf_vmap left_page (at a) in
      Event.dma_buf_put (at a)
      ∷ Event.dma_buf_vunmap (at a) all
      ∷ Event.dma_buf_vmap (at a) all
      ∷ left_page

  exchange-reading :
      (l : List Event)
      → Finds k
      → k.dma_buf_fd l (at a) ≡ val g
      → ((l : List Event) → k.copy_to_user l ≡ 0)
      → ((l : List Event) → k.copy_from_user l ≡ 0)
      → exchange (drivers k (at a) fd_pair) l ≡ ok tt (reading l)
  unfolding exchange drivers ShareFd.mdev ShareFd.exporter_fops mdev_fd importer_fops_fd
      ShareFd.exporter_ioctl Exported.share_fd importer_ioctl_fd importer_test1 reading
  exchange-reading l finds given_g out in_ =
      let l₁ = Event.copy_to_user (fd_answer (val g)) 0 ∷ Event.dma_buf_fd (at a) (val g) ∷ l in
      let f = finds (Event.copy_from_user 0 ∷ l₁) g a (rw (==_of_eq g g refl) refl) in
      rw (given_g, out, in_, f) refl

  module _ (opens : List Sys → DeviceFile → Option ℕ) (maps : List Sys → ℕ → Ret → Option ℕ) where
    Shares-reading :
        {l₀ : List Event} {x : Exit} {r : Run Event (Unit {0})}
        → exchange (drivers k (at a) fd_pair) l₀ ≡ ok tt (reading l₀)
        → ((l : List Sys) (f : DeviceFile) → opens l f ≢ none)
        → Shares (drivers k (at a) fd_pair) opens maps l₀ x r
        → (x ≡ success) × (r ≡ ok tt (reading l₀))
    Shares-reading e opened (no_exporter l f _) = absurd (opened l exporter f)
    Shares-reading e opened (no_importer l f _) = absurd (opened l importer f)
    Shares-reading e opened (shared s) = (refl, s ∙ e)

    -- Where both device files of dma-buf/06 open, the copies to and from the program succeed,
    -- `dma_buf_fd` gives the exporter's buffer a descriptor, and `dma_buf_get` finds the buffer of
    -- a descriptor that was given, share_fd ends with 0 and the importer has read the buffer of
    -- the exporter, and only while it had a reference to it.
    pub share_fd-reading :
        (l₀ : List Event)
        → Finds k
        → ((l : List Sys) (f : DeviceFile) → opens l f ≢ none)
        → k.dma_buf_fd l₀ (at a) ≡ val g
        → ((l : List Event) → k.copy_to_user l ≡ 0)
        → ((l : List Event) → k.copy_from_user l ≡ 0)
        → Returns
            (λ x l. (x ≡ success) × (replay (drivers k (at a) fd_pair) l l₀ ≡ ok tt (reading l₀)))
            (share_fd (machine (drivers k (at a) fd_pair) opens maps l₀) [])
    share_fd-reading l₀ finds opened given_g out in_ =
        let e = exchange-reading l₀ finds given_g out in_ in
        Spec.mono (share_fd-Shares (drivers k (at a) fd_pair) opens maps l₀)
          λ x l s. Shares-reading e opened s
