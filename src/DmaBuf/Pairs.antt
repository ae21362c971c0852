-- ===== src/DmaBuf/Pairs.antt =====
-- The samples of dma-buf/02, 03 and 07, each an exporter and an importer that is linked with the
-- exporter's `dmabuf_exported`: the two modules loaded one after the other.
mod Tests
use sample_code.Base.{ℕ, List, ◌∷◌, if◌then◌else◌, Option-cases}
use sample_code.Effect.{Cmd, pure, ◌>>=◌}
use sample_code.Effect.Spec
use sample_code.Kernel.{
  Kernel, Ptr, at, Ret, val, err, Errno, enomem, nonzero, Res, mem_ref, buffer_ref, device_ref,
  Event,
}
use sample_code.Kernel.Held.{Holds}
use sample_code.DmaBuf.Exported.{Exported}
use sample_code.DmaBuf.Importer.Early.{importer_init_kmap, importer_init_sg, importer_init_sync}
use sample_code.DmaBuf.Kmap
use sample_code.DmaBuf.Sg
use sample_code.DmaBuf.Sync

pub data Pair : Type 0 where
  kmap sg sync : Pair

module _ (k : Kernel) where
  unfoldable pub exporter_of : Pair → Cmd Event (Ret × Ptr)
  unfolding Kmap.exporter_init Kmap.exporter_alloc_page Sg.exporter_init Sg.exporter_alloc_page
      Sync.exporter_init Sync.exporter_alloc_page
  exporter_of kmap = Kmap.exporter_init k
  exporter_of sg = Sg.exporter_init k
  exporter_of sync = Sync.exporter_init k

  unfoldable pub importer_of : Pair → Ptr → Cmd Event Ret
  unfolding importer_init_kmap importer_init_sg importer_init_sync
  importer_of kmap = importer_init_kmap k
  importer_of sg = importer_init_sg k
  importer_of sync = importer_init_sync k

  -- The importer can be loaded once the exporter is.
  unfoldable pub load_both : Pair → Cmd Event Ret
  unfolding exporter_of importer_of
  load_both v = do
    made ← exporter_of v
    if nonzero made.0 then pure made.0 else importer_of v made.1

-- What is held after the two loads, on top of `h`: the buffer `b` over the block at `p`, or not.
pub data Both (h : List Res) : Pair → Ret → List Event → Type 0 where
  unloaded : {l : List Event} (v : Pair) → Holds l h → Both h v (err enomem) l
  unregistered :
      {l : List Event} (b p : ℕ) (e : Errno)
      → Holds l (buffer_ref (at b) ∷ mem_ref (at p) ∷ h)
      → Both h sync (err e) l
  read :
      {l : List Event} (b p : ℕ)
      → Holds l (buffer_ref (at b) ∷ mem_ref (at p) ∷ h)
      → Both h kmap (val 0) l
  -- The importer of 03 has no memory for its device, or keeps it.
  unmapped :
      {l : List Event} (b p : ℕ) (e : Errno)
      → Holds l (buffer_ref (at b) ∷ mem_ref (at p) ∷ h)
      → Both h sg (err e) l
  mapped :
      {l : List Event} (b p dev : ℕ) (r : Ret)
      → Holds l (mem_ref (at dev) ∷ buffer_ref (at b) ∷ mem_ref (at p) ∷ h)
      → Both h sg r l
  synced :
      {l : List Event} (b p : ℕ)
      → Holds l (device_ref ∷ buffer_ref (at b) ∷ mem_ref (at p) ∷ h)
      → Both h sync (val 0) l
