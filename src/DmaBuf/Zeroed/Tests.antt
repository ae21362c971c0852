-- ===== src/DmaBuf/Zeroed/Tests.antt =====
-- The theorems about dma-buf/03 to 07 and the reopened device at a concrete kernel.
use sample_code.Base.{refl, List, [], ◌∷◌}
use sample_code.Effect.Ledger
use sample_code.Effect.Spec.{Returns}
use sample_code.Kernel.{Ptr, null, at, val, bidirectional, page_size, Event}
use sample_code.Kernel.Granting.{kernel}
use sample_code.DmaBuf.Core.{DmaBuf}
use sample_code.DmaBuf.Reopen
use sample_code.DmaBuf.PageExporter
use sample_code.DmaBuf.Sync
use sample_code.DmaBuf.Sg

abbrev buf : DmaBuf Ptr
buf = record { priv = at 2; attachments = [] }

reopen-stale_example :
    Returns
      (λ _. Reopen.Asked kernel buf 5 [] (at 5))
      (Reopen.reopen
        (PageExporter.exp_dmabuf_ops kernel)
        (PageExporter.exporter_ioctl kernel)
        buf
        (at 5)
        [])
    × Returns
        (λ _. Reopen.Asked kernel buf 5 [] null)
        (Reopen.reopen (Sync.exp_dmabuf_ops kernel) (Sync.exporter_ioctl kernel) buf (at 5) [])
reopen-stale_example = Reopen.reopen-stale kernel buf 5 []

abbrev mapped_log : List Event
mapped_log =
    Event.set_dma_address (at 1) 7
    ∷ Event.dma_map_single (at 2) page_size bidirectional 7
    ∷ Event.set_dma_len (at 1) page_size
    ∷ Event.sg_alloc_table (at 1) 1 (val 0)
    ∷ Event.kmalloc 16 (at 1)
    ∷ []

mapped : Sg.Map.Mapped kernel buf bidirectional [] 1 mapped_log
unfolding Ledger.ledger
mapped = record { addr = 7; sg = at 1; before = _; log = refl; holds = record { is = refl } }
