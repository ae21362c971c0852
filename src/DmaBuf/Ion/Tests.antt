-- ===== src/DmaBuf/Ion/Tests.antt =====
-- The theorems about dma-buf/09/exporter-ion.c at a concrete kernel.
use sample_code.Base.{
  ◌+◌, ◌≡◌, refl, none, some, List, [], ◌∷◌, ◌++◌, reverse, length, arith, pos, true, ltb,
  if◌then◌else◌,
}
use sample_code.Effect.{ok, fault}
use sample_code.Effect.Ledger
use sample_code.Effect.Spec.{Returns}
use sample_code.Kernel.{
  Kernel, Ptr, null, err_ptr, at, val, enomem, ion_answer, bidirectional, Vma, page_size,
  IonAllocationData, Event, mem_ref, page_ref,
}
use sample_code.Kernel.Held.{Holds, gain}
use sample_code.Kernel.Granting.{kernel, nothing}
use sample_code.DmaBuf.Core.{DmaBuf}
use sample_code.DmaBuf.Ion
use sample_code.DmaBuf.Session
use sample_code.DmaBuf.Ion.{IonData}

-- A buffer of two pages at the addresses 2 and 3, behind the block 1.
abbrev two_pages : IonData
two_pages = record { addr = at 1; npages = pos 2; pages = at 2 ∷ at 3 ∷ [] }

abbrev ion_buf : DmaBuf IonData
ion_buf = record { priv = two_pages; attachments = [] }

abbrev page_buf : DmaBuf Ptr
page_buf = record { priv = at 2; attachments = [] }

abbrev request : IonAllocationData
request = record { len = 8192; fd = val 0 }

two_pages-held :
    Holds
      (Event.alloc_page (at 3) ∷ Event.alloc_page (at 2) ∷ Event.kmalloc 24 (at 1) ∷ [])
      (page_ref (at 3) ∷ page_ref (at 2) ∷ mem_ref (at 1) ∷ [])
two_pages-held =
    gain (Event.alloc_page (at 3)) refl
      (gain (Event.alloc_page (at 2)) refl (gain (Event.kmalloc 24 (at 1)) refl nothing))

ion_release-Holds_example :
    Returns
      (λ _ l'. Holds l' [])
      (Ion.ion_release kernel ion_buf
        (Event.alloc_page (at 3) ∷ Event.alloc_page (at 2) ∷ Event.kmalloc 24 (at 1) ∷ []))
ion_release-Holds_example = Ion.Release.ion_release-Holds kernel ion_buf 1 refl refl two_pages-held

-- The log after a map of `ion_buf`.
abbrev mapped_log : List Event
mapped_log =
    Event.dma_map_sg (at 1) 1 bidirectional 1
    ∷ Event.sg_set_page (at 1) (at 3) page_size 0
    ∷ Event.sg_set_page (at 1) (at 2) page_size 0
    ∷ Event.sg_alloc_table (at 1) 2 (val 0)
    ∷ Event.kmalloc 16 (at 1)
    ∷ []

mapped : Ion.Map.Mapped kernel ion_buf bidirectional [] [] 1 mapped_log
unfolding Ledger.ledger
mapped = record {
  sg = at 1;
  read_at = [];
  first = refl;
  holds = record { is = refl };
  describes = refl;
}

ion_unmap_dma_buf-Mapped_example :
    Returns
      (λ _ l'. Holds l' [])
      (Ion.ion_unmap_dma_buf kernel ion_buf (at 1) bidirectional mapped_log)
ion_unmap_dma_buf-Mapped_example =
    Ion.Map.ion_unmap_dma_buf-Mapped kernel ion_buf bidirectional 1 (λ l₁ l₂. refl) mapped

ion_ioctl-Served_example :
    Returns (Ion.Ioctl.Served kernel 1 request []) (Ion.ion_ioctl kernel 1 request [])
ion_ioctl-Served_example = Ion.Ioctl.ion_ioctl-Served kernel 1 request refl refl (λ n. cc) nothing

cpu_access-fault_example :
    let d : DmaBuf IonData = record ion_buf { attachments = record { priv = null } ∷ [] } in
    (Ion.ion_begin_cpu_access kernel d bidirectional [] ≡ fault [])
    × (Ion.ion_end_cpu_access kernel d bidirectional [] ≡ fault [])
unfolding Ion.ion_attach
cpu_access-fault_example =
    Ion.Cpu.cpu_access-fault kernel ion_buf bidirectional (record { priv = null })
      (record { priv = null }) [] [] [] [] refl refl

abbrev area : Vma
area = record { vm_start = 4096; vm_end = 8192; vm_pgoff = 0 }

-- The area has one page, and two are mapped.
ion_mmap-remapped_example :
    Returns
      (λ r l'.
        (r ≡ val 0)
        × (Ion.Mmap.remapped l'
            ≡ reverse (Ion.Mmap.page_ranges kernel 4096 (at 2 ∷ at 3 ∷ [])) ++ []))
      (Ion.ion_mmap kernel ion_buf area [])
ion_mmap-remapped_example = Ion.Mmap.ion_mmap-remapped kernel ion_buf area [] refl (omega arith)

-- Five calls for a buffer of two pages: the block, the pages, the buffer.
ion_alloc_grants :
    Ion.ion_alloc kernel 5000 []
    ≡ ok
        (at 4, record { addr = at 1; npages = pos 2; pages = at 2 ∷ at 3 ∷ [] })
        (Event.dma_buf_export (record { size = 8192; cloexec = true; priv = at 1 }) (at 4)
          ∷ Event.alloc_page (at 3)
          ∷ Event.alloc_page (at 2)
          ∷ Event.kmalloc 24 (at 1)
          ∷ [])
unfolding Ion.ion_alloc Ion.alloc_pages Ion.export_pages
ion_alloc_grants = refl

-- A kernel with two pages left.
abbrev scarce : Kernel
scarce = record kernel { alloc_page = λ l. if ltb (length l) 3 then some (length l + 1) else none }

ion_alloc_unwinds :
    Ion.ion_alloc scarce 12288 []
    ≡ ok
        (err_ptr enomem, Ion.no_ion)
        (Event.kfree (at 1)
          ∷ Event.put_page (at 2)
          ∷ Event.put_page (at 3)
          ∷ Event.alloc_page null
          ∷ Event.alloc_page (at 3)
          ∷ Event.alloc_page (at 2)
          ∷ Event.kmalloc 32 (at 1)
          ∷ [])
unfolding Ion.ion_alloc Ion.alloc_pages Ion.export_pages Ion.ion_alloc_err Ion.unwind_pages
ion_alloc_unwinds = refl

-- The caller of a refused request is told 0, the status of a success.
refused_reports_success :
    Ion.ion_ioctl scarce 1 (record { len = 12288; fd = val 0 }) []
    ≡ ok (val 0) (
        Event.copy_to_user (ion_answer (record { len = 12288; fd = val 3 })) 0
        ∷ Event.dma_buf_fd (err_ptr enomem) (val 3)
        ∷ Event.kfree (at 2)
        ∷ Event.put_page (at 3)
        ∷ Event.alloc_page null
        ∷ Event.alloc_page (at 3)
        ∷ Event.kmalloc 32 (at 2)
        ∷ Event.copy_from_user 0
        ∷ [])
unfolding Ion.ion_ioctl Ion.ion_answer_fd Ion.ion_alloc Ion.alloc_pages Ion.export_pages
    Ion.ion_alloc_err Ion.unwind_pages
refused_reports_success = refl
