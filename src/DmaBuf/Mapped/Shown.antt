-- ===== src/DmaBuf/Mapped/Shown.antt =====
-- What the programs mmap_dmabuf.c, mmap_exporter.c and dmabuf_sync.c show when nothing fails.
use sample_code.Base.{ℕ, ◌≡◌, refl, Option, none, some, List, [], ◌∷◌, ==_of_eq}
use sample_code.Effect.{ok, Cmd}
use sample_code.Effect.Spec.{Returns, returns}
use sample_code.Kernel.{Kernel, at, val, fd_answer, from_device, page_size, Event}
use sample_code.Posix.{Sys, DeviceFile, exporter, Exit, success, Os}
use sample_code.DmaBuf.Exported
use sample_code.DmaBuf.FdMmap
use sample_code.DmaBuf.MiscMmap
use sample_code.DmaBuf.Mapped.{Sample, fd_mmap, misc, sync, page, exporter_of, serve_all, machine}
use sample_code.DmaBuf.PageExporter
use sample_code.DmaBuf.Programs.{
  mmap_dmabuf, mmap_exporter, dmabuf_sync, obtain_dmabuf, read_and_close, read_and_end,
}
use sample_code.DmaBuf.Sync

unfoldable pub program : Os → Sample → Cmd Sys Exit
unfolding mmap_dmabuf mmap_exporter dmabuf_sync
program os fd_mmap = mmap_dmabuf os
program os misc = mmap_exporter os
program os sync = dmabuf_sync os
program os page = dmabuf_sync os

module _ (k : Kernel) (b p g fd a : ℕ) where
  -- The program reads the address `a`: between the start and the end of its access to the
  -- descriptor `g`, or before it closes `g`.
  unfoldable pub calls_of : Sample → List Sys
  calls_of fd_mmap =
      Sys.close (val g)
      ∷ Sys.read_text a
      ∷ Sys.mmap 4096 (val g) (some a)
      ∷ Sys.close (val fd)
      ∷ Sys.get_dmabuf fd (some (val g))
      ∷ Sys.open_file exporter (some fd)
      ∷ []
  calls_of misc =
      Sys.close (val fd)
      ∷ Sys.read_text a
      ∷ Sys.mmap 4096 (val fd) (some a)
      ∷ Sys.open_file exporter (some fd)
      ∷ []
  calls_of sync =
      Sys.sync_end (val g)
      ∷ Sys.read_text a
      ∷ Sys.mmap 4096 (val g) (some a)
      ∷ Sys.sync_start (val g)
      ∷ Sys.close (val fd)
      ∷ Sys.get_dmabuf fd (some (val g))
      ∷ Sys.open_file exporter (some fd)
      ∷ []
  calls_of page =
      Sys.sync_end (val g)
      ∷ Sys.read_text a
      ∷ Sys.mmap 4096 (val g) (some a)
      ∷ Sys.sync_start (val g)
      ∷ Sys.close (val fd)
      ∷ Sys.get_dmabuf fd (some (val g))
      ∷ Sys.open_file exporter (some fd)
      ∷ []

  -- In the kernel, the frame of the exporter's memory at `p` is put at `a`; in dma-buf/07 between
  -- the two cache syncs of that memory.
  unfoldable pub served : List Event → Sample → List Event
  served l fd_mmap =
      Event.remap_pfn_range a (k.virt_to_pfn (at p)) page_size (val 0)
      ∷ Event.copy_to_user (fd_answer (val g)) 0
      ∷ Event.dma_buf_fd (at b) (val g)
      ∷ l
  served l misc =
      Event.remap_pfn_range a (k.virt_to_pfn (at p)) page_size (val 0)
      ∷ Event.dma_buf_mmap (at b) 0 (val 0)
      ∷ l
  served l sync =
      Event.dma_sync_single_for_device (k.virt_to_phys (at p)) page_size from_device
      ∷ Event.remap_pfn_range a (k.virt_to_pfn (at p)) page_size (val 0)
      ∷ Event.dma_sync_single_for_cpu (k.virt_to_phys (at p)) page_size from_device
      ∷ Event.copy_to_user (fd_answer (val g)) 0
      ∷ Event.dma_buf_fd (at b) (val g)
      ∷ l
  served l page =
      Event.remap_pfn_range a (k.page_to_pfn (at p)) page_size (val 0)
      ∷ Event.copy_to_user (fd_answer (val g)) 0
      ∷ Event.dma_buf_fd (at b) (val g)
      ∷ l

  module _ (opens : List Sys → DeviceFile → Option ℕ) (places : List Sys → ℕ → Option ℕ) where
    -- Where the exporter's device opens, `dma_buf_fd` gives its buffer a descriptor, the copy to the
    -- program succeeds, and the kernel has a place to map at and does so, the programs of
    -- dma-buf/04, 05, 07 and 08 end with 0. They read at the address where the kernel has put the frame
    -- of the exporter's memory, in 07 and 08 inside of a CPU access and in 07 between the two cache
    -- syncs of that memory, and nothing else is done to the buffer.
    pub program-served :
        (v : Sample) (l₀ : List Event)
        → ((l : List Sys) → opens l exporter ≡ some fd)
        → ((l : List Sys) (n : ℕ) → places l n ≡ some a)
        → k.dma_buf_fd l₀ (at b) ≡ val g
        → ((l : List Event) → k.copy_to_user l ≡ 0)
        → ((l : List Event) (n : ℕ) → k.dma_buf_mmap l (at b) n ≡ none)
        → ((l : List Event) (s f n : ℕ) → k.remap_pfn_range l s f n ≡ none)
        → Returns
            (λ x l.
              (x ≡ success)
              × (l ≡ calls_of v)
              × (serve_all (exporter_of k (at b) (at p) v) places l l₀ ≡ ok tt (served l₀ v)))
            (program (machine (exporter_of k (at b) (at p) v) places opens l₀) v [])
    unfolding program mmap_dmabuf mmap_exporter dmabuf_sync obtain_dmabuf read_and_close
        read_and_end machine calls_of served exporter_of FdMmap.mdev MiscMmap.mdev
        MiscMmap.exporter_fops MiscMmap.exporter_misc_mmap MiscMmap.exp_dmabuf_ops
        MiscMmap.exporter_mmap Sync.mdev PageExporter.mdev FdMmap.exporter_fops Sync.exporter_fops
        PageExporter.exporter_fops FdMmap.exporter_ioctl Sync.exporter_ioctl
        PageExporter.exporter_ioctl Exported.share_fd FdMmap.exp_dmabuf_ops Sync.exp_dmabuf_ops
        PageExporter.exp_dmabuf_ops FdMmap.exporter_mmap Sync.exporter_mmap
        PageExporter.exporter_mmap serve_all Sync.exporter_begin_cpu_access
        Sync.exporter_end_cpu_access PageExporter.exporter_begin_cpu_access
        PageExporter.exporter_end_cpu_access
    program-served fd_mmap l₀ opened placed given_g out hands remaps =
        let here = ==_of_eq g g refl in
        rw (opened, given_g, out, placed, here, remaps)
          (returns (refl, refl, rw (given_g, out, placed, here, remaps) refl))
    program-served misc l₀ opened placed given_g out hands remaps =
        rw (opened, placed, hands, remaps) (returns (refl, refl, rw (placed, hands, remaps) refl))
    program-served sync l₀ opened placed given_g out hands remaps =
        let here = ==_of_eq g g refl in
        rw (opened, given_g, out, placed, here, here, remaps)
          (returns (refl, refl, rw (given_g, out, placed, here, here, remaps, here) refl))
    program-served page l₀ opened placed given_g out hands remaps =
        let here = ==_of_eq g g refl in
        rw (opened, given_g, out, placed, here, here, remaps)
          (returns (refl, refl, rw (given_g, out, placed, here, here, remaps, here) refl))
