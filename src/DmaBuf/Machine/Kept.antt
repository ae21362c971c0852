-- ===== src/DmaBuf/Machine/Kept.antt =====
-- What share_fd.c of dma-buf/06 and 08 leaves held in the kernel.
use sample_code.Base.{ℕ, List, ◌∷◌}
use sample_code.Effect.Spec
use sample_code.Kernel.{Kernel, at, Res, mem_ref, Event}
use sample_code.Kernel.Held.{Holds}
use sample_code.DmaBuf.Exported
use sample_code.DmaBuf.Importer
use sample_code.DmaBuf.PageExporter
use sample_code.DmaBuf.ShareFd
use sample_code.DmaBuf.Machine.{Sample, page_pair}

-- On top of `h`: nothing, or after 08 the device of the importer's test.
pub data Left (h : List Res) : Sample → List Event → Type 0 where
  nothing_left : {l : List Event} (v : Sample) → Holds l h → Left h v l
  device_left : {l : List Event} (dev : ℕ) → Holds l (mem_ref (at dev) ∷ h) → Left h page_pair l
