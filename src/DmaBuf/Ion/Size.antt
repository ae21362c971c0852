-- ===== src/DmaBuf/Ion/Size.antt =====
-- The number of pages that `ion_alloc` of dma-buf/09/exporter-ion.c asks for.
use sample_code.Base.{ℕ, ◌+◌, ◌-◌, ◌*◌, ◌/◌, ◌%◌, ◌^◌, ◌≤◌, ◌<◌, ◌≡◌, arith, pos, u32_mod}
use sample_code.Kernel.{page_size}
use sample_code.DmaBuf.Ion.{page_align, npages_of, ion_data_size}

-- Up to 2^31 - 1 pages the count is the least number of pages that hold `size` bytes, and neither
-- PAGE_ALIGN nor the size of the block wraps.
npages_of-least :
    (size : ℕ)
    → size ≤ (2 ^ 31 - 1) * page_size
    → let n = (size + 4095) / 4096 in
      (npages_of size ≡ pos n)
      × (size ≤ n * page_size)
      × (n * page_size < size + page_size)
      × (ion_data_size (npages_of size) ≡ 8 + n * 8)
npages_of-least size h =
    let n : ℕ = (size + 4095) / 4096 in
    let e : page_align size / page_size % u32_mod ≡ n = omega arith in rw e (ground arith)

-- The conversion to `int` drops the bits above: 2^44 bytes more ask for no page more.
npages_of-wraps :
    (size : ℕ) → size + 2 ^ 44 + 4096 ≤ 2 ^ 64 → npages_of (size + 2 ^ 44) ≡ npages_of size
npages_of-wraps size h = ground arith
