-- ===== src/DmaBuf/PageExporter/Tests.antt =====
-- The theorems about dma-buf/08/exporter-page.c at a concrete kernel.
use mathlib.Core.Logic.{if_neg}
use sample_code.Base.{
  ℕ, suc, ◌+◌, ◌≤◌, ◌<◌, ◌≡◌, refl, sym, ◌∙◌, Option, none, some, List, [], ◌∷◌, arith,
}
use sample_code.Effect.Ledger
use sample_code.Effect.Spec.{Returns}
use sample_code.Kernel.{
  Kernel, Ptr, null, err_ptr, at, val, Event, Res, mem_ref, page_ref, sg_entries, sg_mapping,
  dma_mapping, buffer_ref, map_ref, attach_ref, table_ref, kmap_ref, vmap_ref, device_ref,
  Res-discrete, act,
}
use sample_code.Kernel.Granting.{kernel, nothing}
use sample_code.DmaBuf.Core.{DmaBuf}
use sample_code.DmaBuf.Exported.{Loaded}
use sample_code.DmaBuf.Session
use sample_code.DmaBuf.PageExporter

abbrev buf : DmaBuf Ptr
buf = record { priv = at 2; attachments = [] }

exporter_init-Loaded_example : Returns (Loaded page_ref []) (PageExporter.exporter_init kernel [])
exporter_init-Loaded_example = PageExporter.Alloc.exporter_init-Loaded kernel nothing

abbrev loaded_log : List Event
loaded_log =
    Event.misc_register (val 0)
    ∷ Event.sprintf_hello (at 1)
    ∷ Event.dma_buf_export (PageExporter.page_export_info (at 1)) (at 2)
    ∷ Event.alloc_page (at 1)
    ∷ []

-- The sum of the addresses of the blocks that are held, which is no less than each.
abbrev total : List Res → ℕ
total [] = 0
total (mem_ref (at a) ∷ h) = a + total h
total (_ ∷ h) = total h

total-block : (a : ℕ) (r : Res) (h : List Res) → mem_ref (at a) ≡ r → total (r ∷ h) ≡ a + total h
total-block a r h e = rw (← e) refl

total-more : (r : Res) (h : List Res) → total h ≤ total (r ∷ h)
total-more (mem_ref null) h = omega arith
total-more (mem_ref (err_ptr e)) h = omega arith
total-more (mem_ref (at a)) h = omega arith
total-more (page_ref p) h = omega arith
total-more (sg_entries t) h = omega arith
total-more (sg_mapping t) h = omega arith
total-more (dma_mapping a) h = omega arith
total-more (buffer_ref b) h = omega arith
total-more (map_ref p) h = omega arith
total-more (attach_ref a) h = omega arith
total-more (table_ref t) h = omega arith
total-more (kmap_ref p) h = omega arith
total-more (vmap_ref p) h = omega arith
total-more device_ref h = omega arith

count-fresh :
    (n : ℕ) (h : List Res)
    → total h < n
    → ◌≡◌ {A = ℕ} (Ledger.count Res-discrete (mem_ref (at n)) h) 0
count-fresh n [] lt = refl
count-fresh n (r ∷ h) lt = elim (Res-discrete (mem_ref (at n)) r) [
  | yes e ↦ absurd (omega (arith, lt, total-block n r h e))
  | no ne ↦ omega (
    arith,
    if_neg {C = ℕ} (Res-discrete (mem_ref (at n)) r) ne 1 0,
    count-fresh n h (omega (arith, lt, total-more r h)),
  )
]

abbrev next_block : Option (List Res) → Option ℕ
next_block none = none
next_block (some h) = some (suc (total h))

abbrev word_of : Option ℕ → ℕ
word_of none = 0
word_of (some a) = a

-- It gives out a block above all that are held, and reads back what was set.
abbrev tables_kernel : Kernel
tables_kernel = record kernel {
  kmalloc = λ l n. next_block (Ledger.ledger Res-discrete act l);
  sgl = λ l t. t;
  sg_dma_address = λ l sg. word_of (PageExporter.Life.set_address l sg);
}

tables : PageExporter.Life.Tables tables_kernel
tables = record {
  fixed = λ l t. refl;
  apart = λ t t' e. ground (arith, e);
  reads = λ l sg a e. rw e refl;
  fresh = λ l h n t p e.
      let f : next_block (some p.order) ≡ some t = rw (p.holds.is) at e in
      let g : t ≡ suc (total p.order) = ground (arith, f) in
      rw g (sym (p.same _) ∙ count-fresh (suc (total p.order)) p.order (omega arith));
}
