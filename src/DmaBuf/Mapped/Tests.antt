-- ===== src/DmaBuf/Mapped/Tests.antt =====
-- The theorem about the programs that map a buffer at a concrete machine.
use sample_code.Base.{ℕ, ◌≡◌, refl, Option, some, List, []}
use sample_code.Effect.{ok}
use sample_code.Effect.Spec.{Returns}
use sample_code.Kernel.{at}
use sample_code.Kernel.Granting.{kernel}
use sample_code.Posix.{Sys, DeviceFile, success}
use sample_code.DmaBuf.Mapped
use sample_code.DmaBuf.Mapped.{sync, exporter_of, serve_all, machine}
use sample_code.DmaBuf.Mapped.Shown.{program, calls_of, served}

abbrev opens : List Sys → DeviceFile → Option ℕ
opens l f = some 4

abbrev places : List Sys → ℕ → Option ℕ
places l n = some 65536

program-served_example :
    Returns
      (λ x l.
        (x ≡ success)
        × (l ≡ calls_of kernel 9 5 3 4 65536 sync)
        × (serve_all (exporter_of kernel (at 9) (at 5) sync) places l []
            ≡ ok tt (served kernel 9 5 3 4 65536 [] sync)))
      (program (machine (exporter_of kernel (at 9) (at 5) sync) places opens []) sync [])
program-served_example =
    Mapped.Shown.program-served kernel 9 5 3 4 65536 opens places sync [] (λ l. refl) (λ l n. refl)
      refl (λ l. refl) (λ l n. refl) (λ l s f n. refl)
