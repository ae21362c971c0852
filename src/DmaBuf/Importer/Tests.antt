-- ===== src/DmaBuf/Importer/Tests.antt =====
-- The theorems about the importers at a concrete kernel.
use sample_code.Base.{false, []}
use sample_code.Effect.Spec.{Returns}
use sample_code.Kernel.{at, val}
use sample_code.Kernel.Granting.{kernel, nothing}
use sample_code.DmaBuf.Importer
use sample_code.DmaBuf.Importer.Synced.{Synced, start}

importer_ioctl-Imported_example :
    Returns (Importer.Ioctl.Imported []) (Importer.importer_ioctl kernel (val 3) [])
importer_ioctl-Imported_example = Importer.Ioctl.importer_ioctl-Imported kernel (val 3) nothing

importer_test_sync-Synced_example :
    Returns (λ r l'. Synced (at 9) false l') (Importer.Early.importer_test_sync kernel (at 9) [])
importer_test_sync-Synced_example = Importer.Synced.importer_test_sync-Synced kernel (at 9) start
