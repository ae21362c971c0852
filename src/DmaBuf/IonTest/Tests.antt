-- ===== src/DmaBuf/IonTest/Tests.antt =====
-- The theorem about ion_test.c at a concrete kernel.
use sample_code.Base.{ℕ, Option, some, List}
use sample_code.Posix.{Sys, DeviceFile}
use sample_code.DmaBuf.IonTest

abbrev opens : List Sys → DeviceFile → Option ℕ
opens l f = some 4
