-- ===== src/DmaBuf.antt =====
-- The samples under dma-buf/: exporters, which give a buffer's memory out through the callbacks
-- of a `struct dma_buf_ops`, and importers, which use a buffer of another driver.
pub mod Core
pub mod Exported
pub mod Dummy
pub mod Kmap
pub mod Sg
pub mod FdMmap
pub mod MiscMmap
pub mod ShareFd
pub mod Sync
pub mod Zeroed
pub mod Reopen
pub mod Ion
pub mod PageExporter
pub mod Importer
pub mod Session
pub mod Pairs
pub mod Programs
pub mod Machine
pub mod Mapped
pub mod IonTest
