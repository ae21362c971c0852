-- ===== src/Lib.antt =====
-- Verification of the sample code: Linux dma-buf exporters and importers, drivers with mmap, DRM
-- drivers, programs that show buffers on a display, and producers and consumers of an Android
-- BufferQueue.
--
-- The parts, and how they interact. A dma-buf exporter (dma-buf/NN/exporter-*.c) fills the table
-- of callbacks `struct dma_buf_ops` for memory that it owns, hands the buffer to the kernel by
-- `dma_buf_export`, and shares it through the global `dmabuf_exported` or, by an ioctl, through a
-- file descriptor. An importer (dma-buf/NN/importer-*.c) finds the buffer by either way and uses
-- it through the kernel, by CPU or by DMA. The drivers of mmap/ map their own pages into a
-- process. The programs of drm/application/ obtain dumb buffers from a DRM driver, such as
-- drm/driver/cma/dumb.c, fill them, show them, and give them back. The drivers of drm/driver/vkms
-- are displays without hardware, whose vertical blanking is a timer. The programs under
-- dmabuf-test and mmap/test.c use the dma-buf and mmap drivers from user space. The samples of
-- Android/BufferQueue send a word from a producer to a consumer, in one process or in two.
--
-- All of this code calls the kernel, libdrm and the C library, or the Android framework, which
-- stand outside this repository. A function of the source is here a command over the log of such
-- calls (Effect.antt): given the calls made so far, newest first, it either returns a value and
-- the longer log, or it makes an invalid access (`fault`). The answers come from an environment,
-- the record `Kernel` (Kernel.antt), `Device` (Drm/Libdrm.antt), `DrmCore` (Drm/Vkms.antt), `Os`
-- (Posix.antt), `Framework` (BufferQueue.antt) or `TourFramework` (BufferQueue/Tour.antt), whose
-- fields are any functions of the log and the arguments: a theorem about every `Kernel` holds for
-- every sequence of failures and successes. Whether code leaks is read off the log
-- (Effect/Ledger.antt): a call acquires a resource, releases one, or does neither, and may use
-- another; releasing or using what is not held leaves no ledger. `Holds l h` says that the log `l` leaves exactly `h` held.
-- `Returns P run` says that the run makes no invalid access and ends with an answer and a log that
-- satisfy `P` (Effect/Spec.antt), and `Outcome P Q run` that it ends so or faults with a log that
-- satisfies `Q` (Effect/Outcome.antt). Where the order of releases is not that of the acquisitions,
-- what is held is a bag, a quotient of the lists by reordering (Effect/Bag.antt): `Keeps l h` is
-- `Holds` up to order.
--
-- Base       lists with indices, and C's integers, over the native numbers
-- Effect     commands, their ledgers and their postconditions
-- Kernel     the kernel's functions: types, events, ledger, and a kernel for tests
-- Posix      the system calls of the test programs, and the device files (Device) that the drivers
--            under dma-buf and mmap register
-- DmaBuf     dma-buf/. Core has `struct dma_buf_ops` and its objects. Ion is
--            09/exporter-ion.c, PageExporter 08/exporter-page.c, Importer 08/importer-page.c;
--            Dummy, Kmap, Sg, FdMmap, MiscMmap, ShareFd and Sync are the exporters of 01 to 07, in
--            this order, with the functions that several of them repeat in Exported;
--            Importer/Early has the importers of 02, 03, 06 and 07. The functions keep their
--            names. The child modules hold the theorems, but for Ion/Callbacks, which has the
--            functions that Ion puts into its table: in Ion, Alloc and Release (`ion_alloc` and
--            its error path), Map, Mmap, Cpu, Size and Ioctl. Session is the contract between
--            an exporter and its users: a record of laws on `map_dma_buf` and `unmap_dma_buf`,
--            and what follows for every sequence of maps and unmaps. Ion/Life and
--            PageExporter/Life fill it, and put the making of a buffer, such a sequence and its
--            release together. Pairs loads the exporters of 02, 03 and 07 and then the importers
--            that are linked with them. Programs are the user programs NN/dmabuf-test, with
--            Steps for what they share and Ends for how they end. Machine puts dma-buf/06 and 08
--            together: each ioctl that share_fd.c makes runs the handler of the exporter or of the
--            importer, on the log of the kernel that the handlers before it have left. Mapped does
--            so for the programs of 04, 05, 07 and 08 that map a buffer: an ioctl, a mapping or a
--            CPU access runs the callback of the exporter. IonTest does so for the program and the
--            driver of 09.
-- Drm        Tables has the tables of functions that the drivers hand to the DRM core. Cma is
--            drm/driver/cma/dumb.c. Modeset has the programs
--            drm/application/modeset-single-buffer, modeset-double-buffer and modeset-page-flip,
--            over the calls of Libdrm; its Wait is about the loop that SIGINT ends. Planes has
--            modeset-plane-test, modeset-atomic-crtc and modeset-atomic-plane, over the same.
--            MyGem is drm/driver/my-gem and drm/application/my-gem. CmaMachine puts the latter and
--            Cma together, FlipMachine modeset-page-flip and vkms_drv_5.c. Vkms is
--            drm/driver/vkms: Minimal, Objects, Dumb, Legacy, Atomic and Dynamic are its drivers,
--            from vkms_drv_1.c to vkms_drv.c; Display is what makes the kernel call their
--            callbacks; Setup, Delivered, Timer and Complete hold the theorems.
-- Mmap       mmap/mmap1.c to mmap4.c; Program is mmap/test.c, and RoundTrip loads each driver and
--            runs it there
-- BufferQueue  Android/BufferQueue/mytest, and mytest3's server and client; Queue says what the
--            framework is documented to know after a log. Tour is mytest2, which makes each call
--            once; its Contract says which end has each slot and which calls may be made.
--
-- State. `dmabuf_exported`, `kaddr`, `pages` and the static variable of the flip handler are
-- arguments, and results where the code writes them. The `ion_data` of a buffer is the record
-- `IonData`, whose list of pages stands for the array behind it; a callback gets it through
-- `priv`. What the code reads of `struct vm_area_struct` and of the arguments of an ioctl is a
-- record too, and what stands at a user address is an argument. A pointer is NULL, an ERR_PTR or
-- an address (`Ptr`); a status is 0, a value or a negative error (`Ret`).
--
-- Numbers. A machine of 64 bits with pages of 4096 bytes: `unsigned long` and `size_t` wrap at
-- 2^64, `unsigned int` and `uint32_t` at 2^32, and a conversion to `int` keeps 32 bits with the
-- sign (Base/Words.antt). A `struct ion_data` has 8 bytes before its array, and a pointer has 8.
-- Every loop is structural in its count or its list, but for the one of modeset-page-flip.c, which
-- runs on fuel: as much as the rounds until SIGINT arrives, and one more test.
--
-- Not modelled: messages (`pr_info`, `printf`), GFP and protection flags, names and versions of
-- drivers, concurrency of callers (a command runs to its end), and what memory holds, but for the
-- words that the display programs and the BufferQueue samples store and the pages where
-- mmap/test.c and drm/application/my-gem left their text.
-- The programs of dma-buf/08 repeat those of dma-buf/06 and 07. Android/BufferQueue/mytest2 does
-- not compile as it stands: its `main` is modelled for either meaning of the name that it does not
-- declare.
pub mod Base
pub mod BufferQueue
pub mod Effect
pub mod Kernel
pub mod Posix
pub mod DmaBuf
pub mod Drm
pub mod Mmap
