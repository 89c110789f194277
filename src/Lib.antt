-- ===== src/Lib.antt =====
-- The host's side of the HERO tools: the library libhero, by which a Linux process drives an accelerator
-- (a Carfield with a Spatz cluster or a safety island, or an Occamy with Snitch clusters), and the kernel
-- drivers under it. Paths are from the repository's root.
--
-- Parts and files:
-- - Prelude: lists, Boolean tests, C integers, byte memory and partial calls, shared by all.
-- - Ring: sw/libhero/include/libhero/ringbuf.h. `RingBuf` is `struct ring_buf`; `rb_device_put`,
--   `rb_host_get`, `rb_host_put`, `rb_device_get` and `rb_init` have the source's names. The data array
--   lies in a byte memory, which each processor reaches by a `View`, its page tables. Ring/Queue is the
--   abstract mailbox, Ring/Contents the elements a buffer holds, Ring/Traffic any sequence of calls of
--   both ends.
-- - Mailbox: `hero_dev_mbox_read` and `hero_dev_mbox_write` of sw/libhero/src/common/hero_api.c. They
--   poll; a schedule says what the device does before each poll.
-- - DevHeap: the heaps and the mailbox allocation of hero_api.c, over o1heap as the parameter `O1Heap`.
-- - Driver: what the kernel drivers sw/hero-driver/carfield and sw/hero-driver/occamy share, over the
--   calls of Linux as the parameter `Kernel`; Driver/Iommu is sw/hero-driver/common/hero_iommu.c.
-- - Carfield, Occamy: `card_mmap`, `card_ioctl` and the region numbers of each driver.
-- - User: sw/libhero/src/common/driver.h, over system calls as the parameter `Syscalls`; User/Mapped
--   joins it to the Carfield driver by what Linux does between them (`Serves`).
-- - Bringup: `hero_dev_mmap` of sw/libhero/src/carfield and sw/libhero/src/occamy.
-- - Control: the register programs of those directories, over the hardware as the parameter `Hw`. Each
--   notes its accesses; Control/Order and Control/Snitch/Order say which order of accesses a reset and a
--   start need.
--   Control/Init is `hero_dev_init`.
-- - Driver/Probe, Driver/Devices, Driver/Load: what carfield_driver.c and occamy_driver.c share: finding
--   the regions in the device tree, the character devices, the device numbers and the class.
--   Carfield/Probe and Occamy/Probe are `card_platform_driver_probe` and `card_platform_driver_remove` of
--   each, on a record of what Linux holds for the driver; Carfield/Probe/Irq is the interrupt handler,
--   Carfield/Probe/History any sequence of probes and removals as a step relation, Carfield/Load and
--   Occamy/Load the loading of the module.
-- - Dtb: `bar_read_dtb` of sw/hero-pcie-dts-driver/hero_pcie_dts.c, over the calls of Linux as the
--   parameter `Pci`; Dtb/Bind is `hero_pci_probe` and `hero_pci_remove`.
-- - Hero64: apps/omp/common/hero_64.h, the loads and stores of the device at 64-bit addresses, the
--   assembly as its accesses and control registers.
-- - Matvec: apps/omp/basic/matvec/matvec.h for the Spatz cluster; Matvec/Dma is the engine, whose targets
--   hold anything until a transfer is waited for. Fdotp: apps/omp/kernels/fdotp.h, the scalar kernel,
--   the vector kernel and the kernel on pairs, over numbers as the parameter `Scalar`. Matvec/Main:
--   apps/omp/basic/matvec/main.c, which checks the device's product against the host's.
-- - Ir: the instructions of LLVM that the passes of toolchain/llvm-support name, and in Ir/Meaning what
--   they do; LLVM's types are the parameter `Types`, with its documentation as `IsLlvm`. Legalizer:
--   toolchain/llvm-support/OmpHostPointerLegalizer, its instructions, Legalizer/Constants its constants and
--   Legalizer/Module its run on a module; the functions that its code calls are those of Hero64. Wrapper:
--   toolchain/llvm-support/OmpKernelWrapper, for devices, and Wrapper/Sizes for hosts, where
--   the loop over the uses of a function has no result once it has erased a call. A block of
--   instructions runs in order; branches are among the instructions that the passes do not change.
-- - Timestamps: `hero_add_timestamp`, `hero_print_timestamp` and `sub_timespec` of hero_api.c.
--
-- Bounds and fuel: addresses and sizes are 64-bit, ring indices and offsets 32-bit, with the wrap-around
-- written out. A mailbox call ends with its schedule, and the theorems on it say which schedules are
-- long enough; a loop over rows or strips has as fuel its rounds, and the theorems on it say how many
-- are enough; a polling loop on a register has as fuel the number of its reads, and the theorems on it
-- take hardware that answers within that number. A call that would not return, or that faults, is
-- `none`.
--
-- Not modelled: logging, which only prints; the benchmark of offloads, which times and prints; and the
-- build. Processors see one another's stores in the order of the calls: fences and
-- caches are left out of the memory. A mapping by
-- `devm_ioremap_resource` and an allocation by `devm_kzalloc` are given back by Linux itself, and are not
-- among what Linux holds for the drivers.
pub mod Prelude
pub mod Ring
pub mod Mailbox
pub mod DevHeap
pub mod Driver
pub mod Carfield
pub mod Occamy
pub mod User
pub mod Bringup
pub mod Control
pub mod Dtb
pub mod Hero64
pub mod Timestamps
pub mod Matvec
pub mod Fdotp
pub mod Ir
pub mod Legalizer
pub mod Wrapper
