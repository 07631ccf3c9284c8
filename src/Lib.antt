-- ===== src/Lib.antt =====
-- Verification of muse, a small operating system for 32-bit x86 (i386).
--
-- The kernel (common/ and kernel/ under src/) keeps physical pages in bitmaps, maps them through
-- two-level page tables, runs contexts from a ready queue with time slices and a list of
-- sleepers, guards shared state by locks, and passes the keyboard's characters to a terminal
-- buffer that programs read. The C library (libc/) is linked into programs. Each part is a module
-- of this library, and its state is a record or a data type with the names of the source:
--   Base      numbers, lists, machine words, bits and byte memory that all parts share
--   Frames    src/common/memory.c: kpage_alloc and kpage_set_status over regions with bitmaps
--   Paging    src/common/paging.c: paging entries, the loopback mapping, map_page, unmap_page and
--             get_page_mapping; frames for new tables come from Frames
--   Term      src/kernel/term.c: the line buffer of the terminal, and reading from it
--   Sync      src/common/sync.c: the three locks, one definition for each atomic step
--   Keyboard  src/kernel/keyboard.c: scan codes and shift; its characters go to Term
--   Cstring   libc/lib/string.c
--   Sched     src/common/scheduler.c, src/common/context.c, src/kernel/sleep.c and
--             handle_timer_inner of src/kernel/hpet.c
--   User      src/kernel/userspace.c and src/kernel/syscall.c: pointer checks against Paging, file
--             calls and sbrk
--   Vfs       src/common/vfs.c: mount points and the walk of a path
--   Elf       src/common/elf.c: the pages of a program, and its loading
--   Malloc    libc/lib/heap.c
--   Kheap     src/common/alloc.c: the kernel's heap, with the chunks of Malloc and the pages of Paging
--   Directories  the end of src/common/paging.c and scroll_unmap of src/common/scroll.c: page
--             directories, with pages from Kheap
--   Disk      what drivers and file systems share: a device with its bytes and the transfers that
--             it refuses, and operations that change it and may fail
--   Ext2      src/common/ext2.c over Disk: descriptors and inodes, allocation, the blocks of a file
--             (Ext2.Data), directories (Ext2.Directory), and the tree of nodes (Ext2.Scan)
--   Gpt       src/common/gpt.c over Disk
--   Ata       src/common/ata.c, with the port instructions as parameters
--   Text      src/common/text.c: the console's cursor, numbers and formats
--   Scrolls   insert_scroll of src/common/scroll.c, over a store of nodes
--   Acpi      src/common/acpi.c but reinit_acpi, over byte memory
--   Pci       src/common/pci.c, with the configuration space and the handlers as parameters
--   Vga       src/common/vga.c, and psf_put_char of src/common/psf.c
--   Stdio     libc/lib/stdio.c: streams, with system calls and malloc as parameters
--
-- Conventions. Numbers are natural numbers; a machine integer keeps its wrap-around (u32, sub32 and
-- the like). Memory is a function from addresses. A global is a field of the state, and an
-- operation returns the new state. A halt of the kernel, and a loop without enough fuel, is `none`.
-- A loop over `n` elements recurses on what is left; the loops of strings and of sleep_tick take
-- fuel, and more fuel than the length of the string or list is shown to be enough. find_free has
-- one round for each page of a region and one more; find_line has one for each of the 8 lines, and
-- copy_lines one more; check_pages has one round for each page of the buffer and one more.
-- Interleavings are sequences of steps of a step relation; a loop that spins is a step that may
-- be tried again.
--
-- ext2_transfer has one round for each block it may touch, and entries one for each byte of what it
-- reads; the loops over ports and over text take fuel in the same way, scan_pci_bus one round
-- for each level of bridges, and insert_scroll one for each scroll it visits. A transfer that a
-- device refuses leaves it as it was. A division by 0, at which the processor faults, is not modelled as
-- such: sizes that the source divides by are taken to be other than 0.
--
-- Not modelled: port and register I/O of the interrupt controllers, PS/2 and the HPET, reinit_acpi,
-- psf_logo, logging, init_io and uninit_io, assembly (except context_switch's effect
-- on active_ctx), and start-up. The TLB is taken to be coherent. vfs_open and the functions of an
-- inode are arguments of the calls that use them.
pub mod Base
pub mod Frames
pub mod Paging
pub mod Term
pub mod Sync
pub mod Keyboard
pub mod Cstring
pub mod Sched
pub mod Vfs
pub mod User
pub mod Vga
pub mod Disk
pub mod Ext2
pub mod Gpt
pub mod Ata
pub mod Text
pub mod Stdio
pub mod Scrolls
pub mod Elf
pub mod Malloc
pub mod Kheap
pub mod Directories
pub mod Acpi
pub mod Pci
