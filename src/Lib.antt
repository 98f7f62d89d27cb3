-- ===== src/Lib.antt =====
-- Verification of the core of the CreeperOS kernel (kernel/src): memory management, page
-- tables, the heap, the scheduler, the virtual file system, timers, the keyboard and block memory operations. The C
-- code is translated to functions; the theorems are about the functions.
--
-- The program. CreeperOS is a single-processor x86-64 kernel. The page allocator (memory/pmm.c) hands
-- out physical pages; the virtual address allocator (arch/x86_64/mm/vmm.c) hands out kernel addresses
-- that the page tables then map to those pages; the heap (memory/memory.c) builds on both; the file
-- system (vfs/) keeps its dentries and inodes on the heap; timers (timer/timers.c), devices, the
-- scheduler and the system calls use all of these.
--
-- The files.
-- Prelude: names of the libraries, Boolean tests, lists over native numbers, machine words.
-- Outcome: a result, or `panic`. Code that panics does not come back.
-- Bitmap: bitmap_set, bitmap_clear and bitmap_test of memory/pmm.c over a map from indices to bytes.
-- Pmm: memory/pmm.c. The record Pmm (Pmm/Search.antt) holds the file's static variables; an entry
--   point takes the record and returns it with the address. The spin lock makes an entry point one
--   step, so the lock is not in the model. Pmm/Init.antt is pmm_init over the boot loader's memory
--   map, a list of entries; Pmm/Search.antt has the two searches. Pmm/Invariant.antt has the
--   invariant, Pmm/History.antt sequences of calls by several holders. The bytes of the bit map, which
--   the source keeps in the higher half map, are a field of Pmm: the memory that pmm_alloc_zeroed and
--   pmm_alloc_pages_zeroed take is the rest of that map, and Pmm/Zeroed.antt puts the two together.
-- Memops: memops.c over a memory that is a function from addresses to bytes.
-- Vma: the kvma_ functions of arch/x86_64/mm/vmm.c. The linked free list is a list of regions in the
--   order of the next pointers; a pool of 512 nodes bounds its length.
-- Vfs: vfs/vfs.c, the directory operations of vfs/ramfile.c, and the path functions of vfs/fs.c.
--   Vfs/Store.antt is the store of dentries and inodes by address, with the number of allocations that
--   the heap still grants; a command maps a store to a result and a store, or faults. Vfs/Nodes.antt is
--   vfs.c, Vfs/Ram.antt is ramfile.c with the calls through i_op, Vfs/Paths.antt,
--   Vfs/Force.antt and Vfs/Reverse.antt are fs.c, Vfs/ForceSteps.antt says, without the helpers of
--   Vfs/Force.antt, what each name of a path does, and
--   Vfs/Text.antt the string functions that these call, on texts without the NUL.
-- Scheduler: arch/x86_64/scheduler/scheduler.c and the inline functions of scheduler.h. The record
--   Scheduler holds the static variables, the blocks of threads and processes by address, and the parts
--   that the scheduler calls: the page tables with the page allocator, and the free addresses.
--   Scheduler/Tids.antt and Scheduler/Table.antt have the identifiers, Scheduler/Pick.antt the search
--   for the next thread, Scheduler/Switch.antt the switch, Scheduler/Exit.antt exits and reaping.
-- Paging: the page tables of arch/x86_64/mm/vmm.c. A table is named by its frame; Paging/Tree.antt says
--   what it is for the tables to be a tree. Paging/Lookup.antt has translation and removal,
--   Paging/User.antt the search for a free range, Paging/Hhdm.antt the tables at the start. The
--   higher half map, through which the code reads a table, and the processor's buffer of translations
--   are not in the model.
-- Timers: timer/timers.c. The record Timers holds the static variables; the calls of the devices'
--   functions and of the scheduler are recorded in a list.
-- Ids: the identifier maps of defines/helpers.c and helpers.h, with the maps of Bitmap.
-- Ramfile: ramfile_read, ramfile_write and ramfile_lseek of vfs/ramfile.c over the memory of Memops. The
--   heap's krealloc_impl is a parameter: the theorems do not depend on what it does.
-- Keyboard: drivers/PS-2/kbd/ps2-kbd.c. What the ports give is an argument. Keyboard/Keymaps.antt has
--   the tables of characters, Keyboard/Queue.antt the queue that the buffer stands for.
-- Heap: memory/memory.c. Heap.antt has kmalloc_impl and kfree_impl under the lock, Heap/Regions.antt the
--   table of free regions, Heap/Force.antt the pages that join it, Heap/Locks.antt the entry points with
--   the lock, Heap/Init.antt the seed pages. The memory of the blocks is a function from the number of a
--   word to its value; Heap/Blocks.antt says what is kept about the blocks in use, each with the size
--   that was asked for, and Heap/History.antt has sequences of calls and of writes by the holders.
-- Devices: block/blkdev.c and input/input.c. A doubly linked list is the functions `next` and `prev`;
--   Devices/Chain.antt says what it is for them to hold a sequence of devices.
-- Initrd: the reading of the tar archive in initrd_parse/initrd.c, over the memory of Memops.
--
-- Bounds and fuel. A size_t or uintptr_t is a native number, and what wraps in the source is reduced
-- modulo 2 ^ 64. Loops over a range are recursion on the number of rounds left. The walk along a path
-- has fuel: one round more than the path has characters, and each round uses up one character. The path
-- of a dentry has fuel: one round more than the dentry has parents. The choice of the next thread has
-- two rounds for each listed thread and two more, and reaping one round more than there are threads. The
-- search for a block device has one round more than there are devices. The
-- count of the files of the initial ramdisk has one round more than there are files. The
-- search for a free range needs a round for each page up to the end of the addresses.
--
-- Not modelled: force_alloc of the heap, which nothing calls, devfs and sysfs, the files that the
-- initial ramdisk turns into, executables and
-- fork, the start of threads and processes, the system calls, and partitions.
-- Not modelled because they only drive hardware or write output: the interrupt controllers, PCI and AHCI,
-- the processor's tables, clocks, logging and panics. Not modelled because they come from elsewhere: the
-- terminal (kernel/src/Flanterm) and the ported C library (sysroot, toolchain).
pub mod Prelude
pub mod Outcome
pub mod Bitmap
pub mod Memops
pub mod Pmm
pub mod Vma
pub mod Vfs
pub mod Devices
pub mod Heap
pub mod Ids
pub mod Initrd
pub mod Keyboard
pub mod Paging
pub mod Ramfile
pub mod Scheduler
pub mod Timers
