-- ===== src/Lib.antt =====
-- The Omega OS kernel: a UEFI x86_64 kernel in C, under kernel/. It boots from gnu-efi/bootloader,
-- which hands it the memory map and the framebuffer. The physical memory manager gives out frames;
-- the virtual memory manager builds page tables from them; the heap takes its pages from there. The
-- timer interrupt calls the scheduler, which keeps the processes in one queue for each priority. The
-- file system calls go through the virtual file system to the ext2 driver.
--
-- What each file models:
--   Pmm (kernel/src/mem/pmm.c, kernel/include/common.h, kernel/include/bootinfo.h): the frame bitmap
--     by word and bit, and the file's static variables. pmm_getFrames, pmm_releaseFrames,
--     pmm_reserveRegion, pmm_unreserveRegion, pmm_getMemorySize and pmm_init carry their names in
--     this language's spelling; the loops of getFrames are scan_words, scan_bits and scan_bit.
--   Vmm (kernel/src/mem/vmm.c, kernel/include/mem/vmm.h): the page tables by address and index, with
--     the raw value of each entry, over a Pmm. The three steps of vmm_mapPage down the tables are
--     one function, descend, with the number of levels, and those of virt2phys and vmm_unmapPage are
--     walk. Vmm.Paged is the invariant of the tables; Vmm.Fault is the page-fault handler and Vmm.Boot
--     is vmm_init.
--   Queue (kernel/src/misc/queue.c): the linked queue, with the nodes in a memory by address.
--     Queue.Chain is the invariant of the links.
--   Scheduler (kernel/src/sys/scheduler.c): over the interface Scheduler.Fifo of a first-in
--     first-out queue, which Scheduler.Linked fills with the linked queue.
--   LinkedList (kernel/src/misc/list.c): the doubly linked list, over a memory by address.
--     LinkedList.Links is the invariant of the links.
--   Strings (kernel/src/libc/string.c, kernel/include/libc/string.h): the memory and string functions
--     over a memory by byte.
--   Path (normalizePath of kernel/src/fs/vfs.c): on strings as lists of bytes. Path.Resolve says what
--     a path stands for without the list of components that the code keeps: read from its end.
--   Vfs (the rest of kernel/src/fs/vfs.c): opening, creating, reading and writing, over the drivers'
--     handlers as parameters.
--   Sysfile (kernel/src/fs/sysfile.c, and the table of open files in kernel/src/sys/process.c): the
--     file system calls of the current process, with its id, which lies behind the buffer of the
--     working directory. A driver may change the node it reads or writes.
--   Heap (kernel/src/mem/heap.c): the chunks by address, with the two kinds of links and the mark of
--     each, and the slots of the free chunks.
--   Keyboard (ps2_kbd_getc of kernel/src/dev/ps2/kbd.c, kernel/include/dev/ps2/translator.h): the
--     state machine of the modifier keys, and stdinRead of kernel/src/fs/std.c.
--   Screen (kernel/src/gui/screen.c, and stdoutWrite of kernel/src/fs/std.c): the console, over the
--     framebuffer's bytes.
--   Ide (kernel/src/dev/storage/ide.c): reading and writing sectors, over a device that is a
--     parameter.
--   Ext2 (kernel/src/fs/ext2.c): the block and inode functions over the disk. Inodes and group
--     descriptors are the bytes that the disk has of them, with an accessor for each field that the
--     code uses. Ext2.Blocks goes from the blocks of a file to those of the disk, Ext2.Allocate has
--     the bitmaps, Ext2.Files reads files and Ext2.Write writes them, Ext2.Directories looks names up,
--     and Ext2.Directories.Change inserts and deletes entries.
--   Base: shared names, tests on numbers, machine words, and Base.Run, the outcomes of kernel code:
--     a value and the new state, a panic, a fault, a deadlock, or a loop that was given too little
--     fuel.
--
-- Machine words wrap around at 2 ^ 64 where the code computes with them. Memory that kmalloc returns
-- is an argument. Fuel: getFrames calls itself at most once, so that two rounds are enough; the loop
-- of queue_remove needs a round for each node and one for the end; a string function needs one for
-- each byte and one for the null byte; memory_chunk_slot halves a size of 64 bits 64 times at most;
-- list_find and list_destroy need one for each node and one for the end.
--
-- Not modelled: logging, the context switch, the writes to control registers and the flushes of the
-- translation buffer, which are assembly; the drivers of the disk, the interrupt controllers and the
-- serial port, which are port input and output; the vendored gnu-efi and printf; the user programs.
-- That the frame bitmap and the page tables lie in the memory that they describe is left out: both
-- are state of their own. Two processors are not interleaved, a lock that is held is a deadlock.
-- The trees, the creation of processes, creating and deleting inodes in ext2, the timer and the
-- set-up of the keyboard's controller are left out.
pub mod Base
pub mod Pmm
pub mod Queue
pub mod Scheduler
pub mod Vmm
pub mod Strings
pub mod Path
pub mod Vfs
pub mod Sysfile
pub mod LinkedList
pub mod Screen
pub mod Ide
pub mod Ext2
pub mod Heap
pub mod Keyboard
