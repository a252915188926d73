-- ===== src/Lib.antt =====
-- leeos: a model of the kernel's core and what is proved of it.
--
-- The kernel runs one thread at a time on one i386 processor. A thread is a page with its pcb at
-- the bottom and its stack at the top; the lists of list.c link pcbs through tags inside them. The
-- clock interrupt and the blocking calls reach the scheduler, which takes the next thread from the
-- ready queue; semaphores and locks put threads to sleep and wake them through it; the character
-- queue stands on both, and the keyboard's handler writes to it. The page pools and the file system
-- allocate from the bitmaps of bitmap.c.
--
-- The files, and the source that they model:
--   Base          shared names: tests on numbers, words with their wrap-around, lists, memory, bits
--                 of bytes, and the monad of calls.
--   Interrupt     kernel/interrupt.c: the interrupt flag.
--   Segments      kernel/global.h, kernel/interrupt.c, userprog/tss.c: the descriptors of segments and
--                 interrupts, the tables that hold them and the handlers. Segments/Fields: the fields
--                 of a descriptor.
--   Lists         lib/kernel/list.c, list.h. Lists/Chain, Refine and Walks: the list as a sequence.
--                 Lists/Frame: what an operation on another list keeps. Lists/Cleared: memset beside a
--                 list. Lists/Deque: any series of calls.
--   Kernel        thread/thread.h, thread/sync.h, device/ioqueue.h: the shared state.
--   Paging        kernel/memory.c: the addresses of page table entries, and what they map.
--   Thread        thread/thread.c (schedule, thread_lock, thread_unlock, thread_yield), the handler of
--                 device/timer.c, and from userprog/process.c and userprog/tss.c the activation of an
--                 address space. Thread/Queue, Schedule, Wake and Sound: the ready queue.
--                 Thread/Turn: turns in the ready queue.
--   Creation      thread/thread.c: thread_init, thread_create, thread_start, make_main_thread and
--                 system_thread_init. Creation/Start: a new thread in both lists.
--   Sync          thread/sync.c, and allocate_next_pid of thread/thread.c. Sync/Locks, Nesting and Wakeup.
--   Process       userprog/process.c: process_execute and start_process. Process/Directory: a new page
--                 directory.
--   Timer         device/timer.c: sleeping, and frequency_set and timer_init as port writes. Timer/Rate:
--                 the 8253 that takes these writes. Timer/Sleep: sleeping.
--   Console       device/console.c: printing under a lock.
--   Ioqueue       device/ioqueue.c. Ioqueue/Fifo: the queue's contents. Ioqueue/Waking: the waiters.
--   Keyboard      device/keyboard.c. Keyboard/Shift: the modifiers.
--   Bitmap        lib/bitmap.c. Bitmap/Bits and Bitmap/Scan: setting and searching.
--   Pools         kernel/memory.c: pools of pages, pools of addresses, page tables. Pools/Setup:
--                 mem_pool_init. Pools/Runs, Pages and Addresses: allocation. Pools/Mapped: what a
--                 page table entry maps.
--   Heap          kernel/memory.c: sys_malloc, sys_free and their arenas. Heap/Blocks: the blocks of an
--                 arena. Heap/Descriptors: block_des_init. Heap/Recycle: a free block. Heap/Overrun:
--                 large areas. Heap/Pages: the pages of a process. Heap/Setup: mem_init.
--   Ide           device/ide.c, device/ide.h, kernel/io.h. Ide/Ports: the controller and the command
--                 block. Ide/Chunks, Transfer, RoundTrip and Timeout: reading and writing sectors.
--                 Ide/Identify and Ide/Partitions: what a disk says of itself. Ide/Setup: ide_init.
--   Strings       lib/string.c. Strings/Copies, Text and Searches.
--   Stdio         lib/stdio.c. Stdio/Digits: numbers. Stdio/Pieces and Rendered: formats.
--                 Stdio/Print: printf, and printk of lib/kernel/stdio-kernel.c.
--   Files         fs/fs.c, fs/inode.c, fs/file.c, fs/dir.c: Files/Layout, Slots, Path and Depth.
--                 Files/Inodes: the inodes and the bitmaps on the disk. Files/Space: the heap, the disks
--                 and the memory as the file system uses them. Files/Opened: open inodes. Files/Mounted:
--                 a mounted partition. Files/Directories: directories. Files/Format: partition_format.
--                 Files/Mount: mounting. Files/Lookup: search_file.
--   Syscalls      userprog/syscall-init.c, lib/user/syscall.h: the table of system calls.
--                 Syscalls/Traps, Dispatch: the wrappers of lib/user/syscall.c, and what they reach.
--   Tests         the theorems at concrete inputs.
--
-- Functions and fields have the source's names. A definition with another name is a loop or a
-- branch of the function that its comment or the next definition names.
--
-- State. A pointer is a number and 0 is null. A field of a structure is a function of the
-- structure's address. Kernel.Kernel holds the state that threads share; `current` is the running
-- thread, which the source reads from the stack pointer, and a switch of threads sets it. A call
-- that blocks takes the parameter `others`: what the other threads and the interrupts do until the
-- caller is switched to again. Pools.Memory holds the state of kernel/memory.c, with the words that
-- the page tables' addresses reach; Heap.Heap puts the two side by side, with the fields of arenas
-- and descriptors. Strings, formats, paths and the disk driver work on a memory of bytes.
-- Files.Space.Space puts the heap and the driver side by side: blocks of the heap are addresses of
-- the driver's memory, which its malloc clears as sys_malloc does, and the list element of an open
-- inode is one of the kernel's lists. ide_init and partition_scan run over the same Space, with
-- sys_malloc and ide_read as they are. A local array or variable whose address is passed on comes
-- as an address.
--
-- Hardware. Ide.Controller is what the processor does at the ports of the disk controllers, over a
-- state of their own; after a command it may raise its interrupt or not. Ide.Ports.IsAta is what
-- the driver relies on of it: the ATA commands READ SECTORS and WRITE SECTORS with a count of one
-- sector, with BSY and DRQ after a bounded number of polls and an interrupt when a sector is ready
-- to be read or has been written. A simulated controller in Tests.Simulator has these laws. A
-- command of more sectors has a handshake for each of them, where the driver makes one for all: no
-- theorem says what ide_read and ide_write then move, nor what inodes and formatting that ask for
-- it get. Timer.Rate.Pit is the 8253 behind the ports of the clock.
--
-- Calls. Base.Calls.Run is how a call ends: `ok` with a result, `halted` where an ASSERT fails (the
-- kernel then stops for good), `stuck` where a loop of the model has too little fuel, where the
-- caller waits for an interrupt that the controller does not raise, and where a part of a path runs
-- over the array of path_deepth_cnt. `Returns m P` says that the call returns, with a result that
-- has the property P.
--
-- Fuel. The walks over a list need more rounds than the list has elements, the loops over a string
-- or a path more than it has bytes, itoa as many as the number has binary digits; the theorems ask
-- for that much and no more. A disk transfer of one sector needs two rounds; swap_pairs_bytes more
-- than there are pairs. One fuel serves all calls of the file system. `rounds` bounds how often a
-- blocking loop looks again; the theorems on calls that do not block need one round.
--
-- Numbers. uint32_t arithmetic has its wrap-around written out; sums of a pointer and an offset
-- within one object do not wrap. `sizeof` and the offsets of fields are those of the i386 layout.
--
-- Not modelled: assembly (switch_to beyond its effect on `current`, the interrupt entries and
-- return, printing; the entry of a system call is the call that it makes), the order of the
-- initialisations and the demonstration threads of kernel/main.c, general_exception_handler, what
-- is printed of disks, partitions and formatting, and the names of threads, channels, disks and
-- partitions, and what stands on the stack behind the 16-byte array of path_deepth_cnt. The locks
-- of the pools in Pools and of a channel in Ide are left out there.
pub mod Base
pub mod Bitmap
pub mod Console
pub mod Creation
pub mod Files
pub mod Heap
pub mod Ide
pub mod Interrupt
pub mod Ioqueue
pub mod Kernel
pub mod Keyboard
pub mod Lists
pub mod Paging
pub mod Pools
pub mod Process
pub mod Segments
pub mod Stdio
pub mod Strings
pub mod Sync
pub mod Syscalls
pub mod Tests
pub mod Thread
pub mod Timer
