-- ===== src/Lib.antt =====
-- RDIX, a kernel for 32-bit x86: the parts of its C code that carry logic of their own, and theorems
-- on what they do.
--
-- The parts, and the files that model them. A function has the name that it has in the C code.
--   Bitmap       kernel/bitmap.c, include/common/bitmap.h: the bits of pages and disk blocks.
--   CharQueue    kernel/queue.c: the ring between the keyboard's interrupt and its readers, and the
--                bounded queue that it stands for (CharQueue/Fifo).
--   LinkedList   kernel/list.c: the rings of nodes, on a heap with explicit pointers.
--   Format       kernel/vsprintf.c: number (Format) and vsprintf (Format/Template).
--   Text         kernel/string.c, and the texts of paths of fs/minix1/namei.c.
--   Tasks        kernel/task.c, kernel/mutex.c, kernel/clock.c: the scheduler, the tick and the locks
--                (Tasks/Sched), how tasks come and go (Tasks/Lifecycle), who runs when (Tasks/Turns).
--   Keyboard     kernel/keyboard.c: the interrupt handler. It writes to a CharQueue and wakes a task.
--   Clock        kernel/time.c, bcd2bin of kernel/stdlib.c: dates as seconds.
--   Blocks       fs/minix1/bmap.c: the maps of blocks and inodes, tables of Bitmap.
--   Buffers      fs/buffer.c: the cache of disk blocks, over a disk that is a function.
--   Devices      kernel/device.c: the table of devices, and the order of a disk's requests.
--   Fs           fs/minix1: the table of inodes (Fs), bmap and inode_truncate (Fs/Zones), directories
--                (Fs/Entries), paths (Fs/Paths), the calls on names (Fs/Calls, Fs/Names), the open
--                files of a task (Fs/Open), their bytes (Fs/Files), super blocks (Fs/Supers). It stands
--                on Blocks and Text.
--   Shell        buildin/buildin_shell.c: the line editor, the arguments and the choice of a command.
--   Pci          kernel/pci.c: the scan of the buses and the search by class.
--   Xhci         hd/usb3.0/ringProc.c: the rings of requests to the USB controller.
--   Console      kernel/console.c: cursor, scrolling and characters (Console, Console/Scrolling), colour
--                sequences (Console/Colors) and texts (Console/Strings).
--   Pages        kernel/memory.c: the counts of physical pages (Pages, Pages/Counts), page tables and
--                faults (Pages/Tables, Pages/Faults), fork (Pages/Fork, Pages/Shares), the kernel's
--                pages (Pages/Kernel, tables of Bitmap).
--   Heap         kernel/malloc.c: the buckets of malloc and free_s, in pages of Pages/Kernel.
--   Common       lists with native indices, machine words, integers, and Outcome.
--
-- State is passed on explicitly: an operation takes the state and returns the one that it leaves.
-- Outcome says what a run comes to: `ok`, `panic` (an assertion or PANIC, or memory that is not there),
-- or `out_of_fuel` (a loop that still runs when its rounds are used up). u8, u16 and u32 keep their
-- wrap-around; EOF and NULL are `none`. Interrupts are off in each operation of Tasks, so that it is
-- one step; a lock is taken when the call returns or when the task that waited runs again.
--
-- LinkedList is the one part with pointers: each theorem says what sequence of nodes a ring holds
-- before and after. Tasks stands on those sequences, with a task's pid for its node.
--
-- Bounds and fuel. bitmap_scan has one round for each bit and one more, since each round either ends
-- or moves on by a bit. vsprintf has one round more than the format has bytes, and each round takes a
-- byte at least; `digits` has 36 rounds, the size of its buffer, behind which the code would overrun
-- it. filename and _namei have as many rounds as the path has bytes, since each takes one at least.
-- inode_read and inode_write have one round more than the bytes asked for. search_node and list_insert take their fuel as an argument, since
-- search_node need not end; so do console_put_string, whose loop over colour sequences need not end,
-- and sys_brk, with a round for each page.
--
-- Not modelled: the dirty flags that the file system sets and the users that it has of a buffer, the
-- times of an inode, the registers that a switch of tasks saves, and a write behind the end of an
-- array that is a list here, which is lost. The drivers, the tables of descriptors and the boot code
-- have no model: they read and write registers. device_request has no model: Buffers takes a request
-- as served at once. A read behind the end of an array is a `panic`, and so is one at address 0.
pub mod Common
pub mod Bitmap
pub mod CharQueue
pub mod LinkedList
pub mod Format
pub mod Fs
pub mod Shell
pub mod Xhci
pub mod Pci
pub mod Pages
pub mod Heap
pub mod Tasks
pub mod Keyboard
pub mod Clock
pub mod Text
pub mod Blocks
pub mod Devices
pub mod Buffers
pub mod Console
