-- ===== src/Lib.antt =====
-- The core of the Linux 0.11 kernel, as functions on explicit state.
--
-- The parts and how they interact. A task calls the kernel through a system call; the call changes
-- the task, the table of tasks, memory, or the state of a file system or a driver, and it may give
-- up the processor. `schedule` (kernel/sched.c) chooses who runs. A call that waits puts its task
-- on a wait queue (`sleep_on`) and another wakes it (`wake_up`). Signals are bits of a task, which
-- `kill` and others set, which `schedule` looks at and which `do_signal` delivers. Files stand on
-- inodes and on the buffer cache (fs/buffer.c), which asks the block layer (kernel/blk_drv) for
-- what it lacks. Pages of memory are counted, shared and copied by mm/memory.c.
--
-- The files:
--   Prelude         names that all share: Boolean tests and lists over native numbers, signed
--                   numbers, arrays and bit masks as functions, and `Outcome` for a panic or the
--                   end of the task.
--   Kernel.Task     include/linux/sched.h, include/signal.h: the task structure and the table.
--   Kernel.Sched    kernel/sched.c: `schedule`. Search and Schedule prove what it chooses, and Checked what
--                   it does about alarms and signals.
--   Kernel.Sleep    kernel/sched.c: `sleep_on`, `interruptible_sleep_on`, `wake_up`; Chain follows
--                   several sleepers on one queue.
--   Kernel.Timer    kernel/sched.c: `add_timer` and the timers of `do_timer`; Expiry turns the list
--                   of deltas into the times at which they are due.
--   Kernel.Sys      kernel/sys.c and the small calls of kernel/sched.c; Ids is about their rules.
--   Kernel.Mktime   kernel/mktime.c; Calendar counts the days one by one.
--   Kernel.Signal   kernel/signal.c; Handlers proves what a delivery leaves.
--   Kernel.Kill     kernel/exit.c: `release`, `send_sig`, `sys_kill`, `kill_session`, `tell_father`.
--   Kernel.Exit     kernel/exit.c: `do_exit`; Descriptors, Orphans and Leave are about what it leaves.
--   Kernel.Wait     kernel/exit.c: `sys_waitpid`; Children and Outcome prove what a pass over the tasks comes to.
--   Kernel.Fork     kernel/fork.c: `find_empty_process`, `verify_area`, `copy_mem`; Copy has
--                   `copy_process`. Fresh is about the search for a process id, Inherit about what the
--                   new process has.
--   Kernel.Format   kernel/vsprintf.c: `number` and `skip_atoi`; Directive has `vsprintf`. Digits and Ends
--                   hold the proofs.
--   Kernel.Tick     kernel/sched.c: `do_timer` and the floppy motors.
--   Mm              mm/memory.c: pages. Mm.Tables has `free_page_tables`, `copy_page_tables` and
--                   `put_page`, Mm.Faults the page faults; Alloc, Copy, Translate and Unshare hold
--                   the proofs.
--   Block           kernel/blk_drv/ll_rw_blk.c and blk.h. Queue is the elevator on requests, Requests
--                   the slots, `make_request`, `end_request`; Elevator, Requests.Slots and Requests.Calls
--                   the proofs.
--   Chr.Queue       include/linux/tty.h: the byte queues; Ring reads them as lists.
--   Chr.Tty         kernel/chr_drv/tty_io.c: `copy_to_cooked`; Chr.Tty.Io has `tty_read` and
--                   `tty_write`. Editing, Cooked, Lines, Io.Output and Io.Input hold the proofs.
--   Chr.Console     kernel/chr_drv/console.c: the screen; Write has the escape sequences, `con_write` and
--                   `con_init`. Window says what a screen in order is; Scroll, Edit, Machine and
--                   Sequences prove that it stays so.
--   Fs.Pipe         fs/pipe.c: `read_pipe`, `write_pipe`; Window and Fifo read the page as a list.
--   Fs.Descriptors  fs/fcntl.c and `sys_close` of fs/open.c; Count is about `f_count`.
--   Fs.Buffers      fs/buffer.c: `getblk` and `brelse`; Choice, Unique and Result hold the proofs.
--   Fs.Bitmap       fs/bitmap.c: `new_block` and `free_block`; Inodes has `new_inode` and `free_inode`,
--                   Lowest and Blocks hold the proofs.
--   Fs.Store        the state of the calls on inodes: tables, contents and users of blocks; Words and
--                   Layout are struct d_inode of include/linux/fs.h, byte by byte.
--   Fs.Truncate     fs/truncate.c.
--   Fs.Inode        fs/inode.c; Bmap has `_bmap`. Blocks proves what it gives, Disk that an inode comes
--                   back from the disk.
--   Fs.Names        fs/namei.c: directories; Walk has `get_dir`, `dir_namei` and `namei`, Open
--                   `open_namei`, Make and Remove the calls on entries. Lookup, Paths and Holes prove.
--   Fs.Contents     fs/file_dev.c, fs/block_dev.c, and `sys_lseek` of fs/read_write.c; Reading reads a file
--                   as a list of bytes.
--   Fs.Mounts       fs/super.c; Table has `sys_mount`, `sys_umount` and `mount_root`. Load, Fresh, Fill, Device
--                   and Read follow `read_super` block by block.
--   Malloc          lib/malloc.c: `malloc` and `free_s`; Objects and Fits prove where objects
--                   lie.
--   The modules named Tests hold concrete inputs.
--
-- How state is kept. A task is known by its slot, a buffer or a file by its number, and a null pointer
-- is `none`. Arrays are functions of the index. Linked chains are lists. What happens while a call
-- sleeps is an argument: a list with one function on the state for each time that it sleeps; a call
-- that sleeps at the end of the list says so in its result. `panic` and the end of the current task
-- are results too. Machine words keep their wrap-around where the code can reach it.
--
-- Fuel. `search_loop` of the scheduler has fuel 2: tasks that are recharged once have a positive
-- counter if their priorities are, and Sched.Search proves that this is enough. The search for a
-- process id has fuel 65, one more than there are tasks (Kernel.Fork.Fresh). `search_from`
-- looks at one entry at least in each turn, and has a turn more than entries (Fs.Names.Lookup proves it
-- enough); `walk` takes a byte off the path; `iput` and `clean_inode` come back once, when the inode
-- is written; `iget` crosses at most as many mounts as there are super blocks. The loops of the
-- pipes, of `kill_line`, `cook_all`, `fill` and `take_bytes` have as much fuel as there are bytes, or
-- places in the queue, since each turn takes or puts at least one (in `kill_line` and `cook_all`, where
-- the driver answers nothing); so has the loop of `vsprintf`, for the
-- bytes of the format (Kernel.Format.Ends), and the loops of `file_read` and `file_write` for the bytes
-- that are asked for (Fs.Contents.Reading). The loops over tables run over their fixed sizes.
--
-- What is not modelled: the boot code, assembly entry points and switches of context, hardware
-- registers and interrupt masking; `printk`; the loading of programs; the disk drivers, the serial
-- lines and the modes of terminals; reading ahead and the writing back of the buffer cache. Where
-- modelled code calls them they are arguments: the loading of a page into memory
-- (Mm.Faults.do_no_page), a terminal's driver (Chr.Tty.Driver), and the test for another floppy disk
-- (Fs.Mounts.read_super). A driver's `write` is a function on the whole terminal and the tasks, since the
-- console may answer to ESC Z: `respond` puts bytes into the read queue and calls `copy_to_cooked` again.
-- The theorems on line editing assume a driver that answers nothing (Chr.Tty.Editing.IsQuiet). `do_exit`
-- stops at its call of `schedule`. The calls on inodes and names run alone: what others do while they
-- sleep for the disk is left out, and a lock that another holds ends the run (Fs.Store.Run).
pub mod Prelude
pub mod Kernel
pub mod Mm
pub mod Block
pub mod Fs
pub mod Chr
pub mod Malloc
