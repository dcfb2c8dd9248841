-- ===== src/Lib.antt =====
-- OGOS is a kernel for 32-bit x86 machines, written in C. This library models its parts as functions
-- on explicit state and proves what they do.
--
-- Prelude: lists, words, integers and bits that the other modules share.
-- Libc (kernel/src/libc): Libc/Ctype is ctype.c, on integers; Libc/Memory is string.c, on a memory from
--   addresses to bytes; Libc/Stdlib is `atoi` and `itoa` of stdlib.c;
--   Libc/Stdio is `printf`, `puts` and `gets` of stdio.c, on lists of characters. `printf` takes one step
--   of its loop for each character of the format and one more.
-- Mem (kernel/src/mem): Mem/Frames is the bitmap of physical frames with `alloc_frame` and `free_frame`
--   of paging.c; Mem/Paging is its page tables and directories, which stand in stores by their addresses,
--   and which take their memory from Mem/Kmalloc; Mem/OrderedArray is ordered_array.c, which indexes the
--   holes of the heap. Mem/Heap, Mem/Kalloc, Mem/Freeh and Mem/Kmalloc are kheap.c: the heap is a memory of
--   bytes in which blocks and holes with headers and footers lie one behind the other (Mem/Heap/Tiles).
-- Sys (kernel/src/sys): tasks are records in a store from addresses to tasks, and the ready list is
--   the chain of their `next` pointers from `ready_queue` on (Sys/State, Sys/Chain). Sys/Task switches
--   and preempts, Sys/Kill ends tasks, Sys/Create starts them (task.c); Sys/Schedule chooses
--   the next one and arranges the list (schedule.c). The timer's interrupt calls `schedule`, which calls
--   `switch_task`; `start_task` and `fork_task` call `preempt_task`, which may switch at once.
-- Cpu (kernel/src/cpu): Cpu/Gdt is gdt.c, Cpu/Idt is idt.c and the entries of `init_irq`, Cpu/Irq is
--   irq.c, Cpu/Isr is isr.c with the system calls of kernel/src/sys/syscall.c.
-- Fs (kernel/src/fs): Fs/Tar is tar.c, Fs/Vfs is vfs.c, Fs/Initrd is initrd.c. The ramdisk makes its nodes
--   from the files that the parser finds, and the virtual file system calls its functions.
-- Devices (kernel/src/devices): Devices/Keyboard is keyboard.c, Devices/Timer is timer.c; they share `in_size`.
--   tty.c has three files: Devices/Tty is the screen, Devices/Ansi the sequences that start with an escape,
--   Devices/Console the characters that are typed, which both serve.
-- Time (kernel/src/misc/time.c, kernel/include/kernel/time.h): dates, the clock's interrupt and its chip.
--
-- The functions of the source keep their names in lower case with underscores. Words are natural
-- numbers, with their wrap-around written out. An access through the null pointer, which C leaves
-- open, is an outcome of its own (`fault`), as are failed assertions and accesses outside an array.
-- Loops along pointers and strings run on fuel; every theorem that gives a result needs only as
-- much as the list or the string is long, and says so; the numbers that `printf` prints have 40 steps for
-- the loops of `itoa`, where an `int` has at most 32 digits. The bitmap holds at most 2^20 frames, which is
-- all that an address reaches; dates go up to the year 3431, where the code's formula for the year ends.
--
-- Parameters stand for what is not C code of the repository: reads of ports, what a registered
-- handler does, the stubs of assembly code, and the addresses that `kmalloc` returns.
--
-- Not modelled: `initialise_paging`, `virtual_map_pages` and the handler of page faults (paging.c), `putchar` and
-- `getch` (kernel/src/libc/stdio.c), the shell, the serial ports, the detection of the
-- processor, the start of the kernel, assembly code other than the copy of a page, and the toolchain.
pub mod Prelude
pub mod Libc
pub mod Mem
pub mod Sys
pub mod Cpu
pub mod Fs
pub mod Devices
pub mod Time
