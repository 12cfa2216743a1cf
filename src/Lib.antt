-- ===== src/Lib.antt =====
-- BlackHole OS: a verification library of the kernel's C code.
--
-- BlackHole OS is a 32-bit x86 kernel: a boot loader enters `kernel_main` (kernel/kernel.c), which
-- sets up the descriptor tables, paging, the interrupt table, the drivers and the heap, and then
-- runs a shell. The parts share state through static variables and through memory, and the hardware
-- calls back by interrupts. The library models the parts below as functions on explicit states. A
-- static variable is a field of its part's record, an instruction that the hardware sees is a field
-- too (a control register, a port write), and an interrupt is an element of a list that the model
-- consumes.
--
-- The parts and their files:
--
--   Prelude         shared names and lemmas: tests, lists as arrays, masks as arithmetic (Bits)
--   Kernel.Memory   kernel/memory.c: the heap at 0x100000. `memory_init`, `memory_alloc`,
--                   `memory_free` on a memory of words; Blocks is the list of blocks that a memory
--                   holds, FirstFit, Release and Tidy the abstract operations, AllocCall and
--                   FreeCall the calls, History any sequence of calls and writes
--   Kernel.Paging   kernel/paging.c: `paging_init` writes the directory and the table in the same
--                   memory; Translation has the page walk of the processor
--   Kernel.Gdt      kernel/gdt.c, kernel/gdt.h: `gdt_set_gate`, `write_tss`, `gdt_init`;
--                   Descriptors has the processor's reading of an entry
--   Kernel.Ports    `outb` of kernel/idt.h: the port writes, as a list
--   Kernel.Idt      kernel/idt.c: `idt_set_gate`, `pic_remap`, `idt_init`; Gates has the dispatch of
--                   a vector, Pic the two interrupt controllers
--   Kernel.Task     kernel/task.c: the tasks in the same memory, `tasking_init`, `task_switch`,
--                   `create_kernel_thread`; Circle has the circular list, Create its growth over the
--                   allocator, Switch the rotation
--   Kernel.Isr      kernel/isr.c: the handlers of IRQ0, IRQ1, the page fault and the system call
--   Kernel.Boot     kernel/kernel.c: `kernel_main` up to `switch_to_user_mode`, on a machine with the
--                   state of every part, where `fat16_init` reads its sector over the ports; Tables is
--                   about the page tables while the heap is written, Heap about the heap, State has what
--                   is said of the machine, Order what holds in the end
--   Drivers.Vga     drivers/vga.c: the text buffer, the cursor and the colour; Cells reads a cell of
--                   the buffer
--   Drivers.Keyboard  drivers/keyboard.c: the scancode tables, the ring of 256 bytes, the handler
--                   of the interrupt, `keyboard_read` and `keyboard_readline`, whose echo goes to
--                   Drivers.Vga; Ring has the queue, Session any order of interrupts and reads, Read
--                   the wait for a key, Readline the line editor
--   Drivers.Timer   drivers/timer.c: `timer_init`, the tick counter and `sleep`
--   Drivers.Ata     drivers/ata.c: the polling loops, `ata_init`, `ata_read_sector`,
--                   `ata_write_sector`, over a record of port operations; Device has what the code
--                   relies on of a drive, Disk the disk that the two transfers provide, Polling, Setup,
--                   Words, Transfer and Start the proofs, Sample a drive in memory
--   Fs.Fat16        fs/fat16.c: Volume has the layout and the allocation table, Names the 11 bytes of
--                   a name, Root the root directory and `fat16_list_root`, Files `fat16_read_file`,
--                   `fat16_write_file` and `fat16_delete_file`. ShortName is the 8.3 form of a name.
--                   Of the proofs, Sectors and Table are about the table, Chain, Freeing and Deleting about deleting, Pouring and Reading
--                   about reading, Regions, Writing, Filling, Contents, Storing and Space about the
--                   clusters of a file that is written, Entries, Slots and Entering about its
--                   directory entry, and RoundTrip puts them together
--   Libc.Strings    libc/string.c: every function, on bytes
--   Libc.Stdio      libc/stdio.c: `putchar`, `puts` and `printf` over a list of arguments, with the
--                   output on the screen of Drivers.Vga; Promises has the text of a conversion, Printf
--                   the text of a format
--   Shell           shell/shell.c: Texts has the strings, Commands the tests that tell a line's
--                   command, Shell the commands and a round of the loop; Session is about `write` and
--                   then `cat`
--
-- How they interact: `kernel_main` calls the initializations one after the other. IRQ0 runs
-- `timer_callback` and IRQ1 `keyboard_handle_scancode` while `sleep` and `keyboard_read` wait in
-- `hlt`; the keyboard echoes through `vga_putchar` and `vga_print`, and `printf` and through it the
-- system call write through them; the tasks and their stacks come from the allocator; paging maps the
-- memory that the heap and the screen stand in. The filesystem calls `ata_read_sector` and
-- `ata_write_sector`, which refine the disk of Drivers.Ata.Disk; its functions take that disk. The
-- shell calls all of them, and its system has the state of each.
--
-- Numbers, bounds and fuel. Every number is a natural number, and a machine word's wrap is written
-- out as a remainder; `int` is a signed number in Libc.Strings, where `itoa` needs it, and otherwise
-- its range makes it a natural number. Addresses that the linker chooses are arguments. The
-- allocator's loops run on fuel, of which a heap of 1 MB needs no more than the fuel given: a call
-- returns a result in the theorems about it. `uitoa` and `itoa` have 33 rounds, which is enough for
-- 32 bits in any base from 2 on. The tab of the screen has at most 4 rounds. A list of interrupts
-- takes the place of fuel in `sleep`, a list of rounds in `keyboard_read`, which tells the interrupts
-- between the test and `hlt` from those that end it, and a list of keys in `keyboard_readline`: a run
-- that has used them all up sleeps on. The search for the tail of the tasks has the fuel of the allocator, as each
-- task takes a block. The polling loops of the disk driver take fuel, and one poll more than the drive may stay
-- busy is enough; a walk along a chain of clusters takes fuel for one step more than the chain is long,
-- and freeing a chain for every entry of a table. The filesystem's buffers have 512 bytes. The name of
-- a file is the list of its characters before the NUL.
--
-- Not modelled: the stack swap of kernel/switch.S, of which `task_switch` takes the result as an
-- argument; the tasks that run while one is in `sleep`; the interrupts that arrive while
-- `kernel_main` runs; `user_main`, and the endless loops of the shell and of its background task,
-- of which a round is modelled. Assembly (boot/, kernel/*.S, kernel/*.asm) and the build scripts
-- are not C code.
pub mod Prelude
pub mod Libc
pub mod Kernel
pub mod Drivers
pub mod Fs
pub mod Shell
