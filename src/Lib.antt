-- ===== src/Lib.antt =====
-- The kernel of panuti and some of its programs: a model of their own logic, with the theorems that
-- make it correct.
--
-- Parts and files. Base is the notation, the lists, the bits of a byte and the integers that the
-- other files share, and Bitmap the arrays of bits that the kernel keeps.
--
-- Pmm is the allocator of physical frames, kernel/arch/i386/memman/pmm/pmm.c. Its record holds the
-- static variables of the file: `bitmap`, `bitmap_frames`, `next_free_page` and `rejected_ops`. The
-- functions keep their names without `pmm_`: allocp, freep, setp, clrp. Pmm/Init is `pmm_init` and
-- `carve_place`, over the regions and modules that the boot loader reports.
--
-- Vmalloc is the list of free virtual ranges in kernel/kernel/memman/vmalloc/vmalloc.c:
-- `vmfree_insert` is insert and `vmfree_take` is take_range.
--
-- Slab is the heap of the kernel, kernel/kernel/memman/slab/slab.c: a slab with the links of its free
-- objects (`slab_create`, take_object and free_in are parts of kmalloc_inner and kfree_inner), and in
-- Slab/Heap `kmalloc_inner` and `kfree_inner` as kmalloc and kfree over the caches and the registry of
-- allocations of whole pages.
--
-- Block is the handle of a block device, kernel/kernel/block/block.c: `block_read_op` is read_op,
-- `block_write_op` write_op and `block_seek_op` seek_op. The driver is a parameter; Block/Read has what
-- it promises as the record Stores.
--
-- Handle is the descriptor table of a task, kernel/kernel/handle/handle.c: `fdtable_grow` is grow,
-- `handle_alloc` alloc, `handle_free` free, and `task_return_hslot` of kernel/kernel/sched/task.c
-- return_hslot. What `kmalloc` answers is the record Memory, a parameter.
--
-- Pipe is kernel/kernel/handle/pipe.c. A call that may block is two steps, read_poll and read_finish,
-- since other tasks run while it waits. What read_finish and write_finish do in one step the code does with
-- interrupts on: Pipe/History takes it byte by byte, with polls of other tasks in between and the copying of
-- one call at a time, and Pipe/Race has two calls that copy at the same time. Pipe/Ends
-- counts the references to the ends, with `none` for memory that was given back.
--
-- Sched is kernel/kernel/sched/sched.c: `sched_add` is add, `sched_remove` remove, `sched_schedule`
-- schedule. Tasks is the list of tasks in
-- kernel/kernel/sched/task.c, with `task_wait_pid` and what wakes waiting and sleeping tasks. Line is
-- the line discipline of the keyboard, kernel/kernel/drivers/kbd/line.c, and
-- Line/Ascii is `keypacket_to_ascii` of libc/panuti/kbd/kpktasc.c. Kmsg is the ring of kernel messages,
-- kernel/kernel/log/kmsg.c.
--
-- Rtc is the clock of the machine, kernel/arch/i386/drivers/rtc/rtc.c: `rtc_cur_timestamp` is
-- cur_timestamp and `rtc_set_timestamp` set_timestamp, over the registers of the chip.
--
-- Pur is the shell, pur/src: Pur/Lexer is `tokenize`, Pur/Ast the pools of the syntax tree, Pur/Parser
-- the functions parse_expr, parse_operand, parse_group and parse_leaf, and Pur/Command
-- `pur_parse_command`, `pur_parse_load` and `pur_run_command`. What runs one expression, and how far the
-- allocator lets the pools grow, at the check and at each load, are parameters.
--
-- Nib is the editor, nib/src/main.c. Its record Editor is EGG, and a Line the bytes and the capacity of a
-- `line_t`. Nib/Motion is `hinormal_resolve_motion` and `hinormal_motion_range`, Nib/Normal the operators
-- and `handin_normal`, Nib/Insert `handin_insert`, Nib/Command `handin_command` and the body of the main
-- loop, Nib/File `load` and `save`; the functions keep their names without `hinormal_` and `hicommand_`.
-- Which sizes `realloc` has room for, and what the file system answers, are parameters; a rename may fail with
-- the file kept or, as `registry_rename` of kernel/kernel/handle/registry.c can, with its name taken away. Nib/Typing is
-- about the insert mode, Nib/Ranges, Nib/Deletion and Nib/Operator about motions and operators, and
-- Nib/Soundness about all keys.
--
-- Libc is `memmove`, `memcpy`, `memset` and `memcmp` of libc/string, over a list of bytes in which a
-- pointer is a place.
--
-- Life is the board of conway/src/life.c, and Calc the evaluator of calc/src/eval.c.
--
-- Integers of 32 bits are natural numbers with the wrap-around written out where the source computes
-- past the width. Interrupts that the source disables around an operation make it one step here.
--
-- Fuel. The merge loop of `vmfree_insert` starts again after each merge, which removes an entry; it
-- runs on (n + 1) * (n + 1) + 1 rounds for n entries. The walks over the ring of tasks take a round for
-- each task in it, and the loops over the ring of messages at most one for each of its 8192 bytes. The
-- evaluator runs on four calls for each byte and three more. The lexer of the shell takes a byte in each
-- round; its parser runs on four calls for each token and three more, and a command on one round for
-- each token and one more. The search for a year takes at most 8030 rounds, since the clock refuses years
-- after 9999, and the search for a month at most 13. The loop that doubles the capacity of a line of the
-- editor has a round for each byte that is asked for.
--
-- Not modelled: page tables and other registers of the machine, drivers other than the clock, system
-- calls as glue, the file systems, the registry of names, processes and pipes of the shell, the
-- drawing of the editor, and the log lines that operations print.
pub mod Base
pub mod Bitmap
pub mod Pmm
pub mod Vmalloc
pub mod Slab
pub mod Block
pub mod Handle
pub mod Pipe
pub mod Sched
pub mod Tasks
pub mod Line
pub mod Kmsg
pub mod Rtc
pub mod Pur
pub mod Nib
pub mod Life
pub mod Calc
pub mod Libc
