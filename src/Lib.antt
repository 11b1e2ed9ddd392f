-- ===== src/Lib.antt =====
-- A verification library of the microkernel.
--
-- The program is a microkernel for 32-bit RISC-V with user-level servers. The kernel schedules
-- tasks, passes messages between them and hands out physical pages; servers for tasks, files, the
-- network and devices run as tasks and talk by messages. All linked structures use one intrusive
-- list.
--
-- Base passes on the library's names, with Boolean tests, lists and updates of functions.
--
-- IntrusiveList models libs/common/list.c and list.h: a memory maps addresses to `struct list`
-- nodes. `Ring` says when the nodes of a memory are a list of given entries, `Writes` is about the
-- operations that write and `Loops` about those that run through a list. Loops take fuel; any
-- number above the length of the list is enough.
--
-- Bytes models libs/common/string.c on a memory of bytes: the parent memset, memcpy, memmove and
-- memcmp, and Strings the functions on texts that end with a NUL. `Copy` compares the former with
-- the memory after a correct copy, and Text says what a text is. Dmabuf models libs/user/dmabuf.c,
-- whose pages come from a parameter; Entries is about the entries handed out and given back.
--
-- Kernel is about kernel/. One record, `Kernel.State.Kernel`, holds the static variables of task.c,
-- memory.c and interrupt.c, and CURRENT_TASK of each CPU; operations pass it on, and a failed
-- assertion, a panic or a read through NULL is an outcome of its own (Kernel.Monad). Kernel.Queues
-- is the calls of the list functions on tasks, on sequences in place of nodes; the assertions of
-- `list_push_back` are part of it. Sched models the scheduler and task IDs of task.c, Task the
-- creation and destruction of tasks there, Notify and Ipc the file ipc.c, Memory the file memory.c,
-- Interrupt the file interrupt.c. `ipc` is cut where it calls `task_switch`: what the kernel stack
-- holds there is the field `stack` of a task, and `resume` is the rest of the call, when the task
-- is switched to again. Kernel.Invariant is the invariant of the queues, and its children are about
-- the operations one by one; Ids is about task IDs; the children of Memory are about the allocator,
-- the search for a page and mapping, those of Interrupt about listeners and the timer, and that of
-- Task about destroying. Kernel.Syscall models kernel/syscall.c: `handle_syscall` picks the call by
-- its number, and a call ends with a value or at the place where it leaves for the scheduler,
-- `task_exit`, the console or `arch_shutdown`. User memory is a function from addresses. Messages
-- is about the calls that pass messages or set a value, Rights about who may allocate for whom.
--
-- Kernel.PageTable models kernel/riscv32/vm.c: a table is the words of a page of physical memory
-- (Bytes.Words), which pm_alloc gives. Walk says what the hardware finds for an address and when
-- tables are in order, Fresh and Tables are about a new table, and Map and Unmap about the calls.
--
-- Async models the queue of asynchronous messages of libs/user/ipc.c, with the calls into the
-- kernel as a log; Order is about the order of the messages.
--
-- Malloc models libs/user/malloc.c: the headers of chunks by their addresses, the free list as a
-- sequence, and the bytes of the data areas, which stand apart from the headers. Tiles and
-- Invariant say when chunks fill the heap, Regions and Calls are about single calls, Runs about
-- programs that make them.
--
-- Fs models servers/fs/block.c and fs.c: State has the blocks, the cache and the log of requests to
-- the device, which is a function from that log and the next request to its answer. Cache models
-- block.c; Ops has block numbers, paths and files, and Dirs the entries of directories. Flush,
-- Sectors, Coherent, Bitmap and Paths are about writing back, the cache, free blocks and the entry
-- that a path names.
--
-- Hinavm models the bytecode interpreter, kernel/hinavm.c with libs/common/hinavm_types.h: Inst the
-- instruction words, Machine the interpreter, whose main loop is suspended where it calls `ipc`.
-- Coding, Labels, Words and Runs are about instruction words, labels, the values of registers, and
-- whole runs; Rules has the rules that they share.
--
-- Mbuf models the packet buffers of servers/tcpip/mbuf.c: Ops has the operations on chains,
-- Contents the bytes that a chain holds, and Append, Read and Cut are about the operations that
-- add, take and limit bytes.
--
-- Tcp models servers/tcpip/tcp.c, checksum.h and libs/common/endian.h: Wire has headers and
-- checksums, State the PCBs, Ops the operations from `tcp_new` to `tcp_flush`. The packets that go
-- to `ipv4_transmit` and the callbacks into main.c are lists in the state. Window, Ports, Sockets,
-- Receive, Open and Reach are about the invariant of PCBs and the states that calls lead to, Arrive
-- and Traffic about data received and sent, Header and Checksum about bytes on the wire.
--
-- Bounds: task IDs and flags are 32-bit patterns, with -1 as 2^32 - 1. Addresses wrap at 2^32 where
-- the source computes them. The loops over `tasks`, zones, pages and entries are structural. A loop
-- of Bytes.Strings that runs to a NUL takes fuel; more than the text has characters is enough. A
-- run of the interpreter takes a number of rounds; the loops of `mbuf_new`, `mbuf_read` and
-- `mbuf_discard` take `len + 1` rounds and two rounds for each mbuf, which is enough.
--
-- Not modelled: other CPUs run no code between the steps of one kernel call, since the kernel holds
-- a lock; page faults during a copy from or to user memory; the assembly, devices and boot of
-- riscv32; warnings and traces. `vm_map` and the system calls take `arch_vm_map` and
-- `arch_vm_unmap` as parameters, which Kernel.PageTable models on their own; `arch_irq_enable`,
-- `arch_irq_disable` and the functions of riscv32/ that set up and tear down a task
-- (`Kernel.Task.Arch`) are parameters. The wait of `task_destroy` for another CPU takes fuel, and
-- running out of it is an outcome of its own. `task_exit` in task.c, the freeing of mbufs,
-- receiving and the services in libs/user/ipc.c, and the files of kernel/, libs/ and servers/ that
-- are not named here are not part of the library.
pub mod Base
pub mod IntrusiveList
pub mod Async
pub mod Bytes
pub mod Dmabuf
pub mod Fs
pub mod Kernel
pub mod Hinavm
pub mod Malloc
pub mod Mbuf
pub mod Tcp
