-- ===== src/Lib.antt =====
-- CortexForge, a bare-metal AArch64 kernel in C: a model of its core, and the theorems that make
-- it correct.
--
-- The kernel boots one core, takes pages from a bitmap allocator, keeps a heap on them, and runs
-- tasks under a fixed-priority scheduler with real-time primitives on top. It loads user programs,
-- delivers signals to them, and gives each task a table of open files, which are found by paths
-- through a tree of nodes. It drives virtio devices through queues, and talks to a host over a
-- framed protocol on its second serial port. These parts are modelled, one module each, over the
-- definitions of a shared Prelude. Every C function is a function of the same name that takes the
-- state it reads and returns the state it leaves; a loop is recursion over what is left of it.
--
-- Bitmap and Pmm: src/mm/pmm/pmm.c. The bitmap is a list of words of 64 Booleans; Pmm is the
--   record of the file's static variables. pmm_init, pmm_allocate_page, pmm_allocate_pages,
--   pmm_free_page and pmm_free_pages are modelled with their scans and refusals; counters wrap at
--   2^64.
-- Heap: src/mm/heap/heap.c. The list of blocks with their headers and the table of regions, over
--   the page allocator of Pmm: heap_init, heap_expand, kmalloc with its two attempts, and kfree
--   with the merging of free blocks. What memory holds in front of a pointer that is no block is
--   an argument.
-- Mmu: src/mm/mmu/mmu.c. The tables of a user address space as entries by table and index, with
--   their pages from Pmm: alloc_table, walk_levels, mmu_map_user_range and mmu_create_user_tables.
--   What the hardware finds for an address is lookup (Mmu/Map); Tree is the well-formedness of the
--   tables.
-- Sched: src/sched/sched.c. The circular run queue is the current task and the others in ring
--   order; schedule, task_exit, sched_kill_task, sleep_ms, sched_wake_sleepers,
--   sched_block_current, sched_reap, sched_make_ready, sched_set_priority, the calls that create a
--   task (sched_create_kernel_task, sched_create_task, sched_create_rt_task, sched_fork) and
--   sched_asid_alloc (Sched/Asid) are modelled. Reach has the runs of these calls. Each call is
--   taken as a whole: the code masks interrupts only in parts of sched_fork and sched_kill_task, and
--   a tick of the timer inside another call is not modelled. Stacks, registers and page tables of a
--   task are not modelled: reaped lists the tasks whose memory was given back.
-- Rtos: src/sched/rtos.c. Mutexes and tasks are entries of a store, since a boost of a task is
--   seen wherever it waits; rt_mutex_lock, rt_mutex_unlock, pi_propagate, wq_insert, rt_sem_wait,
--   rt_sem_post, rt_wait_next_period and rt_tick_release are modelled up to their calls of
--   schedule, which is in Sched.
-- Files: src/fs/vfs/vfs.c. The descriptor table with fd_open, fd_close and fd_seek; the node that
--   a path names is an argument. Signed 64-bit numbers are their two's complements.
-- Paths: src/fs/vfs/vfs.c. The pool of nodes: vfs_init, vfs_create_node, vfs_register_chardev,
--   vfs_register_blockdev and vfs_resolve, with the lookup of a mounted file system as a
--   parameter.
-- Signal: src/syscall/signal.c. signal_check_and_deliver with deliver_one, signal_sigreturn,
--   signal_sigaction, signal_sigprocmask, signal_alarm and signal_tick_alarms. The user stack is a
--   store of words.
-- Elf: src/syscall/elf.c. The fields of the headers are read from the bytes of the file; elf_load
--   with parse_flags and free_regions takes its pages from Pmm and maps them in the tables of Mmu
--   (Elf/Mapped and Elf/Memory have what the hardware finds there). The contents of pages are not
--   modelled: what it copies is recorded in a list of loads.
-- Uart: src/lib/uart/uart.c. The receive ring of UART1: uart1_rx_isr, uart1_getc_nonblock and
--   uart1_rx_available; what the data register returns is an argument.
-- Virtq: src/pci/virtio/virtqueue.c. The descriptor table with the free list through its next
--   fields: virtqueue_init_free_list, virtqueue_alloc_desc, virtqueue_free_chain, virtqueue_submit
--   and virtqueue_get_used; what the device writes is an argument.
-- Bits and Framing: src/lib/uart/framing.c. CRC-16, byte stuffing, framing_encode and
--   framing_decode (Framing), and the functions on the wire (Framing/Link): framing_recv,
--   framing_send, framing_send_reliable. The bytes that come in before the deadline are a list.
--
-- Bounds and fuel: framing_recv jumps back to have_type at most once per byte, which is the fuel
-- it is given; virtqueue_free_chain visits a descriptor with a link at most once, which bounds its
-- rounds by the size of the table and one; vfs_resolve takes at least one byte of the path in a
-- round; signal_check_and_deliver takes one of 31 signals in a round and is given 32 rounds;
-- pi_propagate has the bound of 8 rounds that the code has. All other loops are structural.
--
-- Not modelled: the exception vectors, interrupt controller and timer, the identity map of the
-- boot and the freeing of page tables, PCI, the virtio drivers, FAT32, system calls, the string
-- functions, user programs and tools. They are device registers, assembly or text output, or they
-- are left to an extension of this library.
pub mod Prelude
pub mod Bitmap
pub mod Pmm
pub mod Bits
pub mod Framing
pub mod Sched
pub mod Rtos
pub mod Files
pub mod Virtq
pub mod Signal
pub mod Uart
pub mod Paths
pub mod Heap
pub mod Elf
pub mod Mmu
