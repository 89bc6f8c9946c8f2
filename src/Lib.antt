-- ===== src/Lib.antt =====
-- The core of the operating system muxomucota: how its kernel allocates page frames, builds
-- the address spaces of processes from them, and manages, schedules and interrupts processes,
-- and how its C library manages the heap of a user process and reads numbers; the locks of
-- processes; and the services that speak the internet protocol, the transmission control
-- protocol and the user datagram protocol.
--
-- The kernel gives out physical memory in pages, one byte of bookkeeping for each (Pmm). A
-- process sees pages through its page tables: they are shared with the processes it forked
-- from, copied when they are written to, and given a frame when they are used (Paging).
-- Processes share memory by pieces whose frames have a user for each of them, and move the end
-- of their heap (Shm). The kernel keeps processes in linked lists, of which the run queue is
-- one (Process.Lists), numbers them (Process.Pids), chooses the next one to run at each tick
-- of the clock and at each interrupt (Process.Scheduler), and moves them between the lists as
-- they end or become daemons (Process.Lifecycle). A parent waits for its children
-- (Process.Wait), and daemons wake up at interrupts (Process.Interrupts). A user process asks
-- the kernel for memory through sbrk and divides it among its allocations (Heap). The kernel's
-- functions on strings and blocks (Strings) serve all of it. Numbers in text are read by the C
-- library (Numbers). Processes that share memory take turns by locks (Locks). One of the
-- processes in user space is the service of the internet protocol, which makes and takes
-- packets, routes them and resolves addresses (Ip); another keeps connections, whose segments
-- it sends and gets through the first one (Tcp), and a third one datagrams (Udp).
--
-- Base holds what the parts share: Boolean tests on natural numbers, arrays as lists with
-- reads and writes by index (Lists), results of code that may stop at an assertion, panic, or
-- run into a fault (Outcome), bits of a word (Bits), and the sum over a family of processes of
-- which one member changes (Family).
--
-- * Pmm models src/kernel/common/memory/pmm.c: alloc is pmm_alloc, free pmm_free, pmm_use,
--   user_count, alloced, mark_cow, is_cow the functions of those names behind pmm_, and
--   alloc_advanced in Pmm.Advanced is pmm_alloc_advanced. The state is the record Pmm of the
--   file's static variables. Pmm.Inv holds the invariant, Pmm.Boot the set-up by init_pmm and
--   Pmm.Boot.Frames which frames are free then, Pmm.Alloc, Users, Share, Leak (with the steps
--   PmmStep, the calls that change the state), Advanced.Run and Advanced.Limits what follows
--   from it.
-- * Paging models src/kernel/arch/i386/mmu/vmem.c and pagefault.c: do_cow is vmmc_do_cow,
--   do_lazy_map vmmc_do_lazy_map, address_mapped vmmc_address_mapped; Paging.Space has
--   map_page (vmmc_map_user_page and its unlocked form), user_map_sg, user_unmap and
--   clear_user, Paging.Area lazy_map_area, Paging.Clone clone. The state Vm is one address
--   space: its directory, the tables by their frames, the bytes of frames, and the page frames
--   of Pmm. A word of a table is a record of its frame and its bits for present, writable and
--   user. Paging.Fault and Paging.Lazy prove what page faults do, Paging.Seen what processes
--   see meanwhile, Paging.Clone.Shared and Paging.Clone.Table what a copy shares and sees, and
--   Paging.Space.Limits what happens at the ends of tables.
-- * Shm models src/kernel/common/memory/vmem.c: create_shm, make_shm, open_shm, close_shm and
--   unmake_shm are the functions of those names behind vmmc_, and Shm.Break.sbrk is
--   context_sbrk. Shm.Users counts the users of frames.
-- * Process models the structures of src/include/common/process.h and, with its children
--   Lists, Pids and Lifecycle, the functions q_register_process, rq_register_process,
--   q_unregister_process, rq_unregister_process, get_new_pid, relinquish_pid, find_process,
--   adopt_orphans, destroy_process and daemonize_process of
--   src/kernel/common/tasking/management.c. A process is the address of its structure, the
--   memory a function from addresses to structures, so that lists can share structures as they
--   do in the kernel. In each child the file with the code's name defines it, and the files
--   below prove what it does. A value of Ending says whether destroy_process returns or, for
--   the process that calls it for itself, lets others run for ever.
-- * Process.Interrupts models src/kernel/common/intr/isrs.c, daemonize_from_irq_handler of
--   management.c and the reaper of src/kernel/common/tasking/idle.c. Its lists of handlers are
--   lists, from the last registered to the first; the calls of the kernel's own handlers and
--   of irq_settled are recorded in outer_calls.
-- * Process.Wait models raw_waitpid, find_child_in, wait_for_any_child, sweep_dead_processes
--   and destroy_process_struct of management.c. A wait ends with a value of Waited, which says
--   where the caller lets others run, so that a loop that waits is one round of it.
-- * Process.Scheduler models schedule of src/kernel/common/tasking/scheduler.c, as the rounds
--   of its loop (consider, survey), what precedes the loop (begin_tick) and what follows it
--   (decide).
-- * Strings models memset, memcpy, strncpy, strlen, strcmp and strncmp of
--   src/kernel/common/lib/string.c, on memory as a function from addresses to bytes; an int
--   that they return is given by its 32 bits. Strings.Blocks models memmove, memchr, memrchr,
--   memcmp and strnlen of src/lib/common/string, the C library's.
-- * Numbers models src/lib/common/stdlib/strtol.c, with texts as functions from positions to
--   characters. Behind the array of ten digits lies a fault.
-- * Heap models src/lib/common/stdlib/malloc.c (malloc, and in Heap.Aligned aligned_alloc),
--   free.c (free, join_memory), and in Heap.Realloc realloc.c and calloc.c. The list of free
--   blocks is a list of their addresses and sizes; that of a block in use is in its header.
-- * Locks models src/kernel/common/lib/lock.c and src/lib/common/system/lock.c, and Locks.Rwl
--   the locks for readers and writers of src/lib/common/system/rwl_lock.c: Pc names the places
--   in its functions where a process accesses the lock, Move is one such access, Step a move
--   of any process. Locks.Rwl.Inv has the invariant, which counts the processes that are
--   readers, pending, or hold an inner lock, Stuck the state that no process leaves, and
--   Exclusion what follows.
-- * Ip models src/progs/common/ip/ip.c: calculate_network_checksum, make_packet
--   (service_stream_send), incoming, stream_recv; Ip.Address get_ip, which reads numbers by
--   Numbers; Ip.Pipes the functions service_create_pipe, service_duplicate_pipe,
--   service_destroy_pipe, service_pipe_get_flag and service_pipe_set_flag. Ip.Routing models
--   find_route, add_route and del_route of routing.c beside it, and Ip.Arp arp_lookup of
--   arp.c. Which interfaces can be opened and what other hosts answer are parameters.
--   Ip.Checksum and Ip.Transfer follow a packet from one host to the other.
-- * Tcp models src/progs/common/tcp/tcp.c: Segment is struct packet, Connection struct
--   tcp_connection, and tcp_checksum its calculate_network_checksum. Tcp.Queues has the
--   functions on the queues of a connection (handle_outqueue, tcp_acked, handle_inqueue,
--   send_tcp_packet, tcp_receive), Tcp.Service those of the service (tcp_connect,
--   tcp_disconnect, service_create_pipe, service_destroy_pipe, service_stream_send),
--   Tcp.Service.Incoming incoming as receive_segment, receive_all, tcp_incoming and
--   tcp_incoming_all, Tcp.Service.Flags the flags of its pipes. What the service hands to the
--   internet protocol's service is the list thrown of a connection. The clock stands still
--   while a function runs, and what becomes of a connection while a function waits is a
--   parameter.
-- * Udp models src/progs/common/udp/udp.c: make_datagram is what service_stream_send makes,
--   udp_incoming and udp_incoming_all are incoming, the other functions are those of the names
--   behind udp_; Udp.Flags has the flags of pipes.
--
-- Addresses, sizes, ticks and bytes wrap at their width, with the remainder written out. A
-- loop over a linked list or a string has fuel, and the theorems give it more than the list
-- has members or the string bytes; every other loop is a recursion on what the loop counts.
-- What other processors do while pmm_alloc and pmm_alloc_advanced run is a list of truth
-- values, one for each atomic increment, that says whether another processor came first; the
-- other functions run with the lock that they take, or alone.
--
-- The frames that the page tables take are allocated while no other processor allocates. The
-- loops over page tables are recursions on the entries that are left; that of lazy_map_area
-- and those over lists of processes have fuel. The carries of a checksum are added in three
-- rounds, after which a sum of 32 bits has none left.
--
-- Not modelled: the registers and descriptor tables of the architecture, the kernel's own
-- mappings, the TLB and the flags that steer caches; the checksum of shared memory and the
-- checks of user pointers; the number of users of an address space; popup threads and fork;
-- system call tables, drivers, file systems, and the copy of the CDI library; of the network,
-- all but the services of the internet protocol, of the transmission control protocol and of
-- datagrams; of the first the pipes to the ethernet service and the packets that resolve
-- addresses, of the second the read that waits, the locks of its queues and the time between
-- two segments; the read of datagrams that waits; of all of them the signals to owners.
pub mod Base
pub mod Heap
pub mod Ip
pub mod Locks
pub mod Numbers
pub mod Paging
pub mod Pmm
pub mod Process
pub mod Shm
pub mod Strings
pub mod Tcp
pub mod Udp
