-- ===== src/Lib.antt =====
-- A model of the SabaOS kernel (kernel/kernel/src) and the theorems about it.
--
-- The kernel serves Linux system calls. A process has a table of descriptors, which share open file
-- descriptions; a description has a cursor and a node, whose type gives read, write and seek. Nodes are
-- files of tmpfs, memory files, pipes and event counters. Pipes and event counters block on events, which
-- put threads on the run queue. Signals are marked pending on a thread, put it on the run queue and make a
-- wait end with EINTR. Page structs of the physical memory lie on a free list.
--
-- Which file models what (paths of the source from kernel/kernel/src):
-- - Base: the shared names. Base/Tests has the Boolean tests and 64-bit addition and subtraction with
--   their wrap-around, Base/Lists lists over native numbers, Base/Memory a buffer as a function from its
--   index with memcpy and memset, Base/Occurrences how often a number stands in a list, Base/Result errnos.
-- - Klib/Ring: klib/ring_buffer.hpp. `Ring` is the struct, with `data` as `store`; each method is a
--   function of its name. Klib/Ring/Inv has the invariant, Klib/Ring/Refine the refinement to a queue.
-- - Klib/HashTable: klib/hashtable.hpp for number keys, with Klib/HashTable/Assoc on the list that it stands
--   for, and Klib/HashTable/Lookup on what a call does to lookups. Klib/Hash: the hashes of klib/common.hpp.
-- - Klib/TimeSpec: klib/timespec.hpp, `+=` as `add` and `-=` as `sub`.
-- - Klib/CString: klib/cstring.cpp, over the bytes of a string. Klib/Algorithm: the rounding of
--   klib/algorithm.hpp. Klib/Bitmap: klib/bitmap.hpp.
-- - Sched/Event: sched/event.hpp and sched/event.cpp for one event: `trigger`, and `wait` around a `Turn`,
--   which is all that the scheduler and the other threads do until the thread runs again.
-- - Sched/Thread: the parts of sched/sched.hpp and sched/sched.cpp that signals use. `Machine` holds the
--   thread table, the processes, the groups and the run queue; `enqueue_thread`, `send_signal` and
--   `get_from_tid` have the code's names.
-- - Sched/Switch: `allocate_tid` and `scheduler_isr` of sched/sched.cpp. The code's `retry` is a recursion on
--   fuel. Its children: Robin is about the order of the threads, Registers about the frame that is saved.
-- - Sched/Wait: waitid_impl and wait4 of sched/sched.cpp, over the children of one process. Sched/Exit: the
--   end of threads and processes there, with what leaves the scheduler as a list of effects.
-- - Fs/Description, Fs/File: the open file description of fs/vfs.hpp, and read, write, pread, pwrite and
--   lseek of fs/vfs.cpp over any node (`VNode`); `tmpfs` is the instance for tmpfs. Fs/File/Vectors has the
--   vectored calls.
-- - Fs/Path: directory entries, `lookup` and `path_to_entry` of fs/vfs.hpp and fs/vfs.cpp. `Tree` holds all
--   entries by number; what a filesystem finds for a new name is an argument, `fs_lookup`. Its children: Names
--   cuts paths, Resolve has the walk along names that paths are compared with, Slashes and Leads compare them,
--   Children and Lookup are about the entries. Fs/Path/Create is `Entry::create`.
-- - Fs/Table: the descriptor table, from sched/sched.cpp (`allocate_fdnum`) and fs/vfs.cpp (close,
--   close_range, dup, dup2, dup3, F_DUPFD and F_SETFD of fcntl). Its children: Count sums over slots, Alloc
--   is about the search for a number, Refs and Calls about the well-formed table, Behaviour about results.
-- - Fs/Tmpfs: fs/tmpfs.cpp, the data of a node. Its children: Growth, Content and Leak.
-- - Mem/Pmm: mem/pmm.hpp and mem/pmm.cpp, the physical page allocator; a page struct is named by its frame
--   number. Its children: Invariant for single pages, Contiguous and Regions for runs.
-- - Mem/Ranges: the mapped ranges of mem/vmm.hpp and mem/vmm.cpp and `add_range`, whose work on page tables
--   and reference counts is a list of effects. Its children: Cover says which ranges hold an address,
--   Overlaps, Pass and Cuts cut an interval out, Add and Update are about the whole call, Position about files;
--   Calls has the system calls and the lookup, with Protect for mprotect, mincore and madvise.
-- - Mem/Access: `access_memory` and `get_physical_addr` of mem/vmm.cpp, with Mem/Access/Bytes on the bytes that are
--   copied.
-- - Mem/Bump: mem/bump.cpp, with Mem/Bump/Disjoint on where its blocks lie.
-- - Userland/Pipe, Userland/EventFd, Userland/MemFd, Userland/Cred, Userland/Signal: the files of these
--   names under userland. Userland/Signal has children: Sending for kill and tgkill, Masks for the signal
--   that a thread takes, Dispatch for what becomes of it.
-- - Userland/Create: pipe_impl, eventfd_impl and memfd_create, over the descriptor table.
-- - Userland/AltStack: sigaltstack of userland/signal.cpp. Userland/Futex: userland/futex.cpp; a wait is split where the thread goes to sleep. Its children: Decode
--   for futex_wake_op, Joined and Wait for waits, Wake for wakes.
-- - Userland/EPoll: userland/epoll.hpp and userland/epoll.cpp. The three cases of `epoll_ctl` are `add_event`,
--   `mod_event` and `del_event`; the wait is `pwait_loop`, with a turn for each time that it sleeps. Its
--   children: Slots, Agree, Valid, Changes and Control for the registrations, Reports and Scan for the wait, Calls
--   for the calls around it.
-- - Dev/Tty: the characters of dev/tty/tty.hpp.
-- The modules called Tests hold concrete inputs.
--
-- State is passed on explicitly: an operation takes the state and gives the new one with its result. A
-- result is `Ret`: a count or an errno. Locks are left out where an operation holds its lock throughout.
-- A call that waits takes a list of turns, one for each wait; when they are used up it is `blocked`.
--
-- Fuel: the loop that grows the capacity of a tmpfs node has 33 rounds, which reach 2 ^ 64 from any
-- capacity (Fs/Tmpfs/Growth shows it for sizes up to 2 ^ 62). The search for a run of pages has a round for
-- each usable page and one more; each round moves on by at least one (Mem/Pmm/Contiguous).
--
-- `add_range` looks for overlaps in two passes, of twice as many steps as there are ranges, which
-- Mem/Ranges/Update shows to be enough; mprotect has a round for each byte of its interval.
--
-- A walk along a path has fuel for its turns: one for each slash passed over and each name, and one more, are
-- enough where there are no symbolic links; the code itself follows links without a bound. A switch of threads
-- has fuel for the threads that it passes over.
--
-- Not modelled: page tables and page faults, the other allocators, links and the reading of directories,
-- sockets, pseudo terminals, the creation of threads, dequeue_thread, setgroups, and the frames of signal handlers. Drivers, graphics
-- and processor-level code are hardware access and have no counterpart here.
pub mod Base
pub mod Klib
pub mod Sched
pub mod Fs
pub mod Mem
pub mod Dev
pub mod Userland
