-- ===== src/Lib.antt =====
-- sys-prog: a collection of small system programs. The parts that keep a state of their own are
-- modelled here; the parts do not call each other, so each has its own tree of modules.
--
-- Prelude holds the names and the lemmas on lists, options and numbers that all parts share.
--
-- Scheduler is os-internals/round_robin/src/scheduler.c and scheduler.h: the queue of threads as a
--   doubly linked list on a heap from addresses to nodes. Each function of the C file is a function of
--   the same name on the state of the global variables; an access through NULL has no result, and the
--   walks run on fuel, which any number above the length of the queue suffices for. Scheduler/Spec is
--   the queue as a plain list, Scheduler/Implements says when a heap stands for one, and
--   Scheduler/Refines, Create and History compare the two. Scheduler/Main is the calls of
--   os-internals/round_robin/src/main.c.
-- WaitDie is os-internals/wait-die/src/wd_lock.c and main.c: wdlock_lock, wdlock_unlock and the
--   threads of main as program counters, a step being one section under the guard of a lock. The wait
--   for a condition is a program counter that notify_all moves on; a spurious return of
--   pthread_cond_wait is not modelled. The increment of the storage is a reading and a store. The runs
--   of WaitDie/Run are those in which each thread that is woken finds its lock free: wd_lock.c does not
--   look again, and WaitDie/Race is about two threads that are woken from one lock.
-- SearchTable is create_search_table and the requests of Input-Output system calls/laboratory work #5
--   and #6 (src/main.c in each, under OS UNIX+ System V): a file is what its reads give, the table two
--   functions of the index.
-- LineEditor is OS UNIX+ System V/Terminal Input-Output/laboratory work #17/src/main.c, its loop over
--   the symbols typed; an access out of the array has no result. LineEditor/Terminal is terminal.c
--   beside it; which calls of the driver succeed is a parameter.
-- Sender is OS UNIX+ System V/Message queue/laboratory work #31/src/sender.c: the array of receivers
--   and one round of the main loop, and Sender/Recver is recver.c beside it. The loops run for the rounds that their bound leaves.
-- SharedLines is producer.c and consumer.c of OS UNIX+ System V/Shared Memory/laboratory work #34/src:
--   two program counters and the two semaphores. SEM_UNDO is kept as how often each program has taken
--   its operations, since a semop fails where the adjustment passes its largest value; that value,
--   which is also the largest one of a semaphore as on Linux, is a parameter, and so is which calls of
--   the set-up succeed. The removal of the semaphores is taken to succeed.
-- Widgets is detail_maker.c and widget_maker.c of OS UNIX+ System V/Semaphores/laboratory work #33/src,
--   with semop and printf as two steps.
-- Dinner is pthreads/laboratory_work_#9/main.c: the philosophers as program counters, the forks as
--   their owners.
-- Series is pthreads/laboratory_work_#7/main.c and laboratory_work_#8/main.c: which thread adds up which
--   index, and when the threads stop. The counters of the loop over a block wrap at 2 ^ 64, the number
--   of a block does not where it is counted up at its end; the loop runs on fuel, which any number from
--   the steps of a block on suffices for where nothing wraps.
-- Master is master.c and slave.c of OS UNIX+ System V/Message queue/laboratory work #32/src: the loop
--   over the messages in the queue.
-- Slab is os-internals/slab/src/slab.c and slab.h, on a memory of words at byte addresses: each
--   function of the C file is one of the same name, cache_alloc and cache_free in Slab/Requests. The
--   walks over the lists of slabs run on fuel, which any number above the length of a list suffices
--   for; an object_size is one for which the order of a slab is an int.
--   Slab/Holds says when a cache and its memory stand for lists of slabs with their free chunks,
--   Slab/Contract where each slab stands after a request and which words stay, and Slab/Fresh,
--   Allocated and Freed follow the three requests.
-- Multiplex is multiplexed_read of OS UNIX+ System V/Signals/laboratory work #22/src/main.c; what each
--   read comes to is an argument of the round.
-- Paging is os-internals/paging/main.cpp: the translation of an address through four levels of tables,
--   and the loops of main over the numbers of its input, which are read without failure.
-- Proxy is the client side of the C++ program in pthreads/laboratory_work_#29/src: Proxy/Request is
--   utility/PicoHttpRequest.cpp, PicoHttpResponse.cpp and PicoHttpParser.cpp, Proxy/Pieces is
--   data/Data.cpp and Data.h, and Proxy/Client is client/Client.cpp and Client.h, one function for a
--   method. What recv, send, connect, the look-up of names and picohttpparser answer is an argument of
--   the function that calls them; atoi is taken for the values that fit an int.
--
-- An int or an unsigned long long that can wrap is kept modulo 2 ^ 32 or 2 ^ 64 where the code counts
-- with it. Opening files, prompts and error messages of system calls are left out. Not modelled are
-- the boundary-tag allocator, the linked lists and the other programs of pthreads, among them the
-- server of the proxy and the proxy with a thread for each client, the planning of os-internals, the
-- programs that only make system calls, and the copy of picohttpparser.
pub mod Prelude
pub mod SearchTable
pub mod Scheduler
pub mod LineEditor
pub mod WaitDie
pub mod Sender
pub mod SharedLines
pub mod Widgets
pub mod Dinner
pub mod Series
pub mod Master
pub mod Proxy
pub mod Paging
pub mod Slab
pub mod Multiplex
