-- ===== src/Lib.antt =====
-- Qthreads, a library of lightweight threads with full/empty bits on memory words.
--
-- Feb models src/feb.c: the table `FEBs` of words that are empty or waited for, the queues EFQ, FEQ
--   and FFQ of each word, the calls `qthread_empty`, `qthread_fill`, `qthread_writeF`, `writeEF`,
--   `writeEF_nb`, `readFF`, `readFF_nb`, `readFE` and `readFE_nb`, the wake-ups under the lock of a
--   word, and the preconditions of nascent threads. `Feb.State` has the data, `Feb.Lock` what is
--   done under a lock, `Feb.Ops` the calls, `Feb.Run` sequences of them. A call is one step: the code
--   holds the lock of the word from the lookup on. The stripe's hash table is a function from keys
--   to entries. The recursion of the two wake-up functions takes fuel, one more than there are
--   waiters; this is enough, as `Feb.Cascade` shows. The ready queues are the log of what was
--   enqueued. Not modelled: calls from outside a qthread, which fork one, the task filters,
--   profiling and the spawn cache.
-- Hash models `qt_hash64` of src/ds/dictionary/hash.c, by which a stripe is chosen.
-- SwsrQueue models src/ds/qswsrqueue.c, a ring for one writer and one reader: `qswsrqueue_create`,
--   `enqueue`, `enqueue_blocking`, `dequeue`, `dequeue_blocking` and `empty`. The blocking calls are one
--   pass of their loop. `SwsrQueue.Contents` has the queue that a ring stands for, and
--   `SwsrQueue.Interleaved` the writer and the reader at the same time, an access to the shared memory
--   at a time, about which `SwsrQueue.Fifo` is. The memory is sequentially consistent there; the
--   fences of the code are not modelled.
-- Loop models src/qloop.c: `qt_loop_balance_inner` up to the spawn of the first worker, which divides
--   a range of iterations, in `balance`, and `qloop_wrapper`, by which the workers spawn one another,
--   in `wrapper`; its fuel is one more than the number of workers. `accum_args` and `accum_result` are
--   `qt_loopaccum_balance_inner` with its workers waiting by syncvars. The waiting for the
--   workers, the sum where they wait by a count (its code then frees a wrong address), the accumulation by a sinc and `qt_loop_inner` are not modelled.
-- Lifo models src/threadqueues/lifo_threadqueues.c, the ready queue of a shepherd as a stack:
--   `qt_threadqueue_new`, `dequeue`, `enqueue`, `enqueue_yielded`, `filter`, `free`, `choose_dest` and
--   `qt_scheduler_get_thread`, each as one step, with the chain of nodes as a list. A filter is any
--   function from threads to codes. `Lifo.Account` has sequences of calls. The loop of `free` has
--   fuel, one more than there are threads.
-- Sinc models src/sincs/donecount.c: `qt_sinc_init`, `reset`, `resize`, `expect`, `submit`, `wait` and
--   `qt_sinc_internal_collate`, each as one step. The word `ready` is a Boolean, true when it is full.
--   The machine has a number of shepherds, `num_sheps`, and of workers of each, `num_wps`.
-- JoinQueue models src/queue.c: the unsynchronised queue, on a memory of nodes, and the capped one,
--   whose joins have no result where the assertion of the code fails. The address of a new node is an
--   argument. The NEMESIS queues are not modelled.
-- Syncvar models src/syncvar.c: the word of a `syncvar_t` with `qthread_mwaitc` in `Syncvar.Word`,
--   `qthread_syncvar_gotlock_fill`, `gotlock_empty`, `schedule` and `remove` in `Syncvar.Lock` and
--   `Syncvar.State`, and `qthread_syncvar_status`, `fill`, `empty`, `readFF`, `readFF_nb`, `readFE`,
--   `readFE_nb`, `writeF`, `writeEF`, `writeEF_nb` and `incrF` by a qthread in `Syncvar.Ops`, on one
--   variable: a call looks up the entry of its own address only. A call is one step under the lock of
--   the word; the timeouts are those of the code. `Syncvar.Word.wait_loop`
--   is the loop of `qthread_mwaitc` on a word that no one else changes. The macros qassert_ret and
--   qassert_retvoid of include/qt_asserts.h are assertions, so that their failure is not an error code.
--   The threads, waiters and entries are those of
--   `Feb.State`. Not modelled: calls from outside a qthread, the task filters, allocation that fails.
-- Qarray models src/ds/qarray.c with the inline function of include/qthread/qarray.h: where an element
--   lies and which shepherd has it in `Qarray`, `qarray_create_internal`, `qarray_destroy` and
--   `qarray_set_shepof` with the tracker of segments in `Qarray.Create`, `qarray_iter` and `qarray_iter_loop` with their
--   striders in `Qarray.Loops`. A strider gives the ranges it runs through; it runs alone, as it shares
--   nothing with the others but the count of those that are done. Its loops have fuel: more than the
--   elements between the bounds is enough. The shepherd that is stored in a segment of a `DIST` array
--   is a function of the segment, and stored after the test of the room for it. A result none is a failed
--   assertion; that of `qarray_create_internal` on the shepherd that is chosen for a segment and those
--   of the reads of a stored shepherd are not repeated. The machine gives the number of shepherds, the
--   random numbers, the least common multiple and the address of the memory. Not modelled: the first
--   allocation of the tracker, the placing of memory on nodes, the loops with a result, without
--   waiting and on constant arrays, and `qarray_dist_like`.
-- MutexFifo models src/threadqueues/mutexfifo_threadqueues.c, the ready queue of a shepherd as a chain
--   of nodes between a head and a tail: `qt_threadqueue_new`, `dequeue`, `enqueue`, `enqueue_yielded`,
--   `filter` and `free`, each as one step. The address of a new node is an argument. The loops of
--   `filter` and `free` have fuel, one more than there are threads. Not modelled: calls that overlap.
-- HashMap models src/hashmap.c, the table of `qt_hash_create`, `put`, `get`, `remove`, `count` and
--   `callback` with the search of `qt_hash_internal_find` and the rehash of `brehash`, each call as one
--   step under the lock of the table. The size of a bucket and the smallest number of entries, which
--   the code computes from the cache line and the page size, are arguments; the proofs take powers of
--   two. The loops over the buckets have as much fuel as there are entries, which is enough, since a
--   search visits each bucket once. The products with 0.65, 0.8 and 0.03 are exact up to 2 ^ 24
--   entries, the bound of the theorems. Not modelled: `qt_hash_destroy` and `destroy_deallocate`, and
--   allocation that fails.
-- LoopQueue models the loops of src/qloop.c whose workers take their iterations from a shared queue:
--   `qt_loop_queue_create` with `qqloop_create_iq`, `qqloop_get_iterations_chunked`, `guided`, `factored`
--   and `timed`, and `qqloop_wrapper`. A step is one access of one worker, so that a `qthread_cas` may
--   fail; the number of active shepherds, the outcome of the timers and whether a shepherd is enabled
--   come with the step. The start and the end are natural numbers below
--   2 ^ 62; a step has no result where the program divides by zero or the start or a divisor leaves its
--   signed word. Not modelled:
--   `qt_loop_queue_setchunk`, the forks and the wait of `qt_loop_queue_run`, `run_there`, `addworker`.
--
-- Not modelled: the work-stealing and the other ready queues and sincs, barriers, dictionaries, the
-- lock-free hash map, memory pools, teams, and the worker loop of src/qthread.c. Context switches,
-- affinity, timers, system calls and the network are left out: they are machine code or calls of the
-- operating system and of other libraries.
pub mod Prelude
pub mod Hash
pub mod Feb
pub mod SwsrQueue
pub mod Loop
pub mod Lifo
pub mod Sinc
pub mod JoinQueue
pub mod Syncvar
pub mod Qarray
pub mod MutexFifo
pub mod HashMap
pub mod LoopQueue
mod Examples
