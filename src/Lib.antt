-- ===== src/Lib.antt =====
-- Verification of the kernel of a tweaked Pintos (pintos/src): threads, their signals, and the
-- scheduler that delivers them; locks; the page allocator and the block allocator on it; the free
-- map of the file system; interrupt queues; and the bitmaps, lists, hash tables, strings and archive
-- headers of its libraries.
--
-- Parts, and the files that model them:
--
-- - Kernel.antt: the state that threads/thread.c and threads/signal.c share. `struct thread` is
--   the record `Thread`, `struct signal` the record `Signal`; the static variables of thread.c,
--   the list `unblock_list`, the interrupt level and the interrupt context are fields of `Kernel`.
--   A pointer to a thread is the address of its page, 0 is NULL, and `mem` maps an address to the
--   thread that lives there. Kernel/Exec.antt has the commands: functions from the state to a
--   value and the next state, or to a fault (a failed ASSERT, a pointer to no live thread, an
--   element pushed on a list that it is on already, a printf that would wait for the console lock).
--   Kernel/Facts.antt and Kernel/Ensures.antt
--   reason about commands.
-- - Signal.antt: threads/signal.c. Signal/Mask.antt has the signal sets and masks (signal_,
--   sigemptyset, sigfillset, sigaddset, sigdelset, sigprocmask), Signal/Pending.antt the list of
--   pending signals, which kill and thread_exit both extend, Signal/Kill.antt kill, with
--   validated_tid of thread.c. The handlers are with the scheduler, which calls them.
-- - Thread.antt: threads/thread.c. Thread/Create.antt has thread_init, init_thread, allocate_tid,
--   thread_unblock and thread_create, Thread/Tick.antt thread_tick and setlifetime,
--   Thread/Fields.antt what a thread reads and writes of itself, Thread/Exit.antt thread_exit up
--   to its call of schedule, Thread/Schedule.antt next_thread_to_run, thread_schedule_tail,
--   schedule, thread_block and thread_yield, Thread/Schedule/Deliver.antt what schedule does in
--   the thread that runs next: the threads on unblock_list, the pending signals, the lifetime.
-- - Bitmap.antt: lib/kernel/bitmap.c, as words of 32 bits. Bitmap/View.antt reads a bitmap as a
--   function from bit numbers to Booleans and has the operations on one bit, Bitmap/Ranges.antt
--   and Bitmap/Count.antt those on ranges, Bitmap/Search.antt scanning, Bitmap/Create.antt
--   creation.
-- - LinkedList.antt: lib/kernel/list.c on the pointers of the elements; LinkedList/Sort.antt has
--   the functions that compare elements. LinkedList/Linked.antt, LinkedList/Changes.antt,
--   LinkedList/Remove.antt and LinkedList/Rows.antt reason about a row of linked nodes,
--   LinkedList/Ends.antt and LinkedList/Order.antt about a list as the sequence of its elements.
-- - Palloc.antt: threads/palloc.c, on the bitmaps and on memory. Palloc/Given.antt has well-formed
--   pools, Palloc/Init.antt palloc_init, Palloc/Get.antt and Palloc/Free.antt what one call gives
--   out or takes back, Palloc/Used.antt and Palloc/Held.antt sequences of calls.
-- - Malloc.antt and Malloc/Free.antt: threads/malloc.c, a buddy system on pages of the page
--   allocator. The static `descs` and `arena_list` and the state of the page allocator are the
--   record `Heap`; a free list is the sequence of its blocks. Malloc/Sizes.antt has the block
--   sizes and places, Malloc/Cover.antt counts the blocks that hold an address, Malloc/Sound.antt
--   says when blocks are sound, Malloc/Arenas.antt relates them to pages; Malloc/Carve.antt,
--   Malloc/Split.antt, Malloc/Search.antt, Malloc/Given.antt, Malloc/Fresh.antt and
--   Malloc/Requests.antt follow the parts of malloc and Malloc/Served.antt the whole;
--   Malloc/Buddies.antt, Malloc/Joined.antt, Malloc/Merge.antt and Malloc/Emptied.antt follow free
--   and Malloc/Freed.antt the whole; Malloc/Init.antt is about malloc_init.
-- - Hash.antt: lib/kernel/hash.c; Hash/Bytes.antt has hash_bytes, hash_string and hash_int.
--   Hash/Sums.antt reads a table as a multiset, Hash/Finds.antt has well-formed tables and
--   hash_find, Hash/Resize.antt rehash, Hash/Updates.antt, Hash/Changes.antt and Hash/Maps.antt
--   the operations that change a table, Hash/Order.antt the iterator.
-- - Intq.antt: devices/intq.c, the ring of bytes between threads and interrupt handlers.
--   Intq/Contents.antt reads a queue as the sequence of its bytes, Intq/Traffic.antt has calls one
--   after another.
-- - FreeMap.antt: filesys/free-map.c on the bitmaps. FreeMap/Sectors.antt has free_map_allocate,
--   FreeMap/Release.antt free_map_release and free_map_init.
-- - Synch.antt: semaphores and locks of threads/synch.c, as steps of threads on one lock.
--   Synch/Exclusion.antt has the interleavings of the steps and the state of the lock in them,
--   Synch/Progress.antt the steps that threads can take, and waking.
-- - Memory.antt: memory as a function from addresses to bytes, and strings in it;
--   Memory/Words.antt: words of 32 bits.
-- - Text.antt: lib/string.c on such a memory. Text/Block.antt has memcpy, memmove, memcmp, memchr
--   and memset, Text/Scan.antt the functions that read strings, Text/Copy.antt strlcpy and
--   strlcat, Text/Token.antt strtok_r.
-- - Ustar.antt: lib/ustar.c on such a memory. Ustar/Octal.antt has octal fields,
--   Ustar/Checksum.antt the checksum, Ustar/Names.antt file names, Ustar/Headers.antt whole headers.
-- - Prelude.antt: names of the standard library, lists, the bits of words, machine integers.
-- - Tests.antt: concrete inputs, runs of the code on them, and the theorems at them.
--
-- How they interact: kill posts signals to other threads; thread_tick marks threads whose life is
-- over; schedule, called by thread_block, thread_yield and thread_exit, switches to another thread
-- and there delivers what has been posted. A handler may call thread_exit, which calls schedule.
-- The page allocator and the free map keep their bitmaps with bitmap_scan_and_flip and
-- bitmap_set_multiple; the page allocator fills pages with memset. malloc gets its arenas and large
-- blocks with palloc_get_multiple, writes headers and sizes into their memory, and free gives pages
-- back with palloc_free_multiple. Locks, interrupt queues and the
-- page allocator are modelled apart from the scheduler: threads and their switches stand there as
-- addresses and steps.
--
-- Conventions and bounds:
--
-- - The kernel is built without USERPROG. The stack of a thread that does not run is the point at
--   which it resumes (`Frame`); `schedule` follows the processor: it goes on in the thread
--   switched to, until that thread's own code runs.
-- - A switch that ends in thread_exit of the thread switched to starts another; `schedule` takes
--   fuel for these, one for each switch, and one is enough when no signal kills the next thread.
--   The walk of SIG_KILL up the parents takes the target's tid as fuel: on live parents with
--   falling tids that is enough.
-- - In bitmaps a failed ASSERT, or an access outside the storage, is `none`. The loops run over
--   the number of bits that is left, so they need no fuel. malloc is an argument of
--   `bitmap_create`.
-- - In the page allocator a PANIC or a failed ASSERT is `none`; a section under a pool's lock is
--   one step; the bitmap of a pool, which stands in front of its pages, is kept apart from the
--   memory.
-- - In the block allocator a failed ASSERT, a PANIC, or a division by 0 is `none`. The links in
--   free blocks and headers are kept apart from the memory: they stand at offsets 0 to 7 of a
--   block and 12 to 19 of a header, which nothing else reads. The loop of malloc_init takes fuel
--   for the descriptors, and 8 is enough for the seven; the other loops run over the descriptors.
-- - A hash table is its buckets by index; `hash` and `less` are arguments, as is what the heap does
--   in rehash (`Supply`): whether malloc has memory for new buckets, and whether free of the old
--   ones returns; if it does not, the result is `none`. On the block allocator of threads/malloc.c
--   free faults for an array of up to 64 buckets, whose first words stand in the place of the size of
--   its block, so that there a small table gets through rehash only while its buckets stay. The loop
--   of rehash on the number of buckets takes that number as fuel: each round lowers it.
-- - Whether a write of the free map to its file succeeds is an argument of `free_map_allocate`.
--   free_map_release writes without a test that there is a file: without one it is `none`.
-- - What interrupts cannot divide is one step of a lock operation, the rounds of sema_down's loop
--   too; between the steps any other thread may take its own.
-- - A call of an interrupt queue is followed up to where its thread sleeps; the lock, which lets
--   one thread wait at a time, is left out.
-- - In lists and strings, too, a failed ASSERT is `none`. Loops that end at the end of a list or
--   of a string take fuel and give `none` without it; the fuel meant is more than the elements or
--   bytes. Addresses are numbers that do not wrap around. An element of a list is known by its
--   address; the tail of a list stands 8 bytes behind its head.
-- - Words keep their width: masks 16 bits, counters 32, lifetimes and the tick statistics 64, the
--   former with the order of `long long`. Tids are counted without wrap-around: a kernel that starts 2^31 threads is outside the
--   model.
-- - The intrusive lists of the thread model are lists of addresses. Taking off an element that is
--   not on its list changes nothing, as list_remove does for an element that was taken off just
--   before.
-- - A thread that is put on a list on which it is already, which list_push_back would corrupt,
--   stops the model (`list_misuse`): a second SIG_UBLOCK of a thread before the next switch is such a
--   case, where the code goes on with unblock_list corrupted.
-- - printf in a signal handler is one step, under the console lock of lib/kernel/console.c. If
--   another thread holds that lock, the code waits in lock_acquire and enters schedule again with the
--   signal still pending; the model stops there (`console_wait`).
-- - malloc of a signal succeeds a number of times that the state fixes. The page for a new thread
--   is an argument of `thread_create`.
-- - The lock around the tid counter is left out: the increment is one step.
--
-- Not modelled: thread_start and idle, which need semaphores and the scheduler at once;
-- lock_try_acquire and condition variables; the stack frames and the code that a thread runs; the
-- page tables; NULL or aliased set pointers; bitmap_read and bitmap_write, which need files; and
-- the files of pintos/src that are not named above, that is devices, the rest of the file
-- system, user programs, and the boot code. Of the block allocator the locks of the
-- descriptors and printMemory are left out; of archives ustar_make_header, which needs snprintf; of
-- hash tables hash_destroy, and their arrays as blocks of the block allocator.
pub mod Prelude
pub mod Bitmap
pub mod LinkedList
pub mod Palloc
pub mod Hash
pub mod Malloc
pub mod Synch
pub mod FreeMap
pub mod Intq
pub mod Memory
pub mod Text
pub mod Kernel
pub mod Signal
pub mod Thread
pub mod Ustar
pub mod Tests
