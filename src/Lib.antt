-- ===== src/Lib.antt =====
-- The verification library of MunkOS, an x86-64 kernel.
--
-- The kernel is one program: a frame allocator gives out physical pages, a scheduler chooses
-- among the kernel's threads, events wake sleeping threads, and a timer interrupt, whose heap of
-- timers launches events, keeps the time. Paths below are from the repository's root.
--
-- Prelude holds what all modules share: the libraries' names, Boolean tests and conditionals over
-- the native numbers, lists, maps as functions, and `Outcome`, the result of kernel code: `ok`, a
-- call of `kpanic`, a fault (undefined behaviour, such as a read through NULL), or a loop that
-- ran out of fuel.
--
-- Links is a store of nodes with `next` and `prev` pointers, and the insertions and the removal
-- that the page freelists and the run queues share. Links/Segments says what list of nodes the
-- pointers stand for, and how a write changes it; Links/Edits is about the edits.
--
-- Bits is about single bits of numbers, at every position: `^` and `&` with a power of two.
--
-- FrameAlloc models the buddy allocator of kernel/src/mm/frame_alloc.c and
-- kernel/include/frame_alloc.h: `_list_link`, `_list_unlink` and `_list_get` in
-- FrameAlloc/Freelist, `_bitmap_flip` and `_bitmap_status` in FrameAlloc/Bitmap, and
-- `buddy_alloc` and `buddy_free` with their helpers in FrameAlloc. A `struct page *` is the
-- page's index in `pages`; a block is its first page; the state is the lists, the bitmaps and the
-- counters, with the size of the table. The searches and loops over the eleven orders are
-- recursions on the orders left. FrameAlloc/Invariant says when a state is valid for lists of
-- free blocks: the pointers lead through them, no two overlap, all lie in the table, and a bit is
-- set when just one block of its pair is free. FrameAlloc/Changes, Splitting, Buddies and Merging
-- are about one step or loop, and FrameAlloc/Allocation and Freeing about the calls. A block is
-- taken if it is in range and no free block overlaps it.
--
-- FrameAlloc/Startup models `buddy_init` from where it adds the usable memory on, and its
-- children are about its parts: Slices about the orders of the blocks, Regions and Memory about
-- the loops over the memory map, Bits about the walks that fill in the bitmaps, Initial about the
-- whole. The loop over a region and the walk along a list run on fuel, for which one more than
-- the pages is enough.
--
-- FrameAlloc/Orders models `psize2order` and `size2order`, whose loops have fuel for 64 bits.
--
-- Scheduler models kernel/src/proc/scheduler.c with the types of kernel/include/scheduler.h and
-- process.h: the run queues in Scheduler/Runqueue, and sleeping, waking, choosing and yielding in
-- Scheduler, as one CPU runs them. Scheduler/Runqueue/Refinement relates the run queues to lists;
-- Scheduler/Invariant says when the queues agree with the states of the tasks; Scheduler/Waking,
-- Selection, Switching and Yielding are about the functions.
--
-- Preemption models `scheduler_preempt` and `scheduler_kernel_thread_exit` of the same file on
-- the scheduler and the events, up to the switch to the next task: Slices is about a task that
-- goes on later, Leaving about one that is dead, Unawaited about one that exits while the reaper is
-- at work. Tasks models how tasks are made, with `struct
-- task`, the families and the stacks from the buddy allocator: Family is about the lists of
-- children, Spawning about `scheduler_spawn_task`, Starting and Idling about the threads it
-- makes. A task is the number of the `kcalloc` that made it. Reaper models
-- `scheduler_cleanup_task` and one round of `kernel_reaper`: Siblings and Clearing are about the
-- first, Rounds about the second. The loop over the children has fuel, for which their number is
-- enough. `scheduler_sleep_for` stands in SystemTimers. Not modelled: `kernel_idle`, which halts
-- the processor.
--
-- Clock models the real-time clock of kernel/src/arch/x86-64/timers.c: the read loop and the
-- conversions of `rd_rtc`, `rtc_time2unix_stamp`, and the start of `unix_time` in `time_init` of
-- kernel/src/misc/time.c. The reads of the registers are a list. Clock/Calendar counts the days
-- of the Gregorian calendar independently.
--
-- TimerHeap models the heap of timers of kernel/src/misc/time.c and the loop of
-- `system_timer_handler`, in which launching an event is a parameter. The array of the heap grows
-- and shrinks by `krealloc` of kernel/src/mm/slab.c, which stands here with the bytes it copies;
-- what a new block holds before is the parameter `kmalloc`. The theorems keep to the first block,
-- of 3000 places: of an array that is doubled or halved, `krealloc` copies a few bytes only, which
-- TimerHeap/Losing is about. The loops run on fuel:
-- `timer_insert` has a unit for each position above the new timer, `min_heapify` one for each
-- timer, and the loop of the handler needs one more than the timers there are.
--
-- Events models kernel/src/misc/kevent.c with kernel/include/kevent.h, all of it, on the
-- scheduler of Scheduler: `kevents_poll` yields, and what happens until the thread is loaded
-- again is a parameter, on the events, the scheduler and any further state. Events/Lists says
-- when the pointers stand for a list of subscribers for each event and a pool; Subscribers,
-- Unlisting and Unsubscribing are about the edits of these lists, Launching about
-- `kevent_launch`, Polling about `kevents_poll`. The loops along a list of subscribers run on
-- fuel, for which the number of subscribers is enough.
--
-- SystemTimers models `register_system_timer` and `system_timer_handler` of
-- kernel/src/misc/time.c, and `scheduler_sleep_for`: the heap of TimerHeap with the events of
-- Events and the tasks of Scheduler. Registering, Handling and Sleeping are about these three.
--
-- Slab models the kernel heap of kernel/src/mm/slab.c with kernel/include/kheap.h, without the
-- sanitizer, which the header leaves off, on the buddy allocator of FrameAlloc. Slab/Caches holds
-- the state, the caches, the marks of composite pages and the lists of slabs, and Slab the
-- functions from `new_slab` to `kfree`. Slab/Invariant says when lists, free objects and counts
-- agree; Slab/Lists is about moving a slab between lists, Serving and Allocating about
-- `cache_alloc`, Releasing about `kfree`, Sizes about `_size2block` and Kmalloc about `slab_init`
-- and the choice of a cache. `_size2block` has fuel for the 64 bits of a size; the jump of `cache_alloc` to
-- `got_full` is taken once. `krealloc` stands in TimerHeap, its one client. Not modelled: `kcalloc`,
-- since only the words that link free objects are kept, and the debug output.
--
-- EarlyMem models kernel/src/mm/mem_init.c, which hands out memory before the frame allocator
-- runs and leaves the memory map that `buddy_init` starts from. EarlyMem/Carving is about
-- `early_mem_alloc`, EarlyMem/Closing about `early_mem_exit`.
--
-- Locking models `spin_lock_global` and `spin_unlock_global` of kernel/src/std/locking.c among
-- several processors, whose steps interleave in any order: `move` is the next step of one,
-- `Reach` what any order of steps leads to. Exclusion is about who is inside, Saving about the
-- interrupt flags.
--
-- Strings models kernel/src/std/memory.c and kernel/src/std/string.c over a memory of bytes;
-- Strings/Blocks is about the functions on ranges, and Strings/Text about zero-terminated
-- strings, whose loops run on fuel: one more than the string's length is enough.
--
-- Numbers are natural numbers; where the source's arithmetic can wrap, the modulus is written
-- out. Outside Locking, locks are held throughout each modelled operation, which is one step. Not
-- modelled: input and output, assembly, page tables and interrupt delivery, the drivers, the file
-- systems, formatted output, and the third-party ACPI library, which the kernel only calls.
pub mod Prelude
pub mod Bits
pub mod Links
pub mod FrameAlloc
pub mod Scheduler
pub mod Clock
pub mod TimerHeap
pub mod Events
pub mod SystemTimers
pub mod Slab
pub mod Locking
pub mod EarlyMem
pub mod Preemption
pub mod Tasks
pub mod Reaper
pub mod Strings
