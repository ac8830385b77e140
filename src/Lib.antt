-- ===== src/Lib.antt =====
-- KyuzenOS, a 64-bit SMP kernel in C with a graphical user space.
--
-- Parts. The boot loader hands the kernel a memory map, from which the physical page allocator
-- (kernel/pmm.c) builds its bitmap. The page tables (kernel/paging.c) take their pages from it, and the
-- kernel heap (kernel/heap.c) maps its pages through them. The scheduler (kernel/sched) runs at most 16
-- tasks on at most 16 CPUs. Keyboard and mouse drivers push events to the queue of the task that the
-- window manager names (kernel/event.c), from which the task's system call pops them.
--
-- Files.
--   Prelude    tests on numbers, lists, integers and bytes that the parts share
--   Pmm        kernel/pmm.c. The record Pmm holds the statics of the file; alloc_page, free_page,
--              owns_page, get_used_ram, get_free_ram and set_total_ram are the functions with the prefix
--              pmm_. Pmm/Bitmap is the bit table, Pmm/Boot is pmm_init_dynamic, phase by phase.
--              Pmm/Search, Pmm/Alloc, Pmm/Free, Pmm/Boot/Ranges and Pmm/Boot/Init are the proofs.
--   Event      kernel/event.c. A Ring is one row of task_queues with its head and tail. Event/Fifo is
--              the specification; Event/Refine and Event/Calls relate the two.
--   Heap       kernel/heap.c. The list of headers is a list of blocks with their addresses, in the order
--              of the links. The page tables and the frame allocator are the parameter PageSource.
--              Heap/Realloc is krealloc, on the heap and the bytes inside its blocks.
--   Sched      kernel/sched and include/task.h. The record Sched holds tasks, task_count,
--              cpu_current_task, the run queues, and each CPU's RSP0 and CR3. Sched/RunQueue is
--              runqueue.c, Sched/Core core.c, Sched/Block block.c, Sched/Lifecycle lifecycle.c, and
--              Sched/WaitQueue kernel/wait.c, whose queues are lists of task ids. Sched/Mutex,
--              Sched/Semaphore and Sched/Condvar are kernel/sync.c; a round of the loop of mutex_lock or
--              semaphore_wait is one section.
--              Sched/Places and Sched/Safety count where a task stands; Sched/Safety/Steps has the step
--              relation.
--   Strings    kernel/string.c. The functions on blocks run on a memory, those on C strings on the lists
--              of their bytes.
--   Display    kernel/display.c: rectangles, clipping, fills and dirty regions. Display/Rects,
--              Display/Union, Display/Dirty and Display/Fill are the proofs.
--   Vfs        kernel/vfs_fd.c. Fds is the pool fds, by slot; resolve gives the slot where the code gives
--              a pointer. Vfs/Grow is the growth of a buffer, Vfs/Transfer reading and writing,
--              Vfs/Changes, Vfs/Calls and Vfs/Opens say which slots a call touches, and Vfs/Steps has the
--              step relation of the calls of all tasks.
--   Uheap      kernel/uheap.c. Uheap is the fields uheap_brk and uheap_regions of a task; Uheap/Regions and
--              Uheap/Steps are the proofs.
--   UserCopy   kernel/usercopy.c. UserCopy/Ranges is the proof on user_range_ok, whose page loop gets one
--              round for each page.
--   KyuzenFs   kernel/kyuzenfs.c and include/kyuzenfs.h. Fs is the disk, fat_table, the two counts and
--              current_fs. KyuzenFs/Directory is the entries and chains of directories, KyuzenFs/Paths
--              the paths, KyuzenFs/Files and KyuzenFs/Folders the public functions. The other files of
--              KyuzenFs are proofs: Alloc to Create and Root follow the data of a new file, Sync to
--              Restart the table on the disk. KyuzenFs/Descriptors fills the interface Kfs of Vfs.
--   Keyboard   drivers/keyboard.c. Keyboard is the statics of the file; keyboard_handler is the interrupt
--              handler, with the bytes of the two ports as arguments. Keyboard/Keys has the specification of
--              the modifier keys, Keyboard/Buffer that of the terminal's buffer.
--
-- Concurrency. A section of code under a spin lock is one function from a state to a state. Where the
-- code gives the lock up in between, as unblock_task and create_task_prio do before they put the task on
-- a run queue, each section is a step of its own, and the sections of all CPUs interleave in any order.
-- schedule_on_cpu is one step: a push that another CPU makes to a queue between its pop and its own push
-- is taken to come before or after the whole section. kmalloc gives heap_lock up after an expansion, and
-- krealloc between its kmalloc and its kfree: a parameter (others, later) is what the other CPUs make of the
-- heap there, and the theorems say what they ask of it.
--
-- Bounds. Addresses, sizes and counters of 64 bits wrap (u64, word). kmalloc calls itself after an
-- expansion: its fuel is 2, and the theorem on it shows that the second call succeeds where the other
-- CPUs leave a block of the size. The freeing loop of pmm_init_dynamic has one round more than the
-- pages below the end of its region. The loop of ensure_cap has 33 rounds: each doubles a capacity of
-- at least 1, and 32 bits hold no 2 ^ 32. A loop along a chain of the file system has one round more
-- than the disk has sectors, which is more than a chain without a cycle has. On a chain with a cycle
-- the code does not end; the theorems on directories ask for chains that end within the fuel.
--
-- Parameters. PageSource is what the heap asks of kernel/paging.c and kernel/pmm.c; nothing is assumed
-- of it. That an expansion ends below the end of the address space is a hypothesis on the heap.
-- Platform is what the scheduler asks of kernel/smp and of the page tables. Kfs and Allocator are the
-- calls of kernel/kyuzenfs.c and kernel/heap.c that the file descriptors make; nothing is assumed of
-- them. Kwm is what the keyboard asks of the window manager. AddressSpace is the frames and page
-- tables of a user heap.
--
-- Not modelled: the fake interrupt frames and stacks of new tasks, interrupts between processors, and the
-- other parts of the kernel: the listings of the file system on the terminal, creation of pixel buffers
-- and viewports, compositor, window manager, ELF loader, paging, system calls, the other drivers and the
-- network. Port and register accesses, assembly and third-party code are outside the model.
mod Prelude
pub mod Pmm
pub mod Event
pub mod Heap
pub mod Sched
pub mod Strings
pub mod Display
pub mod Vfs
pub mod Uheap
pub mod UserCopy
pub mod KyuzenFs
pub mod Keyboard
