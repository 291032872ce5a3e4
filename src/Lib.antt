-- ===== src/Lib.antt =====
-- klee, a hobby operating system: a model of the kernel's core, in src/ of the repository, and the
-- theorems that make it correct.
--
-- The program. The kernel keeps physical memory in a bitmap of frames (src/memory/allocator.hpp), and
-- processes, threads and events in one manager (src/process/manager.hpp). The file system (src/fs)
-- counts the open handles of each file and reads and writes through a cache of pages, whose frames
-- come from the allocator; the drivers below it are arguments of the model. All return errors as codes
-- (src/error.hpp) and use the spinlock and the dense map of src/util. A thread runs on one processor,
-- which has a run queue for each niceness; it sleeps by leaving its queue, and is woken by another
-- thread, by an event on whose list it is, or by the timer interrupt, which also switches threads and
-- moves them between processors. Page tables (src/paging.hpp) give processes their memory. Devices share
-- rings in memory with the kernel: a USB controller (src/usb/xhci/ring.hpp) and virtio devices
-- (src/virtio/queue.hpp). The FAT driver and the search for partitions (src/block/gpt.hpp) read a disk
-- through its device file, src/acpi.hpp reads the firmware's tables, and the terminal (src/terminal.hpp)
-- runs the shell in one thread and swaps frames in another.
--
-- The files.
--   Base                 names that every file shares; Base/Codes is src/error.hpp, Base/Lists the
--                        vectors and arrays
--   Util/SpinLock        src/util/spinlock.hpp: the flag and its exchanges; Exclusion has the runs of
--                        several threads as a step relation
--   Util/DenseMap        src/util/dense-map.hpp: find_empty_slot, contains, empty
--   Util/CriticalQueue   src/util/critical-queue.hpp: push, swap, empty
--   Memory/Bits, Bitmap  src/memory/allocator.hpp: get_bit, set_bit, set_bits, set_range
--   Memory/Allocator     allocate, allocate_single, deallocate, is_available, initialize_heap, and the
--                        owner SmartFrameId of src/memory/frame.hpp
--   Memory/Init          the constructor over the memory map, src/memory/memory-type.hpp
--   Process              src/process/process.hpp and the data of src/process/manager.hpp
--   Process/Niceness, Local, Switch
--                        nicenesses, ProcessorLocal, and the calls that wake, stop and switch threads
--   Process/Event        events and the threads that wait for them
--   Process/Table        processes and threads by number
--   Process/Interrupt    the timer interrupt, the migration of threads, the start of the manager
--   Fs/Open, Fs/Handle   src/fs/handle.hpp: try_open, Handle, and the counting part of Manager::close
--                        (src/fs/manager.hpp)
--   Fs/Cache, Fs/File    src/fs/fs.hpp: FileOperator::copy and prepare_cache
--   Fs/Tmp               src/fs/drivers/tmp.hpp: the driver of files in memory
--   Fs/Fat               src/fs/drivers/fat: the chain of a file's clusters, read, and readdir; Entry and
--                        Directory have the entries of a directory and the walk over them
--   Usb/Ring             src/usb/xhci/ring.hpp: Ring and EventRing, with the words of trb.hpp and
--                        registers.hpp that they use; Controller, Fifo and Events have the controller's
--                        side and the queues that the rings are
--   Virtio/Queue         src/virtio/queue.hpp: Queue and its three operations
--   Terminal             src/terminal.hpp: Terminal; Screen has the text that it shows, Shell the cutting
--                        of a line into arguments, Swap the loop of terminal_main
--   Paging               src/paging.hpp: the tables and map_virtual_to_physical; Level and Mapping have
--                        the processor's walk
--   Block/Gpt            src/block/gpt.hpp: find_partitions
--   Acpi                 src/acpi.hpp: initialize, detect_cores, wait_microseconds
--
-- How state corresponds. Numbers are natural numbers, and where the source's arithmetic can wrap the
-- remainder is written out. A `Thread*` is a number into Manager.threads, which stands for memory; the
-- dense maps and vectors are lists. Each call of the manager is one step that runs with its locks
-- held, and `cpu` is smp::get_processor_number(). Where the source stops the kernel (fatal_error,
-- fatal_assert) the result is `none`.
--
-- Fuel. The search of allocate gets one step more than there are places to start from, and each step
-- moves the start. The loop of copy over whole pages gets a round for each byte and one more, and
-- each round copies a page. The loops of migrate_threads get fuel from their caller. The shell's
-- split gets a step more than the line has characters, and each step takes one; the walk over the
-- MADT a step more than the table has bytes. The loops over a virtio chain, over partition entries
-- and over a FAT directory can be endless and get fuel from their caller. The loops of wait_thread
-- and wait_process get the states in which the thread wakes up as an argument. The redrawing of the
-- screen gets a round for each line of the ring. All other loops are structural.
--
-- Not modelled: registers and stacks, the layouts of device registers and the set-up of devices,
-- AHCI, PCI and the boot loader, the mounts and paths of the file system, the search of a FAT
-- directory for a name, the pixels that are drawn, the commands of the shell. Log output is left
-- out. The FAT driver's read takes a device's error with the code Success for an error, where the
-- code goes on with the buffer as it was.
pub mod Base
pub mod Util
pub mod Usb
pub mod Virtio
pub mod Terminal
pub mod Paging
pub mod Block
pub mod Acpi
pub mod Memory
pub mod Process
pub mod Fs
