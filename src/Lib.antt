-- ===== src/Lib.antt =====
-- The kernel of the machine problems MP2 to MP7: its resource managers, modelled and verified
-- component by component.
--
-- The program is a sequence of small kernels for a 32-bit x86 machine, each in a folder of its own.
-- Every folder has the same base (boot code, descriptor tables, interrupt and exception dispatch,
-- console, timer) and adds one manager: physical frames (MP2, MP4), paging and virtual memory
-- (MP3, MP4), threads and a scheduler (MP5), a disk that gives up the processor while it is busy
-- (MP6), and a file system (MP7). The managers are what this library is about.
--
-- Files and the code that they model:
--   Base                  what the modules share: Boolean tests, arrays as functions (Memory),
--                         little-endian 32-bit words in bytes (Words), the mask of a byte
--                         (Bits), the search loop over a table (Search), and `Run`, what a call
--                         comes to: a result, a failed `assert`, or no result within its fuel.
--   BlockDevice           MP7_Sources/simple_disk.{H,C} as the file system uses it: blocks of 512
--                         bytes that are read and written, as a record of operations with laws, and
--                         a disk in memory that meets it (BlockDevice/Memory).
--   SimpleDisk            MP7_Sources/simple_disk.{H,C}: the ATA driver, over any machine behind the ports
--                         (PortBus) and any drive that meets the laws in SimpleDisk/Drive; SimpleDisk/Device makes it a
--                         BlockDevice, SimpleDisk/Emulated is a drive in memory.
--   FileSystem            MP7_Sources/file_system.{H,C}: class FileSystem with the inode table and the
--                         free list. Its state is a record with the disk; Format, Mount, the
--                         destructor (unmount), CreateFile, LookupFile, DeleteFile and the helpers for
--                         free blocks and inodes are one function each.
--   File                  MP7_Sources/file.{H,C}: class File over a mounted file system: a cache of
--                         the whole file (132 blocks at most) and its block map, Read, Write,
--                         Reset, EoF, the constructor and the destructor.
--   FileTest              MP7_Sources/kernel.C: `exercise_file_system`, and the part of `main` that runs it thirty
--                         times on a new file system. Children for its steps; FileTest/Stages has the states between.
--   FramePool             MP4_Sources/cont_frame_pool.{H,C}: class ContFramePool, a byte of state for
--                         each frame, and the list of pools that `release_frames` walks.
--   FrameStates           What the pools of MP2 and MP3 share: the states of frames, the first fit, and the
--                         loops over the frames of a sequence.
--   BitmapPool            MP2_Sources/cont_frame_pool.{H,C}: two bits of state for each frame.
--   MemoryTest            MP2_Sources/kernel.C: `test_memory`, which takes frames, writes and checks them, and gives
--                         them back, over BitmapPool.
--   RunPool               MP3_Sources/cont_frame_pool.{H,C}: the same in memory, with another search.
--   DirectPaging          MP3_Sources/page_table.{H,C}: class PageTable of MP3 over physical memory and RunPool;
--                         DirectPaging/Walk has the translation by the processor.
--   Mmu                   What the kernel relies on of the processor's paging, as an interface with laws; a
--                         walk through the tables meets it (Mmu/Walk).
--   PageTable             MP4_Sources/page_table.{H,C}: class PageTable over memory, the control registers and two
--                         frame pools.
--   VmPool                MP4_Sources/vm_pool.{H,C}: class VMPool; its release is in VmPool/Release.
--   Scheduler             MP6_Sources/scheduler.C: the ready queue, a ring of ten threads, with
--                         `current_thread` of MP6_Sources/thread.C.
--   MemPool               MP5_Sources/frame_pool.{H,C} and mem_pool.{H,C}: memory that is handed out in order.
--   RoundRobin            MP5_Sources/scheduler.{H,C}: the ready queue as nodes in memory from MemPool, and the
--                         timer that ends a quantum.
--   Thread                MP5_Sources/thread.{H,C}: the constructor and the stack that it sets up.
--   LinkedQueue           Queues linked through memory, as RoundRobin and NonblockingDisk have them.
--   NonblockingDisk       MP6_Sources/nonblocking_disk.{H,C}: the queue of disk requests, linked
--                         through memory, over the scheduler; and `pass_on_CPU` of
--                         MP6_Sources/kernel.C.
--   DescriptorTables      MP7_Sources/gdt.C and idt.C, and the gates that exceptions.C and interrupts.C set;
--                         DescriptorTables/Decode has the entries as the processor reads them.
--   InterruptHandler      MP6_Sources/interrupts.{H,C}: the table of handlers and the dispatcher.
--   ExceptionHandler      MP7_Sources/exceptions.{H,C}: the table of handlers and the dispatcher.
--   SimpleTimer           MP6_Sources/simple_timer.{H,C}: the count of ticks and seconds, its frequency,
--                         and the busy wait.
--   Utils                 MP7_Sources/utils.C: memsetw, strlen and uint2str.
--   Console               MP7_Sources/console.{H,C}: the screen, its cursor and the output to the serial port.
-- The children of a module hold the lemmas and theorems about it; its Tests hold runs and concrete
-- instances.
--
-- How they interact: PageTable takes frames from FramePool and asks VmPool for the addresses of a
-- pool, VmPool releases pages through PageTable, and both reach memory through Mmu. A File holds an
-- inode of the FileSystem and asks it for blocks when it grows; both reach the disk through
-- BlockDevice only, which the disk driver fills. FileTest runs the files and the file system together,
-- on any block device, so on the driver too. MemoryTest takes frames from BitmapPool, and DirectPaging
-- from RunPool. The NonblockingDisk asks the Scheduler to yield and to resume threads; a disk
-- interrupt and the poll before each pass of the processor wake a thread. Both the disk and the
-- timer are handlers that InterruptHandler runs: it takes the state of the rest of the kernel and
-- the handlers as parameters.
--
-- Choices of the model:
--   - A C object is a record, a method takes it and gives it back. A static variable is a field.
--   - An array is a function from indices, a pointer an address with 0 for null. Memory that the code
--     does not initialise is an argument, so the theorems hold for any contents.
--   - `unsigned int` and `unsigned long` have 32 bits; a sum or difference that can wrap has its
--     `% 2 ^ 32` written out. Frame numbers and their sums stay far below and do not wrap.
--   - A failed `assert` ends the run (`halted`). An endless loop is `out_of_fuel`.
--   - `File.write` runs its loop on one unit of fuel more than the bytes to write: each round writes a
--     byte at least or is the last. The busy wait of the timer takes fuel and the timer as each of
--     its checks finds it. `get_frames` takes its fuel as an argument; the search ends for
--     each fuel above the index of the first byte behind the bitmap that is not the mark of a used
--     frame, as every round moves on by one frame at least.
--   - The disk driver waits on fuel for the reads of a busy status; one more than the slowest command of
--     the drive needs is enough. A drive that is busy with a block when the flush comes may drop it.
--   - `test_memory` and the page table of MP3 reach memory at physical addresses: memory is an array of
--     words. With paging on that is right below 4 MB, which MP3 maps to themselves: its fault handler is looked at
--     with the kernel's pool, so with all tables, there.
--   - The bitmap of a frame pool and the region array of MP4's VMPool are functions, apart from the frames and pages
--     that they lie in. Where the code bounds neither, the theorems ask that they fit: a bitmap outside the frames that
--     its pool hands out, a region array with a free entry.
--   - The page table of MP4 passes its fuel to `get_frames`; `z` in its theorems is the index at which that search ends.
--     A page fault inside its own code is `halted`.
--   - The context switch is seen from the scheduler: after it the chosen thread is the current one.
--   - Output to the console is left out, but in Console itself; strlen takes fuel there, as a string need not end.
--
-- Not modelled: the boot code, the interrupt controllers and assembly stubs (machine state that C does
-- not see); the kernels' demonstration threads; and the printing of signed numbers.
pub mod Base
pub mod BitmapPool
pub mod BlockDevice
pub mod Console
pub mod DescriptorTables
pub mod DirectPaging
pub mod ExceptionHandler
pub mod File
pub mod FileSystem
pub mod FileTest
pub mod FramePool
pub mod FrameStates
pub mod InterruptHandler
pub mod LinkedQueue
pub mod MemPool
pub mod MemoryTest
pub mod Mmu
pub mod NonblockingDisk
pub mod PageTable
pub mod RoundRobin
pub mod RunPool
pub mod Scheduler
pub mod SimpleDisk
pub mod SimpleTimer
pub mod Thread
pub mod Utils
pub mod VmPool
