-- ===== src/Lib.antt =====
-- ComputeKERNEL-Edu: a simulator of an operating system kernel, in Python.
--
-- The kernel is a set of tables and managers that call each other. The physical memory manager
-- hands out frames; the virtual memory manager takes frames for the areas that it maps into the
-- address space of a process; kmalloc serves the kernel itself. The process table hands out PIDs
-- and keeps the tree of processes. The thread table makes threads, which the scheduler queues,
-- runs, blocks and wakes. Pipes and signals connect processes, system calls act on the tables for
-- a process, the virtual filesystem resolves paths over the file systems that are mounted,
-- programs are loaded into address spaces, drivers are bound to devices, and all parts write to one log.
--
-- Which file models what:
--   Memory/Pmm.antt      computekernel_edu/memory.py: Page, PhysicalMemoryManager
--   Memory/Space.antt    computekernel_edu/memory.py: VirtualMemoryArea, AddressSpace
--   Memory/Vmm.antt      computekernel_edu/memory.py: VirtualMemoryManager
--   Memory/Kmalloc.antt  computekernel_edu/memory.py: KmallocAllocator
--   Process.antt         computekernel_edu/process.py: TaskState, Credentials, FileDescriptorTable,
--                        Process, PidAllocator, ProcessTable
--   Thread.antt          computekernel_edu/thread.py: CpuContext, Thread, TidAllocator, ThreadTable
--   Scheduler.antt       computekernel_edu/scheduler.py: Scheduler
--   Ipc.antt             computekernel_edu/ipc.py: Signal, Pipe, SignalTable, IpcManager
--   Logger.antt          computekernel_edu/logger.py: LogLevel, LogEntry, KernelLogger
--   Modules.antt         computekernel_edu/module_loader.py: KernelModule, ModuleLoader
--   Devices.antt         computekernel_edu/device.py and driver.py: Device, DeviceRegistry,
--                        Driver, DriverRegistry
--   Filesystem.antt      computekernel_edu/vfs.py: InodeType, Inode, Filesystem
--   Paths.antt           computekernel_edu/vfs.py: what VFS does to the texts of paths
--   Vfs.antt             computekernel_edu/vfs.py: MountPoint, OpenFile, VFS
--   Tmpfs.antt           computekernel_edu/fs_tmpfs.py: TmpFS
--   Ext2.antt            computekernel_edu/fs_ext2.py: Ext2Superblock, Ext2BlockGroup, Ext2FS
--   Syscall.antt         computekernel_edu/syscall.py: SyscallDispatcher, the calls on processes and
--                        memory; the calls on files and the dispatch are in Syscall/Dispatch.antt
--   Elf.antt             computekernel_edu/elfloader.py: ElfSegment, FakeElf, ElfLoader
--   Power.antt           computekernel_edu/power.py: PowerState, PowerManager
--   Security.antt        computekernel_edu/security.py: check_permission, validate_user_pointer,
--                        CredentialManager
--   Arch.antt            computekernel_edu/arch.py: the tables of ArchX86_64
--   Console.antt         computekernel_edu/console.py: SerialConsole, Tty
--   Profiles.antt        computekernel_edu/profiles.py: KernelProfile, PROFILES; safe_mode.py:
--                        SafeMode
--   Boot.antt            computekernel_edu/boot.py: BootStage, BootPipeline; the stage handlers are in
--                        Boot/Stages.antt
--   KernelState.antt     computekernel_edu/kernel.py: KernelState, kmain
--   Teaching.antt        computekernel_edu/teaching.py: TeachingEngine
--   Utils.antt           computekernel_edu/utils.py: sizes, addresses, tables and colours as texts
--   Shell.antt           computekernel_edu/shell.py: the loop, the parsing of a line, main. The
--                        commands are in Shell/Actions.antt (boot, reboot, step, tick,
--                        pagefault), Shell/Services.antt (modules, signals, power, programs,
--                        pipes), Shell/Files.antt (vfs), Shell/Calls.antt (syscall),
--                        Shell/Reports.antt and Shell/Settings.antt (those that only show);
--                        Shell/Replies.antt has what they share
--   Text.antt            the methods of Python's texts that these use; Text/Numbers.antt has numbers
--                        as texts: int(s), int(s, 0), int(s, 16) and printing
-- The modules below each of these prove what holds of it. Prelude and its children hold what the
-- parts share: tests on numbers, lists, dictionaries, bounded deques and the scheme of identifiers
-- that the PID and the TID allocator have in common. Tests runs the code at concrete inputs.
--
-- How the code corresponds: a class is a record of its fields, a method a function of the same
-- name that takes the record last and returns the result and the record after it; `get` of a table
-- is `lookup`, and an `alloc` or `free` of an allocator carries what it allocates (`alloc_pid`).
-- A dictionary is a list of pairs in the order of insertion. Python's integers have no bound;
-- they are ℕ where the code never meets a negative one, and ℤ where it tests for one or returns
-- a negated error number. Objects that two parts share are references into a store: the threads
-- of the thread table and the scheduler, and the one pipe behind two descriptors. Python's `in`
-- and `remove` compare threads by identity and then field by field, and so does the model.
--
-- Every loop is by recursion on the list or the count that it runs over, but for the loop of the
-- boot pipeline, whose fuel is the number of stages that are left.
--
-- The shell is a session, which is the kernel and the profiles, that is handed from one command to
-- the next with what the command prints. Where a command has no answer, it has raised an exception, which
-- ends the run.
--
-- Not modelled: messages to the log from the other parts, which only `dmesg` shows; they are kept
-- in one object for the whole program, so that they outlive a kernel that `reboot` replaces. The
-- clock, whose readings are given with each message. What a lesson, the roadmap, the disclaimer, the
-- state of the network and the lines of the log say, for which the shell's answers have a name and
-- not the text. Texts with lone surrogates; digits, spaces and letters of two cases beyond ASCII.
-- System calls with arguments of another type than the handler declares, but for the texts that the
-- shell passes, and with addresses or sizes to read below 0. The parts that are not listed above,
-- among them the roadmap and the texts of the lessons, which are an argument of the engine that
-- looks them up. Of cmd.Cmd, which the shell extends, the model has what Python documents: a line
-- is a name and the rest, the end of the input is the line EOF, and the loop goes on until a
-- command says to stop.
mod Prelude
pub mod Memory
pub mod Process
pub mod Thread
pub mod Scheduler
pub mod Ipc
pub mod Logger
pub mod Modules
pub mod Devices
pub mod Paths
pub mod Filesystem
pub mod Vfs
pub mod Tmpfs
pub mod Ext2
pub mod Syscall
pub mod Elf
pub mod Power
pub mod Security
pub mod Arch
pub mod Console
pub mod Profiles
pub mod Boot
pub mod KernelState
mod Tests
pub mod Teaching
pub mod Text
pub mod Utils
pub mod Shell
