-- ===== src/Lib.antt =====
-- usercorn: an emulator framework that runs binaries of other systems and records what they do.
--
-- The parts, and the files that model them (paths from the root of the repository):
--
-- * go/models/trace/ops.go, the operations of a recorded run. Trace/Op has them and their sizes
--   (`Sizeof`), Trace/Pack the writing into a buffer (`Pack`, `packOps`), Trace/Unpack the reading
--   from a stream (`Unpack`, `unpackOps`). A buffer is a list of bytes, a panic is `none` where it is
--   written and a result of its own where it is read.
-- * go/models/trace/tracefile.go, the frames of a trace, in Trace/File. The header of a file and its
--   compression are libraries' and are left out: the stream is what is read through them.
-- * go/models/trace/filter_membatch.go, which gathers the reads and writes of a basic block, in
--   Trace/Batch.
-- * go/models/trace/replay.go, which plays a trace back into a memory, registers and a call stack, in
--   Trace/Replay. It uses the models of these.
-- * go/models/trace/trace.go, which turns what the hooks report into operations in frames, in
--   Trace/Collect; Trace/Collect/Keyframe is `Attach`. It uses the model of the filter. What `Pack`
--   and the callbacks are given is kept in lists, and what the hooks, the map hooks and the system
--   calls report is a sequence of events.
-- * go/models/cpu/page.go in Cpu/Page and Cpu/Pages, go/models/cpu/memsim.go in Cpu/MemSim: the
--   simulated memory, a list of pages sorted by address. Cpu/Space is the abstract memory, from an
--   address to a byte and its protection, and what it means that the pages are well formed; its children
--   are about `Unmap` and `Prot` (Parts, Pieces, Change), the checks and reading (Reads, Valid,
--   Access), writing (Put, Writes, Store) and mapping (Insert, Maps). Cpu/Search is about the binary
--   search.
-- * go/models/cpu/mem.go in Cpu/Mem, over the simulated memory: bounds, errors, and what is reported
--   to the hooks. go/models/cpu/pack_uint.go in Cpu/PackUint, go/models/cpu/regs.go in Cpu/Regs,
--   go/models/cpu/hooks.go in Cpu/Hooks.
-- * go/models/callstack.go, go/models/segment.go and go/models/loopdetect.go in Models, and the changes of
--   the registers, go/models/status.go, in Models/Status. Models/Loop/History relates the ring of the loop
--   detector to the addresses that it was told, Models/Loop/Shortest the search in it.
-- * go/models/gate.go, by which the emulator and a client take turns, in Models/Gate: two goroutines,
--   of which a turn does one operation on the gate, and the states that can be reached.
-- * go/task.go and go/mem.go, the mappings of a program and its stack, in Task. The memory of its cpu
--   is Cpu/Mem, the registers are Cpu/Regs.
-- * go/usercorn.go, the emulator of one program, in Corn: Corn/Load is the mapping of a binary and its
--   interpreter (`mapBinary`), Corn/Heap the break and the stack of the start, Corn/Calls the kernels,
--   the system calls and their hooks, Corn/Calls/Order what happens in a call and when, Corn/Breaks its hooks and its breakpoints
--   (go/models/breakpoint.go), Corn/Run the trampolines, Corn/Shellcode the running of code that is
--   written into the program, and Corn/Rewind the way back to an earlier instruction. It uses the
--   mappings of Task, the hooks of Cpu/Hooks and, for the way back, Trace/Replay.
-- * go/models/debug/file.go, the symbols and source lines of a file and the searches in them, in
--   Symbols.
-- * go/kernel/posix/kernel.go, the stack that a program starts with, in Posix, over the stack of Task;
--   go/kernel/linux/elf_auxv.go, the auxiliary vector on it, in Linux;
--   go/kernel/mach/ports.go, the messages to the kernel of Mach, in Mach.
-- * go/arch/x86_16/dos.go, the kernel of DOS, in Dos: Dos/Fds is the table of the descriptors,
--   Dos/Scanning the reading of a text from memory, Dos/Calls what a program sees of the calls. The
--   host is a parameter.
-- * go/debug/gdbstub.go, the stub of a debugger, in Debug: Debug/Packet is the framing on the wire
--   (`escape`, `checksum`, `Send`, the loop of `Run`), Debug/Client the commands (`Handle`), over the
--   models of memory, registers and hooks. Debug/Text has the functions on text of the Go library. What
--   the emulator does until it stops is an argument.
--
-- Numbers are natural numbers. Where the source adds or subtracts 64-bit words the wrap-around is
-- written out (`add64`, `sub64` in Base/Words); a theorem that leaves the wrap-around aside says so by
-- a bound.
--
-- Loops: most are recursions on the list that the source runs through. Fuel is used in these places.
-- `unpack` takes one unit for each level of nesting and each operation, and more than the length of
-- the stream is enough. `bsearch` takes one for each round, and the number of pages is enough.
-- `unmap_loop` takes one for each round, and the number of mappings and one is enough where the range
-- is not empty. `reserve_loop` takes one for each address that is tried, so that the number of
-- addresses is enough; on 64 bits its address wraps around behind the last page, which the theorems about
-- it leave aside where a range in front is free. `read_frames` takes one for each frame and one for the end. The
-- search of Symbols takes one for each entry, and `readUntilChar` of Dos one for each byte, with the end.
--
-- A callback is a number, and its calls are entries in a list. A Go map is a function to an option;
-- where the order of its keys is not fixed in Go, the order is not used here.
--
-- Not modelled: the rest of the main loop of go/usercorn.go, several clients of one gate, the other system
-- calls of the kernels (go/kernel), which mostly pass on to the host, the loaders
-- (go/loader), the user interface and the scripts (go/ui, go/lua, go/cmd), the tables of the architectures
-- (go/arch), the bindings of Unicorn (go/cpu), and what only prints.
pub mod Base
pub mod Corn
pub mod Cpu
pub mod Debug
pub mod Dos
pub mod Linux
pub mod Mach
pub mod Models
pub mod Posix
pub mod Symbols
pub mod Task
pub mod Trace
