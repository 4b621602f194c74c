-- ===== src/Lib.antt =====
-- winVpwn runs a static x86-64 ELF image in an emulator and answers its syscalls. This library
-- models the Rust crate crates/winvpwn-core.
--
-- The parts, and how they interact. `run_elf` (Python) loads an image (Elf), which claims the ranges
-- of its segments in an address map (Memory) to find overlaps. A virtual CPU (Cpu/Vcpu) then maps the
-- pages of the segments, in an address map of its own, and a stack, and sets the first registers. At
-- each `syscall` instruction of the guest a hook (Cpu/Hook) reads the registers and calls the
-- dispatcher (Syscall/Dispatch), which looks up a handler of stage 1 (Syscall/Handlers) and records
-- the outcome in a trace (Trace). Handlers read guest memory (Vkernel/Guest) and write to captured
-- output (Vkernel/Capture). `run` (Cpu/Run) goes on to the end of the emulation and reports it.
--
-- Which file models which code, under crates/winvpwn-core/src:
--   Memory             memory/mmap.rs: `insert`, `overlaps`, `contains` and `end` by their names.
--                      Memory/Slots describes where a range fits between its neighbours.
--   Vkernel            vkernel/mod.rs, with Vkernel/Process for vkernel/process.rs.
--   Vkernel/Capture    vkernel/io.rs: the map from descriptors to bytes is an ordered list.
--   Vkernel/Guest      vkernel/mem.rs: the trait as a record, `InMemGuest` and its loops. Vkernel/Guest/Backend
--                      has `GuestMemory for InMemGuest`. Vkernel/Guest/Pokes has the abstract memory, a
--                      function from addresses to bytes that is written byte by byte.
--   Trace              trace/recorder.rs: a sink is a handle into a store of buffers, so that clones
--                      share a buffer. `push_record` is `TraceSink::record`. Trace/Histories has sequences
--                      of pushes and drains.
--   Syscall/Errno      syscall/errno.rs.
--   Syscall/Dispatch   syscall/dispatch.rs: `get` is both `find` and `get`.
--   Syscall/Handlers   syscall/dispatch_impl.rs.
--   Elf                elf/loader.rs: `load_elf` is split at its checks into `load_parsed`, `load_segments`,
--                      `claim` and `read_contents`. Elf/Format has what it takes from goblin. Elf/Magic says
--                      which images begin as ELF files.
--   Cpu/Registers      cpu/context.rs.
--   Cpu/Engine         the engine that cpu/unicorn_engine.rs uses, and `UnicornGuest` of vkernel/mem.rs.
--   Cpu/Memory         the engine's memory as a byte at each address. Cpu/Memory/Takes has triples for
--                      the methods, and Cpu/Memory/Loaded the abstract memory with segments laid over it.
--   Cpu/Vcpu           cpu/unicorn_engine.rs: the methods of `Vcpu`, state passing with early return;
--                      `last_exit_reason` is `exit_reason`, `drop_engine` is `Drop`. Cpu/Vcpu/Reachable has
--                      the states that sequences of calls reach, as a relation.
--   Cpu/Hook           the closure of `install_syscall_hook`. Cpu/Hook/Flat has the table of stage 1.
--   Cpu/Run            `Vcpu::run`. Cpu/Run/Steps has the course of a guest as a relation, and
--                      Cpu/Run/Complete the outcomes of a run. Cpu/Run/AccessFaults lists the faults
--                      that count as a fall off the image. Cpu/Run/Ideal describes a whole run from
--                      the registers up. Cpu/Run/Observed has the abstract machine
--                      of what the owner of a CPU observes: an effect for each syscall, on the output,
--                      the exit reason and the error.
--   Python             python.rs: `run_elf` and `parse_elf`.
-- The modules below these hold their theorems. Base has the shared types and lemmas: results with a
-- third case for a panic (Base/Results), methods with state and early return (Base/Exec), machine
-- words (Base/Word), texts (Base/Strings and Base/Substrings) and ordered maps (Base/BTree). Tests has the tests of the
-- definitions, and an example of each result, over a small machine; Tests/Units has the crate's own
-- unit tests as functions of the fixture, the parser and the engine.
--
-- Numbers. `u64` and `usize` are natural numbers below 2^64. Plain `+` and `-` wrap, as in a release
-- build; a debug build panics there. `i64` is an integer with a cast from and to 64 bits. Allocations
-- above `isize::MAX` bytes panic.
--
-- Loops. The loops of `InMemGuest` take a unit of fuel for each byte: each round takes a byte at
-- least, so that the fuel does not run out before the bytes do. The emulation takes a unit of fuel
-- for each syscall and one for its end; a guest may run forever, and `run` gives `none` when its fuel
-- runs out.
--
-- Parameters. The record `Goblin` is the ELF parser with the values of its constants. The record
-- `Unicorn` is the engine, with four laws: a read fills the buffer it is given, a register holds
-- what was written to it, a write to RIP leaves RSP as it is, and a stop makes the emulation return
-- without an error. The record `EngineMemory` gives the engine's memory as a byte at each address,
-- with what the code relies on: mapped memory is zero at first and other memory stays as it is, a
-- write puts its bytes at its addresses and nothing elsewhere, registers are not memory, and a read
-- of mapped memory succeeds with its bytes.
--
-- Not modelled: the mutex of a trace sink, which each operation holds from beginning to end; the
-- conversion to Python objects and the module registration; the Python package around the crate
-- (command line, terminal output, toolchain search, environment checks), which calls the crate and
-- does input and output; the crate's module roots, documents and build files.
pub mod Base
pub mod Memory
pub mod Vkernel
pub mod Syscall
pub mod Trace
pub mod Elf
pub mod Cpu
pub mod Python
pub mod Tests
