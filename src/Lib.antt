-- ===== src/Lib.antt =====
-- Verification of the proof-of-concept programs in Rust that go with the audits: each of them carries
-- a piece of code from the audited project and runs it. The parts are the projects.
--
-- Pushpin: pushpin/poc. `Pushpin/ContentLength` models `process_request` of 012-content-length, with
--   the header list of `httparse` as its input: `header_round` is the body of the loop, `header_loop`
--   the loop. `Decimal` is about `parse_as_int`, `Framing` about the loop, `Smuggling` about `main`.
--   `Pushpin/SocketRace` models 001-unix-socket: `main_step` and `attacker_step` are the next operations of
--   the two threads, `Step` takes either; the system calls are the interface of `Kernel`.
-- LolHtml: lol-html/pocs. `Namespaces` (repro-001) and `Counters` (repro-002) are the drivers, `Stream` their
--   loop, `Lines` what it prints; the rewriter and `getrusage` are arguments.
-- The other parts are the components that rust-stdlib/pocs is about; the number of a program stands
-- behind its file.
-- Core: library/core. `Core/CarryingMul` (182, on bit patterns of 64 bits), `Clamp` (181), `Duration` (047,
--   048), `CachedPower` (099), `Quicksort` (100).
-- Alloc: the choice of the allocator (061, 102).
-- Hermit: `Converted` (105) and `Negated` (106), the error conversion `cvt`.
-- Libm: `Exponent` (045) and `Mantissa` (046) of hexadecimal floats.
-- Motor: `Spawn` (108), `Addresses` (049, 050; `ToSocketAddrs` is an argument).
-- Neon: `Suffix` (161), `Variants` and `KeySet` (162), `Wildcards` (163) of the intrinsics' generator.
-- ProcMacro: `Literal` (003), `MetaVars` (065).
-- Simd: `Lanes` (090, 091, 093), `Features` (063).
-- Sgx: `UserSlice` (071) with the two threads of the program: `Step` takes the next operation of either, and each
--   access of a byte as the machine does. `Layouts` (069, 070): what the unsafe library call does is an argument.
-- Solid: `RemoveDir` (020), `Sockaddr` (142), `SpinMutex` (107). The depth of the walk is counted down from
--   5, where the source counts it up to 4. `SpinMutex/Cores` takes `with_locked_buggy` apart into its operations,
--   for calls on any number of cores, over `Base/Threads`; a spin is a step that is tried again.
-- Sync: `TimedRace` (067, both threads with the lock and the clock; the passing of time is a step), `Poison` (068).
-- Uefi: `SystemTime` (`from_uefi` of 143 and 144), `Handles` (004; the routines take the firmware),
--   `DevicePath` (005), `FileInfo` (006), `Completion` (007), `Leaks` (030, 031, 032), `BootServices` (060).
--   The loop over a device path takes the rounds that are left before the source's `cap` ends it.
-- Unix: `AltStack` (010; `sys` is an argument), `ReadFile`, `Interrupted` and `Signal` (123; `Signal` has both
--   threads, with what POSIX says of signals), `Vectored` (029). `Redirect` (025), `Restore` (026) and
--   `OpenLeak` (122) share `Descriptors`, an interface of the calls on descriptors with the laws of the
--   process's table. System calls are arguments or lists of replies.
-- Windows: `Reparse` (008), `Directory` (009), `UnicodeString` (062), `InheritRace` (066, both threads).
-- Xous: `Receive` (021, 022), `Send` (023), `Accept` (042), `Names` (040), `Lend` (121, 141), `Stack` (043, 044),
--   `Listener` (041; each atomic operation of a thread is a step of the system).
--
-- A call that can panic returns an `Outcome`; `assert` and `unwrap` go through it. A `Build` says whether
-- the overflow checks are on; the arithmetic operators of a type take it. A `usize` has 64 bits. A
-- slice or a buffer is a list. `main` returns when all its assertions hold, or returns its exit code;
-- what it prints is left out. `Base` holds these notions and the lemmas that the parts share.
--
-- Not modelled: the programs that only call a library that is not in the repository (panic hooks, type
-- metadata, `next_chunk`: 002, 098, 183, 184), the published pointer of 103, whose only effect is a data
-- race of the memory model, and the audit's texts, patches and programs in other
-- languages.
mod Base
pub mod Pushpin
pub mod Core
pub mod Alloc
pub mod Hermit
pub mod Libm
pub mod Neon
pub mod ProcMacro
pub mod LolHtml
pub mod Motor
pub mod Sgx
pub mod Simd
pub mod Solid
pub mod Sync
pub mod Uefi
pub mod Unix
pub mod Windows
pub mod Xous
