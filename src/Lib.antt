-- ===== src/Lib.antt =====
-- chromatic: the C++ core of an instrumentation toolkit that scripts use to read, scan, patch and
-- watch the process that they run in.
--
-- The program. Scripts call static functions of the bindings in src/core/bindings. Every binding
-- takes and gives addresses and ids as hexadecimal text. Several keep process-wide state: the
-- exception handler keeps a registry of callbacks and the signal handlers that it replaced; the
-- memory access monitor, the software and the hardware breakpoints register callbacks there and
-- count as its users; the interceptor and the software breakpoints patch code through the code
-- relocator, which asks the disassembler for the instructions that it moves and asmjit for
-- executable memory, and execute breakpoints of the hardware use its trampolines. When a script's
-- runtime ends, its clean-up ends the work of all of these, one after the other, over the state
-- that they share.
--
-- What models what. All paths below are under src/core/bindings if nothing else is said; a
-- function of the source has the model's name in snake_case (toHexAddr is to_hex_addr), and the
-- globals of a file are one record.
--   Hex: toHexAddress, parseHexAddress, bytesToHex and hexToBytes of native_memory.cc, which the
--     other files repeat. std::stoull with base 16 is written out: white space, sign, prefix,
--     overflow.
--   Scan: parsePattern, bmhScan and scanMemory of native_memory.cc.
--   Handlers, Handlers/Signals: native_exception_handler.cc. The state is the record Handlers; the
--     table of the kernel for sigaction is its field `current`.
--   Monitor, Monitor/Ring: native_memory_access_monitor.cc. The state is Monitors, with the
--     registry of Handlers in it; calls of scripts' functions are a log.
--   Disassembler: native_disassembler.cc, over what Capstone decodes.
--   Relocator, with Ops, Host, Trampoline and Systems: internal/code_relocator.cc. Code for asmjit
--     is the list of the calls made of its assemblers; the process is its memory, its protections
--     and the addresses of the live JIT code. makeWritableAndPatch of Linux and Android is in
--     Relocator and used by the components; its other branches are in Systems. Relocator/Cpu and
--     Relocator/CpuArm64 describe what the processors do with the trampolines' instructions.
--   Interceptor: native_interceptor.cc. Breakpoint: native_breakpoint.cc. Both hold the process;
--     the breakpoints hold the exception handlers too.
--   HwBreakpoint, with Slots, Windows and Requests: native_hw_breakpoint.cc. The state
--     HwBreakpoints has the debug registers of the calling thread and the open perf events besides
--     the globals. Windows sets them in a CONTEXT, as winSetDebugReg does.
--   Memory, with Systems: the calls of native_memory.cc that read, write, allocate, protect, patch
--     and copy, and the texts of protections. Memory has the POSIX branches, Systems the others.
--   Process, with Loaded, Ranges, Symbols and Identity: native_process.cc, on Linux and Android in
--     Process, on Windows and macOS in the others; Identity has the page size and the ids.
--   Ffi, with Decimal and Callbacks: native_ffi.cc. Decimal is std::to_string, stoll, stoull and
--     stoi.
--   ModuleSearch: scanModule and findXrefsInModule, over Scan, Disassembler and Process.
--   Console: console.cc, whose output is a list of lines.
--   Runtime: runtime::cleanup of src/core/script.cc. Its state Program holds the process and the
--     registry once, and they are put into each component's record for its step. Runtime/Session:
--     runtime::reset and runtime::eval_script.
--   Platform: the configuration macros. Base: the shared types, tests, maps, the state-and-
--     exception monad of the operations that throw, and lemmas. The other modules under a
--     component are proofs about it; Examples has runs and each result at an input.
--
-- How the code is rendered. Addresses are natural numbers below 2 ^ 64, and sums wrap by `% 2 ^
-- 64` where the source's do and the result is used as an address. Memory is a function from
-- addresses to bytes. A function that throws is an Outcome, which keeps the state that the
-- exception leaves; a function without state gives a Result. An std::unordered_map is an
-- association list, whose order stands for the order in which the map is walked. Locks are left
-- out: every operation is one step, and a signal is a step between two operations.
--
-- Bounds and fuel. The search loop of bmhScan has the length of the memory plus one rounds, and
-- its offset grows in each. drainPending has 257 rounds; the result about it covers every queue
-- that the ring can hold. findXrefs has the size of the range plus one rounds, since each round
-- moves on by a byte at least. relocate_from has one round more than the bytes to be moved, and an
-- instruction of size 0 is an error. A 64-bit number has at most 16 hexadecimal and at most 20
-- decimal digits. The loops over the regions of memory on Windows and macOS take their fuel as an
-- argument, and 2 ^ 64 is enough, since each region has a byte at least.
--
-- What is a parameter. Capstone (`disasm`, with the law that a decoded instruction has a byte at
-- least), JitRuntime::add, mprotect, mmap, munmap, the page size, perf_event_open, the addresses
-- of the dispatch functions, what a registered callback does, the clock and the text of a duration
-- on the console, libffi with the text of float and double, and what the systems report of their
-- modules and regions: the lines of /proc/self/maps by their fields, dlopen, dlsym, dladdr, the
-- images of dyld with their load commands, and on Windows the answers of VirtualAlloc,
-- VirtualFree, VirtualProtect, VirtualQuery, EnumProcessModules, GetModuleInformation and
-- GetProcAddress, and vm_protect on macOS. The script context of breeze-js is one too: what resetting
-- it and evaluating a script make of it. A script's function is a number; an exception that it throws is caught by the
-- caller in the source, so that its call is only recorded.
--
-- What is not modelled. The vector registers, which the trampolines do not save, in the descriptions of
-- the processors; the colours of the console; flushing the instruction cache after a patch; the
-- thread of a debug register, since only the calling one is set; opening Capstone; the Async
-- variants, which pass on to modelled calls; generated bindings, the script engine itself, the
-- TypeScript layer.
pub mod Base
pub mod Hex
pub mod Memory
pub mod Scan
pub mod Platform
pub mod Handlers
pub mod Monitor
pub mod Disassembler
pub mod Relocator
pub mod Interceptor
pub mod Breakpoint
pub mod HwBreakpoint
pub mod Process
pub mod Ffi
pub mod ModuleSearch
pub mod Runtime
pub mod Console
pub mod Examples
