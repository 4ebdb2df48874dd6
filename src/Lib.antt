-- ===== src/Lib.antt =====
-- alloc8: a library that puts an allocator in the place of malloc, free and operator new. An
-- allocator is a class with malloc, free, getSize, memalign and locks; HeapRedirect makes of
-- it the functions xxmalloc, xxfree and so on; a wrapper for each platform makes of these the
-- functions of the C library, and puts them in the place of the original ones.
--
-- Machine: the memory that the code runs on, as bytes by address, with the state of the
-- allocator and errno. A call returns, throws, aborts, or makes an invalid access; memcpy
-- between ranges that overlap is one. strlen reads at most to the end of the address space,
-- which is its fuel: a string inside a block ends before. A size_t is a number below 2 ^ 64,
-- and the wrap-around is written out (Base/Words).
-- Errno: the constants.
-- Heap: the allocator as a record of operations (the concepts in
-- include/alloc8/allocator_traits.h), and in Heap/Contract what the wrappers rely on in it,
-- over `live`, which gives the size of the block at an address in the allocator's state.
-- Heap/Bump is an allocator that meets it, for examples. Heap/Moving, Resizing, Filling,
-- Aligning, Strings and Bounded have the steps that several wrappers share.
-- Xx: the xxmalloc interface (include/alloc8/alloc8.h) and its contract. Redirect:
-- HeapRedirect, ThreadRedirect and the macros that name the functions.
-- Linux/Wrapper: src/platform/linux/gnu_wrapper.cpp, where `custom_f` is CUSTOM_PREFIX(f).
-- Linux/Header: include/alloc8/gnu_wrapper.h, the same wrapper without the xx functions
-- between.
-- Threads: src/platform/linux/linux_threads.cpp. Each function is one step of the process, and
-- Threads/Steps lets the threads take their steps in any order. Mac/Threads: the same code for
-- macOS.
-- Forks: the fork handlers that each of the wrappers registers. A process is its machine and
-- where each of its threads is; a fork leads to the process that goes on and to the child,
-- which has one thread.
-- Common: src/common/wrapper_common.cpp. NewDelete: src/common/new_delete.cpp.
-- Ansi: ANSIWrapper of include/alloc8/ansi_wrapper.h. Ansi/Stack has it as the allocator below
-- HeapRedirect.
-- Mac: src/platform/macos/mac_wrapper.cpp, with the zones of mac_zones.cpp in Mac/Zones.
-- Detours: src/platform/windows/win_wrapper_detours.cpp, with the installation in
-- Detours/Attach, over what the Detours library documents of a transaction, where attaching,
-- detaching and each commit may fail, and the table of the exports in Detours/Entries.
-- Windows: the import redirection (alloc8_redirect.cpp), the jumps (x86_jump.h), and the
-- thread notifications (win_threads.cpp).
-- Table: include/alloc8/function_table.h.
-- Examples: the allocators of examples/. Examples/Hoard is the build for Unix, and
-- Examples/Hoard/Windows that for Windows, where each thread's heap is in a slot of
-- thread-local storage: TlsGetValue and TlsSetValue are read as the access to the slot of the
-- thread that runs.
-- Programs: what stands above the wrappers. A program is a list of statements that call
-- malloc, calloc, realloc and free of its platform, and read and write bytes of what they
-- gave; Programs/Arrays is what it means over separate arrays, Programs/Owners ties its
-- variables to the blocks of the heap, Programs/Platforms has the functions that each wrapper
-- gives it, and Programs/Everywhere puts the parts together. Examples/SimpleHeap/Whole is the
-- class over an allocator that stands for libc.
-- Tests: the theorems at concrete inputs.
--
-- Not modelled: libc, the dynamic loaders, Windows, the Detours library, Hoard and DieHard are
-- parameters where the code relies on them. The interposition tables of macOS, the DllMain
-- that only call one function, the output of messages, the pinning of a library and the macros
-- for each compiler are not modelled. The atomic counters of the simple heap are plain
-- numbers: each call is one step, but for the loop on the peak, which
-- Examples/SimpleHeap/Retry runs attempt by attempt among those of other threads, on fuel.
mod Base
mod Errno
pub mod Machine
pub mod Heap
pub mod Xx
pub mod Redirect
pub mod Linux
pub mod Common
pub mod NewDelete
pub mod Ansi
pub mod Mac
pub mod Detours
pub mod Windows
pub mod Threads
pub mod Table
pub mod Programs
pub mod Forks
pub mod Examples
mod Tests
