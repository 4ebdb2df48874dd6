-- ===== src/Mac/Threads.antt =====
-- src/platform/macos/mac_threads.cpp: the code of linux_threads.cpp again, under names that dyld interposes.
-- A call of pthread_create or pthread_exit from this library is that of the system, as the call of
-- __pthread_create is on Linux.
use alloc.Base.{ℕ}
use alloc.Machine.{Ptr}
use alloc.Threads.{Hooks, Wrapper, Stage, Thread, Process}
use alloc.Threads

mac_pthread_hooks_init : Process → Process
unfolding Threads.alloc8_pthread_hooks_init
mac_pthread_hooks_init = Threads.alloc8_pthread_hooks_init

mac_pthread_create : Hooks → Wrapper → (p : Ptr) → (error : ℕ) → Process → Process
unfolding Threads.alloc8_pthread_create
mac_pthread_create = Threads.alloc8_pthread_create

mac_thread_trampoline : Hooks → ℕ → Thread → Stage → Process → Process
unfolding Threads.alloc8_thread_trampoline
mac_thread_trampoline = Threads.alloc8_thread_trampoline

mac_pthread_exit : Hooks → ℕ → Thread → Process → Process
unfolding Threads.alloc8_pthread_exit
mac_pthread_exit = Threads.alloc8_pthread_exit
