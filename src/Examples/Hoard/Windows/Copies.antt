-- ===== src/Examples/Hoard/Windows/Copies.antt =====
-- The functions that hoard_redirect_win.cpp has again, word for word, from hoard_thread_hooks_win.cpp.
use alloc.Base.{ℕ}
use alloc.Machine.{Ptr, M}
use alloc.Examples.Hoard.Windows.{
  WinState, MainHeap, win_initialize_custom_heap, win_get_custom_heap, win_xxthread_init,
  win_xxthread_cleanup, win_thread_attach, win_thread_detach,
}

module _ {L : Type 0} (K : MainHeap L) (sizeof_tlab np : ℕ) (buffer : Ptr) where
  redirect_initialize_custom_heap : M (WinState L) Ptr
  unfolding win_initialize_custom_heap
  redirect_initialize_custom_heap = win_initialize_custom_heap K sizeof_tlab np buffer

  redirect_get_custom_heap : M (WinState L) Ptr
  unfolding win_get_custom_heap
  redirect_get_custom_heap = win_get_custom_heap K sizeof_tlab np buffer

  redirect_thread_init : M (WinState L) (Unit {0})
  unfolding win_xxthread_init
  redirect_thread_init = win_xxthread_init K sizeof_tlab np buffer

  redirect_thread_cleanup : M (WinState L) (Unit {0})
  unfolding win_xxthread_cleanup
  redirect_thread_cleanup = win_xxthread_cleanup K sizeof_tlab np buffer

  redirect_thread_attach : M (WinState L) (Unit {0})
  unfolding win_thread_attach
  redirect_thread_attach = win_thread_attach K sizeof_tlab np buffer

  redirect_thread_detach : M (WinState L) (Unit {0})
  unfolding win_thread_detach
  redirect_thread_detach = win_thread_detach K sizeof_tlab np buffer
