-- ===== src/Table/Dispatch.antt =====
-- What the rt_ functions of function_table.h promise where g_allocator_table points at the table of a
-- HeapRedirect.
use alloc.Base.{ℕ, ◌≤◌, Option, some, size_mod}
use alloc.Machine.{Ptr}
use alloc.Heap.{Allocator}
use alloc.Heap.Contract.{IsAllocatorUpTo}
use alloc.Xx.{Xx, IsXxUpTo}
use alloc.Redirect.{alloc8_redirect}
use alloc.Redirect.Refines.{alloc8_redirect-IsXxUpTo}
use alloc.Table.{
  AllocatorFunctionTable, make_allocator_table, rt_malloc, rt_free, rt_realloc, rt_calloc,
  rt_memalign, rt_malloc_usable_size,
}

-- The functions that call through the table, with the two entries that have none.
unfoldable pub rt_functions : {H : Type 0} → AllocatorFunctionTable H → Xx H
unfolding rt_malloc rt_free rt_realloc rt_calloc rt_memalign rt_malloc_usable_size
rt_functions t = record {
  xxmalloc = rt_malloc (some t);
  xxfree = rt_free (some t);
  xxmemalign = rt_memalign (some t);
  xxmalloc_usable_size = rt_malloc_usable_size (some t);
  xxmalloc_lock = t.lock;
  xxmalloc_unlock = t.unlock;
  xxrealloc = rt_realloc (some t);
  xxcalloc = rt_calloc (some t);
}

-- Over an allocator that meets its contract, a call through the table that makeAllocatorTable fills meets
-- the contract of the xxmalloc interface, as the direct call does.
pub dispatch-IsXxUpTo :
    {H : Type 0} (live : H → Ptr → Option ℕ) (A : Allocator H) (limit : ℕ)
    → limit ≤ size_mod
    → IsAllocatorUpTo live limit A
    → IsXxUpTo live limit (rt_functions (make_allocator_table A))
unfolding rt_functions make_allocator_table alloc8_redirect
dispatch-IsXxUpTo live A limit fits is = alloc8_redirect-IsXxUpTo live A limit fits is
