-- ===== src/Heap.antt =====
-- source/tbx_heap.c: the bump allocator over one static buffer. Assertions are off, as by default.
pub mod Bounds
pub mod Requests
use microtbx.Base.{ℕ, ◌+◌, ◌-◌, ◌%◌, ◌<◌, ◌≤◌, ◌≡◌, bit_and, ltb, leb, if◌then◌else◌}
use microtbx.Target.{Target, Config, Ptr, null, sizeof_ptr, size_mod}
use microtbx.CritSect.{Crit, enter, leave}

-- `tbxHeapAllocated`, and the critical section that every module shares.
pub record Heap : Type 0 where
  pub crit : Crit
  pub allocated : ℕ

-- `(size + (sizeof(void *) - 1U)) & ~(sizeof(void *) - 1U)` in `size_t`.
unfoldable pub size_wanted : Target → ℕ → ℕ
size_wanted t size =
    let mask = sizeof_ptr t - 1 in bit_and ((size + mask) % size_mod t) (size_mod t - 1 - mask)

-- `TBX_CONF_HEAP_SIZE - tbxHeapAllocated` in `size_t`.
unfoldable pub size_available : Target → ℕ → ℕ → ℕ
size_available t heap_size allocated =
    (heap_size + size_mod t - allocated % size_mod t) % size_mod t

unfoldable pub allocate : Config → ℕ → Heap → Ptr × Heap
unfolding size_wanted size_available enter leave
allocate c size h =
    if ltb 0 size
    then (let wanted = size_wanted c.target size in
        let crit = enter c.port h.crit in
        if leb wanted (size_available c.target c.heap_size h.allocated)
        then (
          c.base + h.allocated,
          record {
            crit = leave c.port crit;
            allocated = (h.allocated + wanted) % size_mod c.target;
          },
        )
        else (null, record h { crit = leave c.port crit }))
    else (null, h)

unfoldable pub get_free : Config → Heap → ℕ × Heap
unfolding size_available enter leave
get_free c h =
    let crit = enter c.port h.crit in
    (size_available c.target c.heap_size h.allocated, record h { crit = leave c.port crit })
