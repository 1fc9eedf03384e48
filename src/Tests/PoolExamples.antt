-- ===== src/Tests/PoolExamples.antt =====
-- The properties of source/tbx_mempool.c and source/extra/freertos/tbx_freertos.c at a state with one
-- pool of two blocks.
use microtbx.Base.{
  ℕ, ◌+◌, ◌≡◌, ◌≤◌, ◌⊎◌, inl, refl, arith, List, [], ◌∷◌, true, ◌==◌, if◌then◌else◌,
}
use microtbx.Target.{Ptr, null}
use microtbx.MemPool.Store.{State, ok, continue}
use microtbx.MemPool.PoolList.{find_best_fit, insert}
use microtbx.MemPool.Api.{create, allocate, allocate_auto, release}
use microtbx.MemPool.Store.{put}
use microtbx.MemPool.Frame.{Frame, IsView-frame}
use microtbx.MemPool.Grow.{extend, extend_old}
use microtbx.MemPool.View.{View, IsPools}
use microtbx.MemPool.Search.{find_best_fit_lem}
use microtbx.MemPool.Take.{taken, after, IsPools-take}
use microtbx.MemPool.Ends.{Ends, Ready}
use microtbx.MemPool.Allocate.{Allocated, Kept, allocate-Allocated}
use microtbx.MemPool.Release.{Released, release-Released, release-allocate}
use microtbx.MemPool.NewPool.{Grown}
use microtbx.MemPool.Create.{Created, create-Created}
use microtbx.MemPool.Refill.{AutoAllocated}
use microtbx.MemPool.Auto.{allocate_auto-AutoAllocated}
use microtbx.MemPool.Fresh.{allocate-apart}
use microtbx.MemPool.Client.{Call, Apart, serve_all}
use microtbx.MemPool.Client.Series.{serve_all-Apart}
use microtbx.MemPool.InsertStep.{IsNew}
use microtbx.MemPool.Insert.{Entered, insert-Entered}
use microtbx.FreeRtos.{Os, malloc}
use microtbx.FreeRtos.Malloc.{Malloced, malloc-Malloced}
use microtbx.Tests.{small, start}
use microtbx.Tests.Stocked.{
  home, pool16, stocked, stocked_memory, stocked-IsPools, stocked-Ready, stocked-Ready1,
  small-IsConfig, simple-IsPort, start_home, start-IsPools, start-IsReady,
}

allocate-Allocated_example :
    Ends
      (λ p s'. Allocated small home (pool16 ∷ []) 9 p s' × Kept stocked s')
      (allocate small 9 stocked)
allocate-Allocated_example =
    allocate-Allocated {c = small} {home = home} {vs = pool16 ∷ []} {s = stocked} 9 stocked-Ready1
      (omega arith)

create-Created_example :
    Ends
      (λ made s'. Created small (pool16 ∷ []) 1 8 made s' × Grown stocked s')
      (create small 1 8 stocked)
create-Created_example =
    create-Created {c = small} {home = home} {vs = pool16 ∷ []} {s = stocked} 1 8 (omega arith)
      (omega arith) (omega arith) stocked-Ready

allocate_auto-AutoAllocated_example :
    Ends
      (λ p s'. AutoAllocated small (pool16 ∷ []) 16 p s' × Grown stocked s')
      (allocate_auto small 16 stocked)
allocate_auto-AutoAllocated_example =
    allocate_auto-AutoAllocated {c = small} {home = home} {vs = pool16 ∷ []} {s = stocked} 16
      (omega arith) (omega arith) stocked-Ready

-- With the first block handed out.
abbrev rest : List (Ptr × Ptr)
rest = (4152, 4168) ∷ []

abbrev held : State
held = after {c = small} {home = home} {s = stocked} [] pool16 4192 4208 rest [] stocked-IsPools

abbrev held16 : View
held16 = taken pool16 4192 4208 rest

held-Ready1 : Ready small home (held16 ∷ []) 1 held
held-Ready1 = record {
  config = small-IsConfig;
  port = simple-IsPort;
  sections = stocked-Ready1.sections;
  pools =
      IsPools-take {c = small} {home = home} {s = stocked} [] pool16 4192 4208 rest []
        stocked-IsPools;
}

release-Released_example :
    Ends
      (λ _ s'. Released small home [] held16 [] 4208 [] [] s' × Kept held s')
      (release small 4216 held)
release-Released_example =
    release-Released {c = small} {home = home} {s = held} [] held16 [] 4208 [] [] refl held-Ready1

release-allocate_example :
    Ends
      (λ _ s'. IsPools small home (pool16 ∷ []) s' × Kept stocked s')
      (continue (allocate small 16 stocked) λ p. release small p)
release-allocate_example =
    release-allocate {c = small} {home = home} {s = stocked} [] pool16 4192 4208 rest []
      (omega arith) stocked-Ready1

-- Beside the block that was handed out.
allocate-apart_example :
    Ends
      (λ p _.
        (p ≡ null)
        ⊎ ((4104 ≤ p) × (p + 9 ≤ 4096 + 400) × ((p + 9 ≤ 4208) ⊎ (4208 + 8 + 16 + 8 ≤ p))))
      (allocate small 9 held)
allocate-apart_example =
    allocate-apart {c = small} {home = home} {vs = held16 ∷ []} {s = held} 9 4208 16 held-Ready1
      (omega arith) (inl (refl, refl))

find_best_fit_lem_example : find_best_fit small 9 stocked ≡ ok 4096 stocked
find_best_fit_lem_example =
    find_best_fit_lem {c = small} {home = home} {vs = pool16 ∷ []} {s = stocked} stocked-IsPools 9
      (omega arith)

-- Behind the blocks, a pool for 24 bytes was made, which is not yet in the list.
abbrev pool24 : View
pool24 = record {
  node = 4232;
  pool = 4248;
  size = 24;
  free_list = 4272;
  used_list = 4280;
  free = [];
  used = [];
  live = [];
}

abbrev home24 : Ptr → ℕ
home24 = extend home 4232 24 4280

abbrev made : State
made = record {
  heap = record { crit = stocked.heap.crit; allocated = 192 };
  memory = record stocked_memory {
    pool_node =
        put stocked_memory.pool_node 4232 (record { pool_ptr = 4248; next_node_ptr = null });
    pool =
        put stocked_memory.pool 4248
          (record { block_size = 24; free_block_list_ptr = 4272; used_block_list_ptr = 4280 });
    block_list = put (put stocked_memory.block_list 4272 null) 4280 null;
  };
  pool_list = 4096;
}

pool24-IsNew : IsNew made.memory home24 4288 pool24
pool24-IsNew = record {
  node_at = (omega arith, omega arith, refl);
  pool_at = (omega arith, omega arith, refl);
  pool_is = refl;
  alone = refl;
}

made-Frame : Frame 0 stocked_memory made.memory home home24 4232 4288
made-Frame = record {
  grow = omega arith;
  homes = extend_old home 4232 24 4280;
  nodes = λ a _ _. refl;
  lists = λ a lt _. ground (arith, lt);
  pools = λ a lt _. ground (arith, lt);
  words = λ a _. refl;
}

insert-Entered_example :
    Ends
      (λ _ s'. Entered 8 home24 4288 made pool24 pool24-IsNew (pool16 ∷ []) s')
      (insert small 4232 made)
insert-Entered_example =
    insert-Entered 8 home24 4288 made pool24 pool24-IsNew small (pool16 ∷ [])
      (IsView-frame made-Frame (omega arith) stocked-IsPools.views.0, tt) (omega arith, refl, tt)
      (tt, tt) (omega arith, tt) refl (omega arith)

-- What FreeRTOS and the application were called for, the last call first, and how full the heap was.
data Note : Type 0 where
  suspended resumed failed : (allocated : ℕ) → Note
  traced : (result : Ptr) (size allocated : ℕ) → Note

abbrev noting : Os (List Note)
noting = record {
  suspend_all = λ s t. Note.suspended s.heap.allocated ∷ t;
  trace_malloc = λ p size s t. Note.traced p size s.heap.allocated ∷ t;
  resume_all = λ s t. Note.resumed s.heap.allocated ∷ t;
  malloc_failed_hook = λ s t. Note.failed s.heap.allocated ∷ t;
}

malloc-Malloced_example :
    Ends
      (λ r s'.
        Malloced small home (pool16 ∷ []) 24 r.0 s'
        × Grown stocked s'
        × (r.1 ≡ (
            let resumed =
              Note.resumed s'.heap.allocated
              ∷ Note.traced r.0 24 s'.heap.allocated
              ∷ Note.suspended 136
              ∷ [] in
            if r.0 == null then Note.failed s'.heap.allocated ∷ resumed else resumed)))
      (malloc noting true small 24 [] stocked)
malloc-Malloced_example =
    malloc-Malloced {c = small} {home = home} {vs = pool16 ∷ []} {s = stocked} 24 (omega arith)
      (omega arith) stocked-Ready noting true []

-- Both pointers of the first pool, the second given back, and one from a pool of its own.
abbrev calls : List Call
calls =
    Call.create 2 16
    ∷ Call.allocate 9
    ∷ Call.allocate 16
    ∷ Call.release 0
    ∷ Call.allocate_auto 8
    ∷ Call.release 7
    ∷ []

start-Ready : Ready small start_home [] 2 start
start-Ready = record {
  config = small-IsConfig;
  port = simple-IsPort;
  sections = start-IsReady;
  pools = start-IsPools;
}

serve_all-Apart_example :
    Ends
      (λ lent s'.
        Apart small lent × ((home' : Ptr → ℕ) × (vs : List View) × IsPools small home' vs s'))
      (serve_all small calls [] start)
serve_all-Apart_example =
    serve_all-Apart {c = small} {home = start_home} {s = start} calls start-Ready (
      (omega arith, omega arith, omega arith),
      (omega arith, (omega arith, (tt, ((omega arith, omega arith), (tt, tt))))),
    )
