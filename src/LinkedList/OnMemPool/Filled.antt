-- ===== src/LinkedList/OnMemPool/Filled.antt =====
-- The interface of source/tbx_list.c, filled by source/tbx_mempool.c and source/tbx_critsect.c.
use microtbx.Base.{ℕ, ◌+◌, ◌<◌}
use microtbx.Target.{Config, sizeof_ptr}
use microtbx.CritSect.{enter, leave}
use microtbx.CritSect.Nested.{
  Restored_refl, Restored_trans, Restored-IsReady, enter-IsReady, section-Restored,
}
use microtbx.Heap.Bounds.{Fits}
use microtbx.MemPool.Ends.{IsPools-crit}
use microtbx.MemPool.Grow.{Full}
use microtbx.MemPool.Refill.{assemble}
use microtbx.LinkedList.Laws.{Laws}
use microtbx.LinkedList.OnMemPool.{mem_pools, Holds, Settled}
use microtbx.LinkedList.OnMemPool.Granted.{allocate_law, release_law}
use microtbx.LinkedList.OnMemPool.Extended.{create_law}

-- For blocks of a positive size that, with its size word, fits into `size_t`, the memory pools and the
-- critical sections keep the Laws that the lists rely on: a section is left as it was entered; a block
-- that is handed out is none that a client holds; a request for one more block fails only if the heap
-- has no room for it and the structs around it, and otherwise the next allocation succeeds; a block
-- that a client holds can be given back, and all others stay with their clients.
pub mem_pools-Laws :
    (c : Config) (size : ℕ)
    → 0 < size
    → Fits c.target (sizeof_ptr c.target + size)
    → Laws (mem_pools c) size (Holds c) Settled (Full c size)
mem_pools-Laws c size pos fits = record {
  same_refl = λ s. Restored_refl s.heap.crit;
  same_trans = λ s t u. Restored_trans;
  enter = λ k live s h. record {
    home = h.home;
    views = h.views;
    ready =
        assemble h.ready.config h.ready.port (enter-IsReady h.ready.port h.ready.sections)
          (IsPools-crit (enter c.port s.heap.crit) h.ready.pools);
    held = h.held;
  };
  leave = λ k live live' s t h same h'.
      let back = section-Restored h.ready.port h.ready.sections same in
      (
        record {
          home = h'.home;
          views = h'.views;
          ready =
              assemble h.ready.config h.ready.port (Restored-IsReady back h.ready.sections)
                (IsPools-crit (leave c.port t.heap.crit) h'.ready.pools);
          held = h'.held;
        },
        back,
      );
  allocate = λ k live s h. allocate_law c size pos k live s h;
  create = λ k live s h.
      let (made, s', run, same, (h', outcome)) = create_law c size pos fits k live s h in
      (made, s', run, same, h', outcome);
  release = λ k live q s h l. release_law c size pos k live s h q l;
}
