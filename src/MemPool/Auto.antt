-- ===== src/MemPool/Auto.antt =====
-- `TbxMemPoolAllocateAuto` of source/tbx_mempool.c: a request on the pool for exactly its size,
-- which is made or extended when it has no block to give.
use microtbx.Base.{
  ℕ, ◌+◌, ◌<◌, ◌≡◌, ◌≢◌, refl, sym, ap, subst, ◌∙◌, arith, List, [], ◌∷◌, ◌++◌, All, ==_ne, lt→ltb,
  if◌then◌else◌,
}
use microtbx.Target.{Config, IsConfig, Ptr, null, sizeof_ptr}
use microtbx.CritSect.{enter, leave}
use microtbx.CritSect.Nested.{IsPort, IsReady, Restored_refl, Restored-IsReady, section-Restored}
use microtbx.Heap.Bounds.{Fits}
use microtbx.MemPool.Store.{State, ok, pure, continue}
use microtbx.MemPool.Api.{auto_loop, allocate_auto, allocate, create}
use microtbx.MemPool.View.{Cells, View, IsView, IsPools, find_view}
use microtbx.MemPool.Replace.{All-middle}
use microtbx.MemPool.Take.{with_free}
use microtbx.MemPool.Ends.{Ends, ends, and_then, with_crit, IsPools-crit, Ready}
use microtbx.MemPool.NewPool.{Grown}
use microtbx.MemPool.Create.{create-Created, Found, found}
use microtbx.MemPool.Fill.{Grown-trans}
use microtbx.MemPool.Exact.{
  auto_loop_lem, allocate-exact, allocate-dry, Dry, Dry-absent, Dry-present,
}
use microtbx.MemPool.Refill.{AutoAllocated, Grown-Kept, Post, assemble, IsReady-fewer, after_create}

module _ {c : Config} {home : Ptr → ℕ} {vs : List View} {s : State} (size : ℕ) (pos : 0 < size)
    (fits : Fits c.target (sizeof_ptr c.target + size)) (config : IsConfig c) (port : IsPort c.port)
    (sections : IsReady c.port 2 s.heap.crit) (pools : IsPools c home vs s) where
  -- A block is made for a pool that has none, and asked for.
  refill :
      {r : State}
      → Dry size vs
      → Grown r s
      → Ends
          (Post c vs size r)
          (continue (create c 1 size s) λ done. if done then allocate c size else pure null)
  refill {r} dry grown =
      and_then (create-Created 1 size (omega arith) pos fits (assemble config port sections pools))
        λ done t (is, g).
          after_create size pos dry config port {t = t} (Grown-trans grown g)
            (IsReady-fewer (Restored-IsReady g.crit sections)) done is

module _ {c : Config} {home : Ptr → ℕ} {vs : List View} {s : State} (size : ℕ) (pos : 0 < size)
    (fits : Fits c.target (sizeof_ptr c.target + size)) (ready : Ready c home vs 2 s) where
  -- After the search in a section of its own.
  abbrev searched : State
  searched = with_crit s (leave c.port (enter c.port s.heap.crit))

  same : Grown s searched
  same = record {
    allocated = omega arith;
    crit = section-Restored ready.port ready.sections (Restored_refl _);
  }

  looked :
      auto_loop (c.heap_size + 1) size s.pool_list (with_crit s (enter c.port s.heap.crit))
      ≡ ok (find_view size vs) (with_crit s (enter c.port s.heap.crit))
  looked =
      ap (λ p. auto_loop (c.heap_size + 1) size p (with_crit s (enter c.port s.heap.crit)))
        ready.pools.entry
      ∙ auto_loop_lem (sizeof_ptr c.target) home (c.base + s.heap.allocated)
          (with_crit s (enter c.port s.heap.crit)) (c.heap_size + 1) size vs ready.pools.chain
          ready.pools.views (omega (arith, ready.pools.count, ready.pools.heap.within))

  now : IsPools c home vs searched
  now = IsPools-crit _ ready.pools

  sections : IsReady c.port 2 searched.heap.crit
  sections = Restored-IsReady same.crit ready.sections

  auto_absent :
      find_view size vs ≡ null
      → All (λ (v : View). v.size ≢ size) vs
      → Ends (Post c vs size s) (allocate_auto c size s)
  unfolding allocate_auto
  auto_absent e out =
      rw (lt→ltb 0 size pos, looked, e)
        (refill size pos fits ready.config ready.port sections now (Dry-absent size vs out) same)

  auto_present :
      (vs₁ : List View) (v : View) (vs₂ : List View) (free : Cells)
      → v.free ≡ free
      → vs ≡ vs₁ ++ v ∷ vs₂
      → v.size ≡ size
      → find_view size vs ≡ v.node
      → Ends (Post c vs size s) (allocate_auto c size s)
  unfolding allocate_auto
  auto_present vs₁ v vs₂ [] dry is e at =
      let here = subst (λ us. IsPools c home us searched) is now in
      let view =
        All-middle (IsView (sizeof_ptr c.target) searched.memory home (c.base + s.heap.allocated))
          vs₁ v vs₂ here.views in
      let none = subst (Dry size) (sym is) (Dry-present size vs₁ v vs₂ e dry here.ascending) in
      rw (lt→ltb 0 size pos, looked, at, ==_ne view.0.node_at.0)
        (and_then
          (allocate-dry size pos vs₁ v vs₂ e dry
            (assemble ready.config ready.port (IsReady-fewer sections) here))
          λ p t (z, pools, kept). rw z (
            refill size pos fits ready.config ready.port (Restored-IsReady kept.crit sections)
              (subst (λ us. IsPools c home us t) (sym is) pools) none (Grown-Kept same kept)))
  auto_present vs₁ v vs₂ ((a, b) ∷ fs) some is e at =
      let is' = is ∙ ap (λ xs. vs₁ ++ record v { free = xs } ∷ vs₂) some in
      let here = subst (λ us. IsPools c home us searched) is' now in
      let view =
        All-middle (IsView (sizeof_ptr c.target) searched.memory home (c.base + s.heap.allocated))
          vs₁ (with_free v a b fs) vs₂ here.views in
      rw (lt→ltb 0 size pos, looked, at, ==_ne view.0.node_at.0)
        (and_then
          (allocate-exact size pos vs₁ v vs₂ e a b fs
            (assemble ready.config ready.port (IsReady-fewer sections) here))
          λ p t (at, pools, kept).
            rw (==_ne {a = p} {b = null} (λ z. view.0.blocks.0.0.0 (omega (arith, z, at)))) (
              ends (
                AutoAllocated.from_pool home vs₁ v a b fs vs₂ at e is' pools,
                Grown-Kept same kept,
              )))

  -- In a state of well-formed pools, with a sound configuration and port and room for two more nested
  -- critical sections, and for a positive size that, with its size word, does not wrap in the
  -- alignment: `TbxMemPoolAllocateAuto` never faults and always ends. It returns a block of the pool
  -- for exactly this size, and NULL only if that pool had none and the heap has no room for the block
  -- and the structs around it.
  pub allocate_auto-AutoAllocated : Ends (Post c vs size s) (allocate_auto c size s)
  allocate_auto-AutoAllocated = elim (found size vs) [
    | Found.absent e out ↦ auto_absent e out
    | Found.present vs₁ v vs₂ is e at ↦ auto_present vs₁ v vs₂ v.free refl is e at
  ]
