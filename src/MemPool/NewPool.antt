-- ===== src/MemPool/NewPool.antt =====
-- The part of `TbxMemPoolCreate` of source/tbx_mempool.c that makes an empty pool.
use microtbx.Base.{
  ℕ, ◌+◌, ◌*◌, ◌≤◌, ◌<◌, ◌≡◌, ◌≢◌, ◌⊎◌, refl, ap, arith, Bool, false, true, List, All, ◌==◌, ==_iff,
  Bool-cases, inl, inr, if◌then◌else◌, ◌||◌,
}
use microtbx.Target.{Config, IsConfig, Ptr, null, sizeof_ptr}
use microtbx.CritSect.Nested.{IsPort, IsReady, Restored, Restored_trans, Restored-IsReady}
use microtbx.Heap
use microtbx.Heap.{Heap}
use microtbx.MemPool.Store.{
  State, store_lem, pure, continue, Cmd, ◌>>=◌, ◌>>◌, store_pool, store_pool_node,
}
use microtbx.MemPool.Block.{block_list_create}
use microtbx.MemPool.PoolList.{insert}
use microtbx.MemPool.Api.{create_pool}
use microtbx.MemPool.View.{View, IsPools}
use microtbx.MemPool.InsertStep.{insert_view}
use microtbx.MemPool.Ends.{Ends, ends, and_then}
use microtbx.MemPool.Grow.{Full, Reserved, reserve, struct_Fits, extend, Growth, IsPools-grow}
use microtbx.MemPool.AddPool.{
  false→ne, block_list_create_lem, or_else, empty_view, filled, Growth-made, crit, inserted,
}

pub Growth-heap :
    {c : Config} {home : Ptr → ℕ} {s : State} (h : Heap)
    → s.heap.allocated ≤ h.allocated
    → h.allocated ≤ c.heap_size
    → Growth c home home s (record s { heap = h })
Growth-heap h grow within = record {
  frame = record {
    grow = omega arith;
    homes = λ a _. refl;
    nodes = λ a _ _. refl;
    lists = λ a _ _. refl;
    pools = λ a _ _. refl;
    words = λ a _. refl;
  };
  chain = λ a _. refl;
  list = refl;
  within = within;
}

-- How the making of a pool ends: the heap ran out, and the pools are as they were; or an empty pool
-- has joined them.
pub data PoolMade (c : Config) (home : Ptr → ℕ) (vs : List View) (size : ℕ) (s : State)
    (result : Bool) (node : Ptr) (s' : State) : Type 0 where
  failed :
      result ≡ false
      → Full c size s'
      → IsPools c home vs s'
      → PoolMade c home vs size s result node s'
  made :
      (pool free_list used_list : Ptr)
      → result ≡ true
      → IsPools c
          (extend home (c.base + s.heap.allocated) size used_list)
          (insert_view (empty_view node pool size free_list used_list) vs)
          s'
      → PoolMade c home vs size s result node s'

-- The heap has not shrunk, and the critical section was left as it was entered.
pub record Grown (s s' : State) : Type 0 where
  pub allocated : s.heap.allocated ≤ s'.heap.allocated
  pub crit : Restored s.heap.crit s'.heap.crit

Grown-heap :
    {s s' : State} {h : Heap}
    → s.heap.allocated ≤ h.allocated
    → Restored s.heap.crit h.crit
    → s'.heap ≡ h
    → Grown s s'
Grown-heap grow crit e = record {
  allocated = omega (arith, ap (λ (t : Heap). t.allocated) e);
  crit = rw e crit;
}

module _ {c : Config} {home : Ptr → ℕ} {vs : List View} {s : State} (size : ℕ) (pos : 0 < size)
    (config : IsConfig c) (port : IsPort c.port) (ready : IsReady c.port 1 s.heap.crit)
    (pools : IsPools c home vs s) (absent : All (λ (v : View). v.size ≢ size) vs) where
  abbrev r₁ : Ptr × Heap
  r₁ = Heap.allocate c (2 * sizeof_ptr c.target) s.heap

  abbrev r₂ : Ptr × Heap
  r₂ = Heap.allocate c (3 * sizeof_ptr c.target) r₁.1

  abbrev r₃ : Ptr × Heap
  r₃ = Heap.allocate c (sizeof_ptr c.target) r₂.1

  abbrev r₄ : Ptr × Heap
  r₄ = Heap.allocate c (sizeof_ptr c.target) r₃.1

  got₁ : Reserved c (2 * sizeof_ptr c.target) s.heap r₁.0 r₁.1
  got₁ = reserve (2 * sizeof_ptr c.target) config port ready pools.heap (struct_Fits c.target).1

  got₂ : Reserved c (3 * sizeof_ptr c.target) r₁.1 r₂.0 r₂.1
  got₂ =
      reserve (3 * sizeof_ptr c.target) config port (Restored-IsReady got₁.crit ready)
        (record { within = got₁.within }) (struct_Fits c.target).2

  got₃ : Reserved c (sizeof_ptr c.target) r₂.1 r₃.0 r₃.1
  got₃ =
      reserve (sizeof_ptr c.target) config port
        (Restored-IsReady (Restored_trans got₁.crit got₂.crit) ready)
        (record { within = got₂.within }) (struct_Fits c.target).0

  got₄ : Reserved c (sizeof_ptr c.target) r₃.1 r₄.0 r₄.1
  got₄ =
      reserve (sizeof_ptr c.target) config port
        (Restored-IsReady (Restored_trans (Restored_trans got₁.crit got₂.crit) got₃.crit) ready)
        (record { within = got₃.within }) (struct_Fits c.target).0

  abbrev Post : Bool × Ptr → State → Type 0
  Post (result, node) s' = PoolMade c home vs size s result node s' × Grown s s'

  module _ (node_ne : r₁.0 ≢ null) (pool_ne : r₂.0 ≢ null) where
    abbrev both : State
    both =
        filled size pos config pools absent r₁.0 r₂.0 r₃.0 r₄.0 r₁.1 r₂.1 r₃.1 r₄.1 got₁ got₂ got₃
          got₄ node_ne pool_ne

    Grown-both : Grown s both
    Grown-both = record {
      allocated = omega (arith, got₁.grow, got₂.grow, got₃.grow, got₄.grow);
      crit =
          crit size pos config pools absent r₁.0 r₂.0 r₃.0 r₄.0 r₁.1 r₂.1 r₃.1 r₄.1 got₁ got₂ got₃
            got₄ node_ne pool_ne;
    }

    refused : Full c size both → Post (false, r₁.0) both
    refused full = (
      PoolMade.failed refl full (
          IsPools-grow
            (Growth-made size pos config pools absent r₁.0 r₂.0 r₃.0 r₄.0 r₁.1 r₂.1 r₃.1 r₄.1 got₁
              got₂ got₃ got₄ node_ne pool_ne home (λ a _. refl))
            pools),
      Grown-both,
    )

    done :
        (free_ne : r₃.0 ≢ null) (used_ne : r₄.0 ≢ null)
        → Ends Post (continue (insert c r₁.0 both) λ _. pure (true, r₁.0))
    done free_ne used_ne =
        and_then
          (inserted size pos config pools absent r₁.0 r₂.0 r₃.0 r₄.0 r₁.1 r₂.1 r₃.1 r₄.1 got₁ got₂
            got₃ got₄ node_ne pool_ne free_ne used_ne)
          λ _ s' (is, e). ends (
            PoolMade.made r₂.0 r₃.0 r₄.0 refl is,
            Grown-heap Grown-both.allocated Grown-both.crit e,
          )

  abbrev set_up : Cmd (Bool × Ptr)
  set_up = do
    store_pool_node r₁.0 (record { pool_ptr = r₂.0; next_node_ptr = null })
    free ← block_list_create c
    used ← block_list_create c
    store_pool r₂.0
        (record { block_size = size; free_block_list_ptr = free; used_block_list_ptr = used })
    if free == null || used == null then pure (false, r₁.0) else do insert c r₁.0; pure (true, r₁.0)

  lists-Full :
      ((r₃.0 == null) ≡ true) ⊎ ((r₄.0 == null) ≡ true) → Full c size (record s { heap = r₄.1 })
  lists-Full (inl z) =
      omega
        (arith, got₃.full ((==_iff r₃.0 null).0 z) (struct_Fits c.target).3, got₃.grow, got₄.grow)
  lists-Full (inr z) =
      omega (arith, got₄.full ((==_iff r₄.0 null).0 z) (struct_Fits c.target).3, got₄.grow)

  lists : r₁.0 ≢ null → r₂.0 ≢ null → Ends Post (set_up (record s { heap = r₂.1 }))
  lists node_ne pool_ne =
      rw
        (
          store_lem _ r₁.0 _ node_ne,
          block_list_create_lem c _,
          block_list_create_lem c _,
          store_lem _ r₂.0 _ pool_ne,
        )
        (or_else (r₃.0 == null) (r₄.0 == null) _ _ _
          (λ none. ends (refused node_ne pool_ne (lists-Full none)))
          λ n₃ n₄. done node_ne pool_ne (false→ne n₃) (false→ne n₄))

  pub create_pool-PoolMade : Ends Post (create_pool c size s)
  unfolding create_pool
  create_pool-PoolMade = elim (Bool-cases (r₁.0 == null)) [
    | inl z ↦ rw z (
        ends (
          PoolMade.failed refl
              (omega (
                arith,
                got₁.full ((==_iff r₁.0 null).0 z) (omega (arith, (struct_Fits c.target).3)),
                got₁.grow,
              ))
              (IsPools-grow (Growth-heap r₁.1 got₁.grow got₁.within) pools),
          record { allocated = got₁.grow; crit = got₁.crit },
        ))
    | inr n₁ ↦ rw n₁ (elim (Bool-cases (r₂.0 == null)) [
      | inl z ↦ rw z (
          ends (
            PoolMade.failed refl
                (omega (
                  arith,
                  got₂.full ((==_iff r₂.0 null).0 z) (omega (arith, (struct_Fits c.target).3)),
                  got₂.grow,
                ))
                (IsPools-grow (Growth-heap r₂.1 (omega (arith, got₁.grow, got₂.grow)) got₂.within)
                  pools),
            record {
              allocated = omega (arith, got₁.grow, got₂.grow);
              crit = Restored_trans got₁.crit got₂.crit;
            },
          ))
      | inr n₂ ↦ rw n₂ (lists (false→ne n₁) (false→ne n₂))
    ])
  ]
