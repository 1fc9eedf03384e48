-- ===== src/MemPool/NewBlock.antt =====
-- One round of the loop in `TbxMemPoolCreate` of source/tbx_mempool.c, which makes a block.
use microtbx.Base.{
  ℕ, ◌+◌, ◌*◌, ◌≡◌, ◌≢◌, refl, arith, Bool, false, true, List, ◌∷◌, ◌++◌, ◌==◌, ==_iff, ==_ne,
  ==_refl, Bool-cases, inl, inr, lt→ltb, if◌then◌else◌,
}
use microtbx.Target.{Config, IsConfig, Ptr, null, sizeof_ptr}
use microtbx.CritSect.Nested.{IsPort, IsReady, Restored_trans, Restored-IsReady}
use microtbx.Heap
use microtbx.Heap.{Heap}
use microtbx.Heap.Bounds.{Fits, size_add_lem}
use microtbx.MemPool.Store.{
  State, ok, load_lem, store_lem, put, Cmd, pure, ◌>>=◌, ◌>>◌, load_pool_node, load_pool,
}
use microtbx.MemPool.Block.{block_create, block_list_insert}
use microtbx.MemPool.Api.{create_block}
use microtbx.MemPool.View.{View, head, IsView, IsPools}
use microtbx.MemPool.Lists.{block_list_insert_lem}
use microtbx.MemPool.Replace.{All-middle}
use microtbx.MemPool.Take.{Chain-middle}
use microtbx.MemPool.Ends.{Ends, ends}
use microtbx.MemPool.Grow.{Full, Reserved, reserve, struct_Fits, extend, IsPools-grow}
use microtbx.MemPool.NewPool.{Grown, Growth-heap}
use microtbx.MemPool.AddPool.{false→ne}
use microtbx.MemPool.AddBlock.{added, fresh, grown, view, final, IsPools-add}

-- How a round ends: the heap ran out, and the pools are as they were; or the pool has another block.
pub data BlockMade (c : Config) (home : Ptr → ℕ) (vs₁ : List View) (v : View) (vs₂ : List View)
    (s : State) (result made : Bool) (s' : State) : Type 0 where
  failed :
      made ≡ false
      → Full c v.size s'
      → IsPools c home (vs₁ ++ v ∷ vs₂) s'
      → BlockMade c home vs₁ v vs₂ s result made s'
  added_one :
      (a b : Ptr)
      → made ≡ result
      → IsPools c (extend home (c.base + s.heap.allocated) v.size b) (vs₁ ++ added v a b ∷ vs₂) s'
      → BlockMade c home vs₁ v vs₂ s result made s'

module _ {c : Config} {home : Ptr → ℕ} {s : State} (vs₁ : List View) (v : View) (vs₂ : List View)
    (config : IsConfig c) (port : IsPort c.port) (ready : IsReady c.port 1 s.heap.crit)
    (pools : IsPools c home (vs₁ ++ v ∷ vs₂) s)
    (fits : Fits c.target (sizeof_ptr c.target + v.size)) (result : Bool) where
  abbrev r₁ : Ptr × Heap
  r₁ = Heap.allocate c (2 * sizeof_ptr c.target) s.heap

  abbrev r₂ : Ptr × Heap
  r₂ = Heap.allocate c (sizeof_ptr c.target + v.size) r₁.1

  got₁ : Reserved c (2 * sizeof_ptr c.target) s.heap r₁.0 r₁.1
  got₁ = reserve (2 * sizeof_ptr c.target) config port ready pools.heap (struct_Fits c.target).1

  got₂ : Reserved c (sizeof_ptr c.target + v.size) r₁.1 r₂.0 r₂.1
  got₂ =
      reserve (sizeof_ptr c.target + v.size) config port (Restored-IsReady got₁.crit ready)
        (record { within = got₁.within }) fits

  grew : Grown s (record s { heap = r₂.1 })
  grew = record {
    allocated = omega (arith, got₁.grow, got₂.grow);
    crit = Restored_trans got₁.crit got₂.crit;
  }

  block_create_none :
      (r₂.0 == null) ≡ true
      → block_create c v.size (record s { heap = r₁.1 }) ≡ ok null (record s { heap = r₂.1 })
  unfolding block_create
  block_create_none z =
      let pos =
        (All-middle (IsView (sizeof_ptr c.target) s.memory home (c.base + s.heap.allocated)) vs₁ v
          vs₂ pools.views).0.size_pos in
      rw
        (
          lt→ltb 0 v.size pos,
          size_add_lem c.target (sizeof_ptr c.target + v.size) (omega (arith, fits)),
          z,
        )
        refl

  block_create_some :
      (r₂.0 == null) ≡ false
      → block_create c v.size (record s { heap = r₁.1 })
        ≡ ok r₂.0 (record s {
          heap = r₂.1;
          memory = record (s.memory) { size_word = put s.memory.size_word r₂.0 v.size };
        })
  unfolding block_create
  block_create_some nz =
      let pos =
        (All-middle (IsView (sizeof_ptr c.target) s.memory home (c.base + s.heap.allocated)) vs₁ v
          vs₂ pools.views).0.size_pos in
      rw
        (
          lt→ltb 0 v.size pos,
          size_add_lem c.target (sizeof_ptr c.target + v.size) (omega (arith, fits)),
          nz,
          store_lem _ r₂.0 _ (false→ne nz),
        )
        refl

  abbrev Post : Bool → State → Type 0
  Post made s' = BlockMade c home vs₁ v vs₂ s result made s' × Grown s s'

  abbrev linking : Cmd Bool
  linking = if v.node == null then pure false else do
    n ← load_pool_node v.node
    q ← load_pool n.pool_ptr
    block_list_insert q.free_block_list_ptr r₁.0
    pure result

  module _ (node_ne : r₁.0 ≢ null) (block_ne : r₂.0 ≢ null) where
    abbrev start : State
    start = fresh vs₁ v vs₂ pools r₁.0 r₂.0 r₁.1 r₂.1 got₁ got₂ node_ne block_ne

    abbrev finish : State
    finish = final vs₁ v vs₂ pools r₁.0 r₂.0 r₁.1 r₂.1 got₁ got₂ node_ne block_ne

    extended :
        (linking start ≡ ok result finish)
        × IsPools c
            (extend home (c.base + s.heap.allocated) v.size r₂.0)
            (vs₁ ++ added v r₁.0 r₂.0 ∷ vs₂)
            finish
    extended =
        let now = grown vs₁ v vs₂ pools r₁.0 r₂.0 r₁.1 r₂.1 got₁ got₂ node_ne block_ne in
        let here = view vs₁ v vs₂ pools r₁.0 r₂.0 r₁.1 r₂.1 got₁ got₂ node_ne block_ne in
        let node = Chain-middle start.memory.pool_node vs₁ v vs₂ now.chain in
        (
          rw
              (
                ==_ne node.0,
                load_lem (λ m. m.pool_node) v.node start node.0 node.1,
                load_lem (λ m. m.pool) v.pool start here.pool_at.0 here.pool_is,
                block_list_insert_lem start v.free_list r₁.0 r₂.0 null (head v.free)
                    here.free_list_at.0 node_ne here.free_is (rw ==_refl),
              )
              refl,
          IsPools-add vs₁ v vs₂ pools r₁.0 r₂.0 r₁.1 r₂.1 got₁ got₂ node_ne block_ne,
        )

  pub create_block-BlockMade : Ends Post (create_block c v.size v.node result s)
  unfolding create_block
  create_block-BlockMade = elim (Bool-cases (r₁.0 == null)) [
    | inl z ↦ rw z (
        ends (
          BlockMade.failed refl
              (omega (
                arith,
                got₁.full ((==_iff r₁.0 null).0 z) (omega (arith, (struct_Fits c.target).3)),
                got₁.grow,
              ))
              (IsPools-grow (Growth-heap r₁.1 got₁.grow got₁.within) pools),
          record { allocated = got₁.grow; crit = got₁.crit },
        ))
    | inr n₁ ↦ rw n₁ (elim (Bool-cases (r₂.0 == null)) [
      | inl z ↦ rw (block_create_none z) (
          ends (
            BlockMade.failed refl
                (omega (
                  arith,
                  got₂.full ((==_iff r₂.0 null).0 z) (omega (arith, (struct_Fits c.target).3)),
                  got₂.grow,
                  (struct_Fits c.target).3,
                ))
                (IsPools-grow (Growth-heap r₂.1 grew.allocated got₂.within) pools),
            grew,
          ))
      | inr n₂ ↦
          let out = extended (false→ne n₁) (false→ne n₂) in
          rw (block_create_some n₂, n₂, store_lem _ r₁.0 _ (false→ne n₁), out.0)
            (ends (
              BlockMade.added_one r₁.0 r₂.0 refl out.1,
              record { allocated = grew.allocated; crit = grew.crit },
            ))
    ])
  ]
