-- ===== src/MemPool/Api.antt =====
-- The API of source/tbx_mempool.c. `true` and `false` are TBX_OK and TBX_ERROR.
use microtbx.Base.{ℕ, zero, suc, ◌+◌, ◌*◌, Bool, true, false, ◌&&◌, ◌||◌, ltb, ◌==◌, if◌then◌else◌}
use microtbx.Target.{Config, Ptr, null, sizeof_ptr}
use microtbx.MemPool.Store.{
  Cmd, pure, out_of_fuel, ◌>>=◌, ◌>>◌, load_block_node, load_pool, load_pool_node, store_block_node,
  store_pool, store_pool_node, heap_allocate, enter_section, leave_section, get_pool_list,
}
use microtbx.MemPool.Block.{
  block_create, get_data_ptr, get_mem_ptr, get_block_size, block_list_create, block_list_insert,
  block_list_extract,
}
use microtbx.MemPool.PoolList.{find, find_best_fit, insert}

-- The part of `TbxMemPoolCreate` that makes an empty pool. The result is TBX_OK or TBX_ERROR, and
-- the pool node.
unfoldable pub create_pool : Config → ℕ → Cmd (Bool × Ptr)
create_pool c size = do
  node ← heap_allocate c (2 * sizeof_ptr c.target)
  if node == null then pure (false, node) else do
    pool ← heap_allocate c (3 * sizeof_ptr c.target)
    if pool == null then pure (false, node) else do
      store_pool_node node (record { pool_ptr = pool; next_node_ptr = null })
      free ← block_list_create c
      used ← block_list_create c
      store_pool pool
          (record { block_size = size; free_block_list_ptr = free; used_block_list_ptr = used })
      if free == null || used == null
          then pure (false, node)
          else do insert c node; pure (true, node)

-- One round of the loop in `TbxMemPoolCreate`.
unfoldable pub create_block : Config → ℕ → Ptr → Bool → Cmd Bool
create_block c size node result = do
  block_node ← heap_allocate c (2 * sizeof_ptr c.target)
  if block_node == null then pure false else do
    block ← block_create c size
    if block == null then pure false else do
      store_block_node block_node (record { block_ptr = block; next_node_ptr = null })
      if node == null then pure false else do
        n ← load_pool_node node
        q ← load_pool n.pool_ptr
        block_list_insert q.free_block_list_ptr block_node
        pure result

unfoldable pub create_blocks : ℕ → Config → ℕ → Ptr → Bool → Cmd Bool
create_blocks zero c size node result = pure result
create_blocks (suc k) c size node result = do
  result' ← create_block c size node result
  create_blocks k c size node result'

-- `TbxMemPoolCreate`
unfoldable pub create : Config → (num_blocks block_size : ℕ) → Cmd Bool
create c num_blocks block_size =
    if ltb 0 num_blocks && ltb 0 block_size
    then (do
      enter_section c
      found ← find c block_size
      (result, node) ← (if found == null then create_pool c block_size else pure (true, found))
      result' ← (if result then create_blocks num_blocks c block_size node true else pure false)
      leave_section c
      pure result')
    else pure false

-- What `TbxMemPoolAllocate` does with the pool node that it found.
unfoldable pub allocate_from : Config → Ptr → Cmd Ptr
allocate_from c node = do
  n ← load_pool_node node
  if n.pool_ptr == null then pure null else do
    q ← load_pool n.pool_ptr
    block_node ← block_list_extract q.free_block_list_ptr
    if block_node == null then pure null else do
      b ← load_block_node block_node
      block_list_insert q.used_block_list_ptr block_node
      pure (get_data_ptr c b.block_ptr)

-- `TbxMemPoolAllocate`
unfoldable pub allocate : Config → ℕ → Cmd Ptr
allocate c size =
    if ltb 0 size
    then (do
      enter_section c
      node ← find_best_fit c size
      result ← (if node == null then pure null else allocate_from c node)
      leave_section c
      pure result)
    else pure null

-- The loop of `TbxMemPoolAllocateAuto`, which is that of `TbxMemPoolListFind` once more.
unfoldable pub auto_loop : ℕ → ℕ → Ptr → Cmd Ptr
auto_loop zero size p = λ _. out_of_fuel
auto_loop (suc k) size p = if p == null then pure null else do
  n ← load_pool_node p
  q ← load_pool n.pool_ptr
  if q.block_size == size then pure p else auto_loop k size n.next_node_ptr

-- `TbxMemPoolAllocateAuto`
unfoldable pub allocate_auto : Config → ℕ → Cmd Ptr
allocate_auto c size =
    if ltb 0 size
    then (do
      enter_section c
      p ← get_pool_list
      node ← auto_loop (c.heap_size + 1) size p
      leave_section c
      if node == null
          then (do done ← create c 1 size; if done then allocate c size else pure null)
          else (do
            result ← allocate c size
            if result == null
                then (do done ← create c 1 size; if done then allocate c size else pure null)
                else pure result))
    else pure null

-- What `TbxMemPoolRelease` does with the block.
unfoldable pub release_block : Config → Ptr → Cmd (Unit {0})
release_block c block = do
  size ← get_block_size block
  node ← find c size
  if node == null then pure tt else do
    n ← load_pool_node node
    if n.pool_ptr == null then pure tt else do
      q ← load_pool n.pool_ptr
      block_node ← block_list_extract q.used_block_list_ptr
      if block_node == null then pure tt else do
        b ← load_block_node block_node
        store_block_node block_node (record b { block_ptr = block })
        block_list_insert q.free_block_list_ptr block_node

-- `TbxMemPoolRelease`
unfoldable pub release : Config → Ptr → Cmd (Unit {0})
release c p = if p == null then pure tt else do
  enter_section c
  let block = get_mem_ptr c p
  (if block == null then pure tt else release_block c block)
  leave_section c
