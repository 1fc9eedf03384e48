-- ===== src/MemPool/PoolList.antt =====
-- The pool list management functions of source/tbx_mempool.c. Each loop walks the chain of pool
-- nodes on `heap_size c + 1` rounds of fuel: every node takes a byte of the heap at least.
use microtbx.Base.{ℕ, zero, suc, ◌+◌, Bool, true, false, ◌&&◌, not, ltb, leb, ◌==◌, if◌then◌else◌}
use microtbx.Target.{Config, Ptr, null}
use microtbx.MemPool.Store.{
  PoolNode, Cmd, pure, out_of_fuel, ◌>>=◌, ◌>>◌, load_pool, load_pool_node, store_pool_node,
  get_pool_list, set_pool_list,
}
use microtbx.MemPool.Block.{block_list_is_empty}

unfoldable pub find_loop : ℕ → ℕ → Ptr → Cmd Ptr
find_loop zero size p = λ _. out_of_fuel
find_loop (suc k) size p = if p == null then pure null else do
  n ← load_pool_node p
  q ← load_pool n.pool_ptr
  if q.block_size == size then pure p else find_loop k size n.next_node_ptr

-- `TbxMemPoolListFind`
unfoldable pub find : Config → ℕ → Cmd Ptr
find c size =
    if ltb 0 size then (do p ← get_pool_list; find_loop (c.heap_size + 1) size p) else pure null

unfoldable pub find_best_fit_loop : ℕ → ℕ → Ptr → Cmd Ptr
find_best_fit_loop zero size p = λ _. out_of_fuel
find_best_fit_loop (suc k) size p = if p == null then pure null else do
  n ← load_pool_node p
  q ← load_pool n.pool_ptr
  if leb size q.block_size
      then (do empty ← block_list_is_empty q.free_block_list_ptr; pure (if empty then null else p))
      else find_best_fit_loop k size n.next_node_ptr

-- `TbxMemPoolListFindBestFit`
unfoldable pub find_best_fit : Config → ℕ → Cmd Ptr
find_best_fit c size =
    if ltb 0 size
    then (do p ← get_pool_list; find_best_fit_loop (c.heap_size + 1) size p)
    else pure null

-- The test of one node in the loop of `TbxMemPoolListInsert`, and the insertion in front of it.
unfoldable pub insert_before : (node prev cur : Ptr) → PoolNode → Cmd Bool
insert_before node prev cur n = if n.pool_ptr == null then pure false else do
  q ← load_pool n.pool_ptr
  m ← load_pool_node node
  r ← load_pool m.pool_ptr
  if ltb r.block_size q.block_size
      then (do
        head ← get_pool_list
        (if cur == head
            then (do store_pool_node node (record m { next_node_ptr = cur }); set_pool_list node)
            else (if prev == null then pure tt else do
              store_pool_node node (record m { next_node_ptr = cur })
              b ← load_pool_node prev
              store_pool_node prev (record b { next_node_ptr = node })))
        pure true)
      else pure false

-- The insertion behind the last node.
unfoldable pub insert_behind : (node cur : Ptr) → Bool → Cmd Bool
insert_behind node cur inserted = do
  n ← load_pool_node cur
  if n.next_node_ptr == null && not inserted
      then (do
        m ← load_pool_node node
        store_pool_node node (record m { next_node_ptr = null })
        l ← load_pool_node cur
        store_pool_node cur (record l { next_node_ptr = node })
        pure true)
      else pure inserted

unfoldable pub insert_loop : ℕ → (node prev cur : Ptr) → Cmd (Unit {0})
insert_loop zero node prev cur = λ _. out_of_fuel
insert_loop (suc k) node prev cur = if cur == null then pure tt else do
  n ← load_pool_node cur
  before ← insert_before node prev cur n
  inserted ← insert_behind node cur before
  if inserted then pure tt else do m ← load_pool_node cur; insert_loop k node cur m.next_node_ptr

-- `TbxMemPoolListInsert`
unfoldable pub insert : Config → Ptr → Cmd (Unit {0})
insert c node = if node == null then pure tt else do
  head ← get_pool_list
  if head == null
      then (do
        m ← load_pool_node node
        store_pool_node node (record m { next_node_ptr = null })
        set_pool_list node)
      else insert_loop (c.heap_size + 1) node null head
