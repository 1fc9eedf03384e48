-- ===== src/MemPool/Block.antt =====
-- The block management and block list management functions of source/tbx_mempool.c.
use microtbx.Base.{ℕ, ◌+◌, ◌-◌, ◌%◌, Bool, false, ◌||◌, ltb, ◌==◌, if◌then◌else◌}
use microtbx.Target.{Config, Ptr, null, sizeof_ptr, size_mod}
use microtbx.MemPool.Store.{
  Cmd, pure, ◌>>=◌, ◌>>◌, load_block_node, load_block_list, load_size_word, store_block_node,
  store_block_list, store_size_word, heap_allocate,
}

-- `TbxMemPoolBlockCreate`; `sizeof(size_t)` is the size of a pointer on every target.
unfoldable pub block_create : Config → ℕ → Cmd Ptr
block_create c size =
    if ltb 0 size
    then (do
      mem ← heap_allocate c ((sizeof_ptr c.target + size) % size_mod c.target)
      if mem == null then pure null else do store_size_word mem size; pure mem)
    else pure null

-- `TbxMemPoolBlockGetDataPtr`
unfoldable pub get_data_ptr : Config → Ptr → Ptr
get_data_ptr c mem = if mem == null then null else (mem + sizeof_ptr c.target) % size_mod c.target

-- `TbxMemPoolBlockGetMemPtr`
unfoldable pub get_mem_ptr : Config → Ptr → Ptr
get_mem_ptr c at =
    if at == null then null else (at + size_mod c.target - sizeof_ptr c.target) % size_mod c.target

-- `TbxMemPoolBlockGetBlockSize`
unfoldable pub get_block_size : Ptr → Cmd ℕ
get_block_size mem = if mem == null then pure 0 else load_size_word mem

-- `TbxMemPoolBlockListCreate`
unfoldable pub block_list_create : Config → Cmd Ptr
block_list_create c = do
  list ← heap_allocate c (sizeof_ptr c.target)
  if list == null then pure null else do store_block_list list null; pure list

-- `TbxMemPoolBlockListInsert`
unfoldable pub block_list_insert : Ptr → Ptr → Cmd (Unit {0})
block_list_insert list node = if list == null || node == null then pure tt else do
  head ← load_block_list list
  n ← load_block_node node
  (if head == null
      then store_block_node node (record n { next_node_ptr = null })
      else store_block_node node (record n { next_node_ptr = head }))
  store_block_list list node

-- `TbxMemPoolBlockListExtract`
unfoldable pub block_list_extract : Ptr → Cmd Ptr
block_list_extract list = if list == null then pure null else do
  head ← load_block_list list
  if head == null then pure null else do
    n ← load_block_node head
    (if n.next_node_ptr == null
        then store_block_list list null
        else store_block_list list n.next_node_ptr)
    pure head

-- `TbxMemPoolBlockListIsEmpty`
unfoldable pub block_list_is_empty : Ptr → Cmd Bool
block_list_is_empty list =
    if list == null then pure false else do head ← load_block_list list; pure (head == null)
