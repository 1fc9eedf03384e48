-- ===== src/LinkedList/Read.antt =====
-- The functions of source/tbx_list.c that read a list. A loop has one round more than the list has
-- nodes, for the test that ends it.
use microtbx.Base.{ℕ, zero, suc, ◌+◌, none, ◌||◌, ◌==◌, if◌then◌else◌}
use microtbx.Target.{Ptr, null}
use microtbx.LinkedList.Store.{
  Pools, Cmd, pure, ◌>>=◌, ◌>>◌, load_node, load_list, enter_section, leave_section,
}

module _ {P : Type 0} where
  unfoldable pub find_loop : ℕ → (item node : Ptr) → Cmd P Ptr
  find_loop zero item node = λ _. none
  find_loop (suc k) item node = if node == null then pure null else do
    n ← load_node node
    if n.item_ptr == item then pure node else find_loop k item n.next_node_ptr

  -- The item of a node, or NULL without a node.
  unfoldable pub item_of : Ptr → Cmd P Ptr
  item_of node = if node == null then pure null else do n ← load_node node; pure n.item_ptr

module _ {P : Type 0} (p : Pools P) where
  -- `TbxListFindListNode`
  unfoldable pub find_list_node : (list item : Ptr) → Cmd P Ptr
  find_list_node list item = if list == null || item == null then pure null else do
    enter_section p
    l ← load_list list
    result ← find_loop (l.node_count + 1) item l.first_node_ptr
    leave_section p
    pure result

  -- `TbxListGetSize`
  unfoldable pub get_size : Ptr → Cmd P ℕ
  get_size list =
      if list == null
      then pure 0
      else do enter_section p; l ← load_list list; leave_section p; pure l.node_count

  -- `TbxListGetFirstItem`
  unfoldable pub get_first_item : Ptr → Cmd P Ptr
  get_first_item list = if list == null then pure null else do
    enter_section p
    l ← load_list list
    result ← item_of l.first_node_ptr
    leave_section p
    pure result

  -- `TbxListGetLastItem`
  unfoldable pub get_last_item : Ptr → Cmd P Ptr
  get_last_item list = if list == null then pure null else do
    enter_section p
    l ← load_list list
    result ← item_of l.last_node_ptr
    leave_section p
    pure result

  -- `TbxListGetPreviousItem`
  unfoldable pub get_previous_item : (list item_ref : Ptr) → Cmd P Ptr
  get_previous_item list item_ref = if list == null || item_ref == null then pure null else do
    enter_section p
    node ← find_list_node list item_ref
    result ← (if node == null then pure null else do n ← load_node node; item_of n.prev_node_ptr)
    leave_section p
    pure result

  -- `TbxListGetNextItem`
  unfoldable pub get_next_item : (list item_ref : Ptr) → Cmd P Ptr
  get_next_item list item_ref = if list == null || item_ref == null then pure null else do
    enter_section p
    node ← find_list_node list item_ref
    result ← (if node == null then pure null else do n ← load_node node; item_of n.next_node_ptr)
    leave_section p
    pure result
