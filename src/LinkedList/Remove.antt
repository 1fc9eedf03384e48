-- ===== src/LinkedList/Remove.antt =====
-- The functions of source/tbx_list.c that remove items and delete a list.
use microtbx.Base.{ℕ, zero, suc, ◌+◌, ◌-◌, ◌%◌, none, ◌&&◌, ◌||◌, ◌==◌, if◌then◌else◌}
use microtbx.Target.{Target, Ptr, null, size_mod}
use microtbx.LinkedList.Store.{
  Pools, Cmd, pure, ◌>>=◌, ◌>>◌, load_node, load_list, store_list, release_block, enter_section,
  leave_section,
}
use microtbx.LinkedList.Read.{find_list_node}
use microtbx.LinkedList.Insert.{set_prev, set_next, set_first, set_last}

-- The four cases of `TbxListRemoveItem`: the only node, the first, the last, and one in between.
module _ {P : Type 0} where
  unfoldable pub unlink : (list node : Ptr) → Cmd P (Unit {0})
  unlink list node = do
    n ← load_node node
    if n.prev_node_ptr == null && n.next_node_ptr == null
        then (do set_first list null; set_last list null)
        else if n.prev_node_ptr == null
        then (do set_first list n.next_node_ptr; set_prev n.next_node_ptr null)
        else if n.next_node_ptr == null
        then (do set_last list n.prev_node_ptr; set_next n.prev_node_ptr null)
        else (do
          set_next n.prev_node_ptr n.next_node_ptr
          m ← load_node node
          set_prev m.next_node_ptr m.prev_node_ptr)

module _ {P : Type 0} (p : Pools P) (t : Target) where
  abbrev pub decrement : Ptr → Cmd P (Unit {0})
  decrement list = do
    l ← load_list list
    store_list list (record l { node_count = (l.node_count + size_mod t - 1) % size_mod t })

  -- `TbxListRemoveItem`
  unfoldable pub remove_item : (list item : Ptr) → Cmd P (Unit {0})
  remove_item list item = if list == null || item == null then pure tt else do
    node ← find_list_node p list item
    if node == null then pure tt else do
      enter_section p
      unlink list node
      decrement list
      leave_section p
      release_block p node

module _ {P : Type 0} (p : Pools P) where
  unfoldable pub clear_loop : ℕ → Ptr → Cmd P (Unit {0})
  clear_loop zero node = λ _. none
  clear_loop (suc k) node =
      if node == null
      then pure tt
      else do n ← load_node node; release_block p node; clear_loop k n.next_node_ptr

  -- `TbxListClear`
  unfoldable pub clear : Ptr → Cmd P (Unit {0})
  clear list = if list == null then pure tt else do
    enter_section p
    l ← load_list list
    clear_loop (l.node_count + 1) l.first_node_ptr
    store_list list (record { node_count = 0; first_node_ptr = null; last_node_ptr = null })
    leave_section p

  -- `TbxListDelete`
  unfoldable pub delete : Ptr → Cmd P (Unit {0})
  delete list =
      if list == null
      then pure tt
      else do enter_section p; clear list; release_block p list; leave_section p
