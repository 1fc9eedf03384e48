-- ===== src/LinkedList/Insert.antt =====
-- The functions of source/tbx_list.c that create a list and insert items. `true` and `false` are
-- TBX_OK and TBX_ERROR, where they are results.
use microtbx.Base.{ℕ, ◌+◌, ◌%◌, Bool, true, false, ◌||◌, ◌==◌, if◌then◌else◌}
use microtbx.Target.{Target, Ptr, null, size_mod}
use microtbx.LinkedList.Store.{
  sizeof_list, sizeof_list_node, Pools, Cmd, pure, ◌>>=◌, ◌>>◌, load_node, load_list, store_node,
  store_list, get_created, set_created, create_pool, allocate_block, enter_section, leave_section,
}
use microtbx.LinkedList.Read.{find_list_node}

-- Writes of one field.
module _ {P : Type 0} where
  abbrev pub set_prev : (node to : Ptr) → Cmd P (Unit {0})
  set_prev node to = do n ← load_node node; store_node node (record n { prev_node_ptr = to })

  abbrev pub set_next : (node to : Ptr) → Cmd P (Unit {0})
  set_next node to = do n ← load_node node; store_node node (record n { next_node_ptr = to })

  abbrev pub set_first : (list to : Ptr) → Cmd P (Unit {0})
  set_first list to = do l ← load_list list; store_list list (record l { first_node_ptr = to })

  abbrev pub set_last : (list to : Ptr) → Cmd P (Unit {0})
  set_last list to = do l ← load_list list; store_list list (record l { last_node_ptr = to })

  -- How the four functions link the new node.
  unfoldable pub link_front : (list node : Ptr) → Cmd P (Unit {0})
  link_front list node = do
    l ← load_list list
    (if l.first_node_ptr == null
        then set_last list node
        else do set_next node l.first_node_ptr; set_prev l.first_node_ptr node)
    set_first list node

  unfoldable pub link_back : (list node : Ptr) → Cmd P (Unit {0})
  link_back list node = do
    l ← load_list list
    (if l.first_node_ptr == null
        then set_first list node
        else do set_prev node l.last_node_ptr; set_next l.last_node_ptr node)
    set_last list node

  unfoldable pub link_before : (list ref node : Ptr) → Cmd P (Unit {0})
  link_before list ref node = do
    l ← load_list list
    if ref == l.first_node_ptr
        then (do
          set_next node l.first_node_ptr
          set_prev l.first_node_ptr node
          set_first list node)
        else (do
          r ← load_node ref
          set_prev node r.prev_node_ptr
          set_next node ref
          set_next r.prev_node_ptr node
          set_prev ref node)

  unfoldable pub link_after : (list ref node : Ptr) → Cmd P (Unit {0})
  link_after list ref node = do
    l ← load_list list
    if ref == l.last_node_ptr
        then (do set_prev node l.last_node_ptr; set_next l.last_node_ptr node; set_last list node)
        else (do
          r ← load_node ref
          if r.next_node_ptr == null then pure tt else do
            set_prev node ref
            set_next node r.next_node_ptr
            set_next ref node
            set_prev r.next_node_ptr node)

module _ {P : Type 0} (p : Pools P) (t : Target) where
  abbrev increment : Ptr → Cmd P (Unit {0})
  increment list = do
    l ← load_list list
    store_list list (record l { node_count = (l.node_count + 1) % size_mod t })

  -- The attempt to allocate, and the second one after the pool was extended.
  unfoldable pub allocate_twice : ℕ → Cmd P Ptr
  allocate_twice size = do
    first ← allocate_block p size
    if first == null
        then (do
          extended ← create_pool p 1 size
          if extended then allocate_block p size else pure first)
        else pure first

  -- The part of `TbxListCreate` that runs once; the result is that no error was detected.
  unfoldable pub create_pools : Cmd P Bool
  create_pools = do
    created ← get_created
    if created then pure true else do
      set_created
      for_list ← create_pool p 1 (sizeof_list t)
      for_node ← create_pool p 1 (sizeof_list_node t)
      pure (if for_list then for_node else false)

  -- `TbxListCreate`
  unfoldable pub create : Cmd P Ptr
  create = do
    ready ← create_pools
    if ready
        then (do
          list ← allocate_twice (sizeof_list t)
          if list == null then pure null else do
            store_list list (record { node_count = 0; first_node_ptr = null; last_node_ptr = null })
            pure list)
        else pure null

  -- What the four functions share: a node for the item, the links in a critical section, and the
  -- count.
  unfoldable pub insert_with : (list item : Ptr) → (Ptr → Cmd P (Unit {0})) → Cmd P Bool
  insert_with list item link = do
    node ← allocate_twice (sizeof_list_node t)
    if node == null then pure false else do
      store_node node (record { item_ptr = item; prev_node_ptr = null; next_node_ptr = null })
      enter_section p
      link node
      increment list
      leave_section p
      pure true

  -- `TbxListInsertItemFront`
  unfoldable pub insert_item_front : (list item : Ptr) → Cmd P Bool
  insert_item_front list item =
      if list == null || item == null then pure false else insert_with list item (link_front list)

  -- `TbxListInsertItemBack`
  unfoldable pub insert_item_back : (list item : Ptr) → Cmd P Bool
  insert_item_back list item =
      if list == null || item == null then pure false else insert_with list item (link_back list)

  -- `TbxListInsertItemBefore`
  unfoldable pub insert_item_before : (list item item_ref : Ptr) → Cmd P Bool
  insert_item_before list item item_ref =
      if list == null || item == null || item_ref == null then pure false else do
        ref ← find_list_node p list item_ref
        if ref == null then pure false else insert_with list item (link_before list ref)

  -- `TbxListInsertItemAfter`
  unfoldable pub insert_item_after : (list item item_ref : Ptr) → Cmd P Bool
  insert_item_after list item item_ref =
      if list == null || item == null || item_ref == null then pure false else do
        ref ← find_list_node p list item_ref
        if ref == null then pure false else insert_with list item (link_after list ref)
