-- ===== src/LinkedList/Sort.antt =====
-- The functions of source/tbx_list.c that move items between the nodes.
use microtbx.Base.{ℕ, zero, suc, ◌+◌, Bool, Option, none, some, ◌||◌, ◌==◌, if◌then◌else◌}
use microtbx.Target.{Ptr, null}
use microtbx.LinkedList.Store.{
  Pools, Cmd, pure, ◌>>=◌, ◌>>◌, load_node, load_list, store_node, enter_section, leave_section,
}
use microtbx.LinkedList.Read.{find_list_node}

module _ {P : Type 0} where
  abbrev pub set_item : (node to : Ptr) → Cmd P (Unit {0})
  set_item node to = do n ← load_node node; store_node node (record n { item_ptr = to })

  -- The inner loop, from the node `idx` on.
  unfoldable pub index_loop : ℕ → (Ptr → Ptr → Bool) → (current idx : Ptr) → Cmd P (Unit {0})
  index_loop zero compare_items current idx = λ _. none
  index_loop (suc k) compare_items current idx = if idx == null then pure tt else do
    c ← load_node current
    i ← load_node idx
    (if compare_items c.item_ptr i.item_ptr
        then (do set_item current i.item_ptr; set_item idx c.item_ptr)
        else pure tt)
    n ← load_node idx
    index_loop k compare_items current n.next_node_ptr

  -- The outer loop. Its test reads the current node, which faults for NULL.
  unfoldable pub sort_loop : ℕ → (Ptr → Ptr → Bool) → Ptr → Cmd P (Unit {0})
  sort_loop zero compare_items current = λ _. none
  sort_loop (suc k) compare_items current = do
    c ← load_node current
    if c.next_node_ptr == null then pure tt else do
      index_loop (suc k) compare_items current c.next_node_ptr
      n ← load_node current
      sort_loop k compare_items n.next_node_ptr

module _ {P : Type 0} (p : Pools P) where
  -- `TbxListSwapItems`
  unfoldable pub swap_items : (list item₁ item₂ : Ptr) → Cmd P (Unit {0})
  swap_items list item₁ item₂ =
      if list == null || item₁ == null || item₂ == null then pure tt else do
        enter_section p
        node₁ ← find_list_node p list item₁
        node₂ ← find_list_node p list item₂
        (if node₁ == null || node₂ == null
            then pure tt
            else do set_item node₁ item₂; set_item node₂ item₁)
        leave_section p

  -- `TbxListSortItems`; a NULL function is `none`.
  unfoldable pub sort_items : Ptr → Option (Ptr → Ptr → Bool) → Cmd P (Unit {0})
  sort_items list none = pure tt
  sort_items list (some compare_items) = if list == null then pure tt else do
    enter_section p
    l ← load_list list
    sort_loop (l.node_count + 1) compare_items l.first_node_ptr
    leave_section p
