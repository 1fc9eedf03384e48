-- ===== src/LinkedList/Link.antt =====
-- A list of source/tbx_list.c in memory: its handle and its chain, and a new node beside it.
use microtbx.Base.{ℕ, ◌≡◌, ◌≢◌, false, some}
use microtbx.Target.{Ptr, null}
use microtbx.LinkedList.Store.{ListHandle, node_of, handle_of, State, put}
use microtbx.LinkedList.Insert.{set_first, set_last}
use microtbx.LinkedList.Chain.{Cells, has, first, last, Chain}
use microtbx.LinkedList.Returns.{with_lists, load_list-some, store_list-some}
use microtbx.LinkedList.Open.{Open}

module _ {P : Type 0} (s : State P) (list to : Ptr) {l : ListHandle} (ne : list ≢ null)
    (is : s.list list ≡ some l) where
  pub set_first_lem :
      set_first list to s
      ≡ some (tt, with_lists s (put s.list list (record l { first_node_ptr = to })))
  set_first_lem = rw (load_list-some s list ne is) (store_list-some s list ne _)

  pub set_last_lem :
      set_last list to s
      ≡ some (tt, with_lists s (put s.list list (record l { last_node_ptr = to })))
  set_last_lem = rw (load_list-some s list ne is) (store_list-some s list ne _)

-- Only the nodes `xs` and the handle `list` may have changed.
pub record Local {P : Type 0} (list : Ptr) (xs : Cells) (s s' : State P) : Type 0 where
  pub nodes : (a : Ptr) → has a xs ≡ false → s'.node a ≡ s.node a
  pub lists : (k : Ptr) → k ≢ list → s'.list k ≡ s.list k
  pub pools : s'.pools ≡ s.pools
  pub created : s'.mem_pools_created ≡ s.mem_pools_created

-- The list whose nodes are `xs`, of which the handle counts `count`.
pub record Headed {P : Type 0} (list : Ptr) (xs : Cells) (count : ℕ) (s : State P) : Type 0 where
  pub nonnull : list ≢ null
  pub handle : s.list list ≡ some (handle_of count (first xs null) (last null xs))
  pub chain : Chain s.node null null xs

-- A new node beside the chain.
abbrev pub Beside : {P : Type 0} → Cells → (q x : Ptr) → Cells → State P → Type 0
Beside left q x right s =
    Open s.node left (first right null) q (node_of x null null) (last null left) right

abbrev pub Linked : {P : Type 0} → (list : Ptr) → Cells → ℕ → State P → Unit {0} → State P → Type 0
Linked list xs count s _ s' = Headed list xs count s' × Local list xs s s'
