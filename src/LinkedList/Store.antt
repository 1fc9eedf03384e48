-- ===== src/LinkedList/Store.antt =====
-- The structs of source/tbx_list.h, the memory pools as an interface, and commands over both. A
-- command has no result where it faults, since it reads or writes through NULL or reads what was never
-- written, or where a loop has no round left.
use microtbx.Base.{ℕ, Bool, true, ◌*◌, ◌==◌, if◌then◌else◌, Option, none, some}
use microtbx.Target.{Target, Ptr, null, sizeof_ptr}

-- `tTbxListNode`
pub record ListNode : Type 0 where
  pub item_ptr : Ptr
  pub prev_node_ptr : Ptr
  pub next_node_ptr : Ptr

-- `tTbxList`
pub record ListHandle : Type 0 where
  pub node_count : ℕ
  pub first_node_ptr : Ptr
  pub last_node_ptr : Ptr

abbrev pub node_of : (item prev next : Ptr) → ListNode
node_of item prev next = record { item_ptr = item; prev_node_ptr = prev; next_node_ptr = next }

abbrev pub handle_of : (count : ℕ) → (front back : Ptr) → ListHandle
handle_of count front back = record {
  node_count = count;
  first_node_ptr = front;
  last_node_ptr = back;
}

-- Each struct is three words.
abbrev pub sizeof_list : Target → ℕ
sizeof_list t = 3 * sizeof_ptr t

abbrev pub sizeof_list_node : Target → ℕ
sizeof_list_node t = 3 * sizeof_ptr t

-- `TbxMemPoolCreate`, `TbxMemPoolAllocate`, `TbxMemPoolRelease`, `TbxCriticalSectionEnter` and
-- `TbxCriticalSectionExit`, over a state of their own.
pub record Pools (P : Type 0) : Type 0 where
  pub create : (num_blocks block_size : ℕ) → P → Option (Bool × P)
  pub allocate : ℕ → P → Option (Ptr × P)
  pub release : Ptr → P → Option P
  pub enter : P → P
  pub leave : P → P

pub record State (P : Type 0) : Type 0 where
  pub pools : P
  pub node : Ptr → Option ListNode
  pub list : Ptr → Option ListHandle
  pub mem_pools_created : Bool

-- A write.
abbrev pub put : {A : Type 0} → (Ptr → Option A) → Ptr → A → Ptr → Option A
put m q v r = if r == q then some v else m r

abbrev pub Cmd : Type 0 → Type 0 → Type 0
Cmd P A = State P → Option (A × State P)

module _ {P : Type 0} where
  abbrev pub pure : {A : Type 0} → A → Cmd P A
  pure a s = some (a, s)

  abbrev pub continue : {A B : Type 0} → Option (A × State P) → (A → Cmd P B) → Option (B × State P)
  continue none k = none
  continue (some (a, s)) k = k a s

  infixl 5 ◌>>=◌ ◌>>◌
  abbrev pub ◌>>=◌ : {A B : Type 0} → Cmd P A → (A → Cmd P B) → Cmd P B
  m >>= k = λ s. continue (m s) k

  abbrev pub ◌>>◌ : {A B : Type 0} → Cmd P A → Cmd P B → Cmd P B
  m >> n = m >>= λ _. n

  abbrev present : {A : Type 0} → Option A → Cmd P A
  present none s = none
  present (some a) s = some (a, s)

  -- `*q`
  unfoldable pub load_node : Ptr → Cmd P ListNode
  load_node q s = if q == null then none else present (s.node q) s

  unfoldable pub load_list : Ptr → Cmd P ListHandle
  load_list q s = if q == null then none else present (s.list q) s

  unfoldable pub store_node : Ptr → ListNode → Cmd P (Unit {0})
  store_node q v s = if q == null then none else some (tt, record s { node = put s.node q v })

  unfoldable pub store_list : Ptr → ListHandle → Cmd P (Unit {0})
  store_list q v s = if q == null then none else some (tt, record s { list = put s.list q v })

  abbrev pub get_created : Cmd P Bool
  get_created s = some (s.mem_pools_created, s)

  abbrev pub set_created : Cmd P (Unit {0})
  set_created s = some (tt, record s { mem_pools_created = true })

  abbrev on_pools : {A : Type 0} → Option (A × P) → Cmd P A
  on_pools none s = none
  on_pools (some (a, pools)) s = some (a, record s { pools = pools })

  abbrev released : Option P → Cmd P (Unit {0})
  released none s = none
  released (some pools) s = some (tt, record s { pools = pools })

-- The functions of the interface, as commands.
module _ {P : Type 0} (p : Pools P) where
  abbrev pub create_pool : (num_blocks block_size : ℕ) → Cmd P Bool
  create_pool n size s = on_pools (p.create n size s.pools) s

  abbrev pub allocate_block : ℕ → Cmd P Ptr
  allocate_block size s = on_pools (p.allocate size s.pools) s

  abbrev pub release_block : Ptr → Cmd P (Unit {0})
  release_block q s = released (p.release q s.pools) s

  abbrev pub enter_section : Cmd P (Unit {0})
  enter_section s = some (tt, record s { pools = p.enter s.pools })

  abbrev pub leave_section : Cmd P (Unit {0})
  leave_section s = some (tt, record s { pools = p.leave s.pools })
