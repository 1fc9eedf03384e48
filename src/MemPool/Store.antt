-- ===== src/MemPool/Store.antt =====
-- The structs of source/tbx_mempool.c, each kind in a map from addresses, and commands over them.
-- Reading or writing through NULL, or reading where nothing was written, is a fault.
use microtbx.Base.{ℕ, ◌≡◌, ◌≢◌, ==_ne, ◌==◌, if◌then◌else◌, Option, none, some}
use microtbx.Target.{Config, Ptr, null}
use microtbx.CritSect.{enter, leave}
use microtbx.Heap
use microtbx.Heap.{Heap}

-- `tBlockNode`
pub record BlockNode : Type 0 where
  pub block_ptr : Ptr
  pub next_node_ptr : Ptr

-- `tPool`; the two lists are pointers to `tBlockList`, which is the pointer to the first node.
pub record Pool : Type 0 where
  pub block_size : ℕ
  pub free_block_list_ptr : Ptr
  pub used_block_list_ptr : Ptr

-- `tPoolNode`
pub record PoolNode : Type 0 where
  pub pool_ptr : Ptr
  pub next_node_ptr : Ptr

-- The objects on the heap. `size_word` is the `size_t` in front of a block's data.
pub record Memory : Type 0 where
  pub block_node : Ptr → Option BlockNode
  pub block_list : Ptr → Option Ptr
  pub pool : Ptr → Option Pool
  pub pool_node : Ptr → Option PoolNode
  pub size_word : Ptr → Option ℕ

-- `tbxPoolList` beside the heap and what lies on it.
pub record State : Type 0 where
  pub heap : Heap
  pub memory : Memory
  pub pool_list : Ptr

pub data Run {ℓ} (A : Type ℓ) : Type ℓ where
  ok : A → State → Run A
  fault : Run A
  out_of_fuel : Run A

abbrev pub Cmd : Type 0 → Type 0
Cmd A = State → Run A

abbrev pub pure : {A : Type 0} → A → Cmd A
pure a s = ok a s

module _ {A B : Type 0} where
  abbrev pub continue : Run A → (A → Cmd B) → Run B
  continue (ok a s) k = k a s
  continue fault k = fault
  continue out_of_fuel k = out_of_fuel

  infixl 5 ◌>>=◌ ◌>>◌
  abbrev pub ◌>>=◌ : Cmd A → (A → Cmd B) → Cmd B
  m >>= k = λ s. continue (m s) k

  abbrev pub ◌>>◌ : Cmd A → Cmd B → Cmd B
  m >> n = m >>= λ _. n

abbrev pub put : {A : Type 0} → (Ptr → Option A) → Ptr → A → Ptr → Option A
put f p v q = if q == p then some v else f q

-- `*p`
unfoldable pub load : {A : Type 0} → (Memory → Ptr → Option A) → Ptr → Cmd A
load kind p s =
    if p == null then fault else elim (kind s.memory p) [ none ↦ fault | some v ↦ ok v s ]

pub load_lem :
    {A : Type 0} (kind : Memory → Ptr → Option A) (p : Ptr) (s : State) {v : A}
    → p ≢ null
    → kind s.memory p ≡ some v
    → load kind p s ≡ ok v s
unfolding load
load_lem kind p s ne e = rw (==_ne ne, e)

-- A write of a whole object, which also serves to fill memory fresh from the heap.
unfoldable pub store : (Memory → Memory) → Ptr → Cmd (Unit {0})
store change p s = if p == null then fault else ok tt (record s { memory = change s.memory })

pub store_lem :
    (change : Memory → Memory) (p : Ptr) (s : State)
    → p ≢ null
    → store change p s ≡ ok tt (record s { memory = change s.memory })
unfolding store
store_lem change p s ne = rw (==_ne ne)

module _ (p : Ptr) where
  abbrev pub load_block_node : Cmd BlockNode
  load_block_node = load (λ m. m.block_node) p

  abbrev pub load_block_list : Cmd Ptr
  load_block_list = load (λ m. m.block_list) p

  abbrev pub load_pool : Cmd Pool
  load_pool = load (λ m. m.pool) p

  abbrev pub load_pool_node : Cmd PoolNode
  load_pool_node = load (λ m. m.pool_node) p

  abbrev pub load_size_word : Cmd ℕ
  load_size_word = load (λ m. m.size_word) p

  abbrev pub store_block_node : BlockNode → Cmd (Unit {0})
  store_block_node v = store (λ m. record m { block_node = put m.block_node p v }) p

  abbrev pub store_block_list : Ptr → Cmd (Unit {0})
  store_block_list v = store (λ m. record m { block_list = put m.block_list p v }) p

  abbrev pub store_pool : Pool → Cmd (Unit {0})
  store_pool v = store (λ m. record m { pool = put m.pool p v }) p

  abbrev pub store_pool_node : PoolNode → Cmd (Unit {0})
  store_pool_node v = store (λ m. record m { pool_node = put m.pool_node p v }) p

  abbrev pub store_size_word : ℕ → Cmd (Unit {0})
  store_size_word v = store (λ m. record m { size_word = put m.size_word p v }) p

abbrev pub get_pool_list : Cmd Ptr
get_pool_list s = ok s.pool_list s

abbrev pub set_pool_list : Ptr → Cmd (Unit {0})
set_pool_list p s = ok tt (record s { pool_list = p })

-- `TbxHeapAllocate`, `TbxCriticalSectionEnter` and `TbxCriticalSectionExit`, as commands.
abbrev pub heap_allocate : Config → ℕ → Cmd Ptr
heap_allocate c size s = let r = Heap.allocate c size s.heap in ok r.0 (record s { heap = r.1 })

abbrev pub enter_section : Config → Cmd (Unit {0})
enter_section c s = ok tt (record s { heap = record (s.heap) { crit = enter c.port s.heap.crit } })

abbrev pub leave_section : Config → Cmd (Unit {0})
leave_section c s = ok tt (record s { heap = record (s.heap) { crit = leave c.port s.heap.crit } })
