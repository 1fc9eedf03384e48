-- ===== src/MemPool/View.antt =====
-- What the pool list of source/tbx_mempool.c stands for: each pool with the nodes and blocks of
-- its two lists and the blocks that clients hold, and when a store holds such pools.
use microtbx.Base.{
  ℕ, ◌+◌, ◌≤◌, ◌<◌, ◌≡◌, ◌≢◌, Bool, true, false, ◌||◌, some, Option, List, [], ◌∷◌, ◌++◌, ◌==◌,
  if◌then◌else◌, leb, length, All,
}
use microtbx.Target.{Config, Ptr, null, sizeof_ptr}
use microtbx.Heap.Bounds.{IsHeap}
use microtbx.MemPool.Store.{BlockNode, PoolNode, Memory, State}

-- The nodes of a block list, head first: the address of each and the block that it points to.
abbrev pub Cells : Type 0
Cells = List (Ptr × Ptr)

abbrev pub head : Cells → Ptr
head [] = null
head ((a, _) ∷ _) = a

abbrev pub has : Ptr → Cells → Bool
has a [] = false
has a ((p, _) ∷ xs) = (a == p) || has a xs

abbrev pub mem : Ptr → List Ptr → Bool
mem b [] = false
mem b (x ∷ xs) = (b == x) || mem b xs

abbrev pub NoDup : List Ptr → Type 0
NoDup [] = Unit
NoDup (x ∷ xs) = (mem x xs ≡ false) × NoDup xs

-- From node to node, over distinct addresses, to NULL.
abbrev pub Linked : (Ptr → Option BlockNode) → Cells → Type 0
Linked m [] = Unit
Linked m ((a, b) ∷ xs) =
    (a ≢ null)
    × (m a ≡ some (record { block_ptr = b; next_node_ptr = head xs }))
    × (has a xs ≡ false)
    × Linked m xs

-- A pool: the addresses of its node, of the pool and of its two list objects, the size of its
-- blocks, the nodes of both lists, and the blocks that were handed out and not given back.
pub record View : Type 0 where
  pub node : Ptr
  pub pool : Ptr
  pub size : ℕ
  pub free_list : Ptr
  pub used_list : Ptr
  pub free : Cells
  pub used : Cells
  pub live : List Ptr

abbrev pub stock : Cells → List Ptr
stock [] = []
stock ((_, b) ∷ xs) = b ∷ stock xs

abbrev pub first : List View → Ptr
first [] = null
first (v ∷ _) = v.node

abbrev pub Chain : (Ptr → Option PoolNode) → List View → Type 0
Chain m [] = Unit
Chain m (v ∷ vs) =
    (v.node ≢ null)
    × (m v.node ≡ some (record { pool_ptr = v.pool; next_node_ptr = first vs }))
    × Chain m vs

-- Ascending block sizes, each size once.
abbrev pub Ascending : List View → Type 0
Ascending [] = Unit
Ascending (v ∷ vs) = All (λ w. v.size < w.size) vs × Ascending vs

-- `home` gives the pool that an address belongs to, by its block size, and `e` is the end of what
-- the heap has handed out.
abbrev pub At : (Ptr → ℕ) → ℕ → ℕ → Ptr → Type 0
At home e size p = (p ≢ null) × (p < e) × (home p ≡ size)

-- The size stands in front of the block's bytes, all of it on the heap, and nothing else begins
-- inside: `home` is 0 there.
abbrev pub IsBlock : (w : ℕ) → Memory → (Ptr → ℕ) → ℕ → ℕ → Ptr → Type 0
IsBlock w m home e size b =
    At home e size b
    × (m.size_word b ≡ some size)
    × (b + w + size ≤ e)
    × ((a : Ptr) → b < a → a < b + w + size → home a ≡ 0)

pub record IsView (w : ℕ) (m : Memory) (home : Ptr → ℕ) (e : ℕ) (v : View) : Type 0 where
  pub size_pos : 0 < v.size
  pub node_at : At home e v.size v.node
  pub pool_at : At home e v.size v.pool
  pub free_list_at : At home e v.size v.free_list
  pub used_list_at : At home e v.size v.used_list
  pub lists_ne : v.free_list ≢ v.used_list
  pub pool_is :
      m.pool v.pool
      ≡ some (record {
        block_size = v.size;
        free_block_list_ptr = v.free_list;
        used_block_list_ptr = v.used_list;
      })
  pub free_is : m.block_list v.free_list ≡ some (head v.free)
  pub used_is : m.block_list v.used_list ≡ some (head v.used)
  pub free_linked : Linked m.block_node v.free
  pub used_linked : Linked m.block_node v.used
  pub free_cells : All (λ (x : Ptr × Ptr). At home e v.size x.0) v.free
  pub used_cells : All (λ (x : Ptr × Ptr). At home e v.size x.0) v.used
  pub apart : (a : Ptr) → has a v.free ≡ true → has a v.used ≡ false
  pub blocks : All (IsBlock w m home e v.size) (stock v.free ++ v.live)
  pub distinct : NoDup (stock v.free ++ v.live)
  pub balance : length v.used ≡ length v.live

-- The invariant of the module: the state holds the pools `vs`, and no pool has an address in front of
-- the buffer.
pub record IsPools (c : Config) (home : Ptr → ℕ) (vs : List View) (s : State) : Type 0 where
  pub heap : IsHeap c s.heap
  pub low : (a : Ptr) → a < c.base → home a ≡ 0
  pub entry : s.pool_list ≡ first vs
  pub chain : Chain s.memory.pool_node vs
  pub ascending : Ascending vs
  pub views : All (IsView (sizeof_ptr c.target) s.memory home (c.base + s.heap.allocated)) vs
  pub count : length vs ≤ s.heap.allocated

-- The address of the pool for exactly this size, as the code looks for it.
abbrev pub find_view : ℕ → List View → Ptr
find_view size [] = null
find_view size (v ∷ vs) = if v.size == size then v.node else find_view size vs

-- The first pool whose blocks are large enough, unless that has none to give.
abbrev pub best_view : ℕ → List View → Ptr
best_view size [] = null
best_view size (v ∷ vs) =
    if leb size v.size then (if head v.free == null then null else v.node) else best_view size vs
