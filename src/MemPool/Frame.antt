-- ===== src/MemPool/Frame.antt =====
-- What an operation on one pool leaves of the others.
use microtbx.Base.{ℕ, ◌≤◌, ◌<◌, ◌≡◌, ◌≢◌, sym, ◌∙◌, arith, Option, List, [], ◌∷◌, ◌++◌, All}
use microtbx.Target.{Ptr}
use microtbx.MemPool.Store.{Memory, PoolNode}
use microtbx.MemPool.View.{Cells, View, Linked, At, IsBlock, IsView, stock}
use microtbx.MemPool.Lists.{Linked-frame, All-has}

pub All-map {ℓ κ} :
    {A : Type ℓ} {P Q : A → Type κ} (xs : List A) → ((x : A) → P x → Q x) → All P xs → All Q xs
All-map [] f h = tt
All-map (x ∷ xs) f h = (f x h.0, All-map xs f h.1)

-- Between two states of the heap, only the pool for `size` and fresh memory have changed.
pub record Frame (size : ℕ) (m m' : Memory) (home home' : Ptr → ℕ) (e e' : ℕ) : Type 0 where
  pub grow : e ≤ e'
  pub homes : (a : Ptr) → a < e → home' a ≡ home a
  pub nodes : (a : Ptr) → a < e → home a ≢ size → m'.block_node a ≡ m.block_node a
  pub lists : (a : Ptr) → a < e → home a ≢ size → m'.block_list a ≡ m.block_list a
  pub pools : (a : Ptr) → a < e → home a ≢ size → m'.pool a ≡ m.pool a
  pub words : (a : Ptr) → a < e → m'.size_word a ≡ m.size_word a

module _ {size : ℕ} {m m' : Memory} {home home' : Ptr → ℕ} {e e' : ℕ}
    (f : Frame size m m' home home' e e') where
  pub At-frame : (s : ℕ) (p : Ptr) → At home e s p → At home' e' s p
  At-frame s p h = (h.0, omega (arith, h.1, f.grow), f.homes p h.1 ∙ h.2)

  pub IsBlock-frame : (w s : ℕ) (b : Ptr) → IsBlock w m home e s b → IsBlock w m' home' e' s b
  IsBlock-frame w s b h = (
    At-frame s b h.0,
    f.words b h.0.1 ∙ h.1,
    omega (arith, h.2, f.grow),
    λ a lo hi. f.homes a (omega (arith, h.2)) ∙ h.3 a lo hi,
  )

  cells-frame :
      (s : ℕ) (xs : Cells)
      → All (λ (x : Ptr × Ptr). At home e s x.0) xs
      → All (λ (x : Ptr × Ptr). At home' e' s x.0) xs
  cells-frame s xs = All-map xs (λ x. At-frame s x.0)

  other : {s : ℕ} → s ≢ size → (p : Ptr) → At home e s p → home p ≢ size
  other ne p h z = ne (sym h.2 ∙ z)

  Linked-unchanged :
      {s : ℕ} (xs : Cells)
      → s ≢ size
      → All (λ (x : Ptr × Ptr). At home e s x.0) xs
      → Linked m.block_node xs
      → Linked m'.block_node xs
  Linked-unchanged {s} xs ne all = Linked-frame m.block_node m'.block_node xs λ a h.
      let here : At home e s a = All-has (At home e s) xs all a h in
      f.nodes a here.1 (other ne a here)

  -- A pool for another size stands as it stood.
  pub IsView-frame :
      {w : ℕ} {v : View} → v.size ≢ size → IsView w m home e v → IsView w m' home' e' v
  IsView-frame {w} {v} ne h = record {
    size_pos = h.size_pos;
    node_at = At-frame v.size v.node h.node_at;
    pool_at = At-frame v.size v.pool h.pool_at;
    free_list_at = At-frame v.size v.free_list h.free_list_at;
    used_list_at = At-frame v.size v.used_list h.used_list_at;
    lists_ne = h.lists_ne;
    pool_is = f.pools v.pool h.pool_at.1 (other ne v.pool h.pool_at) ∙ h.pool_is;
    free_is =
        f.lists v.free_list h.free_list_at.1 (other ne v.free_list h.free_list_at) ∙ h.free_is;
    used_is =
        f.lists v.used_list h.used_list_at.1 (other ne v.used_list h.used_list_at) ∙ h.used_is;
    free_linked = Linked-unchanged v.free ne h.free_cells h.free_linked;
    used_linked = Linked-unchanged v.used ne h.used_cells h.used_linked;
    free_cells = cells-frame v.size v.free h.free_cells;
    used_cells = cells-frame v.size v.used h.used_cells;
    apart = h.apart;
    blocks = All-map (stock v.free ++ v.live) (IsBlock-frame w v.size) h.blocks;
    distinct = h.distinct;
    balance = h.balance;
  }

-- A pool does not depend on how the nodes of the pool list are linked.
pub IsView-nodes :
    {w : ℕ} {m : Memory} {home : Ptr → ℕ} {e : ℕ} (nodes : Ptr → Option PoolNode) (v : View)
    → IsView w m home e v
    → IsView w (record m { pool_node = nodes }) home e v
IsView-nodes nodes v h = record {
  size_pos = h.size_pos;
  node_at = h.node_at;
  pool_at = h.pool_at;
  free_list_at = h.free_list_at;
  used_list_at = h.used_list_at;
  lists_ne = h.lists_ne;
  pool_is = h.pool_is;
  free_is = h.free_is;
  used_is = h.used_is;
  free_linked = h.free_linked;
  used_linked = h.used_linked;
  free_cells = h.free_cells;
  used_cells = h.used_cells;
  apart = h.apart;
  blocks = h.blocks;
  distinct = h.distinct;
  balance = h.balance;
}
