-- ===== src/MemPool/Search.antt =====
-- The searches of source/tbx_mempool.c: each loop ends on its fuel, without a fault, and finds
-- what the list of pools says.
use microtbx.Base.{
  ℕ, zero, suc, ◌+◌, ◌<◌, ◌≡◌, refl, ap, ◌∙◌, arith, List, [], ◌∷◌, length, All, ◌==◌, ==_ne,
  lt→ltb, leb, inl, inr, Bool-cases,
}
use microtbx.Target.{Config, Ptr, sizeof_ptr}
use microtbx.MemPool.Store.{State, ok, load_lem}
use microtbx.MemPool.PoolList.{find_loop, find, find_best_fit_loop, find_best_fit}
use microtbx.MemPool.Block.{block_list_is_empty}
use microtbx.MemPool.View.{View, first, Chain, IsView, IsPools, find_view, best_view}

module _ (w : ℕ) (home : Ptr → ℕ) (e : ℕ) (s : State) where
  pub find_loop_lem :
      (k size : ℕ) (vs : List View)
      → Chain s.memory.pool_node vs
      → All (IsView w s.memory home e) vs
      → length vs < k
      → find_loop k size (first vs) s ≡ ok (find_view size vs) s
  unfolding find_loop
  find_loop_lem zero size vs chain views fuel = absurd (omega arith)
  find_loop_lem (suc k) size [] chain views fuel = refl
  find_loop_lem (suc k) size (v ∷ vs) chain views fuel =
      let next = find_loop_lem k size vs chain.2 views.1 (omega arith) in
      let node = load_lem (λ m. m.pool_node) v.node s chain.0 chain.1 in
      let pool = load_lem (λ m. m.pool) v.pool s views.0.pool_at.0 views.0.pool_is in
      rw (==_ne chain.0, node, pool)
        (elim (Bool-cases (v.size == size)) [ inl hit ↦ rw hit | inr miss ↦ rw miss next ])

  pub best_fit_loop_lem :
      (k size : ℕ) (vs : List View)
      → Chain s.memory.pool_node vs
      → All (IsView w s.memory home e) vs
      → length vs < k
      → find_best_fit_loop k size (first vs) s ≡ ok (best_view size vs) s
  unfolding find_best_fit_loop block_list_is_empty
  best_fit_loop_lem zero size vs chain views fuel = absurd (omega arith)
  best_fit_loop_lem (suc k) size [] chain views fuel = refl
  best_fit_loop_lem (suc k) size (v ∷ vs) chain views fuel =
      let next = best_fit_loop_lem k size vs chain.2 views.1 (omega arith) in
      let node = load_lem (λ m. m.pool_node) v.node s chain.0 chain.1 in
      let pool = load_lem (λ m. m.pool) v.pool s views.0.pool_at.0 views.0.pool_is in
      let list =
        load_lem (λ m. m.block_list) v.free_list s views.0.free_list_at.0 views.0.free_is in
      rw (==_ne chain.0, node, pool)
        (elim (Bool-cases (leb size v.size)) [
          | inl hit ↦ rw (hit, ==_ne views.0.free_list_at.0, list) refl
          | inr miss ↦ rw miss next
        ])

module _ {c : Config} {home : Ptr → ℕ} {vs : List View} {s : State} (pools : IsPools c home vs s)
    (size : ℕ) (pos : 0 < size) where
  pub find_lem : find c size s ≡ ok (find_view size vs) s
  unfolding find
  find_lem = rw (lt→ltb 0 size pos) (
      ap (λ p. find_loop (c.heap_size + 1) size p s) pools.entry
      ∙ find_loop_lem (sizeof_ptr c.target) home (c.base + s.heap.allocated) s (c.heap_size + 1)
          size vs pools.chain pools.views (omega (arith, pools.count, pools.heap.within)))

  -- The search for `size` ends, without a fault, and finds the first pool whose blocks are large enough,
  -- or NULL if that has none to give.
  pub find_best_fit_lem : find_best_fit c size s ≡ ok (best_view size vs) s
  unfolding find_best_fit
  find_best_fit_lem = rw (lt→ltb 0 size pos) (
      ap (λ p. find_best_fit_loop (c.heap_size + 1) size p s) pools.entry
      ∙ best_fit_loop_lem (sizeof_ptr c.target) home (c.base + s.heap.allocated) s (c.heap_size + 1)
          size vs pools.chain pools.views (omega (arith, pools.count, pools.heap.within)))
