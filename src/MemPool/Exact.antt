-- ===== src/MemPool/Exact.antt =====
-- `TbxMemPoolAllocate` of source/tbx_mempool.c for the exact size of a pool.
use microtbx.Base.{
  ℕ, zero, suc, ◌+◌, ◌<◌, ◌≡◌, ◌≢◌, refl, sym, ◌∙◌, arith, false, true, List, [], ◌∷◌, ◌++◌, All,
  ◌==◌, ==_ne, Bool-cases, inl, inr, if◌then◌else◌, leb, length,
}
use microtbx.Target.{Config, Ptr, null, sizeof_ptr}
use microtbx.MemPool.Store.{State, ok, load_lem}
use microtbx.MemPool.Api.{auto_loop, allocate}
use microtbx.MemPool.View.{
  Cells, View, head, Ascending, Chain, first, IsView, IsPools, find_view, best_view,
}
use microtbx.MemPool.Replace.{All-middle, All-replace}
use microtbx.MemPool.Frame.{All-map}
use microtbx.MemPool.Take.{with_free, taken}
use microtbx.MemPool.Ends.{Ends, Ready}
use microtbx.MemPool.Allocate.{Kept, grant, refuse}

module _ (w : ℕ) (home : Ptr → ℕ) (e : ℕ) (s : State) where
  pub auto_loop_lem :
      (k size : ℕ) (vs : List View)
      → Chain s.memory.pool_node vs
      → All (IsView w s.memory home e) vs
      → length vs < k
      → auto_loop k size (first vs) s ≡ ok (find_view size vs) s
  unfolding auto_loop
  auto_loop_lem zero size vs chain views fuel = absurd (omega arith)
  auto_loop_lem (suc k) size [] chain views fuel = refl
  auto_loop_lem (suc k) size (v ∷ vs) chain views fuel =
      let next = auto_loop_lem k size vs chain.2 views.1 (omega arith) in
      let node = load_lem (λ m. m.pool_node) v.node s chain.0 chain.1 in
      let pool = load_lem (λ m. m.pool) v.pool s views.0.pool_at.0 views.0.pool_is in
      rw (==_ne chain.0, node, pool)
        (elim (Bool-cases (v.size == size)) [ inl hit ↦ rw hit | inr miss ↦ rw miss next ])

-- The pool for exactly this size is the one that the search for the best fit asks.
best_view-exact :
    (size : ℕ) (vs₁ : List View) (v : View) (vs₂ : List View)
    → v.size ≡ size
    → Ascending (vs₁ ++ v ∷ vs₂)
    → best_view size (vs₁ ++ v ∷ vs₂) ≡ (if head v.free == null then null else v.node)
best_view-exact size [] v vs₂ e asc =
    let test : leb size v.size ≡ true = ground arith in rw test refl
best_view-exact size (u ∷ vs₁) v vs₂ e asc =
    let below = All-middle (λ (w : View). u.size < w.size) vs₁ v vs₂ asc.0 in
    let test : leb size u.size ≡ false = ground (arith, below.0) in
    rw test (best_view-exact size vs₁ v vs₂ e asc.1)

module _ {c : Config} {home : Ptr → ℕ} {s : State} (size : ℕ) (pos : 0 < size) (vs₁ : List View)
    (v : View) (vs₂ : List View) (exact : v.size ≡ size) where
  -- A request for the size of a pool with a free block.
  pub allocate-exact :
      (a b : Ptr) (fs : Cells)
      → Ready c home (vs₁ ++ with_free v a b fs ∷ vs₂) 1 s
      → Ends
          (λ p s'.
            (p ≡ b + sizeof_ptr c.target)
            × IsPools c home (vs₁ ++ taken v a b fs ∷ vs₂) s'
            × Kept s s')
          (allocate c size s)
  allocate-exact a b fs ready =
      let view =
        All-middle (IsView (sizeof_ptr c.target) s.memory home (c.base + s.heap.allocated)) vs₁
          (with_free v a b fs) vs₂ ready.pools.views in
      grant size ready pos vs₁ v a b fs vs₂ refl (
        best_view-exact size vs₁ (with_free v a b fs) vs₂ exact ready.pools.ascending
        ∙ rw (==_ne view.0.free_cells.0.0) refl)

  -- And of a pool without one.
  pub allocate-dry :
      v.free ≡ []
      → Ready c home (vs₁ ++ v ∷ vs₂) 1 s
      → Ends
          (λ p s'. (p ≡ null) × IsPools c home (vs₁ ++ v ∷ vs₂) s' × Kept s s')
          (allocate c size s)
  allocate-dry dry ready =
      refuse size ready pos
        (best_view-exact size vs₁ v vs₂ exact ready.pools.ascending ∙ rw dry refl)

-- No pool for this size has a free block.
abbrev pub Dry : ℕ → List View → Type 0
Dry size = All (λ (v : View). v.size ≡ size → v.free ≡ [])

pub Dry-absent : (size : ℕ) (vs : List View) → All (λ (v : View). v.size ≢ size) vs → Dry size vs
Dry-absent size vs out = All-map vs (λ v (ne : v.size ≢ size) e. absurd (ne e)) out

pub Dry-present :
    (size : ℕ) (vs₁ : List View) (v : View) (vs₂ : List View)
    → v.size ≡ size
    → v.free ≡ []
    → Ascending (vs₁ ++ v ∷ vs₂)
    → Dry size (vs₁ ++ v ∷ vs₂)
Dry-present size vs₁ v vs₂ e dry asc =
    All-replace {P = λ _. Unit {0}} vs₁ vs₂ v v asc (λ u ne _ z. absurd (ne (z ∙ sym e))) (λ _. dry)
      (anything (vs₁ ++ v ∷ vs₂))
  where
    anything : (vs : List View) → All (λ _. Unit {0}) vs
    anything [] = tt
    anything (u ∷ vs) = (tt, anything vs)
