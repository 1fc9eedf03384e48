-- ===== src/MemPool/Release.antt =====
-- `TbxMemPoolRelease` of source/tbx_mempool.c under what its caller knows: that it holds the block.
use microtbx.Base.{
  ℕ, ◌+◌, ◌<◌, ◌≡◌, ◌≢◌, refl, sym, ap, subst, ◌∙◌, arith, List, [], ◌∷◌, ◌++◌, length,
}
use microtbx.Target.{Config, Ptr, sizeof_ptr}
use microtbx.MemPool.Store.{State, continue}
use microtbx.MemPool.Api.{allocate, release}
use microtbx.MemPool.View.{Cells, View, IsView, IsPools}
use microtbx.MemPool.Replace.{All-middle}
use microtbx.MemPool.Take.{with_free}
use microtbx.MemPool.Ends.{Ends, weaken, and_then, Ready}
use microtbx.MemPool.Allocate.{Kept}
use microtbx.MemPool.Given.{given}
use microtbx.MemPool.Give.{release-give}
use microtbx.MemPool.Exact.{allocate-exact}
use microtbx.MemPool.Refill.{assemble}
use microtbx.CritSect.Nested.{Restored_trans, Restored-IsReady}

-- The node at the head of the used list went to the free list with the block.
pub record Released (c : Config) (home : Ptr → ℕ) (vs₁ : List View) (v : View) (l₁ : List Ptr)
    (b : Ptr) (l₂ : List Ptr) (vs₂ : List View) (s' : State) : Type 0 where
  pub node : Ptr
  pub block : Ptr
  pub rest : Cells
  pub used : v.used ≡ (node, block) ∷ rest
  pub pools : IsPools c home (vs₁ ++ given v node rest l₁ b l₂ ∷ vs₂) s'

Kept_trans : {s t u : State} → Kept s t → Kept t u → Kept s u
Kept_trans a b = record {
  allocated = b.allocated ∙ a.allocated;
  crit = Restored_trans a.crit b.crit;
}

some_live : (xs : List Ptr) (b : Ptr) (ys : List Ptr) → length (xs ++ b ∷ ys) ≢ 0
some_live [] b ys e = omega (arith, e)
some_live (x ∷ xs) b ys e = omega (arith, e)

module _ {c : Config} {home : Ptr → ℕ} {s : State} (vs₁ : List View) (v : View) (l₁ : List Ptr)
    (b : Ptr) (l₂ : List Ptr) (vs₂ : List View) (held : v.live ≡ l₁ ++ b ∷ l₂) where
  release_used :
      (used : Cells)
      → v.used ≡ used
      → Ready c home (vs₁ ++ v ∷ vs₂) 1 s
      → Ends
          (λ _ s'. Released c home vs₁ v l₁ b l₂ vs₂ s' × Kept s s')
          (release c (b + sizeof_ptr c.target) s)
  release_used [] e ready =
      let view =
        All-middle (IsView (sizeof_ptr c.target) s.memory home (c.base + s.heap.allocated)) vs₁ v
          vs₂ ready.pools.views in
      absurd (some_live l₁ b l₂ (sym (ap length held) ∙ sym view.0.balance ∙ ap length e))
  release_used ((a, x) ∷ us) e ready =
      let old : v ≡ record v { used = (a, x) ∷ us; live = l₁ ++ b ∷ l₂ } =
        ap (λ t. record v { used = t }) e
        ∙ ap (λ t. record v { used = (a, x) ∷ us; live = t }) held in
      let there = subst (λ u. Ready c home (vs₁ ++ u ∷ vs₂) 1 s) old ready in
      weaken (release-give vs₁ v a x us l₁ b l₂ vs₂ there) λ _ s' (pools, kept).
        (record { node = a; block = x; rest = us; used = e; pools = pools }, kept)

  -- Giving back a block that a client holds never faults and always ends. The block becomes the
  -- first free one of the pool it came from, every other pool and the heap are as they were, and
  -- the invariant holds.
  pub release-Released :
      Ready c home (vs₁ ++ v ∷ vs₂) 1 s
      → Ends
          (λ _ s'. Released c home vs₁ v l₁ b l₂ vs₂ s' × Kept s s')
          (release c (b + sizeof_ptr c.target) s)
  release-Released ready = release_used v.used refl ready

-- Releasing what was just allocated gives back every pool as it was, with the same free blocks in
-- the same order.
pub release-allocate :
    {c : Config} {home : Ptr → ℕ} {s : State} (vs₁ : List View) (v : View) (a b : Ptr) (fs : Cells)
    (vs₂ : List View)
    → 0 < v.size
    → Ready c home (vs₁ ++ with_free v a b fs ∷ vs₂) 1 s
    → Ends
        (λ _ s'. IsPools c home (vs₁ ++ with_free v a b fs ∷ vs₂) s' × Kept s s')
        (continue (allocate c v.size s) λ p. release c p)
release-allocate {c} vs₁ v a b fs vs₂ pos ready =
    and_then (allocate-exact v.size pos vs₁ v vs₂ refl a b fs ready) λ p t (e, pools, kept). rw e (
      weaken
        (release-give vs₁ (record v { free = fs }) a b v.used [] b v.live vs₂
          (assemble ready.config ready.port (Restored-IsReady kept.crit ready.sections) pools))
        λ _ u (back, kept'). (back, Kept_trans kept kept'))
