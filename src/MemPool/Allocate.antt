-- ===== src/MemPool/Allocate.antt =====
-- `TbxMemPoolAllocate` of source/tbx_mempool.c on every branch.
use microtbx.Base.{
  ℕ, ◌+◌, ◌≤◌, ◌<◌, ◌≡◌, ◌≢◌, refl, ap, subst, arith, List, [], ◌∷◌, ◌++◌, All, ==_ne, lt→ltb,
}
use native.Mathlib.Decide.{dec_le}
use microtbx.Target.{Config, IsConfig, Ptr, null, sizeof_ptr}
use microtbx.CritSect.{enter, leave}
use microtbx.CritSect.Nested.{Restored, Restored_refl, section-Restored}
use microtbx.Heap.Bounds.{size_add_lem}
use microtbx.MemPool.Store.{State}
use microtbx.MemPool.Block.{get_data_ptr}
use microtbx.MemPool.Api.{allocate}
use microtbx.MemPool.View.{Cells, View, IsView, IsBlock, IsPools, best_view}
use microtbx.MemPool.Search.{find_best_fit_lem}
use microtbx.MemPool.Take.{with_free, taken, allocate_from_lem, IsPools-take, view}
use microtbx.MemPool.Ends.{Ends, ends, weaken, with_crit, IsPools-crit, Ready}

abbrev pub Smaller : ℕ → List View → Type 0
Smaller size = All (λ (w : View). w.size < size)

-- The three ways in which the search for `size` can end.
pub data Best (size : ℕ) (vs : List View) : Type 0 where
  no_pool : Smaller size vs → best_view size vs ≡ null → Best size vs
  used_up :
      (vs₁ : List View) (v : View) (vs₂ : List View)
      → vs ≡ vs₁ ++ v ∷ vs₂
      → Smaller size vs₁
      → size ≤ v.size
      → v.free ≡ []
      → best_view size vs ≡ null
      → Best size vs
  fit :
      (vs₁ : List View) (v : View) (a b : Ptr) (fs : Cells) (vs₂ : List View)
      → vs ≡ vs₁ ++ with_free v a b fs ∷ vs₂
      → Smaller size vs₁
      → size ≤ v.size
      → best_view size vs ≡ v.node
      → Best size vs

module _ (size : ℕ) (v : View) where
  Best-here :
      {w : ℕ} {m : _} {home : Ptr → ℕ} {e : ℕ} (vs : List View) (free : Cells)
      → v.free ≡ free
      → IsView w m home e v
      → size ≤ v.size
      → Best size (v ∷ vs)
  Best-here vs [] is h fits = Best.used_up [] v vs refl tt fits is (rw is (ground arith))
  Best-here vs ((a, b) ∷ fs) is h fits =
      let ne : a ≢ null = (let cells = (rw is at h.free_cells) in cells.0.0) in
      Best.fit [] v a b fs vs (ap (λ f. record v { free = f } ∷ vs) is) tt fits
        (rw is (ground arith))

  Best-later : (vs : List View) → v.size < size → Best size vs → Best size (v ∷ vs)
  Best-later vs lt (Best.no_pool small is) = Best.no_pool (lt, small) (ground arith)
  Best-later vs lt (Best.used_up vs₁ u vs₂ e small fits is found) =
      Best.used_up (v ∷ vs₁) u vs₂ (ap (◌∷◌ v) e) (lt, small) fits is (ground arith)
  Best-later vs lt (Best.fit vs₁ u a b fs vs₂ e small fits found) =
      Best.fit (v ∷ vs₁) u a b fs vs₂ (ap (◌∷◌ v) e) (lt, small) fits (ground arith)

best :
    (w : ℕ) (m : _) (home : Ptr → ℕ) (e : ℕ) (size : ℕ) (vs : List View)
    → All (IsView w m home e) vs
    → Best size vs
best w m home e size [] h = Best.no_pool tt refl
best w m home e size (v ∷ vs) h = elim (dec_le size v.size) [
  | yes fits ↦ Best-here size v vs v.free refl h.0 fits
  | no small ↦ Best-later size v vs (omega arith) (best w m home e size vs h.1)
]

-- How `TbxMemPoolAllocate` ends. Every pool is for smaller blocks; or the first pool for blocks that
-- are large enough has none to give; or `p` is the first free block of that pool, which is now in
-- the client's hands, and no other pool has changed.
pub data Allocated (c : Config) (home : Ptr → ℕ) (vs : List View) (size : ℕ) (p : Ptr) (s : State)
    : Type 0 where
  no_pool : p ≡ null → Smaller size vs → IsPools c home vs s → Allocated c home vs size p s
  used_up :
      (vs₁ : List View) (v : View) (vs₂ : List View)
      → p ≡ null
      → vs ≡ vs₁ ++ v ∷ vs₂
      → Smaller size vs₁
      → size ≤ v.size
      → v.free ≡ []
      → IsPools c home vs s
      → Allocated c home vs size p s
  granted :
      (vs₁ : List View) (v : View) (a b : Ptr) (fs : Cells) (vs₂ : List View)
      → p ≡ b + sizeof_ptr c.target
      → vs ≡ vs₁ ++ with_free v a b fs ∷ vs₂
      → Smaller size vs₁
      → size ≤ v.size
      → IsPools c home (vs₁ ++ taken v a b fs ∷ vs₂) s
      → Allocated c home vs size p s

-- The heap is as full as before, and the critical section was left as it was entered.
pub record Kept (s s' : State) : Type 0 where
  pub allocated : s'.heap.allocated ≡ s.heap.allocated
  pub crit : Restored s.heap.crit s'.heap.crit

get_data_ptr_lem :
    {c : Config} {home : Ptr → ℕ} {vs : List View} {s : State} (b size : ℕ)
    → IsConfig c
    → IsPools c home vs s
    → IsBlock (sizeof_ptr c.target) s.memory home (c.base + s.heap.allocated) size b
    → get_data_ptr c b ≡ b + sizeof_ptr c.target
unfolding get_data_ptr
get_data_ptr_lem {c} b size config pools block = rw (==_ne block.0.0) (
    size_add_lem c.target (b + sizeof_ptr c.target)
      (omega (arith, block.2, pools.heap.within, config.fits)))

module _ {c : Config} {home : Ptr → ℕ} {vs : List View} {s : State} (size : ℕ)
    (ready : Ready c home vs 1 s) (pos : 0 < size) where
  abbrev entered : State
  entered = with_crit s (enter c.port s.heap.crit)

  abbrev inside : IsPools c home vs entered
  inside = IsPools-crit (enter c.port s.heap.crit) ready.pools

  kept :
      {s' : State}
      → s'.heap.allocated ≡ s.heap.allocated
      → s'.heap.crit ≡ leave c.port (enter c.port s.heap.crit)
      → Kept s s'
  kept e k = record {
    allocated = e;
    crit = rw k (section-Restored ready.port ready.sections (Restored_refl _));
  }

  pub grant :
      (vs₁ : List View) (v : View) (a b : Ptr) (fs : Cells) (vs₂ : List View)
      → vs ≡ vs₁ ++ with_free v a b fs ∷ vs₂
      → best_view size vs ≡ v.node
      → Ends
          (λ p s'.
            (p ≡ b + sizeof_ptr c.target)
            × IsPools c home (vs₁ ++ taken v a b fs ∷ vs₂) s'
            × Kept s s')
          (allocate c size s)
  unfolding allocate
  grant vs₁ v a b fs vs₂ is found =
      let now : IsPools c home (vs₁ ++ with_free v a b fs ∷ vs₂) entered =
        subst (λ us. IsPools c home us entered) is inside in
      let block = view vs₁ v a b fs vs₂ now in
      rw
        (
          lt→ltb 0 size pos,
          find_best_fit_lem inside size pos,
          found,
          ==_ne block.node_at.0,
          allocate_from_lem vs₁ v a b fs vs₂ now,
        )
        (ends (
          get_data_ptr_lem b v.size ready.config now block.blocks.0,
          (IsPools-crit (leave c.port (enter c.port s.heap.crit))
              (IsPools-take vs₁ v a b fs vs₂ now)),
          kept refl refl,
        ))

  pub refuse :
      best_view size vs ≡ null
      → Ends (λ p s'. (p ≡ null) × IsPools c home vs s' × Kept s s') (allocate c size s)
  unfolding allocate
  refuse found =
      rw (lt→ltb 0 size pos, find_best_fit_lem inside size pos, found)
        (ends (refl, IsPools-crit _ ready.pools, kept refl refl))

  -- `TbxMemPoolAllocate` never faults and always ends; it takes the first block of the smallest
  -- pool that is large enough or returns NULL, keeps the invariant and leaves the heap alone.
  pub allocate-Allocated :
      Ends (λ p s'. Allocated c home vs size p s' × Kept s s') (allocate c size s)
  allocate-Allocated =
      elim (best (sizeof_ptr c.target) s.memory home (c.base + s.heap.allocated) size vs
        ready.pools.views) [
          | Best.no_pool small found ↦
              weaken (refuse found) λ p s' (e, pools, kept). (Allocated.no_pool e small pools, kept)
          | Best.used_up vs₁ v vs₂ is small fits empty found ↦
              weaken (refuse found) λ p s' (e, pools, kept).
                (Allocated.used_up vs₁ v vs₂ e is small fits empty pools, kept)
          | Best.fit vs₁ v a b fs vs₂ is small fits found ↦
              weaken (grant vs₁ v a b fs vs₂ is found) λ p s' (e, pools, kept).
                (Allocated.granted vs₁ v a b fs vs₂ e is small fits pools, kept)
        ]
