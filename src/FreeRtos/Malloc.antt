-- ===== src/FreeRtos/Malloc.antt =====
-- `pvPortMalloc` of source/extra/freertos/tbx_freertos.c.
use microtbx.Base.{
  ℕ, ◌+◌, ◌<◌, ◌≡◌, ◌≢◌, ◌≤◌, ◌⊎◌, inl, inr, refl, arith, Bool, Bool-cases, true, false, List, [],
  ◌∷◌, ◌++◌, ◌&&◌, ◌==◌, ==_ne, if◌then◌else◌,
}
use microtbx.Target.{Config, Ptr, null, sizeof_ptr}
use microtbx.Heap.Bounds.{Fits}
use microtbx.CritSect.Nested.{IsReady, Restored-IsReady}
use microtbx.MemPool.Store.{State, pure, continue}
use microtbx.MemPool.Api.{create, allocate}
use microtbx.MemPool.View.{Cells, View, IsPools}
use microtbx.MemPool.Ends.{Ends, ends, weaken, both, and_then, Ready}
use microtbx.MemPool.Allocate.{Smaller, Allocated, allocate-Allocated, Kept}
use microtbx.MemPool.Grow.{Full, struct_Fits}
use microtbx.MemPool.AddPool.{empty_view}
use microtbx.MemPool.Fill.{stocked}
use microtbx.MemPool.Exact.{allocate-exact}
use microtbx.MemPool.NewPool.{Grown}
use microtbx.MemPool.Create.{Created, create-Created}
use microtbx.MemPool.Refill.{One, single, assemble, Grown-Kept, Kept-Grown, IsReady-fewer}
use microtbx.FreeRtos.{Os, malloc_pools, malloc}

-- The pools have no block for a request: all of them are for smaller ones, or the first that is for
-- blocks that are large enough has no free one.
abbrev pub Refused : ℕ → List View → Type 0
Refused wanted_size vs =
    Smaller wanted_size vs
    ⊎ ((vs₁ : List View) × (v : View) × (vs₂ : List View) × (vs ≡ vs₁ ++ v ∷ vs₂)
        × Smaller wanted_size vs₁
        × (wanted_size ≤ v.size)
        × (v.free ≡ []))

-- How `pvPortMalloc` ends. The pools there were had a block; or they had none, `TbxMemPoolCreate` was
-- called for one block, and `p` is what the pools answered then. A NULL means that the heap has no
-- room for the block.
pub data Malloced (c : Config) (home : Ptr → ℕ) (vs : List View) (wanted_size : ℕ) (p : Ptr)
    (s' : State) : Type 0 where
  at_once : p ≢ null → Allocated c home vs wanted_size p s' → Malloced c home vs wanted_size p s'
  after_create :
      (made : Bool) (t : State) (home' : Ptr → ℕ) (vs' : List View)
      → Refused wanted_size vs
      → Created c vs 1 wanted_size made t
      → IsPools c home' vs' t
      → Allocated c home' vs' wanted_size p s'
      → (p ≡ null → Full c wanted_size s')
      → Malloced c home vs wanted_size p s'

module _ {c : Config} {home : Ptr → ℕ} {vs : List View} {s : State} (wanted_size : ℕ)
    (pos : 0 < wanted_size) (fits : Fits c.target (sizeof_ptr c.target + wanted_size))
    (ready : Ready c home vs 2 s) where
  abbrev Final : Ptr → State → Type 0
  Final p s' = Malloced c home vs wanted_size p s' × Grown s s'

  -- The request after `TbxMemPoolCreate`.
  module _ {made : Bool} {t : State} (none : Refused wanted_size vs)
      (is : Created c vs 1 wanted_size made t) (grown : Grown s t)
      (sections : IsReady c.port 1 t.heap.crit) {home' : Ptr → ℕ} where
    request_full :
        {vs' : List View}
        → Full c wanted_size t
        → IsPools c home' vs' t
        → Ends Final (allocate c wanted_size t)
    request_full full pools =
        weaken
          (allocate-Allocated wanted_size (assemble ready.config ready.port sections pools) pos)
          λ p s' (answer, kept). (
            Malloced.after_create made t home' _ none is pools answer
                (λ _. omega (arith, full, kept.allocated)),
            Grown-Kept grown kept,
          )

    request_made :
        (vs₁ : List View) (v : View) (more : Cells) (vs₂ : List View)
        → v.size ≡ wanted_size
        → One more
        → IsPools c home' (vs₁ ++ stocked v more ∷ vs₂) t
        → Ends Final (allocate c wanted_size t)
    request_made vs₁ v more vs₂ e (One.one a b) pools =
        let inside = assemble ready.config ready.port sections pools in
        weaken
          (both (allocate-Allocated wanted_size inside pos)
            (allocate-exact wanted_size pos vs₁ v vs₂ e a b v.free inside))
          λ p s' ((answer, kept), (at, _, _)). (
            Malloced.after_create made t home' _ none is pools answer
                (λ z. absurd (omega (arith, z, at, (struct_Fits c.target).3))),
            Grown-Kept grown kept,
          )

  request :
      (made : Bool) (t : State)
      → Refused wanted_size vs
      → Created c vs 1 wanted_size made t
      → Created c vs 1 wanted_size made t
      → Grown s t
      → IsReady c.port 1 t.heap.crit
      → Ends Final (allocate c wanted_size t)
  request made t none was (Created.no_memory home' e full out pools) grown sections =
      request_full none was grown sections full pools
  request true t none was (Created.extended home' vs₁ v more vs₂ e is all few pools) grown
        sections =
      request_made none was grown sections vs₁ v more vs₂ e (single more (all refl)) pools
  request false t none was (Created.extended home' vs₁ v more vs₂ e is all few pools) grown
        sections =
      request_full none was grown sections (few refl).1 pools
  request true t none was (Created.set_up home' vs₁ a b f u more vs₂ is all few pools) grown
        sections =
      request_made none was grown sections vs₁ (empty_view a b wanted_size f u) more vs₂ refl
        (single more (all refl)) pools
  request false t none was (Created.set_up home' vs₁ a b f u more vs₂ is all few pools) grown
        sections =
      request_full none was grown sections (few refl).1 pools

  again :
      {t : State}
      → Refused wanted_size vs
      → Kept s t
      → IsPools c home vs t
      → Ends Final (continue (create c 1 wanted_size t) λ _. allocate c wanted_size)
  again none kept pools =
      let sections = Restored-IsReady kept.crit ready.sections in
      and_then
        (create-Created 1 wanted_size (omega arith) pos fits
          (assemble ready.config ready.port sections pools))
        λ made u (is, grown).
          request made u none is is (Kept-Grown kept grown)
            (IsReady-fewer (Restored-IsReady grown.crit sections))

  first :
      (p : Ptr) (t : State)
      → Allocated c home vs wanted_size p t
      → Kept s t
      → Ends Final (
          (if p == null
              then (λ u. continue (create c 1 wanted_size u) λ _. allocate c wanted_size)
              else pure p)
            t)
  first p t (Allocated.no_pool e small pools) kept = rw e (again (inl small) kept pools)
  first p t (Allocated.used_up vs₁ v vs₂ e is small fits empty pools) kept =
      rw e (again (inr (vs₁, v, vs₂, is, small, fits, empty)) kept pools)
  first p t (Allocated.granted vs₁ v a b fs vs₂ e is small fits pools) kept =
      rw (==_ne {a = p} {b = null} (λ z. absurd (omega (arith, z, e, (struct_Fits c.target).3)))) (
        ends (
          Malloced.at_once (λ z. absurd (omega (arith, z, e, (struct_Fits c.target).3)))
              (Allocated.granted vs₁ v a b fs vs₂ e is small fits pools),
          record { allocated = omega (arith, kept.allocated); crit = kept.crit },
        ))

  pools_lem : Ends Final (malloc_pools c wanted_size s)
  unfolding malloc_pools
  pools_lem =
      and_then
        (allocate-Allocated wanted_size
          (assemble ready.config ready.port (IsReady-fewer ready.sections) ready.pools) pos)
        λ p u (answer, kept). first p u answer kept

  -- In a state of well-formed pools, with a sound configuration and port and room for two more nested
  -- critical sections, and for a size that is positive and that, with its size word, does not wrap in
  -- the alignment: `pvPortMalloc` never faults and always ends. Its result is a block of the pools there
  -- were, if they had one; if they had none, it is what they answer after `TbxMemPoolCreate` was called
  -- for one block, and NULL then means that the heap has no room for the block and the structs around
  -- it. The scheduler is suspended before the first call for the pools, and after the last one the
  -- result is traced, the scheduler resumed and, if the hook is used and the result is NULL, the hook
  -- called, in this order and each once.
  pub malloc-Malloced :
      {T : Type 0} (os : Os T) (use_hook : Bool) (t : T)
      → Ends
          (λ r s'.
            Malloced c home vs wanted_size r.0 s'
            × Grown s s'
            × (r.1 ≡ (
                let resumed =
                  os.resume_all s' (os.trace_malloc r.0 wanted_size s' (os.suspend_all s t)) in
                if use_hook && (r.0 == null) then os.malloc_failed_hook s' resumed else resumed)))
          (malloc os use_hook c wanted_size t s)
  unfolding malloc
  malloc-Malloced os use_hook t = and_then pools_lem λ p s' (answer, grown).
      elim (Bool-cases (use_hook && (p == null))) [
        | inl told ↦ rw told (ends (answer, grown, rw told refl))
        | inr quiet ↦ rw quiet (ends (answer, grown, rw quiet refl))
      ]
