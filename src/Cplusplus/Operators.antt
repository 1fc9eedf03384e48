-- ===== src/Cplusplus/Operators.antt =====
-- source/extra/cplusplus/tbxcxx.cpp: what the operators make of the answers of the memory pools.
use microtbx.Base.{
  ℕ, zero, suc, ◌+◌, ◌≡◌, ◌≢◌, refl, arith, Option, none, some, List, ◌∷◌, ◌++◌, ◌==◌, ==_ne,
  Bool-cases, inl, inr, if◌then◌else◌,
}
use microtbx.Target.{Config, Ptr, null, sizeof_ptr}
use microtbx.Heap.Bounds.{Fits}
use microtbx.CritSect.Nested.{Restored_refl}
use microtbx.MemPool.Store.{State, ok, pure}
use microtbx.MemPool.Api.{allocate_auto}
use microtbx.MemPool.View.{View}
use microtbx.MemPool.Grow.{Full, struct_Fits}
use microtbx.MemPool.Ends.{Ends, ends, and_then, Ready}
use microtbx.MemPool.NewPool.{Grown}
use microtbx.MemPool.Exact.{Dry}
use microtbx.MemPool.Refill.{AutoAllocated}
use microtbx.MemPool.Auto.{allocate_auto-AutoAllocated}
use microtbx.MemPool.Allocate.{Kept}
use microtbx.MemPool.Release.{Released, release-Released}
use microtbx.Cplusplus.{
  operator_new, operator_new_array, operator_delete, operator_delete_sized, operator_delete_array,
  operator_delete_array_sized,
}

-- A block, or the end of the program: for want of memory, or for a request of no bytes.
pub data Newed (c : Config) (vs : List View) (size : ℕ) : Option Ptr → State → Type 0 where
  block :
      {p : Ptr} {s' : State} → p ≢ null → AutoAllocated c vs size p s' → Newed c vs size (some p) s'
  aborted : {s' : State} → Full c size s' → Dry size vs → Newed c vs size none s'
  no_bytes : {s' : State} → size ≡ 0 → Newed c vs size none s'

abbrev answer : Ptr → Option Ptr
answer p = if p == null then none else some p

nonnull : (c : Config) (b : Ptr) {p : Ptr} → p ≡ b + sizeof_ptr c.target → p ≢ null
nonnull c b e z = omega (arith, e, z, (struct_Fits c.target).3)

module _ {c : Config} {vs : List View} {size : ℕ} {s' : State} where
  granted : {p : Ptr} → p ≢ null → AutoAllocated c vs size p s' → Newed c vs size (answer p) s'
  granted ne a = rw (==_ne ne) (Newed.block ne a)

  refused : {p : Ptr} → p ≡ null → Full c size s' → Dry size vs → Newed c vs size (answer p) s'
  refused z full dry = rw z (Newed.aborted full dry)

  answered : {p : Ptr} → AutoAllocated c vs size p s' → Newed c vs size (answer p) s'
  answered (AutoAllocated.exhausted home z full dry pools) = refused z full dry
  answered (AutoAllocated.exhausted_new home vs₁ a b f u vs₂ z full dry is pools) =
      refused z full dry
  answered (AutoAllocated.from_pool home vs₁ v a b fs vs₂ e is at pools) =
      granted (nonnull c b e) (AutoAllocated.from_pool home vs₁ v a b fs vs₂ e is at pools)
  answered (AutoAllocated.from_refill home vs₁ v a b vs₂ e is dry at pools) =
      granted (nonnull c b e) (AutoAllocated.from_refill home vs₁ v a b vs₂ e is dry at pools)
  answered (AutoAllocated.from_new home vs₁ n p f u a b vs₂ e dry at pools) =
      granted (nonnull c b e) (AutoAllocated.from_new home vs₁ n p f u a b vs₂ e dry at pools)

decided :
    (p : Ptr) (s : State) → (if p == null then pure none else pure (some p)) s ≡ ok (answer p) s
decided p s = elim (Bool-cases (p == null)) [ inl z ↦ rw z refl | inr nz ↦ rw nz refl ]

module _ {c : Config} {home : Ptr → ℕ} {vs : List View} {s : State} where
  new_lem :
      (size : ℕ)
      → Fits c.target (sizeof_ptr c.target + size)
      → Ready c home vs 2 s
      → Ends (λ r s'. Newed c vs size r s' × Grown s s') (operator_new c size s)
  unfolding operator_new allocate_auto
  new_lem zero fits ready =
      ends
        (Newed.no_bytes refl, record { allocated = omega arith; crit = Restored_refl s.heap.crit })
  new_lem (suc n) fits ready =
      and_then (allocate_auto-AutoAllocated (suc n) (omega arith) fits ready)
        λ p s' (a, grown). rw (decided p s') (ends (answered a, grown))

  -- In a state of well-formed pools with room for two more nested critical sections, and for a size
  -- that fits into `size_t` with its size word, the operators `new` and `new[]` never return NULL and
  -- never fault: they return a block of the pool for exactly the size asked for, or abort, which they
  -- do only for the size 0 or where that pool had no free block and the heap has no room for one and
  -- the structs around it.
  pub operator_new-Newed :
      (size : ℕ)
      → Fits c.target (sizeof_ptr c.target + size)
      → Ready c home vs 2 s
      → Ends (λ r s'. Newed c vs size r s' × Grown s s') (operator_new c size s)
        × Ends (λ r s'. Newed c vs size r s' × Grown s s') (operator_new_array c size s)
  operator_new-Newed size fits ready = (new_lem size fits ready, new_lem size fits ready)

module _ {c : Config} {home : Ptr → ℕ} {s : State} (vs₁ : List View) (v : View) (l₁ : List Ptr)
    (b : Ptr) (l₂ : List Ptr) (vs₂ : List View) (held : v.live ≡ l₁ ++ b ∷ l₂) where
  delete_lem :
      Ready c home (vs₁ ++ v ∷ vs₂) 1 s
      → Ends
          (λ _ s'. Released c home vs₁ v l₁ b l₂ vs₂ s' × Kept s s')
          (operator_delete c (b + sizeof_ptr c.target) s)
  unfolding operator_delete
  delete_lem ready =
      let ne : b + sizeof_ptr c.target ≢ null = λ z. omega (arith, z, (struct_Fits c.target).3) in
      rw (==_ne ne) (release-Released vs₁ v l₁ b l₂ vs₂ held ready)

  -- Every form of `delete` leaves the program as it is for NULL, and gives a block that the program
  -- holds back to its pool, of which it becomes the first free one.
  pub operator_delete-Released :
      (size : ℕ)
      → Ready c home (vs₁ ++ v ∷ vs₂) 1 s
      → (operator_delete c null s ≡ ok tt s)
        × Ends
            (λ _ s'. Released c home vs₁ v l₁ b l₂ vs₂ s' × Kept s s')
            (operator_delete c (b + sizeof_ptr c.target) s)
        × Ends
            (λ _ s'. Released c home vs₁ v l₁ b l₂ vs₂ s' × Kept s s')
            (operator_delete_sized c (b + sizeof_ptr c.target) size s)
        × Ends
            (λ _ s'. Released c home vs₁ v l₁ b l₂ vs₂ s' × Kept s s')
            (operator_delete_array c (b + sizeof_ptr c.target) s)
        × Ends
            (λ _ s'. Released c home vs₁ v l₁ b l₂ vs₂ s' × Kept s s')
            (operator_delete_array_sized c (b + sizeof_ptr c.target) size s)
  unfolding operator_delete
  operator_delete-Released size ready =
      (refl, delete_lem ready, delete_lem ready, delete_lem ready, delete_lem ready)
