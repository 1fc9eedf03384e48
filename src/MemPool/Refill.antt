-- ===== src/MemPool/Refill.antt =====
-- The request that follows the making of a block in `TbxMemPoolAllocateAuto` of
-- source/tbx_mempool.c.
use microtbx.Base.{
  ℕ, suc, ◌+◌, ◌<◌, ◌≡◌, refl, sym, subst, arith, Bool, false, true, List, [], ◌∷◌, ◌++◌,
  if◌then◌else◌, length,
}
use microtbx.Target.{Config, IsConfig, Ptr, null, sizeof_ptr}
use microtbx.CritSect.Nested.{IsPort, IsReady, Restored_trans}
use microtbx.MemPool.Store.{State, pure}
use microtbx.MemPool.Api.{allocate}
use microtbx.MemPool.Grow.{Full}
use microtbx.MemPool.View.{Cells, View, IsPools}
use microtbx.MemPool.Take.{with_free, taken}
use microtbx.MemPool.Ends.{Ends, ends, weaken, Ready}
use microtbx.MemPool.Allocate.{Kept}
use microtbx.MemPool.NewPool.{Grown}
use microtbx.MemPool.AddPool.{empty_view}
use microtbx.MemPool.Create.{Created}
use microtbx.MemPool.Fill.{stocked}
use microtbx.MemPool.Exact.{allocate-exact, Dry}

-- How `TbxMemPoolAllocateAuto` ends: the heap has no room for the block, and at most an
-- empty pool was made; or
-- `p` is a block for exactly this size, the first free one of its pool, one added to that pool
-- when it had none left, or the only one of a new pool.
pub data AutoAllocated (c : Config) (vs : List View) (size : ℕ) (p : Ptr) (s' : State)
    : Type 0 where
  exhausted :
      (home : Ptr → ℕ)
      → p ≡ null
      → Full c size s'
      → Dry size vs
      → IsPools c home vs s'
      → AutoAllocated c vs size p s'
  exhausted_new :
      (home : Ptr → ℕ) (vs₁ : List View) (node pool free_list used_list : Ptr) (vs₂ : List View)
      → p ≡ null
      → Full c size s'
      → Dry size vs
      → vs ≡ vs₁ ++ vs₂
      → IsPools c home (vs₁ ++ empty_view node pool size free_list used_list ∷ vs₂) s'
      → AutoAllocated c vs size p s'
  from_pool :
      (home : Ptr → ℕ) (vs₁ : List View) (v : View) (a b : Ptr) (fs : Cells) (vs₂ : List View)
      → p ≡ b + sizeof_ptr c.target
      → v.size ≡ size
      → vs ≡ vs₁ ++ with_free v a b fs ∷ vs₂
      → IsPools c home (vs₁ ++ taken v a b fs ∷ vs₂) s'
      → AutoAllocated c vs size p s'
  from_refill :
      (home : Ptr → ℕ) (vs₁ : List View) (v : View) (a b : Ptr) (vs₂ : List View)
      → p ≡ b + sizeof_ptr c.target
      → v.size ≡ size
      → Dry size vs
      → vs ≡ vs₁ ++ v ∷ vs₂
      → IsPools c home (vs₁ ++ taken v a b v.free ∷ vs₂) s'
      → AutoAllocated c vs size p s'
  from_new :
      (home : Ptr → ℕ) (vs₁ : List View) (node pool free_list used_list a b : Ptr) (vs₂ : List View)
      → p ≡ b + sizeof_ptr c.target
      → Dry size vs
      → vs ≡ vs₁ ++ vs₂
      → IsPools c home
          (vs₁ ++ taken (empty_view node pool size free_list used_list) a b [] ∷ vs₂)
          s'
      → AutoAllocated c vs size p s'

-- One block was made.
pub data One : Cells → Type 0 where
  one : (a b : Ptr) → One ((a, b) ∷ [])

pub single : (xs : Cells) → length xs ≡ 1 → One xs
single [] e = absurd (omega (arith, e))
single ((a, b) ∷ []) e = One.one a b
single (x ∷ y ∷ xs) e = absurd (omega (arith, e))

is_none : (xs : Cells) → length xs < 1 → xs ≡ []
is_none [] h = refl
is_none (x ∷ xs) h = absurd (omega (arith, h))

pub Grown-Kept : {s t u : State} → Grown s t → Kept t u → Grown s u
Grown-Kept g k = record {
  allocated = omega (arith, g.allocated, k.allocated);
  crit = Restored_trans g.crit k.crit;
}

pub Kept-Grown : {s t u : State} → Kept s t → Grown t u → Grown s u
Kept-Grown k g = record {
  allocated = omega (arith, g.allocated, k.allocated);
  crit = Restored_trans k.crit g.crit;
}

abbrev pub Post : Config → List View → ℕ → State → Ptr → State → Type 0
Post c vs size s p s' = AutoAllocated c vs size p s' × Grown s s'

pub assemble :
    {c : Config} {home : Ptr → ℕ} {vs : List View} {k : ℕ} {s : State}
    → IsConfig c
    → IsPort c.port
    → IsReady c.port k s.heap.crit
    → IsPools c home vs s
    → Ready c home vs k s
assemble config port sections pools = record {
  config = config;
  port = port;
  sections = sections;
  pools = pools;
}

pub IsReady-fewer : {p : _} {k : ℕ} {s : _} → IsReady p (suc k) s → IsReady p k s
IsReady-fewer h = record { room = omega (arith, h.room); masked = h.masked }

-- The request after one block was made, or not.
module _ {c : Config} {vs : List View} {s : State} (size : ℕ) (pos : 0 < size) (dry : Dry size vs)
    (config : IsConfig c) (port : IsPort c.port) {t : State} (grown : Grown s t)
    (sections : IsReady c.port 1 t.heap.crit) where
  old_granted :
      {home : Ptr → ℕ} (vs₁ : List View) (v : View) (more : Cells) (vs₂ : List View)
      → v.size ≡ size
      → vs ≡ vs₁ ++ v ∷ vs₂
      → One more
      → IsPools c home (vs₁ ++ stocked v more ∷ vs₂) t
      → Ends (Post c vs size s) (allocate c size t)
  old_granted {home} vs₁ v more vs₂ e is (One.one a b) pools =
      weaken (allocate-exact size pos vs₁ v vs₂ e a b v.free (assemble config port sections pools))
        λ p u (at, now, kept).
          (AutoAllocated.from_refill home vs₁ v a b vs₂ at e dry is now, Grown-Kept grown kept)

  new_granted :
      {home : Ptr → ℕ} (vs₁ : List View) (node pool free_list used_list : Ptr) (more : Cells)
      (vs₂ : List View)
      → vs ≡ vs₁ ++ vs₂
      → One more
      → IsPools c home (vs₁ ++ stocked (empty_view node pool size free_list used_list) more ∷ vs₂) t
      → Ends (Post c vs size s) (allocate c size t)
  new_granted {home} vs₁ node pool free_list used_list more vs₂ is (One.one a b) pools =
      weaken
        (allocate-exact size pos vs₁ (empty_view node pool size free_list used_list) vs₂ refl a b []
          (assemble config port sections pools))
        λ p u (at, now, kept). (
          AutoAllocated.from_new home vs₁ node pool free_list used_list a b vs₂ at dry is now,
          Grown-Kept grown kept,
        )

  pub after_create :
      (made : Bool)
      → Created c vs 1 size made t
      → Ends (Post c vs size s) ((if made then allocate c size else pure null) t)
  after_create made (Created.no_memory home e full out pools) =
      rw e (ends (AutoAllocated.exhausted home refl full dry pools, grown))
  after_create true (Created.extended home vs₁ v more vs₂ e is all few pools) =
      old_granted vs₁ v more vs₂ e is (single more (all refl)) pools
  after_create false (Created.extended home vs₁ v more vs₂ e is all few pools) =
      let now =
        subst (λ xs. IsPools c home (vs₁ ++ stocked v xs ∷ vs₂) t) (is_none more ((few refl).0))
          pools in
      ends (
        AutoAllocated.exhausted home refl (few refl).1 dry
            (subst (λ us. IsPools c home us t) (sym is) now),
        grown,
      )
  after_create true (Created.set_up home vs₁ a b f u more vs₂ is all few pools) =
      new_granted vs₁ a b f u more vs₂ is (single more (all refl)) pools
  after_create false (Created.set_up home vs₁ a b f u more vs₂ is all few pools) =
      let now =
        subst (λ xs. IsPools c home (vs₁ ++ stocked (empty_view a b size f u) xs ∷ vs₂) t)
          (is_none more ((few refl).0)) pools in
      ends (AutoAllocated.exhausted_new home vs₁ a b f u vs₂ refl (few refl).1 dry is now, grown)
