-- ===== src/LinkedList/OnMemPool/Extended.antt =====
-- `TbxMemPoolCreate` of source/tbx_mempool.c for one block, while clients hold blocks.
use microtbx.Base.{
  ℕ, suc, ◌+◌, ◌<◌, ◌≡◌, refl, ap, subst, arith, Bool, true, false, some, List, [], ◌∷◌, ◌++◌,
  length, length-append, ◌⊎◌, inl, inr, Bool-cases,
}
use microtbx.Target.{Config, Ptr, sizeof_ptr}
use microtbx.CritSect.Nested.{Restored-IsReady}
use microtbx.Heap.Bounds.{Fits}
use microtbx.MemPool.Store.{State}
use microtbx.MemPool.View.{Cells, View, IsPools}
use microtbx.MemPool.Take.{with_free}
use microtbx.MemPool.Ends.{Ready}
use microtbx.MemPool.Grow.{Full, struct_Fits}
use microtbx.MemPool.Exact.{allocate-exact}
use microtbx.MemPool.Refill.{assemble}
use microtbx.MemPool.Fresh.{Held}
use microtbx.MemPool.Holds.{Held-change, Held-more}
use microtbx.MemPool.Given.{given}
use microtbx.MemPool.Create.{Created, create-Created}
use microtbx.MemPool.Fill.{stocked}
use microtbx.MemPool.AddPool.{empty_view}
use microtbx.LinkedList.Laws.{Blocks, Stocked}
use microtbx.LinkedList.OnMemPool.{mem_pools, Holds, Settled, ran, rebuild, once, twice}

-- A pool for this size with a free block has one to give.
stocked-Stocked :
    (c : Config) (size : ℕ) (pos : 0 < size) {home : Ptr → ℕ} {s : State} (vs₁ : List View)
    (v : View) (vs₂ : List View)
    → v.size ≡ size
    → (free : Cells) → v.free ≡ free
    → 0 < length free
    → Ready c home (vs₁ ++ v ∷ vs₂) 1 s
    → Stocked (mem_pools c) size s
stocked-Stocked c size pos vs₁ v vs₂ e [] is few ready = absurd (omega (arith, few))
stocked-Stocked c size pos {home} {s} vs₁ v vs₂ e ((a, b) ∷ fs) is some_free ready =
    let at : v ≡ with_free v a b fs = ap (λ t. record v { free = t }) is in
    let (q, s', run, (given, _, _)) = ran (
      allocate-exact size pos vs₁ v vs₂ e a b fs
        (subst (λ u. Ready c home (vs₁ ++ u ∷ vs₂) 1 s) at ready)) in
    (q, s', run, omega (arith, given, (struct_Fits c.target).3))

module _ (c : Config) (size : ℕ) (pos : 0 < size)
    (fits : Fits c.target (sizeof_ptr c.target + size)) (k : ℕ) (live : Blocks) (s : State)
    (h : Holds c (suc (suc k)) live s) where
  abbrev Outcome : Bool → State → Type 0
  Outcome made s' =
      Holds c (suc (suc k)) live s'
      × (((made ≡ true) × Stocked (mem_pools c) size s') ⊎ ((made ≡ false) × Full c size s'))

  -- A pool that was there, or a new one, was to get one block more.
  filled :
      {home : Ptr → ℕ} (made : Bool) (s' : State) (vs₁ : List View) (v : View) (more : Cells)
      (vs₂ : List View)
      → v.size ≡ size
      → Settled s s'
      → (made ≡ true → length more ≡ 1)
      → (made ≡ false → (length more < 1) × Full c size s')
      → IsPools c home (vs₁ ++ stocked v more ∷ vs₂) s'
      → ((b n : ℕ) → Held b n h.views → Held b n (vs₁ ++ stocked v more ∷ vs₂))
      → Outcome made s'
  filled {home} made s' vs₁ v more vs₂ e same all few pools keep =
      let h' = rebuild c size (suc (suc k)) live s h same pools keep in
      (
        h',
        elim (Bool-cases made) [
          | inl yes' ↦ inl (
            yes',
            stocked-Stocked c size pos vs₁ (stocked v more) vs₂ e (more ++ v.free) refl
                (omega (arith, all yes', length-append more v.free))
                (once (
                  assemble h.ready.config h.ready.port (Restored-IsReady same h.ready.sections)
                    pools)),
          )
          | inr no' ↦ inr (no', (few no').1)
        ],
      )

  pub create_law :
      (made : Bool) × (s' : State) × ((mem_pools c).create 1 size s ≡ some (made, s'))
      × Settled s s'
      × Outcome made s'
  create_law =
      let (made, s', run, (is, grown)) =
        ran (create-Created 1 size (omega arith) pos fits (twice h.ready)) in
      (
        made,
        s',
        run,
        grown.crit,
        elim is [
          | Created.no_memory home no' full _ pools ↦ (
            rebuild c size (suc (suc k)) live s h grown.crit pools (λ _ _ held. held),
            inr (no', full),
          )
          | Created.extended home vs₁ v more vs₂ e at all few pools ↦
              filled made s' vs₁ v more vs₂ e grown.crit all few pools (λ b n held.
                Held-change b n vs₁ v (stocked v more) vs₂ refl (λ m. m)
                  (subst (λ us. Held b n us) at held))
          | Created.set_up home vs₁ node pool free used more vs₂ at all few pools ↦
              filled made s' vs₁ (empty_view node pool size free used) more vs₂ refl grown.crit all
                few pools
                (λ b n held.
                  Held-more b n vs₁ (stocked (empty_view node pool size free used) more) vs₂
                    (subst (λ us. Held b n us) at held))
        ],
      )
