-- ===== src/MemPool/Create.antt =====
-- `TbxMemPoolCreate` of source/tbx_mempool.c: the pool it finds or makes, and the blocks it adds.
use microtbx.Base.{
  ℕ, ◌+◌, ◌<◌, ◌≡◌, ◌≢◌, refl, sym, ap, subst, arith, Bool, false, true, List, [], ◌∷◌, ◌++◌, All,
  ◌==◌, ==_ne, ==_iff, Bool-cases, inl, inr, lt→ltb, if◌then◌else◌, ltb, length,
}
use microtbx.Target.{Config, IsConfig, Ptr, null, sizeof_ptr}
use microtbx.CritSect.{enter}
use microtbx.CritSect.Nested.{IsPort, IsReady, Restored-IsReady, enter-IsReady, section-Restored}
use microtbx.Heap.Bounds.{Fits}
use microtbx.MemPool.Store.{State, continue, pure, leave_section, ◌>>◌}
use microtbx.MemPool.Api.{create, create_blocks}
use microtbx.MemPool.Grow.{Full}
use microtbx.MemPool.View.{Cells, View, IsPools, IsView, find_view}
use microtbx.MemPool.Search.{find_lem}
use microtbx.MemPool.Replace.{All-middle}
use microtbx.MemPool.InsertStep.{insert_view}
use microtbx.MemPool.Ends.{Ends, ends, weaken, and_then, with_crit, IsPools-crit, Ready}
use microtbx.MemPool.NewPool.{Grown, PoolMade, create_pool-PoolMade}
use microtbx.MemPool.AddPool.{empty_view, false→ne}
use microtbx.MemPool.Fill.{stocked, Grown-trans, create_blocks-Filled}

-- What the search for a pool of exactly this size comes to.
pub data Found (size : ℕ) (vs : List View) : Type 0 where
  absent : find_view size vs ≡ null → All (λ (v : View). v.size ≢ size) vs → Found size vs
  present :
      (vs₁ : List View) (v : View) (vs₂ : List View)
      → vs ≡ vs₁ ++ v ∷ vs₂
      → v.size ≡ size
      → find_view size vs ≡ v.node
      → Found size vs

pub found : (size : ℕ) (vs : List View) → Found size vs
found size [] = Found.absent refl tt
found size (v ∷ vs) = elim (Bool-cases (v.size == size)) [
  | inl hit ↦ Found.present [] v vs refl ((==_iff v.size size).0 hit) (rw hit refl)
  | inr miss ↦ elim (found size vs) [
    | Found.absent e out ↦ Found.absent (rw miss e) (false→ne miss, out)
    | Found.present vs₁ u vs₂ e is at ↦ Found.present (v ∷ vs₁) u vs₂ (ap (◌∷◌ v) e) is (rw miss at)
  ]
]

split_insert :
    (n : View) (vs : List View)
    → (vs₁ : List View) × (vs₂ : List View) × (vs ≡ vs₁ ++ vs₂)
      × (insert_view n vs ≡ vs₁ ++ n ∷ vs₂)
split_insert n [] = ([], [], refl, refl)
split_insert n (v ∷ vs) = elim (Bool-cases (ltb n.size v.size)) [
  | inl lt ↦ ([], v ∷ vs, refl, rw lt refl)
  | inr ge ↦
      let (vs₁, vs₂, e, i) = split_insert n vs in (v ∷ vs₁, vs₂, ap (◌∷◌ v) e, rw ge (ap (◌∷◌ v) i))
]

-- How `TbxMemPoolCreate` ends. There was no pool for this size and no memory to make one; or the
-- pool that there was has more free blocks, `n` if the result is TBX_OK and fewer otherwise; or
-- there is a new pool at its place in the list, of which the same holds. Whatever is missing, the
-- heap has no room for it.
pub data Created (c : Config) (vs : List View) (n size : ℕ) (made : Bool) (s' : State)
    : Type 0 where
  no_memory :
      (home : Ptr → ℕ)
      → made ≡ false
      → Full c size s'
      → All (λ (v : View). v.size ≢ size) vs
      → IsPools c home vs s'
      → Created c vs n size made s'
  extended :
      (home : Ptr → ℕ) (vs₁ : List View) (v : View) (more : Cells) (vs₂ : List View)
      → v.size ≡ size
      → vs ≡ vs₁ ++ v ∷ vs₂
      → (made ≡ true → length more ≡ n)
      → (made ≡ false → (length more < n) × Full c size s')
      → IsPools c home (vs₁ ++ stocked v more ∷ vs₂) s'
      → Created c vs n size made s'
  set_up :
      (home : Ptr → ℕ) (vs₁ : List View) (node pool free_list used_list : Ptr) (more : Cells)
      (vs₂ : List View)
      → vs ≡ vs₁ ++ vs₂
      → (made ≡ true → length more ≡ n)
      → (made ≡ false → (length more < n) × Full c size s')
      → IsPools c home
          (vs₁ ++ stocked (empty_view node pool size free_list used_list) more ∷ vs₂)
          s'
      → Created c vs n size made s'

Created-crit :
    {c : Config} {vs : List View} {n size : ℕ} {made : Bool} {s' : State} (k : _)
    → Created c vs n size made s'
    → Created c vs n size made (with_crit s' k)
Created-crit k (Created.no_memory home e full out p) =
    Created.no_memory home e full out (IsPools-crit k p)
Created-crit k (Created.extended home vs₁ v more vs₂ e is all few p) =
    Created.extended home vs₁ v more vs₂ e is all few (IsPools-crit k p)
Created-crit k (Created.set_up home vs₁ a b f u more vs₂ is all few p) =
    Created.set_up home vs₁ a b f u more vs₂ is all few (IsPools-crit k p)

module _ {c : Config} (n size : ℕ) (fits : Fits c.target (sizeof_ptr c.target + size))
    (config : IsConfig c) (port : IsPort c.port) (vs : List View) where
  abbrev Post : State → Bool → State → Type 0
  Post t made s' = Created c vs n size made s' × Grown t s'

  fill_old :
      {home : Ptr → ℕ} {s : State} (vs₁ : List View) (v : View) (vs₂ : List View)
      → vs ≡ vs₁ ++ v ∷ vs₂
      → v.size ≡ size
      → IsReady c.port 1 s.heap.crit
      → IsPools c home vs s
      → Ends (Post s) (create_blocks n c size v.node true s)
  fill_old {home} {s} vs₁ v vs₂ is e ready pools =
      let now = subst (λ us. IsPools c home us s) is pools in
      let run =
        create_blocks-Filled config port vs₁ vs₂ n v true ready now
          (subst (λ k. Fits c.target (sizeof_ptr c.target + k)) (sym e) fits) in
      subst (λ k. Ends (Post s) (create_blocks n c k v.node true s)) e
        (weaken run λ made s' (f, g). (
          Created.extended f.home vs₁ v f.more vs₂ e is (λ z. (f.all z).1)
              (λ z. let (less, full) = f.few z refl in (less, omega (arith, full, e))) f.pools,
          g,
        ))

  fill_new :
      {home : Ptr → ℕ} {s : State} (node pool free_list used_list : Ptr)
      → IsReady c.port 1 s.heap.crit
      → IsPools c home (insert_view (empty_view node pool size free_list used_list) vs) s
      → Ends (Post s) (create_blocks n c size node true s)
  fill_new {home} {s} node pool free_list used_list ready pools =
      let new = empty_view node pool size free_list used_list in
      let (vs₁, vs₂, is, i) = split_insert new vs in
      let now = subst (λ us. IsPools c home us s) i pools in
      weaken (create_blocks-Filled config port vs₁ vs₂ n new true ready now fits) λ made s' (f, g).
        (
          Created.set_up f.home vs₁ node pool free_list used_list f.more vs₂ is (λ z. (f.all z).1)
              (λ z. f.few z refl) f.pools,
          g,
        )

-- The body of `TbxMemPoolCreate` between the two calls for the critical section.
module _ {c : Config} {home : Ptr → ℕ} {vs : List View} {s : State} (n size : ℕ)
    (some_blocks : 0 < n) (pos : 0 < size) (fits : Fits c.target (sizeof_ptr c.target + size))
    (ready : Ready c home vs 2 s) where
  abbrev entered : State
  entered = with_crit s (enter c.port s.heap.crit)

  inside : IsPools c home vs entered
  inside = IsPools-crit (enter c.port s.heap.crit) ready.pools

  room : IsReady c.port 1 entered.heap.crit
  room = enter-IsReady ready.port ready.sections

  abbrev Final : Bool → State → Type 0
  Final made s' = Created c vs n size made s' × Grown s s'

  closing :
      (made : Bool) (t : State)
      → Created c vs n size made t × Grown entered t
      → Ends Final (continue (leave_section c t) λ _. pure made)
  closing made t (is, g) = ends (
    Created-crit _ is,
    record { allocated = g.allocated; crit = section-Restored ready.port ready.sections g.crit },
  )

  absent_next :
      (out : All (λ (v : View). v.size ≢ size) vs) (result : Bool) (node : Ptr) (t : State)
      → PoolMade c home vs size entered result node t
      → Grown entered t
      → Ends Final (
          continue
            ((if result then create_blocks n c size node true else pure false) t)
            λ made. leave_section c >> pure made)
  absent_next out result node t (PoolMade.failed e full p) grown =
      rw e (closing false t (Created.no_memory home refl full out p, grown))
  absent_next out result node t (PoolMade.made pool free_list used_list e p) grown = rw e (
      and_then
        (fill_new n size fits ready.config ready.port vs node pool free_list used_list
          (Restored-IsReady grown.crit room) p)
        λ made u (is, g). closing made u (is, Grown-trans grown g))

  create_absent :
      find_view size vs ≡ null
      → All (λ (v : View). v.size ≢ size) vs
      → Ends Final (create c n size s)
  unfolding create
  create_absent e out =
      rw (lt→ltb 0 n some_blocks, lt→ltb 0 size pos, find_lem inside size pos, e)
        (and_then (create_pool-PoolMade size pos ready.config ready.port room inside out)
          λ (result, node) t (was, grown). absent_next out result node t was grown)

  create_present :
      (vs₁ : List View) (v : View) (vs₂ : List View)
      → vs ≡ vs₁ ++ v ∷ vs₂
      → v.size ≡ size
      → find_view size vs ≡ v.node
      → Ends Final (create c n size s)
  unfolding create
  create_present vs₁ v vs₂ is e at =
      let now = subst (λ us. IsPools c home us entered) is inside in
      let view =
        All-middle (IsView (sizeof_ptr c.target) entered.memory home (c.base + s.heap.allocated))
          vs₁ v vs₂ now.views in
      rw
        (
          lt→ltb 0 n some_blocks,
          lt→ltb 0 size pos,
          find_lem inside size pos,
          at,
          ==_ne view.0.node_at.0,
        )
        (and_then (fill_old n size fits ready.config ready.port vs vs₁ v vs₂ is e room inside)
          closing)

  -- In a state of well-formed pools, with a sound configuration and port and room for two more nested
  -- critical sections, and for a positive number of blocks of a positive size that, with its size word,
  -- does not wrap in the alignment: `TbxMemPoolCreate` never faults and always ends, with `true` only
  -- if all the blocks asked for were added to the pool for this size, and `false` only if the heap has
  -- no room for one more and the structs around it; it keeps every other pool and the invariant.
  pub create-Created : Ends Final (create c n size s)
  create-Created = elim (found size vs) [
    | Found.absent e out ↦ create_absent e out
    | Found.present vs₁ v vs₂ is e at ↦ create_present vs₁ v vs₂ is e at
  ]
