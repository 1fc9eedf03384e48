-- ===== src/MemPool/Grow.antt =====
-- Memory that source/tbx_mempool.c takes from the heap, and what it leaves of the pools there are.
use microtbx.Base.{
  ℕ, suc, ◌+◌, ◌*◌, ◌≤◌, ◌<◌, ◌≡◌, ◌≢◌, refl, ap, ◌∙◌, arith, false, Option, List, [], ◌∷◌, All,
  Bool-cases, inl, inr, length, if◌then◌else◌, ltb, lt→ltb,
}
use native.Mathlib.Decide.{dec_lt}
use microtbx.Target.{Target, Config, IsConfig, Ptr, null, sizeof_ptr}
use microtbx.CritSect.Nested.{IsPort, IsReady, Restored}
use microtbx.Heap
use microtbx.Heap.{Heap}
use microtbx.Heap.Bounds.{IsHeap, Fits, Outcome, allocate_lem, allocate-Restored, round_up_bounds}
use microtbx.MemPool.Store.{State, PoolNode}
use microtbx.MemPool.View.{View, Chain, Ascending, IsView, IsPools}
use microtbx.MemPool.Frame.{Frame, IsView-frame, All-map}
use microtbx.MemPool.InsertStep.{insert_view}

-- The structs are small enough on every target.
pub struct_Fits :
    (t : Target)
    → Fits t (sizeof_ptr t)
      × Fits t (2 * sizeof_ptr t)
      × Fits t (3 * sizeof_ptr t)
      × (0 < sizeof_ptr t)
struct_Fits Target.avr = omega arith
struct_Fits Target.cortexm = omega arith
struct_Fits Target.linux = omega arith

-- The heap has no room for `size` bytes and the structs around them.
abbrev pub Full : Config → ℕ → State → Type 0
Full c size s = c.heap_size < s.heap.allocated + 4 * sizeof_ptr c.target + size

-- One call of `TbxHeapAllocate` that returned `p`: if that is not NULL, it has `size` bytes of its
-- own, and if it is, there was no room for them.
pub record Reserved (c : Config) (size : ℕ) (h : Heap) (p : Ptr) (h' : Heap) : Type 0 where
  pub grow : h.allocated ≤ h'.allocated
  pub within : h'.allocated ≤ c.heap_size
  pub crit : Restored h.crit h'.crit
  pub full : p ≡ null → 0 < size → c.heap_size < h.allocated + size + sizeof_ptr c.target
  pub fresh : p ≢ null → (c.base + h.allocated ≤ p) × (p + size ≤ c.base + h'.allocated)

reserved :
    {c : Config} {size : ℕ} {h : Heap} {r : Ptr × Heap}
    → IsConfig c
    → IsHeap c h
    → Restored h.crit r.1.crit
    → Outcome c size h r
    → Reserved c size h r.0 r.1
reserved {c} {size} config valid crit (Outcome.refused z same why) = record {
  grow = omega (arith, same);
  within = omega (arith, same, valid.within);
  crit = crit;
  full = λ _ pos. elim why [
    | inl none ↦ omega (arith, none, pos)
    | inr full ↦ omega (arith, full, round_up_bounds c.target size, (struct_Fits c.target).3)
  ];
  fresh = λ ne. absurd (ne z);
}
reserved {c} {size} config valid crit (Outcome.reserved pos e more within) = record {
  grow = omega (arith, more);
  within = within;
  crit = crit;
  full = λ z _. absurd (omega (arith, z, e, config.base_pos));
  fresh = λ ne. (omega (arith, e), omega (arith, e, more, round_up_bounds c.target size));
}

pub reserve :
    {c : Config} {h : Heap} (size : ℕ)
    → IsConfig c
    → IsPort c.port
    → IsReady c.port 1 h.crit
    → IsHeap c h
    → Fits c.target size
    → Reserved c size h (Heap.allocate c size h).0 (Heap.allocate c size h).1
reserve {c} {h} size config port ready valid fits =
    reserved config valid (allocate-Restored c h size port ready)
      (allocate_lem size config valid fits)

-- What lies from `e` to `last` belongs to the pool for `size`; nothing begins behind `last`.
abbrev pub extend : (Ptr → ℕ) → (e size : ℕ) → (last a : Ptr) → ℕ
extend home e size last a = if ltb a e then home a else if ltb last a then 0 else size

module _ (home : Ptr → ℕ) (e size : ℕ) (last a : Ptr) where
  pub extend_old : a < e → extend home e size last a ≡ home a
  extend_old h = rw (lt→ltb a e h)

  pub extend_new : e ≤ a → a ≤ last → extend home e size last a ≡ size
  extend_new h le =
      let test : ltb a e ≡ false = ground arith in
      let test' : ltb last a ≡ false = ground arith in rw (test, test')

  pub extend_inside : e ≤ a → last < a → extend home e size last a ≡ 0
  extend_inside h lt = let test : ltb a e ≡ false = ground arith in rw (test, lt→ltb last a lt)

Chain-frame :
    (m m' : Ptr → Option PoolNode) (e : ℕ) (vs : List View)
    → ((a : Ptr) → a < e → m' a ≡ m a)
    → All (λ (v : View). v.node < e) vs
    → Chain m vs
    → Chain m' vs
Chain-frame m m' e [] same below h = tt
Chain-frame m m' e (v ∷ vs) same below h =
    (h.0, same v.node below.0 ∙ h.1, Chain-frame m m' e vs same below.1 h.2)

-- From `s` to `s'` only fresh memory was written.
pub record Growth (c : Config) (home home' : Ptr → ℕ) (s s' : State) : Type 0 where
  pub frame :
      Frame 0 s.memory s'.memory home home' (c.base + s.heap.allocated) (c.base + s'.heap.allocated)
  pub chain :
      (a : Ptr) → a < c.base + s.heap.allocated → s'.memory.pool_node a ≡ s.memory.pool_node a
  pub list : s'.pool_list ≡ s.pool_list
  pub within : s'.heap.allocated ≤ c.heap_size

pub IsPools-grow :
    {c : Config} {home home' : Ptr → ℕ} {vs : List View} {s s' : State}
    → Growth c home home' s s'
    → IsPools c home vs s
    → IsPools c home' vs s'
IsPools-grow {c} {home} {vs} {s} {s'} g p = record {
  heap = record { within = g.within };
  low = λ a h. g.frame.homes a (omega (arith, h)) ∙ p.low a h;
  entry = g.list ∙ p.entry;
  chain =
      Chain-frame s.memory.pool_node s'.memory.pool_node (c.base + s.heap.allocated) vs g.chain
        (All-map vs
          (λ (v : View)
              (h : IsView (sizeof_ptr c.target) s.memory home (c.base + s.heap.allocated) v).
            h.node_at.1)
          p.views)
        p.chain;
  ascending = p.ascending;
  views =
      All-map vs
        (λ (v : View)
            (h : IsView (sizeof_ptr c.target) s.memory home (c.base + s.heap.allocated) v).
          IsView-frame g.frame (λ z. absurd (omega (arith, z, h.size_pos))) h)
        p.views;
  count = omega (arith, p.count, g.frame.grow);
}

module _ (n : View) where
  pub All-insert_view :
      (P : View → Type 0) (vs : List View) → P n → All P vs → All P (insert_view n vs)
  All-insert_view P [] p h = (p, tt)
  All-insert_view P (v ∷ vs) p h = elim (Bool-cases (ltb n.size v.size)) [
    | inl lt ↦ rw lt (p, h)
    | inr ge ↦ rw ge (h.0, All-insert_view P vs p h.1)
  ]

  pub length-insert_view : (vs : List View) → length (insert_view n vs) ≡ suc (length vs)
  length-insert_view [] = refl
  length-insert_view (v ∷ vs) = elim (Bool-cases (ltb n.size v.size)) [
    | inl lt ↦ rw lt refl
    | inr ge ↦ rw ge (ap suc (length-insert_view vs))
  ]

  -- A new size goes into an ascending list without breaking the order.
  pub Ascending-insert_view :
      (vs : List View)
      → Ascending vs
      → All (λ (v : View). v.size ≢ n.size) vs
      → Ascending (insert_view n vs)
  Ascending-insert_view [] asc ne = (tt, tt)
  Ascending-insert_view (v ∷ vs) asc ne = elim (dec_lt n.size v.size) [
    | yes lt ↦
        rw (lt→ltb n.size v.size lt)
          ((lt, All-map vs (λ (u : View) (h : v.size < u.size). omega arith) asc.0), asc)
    | no ge ↦
        let test : ltb n.size v.size ≡ false = ground arith in
        rw test (
          All-insert_view (λ (u : View). v.size < u.size) vs (omega (arith, ne.0)) asc.0,
          Ascending-insert_view vs asc.1 ne.1,
        )
  ]
