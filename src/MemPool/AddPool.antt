-- ===== src/MemPool/AddPool.antt =====
-- The objects of an empty pool fresh from the heap, as `TbxMemPoolCreate` of source/tbx_mempool.c
-- makes them.
use microtbx.Base.{
  ℕ, ◌+◌, ◌*◌, ◌≤◌, ◌<◌, ◌≡◌, ◌≢◌, ◌⊎◌, inl, inr, refl, sym, ap, ◌∙◌, arith, Bool, false, true,
  List, [], All, ◌==◌, ==_ne, ==_refl, ==_iff, Bool-cases, inl, inr, if◌then◌else◌, ◌||◌,
}
use microtbx.Target.{Config, IsConfig, Ptr, null, sizeof_ptr}
use microtbx.CritSect.Nested.{Restored, Restored_trans}
use microtbx.Heap
use microtbx.Heap.{Heap}
use microtbx.MemPool.Store.{State, Memory, ok, store_lem, put, Cmd}
use microtbx.MemPool.Block.{block_list_create}
use microtbx.MemPool.PoolList.{insert}
use microtbx.MemPool.View.{View, At, IsView, IsPools}
use microtbx.MemPool.Frame.{All-map, IsView-nodes}
use microtbx.MemPool.Lists.{put_ne}
use microtbx.MemPool.InsertStep.{insert_view, IsNew}
use microtbx.MemPool.Insert.{Entered, insert-Entered}
use microtbx.MemPool.Ends.{Ends, weaken}
use microtbx.MemPool.Grow.{
  Reserved, struct_Fits, extend, extend_old, extend_new, Growth, IsPools-grow, All-insert_view,
  length-insert_view, Ascending-insert_view,
}

pub false→ne : {a b : ℕ} → (a == b) ≡ false → a ≢ b
false→ne h = ground arith

-- An empty list at `p`, unless that is NULL.
abbrev listed : Memory → Ptr → Memory
listed m p = record m { block_list = if p == null then m.block_list else put m.block_list p null }

pub block_list_create_lem :
    (c : Config) (s : State)
    → let r = Heap.allocate c (sizeof_ptr c.target) s.heap in
      block_list_create c s ≡ ok r.0 (record s { heap = r.1; memory = listed s.memory r.0 })
unfolding block_list_create
block_list_create_lem c s =
    let r = Heap.allocate c (sizeof_ptr c.target) s.heap in
    elim (Bool-cases (r.0 == null)) [
      | inl z ↦ rw z (ap (λ p. ok p (record s { heap = r.1 })) (sym ((==_iff r.0 null).0 z)))
      | inr nz ↦
          rw
            (
              nz,
              store_lem _ r.0 (record s { heap = r.1 }) (λ z. cc (sym nz ∙ (==_iff r.0 null).1 z)),
            )
            refl
    ]

pub or_else :
    {A : Type 0} {P : A → State → Type 0} (x y : Bool) (m n : Cmd A) (s : State)
    → ((x ≡ true) ⊎ (y ≡ true) → Ends P (m s))
    → (x ≡ false → y ≡ false → Ends P (n s))
    → Ends P ((if x || y then m else n) s)
or_else true y m n s h k = h (inl refl)
or_else false true m n s h k = h (inr refl)
or_else false false m n s h k = k refl refl

-- A new pool, with nothing in its lists.
abbrev pub empty_view : (node pool size free_list used_list : Ptr) → View
empty_view node pool size free_list used_list = record {
  node = node;
  pool = pool;
  size = size;
  free_list = free_list;
  used_list = used_list;
  free = [];
  used = [];
  live = [];
}

module _ {c : Config} {home : Ptr → ℕ} {vs : List View} {s : State} (size : ℕ) (pos : 0 < size)
    (config : IsConfig c) (pools : IsPools c home vs s)
    (absent : All (λ (v : View). v.size ≢ size) vs) (node pool free used : Ptr) (h₁ h₂ h₃ h₄ : Heap)
    (r₁ : Reserved c (2 * sizeof_ptr c.target) s.heap node h₁)
    (r₂ : Reserved c (3 * sizeof_ptr c.target) h₁ pool h₂)
    (r₃ : Reserved c (sizeof_ptr c.target) h₂ free h₃)
    (r₄ : Reserved c (sizeof_ptr c.target) h₃ used h₄) (node_ne : node ≢ null)
    (pool_ne : pool ≢ null) where
  abbrev new : View
  new = empty_view node pool size free used

  abbrev end : ℕ
  end = c.base + s.heap.allocated

  abbrev pub filled : State
  filled = record s {
    heap = h₄;
    memory = record (s.memory) {
      pool_node = put s.memory.pool_node node (record { pool_ptr = pool; next_node_ptr = null });
      block_list = (listed (listed s.memory free) used).block_list;
      pool =
          put s.memory.pool pool
            (record { block_size = size; free_block_list_ptr = free; used_block_list_ptr = used });
    };
  }

  node_old : (a : Ptr) → a < end → a ≢ node
  node_old a h z = absurd (omega (arith, r₁.fresh node_ne, z))

  pool_old : (a : Ptr) → a < end → a ≢ pool
  pool_old a h z = absurd (omega (arith, r₂.fresh pool_ne, r₁.grow, z))

  lists_old :
      (a : Ptr)
      → a < end
      → (listed (listed s.memory free) used).block_list a ≡ s.memory.block_list a
  lists_old a h = ground (arith, r₃.fresh, r₄.fresh, r₁.grow, r₂.grow, r₃.grow)

  pub Growth-made :
      (home' : Ptr → ℕ) → ((a : Ptr) → a < end → home' a ≡ home a) → Growth c home home' s filled
  Growth-made home' homes = record {
    frame = record {
      grow = omega (arith, r₁.grow, r₂.grow, r₃.grow, r₄.grow);
      homes = homes;
      nodes = λ a h _. refl;
      lists = λ a h _. lists_old a h;
      pools = λ a h _. put_ne s.memory.pool pool _ a (pool_old a h);
      words = λ a h. refl;
    };
    chain = λ a h. put_ne s.memory.pool_node node _ a (node_old a h);
    list = refl;
    within = r₄.within;
  }

  pub crit : Restored s.heap.crit h₄.crit
  crit = Restored_trans (Restored_trans r₁.crit r₂.crit) (Restored_trans r₃.crit r₄.crit)

  module _ (free_ne : free ≢ null) (used_ne : used ≢ null) where
    abbrev home' : Ptr → ℕ
    home' = extend home end size used

    abbrev end' : ℕ
    end' = c.base + h₄.allocated

    placed : (a : Ptr) → a ≢ null → end ≤ a → a ≤ used → At home' end' size a
    placed a ne lo hi = (
      ne,
      omega (arith, r₄.fresh used_ne, (struct_Fits c.target).3),
      extend_new home end size used a lo hi,
    )

    bounds :
        (end ≤ node)
        × (node + 2 * sizeof_ptr c.target ≤ pool)
        × (pool + 3 * sizeof_ptr c.target ≤ free)
        × (free + sizeof_ptr c.target ≤ used)
        × (used + sizeof_ptr c.target ≤ end')
    bounds = omega (arith, r₁.fresh node_ne, r₂.fresh pool_ne, r₃.fresh free_ne, r₄.fresh used_ne)

    IsView-new : IsView (sizeof_ptr c.target) filled.memory home' end' new
    IsView-new =
        let b = bounds in
        let w = (struct_Fits c.target).3 in
        record {
          size_pos = pos;
          node_at = placed node node_ne b.0 (omega (arith, w));
          pool_at = placed pool pool_ne (omega arith) (omega (arith, w));
          free_list_at = placed free free_ne (omega arith) (omega (arith, w));
          used_list_at = placed used used_ne (omega arith) (omega (arith, w));
          lists_ne = λ z. absurd (omega (arith, w, z));
          pool_is = rw ==_refl;
          free_is = rw (
            ==_ne used_ne,
            ==_ne {a = free} {b = used} (λ z. absurd (omega (arith, w, z))),
            ==_ne free_ne,
            ==_refl,
          );
          used_is = rw (==_ne used_ne, ==_refl);
          free_linked = tt;
          used_linked = tt;
          free_cells = tt;
          used_cells = tt;
          apart = λ a h. cc;
          blocks = tt;
          distinct = tt;
          balance = refl;
        }

    is_new : IsNew filled.memory home' end' new
    is_new = record {
      node_at = IsView-new.node_at;
      pool_at = IsView-new.pool_at;
      pool_is = IsView-new.pool_is;
      alone = rw ==_refl;
    }

    grown : IsPools c home' vs filled
    grown = IsPools-grow (Growth-made home' (extend_old home end size used)) pools

    entered :
        {s' : State}
        → Entered (sizeof_ptr c.target) home' end' filled new is_new vs s'
        → IsPools c home' (insert_view new vs) s'
    entered x = rw x.state (record {
      heap = record { within = r₄.within };
      low = grown.low;
      entry = refl;
      chain = x.chain;
      ascending = Ascending-insert_view new vs pools.ascending absent;
      views = All-map (insert_view new vs) (IsView-nodes x.nodes) (
          All-insert_view new (IsView (sizeof_ptr c.target) filled.memory home' end') vs IsView-new
            grown.views);
      count =
          omega (arith, length-insert_view new vs, pools.count, bounds, (struct_Fits c.target).3);
    })

    pub inserted :
        Ends
          (λ _ s'. IsPools c home' (insert_view new vs) s' × (s'.heap ≡ h₄))
          (insert c node filled)
    inserted =
        weaken
          (insert-Entered (sizeof_ptr c.target) home' end' filled new is_new c vs grown.views
            grown.chain grown.ascending absent grown.entry
            (omega (arith, pools.count, pools.heap.within)))
          λ _ s' x. (entered x, ap (λ (t : State). t.heap) x.state)
