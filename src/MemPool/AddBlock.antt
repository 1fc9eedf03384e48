-- ===== src/MemPool/AddBlock.antt =====
-- A block and its node fresh from the heap, as the loop in `TbxMemPoolCreate` of
-- source/tbx_mempool.c adds them to a pool.
use microtbx.Base.{
  ℕ, ◌+◌, ◌*◌, ◌≤◌, ◌≡◌, ◌≢◌, refl, sym, ap, ◌∙◌, arith, false, true, List, [], ◌∷◌, ◌++◌, All,
  ◌==◌, ==_ne, ==_refl, ==_iff, Bool-cases, inl, inr,
}
use microtbx.Target.{Config, Ptr, null, sizeof_ptr}
use microtbx.Heap.{Heap}
use microtbx.MemPool.Store.{State, Memory, put}
use microtbx.MemPool.View.{Cells, View, has, head, mem, stock, At, IsBlock, IsView, IsPools}
use microtbx.MemPool.Frame.{Frame, IsView-frame}
use microtbx.MemPool.Lists.{inserted, put_ne, Linked-put}
use microtbx.MemPool.Replace.{
  All-middle, All-replace, Chain-replace, Ascending-replace, length-replace, first-replace,
}
use microtbx.MemPool.Grow.{
  Reserved, struct_Fits, extend, extend_old, extend_new, extend_inside, Growth, IsPools-grow,
}

-- A pool with one more free block `b`, under the node `a`.
abbrev pub added : View → Ptr → Ptr → View
added v a b = record v { free = (a, b) ∷ v.free }

module _ {w : ℕ} {m : Memory} {home : Ptr → ℕ} {e : ℕ} (v : View) (a b : Ptr)
    (h : IsView w m home e v) (at : At home e v.size a) (not_free : has a v.free ≡ false)
    (not_used : has a v.used ≡ false) (block : IsBlock w m home e v.size b)
    (unknown : mem b (stock v.free ++ v.live) ≡ false) where
  add_apart : (x : Ptr) → has x ((a, b) ∷ v.free) ≡ true → has x v.used ≡ false
  add_apart x i = elim (Bool-cases (x == a)) [
    | inl z ↦ ap (λ t. has t v.used) ((==_iff x a).0 z) ∙ not_used
    | inr nz ↦ h.apart x (rw nz at i)
  ]

  IsView-add : IsView w (inserted m v.free_list a b (head v.free)) home e (added v a b)
  IsView-add = record {
    size_pos = h.size_pos;
    node_at = h.node_at;
    pool_at = h.pool_at;
    free_list_at = h.free_list_at;
    used_list_at = h.used_list_at;
    lists_ne = h.lists_ne;
    pool_is = h.pool_is;
    free_is = rw ==_refl;
    used_is = put_ne m.block_list v.free_list a v.used_list (λ z. h.lists_ne (sym z)) ∙ h.used_is;
    free_linked =
        (at.0, rw ==_refl, not_free, Linked-put m.block_node v.free a _ not_free h.free_linked);
    used_linked = Linked-put m.block_node v.used a _ not_used h.used_linked;
    free_cells = (at, h.free_cells);
    used_cells = h.used_cells;
    apart = add_apart;
    blocks = (block, h.blocks);
    distinct = (unknown, h.distinct);
    balance = h.balance;
  }

  Frame-add : Frame v.size m (inserted m v.free_list a b (head v.free)) home home e e
  Frame-add = record {
    grow = omega arith;
    homes = λ x _. refl;
    nodes = λ x _ ne. put_ne m.block_node a _ x (λ z. ne (ap home z ∙ at.2));
    lists = λ x _ ne. put_ne m.block_list v.free_list a x (λ z. ne (ap home z ∙ h.free_list_at.2));
    pools = λ x _ _. refl;
    words = λ x _. refl;
  }

fresh-has :
    (home : Ptr → ℕ) (e size a : ℕ) (xs : Cells)
    → e ≤ a
    → All (λ (x : Ptr × Ptr). At home e size x.0) xs
    → has a xs ≡ false
fresh-has home e size a [] lo all = refl
fresh-has home e size a ((p, b) ∷ xs) lo all =
    rw (==_ne {a = a} {b = p} (λ z. absurd (omega (arith, z, all.0.1))))
      (fresh-has home e size a xs lo all.1)

fresh-mem :
    (w : ℕ) (m : Memory) (home : Ptr → ℕ) (e size b : ℕ) (xs : List Ptr)
    → e ≤ b
    → All (IsBlock w m home e size) xs
    → mem b xs ≡ false
fresh-mem w m home e size b [] lo all = refl
fresh-mem w m home e size b (x ∷ xs) lo all =
    rw (==_ne {a = b} {b = x} (λ z. absurd (omega (arith, z, all.0.0.1))))
      (fresh-mem w m home e size b xs lo all.1)

module _ {c : Config} {home : Ptr → ℕ} {s : State} (vs₁ : List View) (v : View) (vs₂ : List View)
    (pools : IsPools c home (vs₁ ++ v ∷ vs₂) s) (node block : Ptr) (h₁ h₂ : Heap)
    (r₁ : Reserved c (2 * sizeof_ptr c.target) s.heap node h₁)
    (r₂ : Reserved c (sizeof_ptr c.target + v.size) h₁ block h₂) (node_ne : node ≢ null)
    (block_ne : block ≢ null) where
  abbrev old_end : ℕ
  old_end = c.base + s.heap.allocated

  abbrev home' : Ptr → ℕ
  home' = extend home old_end v.size block

  -- The new block and its node, before they join the free list.
  abbrev pub fresh : State
  fresh = record s {
    heap = h₂;
    memory = record (s.memory) {
      size_word = put s.memory.size_word block v.size;
      block_node =
          put s.memory.block_node node (record { block_ptr = block; next_node_ptr = null });
    };
  }

  Growth-fresh : Growth c home home' s fresh
  Growth-fresh = record {
    frame = record {
      grow = omega (arith, r₁.grow, r₂.grow);
      homes = extend_old home old_end v.size block;
      nodes = λ a h _.
          put_ne s.memory.block_node node _ a (λ z. absurd (omega (arith, r₁.fresh node_ne, z)));
      lists = λ a h _. refl;
      pools = λ a h _. refl;
      words = λ a h.
          put_ne s.memory.size_word block _ a
            (λ z. absurd (omega (arith, r₁.grow, r₂.fresh block_ne, z)));
    };
    chain = λ a h. refl;
    list = refl;
    within = r₂.within;
  }

  pub grown : IsPools c home' (vs₁ ++ v ∷ vs₂) fresh
  grown = IsPools-grow Growth-fresh pools

  abbrev view_before : IsView (sizeof_ptr c.target) s.memory home (c.base + s.heap.allocated) v
  view_before =
      (All-middle (IsView (sizeof_ptr c.target) s.memory home (c.base + s.heap.allocated)) vs₁ v vs₂
        pools.views).0

  abbrev pub view : IsView (sizeof_ptr c.target) fresh.memory home' (c.base + h₂.allocated) v
  view =
      (All-middle (IsView (sizeof_ptr c.target) fresh.memory home' (c.base + h₂.allocated)) vs₁ v
        vs₂ grown.views).0

  node_low : old_end ≤ node
  node_low = (r₁.fresh node_ne).0

  block_low : old_end ≤ block
  block_low = omega (arith, r₂.fresh block_ne, r₁.grow)

  node_at : At home' (c.base + h₂.allocated) v.size node
  node_at = (
    node_ne,
    omega (arith, r₁.fresh node_ne, r₂.grow, (struct_Fits c.target).3),
    extend_new home old_end v.size block node node_low
        (omega (arith, r₁.fresh node_ne, r₂.fresh block_ne)),
  )

  block_is : IsBlock (sizeof_ptr c.target) fresh.memory home' (c.base + h₂.allocated) v.size block
  block_is = (
    (
      block_ne,
      omega (arith, r₂.fresh block_ne, (struct_Fits c.target).3),
      extend_new home old_end v.size block block block_low (omega arith),
    ),
    rw ==_refl,
    omega (arith, r₂.fresh block_ne),
    λ a lo hi. extend_inside home old_end v.size block a (omega (arith, block_low)) lo,
  )

  abbrev pub final : State
  final = record fresh { memory = inserted fresh.memory v.free_list node block (head v.free) }

  pub IsPools-add : IsPools c home' (vs₁ ++ added v node block ∷ vs₂) final
  IsPools-add =
      let not_free = fresh-has home old_end v.size node v.free node_low view_before.free_cells in
      let not_used = fresh-has home old_end v.size node v.used node_low view_before.used_cells in
      let unknown =
        fresh-mem (sizeof_ptr c.target) s.memory home old_end v.size block (stock v.free ++ v.live)
          block_low view_before.blocks in
      let new = added v node block in
      record {
        heap = grown.heap;
        low = grown.low;
        entry = grown.entry ∙ sym (first-replace v new refl refl refl vs₂ vs₁);
        chain = Chain-replace v new refl refl refl vs₂ fresh.memory.pool_node vs₁ grown.chain;
        ascending = Ascending-replace v new refl refl refl vs₂ vs₁ grown.ascending;
        views =
            All-replace vs₁ vs₂ v new grown.ascending
              (λ u ne.
                IsView-frame
                  (Frame-add v node block view node_at not_free not_used block_is unknown) {v = u}
                  ne)
              (IsView-add v node block view node_at not_free not_used block_is unknown) grown.views;
        count = rw (length-replace v new refl refl refl vs₂ vs₁) grown.count;
      }
