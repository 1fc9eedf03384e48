-- ===== src/MemPool/Take.antt =====
-- `TbxMemPoolAllocate` of source/tbx_mempool.c: the block it takes, and the pool afterwards.
use microtbx.Base.{
  ℕ, ◌+◌, ◌≡◌, ◌≢◌, refl, sym, ap, ◌∙◌, arith, false, true, Option, some, List, [], ◌∷◌, ◌++◌, ◌==◌,
  ==_ne, ==_refl, ==_iff, Bool-cases, inl, inr,
}
use microtbx.Target.{Config, Ptr, null, sizeof_ptr}
use microtbx.MemPool.Store.{State, Memory, PoolNode, ok, load_lem}
use microtbx.MemPool.Block.{get_data_ptr}
use microtbx.MemPool.Api.{allocate_from}
use microtbx.MemPool.View.{
  Cells, View, has, head, Chain, At, IsBlock, IsView, IsPools, first, stock,
}
use microtbx.MemPool.Lists.{
  inserted, extracted, block_list_insert_lem, extract_cons, put_ne, Linked-put,
}
use microtbx.MemPool.Frame.{Frame, IsView-frame}
use microtbx.MemPool.Replace.{
  All-middle, All-insert, NoDup-insert, All-replace, Chain-replace, Ascending-replace,
  length-replace, first-replace,
}

-- The pool with the node `a` moved to the used list, and its block `b` in a client's hands.
abbrev pub taken : View → Ptr → Ptr → Cells → View
taken v a b fs = record v { free = fs; used = (a, b) ∷ v.used; live = b ∷ v.live }

abbrev pub take_memory : Memory → View → Ptr → Ptr → Cells → Memory
take_memory m v a b fs = inserted (extracted m v.free_list (head fs)) v.used_list a b (head v.used)

-- A pool whose free list begins with the node `a` for the block `b`.
abbrev pub with_free : View → Ptr → Ptr → Cells → View
with_free v a b fs = record v { free = (a, b) ∷ fs }

module _ {w : ℕ} {m : Memory} {home : Ptr → ℕ} {e : ℕ} (v : View) (a b : Ptr) (fs : Cells)
    (h : IsView w m home e (with_free v a b fs)) where
  abbrev pub here : At home e v.size a
  here = h.free_cells.0

  not_used : has a v.used ≡ false
  not_used = h.apart a (rw ==_refl)

  take_apart : (x : Ptr) → has x fs ≡ true → has x ((a, b) ∷ v.used) ≡ false
  take_apart x i = elim (Bool-cases (x == a)) [
    | inl z ↦ cc (sym i ∙ ap (λ t. has t fs) ((==_iff x a).0 z) ∙ h.free_linked.2)
    | inr nz ↦ rw nz (h.apart x (rw nz i))
  ]

  pub IsView-take : IsView w (take_memory m v a b fs) home e (taken v a b fs)
  IsView-take = record {
    size_pos = h.size_pos;
    node_at = h.node_at;
    pool_at = h.pool_at;
    free_list_at = h.free_list_at;
    used_list_at = h.used_list_at;
    lists_ne = h.lists_ne;
    pool_is = h.pool_is;
    free_is = rw (==_ne h.lists_ne, ==_refl);
    used_is = rw ==_refl;
    free_linked = Linked-put m.block_node fs a _ h.free_linked.2 h.free_linked.3;
    used_linked =
        (here.0, rw ==_refl, not_used, Linked-put m.block_node v.used a _ not_used h.used_linked);
    free_cells = h.free_cells.1;
    used_cells = (here, h.used_cells);
    apart = take_apart;
    blocks = All-insert (IsBlock w m home e v.size) (stock fs) b v.live h.blocks.0 h.blocks.1;
    distinct = NoDup-insert (stock fs) b v.live h.distinct.0 h.distinct.1;
    balance = omega (arith, h.balance);
  }

  pub Frame-take : Frame v.size m (take_memory m v a b fs) home home e e
  Frame-take = record {
    grow = omega arith;
    homes = λ x _. refl;
    nodes = λ x _ ne. put_ne m.block_node a _ x (λ z. ne (ap home z ∙ here.2));
    lists = λ x _ ne. rw (
      ==_ne {a = x} {b = v.used_list} (λ z. ne (ap home z ∙ h.used_list_at.2)),
      ==_ne {a = x} {b = v.free_list} (λ z. ne (ap home z ∙ h.free_list_at.2)),
    );
    pools = λ x _ _. refl;
    words = λ x _. refl;
  }

-- The node of a pool in the middle of the list.
pub Chain-middle :
    (m : Ptr → Option PoolNode) (vs₁ : List View) (v : View) (vs₂ : List View)
    → Chain m (vs₁ ++ v ∷ vs₂)
    → (v.node ≢ null) × (m v.node ≡ some (record { pool_ptr = v.pool; next_node_ptr = first vs₂ }))
Chain-middle m [] v vs₂ h = (h.0, h.1)
Chain-middle m (w ∷ vs₁) v vs₂ h = Chain-middle m vs₁ v vs₂ h.2

module _ {c : Config} {home : Ptr → ℕ} {s : State} (vs₁ : List View) (v : View) (a b : Ptr)
    (fs : Cells) (vs₂ : List View)
    (pools : IsPools c home (vs₁ ++ with_free v a b fs ∷ vs₂) s) where
  abbrev pub view :
      IsView (sizeof_ptr c.target) s.memory home (c.base + s.heap.allocated) (with_free v a b fs)
  view =
      (All-middle (IsView (sizeof_ptr c.target) s.memory home (c.base + s.heap.allocated)) vs₁
        (with_free v a b fs) vs₂ pools.views).0

  abbrev pub after : State
  after = record s { memory = take_memory s.memory v a b fs }

  pub allocate_from_lem : allocate_from c v.node s ≡ ok (get_data_ptr c b) after
  unfolding allocate_from
  allocate_from_lem =
      let node = Chain-middle s.memory.pool_node vs₁ (with_free v a b fs) vs₂ pools.chain in
      let s₁ : State = record s { memory = extracted s.memory v.free_list (head fs) } in
      rw
        (
          load_lem (λ m. m.pool_node) v.node s node.0 node.1,
          ==_ne view.pool_at.0,
          load_lem (λ m. m.pool) v.pool s view.pool_at.0 view.pool_is,
          extract_cons s v.free_list a b (head fs) view.free_list_at.0 (here v a b fs view).0
              view.free_is view.free_linked.1,
          ==_ne (here v a b fs view).0,
          load_lem (λ m. m.block_node) a s₁ (here v a b fs view).0 view.free_linked.1,
          block_list_insert_lem s₁ v.used_list a b (head fs) (head v.used) view.used_list_at.0
              (here v a b fs view).0
              (put_ne s.memory.block_list v.free_list (head fs) v.used_list
                  (λ z. view.lists_ne (sym z))
                ∙ view.used_is)
              view.free_linked.1,
        )
        refl

  pub IsPools-take : IsPools c home (vs₁ ++ taken v a b fs ∷ vs₂) after
  IsPools-take =
      let old = with_free v a b fs in
      let new = taken v a b fs in
      record {
        heap = pools.heap;
        low = pools.low;
        entry = pools.entry ∙ sym (first-replace old new refl refl refl vs₂ vs₁);
        chain = Chain-replace old new refl refl refl vs₂ s.memory.pool_node vs₁ pools.chain;
        ascending = Ascending-replace old new refl refl refl vs₂ vs₁ pools.ascending;
        views =
            All-replace vs₁ vs₂ old new pools.ascending
              (λ w ne. IsView-frame (Frame-take v a b fs view) {v = w} ne)
              (IsView-take v a b fs view) pools.views;
        count = rw (length-replace old new refl refl refl vs₂ vs₁) pools.count;
      }
