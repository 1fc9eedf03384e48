-- ===== src/MemPool/InsertStep.antt =====
-- What one round of the loop in `TbxMemPoolListInsert` of source/tbx_mempool.c does with the list.
use microtbx.Base.{
  ℕ, ◌<◌, ◌≡◌, ◌≢◌, refl, sym, ap, ◌∙◌, arith, false, true, Option, some, List, [], ◌∷◌, All, ◌==◌,
  ==_ne, ==_refl, Bool-cases, inl, inr, if◌then◌else◌, ltb, lt→ltb,
}
use microtbx.Target.{Ptr, null}
use microtbx.MemPool.Store.{State, Memory, PoolNode, ok, load_lem, store_lem, put}
use microtbx.MemPool.PoolList.{insert_before, insert_behind}
use microtbx.MemPool.View.{View, Chain, At, IsView, first}
use microtbx.MemPool.Lists.{put_ne}
use microtbx.MemPool.Frame.{All-map}

-- Where the pool belongs in an ascending list.
abbrev pub insert_view : View → List View → List View
insert_view n [] = n ∷ []
insert_view n (v ∷ vs) = if ltb n.size v.size then n ∷ v ∷ vs else v ∷ insert_view n vs

abbrev pub with_pool_nodes : State → (Ptr → Option PoolNode) → State
with_pool_nodes s m = record s { memory = record (s.memory) { pool_node = m } }

abbrev pub link : Ptr → Ptr → PoolNode
link pool next = record { pool_ptr = pool; next_node_ptr = next }

pub Chain-put :
    (m : Ptr → Option PoolNode) (a : Ptr) (x : PoolNode) (vs : List View)
    → All (λ (v : View). v.node ≢ a) vs
    → Chain m vs
    → Chain (put m a x) vs
Chain-put m a x [] ne h = tt
Chain-put m a x (v ∷ vs) ne h = (h.0, put_ne m a x v.node ne.0 ∙ h.1, Chain-put m a x vs ne.1 h.2)

pub larger :
    (size : ℕ) (v : View) (vs : List View)
    → size < v.size
    → All (λ (x : View). v.size < x.size) vs
    → All (λ (x : View). x.size ≢ size) (v ∷ vs)
larger size v vs h all = (
  (λ z. absurd (omega arith)),
  All-map vs (λ (x : View) (lt : v.size < x.size) z. absurd (omega arith)) all,
)

-- The node `n` to insert, made ready: its pool is there, and it points nowhere.
pub record IsNew (m : Memory) (home : Ptr → ℕ) (e : ℕ) (n : View) : Type 0 where
  pub node_at : At home e n.size n.node
  pub pool_at : At home e n.size n.pool
  pub pool_is :
      m.pool n.pool
      ≡ some (record {
        block_size = n.size;
        free_block_list_ptr = n.free_list;
        used_block_list_ptr = n.used_list;
      })
  pub alone : m.pool_node n.node ≡ some (link n.pool null)

module _ (w : ℕ) (home : Ptr → ℕ) (e : ℕ) (s : State) (n : View)
    (new : IsNew s.memory home e n) where
  -- The nodes of pools for other sizes are other nodes.
  pub others :
      (size : ℕ) (a : Ptr) (vs : List View)
      → home a ≡ size
      → All (λ (v : View). v.size ≢ size) vs
      → All (IsView w s.memory home e) vs
      → All (λ (v : View). v.node ≢ a) vs
  others size a [] is ne h = tt
  others size a (v ∷ vs) is ne h =
      (λ z. ne.0 (sym h.0.node_at.2 ∙ ap home z ∙ is), others size a vs is ne.1 h.1)

  abbrev pub before_memory : Ptr → Ptr → Ptr → Ptr → Option PoolNode
  before_memory prev pool cur =
      put (put s.memory.pool_node n.node (link n.pool cur)) prev (link pool n.node)

  abbrev pub behind_memory : View → Ptr → Option PoolNode
  behind_memory v =
      put (put s.memory.pool_node n.node (link n.pool null)) v.node (link v.pool n.node)

  module _ (v : View) (vs : List View) (prev : Ptr) (h : IsView w s.memory home e v)
      (here : s.memory.pool_node v.node ≡ some (link v.pool (first vs))) where
    -- The test fails: nothing is inserted in front of `v`.
    pub before_no :
        v.size < n.size → insert_before n.node prev v.node (link v.pool (first vs)) s ≡ ok false s
    unfolding insert_before
    before_no lt =
        let test : ltb n.size v.size ≡ false = ground arith in
        rw
          (
            ==_ne h.pool_at.0,
            load_lem (λ m. m.pool) v.pool s h.pool_at.0 h.pool_is,
            load_lem (λ m. m.pool_node) n.node s new.node_at.0 new.alone,
            load_lem (λ m. m.pool) n.pool s new.pool_at.0 new.pool_is,
            test,
          )
          refl

    -- `v` is the head of the list, and the new node goes in front of it.
    pub before_head :
        n.size < v.size
        → s.pool_list ≡ v.node
        → insert_before n.node prev v.node (link v.pool (first vs)) s
          ≡ ok true (record s {
            memory = record (s.memory) {
              pool_node = put s.memory.pool_node n.node (link n.pool v.node);
            };
            pool_list = n.node;
          })
    unfolding insert_before
    before_head lt at =
        let is : (v.node == s.pool_list) ≡ true = ap (λ p. v.node == p) at ∙ ==_refl v.node in
        rw
          (
            ==_ne h.pool_at.0,
            load_lem (λ m. m.pool) v.pool s h.pool_at.0 h.pool_is,
            load_lem (λ m. m.pool_node) n.node s new.node_at.0 new.alone,
            load_lem (λ m. m.pool) n.pool s new.pool_at.0 new.pool_is,
            lt→ltb n.size v.size lt,
            is,
            store_lem _ n.node s new.node_at.0,
          )
          refl

    -- The new node goes between `prev` and `v`.
    pub before_between :
        (pool : Ptr)
        → n.size < v.size
        → v.node ≢ s.pool_list
        → prev ≢ null
        → prev ≢ n.node
        → s.memory.pool_node prev ≡ some (link pool v.node)
        → insert_before n.node prev v.node (link v.pool (first vs)) s
          ≡ ok true (with_pool_nodes s (before_memory prev pool v.node))
    unfolding insert_before
    before_between pool lt at nonnull ne is =
        let s₁ : State = with_pool_nodes s (put s.memory.pool_node n.node (link n.pool v.node)) in
        rw
          (
            ==_ne h.pool_at.0,
            load_lem (λ m. m.pool) v.pool s h.pool_at.0 h.pool_is,
            load_lem (λ m. m.pool_node) n.node s new.node_at.0 new.alone,
            load_lem (λ m. m.pool) n.pool s new.pool_at.0 new.pool_is,
            lt→ltb n.size v.size lt,
            ==_ne at,
            ==_ne nonnull,
            store_lem _ n.node s new.node_at.0,
            load_lem (λ m. m.pool_node) prev s₁ nonnull
                (put_ne s.memory.pool_node n.node _ prev ne ∙ is),
            store_lem _ prev s₁ nonnull,
          )
          refl

    -- After a node that is not the last nothing happens.
    pub behind_no : first vs ≢ null → insert_behind n.node v.node false s ≡ ok false s
    unfolding insert_behind
    behind_no more = rw (load_lem (λ m. m.pool_node) v.node s h.node_at.0 here, ==_ne more) refl

    pub behind_last :
        first vs ≡ null
        → v.node ≢ n.node
        → insert_behind n.node v.node false s ≡ ok true (with_pool_nodes s (behind_memory v))
    unfolding insert_behind
    behind_last last ne =
        let s₁ : State = with_pool_nodes s (put s.memory.pool_node n.node (link n.pool null)) in
        let is : (first vs == null) ≡ true = ap (λ p. p == null) last in
        rw
          (
            load_lem (λ m. m.pool_node) v.node s h.node_at.0 here,
            is,
            load_lem (λ m. m.pool_node) n.node s new.node_at.0 new.alone,
            store_lem _ n.node s new.node_at.0,
            load_lem (λ m. m.pool_node) v.node s₁ h.node_at.0
                (put_ne s.memory.pool_node n.node _ v.node ne ∙ here),
            store_lem _ v.node s₁ h.node_at.0,
          )
          refl

  pub behind_done :
      (cur : Ptr) (x : PoolNode) (s' : State)
      → cur ≢ null
      → s'.memory.pool_node cur ≡ some x
      → insert_behind n.node cur true s' ≡ ok true s'
  unfolding insert_behind
  behind_done cur x s' ne is = elim (Bool-cases (x.next_node_ptr == null)) [
    | inl z ↦ rw (load_lem (λ m. m.pool_node) cur s' ne is, z) refl
    | inr nz ↦ rw (load_lem (λ m. m.pool_node) cur s' ne is, nz) refl
  ]
