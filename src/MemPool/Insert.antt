-- ===== src/MemPool/Insert.antt =====
-- `TbxMemPoolListInsert` of source/tbx_mempool.c: the new pool node ends up where its block size
-- belongs.
use microtbx.Base.{
  ℕ, suc, ◌+◌, ◌≤◌, ◌<◌, ◌≡◌, ◌≢◌, refl, ap, ◌∙◌, arith, false, true, Option, List, [], ◌∷◌, All,
  ◌==◌, ==_ne, ==_refl, length, ltb, lt→ltb,
}
use native.Mathlib.Decide.{dec_lt}
use microtbx.Target.{Config, Ptr, null}
use microtbx.MemPool.Store.{State, PoolNode, load_lem, store_lem, put}
use microtbx.MemPool.PoolList.{insert_loop, insert}
use microtbx.MemPool.View.{View, Chain, Ascending, IsView, first}
use microtbx.MemPool.Ends.{Ends, ends, weaken}
use microtbx.MemPool.InsertStep.{
  insert_view, link, Chain-put, larger, IsNew, others, before_head, behind_done,
}
use microtbx.MemPool.InsertLoop.{
  LinkedIn, alone_LinkedIn, round_on, round_last, insert_loop-LinkedIn,
}

module _ (w : ℕ) (home : Ptr → ℕ) (e : ℕ) (s : State) (n : View)
    (new : IsNew s.memory home e n) where
  -- The whole list now holds the new node, and its head is the head of that.
  pub record Entered (vs : List View) (s' : State) : Type 0 where
    pub nodes : Ptr → Option PoolNode
    pub state : s' ≡ record s {
      memory = record (s.memory) { pool_node = nodes };
      pool_list = first (insert_view n vs);
    }
    pub chain : Chain nodes (insert_view n vs)

  head_Entered :
      (k : ℕ) (v : View) (vs : List View)
      → All (IsView w s.memory home e) (v ∷ vs)
      → Chain s.memory.pool_node (v ∷ vs)
      → Ascending (v ∷ vs)
      → n.size < v.size
      → s.pool_list ≡ v.node
      → Ends (λ _ s'. Entered (v ∷ vs) s') (insert_loop (suc k) n.node null v.node s)
  unfolding insert_loop
  head_Entered k v vs views chain asc hi entry =
      let nodes = put s.memory.pool_node n.node (link n.pool v.node) in
      let s' : State = record s {
        memory = record (s.memory) { pool_node = nodes };
        pool_list = n.node;
      } in
      let rest =
        Chain-put s.memory.pool_node n.node (link n.pool v.node) (v ∷ vs)
          (others w home e s n new n.size n.node (v ∷ vs) new.node_at.2
            (larger n.size v vs hi asc.0) views)
          chain in
      rw
        (
          ==_ne chain.0,
          load_lem (λ m. m.pool_node) v.node s chain.0 chain.1,
          before_head w home e s n new v vs null views.0 chain.1 hi entry,
          behind_done w home e s n new v.node (link v.pool (first vs)) s' chain.0 rest.1,
        )
        (ends (record {
          nodes = nodes;
          state = rw (lt→ltb n.size v.size hi);
          chain = rw (lt→ltb n.size v.size hi) (new.node_at.0, rw ==_refl, rest);
        }))

  tail_Entered :
      (v : View) (vs : List View) {s' : State}
      → v.size < n.size
      → s.pool_list ≡ v.node
      → LinkedIn w home e s n new v vs s'
      → Entered (v ∷ vs) s'
  tail_Entered v vs lt entry l =
      let test : ltb n.size v.size ≡ false = ground arith in
      record {
        nodes = l.nodes;
        state =
            l.state
            ∙ rw test (
                ap
                  (λ p. record s {
                    memory = record (s.memory) { pool_node = l.nodes };
                    pool_list = p;
                  })
                  entry);
        chain = rw test l.chain;
      }

  insert_start :
      (c : Config) (v : View)
      → v.node ≢ null
      → s.pool_list ≡ v.node
      → insert c n.node s ≡ insert_loop (suc c.heap_size) n.node null v.node s
  unfolding insert
  insert_start c v ne entry =
      let fuel : c.heap_size + 1 ≡ suc c.heap_size = omega arith in
      let nonempty : (s.pool_list == null) ≡ false = ap (λ p. p == null) entry ∙ ==_ne ne in
      rw (==_ne new.node_at.0, nonempty, fuel)
        (ap (λ p. insert_loop (suc c.heap_size) n.node null p s) entry)

  insert_empty :
      (c : Config) → s.pool_list ≡ null → Ends (λ _ s'. Entered [] s') (insert c n.node s)
  unfolding insert
  insert_empty c entry =
      let is : (s.pool_list == null) ≡ true = ap (λ p. p == null) entry in
      rw
        (
          ==_ne new.node_at.0,
          is,
          load_lem (λ m. m.pool_node) n.node s new.node_at.0 new.alone,
          store_lem _ n.node s new.node_at.0,
        )
        (ends (record {
          nodes = put s.memory.pool_node n.node (link n.pool null);
          state = refl;
          chain = (new.node_at.0, rw ==_refl, tt);
        }))

  -- `TbxMemPoolListInsert` ends, without a fault, with the new pool where its block size belongs.
  pub insert-Entered :
      (c : Config) (vs : List View)
      → All (IsView w s.memory home e) vs
      → Chain s.memory.pool_node vs
      → Ascending vs
      → All (λ (x : View). x.size ≢ n.size) vs
      → s.pool_list ≡ first vs
      → length vs ≤ c.heap_size
      → Ends (λ _ s'. Entered vs s') (insert c n.node s)
  insert-Entered c [] views chain asc ne entry fuel = insert_empty c entry
  insert-Entered c (v ∷ []) views chain asc ne entry fuel =
      rw (insert_start c v chain.0 entry) (elim (dec_lt n.size v.size) [
        | yes hi ↦ head_Entered c.heap_size v [] views chain asc hi entry
        | no ge ↦
            let lt : v.size < n.size = omega (arith, ne.0) in
            rw (round_last w home e s n new c.heap_size null v [] views.0 chain.1 lt refl) (
              ends
                (tail_Entered v [] lt entry (alone_LinkedIn w home e s n new v views.0 chain.0 lt)))
      ])
  insert-Entered c (v ∷ x ∷ vs) views chain asc ne entry fuel =
      rw (insert_start c v chain.0 entry) (elim (dec_lt n.size v.size) [
        | yes hi ↦ head_Entered c.heap_size v (x ∷ vs) views chain asc hi entry
        | no ge ↦
            let lt : v.size < n.size = omega (arith, ne.0) in
            rw (round_on w home e s n new c.heap_size null v (x ∷ vs) views.0 chain.1 lt chain.2.0)
              (weaken
                (insert_loop-LinkedIn w home e s n new c.heap_size v x vs views chain asc ne.1 lt
                  (omega (arith, ap home entry, views.0.node_at.2)) (omega arith))
                λ _ s' l. tail_Entered v (x ∷ vs) lt entry l)
      ])
