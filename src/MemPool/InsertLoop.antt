-- ===== src/MemPool/InsertLoop.antt =====
-- The loop in `TbxMemPoolListInsert` of source/tbx_mempool.c, over all of its rounds.
use microtbx.Base.{
  ℕ, zero, suc, ◌≤◌, ◌<◌, ◌≡◌, ◌≢◌, refl, sym, ap, ◌∙◌, arith, false, Option, some, List, [], ◌∷◌,
  All, ==_ne, ==_refl, length, ltb, lt→ltb,
}
use native.Mathlib.Decide.{dec_lt}
use microtbx.Target.{Ptr, null}
use microtbx.MemPool.Store.{State, PoolNode, ok, load_lem}
use microtbx.MemPool.PoolList.{insert_loop}
use microtbx.MemPool.View.{View, Chain, Ascending, IsView, first}
use microtbx.MemPool.Ends.{Ends, ends, weaken}
use microtbx.MemPool.InsertStep.{
  insert_view, with_pool_nodes, link, Chain-put, larger, IsNew, others, before_no, before_between,
  behind_no, behind_last, behind_done, before_memory, behind_memory,
}

module _ (w : ℕ) (home : Ptr → ℕ) (e : ℕ) (s : State) (n : View)
    (new : IsNew s.memory home e n) where
  -- The chain behind `u` now holds the new node too, and nothing in front of `u` has changed.
  pub record LinkedIn (u : View) (vs : List View) (s' : State) : Type 0 where
    pub nodes : Ptr → Option PoolNode
    pub state : s' ≡ with_pool_nodes s nodes
    pub chain : Chain nodes (u ∷ insert_view n vs)
    pub low : (a : Ptr) → home a < u.size → nodes a ≡ s.memory.pool_node a

  pub apart : {i j : ℕ} {a b : Ptr} → home a ≡ i → home b ≡ j → i ≢ j → a ≢ b
  apart p q ne z = ne (sym p ∙ ap home z ∙ q)

  pub between_LinkedIn :
      (u v : View) (vs : List View)
      → All (IsView w s.memory home e) (u ∷ v ∷ vs)
      → Chain s.memory.pool_node (u ∷ v ∷ vs)
      → Ascending (u ∷ v ∷ vs)
      → u.size < n.size
      → n.size < v.size
      → LinkedIn u
          (v ∷ vs)
          (with_pool_nodes s (before_memory w home e s n new u.node u.pool v.node))
  between_LinkedIn u v vs views chain asc lo hi =
      let rest =
        Chain-put s.memory.pool_node n.node (link n.pool v.node) (v ∷ vs)
          (others w home e s n new n.size n.node (v ∷ vs) new.node_at.2
            (larger n.size v vs hi asc.1.0) views.1)
          chain.2 in
      let ne : n.node ≢ u.node =
        apart new.node_at.2 views.0.node_at.2 (λ z. absurd (omega arith)) in
      record {
        nodes = before_memory w home e s n new u.node u.pool v.node;
        state = refl;
        chain = rw (lt→ltb n.size v.size hi) (
          chain.0,
          rw ==_refl,
          (
            new.node_at.0,
            rw (==_ne ne, ==_refl),
            Chain-put _ u.node (link u.pool n.node) (v ∷ vs)
                (others w home e s n new u.size u.node (v ∷ vs) views.0.node_at.2
                  (larger u.size v vs (omega arith) asc.1.0) views.1)
                rest,
          ),
        );
        low = λ a h. rw (
          ==_ne {a = a} {b = u.node} (λ z. absurd (omega (arith, h, ap home z, views.0.node_at.2))),
          ==_ne {a = a} {b = n.node} (λ z. absurd (omega (arith, h, lo, ap home z, new.node_at.2))),
        );
      }

  pub last_LinkedIn :
      (u v : View)
      → All (IsView w s.memory home e) (u ∷ v ∷ [])
      → Chain s.memory.pool_node (u ∷ v ∷ [])
      → u.size < v.size
      → v.size < n.size
      → LinkedIn u (v ∷ []) (with_pool_nodes s (behind_memory w home e s n new v))
  last_LinkedIn u v views chain lo hi =
      let test : ltb n.size v.size ≡ false = ground arith in
      let u_ne_n : u.node ≢ n.node =
        apart views.0.node_at.2 new.node_at.2 (λ z. absurd (omega arith)) in
      let u_ne_v : u.node ≢ v.node =
        apart views.0.node_at.2 views.1.0.node_at.2 (λ z. absurd (omega arith)) in
      let n_ne_v : n.node ≢ v.node =
        apart new.node_at.2 views.1.0.node_at.2 (λ z. absurd (omega arith)) in
      record {
        nodes = behind_memory w home e s n new v;
        state = refl;
        chain = rw test (
          chain.0,
          rw (==_ne u_ne_v, ==_ne u_ne_n) chain.1,
          (views.1.0.node_at.0, rw ==_refl, (new.node_at.0, rw (==_ne n_ne_v, ==_refl), tt)),
        );
        low = λ a h. rw (
          ==_ne {a = a} {b = v.node}
              (λ z. absurd (omega (arith, h, ap home z, views.1.0.node_at.2))),
          ==_ne {a = a} {b = n.node}
              (λ z. absurd (omega (arith, h, lo, hi, ap home z, new.node_at.2))),
        );
      }

  pub alone_LinkedIn :
      (v : View)
      → IsView w s.memory home e v
      → v.node ≢ null
      → v.size < n.size
      → LinkedIn v [] (with_pool_nodes s (behind_memory w home e s n new v))
  alone_LinkedIn v h nonnull lt =
      let n_ne_v : n.node ≢ v.node = apart new.node_at.2 h.node_at.2 (λ z. absurd (omega arith)) in
      record {
        nodes = behind_memory w home e s n new v;
        state = refl;
        chain = (nonnull, rw ==_refl, (new.node_at.0, rw (==_ne n_ne_v, ==_refl), tt));
        low = λ a h'. rw (
          ==_ne {a = a} {b = v.node} (λ z. absurd (omega (arith, h', ap home z, h.node_at.2))),
          ==_ne {a = a} {b = n.node}
              (λ z. absurd (omega (arith, h', lt, ap home z, new.node_at.2))),
        );
      }

  pub further_LinkedIn :
      (u v : View) (vs : List View) {s' : State}
      → IsView w s.memory home e u
      → Chain s.memory.pool_node (u ∷ v ∷ vs)
      → u.size < v.size
      → v.size < n.size
      → LinkedIn v vs s'
      → LinkedIn u (v ∷ vs) s'
  further_LinkedIn u v vs hu chain lo hi l =
      let test : ltb n.size v.size ≡ false = ground arith in
      record {
        nodes = l.nodes;
        state = l.state;
        chain = rw test (chain.0, l.low u.node (omega (arith, hu.node_at.2)) ∙ chain.1, l.chain);
        low = λ a h. l.low a (omega (arith, h));
      }

  -- One round of the loop at `v` that goes on, and one that ends behind `v`.
  module _ (k : ℕ) (prev : Ptr) (v : View) (vs : List View) (h : IsView w s.memory home e v)
      (here : s.memory.pool_node v.node ≡ some (link v.pool (first vs)))
      (lt : v.size < n.size) where
    pub round_on :
        first vs ≢ null
        → insert_loop (suc k) n.node prev v.node s ≡ insert_loop k n.node v.node (first vs) s
    unfolding insert_loop
    round_on more =
        rw
          (
            ==_ne h.node_at.0,
            load_lem (λ m. m.pool_node) v.node s h.node_at.0 here,
            before_no w home e s n new v vs prev h here lt,
            behind_no w home e s n new v vs prev h here more,
            load_lem (λ m. m.pool_node) v.node s h.node_at.0 here,
          )
          refl

    pub round_last :
        first vs ≡ null
        → insert_loop (suc k) n.node prev v.node s
          ≡ ok tt (with_pool_nodes s (behind_memory w home e s n new v))
    unfolding insert_loop
    round_last last =
        rw
          (
            ==_ne h.node_at.0,
            load_lem (λ m. m.pool_node) v.node s h.node_at.0 here,
            before_no w home e s n new v vs prev h here lt,
            behind_last w home e s n new v vs prev h here last
                (apart h.node_at.2 new.node_at.2 (λ z. absurd (omega arith))),
          )
          refl

  pub round_between :
      (k : ℕ) (u v : View) (vs : List View)
      → All (IsView w s.memory home e) (u ∷ v ∷ vs)
      → Chain s.memory.pool_node (u ∷ v ∷ vs)
      → u.size < n.size
      → n.size < v.size
      → home s.pool_list ≤ u.size
      → insert_loop (suc k) n.node u.node v.node s
        ≡ ok tt (with_pool_nodes s (before_memory w home e s n new u.node u.pool v.node))
  unfolding insert_loop
  round_between k u v vs views chain lo hi entry =
      let m' = before_memory w home e s n new u.node u.pool v.node in
      let v_at = views.1.0.node_at.2 in
      let u_at = views.0.node_at.2 in
      let v_ne_u : v.node ≢ u.node = apart v_at u_at (λ z. absurd (omega arith)) in
      let v_ne_n : v.node ≢ n.node = apart v_at new.node_at.2 (λ z. absurd (omega arith)) in
      rw
        (
          ==_ne chain.2.0,
          load_lem (λ m. m.pool_node) v.node s chain.2.0 chain.2.1,
          before_between w home e s n new v vs u.node views.1.0 chain.2.1 u.pool hi
              (apart v_at refl (λ z. absurd (omega arith))) chain.0
              (apart u_at new.node_at.2 (λ z. absurd (omega arith))) chain.1,
          behind_done w home e s n new v.node (link v.pool (first vs)) (with_pool_nodes s m')
              chain.2.0 (rw (==_ne v_ne_u, ==_ne v_ne_n) chain.2.1),
        )
        refl

  -- The rounds of the loop behind the node `u`, which is for smaller blocks.
  pub insert_loop-LinkedIn :
      (k : ℕ) (u v : View) (vs : List View)
      → All (IsView w s.memory home e) (u ∷ v ∷ vs)
      → Chain s.memory.pool_node (u ∷ v ∷ vs)
      → Ascending (u ∷ v ∷ vs)
      → All (λ (x : View). x.size ≢ n.size) (v ∷ vs)
      → u.size < n.size
      → home s.pool_list ≤ u.size
      → length (v ∷ vs) < k
      → Ends (λ _ s'. LinkedIn u (v ∷ vs) s') (insert_loop k n.node u.node v.node s)
  insert_loop-LinkedIn zero u v vs views chain asc ne lo entry fuel = absurd (omega arith)
  insert_loop-LinkedIn (suc k) u v [] views chain asc ne lo entry fuel =
      elim (dec_lt n.size v.size) [
        | yes hi ↦
            rw (round_between k u v [] views chain lo hi entry)
              (ends (between_LinkedIn u v [] views chain asc lo hi))
        | no ge ↦
            let lt : v.size < n.size = omega (arith, ne.0) in
            rw (round_last k u.node v [] views.1.0 chain.2.1 lt refl)
              (ends (last_LinkedIn u v views chain asc.0.0 lt))
      ]
  insert_loop-LinkedIn (suc k) u v (x ∷ vs) views chain asc ne lo entry fuel =
      elim (dec_lt n.size v.size) [
        | yes hi ↦
            rw (round_between k u v (x ∷ vs) views chain lo hi entry)
              (ends (between_LinkedIn u v (x ∷ vs) views chain asc lo hi))
        | no ge ↦
            let lt : v.size < n.size = omega (arith, ne.0) in
            rw (round_on k u.node v (x ∷ vs) views.1.0 chain.2.1 lt chain.2.2.0) (
              weaken
                (insert_loop-LinkedIn k v x vs views.1 chain.2 asc.1 ne.1 lt
                  (omega (arith, asc.0.0)) (omega arith))
                λ _ s' l. further_LinkedIn u v (x ∷ vs) views.0 chain asc.0.0 lt l)
      ]
