-- ===== src/LinkedList/SortItems.antt =====
-- `TbxListSortItems` of source/tbx_list.c: the loops over the nodes are the exchanges.
use microtbx.Base.{
  ℕ, zero, suc, ◌<◌, ◌≡◌, ◌≢◌, refl, sym, ap, subst, ◌∙◌, arith, Bool, false, some, [], ◌∷◌, length,
  ==_ne, Bool-cases, inl, inr, if◌then◌else◌,
}
use microtbx.Target.{Ptr, null}
use microtbx.LinkedList.Store.{node_of, State, put}
use microtbx.LinkedList.Sort.{set_item, index_loop, sort_loop}
use microtbx.LinkedList.Chain.{
  Cells, Nodes, has, first, Chain, nil, cons, uncons, Chain-put, put_same, put_other,
}
use microtbx.LinkedList.Exchange.{
  sweep, exchange, first-sweep, first-exchange, exchange-nil, length-sweep, has-sweep, has-exchange,
}
use microtbx.LinkedList.Returns.{with_nodes, load_node-some, store_node-some}

module _ {P : Type 0} where
  pub set_item_lem :
      (s : State P) (a to : Ptr) {x prev next : Ptr}
      → a ≢ null
      → s.node a ≡ some (node_of x prev next)
      → set_item a to s ≡ some (tt, with_nodes s (put s.node a (node_of to prev next)))
  set_item_lem s a to {x} {prev} {next} ne is =
      rw (load_node-some s a ne is) (store_node-some s a ne (node_of to prev next))

module _ (compare_items : Ptr → Ptr → Bool) where
  -- The memory after the inner loop.
  record Swept (m m' : Nodes) (a x : Ptr) (prev next back : Ptr) (ys : Cells) : Type 0 where
    here : m' a ≡ some (node_of (sweep compare_items x ys).0 prev next)
    chain : Chain m' null back (sweep compare_items x ys).1
    others : (b : Ptr) → b ≢ a → has b ys ≡ false → m' b ≡ m b

  -- What the inner loop does behind the node `b` comes after what it does to `b`.
  Swept-cons :
      {m m' : Nodes} {a x x' y' : Ptr} {prev next back b y : Ptr} {ys : Cells} {m₀ : Nodes}
      → b ≢ null
      → b ≢ a
      → has b ys ≡ false
      → m b ≡ some (node_of y' back (first ys null))
      → ((c : Ptr) → c ≢ a → c ≢ b → m c ≡ m₀ c)
      → x' ≡ (if compare_items x y then y else x)
      → y' ≡ (if compare_items x y then x else y)
      → Swept m m' a x' prev next b ys
      → Swept m₀ m' a x prev next back ((b, y) ∷ ys)
  Swept-cons {m} {m'} {a} {x} {x'} {y'} {prev} {next} {back} {b} {y} {ys} nonnull ne out is same ex
        ey r =
      record {
        here = rw (← ex) r.here;
        chain =
            rw (← ex, ← ey)
              (cons nonnull
                (r.others b ne out
                  ∙ is
                  ∙ ap (λ p. some (node_of y' back p)) (sym (first-sweep compare_items x' null ys)))
                (has-sweep compare_items b x' ys ∙ out) r.chain);
        others = λ c away out'.
            let outs : (c ≢ b) × (has c ys ≡ false) = ground arith in
            r.others c away outs.1 ∙ same c away outs.0;
      }

  module _ {P : Type 0} where
    index_loop_lem :
        (k : ℕ) (s : State P) (a : Ptr) {x prev next back : Ptr} (ys : Cells)
        → a ≢ null
        → s.node a ≡ some (node_of x prev next)
        → Chain s.node null back ys
        → has a ys ≡ false
        → length ys < k
        → (m' : Nodes) × (index_loop k compare_items a (first ys null) s
            ≡ some (tt, with_nodes s m'))
          × Swept s.node m' a x prev next back ys
    unfolding index_loop
    index_loop_lem zero s a ys ne is c out fuel = absurd (omega arith)
    index_loop_lem (suc k) s a [] ne is c out fuel =
        (s.node, refl, record { here = is; chain = nil; others = λ _ _ _. refl })
    index_loop_lem (suc k) s a {x} {prev} {next} {back} ((b, y) ∷ ys) ne is chain out fuel =
        let (b_ne, b_is, b_out, c) = uncons chain in
        let outs : (b ≢ a) × (has a ys ≡ false) = ground arith in
        let a_ne : a ≢ b = λ same. outs.0 (sym same) in
        let m₁ : Nodes = put s.node a (node_of y prev next) in
        let s₁ : State P = with_nodes s m₁ in
        let m₂ : Nodes = put m₁ b (node_of x back (first ys null)) in
        let s₂ : State P = with_nodes s m₂ in
        let b_is₁ : m₁ b ≡ some (node_of y back (first ys null)) =
          put_other s.node a _ b outs.0 ∙ b_is in
        rw (==_ne b_ne, load_node-some s a ne is, load_node-some s b b_ne b_is)
          (elim (Bool-cases (compare_items x y)) [
            | inl gt ↦
                let (m', e, r) =
                  index_loop_lem k s₂ a {x = y} {prev = prev} {next = next} {back = b} ys ne
                    (put_other m₁ b _ a a_ne ∙ put_same s.node a _)
                    (Chain-put b _ b_out (Chain-put a _ outs.1 c)) outs.1 (omega arith) in
                (
                  m',
                  rw
                      (
                        gt,
                        set_item_lem s a y ne is,
                        set_item_lem s₁ b x b_ne b_is₁,
                        load_node-some s₂ b b_ne (put_same m₁ b _),
                      )
                      e,
                  Swept-cons b_ne outs.0 b_out (put_same m₁ b _)
                      (λ d away away'. put_other m₁ b _ d away' ∙ put_other s.node a _ d away)
                      (rw gt refl) (rw gt refl) r,
                )
            | inr le ↦
                let (m', e, r) =
                  index_loop_lem k s a {x = x} {prev = prev} {next = next} {back = b} ys ne is c
                    outs.1 (omega arith) in
                (
                  m',
                  rw (le, load_node-some s b b_ne b_is) e,
                  Swept-cons b_ne outs.0 b_out b_is (λ _ _ _. refl) (rw le refl) (rw le refl) r,
                )
          ])

    pub sort_loop_lem :
        (k : ℕ) (s : State P) (a x prev : Ptr) (ys : Cells)
        → Chain s.node null prev ((a, x) ∷ ys)
        → length ys < k
        → (m' : Nodes) × (sort_loop k compare_items a s ≡ some (tt, with_nodes s m'))
          × Chain m' null prev (exchange compare_items k ((a, x) ∷ ys))
          × ((b : Ptr) → has b ((a, x) ∷ ys) ≡ false → m' b ≡ s.node b)
    unfolding sort_loop
    sort_loop_lem zero s a x prev ys chain fuel = absurd (omega arith)
    sort_loop_lem (suc k) s a x prev [] chain fuel =
        let (ne, is, _, _) = uncons chain in
        (
          s.node,
          rw (load_node-some s a ne is) refl,
          subst (λ xs. Chain s.node null prev ((a, x) ∷ xs)) (sym (exchange-nil compare_items k))
              chain,
          λ _ _. refl,
        )
    sort_loop_lem (suc k) s a x prev ((b, y) ∷ ys) chain fuel =
        let (ne, is, out, c) = uncons chain in
        let (b_ne, _, _, _) = uncons c in
        let xs : Cells = (b, y) ∷ ys in
        let (m₁, e₁, r) = index_loop_lem (suc k) s a xs ne is c out fuel in
        let s₁ : State P = with_nodes s m₁ in
        let swept : Cells = (sweep compare_items x xs).1 in
        let (m', e, chain', others) =
          sort_loop_lem k s₁ b (if compare_items x y then x else y) a
            (sweep compare_items (if compare_items x y then y else x) ys).1 r.chain
            (omega (arith, length-sweep compare_items (if compare_items x y then y else x) ys)) in
        let away : has a swept ≡ false = has-sweep compare_items a x xs ∙ out in
        (
          m',
          rw (load_node-some s a ne is, ==_ne b_ne, e₁, load_node-some s₁ a ne r.here) e,
          cons ne
              (others a away
                ∙ r.here
                ∙ ap (λ p. some (node_of (sweep compare_items x xs).0 prev p))
                    (sym (first-exchange compare_items k null swept)))
              (has-exchange compare_items k a swept ∙ away) chain',
          λ d out'.
              let outs : (d ≢ a) × (has d xs ≡ false) = ground arith in
              others d (has-sweep compare_items d x xs ∙ outs.1) ∙ r.others d outs.0 outs.1,
        )
