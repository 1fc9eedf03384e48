-- ===== src/LinkedList/ClearItems.antt =====
-- `TbxListClear` and `TbxListDelete` of source/tbx_list.c: every node goes back to the pools.
use microtbx.Base.{
  ℕ, zero, suc, ◌+◌, ◌<◌, ◌≡◌, refl, subst, arith, true, false, some, [], ◌∷◌, length, ==_refl,
  ==_ne, if◌then◌else◌,
}
use std.Path.{fun_ext}
use microtbx.Target.{Ptr, null}
use microtbx.LinkedList.Store.{Pools, State, handle_of}
use microtbx.LinkedList.Remove.{clear_loop, clear, delete}
use microtbx.LinkedList.Laws.{Blocks, without_block, Laws}
use microtbx.LinkedList.Chain.{Cells, Chain, nil, cons, has, first, outside_ne, put_other}
use microtbx.LinkedList.Returns.{
  Returns, returns, and_then, load_node-some, load_list-some, store_list-some,
}
use microtbx.LinkedList.Ready.{Ready, Frame, with_pools, Ready-pools}

abbrev pub without_nodes : Blocks → Cells → Blocks
without_nodes live xs a = if has a xs then false else live a

without_first :
    (live : Blocks) (a x : Ptr) (xs : Cells)
    → without_nodes (without_block live a) xs ≡ without_nodes live ((a, x) ∷ xs)
without_first live a x xs = fun_ext λ b. ground arith

module _ {P : Type 0} {p : Pools P} {size : ℕ} {Inv : ℕ → Blocks → P → Type 0}
    {Same : P → P → Type 0} {Full : P → Type 0} (laws : Laws p size Inv Same Full) {k : ℕ} where
  clear_loop_lem :
      (fuel : ℕ) {live : Blocks} {prev : Ptr} {xs : Cells} (s : State P)
      → Chain s.node null prev xs
      → ((a : Ptr) → has a xs ≡ true → live a ≡ true)
      → Inv (suc k) live s.pools
      → length xs < fuel
      → (pools : P) × (clear_loop p fuel (first xs null) s ≡ some (tt, with_pools s pools))
        × Same s.pools pools
        × Inv (suc k) (without_nodes live xs) pools
  unfolding clear_loop
  clear_loop_lem zero s c mine inv few = absurd (omega arith)
  clear_loop_lem (suc fuel) s nil mine inv few = (s.pools, refl, laws.same_refl s.pools, inv)
  clear_loop_lem (suc fuel) {live} s (cons {a} {x} {xs} ne is out c) mine inv few =
      let (s₁, e, same, inv₁) = laws.release k live a s.pools inv (mine a (rw ==_refl refl)) in
      let rest_mine : (b : Ptr) → has b xs ≡ true → without_block live a b ≡ true =
        λ b i. ground (arith, i, out, mine b, ==_ne (λ (z : a ≡ b). outside_ne xs out i z)) in
      let (s₂, e₂, same₂, inv₂) =
        clear_loop_lem fuel (with_pools s s₁) c rest_mine inv₁ (omega arith) in
      (
        s₂,
        rw (==_ne ne, load_node-some s a ne is, e) e₂,
        laws.same_trans s.pools s₁ s₂ same same₂,
        subst (λ b. Inv (suc k) b s₂) (without_first live a x xs) inv₂,
      )

  module _ {live : Blocks} {list : Ptr} {xs : Cells} {s : State P}
      (ready : Ready Inv (suc (suc k)) live list xs s) where
    -- `TbxListClear` gives every node back and leaves an empty list. It never faults, ends, and leaves
    -- all other blocks alone.
    clear_lem :
        Returns
          (λ _ s'.
            Ready Inv (suc (suc k)) (without_nodes live xs) list [] s'
            × Frame Same live list xs s s')
          (clear p list s)
    unfolding clear
    clear_lem =
        let h = ready.headed in
        let entered : State P = with_pools s (p.enter s.pools) in
        let inv = laws.enter (suc k) live s.pools ready.inv in
        let (pools, e, same, inv') =
          clear_loop_lem (length xs + 1) entered h.chain ready.nodes_live inv (omega arith) in
        let (inv'', same') =
          laws.leave (suc k) live (without_nodes live xs) s.pools pools ready.inv same inv' in
        rw
          (
            ==_ne h.nonnull,
            load_list-some entered list h.nonnull h.handle,
            e,
            store_list-some (with_pools entered pools) list h.nonnull (handle_of 0 null null),
          )
          (returns (
            record {
              headed = record { nonnull = h.nonnull; handle = rw ==_refl refl; chain = nil };
              handle_live = rw ready.handle_out ready.handle_live;
              nodes_live = λ a i. cc;
              handle_out = refl;
              inv = inv'';
            },
            record {
              nodes = λ a la away. refl;
              lists = λ a away. put_other s.list list (handle_of 0 null null) a away;
              same = same';
            },
          ))

module _ {P : Type 0} {p : Pools P} {size : ℕ} {Inv : ℕ → Blocks → P → Type 0}
    {Same : P → P → Type 0} {Full : P → Type 0} (laws : Laws p size Inv Same Full) {k : ℕ}
    {live : Blocks} {list : Ptr} {xs : Cells} {s : State P}
    (ready : Ready Inv (suc (suc (suc k))) live list xs s) where
  -- `TbxListDelete` gives back every node and the handle, and leaves all other blocks alone.
  delete_lem :
      Returns
        (λ _ s'.
          Inv (suc (suc (suc k))) (without_block (without_nodes live xs) list) s'.pools
          × Frame Same live list xs s s')
        (delete p list s)
  unfolding delete
  delete_lem =
      let inside =
        Ready-pools (p.enter s.pools) ready (laws.enter (suc (suc k)) live s.pools ready.inv) in
      rw (==_ne ready.headed.nonnull) (
        and_then (clear_lem laws inside) λ _ u (empty_ready, frame).
          let (s₁, e, same, inv) =
            laws.release (suc k) (without_nodes live xs) list u.pools empty_ready.inv
              empty_ready.handle_live in
          let (inv', same') =
            laws.leave (suc (suc k)) live _ s.pools s₁ ready.inv
              (laws.same_trans (p.enter s.pools) u.pools s₁ frame.same same) inv in
          rw e (returns (inv', record { nodes = frame.nodes; lists = frame.lists; same = same' })))

  -- In a state that holds a list, over pools that keep the Laws and with room for three more nested
  -- critical sections, `TbxListClear` gives every node back and leaves an empty list, and
  -- `TbxListDelete` gives back the handle as well. They never fault, end, and leave all other blocks
  -- alone.
  pub clear_delete_lem :
      Returns
        (λ _ s'.
          Ready Inv (suc (suc (suc k))) (without_nodes live xs) list [] s'
          × Frame Same live list xs s s')
        (clear p list s)
      × Returns
          (λ _ s'.
            Inv (suc (suc (suc k))) (without_block (without_nodes live xs) list) s'.pools
            × Frame Same live list xs s s')
          (delete p list s)
  clear_delete_lem = (clear_lem laws ready, delete_lem)
