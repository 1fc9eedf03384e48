-- ===== src/LinkedList/RemoveItems.antt =====
-- `TbxListRemoveItem` of source/tbx_list.c against the sequence of items.
use microtbx.Base.{
  ℕ, suc, ◌+◌, ◌-◌, ◌%◌, ◌<◌, ◌≡◌, ◌≢◌, sym, ap, subst, ◌∙◌, arith, true, false, ◌∷◌, ◌++◌, length,
  length-append, ==_refl, ==_ne,
}
use microtbx.Target.{Target, Ptr, null, size_mod}
use microtbx.LinkedList.Store.{
  Pools, State, node_of, handle_of, put, Cmd, ◌>>◌, enter_section, leave_section, release_block,
}
use microtbx.LinkedList.Remove.{unlink, decrement, remove_item}
use microtbx.LinkedList.Laws.{Blocks, without_block, Laws}
use microtbx.LinkedList.Chain.{
  Cells, Chain, outside_ne, items, items-append, has, has-append, first, last, put_other,
}
use microtbx.LinkedList.Sequence.{contains, erase, erase-append}
use microtbx.LinkedList.Find.{placed, missing, at, find_list_node_lem}
use microtbx.LinkedList.Link.{Headed}
use microtbx.LinkedList.Unlink.{Unlinked, unlink_lem}
use microtbx.LinkedList.Open.{Open, Open-at}
use microtbx.LinkedList.Returns.{Returns, returns, and_then, load_list-some, store_list-some}
use microtbx.LinkedList.Ready.{
  Ready, Frame, with_pools, visit, Headed-pools, Ready-pools, Frame-pools,
}
use microtbx.LinkedList.Insertions.{Headed-count}

-- How a removal ends: no item was that one; or the first node with it is gone and is a block that the
-- pools have back.
pub data Removed {P : Type 0} (Inv : ℕ → Blocks → P → Type 0) (k : ℕ) (live : Blocks)
    (list item : Ptr) (xs : Cells) (s' : State P) : Type 0 where
  absent :
      contains item (items xs) ≡ false
      → Ready Inv k live list xs s'
      → Removed Inv k live list item xs s'
  removed :
      (left : Cells) (q : Ptr) (right : Cells)
      → xs ≡ left ++ (q, item) ∷ right
      → items (left ++ right) ≡ erase item (items xs)
      → Ready Inv k (without_block live q) list (left ++ right) s'
      → Removed Inv k live list item xs s'

-- `nodeCount--` where there is a node.
decrement_lem :
    (t : Target) (n : ℕ) → suc n < size_mod t → (suc n + size_mod t - 1) % size_mod t ≡ n
decrement_lem Target.avr n h = omega arith
decrement_lem Target.cortexm n h = omega arith
decrement_lem Target.linux n h = omega arith

module _ {P : Type 0} {p : Pools P} (t : Target) {size : ℕ} {Inv : ℕ → Blocks → P → Type 0}
    {Same : P → P → Type 0} {Full : P → Type 0} (laws : Laws p size Inv Same Full) {k : ℕ}
    {live : Blocks} {list : Ptr} {xs : Cells} {s : State P} (item : Ptr)
    (ready : Ready Inv (suc (suc k)) live list xs s) (room : length xs < size_mod t)
    (item_ne : item ≢ null) where
  abbrev pub Post : Unit {0} → State P → Type 0
  Post _ s' = Removed Inv (suc (suc k)) live list item xs s' × Frame Same live list xs s s'

  abbrev searched : State P
  searched = with_pools s (p.leave (p.enter s.pools))

  abbrev taking : Ptr → Cmd P (Unit {0})
  taking q = do
    enter_section p
    unlink list q
    decrement p t list
    leave_section p
    release_block p q

  -- The node `q` was found, and is taken out.
  module _ (left : Cells) (q : Ptr) (right : Cells) (is : xs ≡ left ++ (q, item) ∷ right)
      (out : contains item (items left) ≡ false) where
    abbrev entered : State P
    entered = with_pools searched (p.enter searched.pools)

    entered-Headed : Headed list (left ++ (q, item) ∷ right) (length xs) entered
    entered-Headed =
        subst (λ ys. Headed list ys (length xs) entered) is
          (Headed-pools (p.enter searched.pools)
            (Headed-pools (p.leave (p.enter s.pools)) ready.headed))

    count_lem : (length xs + size_mod t - 1) % size_mod t ≡ length (left ++ right)
    count_lem =
        let n : length xs ≡ suc (length (left ++ right)) =
          omega (
            arith,
            ap length is,
            length-append left ((q, item) ∷ right),
            length-append left right,
          ) in
        rw n (decrement_lem t (length (left ++ right)) (omega (arith, n)))

    q_in : has q xs ≡ true
    q_in = ap (has q) is ∙ has-append q left ((q, item) ∷ right) ∙ ground (arith, ==_refl q)

    opened : Open s.node left q q (node_of item (last null left) (first right null)) q right
    opened =
        Open-at left q item right (subst (λ ys. Chain s.node null null ys) is ready.headed.chain)

    rest_ne : (a : Ptr) → has a (left ++ right) ≡ true → a ≢ q
    rest_ne a i same =
        let gone : has q (left ++ right) ≡ false =
          ground (arith, has-append q left right, opened.out_left, opened.out_right) in
        cc (gone, ap (λ b. has b (left ++ right)) same, i)

    rest_in : (a : Ptr) → has a (left ++ right) ≡ true → has a xs ≡ true
    rest_in a i =
        ap (has a) is
        ∙ has-append a left ((q, item) ∷ right)
        ∙ ground (arith, i, has-append a left right)

    -- After the links and the count, with the block given back.
    finish :
        (u : State P) (pools : P)
        → Unlinked list q item left right
            (length xs)
            (with_pools searched (p.enter searched.pools))
            tt
            u
        → Same (p.leave u.pools) pools
        → Inv (suc (suc k)) (without_block live q) pools
        → Post tt (record u {
          pools = pools;
          list = put u.list list (
              handle_of
                (length (left ++ right))
                (first (left ++ right) null)
                (last null (left ++ right)));
        })
    finish u pools (headed, local) same inv =
        let (_, same₁) = visit s.pools laws ready.inv in
        let (_, same₂) = visit searched.pools laws (visit s.pools laws ready.inv).0 in
        let at₂ : p.leave (p.enter searched.pools) ≡ p.leave u.pools =
          sym (ap p.leave local.pools) in
        let same₃ = laws.same_trans s.pools searched.pools _ same₁ same₂ in
        (
          removed left q right is
              (items-append left right
                ∙ sym (
                    ap (erase item) (ap items is ∙ items-append left ((q, item) ∷ right))
                    ∙ erase-append item (items right) (items left) out))
              (record {
                headed = Headed-pools pools (Headed-count (length (left ++ right)) headed);
                handle_live = rw (==_ne (outside_ne xs ready.handle_out q_in)) ready.handle_live;
                nodes_live = λ a i. rw (==_ne (rest_ne a i)) (ready.nodes_live a (rest_in a i));
                handle_out = ground (
                  arith,
                  ready.handle_out,
                  ap (has list) is,
                  has-append list left ((q, item) ∷ right),
                  has-append list left right,
                );
                inv = inv;
              }),
          record {
            nodes = λ a la away. local.nodes a (sym (ap (has a) is) ∙ away);
            lists = λ a away. put_other u.list list _ a away ∙ local.lists a away;
            same = laws.same_trans s.pools _ pools (subst (λ v. Same s.pools v) at₂ same₃) same;
          },
        )

    removal : Returns Post (taking q searched)
    removal =
        and_then (unlink_lem entered list q item (length xs) left right entered-Headed)
          λ _ u (headed, local).
            let at : p.leave (p.enter searched.pools) ≡ p.leave u.pools =
              sym (ap p.leave local.pools) in
            let inv =
              subst (λ v. Inv (suc (suc k)) live v) at
                (visit searched.pools laws (visit s.pools laws ready.inv).0).0 in
            let (pools, e, same, inv') =
              laws.release (suc k) live q (p.leave u.pools) inv (ready.nodes_live q q_in) in
            rw
              (
                load_list-some u list headed.nonnull headed.handle,
                count_lem,
                store_list-some u list headed.nonnull (
                    handle_of (length (left ++ right)) (first (left ++ right) null)
                      (last null (left ++ right))),
                e,
              )
              (returns (finish u pools (headed, local) same inv'))

  -- In a state that holds a list whose length fits into `size_t`, over pools that keep the Laws and with
  -- room for two more nested critical sections, for an item that is not NULL: `TbxListRemoveItem` takes
  -- the first node with the item out and gives its block back; where no node has it, the list stays as
  -- it is. It never faults, ends, and leaves all other blocks alone.
  pub remove_item-Removed : Returns Post (remove_item p t list item s)
  unfolding remove_item
  remove_item-Removed =
      rw
        (
          ==_ne ready.headed.nonnull,
          ==_ne item_ne,
          find_list_node_lem s item p list xs item_ne ready.headed,
        )
        (elim (placed item xs) [
          | missing e out ↦
              let (inv, same) = visit s.pools laws ready.inv in
              rw e (returns (absent out (Ready-pools _ ready inv), Frame-pools _ same))
          | at left q right is e out ↦
              rw (e, ==_ne (opened left q right is out).nonnull) (removal left q right is out)
        ])
