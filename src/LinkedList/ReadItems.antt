-- ===== src/LinkedList/ReadItems.antt =====
-- The functions of source/tbx_list.c that read a list, against the sequence of items.
use microtbx.Base.{ℕ, suc, ◌≡◌, ◌≢◌, refl, sym, ap, subst, ◌∙◌, some, [], ◌∷◌, ◌++◌, length, ==_ne}
use microtbx.Target.{Ptr, null}
use microtbx.LinkedList.Store.{node_of, Pools, State}
use microtbx.LinkedList.Read.{
  item_of, get_size, get_first_item, get_last_item, get_previous_item, get_next_item,
}
use microtbx.LinkedList.Laws.{Blocks, Laws}
use microtbx.LinkedList.Chain.{Cells, items, items-append, first, last, Chain, nil, cons, uncons}
use microtbx.LinkedList.Sequence.{
  head_or, last_or, next_of, previous_of, next_of-append, previous_of-append, next_of-none,
  previous_of-none,
}
use microtbx.LinkedList.Find.{placed, missing, at, find_list_node_lem}
use microtbx.LinkedList.Link.{Headed}
use microtbx.LinkedList.Open.{Open, Open-at}
use microtbx.LinkedList.Returns.{Returns, returns, load_node-some, load_list-some}
use microtbx.LinkedList.Ready.{Ready, with_pools, visit, Headed-pools}

module _ {P : Type 0} (s : State P) where
  item_of-first :
      {prev : Ptr} {xs : Cells}
      → Chain s.node null prev xs
      → item_of (first xs null) s ≡ some (head_or null (items xs), s)
  unfolding item_of
  item_of-first nil = refl
  item_of-first (cons {a} ne is out c) = rw (==_ne ne, load_node-some s a ne is) refl

  item_of-at :
      {stop prev : Ptr} (a x : Ptr) (xs : Cells)
      → Chain s.node stop prev ((a, x) ∷ xs)
      → item_of (last a xs) s ≡ some (last_or x (items xs), s)
  unfolding item_of
  item_of-at a x [] chain =
      let (ne, is, _, _) = uncons chain in rw (==_ne ne, load_node-some s a ne is) refl
  item_of-at a x ((b, y) ∷ xs) chain = let (_, _, _, c) = uncons chain in item_of-at b y xs c

  item_of-last :
      {stop : Ptr} (xs : Cells)
      → Chain s.node stop null xs
      → item_of (last null xs) s ≡ some (last_or null (items xs), s)
  unfolding item_of
  item_of-last [] chain = refl
  item_of-last ((a, x) ∷ xs) chain = unfold item_of in item_of-at a x xs chain

module _ {P : Type 0} {p : Pools P} {size : ℕ} {Inv : ℕ → Blocks → P → Type 0}
    {Same : P → P → Type 0} {Full : P → Type 0} (laws : Laws p size Inv Same Full) {k : ℕ}
    {live : Blocks} {list : Ptr} {xs : Cells} {s : State P}
    (ready : Ready Inv (suc (suc k)) live list xs s) where
  -- The value was read, and nothing has changed but the state of the pools.
  abbrev pub Seen : {A : Type 0} → A → A → State P → Type 0
  Seen value r s' =
      (r ≡ value)
      × (pools : P) × (s' ≡ with_pools s pools)
      × Same s.pools pools
      × Inv (suc (suc k)) live pools

  abbrev entered : State P
  entered = with_pools s (p.enter s.pools)

  entered-Headed : Headed list xs (length xs) entered
  entered-Headed = Headed-pools (p.enter s.pools) ready.headed

  -- `TbxListGetSize`, `TbxListGetFirstItem` and `TbxListGetLastItem` return the number of items, the
  -- first and the last of them, NULL where there is none, and change nothing.
  ends_lem :
      Returns (Seen (length xs)) (get_size p list s)
      × Returns (Seen (head_or null (items xs))) (get_first_item p list s)
      × Returns (Seen (last_or null (items xs))) (get_last_item p list s)
  unfolding get_size get_first_item get_last_item
  ends_lem =
      let (inv, same) = visit s.pools laws ready.inv in
      let h = ready.headed in
      let loaded = load_list-some entered list h.nonnull h.handle in
      (
        rw (==_ne h.nonnull, loaded) (returns (refl, _, refl, same, inv)),
        rw (==_ne h.nonnull, loaded, item_of-first entered h.chain)
            (returns (refl, _, refl, same, inv)),
        rw (==_ne h.nonnull, loaded, item_of-last entered xs h.chain)
            (returns (refl, _, refl, same, inv)),
      )

  -- The pools after the search inside a section.
  nested :
      Inv (suc (suc k)) live (p.leave (p.leave (p.enter (p.enter s.pools))))
      × Same s.pools (p.leave (p.leave (p.enter (p.enter s.pools))))
  nested =
      let inv = laws.enter (suc k) live s.pools ready.inv in
      let (inv', same) = visit (p.enter s.pools) laws inv in
      laws.leave (suc k) live live s.pools _ ready.inv same inv'

  module _ (ref : Ptr) (ref_ne : ref ≢ null) where
    abbrev searched : State P
    searched = with_pools s (p.leave (p.enter (p.enter s.pools)))

    opened :
        (left : Cells) (q : Ptr) (right : Cells)
        → xs ≡ left ++ (q, ref) ∷ right
        → Open s.node left q q (node_of ref (last null left) (first right null)) q right
    opened left q right is =
        Open-at left q ref right (subst (λ ys. Chain s.node null null ys) is ready.headed.chain)

    next_lem : Returns (Seen (next_of ref (items xs))) (get_next_item p list ref s)
    unfolding get_next_item
    next_lem =
        let (inv, same) = nested in
        rw
          (
            ==_ne ready.headed.nonnull,
            ==_ne ref_ne,
            find_list_node_lem entered ref p list xs ref_ne entered-Headed,
          )
          (elim (placed ref xs) [
            | missing e out ↦
                rw e (returns (sym (next_of-none ref (items xs) out), _, refl, same, inv))
            | at left q right is e out ↦
                let o = opened left q right is in
                let shape = ap items is ∙ items-append left ((q, ref) ∷ right) in
                let value =
                  sym
                    (ap (next_of ref) shape ∙ next_of-append ref (items right) (items left) out) in
                rw
                  (
                    e,
                    ==_ne o.nonnull,
                    load_node-some searched q o.nonnull o.here,
                    item_of-first searched o.behind,
                  )
                  (returns (value, _, refl, same, inv))
          ])

    previous_lem : Returns (Seen (previous_of ref null (items xs))) (get_previous_item p list ref s)
    unfolding get_previous_item
    previous_lem =
        let (inv, same) = nested in
        rw
          (
            ==_ne ready.headed.nonnull,
            ==_ne ref_ne,
            find_list_node_lem entered ref p list xs ref_ne entered-Headed,
          )
          (elim (placed ref xs) [
            | missing e out ↦
                rw e (returns (sym (previous_of-none ref null (items xs) out), _, refl, same, inv))
            | at left q right is e out ↦
                let o = opened left q right is in
                let shape = ap items is ∙ items-append left ((q, ref) ∷ right) in
                let value = sym (
                  ap (previous_of ref null) shape
                  ∙ previous_of-append ref (items right) null (items left) out) in
                rw
                  (
                    e,
                    ==_ne o.nonnull,
                    load_node-some searched q o.nonnull o.here,
                    item_of-last searched left o.before,
                  )
                  (returns (value, _, refl, same, inv))
          ])

  -- In a state that holds a list, over pools that keep the Laws and with room for two more nested
  -- critical sections, for a reference item that is not NULL: `TbxListGetSize`, `TbxListGetFirstItem`
  -- and `TbxListGetLastItem` return the number of items, the first and the last of them,
  -- `TbxListGetNextItem` and `TbxListGetPreviousItem` the items behind and in front of the first one
  -- that is the reference item, NULL where there is none. They never fault, end, and change nothing.
  pub reads_lem :
      (ref : Ptr)
      → ref ≢ null
      → Returns (Seen (length xs)) (get_size p list s)
        × Returns (Seen (head_or null (items xs))) (get_first_item p list s)
        × Returns (Seen (last_or null (items xs))) (get_last_item p list s)
        × Returns (Seen (next_of ref (items xs))) (get_next_item p list ref s)
        × Returns (Seen (previous_of ref null (items xs))) (get_previous_item p list ref s)
  reads_lem ref ref_ne =
      let (size, first_item, last_item) = ends_lem in
      (size, first_item, last_item, next_lem ref ref_ne, previous_lem ref ref_ne)
