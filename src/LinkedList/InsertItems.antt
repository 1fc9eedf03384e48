-- ===== src/LinkedList/InsertItems.antt =====
-- `TbxListInsertItemFront`, `-Back`, `-Before` and `-After` of source/tbx_list.c against the sequence
-- of items.
use microtbx.Base.{
  ℕ, suc, ◌+◌, ◌<◌, ◌≡◌, ◌≢◌, ◌⊎◌, inl, inr, refl, sym, ap, subst, ◌∙◌, Bool, false, List, [], ◌∷◌,
  ◌++◌, length, ==_ne,
}
use mathlib.Core.List.{append-nil, append_assoc}
use microtbx.Target.{Target, Ptr, null, size_mod}
use microtbx.LinkedList.Store.{Pools, State, Cmd, sizeof_list_node}
use microtbx.LinkedList.Insert.{
  insert_with, insert_item_front, insert_item_back, insert_item_before, insert_item_after,
  link_front, link_back, link_before, link_after,
}
use microtbx.LinkedList.Laws.{Blocks, Laws}
use microtbx.LinkedList.Chain.{Cells, Chain, items, items-append}
use microtbx.LinkedList.Sequence.{
  contains, insert_before, insert_after, insert_before-append, insert_after-append,
}
use microtbx.LinkedList.Find.{placed, missing, at, find_list_node_lem}
use microtbx.LinkedList.Link.{Headed, Beside, Linked}
use microtbx.LinkedList.LinkEnds.{link_front-Linked, link_back-Linked}
use microtbx.LinkedList.LinkMiddle.{link_before-Linked, link_after-Linked}
use microtbx.LinkedList.Open.{Open-at}
use microtbx.LinkedList.Returns.{Returns, returns, weaken}
use microtbx.LinkedList.Ready.{
  Ready, Frame, with_pools, visit, Ready-pools, Frame-pools, Frame-after,
}
use microtbx.LinkedList.Insertions.{Inserted, insert_with-Inserted}

module _ {P : Type 0} {p : Pools P} (t : Target) {Inv : ℕ → Blocks → P → Type 0}
    {Same : P → P → Type 0} {Full : P → Type 0} (laws : Laws p (sizeof_list_node t) Inv Same Full)
    {k : ℕ} {live : Blocks} {list : Ptr} {xs : Cells} {s : State P} (item : Ptr)
    (ready : Ready Inv (suc (suc k)) live list xs s) (room : length xs + 1 < size_mod t)
    (item_ne : item ≢ null) where
  abbrev pub Post : List Ptr → Bool → State P → Type 0
  Post result ok s' =
      Inserted Inv Full (suc (suc k)) live list item xs result ok s' × Frame Same live list xs s s'

  -- `TbxListInsertItemFront` puts a new block with the item in front, or finds no memory for one and
  -- returns TBX_ERROR with the list as it was. It never faults, and leaves all other blocks alone.
  insert_item_front-Inserted : Returns (Post (item ∷ items xs)) (insert_item_front p t list item s)
  unfolding insert_item_front
  insert_item_front-Inserted =
      rw (==_ne ready.headed.nonnull, ==_ne item_ne)
        (insert_with-Inserted t laws [] xs item ready room (item ∷ items xs) (link_front list)
          (λ _. refl) (λ u q. link_front-Linked u list q item (length xs) xs))

  back :
      Returns
        (λ ok s'.
          Inserted Inv Full (suc (suc k)) live list item (xs ++ []) (items xs ++ item ∷ []) ok s'
          × Frame Same live list (xs ++ []) s s')
        (insert_item_back p t list item s)
  unfolding insert_item_back
  back =
      let e : xs ≡ xs ++ [] = sym (append-nil xs) in
      rw (==_ne ready.headed.nonnull, ==_ne item_ne)
        (insert_with-Inserted t laws xs [] item
          (subst (λ ys. Ready Inv (suc (suc k)) live list ys s) e ready)
          (subst (λ ys. length ys + 1 < size_mod t) e room) (items xs ++ item ∷ []) (link_back list)
          (λ q. items-append xs ((q, item) ∷ []))
          (λ u q h.
            link_back-Linked u list q item (length (xs ++ [])) xs
              (subst (λ ys. Headed list ys (length (xs ++ [])) u) (sym e) h)))

  -- `TbxListInsertItemBack` puts a new block with the item behind all others, under the same
  -- conditions.
  insert_item_back-Inserted :
      Returns (Post (items xs ++ item ∷ [])) (insert_item_back p t list item s)
  insert_item_back-Inserted =
      subst
        (λ ys.
          Returns
            (λ ok s'.
              Inserted Inv Full (suc (suc k)) live list item ys (items xs ++ item ∷ []) ok s'
              × Frame Same live list ys s s')
            (insert_item_back p t list item s))
        (append-nil xs) back

  -- The reference item was looked for.
  abbrev searched : State P
  searched = with_pools s (p.leave (p.enter s.pools))

  searched-Ready : Ready Inv (suc (suc k)) live list xs searched
  searched-Ready = Ready-pools (p.leave (p.enter s.pools)) ready (visit s.pools laws ready.inv).0

  -- How an insertion at a reference item ends: no item is that one, and the list is as it was; or as
  -- above.
  abbrev pub PostAt : Ptr → List Ptr → Bool → State P → Type 0
  PostAt ref result ok s' =
      ((ok ≡ false)
        × (contains ref (items xs) ≡ false)
        × Ready Inv (suc (suc k)) live list xs s'
        × Frame Same live list xs s s')
      ⊎ Post result ok s'

  -- The insertion after the search, between `left` and `right`.
  insert_found :
      (ref : Ptr) (result : List Ptr) (left right : Cells) (link : Ptr → Cmd P (Unit {0}))
      → xs ≡ left ++ right
      → ((n : Ptr) → items (left ++ (n, item) ∷ right) ≡ result)
      → ((u : State P) (n : Ptr)
          → Headed list (left ++ right) (length (left ++ right)) u
          → Beside left n item right u
          → Returns (Linked list (left ++ (n, item) ∷ right) (length (left ++ right)) u) (link n u))
      → Returns (PostAt ref result) (insert_with p t list item link searched)
  insert_found ref result left right link is spec links =
      let now = subst (λ ys. Ready Inv (suc (suc k)) live list ys searched) is searched-Ready in
      let few = subst (λ ys. length ys + 1 < size_mod t) is room in
      weaken (insert_with-Inserted t laws left right item now few result link spec links)
        λ ok s' (ins, frame). inr (
          subst (λ ys. Inserted Inv Full (suc (suc k)) live list item ys result ok s') (sym is) ins,
          Frame-after laws (visit s.pools laws ready.inv).1
              (subst (λ ys. Frame Same live list ys searched s') (sym is) frame),
        )

  absent :
      (ref : Ptr) (result : List Ptr)
      → contains ref (items xs) ≡ false
      → PostAt ref result false searched
  absent ref result out =
      inl (refl, out, searched-Ready, Frame-pools _ (visit s.pools laws ready.inv).1)

  -- `TbxListInsertItemBefore` puts a new block with the item in front of the first one with the
  -- reference item, or finds no such item or no memory and returns TBX_ERROR with the list as it was.
  insert_item_before-Inserted :
      (ref : Ptr)
      → ref ≢ null
      → Returns
          (PostAt ref (insert_before item ref (items xs)))
          (insert_item_before p t list item ref s)
  unfolding insert_item_before
  insert_item_before-Inserted ref ref_ne =
      rw
        (
          ==_ne ready.headed.nonnull,
          ==_ne item_ne,
          ==_ne ref_ne,
          find_list_node_lem s ref p list xs ref_ne ready.headed,
        )
        (elim (placed ref xs) [
          | missing e out ↦ rw e (returns (absent ref _ out))
          | at left q right is e out ↦
              let o =
                Open-at left q ref right
                  (subst (λ ys. Chain s.node null null ys) is ready.headed.chain) in
              rw (e, ==_ne o.nonnull)
                (insert_found ref (insert_before item ref (items xs)) left ((q, ref) ∷ right)
                  (link_before list q) is
                  (λ n.
                    items-append left ((n, item) ∷ (q, ref) ∷ right)
                    ∙ sym (
                        ap (insert_before item ref)
                          (ap items is ∙ items-append left ((q, ref) ∷ right))
                        ∙ insert_before-append ref (items right) item (items left) out))
                  (λ u n.
                    link_before-Linked u list n item (length (left ++ (q, ref) ∷ right)) left q ref
                      right))
        ])

  -- `TbxListInsertItemAfter` puts it behind the first one with the reference item, in the same way.
  insert_item_after-Inserted :
      (ref : Ptr)
      → ref ≢ null
      → Returns
          (PostAt ref (insert_after item ref (items xs)))
          (insert_item_after p t list item ref s)
  unfolding insert_item_after
  insert_item_after-Inserted ref ref_ne =
      rw
        (
          ==_ne ready.headed.nonnull,
          ==_ne item_ne,
          ==_ne ref_ne,
          find_list_node_lem s ref p list xs ref_ne ready.headed,
        )
        (elim (placed ref xs) [
          | missing e out ↦ rw e (returns (absent ref _ out))
          | at left q right is e out ↦
              let o =
                Open-at left q ref right
                  (subst (λ ys. Chain s.node null null ys) is ready.headed.chain) in
              let is' = is ∙ sym (append_assoc left ((q, ref) ∷ []) right) in
              rw (e, ==_ne o.nonnull)
                (insert_found ref (insert_after item ref (items xs)) (left ++ (q, ref) ∷ []) right
                  (link_after list q) is'
                  (λ n.
                    items-append (left ++ (q, ref) ∷ []) ((n, item) ∷ right)
                    ∙ ap (λ ys. ys ++ item ∷ items right) (items-append left ((q, ref) ∷ []))
                    ∙ sym (
                        ap (insert_after item ref)
                          (ap items is ∙ items-append left ((q, ref) ∷ right))
                        ∙ insert_after-append ref (items right) item (items left) out))
                  (λ u n.
                    link_after-Linked u list n item (length ((left ++ (q, ref) ∷ []) ++ right)) left
                      q ref right))
        ])

  -- In a state that holds a list not as long as `size_t` allows, over pools that keep the Laws and with
  -- room for two more nested critical sections, for an item that is not NULL: `TbxListInsertItemFront`
  -- puts a new block with the item in front and `TbxListInsertItemBack` puts one behind all others; or
  -- they find no memory for one and return TBX_ERROR with the list as it was. They never fault, end,
  -- and leave all other blocks alone.
  pub insert_ends-Inserted :
      Returns (Post (item ∷ items xs)) (insert_item_front p t list item s)
      × Returns (Post (items xs ++ item ∷ [])) (insert_item_back p t list item s)
  insert_ends-Inserted = (insert_item_front-Inserted, insert_item_back-Inserted)

  -- Under the same conditions, and for a reference item that is not NULL, `TbxListInsertItemBefore` and
  -- `TbxListInsertItemAfter` put a new block with the item in front of the first one with the reference
  -- item and behind it; or they find no such item, or no memory, and return TBX_ERROR with the list as
  -- it was. They never fault, end, and leave all other blocks alone.
  pub insert_at-Inserted :
      (ref : Ptr)
      → ref ≢ null
      → Returns
          (PostAt ref (insert_before item ref (items xs)))
          (insert_item_before p t list item ref s)
        × Returns
            (PostAt ref (insert_after item ref (items xs)))
            (insert_item_after p t list item ref s)
  insert_at-Inserted ref ref_ne =
      (insert_item_before-Inserted ref ref_ne, insert_item_after-Inserted ref ref_ne)
