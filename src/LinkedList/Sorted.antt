-- ===== src/LinkedList/Sorted.antt =====
-- `TbxListSortItems` of source/tbx_list.c against the sequence of items.
use microtbx.Base.{ℕ, suc, ◌+◌, ◌≡◌, refl, sym, ◌∙◌, arith, Bool, false, some, ◌∷◌, length, ==_ne}
use mathlib.Core.List.{Perm}
use microtbx.Target.{Ptr, null}
use microtbx.LinkedList.Store.{Pools, State}
use microtbx.LinkedList.Sort.{sort_items}
use microtbx.LinkedList.Laws.{Blocks, Laws}
use microtbx.LinkedList.Chain.{Cells, Nodes, items, has, Chain}
use microtbx.LinkedList.Exchange.{
  exchange, first-exchange, last-exchange, has-exchange, length-exchange, exchange-Perm, IsSorted,
  IsOrder, exchange-IsSorted,
}
use microtbx.LinkedList.SortItems.{sort_loop_lem}
use microtbx.LinkedList.Returns.{Returns, returns, weaken, load_list-some}
use microtbx.LinkedList.Ready.{Ready, Frame, with_pools, visit}

module _ {P : Type 0} {p : Pools P} {size : ℕ} {Inv : ℕ → Blocks → P → Type 0}
    {Same : P → P → Type 0} {Full : P → Type 0} (laws : Laws p size Inv Same Full) {k : ℕ}
    {live : Blocks} {list a x : Ptr} {xs : Cells} {s : State P}
    (ready : Ready Inv (suc k) live list ((a, x) ∷ xs) s) (compare_items : Ptr → Ptr → Bool) where
  abbrev all : Cells
  all = (a, x) ∷ xs

  abbrev fuel : ℕ
  fuel = length all + 1

  abbrev sorted : Cells
  sorted = exchange compare_items fuel all

  finish :
      (m' : Nodes)
      → Chain m' null null sorted
      → ((b : Ptr) → has b all ≡ false → m' b ≡ s.node b)
      → Ready Inv
          (suc k)
          live
          list
          sorted
          (record s { pools = p.leave (p.enter s.pools); node = m' })
        × Frame Same live list all s (record s { pools = p.leave (p.enter s.pools); node = m' })
  finish m' chain others =
      let (inv, same) = visit s.pools laws ready.inv in
      (
        record {
          headed = record {
            nonnull = ready.headed.nonnull;
            handle =
                rw
                  (
                    length-exchange compare_items fuel all,
                    first-exchange compare_items fuel null all,
                    last-exchange compare_items fuel null all,
                  )
                  ready.headed.handle;
            chain = chain;
          };
          handle_live = ready.handle_live;
          nodes_live = λ b i. ready.nodes_live b (sym (has-exchange compare_items fuel b all) ∙ i);
          handle_out = has-exchange compare_items fuel list all ∙ ready.handle_out;
          inv = inv;
        },
        record { nodes = λ b _ out. others b out; lists = λ _ _. refl; same = same },
      )

  sorts :
      Returns
        (λ _ s'. Ready Inv (suc k) live list sorted s' × Frame Same live list all s s')
        (sort_items p list (some compare_items) s)
  unfolding sort_items
  sorts =
      let entered : State P = with_pools s (p.enter s.pools) in
      let (m', e, chain, others) =
        sort_loop_lem compare_items fuel entered a x null xs ready.headed.chain (omega arith) in
      rw
        (
          ==_ne ready.headed.nonnull,
          load_list-some entered list ready.headed.nonnull ready.headed.handle,
          e,
        )
        (returns (finish m' chain others))

  -- In a state that holds a list that is not empty, over pools that keep the Laws and with room for one
  -- more nested critical section, and if the function says which of two items is greater in some
  -- order: `TbxListSortItems` never faults and ends, with the same items sorted, none greater than one
  -- behind it, and all other blocks as they were.
  pub sort_items-IsSorted :
      IsOrder compare_items
      → Returns
          (λ _ s'.
            (ys : Cells) × Ready Inv (suc k) live list ys s'
            × Perm (items ys) (items ((a, x) ∷ xs))
            × IsSorted compare_items (items ys)
            × Frame Same live list ((a, x) ∷ xs) s s')
          (sort_items p list (some compare_items) s)
  sort_items-IsSorted order = weaken sorts λ _ s' (r, f). (
    sorted,
    r,
    exchange-Perm compare_items fuel all,
    exchange-IsSorted compare_items order fuel all (omega arith),
    f,
  )
