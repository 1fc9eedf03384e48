-- ===== src/LinkedList/SwapItems.antt =====
-- `TbxListSwapItems` of source/tbx_list.c against the sequence of items.
use microtbx.Base.{
  ℕ, suc, ◌≡◌, ◌≢◌, refl, sym, ap, subst, ◌∙◌, arith, true, false, some, length, ◌==◌, ==_ne,
  ==_iff, inl, inr, ◌⊎◌, Bool-cases,
}
use microtbx.Target.{Ptr, null}
use microtbx.LinkedList.Store.{Pools, State, node_of, put, ◌>>◌}
use microtbx.LinkedList.Sort.{set_item, swap_items}
use microtbx.LinkedList.Laws.{Blocks, Laws}
use microtbx.LinkedList.Chain.{items, Cells, Nodes, has, first, last, Chain, put_other, outside_ne}
use microtbx.LinkedList.Find.{node_with, find_list_node_lem}
use microtbx.LinkedList.Sequence.{contains, swap_first}
use microtbx.LinkedList.SwapCells.{
  set_at, swapped, first-set_at, last-set_at, has-set_at, length-set_at, Chain-node, Chain-set_at,
  found-has, items-swapped, node_with-none, node_with-found,
}
use microtbx.LinkedList.SortItems.{set_item_lem}
use microtbx.LinkedList.Link.{Headed}
use microtbx.LinkedList.Returns.{Returns, returns, with_nodes}
use microtbx.LinkedList.Ready.{Ready, Frame, with_pools, visit, Headed-pools}

module _ {P : Type 0} {p : Pools P} {size : ℕ} {Inv : ℕ → Blocks → P → Type 0}
    {Same : P → P → Type 0} {Full : P → Type 0} (laws : Laws p size Inv Same Full) {k : ℕ}
    {live : Blocks} {list : Ptr} {xs : Cells} {s : State P}
    (ready : Ready Inv (suc (suc k)) live list xs s) (item₁ item₂ : Ptr) (ne₁ : item₁ ≢ null)
    (ne₂ : item₂ ≢ null) where
  -- The pools after both searches in the section.
  abbrev inner : P
  inner = p.leave (p.enter (p.leave (p.enter (p.enter s.pools))))

  inner-Same : Inv (suc k) live inner × Same (p.enter s.pools) inner
  inner-Same =
      let inv = laws.enter (suc k) live s.pools ready.inv in
      let (inv₁, same₁) = visit (p.enter s.pools) laws inv in
      let (inv₂, same₂) = visit (p.leave (p.enter (p.enter s.pools))) laws inv₁ in
      (inv₂, laws.same_trans (p.enter s.pools) _ inner same₁ same₂)

  outer : Inv (suc (suc k)) live (p.leave inner) × Same s.pools (p.leave inner)
  outer =
      let (inv, same) = inner-Same in laws.leave (suc k) live live s.pools inner ready.inv same inv

  -- The list with the nodes `m`, which are a chain of the same addresses.
  kept :
      (m : Nodes) (ys : Cells)
      → Chain m null null ys
      → length ys ≡ length xs
      → first ys null ≡ first xs null
      → last null ys ≡ last null xs
      → ((b : Ptr) → has b ys ≡ has b xs)
      → ((b : Ptr) → has b xs ≡ false → m b ≡ s.node b)
      → Ready Inv (suc (suc k)) live list ys (record s { pools = p.leave inner; node = m })
        × Frame Same live list xs s (record s { pools = p.leave inner; node = m })
  kept m ys chain len front back same others = (
    record {
      headed = record {
        nonnull = ready.headed.nonnull;
        handle = rw (len, front, back) ready.headed.handle;
        chain = chain;
      };
      handle_live = ready.handle_live;
      nodes_live = λ b i. ready.nodes_live b (sym (same b) ∙ i);
      handle_out = same list ∙ ready.handle_out;
      inv = outer.0;
    },
    record { nodes = λ b _ out. others b out; lists = λ _ _. refl; same = outer.1 },
  )

  abbrev Post : Unit {0} → State P → Type 0
  Post _ s' =
      (((contains item₁ (items xs) ≡ false) ⊎ (contains item₂ (items xs) ≡ false))
        × Ready Inv (suc (suc k)) live list xs s'
        × Frame Same live list xs s s')
      ⊎ ((ys : Cells) × (contains item₁ (items xs) ≡ true)
          × (contains item₂ (items xs) ≡ true)
          × (items ys ≡ swap_first item₁ item₂ (items xs))
          × Ready Inv (suc (suc k)) live list ys s'
          × Frame Same live list xs s s')

  abbrev node₁ : Ptr
  node₁ = node_with item₁ xs

  abbrev node₂ : Ptr
  node₂ = node_with item₂ xs

  unchanged :
      (contains item₁ (items xs) ≡ false) ⊎ (contains item₂ (items xs) ≡ false)
      → Post tt (record s { pools = p.leave inner; node = s.node })
  unchanged none_of =
      let (r, f) = kept s.node xs ready.headed.chain refl refl refl (λ b. refl) (λ b out. refl) in
      inl (none_of, r, f)

  -- Both writes.
  writes :
      (u : State P)
      → u.node ≡ s.node
      → node₁ ≢ null
      → node₂ ≢ null
      → (m : Nodes) × ((set_item node₁ item₂ >> set_item node₂ item₁) u ≡ some (tt, with_nodes u m))
        × Chain m null null (swapped item₁ item₂ xs)
        × ((b : Ptr) → has b xs ≡ false → m b ≡ s.node b)
  writes u same there₁ there₂ =
      let in₁ = found-has item₁ xs there₁ in
      let in₂ = found-has item₂ xs there₂ in
      let c : Chain u.node null null xs =
        subst (λ m. Chain m null null xs) (sym same) ready.headed.chain in
      let (_, x, before, next, is) = Chain-node node₁ xs c in₁ in
      let m₁ : Nodes = put u.node node₁ (node_of item₂ before next) in
      let c₁ = Chain-set_at node₁ item₂ xs c is in
      let ys : Cells = set_at node₁ item₂ xs in
      let (_, y, before₂, next₂, is₂) =
        Chain-node node₂ ys c₁ (has-set_at node₂ node₁ item₂ xs ∙ in₂) in
      (
        put m₁ node₂ (node_of item₁ before₂ next₂),
        rw
            (
              set_item_lem u node₁ item₂ there₁ is,
              set_item_lem (with_nodes u m₁) node₂ item₁ there₂ is₂,
            )
            refl,
        Chain-set_at node₂ item₁ ys c₁ is₂,
        λ b out.
            put_other m₁ node₂ _ b (outside_ne xs out in₂)
            ∙ put_other u.node node₁ _ b (outside_ne xs out in₁)
            ∙ ap (λ m. m b) same,
      )

  changed :
      node₁ ≢ null
      → node₂ ≢ null
      → (m : Nodes) → Chain m null null (swapped item₁ item₂ xs)
      → ((b : Ptr) → has b xs ≡ false → m b ≡ s.node b)
      → Post tt (record s { pools = p.leave inner; node = m })
  changed there₁ there₂ m chain others =
      let ys : Cells = set_at node₁ item₂ xs in
      let (r, f) =
        kept m (swapped item₁ item₂ xs) chain
          (length-set_at node₂ item₁ ys ∙ length-set_at node₁ item₂ xs)
          (first-set_at node₂ item₁ ys null ∙ first-set_at node₁ item₂ xs null)
          (last-set_at node₂ item₁ null ys ∙ last-set_at node₁ item₂ null xs)
          (λ b. has-set_at b node₂ item₁ ys ∙ has-set_at b node₁ item₂ xs) others in
      inr (
        swapped item₁ item₂ xs,
        node_with-found item₁ xs there₁,
        node_with-found item₂ xs there₂,
        items-swapped item₁ item₂ xs ready.headed.chain,
        r,
        f,
      )

  -- In a state that holds a list, over pools that keep the Laws and with room for two more nested
  -- critical sections, for two items that are not NULL: if both are in the list, `TbxListSwapItems`
  -- exchanges them where each stands first; if one of them is not there, the list stays as it is. It
  -- never faults, ends, and leaves all other blocks alone.
  pub swap_items_lem : Returns Post (swap_items p list item₁ item₂ s)
  unfolding swap_items
  swap_items_lem =
      let gone : (item : Ptr) → node_with item xs ≡ null → contains item (items xs) ≡ false =
        λ item z. node_with-none item xs ready.headed.chain z in
      let entered : State P = with_pools s (p.enter s.pools) in
      let once : State P = with_pools s (p.leave (p.enter (p.enter s.pools))) in
      let h : Headed list xs (length xs) entered = Headed-pools (p.enter s.pools) ready.headed in
      let h' : Headed list xs (length xs) once = Headed-pools once.pools ready.headed in
      rw
        (
          ==_ne ready.headed.nonnull,
          ==_ne ne₁,
          ==_ne ne₂,
          find_list_node_lem entered item₁ p list xs ne₁ h,
          find_list_node_lem once item₂ p list xs ne₂ h',
        )
        (elim (Bool-cases (node₁ == null)) [
          | inl z₁ ↦ rw z₁ (returns (unchanged (inl (gone item₁ ((==_iff node₁ null).0 z₁)))))
          | inr nz₁ ↦ elim (Bool-cases (node₂ == null)) [
            | inl z₂ ↦
                rw (nz₁, z₂) (returns (unchanged (inr (gone item₂ ((==_iff node₂ null).0 z₂)))))
            | inr nz₂ ↦
                let there₁ : node₁ ≢ null = λ z. ground (arith, z, nz₁) in
                let there₂ : node₂ ≢ null = λ z. ground (arith, z, nz₂) in
                let (m, e, chain, others) = writes (with_pools s inner) refl there₁ there₂ in
                rw (nz₁, nz₂, e) (returns (changed there₁ there₂ m chain others))
          ]
        ])
