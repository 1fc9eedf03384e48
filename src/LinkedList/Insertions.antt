-- ===== src/LinkedList/Insertions.antt =====
-- What the four insertions of source/tbx_list.c share, from the allocation of the node to the count.
use microtbx.Base.{
  ℕ, suc, ◌+◌, ◌%◌, ◌<◌, ◌≡◌, ◌≢◌, refl, ap, ◌∙◌, arith, Bool, true, false, List, ◌∷◌, ◌++◌, length,
  length-append, ==_refl, ==_ne, Bool-cases, inl, inr,
}
use microtbx.Target.{Target, Ptr, null, size_mod}
use microtbx.Heap.Bounds.{size_add_lem}
use microtbx.LinkedList.Store.{Pools, State, Cmd, sizeof_list_node, node_of, handle_of, put}
use microtbx.LinkedList.Insert.{insert_with}
use microtbx.LinkedList.Laws.{Blocks, with_block, Laws}
use microtbx.LinkedList.Chain.{Cells, items, has, has-append, first, last, put_other, Chain-put}
use microtbx.LinkedList.Link.{Headed, Beside, Linked}
use microtbx.LinkedList.Open.{Open-fresh}
use microtbx.LinkedList.Returns.{
  Returns, returns, and_then, with_lists, load_list-some, store_list-some, store_node-some,
}
use microtbx.LinkedList.Ready.{
  Ready, Frame, with_pools, visit, Headed-pools, Ready-pools, Frame-pools,
}
use microtbx.LinkedList.Attempt.{exhausted, granted, allocate_twice-Attempt}

-- How an insertion ends: there is no memory for a node, and the list is as it was; or the list holds
-- the items `result`, with one more node, a new block.
pub data Inserted {P : Type 0} (Inv : ℕ → Blocks → P → Type 0) (Full : P → Type 0) (k : ℕ)
    (live : Blocks) (list item : Ptr) (xs : Cells) (result : List Ptr) (ok : Bool) (s' : State P)
    : Type 0 where
  refused :
      ok ≡ false
      → Full s'.pools
      → Ready Inv k live list xs s'
      → Inserted Inv Full k live list item xs result ok s'
  done :
      (left : Cells) (q : Ptr) (right : Cells)
      → ok ≡ true
      → live q ≡ false
      → xs ≡ left ++ right
      → items (left ++ (q, item) ∷ right) ≡ result
      → Ready Inv k (with_block live q) list (left ++ (q, item) ∷ right) s'
      → Inserted Inv Full k live list item xs result ok s'

-- The handle with another count.
pub Headed-count :
    {P : Type 0} {list : Ptr} {xs : Cells} {count : ℕ} {s : State P} (count' : ℕ)
    → Headed list xs count s
    → Headed list xs count'
        (with_lists s (put s.list list (handle_of count' (first xs null) (last null xs))))
Headed-count count' h = record { nonnull = h.nonnull; handle = rw ==_refl refl; chain = h.chain }

module _ {P : Type 0} {p : Pools P} (t : Target) {Inv : ℕ → Blocks → P → Type 0}
    {Same : P → P → Type 0} {Full : P → Type 0} (laws : Laws p (sizeof_list_node t) Inv Same Full)
    {k : ℕ} {live : Blocks} {list : Ptr} (left right : Cells) (item : Ptr) {s : State P}
    (ready : Ready Inv (suc (suc k)) live list (left ++ right) s)
    (room : length (left ++ right) + 1 < size_mod t) where
  abbrev Post : List Ptr → Bool → State P → Type 0
  Post result ok s' =
      Inserted Inv Full (suc (suc k)) live list item (left ++ right) result ok s'
      × Frame Same live list (left ++ right) s s'

  -- With the block `q` for the node.
  module _ (pools : P) (q : Ptr) (ne : q ≢ null) (fresh : live q ≡ false)
      (same : Same s.pools pools) (inv : Inv (suc (suc k)) (with_block live q) pools) where
    abbrev grown : Cells
    grown = left ++ (q, item) ∷ right

    abbrev stored : State P
    stored = record s { pools = p.enter pools; node = put s.node q (node_of item null null) }

    out : has q (left ++ right) ≡ false
    out = elim (Bool-cases (has q (left ++ right))) [
      | inl hit ↦ cc (ready.nodes_live q hit, fresh)
      | inr miss ↦ miss
    ]

    stored-Headed : Headed list (left ++ right) (length (left ++ right)) stored
    stored-Headed = record {
      nonnull = ready.headed.nonnull;
      handle = ready.headed.handle;
      chain = Chain-put q (node_of item null null) out ready.headed.chain;
    }

    stored-Beside : Beside left q item right stored
    stored-Beside = Open-fresh left q item right (node_of item null null) ne out ready.headed.chain

    -- A block that was handed out before is another one.
    old_ne : (a : Ptr) → live a ≡ true → a ≢ q
    old_ne a la same_block = cc (fresh, ap live same_block, la)

    -- The state after the links were made and the count was incremented.
    finish :
        {result : List Ptr} (u : State P)
        → items grown ≡ result
        → Linked list grown (length (left ++ right)) stored tt u
        → Post result true (record u {
          pools = p.leave u.pools;
          list = put u.list list (handle_of (length grown) (first grown null) (last null grown));
        })
    finish u is (headed, local) =
        let (inv', same') = visit pools laws inv in
        let at : p.leave u.pools ≡ p.leave (p.enter pools) = ap p.leave local.pools in
        (
          done left q right refl fresh refl is (record {
            headed = Headed-pools (p.leave u.pools) (Headed-count (length grown) headed);
            handle_live = ground (arith, ready.handle_live);
            nodes_live = λ a i. ground (
              arith,
              has-append a left ((q, item) ∷ right),
              has-append a left right,
              ready.nodes_live a,
            );
            handle_out = ground (
              arith,
              ==_ne (old_ne list ready.handle_live),
              has-append list left ((q, item) ∷ right),
              has-append list left right,
              ready.handle_out,
            );
            inv = rw at inv';
          }),
          record {
            nodes = λ a la away.
                let away' : has a grown ≡ false = ground (
                  arith,
                  ==_ne (old_ne a la),
                  has-append a left ((q, item) ∷ right),
                  has-append a left right,
                ) in
                local.nodes a away' ∙ put_other s.node q (node_of item null null) a (old_ne a la);
            lists = λ a away.
                put_other u.list list
                  (handle_of (length grown) (first grown null) (last null grown)) a away
                ∙ local.lists a away;
            same = rw at (laws.same_trans s.pools pools _ same same');
          },
        )

    length-grown : (length (left ++ right) + 1) % size_mod t ≡ length grown
    length-grown =
        size_add_lem t (length (left ++ right) + 1) room
        ∙ omega (arith, length-append left right, length-append left ((q, item) ∷ right))

  -- The four functions, over how they link the node.
  pub insert_with-Inserted :
      (result : List Ptr) (link : Ptr → Cmd P (Unit {0}))
      → ((q : Ptr) → items (left ++ (q, item) ∷ right) ≡ result)
      → ((u : State P) (q : Ptr)
          → Headed list (left ++ right) (length (left ++ right)) u
          → Beside left q item right u
          → Returns (Linked list (left ++ (q, item) ∷ right) (length (left ++ right)) u) (link q u))
      → Returns (Post result) (insert_with p t list item link s)
  unfolding insert_with
  insert_with-Inserted result link is links =
      and_then (allocate_twice-Attempt laws t ready.inv) λ q s' attempt. elim attempt [
        | exhausted pools z full e same inv ↦
            rw (e, z)
              (returns (refused refl full (Ready-pools pools ready inv), Frame-pools pools same))
        | granted pools ne fresh e same inv ↦
            rw (e, ==_ne ne, store_node-some (with_pools s pools) q ne (node_of item null null))
              (and_then
                (links (stored pools q ne fresh same inv) q
                  (stored-Headed pools q ne fresh same inv)
                  (stored-Beside pools q ne fresh same inv))
                λ _ u linked.
                  rw
                    (
                      load_list-some u list linked.0.nonnull linked.0.handle,
                      length-grown pools q ne fresh same inv,
                      store_list-some u list linked.0.nonnull _,
                    )
                    (returns (finish pools q ne fresh same inv u (is q) linked)))
      ]
