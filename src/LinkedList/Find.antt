-- ===== src/LinkedList/Find.antt =====
-- `TbxListFindListNode` of source/tbx_list.c: the first node that holds an item.
use microtbx.Base.{
  ℕ, zero, suc, ◌+◌, ◌<◌, ◌≡◌, ◌≢◌, refl, ap, arith, false, some, [], ◌∷◌, ◌++◌, length, ◌==◌,
  ==_iff, ==_ne, Bool-cases, inl, inr, if◌then◌else◌,
}
use microtbx.Target.{Ptr, null}
use microtbx.LinkedList.Store.{Pools, State}
use microtbx.LinkedList.Read.{find_loop, find_list_node}
use microtbx.LinkedList.Chain.{Cells, items, first, Chain, cons}
use microtbx.LinkedList.Sequence.{contains}
use microtbx.LinkedList.Returns.{load_node-some, load_list-some}
use microtbx.LinkedList.Link.{Headed}

abbrev pub node_with : Ptr → Cells → Ptr
node_with item [] = null
node_with item ((a, x) ∷ xs) = if x == item then a else node_with item xs

-- Where the item stands first.
pub data Placed (item : Ptr) : Cells → Type 0 where
  missing :
      {xs : Cells} → node_with item xs ≡ null → contains item (items xs) ≡ false → Placed item xs
  at :
      {xs : Cells} (left : Cells) (q : Ptr) (right : Cells)
      → xs ≡ left ++ (q, item) ∷ right
      → node_with item xs ≡ q
      → contains item (items left) ≡ false
      → Placed item xs

pub placed : (item : Ptr) (xs : Cells) → Placed item xs
placed item [] = missing refl refl
placed item ((a, x) ∷ xs) = elim (Bool-cases (x == item)) [
  | inl hit ↦ at [] a xs (ap (λ y. (a, y) ∷ xs) ((==_iff x item).0 hit)) (rw hit refl) refl
  | inr miss ↦ elim (placed item xs) [
    | missing e out ↦ missing (rw miss e) (rw miss out)
    | at left q right is e out ↦
        at ((a, x) ∷ left) q right (ap (◌∷◌ (a, x)) is) (rw miss e) (rw miss out)
  ]
]

module _ {P : Type 0} (s : State P) (item : Ptr) where
  pub find_loop_lem :
      (k : ℕ) {prev : Ptr} (xs : Cells)
      → Chain s.node null prev xs
      → length xs < k
      → find_loop k item (first xs null) s ≡ some (node_with item xs, s)
  unfolding find_loop
  find_loop_lem zero xs c fuel = absurd (omega arith)
  find_loop_lem (suc k) [] c fuel = refl
  find_loop_lem (suc k) ((a, x) ∷ xs) (cons ne is out c) fuel =
      rw (==_ne ne, load_node-some s a ne is)
        (elim (Bool-cases (x == item)) [
          | inl hit ↦ rw hit refl
          | inr miss ↦ rw miss (find_loop_lem k xs c (omega arith))
        ])

-- The search leaves the memory alone.
pub find_list_node_lem :
    {P : Type 0} (s : State P) (item : Ptr) (p : Pools P) (list : Ptr) (xs : Cells)
    → item ≢ null
    → Headed list xs (length xs) s
    → find_list_node p list item s
      ≡ some (node_with item xs, record s { pools = p.leave (p.enter s.pools) })
unfolding find_list_node
find_list_node_lem {P} s item p list xs item_ne h =
    let s₁ : State P = record s { pools = p.enter s.pools } in
    rw
      (
        ==_ne h.nonnull,
        ==_ne item_ne,
        load_list-some s₁ list h.nonnull h.handle,
        find_loop_lem s₁ item (length xs + 1) xs h.chain (omega arith),
      )
      refl
