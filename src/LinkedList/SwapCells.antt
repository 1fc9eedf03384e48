-- ===== src/LinkedList/SwapCells.antt =====
-- The exchange of two items of source/tbx_list.c on the nodes of a list and on the sequence of items.
use microtbx.Base.{
  suc, ◌≡◌, ◌≢◌, refl, sym, ap, ap₂, ◌∙◌, arith, true, false, Option, none, some, List, [], ◌∷◌,
  length, ◌||◌, ◌==◌, ==_refl, ==_iff, inl, inr, Bool-cases, if◌then◌else◌,
}
use microtbx.Target.{Ptr, null}
use microtbx.LinkedList.Store.{ListNode, node_of, put}
use microtbx.LinkedList.Chain.{
  Cells, Nodes, items, has, first, last, Chain, nil, cons, uncons, put_other, Chain-put,
}
use microtbx.LinkedList.Sequence.{contains, replace_first, swap_first}
use microtbx.LinkedList.Find.{node_with}

-- The node `q` with another item.
abbrev pub set_at : Ptr → Ptr → Cells → Cells
set_at q to [] = []
set_at q to ((a, x) ∷ xs) = if a == q then (a, to) ∷ xs else (a, x) ∷ set_at q to xs

-- The two items change places, where each stands first.
abbrev pub swapped : (item₁ item₂ : Ptr) → Cells → Cells
swapped item₁ item₂ xs = set_at (node_with item₂ xs) item₁ (set_at (node_with item₁ xs) item₂ xs)

pub first-set_at :
    (q to : Ptr) (xs : Cells) (stop : Ptr) → first (set_at q to xs) stop ≡ first xs stop
first-set_at q to [] stop = refl
first-set_at q to ((a, x) ∷ xs) stop = elim (Bool-cases (a == q)) [
  | inl hit ↦ rw hit refl
  | inr miss ↦ rw miss refl
]

pub last-set_at : (q to prev : Ptr) (xs : Cells) → last prev (set_at q to xs) ≡ last prev xs
last-set_at q to prev [] = refl
last-set_at q to prev ((a, x) ∷ xs) = elim (Bool-cases (a == q)) [
  | inl hit ↦ rw hit refl
  | inr miss ↦ rw miss (last-set_at q to a xs)
]

pub has-set_at : (b q to : Ptr) (xs : Cells) → has b (set_at q to xs) ≡ has b xs
has-set_at b q to [] = refl
has-set_at b q to ((a, x) ∷ xs) = elim (Bool-cases (a == q)) [
  | inl hit ↦ rw hit refl
  | inr miss ↦ rw miss (ap (λ h. (b == a) || h) (has-set_at b q to xs))
]

pub length-set_at : (q to : Ptr) (xs : Cells) → length (set_at q to xs) ≡ length xs
length-set_at q to [] = refl
length-set_at q to ((a, x) ∷ xs) = elim (Bool-cases (a == q)) [
  | inl hit ↦ rw hit refl
  | inr miss ↦ rw miss (ap suc (length-set_at q to xs))
]

-- An address inside has a node with some item, whose other fields the chain fixes.
pub Chain-node :
    {m : Nodes} {stop prev : Ptr} (q : Ptr) (xs : Cells)
    → Chain m stop prev xs
    → has q xs ≡ true
    → (q ≢ null) × (x : Ptr) × (before : Ptr) × (next : Ptr) × (m q ≡ some (node_of x before next))
Chain-node q [] c i = absurd cc
Chain-node {stop} {prev} q ((a, x) ∷ xs) c i =
    let (ne, is, out, rest) = uncons c in
    elim (Bool-cases (q == a)) [
      | inl hit ↦ let same = (==_iff q a).0 hit in rw same (ne, x, prev, first xs stop, is)
      | inr miss ↦ Chain-node q xs rest (rw miss at i)
    ]

abbrev links : Option ListNode → Ptr × Ptr
links none = (null, null)
links (some n) = (n.prev_node_ptr, n.next_node_ptr)

-- The write of another item to a node of the chain.
pub Chain-set_at :
    {m : Nodes} {stop prev : Ptr} (q to : Ptr) {x before next : Ptr} (xs : Cells)
    → Chain m stop prev xs
    → m q ≡ some (node_of x before next)
    → Chain (put m q (node_of to before next)) stop prev (set_at q to xs)
Chain-set_at q to [] c is = nil
Chain-set_at {m} {stop} {prev} q to {x} {before} {next} ((a, y) ∷ xs) c is =
    let (ne, at, out, rest) = uncons c in
    elim (Bool-cases (a == q)) [
      | inl hit ↦
          let same = (==_iff a q).0 hit in
          let fields = ap links (sym is ∙ ap m (sym same) ∙ at) in
          rw hit (
            cons ne (rw hit (ap (λ (r : Ptr × Ptr). some (node_of to r.0 r.1)) fields)) out
              (Chain-put q _ (ap (λ b. has b xs) (sym same) ∙ out) rest))
      | inr miss ↦ rw miss (
          cons ne
            (put_other m q _ a (λ same. ground (arith, same, miss))
              ∙ at
              ∙ ap (λ p. some (node_of y prev p)) (sym (first-set_at q to xs stop)))
            (has-set_at a q to xs ∙ out) (Chain-set_at q to xs rest is))
    ]

-- A node that was found is in the chain.
pub found-has :
    (item : Ptr) (xs : Cells) → node_with item xs ≢ null → has (node_with item xs) xs ≡ true
found-has item [] ne = absurd (ne refl)
found-has item ((a, x) ∷ xs) ne = elim (Bool-cases (x == item)) [
  | inl hit ↦ rw (hit, ==_refl a) refl
  | inr miss ↦
      let there = found-has item xs (rw miss at ne) in
      let is : node_with item ((a, x) ∷ xs) ≡ node_with item xs = rw miss refl in
      ap (λ q. (q == a) || has q xs) is ∙ ground (arith, there)
]

-- The node of an item further behind is another one.
apart : (a item : Ptr) (xs : Cells) → a ≢ null → has a xs ≡ false → (a == node_with item xs) ≡ false
apart a item xs ne out = elim (Bool-cases (a == node_with item xs)) [
  | inl hit ↦
      let same = (==_iff a (node_with item xs)).0 hit in
      let there = found-has item xs (λ z. ne (same ∙ z)) in
      absurd (let out' = ap (λ b. has b xs) same in cc)
  | inr miss ↦ miss
]

-- The search and the write, at the first node and behind it.
module _ (a x : Ptr) (xs : Cells) where
  node_here : (item : Ptr) → (x == item) ≡ true → node_with item ((a, x) ∷ xs) ≡ a
  node_here item hit = rw hit refl

  node_behind :
      (item : Ptr) → (x == item) ≡ false → node_with item ((a, x) ∷ xs) ≡ node_with item xs
  node_behind item miss = rw miss refl

  set_here : (to : Ptr) → set_at a to ((a, x) ∷ xs) ≡ (a, to) ∷ xs
  set_here to = rw (==_refl a) refl

  set_behind : (q to : Ptr) → (a == q) ≡ false → set_at q to ((a, x) ∷ xs) ≡ (a, x) ∷ set_at q to xs
  set_behind q to miss = rw miss refl

items-set_at :
    {m : Nodes} {stop prev : Ptr} (item to : Ptr) (xs : Cells)
    → Chain m stop prev xs
    → items (set_at (node_with item xs) to xs) ≡ replace_first item to (items xs)
items-set_at item to [] c = refl
items-set_at item to ((a, x) ∷ xs) c =
    let (ne, _, out, rest) = uncons c in
    let cells : Cells = (a, x) ∷ xs in
    elim (Bool-cases (x == item)) [
      | inl hit ↦
          ap (λ q. items (set_at q to cells)) (node_here a x xs item hit)
          ∙ ap items (set_here a x xs to)
          ∙ rw hit refl
      | inr miss ↦
          let ih = items-set_at item to xs rest in
          ap (λ q. items (set_at q to cells)) (node_behind a x xs item miss)
          ∙ ap items (set_behind a x xs (node_with item xs) to (apart a item xs ne out))
          ∙ rw (miss, ih) refl
    ]

replace_first_same : (item : Ptr) (xs : List Ptr) → replace_first item item xs ≡ xs
replace_first_same item [] = refl
replace_first_same item (x ∷ xs) = elim (Bool-cases (x == item)) [
  | inl hit ↦ rw hit (ap (λ y. y ∷ xs) (sym ((==_iff x item).0 hit)))
  | inr miss ↦ rw miss (ap (◌∷◌ x) (replace_first_same item xs))
]

pub items-swapped :
    {m : Nodes} {stop prev : Ptr} (item₁ item₂ : Ptr) (xs : Cells)
    → Chain m stop prev xs
    → items (swapped item₁ item₂ xs) ≡ swap_first item₁ item₂ (items xs)
items-swapped item₁ item₂ [] c = refl
items-swapped item₁ item₂ ((a, x) ∷ xs) c =
    let (ne, _, out, rest) = uncons c in
    let cells : Cells = (a, x) ∷ xs in
    let q₁ = node_with item₁ xs in
    let q₂ = node_with item₂ xs in
    let both : (p₁ p₂ : Ptr)
        → node_with item₁ cells ≡ p₁
        → node_with item₂ cells ≡ p₂
        → items (swapped item₁ item₂ cells) ≡ items (set_at p₂ item₁ (set_at p₁ item₂ cells)) =
      λ p₁ p₂ e₁ e₂. ap₂ (λ p p'. items (set_at p' item₁ (set_at p item₂ cells))) e₁ e₂ in
    elim (Bool-cases (x == item₁)) [
      | inl hit₁ ↦ elim (Bool-cases (x == item₂)) [
        | inl hit₂ ↦
            let same = sym ((==_iff x item₁).0 hit₁) ∙ (==_iff x item₂).0 hit₂ in
            both a a (node_here a x xs item₁ hit₁) (node_here a x xs item₂ hit₂)
            ∙ ap (λ ys. items (set_at a item₁ ys)) (set_here a x xs item₂)
            ∙ ap items (set_here a item₂ xs item₁)
            ∙ ap₂ ◌∷◌ same (
                sym (replace_first_same item₁ (items xs))
                ∙ ap (λ y. replace_first y item₁ (items xs)) same)
            ∙ rw hit₁ refl
        | inr miss₂ ↦
            both a q₂ (node_here a x xs item₁ hit₁) (node_behind a x xs item₂ miss₂)
            ∙ ap (λ ys. items (set_at q₂ item₁ ys)) (set_here a x xs item₂)
            ∙ ap items (set_behind a item₂ xs q₂ item₁ (apart a item₂ xs ne out))
            ∙ ap (◌∷◌ item₂) (items-set_at item₂ item₁ xs rest)
            ∙ rw hit₁ refl
      ]
      | inr miss₁ ↦
          let first_write = set_behind a x xs q₁ item₂ (apart a item₁ xs ne out) in
          elim (Bool-cases (x == item₂)) [
            | inl hit₂ ↦
                both q₁ a (node_behind a x xs item₁ miss₁) (node_here a x xs item₂ hit₂)
                ∙ ap (λ ys. items (set_at a item₁ ys)) first_write
                ∙ ap items (set_here a x (set_at q₁ item₂ xs) item₁)
                ∙ ap (◌∷◌ item₁) (items-set_at item₁ item₂ xs rest)
                ∙ rw (miss₁, hit₂) refl
            | inr miss₂ ↦
                both q₁ q₂ (node_behind a x xs item₁ miss₁) (node_behind a x xs item₂ miss₂)
                ∙ ap (λ ys. items (set_at q₂ item₁ ys)) first_write
                ∙ ap items (set_behind a x (set_at q₁ item₂ xs) q₂ item₁ (apart a item₂ xs ne out))
                ∙ ap (◌∷◌ x) (items-swapped item₁ item₂ xs rest)
                ∙ rw (miss₁, miss₂) refl
          ]
    ]

-- Where no node is found, no item is that one.
pub node_with-none :
    {m : Nodes} {stop prev : Ptr} (item : Ptr) (xs : Cells)
    → Chain m stop prev xs
    → node_with item xs ≡ null
    → contains item (items xs) ≡ false
node_with-none item [] c z = refl
node_with-none item ((a, x) ∷ xs) c z =
    let (ne, _, _, rest) = uncons c in
    elim (Bool-cases (x == item)) [
      | inl hit ↦ absurd (ne (rw hit at z))
      | inr miss ↦ rw miss (node_with-none item xs rest (rw miss at z))
    ]

-- An item whose node is found is in the list.
pub node_with-found :
    (item : Ptr) (xs : Cells) → node_with item xs ≢ null → contains item (items xs) ≡ true
node_with-found item [] ne = absurd (ne refl)
node_with-found item ((a, x) ∷ xs) ne = elim (Bool-cases (x == item)) [
  | inl hit ↦ rw hit refl
  | inr miss ↦ rw miss (node_with-found item xs (rw miss at ne))
]
