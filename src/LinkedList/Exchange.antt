-- ===== src/LinkedList/Exchange.antt =====
-- The order in which `TbxListSortItems` of source/tbx_list.c compares and exchanges items, on the
-- nodes of a list.
use microtbx.Base.{
  ℕ, zero, suc, ◌≤◌, ◌≡◌, refl, ap, ◌∙◌, arith, Bool, true, false, List, [], ◌∷◌, All, length,
  Bool-cases, inl, inr, if◌then◌else◌,
}
use mathlib.Core.List.Perm
use mathlib.Core.List.{Perm}
use microtbx.Target.{Ptr}
use microtbx.LinkedList.Chain.{Cells, items, has, first, last}

module _ (compare_items : Ptr → Ptr → Bool) where
  -- The inner loop, from the item `x` of the current node over the nodes behind it: what the current
  -- node holds in the end, and the nodes.
  abbrev pub sweep : Ptr → Cells → Ptr × Cells
  sweep x [] = (x, [])
  sweep x ((b, y) ∷ ys) =
      let r = sweep (if compare_items x y then y else x) ys in
      (r.0, (b, if compare_items x y then x else y) ∷ r.1)

  -- The outer loop, over `n` nodes.
  abbrev pub exchange : ℕ → Cells → Cells
  exchange zero xs = xs
  exchange (suc n) [] = []
  exchange (suc n) ((a, x) ∷ ys) = let r = sweep x ys in (a, r.0) ∷ exchange n r.1

  pub has-sweep : (b x : Ptr) (ys : Cells) → has b (sweep x ys).1 ≡ has b ys
  has-sweep b x [] = refl
  has-sweep b x ((c, y) ∷ ys) =
      let ih = has-sweep b (if compare_items x y then y else x) ys in rw ih refl

  pub length-sweep : (x : Ptr) (ys : Cells) → length (sweep x ys).1 ≡ length ys
  length-sweep x [] = refl
  length-sweep x ((c, y) ∷ ys) = ap suc (length-sweep (if compare_items x y then y else x) ys)

  pub has-exchange : (n : ℕ) (b : Ptr) (xs : Cells) → has b (exchange n xs) ≡ has b xs
  has-exchange zero b xs = refl
  has-exchange (suc n) b [] = refl
  has-exchange (suc n) b ((a, x) ∷ ys) = rw (has-exchange n b (sweep x ys).1, has-sweep b x ys) refl

  pub length-exchange : (n : ℕ) (xs : Cells) → length (exchange n xs) ≡ length xs
  length-exchange zero xs = refl
  length-exchange (suc n) [] = refl
  length-exchange (suc n) ((a, x) ∷ ys) =
      ap suc (length-exchange n (sweep x ys).1 ∙ length-sweep x ys)

  -- The nodes stay where they are.
  pub first-sweep : (x stop : Ptr) (ys : Cells) → first (sweep x ys).1 stop ≡ first ys stop
  first-sweep x stop [] = refl
  first-sweep x stop ((b, y) ∷ ys) = refl

  last-sweep : (prev x : Ptr) (ys : Cells) → last prev (sweep x ys).1 ≡ last prev ys
  last-sweep prev x [] = refl
  last-sweep prev x ((b, y) ∷ ys) = last-sweep b (if compare_items x y then y else x) ys

  pub first-exchange :
      (n : ℕ) (stop : Ptr) (xs : Cells) → first (exchange n xs) stop ≡ first xs stop
  first-exchange zero stop xs = refl
  first-exchange (suc n) stop [] = refl
  first-exchange (suc n) stop ((a, x) ∷ ys) = refl

  pub last-exchange : (n : ℕ) (prev : Ptr) (xs : Cells) → last prev (exchange n xs) ≡ last prev xs
  last-exchange zero prev xs = refl
  last-exchange (suc n) prev [] = refl
  last-exchange (suc n) prev ((a, x) ∷ ys) = last-exchange n a (sweep x ys).1 ∙ last-sweep a x ys

  pub exchange-nil : (n : ℕ) → exchange n [] ≡ []
  exchange-nil zero = refl
  exchange-nil (suc n) = refl

  sweep-Perm : (x : Ptr) (ys : Cells) → Perm ((sweep x ys).0 ∷ items (sweep x ys).1) (x ∷ items ys)
  sweep-Perm x [] = Perm.refl (x ∷ [])
  sweep-Perm x ((b, y) ∷ ys) = elim (Bool-cases (compare_items x y)) [
    | inl gt ↦ rw gt (
        Perm.trans (Perm.swap x (sweep y ys).0 (items (sweep y ys).1))
          (Perm.cons x (sweep-Perm y ys)))
    | inr le ↦ rw le (
        Perm.trans (Perm.swap y (sweep x ys).0 (items (sweep x ys).1))
          (Perm.trans (Perm.cons y (sweep-Perm x ys)) (Perm.swap x y (items ys))))
  ]

  -- The items are those that were there.
  pub exchange-Perm : (n : ℕ) (xs : Cells) → Perm (items (exchange n xs)) (items xs)
  exchange-Perm zero xs = Perm.refl (items xs)
  exchange-Perm (suc n) [] = Perm.refl []
  exchange-Perm (suc n) ((a, x) ∷ ys) =
      Perm.trans (Perm.cons (sweep x ys).0 (exchange-Perm n (sweep x ys).1)) (sweep-Perm x ys)

-- No item compares as greater than one behind it.
abbrev pub IsSorted : (Ptr → Ptr → Bool) → List Ptr → Type 0
IsSorted compare_items [] = Unit
IsSorted compare_items (x ∷ xs) =
    All (λ (y : Ptr). compare_items x y ≡ false) xs × IsSorted compare_items xs

-- The function that compares says which of two items is greater, in some order of all items.
pub record IsOrder (compare_items : Ptr → Ptr → Bool) : Type 0 where
  pub one_way : (x y : Ptr) → compare_items x y ≡ true → compare_items y x ≡ false
  pub through :
      (x y z : Ptr)
      → compare_items x y ≡ false
      → compare_items y z ≡ false
      → compare_items x z ≡ false

module _ (compare_items : Ptr → Ptr → Bool) where
  -- What holds of all items holds of them where they end up.
  sweep-All :
      (Q : Ptr → Type 0) (x : Ptr) (ys : Cells)
      → Q x
      → All Q (items ys)
      → Q (sweep compare_items x ys).0 × All Q (items (sweep compare_items x ys).1)
  sweep-All Q x [] q all = (q, tt)
  sweep-All Q x ((b, y) ∷ ys) q all = elim (Bool-cases (compare_items x y)) [
    | inl gt ↦ let r = sweep-All Q y ys all.0 all.1 in rw gt (r.0, (q, r.1))
    | inr le ↦ let r = sweep-All Q x ys q all.1 in rw le (r.0, (all.0, r.1))
  ]

  exchange-All :
      (Q : Ptr → Type 0) (n : ℕ) (xs : Cells)
      → All Q (items xs)
      → All Q (items (exchange compare_items n xs))
  exchange-All Q zero xs all = all
  exchange-All Q (suc n) [] all = tt
  exchange-All Q (suc n) ((a, x) ∷ ys) all =
      let r = sweep-All Q x ys all.0 all.1 in
      (r.0, exchange-All Q n (sweep compare_items x ys).1 r.1)

  module _ (order : IsOrder compare_items) where
    le_self : (x : Ptr) → compare_items x x ≡ false
    le_self x = elim (Bool-cases (compare_items x x)) [
      | inl gt ↦ order.one_way x x gt
      | inr le ↦ le
    ]

    -- The current node ends with the least of the items.
    abbrev Least : Ptr → Cells → Type 0
    Least x ys =
        let r = sweep compare_items x ys in
        (compare_items r.0 x ≡ false) × All (λ (y : Ptr). compare_items r.0 y ≡ false) (items r.1)

    Least-step :
        (x b y : Ptr) (ys : Cells) (test : Bool)
        → compare_items x y ≡ test
        → Least (if test then y else x) ys
        → let r = sweep compare_items (if test then y else x) ys in
          (compare_items r.0 x ≡ false)
          × (compare_items r.0 (if test then x else y) ≡ false)
          × All (λ (z : Ptr). compare_items r.0 z ≡ false) (items r.1)
    Least-step x b y ys true gt r =
        let least = order.through _ y x r.0 (order.one_way x y gt) in (least, least, r.1)
    Least-step x b y ys false le r = (r.0, order.through _ x y r.0 le, r.1)

    sweep-Least : (x : Ptr) (ys : Cells) → Least x ys
    sweep-Least x [] = (le_self x, tt)
    sweep-Least x ((b, y) ∷ ys) =
        let (self, swapped, behind) =
          Least-step x b y ys (compare_items x y) refl
            (sweep-Least (if compare_items x y then y else x) ys) in
        (self, (swapped, behind))

    pub exchange-IsSorted :
        (n : ℕ) (xs : Cells)
        → length xs ≤ n
        → IsSorted compare_items (items (exchange compare_items n xs))
    exchange-IsSorted zero [] few = tt
    exchange-IsSorted zero (x ∷ xs) few = absurd (omega arith)
    exchange-IsSorted (suc n) [] few = tt
    exchange-IsSorted (suc n) ((a, x) ∷ ys) few = (
      exchange-All (λ (y : Ptr). compare_items (sweep compare_items x ys).0 y ≡ false) n
          (sweep compare_items x ys).1 (sweep-Least x ys).1,
      exchange-IsSorted n (sweep compare_items x ys).1
          (omega (arith, length-sweep compare_items x ys)),
    )
