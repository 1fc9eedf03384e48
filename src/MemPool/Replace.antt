-- ===== src/MemPool/Replace.antt =====
-- Lists of pools in which one pool changes, and lists of blocks in which one block moves.
use microtbx.Base.{
  ℕ, suc, ◌<◌, ◌≡◌, ◌≢◌, refl, ap, ◌∙◌, arith, false, Option, List, [], ◌∷◌, ◌++◌, All, ◌||◌, ◌==◌,
  length,
}
use microtbx.Target.{Ptr}
use microtbx.MemPool.Store.{PoolNode}
use microtbx.MemPool.View.{View, mem, NoDup, Chain, Ascending, first}

pub All-middle {ℓ κ} :
    {A : Type ℓ} (P : A → Type κ) (xs : List A) (y : A) (ys : List A)
    → All P (xs ++ y ∷ ys)
    → P y × All P (xs ++ ys)
All-middle P [] y ys h = h
All-middle P (x ∷ xs) y ys h = let r = All-middle P xs y ys h.1 in (r.0, (h.0, r.1))

pub All-insert {ℓ κ} :
    {A : Type ℓ} (P : A → Type κ) (xs : List A) (y : A) (ys : List A)
    → P y
    → All P (xs ++ ys)
    → All P (xs ++ y ∷ ys)
All-insert P [] y ys p h = (p, h)
All-insert P (x ∷ xs) y ys p h = (h.0, All-insert P xs y ys p h.1)

pub mem-middle :
    (b : Ptr) (xs : List Ptr) (y : Ptr) (ys : List Ptr)
    → mem b (xs ++ y ∷ ys) ≡ ((b == y) || mem b (xs ++ ys))
mem-middle b [] y ys = refl
mem-middle b (x ∷ xs) y ys = ground (arith, mem-middle b xs y ys)

-- A list without duplicates stays one when its head moves to the middle, and back.
pub NoDup-insert :
    (xs : List Ptr) (y : Ptr) (ys : List Ptr)
    → mem y (xs ++ ys) ≡ false
    → NoDup (xs ++ ys)
    → NoDup (xs ++ y ∷ ys)
NoDup-insert [] y ys out h = (out, h)
NoDup-insert (x ∷ xs) y ys out h =
    (mem-middle x xs y ys ∙ ground (arith, h.0), NoDup-insert xs y ys (ground arith) h.1)

pub NoDup-middle :
    (xs : List Ptr) (y : Ptr) (ys : List Ptr)
    → NoDup (xs ++ y ∷ ys)
    → (mem y (xs ++ ys) ≡ false) × NoDup (xs ++ ys)
NoDup-middle [] y ys h = h
NoDup-middle (x ∷ xs) y ys h =
    let r = NoDup-middle xs y ys h.1 in
    (ground (arith, mem-middle x xs y ys), (ground (arith, mem-middle x xs y ys), r.1))

above :
    {P Q : View → Type 0} (size : ℕ) (vs : List View)
    → All (λ (w : View). size < w.size) vs
    → ((w : View) → w.size ≢ size → P w → Q w)
    → All P vs
    → All Q vs
above size [] more keep h = tt
above size (w ∷ vs) more keep h =
    (keep w (λ e. absurd (omega (arith, more.0))) h.0, above size vs more.1 keep h.1)

-- Changing one pool of an ascending list: the others are for other sizes.
pub All-replace :
    {P Q : View → Type 0} (vs₁ vs₂ : List View) (v v' : View)
    → Ascending (vs₁ ++ v ∷ vs₂)
    → ((w : View) → w.size ≢ v.size → P w → Q w)
    → Q v'
    → All P (vs₁ ++ v ∷ vs₂)
    → All Q (vs₁ ++ v' ∷ vs₂)
All-replace [] vs₂ v v' asc keep new h = (new, above v.size vs₂ asc.0 keep h.1)
All-replace (w ∷ vs₁) vs₂ v v' asc keep new h =
    let below = All-middle (λ (u : View). w.size < u.size) vs₁ v vs₂ asc.0 in
    (keep w (λ e. absurd (omega (arith, below.0))) h.0, All-replace vs₁ vs₂ v v' asc.1 keep new h.1)

-- `v'` is for the same size, at the same addresses.
module _ (v v' : View) (node : v'.node ≡ v.node) (pool : v'.pool ≡ v.pool) (size : v'.size ≡ v.size)
    (vs₂ : List View) where
  pub first-replace : (vs₁ : List View) → first (vs₁ ++ v' ∷ vs₂) ≡ first (vs₁ ++ v ∷ vs₂)
  first-replace [] = node
  first-replace (w ∷ vs₁) = refl

  pub length-replace : (vs₁ : List View) → length (vs₁ ++ v' ∷ vs₂) ≡ length (vs₁ ++ v ∷ vs₂)
  length-replace [] = refl
  length-replace (w ∷ vs₁) = ap suc (length-replace vs₁)

  pub Chain-replace :
      (m : Ptr → Option PoolNode) (vs₁ : List View)
      → Chain m (vs₁ ++ v ∷ vs₂)
      → Chain m (vs₁ ++ v' ∷ vs₂)
  Chain-replace m [] h = rw (node, pool) h
  Chain-replace m (w ∷ vs₁) h = (h.0, rw (first-replace vs₁) h.1, Chain-replace m vs₁ h.2)

  pub Ascending-replace :
      (vs₁ : List View) → Ascending (vs₁ ++ v ∷ vs₂) → Ascending (vs₁ ++ v' ∷ vs₂)
  Ascending-replace [] h = rw size h
  Ascending-replace (w ∷ vs₁) h =
      let r = All-middle (λ (u : View). w.size < u.size) vs₁ v vs₂ h.0 in
      (
        All-insert (λ (u : View). w.size < u.size) vs₁ v' vs₂ (rw size r.0) r.1,
        Ascending-replace vs₁ h.1,
      )
