-- ===== src/MemPool/Holds.antt =====
-- What clients hold of the pools of source/tbx_mempool.c while the pools change around it.
use microtbx.Base.{
  ℕ, ◌≡◌, ◌≢◌, refl, sym, ap, ◌∙◌, true, List, [], ◌∷◌, ◌++◌, ◌==◌, ==_iff, ==_ne, Bool-cases, inl,
  inr,
}
use microtbx.Target.{Ptr}
use microtbx.MemPool.View.{View, mem}
use microtbx.MemPool.Fresh.{Held}

pub mem-split :
    (b : Ptr) (xs : List Ptr)
    → mem b xs ≡ true
    → (l₁ : List Ptr) × (l₂ : List Ptr) × (xs ≡ l₁ ++ b ∷ l₂)
mem-split b [] h = absurd cc
mem-split b (x ∷ xs) h = elim (Bool-cases (b == x)) [
  | inl hit ↦ ([], xs, ap (λ y. y ∷ xs) (sym ((==_iff b x).0 hit)))
  | inr miss ↦ let (l₁, l₂, is) = mem-split b xs (rw miss at h) in (x ∷ l₁, l₂, ap (◌∷◌ x) is)
]

pub mem-without :
    (b b' : Ptr) (l₁ l₂ : List Ptr)
    → b' ≢ b
    → mem b' (l₁ ++ b ∷ l₂) ≡ true
    → mem b' (l₁ ++ l₂) ≡ true
mem-without b b' [] l₂ ne h = rw (==_ne ne) at h
mem-without b b' (x ∷ l₁) l₂ ne h = elim (Bool-cases (b' == x)) [
  | inl hit ↦ rw hit refl
  | inr miss ↦ rw miss (mem-without b b' l₁ l₂ ne (rw miss at h))
]

module _ (b size : ℕ) where
  -- One pool changes, and keeps the block with its client.
  pub Held-change :
      (vs₁ : List View) (v v' : View) (vs₂ : List View)
      → v'.size ≡ v.size
      → (mem b v.live ≡ true → mem b v'.live ≡ true)
      → Held b size (vs₁ ++ v ∷ vs₂)
      → Held b size (vs₁ ++ v' ∷ vs₂)
  Held-change [] v v' vs₂ same keep (inl (is, h)) = inl (same ∙ is, keep h)
  Held-change [] v v' vs₂ same keep (inr held) = inr held
  Held-change (u ∷ vs₁) v v' vs₂ same keep (inl here) = inl here
  Held-change (u ∷ vs₁) v v' vs₂ same keep (inr held) =
      inr (Held-change vs₁ v v' vs₂ same keep held)

  -- There is a pool more.
  pub Held-more :
      (vs₁ : List View) (v : View) (vs₂ : List View)
      → Held b size (vs₁ ++ vs₂)
      → Held b size (vs₁ ++ v ∷ vs₂)
  Held-more [] v vs₂ held = inr held
  Held-more (u ∷ vs₁) v vs₂ (inl here) = inl here
  Held-more (u ∷ vs₁) v vs₂ (inr held) = inr (Held-more vs₁ v vs₂ held)

  pub Held-here :
      (vs₁ : List View) (v : View) (vs₂ : List View)
      → v.size ≡ size
      → mem b v.live ≡ true
      → Held b size (vs₁ ++ v ∷ vs₂)
  Held-here [] v vs₂ is h = inl (is, h)
  Held-here (u ∷ vs₁) v vs₂ is h = inr (Held-here vs₁ v vs₂ is h)

  pub Held-split :
      (vs : List View)
      → Held b size vs
      → (vs₁ : List View) × (v : View) × (vs₂ : List View) × (vs ≡ vs₁ ++ v ∷ vs₂)
        × (mem b v.live ≡ true)
  Held-split [] none = absurd none
  Held-split (v ∷ vs) (inl (is, h)) = ([], v, vs, refl, h)
  Held-split (v ∷ vs) (inr held) =
      let (vs₁, u, vs₂, is, h) = Held-split vs held in (v ∷ vs₁, u, vs₂, ap (◌∷◌ v) is, h)
