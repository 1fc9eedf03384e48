-- ===== src/MemPool/Fresh.antt =====
-- What `TbxMemPoolAllocate` of source/tbx_mempool.c hands out beside what clients hold already.
use microtbx.Base.{
  ℕ, ◌+◌, ◌≤◌, ◌<◌, ◌≡◌, ◌≢◌, refl, sym, subst, ap, ◌∙◌, arith, true, List, [], ◌∷◌, ◌++◌, All,
  ◌==◌, ==_refl, Bool-cases, inl, inr, ◌⊎◌,
}
use microtbx.Target.{Config, Ptr, null, sizeof_ptr}
use microtbx.MemPool.Store.{State}
use microtbx.MemPool.Api.{allocate}
use microtbx.MemPool.View.{View, Cells, Ascending, mem, stock, IsView, IsPools}
use microtbx.MemPool.Replace.{All-middle}
use microtbx.MemPool.Take.{with_free}
use microtbx.MemPool.Ends.{Ends, weaken, Ready}
use microtbx.MemPool.Allocate.{Allocated, allocate-Allocated}
use microtbx.MemPool.Disjoint.{Owns, Owns-IsBlock, blocks-Disjoint}

-- A client holds the block `b`, which is for `size`.
abbrev pub Held : (b size : ℕ) → List View → Type 0
Held b size [] = ⊥
Held b size (v ∷ vs) = ((v.size ≡ size) × (mem b v.live ≡ true)) ⊎ Held b size vs

mem-append : (b : Ptr) (xs ys : List Ptr) → mem b ys ≡ true → mem b (xs ++ ys) ≡ true
mem-append b [] ys h = h
mem-append b (x ∷ xs) ys h = elim (Bool-cases (b == x)) [
  | inl hit ↦ rw hit refl
  | inr miss ↦ rw miss (mem-append b xs ys h)
]

pub Held-Owns : (b size : ℕ) (vs : List View) → Held b size vs → Owns b size vs
Held-Owns b size [] none = absurd none
Held-Owns b size (v ∷ vs) (inl (is, h)) = inl (is, mem-append b (stock v.free) v.live h)
Held-Owns b size (v ∷ vs) (inr held) = inr (Held-Owns b size vs held)

Owns-middle :
    (b : ℕ) (vs₁ : List View) (v : View) (vs₂ : List View)
    → mem b (stock v.free ++ v.live) ≡ true
    → Owns b v.size (vs₁ ++ v ∷ vs₂)
Owns-middle b [] v vs₂ h = inl (refl, h)
Owns-middle b (u ∷ vs₁) v vs₂ h = inr (Owns-middle b vs₁ v vs₂ h)

-- No block of the pools is for a size below all of theirs.
none_below : (b size : ℕ) (vs : List View) → All (λ (v : View). size < v.size) vs → ¬ Held b size vs
none_below b size [] above none = none
none_below b size (v ∷ vs) above (inl (is, h)) = omega (arith, above.0, is)
none_below b size (v ∷ vs) above (inr held) = none_below b size vs above.1 held

-- Only one pool is for the size of `v`.
pub Held-middle :
    (b : ℕ) (vs₁ : List View) (v : View) (vs₂ : List View)
    → Ascending (vs₁ ++ v ∷ vs₂)
    → Held b v.size (vs₁ ++ v ∷ vs₂)
    → mem b v.live ≡ true
Held-middle b [] v vs₂ asc (inl (is, h)) = h
Held-middle b [] v vs₂ asc (inr held) = absurd (none_below b v.size vs₂ asc.0 held)
Held-middle b (u ∷ vs₁) v vs₂ asc (inl (is, h)) =
    absurd (omega (arith, is, (All-middle (λ (x : View). u.size < x.size) vs₁ v vs₂ asc.0).0))
Held-middle b (u ∷ vs₁) v vs₂ asc (inr held) = Held-middle b vs₁ v vs₂ asc.1 held

module _ {c : Config} {home : Ptr → ℕ} {vs : List View} {s : State} (size b' size' : ℕ)
    (ready : Ready c home vs 1 s) (pos : 0 < size) (held : Held b' size' vs) where
  -- The block granted is not the one that is held: it was free.
  pub granted_ne :
      (vs₁ : List View) (v : View) (a b : Ptr) (fs : Cells) (vs₂ : List View)
      → vs ≡ vs₁ ++ with_free v a b fs ∷ vs₂
      → b ≢ b'
  granted_ne vs₁ v a b fs vs₂ is same =
      let now = subst (λ us. IsPools c home us s) is ready.pools in
      let view =
        All-middle (IsView (sizeof_ptr c.target) s.memory home (c.base + s.heap.allocated)) vs₁
          (with_free v a b fs) vs₂ now.views in
      let block =
        Owns-IsBlock (sizeof_ptr c.target) s.memory home (c.base + s.heap.allocated) b' size' vs
          ready.pools.views (Held-Owns b' size' vs held) in
      let size_is : size' ≡ v.size = sym block.0.0.2 ∙ ap home (sym same) ∙ view.0.blocks.0.0.2 in
      let here : Held b v.size (vs₁ ++ with_free v a b fs ∷ vs₂) =
        subst (λ us. Held b v.size us) is
          (subst (λ k. Held b k vs) size_is (subst (λ x. Held x size' vs) (sym same) held)) in
      let live = Held-middle b vs₁ (with_free v a b fs) vs₂ now.ascending here in
      let twice = mem-append b (stock fs) v.live live in cc (view.0.distinct.0, twice)

  -- In a state of well-formed pools, with a sound configuration and port and room for one more nested
  -- critical section: what `TbxMemPoolAllocate` hands out for a positive size, unless it is NULL, lies
  -- in the heap's buffer, from the buffer's start to its end, and the bytes asked for and the size word
  -- in front of them are apart from any block that a client holds and that block's size word.
  pub allocate-apart :
      Ends
        (λ p _.
          (p ≡ null)
          ⊎ ((c.base + sizeof_ptr c.target ≤ p)
              × (p + size ≤ c.base + c.heap_size)
              × ((p + size ≤ b') ⊎ (b' + sizeof_ptr c.target + size' + sizeof_ptr c.target ≤ p))))
        (allocate c size s)
  allocate-apart = weaken (allocate-Allocated size ready pos) λ p _ (answer, _). elim answer [
    | Allocated.no_pool e _ _ ↦ inl e
    | Allocated.used_up _ _ _ e _ _ _ _ _ ↦ inl e
    | Allocated.granted vs₁ v a b fs vs₂ e is _ fits _ ↦
        let own : Owns b v.size vs =
          subst (λ us. Owns b v.size us) (sym is)
            (Owns-middle b vs₁ (with_free v a b fs) vs₂ (rw ==_refl refl)) in
        let (apart, above, within) =
          blocks-Disjoint b v.size b' size' ready.pools own (Held-Owns b' size' vs held)
            (granted_ne vs₁ v a b fs vs₂ is) in
        inr (
          omega (arith, above, e),
          omega (arith, within, e, fits),
          elim apart [
            | inl h ↦ inl (omega (arith, h, e, fits))
            | inr h ↦ inr (omega (arith, h, e))
          ],
        )
  ]
