-- ===== src/LinkedList/Attempt.antt =====
-- `allocate_twice` of LinkedList/Insert: an allocation, and a second one after the pool was extended.
use microtbx.Base.{ℕ, suc, ◌≡◌, ◌≢◌, inl, inr, refl, sym, ◌∙◌, false, Option, some, ==_ne}
use microtbx.Target.{Target, Ptr, null}
use microtbx.LinkedList.Store.{Pools, State}
use microtbx.LinkedList.Insert.{allocate_twice}
use microtbx.LinkedList.Laws.{Blocks, with_block, Laws}
use microtbx.LinkedList.Returns.{Returns, returns}
use microtbx.LinkedList.Ready.{with_pools}

-- How the allocation of a block for a struct ends.
pub data Attempt {P : Type 0} (Inv : ℕ → Blocks → P → Type 0) (Same : P → P → Type 0)
    (Full : P → Type 0) (k : ℕ) (live : Blocks) (s : State P) (q : Ptr) (s' : State P)
    : Type 0 where
  exhausted :
      (pools : P)
      → q ≡ null
      → Full pools
      → s' ≡ with_pools s pools
      → Same s.pools pools
      → Inv k live pools
      → Attempt Inv Same Full k live s q s'
  granted :
      (pools : P)
      → q ≢ null
      → live q ≡ false
      → s' ≡ with_pools s pools
      → Same s.pools pools
      → Inv k (with_block live q) pools
      → Attempt Inv Same Full k live s q s'

same_answer :
    {P : Type 0} {a b : Ptr} {s t : P}
    → ◌≡◌ {A = Option (Ptr × P)} (some (a, s)) (some (b, t))
    → a ≡ b
same_answer e = cc

module _ {P : Type 0} {p : Pools P} {size : ℕ} {Inv : ℕ → Blocks → P → Type 0}
    {Same : P → P → Type 0} {Full : P → Type 0} (laws : Laws p size Inv Same Full) (t : Target)
    {k : ℕ} {live : Blocks} where
  pub allocate_twice-Attempt :
      {s : State P}
      → Inv (suc (suc k)) live s.pools
      → Returns (Attempt Inv Same Full (suc (suc k)) live s) (allocate_twice p t size s)
  unfolding allocate_twice
  allocate_twice-Attempt {s} inv =
      let (q, s₁, e, same, outcome) = laws.allocate (suc k) live s.pools inv in
      elim outcome [
        | inr (ne, fresh, inv') ↦ rw (e, ==_ne ne) (returns (granted s₁ ne fresh refl same inv'))
        | inl (z, inv₁) ↦
            let (made, s₂, e₂, same₂, inv₂, came) = laws.create k live s₁ inv₁ in
            let (q₃, s₃, e₃, same₃, outcome₃) = laws.allocate (suc k) live s₂ inv₂ in
            let same₁₂ = laws.same_trans s.pools s₁ s₂ same same₂ in
            let same₁₃ = laws.same_trans s.pools s₂ s₃ same₁₂ same₃ in
            rw (e, z, e₂)
              (elim came [
                | inl (yes_made, (q₄, s₄, e₄, ne₄)) ↦
                    rw (yes_made, e₃)
                      (elim outcome₃ [
                        | inl (z₃, inv₃) ↦ absurd (ne₄ (same_answer (sym e₄ ∙ e₃) ∙ z₃))
                        | inr (ne₃, fresh₃, inv₃) ↦ returns (granted s₃ ne₃ fresh₃ refl same₁₃ inv₃)
                      ])
                | inr (not_made, full) ↦
                    rw not_made (returns (exhausted s₂ refl full refl same₁₂ inv₂))
              ])
      ]
