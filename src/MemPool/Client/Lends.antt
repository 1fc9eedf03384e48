-- ===== src/MemPool/Client/Lends.antt =====
-- What a client of source/tbx_mempool.c holds, beside the pools that the memory holds.
use microtbx.Base.{
  ℕ, zero, suc, ◌+◌, ◌≤◌, ◌≡◌, ◌≢◌, ◌⊎◌, refl, sym, ap, subst, ◌∙◌, arith, inl, inr, true, none,
  some, List, [], ◌∷◌, ◌++◌, All, ==_refl,
}
use microtbx.Target.{Config, Ptr, sizeof_ptr}
use microtbx.MemPool.Store.{State}
use microtbx.MemPool.View.{Cells, View, IsView, IsPools, mem, stock, NoDup, Ascending}
use microtbx.MemPool.Frame.{All-map}
use microtbx.MemPool.Replace.{All-middle, Ascending-replace}
use microtbx.MemPool.Take.{taken}
use microtbx.MemPool.Ends.{Ready}
use microtbx.MemPool.Disjoint.{Owns-IsBlock, Owns-above, blocks-Disjoint}
use microtbx.MemPool.Fresh.{Held, Held-Owns, Held-middle}
use microtbx.MemPool.Holds.{Held-change, Held-here}
use microtbx.MemPool.Client.{Lent, Apart, pick}

-- A pointer that the client holds is behind the size word of a block that is large enough.
abbrev pub Holding : Config → List View → Lent → Type 0
Holding c vs x =
    (b : Ptr) × (size : ℕ) × (x.0 ≡ b + sizeof_ptr c.target) × (x.1 ≤ size) × Held b size vs

abbrev pub Distinct : List Lent → Type 0
Distinct [] = Unit
Distinct (x ∷ lent) = All (λ (y : Lent). x.0 ≢ y.0) lent × Distinct lent

-- The memory holds pools as they should be, and all that the client holds are blocks of theirs.
pub record Lends (c : Config) (lent : List Lent) (s : State) : Type 0 where
  pub home : Ptr → ℕ
  pub views : List View
  pub ready : Ready c home views 2 s
  pub held : All (Holding c views) lent
  pub distinct : Distinct lent

-- A pointer of the list, and the others.
pub data Picked (x : Lent) : List Lent → List Lent → Type 0 where
  here : {lent : List Lent} → Picked x (x ∷ lent) lent
  there : {y : Lent} {lent rest : List Lent} → Picked x lent rest → Picked x (y ∷ lent) (y ∷ rest)

pub pick_cases :
    (index : ℕ) (lent : List Lent)
    → (pick index lent ≡ none)
      ⊎ ((x : Lent) × (rest : List Lent) × (pick index lent ≡ some (x, rest)) × Picked x lent rest)
pick_cases index [] = inl refl
pick_cases zero (x ∷ lent) = inr (x, lent, refl, Picked.here)
pick_cases (suc index) (x ∷ lent) = elim (pick_cases index lent) [
  | inl e ↦ inl (rw e refl)
  | inr found ↦
      let (y, rest, e, picked) = found in inr (y, x ∷ rest, rw e refl, Picked.there picked)
]

pub Picked-All :
    (P : Lent → Type 0) {x : Lent} {lent rest : List Lent}
    → Picked x lent rest
    → All P lent
    → P x × All P rest
Picked-All P Picked.here all = all
Picked-All P (Picked.there picked) all =
    let (own, others) = Picked-All P picked all.1 in (own, (all.0, others))

pub Picked-Distinct :
    {x : Lent} {lent rest : List Lent}
    → Picked x lent rest
    → Distinct lent
    → All (λ (y : Lent). y.0 ≢ x.0) rest × Distinct rest
Picked-Distinct {x} {lent} {rest} Picked.here d =
    (All-map rest (λ y (ne : x.0 ≢ y.0) z. ne (sym z)) d.0, d.1)
Picked-Distinct (Picked.there {y} picked) d =
    let (ne, others) = Picked-All (λ (z : Lent). y.0 ≢ z.0) picked d.0 in
    let (nes, rest) = Picked-Distinct picked d.1 in ((ne, nes), (others, rest))

pub All-both :
    (P Q : Lent → Type 0) (xs : List Lent) → All P xs → All Q xs → All (λ x. P x × Q x) xs
All-both P Q [] p q = tt
All-both P Q (x ∷ xs) p q = ((p.0, q.0), All-both P Q xs p.1 q.1)

-- The last of the blocks is none of those behind it.
NoDup-behind : (b : Ptr) (xs ys : List Ptr) → NoDup (xs ++ b ∷ ys) → mem b ys ≡ true → ⊥
NoDup-behind b [] ys d h = absurd (let out = d.0 in cc)
NoDup-behind b (x ∷ xs) ys d h = NoDup-behind b xs ys d.1 h

module _ {c : Config} {home : Ptr → ℕ} {s : State} (vs₁ : List View) (v : View) (a b : Ptr)
    (fs : Cells) (vs₂ : List View) (pools : IsPools c home (vs₁ ++ taken v a b fs ∷ vs₂) s) where
  -- A block that was just handed out is none that was held before.
  handed_ne : (b' size' : ℕ) → Held b' size' (vs₁ ++ v ∷ vs₂) → b ≢ b'
  handed_ne b' size' held same =
      let w = sizeof_ptr c.target in
      let e = c.base + s.heap.allocated in
      let vs = vs₁ ++ taken v a b fs ∷ vs₂ in
      let now : Held b' size' vs =
        Held-change b' size' vs₁ v (taken v a b fs) vs₂ refl (λ m. ground (arith, m)) held in
      let here : Held b v.size vs =
        Held-here b v.size vs₁ (taken v a b fs) vs₂ refl (rw ==_refl refl) in
      let block =
        Owns-IsBlock w s.memory home e b' size' vs pools.views (Held-Owns b' size' vs now) in
      let block' =
        Owns-IsBlock w s.memory home e b v.size vs pools.views (Held-Owns b v.size vs here) in
      let size_is : size' ≡ v.size = sym block.0.0.2 ∙ ap home (sym same) ∙ block'.0.0.2 in
      let view = All-middle (IsView w s.memory home e) vs₁ (taken v a b fs) vs₂ pools.views in
      let was : Held b v.size (vs₁ ++ v ∷ vs₂) =
        subst (λ k. Held b k (vs₁ ++ v ∷ vs₂)) size_is
          (subst (λ d. Held d size' (vs₁ ++ v ∷ vs₂)) (sym same) held) in
      let ascending : Ascending (vs₁ ++ v ∷ vs₂) =
        Ascending-replace (taken v a b fs) v refl refl refl vs₂ vs₁ pools.ascending in
      NoDup-behind b (stock fs) v.live view.0.distinct (Held-middle b vs₁ v vs₂ ascending was)

  pub hand_out :
      (p size : ℕ) (lent : List Lent)
      → p ≡ b + sizeof_ptr c.target
      → size ≤ v.size
      → All (Holding c (vs₁ ++ v ∷ vs₂)) lent
      → Distinct lent
      → All (Holding c (vs₁ ++ taken v a b fs ∷ vs₂)) ((p, size) ∷ lent)
        × Distinct ((p, size) ∷ lent)
  hand_out p size lent e le held distinct = (
    (
      (b, v.size, e, le, Held-here b v.size vs₁ (taken v a b fs) vs₂ refl (rw ==_refl refl)),
      All-map lent
          (λ x (b', size', is, fits, h). (
            b',
            size',
            is,
            fits,
            Held-change b' size' vs₁ v (taken v a b fs) vs₂ refl (λ m. ground (arith, m)) h,
          ))
          held,
    ),
    (
      All-map lent
          (λ x (b', size', is, _, h) same. handed_ne b' size' h (omega (arith, same, e, is))) held,
      distinct,
    ),
  )

Lends-All :
    {c : Config} {home : Ptr → ℕ} {vs : List View} {s : State} (lent : List Lent)
    → IsPools c home vs s
    → All (Holding c vs) lent
    → Distinct lent
    → Apart c lent
Lends-All [] pools held distinct = tt
Lends-All {c} {home} {vs} {s} (x ∷ lent) pools held distinct =
    let (b, size, e, le, h) = held.0 in
    let w = sizeof_ptr c.target in
    let one : All (λ (y : Lent). (x.0 + x.1 + w ≤ y.0) ⊎ (y.0 + y.1 + w ≤ x.0)) lent =
      All-map lent
        (λ y ((b', size', e', le', h'), ne).
          let (apart, _, _) =
            blocks-Disjoint b size b' size' pools (Held-Owns b size vs h) (Held-Owns b' size' vs h')
              (λ same. ne (omega (arith, same, e, e'))) in
          elim apart [
            | inl before ↦ inl (omega (arith, before, e, e', le))
            | inr after ↦ inr (omega (arith, after, e, e', le'))
          ])
        (All-both (Holding c vs) (λ (y : Lent). x.0 ≢ y.0) lent held.1 distinct.0) in
    let block =
      Owns-IsBlock w s.memory home (c.base + s.heap.allocated) b size vs pools.views
        (Held-Owns b size vs h) in
    (
      (let above = Owns-above b size pools (Held-Owns b size vs h) in omega (arith, above, e)),
      omega (arith, block.0.2, pools.heap.within, e, le),
      one,
      Lends-All lent pools held.1 distinct.1,
    )

pub Lends-Apart : {c : Config} {lent : List Lent} {s : State} → Lends c lent s → Apart c lent
Lends-Apart {c} {lent} l = Lends-All lent l.ready.pools l.held l.distinct
