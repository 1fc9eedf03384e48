-- ===== src/MemPool/Disjoint.antt =====
-- The bytes of the blocks of source/tbx_mempool.c, of all the pools.
use microtbx.Base.{
  ℕ, ◌+◌, ◌≤◌, ◌<◌, ◌≡◌, ◌≢◌, sym, arith, true, List, [], ◌∷◌, ◌++◌, All, ◌==◌, Bool-cases, inl,
  inr, ◌⊎◌, ==_iff, subst,
}
use native.Mathlib.Decide.{dec_lt}
use microtbx.Target.{Config, Ptr, sizeof_ptr}
use microtbx.MemPool.Store.{State, Memory}
use microtbx.MemPool.View.{View, mem, stock, IsBlock, IsView, IsPools}

-- `b` is a block for `size` of one of the pools, free or in a client's hands.
abbrev pub Owns : (b size : ℕ) → List View → Type 0
Owns b size [] = ⊥
Owns b size (v ∷ vs) = ((v.size ≡ size) × (mem b (stock v.free ++ v.live) ≡ true)) ⊎ Owns b size vs

All-mem : (P : Ptr → Type 0) (xs : List Ptr) → All P xs → (b : Ptr) → mem b xs ≡ true → P b
All-mem P [] all b h = cc
All-mem P (x ∷ xs) all b h = elim (Bool-cases (b == x)) [
  | inl z ↦ subst P (sym ((==_iff b x).0 z)) all.0
  | inr nz ↦ All-mem P xs all.1 b (rw nz at h)
]

pub Owns-IsBlock :
    (w : ℕ) (m : Memory) (home : Ptr → ℕ) (e : ℕ) (b size : ℕ) (vs : List View)
    → All (IsView w m home e) vs
    → Owns b size vs
    → IsBlock w m home e size b × (0 < size)
Owns-IsBlock w m home e b size [] views own = absurd own
Owns-IsBlock w m home e b size (v ∷ vs) views (inl (is, h)) =
    let block = All-mem (IsBlock w m home e v.size) (stock v.free ++ v.live) views.0.blocks b h in
    (subst (λ k. IsBlock w m home e k b) is block, omega (arith, is, views.0.size_pos))
Owns-IsBlock w m home e b size (v ∷ vs) views (inr own) =
    Owns-IsBlock w m home e b size vs views.1 own

-- No block begins in front of the buffer.
pub Owns-above :
    {c : Config} {home : Ptr → ℕ} {vs : List View} {s : State} (b size : ℕ)
    → IsPools c home vs s
    → Owns b size vs
    → c.base ≤ b
Owns-above {c} {home} {vs} {s} b size pools own =
    let (block, pos) =
      Owns-IsBlock (sizeof_ptr c.target) s.memory home (c.base + s.heap.allocated) b size vs
        pools.views own in
    elim (dec_lt b c.base) [
      | yes lt ↦ absurd (omega (arith, pools.low b lt, block.0.2, pos))
      | no ge ↦ omega arith
    ]

-- Two blocks of the pools, free or held, whatever their sizes: each lies in the heap's buffer, its
-- size word and its bytes, from the buffer's start to its end, and one ends before the other begins.
pub blocks-Disjoint :
    {c : Config} {home : Ptr → ℕ} {vs : List View} {s : State} (b₁ size₁ b₂ size₂ : ℕ)
    → IsPools c home vs s
    → Owns b₁ size₁ vs
    → Owns b₂ size₂ vs
    → b₁ ≢ b₂
    → ((b₁ + sizeof_ptr c.target + size₁ ≤ b₂) ⊎ (b₂ + sizeof_ptr c.target + size₂ ≤ b₁))
      × (c.base ≤ b₁)
      × (b₁ + sizeof_ptr c.target + size₁ ≤ c.base + c.heap_size)
blocks-Disjoint {c} {home} {vs} {s} b₁ size₁ b₂ size₂ pools own₁ own₂ ne =
    let (x, pos) =
      Owns-IsBlock (sizeof_ptr c.target) s.memory home (c.base + s.heap.allocated) b₁ size₁ vs
        pools.views own₁ in
    let (y, pos') =
      Owns-IsBlock (sizeof_ptr c.target) s.memory home (c.base + s.heap.allocated) b₂ size₂ vs
        pools.views own₂ in
    (apart x y pos pos', Owns-above b₁ size₁ pools own₁, omega (arith, x.2, pools.heap.within))
  where
    apart :
        IsBlock (sizeof_ptr c.target) s.memory home (c.base + s.heap.allocated) size₁ b₁
        → IsBlock (sizeof_ptr c.target) s.memory home (c.base + s.heap.allocated) size₂ b₂
        → 0 < size₁
        → 0 < size₂
        → (b₁ + sizeof_ptr c.target + size₁ ≤ b₂) ⊎ (b₂ + sizeof_ptr c.target + size₂ ≤ b₁)
    apart x y pos pos' = elim (dec_lt b₁ b₂) [
      | yes lt ↦ elim (dec_lt b₂ (b₁ + sizeof_ptr c.target + size₁)) [
        | yes hit ↦ absurd (omega (arith, x.3 b₂ lt hit, y.0.2))
        | no out ↦ inl (omega arith)
      ]
      | no ge ↦ elim (dec_lt b₁ (b₂ + sizeof_ptr c.target + size₂)) [
        | yes hit ↦ absurd (omega (arith, y.3 b₁ (omega arith) hit, x.0.2))
        | no out ↦ inr (omega arith)
      ]
    ]
