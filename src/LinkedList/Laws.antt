-- ===== src/LinkedList/Laws.antt =====
-- What source/tbx_list.c relies on of the memory pools and the critical sections, which are the
-- interface `Pools`.
use microtbx.Base.{ℕ, suc, ◌≡◌, ◌≢◌, ◌⊎◌, Bool, true, false, ◌||◌, ◌==◌, if◌then◌else◌, some}
use microtbx.Target.{Ptr, null}
use microtbx.LinkedList.Store.{Pools}

-- The blocks that the pools have handed out.
abbrev pub Blocks : Type 0
Blocks = Ptr → Bool

abbrev pub with_block : Blocks → Ptr → Blocks
with_block live q a = (a == q) || live a

abbrev pub without_block : Blocks → Ptr → Blocks
without_block live q a = if a == q then false else live a

-- A block can be had.
abbrev pub Stocked : {P : Type 0} → Pools P → ℕ → P → Type 0
Stocked {P} p size s = (q : Ptr) × (s' : P) × (p.allocate size s ≡ some (q, s')) × (q ≢ null)

-- `Inv k live s`: in the state `s` the blocks `live` are handed out, and there is room for `k` more
-- nested critical sections. `Same`: a part of a program that gives every section back.
-- `Full`: there is no memory for another block.
pub record Laws {P : Type 0} (p : Pools P) (size : ℕ) (Inv : ℕ → Blocks → P → Type 0)
    (Same : P → P → Type 0) (Full : P → Type 0) : Type 0 where
  pub same_refl : (s : P) → Same s s
  pub same_trans : (s t u : P) → Same s t → Same t u → Same s u
  pub enter : (k : ℕ) (live : Blocks) (s : P) → Inv (suc k) live s → Inv k live (p.enter s)
  pub leave :
      (k : ℕ) (live live' : Blocks) (s t : P)
      → Inv (suc k) live s
      → Same (p.enter s) t
      → Inv k live' t
      → Inv (suc k) live' (p.leave t) × Same s (p.leave t)
  pub allocate :
      (k : ℕ) (live : Blocks) (s : P)
      → Inv (suc k) live s
      → (q : Ptr) × (s' : P) × (p.allocate size s ≡ some (q, s'))
        × Same s s'
        × (((q ≡ null) × Inv (suc k) live s')
            ⊎ ((q ≢ null) × (live q ≡ false) × Inv (suc k) (with_block live q) s'))
  pub create :
      (k : ℕ) (live : Blocks) (s : P)
      → Inv (suc (suc k)) live s
      → (made : Bool) × (s' : P) × (p.create 1 size s ≡ some (made, s'))
        × Same s s'
        × Inv (suc (suc k)) live s'
        × (((made ≡ true) × Stocked p size s') ⊎ ((made ≡ false) × Full s'))
  pub release :
      (k : ℕ) (live : Blocks) (q : Ptr) (s : P)
      → Inv (suc k) live s
      → live q ≡ true
      → (s' : P) × (p.release q s ≡ some s') × Same s s' × Inv (suc k) (without_block live q) s'
