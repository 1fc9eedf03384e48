-- ===== src/Ports/Lock.antt =====
-- What the ports for several threads or cores rely on of the lock that they are given: the mutex of
-- source/port/LINUX/tbx_port.c and the spin lock of source/port/RP2040/tbx_port.c.
use microtbx.Base.{ℕ, ◌≡◌, Option, none, some, ◌==◌, ==_refl, refl, if◌then◌else◌}

-- `take` has no result while the caller has to wait.
pub record Lock (L : Type 0) : Type 0 where
  pub take : (caller : ℕ) → L → Option L
  pub give : (caller : ℕ) → L → L

-- `holder` says who has the lock.
pub record IsLock {L : Type 0} (lock : Lock L) (holder : L → Option ℕ) : Type 0 where
  pub taken :
      (i : ℕ) (l l' : L) → lock.take i l ≡ some l' → (holder l ≡ none) × (holder l' ≡ some i)
  pub given : (i : ℕ) (l : L) → holder l ≡ some i → holder (lock.give i l) ≡ none
  pub ready : (i : ℕ) (l : L) → holder l ≡ none → (l' : L) × (lock.take i l ≡ some l')

-- The value at one place of a function changes.
abbrev pub update : {A : Type 0} → (ℕ → A) → ℕ → A → ℕ → A
update f i v j = if j == i then v else f j

pub update_here : {A : Type 0} (f : ℕ → A) (i : ℕ) (v : A) → update f i v i ≡ v
update_here f i v = rw (==_refl i) refl
