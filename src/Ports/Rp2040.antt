-- ===== src/Ports/Rp2040.antt =====
-- source/port/RP2040/tbx_port.c on its two cores: each step is one access to a variable that the
-- cores share. Assertions are off, as by default.
pub mod Alone
pub mod Exclusion
pub mod FirstSection
use microtbx.Base.{
  ℕ, zero, suc, ◌+◌, ◌≡◌, ◌≢◌, Bool, true, false, Option, none, some, ◌==◌, ltb, if◌then◌else◌,
}
use microtbx.Target.{Ptr, null}
use microtbx.Ports.Lock.{Lock, update}

-- What hardware/sync.h gives: the number of a lock that is not claimed, where `none` is -1, the handle
-- of a lock, and how a lock is taken and given back.
pub record Sync (L : Type 0) : Type 0 where
  pub claim_unused : (claimed : ℕ → Bool) → Option ℕ
  pub instance_ : ℕ → Ptr
  pub lock : Lock L

-- `NUM_CORES`
abbrev pub num_cores : ℕ
num_cores = 2

-- Where a core is: outside; in `TbxPortInterruptsDisable` in front of the test of
-- `spinLockInitialized`, its assignment, the flag of one core, `spin_lock_claim_unused`, the
-- assignment to `spinLock`, the test of `spinLock`, that of `coreHasLock`, `spin_lock_blocking`, and the assignment to `coreHasLock`;
-- inside; in `TbxPortInterruptsRestore` in front of the test of `spinLock`, the assignment to
-- `coreHasLock`, and `spin_unlock`.
pub data Place : Type 0 where
  outside testing starting claiming entering asking locking marking inside : Place
  restoring unmarking unlocking : Place
  clearing : (core_idx : ℕ) → Place
  naming : (lock_num : ℕ) → Place

pub data Call : Type 0 where
  disable restore : Call

-- `spinLockInitialized`, `spinLock`, which lock numbers are claimed, the locks by their handles, and
-- `coreHasLock`.
pub record State (L : Type 0) : Type 0 where
  pub initialized : Bool
  pub spin_lock : Ptr
  pub claimed : ℕ → Bool
  pub locks : Ptr → L
  pub core_has_lock : ℕ → Bool
  pub places : ℕ → Place

abbrev pub move : {L : Type 0} → ℕ → Place → State L → State L
move i p s = record s { places = update s.places i p }

module _ {L : Type 0} (sync : Sync L) where
  abbrev pub locked : ℕ → State L → Option L → Option (State L)
  locked i s none = none
  locked i s (some l) =
      some (move i Place.marking (record s { locks = update s.locks s.spin_lock l }))

  -- The number that was found is claimed from now on.
  abbrev pub claim : ℕ → State L → Option ℕ → State L
  claim i s none = move i Place.entering s
  claim i s (some n) = move i (Place.naming n) (record s { claimed = update s.claimed n true })

  -- Restoring is what a core does only after it disabled.
  abbrev pub advance : Call → ℕ → Place → State L → Option (State L)
  advance Call.disable i Place.outside s = some (move i Place.testing s)
  advance Call.restore i Place.outside s = none
  advance Call.disable i Place.inside s = some (move i Place.testing s)
  advance Call.restore i Place.inside s = some (move i Place.restoring s)
  advance call i Place.testing s =
      some (move i (if s.initialized then Place.entering else Place.starting) s)
  advance call i Place.starting s =
      some (move i (Place.clearing 0) (record s { initialized = true }))
  advance call i (Place.clearing core_idx) s = some (
      if ltb core_idx num_cores
      then (move i (Place.clearing (core_idx + 1))
          (record s { core_has_lock = update s.core_has_lock core_idx false }))
      else move i Place.claiming s)
  advance call i Place.claiming s = some (claim i s (sync.claim_unused s.claimed))
  advance call i (Place.naming lock_num) s =
      some (move i Place.entering (record s { spin_lock = sync.instance_ lock_num }))
  advance call i Place.entering s =
      some (move i (if s.spin_lock == null then Place.inside else Place.asking) s)
  advance call i Place.asking s =
      some (move i (if s.core_has_lock i then Place.inside else Place.locking) s)
  advance call i Place.locking s = locked i s (sync.lock.take i (s.locks s.spin_lock))
  advance call i Place.marking s =
      some (move i Place.inside (record s { core_has_lock = update s.core_has_lock i true }))
  advance call i Place.restoring s =
      some (move i (if s.spin_lock == null then Place.outside else Place.unmarking) s)
  advance call i Place.unmarking s =
      some (move i Place.unlocking (record s { core_has_lock = update s.core_has_lock i false }))
  advance call i Place.unlocking s = some (
      move i Place.outside
        (record s { locks = update s.locks s.spin_lock (sync.lock.give i (s.locks s.spin_lock)) }))

  -- The next step of the core `i`, where `call` counts for a core that is outside or inside. There is
  -- none while it waits for the lock.
  pub step : Call → ℕ → State L → Option (State L)
  step call i s = advance call i (s.places i) s

  pub data Reaches (s : State L) : State L → Type 0 where
    start : Reaches s s
    next :
        {t u : State L} (call : Call) (i : ℕ) → Reaches s t → step call i t ≡ some u → Reaches s u

abbrev pub is_inside : Place → Bool
is_inside Place.inside = true
is_inside place = false

abbrev pub and_then :
    {L : Type 0} → Option (State L) → (State L → Option (State L)) → Option (State L)
and_then none f = none
and_then (some s) f = f s

-- `TbxPortInterruptsDisable` by the core `i` while no other core makes a step: the state in which it is
-- inside, if `fuel` steps are enough for that and it has not to wait.
pub disable_alone : {L : Type 0} → Sync L → (fuel : ℕ) → ℕ → State L → Option (State L)
disable_alone sync zero i s = if is_inside (s.places i) then some s else none
disable_alone sync (suc fuel) i s =
    let rest = disable_alone sync fuel i in
    if is_inside (s.places i) then some s else and_then (step sync Call.disable i s) rest

-- After a reset, with the locks that other code has claimed.
abbrev pub cold : {L : Type 0} → (claimed : ℕ → Bool) → (locks : Ptr → L) → State L
cold claimed locks = record {
  initialized = false;
  spin_lock = null;
  claimed = claimed;
  locks = locks;
  core_has_lock = λ _. false;
  places = λ _. Place.outside;
}
