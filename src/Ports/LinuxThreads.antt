-- ===== src/Ports/LinuxThreads.antt =====
-- source/port/LINUX/tbx_port.c with any number of threads: each step is one access to a shared
-- variable.
pub mod Invariant
use microtbx.Base.{
  ℕ, ◌≡◌, ◌≢◌, refl, sym, ap, ◌∙◌, arith, Bool, true, false, Option, none, some, ◌==◌, ==_iff,
  ==_refl, ==_ne, Bool-cases, inl, inr, if◌then◌else◌,
}
use microtbx.Ports.Lock.{Lock, IsLock, update}

-- Where a thread is: outside; in `TbxPortInterruptsDisable` with the flag set, in front of
-- `pthread_mutex_lock`; inside, with `true` for the result TBX_PORT_CPU_SR_IRQ_EN; in
-- `TbxPortInterruptsRestore` in front of `atomic_flag_clear`.
pub data Place : Type 0 where
  outside locking clearing : Place
  inside : (enabled : Bool) → Place

-- `interruptsDisabledFlag` and `critSectMutex`.
pub record State (L : Type 0) : Type 0 where
  pub flag : Bool
  pub mutex : L
  pub places : ℕ → Place

module _ {L : Type 0} (lock : Lock L) where
  abbrev pub locked : ℕ → State L → Option L → Option (State L)
  locked i s none = none
  locked i s (some l) =
      some (record { flag = s.flag; mutex = l; places = update s.places i (Place.inside true) })

  -- By what `atomic_flag_test_and_set` returned.
  abbrev pub flag_set : ℕ → State L → Bool → Option (State L)
  flag_set i s true = some (record s { places = update s.places i (Place.inside false) })
  flag_set i s false =
      some (record { flag = true; mutex = s.mutex; places = update s.places i Place.locking })

  abbrev pub advance : ℕ → Place → State L → Option (State L)
  advance i Place.outside s = flag_set i s s.flag
  advance i Place.locking s = locked i s (lock.take i s.mutex)
  advance i (Place.inside true) s = some (record {
    flag = s.flag;
    mutex = lock.give i s.mutex;
    places = update s.places i Place.clearing;
  })
  advance i (Place.inside false) s = some (record s { places = update s.places i Place.outside })
  advance i Place.clearing s =
      some (record { flag = false; mutex = s.mutex; places = update s.places i Place.outside })

  -- The next step of the thread `i`, which has none while it waits for the mutex.
  pub step : ℕ → State L → Option (State L)
  step i s = advance i (s.places i) s

  pub data Reaches (s : State L) : State L → Type 0 where
    start : Reaches s s
    next : {t u : State L} (i : ℕ) → Reaches s t → step i t ≡ some u → Reaches s u

-- All threads are outside.
abbrev pub initial : {L : Type 0} → L → State L
initial mutex = record { flag = false; mutex = mutex; places = λ _. Place.outside }

abbrev pub is_inside : Place → Bool
is_inside Place.outside = false
is_inside Place.locking = false
is_inside Place.clearing = false
is_inside (Place.inside enabled) = true
