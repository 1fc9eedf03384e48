-- ===== src/Tests/PortExamples.antt =====
-- The properties of the ports for several threads and cores, of source/tbx_assert.c and of
-- source/extra/cplusplus/tbxcxx.cpp at concrete inputs.
use microtbx.Target.{Ptr}
use microtbx.Base.{
  ℕ, zero, suc, ltb, Bool, if◌then◌else◌, ◌+◌, ◌*◌, ◌≡◌, refl, ap, arith, true, Option, none, some,
  List, [], ◌∷◌,
}
use microtbx.CritSect.{Crit, enter, leave}
use microtbx.CritSect.Nested.{Paired, run}
use microtbx.Ports.{avr_port, run-avr_port}
use microtbx.Ports.Lock.{Lock, IsLock}
use microtbx.Ports.LinuxThreads
use microtbx.Ports.LinuxThreads.{is_inside}
use microtbx.Ports.LinuxThreads.Invariant.{step-Reaches, both_inside}
use microtbx.Ports.Rp2040
use microtbx.Ports.Rp2040.{Sync, Place, disable_alone, cold}
use microtbx.Ports.Rp2040.FirstSection.{Provides, inside-first, both_cores_inside}
use microtbx.Assert.{Handler, trigger}
use microtbx.Assert.Handlers.{continue, set_handlers, trigger-set_handlers}
use microtbx.MemPool.Ends.{Ends}
use microtbx.MemPool.NewPool.{Grown}
use microtbx.Cplusplus.{operator_new, operator_new_array}
use microtbx.Cplusplus.Operators.{Newed, operator_new-Newed}
use microtbx.Tests.{small}
use microtbx.Tests.Stocked.{home, pool16, stocked, stocked-Ready}

-- A lock that is the one who has it.
abbrev take_free : ℕ → Option ℕ → Option (Option ℕ)
take_free i none = some (some i)
take_free i (some j) = none

abbrev simple_lock : Lock (Option ℕ)
simple_lock = record { take = take_free; give = λ i l. none }

abbrev holder : Option ℕ → Option ℕ
holder l = l

take_free-taken : (i : ℕ) (l l' : Option ℕ) → take_free i l ≡ some l' → (l ≡ none) × (l' ≡ some i)
take_free-taken i none l' e = (refl, cc)
take_free-taken i (some j) l' e = absurd cc

simple-IsLock : IsLock simple_lock holder
simple-IsLock = record {
  taken = take_free-taken;
  given = λ i l h. refl;
  ready = λ i l h. (some i, ap (take_free i) h);
}

step-Reaches_example :
    (u : LinuxThreads.State (Option ℕ)) × (LinuxThreads.step simple_lock 5
        (LinuxThreads.initial none)
      ≡ some u)
step-Reaches_example = step-Reaches simple-IsLock {l = none} refl LinuxThreads.Reaches.start 5

both_inside_example :
    (s : LinuxThreads.State (Option ℕ)) × LinuxThreads.Reaches simple_lock
      (LinuxThreads.initial none)
      s
    × (is_inside (s.places 1) ≡ true)
    × (is_inside (s.places 2) ≡ true)
both_inside_example = both_inside simple-IsLock {l = none} refl 1 2 (omega arith)

-- The first of `count` locks from `n` on that is not claimed.
abbrev lowest : (count n : ℕ) → (ℕ → Bool) → Option ℕ
lowest zero n claimed = none
lowest (suc count) n claimed =
    let rest = lowest count (n + 1) claimed in if claimed n then rest else some n

abbrev pico : Sync (Option ℕ)
pico = record {
  claim_unused = lowest 32 0;
  instance_ = λ n. 4 * n + 0xD0000100;
  lock = simple_lock;
}

-- Other code has claimed the first three.
abbrev three_claimed : ℕ → Bool
three_claimed n = ltb n 3

abbrev all_free : Ptr → Option ℕ
all_free handle = none

pico-Provides : Provides pico holder three_claimed all_free
pico-Provides = record { number = 3; unused = refl; handle = omega arith; free = refl }

inside-first_example :
    (t : Rp2040.State (Option ℕ)) × (disable_alone pico 12 1 (cold three_claimed all_free) ≡ some t)
    × (t.places 1 ≡ Place.inside)
    × ((u : Rp2040.State (Option ℕ))
        → Rp2040.Reaches pico t u
        → (j k : ℕ) → u.places j ≡ Place.inside
        → u.places k ≡ Place.inside
        → j ≡ k)
inside-first_example = inside-first pico simple-IsLock pico-Provides 1

both_cores_inside_example :
    (t : Rp2040.State (Option ℕ)) × Rp2040.Reaches pico (cold three_claimed all_free) t
    × (t.places 0 ≡ Place.inside)
    × (t.places 1 ≡ Place.inside)
both_cores_inside_example = both_cores_inside pico simple-IsLock pico-Provides 0 1 (omega arith)

-- Handlers that note the line.
abbrev note : ℕ → Handler ℕ (List ℕ)
note n file line w = (n + line) ∷ w

trigger-set_handlers_example :
    continue 3 40
      (set_handlers 3 40
        (none ∷ some (note 2000) ∷ none ∷ [])
        (record { handler = some (note 1000); world = [] }))
      (trigger 3 50)
    ≡ some (record { handler = some (note 2000); world = 2050 ∷ 2040 ∷ 1040 ∷ [] })
trigger-set_handlers_example =
    trigger-set_handlers 3 40 (note 1000) (none ∷ some (note 2000) ∷ none ∷ []) [] 3 50

operator_new-Newed_example :
    Ends
      (λ r s'. Newed small (pool16 ∷ []) 16 r s' × Grown stocked s')
      (operator_new small 16 stocked)
    × Ends
        (λ r s'. Newed small (pool16 ∷ []) 16 r s' × Grown stocked s')
        (operator_new_array small 16 stocked)
operator_new-Newed_example =
    operator_new-Newed {c = small} {home = home} {vs = pool16 ∷ []} {s = stocked} 16 (omega arith)
      stocked-Ready

-- With the interrupts on and outside of every section.
abbrev enabled : Crit
enabled = record { nesting = 0; saved = 0; cpu = 0x83 }

-- A section with a section in it.
abbrev nested_once : Paired
nested_once = Paired.section (Paired.section Paired.done Paired.done) Paired.done

run-avr_port_example :
    ((run avr_port nested_once (enter avr_port enabled)).cpu ≡ 3)
    × ((leave avr_port (run avr_port nested_once (enter avr_port enabled))).cpu ≡ 0x83)
    × ((leave avr_port (run avr_port nested_once (enter avr_port enabled))).nesting ≡ 0)
run-avr_port_example =
    run-avr_port nested_once enabled
      (record { room = omega arith; masked = λ h. absurd (omega (arith, h)) })
