-- ===== src/CritSect/Nested.antt =====
-- source/tbx_critsect.c: code whose calls of the two functions are paired, and the contract of a port
-- (source/tbx_port.h).
use microtbx.Base.{
  ℕ, suc, ◌+◌, ◌^◌, ◌<◌, ◌≤◌, ◌≡◌, refl, arith, inl, inr, sym, ap₂, ◌∙◌, Bool-cases, ◌==◌, ltb,
  if◌then◌else◌,
}
use microtbx.Target.{Port}
use microtbx.CritSect.{Crit, enter, leave}

-- Restoring the value that `disable` returned undoes it, and disabling twice is disabling once.
pub record IsPort (p : Port) : Type 0 where
  pub undo : (s : ℕ) → p.restore (p.disable s).0 (p.disable s).1 ≡ s
  pub again : (s : ℕ) → (p.disable (p.disable s).1).1 ≡ (p.disable s).1

-- There is room for `k` more levels, and inside a section the interrupts are off.
pub record IsReady (p : Port) (k : ℕ) (s : Crit) : Type 0 where
  pub room : s.nesting + k < 2 ^ 32
  pub masked : 0 < s.nesting → (p.disable s.cpu).1 ≡ s.cpu

-- `t` is `s` again, up to the copy of the status register, which counts inside a section alone.
pub record Restored (s t : Crit) : Type 0 where
  pub nesting : t.nesting ≡ s.nesting
  pub cpu : t.cpu ≡ s.cpu
  pub saved : 0 < s.nesting → t.saved ≡ s.saved

pub Restored_refl : (s : Crit) → Restored s s
Restored_refl s = record { nesting = refl; cpu = refl; saved = λ _. refl }

pub Restored_trans : {s t u : Crit} → Restored s t → Restored t u → Restored s u
Restored_trans a b = record {
  nesting = b.nesting ∙ a.nesting;
  cpu = b.cpu ∙ a.cpu;
  saved = λ h. b.saved (omega (arith, a.nesting)) ∙ a.saved h;
}

pub Restored-IsReady :
    {p : Port} {k : ℕ} {s t : Crit} → Restored s t → IsReady p k s → IsReady p k t
Restored-IsReady {p} r h = record {
  room = omega (arith, r.nesting, h.room);
  masked = λ pos. rw r.cpu (h.masked (omega (arith, r.nesting)));
}

module _ {p : Port} (port : IsPort p) {k : ℕ} {s : Crit} (ready : IsReady p (suc k) s) where
  pub enter-IsReady : IsReady p k (enter p s)
  unfolding enter
  enter-IsReady = record { room = omega (arith, ready.room); masked = λ _. port.again s.cpu }

  enter-nesting : (enter p s).nesting ≡ suc s.nesting
  unfolding enter
  enter-nesting = omega (arith, ready.room)

  outer : {t : Crit} → Restored (enter p s) t → s.nesting ≡ 0 → Restored s (leave p t)
  unfolding enter leave
  outer {t} r z =
      let deep : t.nesting ≡ 1 = r.nesting ∙ omega (arith, z) in
      let kept : t.saved ≡ (p.disable s.cpu).0 = r.saved (omega (arith, z)) ∙ rw z in
      record {
        nesting = rw deep (sym z);
        cpu = rw deep (ap₂ p.restore kept r.cpu ∙ port.undo s.cpu);
        saved = λ pos. absurd (omega (arith, z));
      }

  inner : {t : Crit} → Restored (enter p s) t → 0 < s.nesting → Restored s (leave p t)
  unfolding enter leave
  inner {t} r pos =
      let deep : t.nesting ≡ s.nesting + 1 = r.nesting ∙ omega (arith, ready.room) in
      record {
        nesting = ground arith;
        cpu = ground (arith, ready.masked pos, r.cpu);
        saved = λ _. ground (arith, r.saved (omega (arith, ready.room)));
      }

  -- A body between `enter` and `leave` that gives the section back as it found it.
  pub section-Restored : {t : Crit} → Restored (enter p s) t → Restored s (leave p t)
  section-Restored r = elim (Bool-cases (s.nesting == 0)) [
    | inl z ↦ outer r (ground arith)
    | inr nz ↦ inner r (ground arith)
  ]

-- Code whose calls of the two functions are paired: nothing, or a section with a body, and more.
pub data Paired : Type 0 where
  done : Paired
  section : Paired → Paired → Paired

unfoldable pub run : Port → Paired → Crit → Crit
unfolding enter leave
run p Paired.done s = s
run p (Paired.section body rest) s = run p rest (leave p (run p body (enter p s)))

abbrev larger : ℕ → ℕ → ℕ
larger m n = if ltb m n then n else m

-- How many sections are open at once at most.
abbrev pub depth : Paired → ℕ
depth Paired.done = 0
depth (Paired.section body rest) = larger (suc (depth body)) (depth rest)

larger_bounds : (m n : ℕ) → (m ≤ larger m n) × (n ≤ larger m n)
larger_bounds m n = (ground arith, ground arith)

IsReady-less : {p : Port} {j k : ℕ} {s : Crit} → j ≤ k → IsReady p k s → IsReady p j s
IsReady-less le h = record { room = omega (arith, le, h.room); masked = h.masked }

-- With a sound port: after code whose calls are paired, however many sections it has, and that nests
-- them no deeper than there is room for in the counter, which has 32 bits, the counter and the CPU's
-- status register are what they were.
pub run-Restored :
    {p : Port} (t : Paired) {s : Crit} → IsPort p → IsReady p (depth t) s → Restored s (run p t s)
unfolding run
run-Restored Paired.done {s} port ready = Restored_refl s
run-Restored {p} (Paired.section body rest) {s} port ready =
    let (within, behind) = larger_bounds (suc (depth body)) (depth rest) in
    let deeper : IsReady p (suc (depth body)) s = IsReady-less within ready in
    let first = section-Restored port deeper (run-Restored body port (enter-IsReady port deeper)) in
    let later : IsReady p (depth rest) s = IsReady-less behind ready in
    Restored_trans first (run-Restored rest port (Restored-IsReady first later))
