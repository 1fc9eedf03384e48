-- ===== src/Ports/Rp2040/Alone.antt =====
-- source/port/RP2040/tbx_port.c: the steps of one core in `TbxPortInterruptsDisable` while no other
-- core makes a step.
use microtbx.Base.{ℕ, suc, ◌+◌, ◌≡◌, refl, ap, ◌∙◌, arith, false, none, some, if◌then◌else◌}
use microtbx.Ports.Rp2040.{Sync, Place, Call, State, step, Reaches, is_inside, disable_alone}

module _ {L : Type 0} (sync : Sync L) (i : ℕ) where
  -- The core gets from `s` to a state in `n` steps, inside at none of those that lie between.
  pub data Alone (s : State L) : ℕ → State L → Type 0 where
    start : Alone s 0 s
    next :
        {n : ℕ} {t u : State L}
        → Alone s n t
        → is_inside (t.places i) ≡ false
        → step sync Call.disable i t ≡ some u
        → Alone s (suc n) u

  pub Alone-Reaches : {s t : State L} {n : ℕ} → Alone s n t → Reaches sync s t
  Alone-Reaches Alone.start = Reaches.start
  Alone-Reaches (Alone.next before out e) = Reaches.next Call.disable i (Alone-Reaches before) e

  once :
      (k : ℕ) (t : State L) {u : State L}
      → is_inside (t.places i) ≡ false
      → step sync Call.disable i t ≡ some u
      → disable_alone sync (suc k) i t ≡ disable_alone sync k i u
  unfolding disable_alone
  once k t out e = rw (out, e) refl

  pub disable_alone-Alone :
      {s t : State L} {n : ℕ} (k : ℕ)
      → Alone s n t
      → disable_alone sync (n + k) i s ≡ disable_alone sync k i t
  disable_alone-Alone {s} k Alone.start = ap (λ m. disable_alone sync m i s) (omega arith)
  disable_alone-Alone {s} k (Alone.next {n} {t} before out e) =
      ap (λ m. disable_alone sync m i s) (omega arith)
      ∙ disable_alone-Alone (suc k) before
      ∙ once k t out e

  pub disable_alone-inside :
      {t : State L} → t.places i ≡ Place.inside → disable_alone sync 0 i t ≡ some t
  unfolding disable_alone
  disable_alone-inside {t} at = ap (λ (p : Place). if is_inside p then some t else none) at
