-- ===== src/Random/Cycle.antt =====
-- source/tbx_random.c: two states of the registers beside each other, and the registers over many calls
-- after a seed of 32 bits.
use microtbx.Base.{ℕ, zero, suc, ◌≡◌, refl, ap, ◌∙◌, arith, Bool, true, false, if◌then◌else◌}
use microtbx.Target.{Config}
use microtbx.Random.{
  Random, polymask32, polymask31, seed, default_seed31, init_lfsrs, shift_lfsr, number_16bit_get,
  number_get,
}
use microtbx.Random.Shift.{shift32-bounds, shift-injective}
use microtbx.Random.Numbers.{IsRandom, started}

-- Two states whose registers are running, and whose registers are the same after one call for 16 bits,
-- had the same registers before it.
pub number_16bit_get-injective :
    (c : Config) (s t : Random)
    → IsRandom s
    → IsRandom t
    → (number_16bit_get c s).1.lfsr32 ≡ (number_16bit_get c t).1.lfsr32
    → (number_16bit_get c s).1.lfsr31 ≡ (number_16bit_get c t).1.lfsr31
    → (s.lfsr32 ≡ t.lfsr32) × (s.lfsr31 ≡ t.lfsr31)
unfolding number_16bit_get
number_16bit_get-injective c s t hs ht e e' =
    let first = shift-injective 31 polymask32 (omega arith) (omega arith) in
    (
      first s.lfsr32 t.lfsr32 hs.lfsr32.1 ht.lfsr32.1 (
          first (shift_lfsr s.lfsr32 polymask32) (shift_lfsr t.lfsr32 polymask32)
            (shift32-bounds s.lfsr32 hs.lfsr32).1 (shift32-bounds t.lfsr32 ht.lfsr32).1 e),
      shift-injective 30 polymask31 (omega arith) (omega arith) s.lfsr31 t.lfsr31 hs.lfsr31.1
          ht.lfsr31.1 e',
    )

-- The state after a number of calls.
abbrev pub gets : ℕ → Config → Random → Random
gets zero c s = s
gets (suc n) c s = gets n c (number_get c s).1

-- Seeded, with the 31-bit register at 0.
record IsStuck (s : Random) : Type 0 where
  seeded : s.seeded ≡ true
  zeroed : s.lfsr31 ≡ 0

abbrev fresh : Random → Random
fresh s = record (init_lfsrs s) { seeded = true }

started-is : (s : Random) (b : Bool) → s.seeded ≡ b → started s ≡ (if b then s else fresh s)
started-is s b e = ap (λ t. if t then s else fresh s) e

number_get-seeded : (c : Config) (s : Random) → (number_get c s).1.seeded ≡ (started s).seeded
unfolding number_get number_16bit_get
number_get-seeded c s = refl

number_get-lfsr31 :
    (c : Config) (s : Random)
    → (number_get c s).1.lfsr31 ≡ shift_lfsr (shift_lfsr (started s).lfsr31 polymask31) polymask31
unfolding number_get number_16bit_get
number_get-lfsr31 c s = refl

shift-zero : shift_lfsr (shift_lfsr 0 polymask31) polymask31 ≡ 0
unfolding shift_lfsr
shift-zero = refl

shift-lost : shift_lfsr (shift_lfsr 0xF4B785C7 polymask31) polymask31 ≡ 0
unfolding shift_lfsr
shift-lost = refl

IsStuck-number_get : (c : Config) (s : Random) → IsStuck s → IsStuck (number_get c s).1
IsStuck-number_get c s h = record {
  seeded = number_get-seeded c s ∙ ap (λ t. t.seeded) (started-is s true h.seeded) ∙ h.seeded;
  zeroed =
      number_get-lfsr31 c s
      ∙ ap (λ t. shift_lfsr (shift_lfsr t polymask31) polymask31)
          (ap (λ t. t.lfsr31) (started-is s true h.seeded) ∙ h.zeroed)
      ∙ shift-zero;
}

stuck-gets : (n : ℕ) (c : Config) (s : Random) → IsStuck s → (gets n c s).lfsr31 ≡ 0
stuck-gets zero c s h = h.zeroed
stuck-gets (suc n) c s h = stuck-gets n c (number_get c s).1 (IsStuck-number_get c s h)

init-lost :
    (s : Random)
    → seed s.seed_init_handler 1 default_seed31 ≡ 0xF4B785C7
    → (init_lfsrs s).lfsr31 ≡ 0xF4B785C7
unfolding init_lfsrs
init-lost s e = rw e refl

-- A seed handler whose second answer is 0xF4B785C7, which is not 0 and so is taken, stops the 31-bit
-- register for good: it is 0 after every call from the first.
pub number_get-stuck :
    (n : ℕ) (c : Config) (s : Random)
    → s.seeded ≡ false
    → seed s.seed_init_handler 1 default_seed31 ≡ 0xF4B785C7
    → (gets (suc n) c s).lfsr31 ≡ 0
number_get-stuck n c s e e' = stuck-gets n c (number_get c s).1 (record {
  seeded = number_get-seeded c s ∙ ap (λ t. t.seeded) (started-is s false e);
  zeroed =
      number_get-lfsr31 c s
      ∙ ap (λ t. shift_lfsr (shift_lfsr t polymask31) polymask31)
          (ap (λ t. t.lfsr31) (started-is s false e) ∙ init-lost s e')
      ∙ shift-lost;
})
