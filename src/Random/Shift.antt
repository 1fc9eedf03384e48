-- ===== src/Random/Shift.antt =====
-- One shift of a register of source/tbx_random.c.
use microtbx.Base.{ℕ, suc, ◌/◌, ◌%◌, ◌^◌, ◌≤◌, ◌<◌, ◌≡◌, refl, sym, ◌∙◌, arith, bit_xor}
use microtbx.Base.Bits.{bit_and-low, bit_xor-lt, bit_xor_injective}
use native.Mathlib.Decide.{ℕ_discrete}
use native.Mathlib.Nat.{pow-suc, one-le-pow}
use microtbx.Base.Joins.{bit_xor-top}
use microtbx.Random.{shift_lfsr, polymask32, polymask31}

shift-even : (r mask : ℕ) → r % 2 ≡ 0 → shift_lfsr r mask ≡ r / 2
unfolding shift_lfsr
shift-even r mask e = rw (bit_and-low 1 r, e) refl

shift-odd : (r mask : ℕ) → r % 2 ≡ 1 → shift_lfsr r mask ≡ bit_xor (r / 2) mask
unfolding shift_lfsr
shift-odd r mask e = rw (bit_and-low 1 r, e) refl

-- A mask whose highest bit is bit `k`, for a register of `k + 1` bits.
module _ (k mask : ℕ) (top : 2 ^ k ≤ mask) (fits : mask < 2 ^ suc k) where
  shift-top : (r : ℕ) → r < 2 ^ suc k → r % 2 ≡ 1 → 2 ^ k ≤ shift_lfsr r mask
  shift-top r h e =
      rw (shift-odd r mask e) (bit_xor-top k (r / 2) mask (omega (arith, pow-suc 2 k)) top)

  -- A register that is not 0 does not become 0, nor longer.
  pub shift-bounds :
      (r : ℕ) → 0 < r → r < 2 ^ suc k → (0 < shift_lfsr r mask) × (shift_lfsr r mask < 2 ^ suc k)
  shift-bounds r pos h = elim (ℕ_discrete (r % 2) 1) [
    | yes odd ↦ (
      omega (arith, shift-top r h odd, one-le-pow k 2),
      rw (shift-odd r mask odd) (bit_xor-lt (suc k) (r / 2) mask (omega arith) fits),
    )
    | no even ↦ omega (arith, shift-even r mask (omega arith))
  ]

  -- Every register has one predecessor at most.
  pub shift-injective :
      (r s : ℕ) → r < 2 ^ suc k → s < 2 ^ suc k → shift_lfsr r mask ≡ shift_lfsr s mask → r ≡ s
  shift-injective r s p q e = elim (ℕ_discrete (r % 2) 1) [
    | yes odd ↦ elim (ℕ_discrete (s % 2) 1) [
      | yes odd' ↦
          let same =
            bit_xor_injective (r / 2) (s / 2) mask
              (sym (shift-odd r mask odd) ∙ e ∙ shift-odd s mask odd') in
          omega (arith, same)
      | no even ↦
          absurd (omega (arith, shift-top r p odd, shift-even s mask (omega arith), pow-suc 2 k, e))
    ]
    | no even ↦ elim (ℕ_discrete (s % 2) 1) [
      | yes odd ↦
          absurd (omega (arith, shift-top s q odd, shift-even r mask (omega arith), pow-suc 2 k, e))
      | no even' ↦
          omega (arith, shift-even r mask (omega arith), shift-even s mask (omega arith), e)
    ]
  ]

abbrev pub Fits32 : ℕ → Type 0
Fits32 r = (0 < r) × (r < 2 ^ 32)

abbrev pub Fits31 : ℕ → Type 0
Fits31 r = (0 < r) × (r < 2 ^ 31)

pub shift32-bounds : (r : ℕ) → Fits32 r → Fits32 (shift_lfsr r polymask32)
shift32-bounds r h = shift-bounds 31 polymask32 (omega arith) (omega arith) r h.0 h.1

pub shift31-bounds : (r : ℕ) → Fits31 r → Fits31 (shift_lfsr r polymask31)
shift31-bounds r h = shift-bounds 30 polymask31 (omega arith) (omega arith) r h.0 h.1
