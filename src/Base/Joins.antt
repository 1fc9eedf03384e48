-- ===== src/Base/Joins.antt =====
-- Laws of `bit_or`, and the highest bit of an exclusive or.
use Prim.Native.Nat.{
  ℕ, zero, suc, ◌+◌, ◌*◌, ◌/◌, ◌%◌, ◌^◌, ◌≤◌, ◌<◌, max, bit_or, bit_xor, bit_or-bitwise,
}
use mathlib.Core.Path.{◌≡◌, ap, subst, ◌∙◌}
use native.Mathlib.Nat.{pow-suc}
use native.Mathlib.Decide.{dec_lt}
use native.Mathlib.Omega.{arith}
use microtbx.Base.Bits.{digits_enough, bit_xor-lt, bit_xor_comm, bit_xor_cancel}

zero-bit_or : (b : ℕ) → bit_or 0 b ≡ b
zero-bit_or b = bit_or-bitwise 0 b

bit_or_step : (a b : ℕ) → bit_or a b ≡ bit_or (a / 2) (b / 2) * 2 + max (a % 2) (b % 2)
bit_or_step zero b = omega (arith, zero-bit_or b, zero-bit_or (b / 2))
bit_or_step (suc a) b = omega (
  arith,
  bit_or-bitwise (suc a) b,
  bit_or-bitwise (suc a / 2) (b / 2),
  digits_enough (λ t. t) max a (suc a / 2) (suc a / 2) (b / 2) (omega arith) (omega arith),
)

bit_or-zero_below : (n a : ℕ) → a ≤ n → bit_or a 0 ≡ a
bit_or-zero_below zero a h = let e : a ≡ 0 = omega arith in rw e (zero-bit_or 0)
bit_or-zero_below (suc n) zero h = zero-bit_or 0
bit_or-zero_below (suc n) (suc a) h =
    omega (arith, bit_or_step (suc a) 0, bit_or-zero_below n (suc a / 2) (omega arith))

-- Joining two fields that do not overlap is adding them.
pub bit_or-join : (k a b : ℕ) → b < 2 ^ k → bit_or (a * 2 ^ k) b ≡ a * 2 ^ k + b
bit_or-join zero a b h =
    let e : b ≡ 0 = omega arith in
    rw e (bit_or-zero_below (a * 1) (a * 1) (omega arith) ∙ omega arith)
bit_or-join (suc k) a b h =
    let twice : 2 ^ suc k ≡ 2 ^ k * 2 = pow-suc 2 k in
    let whole : a * 2 ^ suc k ≡ a * 2 ^ k * 2 = omega (arith, ap (◌*◌ a) twice) in
    let half : a * 2 ^ k * 2 / 2 ≡ a * 2 ^ k = omega arith in
    rw whole (
      omega (
        arith,
        bit_or_step (a * 2 ^ k * 2) b,
        ap (λ t. bit_or t (b / 2)) half,
        bit_or-join k a (b / 2) (omega (arith, twice)),
      ))

pub bit_xor-top : (k a b : ℕ) → a < 2 ^ k → 2 ^ k ≤ b → 2 ^ k ≤ bit_xor a b
bit_xor-top k a b low high = elim (dec_lt (bit_xor a b) (2 ^ k)) [
  | no big ↦ omega arith
  | yes small ↦
      let back =
        bit_xor-lt k (bit_xor b a) a (subst (λ t. t < 2 ^ k) (bit_xor_comm a b) small) low in
      absurd (omega (arith, back, bit_xor_cancel b a))
]
