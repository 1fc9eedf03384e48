-- ===== src/Base/Bits.antt =====
-- Laws of the bitwise operations at variables, from the recursion on binary digits that the
-- native operations stand for.
use Prim.Native.Nat.{
  ℕ, zero, suc, ◌+◌, ◌-◌, ◌*◌, ◌/◌, ◌%◌, ◌^◌, ◌≤◌, ◌<◌, min, bit_and, bit_xor, digits,
  bit_and-bitwise, bit_xor-bitwise, differ,
}
use mathlib.Core.Path.{◌≡◌, refl, sym, ap, ap₂, ◌∙◌}
use native.Mathlib.Nat.{pow-suc, one-le-pow, div-add-mod, div-div-eq-div-mul}
use native.Mathlib.Decide.{ℕ_discrete}
use native.Mathlib.Omega.{arith}

module _ (z : ℕ → ℕ) (f : ℕ → ℕ → ℕ) where
  pub digits_enough : (n m a b : ℕ) → a ≤ n → a ≤ m → digits z f n a b ≡ digits z f m a b
  digits_enough zero zero a b p q = refl
  digits_enough zero (suc m) zero b p q = refl
  digits_enough zero (suc m) (suc a) b p q = absurd (omega arith)
  digits_enough (suc n) zero zero b p q = refl
  digits_enough (suc n) zero (suc a) b p q = absurd (omega arith)
  digits_enough (suc n) (suc m) zero b p q = refl
  digits_enough (suc n) (suc m) (suc a) b p q =
      omega (arith, digits_enough n m (suc a / 2) (b / 2) (omega arith) (omega arith))

-- Nothing in common with 0, and the lowest digit is the smaller of the lowest digits.
nil-bit_and : (y : ℕ) → bit_and 0 y ≡ 0
nil-bit_and y = bit_and-bitwise 0 y

pub bit_and_step : (x y : ℕ) → bit_and x y ≡ min (x % 2) (y % 2) + 2 * bit_and (x / 2) (y / 2)
bit_and_step zero y = omega (arith, nil-bit_and (y / 2), nil-bit_and y)
bit_and_step (suc x) y =
    let half = bit_and-bitwise (suc x / 2) (y / 2) in
    let enough = digits_enough (λ _. 0) min x (suc x / 2) (suc x / 2) (y / 2) in
    omega (arith, half, enough (omega arith) (omega arith), bit_and-bitwise (suc x) y)

pub zero-bit_xor : (b : ℕ) → bit_xor 0 b ≡ b
zero-bit_xor b = bit_xor-bitwise 0 b

-- One equation for the lowest digit: it is the sum of the digits modulo 2.
differ_digits : (a b : ℕ) → differ (a % 2) (b % 2) ≡ (a + b) % 2
differ_digits a b = elim (ℕ_discrete (a % 2) 0) [
  | yes p ↦ rw p (omega arith)
  | no p ↦
      let one : a % 2 ≡ 1 = omega arith in
      rw one (elim (ℕ_discrete (b % 2) 0) [
        | yes q ↦ rw q (omega arith)
        | no q ↦ let one' : b % 2 ≡ 1 = omega arith in rw one' (omega arith)
      ])
]

pub bit_xor_step : (a b : ℕ) → bit_xor a b ≡ bit_xor (a / 2) (b / 2) * 2 + (a + b) % 2
bit_xor_step zero b = omega (arith, zero-bit_xor b, zero-bit_xor (b / 2))
bit_xor_step (suc a) b = omega (
  arith,
  bit_xor-bitwise (suc a) b,
  bit_xor-bitwise (suc a / 2) (b / 2),
  digits_enough (λ y. y) differ a (suc a / 2) (suc a / 2) (b / 2) (omega arith) (omega arith),
  differ_digits (suc a) b,
)

bit_xor-comm_below : (n a b : ℕ) → a ≤ n → b ≤ n → bit_xor a b ≡ bit_xor b a
bit_xor-comm_below zero zero zero p q = refl
bit_xor-comm_below zero (suc a) b p q = absurd (omega arith)
bit_xor-comm_below zero zero (suc b) p q = absurd (omega arith)
bit_xor-comm_below (suc n) a b p q = omega (
  arith,
  bit_xor_step a b,
  bit_xor_step b a,
  bit_xor-comm_below n (a / 2) (b / 2) (omega arith) (omega arith),
)

pub bit_xor_comm : (a b : ℕ) → bit_xor a b ≡ bit_xor b a
bit_xor_comm a b = bit_xor-comm_below (a + b) a b (omega arith) (omega arith)

pub bit_xor-zero : (a : ℕ) → bit_xor a 0 ≡ a
bit_xor-zero a = omega (arith, bit_xor_comm a 0, zero-bit_xor a)

bit_xor-assoc_below :
    (n a b c : ℕ) → a ≤ n → b ≤ n → c ≤ n → bit_xor (bit_xor a b) c ≡ bit_xor a (bit_xor b c)
bit_xor-assoc_below zero zero b c p q r =
    omega
      (arith, zero-bit_xor b, zero-bit_xor (bit_xor b c), ap (λ t. bit_xor t c) (zero-bit_xor b))
bit_xor-assoc_below zero (suc a) b c p q r = absurd (omega arith)
bit_xor-assoc_below (suc n) a b c p q r =
    let left : bit_xor a b / 2 ≡ bit_xor (a / 2) (b / 2) = omega (arith, bit_xor_step a b) in
    let right : bit_xor b c / 2 ≡ bit_xor (b / 2) (c / 2) = omega (arith, bit_xor_step b c) in
    omega (
      arith,
      bit_xor_step a b,
      bit_xor_step b c,
      bit_xor_step (bit_xor a b) c,
      bit_xor_step a (bit_xor b c),
      ap (λ t. bit_xor t (c / 2)) left,
      ap (λ t. bit_xor (a / 2) t) right,
      bit_xor-assoc_below n (a / 2) (b / 2) (c / 2) (omega arith) (omega arith) (omega arith),
    )

pub bit_xor_assoc : (a b c : ℕ) → bit_xor (bit_xor a b) c ≡ bit_xor a (bit_xor b c)
bit_xor_assoc a b c =
    bit_xor-assoc_below (a + b + c) a b c (omega arith) (omega arith) (omega arith)

bit_xor-self_below : (n a : ℕ) → a ≤ n → bit_xor a a ≡ 0
bit_xor-self_below zero zero p = refl
bit_xor-self_below zero (suc a) p = absurd (omega arith)
bit_xor-self_below (suc n) a p =
    omega (arith, bit_xor_step a a, bit_xor-self_below n (a / 2) (omega arith))

pub bit_xor_self : (a : ℕ) → bit_xor a a ≡ 0
bit_xor_self a = bit_xor-self_below a a (omega arith)

-- Adding the same word twice gives the first back.
pub bit_xor_cancel : (a b : ℕ) → bit_xor (bit_xor a b) b ≡ a
bit_xor_cancel a b = bit_xor_assoc a b b ∙ ap (bit_xor a) (bit_xor_self b) ∙ bit_xor-zero a

pub bit_xor_injective : (a b m : ℕ) → bit_xor a m ≡ bit_xor b m → a ≡ b
bit_xor_injective a b m e = sym (bit_xor_cancel a m) ∙ ap (λ t. bit_xor t m) e ∙ bit_xor_cancel b m

-- Two words of `k` bits have an exclusive or of `k` bits.
pub bit_xor-lt : (k a b : ℕ) → a < 2 ^ k → b < 2 ^ k → bit_xor a b < 2 ^ k
bit_xor-lt zero a b p q =
    let az : a ≡ 0 = omega arith in let bz : b ≡ 0 = omega arith in rw (az, bz) (omega arith)
bit_xor-lt (suc k) a b p q = omega (
  arith,
  bit_xor_step a b,
  pow-suc 2 k,
  bit_xor-lt k (a / 2) (b / 2) (omega (arith, pow-suc 2 k)) (omega (arith, pow-suc 2 k)),
)

-- Low fields and high fields do not meet: `(q << k) | r`, written with `^`.
pub bit_xor-field :
    (k q r s : ℕ) → r < 2 ^ k → bit_xor (q * 2 ^ k + r) (s * 2 ^ k) ≡ bit_xor q s * 2 ^ k + r
bit_xor-field zero q r s p =
    let rz : r ≡ 0 = omega arith in
    let e₁ : q * 1 + r ≡ q = omega arith in
    let e₂ : s * 1 ≡ s = omega arith in rw (e₁, e₂) (omega arith)
bit_xor-field (suc k) q r s p =
    let twice : (t : ℕ) → t * 2 ^ suc k ≡ t * 2 ^ k * 2 =
      λ t. omega (arith, ap (λ (x : ℕ). t * x) (pow-suc 2 k)) in
    let half_left : (q * 2 ^ suc k + r) / 2 ≡ q * 2 ^ k + r / 2 = omega (arith, twice q) in
    let half_right : s * 2 ^ suc k / 2 ≡ s * 2 ^ k = omega (arith, twice s) in
    omega (
      arith,
      bit_xor_step (q * 2 ^ suc k + r) (s * 2 ^ suc k),
      ap₂ bit_xor half_left half_right,
      bit_xor-field k q (r / 2) s (omega (arith, pow-suc 2 k)),
      twice q,
      twice s,
      twice (bit_xor q s),
    )

bit_and-zero_below : (n a : ℕ) → a ≤ n → bit_and a 0 ≡ 0
bit_and-zero_below n zero h = refl
bit_and-zero_below zero (suc a) h = absurd (omega arith)
bit_and-zero_below (suc n) (suc a) h =
    omega (arith, bit_and_step (suc a) 0, bit_and-zero_below n (suc a / 2) (omega arith))

pub bit_and-zero : (a : ℕ) → bit_and a 0 ≡ 0
bit_and-zero a = bit_and-zero_below a a (omega arith)

mod-double : (a m : ℕ) → a % (2 * m) ≡ a / 2 % m * 2 + a % 2
mod-double a m = omega (
  arith,
  div-add-mod a (2 * m),
  div-add-mod (a / 2) m,
  ap (λ (t : ℕ). m * t) (div-div-eq-div-mul a 2 m),
)

-- A mask of `k` ones keeps the low `k` bits.
pub bit_and-low : (k a : ℕ) → bit_and a (2 ^ k - 1) ≡ a % 2 ^ k
bit_and-low zero a = omega (arith, bit_and-zero a)
bit_and-low (suc k) a =
    let twice : 2 ^ suc k ≡ 2 * 2 ^ k = omega (arith, pow-suc 2 k) in
    let half_mask : (2 * 2 ^ k - 1) / 2 ≡ 2 ^ k - 1 = omega (arith, one-le-pow k 2) in
    rw twice (
      omega (
        arith,
        bit_and_step a (2 * 2 ^ k - 1),
        ap (bit_and (a / 2)) half_mask,
        bit_and-low k (a / 2),
        one-le-pow k 2,
        mod-double a (2 ^ k),
      ))

-- A mask that ends in a zero drops the lowest bit.
pub bit_and-double : (a m : ℕ) → bit_and a (m * 2) ≡ bit_and (a / 2) m * 2
bit_and-double a m =
    let half : m * 2 / 2 ≡ m = omega arith in
    omega (arith, bit_and_step a (m * 2), ap (bit_and (a / 2)) half)
