-- ===== src/Checksum/Steps.antt =====
-- One round of the loops of source/tbx_checksum.c: the width of a remainder, and what is shifted out.
use microtbx.Base.{
  ℕ, zero, suc, ◌+◌, ◌-◌, ◌*◌, ◌/◌, ◌%◌, ◌^◌, ◌≤◌, ◌<◌, ◌≡◌, refl, sym, ap, ◌∙◌, arith, bit_and,
  bit_xor, List, [], ◌∷◌, ◌++◌, ==_ne, ◌≢◌,
}
use microtbx.Base.Bits.{bit_and-low, bit_and-double, bit_xor-lt, bit_xor-field, bit_xor_self}
use native.Mathlib.Nat.{pow-suc, one-le-pow, mod-eq_of_lt, mod-eq-sub-mod, mod-lt, mul-le-mul_right}
use native.Mathlib.Decide.{dec_lt}
use microtbx.Checksum.{Crc, crc16, crc32, divide_bit, divide_bits, divide_byte, divide}

-- What the mask `2 ^ k` keeps.
bit_and-clear : (k a : ℕ) → a < 2 ^ k → bit_and a (2 ^ k) ≡ 0
bit_and-clear zero a h = omega (arith, bit_and-low 1 a)
bit_and-clear (suc k) a h =
    let twice : 2 ^ suc k ≡ 2 ^ k * 2 = omega (arith, pow-suc 2 k) in
    ap (bit_and a) twice
    ∙ bit_and-double a (2 ^ k)
    ∙ ap (λ t. t * 2) (bit_and-clear k (a / 2) (omega (arith, twice)))

bit_and-set : (k a : ℕ) → 2 ^ k ≤ a → a < 2 ^ k * 2 → bit_and a (2 ^ k) ≡ 2 ^ k
bit_and-set zero a lo hi = omega (arith, bit_and-low 1 a)
bit_and-set (suc k) a lo hi =
    let twice : 2 ^ suc k ≡ 2 ^ k * 2 = omega (arith, pow-suc 2 k) in
    ap (bit_and a) twice
    ∙ bit_and-double a (2 ^ k)
    ∙ ap (λ t. t * 2) (bit_and-set k (a / 2) (omega (arith, twice)) (omega (arith, twice)))
    ∙ sym twice

-- A polynomial of whole bytes with the constant term, as every CRC has it.
pub record IsCrc (k : Crc) : Type 0 where
  pub wide : 8 ≤ k.width
  pub odd : k.polynom % 2 ≡ 1
  pub fits : k.polynom < 2 ^ k.width

pub crc16-IsCrc : IsCrc crc16
crc16-IsCrc = record { wide = omega arith; odd = refl; fits = omega arith }

pub crc32-IsCrc : IsCrc crc32
crc32-IsCrc = record { wide = omega arith; odd = refl; fits = omega arith }

pow_byte : (j : ℕ) → 2 ^ (suc (suc (suc (suc (suc (suc (suc (suc j)))))))) ≡ 2 ^ j * 256
pow_byte j = omega (
  arith,
  pow-suc 2 j,
  pow-suc 2 (suc j),
  pow-suc 2 (suc (suc j)),
  pow-suc 2 (suc (suc (suc j))),
  pow-suc 2 (suc (suc (suc (suc j)))),
  pow-suc 2 (suc (suc (suc (suc (suc j))))),
  pow-suc 2 (suc (suc (suc (suc (suc (suc j)))))),
  pow-suc 2 (suc (suc (suc (suc (suc (suc (suc j))))))),
)

module _ {k : Crc} (crc : IsCrc k) where
  pub twice_top : 2 ^ k.width ≡ 2 ^ (k.width - 1) * 2
  twice_top =
      let e : k.width ≡ suc (k.width - 1) = omega (arith, crc.wide) in
      ap (λ t. 2 ^ t) e ∙ omega (arith, pow-suc 2 (k.width - 1))

  pub divide_bit-low : (r : ℕ) → r < 2 ^ (k.width - 1) → divide_bit k r ≡ r * 2
  unfolding divide_bit
  divide_bit-low r h =
      rw (bit_and-clear (k.width - 1) r h) (mod-eq_of_lt (omega (arith, twice_top)))

  pub divide_bit-high :
      (r : ℕ)
      → 2 ^ (k.width - 1) ≤ r
      → r < 2 ^ k.width
      → divide_bit k r ≡ bit_xor (r * 2 - 2 ^ k.width) k.polynom
  unfolding divide_bit
  divide_bit-high r lo hi =
      let mask = bit_and-set (k.width - 1) r lo (omega (arith, twice_top)) in
      let ne : 2 ^ (k.width - 1) ≢ 0 = λ z. absurd (omega (arith, twice_top, hi, z)) in
      let less : r * 2 % 2 ^ k.width ≡ r * 2 - 2 ^ k.width =
        mod-eq-sub-mod (omega (arith, twice_top)) ∙ mod-eq_of_lt (omega (arith, twice_top)) in
      rw (mask, ==_ne ne, less) refl

  pub divide_bit-lt : (r : ℕ) → r < 2 ^ k.width → divide_bit k r < 2 ^ k.width
  divide_bit-lt r h = elim (dec_lt r (2 ^ (k.width - 1))) [
    | yes lo ↦ omega (arith, divide_bit-low r lo, twice_top)
    | no hi ↦
        rw (divide_bit-high r (omega arith) h)
          (bit_xor-lt k.width (r * 2 - 2 ^ k.width) k.polynom (omega (arith, twice_top)) crc.fits)
  ]

  pub divide_bits-lt : (n r : ℕ) → r < 2 ^ k.width → divide_bits n k r < 2 ^ k.width
  unfolding divide_bits
  divide_bits-lt zero r h = h
  divide_bits-lt (suc n) r h = divide_bits-lt n (divide_bit k r) (divide_bit-lt r h)

  pub divide_byte-lt : (r b : ℕ) → r < 2 ^ k.width → divide_byte k r b < 2 ^ k.width
  unfolding divide_byte
  divide_byte-lt r b h =
      let pos : 0 < 2 ^ k.width = omega arith in
      divide_bits-lt 8 (bit_xor r (b * 2 ^ (k.width - 8) % 2 ^ k.width))
        (bit_xor-lt k.width r (b * 2 ^ (k.width - 8) % 2 ^ k.width) h (mod-lt _ pos))

  pub divide-lt : (r : ℕ) (bytes : List ℕ) → r < 2 ^ k.width → divide k r bytes < 2 ^ k.width
  unfolding divide
  divide-lt r [] h = h
  divide-lt r (b ∷ bytes) h = divide-lt (divide_byte k r b) bytes (divide_byte-lt r b h)

  -- Bits that never reach the top are shifted and nothing else.
  divide_bits-low : (n r : ℕ) → r * 2 ^ n < 2 ^ k.width → divide_bits n k r ≡ r * 2 ^ n
  unfolding divide_bits
  divide_bits-low zero r h = omega arith
  divide_bits-low (suc n) r h =
      let twice : r * 2 ^ suc n ≡ r * 2 * 2 ^ n = omega (arith, ap (◌*◌ r) (pow-suc 2 n)) in
      let low : r < 2 ^ (k.width - 1) = grind (arith, twice, one-le-pow n 2, twice_top) in
      rw (divide_bit-low r low) (divide_bits-low n (r * 2) (omega (arith, twice)) ∙ sym twice)

  le : {b : ℕ} → b < 256 → b ≤ 255
  le h = omega arith

  -- The highest byte of the remainder, appended to the data, leaves the others.
  pub divide_byte-own :
      (b q : ℕ)
      → b < 256
      → q < 2 ^ (k.width - 8)
      → divide_byte k (b * 2 ^ (k.width - 8) + q) b ≡ q * 256
  unfolding divide_byte
  divide_byte-own b q hb hq =
      let top : 2 ^ k.width ≡ 2 ^ (k.width - 8) * 256 =
        ap (λ t. 2 ^ t) (omega (arith, crc.wide)) ∙ pow_byte (k.width - 8) in
      let cut : b * 2 ^ (k.width - 8) % 2 ^ k.width ≡ b * 2 ^ (k.width - 8) =
        mod-eq_of_lt (omega (arith, top, mul-le-mul_right (2 ^ (k.width - 8)) (le hb))) in
      rw (cut, bit_xor-field (k.width - 8) b q b hq, bit_xor_self b)
        (ap (divide_bits 8 k) (omega arith) ∙ divide_bits-low 8 q (omega (arith, top)))

pub divide-append :
    (k : Crc) (r : ℕ) (xs ys : List ℕ) → divide k r (xs ++ ys) ≡ divide k (divide k r xs) ys
unfolding divide
divide-append k r [] ys = refl
divide-append k r (x ∷ xs) ys = divide-append k (divide_byte k r x) xs ys
