-- ===== src/Checksum/Errors.antt =====
-- source/tbx_checksum.c: the errors that a checksum shows.
use microtbx.Base.{
  ℕ, zero, suc, ◌-◌, ◌*◌, ◌%◌, ◌^◌, ◌≤◌, ◌<◌, ◌≡◌, ◌≢◌, refl, sym, ◌∙◌, arith, bit_xor, some, List,
  [], ◌∷◌, ◌++◌,
}
use microtbx.Base.Bits.{bit_xor_step, bit_xor_injective, bit_xor_comm, bit_xor-lt}
use native.Mathlib.Decide.{dec_lt}
use native.Mathlib.Nat.{mod-lt}
use microtbx.Checksum.{
  Crc, crc16, crc32, divide_bit, divide_bits, divide_byte, divide, calculate, crc16_calculate,
  crc32_calculate,
}
use microtbx.Checksum.Steps.{
  IsCrc, crc16-IsCrc, crc32-IsCrc, divide_bit-low, divide_bit-high, divide_bit-lt, divide_byte-lt,
  divide-lt, divide-append, twice_top,
}

module _ {k : Crc} (crc : IsCrc k) where
  -- The constant term of the polynomial tells whether the polynomial was subtracted.
  divide_bit-mixed :
      (r s : ℕ)
      → r < 2 ^ (k.width - 1)
      → 2 ^ (k.width - 1) ≤ s
      → s < 2 ^ k.width
      → divide_bit k r ≢ divide_bit k s
  divide_bit-mixed r s lo hi h e = absurd (
      omega (
        arith,
        divide_bit-low crc r lo,
        divide_bit-high crc s hi h,
        bit_xor_step (s * 2 - 2 ^ k.width) k.polynom,
        crc.odd,
        twice_top crc,
        e,
      ))

  divide_bit-injective :
      (r s : ℕ) → r < 2 ^ k.width → s < 2 ^ k.width → divide_bit k r ≡ divide_bit k s → r ≡ s
  divide_bit-injective r s p q e = elim (dec_lt r (2 ^ (k.width - 1))) [
    | yes lr ↦ elim (dec_lt s (2 ^ (k.width - 1))) [
      | yes ls ↦ omega (arith, divide_bit-low crc r lr, divide_bit-low crc s ls, e)
      | no hs ↦ absurd (divide_bit-mixed r s lr (omega arith) q e)
    ]
    | no hr ↦ elim (dec_lt s (2 ^ (k.width - 1))) [
      | yes ls ↦ absurd (divide_bit-mixed s r ls (omega arith) p (sym e))
      | no hs ↦
          let same = bit_xor_injective (r * 2 - 2 ^ k.width) (s * 2 - 2 ^ k.width) k.polynom (
            sym (divide_bit-high crc r (omega arith) p)
            ∙ e
            ∙ divide_bit-high crc s (omega arith) q) in
          omega (arith, same, twice_top crc)
    ]
  ]

  divide_bits-injective :
      (n r s : ℕ)
      → r < 2 ^ k.width
      → s < 2 ^ k.width
      → divide_bits n k r ≡ divide_bits n k s
      → r ≡ s
  unfolding divide_bits
  divide_bits-injective zero r s p q e = e
  divide_bits-injective (suc n) r s p q e = divide_bit-injective r s p q (
      divide_bits-injective n (divide_bit k r) (divide_bit k s) (divide_bit-lt crc r p)
        (divide_bit-lt crc s q) e)

  abbrev placed : ℕ → ℕ
  placed b = b * 2 ^ (k.width - 8) % 2 ^ k.width

  placed-lt : (b r : ℕ) → r < 2 ^ k.width → bit_xor r (placed b) < 2 ^ k.width
  placed-lt b r h =
      let pos : 0 < 2 ^ k.width = omega arith in bit_xor-lt k.width r (placed b) h (mod-lt _ pos)

  -- For the same byte, different remainders stay different.
  divide-injective :
      (bytes : List ℕ) (r s : ℕ)
      → r < 2 ^ k.width
      → s < 2 ^ k.width
      → divide k r bytes ≡ divide k s bytes
      → r ≡ s
  unfolding divide divide_byte
  divide-injective [] r s p q e = e
  divide-injective (b ∷ bytes) r s p q e =
      let same =
        divide-injective bytes (divide_byte k r b) (divide_byte k s b) (divide_byte-lt crc r b p)
          (divide_byte-lt crc s b q) e in
      bit_xor_injective r s (placed b) (
        divide_bits-injective 8 (bit_xor r (placed b)) (bit_xor s (placed b)) (placed-lt b r p)
          (placed-lt b s q) same)

  -- For the same remainder, different bytes make a difference.
  divide_byte-injective :
      (r a b : ℕ) → r < 2 ^ k.width → divide_byte k r a ≡ divide_byte k r b → placed a ≡ placed b
  unfolding divide_byte
  divide_byte-injective r a b h e =
      let same =
        divide_bits-injective 8 (bit_xor r (placed a)) (bit_xor r (placed b)) (placed-lt a r h)
          (placed-lt b r h) e in
      bit_xor_injective (placed a) (placed b) r
        (bit_xor_comm (placed a) r ∙ same ∙ bit_xor_comm r (placed b))

  byte_error :
      (r : ℕ) (xs : List ℕ) (a b : ℕ) (ys : List ℕ)
      → r < 2 ^ k.width
      → divide k r (xs ++ a ∷ ys) ≡ divide k r (xs ++ b ∷ ys)
      → placed a ≡ placed b
  unfolding divide
  byte_error r xs a b ys h e =
      let m = divide k r xs in
      let less = divide-lt crc r xs h in
      divide_byte-injective m a b less (
        divide-injective ys (divide_byte k m a) (divide_byte k m b) (divide_byte-lt crc m a less)
          (divide_byte-lt crc m b less)
          (sym (divide-append k r xs (a ∷ ys)) ∙ e ∙ divide-append k r xs (b ∷ ys)))

calculate-divide :
    (k : Crc) (xs : List ℕ) (a : ℕ) (ys : List ℕ)
    → calculate k (some (xs ++ a ∷ ys)) ≡ divide k k.initial (xs ++ a ∷ ys)
unfolding calculate
calculate-divide k [] a ys = refl
calculate-divide k (x ∷ xs) a ys = refl

-- Data in which one byte has changed, by any number of its bits, has another CRC, of 16 bits and of
-- 32.
pub calculate-byte_error :
    (xs : List ℕ) (a b : ℕ) (ys : List ℕ)
    → a < 256
    → b < 256
    → a ≢ b
    → (crc16_calculate (some (xs ++ a ∷ ys)) ≢ crc16_calculate (some (xs ++ b ∷ ys)))
      × (crc32_calculate (some (xs ++ a ∷ ys)) ≢ crc32_calculate (some (xs ++ b ∷ ys)))
unfolding crc16_calculate crc32_calculate
calculate-byte_error xs a b ys p q ne = (
  (λ e. absurd (
      ne (
        omega (
          arith,
          byte_error crc16-IsCrc 0xFFFF xs a b ys (omega arith)
              (sym (calculate-divide crc16 xs a ys) ∙ e ∙ calculate-divide crc16 xs b ys),
        )))),
  (λ e. absurd (
      ne (
        omega (
          arith,
          byte_error crc32-IsCrc 0xFFFFFFFF xs a b ys (omega arith)
              (sym (calculate-divide crc32 xs a ys) ∙ e ∙ calculate-divide crc32 xs b ys),
        )))),
)
