-- ===== src/Checksum/Residue.antt =====
-- source/tbx_checksum.c: data followed by its own checksum.
use microtbx.Base.{ℕ, ◌*◌, ◌/◌, ◌%◌, ◌^◌, ◌<◌, ◌≡◌, ap, ◌∙◌, arith, some, List, [], ◌∷◌, ◌++◌, ◌+◌}
use microtbx.Checksum.{
  crc16, crc32, divide, divide_byte, calculate, crc16_calculate, crc32_calculate,
}
use microtbx.Checksum.Steps.{crc16-IsCrc, crc32-IsCrc, divide-lt, divide_byte-own, divide-append}

own16 : (r : ℕ) → r < 2 ^ 16 → divide crc16 r (r / 256 ∷ r % 256 ∷ []) ≡ 0
unfolding divide
own16 r h =
    let split : r ≡ r / 256 * 256 + r % 256 = omega arith in
    let step₁ = divide_byte-own crc16-IsCrc (r / 256) (r % 256) (omega arith) (omega arith) in
    let step₂ = divide_byte-own crc16-IsCrc (r % 256) 0 (omega arith) (omega arith) in
    ap (λ t. divide_byte crc16 (divide_byte crc16 t (r / 256)) (r % 256)) split
    ∙ ap (λ t. divide_byte crc16 t (r % 256)) (step₁ ∙ omega arith)
    ∙ step₂

own32 :
    (r : ℕ)
    → r < 2 ^ 32
    → divide crc32 r (r / 2 ^ 24 ∷ r / 2 ^ 16 % 256 ∷ r / 2 ^ 8 % 256 ∷ r % 256 ∷ []) ≡ 0
unfolding divide
own32 r h =
    let b₁ = r / 2 ^ 24 in
    let b₂ = r / 2 ^ 16 % 256 in
    let b₃ = r / 2 ^ 8 % 256 in
    let b₄ = r % 256 in
    let split : r ≡ b₁ * 2 ^ 24 + r % 2 ^ 24 = omega arith in
    let step₁ = divide_byte-own crc32-IsCrc b₁ (r % 2 ^ 24) (omega arith) (omega arith) in
    let step₂ = divide_byte-own crc32-IsCrc b₂ (r % 2 ^ 16 * 2 ^ 8) (omega arith) (omega arith) in
    let step₃ = divide_byte-own crc32-IsCrc b₃ (r % 2 ^ 8 * 2 ^ 16) (omega arith) (omega arith) in
    let step₄ = divide_byte-own crc32-IsCrc b₄ 0 (omega arith) (omega arith) in
    let rest : ℕ → ℕ = λ t. divide_byte crc32 (divide_byte crc32 t b₃) b₄ in
    ap (λ t. rest (divide_byte crc32 (divide_byte crc32 t b₁) b₂)) split
    ∙ ap (λ t. rest (divide_byte crc32 t b₂)) (step₁ ∙ omega arith)
    ∙ ap rest (step₂ ∙ omega arith)
    ∙ ap (λ t. divide_byte crc32 t b₄) (step₃ ∙ omega arith)
    ∙ step₄

-- Any data followed by its CRC, the highest byte first, has the CRC 0: of 16 bits and of 32.
pub calculate-residue :
    (x : ℕ) (xs : List ℕ)
    → let r = crc16_calculate (some (x ∷ xs)) in
      let t = crc32_calculate (some (x ∷ xs)) in
      (crc16_calculate (some ((x ∷ xs) ++ r / 256 ∷ r % 256 ∷ [])) ≡ 0)
      × (crc32_calculate
            (some ((x ∷ xs) ++ t / 2 ^ 24 ∷ t / 2 ^ 16 % 256 ∷ t / 2 ^ 8 % 256 ∷ t % 256 ∷ []))
          ≡ 0)
unfolding crc16_calculate crc32_calculate calculate
calculate-residue x xs = (
  divide-append crc16 0xFFFF (x ∷ xs) _
      ∙ own16 (divide crc16 0xFFFF (x ∷ xs)) (divide-lt crc16-IsCrc 0xFFFF (x ∷ xs) (omega arith)),
  divide-append crc32 0xFFFFFFFF (x ∷ xs) _
      ∙ own32 (divide crc32 0xFFFFFFFF (x ∷ xs))
          (divide-lt crc32-IsCrc 0xFFFFFFFF (x ∷ xs) (omega arith)),
)
