-- ===== src/Checksum.antt =====
-- source/tbx_checksum.c: both functions are the same two loops, at their own width, polynomial and
-- initial value.
use microtbx.Base.{
  ℕ, zero, suc, ◌-◌, ◌*◌, ◌%◌, ◌^◌, bit_and, bit_xor, Option, none, some, List, [], ◌∷◌, ◌==◌,
  if◌then◌else◌,
}
pub mod Steps
pub mod Residue
pub mod Errors

pub record Crc : Type 0 where
  pub width : ℕ
  pub polynom : ℕ
  pub initial : ℕ

-- The TBX_CONF_CHECKSUM_CRC16 and TBX_CONF_CHECKSUM_CRC32 macros.
abbrev pub crc16 : Crc
crc16 = record { width = 16; polynom = 0x1021; initial = 0xFFFF }

abbrev pub crc32 : Crc
crc32 = record { width = 32; polynom = 0x04C11DB7; initial = 0xFFFFFFFF }

-- One round of the inner loop.
unfoldable pub divide_bit : Crc → ℕ → ℕ
divide_bit k result =
    if bit_and result (2 ^ (k.width - 1)) == 0
    then result * 2 % 2 ^ k.width
    else bit_xor (result * 2 % 2 ^ k.width) k.polynom

unfoldable pub divide_bits : ℕ → Crc → ℕ → ℕ
divide_bits zero k result = result
divide_bits (suc n) k result = divide_bits n k (divide_bit k result)

-- One round of the outer loop.
unfoldable pub divide_byte : Crc → ℕ → ℕ → ℕ
divide_byte k result byte =
    divide_bits 8 k (bit_xor result (byte * 2 ^ (k.width - 8) % 2 ^ k.width))

unfoldable pub divide : Crc → ℕ → List ℕ → ℕ
divide k result [] = result
divide k result (byte ∷ bytes) = divide k (divide_byte k result byte) bytes

-- NULL is `none`; `len` is the length of the list.
unfoldable pub calculate : Crc → Option (List ℕ) → ℕ
calculate k none = 0
calculate k (some []) = 0
calculate k (some (byte ∷ bytes)) = divide k k.initial (byte ∷ bytes)

-- `TbxChecksumCrc16Calculate`
unfoldable pub crc16_calculate : Option (List ℕ) → ℕ
crc16_calculate = calculate crc16

-- `TbxChecksumCrc32Calculate`
unfoldable pub crc32_calculate : Option (List ℕ) → ℕ
crc32_calculate = calculate crc32
