-- ===== src/Random.antt =====
-- source/tbx_random.c: two shift registers, seeded on the first call.
use microtbx.Base.{
  ℕ, ◌+◌, ◌*◌, ◌/◌, ◌%◌, ◌^◌, bit_and, bit_or, bit_xor, Bool, true, false, Option, none, some, ◌==◌,
  if◌then◌else◌,
}
use microtbx.Target.{Config}
use microtbx.CritSect.{Crit, enter, leave}
pub mod Shift
pub mod Numbers
pub mod Cycle

-- TBX_RANDOM_LFSR32_POLYMASK and TBX_RANDOM_LFSR31_POLYMASK
abbrev pub polymask32 : ℕ
polymask32 = 0xB4BCD35C

abbrev pub polymask31 : ℕ
polymask31 = 0x7A5BC2E3

-- The registers and the static variables, and the state of the critical section. A seed handler is
-- what it answers to each of its calls.
pub record Random : Type 0 where
  pub seed_init_handler : Option (ℕ → ℕ)
  pub seeded : Bool
  pub lfsr32 : ℕ
  pub lfsr31 : ℕ
  pub crit : Crit

-- `TbxRandomSetSeedInitHandler`; NULL is `none`.
unfoldable pub set_seed_init_handler : Option (ℕ → ℕ) → Random → Random
set_seed_init_handler none s = s
set_seed_init_handler (some handler) s = record s { seed_init_handler = some handler }

abbrev pub default_seed32 : ℕ
default_seed32 = 0xABCDE

abbrev pub default_seed31 : ℕ
default_seed31 = 0x23456789

-- The answer of a handler to its call number `n`, as `uint32_t`, or the default without a handler.
abbrev pub seed : Option (ℕ → ℕ) → (n default : ℕ) → ℕ
seed none n default = default
seed (some handler) n default = handler n % 2 ^ 32

-- `TbxRandomInitLFSRs`
unfoldable pub init_lfsrs : Random → Random
init_lfsrs s =
    let seed32 = seed s.seed_init_handler 0 default_seed32 in
    let seed31 = seed s.seed_init_handler 1 default_seed31 in
    record s {
      lfsr32 = if seed32 == 0 then default_seed32 else seed32;
      lfsr31 = if seed31 == 0 then default_seed31 else seed31;
    }

-- `TbxRandomShiftLFSR`, for a pointer that is not NULL, as both of its callers pass it; the register
-- and the result have one value.
unfoldable pub shift_lfsr : (lfsr polymask : ℕ) → ℕ
shift_lfsr lfsr polymask = if bit_and lfsr 1 == 1 then bit_xor (lfsr / 2) polymask else lfsr / 2

-- `TbxRandomNumber16BitGet`
unfoldable pub number_16bit_get : Config → Random → ℕ × Random
number_16bit_get c s =
    let crit = enter c.port s.crit in
    let first = shift_lfsr s.lfsr32 polymask32 in
    let second = shift_lfsr first polymask32 in
    let shifted = shift_lfsr s.lfsr31 polymask31 in
    (
      bit_and (bit_xor second shifted) 0xFFFF % 2 ^ 16,
      record s { lfsr32 = second; lfsr31 = shifted; crit = leave c.port crit },
    )

-- `TbxRandomNumberGet`
unfoldable pub number_get : Config → Random → ℕ × Random
number_get c s =
    let s₁ = if s.seeded then s else record (init_lfsrs s) { seeded = true } in
    let (high, s₂) = number_16bit_get c s₁ in
    let (low, s₃) = number_16bit_get c s₂ in (bit_or (high * 2 ^ 16 % 2 ^ 32) low, s₃)
