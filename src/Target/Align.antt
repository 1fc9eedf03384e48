-- ===== src/Target/Align.antt =====
-- The mask `~(sizeof(void *) - 1U)` rounds down to a multiple of the pointer size.
use microtbx.Base.{ℕ, ◌-◌, ◌*◌, ◌/◌, ◌<◌, ◌≡◌, bit_and, arith}
use microtbx.Base.Bits.{bit_and-low, bit_and-double}
use microtbx.Target.{Target, sizeof_ptr, size_mod}

pub bit_and-mask :
    (t : Target) (x : ℕ)
    → x < size_mod t
    → bit_and x (size_mod t - 1 - (sizeof_ptr t - 1)) ≡ x / sizeof_ptr t * sizeof_ptr t
bit_and-mask Target.avr x h = omega (arith, bit_and-double x 0x7fff, bit_and-low 15 (x / 2))
bit_and-mask Target.cortexm x h = omega (
  arith,
  bit_and-double x (0x3fff_ffff * 2),
  bit_and-double (x / 2) 0x3fff_ffff,
  bit_and-low 30 (x / 2 / 2),
)
bit_and-mask Target.linux x h = omega (
  arith,
  bit_and-double x (0x1fff_ffff_ffff_ffff * 2 * 2),
  bit_and-double (x / 2) (0x1fff_ffff_ffff_ffff * 2),
  bit_and-double (x / 2 / 2) 0x1fff_ffff_ffff_ffff,
  bit_and-low 61 (x / 2 / 2 / 2),
)
