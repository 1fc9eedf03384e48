-- ===== src/Target.antt =====
-- The targets of source/port and the configuration of a build: the widths that the compiler of a
-- target gives `size_t` and pointers, the sizes of the structs, and the macros of tbx_conf.h.
pub mod Align
use microtbx.Base.{ℕ, ◌+◌, ◌-◌, ◌*◌, ◌%◌, ◌^◌, ◌<◌, ◌≤◌, ◌≡◌, bit_and}

-- AVR has 2-byte pointers, ARM Cortex-M and the RP2040 4-byte ones, the Linux port is built with 8.
pub data Target : Type 0 where
  avr cortexm linux : Target

-- `sizeof(void *)`, which is `sizeof(size_t)` on each of them.
abbrev pub sizeof_ptr : Target → ℕ
sizeof_ptr Target.avr = 2
sizeof_ptr Target.cortexm = 4
sizeof_ptr Target.linux = 8

-- `size_t` arithmetic is modulo this.
abbrev pub size_mod : Target → ℕ
size_mod Target.avr = 2 ^ 16
size_mod Target.cortexm = 2 ^ 32
size_mod Target.linux = 2 ^ 64

-- An address. `base` below is that of the heap's buffer.
abbrev pub Ptr : Type 0
Ptr = ℕ

abbrev pub null : Ptr
null = 0

-- What the CPU does with its status register: `disable` is its value with the interrupts off.
pub record Port : Type 0 where
  pub disable : ℕ → ℕ × ℕ
  pub restore : ℕ → ℕ → ℕ

pub record Config : Type 0 where
  pub target : Target
  pub port : Port
  pub base : Ptr
  pub heap_size : ℕ

-- The buffer lies in the address space, and not at the null pointer.
pub record IsConfig (c : Config) : Type 0 where
  pub base_pos : 0 < c.base
  pub fits : c.base + c.heap_size < size_mod c.target
