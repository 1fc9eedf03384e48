-- ===== src/Ports.antt =====
-- source/port/AVR/GCC/tbx_port.c, where the status register is SREG.
pub mod Lock
pub mod LinuxThreads
pub mod Rp2040
use microtbx.Base.{ℕ, suc, ◌≡◌, ◌∙◌, ◌%◌, ◌^◌, refl, arith, bit_and}
use microtbx.Base.Bits.{bit_and-low}
use microtbx.Target.{Port}
use microtbx.CritSect.{Crit, enter, leave}
use microtbx.CritSect.Nested.{
  IsPort, IsReady, Paired, run, depth, enter-IsReady, section-Restored, run-Restored,
}

-- The instruction `cli` clears bit 7.
pub avr_disable : ℕ → ℕ × ℕ
avr_disable sreg = (sreg, bit_and sreg 0x7F)

pub avr_restore : (prev_cpu_sr sreg : ℕ) → ℕ
avr_restore prev_cpu_sr sreg = prev_cpu_sr

abbrev pub avr_port : Port
avr_port = record { disable = avr_disable; restore = avr_restore }

avr_port-IsPort : IsPort avr_port
unfolding avr_disable avr_restore
avr_port-IsPort = record {
  undo = λ s. refl;
  again = λ s. omega (arith, bit_and-low 7 s, bit_and-low 7 (bit_and s 0x7F));
}

enter-avr_port : (s : Crit) → (enter avr_port s).cpu ≡ s.cpu % 2 ^ 7
unfolding enter avr_disable
enter-avr_port s = omega (arith, bit_and-low 7 s.cpu)

-- On the AVR port, from a state with room in the nesting counter for a section and for what is nested
-- in it, and in which the interrupts are off if a section is open: after the call that enters a section
-- and any code whose calls are paired, bit 7 of SREG, the enable of the interrupts, is 0 and the bits
-- below it are what they were; after the call that exits it, SREG and the nesting counter are what they
-- were.
pub run-avr_port :
    (body : Paired) (s : Crit)
    → IsReady avr_port (suc (depth body)) s
    → ((run avr_port body (enter avr_port s)).cpu ≡ s.cpu % 2 ^ 7)
      × ((leave avr_port (run avr_port body (enter avr_port s))).cpu ≡ s.cpu)
      × ((leave avr_port (run avr_port body (enter avr_port s))).nesting ≡ s.nesting)
run-avr_port body s ready =
    let inner = run-Restored body avr_port-IsPort (enter-IsReady avr_port-IsPort ready) in
    let outer = section-Restored avr_port-IsPort ready inner in
    (inner.cpu ∙ enter-avr_port s, outer.cpu, outer.nesting)
