-- ===== src/CritSect.antt =====
-- source/tbx_critsect.c, over the status register of a port. Assertions are off, as by default,
-- so `TBX_ASSERT` does nothing.
pub mod Nested
use microtbx.Base.{ℕ, ◌+◌, ◌-◌, ◌%◌, ◌^◌, ◌<◌, ◌≡◌, ltb, ◌==◌, if◌then◌else◌}
use microtbx.Target.{Port}

-- `tbxCritSectNestingCounter`, `tbxCritSectCpuSR`, and the CPU's own status register.
pub record Crit : Type 0 where
  pub nesting : ℕ
  pub saved : ℕ
  pub cpu : ℕ

unfoldable pub enter : Port → Crit → Crit
enter p s =
    let (sr, cpu) = p.disable s.cpu in
    record {
      nesting = (s.nesting + 1) % 2 ^ 32;
      saved = if s.nesting == 0 then sr else s.saved;
      cpu = cpu;
    }

-- The decrement is under the test, so it does not wrap.
unfoldable pub leave : Port → Crit → Crit
leave p s =
    if ltb 0 s.nesting
    then (let n = s.nesting - 1 in
        record s { nesting = n; cpu = if n == 0 then p.restore s.saved s.cpu else s.cpu })
    else s
