-- ===== src/Tests.antt =====
-- Runs of the model at concrete inputs, and the properties at inputs that meet their hypotheses.
mod MemPoolRuns
mod Stocked
mod Examples
mod PoolExamples
mod ListExamples
mod PortExamples
use microtbx.Base.{ℕ, none}
use microtbx.Target.{Target, Config, Port}
use microtbx.MemPool.Store.{State}

-- A status register whose lowest bit enables the interrupts.
abbrev pub simple_port : Port
simple_port = record { disable = λ s. (s, 0); restore = λ sr s. sr }

abbrev pub small : Config
small = record { target = Target.linux; port = simple_port; base = 4096; heap_size = 400 }

abbrev pub start : State
start = record {
  heap = record { crit = record { nesting = 0; saved = 0; cpu = 1 }; allocated = 0 };
  memory = record {
    block_node = λ _. none;
    block_list = λ _. none;
    pool = λ _. none;
    pool_node = λ _. none;
    size_word = λ _. none;
  };
  pool_list = 0;
}
