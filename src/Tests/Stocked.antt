-- ===== src/Tests/Stocked.antt =====
-- A state with one pool of source/tbx_mempool.c: two blocks of 16 bytes, both free.
use microtbx.Base.{ℕ, refl, arith, none, [], ◌∷◌}
use microtbx.Target.{IsConfig, Ptr, null}
use microtbx.CritSect.Nested.{IsPort, IsReady}
use microtbx.MemPool.Store.{State, Memory, put}
use microtbx.MemPool.View.{View, IsView, IsPools}
use microtbx.MemPool.Ends.{Ready}
use microtbx.MemPool.Grow.{extend}
use microtbx.Tests.{simple_port, small, start}

pub small-IsConfig : IsConfig small
small-IsConfig = record { base_pos = omega arith; fits = omega arith }

pub simple-IsPort : IsPort simple_port
simple-IsPort = record { undo = λ _. refl; again = λ _. refl }

pub start-IsReady : IsReady simple_port 2 start.heap.crit
start-IsReady = record { room = omega arith; masked = λ h. absurd (omega (arith, h)) }

abbrev pub start_home : Ptr → ℕ
start_home a = 0

pub start-IsPools : IsPools small start_home [] start
start-IsPools = record {
  heap = record { within = omega arith };
  low = λ a h. refl;
  entry = refl;
  chain = tt;
  ascending = tt;
  views = tt;
  count = omega arith;
}

abbrev pub pool16 : View
pool16 = record {
  node = 4096;
  pool = 4112;
  size = 16;
  free_list = 4136;
  used_list = 4144;
  free = (4192, 4208) ∷ (4152, 4168) ∷ [];
  used = [];
  live = [];
}

abbrev pub home : Ptr → ℕ
home = extend (extend (extend start_home 4096 16 4144) 4152 16 4168) 4192 16 4208

abbrev pub stocked_memory : Memory
stocked_memory = record {
  block_node =
      put (put (λ _. none) 4152 (record { block_ptr = 4168; next_node_ptr = null })) 4192
        (record { block_ptr = 4208; next_node_ptr = 4152 });
  block_list = put (put (λ _. none) 4136 4192) 4144 null;
  pool =
      put (λ _. none) 4112
        (record { block_size = 16; free_block_list_ptr = 4136; used_block_list_ptr = 4144 });
  pool_node = put (λ _. none) 4096 (record { pool_ptr = 4112; next_node_ptr = null });
  size_word = put (put (λ _. none) 4168 16) 4208 16;
}

abbrev pub stocked : State
stocked = record {
  heap = record { crit = start.heap.crit; allocated = 136 };
  memory = stocked_memory;
  pool_list = 4096;
}

pool16-IsView : IsView 8 stocked_memory home 4232 pool16
pool16-IsView = record {
  size_pos = omega arith;
  node_at = (omega arith, omega arith, refl);
  pool_at = (omega arith, omega arith, refl);
  free_list_at = (omega arith, omega arith, refl);
  used_list_at = (omega arith, omega arith, refl);
  lists_ne = omega arith;
  pool_is = refl;
  free_is = refl;
  used_is = refl;
  free_linked = (omega arith, refl, refl, (omega arith, refl, refl, tt));
  used_linked = tt;
  free_cells = ((omega arith, omega arith, refl), ((omega arith, omega arith, refl), tt));
  used_cells = tt;
  apart = λ a h. refl;
  blocks = (
    ((omega arith, omega arith, refl), refl, omega arith, λ a lo hi. ground arith),
    (((omega arith, omega arith, refl), refl, omega arith, λ a lo hi. ground arith), tt),
  );
  distinct = (refl, (refl, tt));
  balance = refl;
}

pub stocked-IsPools : IsPools small home (pool16 ∷ []) stocked
stocked-IsPools = record {
  heap = record { within = omega arith };
  low = λ a h. ground (arith, h);
  entry = refl;
  chain = (omega arith, refl, tt);
  ascending = (tt, tt);
  views = (pool16-IsView, tt);
  count = omega arith;
}

pub stocked-Ready : Ready small home (pool16 ∷ []) 2 stocked
stocked-Ready = record {
  config = small-IsConfig;
  port = simple-IsPort;
  sections = start-IsReady;
  pools = stocked-IsPools;
}

pub stocked-Ready1 : Ready small home (pool16 ∷ []) 1 stocked
stocked-Ready1 = record {
  config = small-IsConfig;
  port = simple-IsPort;
  sections = record { room = omega arith; masked = λ h. absurd (omega (arith, h)) };
  pools = stocked-IsPools;
}
