-- ===== src/MemPool/Ends.antt =====
-- Total correctness of a run over the store: no fault, enough fuel, and a postcondition.
use microtbx.Base.{ℕ, List}
use microtbx.CritSect.{Crit}
use microtbx.CritSect.Nested.{IsPort, IsReady}
use microtbx.Target.{Config, IsConfig, Ptr}
use microtbx.MemPool.Store.{State, Run, ok, Cmd, continue}
use microtbx.MemPool.View.{View, IsPools}

pub data Ends {A : Type 0} (P : A → State → Type 0) : Run A → Type 0 where
  ends : {a : A} {s : State} → P a s → Ends P (ok a s)

module _ {A B : Type 0} {P : A → State → Type 0} {Q : B → State → Type 0} where
  pub and_then :
      {r : Run A} {k : A → Cmd B}
      → Ends P r
      → ((a : A) (s : State) → P a s → Ends Q (k a s))
      → Ends Q (continue r k)
  and_then (ends p) next = next _ _ p

pub weaken :
    {A : Type 0} {P Q : A → State → Type 0} {r : Run A}
    → Ends P r
    → ((a : A) (s : State) → P a s → Q a s)
    → Ends Q r
weaken (ends p) f = ends (f _ _ p)

-- Two postconditions of one run.
pub both :
    {A : Type 0} {P Q : A → State → Type 0} {r : Run A}
    → Ends P r
    → Ends Q r
    → Ends (λ a s. P a s × Q a s) r
both (ends p) (ends q) = ends (p, q)

-- The state with another record of the critical section, which the pools do not depend on.
abbrev pub with_crit : State → Crit → State
with_crit s k = record s { heap = record (s.heap) { crit = k } }

pub IsPools-crit :
    {c : Config} {home : Ptr → ℕ} {vs : List View} {s : State} (k : Crit)
    → IsPools c home vs s
    → IsPools c home vs (with_crit s k)
IsPools-crit k p = record {
  heap = record { within = p.heap.within };
  low = p.low;
  entry = p.entry;
  chain = p.chain;
  ascending = p.ascending;
  views = p.views;
  count = p.count;
}

-- What every function of the API is called under: a sound configuration and port, the pools as
-- they should be, and room for `k` nested critical sections.
pub record Ready (c : Config) (home : Ptr → ℕ) (vs : List View) (k : ℕ) (s : State) : Type 0 where
  pub config : IsConfig c
  pub port : IsPort c.port
  pub sections : IsReady c.port k s.heap.crit
  pub pools : IsPools c home vs s
