-- ===== src/LinkedList/OnMemPool.antt =====
-- The memory pools of source/tbx_mempool.c and the critical sections of source/tbx_critsect.c as the
-- interface that source/tbx_list.c has to them.
pub mod Granted
pub mod Extended
pub mod Filled
use microtbx.Base.{
  ℕ, zero, suc, ◌+◌, ◌*◌, ◌<◌, ◌≡◌, ◌≢◌, refl, sym, ap, subst, ◌∙◌, arith, Bool, true, false,
  Option, none, some, List, [], ◌∷◌, ◌++◌, length, length-append, ◌⊎◌, inl, inr, ◌||◌, ◌==◌, ==_iff,
  ==_refl, ==_ne, Bool-cases, if◌then◌else◌,
}
use microtbx.Target.{Target, Config, IsConfig, Ptr, null, sizeof_ptr}
use microtbx.CritSect.{enter, leave}
use microtbx.CritSect.Nested.{
  IsReady, Restored, Restored_refl, Restored_trans, Restored-IsReady, enter-IsReady,
  section-Restored,
}
use microtbx.Heap.Bounds.{Fits}
use microtbx.MemPool
use microtbx.MemPool.Store.{State, Run, ok, fault, out_of_fuel}
use microtbx.MemPool.Api
use microtbx.MemPool.View.{Cells, View, IsView, IsPools, mem}
use microtbx.MemPool.Replace.{All-middle}
use microtbx.MemPool.Take.{with_free, taken}
use microtbx.MemPool.Ends.{Ends, ends, with_crit, IsPools-crit, Ready}
use microtbx.MemPool.Grow.{Full, struct_Fits}
use microtbx.MemPool.Allocate.{Allocated, Kept, allocate-Allocated}
use microtbx.MemPool.Exact.{allocate-exact}
use microtbx.MemPool.Refill.{assemble, IsReady-fewer}
use microtbx.MemPool.Fresh.{Held, granted_ne}
use microtbx.MemPool.Holds.{mem-split, mem-without, Held-change, Held-more, Held-here, Held-split}
use microtbx.MemPool.Given.{given}
use microtbx.MemPool.Release.{Released, release-Released}
use microtbx.MemPool.Create.{Created, create-Created}
use microtbx.MemPool.Fill.{stocked}
use microtbx.MemPool.AddPool.{empty_view}
use microtbx.LinkedList.Store.{Pools}
use microtbx.LinkedList.Laws.{Blocks, with_block, without_block, Stocked, Laws}

abbrev pub result : {A : Type 0} → Run A → Option (A × State)
result (ok a s) = some (a, s)
result fault = none
result out_of_fuel = none

abbrev pub final : Option (Unit {0} × State) → Option State
final none = none
final (some (_, s)) = some s

abbrev pub mem_pools : Config → Pools State
mem_pools c = record {
  create = λ n size s. result (Api.create c n size s);
  allocate = λ size s. result (Api.allocate c size s);
  release = λ q s. final (result (Api.release c q s));
  enter = λ s. with_crit s (enter c.port s.heap.crit);
  leave = λ s. with_crit s (leave c.port s.heap.crit);
}

-- The blocks `live` are with clients, and there is room for `k` more nested critical sections.
pub record Holds (c : Config) (k : ℕ) (live : Blocks) (s : State) : Type 0 where
  pub home : Ptr → ℕ
  pub views : List View
  pub ready : Ready c home views k s
  pub held :
      (a : Ptr)
      → live a ≡ true
      → (b : Ptr) × (size : ℕ) × (a ≡ b + sizeof_ptr c.target) × Held b size views

abbrev pub Settled : State → State → Type 0
Settled s t = Restored s.heap.crit t.heap.crit

pub ran :
    {A : Type 0} {P : A → State → Type 0} {r : Run A}
    → Ends P r
    → (a : A) × (s : State) × (result r ≡ some (a, s)) × P a s
ran (ends p) = (_, _, refl, p)

module _ (c : Config) (size k : ℕ) (live : Blocks) (s : State) where
  -- The blocks that were held are held, of pools that are as they should be.
  pub rebuild :
      {home : Ptr → ℕ} {vs : List View} {t : State} (h : Holds c k live s)
      → Settled s t
      → IsPools c home vs t
      → ((b size : ℕ) → Held b size h.views → Held b size vs)
      → Holds c k live t
  rebuild {home} {vs} h same pools keep = record {
    home = home;
    views = vs;
    ready = assemble h.ready.config h.ready.port (Restored-IsReady same h.ready.sections) pools;
    held = λ a l. let (b, n, is, held) = h.held a l in (b, n, is, keep b n held);
  }

pub once :
    {c : Config} {home : Ptr → ℕ} {vs : List View} {k : ℕ} {s : State}
    → Ready c home vs (suc k) s
    → Ready c home vs 1 s
once {k} r =
    assemble r.config r.port
      (record { room = omega (arith, r.sections.room); masked = r.sections.masked }) r.pools

pub twice :
    {c : Config} {home : Ptr → ℕ} {vs : List View} {k : ℕ} {s : State}
    → Ready c home vs (suc (suc k)) s
    → Ready c home vs 2 s
twice {k} r =
    assemble r.config r.port
      (record { room = omega (arith, r.sections.room); masked = r.sections.masked }) r.pools
