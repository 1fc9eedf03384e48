-- ===== src/LinkedList/Ready.antt =====
-- A list of source/tbx_list.c in the state of a program: what the functions keep.
use microtbx.Base.{ℕ, suc, ◌≡◌, ◌≢◌, refl, true, false, length}
use microtbx.Target.{Ptr}
use microtbx.LinkedList.Store.{Pools, State}
use microtbx.LinkedList.Laws.{Blocks, Laws}
use microtbx.LinkedList.Chain.{Cells, has}
use microtbx.LinkedList.Link.{Headed}

-- The handle and the nodes are different blocks that are handed out, and they hold the list `xs`.
pub record Ready {P : Type 0} (Inv : ℕ → Blocks → P → Type 0) (k : ℕ) (live : Blocks) (list : Ptr)
    (xs : Cells) (s : State P) : Type 0 where
  pub headed : Headed list xs (length xs) s
  pub handle_live : live list ≡ true
  pub nodes_live : (a : Ptr) → has a xs ≡ true → live a ≡ true
  pub handle_out : has list xs ≡ false
  pub inv : Inv k live s.pools

-- Blocks other than the list's, and the critical section, are as they were.
pub record Frame {P : Type 0} (Same : P → P → Type 0) (live : Blocks) (list : Ptr) (xs : Cells)
    (s s' : State P) : Type 0 where
  pub nodes : (a : Ptr) → live a ≡ true → has a xs ≡ false → s'.node a ≡ s.node a
  pub lists : (a : Ptr) → a ≢ list → s'.list a ≡ s.list a
  pub same : Same s.pools s'.pools

-- Another state of the pools under the same memory.
abbrev pub with_pools : {P : Type 0} → State P → P → State P
with_pools s pools = record s { pools = pools }

pub Headed-pools :
    {P : Type 0} {list : Ptr} {xs : Cells} {count : ℕ} {s : State P} (pools : P)
    → Headed list xs count s
    → Headed list xs count (with_pools s pools)
Headed-pools pools h = record { nonnull = h.nonnull; handle = h.handle; chain = h.chain }

pub Ready-pools :
    {P : Type 0} {Inv : ℕ → Blocks → P → Type 0} {k k' : ℕ} {live : Blocks} {list : Ptr}
    {xs : Cells} {s : State P} (pools : P)
    → Ready Inv k live list xs s
    → Inv k' live pools
    → Ready Inv k' live list xs (with_pools s pools)
Ready-pools pools r inv = record {
  headed = Headed-pools pools r.headed;
  handle_live = r.handle_live;
  nodes_live = r.nodes_live;
  handle_out = r.handle_out;
  inv = inv;
}

pub Frame-pools :
    {P : Type 0} {Same : P → P → Type 0} {live : Blocks} {list : Ptr} {xs : Cells} {s : State P}
    (pools : P)
    → Same s.pools pools
    → Frame Same live list xs s (with_pools s pools)
Frame-pools pools same = record { nodes = λ _ _ _. refl; lists = λ _ _. refl; same = same }

-- A section around nothing but reads.
pub visit :
    {P : Type 0} {Inv : ℕ → Blocks → P → Type 0} {Same : P → P → Type 0} {p : Pools P}
    {Full : P → Type 0} {size k : ℕ} {live : Blocks} (s : P)
    → Laws p size Inv Same Full
    → Inv (suc k) live s
    → Inv (suc k) live (p.leave (p.enter s)) × Same s (p.leave (p.enter s))
visit {p} {k} {live} s laws inv =
    laws.leave k live live s (p.enter s) inv (laws.same_refl (p.enter s)) (laws.enter k live s inv)

pub Frame-after :
    {P : Type 0} {p : Pools P} {size : ℕ} {Inv : ℕ → Blocks → P → Type 0} {Same : P → P → Type 0}
    {Full : P → Type 0} {live : Blocks} {list : Ptr} {xs : Cells} {s s' : State P} {pools : P}
    → Laws p size Inv Same Full
    → Same s.pools pools
    → Frame Same live list xs (with_pools s pools) s'
    → Frame Same live list xs s s'
Frame-after {s} {s'} {pools} laws same f = record {
  nodes = f.nodes;
  lists = f.lists;
  same = laws.same_trans s.pools pools s'.pools same f.same;
}
