-- ===== src/MemPool/Fill.antt =====
-- The loop in `TbxMemPoolCreate` of source/tbx_mempool.c, over all of its rounds.
use microtbx.Base.{
  ℕ, zero, suc, ◌+◌, ◌≤◌, ◌<◌, ◌≡◌, refl, sym, ap, subst, ◌∙◌, arith, Bool, false, true, List, [],
  ◌∷◌, ◌++◌, length, length-append,
}
use mathlib.Core.List.{append_assoc}
use microtbx.Target.{Config, IsConfig, Ptr, sizeof_ptr}
use microtbx.CritSect.Nested.{IsPort, IsReady, Restored_refl, Restored_trans, Restored-IsReady}
use microtbx.Heap.Bounds.{Fits}
use microtbx.MemPool.Store.{State}
use microtbx.MemPool.Api.{create_blocks}
use microtbx.MemPool.Grow.{Full}
use microtbx.MemPool.View.{Cells, View, IsPools}
use microtbx.MemPool.Ends.{Ends, ends, weaken, and_then}
use microtbx.MemPool.NewPool.{Grown}
use microtbx.MemPool.AddBlock.{added}
use microtbx.MemPool.NewBlock.{BlockMade, create_block-BlockMade}

-- A pool with more free blocks in front.
abbrev pub stocked : View → Cells → View
stocked v more = record v { free = more ++ v.free }

Grown-refl : (s : State) → Grown s s
Grown-refl s = record { allocated = omega arith; crit = Restored_refl s.heap.crit }

pub Grown-trans : {s t u : State} → Grown s t → Grown t u → Grown s u
Grown-trans a b = record {
  allocated = omega (arith, a.allocated, b.allocated);
  crit = Restored_trans a.crit b.crit;
}

-- After `k` rounds the pool has up to `k` more blocks, and all of them if the rounds succeeded.
pub record Filled (c : Config) (vs₁ : List View) (v : View) (vs₂ : List View) (k : ℕ)
    (before made : Bool) (s' : State) : Type 0 where
  pub home : Ptr → ℕ
  pub more : Cells
  pub atmost : length more ≤ k
  pub all : made ≡ true → (before ≡ true) × (length more ≡ k)
  pub few : made ≡ false → before ≡ true → (length more < k) × Full c v.size s'
  pub pools : IsPools c home (vs₁ ++ stocked v more ∷ vs₂) s'

module _ {c : Config} (config : IsConfig c) (port : IsPort c.port) (vs₁ vs₂ : List View) where
  stocked-added :
      (v : View) (a b : Ptr) (more : Cells)
      → stocked (added v a b) more ≡ stocked v (more ++ (a, b) ∷ [])
  stocked-added v a b more =
      ap (λ t. record v { free = t }) (sym (append_assoc more ((a, b) ∷ []) v.free))

  one_more :
      {s : State} (v : View) (a b : Ptr) (k : ℕ) (before result : Bool) {made : Bool}
      → before ≡ result
      → Filled c vs₁ (added v a b) vs₂ k before made s
      → Filled c vs₁ v vs₂ (suc k) result made s
  one_more {s} v a b k before result e f = record {
    home = f.home;
    more = f.more ++ (a, b) ∷ [];
    atmost = omega (arith, length-append f.more ((a, b) ∷ []), f.atmost);
    all = λ z.
        let r = f.all z in (sym e ∙ r.0, omega (arith, length-append f.more ((a, b) ∷ []), r.1));
    few = λ z y.
        let (less, full) = f.few z (e ∙ y) in
        (omega (arith, length-append f.more ((a, b) ∷ []), less), full);
    pools = subst (λ u. IsPools c f.home (vs₁ ++ u ∷ vs₂) s) (stocked-added v a b f.more) f.pools;
  }

  one_less :
      {s : State} (v : View) (k : ℕ) (before result : Bool) {made : Bool}
      → before ≡ false
      → Full c v.size s
      → Filled c vs₁ v vs₂ k before made s
      → Filled c vs₁ v vs₂ (suc k) result made s
  one_less v k before result e full f = record {
    home = f.home;
    more = f.more;
    atmost = omega (arith, f.atmost);
    all = λ z. cc (sym e ∙ (f.all z).0);
    few = λ _ _. (omega (arith, f.atmost), full);
    pools = f.pools;
  }

  pub create_blocks-Filled :
      (k : ℕ) {home : Ptr → ℕ} {s : State} (v : View) (result : Bool)
      → IsReady c.port 1 s.heap.crit
      → IsPools c home (vs₁ ++ v ∷ vs₂) s
      → Fits c.target (sizeof_ptr c.target + v.size)
      → Ends
          (λ made s'. Filled c vs₁ v vs₂ k result made s' × Grown s s')
          (create_blocks k c v.size v.node result s)
  unfolding create_blocks
  create_blocks-Filled zero {home} {s} v result ready pools fits = ends (
    record {
      home = home;
      more = [];
      atmost = omega arith;
      all = λ z. (z, refl);
      few = λ z y. cc (sym z ∙ y);
      pools = pools;
    },
    Grown-refl s,
  )
  create_blocks-Filled (suc k) {home} {s} v result ready pools fits =
      and_then (create_block-BlockMade vs₁ v vs₂ config port ready pools fits result)
        λ before t (was, grown). elim was [
          | BlockMade.failed e full now ↦
              weaken (create_blocks-Filled k v before (Restored-IsReady grown.crit ready) now fits)
                λ _ u (f, g). (
                  one_less v k before result e (omega (arith, full, g.allocated)) f,
                  Grown-trans grown g,
                )
          | BlockMade.added_one a b e now ↦
              weaken
                (create_blocks-Filled k (added v a b) before (Restored-IsReady grown.crit ready) now
                  fits)
                λ _ u (f, g). (one_more v a b k before result e f, Grown-trans grown g)
        ]
