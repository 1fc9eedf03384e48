-- ===== src/LinkedList/OnMemPool/Granted.antt =====
-- `TbxMemPoolAllocate` and `TbxMemPoolRelease` of source/tbx_mempool.c, for the blocks that the
-- clients hold.
use microtbx.Base.{
  ℕ, suc, ◌+◌, ◌<◌, ◌≡◌, ◌≢◌, refl, sym, ap, subst, ◌∙◌, arith, true, false, some, List, ◌∷◌, ◌++◌,
  ◌⊎◌, inl, inr, ◌==◌, ==_iff, ==_refl, Bool-cases,
}
use microtbx.Target.{Config, Ptr, null, sizeof_ptr}
use microtbx.CritSect.Nested.{Restored-IsReady}
use microtbx.MemPool.Store.{State}
use microtbx.MemPool.Api
use microtbx.MemPool.View.{Cells, View, IsPools, mem}
use microtbx.MemPool.Take.{with_free, taken}
use microtbx.MemPool.Ends.{Ready}
use microtbx.MemPool.Grow.{struct_Fits}
use microtbx.MemPool.Allocate.{Allocated, allocate-Allocated}
use microtbx.MemPool.Refill.{assemble}
use microtbx.MemPool.Fresh.{Held, granted_ne}
use microtbx.MemPool.Holds.{mem-split, mem-without, Held-change, Held-here, Held-split}
use microtbx.MemPool.Given.{given}
use microtbx.MemPool.Release.{Released, release-Released}
use microtbx.LinkedList.Laws.{Blocks, with_block, without_block}
use microtbx.LinkedList.OnMemPool.{result, final, mem_pools, Holds, Settled, ran, rebuild, once}

module _ (c : Config) (size : ℕ) (pos : 0 < size) (k : ℕ) (live : Blocks) (s : State)
    (h : Holds c (suc k) live s) where
  abbrev Answer : Ptr → State → Type 0
  Answer q s' =
      ((q ≡ null) × Holds c (suc k) live s')
      ⊎ ((q ≢ null) × (live q ≡ false) × Holds c (suc k) (with_block live q) s')

  -- The block `b` is handed out.
  hand_out :
      (q : Ptr) (t : State) (vs₁ : List View) (v : View) (a b : Ptr) (fs : Cells) (vs₂ : List View)
      → q ≡ b + sizeof_ptr c.target
      → h.views ≡ vs₁ ++ with_free v a b fs ∷ vs₂
      → IsPools c h.home (vs₁ ++ taken v a b fs ∷ vs₂) t
      → Settled s t
      → Answer q t
  hand_out q t vs₁ v a b fs vs₂ e is pools same = inr (
    omega (arith, e, (struct_Fits c.target).3),
    elim (Bool-cases (live q)) [
      | inl hit ↦
          let (b', n, is', held) = h.held q hit in
          absurd (
            granted_ne size b' n (once h.ready) pos held vs₁ v a b fs vs₂ is
              (omega (arith, e, is')))
      | inr miss ↦ miss
    ],
    record {
      home = h.home;
      views = vs₁ ++ taken v a b fs ∷ vs₂;
      ready = assemble h.ready.config h.ready.port (Restored-IsReady same h.ready.sections) pools;
      held = λ d l. elim (Bool-cases (d == q)) [
        | inl hit ↦ (
          b,
          v.size,
          (==_iff d q).0 hit ∙ e,
          Held-here b v.size vs₁ (taken v a b fs) vs₂ refl (rw ==_refl refl),
        )
        | inr miss ↦
            let (b', n, is', held) = h.held d (rw miss at l) in
            (
              b',
              n,
              is',
              Held-change b' n vs₁ (with_free v a b fs) (taken v a b fs) vs₂ refl
                  (λ live'. ground (arith, live')) (subst (λ us. Held b' n us) is held),
            )
      ];
    },
  )

  pub allocate_law :
      (q : Ptr) × (s' : State) × ((mem_pools c).allocate size s ≡ some (q, s'))
      × Settled s s'
      × Answer q s'
  allocate_law =
      let (q, s', e, (answer, kept)) = ran (allocate-Allocated size (once h.ready) pos) in
      (
        q,
        s',
        e,
        kept.crit,
        elim answer [
          | Allocated.no_pool z _ pools ↦
              inl (z, rebuild c size (suc k) live s h kept.crit pools λ _ _ held. held)
          | Allocated.used_up _ _ _ z _ _ _ _ pools ↦
              inl (z, rebuild c size (suc k) live s h kept.crit pools λ _ _ held. held)
          | Allocated.granted vs₁ v a b fs vs₂ is at _ _ pools ↦
              hand_out q s' vs₁ v a b fs vs₂ is at pools kept.crit
        ],
      )

  -- The client's block goes back to its pool.
  give_back :
      (q b : Ptr) (vs₁ : List View) (v : View) (vs₂ : List View) (l₁ l₂ : List Ptr) (t : State)
      → q ≡ b + sizeof_ptr c.target
      → h.views ≡ vs₁ ++ v ∷ vs₂
      → v.live ≡ l₁ ++ b ∷ l₂
      → Released c h.home vs₁ v l₁ b l₂ vs₂ t
      → Settled s t
      → Holds c (suc k) (without_block live q) t
  give_back q b vs₁ v vs₂ l₁ l₂ t e is split r same = record {
    home = h.home;
    views = vs₁ ++ given v r.node r.rest l₁ b l₂ ∷ vs₂;
    ready = assemble h.ready.config h.ready.port (Restored-IsReady same h.ready.sections) r.pools;
    held = λ d l. elim (Bool-cases (d == q)) [
      | inl hit ↦ absurd (let gone = (rw hit at l) in cc)
      | inr miss ↦
          let (b', n, is', held) = h.held d (rw miss at l) in
          let ne : b' ≢ b = λ z. ground (arith, miss, is', e, z) in
          (
            b',
            n,
            is',
            Held-change b' n vs₁ v (given v r.node r.rest l₁ b l₂) vs₂ refl
                (λ m. mem-without b b' l₁ l₂ ne (ap (mem b') (sym split) ∙ m))
                (subst (λ us. Held b' n us) is held),
          )
    ];
  }

  pub release_law :
      (q : Ptr)
      → live q ≡ true
      → (s' : State) × ((mem_pools c).release q s ≡ some s')
        × Settled s s'
        × Holds c (suc k) (without_block live q) s'
  release_law q l =
      let (b, n, e, held) = h.held q l in
      let (vs₁, v, vs₂, is, m) = Held-split b n h.views held in
      let (l₁, l₂, split) = mem-split b v.live m in
      let (_, t, run, (r, kept)) = ran (
        release-Released vs₁ v l₁ b l₂ vs₂ split
          (subst (λ us. Ready c h.home us 1 s) is (once h.ready))) in
      (
        t,
        ap (λ r. final (result (Api.release c r s))) e ∙ ap final run,
        kept.crit,
        give_back q b vs₁ v vs₂ l₁ l₂ t e is split r kept.crit,
      )
