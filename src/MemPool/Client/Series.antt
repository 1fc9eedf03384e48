-- ===== src/MemPool/Client/Series.antt =====
-- Series of calls of the API of source/tbx_mempool.c by a client.
use microtbx.Base.{
  ℕ, ◌+◌, ◌<◌, ◌≤◌, ◌≡◌, ◌≢◌, refl, sym, ap, subst, ◌∙◌, arith, inl, inr, some, List, [], ◌∷◌, ◌++◌,
  All, ==_ne,
}
use microtbx.Target.{Config, Ptr, null, sizeof_ptr}
use microtbx.CritSect.Nested.{Restored, Restored-IsReady}
use microtbx.MemPool.Store.{State}
use microtbx.MemPool.View.{Cells, View, IsPools, mem}
use microtbx.MemPool.Frame.{All-map}
use microtbx.MemPool.Take.{with_free, taken}
use microtbx.MemPool.Ends.{Ends, ends, and_then, weaken, Ready}
use microtbx.MemPool.Grow.{struct_Fits}
use microtbx.MemPool.AddPool.{empty_view}
use microtbx.MemPool.Fill.{stocked}
use microtbx.MemPool.Given.{given}
use microtbx.MemPool.Allocate.{Allocated, allocate-Allocated}
use microtbx.MemPool.Create.{Created, create-Created}
use microtbx.MemPool.Refill.{AutoAllocated, assemble, IsReady-fewer}
use microtbx.MemPool.Auto.{allocate_auto-AutoAllocated}
use microtbx.MemPool.Release.{release-Released}
use microtbx.MemPool.Fresh.{Held}
use microtbx.MemPool.Holds.{mem-split, mem-without, Held-change, Held-more, Held-split}
use microtbx.MemPool.Client.{Lent, Call, Apart, IsCall, noted, give_back, serve, serve_all}
use microtbx.MemPool.Client.Lends.{
  Holding, Lends, Picked, pick_cases, Picked-All, Picked-Distinct, All-both, hand_out, Lends-Apart,
}

module _ {c : Config} {lent : List Lent} {s : State} (l : Lends c lent s) where
  abbrev once : Ready c l.home l.views 1 s
  once = assemble l.ready.config l.ready.port (IsReady-fewer l.ready.sections) l.ready.pools

  -- The client holds what it held.
  keep :
      {home : Ptr → ℕ} {vs : List View} {t : State}
      → Restored s.heap.crit t.heap.crit
      → IsPools c home vs t
      → ((b size : ℕ) → Held b size l.views → Held b size vs)
      → Lends c lent t
  keep {home} {vs} same pools still = record {
    home = home;
    views = vs;
    ready = assemble l.ready.config l.ready.port (Restored-IsReady same l.ready.sections) pools;
    held = All-map lent (λ x (b, size, e, le, h). (b, size, e, le, still b size h)) l.held;
    distinct = l.distinct;
  }

  -- Nothing was handed out.
  refused :
      (p size : ℕ) {home : Ptr → ℕ} {vs : List View} {t : State}
      → p ≡ null
      → Restored s.heap.crit t.heap.crit
      → IsPools c home vs t
      → ((b n : ℕ) → Held b n l.views → Held b n vs)
      → Lends c (noted p size lent) t
  refused p size e same pools still = rw e (keep same pools still)

  -- The block `b` was handed out.
  granted :
      (p size : ℕ) {home : Ptr → ℕ} {t : State} (vs₁ : List View) (v : View) (a b : Ptr)
      (fs : Cells) (vs₂ : List View)
      → p ≡ b + sizeof_ptr c.target
      → size ≤ v.size
      → Restored s.heap.crit t.heap.crit
      → IsPools c home (vs₁ ++ taken v a b fs ∷ vs₂) t
      → ((d n : ℕ) → Held d n l.views → Held d n (vs₁ ++ v ∷ vs₂))
      → Lends c (noted p size lent) t
  granted p size {home} {t} vs₁ v a b fs vs₂ e le same pools still =
      let before = keep_held still in
      let (held, distinct) = hand_out vs₁ v a b fs vs₂ pools p size lent e le before l.distinct in
      rw (==_ne {a = p} {b = null} (λ z. absurd (omega (arith, z, e, (struct_Fits c.target).3))))
        (record {
          home = home;
          views = vs₁ ++ taken v a b fs ∷ vs₂;
          ready =
              assemble l.ready.config l.ready.port (Restored-IsReady same l.ready.sections) pools;
          held = held;
          distinct = distinct;
        })
    where
      keep_held :
          ((d n : ℕ) → Held d n l.views → Held d n (vs₁ ++ v ∷ vs₂))
          → All (Holding c (vs₁ ++ v ∷ vs₂)) lent
      keep_held still = All-map lent (λ x (d, n, e, le, h). (d, n, e, le, still d n h)) l.held

  create-Lends :
      (num_blocks size : ℕ)
      → IsCall c (Call.create num_blocks size)
      → Ends (Lends c) (serve c (Call.create num_blocks size) lent s)
  unfolding serve
  create-Lends num_blocks size (some_blocks, pos, fits) =
      and_then (create-Created num_blocks size some_blocks pos fits l.ready) λ made t (is, grown).
        ends (elim is [
          | Created.no_memory _ _ _ _ pools ↦ keep grown.crit pools λ _ _ h. h
          | Created.extended _ vs₁ v more vs₂ _ at _ _ pools ↦ keep grown.crit pools λ b n h.
              Held-change b n vs₁ v (stocked v more) vs₂ refl (λ m. m)
                (subst (λ us. Held b n us) at h)
          | Created.set_up _ vs₁ node pool free used more vs₂ at _ _ pools ↦
              keep grown.crit pools λ b n h.
                Held-more b n vs₁ (stocked (empty_view node pool size free used) more) vs₂
                  (subst (λ us. Held b n us) at h)
        ])

  allocate-Lends : (size : ℕ) → 0 < size → Ends (Lends c) (serve c (Call.allocate size) lent s)
  unfolding serve
  allocate-Lends size pos = and_then (allocate-Allocated size once pos) λ p t (is, kept).
      ends (elim is [
        | Allocated.no_pool e _ pools ↦ refused p size e kept.crit pools λ _ _ h. h
        | Allocated.used_up _ _ _ e _ _ _ _ pools ↦ refused p size e kept.crit pools λ _ _ h. h
        | Allocated.granted vs₁ v a b fs vs₂ e at _ le pools ↦
            granted p size vs₁ v a b fs vs₂ e le kept.crit pools λ d n h.
              Held-change d n vs₁ (with_free v a b fs) v vs₂ refl (λ m. m)
                (subst (λ us. Held d n us) at h)
      ])

  allocate_auto-Lends :
      (size : ℕ)
      → IsCall c (Call.allocate_auto size)
      → Ends (Lends c) (serve c (Call.allocate_auto size) lent s)
  unfolding serve
  allocate_auto-Lends size (pos, fits) =
      and_then (allocate_auto-AutoAllocated size pos fits l.ready) λ p t (is, grown).
        ends (elim is [
          | AutoAllocated.exhausted _ e _ _ pools ↦ refused p size e grown.crit pools λ _ _ h. h
          | AutoAllocated.exhausted_new _ vs₁ node pool free used vs₂ e _ _ at pools ↦
              refused p size e grown.crit pools λ d n h.
                Held-more d n vs₁ (empty_view node pool size free used) vs₂
                  (subst (λ us. Held d n us) at h)
          | AutoAllocated.from_pool _ vs₁ v a b fs vs₂ e is_size at pools ↦
              granted p size vs₁ v a b fs vs₂ e (omega (arith, is_size)) grown.crit pools λ d n h.
                Held-change d n vs₁ (with_free v a b fs) v vs₂ refl (λ m. m)
                  (subst (λ us. Held d n us) at h)
          | AutoAllocated.from_refill _ vs₁ v a b vs₂ e is_size _ at pools ↦
              granted p size vs₁ v a b v.free vs₂ e (omega (arith, is_size)) grown.crit pools
                λ d n h. subst (λ us. Held d n us) at h
          | AutoAllocated.from_new _ vs₁ node pool free used a b vs₂ e _ at pools ↦
              granted p size vs₁ (empty_view node pool size free used) a b [] vs₂ e (omega arith)
                grown.crit pools
                λ d n h.
                  Held-more d n vs₁ (empty_view node pool size free used) vs₂
                    (subst (λ us. Held d n us) at h)
        ])

  -- The pointer `x` goes back.
  returned :
      (x : Lent) (rest : List Lent)
      → Picked x lent rest
      → Ends (Lends c) (give_back c lent (some (x, rest)) s)
  returned x rest picked =
      let ((b, size, e, _, h), others) = Picked-All (Holding c l.views) picked l.held in
      let (ne, distinct) = Picked-Distinct picked l.distinct in
      let (vs₁, v, vs₂, at, m) = Held-split b size l.views h in
      let (l₁, l₂, split) = mem-split b v.live m in
      rw e (
        and_then
          (release-Released vs₁ v l₁ b l₂ vs₂ split (subst (λ us. Ready c l.home us 1 s) at once))
          λ _ t (r, kept). ends (record {
            home = l.home;
            views = vs₁ ++ given v r.node r.rest l₁ b l₂ ∷ vs₂;
            ready =
                assemble l.ready.config l.ready.port (Restored-IsReady kept.crit l.ready.sections)
                  r.pools;
            held =
                All-map rest
                  (λ y ((b', n, e', le, h'), apart). (
                    b',
                    n,
                    e',
                    le,
                    Held-change b' n vs₁ v (given v r.node r.rest l₁ b l₂) vs₂ refl
                        (λ m'.
                          mem-without b b' l₁ l₂ (λ z. apart (omega (arith, z, e, e')))
                            (ap (mem b') (sym split) ∙ m'))
                        (subst (λ us. Held b' n us) at h'),
                  ))
                  (All-both (Holding c l.views) (λ (y : Lent). y.0 ≢ x.0) rest others ne);
            distinct = distinct;
          }))

  serve-Lends : (call : Call) → IsCall c call → Ends (Lends c) (serve c call lent s)
  unfolding serve
  serve-Lends (Call.create num_blocks size) ok = create-Lends num_blocks size ok
  serve-Lends (Call.allocate size) ok = allocate-Lends size ok
  serve-Lends (Call.allocate_auto size) ok = allocate_auto-Lends size ok
  serve-Lends (Call.release index) ok = elim (pick_cases index lent) [
    | inl e ↦ rw e (ends l)
    | inr (x, rest, e, picked) ↦ rw e (returned x rest picked)
  ]

serve_all-Lends :
    {c : Config} (calls : List Call) (lent : List Lent) (s : State)
    → All (IsCall c) calls
    → Lends c lent s
    → Ends (Lends c) (serve_all c calls lent s)
unfolding serve_all
serve_all-Lends [] lent s ok l = ends l
serve_all-Lends (call ∷ calls) lent s ok l =
    and_then (serve-Lends l call ok.0) λ lent' t l'. serve_all-Lends calls lent' t ok.1 l'

-- From a state without pools, with a sound configuration and port and room for two more nested critical
-- sections: any series of calls of the API by a client that gives back only pointers that it holds,
-- with arguments that are positive and, where blocks are made, do not wrap in the alignment, never
-- faults and always ends. Then the bytes of each pointer that it holds, for the size asked for and with
-- the size word in front, lie in the buffer of the heap, those of any two do not overlap, and the
-- pools are well-formed.
pub serve_all-Apart :
    {c : Config} {home : Ptr → ℕ} {s : State} (calls : List Call)
    → Ready c home [] 2 s
    → All (IsCall c) calls
    → Ends
        (λ lent s'. Apart c lent × ((home' : Ptr → ℕ) × (vs : List View) × IsPools c home' vs s'))
        (serve_all c calls [] s)
serve_all-Apart {c} {home} {s} calls ready ok =
    weaken
      (serve_all-Lends calls [] s ok
        (record { home = home; views = []; ready = ready; held = tt; distinct = tt }))
      λ lent s' l. (Lends-Apart l, (l.home, l.views, l.ready.pools))
