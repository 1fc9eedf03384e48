-- ===== src/Heap/Requests.antt =====
-- source/tbx_heap.c: a series of calls, each for a size that does not wrap in the alignment.
use microtbx.Base.{ℕ, ◌+◌, ◌≤◌, ◌≡◌, arith, List, [], ◌∷◌, if◌then◌else◌, ◌==◌, All, ==_ne, false}
use native.Mathlib.Nat.{le_refl}
use microtbx.Target.{Config, IsConfig, Ptr, null}
use microtbx.Heap.{Heap, allocate}
use microtbx.Heap.Bounds.{IsHeap, Fits, Outcome, allocate_lem, allocate-IsHeap, round_up_bounds}

-- A call that returned `p` grants a block, unless that is NULL.
abbrev pub grant : Ptr → ℕ → List (Ptr × ℕ) → List (Ptr × ℕ)
grant p size blocks = if p == null then blocks else (p, size) ∷ blocks

-- The address and size of each block that was granted, and the heap afterwards.
unfoldable pub requests : Config → List ℕ → Heap → List (Ptr × ℕ) × Heap
requests c [] h = ([], h)
requests c (size ∷ sizes) h =
    let (p, h') = allocate c size h in
    let (blocks, last) = requests c sizes h' in (grant p size blocks, last)

-- The blocks lie between `lo` and `hi`, each behind the end of the one before.
abbrev pub Ordered : Ptr → Ptr → List (Ptr × ℕ) → Type 0
Ordered lo hi [] = lo ≤ hi
Ordered lo hi ((p, n) ∷ blocks) = (lo ≤ p) × Ordered (p + n) hi blocks

Ordered-widen :
    {lo lo' : Ptr} (hi : Ptr) (bs : List (Ptr × ℕ))
    → lo' ≤ lo
    → Ordered lo hi bs
    → Ordered lo' hi bs
Ordered-widen hi [] h o = omega arith
Ordered-widen hi ((p, n) ∷ bs) h o = (omega arith, o.1)

Ordered-grant :
    {c : Config} {h : Heap} {size : ℕ} {r : Ptr × Heap} (hi : Ptr) (bs : List (Ptr × ℕ))
    → IsConfig c
    → Outcome c size h r
    → Ordered (c.base + r.1.allocated) hi bs
    → Ordered (c.base + h.allocated) hi (grant r.0 size bs)
Ordered-grant hi bs config (Outcome.refused e same _) o =
    rw e (Ordered-widen hi bs (omega (arith, same)) o)
Ordered-grant {c} {h} {size} hi bs config (Outcome.reserved pos e more within) o =
    let granted : (c.base + h.allocated == null) ≡ false =
      ==_ne (λ z. absurd (omega (arith, config.base_pos))) in
    rw (e, granted)
      (le_refl _, Ordered-widen hi bs (omega (arith, more, round_up_bounds c.target size)) o)

-- Every series of requests that do not wrap gets blocks that lie inside the buffer, in front of
-- the counter's end and behind one another, so that no two share a byte.
pub requests-Ordered :
    {c : Config} (sizes : List ℕ) {h : Heap}
    → IsConfig c
    → IsHeap c h
    → All (Fits c.target) sizes
    → Ordered
        (c.base + h.allocated)
        (c.base + (requests c sizes h).1.allocated)
        (requests c sizes h).0
      × ((requests c sizes h).1.allocated ≤ c.heap_size)
unfolding requests
requests-Ordered [] config valid fits = (le_refl _, valid.within)
requests-Ordered (size ∷ sizes) config valid fits =
    let rest = requests-Ordered sizes config (allocate-IsHeap size config valid) fits.1 in
    (Ordered-grant _ _ config (allocate_lem size config valid fits.0) rest.0, rest.1)
