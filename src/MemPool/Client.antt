-- ===== src/MemPool/Client.antt =====
-- A client of the API of source/tbx_mempool.c, and what it holds: each pointer that it was given and
-- has not given back, with the size that it asked for, the last first.
use microtbx.Base.{
  ℕ, zero, suc, ◌+◌, ◌<◌, ◌≤◌, ◌⊎◌, Option, none, some, List, [], ◌∷◌, All, ◌==◌, if◌then◌else◌,
}
use microtbx.Target.{Config, Ptr, null, sizeof_ptr}
use microtbx.Heap.Bounds.{Fits}
use microtbx.MemPool.Store.{Cmd, pure, ◌>>=◌, ◌>>◌}
use microtbx.MemPool.Api
pub mod Lends
pub mod Series

abbrev pub Lent : Type 0
Lent = Ptr × ℕ

-- A call of `TbxMemPoolCreate`, `TbxMemPoolAllocate` or `TbxMemPoolAllocateAuto`, or of
-- `TbxMemPoolRelease` for one of the pointers that the client holds.
pub data Call : Type 0 where
  create : (num_blocks size : ℕ) → Call
  allocate allocate_auto : (size : ℕ) → Call
  release : (index : ℕ) → Call

abbrev pub noted : Ptr → ℕ → List Lent → List Lent
noted p size lent = if p == null then lent else (p, size) ∷ lent

abbrev behind : Lent → Option (Lent × List Lent) → Option (Lent × List Lent)
behind x none = none
behind x (some (y, rest)) = some (y, x ∷ rest)

abbrev pub pick : (index : ℕ) → List Lent → Option (Lent × List Lent)
pick index [] = none
pick zero (x ∷ lent) = some (x, lent)
pick (suc index) (x ∷ lent) = behind x (pick index lent)

abbrev pub give_back : Config → List Lent → Option (Lent × List Lent) → Cmd (List Lent)
give_back c lent none = pure lent
give_back c lent (some (x, rest)) = Api.release c x.0 >> pure rest

-- One call; there is none for a pointer that the client does not hold.
pub serve : Config → Call → List Lent → Cmd (List Lent)
serve c (Call.create num_blocks size) lent = Api.create c num_blocks size >> pure lent
serve c (Call.allocate size) lent = Api.allocate c size >>= λ p. pure (noted p size lent)
serve c (Call.allocate_auto size) lent = Api.allocate_auto c size >>= λ p. pure (noted p size lent)
serve c (Call.release index) lent = give_back c lent (pick index lent)

pub serve_all : Config → List Call → List Lent → Cmd (List Lent)
serve_all c [] lent = pure lent
serve_all c (call ∷ calls) lent = serve c call lent >>= serve_all c calls

-- The arguments are positive, and no size to make blocks for wraps in the alignment with its size word.
abbrev pub IsCall : Config → Call → Type 0
IsCall c (Call.create num_blocks size) =
    (0 < num_blocks) × (0 < size) × Fits c.target (sizeof_ptr c.target + size)
IsCall c (Call.allocate size) = 0 < size
IsCall c (Call.allocate_auto size) = (0 < size) × Fits c.target (sizeof_ptr c.target + size)
IsCall c (Call.release index) = Unit

-- The bytes of each pointer, for the size asked for, and the size word in front of them lie in the
-- buffer of the heap, and those of any two do not overlap.
abbrev pub Apart : Config → List Lent → Type 0
Apart c [] = Unit
Apart c (x ∷ lent) =
    (c.base + sizeof_ptr c.target ≤ x.0)
    × (x.0 + x.1 ≤ c.base + c.heap_size)
    × All
        (λ (y : Lent).
          (x.0 + x.1 + sizeof_ptr c.target ≤ y.0) ⊎ (y.0 + y.1 + sizeof_ptr c.target ≤ x.0))
        lent
    × Apart c lent
