-- ===== src/Heap/Bounds.antt =====
-- source/tbx_heap.c: one call, on every branch, with the wrap of `size_t`.
use microtbx.Base.{
  ℕ, ◌^◌, ◌+◌, ◌-◌, ◌*◌, ◌/◌, ◌%◌, ◌<◌, ◌≤◌, ◌≡◌, ◌≢◌, ◌⊎◌, inl, inr, ap, refl, arith,
}
use microtbx.Target.{Target, Config, IsConfig, Ptr, null, sizeof_ptr, size_mod}
use microtbx.Target.Align.{bit_and-mask}
use microtbx.CritSect.{enter, leave}
use microtbx.CritSect.Nested.{IsPort, IsReady, Restored, Restored_refl, section-Restored}
use native.Mathlib.Decide.{dec_lt, dec_le}
use microtbx.Heap.{Heap, allocate, get_free, size_wanted, size_available}

-- The counter never passes the end of the buffer.
pub record IsHeap (c : Config) (h : Heap) : Type 0 where
  pub within : h.allocated ≤ c.heap_size

-- `size` rounded up to a multiple of the pointer size.
abbrev pub round_up : Target → ℕ → ℕ
round_up t size = (size + (sizeof_ptr t - 1)) / sizeof_ptr t * sizeof_ptr t

-- The addition in the alignment does not wrap.
abbrev pub Fits : Target → ℕ → Type 0
Fits t size = size + (sizeof_ptr t - 1) < size_mod t

pub round_up_bounds :
    (t : Target) (n : ℕ) → (n ≤ round_up t n) × (round_up t n ≤ n + (sizeof_ptr t - 1))
round_up_bounds Target.avr n = omega arith
round_up_bounds Target.cortexm n = omega arith
round_up_bounds Target.linux n = omega arith

pub size_wanted_lem : (t : Target) (size : ℕ) → Fits t size → size_wanted t size ≡ round_up t size
unfolding size_wanted
size_wanted_lem Target.avr size fits =
    omega (arith, bit_and-mask Target.avr ((size + 1) % 2 ^ 16) (omega arith))
size_wanted_lem Target.cortexm size fits =
    omega (arith, bit_and-mask Target.cortexm ((size + 3) % 2 ^ 32) (omega arith))
size_wanted_lem Target.linux size fits =
    omega (arith, bit_and-mask Target.linux ((size + 7) % 2 ^ 64) (omega arith))

-- Close to the top of `size_t` the addition wraps, and the size wanted is none at all.
pub size_wanted_wrap :
    (t : Target) (size : ℕ) → size < size_mod t → ¬ Fits t size → size_wanted t size ≡ 0
unfolding size_wanted
size_wanted_wrap Target.avr size lt wraps =
    omega (arith, bit_and-mask Target.avr ((size + 1) % 2 ^ 16) (omega arith))
size_wanted_wrap Target.cortexm size lt wraps =
    omega (arith, bit_and-mask Target.cortexm ((size + 3) % 2 ^ 32) (omega arith))
size_wanted_wrap Target.linux size lt wraps =
    omega (arith, bit_and-mask Target.linux ((size + 7) % 2 ^ 64) (omega arith))

pub size_available_lem :
    (t : Target) (m n : ℕ) → m < size_mod t → n ≤ m → size_available t m n ≡ m - n
unfolding size_available
size_available_lem Target.avr m n ok h = omega arith
size_available_lem Target.cortexm m n ok h = omega arith
size_available_lem Target.linux m n ok h = omega arith

pub size_add_lem : (t : Target) (n : ℕ) → n < size_mod t → n % size_mod t ≡ n
size_add_lem Target.avr n h = omega arith
size_add_lem Target.cortexm n h = omega arith
size_add_lem Target.linux n h = omega arith

module _ {c : Config} (config : IsConfig c) {h : Heap} (valid : IsHeap c h) (size : ℕ) where
  abbrev wanted : ℕ
  wanted = size_wanted c.target size

  available : size_available c.target c.heap_size h.allocated ≡ c.heap_size - h.allocated
  available =
      size_available_lem c.target c.heap_size h.allocated (omega (arith, config.fits)) valid.within

  pub allocate-some :
      0 < size
      → h.allocated + wanted ≤ c.heap_size
      → allocate c size h ≡ (
        c.base + h.allocated,
        record { crit = leave c.port (enter c.port h.crit); allocated = h.allocated + wanted },
      )
  unfolding allocate
  allocate-some pos room =
      rw available
        (ground (arith, size_add_lem c.target (h.allocated + wanted) (omega (arith, config.fits))))

  pub allocate-none :
      0 < size
      → c.heap_size < h.allocated + wanted
      → allocate c size h ≡ (null, record h { crit = leave c.port (enter c.port h.crit) })
  unfolding allocate
  allocate-none pos full = rw available (ground (arith, valid.within))

-- How one call ends: nothing is reserved and the result is NULL, because nothing was asked for or
-- too little is left; or the block begins where the last one ended, and it lies in the buffer.
pub data Outcome (c : Config) (size : ℕ) (h : Heap) (r : Ptr × Heap) : Type 0 where
  refused :
      r.0 ≡ null
      → r.1.allocated ≡ h.allocated
      → (size ≡ 0) ⊎ (c.heap_size < h.allocated + round_up c.target size)
      → Outcome c size h r
  reserved :
      0 < size
      → r.0 ≡ c.base + h.allocated
      → r.1.allocated ≡ h.allocated + round_up c.target size
      → r.1.allocated ≤ c.heap_size
      → Outcome c size h r

-- A request that does not wrap in the alignment is reserved exactly when it is not for zero bytes
-- and its size, rounded up to whole pointers, is still free; otherwise NULL, and nothing changes.
pub allocate_lem :
    {c : Config} {h : Heap} (size : ℕ)
    → IsConfig c
    → IsHeap c h
    → Fits c.target size
    → Outcome c size h (allocate c size h)
allocate_lem {c} {h} size config valid fits = elim (dec_lt 0 size) [
  | no z ↦
      Outcome.refused (ap (λ (r : Ptr × Heap). r.0) (nothing z))
        (ap (λ (r : Ptr × Heap). r.1.allocated) (nothing z)) (inl (omega arith))
  | yes pos ↦
      let asked = size_wanted_lem c.target size fits in
      elim (dec_le (h.allocated + wanted config valid size) c.heap_size) [
        | yes room ↦
            rw (allocate-some config valid size pos room)
              (Outcome.reserved pos refl (rw asked refl) room)
        | no full ↦
            rw (allocate-none config valid size pos (omega arith))
              (Outcome.refused refl refl (inr (omega (arith, asked))))
      ]
]
  where
    nothing : ¬ (0 < size) → allocate c size h ≡ (null, h)
    nothing z = unfold allocate in ground arith

-- Whatever is asked for, also where the alignment wraps, the counter stays within the buffer.
pub allocate-IsHeap :
    {c : Config} {h : Heap} (size : ℕ) → IsConfig c → IsHeap c h → IsHeap c (allocate c size h).1
allocate-IsHeap {c} {h} size config valid = elim (dec_lt 0 size) [
  | no z ↦ record { within = unfold allocate in ground (arith, valid.within) }
  | yes pos ↦ elim (dec_le (h.allocated + wanted config valid size) c.heap_size) [
    | yes room ↦ rw (allocate-some config valid size pos room) (record { within = room })
    | no full ↦
        rw (allocate-none config valid size pos (omega arith)) (record { within = valid.within })
  ]
]

-- A size so near the top of `size_t` that the alignment wraps is granted on any heap: a pointer
-- that is not NULL, with not one byte reserved behind it.
pub allocate_wrap :
    {c : Config} {h : Heap} (size : ℕ)
    → IsConfig c
    → IsHeap c h
    → size < size_mod c.target
    → ¬ Fits c.target size
    → ((allocate c size h).0 ≡ c.base + h.allocated)
      × ((allocate c size h).0 ≢ null)
      × ((allocate c size h).1.allocated ≡ h.allocated)
allocate_wrap {c} {h} size config valid lt wraps =
    let none_wanted = size_wanted_wrap c.target size lt wraps in
    let room : h.allocated + wanted config valid size ≤ c.heap_size =
      omega (arith, none_wanted, valid.within) in
    rw (allocate-some config valid size (pos c.target lt wraps) room)
      (refl, (λ e. absurd (omega (arith, config.base_pos))), omega (arith, none_wanted))
  where
    pos : (t : Target) → size < size_mod t → ¬ Fits t size → 0 < size
    pos Target.avr l w = omega arith
    pos Target.cortexm l w = omega arith
    pos Target.linux l w = omega arith

-- The critical section is left as it was entered, on every branch.
pub allocate-Restored :
    (c : Config) (h : Heap) (size : ℕ)
    → IsPort c.port
    → IsReady c.port 1 h.crit
    → Restored h.crit (allocate c size h).1.crit
unfolding allocate
allocate-Restored c h size port ready =
    let here = section-Restored port ready (Restored_refl (enter c.port h.crit)) in
    let same = Restored_refl h.crit in ground (arith, here, same)

-- For a size that does not wrap in the alignment, `TbxHeapGetFree` reports exactly the bytes of the
-- buffer that are not reserved. A request either returns NULL and leaves that number alone, because the
-- size is 0 or, rounded up to whole pointers, larger than what was reported; or it returns a pointer
-- and the number falls by the size rounded up.
pub get_free-allocate :
    {c : Config} {h : Heap} (size : ℕ)
    → IsConfig c
    → IsHeap c h
    → Fits c.target size
    → ((get_free c h).0 + h.allocated ≡ c.heap_size)
      × ((((allocate c size h).0 ≡ null)
            × ((get_free c (allocate c size h).1).0 ≡ (get_free c h).0)
            × ((size ≡ 0) ⊎ ((get_free c h).0 < round_up c.target size)))
          ⊎ (((allocate c size h).0 ≢ null)
              × ((get_free c (allocate c size h).1).0 + round_up c.target size ≡ (get_free c h).0)))
unfolding get_free
get_free-allocate {c} {h} size config valid fits =
    let later = allocate-IsHeap size config valid in
    let before = available config valid size in
    let after = available config later size in
    (
      omega (arith, before, valid.within),
      elim (allocate_lem size config valid fits) [
        | Outcome.refused e same why ↦ inl (
          e,
          omega (arith, before, after, same),
          elim why [ inl z ↦ inl z | inr full ↦ inr (omega (arith, before, full, valid.within)) ],
        )
        | Outcome.reserved pos e grown within ↦ inr (
          (λ z. absurd (omega (arith, z, e, config.base_pos))),
          omega (arith, before, after, grown, within, valid.within),
        )
      ],
    )
