-- ===== src/Random/Numbers.antt =====
-- The numbers of source/tbx_random.c and what the registers hold after them.
use microtbx.Base.{
  ℕ, ◌+◌, ◌*◌, ◌%◌, ◌^◌, ◌<◌, ◌≡◌, refl, ap, ◌∙◌, arith, bit_or, Bool, Bool-cases, inl, inr, true,
  false, Option, none, some, ◌==◌, if◌then◌else◌,
}
use microtbx.Base.Joins.{bit_or-join}
use microtbx.Target.{Config}
use microtbx.CritSect.Nested.{
  IsPort, IsReady, Restored, Restored_refl, Restored_trans, Restored-IsReady, section-Restored,
}
use microtbx.Random.{
  Random, polymask32, polymask31, seed, default_seed32, default_seed31, init_lfsrs, shift_lfsr,
  number_16bit_get, number_get,
}
use microtbx.Random.Shift.{Fits32, Fits31, shift32-bounds, shift31-bounds}

-- Neither register is stuck at 0, and each keeps to its length.
pub record IsRandom (s : Random) : Type 0 where
  pub lfsr32 : Fits32 s.lfsr32
  pub lfsr31 : Fits31 s.lfsr31

module _ (c : Config) (s : Random) where
  number_16bit-lt : (number_16bit_get c s).0 < 2 ^ 16
  unfolding number_16bit_get
  number_16bit-lt = omega arith

  number_16bit-IsRandom : IsRandom s → IsRandom (number_16bit_get c s).1
  unfolding number_16bit_get
  number_16bit-IsRandom h = record {
    lfsr32 = shift32-bounds (shift_lfsr s.lfsr32 polymask32) (shift32-bounds s.lfsr32 h.lfsr32);
    lfsr31 = shift31-bounds s.lfsr31 h.lfsr31;
  }

  number_16bit-Restored :
      IsPort c.port → IsReady c.port 1 s.crit → Restored s.crit (number_16bit_get c s).1.crit
  unfolding number_16bit_get
  number_16bit-Restored port ready = section-Restored port ready (Restored_refl _)

-- The seeds are usable: the second answer of the handler fits into 31 bits. (Both defaults do.)
abbrev pub Seeds : Option (ℕ → ℕ) → Type 0
Seeds handler = seed handler 1 default_seed31 < 2 ^ 31

usable :
    (a d m : ℕ)
    → a < m
    → 0 < d
    → d < m
    → (0 < (if a == 0 then d else a)) × ((if a == 0 then d else a) < m)
usable a d m h pos fits = ground arith

seed-lt : (handler : Option (ℕ → ℕ)) (n d : ℕ) → d < 2 ^ 32 → seed handler n d < 2 ^ 32
seed-lt none n d h = h
seed-lt (some handler) n d h = omega arith

init-IsRandom : (s : Random) → Seeds s.seed_init_handler → IsRandom (init_lfsrs s)
unfolding init_lfsrs
init-IsRandom s ok = record {
  lfsr32 =
      usable (seed s.seed_init_handler 0 default_seed32) default_seed32 (2 ^ 32)
        (seed-lt s.seed_init_handler 0 default_seed32 (omega arith)) (omega arith) (omega arith);
  lfsr31 =
      usable (seed s.seed_init_handler 1 default_seed31) default_seed31 (2 ^ 31) ok (omega arith)
        (omega arith);
}

abbrev pub started : Random → Random
started s = if s.seeded then s else record (init_lfsrs s) { seeded = true }

started_case :
    (P : Random → Type 0) (s : Random)
    → (s.seeded ≡ true → P s)
    → P (record (init_lfsrs s) { seeded = true })
    → P (started s)
started_case P s h k = go s.seeded refl
  where
    go : (b : Bool) → s.seeded ≡ b → P (if b then s else record (init_lfsrs s) { seeded = true })
    go true e = h e
    go false e = k

started-IsRandom :
    (s : Random) → (s.seeded ≡ true → IsRandom s) → Seeds s.seed_init_handler → IsRandom (started s)
started-IsRandom s h ok =
    let r = init-IsRandom s ok in
    started_case IsRandom s h (record { lfsr32 = r.lfsr32; lfsr31 = r.lfsr31 })

started-crit : (s : Random) → (started s).crit ≡ s.crit
started-crit s = started_case (λ t. t.crit ≡ s.crit) s (λ _. refl) (unfold init_lfsrs in refl)

started-seeded : (s : Random) → (started s).seeded ≡ true
started-seeded s = started_case (λ t. t.seeded ≡ true) s (λ e. e) refl

number_16bit-seeded : (c : Config) (s : Random) → (number_16bit_get c s).1.seeded ≡ s.seeded
unfolding number_16bit_get
number_16bit-seeded c s = refl

module _ (c : Config) (s : Random) where
  abbrev high : ℕ × Random
  high = number_16bit_get c (started s)

  abbrev low : ℕ × Random
  low = number_16bit_get c high.1

  number_get_lem : number_get c s ≡ (high.0 * 2 ^ 16 + low.0, low.1)
  unfolding number_get
  number_get_lem =
      let fits : high.0 * 2 ^ 16 % 2 ^ 32 ≡ high.0 * 2 ^ 16 =
        omega (arith, number_16bit-lt c (started s)) in
      ap (λ n. (n, low.1))
        (ap (λ t. bit_or t low.0) fits ∙ bit_or-join 16 high.0 low.0 (number_16bit-lt c high.1))

-- What one call makes of the registers.
abbrev pub four_shifts32 : ℕ → ℕ
four_shifts32 r =
    shift_lfsr (shift_lfsr (shift_lfsr (shift_lfsr r polymask32) polymask32) polymask32) polymask32

abbrev pub two_shifts31 : ℕ → ℕ
two_shifts31 r = shift_lfsr (shift_lfsr r polymask31) polymask31

number_get-registers :
    (c : Config) (s : Random)
    → ((number_get c s).1.lfsr32 ≡ four_shifts32 (started s).lfsr32)
      × ((number_get c s).1.lfsr31 ≡ two_shifts31 (started s).lfsr31)
unfolding number_get number_16bit_get
number_get-registers c s = (refl, refl)

started-registers :
    (s : Random)
    → ((started s).lfsr32 ≡ (if s.seeded then s.lfsr32 else (init_lfsrs s).lfsr32))
      × ((started s).lfsr31 ≡ (if s.seeded then s.lfsr31 else (init_lfsrs s).lfsr31))
started-registers s = elim (Bool-cases s.seeded) [
  | inl set ↦ rw set (refl, refl)
  | inr not_yet ↦ rw not_yet (refl, refl)
]

-- With a sound port, room for one more nested critical section and a second answer of the seed handler
-- of at most 31 bits: a call returns 32 bits, and leaves both registers running if a seeded generator
-- had them running. It shifts the 32-bit register four times and the other one twice, from the seeds
-- if the generator was not seeded and from where they were if it was; then it is seeded, and the
-- critical section is as it was.
pub number_get-IsRandom :
    (c : Config) (s : Random)
    → IsPort c.port
    → IsReady c.port 1 s.crit
    → (s.seeded ≡ true → IsRandom s)
    → Seeds s.seed_init_handler
    → ((number_get c s).0 < 2 ^ 32)
      × IsRandom (number_get c s).1
      × ((number_get c s).1.seeded ≡ true)
      × ((number_get c s).1.lfsr32
          ≡ four_shifts32 (if s.seeded then s.lfsr32 else (init_lfsrs s).lfsr32))
      × ((number_get c s).1.lfsr31
          ≡ two_shifts31 (if s.seeded then s.lfsr31 else (init_lfsrs s).lfsr31))
      × Restored s.crit (number_get c s).1.crit
number_get-IsRandom c s port ready running ok =
    let first = started-IsRandom s running ok in
    let crit₁ = number_16bit-Restored c (started s) port (rw (started-crit s) ready) in
    let crit₁' = (rw (started-crit s) at crit₁) in
    let crit₂ = number_16bit-Restored c (high c s).1 port (Restored-IsReady crit₁' ready) in
    let (shifted32, shifted31) = number_get-registers c s in
    let (from32, from31) = started-registers s in
    let lfsr32 = shifted32 ∙ ap four_shifts32 from32 in
    let lfsr31 = shifted31 ∙ ap two_shifts31 from31 in
    rw (number_get_lem c s) (
      omega (arith, number_16bit-lt c (started s), number_16bit-lt c (high c s).1),
      number_16bit-IsRandom c (high c s).1 (number_16bit-IsRandom c (started s) first),
      number_16bit-seeded c (high c s).1 ∙ number_16bit-seeded c (started s) ∙ started-seeded s,
      (rw (number_get_lem c s) at lfsr32),
      (rw (number_get_lem c s) at lfsr31),
      Restored_trans crit₁' crit₂,
    )
