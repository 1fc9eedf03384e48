-- ===== src/Platform.antt =====
-- source/tbx_platform.c. How the hardware stores a word of 32 bits is a parameter: its bytes, the
-- one at the lowest address first.
use microtbx.Base.{
  ℕ, ◌/◌, ◌%◌, ◌^◌, ◌<◌, ◌≡◌, refl, arith, Bool, true, false, List, [], ◌∷◌, ◌==◌, ◌⊎◌, inl, inr,
  if◌then◌else◌,
}

abbrev first_byte : List ℕ → ℕ
first_byte [] = 0
first_byte (b ∷ bs) = b

-- `TbxPlatformLittleEndian`
unfoldable pub little_endian : (ℕ → List ℕ) → Bool
little_endian stored = if first_byte (stored 0x01234567) == 0x67 then true else false

abbrev pub lowest_first : ℕ → List ℕ
lowest_first v = v % 2 ^ 8 ∷ v / 2 ^ 8 % 2 ^ 8 ∷ v / 2 ^ 16 % 2 ^ 8 ∷ v / 2 ^ 24 ∷ []

abbrev pub highest_first : ℕ → List ℕ
highest_first v = v / 2 ^ 24 ∷ v / 2 ^ 16 % 2 ^ 8 ∷ v / 2 ^ 8 % 2 ^ 8 ∷ v % 2 ^ 8 ∷ []

-- On hardware that stores words in one of the two orders, `TbxPlatformLittleEndian` is true exactly if
-- it stores the lowest byte of each word first.
pub little_endian_lem :
    (stored : ℕ → List ℕ)
    → ((v : ℕ) → v < 2 ^ 32 → stored v ≡ lowest_first v)
      ⊎ ((v : ℕ) → v < 2 ^ 32 → stored v ≡ highest_first v)
    → (little_endian stored ≡ true → (v : ℕ) → v < 2 ^ 32 → stored v ≡ lowest_first v)
      × (((v : ℕ) → v < 2 ^ 32 → stored v ≡ lowest_first v) → little_endian stored ≡ true)
unfolding little_endian
little_endian_lem stored order = (
  λ yes'. elim order [
    | inl low ↦ low
    | inr high ↦ absurd (let e = high 0x01234567 (omega arith) in let no' = (rw e at yes') in cc)
  ],
  λ low. rw (low 0x01234567 (omega arith)) refl,
)
