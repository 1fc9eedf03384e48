-- ===== src/LinkedList/Sequence.antt =====
-- What source/tbx_list.h promises of a list, on the sequence of its items.
use microtbx.Base.{
  ◌≡◌, refl, ap, arith, Bool, false, List, [], ◌∷◌, ◌++◌, ◌||◌, ◌==◌, ==_refl, if◌then◌else◌,
}
use microtbx.Target.{Ptr, null}

abbrev pub contains : Ptr → List Ptr → Bool
contains a [] = false
contains a (x ∷ xs) = (x == a) || contains a xs

-- At the first item `ref`: a new item in front of it or behind it, its removal, and the items
-- beside it, NULL where there is none.
abbrev pub insert_before : (item ref : Ptr) → List Ptr → List Ptr
insert_before item ref [] = []
insert_before item ref (x ∷ xs) = if x == ref then item ∷ x ∷ xs else x ∷ insert_before item ref xs

abbrev pub insert_after : (item ref : Ptr) → List Ptr → List Ptr
insert_after item ref [] = []
insert_after item ref (x ∷ xs) = if x == ref then x ∷ item ∷ xs else x ∷ insert_after item ref xs

abbrev pub erase : Ptr → List Ptr → List Ptr
erase ref [] = []
erase ref (x ∷ xs) = if x == ref then xs else x ∷ erase ref xs

-- The first item `ref` becomes `to`; two items change places, where each stands first.
abbrev pub replace_first : (ref to : Ptr) → List Ptr → List Ptr
replace_first ref to [] = []
replace_first ref to (x ∷ xs) = if x == ref then to ∷ xs else x ∷ replace_first ref to xs

abbrev pub swap_first : (item₁ item₂ : Ptr) → List Ptr → List Ptr
swap_first item₁ item₂ [] = []
swap_first item₁ item₂ (x ∷ xs) =
    if x == item₁
    then item₂ ∷ replace_first item₂ item₁ xs
    else if x == item₂
    then item₁ ∷ replace_first item₁ item₂ xs
    else x ∷ swap_first item₁ item₂ xs

abbrev pub head_or : Ptr → List Ptr → Ptr
head_or d [] = d
head_or d (x ∷ _) = x

abbrev pub last_or : Ptr → List Ptr → Ptr
last_or d [] = d
last_or d (x ∷ xs) = last_or x xs

abbrev pub next_of : Ptr → List Ptr → Ptr
next_of ref [] = null
next_of ref (x ∷ xs) = if x == ref then head_or null xs else next_of ref xs

-- `before` is the item in front of the sequence.
abbrev pub previous_of : (ref before : Ptr) → List Ptr → Ptr
previous_of ref before [] = null
previous_of ref before (x ∷ xs) = if x == ref then before else previous_of ref x xs

-- At a sequence that is taken apart at the first item `ref`.
module _ (ref : Ptr) (ys : List Ptr) where
  pub insert_before-append :
      (item : Ptr) (xs : List Ptr)
      → contains ref xs ≡ false
      → insert_before item ref (xs ++ ref ∷ ys) ≡ xs ++ item ∷ ref ∷ ys
  insert_before-append item [] out = rw ==_refl
  insert_before-append item (x ∷ xs) out =
      let miss : (x == ref) ≡ false = ground arith in
      rw miss (ap (◌∷◌ x) (insert_before-append item xs (ground arith)))

  pub insert_after-append :
      (item : Ptr) (xs : List Ptr)
      → contains ref xs ≡ false
      → insert_after item ref (xs ++ ref ∷ ys) ≡ (xs ++ ref ∷ []) ++ item ∷ ys
  insert_after-append item [] out = rw ==_refl
  insert_after-append item (x ∷ xs) out =
      let miss : (x == ref) ≡ false = ground arith in
      rw miss (ap (◌∷◌ x) (insert_after-append item xs (ground arith)))

  pub erase-append :
      (xs : List Ptr) → contains ref xs ≡ false → erase ref (xs ++ ref ∷ ys) ≡ xs ++ ys
  erase-append [] out = rw ==_refl
  erase-append (x ∷ xs) out =
      let miss : (x == ref) ≡ false = ground arith in
      rw miss (ap (◌∷◌ x) (erase-append xs (ground arith)))

  pub next_of-append :
      (xs : List Ptr) → contains ref xs ≡ false → next_of ref (xs ++ ref ∷ ys) ≡ head_or null ys
  next_of-append [] out = rw ==_refl
  next_of-append (x ∷ xs) out =
      let miss : (x == ref) ≡ false = ground arith in rw miss (next_of-append xs (ground arith))

  pub previous_of-append :
      (before : Ptr) (xs : List Ptr)
      → contains ref xs ≡ false
      → previous_of ref before (xs ++ ref ∷ ys) ≡ last_or before xs
  previous_of-append before [] out = rw ==_refl
  previous_of-append before (x ∷ xs) out =
      let miss : (x == ref) ≡ false = ground arith in
      rw miss (previous_of-append x xs (ground arith))

pub next_of-none : (ref : Ptr) (xs : List Ptr) → contains ref xs ≡ false → next_of ref xs ≡ null
next_of-none ref [] out = refl
next_of-none ref (x ∷ xs) out =
    let miss : (x == ref) ≡ false = ground arith in rw miss (next_of-none ref xs (ground arith))

pub previous_of-none :
    (ref before : Ptr) (xs : List Ptr) → contains ref xs ≡ false → previous_of ref before xs ≡ null
previous_of-none ref before [] out = refl
previous_of-none ref before (x ∷ xs) out =
    let miss : (x == ref) ≡ false = ground arith in
    rw miss (previous_of-none ref x xs (ground arith))

pub erase-none : (ref : Ptr) (xs : List Ptr) → contains ref xs ≡ false → erase ref xs ≡ xs
erase-none ref [] out = refl
erase-none ref (x ∷ xs) out =
    let miss : (x == ref) ≡ false = ground arith in
    rw miss (ap (◌∷◌ x) (erase-none ref xs (ground arith)))
