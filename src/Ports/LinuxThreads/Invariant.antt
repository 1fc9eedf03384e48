-- ===== src/Ports/LinuxThreads/Invariant.antt =====
-- source/port/LINUX/tbx_port.c: the invariant of the flag, the mutex and the places of the threads.
use microtbx.Base.{
  ℕ, ◌≡◌, ◌≢◌, refl, sym, ap, subst, ◌∙◌, arith, Bool, true, false, Option, none, some, ◌==◌,
  ==_iff, ==_refl, ==_ne, Bool-cases, inl, inr,
}
use microtbx.Ports.Lock.{Lock, IsLock, update}
use microtbx.Ports.LinuxThreads.{
  Place, State, locked, flag_set, advance, step, Reaches, initial, is_inside,
}

-- A thread that set the flag.
abbrev setter : Place → Bool
setter Place.outside = false
setter Place.locking = true
setter Place.clearing = true
setter (Place.inside enabled) = enabled

abbrev at_mutex : Place → Bool
at_mutex Place.outside = false
at_mutex Place.locking = true
at_mutex Place.clearing = true
at_mutex (Place.inside enabled) = false

setter-at_mutex : (p : Place) → at_mutex p ≡ true → setter p ≡ true
setter-at_mutex Place.outside h = absurd cc
setter-at_mutex Place.locking h = refl
setter-at_mutex Place.clearing h = refl
setter-at_mutex (Place.inside enabled) h = absurd cc

module _ {L : Type 0} {lock : Lock L} {holder : L → Option ℕ} (is : IsLock lock holder) where
  record Sound (s : State L) : Type 0 where
    flagged : (i : ℕ) → setter (s.places i) ≡ true → s.flag ≡ true
    unique : (i j : ℕ) → setter (s.places i) ≡ true → setter (s.places j) ≡ true → i ≡ j
    open_ : (i : ℕ) → at_mutex (s.places i) ≡ true → holder s.mutex ≡ none
    clear : s.flag ≡ false → holder s.mutex ≡ none
    owned : (i : ℕ) → s.places i ≡ Place.inside true → holder s.mutex ≡ some i

  -- What a step of the thread `i` to the place `p` has to keep.
  record Keeps (s : State L) (i : ℕ) (p : Place) (flag : Bool) (mutex : L) : Type 0 where
    sets : setter p ≡ true → flag ≡ true
    waits : at_mutex p ≡ true → holder mutex ≡ none
    clears : flag ≡ false → holder mutex ≡ none
    owns : p ≡ Place.inside true → holder mutex ≡ some i
    others :
        (j : ℕ)
        → j ≢ i
        → setter (s.places j) ≡ true
        → (flag ≡ true) × (setter p ≡ false) × (holder mutex ≡ holder s.mutex)

  Sound-step :
      {s : State L} {i : ℕ} {p : Place} {flag : Bool} {mutex : L}
      → Sound s
      → Keeps s i p flag mutex
      → Sound (record { flag = flag; mutex = mutex; places = update s.places i p })
  Sound-step {s} {i} {p} {flag} {mutex} h k = record {
    flagged = λ j o. elim (Bool-cases (j == i)) [
      | inl hit ↦ k.sets (rw hit at o)
      | inr miss ↦ (k.others j (away miss) (rw miss at o)).0
    ];
    unique = λ j j' o o'. elim (Bool-cases (j == i)) [
      | inl hit ↦ elim (Bool-cases (j' == i)) [
        | inl hit' ↦ (==_iff j i).0 hit ∙ sym ((==_iff j' i).0 hit')
        | inr miss' ↦ absurd (
            let (_, none', _) = k.others j' (away miss') (rw miss' at o') in
            let o₁ = (rw hit at o) in cc)
      ]
      | inr miss ↦ elim (Bool-cases (j' == i)) [
        | inl hit' ↦ absurd (
            let (_, none', _) = k.others j (away miss) (rw miss at o) in
            let o₁ = (rw hit' at o') in cc)
        | inr miss' ↦ h.unique j j' (rw miss at o) (rw miss' at o')
      ]
    ];
    open_ = λ j o. elim (Bool-cases (j == i)) [
      | inl hit ↦ k.waits (rw hit at o)
      | inr miss ↦
          let o' : at_mutex (s.places j) ≡ true = (rw miss at o) in
          let (_, _, same) = k.others j (away miss) (setter-at_mutex (s.places j) o') in
          same ∙ h.open_ j o'
    ];
    clear = k.clears;
    owned = λ j e. elim (Bool-cases (j == i)) [
      | inl hit ↦ k.owns (rw hit at e) ∙ ap some (sym ((==_iff j i).0 hit))
      | inr miss ↦
          let e' : s.places j ≡ Place.inside true = (rw miss at e) in
          let (_, _, same) = k.others j (away miss) (ap setter e') in same ∙ h.owned j e'
    ];
  }
    where
      away : {j : ℕ} → (j == i) ≡ false → j ≢ i
      away miss same = ground (arith, same, miss)

  abbrev OnSome : (State L → Type 0) → Option (State L) → Type 0
  OnSome Q none = Unit
  OnSome Q (some u) = Q u

  module _ (s : State L) (i : ℕ) (h : Sound s) where
    alone :
        (p : Place) {A : Type 0} {j : ℕ}
        → s.places i ≡ p
        → setter p ≡ true
        → j ≢ i
        → setter (s.places j) ≡ true
        → A
    alone p e o ne o' = absurd (ne (h.unique _ i o' (ap setter e ∙ o)))

    locked-Sound :
        (o : Option L)
        → lock.take i s.mutex ≡ o
        → s.places i ≡ Place.locking
        → OnSome Sound (locked lock i s o)
    locked-Sound none e at = tt
    locked-Sound (some l) e at =
        let set = h.flagged i (ap setter at) in
        Sound-step h (record {
          sets = λ _. set;
          waits = λ none'. absurd cc;
          clears = λ none'. absurd cc;
          owns = λ _. (is.taken i s.mutex l e).1;
          others = λ j ne o. alone Place.locking at refl ne o;
        })

    flag_set-Sound : (set : Bool) → s.flag ≡ set → OnSome Sound (flag_set lock i s set)
    flag_set-Sound true set = Sound-step h (record {
      sets = λ o. absurd cc;
      waits = λ o. absurd cc;
      clears = h.clear;
      owns = λ e. absurd (let e' = ap setter e in cc);
      others = λ j ne o. (h.flagged j o, refl, refl);
    })
    flag_set-Sound false unset = Sound-step h (record {
      sets = λ _. refl;
      waits = λ _. h.clear unset;
      clears = λ e. absurd cc;
      owns = λ e. absurd (let e' = ap at_mutex e in cc);
      others = λ j ne o. absurd (let set = h.flagged j o in cc);
    })

    -- A step keeps the invariant.
    advance-Sound : (p : Place) → s.places i ≡ p → OnSome Sound (advance lock i p s)
    advance-Sound Place.outside at = flag_set-Sound s.flag refl
    advance-Sound Place.locking at = locked-Sound (lock.take i s.mutex) refl at
    advance-Sound (Place.inside true) at =
        let left = is.given i s.mutex (h.owned i at) in
        Sound-step h (record {
          sets = λ _. h.flagged i (ap setter at);
          waits = λ _. left;
          clears = λ _. left;
          owns = λ e. absurd (let e' = ap at_mutex e in cc);
          others = λ j ne o. alone (Place.inside true) at refl ne o;
        })
    advance-Sound (Place.inside false) at = Sound-step h (record {
      sets = λ o. absurd cc;
      waits = λ o. absurd cc;
      clears = h.clear;
      owns = λ e. absurd (let e' = ap setter e in cc);
      others = λ j ne o. (h.flagged j o, refl, refl);
    })
    advance-Sound Place.clearing at = Sound-step h (record {
      sets = λ o. absurd cc;
      waits = λ o. absurd cc;
      clears = λ _. h.open_ i (ap at_mutex at);
      owns = λ e. absurd (let e' = ap setter e in cc);
      others = λ j ne o. alone Place.clearing at refl ne o;
    })

    flag_set_goes_on : (set : Bool) → (u : State L) × (flag_set lock i s set ≡ some u)
    flag_set_goes_on true = (_, refl)
    flag_set_goes_on false = (_, refl)

    goes_on : (p : Place) → s.places i ≡ p → (u : State L) × (advance lock i p s ≡ some u)
    goes_on Place.outside at = flag_set_goes_on s.flag
    goes_on Place.locking at =
        let (l, e) = is.ready i s.mutex (h.open_ i (ap at_mutex at)) in (_, ap (locked lock i s) e)
    goes_on (Place.inside true) at = (_, refl)
    goes_on (Place.inside false) at = (_, refl)
    goes_on Place.clearing at = (_, refl)

  module _ {l : L} (unlocked : holder l ≡ none) where
    Reaches-Sound : {s : State L} → Reaches lock (initial l) s → Sound s
    unfolding step
    Reaches-Sound Reaches.start = record {
      flagged = λ i o. absurd cc;
      unique = λ i j o. absurd cc;
      open_ = λ i o. unlocked;
      clear = λ _. unlocked;
      owned = λ i e. absurd (let e' = ap setter e in cc);
    }
    Reaches-Sound (Reaches.next {t} i before e) =
        subst (OnSome Sound) e (advance-Sound t i (Reaches-Sound before) (t.places i) refl)

    -- Over a mutex that keeps its contract and is free at first: whatever the threads of the Linux port
    -- have done, none of them has to wait: every thread, one in front of `pthread_mutex_lock` included,
    -- has a next step.
    pub step-Reaches :
        {s : State L}
        → Reaches lock (initial l) s
        → (i : ℕ) → (u : State L) × (step lock i s ≡ some u)
    unfolding step
    step-Reaches {s} reached i = goes_on s i (Reaches-Sound reached) (s.places i) refl

    -- Over a mutex that keeps its contract and is free at first, any two threads of the Linux port can
    -- both be between `TbxPortInterruptsDisable` and `TbxPortInterruptsRestore`.
    pub both_inside :
        (i j : ℕ)
        → i ≢ j
        → (s : State L) × Reaches lock (initial l) s
          × (is_inside (s.places i) ≡ true)
          × (is_inside (s.places j) ≡ true)
    unfolding step
    both_inside i j ne =
        let (l', e) = is.ready i l unlocked in
        let s₁ : State L = record {
          flag = true;
          mutex = l;
          places = update (λ _. Place.outside) i Place.locking;
        } in
        let s₂ : State L = record {
          flag = true;
          mutex = l';
          places = update s₁.places i (Place.inside true);
        } in
        let s₃ : State L = record s₂ { places = update s₂.places j (Place.inside false) } in
        (
          s₃,
          Reaches.next {t = s₂} j
              (Reaches.next {t = s₁} i (Reaches.next i Reaches.start refl) (rw (==_refl i, e) refl))
              (rw (==_ne (λ (z : j ≡ i). ne (sym z))) refl),
          rw (==_ne ne, ==_refl i) refl,
          rw (==_refl j) refl,
        )
