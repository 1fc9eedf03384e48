-- ===== src/Ports/Rp2040/Exclusion.antt =====
-- source/port/RP2040/tbx_port.c: the flags of the cores and the holder of the spin lock.
use microtbx.Base.{
  ℕ, ◌≡◌, ◌≢◌, refl, sym, ap, subst, ◌∙◌, arith, Bool, true, false, Option, none, some, ◌==◌,
  ==_iff, ==_refl, ==_ne, Bool-cases, inl, inr, if◌then◌else◌,
}
use microtbx.Target.{Ptr, null}
use microtbx.Ports.Lock.{IsLock, update, update_here}
use microtbx.Ports.Rp2040.{Sync, Place, Call, State, move, locked, advance, step, Reaches}

abbrev holds : ℕ → Option ℕ → Bool
holds i none = false
holds i (some j) = i == j

-- What a core's flag and the holder of the lock are at each place.
abbrev pub Fits : Place → (has_lock held : Bool) → Type 0
Fits Place.outside has_lock held = (has_lock ≡ false) × (held ≡ false)
Fits Place.testing has_lock held = has_lock ≡ held
Fits Place.starting has_lock held = ⊥
Fits Place.claiming has_lock held = ⊥
Fits Place.entering has_lock held = has_lock ≡ held
Fits Place.asking has_lock held = has_lock ≡ held
Fits Place.locking has_lock held = (has_lock ≡ false) × (held ≡ false)
Fits Place.marking has_lock held = (has_lock ≡ false) × (held ≡ true)
Fits Place.inside has_lock held = (has_lock ≡ true) × (held ≡ true)
Fits Place.restoring has_lock held = (has_lock ≡ true) × (held ≡ true)
Fits Place.unmarking has_lock held = (has_lock ≡ true) × (held ≡ true)
Fits Place.unlocking has_lock held = (has_lock ≡ false) × (held ≡ true)
Fits (Place.clearing core_idx) has_lock held = ⊥
Fits (Place.naming lock_num) has_lock held = ⊥

holds_one : (i j : ℕ) (o : Option ℕ) → holds i o ≡ true → holds j o ≡ true → i ≡ j
holds_one i j none h h' = absurd cc
holds_one i j (some k) h h' = (==_iff i k).0 h ∙ sym ((==_iff j k).0 h')

holds-some : (i : ℕ) (o : Option ℕ) → holds i o ≡ true → o ≡ some i
holds-some i none h = absurd cc
holds-some i (some k) h = ap some (sym ((==_iff i k).0 h))

module _ {L : Type 0} (holder : L → Option ℕ) where
  -- The spin lock is there, and every core is where its flag and the lock say.
  pub record Prepared (s : State L) : Type 0 where
    pub initialized : s.initialized ≡ true
    pub handle : s.spin_lock ≢ null
    pub cores :
        (i : ℕ) → Fits (s.places i) (s.core_has_lock i) (holds i (holder (s.locks s.spin_lock)))

  abbrev OnSome : Option (State L) → Type 0
  OnSome none = Unit
  OnSome (some u) = Prepared u

module _ {L : Type 0} (sync : Sync L) {holder : L → Option ℕ} (is : IsLock sync.lock holder) where
  module _ (s : State L) (i : ℕ) (h : Prepared holder s) where
    -- The core `i` moves to `p`, with `b` for its flag, and the lock is now `l`.
    moved :
        (p : Place) (flags : ℕ → Bool) (locks : Ptr → L)
        → Fits p (flags i) (holds i (holder (locks s.spin_lock)))
        → ((j : ℕ)
            → j ≢ i
            → (flags j ≡ s.core_has_lock j)
              × (holds j (holder (locks s.spin_lock)) ≡ holds j (holder (s.locks s.spin_lock))))
        → Prepared holder (record {
          initialized = s.initialized;
          spin_lock = s.spin_lock;
          claimed = s.claimed;
          locks = locks;
          core_has_lock = flags;
          places = update s.places i p;
        })
    moved p flags locks own others = record {
      initialized = h.initialized;
      handle = h.handle;
      cores = λ j. elim (Bool-cases (j == i)) [
        | inl hit ↦ rw hit (
            subst (λ k. Fits p (flags k) (holds k (holder (locks s.spin_lock))))
              (sym ((==_iff j i).0 hit)) own)
        | inr miss ↦
            let (flag, hold) = others j (λ same. ground (arith, same, miss)) in
            rw (miss, flag, hold) (h.cores j)
      ];
    }

    -- Only the place changes.
    walked :
        (p : Place)
        → Fits p (s.core_has_lock i) (holds i (holder (s.locks s.spin_lock)))
        → Prepared holder (move i p s)
    walked p own = moved p s.core_has_lock s.locks own λ j ne. (refl, refl)

    at :
        {p : Place}
        → s.places i ≡ p
        → Fits p (s.core_has_lock i) (holds i (holder (s.locks s.spin_lock)))
    at e =
        subst (λ p. Fits p (s.core_has_lock i) (holds i (holder (s.locks s.spin_lock)))) e
          (h.cores i)

    tested :
        (initialized : Bool)
        → s.initialized ≡ initialized
        → s.core_has_lock i ≡ holds i (holder (s.locks s.spin_lock))
        → OnSome holder (some (move i (if initialized then Place.entering else Place.starting) s))
    tested true e same = walked Place.entering same
    tested false e same = absurd (let set = h.initialized in cc)

    asked :
        (has_lock : Bool)
        → s.core_has_lock i ≡ has_lock
        → s.core_has_lock i ≡ holds i (holder (s.locks s.spin_lock))
        → OnSome holder (some (move i (if has_lock then Place.inside else Place.locking) s))
    asked true e same = walked Place.inside (e, sym same ∙ e)
    asked false e same = walked Place.locking (e, sym same ∙ e)

    taken :
        (o : Option L)
        → sync.lock.take i (s.locks s.spin_lock) ≡ o
        → s.core_has_lock i ≡ false
        → OnSome holder (locked sync i s o)
    taken none e out = tt
    taken (some l) e out =
        let (free, held) = is.taken i (s.locks s.spin_lock) l e in
        let now : holder (update s.locks s.spin_lock l s.spin_lock) ≡ some i =
          ap holder (update_here s.locks s.spin_lock l) ∙ held in
        moved Place.marking s.core_has_lock (update s.locks s.spin_lock l)
          (out, ap (holds i) now ∙ ==_refl i)
          λ j ne. (refl, ap (holds j) now ∙ ==_ne ne ∙ sym (ap (holds j) free))

    given :
        s.core_has_lock i ≡ false
        → holds i (holder (s.locks s.spin_lock)) ≡ true
        → Prepared holder (
            move i Place.outside (record s {
              locks = update s.locks s.spin_lock (sync.lock.give i (s.locks s.spin_lock));
            }))
    given out held =
        let was = holds-some i (holder (s.locks s.spin_lock)) held in
        let l : L = sync.lock.give i (s.locks s.spin_lock) in
        let free : holder (update s.locks s.spin_lock l s.spin_lock) ≡ none =
          ap holder (update_here s.locks s.spin_lock l) ∙ is.given i (s.locks s.spin_lock) was in
        moved Place.outside s.core_has_lock (update s.locks s.spin_lock l) (out, ap (holds i) free)
          λ j ne. (refl, ap (holds j) free ∙ sym (ap (holds j) was ∙ ==_ne ne))

    -- A step keeps the invariant.
    advance-Prepared :
        (call : Call) (p : Place) → s.places i ≡ p → OnSome holder (advance sync call i p s)
    advance-Prepared Call.disable Place.outside e =
        let (out, free) = at e in walked Place.testing (out ∙ sym free)
    advance-Prepared Call.restore Place.outside e = tt
    advance-Prepared Call.disable Place.inside e =
        let (own, held) = at e in walked Place.testing (own ∙ sym held)
    advance-Prepared Call.restore Place.inside e = walked Place.restoring (at e)
    advance-Prepared call Place.testing e = tested s.initialized refl (at e)
    advance-Prepared call Place.starting e = absurd (at e)
    advance-Prepared call (Place.clearing core_idx) e = absurd (at e)
    advance-Prepared call Place.claiming e = absurd (at e)
    advance-Prepared call (Place.naming lock_num) e = absurd (at e)
    advance-Prepared call Place.entering e = rw (==_ne h.handle) (walked Place.asking (at e))
    advance-Prepared call Place.asking e = asked (s.core_has_lock i) refl (at e)
    advance-Prepared call Place.locking e =
        taken (sync.lock.take i (s.locks s.spin_lock)) refl (at e).0
    advance-Prepared call Place.marking e =
        moved Place.inside (update s.core_has_lock i true) s.locks (rw ==_refl refl, (at e).1)
          λ j ne. (rw (==_ne ne) refl, refl)
    advance-Prepared call Place.restoring e = rw (==_ne h.handle) (walked Place.unmarking (at e))
    advance-Prepared call Place.unmarking e =
        moved Place.unlocking (update s.core_has_lock i false) s.locks (rw ==_refl refl, (at e).1)
          λ j ne. (rw (==_ne ne) refl, refl)
    advance-Prepared call Place.unlocking e = given (at e).0 (at e).1

  pub Reaches-Prepared : {s t : State L} → Prepared holder s → Reaches sync s t → Prepared holder t
  unfolding step
  Reaches-Prepared h Reaches.start = h
  Reaches-Prepared h (Reaches.next {t} call i before e) =
      subst (OnSome holder) e
        (advance-Prepared t i (Reaches-Prepared h before) call (t.places i) refl)

  -- From a state in which the spin lock is there and the cores' flags say who has it, the RP2040 port
  -- lets one core at a time be inside, whatever the cores do, nested calls included.
  pub inside-Reaches :
      {s t : State L}
      → Prepared holder s
      → Reaches sync s t
      → (i j : ℕ) → t.places i ≡ Place.inside
      → t.places j ≡ Place.inside
      → i ≡ j
  inside-Reaches {t} h reached i j in_i in_j =
      let now = Reaches-Prepared h reached in
      holds_one i j (holder (t.locks t.spin_lock)) (at t i now in_i).1 (at t j now in_j).1
