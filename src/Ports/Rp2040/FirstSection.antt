-- ===== src/Ports/Rp2040/FirstSection.antt =====
-- source/port/RP2040/tbx_port.c from the reset on: the first call of `TbxPortInterruptsDisable`, by a
-- core that is alone, and by two cores at once.
use microtbx.Base.{
  ℕ, suc, ◌≡◌, ◌≢◌, refl, sym, ap, ◌∙◌, arith, Bool, true, false, Option, none, some, ◌==◌, ==_refl,
  ==_ne, ==_iff, Bool-cases, inl, inr, if◌then◌else◌,
}
use microtbx.Target.{Ptr, null}
use microtbx.Ports.Lock.{IsLock, update, update_here}
use microtbx.Ports.Rp2040.{
  Sync, Place, Call, State, move, locked, claim, advance, step, Reaches, is_inside, disable_alone,
  cold,
}
use microtbx.Ports.Rp2040.Alone.{Alone, Alone-Reaches, disable_alone-Alone, disable_alone-inside}
use microtbx.Ports.Rp2040.Exclusion.{Prepared, inside-Reaches}

-- There is a lock that is not claimed, and nobody has it.
pub record Provides {L : Type 0} (sync : Sync L) (holder : L → Option ℕ) (claimed : ℕ → Bool)
    (locks : Ptr → L) : Type 0 where
  pub number : ℕ
  pub unused : sync.claim_unused claimed ≡ some number
  pub handle : sync.instance_ number ≢ null
  pub free : holder (locks (sync.instance_ number)) ≡ none

module _ {L : Type 0} (sync : Sync L) {holder : L → Option ℕ} {claimed : ℕ → Bool} {locks : Ptr → L}
    (is : IsLock sync.lock holder) (given : Provides sync holder claimed locks) where
  -- One more step, of any core, and of one that is alone.
  walk :
      {s t u : State L} (call : Call) (i : ℕ) (p : Place)
      → Reaches sync s t
      → t.places i ≡ p
      → advance sync call i p t ≡ some u
      → Reaches sync s u
  unfolding step
  walk {t} call i p before at e =
      Reaches.next call i before (ap (λ q. advance sync call i q t) at ∙ e)

  alone :
      {n : ℕ} {s t u : State L} (i : ℕ) (p : Place)
      → Alone sync i s n t
      → t.places i ≡ p
      → is_inside p ≡ false
      → advance sync Call.disable i p t ≡ some u
      → Alone sync i s (suc n) u
  unfolding step
  alone {t} i p before at out e =
      Alone.next before (ap is_inside at ∙ out) (ap (λ q. advance sync Call.disable i q t) at ∙ e)

  there : (i : ℕ) (p : Place) (places : ℕ → Place) → update places i p i ≡ p
  there i p places = rw (==_refl i) refl

  -- The core `i` has set `spinLockInitialized` and goes on, alone from here on, until it is inside.
  record Entered (i : ℕ) (s t : State L) : Type 0 where
    steps : Alone sync i s 9 t
    initialized : t.initialized ≡ true
    handle : t.spin_lock ≢ null
    inside_ : t.places i ≡ Place.inside
    others : (j : ℕ) → j ≢ i → t.places j ≡ s.places j
    flag : t.core_has_lock i ≡ true
    no_flag : (j : ℕ) → j ≢ i → t.core_has_lock j ≡ false
    held : holder (t.locks t.spin_lock) ≡ some i

  abbrev cleared : ℕ → Bool
  cleared = update (update (λ _. false) 0 false) 1 false

  all_clear : (j : ℕ) → cleared j ≡ false
  all_clear j = ground arith

  module _ (places : ℕ → Place) where
    abbrev before : State L
    before = record {
      initialized = true;
      spin_lock = null;
      claimed = claimed;
      locks = locks;
      core_has_lock = λ _. false;
      places = places;
    }

    enters : (i : ℕ) → places i ≡ Place.clearing 0 → (t : State L) × Entered i before t
    enters i at =
        let n : ℕ = given.number in
        let handle : Ptr = sync.instance_ n in
        let (l, e) = is.ready i (locks handle) given.free in
        let t₁ : State L =
          move i (Place.clearing 1)
            (record before { core_has_lock = update (λ _. false) 0 false }) in
        let t₂ : State L = move i (Place.clearing 2) (record t₁ { core_has_lock = cleared }) in
        let t₃ : State L = move i Place.claiming t₂ in
        let t₄ : State L =
          move i (Place.naming n) (record t₃ { claimed = update claimed n true }) in
        let t₅ : State L = move i Place.entering (record t₄ { spin_lock = handle }) in
        let t₆ : State L = move i Place.asking t₅ in
        let t₇ : State L = move i Place.locking t₆ in
        let t₈ : State L = move i Place.marking (record t₇ { locks = update locks handle l }) in
        let t₉ : State L =
          move i Place.inside (record t₈ { core_has_lock = update cleared i true }) in
        let r₁ : Alone sync i before 1 t₁ = alone i (Place.clearing 0) Alone.start at refl refl in
        let r₂ : Alone sync i before 2 t₂ =
          alone i (Place.clearing 1) r₁ (there i _ before.places) refl refl in
        let r₃ : Alone sync i before 3 t₃ =
          alone i (Place.clearing 2) r₂ (there i _ t₁.places) refl refl in
        let r₄ : Alone sync i before 4 t₄ =
          alone i Place.claiming r₃ (there i _ t₂.places) refl
            (ap (λ m. some (claim sync i t₃ m)) given.unused) in
        let r₅ : Alone sync i before 5 t₅ =
          alone i (Place.naming n) r₄ (there i _ t₃.places) refl refl in
        let r₆ : Alone sync i before 6 t₆ = alone i Place.entering r₅ (there i _ t₄.places) refl (
          ap (λ b. some (move i (if b then Place.inside else Place.asking) t₅))
            (==_ne given.handle)) in
        let r₇ : Alone sync i before 7 t₇ =
          alone i Place.asking r₆ (there i _ t₅.places) refl (
            ap (λ b. some (move i (if b then Place.inside else Place.locking) t₆)) (all_clear i)) in
        let r₈ : Alone sync i before 8 t₈ =
          alone i Place.locking r₇ (there i _ t₆.places) refl (ap (locked sync i t₇) e) in
        let r₉ : Alone sync i before 9 t₉ =
          alone i Place.marking r₈ (there i _ t₇.places) refl refl in
        (
          t₉,
          record {
            steps = r₉;
            initialized = refl;
            handle = given.handle;
            inside_ = there i _ t₈.places;
            others = λ j ne. rw (==_ne ne) refl;
            flag = rw (==_refl i) refl;
            no_flag = λ j ne. rw (==_ne ne) (all_clear j);
            held = ap holder (update_here locks handle l) ∙ (is.taken i (locks handle) l e).1;
          },
        )

  Reaches_trans : {s t u : State L} → Reaches sync s t → Reaches sync t u → Reaches sync s u
  Reaches_trans r Reaches.start = r
  Reaches_trans r (Reaches.next call i r' e) = Reaches.next call i (Reaches_trans r r') e

  -- The first step of `i`, up to the assignment to `spinLockInitialized`.
  abbrev started : ℕ → ℕ → Place
  started i =
      update (update (update (λ _. Place.outside) i Place.testing) i Place.starting) i
        (Place.clearing 0)

  begins : (i : ℕ) → Alone sync i (cold claimed locks) 3 (before (started i))
  begins i =
      let t₁ : State L = move i Place.testing (cold claimed locks) in
      let t₂ : State L = move i Place.starting t₁ in
      let r₁ : Alone sync i (cold claimed locks) 1 t₁ =
        alone i Place.outside Alone.start refl refl refl in
      let r₂ : Alone sync i (cold claimed locks) 2 t₂ =
        alone i Place.testing r₁ (there i _ (λ _. Place.outside)) refl refl in
      alone i Place.starting r₂ (there i _ t₁.places) refl refl

  first-Prepared :
      (i : ℕ)
      → (t : State L) × (disable_alone sync 12 i (cold claimed locks) ≡ some t)
        × (t.places i ≡ Place.inside)
        × Prepared holder t
  first-Prepared i =
      let (t, e) = enters (started i) i (rw (==_refl i) refl) in
      (
        t,
        disable_alone-Alone sync i 9 (begins i)
            ∙ disable_alone-Alone sync i 0 e.steps
            ∙ disable_alone-inside sync i e.inside_,
        e.inside_,
        record {
          initialized = e.initialized;
          handle = e.handle;
          cores = λ j. elim (Bool-cases (j == i)) [
            | inl hit ↦
                let same = (==_iff j i).0 hit in
                rw (same, e.inside_, e.flag, e.held) (refl, ==_refl i)
            | inr miss ↦
                let ne : j ≢ i = λ same. ground (arith, same, miss) in
                let at : started i j ≡ Place.outside = rw miss refl in
                rw (e.others j ne ∙ at, e.no_flag j ne, e.held) (refl, miss)
          ];
        },
      )

  -- Over a spin lock that keeps its contract, with a lock that is neither claimed nor taken, a core of
  -- the RP2040 port that is alone when it disables the interrupts for the first time after a reset is
  -- inside after 12 steps; and whatever the cores do from then on, nested calls included, no two are
  -- inside at the same time.
  pub inside-first :
      (i : ℕ)
      → (t : State L) × (disable_alone sync 12 i (cold claimed locks) ≡ some t)
        × (t.places i ≡ Place.inside)
        × ((u : State L)
            → Reaches sync t u
            → (j k : ℕ) → u.places j ≡ Place.inside
            → u.places k ≡ Place.inside
            → j ≡ k)
  inside-first i =
      let (t, reached, at, ready) = first-Prepared i in
      (t, reached, at, λ u later j k. inside-Reaches sync is ready later j k)

  -- Over a spin lock that keeps its contract, with a lock that is neither claimed nor taken, two cores
  -- of the RP2040 port that first disable the interrupts at the same time can both be inside.
  pub both_cores_inside :
      (i j : ℕ)
      → i ≢ j
      → (t : State L) × Reaches sync (cold claimed locks) t
        × (t.places i ≡ Place.inside)
        × (t.places j ≡ Place.inside)
  both_cores_inside i j ne =
      let ne' : j ≢ i = λ z. ne (sym z) in
      let b₀ : State L = before (started i) in
      let b₁ : State L = move j Place.testing b₀ in
      let b₂ : State L = move j Place.entering b₁ in
      let b₃ : State L = move j Place.inside b₂ in
      let at : started i j ≡ Place.outside = rw (==_ne ne') refl in
      let r₀ : Reaches sync (cold claimed locks) b₀ = Alone-Reaches sync i (begins i) in
      let r₁ : Reaches sync (cold claimed locks) b₁ =
        walk Call.disable j Place.outside r₀ at refl in
      let r₂ : Reaches sync (cold claimed locks) b₂ =
        walk Call.disable j Place.testing r₁ (there j _ b₀.places) refl in
      let r₃ : Reaches sync (cold claimed locks) b₃ =
        walk Call.disable j Place.entering r₂ (there j _ b₁.places) refl in
      let (t, e) = enters b₃.places i (rw (==_ne ne, ==_refl i) refl) in
      (
        t,
        Reaches_trans r₃ (Alone-Reaches sync i e.steps),
        e.inside_,
        e.others j ne' ∙ there j _ b₂.places,
      )
