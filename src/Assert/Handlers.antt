-- ===== src/Assert/Handlers.antt =====
-- source/tbx_assert.c: a series of calls of `TbxAssertSetHandler`.
use microtbx.Base.{ℕ, ◌≡◌, refl, Option, none, some, List, [], ◌∷◌}
use microtbx.Assert.{Handler, State, trigger, set_handler}

module _ {File W : Type 0} (file : File) (line : ℕ) where
  abbrev pub continue :
      Option (State File W) → (State File W → Option (State File W)) → Option (State File W)
  continue none k = none
  continue (some s) k = k s

  -- One call for each element.
  unfoldable pub set_handlers :
      List (Option (Handler File W)) → State File W → Option (State File W)
  set_handlers [] s = some s
  set_handlers (h ∷ hs) s = continue (set_handler file line h s) (set_handlers hs)

  -- The last one that is not NULL, or `h`.
  abbrev pub last_of : Handler File W → List (Option (Handler File W)) → Handler File W
  last_of h [] = h
  last_of h (none ∷ hs) = last_of h hs
  last_of h (some h' ∷ hs) = last_of h' hs

  -- What the handlers do about the calls with NULL, each by the handler at that time.
  abbrev pub reports : Handler File W → List (Option (Handler File W)) → W → W
  reports h [] w = w
  reports h (none ∷ hs) w = reports h hs (h file line w)
  reports h (some h' ∷ hs) w = reports h' hs w

  -- Once there is a handler, a series of calls of `TbxAssertSetHandler` returns: each call with NULL is
  -- reported to the handler of that time, which stays, and an assertion that fails afterwards goes to
  -- the last handler that was not NULL.
  pub trigger-set_handlers :
      (h : Handler File W) (hs : List (Option (Handler File W))) (w : W) (file' : File) (line' : ℕ)
      → continue (set_handlers hs (record { handler = some h; world = w })) (trigger file' line')
        ≡ some (record {
          handler = some (last_of h hs);
          world = last_of h hs file' line' (reports h hs w);
        })
  unfolding set_handlers set_handler trigger
  trigger-set_handlers h [] w file' line' = refl
  trigger-set_handlers h (none ∷ hs) w file' line' =
      trigger-set_handlers h hs (h file line w) file' line'
  trigger-set_handlers h (some h' ∷ hs) w file' line' = trigger-set_handlers h' hs w file' line'
