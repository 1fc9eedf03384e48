-- ===== src/Assert.antt =====
-- source/tbx_assert.c with assertions on (TBX_CONF_ASSERTIONS_ENABLE above 0). A command has no result
-- where the default handler takes over, which is an endless loop.
pub mod Handlers
use microtbx.Base.{ℕ, Option, none, some, List, Bool, true, false, if◌then◌else◌}

-- `tTbxAssertHandler`, over the state `W` of the application: the file, the line.
abbrev pub Handler : (File W : Type 0) → Type 0
Handler File W = File → ℕ → W → W

-- `tbxAssertHandlerPtr` beside the application.
pub record State (File W : Type 0) : Type 0 where
  pub handler : Option (Handler File W)
  pub world : W

module _ {File W : Type 0} where
  abbrev call : Option (Handler File W) → File → ℕ → State File W → Option (State File W)
  call none file line s = none
  call (some h) file line s = some (record s { world = h file line s.world })

  -- `TbxAssertTrigger`
  unfoldable pub trigger : File → ℕ → State File W → Option (State File W)
  trigger file line s = call s.handler file line s

  -- `TBX_ASSERT`
  abbrev pub assert_ : Bool → File → ℕ → State File W → Option (State File W)
  assert_ true file line s = some s
  assert_ false file line s = trigger file line s

  -- `TbxAssertSetHandler`, whose own assertion stands at `file` and `line`; `none` is NULL.
  unfoldable pub set_handler :
      File → ℕ → Option (Handler File W) → State File W → Option (State File W)
  set_handler file line none s = assert_ false file line s
  set_handler file line (some h) s = some (record s { handler = some h })
