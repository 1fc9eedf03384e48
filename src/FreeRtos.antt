-- ===== src/FreeRtos.antt =====
-- source/extra/freertos/tbx_freertos.c. The functions of FreeRTOS, its macro for tracing and the hook of
-- the application are a parameter.
use microtbx.Base.{ℕ, Bool, ◌==◌, ◌&&◌, if◌then◌else◌}
use microtbx.Target.{Config, Ptr, null}
use microtbx.MemPool.Store.{State, ok, Cmd, pure, ◌>>=◌, ◌>>◌}
use microtbx.MemPool.Api.{create, allocate, release}
pub mod Malloc

-- `vTaskSuspendAll`, `traceMALLOC`, `xTaskResumeAll` and `vApplicationMallocFailedHook` on the state of
-- FreeRTOS and the application. They see the memory as it is at the call, which tells when it is made.
pub record Os (T : Type 0) : Type 0 where
  pub suspend_all : State → T → T
  pub trace_malloc : (result : Ptr) (wanted_size : ℕ) → State → T → T
  pub resume_all : State → T → T
  pub malloc_failed_hook : State → T → T

-- A call of one of them.
abbrev pub call : {T : Type 0} → (State → T → T) → T → Cmd T
call f t s = ok (f s t) s

-- The calls for the memory pools.
pub malloc_pools : Config → ℕ → Cmd Ptr
malloc_pools c wanted_size = do
  result ← allocate c wanted_size
  if result == null then (do create c 1 wanted_size; allocate c wanted_size) else pure result

-- `pvPortMalloc`, where `use_hook` is `configUSE_MALLOC_FAILED_HOOK`: the result, and the state of
-- FreeRTOS and the application afterwards.
pub malloc : {T : Type 0} → Os T → (use_hook : Bool) → Config → ℕ → T → Cmd (Ptr × T)
malloc os use_hook c wanted_size t = do
  suspended ← call os.suspend_all t
  result ← malloc_pools c wanted_size
  traced ← call (os.trace_malloc result wanted_size) suspended
  resumed ← call os.resume_all traced
  told ← (if use_hook && (result == null) then call os.malloc_failed_hook resumed else pure resumed)
  pure (result, told)

-- `vPortFree`
unfoldable pub free : Config → Ptr → Cmd (Unit {0})
free c pv = release c pv
