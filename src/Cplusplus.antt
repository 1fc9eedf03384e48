-- ===== src/Cplusplus.antt =====
-- source/extra/cplusplus/tbxcxx.cpp: the operators of C++ over the memory pools. `none` is a call of
-- `std::abort`, after which the program has ended.
pub mod Operators
use microtbx.Base.{ℕ, Option, none, some, ◌==◌, if◌then◌else◌}
use microtbx.Target.{Config, Ptr, null}
use microtbx.MemPool.Store.{Cmd, pure, ◌>>=◌}
use microtbx.MemPool.Api.{allocate_auto, release}

-- `operator new(size_t)`
unfoldable pub operator_new : Config → ℕ → Cmd (Option Ptr)
operator_new c size = do
  result ← allocate_auto c size
  if result == null then pure none else pure (some result)

-- `operator delete(void *)`
unfoldable pub operator_delete : Config → Ptr → Cmd (Unit {0})
operator_delete c mem = if mem == null then pure tt else release c mem

-- `operator delete(void *, unsigned int)`
abbrev pub operator_delete_sized : Config → Ptr → ℕ → Cmd (Unit {0})
operator_delete_sized c mem size = operator_delete c mem

-- `operator new[](size_t)`
abbrev pub operator_new_array : Config → ℕ → Cmd (Option Ptr)
operator_new_array c size = operator_new c size

-- `operator delete[](void *)`
abbrev pub operator_delete_array : Config → Ptr → Cmd (Unit {0})
operator_delete_array c mem = operator_delete c mem

-- `operator delete[](void *, unsigned int)`
abbrev pub operator_delete_array_sized : Config → Ptr → ℕ → Cmd (Unit {0})
operator_delete_array_sized c mem size = operator_delete c mem
