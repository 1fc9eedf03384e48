-- ===== src/Tests/MemPoolRuns.antt =====
-- Runs of source/tbx_mempool.c.
use microtbx.Base.{Option, none, some, Bool, true, refl, ◌≡◌}
use microtbx.Target.{Ptr}
use microtbx.Heap
use microtbx.MemPool.Store.{Cmd, Run, ok, fault, out_of_fuel, pure, ◌>>=◌, ◌>>◌, load, store}
use microtbx.MemPool.Block.{
  block_create, get_data_ptr, get_mem_ptr, get_block_size, block_list_create, block_list_insert,
  block_list_extract, block_list_is_empty,
}
use microtbx.MemPool.PoolList.{
  find, find_loop, find_best_fit, find_best_fit_loop, insert, insert_loop, insert_before,
  insert_behind,
}
use microtbx.MemPool.Api.{
  create, create_pool, create_blocks, create_block, allocate, allocate_from, allocate_auto,
  auto_loop, release, release_block,
}
use microtbx.Tests.{small, start}

abbrev result {ℓ} : {A : Type ℓ} → Run A → Option A
result (ok a s) = some a
result fault = none
result out_of_fuel = none

scenario : Cmd (Bool × Ptr × Ptr × Ptr × Ptr)
scenario = do
  done ← create small 1 16
  p ← allocate small 9
  q ← allocate small 9
  r ← allocate_auto small 8
  release small p
  p' ← allocate small 10
  pure (done, p, q, r, p')

-- What a run computes with.
ready : Cmd (Bool × Ptr × Ptr × Ptr × Ptr)
unfolding scenario create create_pool create_blocks create_block allocate allocate_from
    allocate_auto auto_loop release release_block find find_loop find_best_fit find_best_fit_loop
    insert insert_loop insert_before insert_behind block_create get_data_ptr get_mem_ptr
    get_block_size block_list_create block_list_insert block_list_extract block_list_is_empty load
    store Heap.allocate
ready = scenario

-- One block of 16 bytes: the second request finds the pool empty, the third makes a pool of its
-- own, and the fourth gets the block that was given back.
runs : result (ready start) ≡ some (true, 4176, 0, 4272, 4176)
unfolding ready
runs = refl
