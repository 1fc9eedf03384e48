-- ===== src/MemPool.antt =====
-- source/tbx_mempool.c over an explicit store: the structs and the commands that read and write
-- them (Store), the block and block list functions (Block), the pool list functions (PoolList) and
-- the functions of the API (Api).
pub mod Store
pub mod Block
pub mod PoolList
pub mod Api
pub mod View
pub mod Search
pub mod Lists
pub mod Frame
pub mod Replace
pub mod Take
pub mod Ends
pub mod Allocate
pub mod Given
pub mod Give
pub mod InsertStep
pub mod InsertLoop
pub mod Insert
pub mod Grow
pub mod AddPool
pub mod NewPool
pub mod AddBlock
pub mod NewBlock
pub mod Fill
pub mod Create
pub mod Exact
pub mod Refill
pub mod Auto
pub mod Release
pub mod Disjoint
pub mod Fresh
pub mod Holds
pub mod Client
