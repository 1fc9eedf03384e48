-- ===== src/LinkedList.antt =====
-- source/tbx_list.c over the memory pools, which are an interface here: the structs and commands
-- (Store), the functions that change a list (Insert, Remove), those that read it (Read), and those
-- that move its items (Sort).
pub mod Store
pub mod Read
pub mod Insert
pub mod Remove
pub mod Sort
pub mod Chain
pub mod Returns
pub mod Open
pub mod Link
pub mod LinkEnds
pub mod LinkMiddle
pub mod Unlink
pub mod Laws
pub mod Sequence
pub mod Find
pub mod Ready
pub mod Attempt
pub mod Insertions
pub mod InsertItems
pub mod RemoveItems
pub mod ReadItems
pub mod SortItems
pub mod Sorted
pub mod CreateItems
pub mod SwapCells
pub mod SwapItems
pub mod OnMemPool
pub mod Exchange
pub mod ClearItems
