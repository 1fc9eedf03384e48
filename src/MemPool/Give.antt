-- ===== src/MemPool/Give.antt =====
-- `TbxMemPoolRelease` of source/tbx_mempool.c: the pool that a block goes back to.
use microtbx.Base.{
  ℕ, ◌+◌, ◌-◌, ◌%◌, ◌<◌, ◌≡◌, refl, sym, ap, ◌∙◌, arith, List, [], ◌∷◌, ◌++◌, ==_ne, ==_refl,
}
use microtbx.Target.{Target, Config, Ptr, null, sizeof_ptr, size_mod}
use microtbx.CritSect.{enter, leave}
use microtbx.CritSect.Nested.{Restored_refl, section-Restored}
use microtbx.MemPool.Store.{State, ok, load_lem, store_lem}
use microtbx.MemPool.Block.{get_mem_ptr, get_block_size}
use microtbx.MemPool.PoolList.{find}
use microtbx.MemPool.Api.{release_block, release}
use microtbx.MemPool.View.{Cells, View, head, Ascending, IsBlock, IsView, IsPools, find_view}
use microtbx.MemPool.Lists.{extracted, block_list_insert_lem, extract_cons, put_ne}
use microtbx.MemPool.Frame.{IsView-frame}
use microtbx.MemPool.Search.{find_lem}
use microtbx.MemPool.Replace.{
  All-middle, All-replace, Chain-replace, Ascending-replace, length-replace, first-replace,
}
use microtbx.MemPool.Take.{Chain-middle}
use microtbx.MemPool.Allocate.{Kept}
use microtbx.MemPool.Ends.{Ends, ends, IsPools-crit, Ready}
use microtbx.MemPool.Given.{
  with_used, given, renamed, give_memory, here, give_blocks, IsView-give, Frame-give,
}

find_view-middle :
    (size : ℕ) (vs₁ : List View) (v : View) (vs₂ : List View)
    → v.size ≡ size
    → Ascending (vs₁ ++ v ∷ vs₂)
    → find_view size (vs₁ ++ v ∷ vs₂) ≡ v.node
find_view-middle size [] v vs₂ e asc = ground arith
find_view-middle size (w ∷ vs₁) v vs₂ e asc =
    let below = All-middle (λ (u : View). w.size < u.size) vs₁ v vs₂ asc.0 in
    ground (arith, below.0, find_view-middle size vs₁ v vs₂ e asc.1)

get_mem_ptr_lem :
    (t : Target) (b : Ptr)
    → b + sizeof_ptr t < size_mod t
    → (b + sizeof_ptr t + size_mod t - sizeof_ptr t) % size_mod t ≡ b
get_mem_ptr_lem Target.avr b h = omega arith
get_mem_ptr_lem Target.cortexm b h = omega arith
get_mem_ptr_lem Target.linux b h = omega arith

module _ {c : Config} {home : Ptr → ℕ} {s : State} (vs₁ : List View) (v : View) (a x : Ptr)
    (us : Cells) (l₁ : List Ptr) (b : Ptr) (l₂ : List Ptr) (vs₂ : List View)
    (pools : IsPools c home (vs₁ ++ with_used v a x us l₁ b l₂ ∷ vs₂) s) where
  abbrev view :
      IsView
        (sizeof_ptr c.target)
        s.memory
        home
        (c.base + s.heap.allocated)
        (with_used v a x us l₁ b l₂)
  view =
      (All-middle (IsView (sizeof_ptr c.target) s.memory home (c.base + s.heap.allocated)) vs₁
        (with_used v a x us l₁ b l₂) vs₂ pools.views).0

  abbrev after : State
  after = record s { memory = give_memory s.memory v a us b }

  block : IsBlock (sizeof_ptr c.target) s.memory home (c.base + s.heap.allocated) v.size b
  block = (give_blocks v a x us l₁ b l₂ view).0

  release_block_lem : release_block c b s ≡ ok tt after
  unfolding release_block get_block_size
  release_block_lem =
      let old = with_used v a x us l₁ b l₂ in
      let node = Chain-middle s.memory.pool_node vs₁ old vs₂ pools.chain in
      let at = here v a x us l₁ b l₂ view in
      let s₁ : State = record s { memory = extracted s.memory v.used_list (head us) } in
      let s₂ : State = record s {
        memory = renamed (extracted s.memory v.used_list (head us)) a b (head us);
      } in
      let found : find c v.size s ≡ ok v.node s =
        find_lem pools v.size view.size_pos
        ∙ ap (λ p. ok p s) (find_view-middle v.size vs₁ old vs₂ refl pools.ascending) in
      rw
        (
          ==_ne block.0.0,
          load_lem (λ m. m.size_word) b s block.0.0 block.1,
          found,
          ==_ne view.node_at.0,
          load_lem (λ m. m.pool_node) v.node s node.0 node.1,
          ==_ne view.pool_at.0,
          load_lem (λ m. m.pool) v.pool s view.pool_at.0 view.pool_is,
          extract_cons s v.used_list a x (head us) view.used_list_at.0 at.0 view.used_is
              view.used_linked.1,
          ==_ne at.0,
          load_lem (λ m. m.block_node) a s₁ at.0 view.used_linked.1,
          store_lem _ a s₁ at.0,
          block_list_insert_lem s₂ v.free_list a b (head us) (head v.free) view.free_list_at.0 at.0
              (put_ne s.memory.block_list v.used_list (head us) v.free_list view.lists_ne
                ∙ view.free_is)
              (rw ==_refl),
        )
        refl

  IsPools-give : IsPools c home (vs₁ ++ given v a us l₁ b l₂ ∷ vs₂) after
  IsPools-give =
      let old = with_used v a x us l₁ b l₂ in
      let new = given v a us l₁ b l₂ in
      record {
        heap = pools.heap;
        low = pools.low;
        entry = pools.entry ∙ sym (first-replace old new refl refl refl vs₂ vs₁);
        chain = Chain-replace old new refl refl refl vs₂ s.memory.pool_node vs₁ pools.chain;
        ascending = Ascending-replace old new refl refl refl vs₂ vs₁ pools.ascending;
        views =
            All-replace vs₁ vs₂ old new pools.ascending
              (λ w ne. IsView-frame (Frame-give v a x us l₁ b l₂ view) {v = w} ne)
              (IsView-give v a x us l₁ b l₂ view) pools.views;
        count = rw (length-replace old new refl refl refl vs₂ vs₁) pools.count;
      }

-- Giving back a block that a client holds never faults and always ends. The block becomes the first
-- free one of the pool that it came from, every other pool is as it was, and the invariant holds.
pub release-give :
    {c : Config} {home : Ptr → ℕ} {s : State} (vs₁ : List View) (v : View) (a x : Ptr) (us : Cells)
    (l₁ : List Ptr) (b : Ptr) (l₂ : List Ptr) (vs₂ : List View)
    → Ready c home (vs₁ ++ with_used v a x us l₁ b l₂ ∷ vs₂) 1 s
    → Ends
        (λ _ s'. IsPools c home (vs₁ ++ given v a us l₁ b l₂ ∷ vs₂) s' × Kept s s')
        (release c (b + sizeof_ptr c.target) s)
unfolding release get_mem_ptr
release-give {c} {home} {s} vs₁ v a x us l₁ b l₂ vs₂ ready =
    let inside = IsPools-crit (enter c.port s.heap.crit) ready.pools in
    let held = block vs₁ v a x us l₁ b l₂ vs₂ inside in
    rw
      (
        ==_ne {a = b + sizeof_ptr c.target} {b = null} (λ z. held.0.0 (omega arith)),
        get_mem_ptr_lem c.target b (omega (arith, held.2, inside.heap.within, ready.config.fits)),
        ==_ne held.0.0,
        release_block_lem vs₁ v a x us l₁ b l₂ vs₂ inside,
      )
      (ends (
        IsPools-crit (leave c.port (enter c.port s.heap.crit))
            (IsPools-give vs₁ v a x us l₁ b l₂ vs₂ inside),
        record {
          allocated = refl;
          crit = section-Restored ready.port ready.sections (Restored_refl _);
        },
      ))
