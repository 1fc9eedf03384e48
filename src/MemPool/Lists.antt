-- ===== src/MemPool/Lists.antt =====
-- The block list functions of source/tbx_mempool.c as single writes, and what survives them.
use microtbx.Base.{
  ◌≡◌, ◌≢◌, refl, ap, ◌∙◌, arith, false, true, Option, some, [], ◌∷◌, All, ◌==◌, ==_ne, ==_iff,
  ==_refl, sym, subst, inl, inr, Bool-cases,
}
use microtbx.Target.{Ptr, null}
use microtbx.MemPool.Store.{State, Memory, BlockNode, ok, load_lem, store_lem, put}
use microtbx.MemPool.Block.{block_list_insert, block_list_extract}
use microtbx.MemPool.View.{Cells, has, Linked}

-- The memory after `node` was put in front of the list at `list`, whose head was `old`.
abbrev pub inserted : Memory → (list node block old : Ptr) → Memory
inserted m list node block old = record m {
  block_node = put m.block_node node (record { block_ptr = block; next_node_ptr = old });
  block_list = put m.block_list list node;
}

pub block_list_insert_lem :
    (s : State) (list node block next old : Ptr)
    → list ≢ null
    → node ≢ null
    → s.memory.block_list list ≡ some old
    → s.memory.block_node node ≡ some (record { block_ptr = block; next_node_ptr = next })
    → block_list_insert list node s
      ≡ ok tt (record s { memory = inserted s.memory list node block old })
unfolding block_list_insert
block_list_insert_lem s list node block next old l n is is' =
    rw
      (
        ==_ne l,
        ==_ne n,
        load_lem (λ m. m.block_list) list s l is,
        load_lem (λ m. m.block_node) node s n is',
      )
      (elim (Bool-cases (old == null)) [
        | inl z ↦
            let e = (==_iff old null).0 z in
            rw (z, e, store_lem _ node _ n, store_lem _ list _ l) refl
        | inr nz ↦ rw (nz, store_lem _ node _ n, store_lem _ list _ l) refl
      ])

abbrev pub extracted : Memory → (list rest : Ptr) → Memory
extracted m list rest = record m { block_list = put m.block_list list rest }

pub extract_nil :
    (s : State) (list : Ptr)
    → list ≢ null
    → s.memory.block_list list ≡ some null
    → block_list_extract list s ≡ ok null s
unfolding block_list_extract
extract_nil s list l is = rw (==_ne l, load_lem (λ m. m.block_list) list s l is)

pub extract_cons :
    (s : State) (list node block rest : Ptr)
    → list ≢ null
    → node ≢ null
    → s.memory.block_list list ≡ some node
    → s.memory.block_node node ≡ some (record { block_ptr = block; next_node_ptr = rest })
    → block_list_extract list s ≡ ok node (record s { memory = extracted s.memory list rest })
unfolding block_list_extract
extract_cons s list node block rest l n is is' =
    rw
      (
        ==_ne l,
        load_lem (λ m. m.block_list) list s l is,
        ==_ne n,
        load_lem (λ m. m.block_node) node s n is',
      )
      (elim (Bool-cases (rest == null)) [
        | inl z ↦ let e = (==_iff rest null).0 z in rw (z, e, store_lem _ list _ l) refl
        | inr nz ↦ rw (nz, store_lem _ list _ l) refl
      ])

pub put_ne :
    {A : Type 0} (f : Ptr → Option A) (p : Ptr) (v : A) (q : Ptr) → q ≢ p → put f p v q ≡ f q
put_ne f p v q ne = rw (==_ne ne)

-- A list of nodes survives whatever leaves its nodes alone.
pub Linked-frame :
    (m m' : Ptr → Option BlockNode) (xs : Cells)
    → ((a : Ptr) → has a xs ≡ true → m' a ≡ m a)
    → Linked m xs
    → Linked m' xs
Linked-frame m m' [] same l = tt
Linked-frame m m' ((a, b) ∷ xs) same l =
    (l.0, same a (rw ==_refl) ∙ l.1, l.2, Linked-frame m m' xs (λ x h. same x (ground arith)) l.3)

pub Linked-put :
    (m : Ptr → Option BlockNode) (xs : Cells) (a : Ptr) (v : BlockNode)
    → has a xs ≡ false
    → Linked m xs
    → Linked (put m a v) xs
Linked-put m xs a v out =
    Linked-frame m (put m a v) xs (λ x h. put_ne m a v x (λ e. cc (ap (λ t. has t xs) e)))

-- Every node of a list has what holds of all of its nodes.
pub All-has :
    (P : Ptr → Type 0) (xs : Cells)
    → All (λ (x : Ptr × Ptr). P x.0) xs
    → (a : Ptr) → has a xs ≡ true
    → P a
All-has P [] all a h = cc
All-has P ((p, b) ∷ xs) all a h = elim (Bool-cases (a == p)) [
  | inl z ↦ subst P (sym ((==_iff a p).0 z)) all.0
  | inr nz ↦ All-has P xs all.1 a (ground arith)
]
