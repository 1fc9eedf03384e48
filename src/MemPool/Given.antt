-- ===== src/MemPool/Given.antt =====
-- `TbxMemPoolRelease` of source/tbx_mempool.c: the pool after a block was given back.
use microtbx.Base.{
  ℕ, suc, ◌≡◌, refl, sym, ap, subst, ◌∙◌, arith, false, true, List, [], ◌∷◌, ◌++◌, All, ◌==◌, ==_ne,
  ==_refl, ==_iff, Bool-cases, inl, inr, length,
}
use mathlib.Core.List.{append_assoc}
use microtbx.Target.{Ptr}
use microtbx.MemPool.Store.{Memory, put}
use microtbx.MemPool.View.{Cells, View, has, head, mem, NoDup, At, IsBlock, IsView, stock}
use microtbx.MemPool.Lists.{inserted, extracted, Linked-put}
use microtbx.MemPool.Frame.{Frame}
use microtbx.MemPool.Replace.{All-middle, NoDup-middle}

-- A pool with the block `b` in a client's hands, and a used list that begins with the node `a`.
abbrev pub with_used : View → (a x : Ptr) → Cells → List Ptr → Ptr → List Ptr → View
with_used v a x us l₁ b l₂ = record v { used = (a, x) ∷ us; live = l₁ ++ b ∷ l₂ }

-- The pool with the node `a`, whatever its block was, moved to the free list for `b`.
abbrev pub given : View → (a : Ptr) → Cells → List Ptr → Ptr → List Ptr → View
given v a us l₁ b l₂ = record v { free = (a, b) ∷ v.free; used = us; live = l₁ ++ l₂ }

abbrev pub renamed : Memory → (node block next : Ptr) → Memory
renamed m node block next = record m {
  block_node = put m.block_node node (record { block_ptr = block; next_node_ptr = next });
}

abbrev pub give_memory : Memory → View → (a : Ptr) → Cells → Ptr → Memory
give_memory m v a us b =
    inserted (renamed (extracted m v.used_list (head us)) a b (head us)) v.free_list a b
      (head v.free)

module _ {w : ℕ} {m : Memory} {home : Ptr → ℕ} {e : ℕ} (v : View) (a x : Ptr) (us : Cells)
    (l₁ : List Ptr) (b : Ptr) (l₂ : List Ptr)
    (h : IsView w m home e (with_used v a x us l₁ b l₂)) where
  abbrev pub here : At home e v.size a
  here = h.used_cells.0

  not_free : has a v.free ≡ false
  not_free = elim (Bool-cases (has a v.free)) [
    | inl i ↦ let bad = (rw ==_refl at (h.apart a i)) in cc
    | inr out ↦ out
  ]

  give_apart : (y : Ptr) → has y ((a, b) ∷ v.free) ≡ true → has y us ≡ false
  give_apart y i = elim (Bool-cases (y == a)) [
    | inl z ↦ ap (λ t. has t us) ((==_iff y a).0 z) ∙ h.used_linked.2
    | inr nz ↦ let out = h.apart y (rw nz at i) in rw nz at out
  ]

  pub give_blocks : All (IsBlock w m home e v.size) (b ∷ stock v.free ++ (l₁ ++ l₂))
  give_blocks =
      let all =
        subst (All (IsBlock w m home e v.size)) (sym (append_assoc (stock v.free) l₁ (b ∷ l₂)))
          h.blocks in
      let r = All-middle (IsBlock w m home e v.size) (stock v.free ++ l₁) b l₂ all in
      (r.0, subst (All (IsBlock w m home e v.size)) (append_assoc (stock v.free) l₁ l₂) r.1)

  give_distinct : NoDup (b ∷ stock v.free ++ (l₁ ++ l₂))
  give_distinct =
      let all = subst NoDup (sym (append_assoc (stock v.free) l₁ (b ∷ l₂))) h.distinct in
      let r = NoDup-middle (stock v.free ++ l₁) b l₂ all in
      (
        subst (λ t. mem b t ≡ false) (append_assoc (stock v.free) l₁ l₂) r.0,
        subst NoDup (append_assoc (stock v.free) l₁ l₂) r.1,
      )

  length_middle : (xs : List Ptr) → length (xs ++ b ∷ l₂) ≡ suc (length (xs ++ l₂))
  length_middle [] = refl
  length_middle (y ∷ ys) = omega (arith, length_middle ys)

  pub IsView-give : IsView w (give_memory m v a us b) home e (given v a us l₁ b l₂)
  IsView-give = record {
    size_pos = h.size_pos;
    node_at = h.node_at;
    pool_at = h.pool_at;
    free_list_at = h.free_list_at;
    used_list_at = h.used_list_at;
    lists_ne = h.lists_ne;
    pool_is = h.pool_is;
    free_is = rw ==_refl;
    used_is = rw (==_ne {a = v.used_list} {b = v.free_list} (λ z. h.lists_ne (sym z)), ==_refl);
    free_linked = (
      here.0,
      rw ==_refl,
      not_free,
      Linked-put _ v.free a _ not_free (Linked-put m.block_node v.free a _ not_free h.free_linked),
    );
    used_linked =
        Linked-put _ us a _ h.used_linked.2
          (Linked-put m.block_node us a _ h.used_linked.2 h.used_linked.3);
    free_cells = (here, h.free_cells);
    used_cells = h.used_cells.1;
    apart = give_apart;
    blocks = give_blocks;
    distinct = give_distinct;
    balance = omega (arith, h.balance, length_middle l₁);
  }

  pub Frame-give : Frame v.size m (give_memory m v a us b) home home e e
  Frame-give = record {
    grow = omega arith;
    homes = λ y _. refl;
    nodes = λ y _ ne. rw (==_ne {a = y} {b = a} (λ z. ne (ap home z ∙ here.2)));
    lists = λ y _ ne. rw (
      ==_ne {a = y} {b = v.free_list} (λ z. ne (ap home z ∙ h.free_list_at.2)),
      ==_ne {a = y} {b = v.used_list} (λ z. ne (ap home z ∙ h.used_list_at.2)),
    );
    pools = λ y _ _. refl;
    words = λ y _. refl;
  }
