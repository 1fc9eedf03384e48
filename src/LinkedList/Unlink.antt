-- ===== src/LinkedList/Unlink.antt =====
-- How `TbxListRemoveItem` of source/tbx_list.c takes a node out of the chain.
use microtbx.Base.{ℕ, refl, sym, ap, ap₂, ◌∙◌, arith, some, [], ◌∷◌, ◌++◌, ==_ne, ==_refl}
use microtbx.Target.{Ptr, null}
use microtbx.LinkedList.Store.{node_of, handle_of, State, put}
use microtbx.LinkedList.Remove.{unlink}
use microtbx.LinkedList.Chain.{
  Cells, first, last, nil, put_same, has-append, last-append, Snoc, empty, snoc, snoc_view,
  last-snoc, first-snoc,
}
use microtbx.LinkedList.Returns.{Returns, returns, with_nodes, with_lists, load_node-some}
use microtbx.LinkedList.Open.{
  Open-no_left, Open-no_right, set_next_lem, set_prev_lem, Open-at, Open-drop, left_at, Open-stop,
  right_at, Open-prev,
}
use microtbx.LinkedList.Link.{Headed, Local, set_first_lem, set_last_lem}

-- The chain goes on without the node, and only nodes of the list were written.
abbrev pub Unlinked :
    {P : Type 0} → (list q x : Ptr) → Cells → Cells → ℕ → State P → Unit {0} → State P → Type 0
Unlinked list q x left right count s _ s' =
    Headed list (left ++ right) count s' × Local list (left ++ (q, x) ∷ right) s s'

module _ {P : Type 0} (s : State P) (list q x : Ptr) (count : ℕ) where
  -- The only node, the first of several, the last of several, and one between two others.
  unlink_only :
      Headed list ((q, x) ∷ []) count s
      → Returns (Unlinked list q x [] [] count s) (unlink list q s)
  unfolding unlink
  unlink_only h =
      let o = Open-at [] q x [] h.chain in
      let s₁ : State P = with_lists s (put s.list list (handle_of count null q)) in
      rw
        (
          load_node-some s q o.nonnull o.here,
          set_first_lem s list null h.nonnull h.handle,
          set_last_lem s₁ list null h.nonnull (put_same s.list list (handle_of count null q)),
        )
        (returns (
          record { nonnull = h.nonnull; handle = rw ==_refl refl; chain = nil },
          record {
            nodes = λ a out. refl;
            lists = λ k ne. rw (==_ne ne) refl;
            pools = refl;
            created = refl;
          },
        ))

  unlink_first :
      (c z : Ptr) (ys : Cells)
      → Headed list ((q, x) ∷ (c, z) ∷ ys) count s
      → Returns (Unlinked list q x [] ((c, z) ∷ ys) count s) (unlink list q s)
  unfolding unlink
  unlink_first c z ys h =
      let o = Open-at [] q x ((c, z) ∷ ys) h.chain in
      let s₁ : State P = with_lists s (put s.list list (handle_of count c (last c ys))) in
      rw
        (
          load_node-some s q o.nonnull o.here,
          ==_ne (right_at o).0,
          set_first_lem s list c h.nonnull h.handle,
          set_prev_lem s₁ c null (right_at o).0 (right_at o).1,
        )
        (returns (
          record {
            nonnull = h.nonnull;
            handle = rw ==_refl refl;
            chain = Open-drop refl refl (Open-no_left c refl (Open-prev o null));
          },
          record {
            nodes = λ a out. ground (arith, out);
            lists = λ k ne. rw (==_ne ne) refl;
            pools = refl;
            created = refl;
          },
        ))

  unlink_last :
      (xs : Cells) (b y : Ptr)
      → Headed list ((xs ++ (b, y) ∷ []) ++ (q, x) ∷ []) count s
      → Returns (Unlinked list q x (xs ++ (b, y) ∷ []) [] count s) (unlink list q s)
  unfolding unlink
  unlink_last xs b y h =
      let left = xs ++ (b, y) ∷ [] in
      let o = Open-at left q x [] h.chain in
      let here = o.here ∙ ap (λ p. some (node_of x p null)) (last-snoc null xs b y) in
      let b_ne = (left_at xs b y o).0 in
      let s₁ : State P =
        with_lists s (put s.list list (handle_of count (first (left ++ (q, x) ∷ []) null) b)) in
      rw
        (
          load_node-some s q o.nonnull here,
          ==_ne b_ne,
          set_last_lem s list b h.nonnull h.handle,
          set_next_lem s₁ b null b_ne (left_at xs b y o).1,
        )
        (returns (
          record {
            nonnull = h.nonnull;
            handle = rw ==_refl (
                ap₂ (λ f l. some (handle_of count f l))
                  (first-snoc xs b y ((q, x) ∷ []) null ∙ sym (first-snoc xs b y [] null))
                  (sym (last-append null left [] ∙ last-snoc null xs b y)));
            chain =
                Open-drop refl refl (Open-no_right (last null left) refl (Open-stop xs b y o null));
          },
          record {
            nodes = λ a out.
                ground (arith, out, has-append a left ((q, x) ∷ []), has-append a xs ((b, y) ∷ []));
            lists = λ k ne. rw (==_ne ne) refl;
            pools = refl;
            created = refl;
          },
        ))

  unlink_between :
      (xs : Cells) (b y c z : Ptr) (ys : Cells)
      → Headed list ((xs ++ (b, y) ∷ []) ++ (q, x) ∷ (c, z) ∷ ys) count s
      → Returns (Unlinked list q x (xs ++ (b, y) ∷ []) ((c, z) ∷ ys) count s) (unlink list q s)
  unfolding unlink
  unlink_between xs b y c z ys h =
      let left = xs ++ (b, y) ∷ [] in
      let o = Open-at left q x ((c, z) ∷ ys) h.chain in
      let here = o.here ∙ ap (λ p. some (node_of x p c)) (last-snoc null xs b y) in
      let b_ne = (left_at xs b y o).0 in
      let o₁ = Open-stop xs b y o c in
      let here₁ = o₁.here ∙ ap (λ p. some (node_of x p c)) (last-snoc null xs b y) in
      let o₂ = Open-prev o₁ b in
      let s₁ : State P = with_nodes s (put s.node b (node_of y (last null xs) c)) in
      rw
        (
          load_node-some s q o.nonnull here,
          ==_ne b_ne,
          ==_ne (right_at o).0,
          set_next_lem s b c b_ne (left_at xs b y o).1,
          load_node-some s₁ q o.nonnull here₁,
          set_prev_lem s₁ c b (right_at o).0 (right_at o₁).1,
        )
        (returns (
          record {
            nonnull = h.nonnull;
            handle =
                h.handle
                ∙ ap₂ (λ f l. some (handle_of count f l))
                    (first-snoc xs b y ((q, x) ∷ (c, z) ∷ ys) null
                      ∙ sym (first-snoc xs b y ((c, z) ∷ ys) null))
                    (last-append null left ((q, x) ∷ (c, z) ∷ ys)
                      ∙ sym (last-append null left ((c, z) ∷ ys)));
            chain = Open-drop refl (sym (last-snoc null xs b y)) o₂;
          },
          record {
            nodes = λ a out. ground (
              arith,
              out,
              has-append a left ((q, x) ∷ (c, z) ∷ ys),
              has-append a xs ((b, y) ∷ []),
            );
            lists = λ k ne. refl;
            pools = refl;
            created = refl;
          },
        ))

  unlink-Snoc :
      {left : Cells} (right : Cells)
      → Snoc left
      → Headed list (left ++ (q, x) ∷ right) count s
      → Returns (Unlinked list q x left right count s) (unlink list q s)
  unlink-Snoc [] empty = unlink_only
  unlink-Snoc ((c, z) ∷ ys) empty = unlink_first c z ys
  unlink-Snoc [] (snoc xs b y) = unlink_last xs b y
  unlink-Snoc ((c, z) ∷ ys) (snoc xs b y) = unlink_between xs b y c z ys

  pub unlink_lem :
      (left right : Cells)
      → Headed list (left ++ (q, x) ∷ right) count s
      → Returns (Unlinked list q x left right count s) (unlink list q s)
  unlink_lem left right = unlink-Snoc right (snoc_view left)
