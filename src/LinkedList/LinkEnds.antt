-- ===== src/LinkedList/LinkEnds.antt =====
-- How the insertions of source/tbx_list.c link a new node in at an end of the chain.
use microtbx.Base.{ℕ, ◌≡◌, ◌≢◌, refl, sym, ap, ap₂, ◌∙◌, arith, some, [], ◌∷◌, ◌++◌, ==_ne, ==_refl}
use microtbx.Target.{Ptr, null}
use microtbx.LinkedList.Store.{node_of, handle_of, State, put, Cmd, ◌>>◌}
use microtbx.LinkedList.Insert.{set_prev, set_next, set_first, set_last, link_front, link_back}
use microtbx.LinkedList.Chain.{
  Cells, first, last, put_same, has-append, last-append, Snoc, empty, snoc, snoc_view, last-snoc,
  first-snoc, first_ne,
}
use microtbx.LinkedList.Returns.{Returns, returns, regroup, with_nodes, with_lists, load_list-some}
use microtbx.LinkedList.Open.{
  Open-no_left, Open-no_right, set_next_lem, set_prev_lem, Open-self, Open-close, left_at,
  Open-stop, right_at, Open-prev,
}
use microtbx.LinkedList.Link.{set_first_lem, set_last_lem, Headed, Beside, Linked}

-- The writes in front of the first node `c`.
abbrev front_writes : {P : Type 0} → (list q c : Ptr) → Cmd P (Unit {0})
front_writes list q c = do set_next q c; set_prev c q; set_first list q

-- The writes behind the last node `b`.
abbrev back_writes : {P : Type 0} → (list q b : Ptr) → Cmd P (Unit {0})
back_writes list q b = do set_prev q b; set_next b q; set_last list q

module _ {P : Type 0} (s : State P) (list q x : Ptr) (count : ℕ) where
  pub front_writes-Linked :
      (c z : Ptr) (ys : Cells)
      → Headed list ((c, z) ∷ ys) count s
      → Beside [] q x ((c, z) ∷ ys) s
      → Returns (Linked list ((q, x) ∷ (c, z) ∷ ys) count s) (front_writes list q c s)
  front_writes-Linked c z ys h o =
      let o₁ = Open-self (node_of x null c) o in
      let o₂ = Open-prev o₁ q in
      let s₁ : State P = with_nodes s (put s.node q (node_of x null c)) in
      let s₂ : State P = with_nodes s₁ (put s₁.node c (node_of z q (first ys null))) in
      rw
        (
          set_next_lem s q c o.nonnull o.here,
          set_prev_lem s₁ c q (right_at o).0 (right_at o₁).1,
          set_first_lem s₂ list q h.nonnull h.handle,
        )
        (returns (
          record {
            nonnull = h.nonnull;
            handle = rw ==_refl refl;
            chain = Open-close x refl refl refl (Open-no_left q refl o₂);
          },
          record {
            nodes = λ a out. ground (arith, out);
            lists = λ k ne. rw (==_ne ne) refl;
            pools = refl;
            created = refl;
          },
        ))

  -- In front of the whole list.
  pub link_front-Linked :
      (right : Cells)
      → Headed list right count s
      → Beside [] q x right s
      → Returns (Linked list ((q, x) ∷ right) count s) (link_front list q s)
  unfolding link_front
  link_front-Linked [] h o =
      let s₁ : State P = with_lists s (put s.list list (handle_of count null q)) in
      rw
        (
          load_list-some s list h.nonnull h.handle,
          set_last_lem s list q h.nonnull h.handle,
          set_first_lem s₁ list q h.nonnull (put_same s.list list (handle_of count null q)),
        )
        (returns (
          record {
            nonnull = h.nonnull;
            handle = rw ==_refl refl;
            chain = Open-close x refl refl refl (Open-no_left q refl (Open-no_right q refl o));
          },
          record {
            nodes = λ a out. refl;
            lists = λ k ne. rw (==_ne ne) refl;
            pools = refl;
            created = refl;
          },
        ))
  link_front-Linked ((c, z) ∷ ys) h o =
      rw (load_list-some s list h.nonnull h.handle, ==_ne (right_at o).0)
        (regroup (set_next q c) (set_prev c q) (set_first list q) s
          (front_writes-Linked c z ys h o))

  pub back_writes-Linked :
      (xs : Cells) (b y front : Ptr)
      → list ≢ null
      → s.list list ≡ some (handle_of count front b)
      → front ≡ first (xs ++ (b, y) ∷ []) null
      → Beside (xs ++ (b, y) ∷ []) q x [] s
      → Returns (Linked list ((xs ++ (b, y) ∷ []) ++ (q, x) ∷ []) count s) (back_writes list q b s)
  back_writes-Linked xs b y front ne handle at o =
      let o₁ = Open-self (node_of x b null) o in
      let o₂ = Open-stop xs b y o₁ q in
      let s₁ : State P = with_nodes s (put s.node q (node_of x b null)) in
      let s₂ : State P = with_nodes s₁ (put s₁.node b (node_of y (last null xs) q)) in
      rw
        (
          set_prev_lem s q b o.nonnull o.here,
          set_next_lem s₁ b q (left_at xs b y o).0 (left_at xs b y o₁).1,
          set_last_lem s₂ list q ne handle,
        )
        (returns (
          record {
            nonnull = ne;
            handle = rw ==_refl (
                ap₂ (λ f l. some (handle_of count f l))
                  (at ∙ sym (first-snoc xs b y ((q, x) ∷ []) null))
                  (sym (last-append null (xs ++ (b, y) ∷ []) ((q, x) ∷ []))));
            chain =
                Open-close x refl refl (ap (λ p. node_of x p null) (sym (last-snoc null xs b y)))
                  (Open-no_right q refl o₂);
          },
          record {
            nodes = λ a out. ground (
              arith,
              out,
              has-append a (xs ++ (b, y) ∷ []) ((q, x) ∷ []),
              has-append a xs ((b, y) ∷ []),
            );
            lists = λ k ne. rw (==_ne ne) refl;
            pools = refl;
            created = refl;
          },
        ))

  link_back-Snoc :
      {left : Cells}
      → Snoc left
      → Headed list left count s
      → Beside left q x [] s
      → Returns (Linked list (left ++ (q, x) ∷ []) count s) (link_back list q s)
  unfolding link_back
  link_back-Snoc empty h o =
      let s₁ : State P = with_lists s (put s.list list (handle_of count q null)) in
      rw
        (
          load_list-some s list h.nonnull h.handle,
          set_first_lem s list q h.nonnull h.handle,
          set_last_lem s₁ list q h.nonnull (put_same s.list list (handle_of count q null)),
        )
        (returns (
          record {
            nonnull = h.nonnull;
            handle = rw ==_refl refl;
            chain = Open-close x refl refl refl (Open-no_left q refl (Open-no_right q refl o));
          },
          record {
            nodes = λ a out. refl;
            lists = λ k ne. rw (==_ne ne) refl;
            pools = refl;
            created = refl;
          },
        ))
  link_back-Snoc (snoc xs b y) h o =
      let handle =
        h.handle
        ∙ ap (λ p. some (handle_of count (first (xs ++ (b, y) ∷ []) null) p))
            (last-snoc null xs b y) in
      rw (load_list-some s list h.nonnull handle, ==_ne (first_ne xs b y h.chain))
        (regroup (set_prev q b) (set_next b q) (set_last list q) s
          (back_writes-Linked xs b y (first (xs ++ (b, y) ∷ []) null) h.nonnull handle refl o))

  -- Behind the whole list.
  pub link_back-Linked :
      (left : Cells)
      → Headed list left count s
      → Beside left q x [] s
      → Returns (Linked list (left ++ (q, x) ∷ []) count s) (link_back list q s)
  link_back-Linked left = link_back-Snoc (snoc_view left)
