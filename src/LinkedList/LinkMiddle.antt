-- ===== src/LinkedList/LinkMiddle.antt =====
-- How the insertions of source/tbx_list.c link a new node in between two others.
use microtbx.Base.{ℕ, ◌≡◌, ◌≢◌, refl, sym, ap, ap₂, ◌∙◌, arith, some, [], ◌∷◌, ◌++◌, ==_ne, ==_refl}
use microtbx.Target.{Ptr, null}
use microtbx.LinkedList.Store.{node_of, handle_of, State, put, Cmd, ◌>>◌}
use microtbx.LinkedList.Insert.{set_prev, set_next, link_before, link_after}
use microtbx.LinkedList.Chain.{
  Cells, first, last, has-append, last-append, Snoc, empty, snoc, snoc_view, last-snoc, outside_ne,
  first-snoc, has-first, has-last, has-last_cell,
}
use microtbx.LinkedList.Returns.{Returns, returns, with_nodes, load_node-some, load_list-some}
use microtbx.LinkedList.Open.{
  set_next_lem, set_prev_lem, Open-self, Open-close, left_at, Open-stop, right_at, out_left_right,
  Open-prev,
}
use microtbx.LinkedList.Link.{Headed, Beside, Linked}
use microtbx.LinkedList.LinkEnds.{front_writes-Linked, back_writes-Linked}

-- The writes between the nodes `b` and `c`.
abbrev middle_writes : {P : Type 0} → (q b c : Ptr) → Cmd P (Unit {0})
middle_writes q b c = do set_prev q b; set_next q c; set_next b q; set_prev c q

module _ {P : Type 0} (s : State P) (list q x : Ptr) (count : ℕ) where
  middle_writes-Linked :
      (xs : Cells) (b y c z : Ptr) (ys : Cells)
      → Headed list ((xs ++ (b, y) ∷ []) ++ (c, z) ∷ ys) count s
      → Beside (xs ++ (b, y) ∷ []) q x ((c, z) ∷ ys) s
      → Returns
          (Linked list ((xs ++ (b, y) ∷ []) ++ (q, x) ∷ (c, z) ∷ ys) count s)
          (middle_writes q b c s)
  middle_writes-Linked xs b y c z ys h o =
      let left = xs ++ (b, y) ∷ [] in
      let o₁ = Open-self (node_of x b null) o in
      let o₂ = Open-self (node_of x b c) o₁ in
      let o₃ = Open-stop xs b y o₂ q in
      let o₄ = Open-prev o₃ q in
      let s₁ : State P = with_nodes s (put s.node q (node_of x b null)) in
      let s₂ : State P = with_nodes s₁ (put s₁.node q (node_of x b c)) in
      let s₃ : State P = with_nodes s₂ (put s₂.node b (node_of y (last null xs) q)) in
      rw
        (
          set_prev_lem s q b o.nonnull o.here,
          set_next_lem s₁ q c o.nonnull o₁.here,
          set_next_lem s₂ b q (left_at xs b y o).0 (left_at xs b y o₂).1,
          set_prev_lem s₃ c q (right_at o).0 (right_at o₃).1,
        )
        (returns (
          record {
            nonnull = h.nonnull;
            handle =
                h.handle
                ∙ ap₂ (λ f l. some (handle_of count f l))
                    (first-snoc xs b y ((c, z) ∷ ys) null
                      ∙ sym (first-snoc xs b y ((q, x) ∷ (c, z) ∷ ys) null))
                    (last-append null left ((c, z) ∷ ys)
                      ∙ sym (last-append null left ((q, x) ∷ (c, z) ∷ ys)));
            chain =
                Open-close x refl refl (ap (λ p. node_of x p c) (sym (last-snoc null xs b y))) o₄;
          },
          record {
            nodes = λ a out. ground (
              arith,
              out,
              has-append a left ((q, x) ∷ (c, z) ∷ ys),
              has-append a xs ((b, y) ∷ []),
            );
            lists = λ k ne. refl;
            pools = refl;
            created = refl;
          },
        ))

  link_before-Snoc :
      {left : Cells} (c z : Ptr) (ys : Cells)
      → Snoc left
      → Headed list (left ++ (c, z) ∷ ys) count s
      → Beside left q x ((c, z) ∷ ys) s
      → Returns (Linked list (left ++ (q, x) ∷ (c, z) ∷ ys) count s) (link_before list c q s)
  unfolding link_before
  link_before-Snoc c z ys empty h o =
      rw (load_list-some s list h.nonnull h.handle, ==_refl)
        (front_writes-Linked s list q x count c z ys h o)
  link_before-Snoc c z ys (snoc xs b y) h o =
      let front = first (xs ++ (b, y) ∷ []) null in
      let handle =
        h.handle
        ∙ ap (λ p. some (handle_of count p (last null ((xs ++ (b, y) ∷ []) ++ (c, z) ∷ ys))))
            (first-snoc xs b y ((c, z) ∷ ys) null) in
      let ne : c ≢ front =
        outside_ne (xs ++ (b, y) ∷ []) (out_left_right o) (has-first xs b y null) in
      let back =
        (right_at o).1 ∙ ap (λ p. some (node_of z p (first ys null))) (last-snoc null xs b y) in
      rw (load_list-some s list h.nonnull handle, ==_ne ne, load_node-some s c (right_at o).0 back)
        (middle_writes-Linked xs b y c z ys h o)

  -- In front of the node `c`.
  pub link_before-Linked :
      (left : Cells) (c z : Ptr) (ys : Cells)
      → Headed list (left ++ (c, z) ∷ ys) count s
      → Beside left q x ((c, z) ∷ ys) s
      → Returns (Linked list (left ++ (q, x) ∷ (c, z) ∷ ys) count s) (link_before list c q s)
  link_before-Linked left c z ys = link_before-Snoc c z ys (snoc_view left)

  -- Behind the node `b`.
  pub link_after-Linked :
      (xs : Cells) (b y : Ptr) (right : Cells)
      → Headed list ((xs ++ (b, y) ∷ []) ++ right) count s
      → Beside (xs ++ (b, y) ∷ []) q x right s
      → Returns
          (Linked list ((xs ++ (b, y) ∷ []) ++ (q, x) ∷ right) count s)
          (link_after list b q s)
  unfolding link_after
  link_after-Linked xs b y [] h o =
      let front = first (xs ++ (b, y) ∷ []) null in
      let handle =
        h.handle
        ∙ ap₂ (λ f l. some (handle_of count f l)) (first-snoc xs b y [] null)
            (last-append null (xs ++ (b, y) ∷ []) [] ∙ last-snoc null xs b y) in
      rw (load_list-some s list h.nonnull handle, ==_refl)
        (back_writes-Linked s list q x count xs b y front h.nonnull handle refl o)
  link_after-Linked xs b y ((c, z) ∷ ys) h o =
      let back : last null ((xs ++ (b, y) ∷ []) ++ (c, z) ∷ ys) ≡ last c ys =
        last-append null (xs ++ (b, y) ∷ []) ((c, z) ∷ ys) in
      let handle =
        h.handle
        ∙ ap (λ p. some (handle_of count (first ((xs ++ (b, y) ∷ []) ++ (c, z) ∷ ys) null) p))
            back in
      let ne : b ≢ last c ys =
        outside_ne ((c, z) ∷ ys) (o.apart b (has-last b y xs)) (has-last_cell c z ys) in
      rw
        (
          load_list-some s list h.nonnull handle,
          ==_ne ne,
          load_node-some s b (left_at xs b y o).0 (left_at xs b y o).1,
          ==_ne (right_at o).0,
        )
        (middle_writes-Linked xs b y c z ys h o)
