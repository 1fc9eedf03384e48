-- ===== src/LinkedList/Open.antt =====
-- A chain of source/tbx_list.c that is taken apart at a node: what each write of a pointer does to
-- the parts, and when the parts are a chain again.
use microtbx.Base.{
  ◌≡◌, ◌≢◌, refl, sym, ap, subst, ◌∙◌, arith, false, some, [], ◌∷◌, ◌++◌, ◌==◌, ==_iff, ==_refl,
  Bool-cases, inl, inr,
}
use microtbx.Target.{Ptr, null}
use microtbx.LinkedList.Store.{ListNode, node_of, State, put}
use microtbx.LinkedList.Insert.{set_prev, set_next}
use microtbx.LinkedList.Chain.{
  Cells, Nodes, has, first, last, Chain, nil, cons, uncons, put_same, put_other, Chain-put,
  has-append, has-last, Chain-stop, Chain-prev, Apart, Chain-append, Chain-split,
}
use microtbx.LinkedList.Returns.{with_nodes, load_node-some, store_node-some}

-- The nodes `left` end at `i`, the nodes `right` begin behind `j`, and `q` is none of them.
pub record Open (m : Nodes) (left : Cells) (i q : Ptr) (n : ListNode) (j : Ptr) (right : Cells)
    : Type 0 where
  pub nonnull : q ≢ null
  pub before : Chain m i null left
  pub here : m q ≡ some n
  pub behind : Chain m null j right
  pub out_left : has q left ≡ false
  pub out_right : has q right ≡ false
  pub apart : Apart left right

module _ {P : Type 0} (s : State P) where
  pub set_next_lem :
      (a to : Ptr) {n : ListNode}
      → a ≢ null
      → s.node a ≡ some n
      → set_next a to s ≡ some (tt, with_nodes s (put s.node a (record n { next_node_ptr = to })))
  set_next_lem a to ne is = rw (load_node-some s a ne is) (store_node-some s a ne _)

  pub set_prev_lem :
      (a to : Ptr) {n : ListNode}
      → a ≢ null
      → s.node a ≡ some n
      → set_prev a to s ≡ some (tt, with_nodes s (put s.node a (record n { prev_node_ptr = to })))
  set_prev_lem a to ne is = rw (load_node-some s a ne is) (store_node-some s a ne _)

module _ {m : Nodes} {left right : Cells} {i q j : Ptr} {n : ListNode} where
  pub Open-self :
      (n' : ListNode) → Open m left i q n j right → Open (put m q n') left i q n' j right
  Open-self n' o = record {
    nonnull = o.nonnull;
    before = Chain-put q n' o.out_left o.before;
    here = put_same m q n';
    behind = Chain-put q n' o.out_right o.behind;
    out_left = o.out_left;
    out_right = o.out_right;
    apart = o.apart;
  }

  -- An end that is empty is at any address.
  pub Open-no_left : (i' : Ptr) → left ≡ [] → Open m left i q n j right → Open m left i' q n j right
  Open-no_left i' none o = record {
    nonnull = o.nonnull;
    before = subst (λ xs. Chain m i' null xs) (sym none) nil;
    here = o.here;
    behind = o.behind;
    out_left = o.out_left;
    out_right = o.out_right;
    apart = o.apart;
  }

  pub Open-no_right :
      (j' : Ptr) → right ≡ [] → Open m left i q n j right → Open m left i q n j' right
  Open-no_right j' none o = record {
    nonnull = o.nonnull;
    before = o.before;
    here = o.here;
    behind = subst (λ xs. Chain m null j' xs) (sym none) nil;
    out_left = o.out_left;
    out_right = o.out_right;
    apart = o.apart;
  }

  -- Together again.
  pub Open-close :
      (x : Ptr)
      → i ≡ q
      → j ≡ q
      → n ≡ node_of x (last null left) (first right null)
      → Open m left i q n j right
      → Chain m null null (left ++ (q, x) ∷ right)
  Open-close x is js ns o =
      Chain-append o.before is refl
        (λ a h. elim (Bool-cases (a == q)) [
          | inl hit ↦ cc (o.out_left, ap (λ p. has p left) ((==_iff a q).0 hit), h)
          | inr miss ↦ rw miss (o.apart a h)
        ])
        (cons o.nonnull (o.here ∙ ap some ns) o.out_right
          (subst (λ p. Chain m null p right) js o.behind))

  -- Without the node.
  pub Open-drop :
      i ≡ first right null
      → j ≡ last null left
      → Open m left i q n j right
      → Chain m null null (left ++ right)
  Open-drop is js o = Chain-append o.before is js o.apart o.behind

-- The node in front, the last on the left, and the pointer that leads on from it.
module _ {m : Nodes} {right : Cells} {i q j : Ptr} {n : ListNode} (xs : Cells) (b y : Ptr)
    (o : Open m (xs ++ (b, y) ∷ []) i q n j right) where
  pub left_at : (b ≢ null) × (m b ≡ some (node_of y (last null xs) i))
  left_at = let (ne, is, _, _) = uncons (Chain-split xs ((b, y) ∷ []) o.before).1 in (ne, is)

  left_ne : q ≢ b
  left_ne same = cc (o.out_left, ap (λ p. has p (xs ++ (b, y) ∷ [])) same, has-last b y xs)

  pub Open-stop :
      (to : Ptr) → Open (put m b (node_of y (last null xs) to)) (xs ++ (b, y) ∷ []) to q n j right
  Open-stop to = record {
    nonnull = o.nonnull;
    before = Chain-stop to xs b y o.before;
    here = put_other m b _ q left_ne ∙ o.here;
    behind = Chain-put b _ (o.apart b (has-last b y xs)) o.behind;
    out_left = o.out_left;
    out_right = o.out_right;
    apart = o.apart;
  }

-- The node behind, the first on the right, and the pointer that leads back from it.
module _ {m : Nodes} {left ys : Cells} {c z i q j : Ptr} {n : ListNode}
    (o : Open m left i q n j ((c, z) ∷ ys)) where
  pub right_at : (c ≢ null) × (m c ≡ some (node_of z j (first ys null)))
  right_at = let (ne, is, _, _) = uncons o.behind in (ne, is)

  right_ne : q ≢ c
  right_ne same = let out = o.out_right in ground (arith, same, out)

  pub out_left_right : has c left ≡ false
  out_left_right = elim (Bool-cases (has c left)) [
    | inl hit ↦ let out = o.apart c hit in ground (arith, out)
    | inr miss ↦ miss
  ]

  pub Open-prev :
      (to : Ptr) → Open (put m c (node_of z to (first ys null))) left i q n to ((c, z) ∷ ys)
  Open-prev to = record {
    nonnull = o.nonnull;
    before = Chain-put c _ out_left_right o.before;
    here = put_other m c _ q right_ne ∙ o.here;
    behind = Chain-prev to o.behind;
    out_left = o.out_left;
    out_right = o.out_right;
    apart = o.apart;
  }

-- A node of a chain, and a node that is new beside one.
module _ {m : Nodes} (left : Cells) (q x : Ptr) (right : Cells) where
  pub Open-at :
      Chain m null null (left ++ (q, x) ∷ right)
      → Open m left q q (node_of x (last null left) (first right null)) q right
  Open-at c =
      let (before, rest, apart) = Chain-split left ((q, x) ∷ right) c in
      let (ne, is, out, behind) = uncons rest in
      record {
        nonnull = ne;
        before = before;
        here = is;
        behind = behind;
        out_left = elim (Bool-cases (has q left)) [
          | inl hit ↦ let out' = apart q hit in cc (out', ==_refl q)
          | inr miss ↦ miss
        ];
        out_right = out;
        apart = λ a i. let out' = apart a i in ground (arith, out');
      }

  pub Open-fresh :
      (n : ListNode)
      → q ≢ null
      → has q (left ++ right) ≡ false
      → Chain m null null (left ++ right)
      → Open (put m q n) left (first right null) q n (last null left) right
  Open-fresh n ne out c =
      let (before, behind, apart) = Chain-split left right c in
      let outs : (has q left ≡ false) × (has q right ≡ false) =
        ground (arith, out, has-append q left right) in
      record {
        nonnull = ne;
        before = Chain-put q n outs.0 before;
        here = put_same m q n;
        behind = Chain-put q n outs.1 behind;
        out_left = outs.0;
        out_right = outs.1;
        apart = apart;
      }
