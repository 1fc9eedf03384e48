-- ===== src/LinkedList/Returns.antt =====
-- Total correctness of a command of source/tbx_list.c: no fault, enough fuel, a postcondition.
use microtbx.Base.{◌≡◌, ◌≢◌, refl, Option, none, some, ==_ne, sym, subst}
use microtbx.Target.{Ptr, null}
use microtbx.LinkedList.Store.{
  ListNode, ListHandle, State, Cmd, continue, ◌>>◌, put, load_node, load_list, store_node,
  store_list,
}

pub data Returns {A P : Type 0} (Q : A → State P → Type 0) : Option (A × State P) → Type 0 where
  returns : {a : A} {s : State P} → Q a s → Returns Q (some (a, s))

module _ {A P : Type 0} {Q : A → State P → Type 0} where
  pub and_then :
      {B : Type 0} {R : B → State P → Type 0} {r : Option (A × State P)} {k : A → Cmd P B}
      → Returns Q r
      → ((a : A) (s : State P) → Q a s → Returns R (k a s))
      → Returns R (continue r k)
  and_then (returns q) next = next _ _ q

  pub weaken :
      {R : A → State P → Type 0} {r : Option (A × State P)}
      → Returns Q r
      → ((a : A) (s : State P) → Q a s → R a s)
      → Returns R r
  weaken (returns q) f = returns (f _ _ q)

continue_assoc :
    {A B C P : Type 0} (r : Option (A × State P)) (f : A → Cmd P B) (g : B → Cmd P C)
    → continue (continue r f) g ≡ continue r (λ a s. continue (f a s) g)
continue_assoc none f g = refl
continue_assoc (some (a, s)) f g = refl

-- Two commands and a third, as one and two more.
pub regroup :
    {A B C P : Type 0} {Q : C → State P → Type 0} (m : Cmd P A) (n : Cmd P B) (k : Cmd P C)
    (s : State P)
    → Returns Q ((m >> (n >> k)) s)
    → Returns Q (((m >> n) >> k) s)
regroup {Q} m n k s h = subst (Returns Q) (sym (continue_assoc (m s) (λ _. n) (λ _. k))) h

module _ {P : Type 0} (s : State P) where
  abbrev pub with_nodes : (Ptr → Option ListNode) → State P
  with_nodes m = record s { node = m }

  abbrev pub with_lists : (Ptr → Option ListHandle) → State P
  with_lists m = record s { list = m }

  module _ (q : Ptr) (ne : q ≢ null) where
    pub load_node-some : {n : ListNode} → s.node q ≡ some n → load_node q s ≡ some (n, s)
    unfolding load_node
    load_node-some is = rw (==_ne ne, is) refl

    pub load_list-some : {l : ListHandle} → s.list q ≡ some l → load_list q s ≡ some (l, s)
    unfolding load_list
    load_list-some is = rw (==_ne ne, is) refl

    pub store_node-some : (n : ListNode) → store_node q n s ≡ some (tt, with_nodes (put s.node q n))
    unfolding store_node
    store_node-some n = rw (==_ne ne) refl

    pub store_list-some :
        (l : ListHandle) → store_list q l s ≡ some (tt, with_lists (put s.list q l))
    unfolding store_list
    store_list-some l = rw (==_ne ne) refl
