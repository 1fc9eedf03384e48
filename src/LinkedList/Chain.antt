-- ===== src/LinkedList/Chain.antt =====
-- Chains of doubly linked nodes in the memory of source/tbx_list.c.
use microtbx.Base.{
  ◌≡◌, ◌≢◌, refl, sym, ap, subst, ◌∙◌, arith, Bool, true, false, Option, some, List, [], ◌∷◌, ◌++◌,
  ◌==◌, ==_ne, ==_refl, ==_iff, ◌||◌, Bool-cases, inl, inr,
}
use microtbx.Target.{Ptr, null}
use microtbx.LinkedList.Store.{ListNode, node_of, put}

-- The address and the item of each node, from the front on.
abbrev pub Cells : Type 0
Cells = List (Ptr × Ptr)

abbrev pub items : Cells → List Ptr
items [] = []
items ((_, x) ∷ xs) = x ∷ items xs

abbrev pub has : Ptr → Cells → Bool
has a [] = false
has a ((b, _) ∷ xs) = (a == b) || has a xs

-- The first node, or `stop`; the last node, or `prev`.
abbrev pub first : Cells → Ptr → Ptr
first [] stop = stop
first ((a, _) ∷ _) stop = a

abbrev pub last : Ptr → Cells → Ptr
last prev [] = prev
last prev ((a, _) ∷ xs) = last a xs

abbrev pub Nodes : Type 0
Nodes = Ptr → Option ListNode

-- Behind the node `prev` the nodes `xs`, all distinct, linked both ways, in front of `stop`.
pub data Chain (m : Nodes) (stop : Ptr) : Ptr → Cells → Type 0 where
  nil : {prev : Ptr} → Chain m stop prev []
  cons :
      {prev a x : Ptr} {xs : Cells}
      → a ≢ null
      → m a ≡ some (node_of x prev (first xs stop))
      → has a xs ≡ false
      → Chain m stop a xs
      → Chain m stop prev ((a, x) ∷ xs)

pub uncons :
    {m : Nodes} {prev a x stop : Ptr} {xs : Cells}
    → Chain m stop prev ((a, x) ∷ xs)
    → (a ≢ null)
      × (m a ≡ some (node_of x prev (first xs stop)))
      × (has a xs ≡ false)
      × Chain m stop a xs
uncons (cons ne is out c) = (ne, is, out, c)

pub put_same : {A : Type 0} (m : Ptr → Option A) (a : Ptr) (v : A) → put m a v a ≡ some v
put_same m a v = rw ==_refl

pub put_other :
    {A : Type 0} (m : Ptr → Option A) (a : Ptr) (v : A) (b : Ptr) → b ≢ a → put m a v b ≡ m b
put_other m a v b ne = rw (==_ne ne)

pub has-append : (a : Ptr) (xs ys : Cells) → has a (xs ++ ys) ≡ (has a xs || has a ys)
has-append a [] ys = refl
has-append a ((b, x) ∷ xs) ys = ground (arith, has-append a xs ys)

pub first-append : (xs ys : Cells) (stop : Ptr) → first (xs ++ ys) stop ≡ first xs (first ys stop)
first-append [] ys stop = refl
first-append (x ∷ xs) ys stop = refl

pub last-append : (prev : Ptr) (xs ys : Cells) → last prev (xs ++ ys) ≡ last (last prev xs) ys
last-append prev [] ys = refl
last-append prev ((a, x) ∷ xs) ys = last-append a xs ys

pub items-append : (xs ys : Cells) → items (xs ++ ys) ≡ items xs ++ items ys
items-append [] ys = refl
items-append ((a, x) ∷ xs) ys = ap (◌∷◌ x) (items-append xs ys)

-- Outside its nodes a chain does not depend on the memory.
pub Chain-frame :
    {m m' : Nodes} {stop prev : Ptr} {xs : Cells}
    → Chain m stop prev xs
    → ((a : Ptr) → has a xs ≡ true → m' a ≡ m a)
    → Chain m' stop prev xs
Chain-frame nil same = nil
Chain-frame (cons {a} ne is out c) same =
    cons ne (same a (rw ==_refl refl) ∙ is) out (Chain-frame c λ b i. same b (ground (arith, i)))

pub Chain-put :
    {m : Nodes} {stop prev : Ptr} {xs : Cells} (a : Ptr) (n : ListNode)
    → has a xs ≡ false
    → Chain m stop prev xs
    → Chain (put m a n) stop prev xs
Chain-put {m} {xs} a n out c =
    Chain-frame c λ b i. put_other m a n b λ same. cc (out, ap (λ p. has p xs) same, i)

pub has-last : (b y : Ptr) (xs : Cells) → has b (xs ++ (b, y) ∷ []) ≡ true
has-last b y xs = has-append b xs ((b, y) ∷ []) ∙ ground (arith, ==_refl b)

-- The pointer behind a chain lives in its last node, and that in front of it in the first.
pub Chain-stop :
    {m : Nodes} {stop : Ptr} (stop' : Ptr) (xs : Cells) (b y : Ptr) {prev : Ptr}
    → Chain m stop prev (xs ++ (b, y) ∷ [])
    → Chain (put m b (node_of y (last prev xs) stop')) stop' prev (xs ++ (b, y) ∷ [])
Chain-stop {m} stop' [] b y chain =
    let (ne, _, _, _) = uncons chain in cons ne (put_same m b _) refl nil
Chain-stop {m} {stop} stop' ((a, x) ∷ xs) b y {prev} chain =
    let (nonnull, is, out, c) = uncons chain in
    let ne : a ≢ b = λ same. cc (out, ap (λ p. has p (xs ++ (b, y) ∷ [])) same, has-last b y xs) in
    let next : first (xs ++ (b, y) ∷ []) stop ≡ first (xs ++ (b, y) ∷ []) stop' =
      first-append xs ((b, y) ∷ []) stop ∙ sym (first-append xs ((b, y) ∷ []) stop') in
    cons nonnull (put_other m b _ a ne ∙ is ∙ ap (λ p. some (node_of x prev p)) next) out
      (Chain-stop stop' xs b y c)

pub Chain-prev :
    {m : Nodes} {stop prev a x : Ptr} {xs : Cells} (prev' : Ptr)
    → Chain m stop prev ((a, x) ∷ xs)
    → Chain (put m a (node_of x prev' (first xs stop))) stop prev' ((a, x) ∷ xs)
Chain-prev {m} {a} prev' chain =
    let (ne, _, out, c) = uncons chain in cons ne (put_same m a _) out (Chain-put a _ out c)

-- Chains in a row.
abbrev pub Apart : Cells → Cells → Type 0
Apart xs ys = (a : Ptr) → has a xs ≡ true → has a ys ≡ false

pub Chain-append :
    {m : Nodes} {stop mid behind : Ptr} {ys : Cells} {prev : Ptr} {xs : Cells}
    → Chain m mid prev xs
    → mid ≡ first ys stop
    → behind ≡ last prev xs
    → Apart xs ys
    → Chain m stop behind ys
    → Chain m stop prev (xs ++ ys)
Chain-append {m} {stop} {ys} nil mid behind apart d = subst (λ p. Chain m stop p ys) behind d
Chain-append {stop} {ys} (cons {prev} {a} {x} {xs} ne is out c) mid behind apart d =
    cons ne
      (is ∙ ap (λ p. some (node_of x prev p)) (ap (first xs) mid ∙ sym (first-append xs ys stop)))
      (has-append a xs ys ∙ ground (arith, out, apart a (rw ==_refl refl)))
      (Chain-append c mid behind (λ b i. apart b (ground (arith, i))) d)

pub Chain-split :
    {m : Nodes} {stop : Ptr} (xs ys : Cells) {prev : Ptr}
    → Chain m stop prev (xs ++ ys)
    → Chain m (first ys stop) prev xs × Chain m stop (last prev xs) ys × Apart xs ys
Chain-split [] ys c = (nil, c, λ b i. cc)
Chain-split {m} {stop} ((a, x) ∷ xs) ys {prev} chain =
    let (ne, is, out, c) = uncons chain in
    let (left, right, apart) = Chain-split xs ys c in
    let outs : (has a xs ≡ false) × (has a ys ≡ false) = ground (arith, has-append a xs ys) in
    (
      cons ne (is ∙ ap (λ p. some (node_of x prev p)) (first-append xs ys stop)) outs.0 left,
      right,
      λ b i. elim (Bool-cases (b == a)) [
        | inl hit ↦ ap (λ p. has p ys) ((==_iff b a).0 hit) ∙ outs.1
        | inr miss ↦ apart b (rw miss at i)
      ],
    )

-- A list is empty, or has a last node.
pub data Snoc : Cells → Type 0 where
  empty : Snoc []
  snoc : (xs : Cells) (b y : Ptr) → Snoc (xs ++ (b, y) ∷ [])

pub snoc_view : (xs : Cells) → Snoc xs
snoc_view [] = empty
snoc_view ((a, x) ∷ xs) = step (snoc_view xs)
  where
    step : {ys : Cells} → Snoc ys → Snoc ((a, x) ∷ ys)
    step empty = snoc [] a x
    step (snoc ys b y) = snoc ((a, x) ∷ ys) b y

pub last-snoc : (prev : Ptr) (xs : Cells) (b y : Ptr) → last prev (xs ++ (b, y) ∷ []) ≡ b
last-snoc prev xs b y = last-append prev xs ((b, y) ∷ [])

-- An address outside is not one inside.
pub outside_ne : {a b : Ptr} (xs : Cells) → has a xs ≡ false → has b xs ≡ true → a ≢ b
outside_ne xs out in_ same = cc (out, ap (λ p. has p xs) same, in_)

pub has-first :
    (xs : Cells) (b y stop : Ptr) → has (first (xs ++ (b, y) ∷ []) stop) (xs ++ (b, y) ∷ []) ≡ true
has-first [] b y stop = rw ==_refl
has-first ((a, x) ∷ xs) b y stop = rw ==_refl

pub has-last_cell : (a x : Ptr) (xs : Cells) → has (last a xs) ((a, x) ∷ xs) ≡ true
has-last_cell a x [] = rw ==_refl
has-last_cell a x ((b, y) ∷ xs) = ground (arith, has-last_cell b y xs)

-- Where the list begins does not depend on what stands behind a node.
pub first-snoc :
    (xs : Cells) (b y : Ptr) (ys : Cells) (stop : Ptr)
    → first ((xs ++ (b, y) ∷ []) ++ ys) null ≡ first (xs ++ (b, y) ∷ []) stop
first-snoc [] b y ys stop = refl
first-snoc (x ∷ xs) b y ys stop = refl

pub first_ne :
    {m : Nodes} {stop prev : Ptr} (xs : Cells) (b y : Ptr)
    → Chain m stop prev (xs ++ (b, y) ∷ [])
    → first (xs ++ (b, y) ∷ []) null ≢ null
first_ne [] b y c = (uncons c).0
first_ne ((a, x) ∷ xs) b y c = (uncons c).0
