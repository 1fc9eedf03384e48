-- ===== src/Tests/ListExamples.antt =====
-- The properties of source/tbx_list.c at a list of two nodes, over pools that hand out the next address.
use microtbx.Base.{
  ℕ, ◌+◌, ◌≤◌, ◌≡◌, ◌⊎◌, inl, inr, refl, arith, Bool, true, false, none, some, List, [], ◌∷◌, ◌==◌,
  ◌||◌, ltb, ==_iff, Bool-cases,
}
use mathlib.Core.List.{Perm}
use microtbx.Target.{Target, Ptr, null}
use microtbx.LinkedList.Store.{Pools, State, node_of, handle_of, put}
use microtbx.LinkedList.Read.{
  get_size, get_first_item, get_last_item, get_next_item, get_previous_item,
}
use microtbx.LinkedList.Insert.{
  create, insert_item_front, insert_item_back, insert_item_before, insert_item_after,
}
use microtbx.LinkedList.Remove.{remove_item, clear, delete}
use microtbx.LinkedList.Sort.{sort_items, swap_items}
use microtbx.LinkedList.Laws.{Blocks, without_block, Laws}
use microtbx.LinkedList.Sequence.{contains}
use microtbx.LinkedList.Chain.{Cells, items, has, nil, cons}
use microtbx.LinkedList.Returns.{Returns}
use microtbx.LinkedList.Ready.{Ready, Frame}
use microtbx.LinkedList.Insertions.{Inserted}
use microtbx.LinkedList.InsertItems.{insert_ends-Inserted, insert_at-Inserted}
use microtbx.LinkedList.RemoveItems.{Removed, remove_item-Removed}
use microtbx.LinkedList.ReadItems.{reads_lem}
use microtbx.LinkedList.ClearItems.{without_nodes, clear_delete_lem}
use microtbx.LinkedList.Exchange.{IsSorted, IsOrder}
use microtbx.LinkedList.Sorted.{sort_items-IsSorted}
use microtbx.LinkedList.CreateItems.{Made, create_lem}
use microtbx.LinkedList.SwapItems.{swap_items_lem}
use microtbx.LinkedList.OnMemPool.{mem_pools, Holds, Settled}
use microtbx.LinkedList.OnMemPool.Filled.{mem_pools-Laws}
use microtbx.MemPool.Grow.{Full}
use microtbx.MemPool
use microtbx.MemPool.Store
use microtbx.Tests.{small, start}
use microtbx.Tests.Stocked.{small-IsConfig, simple-IsPort, start-IsReady, start_home, start-IsPools}

-- The state is the last address that was handed out.
abbrev next_address : Pools ℕ
next_address = record {
  create = λ n size s. some (true, s);
  allocate = λ size s. some (s + 1, s + 1);
  release = λ q s. some s;
  enter = λ s. s;
  leave = λ s. s;
}

-- Whatever is handed out is an address up to the last.
abbrev Below : ℕ → Blocks → ℕ → Type 0
Below k live s = (a : Ptr) → live a ≡ true → a ≤ s

abbrev Later : ℕ → ℕ → Type 0
Later s t = s ≤ t

abbrev Never : ℕ → Type 0
Never s = ⊥

fresh :
    (live : Blocks) (s : ℕ) (b : Bool) → live (s + 1) ≡ b → Below 0 live s → live (s + 1) ≡ false
fresh live s true e h = absurd (let le = h (s + 1) e in omega (arith, le))
fresh live s false e h = e

without-live : (live : Blocks) (q a : Ptr) → without_block live q a ≡ true → live a ≡ true
without-live live q a l = ground (arith, l)

next_address-Laws : Laws next_address 24 Below Later Never
next_address-Laws = record {
  same_refl = λ s. omega arith;
  same_trans = λ s t u a b. omega (arith, a, b);
  enter = λ k live s h. h;
  leave = λ k live live' s t h same h'. (h', same);
  allocate = λ k live s h. (
    s + 1,
    s + 1,
    refl,
    omega arith,
    inr (
      omega arith,
      fresh live s (live (s + 1)) refl h,
      λ a l. elim (Bool-cases (a == s + 1)) [
        | inl hit ↦ omega (arith, (==_iff a (s + 1)).0 hit)
        | inr miss ↦ let le = h a (rw miss at l) in omega (arith, le)
      ],
    ),
  );
  create =
      λ k live s h. (true, s, refl, omega arith, h, inl (refl, (s + 1, s + 1, refl, omega arith)));
  release = λ k live q s h l. (s, refl, omega arith, λ a la. h a (without-live live q a la));
}

-- The items 9 and 5.
abbrev two : Cells
two = (70, 9) ∷ (80, 5) ∷ []

abbrev two_list : State ℕ
two_list = record {
  pools = 100;
  node = put (put (λ _. none) 70 (node_of 9 null 80)) 80 (node_of 5 70 null);
  list = put (λ _. none) 64 (handle_of 2 70 80);
  mem_pools_created = true;
}

abbrev taken : Blocks
taken a = (a == 64) || has a two

two-Ready : Ready Below 3 taken 64 two two_list
two-Ready = record {
  headed = record {
    nonnull = omega arith;
    handle = refl;
    chain = cons (omega arith) refl refl (cons (omega arith) refl refl nil);
  };
  handle_live = refl;
  nodes_live = λ a i. ground (arith, i);
  handle_out = refl;
  inv = λ a l. ground (arith, l);
}

-- What an insertion of the item 7 may come to.
abbrev Seven : List Ptr → Bool → State ℕ → Type 0
Seven result ok s' =
    Inserted Below Never 3 taken 64 7 two result ok s' × Frame Later taken 64 two two_list s'

insert_ends-Inserted_example :
    Returns (Seven (7 ∷ 9 ∷ 5 ∷ [])) (insert_item_front next_address Target.linux 64 7 two_list)
    × Returns (Seven (9 ∷ 5 ∷ 7 ∷ [])) (insert_item_back next_address Target.linux 64 7 two_list)
insert_ends-Inserted_example =
    insert_ends-Inserted Target.linux next_address-Laws 7 two-Ready (omega arith) (omega arith)

abbrev SevenAt : Ptr → List Ptr → Bool → State ℕ → Type 0
SevenAt ref result ok s' =
    ((ok ≡ false)
      × (contains ref (9 ∷ 5 ∷ []) ≡ false)
      × Ready Below 3 taken 64 two s'
      × Frame Later taken 64 two two_list s')
    ⊎ Seven result ok s'

insert_at-Inserted_example :
    Returns
      (SevenAt 5 (9 ∷ 7 ∷ 5 ∷ []))
      (insert_item_before next_address Target.linux 64 7 5 two_list)
    × Returns
        (SevenAt 5 (9 ∷ 5 ∷ 7 ∷ []))
        (insert_item_after next_address Target.linux 64 7 5 two_list)
insert_at-Inserted_example =
    insert_at-Inserted Target.linux next_address-Laws 7 two-Ready (omega arith) (omega arith) 5
      (omega arith)

remove_item-Removed_example :
    Returns
      (λ _ s'. Removed Below 3 taken 64 9 two s' × Frame Later taken 64 two two_list s')
      (remove_item next_address Target.linux 64 9 two_list)
remove_item-Removed_example =
    remove_item-Removed Target.linux next_address-Laws 9 two-Ready (omega arith) (omega arith)

-- A value was read from the list of two nodes.
abbrev Read : {A : Type 0} → A → A → State ℕ → Type 0
Read value r s' =
    (r ≡ value)
    × (pools : ℕ) × (s' ≡ record two_list { pools = pools })
    × (100 ≤ pools)
    × Below 3 taken pools

reads_lem_example :
    Returns (Read 2) (get_size next_address 64 two_list)
    × Returns (Read 9) (get_first_item next_address 64 two_list)
    × Returns (Read 5) (get_last_item next_address 64 two_list)
    × Returns (Read 5) (get_next_item next_address 64 9 two_list)
    × Returns (Read null) (get_previous_item next_address 64 9 two_list)
reads_lem_example = reads_lem next_address-Laws two-Ready 9 (omega arith)

clear_delete_lem_example :
    Returns
      (λ _ s'.
        Ready Below 3 (without_nodes taken two) 64 [] s' × Frame Later taken 64 two two_list s')
      (clear next_address 64 two_list)
    × Returns
        (λ _ s'.
          Below 3 (without_block (without_nodes taken two) 64) s'.pools
          × Frame Later taken 64 two two_list s')
        (delete next_address 64 two_list)
clear_delete_lem_example = clear_delete_lem next_address-Laws two-Ready

-- The first call of `TbxListCreate` in a program, over the memory pools.
abbrev first_call : State MemPool.Store.State
first_call = record { pools = start; node = λ _. none; list = λ _. none; mem_pools_created = false }

abbrev nobody : Blocks
nobody a = false

start-Holds : Holds small 2 nobody start
start-Holds = record {
  home = start_home;
  views = [];
  ready = record {
    config = small-IsConfig;
    port = simple-IsPort;
    sections = start-IsReady;
    pools = start-IsPools;
  };
  held = λ a l. absurd cc;
}

create_lem_example :
    Returns
      (λ q s'.
        Made (Holds small) Settled (Full small 24) 2 nobody first_call q s'
        × Settled start s'.pools)
      (create (mem_pools small) Target.linux first_call)
create_lem_example =
    create_lem Target.linux (mem_pools-Laws small 24 (omega arith) (omega arith)) 0 nobody
      first_call start-Holds

swap_items_lem_example :
    Returns
      (λ _ s'.
        (((contains 9 (9 ∷ 5 ∷ []) ≡ false) ⊎ (contains 5 (9 ∷ 5 ∷ []) ≡ false))
          × Ready Below 3 taken 64 two s'
          × Frame Later taken 64 two two_list s')
        ⊎ ((ys : Cells) × (contains 9 (9 ∷ 5 ∷ []) ≡ true)
            × (contains 5 (9 ∷ 5 ∷ []) ≡ true)
            × (items ys ≡ 5 ∷ 9 ∷ [])
            × Ready Below 3 taken 64 ys s'
            × Frame Later taken 64 two two_list s'))
      (swap_items next_address 64 9 5 two_list)
swap_items_lem_example = swap_items_lem next_address-Laws two-Ready 9 5 (omega arith) (omega arith)

-- The order of the numbers.
abbrev greater : Ptr → Ptr → Bool
greater x y = ltb y x

greater-IsOrder : IsOrder greater
greater-IsOrder = record { one_way = λ x y h. ground arith; through = λ x y z h h'. ground arith }

sort_items-IsSorted_example :
    Returns
      (λ _ s'.
        (ys : Cells) × Ready Below 3 taken 64 ys s'
        × Perm (items ys) (9 ∷ 5 ∷ [])
        × IsSorted greater (items ys)
        × Frame Later taken 64 two two_list s')
      (sort_items next_address 64 (some greater) two_list)
sort_items-IsSorted_example =
    sort_items-IsSorted next_address-Laws two-Ready greater greater-IsOrder

mem_pools-Laws_example : Laws (mem_pools small) 24 (Holds small) Settled (Full small 24)
mem_pools-Laws_example = mem_pools-Laws small 24 (omega arith) (omega arith)
