-- ===== src/LinkedList/CreateItems.antt =====
-- `TbxListCreate` of source/tbx_list.c: an empty list, or none for want of memory.
use microtbx.Base.{
  ℕ, suc, ◌≡◌, ◌≢◌, refl, arith, Bool, true, false, [], ◌==◌, ==_refl, ==_ne, inl, inr,
  if◌then◌else◌,
}
use microtbx.Target.{Target, Ptr, null}
use microtbx.LinkedList.Store.{
  Pools, State, Cmd, pure, ◌>>=◌, ◌>>◌, handle_of, sizeof_list, store_list,
}
use microtbx.LinkedList.Insert.{allocate_twice, create_pools, create}
use microtbx.LinkedList.Laws.{Blocks, with_block, Laws}
use microtbx.LinkedList.Chain.{nil, put_same, put_other}
use microtbx.LinkedList.Returns.{Returns, returns, and_then, store_list-some}
use microtbx.LinkedList.Ready.{Ready}
use microtbx.LinkedList.Attempt.{exhausted, granted, allocate_twice-Attempt}

-- How it ends: memory was short at some point, and nothing but the pools has changed; or there is a new
-- block with an empty list.
pub data Made {P : Type 0} (Inv : ℕ → Blocks → P → Type 0) (Same : P → P → Type 0)
    (Full : P → Type 0) (k : ℕ) (live : Blocks) (s : State P) : Ptr → State P → Type 0 where
  refused :
      {s' : State P} (full : P)
      → Full full
      → Same s.pools full
      → s'.node ≡ s.node
      → s'.list ≡ s.list
      → Inv k live s'.pools
      → Made Inv Same Full k live s null s'
  made :
      {q : Ptr} {s' : State P}
      → live q ≡ false
      → s'.node ≡ s.node
      → ((a : Ptr) → a ≢ q → s'.list a ≡ s.list a)
      → Ready Inv k (with_block live q) q [] s'
      → Made Inv Same Full k live s q s'

module _ {P : Type 0} {p : Pools P} (t : Target) {Inv : ℕ → Blocks → P → Type 0}
    {Same : P → P → Type 0} {Full : P → Type 0} (laws : Laws p (sizeof_list t) Inv Same Full)
    (k : ℕ) (live : Blocks) (s : State P) where
  abbrev Post : Ptr → State P → Type 0
  Post q s' = Made Inv Same Full (suc (suc k)) live s q s' × Same s.pools s'.pools

  abbrev empty : Ptr → Cmd P Ptr
  empty list =
      if list == null then pure null else do store_list list (handle_of 0 null null); pure list

  abbrev with_made : P → Bool → State P
  with_made pools created = record s { pools = pools; mem_pools_created = created }

  -- The second half, with the pools there.
  allocated :
      (pools : P) (created : Bool)
      → Inv (suc (suc k)) live pools
      → Same s.pools pools
      → Returns Post ((allocate_twice p t (sizeof_list t) >>= empty) (with_made pools created))
  allocated pools created inv same =
      and_then (allocate_twice-Attempt laws t {s = with_made pools created} inv) λ q s' attempt.
        elim attempt [
          | exhausted pools' z full e same' inv' ↦
              let far = laws.same_trans s.pools pools pools' same same' in
              rw (z, e) (returns (refused pools' full far refl refl inv', far))
          | granted pools' ne fresh e same' inv' ↦
              let u : State P = with_made pools' created in
              rw (e, ==_ne ne, store_list-some u q ne (handle_of 0 null null))
                (returns (
                  made fresh refl (λ a away. put_other s.list q (handle_of 0 null null) a away)
                      (record {
                        headed = record {
                          nonnull = ne;
                          handle = put_same s.list q (handle_of 0 null null);
                          chain = nil;
                        };
                        handle_live = ground (arith, ==_refl q);
                        nodes_live = λ a i. absurd cc;
                        handle_out = refl;
                        inv = inv';
                      }),
                  laws.same_trans s.pools pools pools' same same',
                ))
        ]

  create_from :
      (created : Bool)
      → Inv (suc (suc k)) live s.pools
      → Returns Post (create p t (with_made s.pools created))
  unfolding create create_pools
  create_from true inv = allocated s.pools true inv (laws.same_refl s.pools)
  create_from false inv =
      let (for_list, s₁, e₁, same₁, inv₁, came₁) = laws.create k live s.pools inv in
      let (for_node, s₂, e₂, same₂, inv₂, came₂) = laws.create k live s₁ inv₁ in
      let same₁₂ = laws.same_trans s.pools s₁ s₂ same₁ same₂ in
      rw (e₁, e₂)
        (elim came₁ [
          | inl (yes₁, _) ↦ elim came₂ [
            | inl (yes₂, _) ↦ rw (yes₁, yes₂) (allocated s₂ true inv₂ same₁₂)
            | inr (no₂, full) ↦
                rw (yes₁, no₂) (returns (refused s₂ full same₁₂ refl refl inv₂, same₁₂))
          ]
          | inr (no₁, full) ↦ rw no₁ (returns (refused s₁ full same₁ refl refl inv₂, same₁₂))
        ])

  -- Over pools that keep the Laws, and with room for two more nested critical sections, `TbxListCreate`
  -- never faults and always ends: it returns a new block that holds an empty list, or NULL after the
  -- memory for a block was found short, and changes nothing else but the pools.
  pub create_lem : Inv (suc (suc k)) live s.pools → Returns Post (create p t s)
  create_lem inv = create_from s.mem_pools_created inv
