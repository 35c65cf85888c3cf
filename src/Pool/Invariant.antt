-- ===== src/Pool/Invariant.antt =====
-- The well-formedness of a pool, and its view as a map from boxroots to values.
use ocaml_boxroot.Prelude.{
  ℕ, suc, ◌+◌, ◌-◌, ◌%◌, ◌^◌, ◌≤◌, ◌≡◌, refl, sym, ap, ◌∙◌, ◌≢◌, Bool, true, false, not, List, [],
  ◌∷◌, ◌++◌, Option, none, some, arith, if◌then◌else◌, length, length-append, filter, All,
  All-append, All-of, has, NotIn, Distinct, Apart, Distinct-append, has-NotIn, Bool-cases, inl, inr,
  length-filter-not, length-filter-pos, filter-eq, has_in, length-filter-has, ◌||◌, ==→eq, ◌==◌,
}
use ocaml_boxroot.Words.{
  Runtime, IsRuntime, bxr_pool_size, pool_capacity, slot_addr, is_pool_member,
}
use ocaml_boxroot.Words.Laws.{is_pool_member-slot_addr, is_pool_member_self}
use ocaml_boxroot.Pool.{Store}
use ocaml_boxroot.Pool.Chain.{Chain, Ends}
use ocaml_boxroot.Pool.Count.{pool_slots, InPool, length-addrs, Distinct-addrs, addrs-index}

-- The pool `p` is well formed: `fs` are the slots of its free list and `ds` those of its delayed
-- free list, in order. Each of the others holds a value. `k` is what the allocation count is too
-- high by: 1 for a current pool, and 0 for another.
pub record IsPool (r : Runtime) (st : Store) (p : ℕ) (fs ds : List ℕ) (k : ℕ) : Type 0 where
  pub extra : k ≤ 1
  pub aligned : p % bxr_pool_size ≡ 0
  pub fl_chain : Chain st.slots p (st.free_list p).next fs
  pub fl_end : Ends fs (st.free_list p).end
  pub fl_count : (st.free_list p).alloc_count + length fs ≡ pool_capacity r + k
  pub delayed_chain : Chain st.slots p (st.delayed_fl p).a_next ds
  pub delayed_end : Ends ds (st.delayed_fl p).end
  pub delayed_count : (st.delayed_fl p).a_alloc_count ≡ (2 ^ 32 - length ds) % 2 ^ 32
  pub fl_members : All (InPool r p) fs
  pub delayed_members : All (InPool r p) ds
  pub fl_distinct : Distinct fs
  pub delayed_distinct : Distinct ds
  pub apart : Apart fs ds
  pub others :
      (a : ℕ) → InPool r p a → NotIn a fs → NotIn a ds → is_pool_member (st.slots a) p ≡ false

-- `st'` differs from `st` at most at the pool `p`.
pub record SameElse (r : Runtime) (p : ℕ) (st st' : Store) : Type 0 where
  pub slots : (a : ℕ) → has a (pool_slots r p) ≡ false → st'.slots a ≡ st.slots a
  pub free_list : (q : ℕ) → q ≢ p → st'.free_list q ≡ st.free_list q
  pub delayed_fl : (q : ℕ) → q ≢ p → st'.delayed_fl q ≡ st.delayed_fl q
  pub links : st'.links ≡ st.links

-- What a boxroot at the slot `a` of the pool `p` keeps alive, if there is one.
abbrev pub root_value : Store → ℕ → ℕ → Option ℕ
root_value st p a = if is_pool_member (st.slots a) p then none else some (st.slots a)

-- The slots that hold a value, in the order of their addresses.
abbrev pub holds_value : Store → ℕ → ℕ → Bool
holds_value st p a = not (is_pool_member (st.slots a) p)

abbrev pub live_slots : Runtime → Store → ℕ → List ℕ
live_slots r st p = filter (holds_value st p) (pool_slots r p)

module _ (r : Runtime) (ok : IsRuntime r) where
  pub member-InPool : (p a : ℕ) → p % bxr_pool_size ≡ 0 → InPool r p a → is_pool_member a p ≡ true
  member-InPool p a al h =
      let (i, lt, e) = addrs-index a (slot_addr r p 0) (pool_capacity r) h in
      let e' : a ≡ slot_addr r p i = omega arith in rw e' (is_pool_member-slot_addr r ok p i al lt)

  pub slot-ne-pool : (p a : ℕ) → InPool r p a → a ≢ p
  slot-ne-pool p a h =
      let (i, lt, e) = addrs-index a (slot_addr r p 0) (pool_capacity r) h in
      λ same. omega (arith, ok.sizeof_pos)

  -- An address that starts a chain of slots is a pool member.
  pub member-Chain :
      (m : ℕ → ℕ) (p a : ℕ) (xs : List ℕ)
      → p % bxr_pool_size ≡ 0
      → All (InPool r p) xs
      → Chain m p a xs
      → is_pool_member a p ≡ true
  member-Chain m p a [] al h c = rw c (is_pool_member_self p al)
  member-Chain m p a (x ∷ xs) al h c = rw c.0 (member-InPool p x al h.0)

  pub member_of_has :
      (m : ℕ → ℕ) (p a x : ℕ) (xs : List ℕ)
      → p % bxr_pool_size ≡ 0
      → All (InPool r p) xs
      → Chain m p a xs
      → has x xs ≡ true
      → is_pool_member (m x) p ≡ true
  member_of_has m p a x [] al h c i = cc
  member_of_has m p a x (y ∷ ys) al h c i = elim (Bool-cases (x == y)) [
    | inl e ↦ rw (==→eq x y e) (member-Chain m p (m y) ys al h.1 c.1)
    | inr e ↦ member_of_has m p (m y) x ys al h.1 c.1 (rw e at i)
  ]

pub has-append : (a : ℕ) (xs ys : List ℕ) → has a (xs ++ ys) ≡ (has a xs || has a ys)
has-append a [] ys = refl
has-append a (x ∷ xs) ys = ground (arith, has-append a xs ys)

module _ (r : Runtime) (ok : IsRuntime r) {st : Store} {p : ℕ} {fs ds : List ℕ} {k : ℕ}
    (v : IsPool r st p fs ds k) where
  -- A slot looks like a pool member exactly if it is free.
  pub member-eq-has : (a : ℕ) → InPool r p a → is_pool_member (st.slots a) p ≡ has_in (fs ++ ds) a
  member-eq-has a h = rw (has-append a fs ds) (elim (Bool-cases (has a fs)) [
    | inl i ↦ rw i (member_of_has r ok st.slots p _ a fs v.aligned v.fl_members v.fl_chain i)
    | inr i ↦ rw i (elim (Bool-cases (has a ds)) [
      | inl j ↦
          rw j (member_of_has r ok st.slots p _ a ds v.aligned v.delayed_members v.delayed_chain j)
      | inr j ↦ rw j (v.others a h (has-NotIn a fs i) (has-NotIn a ds j))
    ])
  ])

  -- In a well-formed pool the slots that hold a value, those of the free list and those of the
  -- delayed free list together are as many as the capacity.
  pub live_count : length (live_slots r st p) + length fs + length ds ≡ pool_capacity r
  live_count = omega (
    arith,
    length-filter-not (λ a. is_pool_member (st.slots a) p) (pool_slots r p),
    length-addrs (slot_addr r p 0) (pool_capacity r),
    length-append fs ds,
    ap length (
        filter-eq (λ a. is_pool_member (st.slots a) p) (has_in (fs ++ ds)) (pool_slots r p)
          (All-of (pool_slots r p) member-eq-has)),
    length-filter-has (fs ++ ds) (pool_slots r p)
        (All-append _ fs ds v.fl_members v.delayed_members)
        (Distinct-append fs ds v.fl_distinct v.delayed_distinct v.apart)
        (Distinct-addrs (slot_addr r p 0) (pool_capacity r)),
  )

  -- A slot that holds a value is none of the free ones.
  pub live-NotIn :
      (a : ℕ) → InPool r p a → is_pool_member (st.slots a) p ≡ false → NotIn a (fs ++ ds)
  live-NotIn a h e = has-NotIn a (fs ++ ds) (sym (member-eq-has a h) ∙ e)

  -- Of a live slot there is room for one more in the free lists.
  pub room_of_live :
      (a : ℕ)
      → InPool r p a
      → is_pool_member (st.slots a) p ≡ false
      → suc (length fs + length ds) ≤ pool_capacity r
  room_of_live a h e =
      omega (arith, live_count, length-filter-pos (holds_value st p) a (pool_slots r p) h (rw e))
