-- ===== src/Pool/Kept.antt =====
-- Changes of the store that leave a pool well formed.
use ocaml_boxroot.Prelude.{
  ℕ, ◌+◌, ◌%◌, ◌≤◌, ◌≡◌, refl, sym, ◌∙◌, ap, ◌≢◌, false, none, some, List, [], ◌∷◌, arith, All, has,
  Bool-cases, inl, inr, if◌then◌else◌,
}
use ocaml_boxroot.Words.{
  Runtime, IsRuntime, bxr_pool_size, get_pool_header, pool_capacity, slot_addr, is_pool_member,
}
use ocaml_boxroot.Words.Laws.{get_pool_header-slot_addr}
use ocaml_boxroot.Pool.{Store, FreeList}
use ocaml_boxroot.Pool.Chain.{Chain}
use ocaml_boxroot.Pool.Count.{pool_slots, InPool, addrs-index}
use ocaml_boxroot.Pool.Invariant.{IsPool, SameElse, root_value}

-- The pool `p` is well formed, whatever its free slots are.
abbrev pub PoolAt : Runtime → Store → ℕ → ℕ → Type 0
PoolAt r st p k = (fs : List ℕ) × (ds : List ℕ) × IsPool r st p fs ds k

-- Nothing is changed of the pool `p` but perhaps its links, class and domain.
pub record KeptAt (r : Runtime) (st st' : Store) (p : ℕ) : Type 0 where
  pub slots : (a : ℕ) → InPool r p a → st'.slots a ≡ st.slots a
  pub next : (st'.free_list p).next ≡ (st.free_list p).next
  pub end : (st'.free_list p).end ≡ (st.free_list p).end
  pub count : (st'.free_list p).alloc_count ≡ (st.free_list p).alloc_count
  pub delayed : st'.delayed_fl p ≡ st.delayed_fl p

pub KeptAt-trans :
    (r : Runtime) (a b c : Store) (p : ℕ) → KeptAt r a b p → KeptAt r b c p → KeptAt r a c p
KeptAt-trans r a b c p h k = record {
  slots = λ x i. k.slots x i ∙ h.slots x i;
  next = k.next ∙ h.next;
  end = k.end ∙ h.end;
  count = k.count ∙ h.count;
  delayed = k.delayed ∙ h.delayed;
}

pub KeptAt-refl : (r : Runtime) (a : Store) (p : ℕ) → KeptAt r a a p
KeptAt-refl r a p = record {
  slots = λ x i. refl;
  next = refl;
  end = refl;
  count = refl;
  delayed = refl;
}

Chain-same :
    (r : Runtime) (m m' : ℕ → ℕ) (p q a : ℕ) (xs : List ℕ)
    → ((x : ℕ) → InPool r q x → m' x ≡ m x)
    → All (InPool r q) xs
    → Chain m p a xs
    → Chain m' p a xs
Chain-same r m m' p q a [] h i c = c
Chain-same r m m' p q a (x ∷ xs) h i c =
    (c.0, rw (h x i.0) (Chain-same r m m' p q (m x) xs h i.1 c.1))

-- The allocation count and what it is too high by may change together.
pub IsPool-recount :
    (r : Runtime) (st st' : Store) (p : ℕ) (fs ds : List ℕ) (k k' : ℕ)
    → IsPool r st p fs ds k
    → ((a : ℕ) → InPool r p a → st'.slots a ≡ st.slots a)
    → (st'.free_list p).next ≡ (st.free_list p).next
    → (st'.free_list p).end ≡ (st.free_list p).end
    → st'.delayed_fl p ≡ st.delayed_fl p
    → k' ≤ 1
    → (st'.free_list p).alloc_count + k ≡ (st.free_list p).alloc_count + k'
    → IsPool r st' p fs ds k'
IsPool-recount r st st' p fs ds k k' v slots next end delayed small count = record {
  extra = small;
  aligned = v.aligned;
  fl_chain = rw next (Chain-same r st.slots st'.slots p p _ fs slots v.fl_members v.fl_chain);
  fl_end = rw end v.fl_end;
  fl_count = omega (arith, v.fl_count, count);
  delayed_chain =
      rw delayed (Chain-same r st.slots st'.slots p p _ ds slots v.delayed_members v.delayed_chain);
  delayed_end = rw delayed v.delayed_end;
  delayed_count = rw delayed v.delayed_count;
  fl_members = v.fl_members;
  delayed_members = v.delayed_members;
  fl_distinct = v.fl_distinct;
  delayed_distinct = v.delayed_distinct;
  apart = v.apart;
  others = λ a i n m. rw (slots a i) (v.others a i n m);
}

pub PoolAt-KeptAt :
    (r : Runtime) (st st' : Store) (p k : ℕ)
    → KeptAt r st st' p
    → PoolAt r st p k
    → PoolAt r st' p k
PoolAt-KeptAt r st st' p k h (fs, ds, v) = (
  fs,
  ds,
  IsPool-recount r st st' p fs ds k k v h.slots h.next h.end h.delayed v.extra
      (ap (λ (n : ℕ). n + k) h.count),
)

module _ (r : Runtime) (ok : IsRuntime r) where
  -- A slot lies in one pool.
  pub header-InPool : (p a : ℕ) → p % bxr_pool_size ≡ 0 → InPool r p a → get_pool_header a ≡ p
  header-InPool p a al h =
      let (i, lt, e) = addrs-index a (slot_addr r p 0) (pool_capacity r) h in
      let e' : a ≡ slot_addr r p i = omega arith in rw e' (get_pool_header-slot_addr r ok p i al lt)

  pub other-pool :
      (p q a : ℕ)
      → p % bxr_pool_size ≡ 0
      → q % bxr_pool_size ≡ 0
      → q ≢ p
      → InPool r q a
      → has a (pool_slots r p) ≡ false
  other-pool p q a al al' n i = elim (Bool-cases (has a (pool_slots r p))) [
    | inl h ↦ absurd (n (sym (header-InPool q a al' i) ∙ header-InPool p a al h))
    | inr h ↦ h
  ]

  -- What is changed at most at the pool `p` keeps another pool.
  pub KeptAt-SameElse :
      (st st' : Store) (p q : ℕ)
      → p % bxr_pool_size ≡ 0
      → q % bxr_pool_size ≡ 0
      → q ≢ p
      → SameElse r p st st'
      → KeptAt r st st' q
  KeptAt-SameElse st st' p q al al' n h = record {
    slots = λ a i. h.slots a (other-pool p q a al al' n i);
    next = ap (λ (f : FreeList). f.next) (h.free_list q n);
    end = ap (λ (f : FreeList). f.end) (h.free_list q n);
    count = ap (λ (f : FreeList). f.alloc_count) (h.free_list q n);
    delayed = h.delayed_fl q n;
  }

  -- It keeps the pool's boxroots.
  pub root_value-KeptAt :
      (st st' : Store) (p a : ℕ)
      → KeptAt r st st' p
      → InPool r p a
      → root_value st' p a ≡ root_value st p a
  root_value-KeptAt st st' p a h i =
      ap (λ (v : ℕ). if is_pool_member v p then none else some v) (h.slots a i)
