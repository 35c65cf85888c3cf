-- ===== src/Boxroot/Heap/Create.antt =====
-- `boxroot_create` on a well-formed state.
use ocaml_boxroot.Prelude.{
  some-ne-none, ℕ, suc, ◌≤◌, ◌≡◌, refl, sym, ◌∙◌, ap, subst, ◌≢◌, ◌⊎◌, inl, inr, Bool, true, false,
  List, [], ◌∷◌, Option, none, some, arith, has, if◌then◌else◌, Bool-cases, eq→==, length,
}
use ocaml_boxroot.Words.{Runtime, IsRuntime, is_pool_member, pool_capacity, slot_addr}
use ocaml_boxroot.Pool.{Store, create_fast}
use ocaml_boxroot.Pool.Create.{create_fast_full}
use ocaml_boxroot.Pool.Count.{InPool, addrs-index}
use ocaml_boxroot.Pool.Kept.{PoolAt}
use ocaml_boxroot.Boxroot.State.{State, Caller, lock_held}
use ocaml_boxroot.Boxroot.Api.{current_free_list, domain_of, bxr_create_slow, boxroot_create}
use ocaml_boxroot.Boxroot.Heap.{View, cur_key, current_of, InHeap, IsHeap}
use ocaml_boxroot.Boxroot.Heap.Fill.{refused}
use ocaml_boxroot.Boxroot.Heap.Roots.{SameRoots, IsAdded, create_fast-IsAdded}

-- The call returns: with the boxroot added, or with 0 and the boxroots of before if the platform
-- has no memory.
abbrev pub Creates : Runtime → ℕ → State → View → Option (ℕ × State) → Type 0
Creates r init s v o =
    (root : ℕ) × (s' : State) × (v' : View) × (o ≡ some (root, s'))
    × IsHeap r s' v'
    × (((root ≡ 0) × (refused s.memory ≡ true) × SameRoots r s.store s'.store v v')
        ⊎ ((root ≢ 0) × IsAdded r s.store s'.store v v' root init))

-- The domain of the thread is not cached yet, or is the one it runs on, which has rings.
abbrev pub IsCached : State → ℕ → Type 0
IsCached s dom = (s.cached_dom_id ≡ none) ⊎ ((s.cached_dom_id ≡ some dom) × (s.pools dom ≢ none))

-- The value looks like no slot of a pool, present or to come.
abbrev pub IsOutside : State → View → ℕ → Type 0
IsOutside s v init =
    (q : ℕ) → (InHeap v q ⊎ (has q s.memory ≡ true)) → is_pool_member init q ≡ false

-- The free list that `boxroot_create` looks at, by what it reads.
list_read :
    (b : Bool) (cd : Option ℕ) (d e : ℕ) (fl : ℕ → ℕ)
    → ((cd ≡ none) ⊎ (cd ≡ some (if b then d else 0)))
    → ((if b then (elim cd [ none ↦ e | some x ↦ fl x ]) else fl 0) ≡ e)
      ⊎ (((if b then (elim cd [ none ↦ e | some x ↦ fl x ]) else fl 0) ≡ fl (if b then d else 0))
          × (((if b then d else 0) ≡ 0) ⊎ (cd ≡ some (if b then d else 0))))
list_read true cd d e fl (inl z) = inl (ap (λ o. elim o as (λ _. ℕ) [ none ↦ e | some x ↦ fl x ]) z)
list_read true cd d e fl (inr z) =
    inr (ap (λ o. elim o as (λ _. ℕ) [ none ↦ e | some x ↦ fl x ]) z, inr z)
list_read false cd d e fl h = inr (refl, inl refl)

-- The fast path has added the boxroot.
abbrev FastDone : Runtime → ℕ → State → View → ℕ → Type 0
FastDone r init s v fl =
    (x : ℕ) × (st' : Store) × (create_fast fl init s.store ≡ some (x, st'))
    × IsHeap r (record s { store = st' }) v
    × (x ≢ 0)
    × IsAdded r s.store st' v v x init

module _ (r : Runtime) (ok : IsRuntime r) (c : Caller) (n init : ℕ) where
  abbrev pub dom : ℕ
  dom = domain_of r c

  pub root-ne-zero : (p x : ℕ) → InPool r p x → x ≢ 0
  root-ne-zero p x i z =
      let (j, lt, e) = addrs-index x (slot_addr r p 0) (pool_capacity r) i in
      omega (arith, z, e, ok.sizeof_pos)

  -- `boxroot_create` looks at the static variable or at the current pool of its domain.
  pub current_free_list-cases :
      (s : State) (v : View)
      → IsHeap r s v
      → IsCached s dom
      → (current_free_list r s ≡ s.empty_fl)
        ⊎ (current_free_list r s ≡ current_of (v (cur_key dom)) s.empty_fl)
  current_free_list-cases s v inv cached =
      elim (list_read r.ocaml_multicore s.cached_dom_id c.domain_id s.empty_fl s.current_fl
        (elim cached [ inl z ↦ inl z | inr z ↦ inr z.0 ])) [
          | inl e ↦ inl e
          | inr e ↦
              inr
                (e.0 ∙ inv.current dom (elim e.1 [ inl z ↦ inl z | inr z ↦ inr (known z cached) ]))
        ]
    where
      known : s.cached_dom_id ≡ some dom → IsCached s dom → s.pools dom ≢ none
      known z (inl e) = absurd (some-ne-none (sym z ∙ e))
      known z (inr e) = e.1

  create_fast-trap :
      (s : State) (v : View) → IsHeap r s v → create_fast s.empty_fl init s.store ≡ none
  unfolding create_fast
  create_fast-trap s v inv =
      rw (eq→== (s.store.free_list s.empty_fl).next s.empty_fl inv.trap, create_fast) refl

  -- The fast path finds no slot, or adds the boxroot.
  pub create_fast-cases :
      (s : State) (v : View)
      → IsHeap r s v
      → IsCached s dom
      → IsOutside s v init
      → (create_fast (current_free_list r s) init s.store ≡ none)
        ⊎ FastDone r init s v (current_free_list r s)
  create_fast-cases s v inv cached out = elim (current_free_list-cases s v inv cached) [
    | inl e ↦ inl (ap (λ fl. create_fast fl init s.store) e ∙ create_fast-trap s v inv)
    | inr e ↦
        subst (λ fl. (create_fast fl init s.store ≡ none) ⊎ FastDone r init s v fl) (sym e)
          (by_current (v (cur_key dom)) refl (inv.one_current dom))
  ]
    where
      by_pool :
          (p : ℕ)
          → v (cur_key dom) ≡ p ∷ []
          → PoolAt r s.store p 1
          → (create_fast p init s.store ≡ none) ⊎ FastDone r init s v p
      by_pool p e ([], ds, k) = inl (create_fast_full r s.store p init ds 1 k)
      by_pool p e (y ∷ fs, ds, k) =
          let m : has p (v (cur_key dom)) ≡ true = ap (has p) e ∙ rw (eq→== p p refl) refl in
          let (x, st', done, heap, added, i) =
            create_fast-IsAdded r ok dom s v p init inv e (y, fs, ds, k)
              (out p (inl (cur_key dom, m))) in
          inr (x, st', done, heap, root-ne-zero p x i, added)

      by_current :
          (xs : List ℕ)
          → v (cur_key dom) ≡ xs
          → length (v (cur_key dom)) ≤ 1
          → (create_fast (current_of xs s.empty_fl) init s.store ≡ none)
            ⊎ FastDone r init s v (current_of xs s.empty_fl)
      by_current [] e h = inl (create_fast-trap s v inv)
      by_current (p ∷ []) e h =
          let m : has p (v (cur_key dom)) ≡ true = ap (has p) e ∙ rw (eq→== p p refl) refl in
          by_pool p e (subst (PoolAt r s.store p) (ground arith) (inv.pools (cur_key dom) p m))
      by_current (p ∷ q ∷ xs) e h =
          let h' : length (p ∷ q ∷ xs) ≤ 1 = subst (λ zs. length zs ≤ 1) e h in
          absurd (omega (arith, h'))

  pub fast-lem :
      (k x : ℕ) (st' : Store) (s : State)
      → lock_held r c s ≡ true
      → create_fast (current_free_list r s) init s.store ≡ some (x, st')
      → boxroot_create r (suc k) n c init s ≡ some (x, record s { store = st' })
  unfolding boxroot_create
  fast-lem k x st' s lock e = rw (lock, e, boxroot_create) refl

  slow-lem :
      (k : ℕ) (s : State)
      → create_fast (current_free_list r s) init s.store ≡ none
      → boxroot_create r (suc k) n c init s ≡ bxr_create_slow r n c (boxroot_create r k n c init) s
  unfolding boxroot_create
  slow-lem k s e = elim (Bool-cases (lock_held r c s)) [
    | inl h ↦ rw (h, e, boxroot_create) refl
    | inr h ↦ rw (h, boxroot_create) refl
  ]

  unlocked-lem :
      (k : ℕ) (s : State)
      → lock_held r c s ≡ false
      → boxroot_create r (suc k) n c init s ≡ bxr_create_slow r n c (boxroot_create r k n c init) s
  unfolding boxroot_create
  unlocked-lem k s h = rw (h, boxroot_create) refl

  -- It is enough to know what the slow path does.
  pub by_slow :
      (k : ℕ) (s : State) (v : View)
      → IsHeap r s v
      → IsCached s dom
      → IsOutside s v init
      → Creates r init s v (bxr_create_slow r n c (boxroot_create r k n c init) s)
      → Creates r init s v (boxroot_create r (suc k) n c init s)
  by_slow k s v inv cached out slow = elim (Bool-cases (lock_held r c s)) [
    | inr h ↦ subst (Creates r init s v) (sym (unlocked-lem k s h)) slow
    | inl h ↦ elim (create_fast-cases s v inv cached out) [
      | inl e ↦ subst (Creates r init s v) (sym (slow-lem k s e)) slow
      | inr done ↦
          let (x, st', e, heap, nonzero, added) = done in
          (x, record s { store = st' }, v, fast-lem k x st' s h e, heap, inr (nonzero, added))
    ]
  ]
