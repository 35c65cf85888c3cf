-- ===== src/Boxroot/Heap/Touch.antt =====
-- A change of the value of one slot, and of its pool's free lists, in a well-formed state.
use ocaml_boxroot.Prelude.{
  ℕ, ◌%◌, ◌≡◌, refl, sym, ◌∙◌, ap, subst, ◌≢◌, inl, inr, true, false, List, [], ◌∷◌, Option, has,
  NotIn-has, Apart, ◌==◌, ◌||◌, if◌then◌else◌, Bool-cases, eq_cases, eq→==, ne→==, ==→eq,
}
use mathlib.Core.Bool.{false≢true}
use ocaml_boxroot.Words.{Runtime, IsRuntime, bxr_pool_size}
use ocaml_boxroot.Pool.{Store, FreeList}
use ocaml_boxroot.Pool.Count.{InPool}
use ocaml_boxroot.Pool.Invariant.{root_value, SameElse}
use ocaml_boxroot.Pool.Kept.{
  PoolAt, KeptAt, KeptAt-SameElse, PoolAt-KeptAt, root_value-KeptAt, header-InPool,
}
use ocaml_boxroot.Boxroot.State.{State}
use ocaml_boxroot.Boxroot.Heap.{View, extra, InHeap, IsHeap}
use ocaml_boxroot.Boxroot.Heap.Collect.{IsRings-store}

Apart-has : (p : ℕ) (xs ys : List ℕ) → Apart xs ys → has p xs ≡ true → has p ys ≡ false
Apart-has p [] ys h m = absurd (false≢true m)
Apart-has p (x ∷ xs) ys h m = elim (Bool-cases (p == x)) [
  | inl e ↦ subst (λ y. has y ys ≡ false) (sym (==→eq p x e)) (NotIn-has x ys h.0)
  | inr n ↦ Apart-has p xs ys h.1 (sym (ap (λ b. b || has p xs) n) ∙ m)
]

-- A pool is in one place.
pub in_one_place :
    (v : View)
    → ((i j : ℕ) → i ≢ j → Apart (v i) (v j))
    → (p i j : ℕ) → has p (v i) ≡ true
    → has p (v j) ≡ true
    → j ≡ i
in_one_place v apart p i j m n = elim (eq_cases j i) [
  | inl e ↦ e
  | inr e ↦ absurd (false≢true (sym (Apart-has p (v i) (v j) (apart i j (λ k. e (sym k))) m) ∙ n))
]

module _ (r : Runtime) (ok : IsRuntime r) (s : State) (v : View) (inv : IsHeap r s v) (i p x : ℕ)
    (w : Option ℕ) (st' : Store) (m : has p (v i) ≡ true) (pool : PoolAt r st' p (extra i))
    (in_pool : InPool r p x)
    (values : (a : ℕ) → root_value st' p a ≡ (if a == x then w else root_value s.store p a))
    (elsewhere : SameElse r p s.store st') where
  aligned : (q : ℕ) → InHeap v q → q % bxr_pool_size ≡ 0
  aligned q (j, h) = (inv.pools j q h).2.aligned

  others : (q : ℕ) → InHeap v q → q ≢ p → KeptAt r s.store st' q
  others q h n = KeptAt-SameElse r ok s.store st' p q (aligned p (i, m)) (aligned q h) n elsewhere

  pub touched-IsHeap : IsHeap r (record s { store = st' }) v
  touched-IsHeap = record {
    rings = IsRings-store s st' v elsewhere.links inv.rings;
    pools = λ j q h. elim (eq_cases q p) [
      | inl k ↦
          let same : j ≡ i =
            in_one_place v inv.rings.apart p i j m (subst (λ y. has y (v j) ≡ true) k h) in
          subst (PoolAt r st' q) (sym (ap extra same))
            (subst (λ y. PoolAt r st' y (extra i)) (sym k) pool)
      | inr n ↦ PoolAt-KeptAt r s.store st' q (extra j) (others q (j, h) n) (inv.pools j q h)
    ];
    one_current = inv.one_current;
    current = inv.current;
    trap =
        ap (λ (f : FreeList). f.next)
          (elsewhere.free_list s.empty_fl (λ k. inv.trap_apart (subst (InHeap v) (sym k) (i, m))))
        ∙ inv.trap;
    trap_apart = inv.trap_apart;
    fresh = inv.fresh;
  }

  -- Another slot has the value it had.
  pub other_value :
      (q a : ℕ) → InHeap v q → InPool r q a → a ≢ x → root_value st' q a ≡ root_value s.store q a
  other_value q a h k n = elim (eq_cases q p) [
    | inl e ↦
        subst (λ y. root_value st' y a ≡ root_value s.store y a) (sym e)
          (values a ∙ ap (λ b. if b then w else root_value s.store p a) (ne→== a x n))
    | inr e ↦ root_value-KeptAt r ok s.store st' q a (others q h e) k
  ]

  pub same_pool : (q : ℕ) → InHeap v q → InPool r q x → q ≡ p
  same_pool q h k =
      sym (header-InPool r ok q x (aligned q h) k)
      ∙ header-InPool r ok p x (aligned p (i, m)) in_pool

  pub new_value : root_value st' p x ≡ w
  new_value = values x ∙ ap (λ b. if b then w else root_value s.store p x) (eq→== x x refl)
