-- ===== src/Boxroot/Heap/Roots.antt =====
-- The boxroots of a well-formed state, and the part of `boxroot_create` that finds a free slot.
use ocaml_boxroot.Prelude.{
  some-ne-none, ℕ, ◌≡◌, refl, sym, ◌∙◌, ap, subst, ◌≢◌, ◌↔◌, inl, inr, true, false, Option, none,
  some, ◌∷◌, [], arith, has, ◌==◌, if◌then◌else◌, eq→==,
}
use ocaml_boxroot.Words.{Runtime, IsRuntime, is_pool_member}
use ocaml_boxroot.Pool.{Store, create_fast}
use ocaml_boxroot.Pool.Count.{InPool}
use ocaml_boxroot.Pool.Create.{create_fast-Created}
use ocaml_boxroot.Pool.Invariant.{root_value, SameElse}
use ocaml_boxroot.Pool.Kept.{PoolAt}
use ocaml_boxroot.Boxroot.State.{State}
use ocaml_boxroot.Boxroot.Heap.{View, extra, cur_key, InHeap, IsHeap, IsRoot}
use ocaml_boxroot.Boxroot.Heap.Touch.{touched-IsHeap, other_value, same_pool, new_value}
use ocaml_boxroot.Boxroot.Heap.Search.{RoomAt}
use ocaml_boxroot.Boxroot.Heap.Supplied.{IsOut, IsSupplied}

abbrev pub SameRoots : Runtime → Store → Store → View → View → Type 0
SameRoots r st st' v v' = (a w : ℕ) → IsRoot r st v a w ↔ IsRoot r st' v' a w

-- The boxroots of `st'` are those of `st`, and `x` with the value `init`.
pub record IsAdded (r : Runtime) (st st' : Store) (v v' : View) (x init : ℕ) : Type 0 where
  pub was_free : (w : ℕ) → IsRoot r st v x w → ⊥
  pub added : IsRoot r st' v' x init
  pub others : (a w : ℕ) → a ≢ x → IsRoot r st v a w ↔ IsRoot r st' v' a w

pub SameRoots-trans :
    (r : Runtime) (s t u : Store) (v w x : View)
    → SameRoots r s t v w
    → SameRoots r t u w x
    → SameRoots r s u v x
SameRoots-trans r s t u v w x h k a y =
    ((λ e. (k a y).0 ((h a y).0 e)), (λ e. (h a y).1 ((k a y).1 e)))

pub IsAdded-after :
    (r : Runtime) (s t u : Store) (v w x : View) (a init : ℕ)
    → SameRoots r s t v w
    → IsAdded r t u w x a init
    → IsAdded r s u v x a init
IsAdded-after r s t u v w x a init h k = record {
  was_free = λ y e. k.was_free y ((h a y).0 e);
  added = k.added;
  others =
      λ b y n. ((λ e. (k.others b y n).0 ((h b y).0 e)), (λ e. (h b y).1 ((k.others b y n).1 e)));
}

pub SameRoots-of_IsOut :
    (r : Runtime) (dom : ℕ) (s s' : State) (v v' : View)
    → IsOut r dom s s' v v'
    → SameRoots r s.store s'.store v v'
SameRoots-of_IsOut r dom s s' v v' o a w = (
  (λ h. let (p, m, i, e) = h in (p, o.forth p m, i, o.values p a m i ∙ e)),
  (λ h. let (p, m, i, e) = h in (p, o.back p m, i, sym (o.values p a (o.back p m) i) ∙ e)),
)

pub SameRoots-of_IsSupplied :
    (r : Runtime) (dom : ℕ) (s s' : State) (v v' : View) (p : ℕ)
    → IsSupplied r dom s s' v v' p
    → SameRoots r s.store s'.store v v'
SameRoots-of_IsSupplied r dom s s' v v' p o a w = (
  (λ h. let (q, m, i, e) = h in (q, o.forth q m, i, o.values q a m i ∙ e)),
  (λ h.
      let (q, m, i, e) = h in
      elim (o.back q m) [
        | inr old ↦ (q, old, i, sym (o.values q a old i) ∙ e)
        | inl same ↦ elim o.source [
          | inl old ↦
              let old' = subst (InHeap v) (sym same) old in
              (q, old', i, sym (o.values q a old' i) ∙ e)
          | inr new ↦ absurd (
              some-ne-none (
                sym e
                ∙ ap (λ x. root_value s'.store x a) same
                ∙ new.1 a (subst (λ x. InPool r x a) same i)))
        ]
      ]),
)

-- The boxroots of `st'` are those of `st`, but for `x`.
pub record IsRemoved (r : Runtime) (st st' : Store) (v v' : View) (x : ℕ) : Type 0 where
  pub gone : (w : ℕ) → IsRoot r st' v' x w → ⊥
  pub others : (a w : ℕ) → a ≢ x → IsRoot r st v a w ↔ IsRoot r st' v' a w

pub IsRemoved-then :
    (r : Runtime) (s t u : Store) (v w x : View) (a : ℕ)
    → IsRemoved r s t v w a
    → SameRoots r t u w x
    → IsRemoved r s u v x a
IsRemoved-then r s t u v w x a h k = record {
  gone = λ y e. h.gone y ((k a y).1 e);
  others =
      λ b y n. ((λ e. (k b y).0 ((h.others b y n).0 e)), (λ e. (h.others b y n).1 ((k b y).1 e)));
}

module _ (r : Runtime) (ok : IsRuntime r) (s : State) (v : View) (inv : IsHeap r s v) (i p x : ℕ)
    (st' : Store) (m : has p (v i) ≡ true) (in_pool : InPool r p x)
    (elsewhere : SameElse r p s.store st') where
  pub touched-others :
      (w : Option ℕ)
      → PoolAt r st' p (extra i)
      → ((a : ℕ) → root_value st' p a ≡ (if a == x then w else root_value s.store p a))
      → (a y : ℕ) → a ≢ x
      → IsRoot r s.store v a y ↔ IsRoot r st' v a y
  touched-others w pool values a y n = (
    (λ h.
        let (q, j, k, e) = h in
        (
          q,
          j,
          k,
          other_value r ok s v inv i p x w st' m pool in_pool values elsewhere q a j k n ∙ e,
        )),
    (λ h.
        let (q, j, k, e) = h in
        (
          q,
          j,
          k,
          sym (other_value r ok s v inv i p x w st' m pool in_pool values elsewhere q a j k n) ∙ e,
        )),
  )

  pub touched-IsAdded :
      (init : ℕ)
      → PoolAt r st' p (extra i)
      → root_value s.store p x ≡ none
      → ((a : ℕ) → root_value st' p a ≡ (if a == x then some init else root_value s.store p a))
      → IsAdded r s.store st' v v x init
  touched-IsAdded init pool free values = record {
    was_free = λ w h.
        let (q, j, k, e) = h in
        some-ne-none (
          sym e
          ∙ ap (λ y. root_value s.store y x)
              (same_pool r ok s v inv i p x (some init) st' m pool in_pool values elsewhere q j k)
          ∙ free);
    added = (
      p,
      (i, m),
      in_pool,
      new_value r ok s v inv i p x (some init) st' m pool in_pool values elsewhere,
    );
    others = touched-others (some init) pool values;
  }

  pub touched-IsRemoved :
      PoolAt r st' p (extra i)
      → ((a : ℕ) → root_value st' p a ≡ (if a == x then none else root_value s.store p a))
      → IsRemoved r s.store st' v v x
  touched-IsRemoved pool values = record {
    gone = λ w h.
        let (q, j, k, e) = h in
        some-ne-none (
          sym e
          ∙ ap (λ y. root_value st' y x)
              (same_pool r ok s v inv i p x none st' m pool in_pool values elsewhere q j k)
          ∙ new_value r ok s v inv i p x none st' m pool in_pool values elsewhere);
    others = touched-others none pool values;
  }

-- In a well-formed state with a free slot in the current pool, `create_fast` adds a boxroot.
pub create_fast-IsAdded :
    (r : Runtime) (ok : IsRuntime r) (dom : ℕ) (s : State) (v : View) (p init : ℕ)
    → IsHeap r s v
    → v (cur_key dom) ≡ p ∷ []
    → RoomAt r s.store p 1
    → is_pool_member init p ≡ false
    → (x : ℕ) × (st' : Store) × (create_fast p init s.store ≡ some (x, st'))
      × IsHeap r (record s { store = st' }) v
      × IsAdded r s.store st' v v x init
      × InPool r p x
create_fast-IsAdded r ok dom s v p init inv e (x, fs, ds, k) h =
    let (st', done, c) = create_fast-Created r ok s.store p init x fs ds 1 k h in
    let m : has p (v (cur_key dom)) ≡ true = ap (has p) e ∙ rw (eq→== p p refl) refl in
    let pool : PoolAt r st' p (extra (cur_key dom)) =
      subst (PoolAt r st' p) (ground arith) (fs, ds, c.pool) in
    (
      x,
      st',
      done,
      touched-IsHeap r ok s v inv (cur_key dom) p x (some init) st' m pool c.in_pool c.values
          c.elsewhere,
      touched-IsAdded r ok s v inv (cur_key dom) p x st' m c.in_pool c.elsewhere init pool
          c.was_free c.values,
      c.in_pool,
    )
