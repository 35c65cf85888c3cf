-- ===== src/Boxroot/Reclassify.antt =====
-- `reclassify_pool` and the operations that are made of it, on the rings as lists.
use ocaml_boxroot.Prelude.{
  ℕ, ◌/◌, ◌≡◌, refl, ◌∙◌, ap, subst, Bool, true, false, List, [], ◌∷◌, ◌++◌, arith, upd,
  if◌then◌else◌, Apart, Bool-cases, inl, inr, eq→==,
}
use ocaml_boxroot.Words.{sle32, bxr_dealloc_threshold}
use ocaml_boxroot.Ring.Paths.{IsRing}
use ocaml_boxroot.Pool.{Store, FreeList, Class, is_not_too_full, write_fl}
use ocaml_boxroot.Boxroot.State.{
  State, Place, of_domain, orphaned, variable, get_place, set_place, push_place, pop_place, set_fl,
  fl_of,
}
use ocaml_boxroot.Boxroot.Classes.{ring_of_class, reclassify_pool}
use ocaml_boxroot.Boxroot.Rings.{
  View, key, IsGlobal, IsRings, IsDetached, store-set_place, pop_place-IsRings, push_place-IsRings,
  IsRings-rotate,
}

-- Where a pool is put into a ring: not-too-full pools first.
abbrev pub settled : Bool → ℕ → List ℕ → List ℕ
settled b x ys = if b then x ∷ ys else ys ++ x ∷ []

pub IsRings-ext : (s : State) (v w : View) → ((i : ℕ) → v i ≡ w i) → IsRings s v → IsRings s w
IsRings-ext s v w h inv = record {
  rings = λ pl g. subst (IsRing s.store.links (get_place pl s)) (h (key pl)) (inv.rings pl g);
  apart = λ i j n. subst (λ xs. Apart xs (w j)) (h i) (subst (Apart (v i)) (h j) (inv.apart i j n));
}

pub get_place-store :
    (pl : Place) (st : Store) (s : State) → get_place pl (record s { store = st }) ≡ get_place pl s
get_place-store (of_domain d f) st s = refl
get_place-store (orphaned f) st s = refl
get_place-store (variable p) st s = refl

pub IsRings-set_fl :
    (p : ℕ) (f : FreeList) (s : State) (v : View) → IsRings s v → IsRings (set_fl p f s) v
IsRings-set_fl p f s v inv = record {
  rings = λ pl g. rw (get_place-store pl (write_fl p f s.store) s) (inv.rings pl g);
  apart = inv.apart;
}

pub free_list-push_place :
    (x : ℕ) (pl : Place) (s : State) → (push_place x pl s).store.free_list ≡ s.store.free_list
unfolding push_place
free_list-push_place x pl s = ap (λ (st : Store). st.free_list) (store-set_place pl _ _)

pub free_list-pop_place :
    (pl : Place) (s : State) → (pop_place pl s).1.store.free_list ≡ s.store.free_list
unfolding pop_place
free_list-pop_place pl s = ap (λ (st : Store). st.free_list) (store-set_place pl _ _)

-- `reclassify_pool` behind `ring_pop`.
abbrev pub settle : ℕ → ℕ → Class → State → State
settle p dom cl s1 =
    let target = of_domain dom (ring_of_class cl) in
    let s2 = set_fl p (record (fl_of p s1) { domain_id = dom; class = cl }) s1 in
    let s3 = push_place p target s2 in
    if is_not_too_full p s3.store then set_place target p s3 else s3

abbrev pub target_key : ℕ → Class → ℕ
target_key dom cl = key (of_domain dom (ring_of_class cl))

upd-upd_ext : (v : View) (k : ℕ) (xs ys : List ℕ) (i : ℕ) → upd (upd v k xs) k ys i ≡ upd v k ys i
upd-upd_ext v k xs ys i = ground arith

set_fl_self :
    (p dom : ℕ) (cl : Class) (s : State)
    → ((set_fl p (record (fl_of p s) { domain_id = dom; class = cl }) s).store.free_list
        p).alloc_count
      ≡ (s.store.free_list p).alloc_count
set_fl_self p dom cl s = rw (eq→== p p refl)

not_too_full-settle :
    (p dom : ℕ) (cl : Class) (s : State)
    → is_not_too_full p
        (push_place p
          (of_domain dom (ring_of_class cl))
          (set_fl p (record (fl_of p s) { domain_id = dom; class = cl }) s)).store
      ≡ is_not_too_full p s.store
not_too_full-settle p dom cl s =
    let s2 = set_fl p (record (fl_of p s) { domain_id = dom; class = cl }) s in
    ap (λ (n : ℕ). sle32 n (bxr_dealloc_threshold / 8))
      (ap (λ (m : ℕ → FreeList). (m p).alloc_count)
          (free_list-push_place p (of_domain dom (ring_of_class cl)) s2)
        ∙ set_fl_self p dom cl s)

pub settle-IsRings :
    (p dom : ℕ) (cl : Class) (s : State) (v : View)
    → IsRings s v
    → IsDetached s v p
    → IsRings
        (settle p dom cl s)
        (upd v (target_key dom cl) (settled (is_not_too_full p s.store) p (v (target_key dom cl))))
settle-IsRings p dom cl s v inv d =
    let target = of_domain dom (ring_of_class cl) in
    let s2 = set_fl p (record (fl_of p s) { domain_id = dom; class = cl }) s in
    let pushed =
      push_place-IsRings s2 v target p tt (IsRings-set_fl p _ s v inv)
        (record { single = d.single; outside = d.outside }) in
    rw (not_too_full-settle p dom cl s) (elim (Bool-cases (is_not_too_full p s.store)) [
      | inl e ↦ rw e (
          IsRings-ext _ _ _ (upd-upd_ext v (target_key dom cl) _ _) (
            IsRings-rotate (push_place p target s2) _ target p (v (target_key dom cl)) tt pushed
              (rw (eq→== (target_key dom cl) (target_key dom cl) refl))))
      | inr e ↦ rw e pushed
    ])

-- The rings after the first pool of a place has been reclassified.
abbrev pub reclassified : View → ℕ → ℕ → Bool → ℕ → List ℕ → View
reclassified v source target b x xs =
    upd (upd v source xs) target (settled b x (upd v source xs target))

pub not_too_full-pop_place :
    (p : ℕ) (pl : Place) (s : State)
    → is_not_too_full p (pop_place pl s).1.store ≡ is_not_too_full p s.store
not_too_full-pop_place p pl s =
    ap (λ (m : ℕ → FreeList). sle32 (m p).alloc_count (bxr_dealloc_threshold / 8))
      (free_list-pop_place pl s)

-- If the ring heads of the domains and the orphans lead to rings with no common pool and the
-- source's first pool is `x`, `reclassify_pool` takes `x` out of the source and puts it into the
-- ring of the class, in front if it is not too full and else at the back; all other pools stay in
-- their rings, in order.
pub reclassify_pool-IsRings :
    (s : State) (v : View) (source : Place) (dom : ℕ) (cl : Class) (x : ℕ) (xs : List ℕ)
    → IsGlobal source
    → IsRings s v
    → v (key source) ≡ x ∷ xs
    → IsRings (reclassify_pool source dom cl s) (
        reclassified v
          (key source)
          (key (of_domain dom (ring_of_class cl)))
          (is_not_too_full x s.store)
          x
          xs)
unfolding reclassify_pool
reclassify_pool-IsRings s v source dom cl x xs g inv e =
    let (front, rest, d) = pop_place-IsRings s v source x xs g inv e in
    rw front (
      subst
        (λ b.
          IsRings (settle x dom cl (pop_place source s).1)
            (reclassified v (key source) (key (of_domain dom (ring_of_class cl))) b x xs))
        (not_too_full-pop_place x source s)
        (settle-IsRings x dom cl (pop_place source s).1 (upd v (key source) xs) rest d))

-- No count of allocations is changed.
pub alloc_count-reclassify_pool :
    (s : State) (source : Place) (dom : ℕ) (cl : Class) (q : ℕ)
    → is_not_too_full q (reclassify_pool source dom cl s).store ≡ is_not_too_full q s.store
unfolding reclassify_pool
alloc_count-reclassify_pool s source dom cl q =
    let p = (pop_place source s).0 in
    let s1 = (pop_place source s).1 in
    let s2 = set_fl p (record (fl_of p s1) { domain_id = dom; class = cl }) s1 in
    let target = of_domain dom (ring_of_class cl) in
    ap (λ (n : ℕ). sle32 n (bxr_dealloc_threshold / 8))
      (ap (λ (st : Store). (st.free_list q).alloc_count)
          (rotated (is_not_too_full p (push_place p target s2).store) target p
            (push_place p target s2))
        ∙ ap (λ (m : ℕ → FreeList). (m q).alloc_count) (free_list-push_place p target s2)
        ∙ relabelled p q s1
        ∙ ap (λ (m : ℕ → FreeList). (m q).alloc_count) (free_list-pop_place source s))
  where
    rotated :
        (b : Bool) (pl : Place) (h : ℕ) (s : State)
        → (if b then set_place pl h s else s).store ≡ s.store
    rotated true pl h s = store-set_place pl h s
    rotated false pl h s = refl

    relabelled :
        (p q : ℕ) (s : State)
        → ((set_fl p (record (fl_of p s) { domain_id = dom; class = cl }) s).store.free_list
            q).alloc_count
          ≡ (s.store.free_list q).alloc_count
    relabelled p q s = ground arith
