-- ===== src/Boxroot/Heap/Tags.antt =====
-- The class and the domain that a pool bears, which tell the ring that it is in.
use ocaml_boxroot.Prelude.{
  ℕ, ◌+◌, ◌-◌, ◌*◌, ◌/◌, ◌%◌, ◌≤◌, ◌≡◌, refl, sym, ◌∙◌, ap, subst, ◌≢◌, ◌⊎◌, inl, inr, Bool, true,
  false, ◌||◌, List, arith, has, Apart, upd, upd_self, upd_ne, ◌==◌, if◌then◌else◌, Bool-cases,
  eq_cases, eq→==, ne→==, ==→eq,
}
use mathlib.Core.Bool.{false≢true}
use ocaml_boxroot.Pool.{Store, FreeList, Class, young, old, untracked}
use ocaml_boxroot.Boxroot.State.{
  State, Place, of_domain, pop_place, push_place, set_place, set_fl, fl_of,
}
use ocaml_boxroot.Boxroot.Classes.{reclassify_pool, ring_of_class}
use ocaml_boxroot.Boxroot.Rings.{View, store-set_place}
use ocaml_boxroot.Boxroot.Reclassify.{
  target_key, settled, reclassified, free_list-push_place, free_list-pop_place,
}
use ocaml_boxroot.Boxroot.Heap.Moves.{has-settled}
use ocaml_boxroot.Boxroot.Heap.Touch.{in_one_place}

pub young-tracked : young ≢ untracked
young-tracked e =
    let apart : 0 ≡ 1 = ap (λ c. elim c as (λ _. ℕ) [ young ↦ 0 | old ↦ 0 | untracked ↦ 1 ]) e in
    absurd (omega (arith, apart))

pub old-tracked : old ≢ untracked
old-tracked e =
    let apart : 0 ≡ 1 = ap (λ c. elim c as (λ _. ℕ) [ young ↦ 0 | old ↦ 0 | untracked ↦ 1 ]) e in
    absurd (omega (arith, apart))

-- The class of the pools of a ring.
abbrev pub class_of : ℕ → Class
class_of i = if i % 4 == 0 then old else if i % 4 == 3 then untracked else young

-- The pool `q` bears what the ring `i` asks for; the pools of a free ring are empty.
pub record Tag (f : FreeList) (i : ℕ) : Type 0 where
  pub class : f.class ≡ class_of i
  pub empty : (i % 4 == 3) ≡ true → f.alloc_count ≡ 0
  pub domain : 4 ≤ i → f.domain_id ≡ (i - 4) / 4

pub record IsTagged (s : State) (v : View) : Type 0 where
  pub tags : (i q : ℕ) → has q (v i) ≡ true → Tag (s.store.free_list q) i
  pub no_free_orphans : (q : ℕ) → has q (v 3) ≡ false
  pub no_current_orphans : (q : ℕ) → has q (v 2) ≡ false

-- What `reclassify_pool` writes on the pool.
abbrev pub labelled_fl : (ℕ → FreeList) → ℕ → ℕ → Class → ℕ → FreeList
labelled_fl f p dom cl = upd f p (record (f p) { domain_id = dom; class = cl })

rotated-store :
    (b : Bool) (target : Place) (p : ℕ) (s : State)
    → (if b then set_place target p s else s).store ≡ s.store
rotated-store true target p s = store-set_place target p s
rotated-store false target p s = refl

pub free_list-reclassify_pool :
    (source : Place) (dom : ℕ) (cl : Class) (s : State) (p : ℕ)
    → (pop_place source s).0 ≡ p
    → (reclassify_pool source dom cl s).store.free_list ≡ labelled_fl s.store.free_list p dom cl
unfolding reclassify_pool
free_list-reclassify_pool source dom cl s p e =
    let p0 = (pop_place source s).0 in
    let s1 = (pop_place source s).1 in
    let s2 = set_fl p0 (record (fl_of p0 s1) { domain_id = dom; class = cl }) s1 in
    let target = of_domain dom (ring_of_class cl) in
    ap (λ (st : Store). st.free_list) (rotated-store _ target p0 (push_place p0 target s2))
    ∙ free_list-push_place p0 target s2
    ∙ ap (λ (m : ℕ → FreeList). labelled_fl m p0 dom cl) (free_list-pop_place source s)
    ∙ ap (λ x. labelled_fl s.store.free_list x dom cl) e

pub class_of-target : (dom : ℕ) (cl : Class) → class_of (target_key dom cl) ≡ cl
class_of-target dom old = rw (eq→== ((4 + 4 * dom + 0) % 4) 0 (omega arith)) refl
class_of-target dom young =
    rw
      (
        ne→== ((4 + 4 * dom + 1) % 4) 0 (λ e. omega (arith, e)),
        ne→== ((4 + 4 * dom + 1) % 4) 3 (λ e. omega (arith, e)),
      )
      refl
class_of-target dom untracked =
    rw
      (
        ne→== ((4 + 4 * dom + 3) % 4) 0 (λ e. omega (arith, e)),
        eq→== ((4 + 4 * dom + 3) % 4) 3 (omega arith),
      )
      refl

pub target-free : (dom : ℕ) (cl : Class) → (target_key dom cl % 4 == 3) ≡ true → cl ≡ untracked
target-free dom old e = let k = ==→eq ((4 + 4 * dom + 0) % 4) 3 e in absurd (omega (arith, k))
target-free dom young e = let k = ==→eq ((4 + 4 * dom + 1) % 4) 3 e in absurd (omega (arith, k))
target-free dom untracked e = refl

target-domain : (dom : ℕ) (cl : Class) → dom ≡ (target_key dom cl - 4) / 4
target-domain dom old = omega arith
target-domain dom young = omega arith
target-domain dom untracked = omega arith

pub target-ge : (dom : ℕ) (cl : Class) → 4 ≤ target_key dom cl
target-ge dom old = omega arith
target-ge dom young = omega arith
target-ge dom untracked = omega arith

Tag-target :
    (f : FreeList) (dom : ℕ) (cl : Class)
    → (cl ≡ untracked → f.alloc_count ≡ 0)
    → Tag (record f { domain_id = dom; class = cl }) (target_key dom cl)
Tag-target f dom cl h = record {
  class = sym (class_of-target dom cl);
  empty = λ e. h (target-free dom cl e);
  domain = λ l. target-domain dom cl;
}

module _ (s : State) (v : View) (source : Place) (dom : ℕ) (cl : Class) (b : Bool) (a x : ℕ)
    (rest : List ℕ) (tagged : IsTagged s v) (apart : (i j : ℕ) → i ≢ j → Apart (v i) (v j))
    (x-in : has x (v a) ≡ true) (sub : (q : ℕ) → has q rest ≡ true → has q (v a) ≡ true)
    (out : has x rest ≡ false) (front : (pop_place source s).0 ≡ x)
    (empty : cl ≡ untracked → (s.store.free_list x).alloc_count ≡ 0) where
  abbrev c : ℕ
  c = target_key dom cl

  abbrev after : View
  after = reclassified v a c b x rest

  from_source : (i q : ℕ) → has q (upd v a rest i) ≡ true → (q ≢ x) × (has q (v i) ≡ true)
  from_source i q m = elim (eq_cases i a) [
    | inl e ↦
        let m' : has q rest ≡ true =
          ap (λ k. has q (if k then rest else v i)) (sym (eq→== i a e)) ∙ m in
        (
          (λ k. false≢true (sym out ∙ subst (λ y. has y rest ≡ true) k m')),
          subst (λ j. has q (v j) ≡ true) (sym e) (sub q m'),
        )
    | inr n ↦
        let m' : has q (v i) ≡ true =
          ap (λ k. has q (if k then rest else v i)) (sym (ne→== i a n)) ∙ m in
        ((λ k. n (in_one_place v apart x a i x-in (subst (λ y. has y (v i) ≡ true) k m'))), m')
  ]

  -- A pool of the new rings is the one that moved, or was there before.
  from_before :
      (i q : ℕ) → has q (after i) ≡ true → ((q ≡ x) × (i ≡ c)) ⊎ ((q ≢ x) × (has q (v i) ≡ true))
  from_before i q m = elim (eq_cases i c) [
    | inl e ↦
        let m' : ((q == x) || has q (upd v a rest c)) ≡ true =
          sym (has-settled q b x (upd v a rest c))
          ∙ ap (λ k. has q (if k then settled b x (upd v a rest c) else upd v a rest c))
              (sym (eq→== c c refl))
          ∙ subst (λ j. has q (after j) ≡ true) e m in
        elim (Bool-cases (q == x)) [
          | inl k ↦ inl (==→eq q x k, e)
          | inr k ↦
              inr
                (subst (λ j. (q ≢ x) × (has q (v j) ≡ true)) (sym e) (from_source c q (rw k at m')))
        ]
    | inr n ↦ inr (
        from_source i q (
          ap (λ k. has q (if k then settled b x (upd v a rest c) else upd v a rest i))
            (sym (ne→== i c n))
          ∙ m))
  ]

  abbrev s' : State
  s' = reclassify_pool source dom cl s

  fl-lem : s'.store.free_list ≡ labelled_fl s.store.free_list x dom cl
  fl-lem = free_list-reclassify_pool source dom cl s x front

  none-before : (i q : ℕ) → i ≢ c → has q (v i) ≡ false → has q (after i) ≡ false
  none-before i q n h = elim (Bool-cases (has q (after i))) [
    | inr k ↦ k
    | inl k ↦ elim (from_before i q k) [
      | inl m ↦ absurd (n m.1)
      | inr m ↦ absurd (false≢true (sym h ∙ m.1))
    ]
  ]

  pub reclassify_pool-IsTagged : IsTagged s' after
  reclassify_pool-IsTagged = record {
    tags = λ i q m.
        subst (λ f. Tag (f q) i) (sym fl-lem)
          (elim (from_before i q m) [
            | inl k ↦
                subst (λ j. Tag (labelled_fl s.store.free_list x dom cl q) j) (sym k.1)
                  (subst (λ y. Tag (labelled_fl s.store.free_list x dom cl y) c) (sym k.0)
                    (subst (λ f. Tag f c) (sym (upd_self s.store.free_list x _))
                      (Tag-target (s.store.free_list x) dom cl empty)))
            | inr k ↦
                subst (λ f. Tag f i) (sym (upd_ne s.store.free_list x _ q k.0))
                  (tagged.tags i q k.1)
          ]);
    no_free_orphans = λ q.
        none-before 3 q (λ e. let l = target-ge dom cl in omega (arith, e, l))
          (tagged.no_free_orphans q);
    no_current_orphans = λ q.
        none-before 2 q (λ e. let l = target-ge dom cl in omega (arith, e, l))
          (tagged.no_current_orphans q);
  }
