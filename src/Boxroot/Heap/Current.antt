-- ===== src/Boxroot/Heap/Current.antt =====
-- `move_current_to_young` keeps the state well formed.
use ocaml_boxroot.Prelude.{
  ℕ, suc, ◌+◌, ◌*◌, ◌/◌, ◌≤◌, ◌≡◌, refl, sym, ◌∙◌, ap, subst, ◌≢◌, none, some, ◌⊎◌, inl, inr, Bool,
  true, false, ◌||◌, List, [], ◌∷◌, arith, has, length, length-append, NotIn-has, Apart, ◌==◌,
  if◌then◌else◌, Bool-cases, eq_cases, eq→==, ne→==, ==→eq, ==→ne,
}
use mathlib.Core.Bool.{false≢true}
use ocaml_boxroot.Words.{Runtime, IsRuntime, is_pool_member, sle32, bxr_dealloc_threshold, decr32}
use ocaml_boxroot.Ring.Paths.{IsRing}
use ocaml_boxroot.Pool.{Store, young}
use ocaml_boxroot.Pool.Invariant.{live_count}
use ocaml_boxroot.Pool.Kept.{PoolAt, KeptAt, KeptAt-trans, PoolAt-KeptAt}
use ocaml_boxroot.Boxroot.State.{
  State, Place, of_domain, variable, current_ring, get_place, pop_place, fl_of, set_current_fl,
}
use ocaml_boxroot.Boxroot.Classes.{reclassify_pool, move_current_to_young}
use ocaml_boxroot.Boxroot.Rings.{IsRings, pop_place-IsRings}
use ocaml_boxroot.Boxroot.Reclassify.{settled}
use ocaml_boxroot.Boxroot.Moves.{uncounted, current_moved, move_current_to_young-IsRings}
use ocaml_boxroot.Boxroot.Heap.{
  View, extra, cur_key, current_of, InHeap, Ready, IsHeap, IsFrame, IsKept,
}
use ocaml_boxroot.Boxroot.Heap.Local.{IsHeap-rest, Ready-back, IsFrame-trans}
use ocaml_boxroot.Boxroot.Heap.Relabel.{IsRelabel, pop_place-IsRelabel, reclassify_pool-IsRelabel}
use ocaml_boxroot.Boxroot.Heap.Moves.{has-settled}
use ocaml_boxroot.Boxroot.Heap.Kept.{counted-IsFrame, counted-KeptAt, counted-PoolAt}

pub length-settled : (b : Bool) (p : ℕ) (xs : List ℕ) → length (settled b p xs) ≡ suc (length xs)
length-settled true p xs = refl
length-settled false p xs = length-append xs (p ∷ []) ∙ omega arith

pub decr32-current :
    (r : Runtime) (ok : IsRuntime r) (st : Store) (p : ℕ)
    → PoolAt r st p 1
    → decr32 (st.free_list p).alloc_count + 1 ≡ (st.free_list p).alloc_count + 0
decr32-current r ok st p (fs, ds, v) = omega (arith, v.fl_count, live_count r ok v)

module _ (r : Runtime) (ok : IsRuntime r) (dom : ℕ) (s : State) (v : View) (p : ℕ)
    (inv : IsHeap r s v) (ready : Ready s dom) (e : v (cur_key dom) ≡ p ∷ []) where
  abbrev cur : Place
  cur = of_domain dom current_ring

  abbrev s1 : State
  s1 = (pop_place cur s).1

  abbrev s2 : State
  s2 = uncounted p s1

  abbrev s3 : State
  s3 = reclassify_pool (variable p) dom young s2

  pop : IsRelabel r dom s s1
  pop = pop_place-IsRelabel r dom cur s refl

  put : IsRelabel r dom s2 s3
  put = reclassify_pool-IsRelabel r dom (variable p) young s2 tt

  frame : IsFrame dom s s3
  frame =
      IsFrame-trans dom s s2 s3
        (IsFrame-trans dom s s1 s2 pop.frame
          (counted-IsFrame r dom p (decr32 (fl_of p s1).alloc_count) s1))
        put.frame

  others : (q : ℕ) → q ≢ p → KeptAt r s.store s3.store q
  others q n =
      KeptAt-trans r s.store s2.store s3.store q
        (KeptAt-trans r s.store s1.store s2.store q (pop.kept q)
          (counted-KeptAt r dom p (decr32 (fl_of p s1).alloc_count) s1 q n))
        (put.kept q)

  p-in : has p (v (cur_key dom)) ≡ true
  p-in = ap (has p) e ∙ rw (eq→== p p refl) refl

  itself : PoolAt r s3.store p 0
  itself =
      let old : PoolAt r s.store p 1 =
        subst (PoolAt r s.store p) (ground arith) (inv.pools (cur_key dom) p p-in) in
      let popped = PoolAt-KeptAt r s.store s1.store p 1 (pop.kept p) old in
      PoolAt-KeptAt r s2.store s3.store p 0 (put.kept p) (
        counted-PoolAt r dom p (decr32 (fl_of p s1).alloc_count) s1 1 0 (omega arith)
          (decr32-current r ok s1.store p popped) popped)

  module _ (b : Bool) where
    abbrev v' : View
    v' = current_moved v dom p b

    v'-cur : v' (cur_key dom) ≡ []
    v'-cur =
        rw
          (
            ne→== (4 + 4 * dom + 2) (4 + 4 * dom + 1) (λ k. omega (arith, k)),
            eq→== (4 + 4 * dom + 2) (4 + 4 * dom + 2) refl,
          )
          refl

    p-out : (i : ℕ) → i ≢ cur_key dom → has p (v i) ≡ false
    p-out i n =
        NotIn-has p (v i)
          (subst (λ xs. Apart xs (v i)) e (inv.rings.apart (cur_key dom) i (λ k. n (sym k)))).0

    v'-young : v' (4 + 4 * dom + 1) ≡ settled b p (v (4 + 4 * dom + 1))
    v'-young = rw (eq→== (4 + 4 * dom + 1) (4 + 4 * dom + 1) refl) refl

    v'-other : (i : ℕ) → i ≢ 4 + 4 * dom + 1 → i ≢ cur_key dom → v' i ≡ v i
    v'-other i n m = rw (ne→== i (4 + 4 * dom + 1) n, ne→== i (4 + 4 * dom + 2) m) refl

    -- Where a pool of the new rings comes from.
    v'-back :
        (i q : ℕ)
        → has q (v' i) ≡ true
        → ((q ≡ p) × (extra i ≡ 0)) ⊎ ((q ≢ p) × (has q (v i) ≡ true))
    v'-back i q m = elim (eq_cases i (cur_key dom)) [
      | inl k ↦ absurd (false≢true (sym (ap (has q) v'-cur) ∙ subst (λ j. has q (v' j) ≡ true) k m))
      | inr k ↦ elim (eq_cases i (4 + 4 * dom + 1)) [
        | inl y ↦
            let m' : ((q == p) || has q (v (4 + 4 * dom + 1))) ≡ true =
              sym (has-settled q b p (v (4 + 4 * dom + 1)))
              ∙ ap (has q) (sym v'-young)
              ∙ subst (λ j. has q (v' j) ≡ true) y m in
            elim (Bool-cases (q == p)) [
              | inl same ↦ inl (==→eq q p same, ground arith)
              | inr other ↦
                  inr (==→ne q p other, subst (λ j. has q (v j) ≡ true) (sym y) (rw other at m'))
            ]
        | inr y ↦
            let m' : has q (v i) ≡ true = ap (has q) (sym (v'-other i y k)) ∙ m in
            inr
              ((λ same. false≢true (sym (p-out i k) ∙ subst (λ x. has x (v i) ≡ true) same m')), m')
      ]
    ]

    v'-forth : (q : ℕ) → InHeap v q → InHeap v' q
    v'-forth q (i, m) = elim (Bool-cases (q == p)) [
      | inl same ↦ (
        4 + 4 * dom + 1,
        ap (has q) v'-young ∙ has-settled q b p (v (4 + 4 * dom + 1)) ∙ rw same refl,
      )
      | inr other ↦ elim (eq_cases i (cur_key dom)) [
        | inl k ↦
            let m' : has q (p ∷ []) ≡ true =
              ap (has q) (sym e) ∙ subst (λ j. has q (v j) ≡ true) k m in
            absurd (false≢true (sym (rw other refl) ∙ m'))
        | inr k ↦ elim (eq_cases i (4 + 4 * dom + 1)) [
          | inl y ↦ (
            4 + 4 * dom + 1,
            ap (has q) v'-young
                ∙ has-settled q b p (v (4 + 4 * dom + 1))
                ∙ ground (arith, subst (λ j. has q (v j) ≡ true) y m),
          )
          | inr y ↦ (i, ap (has q) (v'-other i y k) ∙ m)
        ]
      ]
    ]

    v'-pools : (i q : ℕ) → has q (v' i) ≡ true → PoolAt r s3.store q (extra i)
    v'-pools i q m = elim (v'-back i q m) [
      | inl (same, none_more) ↦
          subst (λ x. PoolAt r s3.store x (extra i)) (sym same)
            (subst (PoolAt r s3.store p) (sym none_more) itself)
      | inr (n, m') ↦ PoolAt-KeptAt r s.store s3.store q (extra i) (others q n) (inv.pools i q m')
    ]

    InHeap-v' : (q : ℕ) → InHeap v' q → InHeap v q
    InHeap-v' q (i, m) = elim (v'-back i q m) [
      | inl (same, none_more) ↦
          (cur_key dom, subst (λ x. has x (v (cur_key dom)) ≡ true) (sym same) p-in)
      | inr (n, m') ↦ (i, m')
    ]

  pub moved-lem : move_current_to_young dom s ≡ set_current_fl dom s.empty_fl s3
  unfolding move_current_to_young
  moved-lem =
      let t = subst (IsRing s.store.links (get_place cur s)) e (inv.rings.rings cur tt) in
      let (front, _, _) = pop_place-IsRings s v cur p [] tt inv.rings e in
      rw (ne→== (get_place cur s) 0 (λ h. t.1.0 (sym h ∙ t.0)), front) refl

  abbrev s4 : State
  s4 = set_current_fl dom s.empty_fl s3

  abbrev full_enough : Bool
  full_enough = sle32 (decr32 (fl_of p s).alloc_count) (bxr_dealloc_threshold / 8)

  s4-IsRings : IsRings s4 (v' full_enough)
  s4-IsRings =
      subst (λ x. IsRings x (v' full_enough)) moved-lem
        (move_current_to_young-IsRings dom s v p inv.rings e).0

  s4-IsHeap : IsHeap r s4 (v' full_enough)
  unfolding set_current_fl
  s4-IsHeap =
      let rest = IsHeap-rest r dom s s3 v (v' full_enough) inv frame (InHeap-v' full_enough) in
      record {
        rings = s4-IsRings;
        pools = v'-pools full_enough;
        one_current = λ d. elim (eq_cases d dom) [
          | inl k ↦
              subst (λ x. length (v' full_enough (cur_key x)) ≤ 1) (sym k)
                (rw (v'-cur full_enough) (omega arith))
          | inr n ↦ rw (cur_other d n) (inv.one_current d)
        ];
        current = λ d h. elim (eq_cases d dom) [
          | inl k ↦
              ap (λ b. if b then s.empty_fl else s3.current_fl d) (eq→== d dom k)
              ∙ sym frame.empty_fl
              ∙ sym (
                  ap (λ xs. current_of xs s3.empty_fl)
                    (ap (λ x. v' full_enough (cur_key x)) k ∙ v'-cur full_enough))
          | inr n ↦
              ap (λ b. if b then s.empty_fl else s3.current_fl d) (ne→== d dom n)
              ∙ frame.current_fl d
              ∙ inv.current d (Ready-back dom d s s3 ready frame h)
              ∙ sym (ap (λ xs. current_of xs s.empty_fl) (cur_other d n))
              ∙ ap (current_of (v' full_enough (cur_key d))) (sym frame.empty_fl)
        ];
        trap = rest.0;
        trap_apart = rest.1;
        fresh = rest.2;
      }
    where
      cur_other : (d : ℕ) → d ≢ dom → v' full_enough (cur_key d) ≡ v (cur_key d)
      cur_other d n =
          v'-other full_enough (cur_key d) (λ k. omega (arith, k)) (λ k. n (omega (arith, k)))

  s4-IsKept : IsKept r dom s s4 v (v' full_enough)
  unfolding set_current_fl
  s4-IsKept = record {
    heap = s4-IsHeap;
    back = InHeap-v' full_enough;
    forth = v'-forth full_enough;
    values = λ q a m i.
        ap (λ (w : ℕ). if is_pool_member w q then none else some w)
          ((put.kept q).slots a i ∙ (pop.kept q).slots a i);
    memory = frame.memory;
    empty_fl = frame.empty_fl;
    cached_dom_id = frame.cached_dom_id;
    thread_has_lock = frame.thread_has_lock;
    status = frame.status;
    ready = frame.ready;
  }

  -- The current pool goes to the young ring, and the domain has no current pool.
  pub move_current_to_young-IsKept :
      IsKept r dom s (move_current_to_young dom s) v (v' full_enough)
      × (v' full_enough (cur_key dom) ≡ [])
      × (has p (v' full_enough (4 + 4 * dom + 1)) ≡ true)
      × (length (v' full_enough (4 + 4 * dom + 1)) ≡ suc (length (v (4 + 4 * dom + 1))))
  move_current_to_young-IsKept = (
    subst (λ x. IsKept r dom s x v (v' full_enough)) (sym moved-lem) s4-IsKept,
    v'-cur full_enough,
    ap (has p) (v'-young full_enough)
        ∙ has-settled p full_enough p (v (4 + 4 * dom + 1))
        ∙ rw (eq→== p p refl) refl,
    ap length (v'-young full_enough) ∙ length-settled full_enough p (v (4 + 4 * dom + 1)),
  )
