-- ===== src/Boxroot/Heap/ValidateRing.antt =====
-- `validate_ring` of a ring whose pools pass their checks.
use ocaml_boxroot.Prelude.{
  ℕ, zero, suc, ◌≤◌, ◌<◌, ◌≡◌, refl, sym, ◌∙◌, ap, subst, ◌≢◌, inl, inr, true, false, ◌&&◌, ◌||◌,
  List, [], ◌∷◌, arith, has, NotIn, last, length, ◌==◌, Bool-cases, eq→==, ne→==, ==→eq,
}
use mathlib.Core.Bool.{false≢true}
use ocaml_boxroot.Words.{Runtime}
use ocaml_boxroot.Ring.{Links}
use ocaml_boxroot.Ring.Paths.{IsRing, PathTo, Linked}
use ocaml_boxroot.Pool.{Store, Class, young, old, untracked}
use ocaml_boxroot.Boxroot.Validate.{
  same_class, pool_checks, link_checks, validate_ring_loop, validate_ring,
}

module _ (r : Runtime) (st : Store) (dom : ℕ) (cl : Class) where
  links_good :
      (z x y : ℕ)
      → Linked st.links z x
      → Linked st.links x y
      → z ≢ 0
      → y ≢ 0
      → link_checks r st x ≡ true
  links_good z x y a b nz ny =
      let next : (st.links.next x == 0) ≡ false = ne→== _ _ (λ e. ny (sym b.0 ∙ e)) in
      let prev : (st.links.prev x == 0) ≡ false = ne→== _ _ (λ e. nz (sym a.1 ∙ e)) in
      let back : (st.links.prev (st.links.next x) == x) ≡ true =
        eq→== _ _ (ap st.links.prev b.0 ∙ b.1) in
      let forth : (st.links.next (st.links.prev x) == x) ≡ true =
        eq→== _ _ (ap st.links.next a.1 ∙ a.0) in
      ground (arith, next, prev, back, forth)

  -- From the pool `x` on, with `z` before it and `xs` behind it.
  from_pool :
      (n start z x : ℕ) (xs : List ℕ)
      → Linked st.links z x
      → PathTo st.links x xs
      → Linked st.links (last x xs) start
      → NotIn start xs
      → NotIn 0 (z ∷ x ∷ xs)
      → start ≢ 0
      → ((q : ℕ) → has q (x ∷ xs) ≡ true → pool_checks r st dom cl q ≡ true)
      → length xs < n
      → validate_ring_loop r n st start dom cl x ≡ true
  unfolding validate_ring_loop
  from_pool zero start z x xs before path back out nil s0 good fuel = absurd (omega (arith, fuel))
  from_pool (suc n) start z x [] before path back out nil s0 good fuel =
      let links = links_good z x start before back (λ e. nil.0 (sym e)) s0 in
      let pool = good x (ap (λ c. c || false) (eq→== x x refl)) in
      let both : (pool_checks r st dom cl x && link_checks r st x) ≡ true =
        ground (arith, links, pool) in
      rw (both, eq→== (st.links.next x) start back.0, validate_ring_loop) refl
  from_pool (suc n) start z x (y ∷ ys) before path back out nil s0 good fuel =
      let links = links_good z x y before path.0 (λ e. nil.0 (sym e)) (λ e. nil.1.1.0 (sym e)) in
      let pool = good x (ap (λ c. c || has x (y ∷ ys)) (eq→== x x refl)) in
      let both : (pool_checks r st dom cl x && link_checks r st x) ≡ true =
        ground (arith, links, pool) in
      let other : (st.links.next x == start) ≡ false = ne→== _ _ (λ k. out.0 (sym k ∙ path.0.0)) in
      let rest =
        from_pool n start x y ys path.0 path.1 back out.1 nil.1 s0
          (λ q h. good q (ground (arith, h))) (omega (arith, fuel)) in
      rw (both, other, validate_ring_loop)
        (ap (λ q. validate_ring_loop r n st start dom cl q) path.0.0 ∙ rest)

last_nonzero : (x : ℕ) (xs : List ℕ) → NotIn 0 (x ∷ xs) → last x xs ≢ 0
last_nonzero x [] h e = h.0 (sym e)
last_nonzero x (y ∷ ys) h e = last_nonzero y ys h.1 e

module _ (r : Runtime) (st : Store) (dom n : ℕ) (cl : Class) where
  pub validate_ring-IsRing :
      (h : ℕ) (xs : List ℕ)
      → IsRing st.links h xs
      → ((q : ℕ) → has q xs ≡ true → pool_checks r st dom cl q ≡ true)
      → length xs ≤ n
      → validate_ring r n st h dom cl ≡ true
  unfolding validate_ring
  validate_ring-IsRing h [] ring good fuel = rw (eq→== h 0 ring, validate_ring) refl
  validate_ring-IsRing h (x ∷ xs) ring good fuel =
      let nz : h ≢ 0 = λ e. ring.1.0 (sym e ∙ ring.0) in
      let z = last_nonzero x xs ring.1 in
      let x0 : x ≢ 0 = λ e. ring.1.0 (sym e) in
      rw (ne→== h 0 nz, validate_ring)
        (subst (λ y. validate_ring_loop r n st y dom cl y ≡ true) (sym ring.0)
          (from_pool r st dom cl n x (last x xs) x xs ring.4 ring.3 ring.4 ring.2.0
            ((λ e. z (sym e)), ring.1) x0 good (omega (arith, fuel))))

pub same_class_self : (cl : Class) → same_class cl cl ≡ true
same_class_self young = refl
same_class_self old = refl
same_class_self untracked = refl

nonzero_of_ring : (l : ℕ) (xs : List ℕ) (q : ℕ) → NotIn 0 xs → has q xs ≡ true → q ≢ 0
nonzero_of_ring l [] q out m e = false≢true m
nonzero_of_ring l (x ∷ xs) q out m e = elim (Bool-cases (q == x)) [
  | inl k ↦ out.0 (sym e ∙ ==→eq q x k)
  | inr k ↦ nonzero_of_ring l xs q out.1 (ap (λ b. b || has q xs) (sym k) ∙ m) e
]

pub ring-nonzero : (l : Links) (h q : ℕ) (xs : List ℕ) → IsRing l h xs → has q xs ≡ true → q ≢ 0
ring-nonzero l h q [] ring m = λ e. false≢true m
ring-nonzero l h q (x ∷ xs) ring m = nonzero_of_ring h (x ∷ xs) q ring.1 m
