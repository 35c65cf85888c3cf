-- ===== src/Rem/Alloc.antt =====
-- Allocation in a well-formed pool of rem_boxroot.c, and the remembered set.
use ocaml_boxroot.Prelude.{
  ℕ, ◌+◌, ◌≡◌, refl, sym, ◌∙◌, ap, subst, ◌≢◌, inl, inr, Bool, true, false, ◌||◌, List, [], ◌∷◌,
  arith, has, length, upd, upd_self, upd_ne, ◌==◌, Bool-cases, eq→==, ne→==,
}
use mathlib.Core.Bool.{false≢true}
use ocaml_boxroot.Words.{incr32}
use ocaml_boxroot.Rem.{
  Rem, Header, pool_roots_capacity, is_free_slot, untag_free_slot, free_list_pop, alloc_in_pool,
}
use ocaml_boxroot.Rem.Laws.{FreeChain}
use ocaml_boxroot.Rem.Invariant.{slots_of, IsPool}
use ocaml_boxroot.Rem.Steps.{pop_major-IsPool, pop_minor-IsPool}

-- The pool with the new root `x`.
pub record IsAlloc (s t : Rem) (p x w : ℕ) (for_young : Bool) (fs ms : List ℕ) : Type 0 where
  pub pool : IsPool t.slots (t.header p) p fs ms
  pub was_free : is_free_slot (s.slots x) p ≡ true
  pub in_pool : has x (slots_of p) ≡ true
  pub now : t.slots x ≡ w
  pub others : (a : ℕ) → a ≢ x → t.slots a ≡ s.slots a
  pub remembered : for_young ≡ true → has x t.remembered ≡ true
  pub minor : (a : ℕ) → has a ms ≡ true → has a t.remembered ≡ true

module _ (s : Rem) (p w : ℕ) (for_young : Bool) (fs ms : List ℕ)
    (v : IsPool s.slots (s.header p) p fs ms) (plain : is_free_slot w p ≡ false)
    (minor_slots : (a : ℕ) → has a ms ≡ true → has a s.remembered ≡ true) where
  abbrev h : Header
  h = record (s.header p) { alloc_count = incr32 (s.header p).alloc_count }

  -- The value is written to the slot that has been taken.
  abbrev filled : ℕ × Rem → Rem
  filled res = record res.1 { slots = upd res.1.slots res.0 w }

  abbrev Allocs : ℕ × Rem → Type 0
  Allocs res = (fs' : List ℕ) × (ms' : List ℕ) × IsAlloc s (filled res) p res.0 w for_young fs' ms'

  one_more : incr32 (s.header p).alloc_count ≡ (s.header p).alloc_count + 1
  one_more = omega (arith, v.count)

  took-Allocs :
      (x : ℕ) (g : Header) (rem : List ℕ) (fs' ms' : List ℕ)
      → (has x fs || has x ms) ≡ true
      → IsPool (upd s.slots x w) g p fs' ms'
      → (for_young ≡ true → has x rem ≡ true)
      → ((a : ℕ) → has a ms' ≡ true → has a rem ≡ true)
      → Allocs (x, record s { header = upd s.header p g; remembered = rem })
  took-Allocs x g rem fs' ms' m k young minor = (
    fs',
    ms',
    record {
      pool = subst (λ f. IsPool (upd s.slots x w) f p fs' ms') (sym (upd_self s.header p g)) k;
      was_free = v.tagged x m;
      in_pool = v.members x m;
      now = upd_self s.slots x w;
      others = λ a n. upd_ne s.slots x w a n;
      remembered = young;
      minor = minor;
    },
  )

  abbrev major_taken : ℕ → List ℕ → ℕ × Rem
  major_taken x rem = (
    x,
    record s {
      header = upd s.header p (record h { major_free_list = untag_free_slot (s.slots x) });
      remembered = rem;
    },
  )

  abbrev minor_taken : ℕ → ℕ × Rem
  minor_taken x = (
    x,
    record s {
      header = upd s.header p (record h { minor_free_list = untag_free_slot (s.slots x) });
    },
  )

  major-Allocs :
      (x : ℕ) (xs rem : List ℕ)
      → fs ≡ x ∷ xs
      → (for_young ≡ true → has x rem ≡ true)
      → ((a : ℕ) → has a ms ≡ true → has a rem ≡ true)
      → Allocs (major_taken (s.header p).major_free_list rem)
  major-Allocs x xs rem e young minor =
      let v' = subst (λ l. IsPool s.slots (s.header p) p l ms) e v in
      let m : (has x fs || has x ms) ≡ true =
        ap (λ l. has x l || has x ms) e ∙ (let k = eq→== x x refl in ground (arith, k)) in
      subst (λ z. Allocs (major_taken z rem)) (sym v'.major.0)
        (took-Allocs x _ rem xs ms m
          (pop_major-IsPool s.slots (s.header p) p x h.alloc_count w xs ms plain one_more v') young
          minor)

  minor-Allocs :
      (x : ℕ) (xs : List ℕ) → ms ≡ x ∷ xs → Allocs (minor_taken (s.header p).minor_free_list)
  minor-Allocs x xs e =
      let v' = subst (λ l. IsPool s.slots (s.header p) p fs l) e v in
      let at : has x ms ≡ true = ap (has x) e ∙ ap (λ b. b || has x xs) (eq→== x x refl) in
      subst (λ z. Allocs (minor_taken z)) (sym v'.minor.0)
        (took-Allocs x _ s.remembered fs xs (ground (arith, at))
          (pop_minor-IsPool s.slots (s.header p) p x h.alloc_count w fs xs plain one_more v')
          (λ y. minor_slots x at) (λ a k. minor_slots a (ap (has a) e ∙ ground (arith, k))))

  empty_list : (a : ℕ) (xs : List ℕ) → FreeChain s.slots p a xs → xs ≡ [] → (a == p) ≡ true
  empty_list a xs c e = eq→== a p (subst (FreeChain s.slots p a) e c)

  some_list : (a x : ℕ) (xs ys : List ℕ) → FreeChain s.slots p a ys → ys ≡ x ∷ xs → (a == p) ≡ false
  some_list a x xs ys c e =
      let c' = subst (FreeChain s.slots p a) e c in ne→== a p (λ k. c'.1 (sym c'.0 ∙ k))

  abbrev major : ℕ
  major = (s.header p).major_free_list

  abbrev minor : ℕ
  minor = (s.header p).minor_free_list

  young_minor : (minor == p) ≡ false → alloc_in_pool true p s ≡ minor_taken minor
  unfolding alloc_in_pool free_list_pop
  young_minor e = rw (e, alloc_in_pool) refl

  young_major :
      (minor == p) ≡ true → alloc_in_pool true p s ≡ major_taken major (major ∷ s.remembered)
  unfolding alloc_in_pool free_list_pop
  young_major e = rw (e, alloc_in_pool) refl

  other_major : (major == p) ≡ false → alloc_in_pool false p s ≡ major_taken major s.remembered
  unfolding alloc_in_pool free_list_pop
  other_major e = rw (e, alloc_in_pool) refl

  other_minor : (major == p) ≡ true → alloc_in_pool false p s ≡ minor_taken minor
  unfolding alloc_in_pool free_list_pop
  other_minor e = rw (e, alloc_in_pool) refl

  both_empty : fs ≡ [] → ms ≡ [] → (s.header p).alloc_count ≡ pool_roots_capacity
  both_empty e e' = let a = ap length e in let b = ap length e' in omega (arith, v.count, a, b)

  more_remembered : (x : ℕ) (a : ℕ) → has a ms ≡ true → has a (x ∷ s.remembered) ≡ true
  more_remembered x a k = let m = minor_slots a k in ground (arith, m)

  young-Allocs :
      for_young ≡ true
      → (s.header p).alloc_count ≢ pool_roots_capacity
      → Allocs (alloc_in_pool true p s)
  young-Allocs y room = by_list ms fs refl refl
    where
      by_list : (xs ys : List ℕ) → ms ≡ xs → fs ≡ ys → Allocs (alloc_in_pool true p s)
      by_list (x ∷ xs) ys e k =
          subst Allocs (sym (young_minor (some_list minor x xs ms v.minor e))) (minor-Allocs x xs e)
      by_list [] [] e k = absurd (room (both_empty k e))
      by_list [] (x ∷ xs) e k =
          let at : x ≡ major = sym (subst (FreeChain s.slots p major) k v.major).0 in
          subst Allocs (sym (young_major (empty_list minor ms v.minor e))) (
            major-Allocs x xs (major ∷ s.remembered) k
              (λ z. ap (λ b. b || has x s.remembered) (eq→== x major at)) (more_remembered major))

  other-Allocs :
      for_young ≡ false
      → (s.header p).alloc_count ≢ pool_roots_capacity
      → Allocs (alloc_in_pool false p s)
  other-Allocs y room = by_list fs ms refl refl
    where
      by_list : (xs ys : List ℕ) → fs ≡ xs → ms ≡ ys → Allocs (alloc_in_pool false p s)
      by_list (x ∷ xs) ys e k =
          subst Allocs (sym (other_major (some_list major x xs fs v.major e)))
            (major-Allocs x xs s.remembered e (λ z. absurd (false≢true (sym y ∙ z))) minor_slots)
      by_list [] [] e k = absurd (room (both_empty e k))
      by_list [] (x ∷ xs) e k =
          subst Allocs (sym (other_minor (empty_list major fs v.major e))) (minor-Allocs x xs k)

  pub alloc_in_pool-Allocs :
      (s.header p).alloc_count ≢ pool_roots_capacity → Allocs (alloc_in_pool for_young p s)
  alloc_in_pool-Allocs room = elim (Bool-cases for_young) [
    | inl y ↦ subst (λ b. Allocs (alloc_in_pool b p s)) (sym y) (young-Allocs y room)
    | inr y ↦ subst (λ b. Allocs (alloc_in_pool b p s)) (sym y) (other-Allocs y room)
  ]
