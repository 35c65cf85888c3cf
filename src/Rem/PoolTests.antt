-- ===== src/Rem/PoolTests.antt =====
-- The pool of the tests, with one slot in each free list, as a well-formed pool.
use ocaml_boxroot.Prelude.{
  ℕ, ◌≡◌, refl, sym, ◌∙◌, ap, subst, inl, inr, true, false, ◌||◌, List, [], ◌∷◌, some, arith, has,
  last, ◌==◌, Bool-cases, ==→eq,
}
use mathlib.Core.Bool.{false≢true}
use ocaml_boxroot.Words.{is_young_block}
use ocaml_boxroot.Words.Samples.{runtime}
use ocaml_boxroot.Rem.{Rem, pool_roots_capacity, is_free_slot, untag_free_slot}
use ocaml_boxroot.Rem.Api.{rem_boxroot_create, rem_boxroot_delete}
use ocaml_boxroot.Rem.Validate.{validate_pool}
use ocaml_boxroot.Rem.Invariant.{slots_of, IsPool}
use ocaml_boxroot.Rem.Accepted.{validate_pool_accepts}
use ocaml_boxroot.Rem.Steps.{IsDealloc}
use ocaml_boxroot.Rem.Alloc.{IsAlloc}
use ocaml_boxroot.Rem.Create.{rem_boxroot_create-IsAlloc, rem_boxroot_delete-IsDealloc}
use ocaml_boxroot.Rem.Tests.{two_slots}

one_of :
    (a : ℕ) → (has a (16440 ∷ []) || has a (16432 ∷ [])) ≡ true → (a == 16440) ≡ false → a ≡ 16432
one_of a h n = ==→eq a 16432 (ground (arith, h, n))

two_slots-IsPool : IsPool two_slots.slots (two_slots.header 16384) 16384 (16440 ∷ []) (16432 ∷ [])
unfolding is_free_slot untag_free_slot
two_slots-IsPool = record {
  aligned = refl;
  major = (refl, (λ e. omega (arith, e)), refl);
  minor = (refl, (λ e. omega (arith, e)), refl);
  tagged = λ a h. elim (Bool-cases (a == 16440)) [
    | inl e ↦
        subst (λ x. is_free_slot (two_slots.slots x) 16384 ≡ true) (sym (==→eq a 16440 e)) refl
    | inr n ↦ subst (λ x. is_free_slot (two_slots.slots x) 16384 ≡ true) (sym (one_of a h n)) refl
  ];
  members = λ a h. elim (Bool-cases (a == 16440)) [
    | inl e ↦ subst (λ x. has x (slots_of 16384) ≡ true) (sym (==→eq a 16440 e)) refl
    | inr n ↦ subst (λ x. has x (slots_of 16384) ≡ true) (sym (one_of a h n)) refl
  ];
  major_distinct = (tt, tt);
  minor_distinct = (tt, tt);
  apart = λ a h. elim (Bool-cases (a == 16440)) [
    | inl e ↦ subst (λ x. has x (16432 ∷ []) ≡ false) (sym (==→eq a 16440 e)) refl
    | inr n ↦ absurd (false≢true (sym (ap (λ b. b || false) n) ∙ h))
  ];
  count = refl;
  others = λ a i h. elim (Bool-cases (a == 16432)) [
    | inl e ↦ absurd (
        false≢true (
          sym h
          ∙ subst (λ x. (has x (16440 ∷ []) || has x (16432 ∷ [])) ≡ true) (sym (==→eq a 16432 e))
              refl))
    | inr n ↦ elim (Bool-cases (a == 16440)) [
      | inl e ↦ absurd (
          false≢true (
            sym h
            ∙ subst (λ x. (has x (16440 ∷ []) || has x (16432 ∷ [])) ≡ true) (sym (==→eq a 16440 e))
                refl))
      | inr k ↦ rw (n, k) refl
    ]
  ];
  last_minor = λ x xs e. ap last_or e;
}
  where
    last_or : List ℕ → ℕ
    last_or [] = 0
    last_or (x ∷ xs) = last x xs

validate_pool_accepts_example : validate_pool pool_roots_capacity 16384 two_slots ≡ true
validate_pool_accepts_example =
    validate_pool_accepts two_slots 16384 (16440 ∷ []) (16432 ∷ []) two_slots-IsPool

abbrev kept : Rem
kept = record two_slots { remembered = 16432 ∷ [] }

minor_kept : (a : ℕ) → has a (16432 ∷ []) ≡ true → has a kept.remembered ≡ true
minor_kept a h = h

rem_boxroot_create-IsAlloc_example :
    (x : ℕ) × (t : Rem) × (rem_boxroot_create runtime 3 1002 kept ≡ some (x, t))
    × (fs : List ℕ) × (ms : List ℕ) × IsAlloc kept t 16384 x 1002
        (is_young_block runtime 1002)
        fs
        ms
unfolding is_free_slot
rem_boxroot_create-IsAlloc_example =
    rem_boxroot_create-IsAlloc runtime 3 1002 kept (16440 ∷ []) (16432 ∷ []) (λ e. omega (arith, e))
      (λ e. omega (arith, e)) two_slots-IsPool refl minor_kept

rem_boxroot_delete-IsDealloc_example :
    (fs : List ℕ) × (ms : List ℕ) × IsDealloc two_slots
      (rem_boxroot_delete runtime 16448 two_slots)
      16384
      16448
      fs
      ms
unfolding is_free_slot
rem_boxroot_delete-IsDealloc_example =
    rem_boxroot_delete-IsDealloc runtime two_slots 16384 16448 (16440 ∷ []) (16432 ∷ [])
      two_slots-IsPool (refl, refl)
