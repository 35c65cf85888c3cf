-- ===== src/Rem/Accepted.antt =====
-- `validate_pool` of rem_boxroot.c accepts every well-formed pool.
use ocaml_boxroot.Prelude.{
  ℕ, zero, suc, ◌+◌, ◌*◌, ◌/◌, ◌%◌, ◌≤◌, ◌≡◌, refl, sym, ◌∙◌, ap, subst, inl, inr, Bool, true,
  false, not, ◌&&◌, ◌||◌, List, [], ◌∷◌, ◌++◌, some, arith, has, has_in, last, length,
  length-append, filter, filter-eq, length-filter-not, length-filter-has, All-of, has-NotIn, Apart,
  Distinct-append, ◌==◌, Bool-cases, eq→==, ne→==, ==→eq,
}
use ocaml_boxroot.Pool.Count.{addrs, length-addrs, Distinct-addrs, addrs-index}
use ocaml_boxroot.Pool.Invariant.{has-append}
use ocaml_boxroot.Rem.{
  Rem, pool_size, sizeof_header, pool_roots_capacity, is_free_slot, untag_free_slot,
}
use ocaml_boxroot.Rem.Laws.{FreeChain}
use ocaml_boxroot.Rem.Validate.{validate_roots, validate_free_list, validate_pool}
use ocaml_boxroot.Rem.Invariant.{slots_of, IsPool}

odd-is_free_slot : (v p : ℕ) → p % pool_size ≡ 0 → is_free_slot v p ≡ true → (v % 2 == 1) ≡ true
unfolding is_free_slot
odd-is_free_slot v p al h =
    let e = ==→eq (p / 2 * 2 + 1) (v / pool_size * pool_size + v % 2) h in
    eq→== (v % 2) 1 (omega (arith, e, al))

validate_roots-counts :
    (n p a : ℕ) (m : ℕ → ℕ)
    → validate_roots n p a m ≡ (
      length (filter (λ x. is_free_slot (m x) p) (addrs a n)),
      length (filter (λ x. not (is_free_slot (m x) p)) (addrs a n)),
    )
unfolding validate_roots
validate_roots-counts zero p a m = refl
validate_roots-counts (suc n) p a m = elim (Bool-cases (is_free_slot (m a) p)) [
  | inl e ↦
      rw (e, validate_roots-counts n p (a + 8) m, validate_roots)
        (ap (λ k. (k, length (filter (λ x. not (is_free_slot (m x) p)) (addrs (a + 8) n))))
          (omega arith))
  | inr e ↦
      rw (e, validate_roots-counts n p (a + 8) m, validate_roots)
        (ap (λ k. (length (filter (λ x. is_free_slot (m x) p) (addrs (a + 8) n)), k)) (omega arith))
]

validate_free_list-FreeChain :
    (n p a : ℕ) (m : ℕ → ℕ) (xs : List ℕ)
    → p % pool_size ≡ 0
    → FreeChain m p a xs
    → ((x : ℕ) → has x xs ≡ true → is_free_slot (m x) p ≡ true)
    → length xs ≤ n
    → validate_free_list n p a m ≡ some (length xs)
unfolding validate_free_list
validate_free_list-FreeChain zero p a m [] al c t fuel = rw (eq→== a p c) refl
validate_free_list-FreeChain (suc n) p a m [] al c t fuel =
    rw (eq→== a p c, validate_free_list) refl
validate_free_list-FreeChain zero p a m (x ∷ xs) al c t fuel = absurd (omega (arith, fuel))
validate_free_list-FreeChain (suc n) p a m (x ∷ xs) al c t fuel =
    let free = t x (ap (λ b. b || has x xs) (eq→== x x refl)) in
    let odd = odd-is_free_slot (m x) p al free in
    let good : ((m x % 2 == 1) && is_free_slot (m x) p) ≡ true = ground (arith, free, odd) in
    let rest =
      validate_free_list-FreeChain n p (untag_free_slot (m x)) m xs al c.2
        (λ y h. t y (ground (arith, h))) (omega (arith, fuel)) in
    subst (λ y. validate_free_list (suc n) p y m ≡ some (length (x ∷ xs))) (sym c.0)
      (rw (ne→== x p c.1, good, rest, validate_free_list) (ap some (omega arith)))

Apart-of_has : (xs ys : List ℕ) → ((a : ℕ) → has a xs ≡ true → has a ys ≡ false) → Apart xs ys
Apart-of_has [] ys h = tt
Apart-of_has (x ∷ xs) ys h = (
  has-NotIn x ys (h x (ap (λ b. b || has x xs) (eq→== x x refl))),
  Apart-of_has xs ys (λ a k. h a (ground (arith, k))),
)

and4 : (a b c d : Bool) → a ≡ true → b ≡ true → c ≡ true → d ≡ true → (a && b && c && d) ≡ true
and4 a b c d ha hb hc hd = rw (ha, hb, hc, hd) refl

module _ (s : Rem) (p : ℕ) (fs ms : List ℕ) (v : IsPool s.slots (s.header p) p fs ms) where
  abbrev free : ℕ → Bool
  free a = is_free_slot (s.slots a) p

  free-has : (a : ℕ) → has a (slots_of p) ≡ true → free a ≡ has_in (fs ++ ms) a
  free-has a h = elim (Bool-cases (has a fs || has a ms)) [
    | inl e ↦ v.tagged a e ∙ sym (has-append a fs ms ∙ e)
    | inr e ↦ v.others a h e ∙ sym (has-append a fs ms ∙ e)
  ]

  -- The slots of the two free lists are the free ones.
  pub free_count : length (filter free (slots_of p)) ≡ length (fs ++ ms)
  free_count =
      ap length (filter-eq free (has_in (fs ++ ms)) (slots_of p) (All-of (slots_of p) free-has))
      ∙ length-filter-has (fs ++ ms) (slots_of p)
          (All-of (fs ++ ms) (λ a h. v.members a (sym (has-append a fs ms) ∙ h)))
          (Distinct-append fs ms v.major_distinct v.minor_distinct (Apart-of_has fs ms v.apart))
          (Distinct-addrs (p + sizeof_header) pool_roots_capacity)

  -- The count of allocations is the number of slots that hold a value.
  pub full_count : length (filter (λ a. not (free a)) (slots_of p)) ≡ (s.header p).alloc_count
  full_count =
      let all = length-filter-not free (slots_of p) in
      let capacity = length-addrs (p + sizeof_header) pool_roots_capacity in
      omega (arith, all, capacity, free_count, length-append fs ms, v.count)

  tagged-left : (a : ℕ) → has a fs ≡ true → free a ≡ true
  tagged-left a h = v.tagged a (ground (arith, h))

  tagged-right : (a : ℕ) → has a ms ≡ true → free a ≡ true
  tagged-right a h = v.tagged a (ground (arith, h))

  last-has : (x : ℕ) (xs : List ℕ) → has (last x xs) (x ∷ xs) ≡ true
  last-has x [] = ap (λ b. b || false) (eq→== x x refl)
  last-has x (y ∷ ys) = let h = last-has y ys in ground (arith, h)

  -- The assertion on the last slot of the minor free list.
  last_good :
      ((s.header p).minor_free_list == p)
        || not ((s.header p).last_minor_free_slot == 0)
          && is_free_slot (s.slots (s.header p).last_minor_free_slot) p
      ≡ true
  last_good = by_list ms refl
    where
      by_list :
          (xs : List ℕ)
          → ms ≡ xs
          → ((s.header p).minor_free_list == p)
              || not ((s.header p).last_minor_free_slot == 0)
                && is_free_slot (s.slots (s.header p).last_minor_free_slot) p
            ≡ true
      by_list [] e =
          let c : ((s.header p).minor_free_list == p) ≡ true =
            eq→== _ _ (subst (FreeChain s.slots p (s.header p).minor_free_list) e v.minor) in
          ground (arith, c)
      by_list (x ∷ xs) e =
          let same = v.last_minor x xs e in
          let m : has (last x xs) ms ≡ true = ap (has (last x xs)) e ∙ last-has x xs in
          let good : is_free_slot (s.slots (s.header p).last_minor_free_slot) p ≡ true =
            ap (λ y. is_free_slot (s.slots y) p) same ∙ tagged-right (last x xs) m in
          let (i, lt, at) =
            addrs-index (last x xs) (p + sizeof_header) pool_roots_capacity
              (v.members (last x xs) (ground (arith, m))) in
          let nz : ((s.header p).last_minor_free_slot == 0) ≡ false =
            ne→== _ _ (λ z. omega (arith, z, same, at)) in
          ground (arith, good, nz)

  -- With fuel for the capacity of a pool, `validate_pool` of rem_boxroot.c accepts every well-
  -- formed pool.
  pub validate_pool_accepts : validate_pool pool_roots_capacity p s ≡ true
  unfolding validate_pool
  validate_pool_accepts =
      let long = length-append fs ms in
      let major =
        validate_free_list-FreeChain pool_roots_capacity p (s.header p).major_free_list s.slots fs
          v.aligned v.major tagged-left (omega (arith, v.count, long)) in
      let minor =
        validate_free_list-FreeChain pool_roots_capacity p (s.header p).minor_free_list s.slots ms
          v.aligned v.minor tagged-right (omega (arith, v.count, long)) in
      let counts = validate_roots-counts pool_roots_capacity p (p + sizeof_header) s.slots in
      let a : (length (filter free (slots_of p)) == length fs + length ms) ≡ true =
        eq→== _ _ (free_count ∙ long) in
      let b : (length (filter (λ x. not (free x)) (slots_of p)) == (s.header p).alloc_count)
          ≡ true =
        eq→== _ _ full_count in
      let c : (length (filter free (slots_of p)) + length (filter (λ x. not (free x)) (slots_of p))
            == pool_roots_capacity)
          ≡ true =
        eq→== _ _ (
          length-filter-not free (slots_of p)
          ∙ length-addrs (p + sizeof_header) pool_roots_capacity) in
      rw (major, minor, counts, validate_pool) (and4 _ _ _ _ last_good a b c)
