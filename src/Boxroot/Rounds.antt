-- ===== src/Boxroot/Rounds.antt =====
-- `reclassify_ring` goes through the whole ring.
use ocaml_boxroot.Prelude.{
  ℕ, zero, suc, ◌≤◌, ◌≡◌, refl, sym, ◌∙◌, ap, subst, ◌≢◌, Bool, List, [], ◌∷◌, ◌++◌, some, arith,
  upd, upd_self, length, last, eq_cases, inl, inr, eq→==, ne→==,
}
use ocaml_boxroot.Ring.Paths.{IsRing}
use ocaml_boxroot.Pool.{Class, old, is_not_too_full}
use ocaml_boxroot.Boxroot.State.{
  State, Place, of_domain, young_ring, old_ring, get_place, set_place,
}
use ocaml_boxroot.Boxroot.Classes.{
  ring_of_class, reclassify_pool, reclassify_ring, promote_young_pools,
}
use ocaml_boxroot.Boxroot.Rings.{View, key, IsGlobal, IsRings, IsRings-rotate, store-set_place}
use ocaml_boxroot.Boxroot.Reclassify.{
  settled, reclassified, reclassify_pool-IsRings, alloc_count-reclassify_pool, IsRings-ext,
}

-- The pools `xs` are put one by one, the last first, into a ring that holds `ys`. `f` tells which of
-- them are not too full.
abbrev pub settle_all : (ℕ → Bool) → List ℕ → List ℕ → List ℕ
settle_all f [] ys = ys
settle_all f (x ∷ xs) ys = settled (f x) x (settle_all f xs ys)

settle_all_last :
    (f : ℕ → Bool) (xs : List ℕ) (z : ℕ) (ys : List ℕ)
    → settle_all f (xs ++ z ∷ []) ys ≡ settle_all f xs (settled (f z) z ys)
settle_all_last f [] z ys = refl
settle_all_last f (x ∷ xs) z ys = ap (settled (f x) x) (settle_all_last f xs z ys)

-- `x ∷ xs` without its last.
abbrev pub but_last : ℕ → List ℕ → List ℕ
but_last x [] = []
but_last x (y ∷ ys) = x ∷ but_last y ys

pub but_last-append : (x : ℕ) (xs : List ℕ) → but_last x xs ++ last x xs ∷ [] ≡ x ∷ xs
but_last-append x [] = refl
but_last-append x (y ∷ ys) = ap (λ zs. x ∷ zs) (but_last-append y ys)

pub length-but_last : (x : ℕ) (xs : List ℕ) → length (but_last x xs) ≡ length xs
length-but_last x [] = refl
length-but_last x (y ∷ ys) = ap suc (length-but_last y ys)

-- The rings once all pools of the source have been reclassified.
abbrev pub all_reclassified : View → ℕ → ℕ → (ℕ → Bool) → View
all_reclassified v source target f =
    upd (upd v source []) target (settle_all f (v source) (v target))

module _ (v : View) (a b : ℕ) (f : ℕ → Bool) (xs : List ℕ) (z : ℕ) (n : a ≢ b) where
  abbrev after_round : View
  after_round = reclassified (upd v a (z ∷ xs)) a b (f z) z xs

  round_source : after_round a ≡ xs
  round_source = rw (ne→== a b n, eq→== a a refl) refl

  round_target : after_round b ≡ settled (f z) z (v b)
  round_target = rw (eq→== b b refl, ne→== b a (λ e. n (sym e))) refl

  -- One round, seen from the end.
  round-view :
      v a ≡ xs ++ z ∷ []
      → (i : ℕ) → all_reclassified after_round a b f i ≡ all_reclassified v a b f i
  round-view e i = elim (eq_cases i b) [
    | inl k ↦ rw (eq→== i b k, round_source, round_target, e) (sym (settle_all_last f xs z (v b)))
    | inr k ↦ elim (eq_cases i a) [
      | inl h ↦ rw (ne→== i b k, eq→== i a h) refl
      | inr h ↦ rw (ne→== i b k, ne→== i a h) refl
    ]
  ]

idle-view :
    (v : View) (a b : ℕ) (f : ℕ → Bool) (i : ℕ) → v a ≡ [] → v i ≡ all_reclassified v a b f i
idle-view v a b f i e = elim (eq_cases i b) [
  | inl k ↦ rw (eq→== i b k, e) (ap v k)
  | inr k ↦ elim (eq_cases i a) [
    | inl h ↦ rw (ne→== i b k, eq→== i a h) (ap v h ∙ e)
    | inr h ↦ rw (ne→== i b k, ne→== i a h) refl
  ]
]

-- What the loop promises, with fuel for `n` rounds.
abbrev pub Reclassifies : ℕ → Place → ℕ → Class → State → View → (ℕ → Bool) → Type 0
Reclassifies n ring dom cl s v f =
    (s' : State) × (reclassify_ring n ring dom cl s ≡ some s')
    × IsRings s' (all_reclassified v (key ring) (key (of_domain dom (ring_of_class cl))) f)

module _ (ring : Place) (dom : ℕ) (cl : Class) (f : ℕ → Bool) (g : IsGlobal ring)
    (n : key ring ≢ key (of_domain dom (ring_of_class cl))) where
  abbrev turned : ℕ → List ℕ → State → State
  turned x xs s = reclassify_pool ring dom cl (set_place ring (last x xs) s)

  round-IsRings :
      (s : State) (v : View) (x : ℕ) (xs : List ℕ)
      → IsRings s v
      → ((q : ℕ) → is_not_too_full q s.store ≡ f q)
      → v (key ring) ≡ x ∷ xs
      → IsRings (turned x xs s) (
          after_round v
            (key ring)
            (key (of_domain dom (ring_of_class cl)))
            f
            (but_last x xs)
            (last x xs)
            n)
  round-IsRings s v x xs inv full e =
      let z = last x xs in
      let ys = but_last x xs in
      let rot = IsRings-rotate s v ring z ys g inv (e ∙ sym (but_last-append x xs)) in
      subst
        (λ b. IsRings (turned x xs s) (
          reclassified (upd v (key ring) (z ∷ ys)) (key ring)
            (key (of_domain dom (ring_of_class cl))) b z ys))
        (ap (is_not_too_full z) (store-set_place ring z s) ∙ full z)
        (reclassify_pool-IsRings (set_place ring z s) (upd v (key ring) (z ∷ ys)) ring dom cl z ys g
          rot (upd_self v (key ring) (z ∷ ys)))

  round-full :
      (s : State) (x : ℕ) (xs : List ℕ)
      → ((q : ℕ) → is_not_too_full q s.store ≡ f q)
      → (q : ℕ) → is_not_too_full q (turned x xs s).store ≡ f q
  round-full s x xs full q =
      alloc_count-reclassify_pool (set_place ring (last x xs) s) ring dom cl q
      ∙ ap (is_not_too_full q) (store-set_place ring (last x xs) s)
      ∙ full q

  rounds :
      (m : ℕ) (s : State) (v : View) (xs : List ℕ)
      → IsRings s v
      → ((q : ℕ) → is_not_too_full q s.store ≡ f q)
      → v (key ring) ≡ xs
      → length xs ≤ m
      → Reclassifies m ring dom cl s v f
  unfolding reclassify_ring
  rounds zero s v [] inv full e fuel =
      let h = subst (IsRing s.store.links (get_place ring s)) e (inv.rings ring g) in
      (
        s,
        rw (eq→== (get_place ring s) 0 h) refl,
        IsRings-ext s v _ (λ i. idle-view v _ _ f i e) inv,
      )
  rounds (suc m) s v [] inv full e fuel =
      let h = subst (IsRing s.store.links (get_place ring s)) e (inv.rings ring g) in
      (
        s,
        rw (eq→== (get_place ring s) 0 h, reclassify_ring) refl,
        IsRings-ext s v _ (λ i. idle-view v _ _ f i e) inv,
      )
  rounds zero s v (x ∷ xs) inv full e fuel = absurd (omega (arith, fuel))
  rounds (suc m) s v (x ∷ xs) inv full e fuel =
      let r = subst (IsRing s.store.links (get_place ring s)) e (inv.rings ring g) in
      let more =
        rounds m (turned x xs s) _ (but_last x xs) (round-IsRings s v x xs inv full e)
          (round-full s x xs full) (round_source v (key ring) _ f (but_last x xs) (last x xs) n)
          (omega (arith, fuel, length-but_last x xs)) in
      let prev = ap s.store.links.prev r.0 ∙ r.4.1 in
      let some_head : get_place ring s ≢ 0 = λ h. r.1.0 (sym h ∙ r.0) in
      (
        more.0,
        rw (ne→== (get_place ring s) 0 some_head, prev, reclassify_ring) more.1,
        IsRings-ext _ _ _
            (λ i.
              round-view v (key ring) _ f (but_last x xs) (last x xs) n
                (e ∙ sym (but_last-append x xs)) i)
            more.2,
      )

-- If each domain's and the orphans' ring heads lead to rings with no common pool, the source is
-- not the ring of the class, and the fuel is at least the number of the source's pools, then
-- `reclassify_ring` ends, leaves the source empty, and has put its pools one by one, the last
-- first, into the ring of the class, each in front if it is not too full and else at the back; all
-- other rings are as before.
pub reclassify_ring-IsRings :
    (m : ℕ) (ring : Place) (dom : ℕ) (cl : Class) (s : State) (v : View)
    → IsGlobal ring
    → key ring ≢ key (of_domain dom (ring_of_class cl))
    → IsRings s v
    → length (v (key ring)) ≤ m
    → Reclassifies m ring dom cl s v (λ q. is_not_too_full q s.store)
reclassify_ring-IsRings m ring dom cl s v g n inv fuel =
    rounds ring dom cl (λ q. is_not_too_full q s.store) g n m s v (v (key ring)) inv (λ q. refl)
      refl fuel

-- If the ring heads of the domains and the orphans lead to rings with no common pool and the fuel
-- is at least the number of the domain's young pools, `promote_young_pools` ends, the domain has
-- no young pools, and they have been put one by one, the last first, into its old ring, each in
-- front if it is not too full and else at the back; all other rings are as before.
pub promote_young_pools-IsRings :
    (m dom : ℕ) (s : State) (v : View)
    → IsRings s v
    → length (v (key (of_domain dom young_ring))) ≤ m
    → (s' : State) × (promote_young_pools m dom s ≡ some s')
      × IsRings s' (
          all_reclassified v
            (key (of_domain dom young_ring))
            (key (of_domain dom old_ring))
            (λ q. is_not_too_full q s.store))
unfolding promote_young_pools
promote_young_pools-IsRings m dom s v inv fuel =
    reclassify_ring-IsRings m (of_domain dom young_ring) dom old s v tt (λ e. omega (arith, e)) inv
      fuel
