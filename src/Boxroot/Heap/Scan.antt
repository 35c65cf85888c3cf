-- ===== src/Boxroot/Heap/Scan.antt =====
-- `scan_pools` on a well-formed state.
use ocaml_boxroot.Prelude.{
  ℕ, zero, suc, ◌+◌, ◌≤◌, ◌<◌, ◌≡◌, refl, sym, ◌∙◌, ap, subst, ◌↔◌, inl, inr, Bool, true, false,
  not, ◌&&◌, ◌||◌, List, [], ◌∷◌, ◌++◌, none, some, arith, has, NotIn, last, filter, length, ◌==◌,
  if◌then◌else◌, Bool-cases, eq→==, ne→==, ==→eq,
}
use mathlib.Core.Bool.{false≢true}
use mathlib.Core.List.{append_assoc, append-nil}
use ocaml_boxroot.Words.{Runtime, IsRuntime, is_pool_member}
use ocaml_boxroot.Ring.Paths.{IsRing, PathTo, Linked}
use ocaml_boxroot.Pool.{Store}
use ocaml_boxroot.Pool.Count.{InPool, pool_slots}
use ocaml_boxroot.Pool.Invariant.{has-append, live_slots, holds_value, root_value}
use ocaml_boxroot.Pool.Scan.{scan_pool_gen-live}
use ocaml_boxroot.Pool.Kept.{PoolAt}
use ocaml_boxroot.Boxroot.State.{State, of_domain, young_ring, old_ring, rings_of}
use ocaml_boxroot.Boxroot.Collect.{scan_pool, scan_ring_loop, scan_ring, scan_pools}
use ocaml_boxroot.Boxroot.Rings.{key}
use ocaml_boxroot.Boxroot.Heap.Delete.{live_of_value}
use ocaml_boxroot.Boxroot.Heap.{View, extra, IsHeap}

-- What is found in each of the pools, one after the other.
abbrev pub flat : (ℕ → List ℕ) → List ℕ → List ℕ
flat f [] = []
flat f (x ∷ xs) = f x ++ flat f xs

flat-append : (f : ℕ → List ℕ) (xs ys : List ℕ) → flat f (xs ++ ys) ≡ flat f xs ++ flat f ys
flat-append f [] ys = refl
flat-append f (x ∷ xs) ys =
    ap (λ zs. f x ++ zs) (flat-append f xs ys) ∙ sym (append_assoc (f x) (flat f xs) (flat f ys))

-- The loop over a ring, when each of its pools is scanned to an end.
module _ (r : Runtime) (b : Bool) (st : Store) (found : ℕ → List ℕ) where
  abbrev pub Scans : List ℕ → Type 0
  Scans xs = (q : ℕ) → has q xs ≡ true → (w : ℕ) × (scan_pool r b st q ≡ some (found q, w))

  -- From the pool `x` on, with `xs` behind it.
  from_pool :
      (n start x : ℕ) (xs : List ℕ)
      → PathTo st.links x xs
      → Linked st.links (last x xs) start
      → NotIn start xs
      → Scans (x ∷ xs)
      → length xs < n
      → (w : ℕ) × (scan_ring_loop r n b st start x ≡ some (flat found (x ∷ xs), w))
  unfolding scan_ring_loop
  from_pool zero start x xs path back out scans fuel = absurd (omega (arith, fuel))
  from_pool (suc n) start x [] path back out scans fuel =
      let (w, e) = scans x (ap (λ c. c || false) (eq→== x x refl)) in
      (
        w,
        rw (e, eq→== (st.links.next x) start back.0, scan_ring_loop)
            (ap (λ ys. some (ys, w)) (sym (append-nil (found x)))),
      )
  from_pool (suc n) start x (y ∷ ys) path back out scans fuel =
      let (w, e) = scans x (ap (λ c. c || has x (y ∷ ys)) (eq→== x x refl)) in
      let (w', e') =
        from_pool n start y ys path.1 back out.1 (λ q h. scans q (ground (arith, h)))
          (omega (arith, fuel)) in
      let next : st.links.next x ≡ y = path.0.0 in
      let other : (st.links.next x == start) ≡ false =
        ne→== (st.links.next x) start (λ k. out.0 (sym k ∙ next)) in
      (w + w', rw (e, other, scan_ring_loop) (rw (next, e') refl))

  pub scan_ring-flat :
      (n h : ℕ) (xs : List ℕ)
      → IsRing st.links h xs
      → Scans xs
      → length xs ≤ n
      → (w : ℕ) × (scan_ring r n b st h ≡ some (flat found xs, w))
  unfolding scan_ring
  scan_ring-flat n h [] ring scans fuel = (0, rw (eq→== h 0 ring, scan_ring) refl)
  scan_ring-flat n h (x ∷ xs) ring scans fuel =
      let (w, e) = from_pool n x x xs ring.3 ring.4 ring.2.0 scans (omega (arith, fuel)) in
      (
        w,
        rw (ne→== h 0 (λ z. ring.1.0 (sym z ∙ ring.0)), scan_ring)
            (subst (λ y. scan_ring_loop r n b st y y ≡ some (flat found (x ∷ xs), w)) (sym ring.0)
              e),
      )

has-flat :
    (f : ℕ → List ℕ) (a : ℕ) (xs : List ℕ)
    → has a (flat f xs) ≡ true
    → (q : ℕ) × (has q xs ≡ true) × (has a (f q) ≡ true)
has-flat f a [] h = absurd (false≢true h)
has-flat f a (x ∷ xs) h = elim (Bool-cases (has a (f x))) [
  | inl e ↦ (x, ap (λ c. c || has x xs) (eq→== x x refl), e)
  | inr n ↦
      let h' : has a (flat f xs) ≡ true =
        ap (λ c. c || has a (flat f xs)) (sym n) ∙ sym (has-append a (f x) (flat f xs)) ∙ h in
      let (q, i, m) = has-flat f a xs h' in (q, ground (arith, i), m)
]

flat-has :
    (f : ℕ → List ℕ) (a q : ℕ) (xs : List ℕ)
    → has q xs ≡ true
    → has a (f q) ≡ true
    → has a (flat f xs) ≡ true
flat-has f a q [] h m = absurd (false≢true h)
flat-has f a q (x ∷ xs) h m = has-append a (f x) (flat f xs) ∙ elim (Bool-cases (q == x)) [
  | inl e ↦ ap (λ c. c || has a (flat f xs)) (subst (λ y. has a (f y) ≡ true) (==→eq q x e) m)
  | inr n ↦
      let rest = flat-has f a q xs (ap (λ c. c || has q xs) (sym n) ∙ h) m in ground (arith, rest)
]

has-filter : (f : ℕ → Bool) (a : ℕ) (xs : List ℕ) → has a (filter f xs) ≡ (has a xs && f a)
has-filter f a [] = refl
has-filter f a (x ∷ xs) = elim (Bool-cases (a == x)) [
  | inl e ↦
      let same : a ≡ x = ==→eq a x e in
      let rest = has-filter f a xs in
      let image : f a ≡ f x = ap f same in ground (arith, rest, image, e)
  | inr n ↦ let rest = has-filter f a xs in ground (arith, rest, n)
]

and-right : (b c : Bool) → (b && c) ≡ true → c ≡ true
and-right true c h = h
and-right false c h = absurd (false≢true h)

value_of : (b : Bool) (x : ℕ) → not b ≡ true → (if b then none else some x) ≡ some x
value_of true x h = absurd (false≢true h)
value_of false x h = refl

module _ (r : Runtime) (ok : IsRuntime r) (s : State) (v : View) (inv : IsHeap r s v)
    (dom n : ℕ) where
  abbrev young_key : ℕ
  young_key = key (of_domain dom young_ring)

  abbrev old_key : ℕ
  old_key = key (of_domain dom old_ring)

  Scans-live : (i : ℕ) → extra i ≡ 0 → Scans r false s.store (live_slots r s.store) (v i)
  unfolding scan_pool
  Scans-live i e q h =
      let (fs, ds, k) = subst (PoolAt r s.store q) e (inv.pools i q h) in
      let (w, done, _) = scan_pool_gen-live r ok s.store q fs ds k in (w, done)

  pub scan_pools-live :
      length (v young_key) ≤ n
      → length (v old_key) ≤ n
      → (w : ℕ) × (scan_pools r n false dom s
          ≡ some (flat (live_slots r s.store) (v young_key ++ v old_key), w))
  unfolding scan_pools
  scan_pools-live fy fo =
      let (w, e) =
        scan_ring-flat r false s.store (live_slots r s.store) n (rings_of dom s).young (v young_key)
          (inv.rings.rings (of_domain dom young_ring) tt) (Scans-live young_key (ground arith))
          fy in
      let (w', e') =
        scan_ring-flat r false s.store (live_slots r s.store) n (rings_of dom s).old (v old_key)
          (inv.rings.rings (of_domain dom old_ring) tt) (Scans-live old_key (ground arith)) fo in
      (
        w + w',
        rw (e, scan_pools)
            (rw e' (
              ap (λ ys. some (ys, w + w'))
                (sym (flat-append (live_slots r s.store) (v young_key) (v old_key))))),
      )

  -- A slot is found exactly if it is a boxroot of a pool of one of the two rings.
  abbrev pub Reached : ℕ → ℕ → Type 0
  Reached a w =
      (q : ℕ) × (has q (v young_key ++ v old_key) ≡ true)
      × InPool r q a
      × (root_value s.store q a ≡ some w)

  found-Reached :
      (a : ℕ)
      → has a (flat (live_slots r s.store) (v young_key ++ v old_key)) ≡ true
      → Reached a (s.store.slots a)
  found-Reached a h =
      let (q, i, m) = has-flat (live_slots r s.store) a (v young_key ++ v old_key) h in
      let m' : (has a (pool_slots r q) && holds_value s.store q a) ≡ true =
        sym (has-filter (holds_value s.store q) a (pool_slots r q)) ∙ m in
      (
        q,
        i,
        ground (arith, m'),
        value_of (is_pool_member (s.store.slots a) q) (s.store.slots a)
            (and-right (has a (pool_slots r q)) (holds_value s.store q a) m'),
      )

  Reached-found :
      (a w : ℕ)
      → Reached a w
      → has a (flat (live_slots r s.store) (v young_key ++ v old_key)) ≡ true
  Reached-found a w (q, i, k, e) =
      flat-has (live_slots r s.store) a q (v young_key ++ v old_key) i (
        has-filter (holds_value s.store q) a (pool_slots r q)
        ∙ ap (λ c. c && holds_value s.store q a) k
        ∙ ap not (live_of_value (is_pool_member (s.store.slots a) q) (s.store.slots a) w e))

  pub scan_pools-Reached :
      length (v young_key) ≤ n
      → length (v old_key) ≤ n
      → (found : List ℕ) × (work : ℕ) × (scan_pools r n false dom s ≡ some (found, work))
        × (found ≡ flat (live_slots r s.store) (v young_key ++ v old_key))
        × ((a : ℕ) → (has a found ≡ true) ↔ ((w : ℕ) × Reached a w))
  scan_pools-Reached fy fo =
      let (w, e) = scan_pools-live fy fo in
      (
        flat (live_slots r s.store) (v young_key ++ v old_key),
        w,
        e,
        refl,
        λ a. ((λ h. (s.store.slots a, found-Reached a h)), (λ h. Reached-found a h.0 h.1)),
      )
