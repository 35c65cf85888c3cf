-- ===== src/Boxroot/Heap/GcHead.antt =====
-- `gc_ring` on a well-formed state: the first loop, at the head, and the whole.
use ocaml_boxroot.Prelude.{
  ℕ, zero, suc, ◌+◌, ◌*◌, ◌≤◌, ◌≡◌, refl, sym, ◌∙◌, ap, subst, ◌≢◌, inl, inr, true, false, ◌||◌,
  List, [], ◌∷◌, some, arith, has, length, ◌==◌, eq→==, ne→==,
}
use mathlib.Core.Bool.{false≢true}
use ocaml_boxroot.Words.{Runtime, IsRuntime}
use ocaml_boxroot.Pool.{Class, untracked}
use ocaml_boxroot.Boxroot.State.{State, Place, of_domain, get_place}
use ocaml_boxroot.Boxroot.Classes.{ring_of_class}
use ocaml_boxroot.Boxroot.Collect.{try_gc_and_reclassify_pool, gc_head, gc_ring}
use ocaml_boxroot.Boxroot.Reclassify.{target_key}
use ocaml_boxroot.Boxroot.Heap.{View, Ready, IsHeap}
use ocaml_boxroot.Boxroot.Heap.Local.{IsShuffled-refl}
use ocaml_boxroot.Boxroot.Heap.Tags.{IsTagged}
use ocaml_boxroot.Boxroot.Heap.GcStep.{free_key, IsRound, Frees-refl}
use ocaml_boxroot.Boxroot.Heap.GcRounds.{
  IsGced, Settled, At, head-IsRound, At-round, IsGced-last, IsGced-more, ring-at, head-of, front-ne,
  settled-after,
}
use ocaml_boxroot.Boxroot.Heap.GcTail.{Tail, ends-Tail}

module _ (r : Runtime) (ok : IsRuntime r) (dom : ℕ) (ring : Class)
    (tracked : ring ≢ untracked) where
  abbrev i : ℕ
  i = target_key dom ring

  abbrev place : Place
  place = of_domain dom (ring_of_class ring)

  abbrev Head : ℕ → State → View → ℕ → Type 0
  Head n s v x =
      (s' : State) × (gc_head n place dom x s ≡ some s') × (v' : View) × IsGced r dom i s s' v v'

  abbrev tried_head : State → State
  tried_head s = try_gc_and_reclassify_pool place dom s

  next-head :
      (s : State) (v : View) (x y : ℕ) (ys : List ℕ)
      → At r dom s v
      → v i ≡ x ∷ y ∷ ys
      → (s.store.links.next x ≡ y) × ((x == y) ≡ false)
  next-head s v x y ys h e =
      let t = ring-at r ok dom ring tracked s v (x ∷ y ∷ ys) h e in (t.3.0.0, ne→== x y t.2.0.0)

  -- The first loop goes on at the next pool.
  more-Head :
      (n : ℕ) (s : State) (v v1 : View) (x y : ℕ) (ys : List ℕ)
      → At r dom s v
      → v i ≡ x ∷ y ∷ ys
      → IsRound r dom i x (y ∷ ys) s (tried_head s) v v1
      → Head n (tried_head s) v1 y
      → Head (suc n) s v x
  unfolding gc_head
  more-Head n s v v1 x y ys h e d (s', done, v', g) =
      let (next, other) = next-head s v x y ys h e in
      let other' : (x == s.store.links.next x) ≡ false = ap (λ z. x == z) next ∙ other in
      (
        s',
        rw
            (
              eq→== x (get_place place s) (sym (head-of r ok dom ring tracked s v x (y ∷ ys) h e)),
              other',
              gc_head,
            )
            (ap (λ z. gc_head n place dom z (tried_head s)) next ∙ done),
        v',
        IsGced-more r ok dom ring tracked s (tried_head s) s' v v1 v' x (y ∷ ys) d g,
      )

  -- Behind the head the first loop becomes the second.
  behind-Head :
      (n : ℕ) (s : State) (v : View) (x y : ℕ) (ys : List ℕ)
      → At r dom s v
      → v i ≡ x ∷ y ∷ ys
      → Tail r ok dom ring tracked (suc n) s v y
      → Head (suc n) s v y
  unfolding gc_head
  behind-Head n s v x y ys h e (s', done, v', g) =
      (s', rw (front-ne r ok dom ring tracked s v x [] y ys h e, gc_head) done, v', g)

  last-Head :
      (n : ℕ) (s : State) (v : View) (x : ℕ) → At r dom s v → v i ≡ x ∷ [] → Head (suc n) s v x
  unfolding gc_head
  last-Head n s v x h e =
      let (v1, d) = head-IsRound r ok dom ring tracked s v x [] h e in
      let next : s.store.links.next x ≡ x = (ring-at r ok dom ring tracked s v (x ∷ []) h e).4.0 in
      let st : (ys : List ℕ)
          → ((q : ℕ) → has q ys ≡ true → ((q == x) || false) ≡ true)
          → v1 i ≡ ys
          → Settled (tried_head s).store (v1 i) =
        λ ys sub k. subst (Settled (tried_head s).store) (sym k) (
          settled-after r ok dom ring tracked s (tried_head s) v v1 x [] [] ys d
            (λ q m. absurd (false≢true m)) sub) in
      (
        tried_head s,
        rw
            (
              eq→== x (get_place place s) (sym (head-of r ok dom ring tracked s v x [] h e)),
              eq→== x (s.store.links.next x) (sym next),
              gc_head,
            )
            refl,
        v1,
        IsGced-last r ok dom ring tracked s (tried_head s) v v1 x [] d (elim d.ring [
          | inl k ↦ st (x ∷ []) (λ q m. m) (k ∙ e)
          | inr (inl k) ↦ st [] (λ q m. absurd (false≢true m)) k
          | inr (inr k) ↦ st (x ∷ []) (λ q m. m) k
        ]),
      )

  -- From the head on. `m` bounds the length of the ring.
  ends-Head :
      (n m : ℕ) (s : State) (v : View) (x : ℕ) (xs : List ℕ)
      → At r dom s v
      → v i ≡ x ∷ xs
      → suc (length xs) ≤ m
      → suc (length xs) + m ≤ n
      → Head n s v x
  ends-Head zero m s v x xs h e small fuel = absurd (omega (arith, fuel))
  ends-Head (suc n) m s v x [] h e small fuel = last-Head n s v x h e
  ends-Head (suc zero) m s v x (y ∷ ys) h e small fuel = absurd (omega (arith, fuel))
  ends-Head (suc (suc n)) m s v x (y ∷ ys) h e small fuel =
      let (v1, d) = head-IsRound r ok dom ring tracked s v x (y ∷ ys) h e in
      let h1 = At-round r ok dom ring tracked s (tried_head s) v v1 x (y ∷ ys) h d in
      let st =
        settled-after r ok dom ring tracked s (tried_head s) v v1 x (y ∷ ys) [] (x ∷ []) d
          (λ q z. absurd (false≢true z)) (λ q z. z) in
      let stayed : v1 i ≡ x ∷ y ∷ ys → Head (suc n) (tried_head s) v1 y = λ k.
        behind-Head n (tried_head s) v1 x y ys h1 k (
          ends-Tail r ok dom ring tracked (suc n) m (tried_head s) v1 x [] y ys h1 k st
            (omega (arith, small)) (omega (arith, fuel))) in
      more-Head (suc n) s v v1 x y ys h e d (elim d.ring [
        | inl k ↦ stayed (k ∙ e)
        | inr (inl k) ↦
            ends-Head (suc n) m (tried_head s) v1 y ys h1 k (omega (arith, small))
              (omega (arith, fuel))
        | inr (inr k) ↦ stayed k
      ])

  gc_ring-empty : (n : ℕ) (s : State) → get_place place s ≡ 0 → gc_ring n place dom s ≡ some s
  unfolding gc_ring
  gc_ring-empty n s e = rw (eq→== (get_place place s) 0 e, gc_ring) refl

  gc_ring-head :
      (n x : ℕ) (s : State)
      → get_place place s ≡ x
      → x ≢ 0
      → gc_ring n place dom s ≡ gc_head n place dom x s
  unfolding gc_ring
  gc_ring-head n x s e k =
      rw (ne→== (get_place place s) 0 (λ z. k (sym e ∙ z)), gc_ring)
        (ap (λ y. gc_head n place dom y s) e)

  -- `gc_ring` ends with fuel for twice the pools of the ring.
  pub gc_ring-IsGced :
      (n : ℕ) (s : State) (v : View)
      → IsHeap r s v
      → Ready s dom
      → IsTagged s v
      → 2 * length (v i) ≤ n
      → (s' : State) × (gc_ring n place dom s ≡ some s') × (v' : View) × IsGced r dom i s s' v v'
  gc_ring-IsGced n s v inv ready tagged fuel = by_ring (v i) refl
    where
      h : At r dom s v
      h = record { heap = inv; ready = ready; tagged = tagged }

      by_ring :
          (xs : List ℕ)
          → v i ≡ xs
          → (s' : State) × (gc_ring n place dom s ≡ some s')
            × (v' : View) × IsGced r dom i s s' v v'
      by_ring [] e = (
        s,
        gc_ring-empty n s (ring-at r ok dom ring tracked s v [] h e),
        v,
        record {
          shuffled = IsShuffled-refl r dom s v inv;
          tagged = tagged;
          settled = λ q m. absurd (false≢true (ap (has q) (sym e) ∙ m));
          mono = λ q k. k;
          frees = Frees-refl i (free_key dom) v;
          others = λ j k l. refl;
          shorter = omega arith;
          total = omega arith;
        },
      )
      by_ring (x ∷ xs) e =
          let len : length (v i) ≡ suc (length xs) = ap length e in
          let t = ring-at r ok dom ring tracked s v (x ∷ xs) h e in
          let (s', done, v', g) =
            ends-Head n (suc (length xs)) s v x xs h e (omega arith) (omega (arith, fuel, len)) in
          (s', gc_ring-head n x s t.0 (λ z. t.1.0 (sym z)) ∙ done, v', g)
