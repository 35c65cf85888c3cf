-- ===== src/Boxroot/Heap/OnePool.antt =====
-- The loop of `try_gc_and_reclassify_one_pool_no_stw` on a well-formed state.
use ocaml_boxroot.Prelude.{
  ℕ, zero, suc, ◌≤◌, ◌≡◌, refl, sym, ◌∙◌, ap, subst, ◌≢◌, inl, inr, true, false, List, [], ◌∷◌,
  ◌++◌, some, arith, has, length, NotIn-right, ◌==◌, Bool-cases, eq→==, ne→==,
}
use mathlib.Core.List.{append_assoc}
use ocaml_boxroot.Words.{Runtime, IsRuntime}
use ocaml_boxroot.Ring.Paths.{IsRing}
use ocaml_boxroot.Ring.Inside.{seen_from-IsRing}
use ocaml_boxroot.Pool.{anticipated_alloc_count}
use ocaml_boxroot.Pool.Invariant.{has-append}
use ocaml_boxroot.Boxroot.State.{State, Place, variable, get_place}
use ocaml_boxroot.Boxroot.Collect.{try_gc_and_reclassify_pool, try_gc_one_loop}
use ocaml_boxroot.Boxroot.Rings.{key, IsGlobal}
use ocaml_boxroot.Boxroot.Heap.{View, own, Ready, IsHeap}
use ocaml_boxroot.Boxroot.Heap.Local.{IsShuffled-refl}
use ocaml_boxroot.Boxroot.Heap.Relabel.{IsMine}
use ocaml_boxroot.Boxroot.Heap.Moves.{reclassify_pool-head}
use ocaml_boxroot.Boxroot.Heap.Inside.{reclassify_pool-inside}
use ocaml_boxroot.Boxroot.Heap.Collect.{Shuffles, collected, gc_pool-IsShuffled, try_gc-Shuffles}

module _ (r : Runtime) (ok : IsRuntime r) (dom : ℕ) (s : State) (v : View) (inv : IsHeap r s v)
    (ready : Ready s dom) (place : Place) (g : IsGlobal place) (mine : IsMine dom place)
    (o : own dom (key place) ≡ true) where
  place-IsRing : (xs : List ℕ) → v (key place) ≡ xs → IsRing s.store.links (get_place place s) xs
  place-IsRing xs e = subst (IsRing s.store.links (get_place place s)) e (inv.rings.rings place g)

  pub try_gc-head :
      (x : ℕ) (xs : List ℕ)
      → v (key place) ≡ x ∷ xs
      → Shuffles r dom s v (try_gc_and_reclassify_pool place dom s)
  try_gc-head x xs e =
      let m : has x (v (key place)) ≡ true = ap (has x) e ∙ rw (eq→== x x refl) refl in
      let gc = gc_pool-IsShuffled r ok dom s v inv ready (key place) x m in
      try_gc-Shuffles r ok dom s v inv ready place (key place) x m (place-IsRing (x ∷ xs) e).0
        (λ cl. (
          _,
          reclassify_pool-head r ok dom (collected x s) v gc.heap ready place cl x xs g mine o e,
        ))

  pub try_gc-inside :
      (a : ℕ) (before : List ℕ) (x : ℕ) (after : List ℕ)
      → v (key place) ≡ a ∷ before ++ x ∷ after
      → Shuffles r dom s v (try_gc_and_reclassify_pool (variable x) dom s)
  try_gc-inside a before x after e =
      let m : has x (v (key place)) ≡ true =
        ap (has x) e ∙ has-append x (a ∷ before) (x ∷ after) ∙ ground (arith, eq→== x x refl) in
      let gc = gc_pool-IsShuffled r ok dom s v inv ready (key place) x m in
      try_gc-Shuffles r ok dom s v inv ready (variable x) (key place) x m refl (λ cl. (
        _,
        reclassify_pool-inside r ok dom (collected x s) v gc.heap ready place cl a before x after g
            o e,
      ))

  -- What the loop promises from the pool `x` on.
  abbrev Ends : ℕ → ℕ → ℕ → Type 0
  Ends n a x = (s' : State) × (try_gc_one_loop n place dom a x s ≡ some s') × Shuffles r dom s v s'

  found-inside :
      (n a : ℕ) (before : List ℕ) (x : ℕ) (after : List ℕ)
      → v (key place) ≡ a ∷ before ++ x ∷ after
      → (anticipated_alloc_count x s.store == 0) ≡ true
      → Ends (suc n) a x
  unfolding try_gc_one_loop
  found-inside n a before x after e h =
      let t = place-IsRing (a ∷ before ++ x ∷ after) e in
      let ne : x ≢ a = λ k. (NotIn-right a before (x ∷ after) t.2.0).0 (sym k) in
      (
        try_gc_and_reclassify_pool (variable x) dom s,
        rw (h, ne→== x a ne, try_gc_one_loop) refl,
        try_gc-inside a before x after e,
      )

  -- The loop from a pool behind the head on.
  loop-inside :
      (n a : ℕ) (before : List ℕ) (x : ℕ) (after : List ℕ)
      → v (key place) ≡ a ∷ before ++ x ∷ after
      → suc (length after) ≤ n
      → Ends n a x
  unfolding try_gc_one_loop
  loop-inside zero a before x after e fuel = absurd (omega (arith, fuel))
  loop-inside (suc n) a before x [] e fuel =
      elim (Bool-cases (anticipated_alloc_count x s.store == 0)) [
        | inl h ↦ found-inside n a before x [] e h
        | inr h ↦
            let t = place-IsRing (a ∷ before ++ x ∷ []) e in
            let seen = seen_from-IsRing s.store.links (get_place place s) x (a ∷ before) [] t in
            (
              s,
              rw (h, eq→== (s.store.links.next x) a seen.3.0.0, try_gc_one_loop) refl,
              (v, IsShuffled-refl r dom s v inv),
            )
      ]
  loop-inside (suc n) a before x (y ∷ after) e fuel =
      elim (Bool-cases (anticipated_alloc_count x s.store == 0)) [
        | inl h ↦ found-inside n a before x (y ∷ after) e h
        | inr h ↦
            let t = place-IsRing (a ∷ before ++ x ∷ y ∷ after) e in
            let seen =
              seen_from-IsRing s.store.links (get_place place s) x (a ∷ before) (y ∷ after) t in
            let ne : y ≢ a = λ k. (NotIn-right a before (x ∷ y ∷ after) t.2.0).1.0 (sym k) in
            let (s', done, sh) =
              loop-inside n a (before ++ x ∷ []) y after
                (e ∙ ap (λ zs. a ∷ zs) (sym (append_assoc before (x ∷ []) (y ∷ after))))
                (omega (arith, fuel)) in
            (
              s',
              rw (h, ne→== (s.store.links.next x) a (λ k. ne (sym seen.3.0.0 ∙ k)), try_gc_one_loop)
                  (rw seen.3.0.0 done),
              sh,
            )
      ]

  -- The loop over the whole ring ends.
  pub loop-Shuffles :
      (n a : ℕ) (xs : List ℕ)
      → v (key place) ≡ a ∷ xs
      → length (a ∷ xs) ≤ n
      → (s' : State) × (try_gc_one_loop n place dom a a s ≡ some s') × Shuffles r dom s v s'
  unfolding try_gc_one_loop
  loop-Shuffles zero a xs e fuel = absurd (omega (arith, fuel))
  loop-Shuffles (suc n) a xs e fuel = elim (Bool-cases (anticipated_alloc_count a s.store == 0)) [
    | inl h ↦ (
      try_gc_and_reclassify_pool place dom s,
      rw (h, eq→== a a refl, try_gc_one_loop) refl,
      try_gc-head a xs e,
    )
    | inr h ↦ behind xs e fuel h
  ]
    where
      behind :
          (xs : List ℕ)
          → v (key place) ≡ a ∷ xs
          → length (a ∷ xs) ≤ suc n
          → (anticipated_alloc_count a s.store == 0) ≡ false
          → Ends (suc n) a a
      behind [] e fuel h =
          let t = place-IsRing (a ∷ []) e in
          (
            s,
            rw (h, eq→== (s.store.links.next a) a t.4.0, try_gc_one_loop) refl,
            (v, IsShuffled-refl r dom s v inv),
          )
      behind (y ∷ ys) e fuel h =
          let t = place-IsRing (a ∷ y ∷ ys) e in
          let (s', done, sh) = loop-inside n a [] y ys e (omega (arith, fuel)) in
          (
            s',
            rw (h, ne→== (s.store.links.next a) a (λ k. t.2.0.0 (sym k ∙ t.3.0.0)), try_gc_one_loop)
                (rw t.3.0.0 done),
            sh,
          )
