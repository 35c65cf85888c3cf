-- ===== src/Boxroot/Heap/GcTail.antt =====
-- The second loop of `gc_ring` on a well-formed state.
use ocaml_boxroot.Prelude.{
  ℕ, zero, suc, ◌+◌, ◌≤◌, ◌≡◌, refl, sym, ◌∙◌, ap, subst, ◌≢◌, inl, inr, true, false, ◌||◌, List,
  [], ◌∷◌, ◌++◌, some, arith, has, length, ◌==◌, eq→==,
}
use mathlib.Core.List.{append_assoc, append-nil}
use ocaml_boxroot.Words.{Runtime, IsRuntime}
use ocaml_boxroot.Pool.{Class, untracked}
use ocaml_boxroot.Boxroot.State.{State, Place, of_domain, variable, get_place}
use ocaml_boxroot.Boxroot.Classes.{ring_of_class}
use ocaml_boxroot.Boxroot.Collect.{try_gc_and_reclassify_pool, gc_tail}
use ocaml_boxroot.Boxroot.Reclassify.{target_key}
use ocaml_boxroot.Boxroot.Heap.{View}
use ocaml_boxroot.Boxroot.Heap.Moves.{IsWithout-inside}
use ocaml_boxroot.Boxroot.Heap.GcStep.{IsRound}
use ocaml_boxroot.Boxroot.Heap.GcRounds.{
  Settled, IsGced, At, has-middle, length-middle, try_gc-idle, inside-IsRound, At-round,
  IsGced-last, IsGced-more, next-inside_more, next-inside, head-of, front-ne, settled-after,
}

module _ (r : Runtime) (ok : IsRuntime r) (dom : ℕ) (ring : Class)
    (tracked : ring ≢ untracked) where
  abbrev i : ℕ
  i = target_key dom ring

  abbrev place : Place
  place = of_domain dom (ring_of_class ring)

  -- The second loop from `x` on.
  abbrev pub Tail : ℕ → State → View → ℕ → Type 0
  Tail n s v x =
      (s' : State) × (gc_tail n place dom x s ≡ some s') × (v' : View) × IsGced r dom i s s' v v'

  abbrev tried : ℕ → State → State
  tried x s = try_gc_and_reclassify_pool (variable x) dom s

  gc_tail-next :
      (n x y : ℕ) (s : State)
      → s.store.links.next x ≡ y
      → (y == get_place place (tried x s)) ≡ false
      → gc_tail (suc n) place dom x s ≡ gc_tail n place dom y (tried x s)
  unfolding gc_tail
  gc_tail-next n x y s e h =
      let other : (s.store.links.next x == get_place place (tried x s)) ≡ false =
        ap (λ z. z == get_place place (tried x s)) e ∙ h in
      rw (other, gc_tail) (ap (λ z. gc_tail n place dom z (tried x s)) e)

  -- A loop over pools without delayed deallocations changes nothing.
  tail-idle :
      (n : ℕ) (s : State) (v : View) (a : ℕ) (before : List ℕ) (x : ℕ) (after : List ℕ)
      → At r dom s v
      → v i ≡ a ∷ before ++ x ∷ after
      → Settled s.store (v i)
      → suc (length after) ≤ n
      → gc_tail n place dom x s ≡ some s
  unfolding gc_tail
  tail-idle zero s v a before x after h e st fuel = absurd (omega (arith, fuel))
  tail-idle (suc n) s v a before x [] h e st fuel =
      let idle =
        try_gc-idle (variable x) dom x s refl
          (st x (ap (has x) e ∙ has-middle x (a ∷ before) [])) in
      let stop : (s.store.links.next x == get_place place (tried x s)) ≡ true = eq→== _ _ (
        next-inside r ok dom ring tracked s v a before x h e
        ∙ sym (head-of r ok dom ring tracked s v a (before ++ x ∷ []) h e)
        ∙ ap (get_place place) (sym idle)) in
      rw (stop, gc_tail) (ap some idle)
  tail-idle (suc n) s v a before x (y ∷ ys) h e st fuel =
      let idle =
        try_gc-idle (variable x) dom x s refl
          (st x (ap (has x) e ∙ has-middle x (a ∷ before) (y ∷ ys))) in
      let e' : v i ≡ a ∷ (before ++ x ∷ []) ++ y ∷ ys =
        e ∙ ap (λ zs. a ∷ zs) (sym (append_assoc before (x ∷ []) (y ∷ ys))) in
      let rest = tail-idle n s v a (before ++ x ∷ []) y ys h e' st (omega (arith, fuel)) in
      let other : (y == get_place place (tried x s)) ≡ false =
        ap (λ t. y == get_place place t) idle
        ∙ front-ne r ok dom ring tracked s v a (before ++ x ∷ []) y ys h e' in
      gc_tail-next n x y s (next-inside_more r ok dom ring tracked s v a before x y ys h e) other
      ∙ subst (λ t. gc_tail n place dom y t ≡ some s) (sym idle) rest

  -- The loop goes on at the next pool.
  more-Tail :
      (n : ℕ) (s : State) (v v1 : View) (a : ℕ) (before : List ℕ) (x y : ℕ) (ys : List ℕ)
      (rest : List ℕ) (a' : ℕ) (before' : List ℕ)
      → At r dom s v
      → v i ≡ a ∷ before ++ x ∷ y ∷ ys
      → IsRound r dom i x rest s (tried x s) v v1
      → v1 i ≡ a' ∷ before' ++ y ∷ ys
      → Tail n (tried x s) v1 y
      → Tail (suc n) s v x
  unfolding gc_tail
  more-Tail n s v v1 a before x y ys rest a' before' h e d e1 (s', done, v', g) = (
    s',
    gc_tail-next n x y s (next-inside_more r ok dom ring tracked s v a before x y ys h e) (
          front-ne r ok dom ring tracked (tried x s) v1 a' before' y ys
            (At-round r ok dom ring tracked s (tried x s) v v1 x rest h d) e1)
        ∙ done,
    v',
    IsGced-more r ok dom ring tracked s (tried x s) s' v v1 v' x rest d g,
  )

  -- The loop has come to its end.
  last-Tail :
      (n : ℕ) (s : State) (v v1 : View) (a : ℕ) (before : List ℕ) (x : ℕ) (rest xs : List ℕ)
      → At r dom s v
      → v i ≡ a ∷ before ++ x ∷ []
      → IsRound r dom i x rest s (tried x s) v v1
      → v1 i ≡ a ∷ xs
      → Settled (tried x s).store (a ∷ xs)
      → Tail (suc n) s v x
  unfolding gc_tail
  last-Tail n s v v1 a before x rest xs h e d e1 st =
      let stop : (s.store.links.next x == get_place place (tried x s)) ≡ true = eq→== _ _ (
        next-inside r ok dom ring tracked s v a before x h e
        ∙ sym (
            head-of r ok dom ring tracked (tried x s) v1 a xs
              (At-round r ok dom ring tracked s (tried x s) v v1 x rest h d) e1)) in
      (
        tried x s,
        rw (stop, gc_tail) refl,
        v1,
        IsGced-last r ok dom ring tracked s (tried x s) v v1 x rest d
            (subst (Settled (tried x s).store) (sym e1) st),
      )

  -- The last pool has come to the front: the loop goes over the ring once more.
  again-Tail :
      (n : ℕ) (s : State) (v v1 : View) (a : ℕ) (before : List ℕ) (x : ℕ) (rest : List ℕ)
      → At r dom s v
      → v i ≡ a ∷ before ++ x ∷ []
      → IsRound r dom i x rest s (tried x s) v v1
      → v1 i ≡ x ∷ a ∷ before
      → Settled (tried x s).store (x ∷ a ∷ before)
      → suc (length before) ≤ n
      → Tail (suc n) s v x
  unfolding gc_tail
  again-Tail n s v v1 a before x rest h e d e1 st fuel =
      let h1 = At-round r ok dom ring tracked s (tried x s) v v1 x rest h d in
      let st1 = subst (Settled (tried x s).store) (sym e1) st in
      (
        tried x s,
        gc_tail-next n x a s (next-inside r ok dom ring tracked s v a before x h e)
              (front-ne r ok dom ring tracked (tried x s) v1 x [] a before h1 e1)
            ∙ tail-idle n (tried x s) v1 x [] a before h1 e1 st1 fuel,
        v1,
        IsGced-last r ok dom ring tracked s (tried x s) v v1 x rest d st1,
      )

  -- From `x` on, with the pools before it done. `m` bounds the length of the ring.
  pub ends-Tail :
      (n m : ℕ) (s : State) (v : View) (a : ℕ) (before : List ℕ) (x : ℕ) (after : List ℕ)
      → At r dom s v
      → v i ≡ a ∷ before ++ x ∷ after
      → Settled s.store (a ∷ before)
      → suc (suc (length before + length after)) ≤ m
      → suc (length after) + m ≤ n
      → Tail n s v x
  ends-Tail zero m s v a before x after h e st small fuel = absurd (omega (arith, fuel))
  ends-Tail (suc n) m s v a before x [] h e st small fuel =
      let (v1, d) = inside-IsRound r ok dom ring tracked s v a before x [] h e in
      let rest = a ∷ before ++ [] in
      let nil : before ++ [] ≡ before = append-nil before in
      elim d.ring [
        | inl k ↦ last-Tail n s v v1 a before x rest (before ++ x ∷ []) h e d (k ∙ e) (
            settled-after r ok dom ring tracked s (tried x s) v v1 x rest (a ∷ before)
              (a ∷ before ++ x ∷ []) d st
              (λ q t.
                ap (λ zs. (q == x) || has q (a ∷ zs)) (sym nil)
                ∙ sym (IsWithout-inside x (a ∷ before) [] _ refl q)
                ∙ t))
        | inr (inl k) ↦
            last-Tail n s v v1 a before x rest before h e d (k ∙ ap (λ zs. a ∷ zs) nil) (
              settled-after r ok dom ring tracked s (tried x s) v v1 x rest (a ∷ before)
                (a ∷ before) d st (λ q t. ground (arith, t)))
        | inr (inr k) ↦
            again-Tail n s v v1 a before x rest h e d (k ∙ ap (λ zs. x ∷ a ∷ zs) nil)
              (settled-after r ok dom ring tracked s (tried x s) v v1 x rest (a ∷ before)
                (x ∷ a ∷ before) d st (λ q t. t))
              (omega (arith, small, fuel))
      ]
  ends-Tail (suc n) m s v a before x (y ∷ ys) h e st small fuel =
      let (v1, d) = inside-IsRound r ok dom ring tracked s v a before x (y ∷ ys) h e in
      let rest = a ∷ before ++ y ∷ ys in
      let h1 = At-round r ok dom ring tracked s (tried x s) v v1 x rest h d in
      let long = length-middle x before [] in
      elim d.ring [
        | inl k ↦
            let e1 : v1 i ≡ a ∷ (before ++ x ∷ []) ++ y ∷ ys =
              k ∙ e ∙ ap (λ zs. a ∷ zs) (sym (append_assoc before (x ∷ []) (y ∷ ys))) in
            let st1 =
              settled-after r ok dom ring tracked s (tried x s) v v1 x rest (a ∷ before)
                (a ∷ before ++ x ∷ []) d st
                (λ q t.
                  ap (λ zs. (q == x) || has q (a ∷ zs)) (sym (append-nil before))
                  ∙ sym (IsWithout-inside x (a ∷ before) [] _ refl q)
                  ∙ t) in
            more-Tail n s v v1 a before x y ys rest a (before ++ x ∷ []) h e d e1 (
              ends-Tail n m (tried x s) v1 a (before ++ x ∷ []) y ys h1 e1 st1
                (omega (arith, small, long)) (omega (arith, fuel)))
        | inr (inl k) ↦
            let st1 =
              settled-after r ok dom ring tracked s (tried x s) v v1 x rest (a ∷ before)
                (a ∷ before) d st (λ q t. ground (arith, t)) in
            more-Tail n s v v1 a before x y ys rest a before h e d k (
              ends-Tail n m (tried x s) v1 a before y ys h1 k st1 (omega (arith, small))
                (omega (arith, fuel)))
        | inr (inr k) ↦
            let st1 =
              settled-after r ok dom ring tracked s (tried x s) v v1 x rest (a ∷ before)
                (x ∷ a ∷ before) d st (λ q t. t) in
            more-Tail n s v v1 a before x y ys rest x (a ∷ before) h e d k (
              ends-Tail n m (tried x s) v1 x (a ∷ before) y ys h1 k st1 (omega (arith, small))
                (omega (arith, fuel)))
      ]
