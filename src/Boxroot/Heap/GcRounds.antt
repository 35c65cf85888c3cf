-- ===== src/Boxroot/Heap/GcRounds.antt =====
-- The rounds of `gc_ring` on a well-formed state.
use ocaml_boxroot.Prelude.{
  ℕ, suc, ◌+◌, ◌≤◌, ◌≡◌, refl, sym, ◌∙◌, ap, subst, ◌≢◌, inl, inr, true, false, ◌||◌, List, [], ◌∷◌,
  ◌++◌, arith, has, NotIn-has, NotIn-right, length, length-append, ◌==◌, Bool-cases, eq→==, ne→==,
  ==→eq,
}
use ocaml_boxroot.Words.{Runtime, IsRuntime}
use ocaml_boxroot.Ring.Paths.{IsRing}
use ocaml_boxroot.Ring.Inside.{seen_from-IsRing, middle-NotIn}
use ocaml_boxroot.Pool.{Store, Class, untracked}
use ocaml_boxroot.Pool.Invariant.{has-append}
use ocaml_boxroot.Boxroot.State.{State, Place, of_domain, variable, get_place}
use ocaml_boxroot.Boxroot.Classes.{ring_of_class}
use ocaml_boxroot.Boxroot.Collect.{try_gc_and_reclassify_pool}
use ocaml_boxroot.Boxroot.Reclassify.{target_key}
use ocaml_boxroot.Boxroot.Heap.{View, Ready, IsHeap, IsShuffled}
use ocaml_boxroot.Boxroot.Heap.Local.{IsShuffled-trans}
use ocaml_boxroot.Boxroot.Heap.Moves.{reclassify_pool-head, own-target, IsWithout-inside}
use ocaml_boxroot.Boxroot.Heap.Inside.{reclassify_pool-inside}
use ocaml_boxroot.Boxroot.Heap.Collect.{collected, gc_pool-IsShuffled}
use ocaml_boxroot.Boxroot.Heap.Tags.{IsTagged}
use ocaml_boxroot.Boxroot.Heap.GcStep.{pending, gc_pool-idle, free_key, IsRound, Frees, Frees-trans}
use ocaml_boxroot.Boxroot.Heap.GcMove.{try_gc-Rounds}

-- No pool of `xs` has delayed deallocations.
abbrev pub Settled : Store → List ℕ → Type 0
Settled st xs = (q : ℕ) → has q xs ≡ true → pending st q ≡ false

-- `s'` is `s` once the ring `i` has no delayed deallocations.
pub record IsGced (r : Runtime) (dom i : ℕ) (s s' : State) (v v' : View) : Type 0 where
  pub shuffled : IsShuffled r dom s s' v v'
  pub tagged : IsTagged s' v'
  pub settled : Settled s'.store (v' i)
  pub mono : (q : ℕ) → pending s.store q ≡ false → pending s'.store q ≡ false
  pub frees : Frees i (free_key dom) v v'
  pub others : (j : ℕ) → j ≢ i → j ≢ free_key dom → v' j ≡ v j
  pub shorter : length (v' i) ≤ length (v i)
  pub total : length (v' i) + length (v' (free_key dom)) ≤ length (v i) + length (v (free_key dom))

pub has-head : (x : ℕ) (xs : List ℕ) → has x (x ∷ xs) ≡ true
has-head x xs = ap (λ b. b || has x xs) (eq→== x x refl)

pub has-middle : (x : ℕ) (xs ys : List ℕ) → has x (xs ++ x ∷ ys) ≡ true
has-middle x xs ys = has-append x xs (x ∷ ys) ∙ ground (arith, eq→== x x refl)

pub length-middle : (x : ℕ) (xs ys : List ℕ) → length (xs ++ x ∷ ys) ≡ suc (length xs + length ys)
length-middle x [] ys = omega arith
length-middle x (z ∷ xs) ys = let e = length-middle x xs ys in omega (arith, e)

pub try_gc-idle :
    (source : Place) (dom x : ℕ) (s : State)
    → get_place source s ≡ x
    → pending s.store x ≡ false
    → try_gc_and_reclassify_pool source dom s ≡ s
unfolding try_gc_and_reclassify_pool
try_gc-idle source dom x s e h =
    rw
      (
        gc_pool-idle s.store (get_place source s) (ap (pending s.store) e ∙ h),
        try_gc_and_reclassify_pool,
      )
      refl

-- What is known between two rounds.
pub record At (r : Runtime) (dom : ℕ) (s : State) (v : View) : Type 0 where
  pub heap : IsHeap r s v
  pub ready : Ready s dom
  pub tagged : IsTagged s v

module _ (r : Runtime) (ok : IsRuntime r) (dom : ℕ) (ring : Class)
    (tracked : ring ≢ untracked) where
  abbrev i : ℕ
  i = target_key dom ring

  abbrev place : Place
  place = of_domain dom (ring_of_class ring)

  pub ring-at :
      (s : State) (v : View) (xs : List ℕ)
      → At r dom s v
      → v i ≡ xs
      → IsRing s.store.links (get_place place s) xs
  ring-at s v xs h e =
      subst (IsRing s.store.links (get_place place s)) e (h.heap.rings.rings place tt)

  pub head-IsRound :
      (s : State) (v : View) (x : ℕ) (xs : List ℕ)
      → At r dom s v
      → v i ≡ x ∷ xs
      → (v' : View) × IsRound r dom i x xs s (try_gc_and_reclassify_pool place dom s) v v'
  head-IsRound s v x xs h e =
      let m : has x (v i) ≡ true = ap (has x) e ∙ has-head x xs in
      let t = ring-at s v (x ∷ xs) h e in
      let gc = gc_pool-IsShuffled r ok dom s v h.heap h.ready i x m in
      try_gc-Rounds r ok dom s v h.heap h.ready h.tagged ring tracked place x xs refl m
        (λ q. ap (has q) e) (NotIn-has x xs t.2.0) (ap length e) t.0
        (λ cl.
          reclassify_pool-head r ok dom (collected x s) v gc.heap h.ready place cl x xs tt refl
            (own-target dom ring) e)

  pub inside-IsRound :
      (s : State) (v : View) (a : ℕ) (before : List ℕ) (x : ℕ) (after : List ℕ)
      → At r dom s v
      → v i ≡ a ∷ before ++ x ∷ after
      → (v' : View) × IsRound r dom i x
          (a ∷ before ++ after)
          s
          (try_gc_and_reclassify_pool (variable x) dom s)
          v
          v'
  inside-IsRound s v a before x after h e =
      let m : has x (v i) ≡ true = ap (has x) e ∙ has-middle x (a ∷ before) after in
      let t = ring-at s v (a ∷ before ++ x ∷ after) h e in
      let gc = gc_pool-IsShuffled r ok dom s v h.heap h.ready i x m in
      try_gc-Rounds r ok dom s v h.heap h.ready h.tagged ring tracked (variable x) x
        (a ∷ before ++ after) tt m (IsWithout-inside x (a ∷ before) after (v i) e)
        (NotIn-has x (a ∷ before ++ after) (middle-NotIn x (a ∷ before) after t.2))
        (ap length e
          ∙ length-middle x (a ∷ before) after
          ∙ sym (ap suc (length-append (a ∷ before) after)))
        refl
        (λ cl.
          reclassify_pool-inside r ok dom (collected x s) v gc.heap h.ready place cl a before x
            after tt (own-target dom ring) e)

  pub At-round :
      (s s' : State) (v v' : View) (x : ℕ) (rest : List ℕ)
      → At r dom s v
      → IsRound r dom i x rest s s' v v'
      → At r dom s' v'
  At-round s s' v v' x rest h d = record {
    heap = d.shuffled.heap;
    ready = d.shuffled.frame.ready h.ready;
    tagged = d.tagged;
  }

  -- The last round.
  pub IsGced-last :
      (s s' : State) (v v' : View) (x : ℕ) (rest : List ℕ)
      → IsRound r dom i x rest s s' v v'
      → Settled s'.store (v' i)
      → IsGced r dom i s s' v v'
  IsGced-last s s' v v' x rest d h = record {
    shuffled = d.shuffled;
    tagged = d.tagged;
    settled = h;
    mono = d.mono;
    frees = d.frees;
    others = d.others;
    shorter = d.shorter;
    total = d.total;
  }

  pub IsGced-more :
      (s t u : State) (v w z : View) (x : ℕ) (rest : List ℕ)
      → IsRound r dom i x rest s t v w
      → IsGced r dom i t u w z
      → IsGced r dom i s u v z
  IsGced-more s t u v w z x rest d g = record {
    shuffled = IsShuffled-trans r dom s t u v w z d.shuffled g.shuffled;
    tagged = g.tagged;
    settled = g.settled;
    mono = λ q e. g.mono q (d.mono q e);
    frees = Frees-trans i (free_key dom) v w z d.frees g.frees;
    others = λ j n k. g.others j n k ∙ d.others j n k;
    shorter = omega (arith, g.shorter, d.shorter);
    total = omega (arith, g.total, d.total);
  }

  pub next-inside :
      (s : State) (v : View) (a : ℕ) (before : List ℕ) (x : ℕ)
      → At r dom s v
      → v i ≡ a ∷ before ++ x ∷ []
      → s.store.links.next x ≡ a
  next-inside s v a before x h e =
      (seen_from-IsRing s.store.links (get_place place s) x (a ∷ before) []
        (ring-at s v (a ∷ before ++ x ∷ []) h e)).3.0.0

  pub next-inside_more :
      (s : State) (v : View) (a : ℕ) (before : List ℕ) (x y : ℕ) (ys : List ℕ)
      → At r dom s v
      → v i ≡ a ∷ before ++ x ∷ y ∷ ys
      → (s.store.links.next x ≡ y)
  next-inside_more s v a before x y ys h e =
      (seen_from-IsRing s.store.links (get_place place s) x (a ∷ before) (y ∷ ys)
        (ring-at s v (a ∷ before ++ x ∷ y ∷ ys) h e)).3.0.0

  pub head-of :
      (s : State) (v : View) (x : ℕ) (xs : List ℕ)
      → At r dom s v
      → v i ≡ x ∷ xs
      → get_place place s ≡ x
  head-of s v x xs h e = (ring-at s v (x ∷ xs) h e).0

  pub front-ne :
      (s : State) (v : View) (a : ℕ) (before : List ℕ) (y : ℕ) (ys : List ℕ)
      → At r dom s v
      → v i ≡ a ∷ before ++ y ∷ ys
      → (y == get_place place s) ≡ false
  front-ne s v a before y ys h e =
      let t = ring-at s v (a ∷ before ++ y ∷ ys) h e in
      ne→== y (get_place place s) (λ k. (NotIn-right a before (y ∷ ys) t.2.0).0 (sym t.0 ∙ sym k))

  pub settled-after :
      (s s' : State) (v v' : View) (x : ℕ) (rest zs ys : List ℕ)
      → IsRound r dom i x rest s s' v v'
      → Settled s.store zs
      → ((q : ℕ) → has q ys ≡ true → ((q == x) || has q zs) ≡ true)
      → Settled s'.store ys
  settled-after s s' v v' x rest zs ys d h sub q m = elim (Bool-cases (q == x)) [
    | inl e ↦ subst (λ y. pending s'.store y ≡ false) (sym (==→eq q x e)) d.done
    | inr n ↦ d.mono q (h q (ap (λ b. b || has q zs) (sym n) ∙ sub q m))
  ]
