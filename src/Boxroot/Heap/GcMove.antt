-- ===== src/Boxroot/Heap/GcMove.antt =====
-- `try_gc_and_reclassify_pool` of a pool of the young or the old ring.
use ocaml_boxroot.Prelude.{
  ℕ, suc, ◌+◌, length, ◌%◌, ◌≤◌, ◌≡◌, refl, sym, ◌∙◌, ap, subst, ◌≢◌, ◌⊎◌, inl, inr, Bool, true,
  false, not, ◌||◌, List, ◌∷◌, arith, has, ◌==◌, if◌then◌else◌, Bool-cases, eq_cases, ==→eq,
}
use ocaml_boxroot.Words.{Runtime, IsRuntime}
use ocaml_boxroot.Pool.{Store, AtomicFreeList, Class, untracked, gc_pool, is_not_too_full}
use ocaml_boxroot.Boxroot.State.{State, Place, get_place, fl_of}
use ocaml_boxroot.Boxroot.Classes.{reclassify_pool}
use ocaml_boxroot.Boxroot.Collect.{try_gc_and_reclassify_pool}
use ocaml_boxroot.Boxroot.Reclassify.{target_key, reclassified, get_place-store}
use ocaml_boxroot.Boxroot.Heap.{View, Ready, IsHeap, IsShuffled}
use ocaml_boxroot.Boxroot.Heap.Moves.{IsWithout}
use ocaml_boxroot.Boxroot.Heap.Local.{IsShuffled-trans}
use ocaml_boxroot.Boxroot.Heap.Relabel.{IsMine, reclassify_pool-IsRelabel}
use ocaml_boxroot.Boxroot.Heap.Collect.{collected, gc_pool-IsShuffled, the_gc}
use ocaml_boxroot.Boxroot.Heap.Tags.{
  class_of-target, target-free, IsTagged, reclassify_pool-IsTagged,
}
use ocaml_boxroot.Boxroot.Heap.GcStep.{
  pending, gc_pool-idle, gc_pool-done, gc_pool-moved, collected-IsTagged, ring-free,
  reclassified-same, reclassified-source, reclassified-target, reclassified-others, pop_place-front,
  free_key, IsRound, Frees, Frees-refl, has-reclassified,
}

module _ (r : Runtime) (ok : IsRuntime r) (dom : ℕ) (s : State) (v : View) (inv : IsHeap r s v)
    (ready : Ready s dom) (tagged : IsTagged s v) (ring : Class) (tracked : ring ≢ untracked)
    (source : Place) (x : ℕ) (rest : List ℕ) (mine : IsMine dom source)
    (m : has x (v (target_key dom ring)) ≡ true)
    (parts : IsWithout x (v (target_key dom ring)) rest) (out : has x rest ≡ false)
    (len : length (v (target_key dom ring)) ≡ suc (length rest)) (front : get_place source s ≡ x)
    (shuf : (cl : Class)
      → IsShuffled r dom (collected x s) (reclassify_pool source dom cl (collected x s)) v (
          reclassified v
            (target_key dom ring)
            (target_key dom cl)
            (is_not_too_full x (collected x s).store)
            x
            rest)) where
  abbrev i : ℕ
  i = target_key dom ring

  abbrev t : State
  t = collected x s

  sub : (q : ℕ) → has q rest ≡ true → has q (v i) ≡ true
  sub q k = parts q ∙ ground (arith, k)

  used : (i % 4 == 3) ≡ false
  used = elim (Bool-cases (i % 4 == 3)) [
    | inl e ↦ absurd (tracked (target-free dom ring e))
    | inr e ↦ e
  ]

  gc : IsShuffled r dom s t v v
  gc = gc_pool-IsShuffled r ok dom s v inv ready i x m

  t-IsTagged : IsTagged t v
  t-IsTagged = collected-IsTagged r ok dom s v inv ready tagged i x m used

  t-class : (fl_of x t).class ≡ ring
  t-class = (t-IsTagged.tags i x m).class ∙ class_of-target dom ring

  t_mono :
      pending s.store x ≡ true → (q : ℕ) → pending s.store q ≡ false → pending t.store q ≡ false
  t_mono h q e = elim (eq_cases q x) [
    | inl k ↦ subst (λ y. pending t.store y ≡ false) (sym k) (gc_pool-done s.store x h)
    | inr n ↦
        ap (λ (d : AtomicFreeList). not (d.a_alloc_count == 0))
          ((the_gc r ok dom s v inv ready i x m).elsewhere.delayed_fl q n)
        ∙ e
  ]

  abbrev moved : Class → State
  moved cl = reclassify_pool source dom cl t

  abbrev after : Class → View
  after cl = reclassified v i (target_key dom cl) (is_not_too_full x t.store) x rest

  moved-pending : (cl : Class) (q : ℕ) → pending (moved cl).store q ≡ pending t.store q
  moved-pending cl q =
      ap (λ (d : AtomicFreeList). not (d.a_alloc_count == 0))
        ((reclassify_pool-IsRelabel r dom source cl t mine).kept q).delayed

  moved-IsRound :
      (cl : Class)
      → pending s.store x ≡ true
      → (cl ≡ untracked → (t.store.free_list x).alloc_count ≡ 0)
      → (after cl i ≡ v i) ⊎ (after cl i ≡ rest) ⊎ (after cl i ≡ x ∷ rest)
      → Frees i (free_key dom) v (after cl)
      → ((j : ℕ) → j ≢ i → j ≢ free_key dom → after cl j ≡ v j)
      → length (after cl i) ≤ length (v i)
      → length (after cl i) + length (after cl (free_key dom))
        ≤ length (v i) + length (v (free_key dom))
      → IsRound r dom i x rest s (moved cl) v (after cl)
  moved-IsRound cl h empty choice frees others shorter total = record {
    shuffled = IsShuffled-trans r dom s t (moved cl) v v (after cl) gc (shuf cl);
    tagged =
        reclassify_pool-IsTagged t v source dom cl (is_not_too_full x t.store) i x rest t-IsTagged
          gc.heap.rings.apart m sub out
          (pop_place-front source t ∙ get_place-store source t.store s ∙ front) empty;
    done = moved-pending cl x ∙ gc_pool-done s.store x h;
    mono = λ q e. moved-pending cl q ∙ t_mono h q e;
    ring = choice;
    frees = frees;
    others = others;
    shorter = shorter;
    total = total;
  }

  abbrev Rounds : State → Type 0
  Rounds s' = (v' : View) × IsRound r dom i x rest s s' v v'

  freed-Frees : (b : Bool) → Frees i (free_key dom) v (reclassified v i (free_key dom) b x rest)
  freed-Frees b =
      let n = ring-free dom ring tracked in
      let here = reclassified-source v i (free_key dom) b x rest n in
      record {
        back = λ q k. sub q (ap (has q) (sym here) ∙ k);
        forth = λ q k.
            let free = has-reclassified v i (free_key dom) b x rest q n in
            let stay = ap (has q) here in
            let k' : ((q == x) || has q rest) ≡ true = sym (parts q) ∙ k in
            ground (arith, free, stay, k');
        free_back = λ q k.
            let k' = sym (has-reclassified v i (free_key dom) b x rest q n) ∙ k in
            ap (λ c. c || has q (v (free_key dom))) (parts q) ∙ ground (arith, k');
        free_forth = λ q k. has-reclassified v i (free_key dom) b x rest q n ∙ ground (arith, k);
      }

  fronted-Frees : after ring i ≡ x ∷ rest → Frees i (free_key dom) v (after ring)
  fronted-Frees here =
      let n : free_key dom ≢ i = λ k. ring-free dom ring tracked (sym k) in
      let free = reclassified-others v i i (is_not_too_full x t.store) x rest (free_key dom) n n in
      let same : (q : ℕ) → has q (after ring i) ≡ has q (v i) =
        λ q. ap (has q) here ∙ sym (parts q) in
      record {
        back = λ q k. sym (same q) ∙ k;
        forth = λ q k. let k' = same q ∙ k in ground (arith, k');
        free_back = λ q k. let k' = ap (has q) (sym free) ∙ k in ground (arith, k');
        free_forth = λ q k. ap (has q) free ∙ k;
      }

  freed-Rounds :
      pending s.store x ≡ true → (t.store.free_list x).alloc_count ≡ 0 → Rounds (moved untracked)
  freed-Rounds h e =
      let n = ring-free dom ring tracked in
      let b = is_not_too_full x t.store in
      let here : after untracked i ≡ rest = reclassified-source v i (free_key dom) b x rest n in
      let short : length (after untracked i) ≡ length rest = ap length here in
      let long : length (after untracked (free_key dom)) ≡ suc (length (v (free_key dom))) =
        reclassified-target v i (free_key dom) b x rest n in
      (
        after untracked,
        moved-IsRound untracked h (λ k. e) (inr (inl here)) (freed-Frees b)
            (λ j n k. reclassified-others v i (free_key dom) b x rest j n k)
            (omega (arith, len, short)) (omega (arith, len, short, long)),
      )

  fronted-Rounds :
      pending s.store x ≡ true → is_not_too_full x t.store ≡ true → Rounds (moved (fl_of x t).class)
  fronted-Rounds h e =
      let here : after ring i ≡ x ∷ rest =
        ap (λ b. reclassified v i i b x rest i) e ∙ reclassified-same v i x rest in
      let short : length (after ring i) ≡ suc (length rest) = ap length here in
      let n : free_key dom ≢ i = λ k. ring-free dom ring tracked (sym k) in
      let spared : length (after ring (free_key dom)) ≡ length (v (free_key dom)) =
        ap length
          (reclassified-others v i i (is_not_too_full x t.store) x rest (free_key dom) n n) in
      subst (λ cl. Rounds (moved cl)) (sym t-class)
        (
          after ring,
          moved-IsRound ring h (λ k. absurd (tracked k)) (inr (inr here)) (fronted-Frees here)
              (λ j n k. reclassified-others v i i _ x rest j n n) (omega (arith, len, short))
              (omega (arith, len, short, spared)),
        )

  stayed-Rounds :
      pending t.store x ≡ false
      → ((q : ℕ) → pending s.store q ≡ false → pending t.store q ≡ false)
      → Rounds t
  stayed-Rounds h mono = (
    v,
    record {
      shuffled = gc;
      tagged = t-IsTagged;
      done = h;
      mono = mono;
      ring = inl refl;
      frees = Frees-refl i (free_key dom) v;
      others = λ j n k. refl;
      shorter = omega arith;
      total = omega arith;
    },
  )

  idle-store : pending s.store x ≡ false → t.store ≡ s.store
  idle-store h = ap (λ (y : ℕ × Store). y.1) (gc_pool-idle s.store x h)

  pub try_gc-Rounds : Rounds (try_gc_and_reclassify_pool source dom s)
  unfolding try_gc_and_reclassify_pool
  try_gc-Rounds =
      subst
        (λ q. Rounds (
          if (gc_pool q s.store).0 == 0
          then collected q s
          else if (fl_of q (collected q s)).alloc_count == 0
          then reclassify_pool source dom untracked (collected q s)
          else if is_not_too_full q (collected q s).store
          then reclassify_pool source dom (fl_of q (collected q s)).class (collected q s)
          else collected q s))
        (sym front)
        (elim (Bool-cases (pending s.store x)) [
          | inr h ↦ rw (ap (λ (y : ℕ × Store). y.0 == 0) (gc_pool-idle s.store x h)) (
              stayed-Rounds (ap (λ (st : Store). pending st x) (idle-store h) ∙ h)
                (λ q e. ap (λ (st : Store). pending st q) (idle-store h) ∙ e))
          | inl h ↦
              rw (gc_pool-moved s.store x h) (elim (Bool-cases ((fl_of x t).alloc_count == 0)) [
                | inl k ↦ rw k (freed-Rounds h (==→eq _ _ k))
                | inr k ↦ rw k (elim (Bool-cases (is_not_too_full x t.store)) [
                  | inl e ↦ rw e (fronted-Rounds h e)
                  | inr e ↦ rw e (stayed-Rounds (gc_pool-done s.store x h) (t_mono h))
                ])
              ])
        ])
