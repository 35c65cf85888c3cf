-- ===== src/Boxroot/Heap/GcRing.antt =====
-- `gc_pool_rings` on a well-formed state.
use ocaml_boxroot.Prelude.{
  ℕ, ◌+◌, ◌*◌, ◌≤◌, ◌≡◌, sym, ◌∙◌, ap, subst, ◌≢◌, inl, inr, true, ◌||◌, [], some, arith, has,
  length, eq→==, Bool-cases,
}
use ocaml_boxroot.Words.{Runtime, IsRuntime}
use ocaml_boxroot.Ring.Paths.{IsRing}
use ocaml_boxroot.Pool.{young, old}
use ocaml_boxroot.Boxroot.State.{State, of_domain, get_place, current_ring}
use ocaml_boxroot.Boxroot.Collect.{gc_pool_rings}
use ocaml_boxroot.Boxroot.Reclassify.{target_key}
use ocaml_boxroot.Boxroot.Heap.{View, Ready, IsHeap, IsShuffled, cur_key}
use ocaml_boxroot.Boxroot.Heap.Local.{IsShuffled-trans}
use ocaml_boxroot.Boxroot.Heap.Tags.{IsTagged, young-tracked, old-tracked}
use ocaml_boxroot.Boxroot.Heap.GcStep.{free_key}
use ocaml_boxroot.Boxroot.Heap.GcRounds.{IsGced, Settled}
use ocaml_boxroot.Boxroot.Heap.GcRounds.{IsGced}
use ocaml_boxroot.Boxroot.Heap.GcHead.{gc_ring-IsGced}

-- What `gc_pool_rings` promises. Behind `settled` it says which pools have moved: those of the young
-- and of the old ring stay in their ring or go to the free ring, which keeps its own.
pub record IsGcedAll (r : Runtime) (dom : ℕ) (s s' : State) (v v' : View) : Type 0 where
  pub shuffled : IsShuffled r dom s s' v v'
  pub tagged : IsTagged s' v'
  pub settled_young : Settled s'.store (v' (target_key dom young))
  pub settled_old : Settled s'.store (v' (target_key dom old))
  pub young_back :
      (q : ℕ) → has q (v' (target_key dom young)) ≡ true → has q (v (target_key dom young)) ≡ true
  pub old_back :
      (q : ℕ) → has q (v' (target_key dom old)) ≡ true → has q (v (target_key dom old)) ≡ true
  pub young_forth :
      (q : ℕ)
      → has q (v (target_key dom young)) ≡ true
      → (has q (v' (target_key dom young)) || has q (v' (free_key dom))) ≡ true
  pub old_forth :
      (q : ℕ)
      → has q (v (target_key dom old)) ≡ true
      → (has q (v' (target_key dom old)) || has q (v' (free_key dom))) ≡ true
  pub free_back :
      (q : ℕ)
      → has q (v' (free_key dom)) ≡ true
      → (has q (v (target_key dom young))
          || (has q (v (target_key dom old)) || has q (v (free_key dom))))
        ≡ true
  pub free_forth : (q : ℕ) → has q (v (free_key dom)) ≡ true → has q (v' (free_key dom)) ≡ true
  pub shorter_young : length (v' (target_key dom young)) ≤ length (v (target_key dom young))
  pub shorter_old : length (v' (target_key dom old)) ≤ length (v (target_key dom old))
  pub total :
      length (v' (free_key dom))
      ≤ length (v (target_key dom young))
        + length (v (target_key dom old))
        + length (v (free_key dom))
  pub others :
      (j : ℕ) → j ≢ target_key dom young → j ≢ target_key dom old → j ≢ free_key dom → v' j ≡ v j

-- One ring after the other.
IsGcedAll-both :
    (r : Runtime) (dom : ℕ) (s s1 s2 : State) (v v1 v2 : View)
    → IsGced r dom (target_key dom young) s s1 v v1
    → IsGced r dom (target_key dom old) s1 s2 v1 v2
    → IsGcedAll r dom s s2 v v2
IsGcedAll-both r dom s s1 s2 v v1 v2 a b =
    let same : v1 (target_key dom old) ≡ v (target_key dom old) =
      a.others (target_key dom old) (λ e. omega (arith, e)) (λ e. omega (arith, e)) in
    let same2 : v2 (target_key dom young) ≡ v1 (target_key dom young) =
      b.others (target_key dom young) (λ e. omega (arith, e)) (λ e. omega (arith, e)) in
    record {
      shuffled = IsShuffled-trans r dom s s1 s2 v v1 v2 a.shuffled b.shuffled;
      tagged = b.tagged;
      settled_young = λ q m. b.mono q (a.settled q (ap (has q) (sym same2) ∙ m));
      settled_old = b.settled;
      young_back = λ q m. a.frees.back q (ap (has q) (sym same2) ∙ m);
      old_back = λ q m. ap (has q) (sym same) ∙ b.frees.back q m;
      young_forth = λ q m. elim (Bool-cases (has q (v1 (target_key dom young)))) [
        | inl e ↦ let k = ap (has q) same2 ∙ e in ground (arith, k)
        | inr e ↦
            let k = b.frees.free_forth q (ground (arith, a.frees.forth q m, e)) in ground (arith, k)
      ];
      old_forth = λ q m. b.frees.forth q (ap (has q) same ∙ m);
      free_back = λ q m. elim (Bool-cases (has q (v1 (target_key dom old)))) [
        | inl e ↦ let k = ap (has q) (sym same) ∙ e in ground (arith, k)
        | inr e ↦
            let k = a.frees.free_back q (ground (arith, b.frees.free_back q m, e)) in
            ground (arith, k)
      ];
      free_forth = λ q m. b.frees.free_forth q (a.frees.free_forth q m);
      shorter_young =
          subst (λ xs. length xs ≤ length (v (target_key dom young))) (sym same2) a.shorter;
      shorter_old = subst (λ xs. length (v2 (target_key dom old)) ≤ length xs) same b.shorter;
      total = omega (arith, a.total, b.total, ap length same);
      others = λ j y o f. b.others j o f ∙ a.others j y f;
    }

module _ (r : Runtime) (ok : IsRuntime r) (dom n : ℕ) (s : State) (v : View) (inv : IsHeap r s v)
    (ready : Ready s dom) (tagged : IsTagged s v) where
  -- In a well-formed state in which each pool bears the class and the domain of its ring, and in
  -- which the domain has rings or is domain 0 and has no current pool, `gc_pool_rings`, with fuel
  -- for twice the pools of its young and of its old ring, passes its assertion and ends, although
  -- pools come to the front of a ring or leave it while it is walked. No pool left in the two
  -- rings has delayed deallocations. The state is well formed with the same boxroots. Each pool of
  -- the young ring is in it still or in the free ring, each pool of the old ring likewise, the two
  -- rings have no other pools, the free ring keeps its pools and has else only pools of the two,
  -- and all other rings are as before.
  pub gc_pool_rings-IsGcedAll :
      v (cur_key dom) ≡ []
      → 2 * length (v (target_key dom young)) ≤ n
      → 2 * length (v (target_key dom old)) ≤ n
      → (s' : State) × (gc_pool_rings n dom s ≡ some s') × (v' : View) × IsGcedAll r dom s s' v v'
  unfolding gc_pool_rings
  gc_pool_rings-IsGcedAll no_current fy fo =
      let (s1, done1, v1, a) =
        gc_ring-IsGced r ok dom young young-tracked n s v inv ready tagged fy in
      let same : v1 (target_key dom old) ≡ v (target_key dom old) =
        a.others (target_key dom old) (λ e. omega (arith, e)) (λ e. omega (arith, e)) in
      let (s2, done2, v2, b) =
        gc_ring-IsGced r ok dom old old-tracked n s1 v1 a.shuffled.heap
          (a.shuffled.frame.ready ready) a.tagged (subst (λ xs. 2 * length xs ≤ n) (sym same) fo) in
      let head : get_place (of_domain dom current_ring) s ≡ 0 =
        subst (IsRing s.store.links (get_place (of_domain dom current_ring) s)) no_current
          (inv.rings.rings (of_domain dom current_ring) tt) in
      (
        s2,
        rw (eq→== _ 0 head, done1, gc_pool_rings) done2,
        v2,
        IsGcedAll-both r dom s s1 s2 v v1 v2 a b,
      )
