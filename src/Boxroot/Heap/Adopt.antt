-- ===== src/Boxroot/Heap/Adopt.antt =====
-- `adopt_orphaned_pools` on a well-formed state.
use ocaml_boxroot.Prelude.{
  ℕ, ◌+◌, ◌≤◌, ◌≡◌, refl, sym, ◌∙◌, ap, subst, ◌≢◌, [], some, arith, length,
}
use ocaml_boxroot.Words.{Runtime, IsRuntime}
use ocaml_boxroot.Pool.{young, old}
use ocaml_boxroot.Boxroot.State.{State, orphaned, old_ring, young_ring}
use ocaml_boxroot.Boxroot.Collect.{adopt_orphaned_pools}
use ocaml_boxroot.Boxroot.Reclassify.{target_key}
use ocaml_boxroot.Boxroot.Heap.{View, Ready, IsHeap, IsShuffled}
use ocaml_boxroot.Boxroot.Heap.Local.{IsShuffled-trans}
use ocaml_boxroot.Boxroot.Heap.Tags.{young-tracked, old-tracked, IsTagged}
use ocaml_boxroot.Boxroot.Heap.Emptied.{reclassify_ring-IsEmptied}

-- What `adopt_orphaned_pools` promises.
pub record IsAdopted (r : Runtime) (dom : ℕ) (s s' : State) (v v' : View) : Type 0 where
  pub shuffled : IsShuffled r dom s s' v v'
  pub tagged : IsTagged s' v'
  pub no_old : v' 0 ≡ []
  pub no_young : v' 1 ≡ []
  pub others : (j : ℕ) → 2 ≤ j → j ≢ target_key dom old → j ≢ target_key dom young → v' j ≡ v j
  pub length_old : length (v' (target_key dom old)) ≡ length (v 0) + length (v (target_key dom old))
  pub length_young :
      length (v' (target_key dom young)) ≡ length (v 1) + length (v (target_key dom young))

pub adopt_orphaned_pools-IsAdopted :
    (r : Runtime) (ok : IsRuntime r) (dom n : ℕ) (s : State) (v : View)
    → IsHeap r s v
    → Ready s dom
    → IsTagged s v
    → length (v 0) ≤ n
    → length (v 1) ≤ n
    → (s' : State) × (adopt_orphaned_pools n dom s ≡ some s')
      × (v' : View) × IsAdopted r dom s s' v v'
unfolding adopt_orphaned_pools
adopt_orphaned_pools-IsAdopted r ok dom n s v inv ready tagged fo fy =
    let (s1, done1, v1, a) =
      reclassify_ring-IsEmptied r ok dom (orphaned old_ring) tt tt (ground arith) old old-tracked
        (λ e. omega (arith, e)) n s v (v 0) inv ready tagged refl fo in
    let spared : v1 1 ≡ v 1 = a.others 1 (λ e. omega (arith, e)) (λ e. omega (arith, e)) in
    let (s2, done2, v2, b) =
      reclassify_ring-IsEmptied r ok dom (orphaned young_ring) tt tt (ground arith) young
        young-tracked (λ e. omega (arith, e)) n s1 v1 (v1 1) a.shuffled.heap
        (a.shuffled.frame.ready ready) a.tagged refl
        (subst (λ xs. length xs ≤ n) (sym spared) fy) in
    (
      s2,
      rw (done1, adopt_orphaned_pools) done2,
      v2,
      record {
        shuffled = IsShuffled-trans r dom s s1 s2 v v1 v2 a.shuffled b.shuffled;
        tagged = b.tagged;
        no_old = b.others 0 (λ e. omega (arith, e)) (λ e. omega (arith, e)) ∙ a.empty;
        no_young = b.empty;
        others = λ j l o y.
            b.others j (λ e. omega (arith, e, l)) y ∙ a.others j (λ e. omega (arith, e, l)) o;
        length_old =
            ap length
              (b.others (target_key dom old) (λ e. omega (arith, e)) (λ e. omega (arith, e)))
            ∙ a.length_target;
        length_young =
            b.length_target
            ∙ ap (λ xs. length xs + length (v1 (target_key dom young))) spared
            ∙ ap (λ xs. length (v 1) + length xs)
                (a.others (target_key dom young) (λ e. omega (arith, e)) (λ e. omega (arith, e)));
      },
    )
