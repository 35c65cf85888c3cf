-- ===== src/Boxroot/Heap/ScanRoots.antt =====
-- `scan_roots` on a well-formed state.
use ocaml_boxroot.Prelude.{
  ℕ, ◌*◌, ◌≤◌, ◌≡◌, refl, sym, ◌∙◌, ap, subst, ◌↔◌, inl, inr, Bool, true, false, List, [], Option,
  some, arith, has, if◌then◌else◌, eq_cases,
}
use mathlib.Core.Bool.{false≢true}
use ocaml_boxroot.Words.{Runtime, IsRuntime}
use ocaml_boxroot.Pool.{old}
use ocaml_boxroot.Pool.Kept.{PoolAt, root_value-KeptAt}
use ocaml_boxroot.Boxroot.State.{State, of_domain, young_ring, free_ring}
use ocaml_boxroot.Boxroot.Classes.{promote_young_pools, free_pool_ring}
use ocaml_boxroot.Boxroot.Collect.{scan_roots}
use ocaml_boxroot.Boxroot.Heap.{View, cur_key, Ready, IsHeap}
use ocaml_boxroot.Boxroot.Heap.Local.{InHeap-back, InHeap-forth}
use ocaml_boxroot.Boxroot.Heap.Roots.{SameRoots, SameRoots-trans}
use ocaml_boxroot.Boxroot.Heap.Scan.{scan_pools-Reached}
use ocaml_boxroot.Boxroot.Heap.Tags.{IsTagged, old-tracked}
use ocaml_boxroot.Boxroot.Heap.GcStep.{free_key}
use ocaml_boxroot.Boxroot.Heap.Emptied.{reclassify_ring-IsEmptied}
use ocaml_boxroot.Boxroot.Heap.Freed.{IsFreed, empty-no_root, free_pool_ring-IsFreed}
use ocaml_boxroot.Boxroot.Heap.Gather.{young_key, pools_of, IsGathered, gather-IsGathered}
use ocaml_boxroot.Boxroot.Heap.MineRoots.{IsMineRoot, SameRoots-IsKept, Reached-mine, mine-Reached}

-- What `scan_roots` promises: `found` are the boxroots of the domain and of the orphans.
pub record IsScanned (r : Runtime) (dom : ℕ) (minor : Bool) (s s' : State) (v v' : View)
    (found : List ℕ) : Type 0 where
  pub scanned : (a : ℕ) → (has a found ≡ true) ↔ ((w : ℕ) × IsMineRoot r dom s v a w)
  pub heap : IsHeap r s' v'
  pub tagged : IsTagged s' v'
  pub roots : SameRoots r s.store s'.store v v'
  pub no_current : v' (cur_key dom) ≡ []
  pub no_orphans : (v' 0 ≡ []) × (v' 1 ≡ [])
  pub emptied : v' (if minor then young_key dom else free_key dom) ≡ []

module _ (r : Runtime) (ok : IsRuntime r) (dom n : ℕ) (s s3 : State) (v v3 : View)
    (g : IsGathered r dom n s s3 v v3) (ready3 : Ready s3 dom) (found : List ℕ)
    (scanned : (a : ℕ) → (has a found ≡ true) ↔ ((w : ℕ) × IsMineRoot r dom s v a w)) where
  freed-SameRoots :
      (s4 : State) (v4 : View) → IsFreed r dom s3 s4 v3 v4 → SameRoots r s3.store s4.store v3 v4
  freed-SameRoots s4 v4 f a w = (
    (λ h.
        let (p, (i, m), k, e) = h in
        let e' = root_value-KeptAt r ok s3.store s4.store p a (f.kept p) k ∙ e in
        elim (eq_cases i (free_key dom)) [
          | inl z ↦
              let m' = subst (λ j. has p (v3 j) ≡ true) z m in
              absurd (
                empty-no_root r ok s3.store p a w
                  (subst (PoolAt r s3.store p) (ground arith)
                    (g.kept.heap.pools (free_key dom) p m'))
                  ((g.tagged.tags (free_key dom) p m').empty (ground arith)) k e)
          | inr z ↦ (p, (i, ap (has p) (f.others i z) ∙ m), k, e')
        ]),
    (λ h.
        let (p, (i, m), k, e) = h in
        elim (eq_cases i (free_key dom)) [
          | inl z ↦
              absurd (false≢true (ap (has p) (sym f.empty) ∙ subst (λ j. has p (v4 j) ≡ true) z m))
          | inr z ↦ (
            p,
            (i, ap (has p) (sym (f.others i z)) ∙ m),
            k,
            sym (root_value-KeptAt r ok s3.store s4.store p a (f.kept p) k) ∙ e,
          )
        ]),
  )

  abbrev Ends : Bool → Option State → Type 0
  Ends minor o = (s' : State) × (o ≡ some s') × (v' : View) × IsScanned r dom minor s s' v v' found

  minor-Ends : Ends true (promote_young_pools n dom s3)
  unfolding promote_young_pools
  minor-Ends =
      let (s4, done, v4, h) =
        reclassify_ring-IsEmptied r ok dom (of_domain dom young_ring) tt refl (ground arith) old
          old-tracked (λ e. omega (arith, e)) n s3 v3 (v3 (young_key dom)) g.kept.heap ready3
          g.tagged refl g.short_young in
      (
        s4,
        done,
        v4,
        record {
          scanned = scanned;
          heap = h.shuffled.heap;
          tagged = h.tagged;
          roots =
              SameRoots-trans r s.store s3.store s4.store v v3 v4
                (SameRoots-IsKept r dom s s3 v v3 g.kept)
                (λ a w. (
                  (λ k.
                      let (p, m, i, e) = k in
                      (
                        p,
                        InHeap-forth dom v3 v4 p h.shuffled.local m,
                        i,
                        h.shuffled.values p a m i ∙ e,
                      )),
                  (λ k.
                      let (p, m, i, e) = k in
                      let m' = InHeap-back dom v3 v4 p h.shuffled.local m in
                      (p, m', i, sym (h.shuffled.values p a m' i) ∙ e)),
                ));
          no_current =
              h.others (cur_key dom) (λ e. omega (arith, e)) (λ e. omega (arith, e)) ∙ g.no_current;
          no_orphans = (
            h.others 0 (λ e. omega (arith, e)) (λ e. omega (arith, e)) ∙ g.no_old,
            h.others 1 (λ e. omega (arith, e)) (λ e. omega (arith, e)) ∙ g.no_young,
          );
          emptied = h.empty;
        },
      )

  major-Ends : Ends false (free_pool_ring n (of_domain dom free_ring) s3)
  major-Ends =
      let (s4, done, v4, f) =
        free_pool_ring-IsFreed r dom n s3 v3 (v3 (free_key dom)) g.kept.heap ready3 g.tagged refl
          g.short_free in
      (
        s4,
        done,
        v4,
        record {
          scanned = scanned;
          heap = f.heap;
          tagged = f.tagged;
          roots =
              SameRoots-trans r s.store s3.store s4.store v v3 v4
                (SameRoots-IsKept r dom s s3 v v3 g.kept) (freed-SameRoots s4 v4 f);
          no_current = f.others (cur_key dom) (λ e. omega (arith, e)) ∙ g.no_current;
          no_orphans = (
            f.others 0 (λ e. omega (arith, e)) ∙ g.no_old,
            f.others 1 (λ e. omega (arith, e)) ∙ g.no_young,
          );
          emptied = f.empty;
        },
      )

  pub scanned-Ends :
      (minor : Bool)
      → Ends minor (
          if minor
          then promote_young_pools n dom s3
          else free_pool_ring n (of_domain dom free_ring) s3)
  scanned-Ends true = minor-Ends
  scanned-Ends false = major-Ends

-- In a well-formed state in which each pool bears the class and the domain of its ring, the
-- orphans have no current or free pools and the domain has rings or is domain 0, `scan_roots` with
-- `only_young` false, in a minor collection or not, with fuel for twice the pools of the domain
-- and the orphans, ends; it has called the GC's action on exactly the boxroots of the domain's and
-- the orphans' pools; the state behind is well formed, with the same boxroots, and its pools bear
-- the class and the domain of their rings again; the domain has no current pool and the orphans
-- have no pools; and the domain's young ring in a minor collection, else its free ring, is empty.
pub scan_roots-IsScanned :
    (r : Runtime) (ok : IsRuntime r) (dom n : ℕ) (minor : Bool) (s : State) (v : View)
    → IsHeap r s v
    → Ready s dom
    → IsTagged s v
    → 2 * pools_of dom v ≤ n
    → (found : List ℕ) × (work : ℕ) × (s' : State) × (v' : View) × (scan_roots r n minor false dom s
        ≡ some (found, work, s'))
      × IsScanned r dom minor s s' v v' found
unfolding scan_roots
scan_roots-IsScanned r ok dom n minor s v inv ready tagged fuel =
    let (s2, done2, s3, done3, v3, g) = gather-IsGathered r ok dom n s v inv ready tagged fuel in
    let (found, work, done, _, exactly) =
      scan_pools-Reached r ok s3 v3 g.kept.heap dom n g.short_young g.short_old in
    let scanned : (a : ℕ) → (has a found ≡ true) ↔ ((w : ℕ) × IsMineRoot r dom s v a w) = λ a. (
      (λ h. let (w, k) = (exactly a).0 h in (w, mine-Reached r ok dom n s s3 v v3 g a w k)),
      (λ h. (exactly a).1 (h.0, Reached-mine r ok dom n s s3 v v3 g a h.0 h.1)),
    ) in
    let (s4, done4, v4, e) =
      scanned-Ends r ok dom n s s3 v v3 g (g.kept.ready ready) found scanned minor in
    (found, work, s4, v4, rw (done2, scan_roots) (rw done3 (rw done (rw done4 refl))), e)
