-- ===== src/Boxroot/Heap/Uncurrent.antt =====
-- `move_current_to_young` with the classes and domains of the pools.
use ocaml_boxroot.Prelude.{
  ℕ, ◌+◌, ◌/◌, ◌%◌, ◌≡◌, refl, sym, ◌∙◌, ap, subst, ◌≢◌, inl, inr, Bool, true, false, ◌||◌, List,
  [], ◌∷◌, arith, has, Apart, upd, upd_self, upd_ne, length, ◌==◌, eq_cases, eq→==,
}
use mathlib.Core.Bool.{false≢true}
use ocaml_boxroot.Words.{Runtime, IsRuntime, sle32, bxr_dealloc_threshold, decr32}
use ocaml_boxroot.Ring.Paths.{IsRing}
use ocaml_boxroot.Pool.{young}
use ocaml_boxroot.Boxroot.State.{
  State, of_domain, variable, current_ring, get_place, pop_place, fl_of, set_current_fl,
}
use ocaml_boxroot.Boxroot.Classes.{reclassify_pool, move_current_to_young}
use ocaml_boxroot.Boxroot.Reclassify.{settled, target_key, free_list-pop_place}
use ocaml_boxroot.Boxroot.Moves.{uncounted, current_moved}
use ocaml_boxroot.Boxroot.Heap.{View, cur_key, Ready, IsHeap, IsKept}
use ocaml_boxroot.Boxroot.Heap.Moves.{has-settled}
use ocaml_boxroot.Boxroot.Heap.Kept.{IsKept-refl, counted}
use ocaml_boxroot.Boxroot.Heap.Current.{moved-lem, move_current_to_young-IsKept}
use ocaml_boxroot.Boxroot.Heap.Touch.{in_one_place}
use ocaml_boxroot.Boxroot.Heap.Tags.{Tag, IsTagged, young-tracked, reclassify_pool-IsTagged}
use ocaml_boxroot.Boxroot.Heap.GcStep.{pop_place-front}

pub IsTagged-same :
    (s s' : State) (v : View)
    → s'.store.free_list ≡ s.store.free_list
    → IsTagged s v
    → IsTagged s' v
IsTagged-same s s' v e t = record {
  tags = λ i q m. subst (λ f. Tag (f q) i) (sym e) (t.tags i q m);
  no_free_orphans = t.no_free_orphans;
  no_current_orphans = t.no_current_orphans;
}

-- The count of a pool that is in no free ring.
counted-IsTagged :
    (s : State) (v : View) (p k i : ℕ)
    → ((i j : ℕ) → i ≢ j → Apart (v i) (v j))
    → has p (v i) ≡ true
    → (i % 4 == 3) ≡ false
    → IsTagged s v
    → IsTagged (counted p k s) v
counted-IsTagged s v p k i apart m used t = record {
  tags = λ j q h. elim (eq_cases q p) [
    | inl e ↦
        let h' = subst (λ y. has y (v j) ≡ true) e h in
        let same : j ≡ i = in_one_place v apart p i j m h' in
        let old = t.tags j p h' in
        subst (λ y. Tag ((counted p k s).store.free_list y) j) (sym e)
          (subst (λ f. Tag f j) (sym (upd_self s.store.free_list p _))
            (record {
              class = old.class;
              empty = λ z. absurd (false≢true (sym used ∙ subst (λ l. (l % 4 == 3) ≡ true) same z));
              domain = old.domain;
            }))
    | inr n ↦ subst (λ f. Tag f j) (sym (upd_ne s.store.free_list p _ q n)) (t.tags j q h)
  ];
  no_free_orphans = t.no_free_orphans;
  no_current_orphans = t.no_current_orphans;
}

abbrev young_key : ℕ → ℕ
young_key dom = target_key dom young

-- The current pool of the domain, if any, is a young one now.
pub record IsUncurrent (r : Runtime) (dom : ℕ) (s s' : State) (v v' : View) : Type 0 where
  pub kept : IsKept r dom s s' v v'
  pub tagged : IsTagged s' v'
  pub no_current : v' (cur_key dom) ≡ []
  pub others : (j : ℕ) → j ≢ cur_key dom → j ≢ young_key dom → v' j ≡ v j
  pub members :
      (q : ℕ) → has q (v' (young_key dom)) ≡ (has q (v (cur_key dom)) || has q (v (young_key dom)))
  pub length_young :
      length (v' (young_key dom)) ≡ length (v (cur_key dom)) + length (v (young_key dom))

module _ (r : Runtime) (ok : IsRuntime r) (dom : ℕ) (s : State) (v : View) (inv : IsHeap r s v)
    (ready : Ready s dom) (tagged : IsTagged s v) where
  module _ (p : ℕ) (e : v (cur_key dom) ≡ p ∷ []) where
    abbrev s1 : State
    s1 = (pop_place (of_domain dom current_ring) s).1

    abbrev b : Bool
    b = sle32 (decr32 (fl_of p s).alloc_count) (bxr_dealloc_threshold / 8)

    abbrev v' : View
    v' = current_moved v dom p b

    p-in : has p (v (cur_key dom)) ≡ true
    p-in = ap (has p) e ∙ ap (λ c. c || false) (eq→== p p refl)

    spared : upd v (cur_key dom) [] (young_key dom) ≡ v (young_key dom)
    spared = upd_ne v (cur_key dom) [] (young_key dom) (λ k. omega (arith, k))

    young-lem : v' (young_key dom) ≡ settled b p (v (young_key dom))
    young-lem = upd_self (upd v (cur_key dom) []) (young_key dom) (settled b p (v (young_key dom)))

    moved-IsTagged : IsTagged (reclassify_pool (variable p) dom young (uncounted p s1)) v'
    moved-IsTagged =
        let s1-IsTagged =
          IsTagged-same s s1 v (free_list-pop_place (of_domain dom current_ring) s) tagged in
        let s2-IsTagged =
          counted-IsTagged s1 v p (decr32 (fl_of p s1).alloc_count) (cur_key dom) inv.rings.apart
            p-in (ground arith) s1-IsTagged in
        subst
          (λ ys.
            IsTagged (reclassify_pool (variable p) dom young (uncounted p s1))
              (upd (upd v (cur_key dom) []) (young_key dom) (settled b p ys)))
          spared
          (reclassify_pool-IsTagged (uncounted p s1) v (variable p) dom young b (cur_key dom) p []
            s2-IsTagged inv.rings.apart p-in (λ q m. absurd (false≢true m)) refl
            (pop_place-front (variable p) (uncounted p s1)) (λ k. absurd (young-tracked k)))

    fl-lem :
        (set_current_fl dom s.empty_fl
          (reclassify_pool (variable p) dom young (uncounted p s1))).store.free_list
        ≡ (reclassify_pool (variable p) dom young (uncounted p s1)).store.free_list
    unfolding set_current_fl
    fl-lem = refl

    some-IsUncurrent : IsUncurrent r dom s (move_current_to_young dom s) v v'
    some-IsUncurrent =
        let (kept, none_left, _, long) = move_current_to_young-IsKept r ok dom s v p inv ready e in
        record {
          kept = kept;
          tagged =
              subst (λ t. IsTagged t v') (sym (moved-lem r ok dom s v p inv ready e))
                (IsTagged-same (reclassify_pool (variable p) dom young (uncounted p s1)) _ v' fl-lem
                  moved-IsTagged);
          no_current = none_left;
          others = λ j n m.
              upd_ne (upd v (cur_key dom) []) (young_key dom) (settled b p (v (young_key dom))) j m
              ∙ upd_ne v (cur_key dom) [] j n;
          members = λ q.
              ap (has q) young-lem
              ∙ has-settled q b p (v (young_key dom))
              ∙ (let at = ap (has q) e in ground (arith, at));
          length_young = long ∙ (let one = ap length e in omega (arith, one));
        }

  none-IsUncurrent : v (cur_key dom) ≡ [] → IsUncurrent r dom s (move_current_to_young dom s) v v
  unfolding move_current_to_young
  none-IsUncurrent e =
      let h =
        subst (IsRing s.store.links (get_place (of_domain dom current_ring) s)) e
          (inv.rings.rings (of_domain dom current_ring) tt) in
      rw (eq→== (get_place (of_domain dom current_ring) s) 0 h, move_current_to_young)
        (record {
          kept = IsKept-refl r dom s v inv;
          tagged = tagged;
          no_current = e;
          others = λ j n m. refl;
          members = λ q. let at = ap (has q) e in ground (arith, at);
          length_young = let at = ap length e in omega (arith, at);
        })

  pub move_current_to_young-IsUncurrent :
      (v' : View) × IsUncurrent r dom s (move_current_to_young dom s) v v'
  move_current_to_young-IsUncurrent = by_ring (v (cur_key dom)) refl
    where
      by_ring :
          (xs : List ℕ)
          → v (cur_key dom) ≡ xs
          → (v' : View) × IsUncurrent r dom s (move_current_to_young dom s) v v'
      by_ring [] e = (v, none-IsUncurrent e)
      by_ring (p ∷ []) e = (v' p e, some-IsUncurrent p e)
      by_ring (p ∷ q ∷ qs) e =
          let one = inv.one_current dom in
          let long = ap length e in absurd (omega (arith, one, long))
