-- ===== src/Boxroot/Heap/Collect.antt =====
-- Delayed deallocation keeps the state well formed: `try_gc_and_reclassify_pool` and the loop of
-- `try_gc_and_reclassify_one_pool_no_stw`.
use ocaml_boxroot.Prelude.{
  ℕ, ◌%◌, ◌≡◌, refl, sym, ap, subst, ◌≢◌, inl, inr, true, [], ◌++◌, has, ◌==◌, if◌then◌else◌,
  Bool-cases, eq_cases,
}
use ocaml_boxroot.Words.{Runtime, IsRuntime, bxr_pool_size}
use ocaml_boxroot.Ring.Paths.{IsRing}
use ocaml_boxroot.Pool.{Store, FreeList, Class, untracked, gc_pool, is_not_too_full}
use ocaml_boxroot.Pool.Count.{InPool}
use ocaml_boxroot.Pool.Invariant.{root_value}
use ocaml_boxroot.Pool.Gc.{Collected, gc_pool-Collected}
use ocaml_boxroot.Pool.Kept.{PoolAt, KeptAt, KeptAt-SameElse, PoolAt-KeptAt, root_value-KeptAt}
use ocaml_boxroot.Boxroot.State.{State, Place, get_place, fl_of}
use ocaml_boxroot.Boxroot.Classes.{reclassify_pool}
use ocaml_boxroot.Boxroot.Collect.{try_gc_and_reclassify_pool}
use ocaml_boxroot.Boxroot.Rings.{key, IsRings}
use ocaml_boxroot.Boxroot.Reclassify.{get_place-store}
use ocaml_boxroot.Boxroot.Heap.{View, extra, InHeap, Ready, IsHeap, IsFrame, IsShuffled}
use ocaml_boxroot.Boxroot.Heap.Local.{IsHeap-intro, IsLocal-refl, IsShuffled-trans}

-- `s'` is well formed, with the pools and boxroots of `s`, wherever its pools have gone.
abbrev pub Shuffles : Runtime → ℕ → State → View → State → Type 0
Shuffles r dom s v s' = (v' : View) × IsShuffled r dom s s' v v'

abbrev pub collected : ℕ → State → State
collected p s = record s { store = (gc_pool p s.store).1 }

pub IsRings-store :
    (s : State) (st : Store) (v : View)
    → st.links ≡ s.store.links
    → IsRings s v
    → IsRings (record s { store = st }) v
IsRings-store s st v e inv = record {
  rings = λ pl g.
      subst (λ h. IsRing st.links h (v (key pl))) (sym (get_place-store pl st s))
        (subst (λ l. IsRing l (get_place pl s) (v (key pl))) (sym e) (inv.rings pl g));
  apart = inv.apart;
}

module _ (r : Runtime) (ok : IsRuntime r) (dom : ℕ) (s : State) (v : View) (inv : IsHeap r s v)
    (ready : Ready s dom) where
  aligned : (q : ℕ) → InHeap v q → q % bxr_pool_size ≡ 0
  aligned q (i, m) = (inv.pools i q m).2.aligned

  module _ (i p : ℕ) (m : has p (v i) ≡ true) where
    pub the_pool : PoolAt r s.store p (extra i)
    the_pool = inv.pools i p m

    pub the_gc : Collected r p (the_pool.1 ++ the_pool.0) (extra i) s.store (gc_pool p s.store).1
    the_gc = (gc_pool-Collected r ok s.store p the_pool.0 the_pool.1 (extra i) the_pool.2).0

    other-KeptAt : (q : ℕ) → InHeap v q → q ≢ p → KeptAt r s.store (gc_pool p s.store).1 q
    other-KeptAt q h n =
        KeptAt-SameElse r ok s.store (gc_pool p s.store).1 p q (aligned p (i, m)) (aligned q h) n
          the_gc.elsewhere

    collected-pools : (j q : ℕ) → has q (v j) ≡ true → PoolAt r (gc_pool p s.store).1 q (extra j)
    collected-pools j q h = elim (eq_cases q p) [
      | inl e ↦
          let old = inv.pools j p (subst (λ x. has x (v j) ≡ true) e h) in
          let new = (gc_pool-Collected r ok s.store p old.0 old.1 (extra j) old.2).0 in
          subst (λ x. PoolAt r (gc_pool p s.store).1 x (extra j)) (sym e)
            (old.1 ++ old.0, [], new.pool)
      | inr n ↦
          PoolAt-KeptAt r s.store (gc_pool p s.store).1 q (extra j) (other-KeptAt q (j, h) n)
            (inv.pools j q h)
    ]

    collected-IsFrame : IsFrame dom s (collected p s)
    collected-IsFrame = record {
      memory = refl;
      empty_fl = refl;
      cached_dom_id = refl;
      thread_has_lock = refl;
      status = refl;
      current_fl = λ d. refl;
      pools = λ d n. refl;
      ready = λ h. h;
      trap =
          ap (λ (f : FreeList). f.next)
            (the_gc.elsewhere.free_list s.empty_fl
              (λ e. inv.trap_apart (i, subst (λ x. has x (v i) ≡ true) (sym e) m)));
    }

    pub gc_pool-IsShuffled : IsShuffled r dom s (collected p s) v v
    gc_pool-IsShuffled = record {
      heap =
          IsHeap-intro r dom s (collected p s) v v inv ready (IsLocal-refl dom v) collected-IsFrame
            (IsRings-store s (gc_pool p s.store).1 v the_gc.elsewhere.links inv.rings)
            collected-pools;
      local = IsLocal-refl dom v;
      values = λ q a h k. elim (eq_cases q p) [
        | inl e ↦
            subst (λ x. root_value (gc_pool p s.store).1 x a ≡ root_value s.store x a) (sym e)
              (the_gc.values a (subst (λ x. InPool r x a) e k))
        | inr n ↦ root_value-KeptAt r ok s.store (gc_pool p s.store).1 q a (other-KeptAt q h n) k
      ];
      frame = collected-IsFrame;
    }

  -- Whatever becomes of the pool behind `gc_pool`.
  pub try_gc-Shuffles :
      (source : Place) (i p : ℕ)
      → has p (v i) ≡ true
      → get_place source s ≡ p
      → ((cl : Class)
          → Shuffles r dom (collected p s) v (reclassify_pool source dom cl (collected p s)))
      → Shuffles r dom s v (try_gc_and_reclassify_pool source dom s)
  unfolding try_gc_and_reclassify_pool
  try_gc-Shuffles source i p m e all =
      let gc = gc_pool-IsShuffled i p m in
      let then_reclassified : (cl : Class)
          → Shuffles r dom s v (reclassify_pool source dom cl (collected p s)) =
        λ cl.
          let (v', sh) = all cl in (v', IsShuffled-trans r dom s (collected p s) _ v v v' gc sh) in
      subst
        (λ q. Shuffles r dom s v (
          if (gc_pool q s.store).0 == 0
          then collected q s
          else if (fl_of q (collected q s)).alloc_count == 0
          then reclassify_pool source dom untracked (collected q s)
          else if is_not_too_full q (collected q s).store
          then reclassify_pool source dom (fl_of q (collected q s)).class (collected q s)
          else collected q s))
        (sym e)
        (elim (Bool-cases ((gc_pool p s.store).0 == 0)) [
          | inl h ↦ rw h (v, gc)
          | inr h ↦ rw h (elim (Bool-cases ((fl_of p (collected p s)).alloc_count == 0)) [
            | inl k ↦ rw k (then_reclassified untracked)
            | inr k ↦ rw k (elim (Bool-cases (is_not_too_full p (collected p s).store)) [
              | inl t ↦ rw t (then_reclassified (fl_of p (collected p s)).class)
              | inr t ↦ rw t (v, gc)
            ])
          ])
        ])
