-- ===== src/Boxroot/Heap/Gather.antt =====
-- The part of `scan_roots` before the scan: the pools of the domain and of the orphans gather in
-- the old and young rings of the domain.
use ocaml_boxroot.Prelude.{
  ℕ, ◌+◌, ◌*◌, ◌≤◌, ◌≡◌, sym, ◌∙◌, ap, subst, ◌≢◌, inl, inr, Bool, true, false, ◌||◌, [], some,
  arith, has, length, ◌==◌, Bool-cases, eq_cases, ne→==,
}
use mathlib.Core.Bool.{false≢true}
use ocaml_boxroot.Words.{Runtime, IsRuntime}
use ocaml_boxroot.Pool.{young, old}
use ocaml_boxroot.Boxroot.State.{State}
use ocaml_boxroot.Boxroot.Classes.{move_current_to_young}
use ocaml_boxroot.Boxroot.Collect.{gc_pool_rings, adopt_orphaned_pools}
use ocaml_boxroot.Boxroot.Reclassify.{target_key}
use ocaml_boxroot.Boxroot.Heap.{View, cur_key, own, Ready, IsHeap, IsKept}
use ocaml_boxroot.Boxroot.Heap.Kept.{IsKept-trans, IsKept-IsShuffled}
use ocaml_boxroot.Boxroot.Heap.Tags.{IsTagged}
use ocaml_boxroot.Boxroot.Heap.GcStep.{free_key}
use ocaml_boxroot.Boxroot.Heap.GcRing.{IsGcedAll, gc_pool_rings-IsGcedAll}
use ocaml_boxroot.Boxroot.Heap.Adopt.{IsAdopted, adopt_orphaned_pools-IsAdopted}
use ocaml_boxroot.Boxroot.Heap.Uncurrent.{IsUncurrent, move_current_to_young-IsUncurrent}

abbrev pub young_key : ℕ → ℕ
young_key dom = target_key dom young

abbrev pub old_key : ℕ → ℕ
old_key dom = target_key dom old

-- The rings of the domain and of the orphans.
abbrev pub mine : ℕ → ℕ → Bool
mine dom i = own dom i || (i == cur_key dom)

-- The number of pools in them, but for the orphans' current and free rings, which stay empty.
abbrev pub pools_of : ℕ → View → ℕ
pools_of dom v =
    length (v (cur_key dom))
    + length (v (young_key dom))
    + length (v (old_key dom))
    + length (v (free_key dom))
    + length (v 0)
    + length (v 1)

pub record IsGathered (r : Runtime) (dom n : ℕ) (s s' : State) (v v' : View) : Type 0 where
  pub kept : IsKept r dom s s' v v'
  pub tagged : IsTagged s' v'
  pub no_current : v' (cur_key dom) ≡ []
  pub no_old : v' 0 ≡ []
  pub no_young : v' 1 ≡ []
  pub forth :
      (i q : ℕ)
      → mine dom i ≡ true
      → has q (v i) ≡ true
      → (j : ℕ) × (own dom j ≡ true) × (has q (v' j) ≡ true)
  pub back :
      (j q : ℕ)
      → own dom j ≡ true
      → has q (v' j) ≡ true
      → (i : ℕ) × (mine dom i ≡ true) × (has q (v i) ≡ true)
  pub short_young : length (v' (young_key dom)) ≤ n
  pub short_old : length (v' (old_key dom)) ≤ n
  pub short_free : length (v' (free_key dom)) ≤ n

own-cur : (dom : ℕ) → own dom (cur_key dom) ≡ false
own-cur dom = ground arith

own-young : (dom : ℕ) → own dom (young_key dom) ≡ true
own-young dom = ground arith

mine-own : (dom i : ℕ) → own dom i ≡ true → mine dom i ≡ true
mine-own dom i h = ground (arith, h)

module _ (r : Runtime) (dom : ℕ) (s s1 : State) (v v1 : View)
    (u : IsUncurrent r dom s s1 v v1) where
  uncurrent-forth :
      (i q : ℕ)
      → mine dom i ≡ true
      → has q (v i) ≡ true
      → (j : ℕ) × (own dom j ≡ true) × (has q (v1 j) ≡ true)
  uncurrent-forth i q h m = elim (eq_cases i (cur_key dom)) [
    | inl e ↦
        let m' = subst (λ j. has q (v j) ≡ true) e m in
        (young_key dom, own-young dom, u.members q ∙ ap (λ b. b || has q (v (young_key dom))) m')
    | inr n ↦ elim (eq_cases i (young_key dom)) [
      | inl e ↦
          let m' = subst (λ j. has q (v j) ≡ true) e m in
          (young_key dom, own-young dom, u.members q ∙ ground (arith, m'))
      | inr k ↦
          let o = ne→== i (cur_key dom) n in
          (i, ground (arith, h, o), ap (has q) (u.others i n k) ∙ m)
    ]
  ]

  uncurrent-back :
      (j q : ℕ)
      → own dom j ≡ true
      → has q (v1 j) ≡ true
      → (i : ℕ) × (mine dom i ≡ true) × (has q (v i) ≡ true)
  uncurrent-back j q h m = elim (eq_cases j (young_key dom)) [
    | inl e ↦
        let m' : (has q (v (cur_key dom)) || has q (v (young_key dom))) ≡ true =
          sym (u.members q) ∙ subst (λ i. has q (v1 i) ≡ true) e m in
        elim (Bool-cases (has q (v (cur_key dom)))) [
          | inl k ↦ (cur_key dom, ground arith, k)
          | inr k ↦
              (young_key dom, mine-own dom (young_key dom) (own-young dom), ground (arith, m', k))
        ]
    | inr k ↦
        let n : j ≢ cur_key dom =
          λ e. false≢true (sym (own-cur dom) ∙ subst (λ i. own dom i ≡ true) e h) in
        (j, mine-own dom j h, ap (has q) (sym (u.others j n k)) ∙ m)
  ]

module _ (r : Runtime) (ok : IsRuntime r) (dom n : ℕ) (s : State) (v : View) (inv : IsHeap r s v)
    (ready : Ready s dom) (tagged : IsTagged s v) (fuel : 2 * pools_of dom v ≤ n) where
  abbrev s1 : State
  s1 = move_current_to_young dom s

  abbrev Gathers : Type 0
  Gathers =
      (s2 : State) × (gc_pool_rings n dom s1 ≡ some s2)
      × (s3 : State) × (adopt_orphaned_pools n dom s2 ≡ some s3)
      × (v3 : View) × IsGathered r dom n s s3 v v3

  gathered :
      (v1 : View) (s2 : State) (v2 : View) (s3 : State) (v3 : View)
      → IsUncurrent r dom s s1 v v1
      → IsGcedAll r dom s1 s2 v1 v2
      → IsAdopted r dom s2 s3 v2 v3
      → IsGathered r dom n s s3 v v3
  gathered v1 s2 v2 s3 v3 u g a =
      let old1 =
        ap length (u.others (old_key dom) (λ e. omega (arith, e)) (λ e. omega (arith, e))) in
      let free1 =
        ap length (u.others (free_key dom) (λ e. omega (arith, e)) (λ e. omega (arith, e))) in
      let zero2 = ap length (
        g.others 0 (λ e. omega (arith, e)) (λ e. omega (arith, e)) (λ e. omega (arith, e))
        ∙ u.others 0 (λ e. omega (arith, e)) (λ e. omega (arith, e))) in
      let one2 = ap length (
        g.others 1 (λ e. omega (arith, e)) (λ e. omega (arith, e)) (λ e. omega (arith, e))
        ∙ u.others 1 (λ e. omega (arith, e)) (λ e. omega (arith, e))) in
      let free3 =
        ap length
          (a.others (free_key dom) (omega arith) (λ e. omega (arith, e)) (λ e. omega (arith, e))) in
      record {
        kept = IsKept-trans r dom s s1 s3 v v1 v3 u.kept (
            IsKept-trans r dom s1 s2 s3 v1 v2 v3 (IsKept-IsShuffled r dom s1 s2 v1 v2 g.shuffled)
              (IsKept-IsShuffled r dom s2 s3 v2 v3 a.shuffled));
        tagged = a.tagged;
        no_current =
            a.shuffled.local.same (cur_key dom) (own-cur dom)
            ∙ g.shuffled.local.same (cur_key dom) (own-cur dom)
            ∙ u.no_current;
        no_old = a.no_old;
        no_young = a.no_young;
        forth = λ i q h m.
            let (j, o, m1) = uncurrent-forth r dom s s1 v v1 u i q h m in
            let (k, o2, m2) = g.shuffled.local.forth j q o m1 in a.shuffled.local.forth k q o2 m2;
        back = λ j q o m.
            let (k, o2, m2) = a.shuffled.local.back j q o m in
            let (l, o1, m1) = g.shuffled.local.back k q o2 m2 in
            uncurrent-back r dom s s1 v v1 u l q o1 m1;
        short_young = omega (arith, fuel, a.length_young, one2, g.shorter_young, u.length_young);
        short_old = omega (arith, fuel, a.length_old, zero2, g.shorter_old, old1);
        short_free = omega (arith, fuel, free3, g.total, u.length_young, old1, free1);
      }

  pub gather-IsGathered : Gathers
  gather-IsGathered =
      let (v1, u) = move_current_to_young-IsUncurrent r ok dom s v inv ready tagged in
      let ready1 = u.kept.ready ready in
      let old1 =
        ap length (u.others (old_key dom) (λ e. omega (arith, e)) (λ e. omega (arith, e))) in
      let (s2, done2, v2, g) =
        gc_pool_rings-IsGcedAll r ok dom n s1 v1 u.kept.heap ready1 u.tagged u.no_current
          (omega (arith, fuel, u.length_young)) (omega (arith, fuel, old1)) in
      let zero2 = ap length (
        g.others 0 (λ e. omega (arith, e)) (λ e. omega (arith, e)) (λ e. omega (arith, e))
        ∙ u.others 0 (λ e. omega (arith, e)) (λ e. omega (arith, e))) in
      let one2 = ap length (
        g.others 1 (λ e. omega (arith, e)) (λ e. omega (arith, e)) (λ e. omega (arith, e))
        ∙ u.others 1 (λ e. omega (arith, e)) (λ e. omega (arith, e))) in
      let (s3, done3, v3, a) =
        adopt_orphaned_pools-IsAdopted r ok dom n s2 v2 g.shuffled.heap
          (g.shuffled.frame.ready ready1) g.tagged (omega (arith, fuel, zero2))
          (omega (arith, fuel, one2)) in
      (s2, done2, s3, done3, v3, gathered v1 s2 v2 s3 v3 u g a)
