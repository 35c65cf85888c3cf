-- ===== src/Boxroot/Heap/MineRoots.antt =====
-- The boxroots of a domain and of the orphans, before and after their pools have gathered.
use ocaml_boxroot.Prelude.{
  ℕ, ◌≡◌, sym, ◌∙◌, ap, subst, ◌⊎◌, inl, inr, true, List, [], ◌++◌, some, arith, has, Bool-cases,
  eq_cases, ne→==, ==→eq,
}
use mathlib.Core.Bool.{false≢true}
use ocaml_boxroot.Words.{Runtime, IsRuntime}
use ocaml_boxroot.Pool.Count.{InPool}
use ocaml_boxroot.Pool.Invariant.{has-append, root_value}
use ocaml_boxroot.Pool.Kept.{PoolAt}
use ocaml_boxroot.Boxroot.State.{State}
use ocaml_boxroot.Boxroot.Heap.{View, own, IsKept}
use ocaml_boxroot.Boxroot.Heap.Roots.{SameRoots}
use ocaml_boxroot.Boxroot.Heap.Scan.{Reached}
use ocaml_boxroot.Boxroot.Heap.GcStep.{free_key}
use ocaml_boxroot.Boxroot.Heap.Freed.{empty-no_root}
use ocaml_boxroot.Boxroot.Heap.Gather.{young_key, old_key, mine, IsGathered}

-- The boxroot `a` keeps `w` alive, and its pool is in a ring of the domain or of the orphans.
abbrev pub IsMineRoot : Runtime → ℕ → State → View → ℕ → ℕ → Type 0
IsMineRoot r dom s v a w =
    (q : ℕ) × (i : ℕ) × (mine dom i ≡ true)
    × (has q (v i) ≡ true)
    × InPool r q a
    × (root_value s.store q a ≡ some w)

pub SameRoots-IsKept :
    (r : Runtime) (dom : ℕ) (s s' : State) (v v' : View)
    → IsKept r dom s s' v v'
    → SameRoots r s.store s'.store v v'
SameRoots-IsKept r dom s s' v v' o a w = (
  (λ h. let (p, m, i, e) = h in (p, o.forth p m, i, o.values p a m i ∙ e)),
  (λ h. let (p, m, i, e) = h in (p, o.back p m, i, sym (o.values p a (o.back p m) i) ∙ e)),
)

-- A ring of the domain or of the orphans, once the orphans have none.
own_cases :
    (dom j : ℕ)
    → own dom j ≡ true
    → (j ≡ old_key dom) ⊎ (j ≡ young_key dom) ⊎ (j ≡ free_key dom) ⊎ (j ≡ 0) ⊎ (j ≡ 1) ⊎ (j ≡ 3)
own_cases dom j h = elim (eq_cases j (old_key dom)) [
  | inl e ↦ inl e
  | inr a ↦ elim (eq_cases j (young_key dom)) [
    | inl e ↦ inr (inl e)
    | inr b ↦ elim (eq_cases j (free_key dom)) [
      | inl e ↦ inr (inr (inl e))
      | inr c ↦ elim (eq_cases j 0) [
        | inl e ↦ inr (inr (inr (inl e)))
        | inr d ↦ elim (eq_cases j 1) [
          | inl e ↦ inr (inr (inr (inr (inl e))))
          | inr f ↦
              let na = ne→== j (old_key dom) a in
              let nb = ne→== j (young_key dom) b in
              let nc = ne→== j (free_key dom) c in
              let nd = ne→== j 0 d in
              let nf = ne→== j 1 f in
              inr (inr (inr (inr (inr (==→eq j 3 (ground (arith, h, na, nb, nc, nd, nf)))))))
        ]
      ]
    ]
  ]
]

module _ (r : Runtime) (ok : IsRuntime r) (dom n : ℕ) (s s' : State) (v v' : View)
    (g : IsGathered r dom n s s' v v') where
  nowhere : (q j : ℕ) → v' j ≡ [] → has q (v' j) ≡ true → ⊥
  nowhere q j e m = false≢true (ap (has q) (sym e) ∙ m)

  abbrev both : List ℕ
  both = v' (young_key dom) ++ v' (old_key dom)

  -- A pool with a boxroot is in the young or in the old ring of the domain now.
  gathered-in :
      (q j a w : ℕ)
      → own dom j ≡ true
      → has q (v' j) ≡ true
      → InPool r q a
      → root_value s'.store q a ≡ some w
      → has q both ≡ true
  gathered-in q j a w h m i e =
      let split = has-append q (v' (young_key dom)) (v' (old_key dom)) in
      let at : (k : ℕ) → j ≡ k → has q (v' k) ≡ true =
        λ k l. subst (λ x. has q (v' x) ≡ true) l m in
      elim (own_cases dom j h) [
        | inl k ↦ let o = at (old_key dom) k in split ∙ ground (arith, o)
        | inr (inl k) ↦ let y = at (young_key dom) k in split ∙ ground (arith, y)
        | inr (inr (inl k)) ↦
            let f = at (free_key dom) k in
            absurd (
              empty-no_root r ok s'.store q a w
                (subst (PoolAt r s'.store q) (ground arith) (g.kept.heap.pools (free_key dom) q f))
                ((g.tagged.tags (free_key dom) q f).empty (ground arith)) i e)
        | inr (inr (inr (inl k))) ↦ absurd (nowhere q 0 g.no_old (at 0 k))
        | inr (inr (inr (inr (inl k)))) ↦ absurd (nowhere q 1 g.no_young (at 1 k))
        | inr (inr (inr (inr (inr k)))) ↦
            absurd (false≢true (sym (g.tagged.no_free_orphans q) ∙ at 3 k))
      ]

  pub Reached-mine : (a w : ℕ) → IsMineRoot r dom s v a w → Reached r ok s' v' g.kept.heap dom n a w
  Reached-mine a w (q, i, h, m, k, e) =
      let (j, o, m') = g.forth i q h m in
      let e' = g.kept.values q a (i, m) k ∙ e in (q, gathered-in q j a w o m' k e', k, e')

  pub mine-Reached : (a w : ℕ) → Reached r ok s' v' g.kept.heap dom n a w → IsMineRoot r dom s v a w
  mine-Reached a w (q, m, k, e) =
      let split = sym (has-append q (v' (young_key dom)) (v' (old_key dom))) ∙ m in
      let found : (j : ℕ) × (own dom j ≡ true) × (has q (v' j) ≡ true) =
        elim (Bool-cases (has q (v' (young_key dom)))) [
          | inl y ↦ (young_key dom, ground arith, y)
          | inr y ↦ (old_key dom, ground arith, ground (arith, split, y))
        ] in
      let (i, h, m') = g.back found.0 q found.1 found.2 in
      (q, i, h, m', k, sym (g.kept.values q a (i, m') k) ∙ e)
