-- ===== src/Boxroot/Heap/Demote.antt =====
-- `try_demote_pool` keeps the state well formed.
use ocaml_boxroot.Prelude.{
  ℕ, ◌≤◌, ◌≡◌, refl, sym, ◌∙◌, ap, subst, ◌≢◌, inl, inr, true, false, not, ◌||◌, List, [], ◌∷◌,
  ◌++◌, arith, has, NotIn-has, NotIn-right, ◌==◌, if◌then◌else◌, Bool-cases, eq→==, ne→==, ==→eq,
  length,
}
use mathlib.Core.Bool.{false≢true}
use ocaml_boxroot.Words.{Runtime, IsRuntime}
use ocaml_boxroot.Ring.Paths.{IsRing}
use ocaml_boxroot.Pool.{Class, untracked, is_not_too_full}
use ocaml_boxroot.Boxroot.State.{
  State, Place, of_domain, variable, Field, old_ring, young_ring, current_ring, free_ring, rings_of,
  fl_of, get_place,
}
use ocaml_boxroot.Boxroot.Classes.{reclassify_pool, try_demote_pool}
use ocaml_boxroot.Boxroot.Rings.{key, IsGlobal}
use ocaml_boxroot.Boxroot.Heap.{View, own, cur_key, Ready, IsHeap}
use ocaml_boxroot.Boxroot.Heap.Local.{IsShuffled-refl}
use ocaml_boxroot.Boxroot.Heap.Relabel.{IsMine}
use ocaml_boxroot.Boxroot.Heap.Moves.{reclassify_pool-head}
use ocaml_boxroot.Boxroot.Heap.Inside.{reclassify_pool-inside}
use ocaml_boxroot.Boxroot.Heap.Collect.{Shuffles}
use ocaml_boxroot.Boxroot.Heap.Touch.{in_one_place}

-- The rings of pools that may hold boxroots.
pub data IsUsed : Field → Type 0 where
  used_old : IsUsed old_ring
  used_young : IsUsed young_ring
  used_current : IsUsed current_ring

has-split :
    (x : ℕ) (xs : List ℕ)
    → has x xs ≡ true
    → (before : List ℕ) × (after : List ℕ) × (xs ≡ before ++ x ∷ after)
has-split x [] h = absurd (false≢true h)
has-split x (y ∷ ys) h = elim (Bool-cases (x == y)) [
  | inl e ↦ ([], ys, ap (λ z. z ∷ ys) (sym (==→eq x y e)))
  | inr n ↦
      let (before, after, e) = has-split x ys (sym (ap (λ b. b || has x ys) n) ∙ h) in
      (y ∷ before, after, ap (λ zs. y ∷ zs) e)
]

module _ (r : Runtime) (ok : IsRuntime r) (dom : ℕ) (s : State) (v : View) (inv : IsHeap r s v)
    (ready : Ready s dom) (p : ℕ) where
  the_ring :
      (place : Place)
      → IsGlobal place
      → (xs : List ℕ) → v (key place) ≡ xs
      → IsRing s.store.links (get_place place s) xs
  the_ring place g xs e =
      subst (IsRing s.store.links (get_place place s)) e (inv.rings.rings place g)

  -- The head of another ring is not the pool.
  other_head :
      (place other : Place)
      → IsGlobal place
      → IsGlobal other
      → has p (v (key place)) ≡ true
      → key other ≢ key place
      → p ≢ get_place other s
  other_head place other g g' m n e = by_ring (v (key other)) refl (v (key place)) refl
    where
      by_ring : (xs : List ℕ) → v (key other) ≡ xs → (ys : List ℕ) → v (key place) ≡ ys → ⊥
      by_ring (x ∷ xs) k ys k' =
          let t = the_ring other g' (x ∷ xs) k in
          let h : has p (v (key other)) ≡ true = ap (has p) k ∙ rw (eq→== p x (e ∙ t.0)) refl in
          n (in_one_place v inv.rings.apart p (key place) (key other) m h)
      by_ring [] k [] k' = false≢true (sym (ap (has p) k') ∙ m)
      by_ring [] k (y ∷ ys) k' =
          let t = the_ring place g (y ∷ ys) k' in
          let z : p ≡ 0 = e ∙ the_ring other g' [] k in
          false≢true (
            sym (NotIn-has 0 (y ∷ ys) t.1)
            ∙ subst (λ q. has q (y ∷ ys) ≡ true) z (ap (has p) (sym k') ∙ m))

  -- From the place if the pool is its head, and else from the pool itself.
  from_place :
      (place : Place) (cl : Class)
      → IsGlobal place
      → IsMine dom place
      → own dom (key place) ≡ true
      → has p (v (key place)) ≡ true
      → Shuffles r dom s v
          (reclassify_pool (if p == get_place place s then place else variable p) dom cl s)
  from_place place cl g mine o m =
      by_before (has-split p (v (key place)) m).0 (has-split p (v (key place)) m).1
        (has-split p (v (key place)) m).2
    where
      by_before :
          (before after : List ℕ)
          → v (key place) ≡ before ++ p ∷ after
          → Shuffles r dom s v
              (reclassify_pool (if p == get_place place s then place else variable p) dom cl s)
      by_before [] after e =
          let t = the_ring place g (p ∷ after) e in
          rw (eq→== p (get_place place s) (sym t.0))
            (_, reclassify_pool-head r ok dom s v inv ready place cl p after g mine o e)
      by_before (a ∷ before) after e =
          let t = the_ring place g (a ∷ before ++ p ∷ after) e in
          rw
            (ne→== p (get_place place s)
              (λ k. (NotIn-right a before (p ∷ after) t.2.0).0 (sym (k ∙ t.0))))
            (_, reclassify_pool-inside r ok dom s v inv ready place cl a before p after g o e)

  -- The place that `try_demote_pool` takes the pool from.
  abbrev source : Place
  source =
      if p == (rings_of dom s).old
      then of_domain dom old_ring
      else if p == (rings_of dom s).young
      then of_domain dom young_ring
      else variable p

  demoted :
      (f : Field) (cl : Class)
      → IsUsed f
      → has p (v (key (of_domain dom f))) ≡ true
      → (p == (rings_of dom s).current) ≡ false
      → Shuffles r dom s v (reclassify_pool source dom cl s)
  demoted old_ring cl used_old m n =
      let other =
        other_head (of_domain dom old_ring) (of_domain dom young_ring) tt tt m
          (λ k. omega (arith, k)) in
      rw (ne→== p (rings_of dom s).young other)
        (from_place (of_domain dom old_ring) cl tt refl (ground arith) m)
  demoted young_ring cl used_young m n =
      let other =
        other_head (of_domain dom young_ring) (of_domain dom old_ring) tt tt m
          (λ k. omega (arith, k)) in
      rw (ne→== p (rings_of dom s).old other)
        (from_place (of_domain dom young_ring) cl tt refl (ground arith) m)
  demoted current_ring cl used_current m n =
      absurd (by_ring (v (cur_key dom)) refl m (inv.one_current dom))
    where
      by_ring :
          (xs : List ℕ)
          → v (cur_key dom) ≡ xs
          → has p (v (cur_key dom)) ≡ true
          → length (v (cur_key dom)) ≤ 1
          → ⊥
      by_ring [] e h l = false≢true (ap (has p) (sym e) ∙ h)
      by_ring (x ∷ []) e h l =
          let t = the_ring (of_domain dom current_ring) tt (x ∷ []) e in
          let h' : has p (x ∷ []) ≡ true = ap (has p) (sym e) ∙ h in
          let same : p ≡ x = ==→eq p x (ground (arith, h')) in
          false≢true (sym n ∙ eq→== p (rings_of dom s).current (same ∙ sym t.0))
      by_ring (x ∷ y ∷ ys) e h l =
          let l' : length (x ∷ y ∷ ys) ≤ 1 = subst (λ zs. length zs ≤ 1) e l in omega (arith, l')
  demoted free_ring cl u m n = elim u [ ]

  abbrev new_class : Class
  new_class = if (fl_of p s).alloc_count == 0 then untracked else (fl_of p s).class

  pub try_demote_pool-Shuffles :
      (f : Field)
      → IsUsed f
      → has p (v (key (of_domain dom f))) ≡ true
      → Shuffles r dom s v (try_demote_pool dom p s)
  unfolding try_demote_pool
  try_demote_pool-Shuffles f u m = elim (Bool-cases (p == (rings_of dom s).current)) [
    | inl e ↦ rw (e, try_demote_pool) (v, IsShuffled-refl r dom s v inv)
    | inr n ↦ elim (Bool-cases (is_not_too_full p s.store)) [
      | inr full ↦ rw (n, full, try_demote_pool) (v, IsShuffled-refl r dom s v inv)
      | inl t ↦
          subst (Shuffles r dom s v)
            (sym (
              ap
                (λ b.
                  if b || not (is_not_too_full p s.store)
                  then s
                  else reclassify_pool source dom new_class s)
                n
              ∙ ap (λ b. if not b then s else reclassify_pool source dom new_class s) t))
            (demoted f new_class u m n)
    ]
  ]
