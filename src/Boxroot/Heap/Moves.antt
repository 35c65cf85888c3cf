-- ===== src/Boxroot/Heap/Moves.antt =====
-- `reclassify_pool` keeps the state well formed.
use ocaml_boxroot.Prelude.{
  ℕ, ◌≡◌, refl, sym, ◌∙◌, ap, subst, ◌≢◌, inl, inr, Bool, true, false, ◌||◌, List, [], ◌∷◌, ◌++◌,
  arith, has, upd, ◌==◌, if◌then◌else◌, Bool-cases, eq_cases, eq→==, ne→==,
}
use mathlib.Core.Bool.{false≢true}
use ocaml_boxroot.Words.{Runtime, IsRuntime}
use ocaml_boxroot.Pool.{Class, young, old, untracked, is_not_too_full}
use ocaml_boxroot.Pool.Invariant.{has-append}
use ocaml_boxroot.Boxroot.State.{State, Place}
use ocaml_boxroot.Boxroot.Classes.{reclassify_pool}
use ocaml_boxroot.Boxroot.Rings.{key, IsGlobal}
use ocaml_boxroot.Boxroot.Reclassify.{settled, reclassified, target_key, reclassify_pool-IsRings}
use ocaml_boxroot.Boxroot.Heap.{View, own, Ready, IsLocal, IsHeap, IsShuffled}
use ocaml_boxroot.Boxroot.Heap.Local.{IsShuffled-intro}
use ocaml_boxroot.Boxroot.Heap.Relabel.{IsMine, reclassify_pool-IsRelabel}

pub has-settled :
    (p : ℕ) (b : Bool) (x : ℕ) (ys : List ℕ) → has p (settled b x ys) ≡ ((p == x) || has p ys)
has-settled p true x ys = refl
has-settled p false x ys = ground (arith, has-append p ys (x ∷ []))

pub own-target : (dom : ℕ) (cl : Class) → own dom (target_key dom cl) ≡ true
own-target dom old = ground arith
own-target dom young = ground arith
own-target dom untracked = ground arith

-- `xs` are `x` and the others `rest`.
abbrev pub IsWithout : ℕ → List ℕ → List ℕ → Type 0
IsWithout x xs rest = (p : ℕ) → has p xs ≡ ((p == x) || has p rest)

module _ (dom : ℕ) (v : View) (a c : ℕ) (b : Bool) (x : ℕ) (rest : List ℕ)
    (w : IsWithout x (v a) rest) (mine : own dom a ≡ true) (yours : own dom c ≡ true) where
  abbrev after : View
  after = reclassified v a c b x rest

  after-target : after c ≡ settled b x (upd v a rest c)
  after-target = rw (eq→== c c refl) refl

  after-other : (i : ℕ) → i ≢ c → after i ≡ upd v a rest i
  after-other i n = rw (ne→== i c n) refl

  kept_in-source :
      (j p : ℕ)
      → own dom j ≡ true
      → has p (upd v a rest j) ≡ true
      → (i : ℕ) × (own dom i ≡ true) × (has p (v i) ≡ true)
  kept_in-source j p h m = elim (eq_cases j a) [
    | inl e ↦ (a, mine, w p ∙ ground (arith, rw (eq→== j a e) at m))
    | inr n ↦ (j, h, rw (ne→== j a n) at m)
  ]

  after-back :
      (i p : ℕ)
      → own dom i ≡ true
      → has p (after i) ≡ true
      → (j : ℕ) × (own dom j ≡ true) × (has p (v j) ≡ true)
  after-back i p h m = elim (eq_cases i c) [
    | inl e ↦
        let m' : ((p == x) || has p (upd v a rest c)) ≡ true =
          sym (has-settled p b x (upd v a rest c))
          ∙ ap (has p) (sym after-target)
          ∙ ap (λ j. has p (after j)) (sym e)
          ∙ m in
        elim (Bool-cases (p == x)) [
          | inl same ↦ (a, mine, w p ∙ rw same refl)
          | inr other ↦ kept_in-source c p yours (rw other at m')
        ]
    | inr n ↦ kept_in-source i p h (ap (has p) (sym (after-other i n)) ∙ m)
  ]

  still-there :
      (j p : ℕ)
      → own dom j ≡ true
      → has p (upd v a rest j) ≡ true
      → (i : ℕ) × (own dom i ≡ true) × (has p (after i) ≡ true)
  still-there j p h m = elim (eq_cases j c) [
    | inl e ↦ (
      c,
      yours,
      ap (has p) after-target
          ∙ has-settled p b x (upd v a rest c)
          ∙ ground (arith, subst (λ k. has p (upd v a rest k) ≡ true) e m),
    )
    | inr n ↦ (j, h, ap (has p) (after-other j n) ∙ m)
  ]

  after-forth :
      (i p : ℕ)
      → own dom i ≡ true
      → has p (v i) ≡ true
      → (j : ℕ) × (own dom j ≡ true) × (has p (after j) ≡ true)
  after-forth i p h m = elim (eq_cases i a) [
    | inl e ↦
        let m' : ((p == x) || has p rest) ≡ true =
          sym (w p) ∙ subst (λ k. has p (v k) ≡ true) e m in
        elim (Bool-cases (p == x)) [
          | inl same ↦ (
            c,
            yours,
            ap (has p) after-target ∙ has-settled p b x (upd v a rest c) ∙ rw same refl,
          )
          | inr other ↦
              still-there a p mine
                (ap (λ k. has p (if k then rest else v a)) (eq→== a a refl) ∙ (rw other at m'))
        ]
    | inr n ↦ still-there i p h (ap (λ k. has p (if k then rest else v i)) (ne→== i a n) ∙ m)
  ]

  after-same : (i : ℕ) → own dom i ≡ false → after i ≡ v i
  after-same i h =
      let n : i ≢ c = λ e. false≢true (sym h ∙ ap (own dom) e ∙ yours) in
      let m : i ≢ a = λ e. false≢true (sym h ∙ ap (own dom) e ∙ mine) in
      after-other i n ∙ ap (λ k. if k then rest else v i) (ne→== i a m)

  pub reclassified-IsLocal : IsLocal dom v after
  reclassified-IsLocal = record { same = after-same; back = after-back; forth = after-forth }

IsWithout-head : (x : ℕ) (xs : List ℕ) (ys : List ℕ) → ys ≡ x ∷ xs → IsWithout x ys xs
IsWithout-head x xs ys e p = ap (has p) e

pub IsWithout-inside :
    (x : ℕ) (before after ys : List ℕ) → ys ≡ before ++ x ∷ after → IsWithout x ys (before ++ after)
IsWithout-inside x before after ys e p =
    ap (has p) e
    ∙ has-append p before (x ∷ after)
    ∙ swap (has p before) (p == x) (has p after)
    ∙ ap (λ b. (p == x) || b) (sym (has-append p before after))
  where
    swap : (a b c : Bool) → (a || (b || c)) ≡ (b || (a || c))
    swap true true c = refl
    swap true false c = refl
    swap false b c = refl

module _ (r : Runtime) (ok : IsRuntime r) (dom : ℕ) (s : State) (v : View) (inv : IsHeap r s v)
    (ready : Ready s dom) where
  -- The first pool of a ring of the domain.
  pub reclassify_pool-head :
      (source : Place) (cl : Class) (x : ℕ) (xs : List ℕ)
      → IsGlobal source
      → IsMine dom source
      → own dom (key source) ≡ true
      → v (key source) ≡ x ∷ xs
      → IsShuffled r dom s
          (reclassify_pool source dom cl s)
          v
          (reclassified v (key source) (target_key dom cl) (is_not_too_full x s.store) x xs)
  reclassify_pool-head source cl x xs g m o e =
      let relabel = reclassify_pool-IsRelabel r dom source cl s m in
      IsShuffled-intro r dom s (reclassify_pool source dom cl s) v _ inv ready
        (reclassified-IsLocal dom v (key source) (target_key dom cl) (is_not_too_full x s.store) x
          xs (IsWithout-head x xs (v (key source)) e) o (own-target dom cl))
        relabel.frame (reclassify_pool-IsRings s v source dom cl x xs g inv.rings e) ok
        (λ p i. relabel.kept p)
