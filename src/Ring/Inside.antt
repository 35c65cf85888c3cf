-- ===== src/Ring/Inside.antt =====
-- `ring_pop` of a node that need not be the head of its ring.
use ocaml_boxroot.Prelude.{
  ℕ, ◌≡◌, refl, sym, ◌∙◌, subst, ◌≢◌, List, [], ◌∷◌, ◌++◌, ◌==◌, if◌then◌else◌, NotIn, NotIn-right,
  NotIn-append, Distinct, Distinct-right, Apart-cons, Apart-of_Distinct, Apart, Apart-append,
  Apart-left, Apart-right, eq→==, ne→==,
}
use mathlib.Core.List.{append-nil}
use ocaml_boxroot.Ring.{Links, ring_pop}
use ocaml_boxroot.Ring.Paths.{IsRing, SameAt}
use ocaml_boxroot.Ring.Pop.{ring_pop-IsRing, ring_pop-SameAt}
use ocaml_boxroot.Ring.Rotate.{IsRing-rotate}

pub middle-NotIn :
    (x : ℕ) (before after : List ℕ) → Distinct (before ++ x ∷ after) → NotIn x (before ++ after)
middle-NotIn x before after d =
    NotIn-append x before after
      (Apart-cons before x after (Apart-of_Distinct before (x ∷ after) d)).0
      (Distinct-right before (x ∷ after) d).0

pub middle-Apart :
    (x : ℕ) (before after zs : List ℕ)
    → Apart (before ++ x ∷ after) zs
    → NotIn x zs × Apart (before ++ after) zs
middle-Apart x before after zs a =
    let right = Apart-right before (x ∷ after) zs a in
    (right.0, Apart-append before after zs (Apart-left before (x ∷ after) zs a) right.1)

-- The ring seen from `x`.
abbrev pub seen_from : ℕ → List ℕ → List ℕ → List ℕ
seen_from x before after = x ∷ after ++ before

pub seen_from-IsRing :
    (l : Links) (h x : ℕ) (before after : List ℕ)
    → IsRing l h (before ++ x ∷ after)
    → IsRing l x (seen_from x before after)
seen_from-IsRing l h x [] after r =
    subst (λ zs. IsRing l x (x ∷ zs)) (sym (append-nil after)) (refl, r.1, r.2, r.3, r.4)
seen_from-IsRing l h x (a ∷ before) after r = IsRing-rotate l a before x after r

pub inside-head :
    (l : Links) (h x a : ℕ) (before after : List ℕ) → IsRing l h (a ∷ before ++ x ∷ after) → h ≢ x
inside-head l h x a before after r e = (NotIn-right a before (x ∷ after) r.2.0).0 (sym r.0 ∙ e)

turn_back :
    (l : Links) (h rest a : ℕ) (before after : List ℕ)
    → h ≡ a
    → IsRing l rest (after ++ a ∷ before)
    → IsRing l h (a ∷ before ++ after)
turn_back l h rest a before [] e r =
    subst (λ zs. IsRing l h (a ∷ zs)) (sym (append-nil before)) (e, r.1, r.2, r.3, r.4)
turn_back l h rest a before (b ∷ after) e r =
    let t = IsRing-rotate l b after a before r in (e, t.1, t.2, t.3, t.4)

-- `x` becomes a ring of its own, and the ring that it leaves has kept its order and, if it was not
-- `x`, its head.
pub ring_pop-inside :
    (l : Links) (h x : ℕ) (before after : List ℕ)
    → IsRing l h (before ++ x ∷ after)
    → ((ring_pop x l).0 ≡ x)
      × IsRing (ring_pop x l).2 x (x ∷ [])
      × IsRing (ring_pop x l).2 (if h == x then (ring_pop x l).1 else h) (before ++ after)
ring_pop-inside l h x [] after r =
    rw (eq→== h x r.0) (ring_pop-IsRing l x x after (refl, r.1, r.2, r.3, r.4))
ring_pop-inside l h x (a ∷ before) after r =
    let (front, single, rest) =
      ring_pop-IsRing l x x (after ++ a ∷ before) (seen_from-IsRing l h x (a ∷ before) after r) in
    rw (ne→== h x (inside-head l h x a before after r))
      (front, single, turn_back (ring_pop x l).2 h (ring_pop x l).1 a before after r.0 rest)

pub ring_pop-inside_SameAt :
    (l : Links) (h x : ℕ) (before after zs : List ℕ)
    → IsRing l h (before ++ x ∷ after)
    → Apart (before ++ x ∷ after) zs
    → SameAt l (ring_pop x l).2 zs
ring_pop-inside_SameAt l h x before after zs r out =
    let right = Apart-right before (x ∷ after) zs out in
    ring_pop-SameAt l x x (after ++ before) zs (seen_from-IsRing l h x before after r)
      (right.0, Apart-append after before zs right.1 (Apart-left before (x ∷ after) zs out))

-- The head of another ring is another node.
pub head-ne : (l : Links) (h x : ℕ) (xs : List ℕ) → IsRing l h xs → x ≢ 0 → NotIn x xs → h ≢ x
head-ne l h x [] r n out e = n (sym e ∙ r)
head-ne l h x (y ∷ ys) r n out e = out.0 (sym e ∙ r.0)
