-- ===== src/Ring/Rotate.antt =====
-- A ring has no first node but by its head: any node of it can be the head.
use ocaml_boxroot.Prelude.{
  ℕ, refl, sym, subst, List, [], ◌∷◌, ◌++◌, last, last-append, NotIn-append, NotIn-left,
  NotIn-right, Distinct-append, Distinct-left, Distinct-right, Apart-of_Distinct, Apart, Apart-symm,
}
use ocaml_boxroot.Ring.{Links}
use ocaml_boxroot.Ring.Paths.{Linked, PathTo, IsRing, PathTo-append}

PathTo-left :
    (l : Links) (a : ℕ) (xs : List ℕ) (y : ℕ) (ys : List ℕ)
    → PathTo l a (xs ++ y ∷ ys)
    → PathTo l a xs × Linked l (last a xs) y × PathTo l y ys
PathTo-left l a [] y ys p = (tt, p.0, p.1)
PathTo-left l a (x ∷ xs) y ys p = let (q, e, t) = PathTo-left l x xs y ys p.1 in ((p.0, q), e, t)

-- The ring `a ∷ xs ++ y ∷ ys` seen from `y`.
pub IsRing-rotate :
    (l : Links) (a : ℕ) (xs : List ℕ) (y : ℕ) (ys : List ℕ) {h : ℕ}
    → IsRing l h (a ∷ xs ++ y ∷ ys)
    → IsRing l y (y ∷ ys ++ a ∷ xs)
IsRing-rotate l a xs y ys r =
    let (p, e, q) = PathTo-left l a xs y ys r.3 in
    let apart : Apart (y ∷ ys) (a ∷ xs) =
      Apart-symm (a ∷ xs) (y ∷ ys) (Apart-of_Distinct (a ∷ xs) (y ∷ ys) r.2) in
    let close = subst (λ z. Linked l z a) (last-append a xs y ys) r.4 in
    (
      refl,
      NotIn-append 0 (y ∷ ys) (a ∷ xs) (NotIn-right 0 (a ∷ xs) (y ∷ ys) r.1)
          (NotIn-left 0 (a ∷ xs) (y ∷ ys) r.1),
      Distinct-append (y ∷ ys) (a ∷ xs) (Distinct-right (a ∷ xs) (y ∷ ys) r.2)
          (Distinct-left (a ∷ xs) (y ∷ ys) r.2) apart,
      PathTo-append l y ys a xs q close p,
      subst (λ z. Linked l z y) (sym (last-append y ys a xs)) e,
    )
