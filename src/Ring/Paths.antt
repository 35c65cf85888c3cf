-- ===== src/Ring/Paths.antt =====
-- Paths along the links, and the ring as a path that closes.
use ocaml_boxroot.Prelude.{
  ℕ, ◌≡◌, refl, sym, ◌≢◌, List, [], ◌∷◌, ◌++◌, arith, upd_self, upd_ne, last, NotIn, Distinct,
  last-ne,
}
use ocaml_boxroot.Ring.{Links, ring_link}

abbrev pub Linked : Links → ℕ → ℕ → Type 0
Linked l p q = (l.next p ≡ q) × (l.prev q ≡ p)

-- From `a` the links lead through the nodes of the list, in order.
abbrev pub PathTo : Links → ℕ → List ℕ → Type 0
PathTo l a [] = Unit {0}
PathTo l a (y ∷ ys) = Linked l a y × PathTo l y ys

-- The ring with head `h` holds the nodes of the list, each once, the head first.
abbrev pub IsRing : Links → ℕ → List ℕ → Type 0
IsRing l h [] = h ≡ 0
IsRing l h (x ∷ xs) =
    (h ≡ x) × NotIn 0 (x ∷ xs) × Distinct (x ∷ xs) × PathTo l x xs × Linked l (last x xs) x

-- `a` is none of `x ∷ xs`, except perhaps the last.
abbrev pub NotBefore : ℕ → ℕ → List ℕ → Type 0
NotBefore a x [] = Unit {0}
NotBefore a x (y ∷ ys) = (x ≢ a) × NotBefore a y ys

pub NotBefore-of_NotIn : (a x : ℕ) (xs : List ℕ) → NotIn a (x ∷ xs) → NotBefore a x xs
NotBefore-of_NotIn a x [] h = tt
NotBefore-of_NotIn a x (y ∷ ys) h = (λ e. h.0 (sym e), NotBefore-of_NotIn a y ys h.1)

pub NotBefore-last : (x : ℕ) (xs : List ℕ) → Distinct (x ∷ xs) → NotBefore (last x xs) x xs
NotBefore-last x [] d = tt
NotBefore-last x (y ∷ ys) d = (last-ne x y ys d.0, NotBefore-last y ys d.1)

pub Linked-ring_link_self : (p q : ℕ) (l : Links) → Linked (ring_link p q l) p q
unfolding ring_link
Linked-ring_link_self p q l = (upd_self l.next p q, upd_self l.prev q p)

pub Linked-ring_link_ne :
    (p q a b : ℕ) (l : Links) → a ≢ p → b ≢ q → Linked l a b → Linked (ring_link p q l) a b
unfolding ring_link
Linked-ring_link_ne p q a b l h k e = ground arith

pub PathTo-ring_link :
    (p q : ℕ) (l : Links) (a : ℕ) (xs : List ℕ)
    → NotBefore p a xs
    → NotIn q xs
    → PathTo l a xs
    → PathTo (ring_link p q l) a xs
PathTo-ring_link p q l a [] h k path = tt
PathTo-ring_link p q l a (y ∷ ys) h k path = (
  Linked-ring_link_ne p q a y l h.0 (λ e. k.0 (sym e)) path.0,
  PathTo-ring_link p q l y ys h.1 k.1 path.1,
)

pub PathTo-append :
    (l : Links) (x : ℕ) (xs : List ℕ) (y : ℕ) (ys : List ℕ)
    → PathTo l x xs
    → Linked l (last x xs) y
    → PathTo l y ys
    → PathTo l x (xs ++ y ∷ ys)
PathTo-append l x [] y ys p e q = (e, q)
PathTo-append l x (z ∷ zs) y ys p e q = (p.0, PathTo-append l z zs y ys p.1 e q)

-- Nothing is changed at the nodes of the list.
abbrev pub SameAt : Links → Links → List ℕ → Type 0
SameAt l l' [] = Unit {0}
SameAt l l' (z ∷ zs) = (l'.next z ≡ l.next z) × (l'.prev z ≡ l.prev z) × SameAt l l' zs

pub SameAt-last :
    (l l' : Links) (x : ℕ) (xs : List ℕ)
    → SameAt l l' (x ∷ xs)
    → (l'.next (last x xs) ≡ l.next (last x xs))
SameAt-last l l' x [] s = s.0
SameAt-last l l' x (y ∷ ys) s = SameAt-last l l' y ys s.2

PathTo-SameAt :
    (l l' : Links) (x : ℕ) (xs : List ℕ) → SameAt l l' (x ∷ xs) → PathTo l x xs → PathTo l' x xs
PathTo-SameAt l l' x [] s p = tt
PathTo-SameAt l l' x (y ∷ ys) s p = (ground arith, PathTo-SameAt l l' y ys s.2 p.1)

-- A ring survives any change that spares its nodes.
pub IsRing-SameAt :
    (l l' : Links) (h : ℕ) (xs : List ℕ) → SameAt l l' xs → IsRing l h xs → IsRing l' h xs
IsRing-SameAt l l' h [] s r = r
IsRing-SameAt l l' h (x ∷ xs) s r =
    (r.0, r.1, r.2, PathTo-SameAt l l' x xs s r.3, ground (arith, SameAt-last l l' x xs s))

pub SameAt-ring_link :
    (p q : ℕ) (l : Links) (zs : List ℕ) → NotIn p zs → NotIn q zs → SameAt l (ring_link p q l) zs
unfolding ring_link
SameAt-ring_link p q l [] h k = tt
SameAt-ring_link p q l (z ∷ zs) h k = (
  upd_ne l.next p q z (λ e. h.0 (sym e)),
  upd_ne l.prev q p z (λ e. k.0 (sym e)),
  SameAt-ring_link p q l zs h.1 k.1,
)

pub SameAt-trans : (l m n : Links) (zs : List ℕ) → SameAt l m zs → SameAt m n zs → SameAt l n zs
SameAt-trans l m n [] s t = tt
SameAt-trans l m n (z ∷ zs) s t = (ground arith, ground arith, SameAt-trans l m n zs s.2 t.2)

pub SameAt-refl : (l : Links) (zs : List ℕ) → SameAt l l zs
SameAt-refl l [] = tt
SameAt-refl l (z ∷ zs) = (refl, refl, SameAt-refl l zs)
