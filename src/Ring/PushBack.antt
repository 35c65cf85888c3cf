-- ===== src/Ring/PushBack.antt =====
-- `ring_push_back` appends the source's nodes to the target's.
use ocaml_boxroot.Prelude.{
  ℕ, ◌≡◌, refl, sym, ◌∙◌, subst, List, [], ◌∷◌, ◌++◌, last, last-append, NotIn, Apart, NotIn-append,
  Distinct-append, NotIn-last, Apart-symm, last-ne_of_NotIn, ne→==,
}
use mathlib.Core.List.{append-nil}
use ocaml_boxroot.Ring.{Links, ring_link, ring_push_back}
use ocaml_boxroot.Ring.Paths.{
  Linked, PathTo, IsRing, NotBefore-of_NotIn, NotBefore-last, Linked-ring_link_self,
  Linked-ring_link_ne, PathTo-ring_link, PathTo-append, SameAt, SameAt-ring_link, SameAt-trans,
  SameAt-refl,
}

-- The links after two rings are joined by their ends.
abbrev joined : Links → ℕ → List ℕ → ℕ → List ℕ → Links
joined l x xs y ys = ring_link (last y ys) x (ring_link (last x xs) y l)

module _ (l : Links) (x : ℕ) (xs : List ℕ) (y : ℕ) (ys : List ℕ) {target source : ℕ}
    (t : IsRing l target (x ∷ xs)) (s : IsRing l source (y ∷ ys))
    (apart : Apart (x ∷ xs) (y ∷ ys)) where
  out : NotIn (last x xs) (y ∷ ys)
  out = NotIn-last x xs (y ∷ ys) apart

  back : Apart (y ∷ ys) (x ∷ xs)
  back = Apart-symm (x ∷ xs) (y ∷ ys) apart

  out' : NotIn (last y ys) (x ∷ xs)
  out' = NotIn-last y ys (x ∷ xs) back

  front_path : PathTo (joined l x xs y ys) x xs
  front_path =
      PathTo-ring_link (last y ys) x (ring_link (last x xs) y l) x xs
        (NotBefore-of_NotIn _ x xs out') t.2.0
        (PathTo-ring_link (last x xs) y l x xs (NotBefore-last x xs t.2) back.0.1 t.3)

  back_path : PathTo (joined l x xs y ys) y ys
  back_path =
      PathTo-ring_link (last y ys) x (ring_link (last x xs) y l) y ys (NotBefore-last y ys s.2)
        apart.0.1 (PathTo-ring_link (last x xs) y l y ys (NotBefore-of_NotIn _ y ys out) s.2.0 s.3)

  bridge : Linked (joined l x xs y ys) (last x xs) y
  bridge =
      Linked-ring_link_ne (last y ys) x (last x xs) y (ring_link (last x xs) y l)
        (last-ne_of_NotIn (last x xs) y ys out) (λ e. apart.0.0 (sym e))
        (Linked-ring_link_self (last x xs) y l)

  joined-IsRing : IsRing (joined l x xs y ys) x (x ∷ xs ++ y ∷ ys)
  joined-IsRing = (
    refl,
    NotIn-append 0 (x ∷ xs) (y ∷ ys) t.1 s.1,
    Distinct-append (x ∷ xs) (y ∷ ys) t.2 s.2 apart,
    PathTo-append (joined l x xs y ys) x xs y ys front_path bridge back_path,
    subst (λ z. Linked (joined l x xs y ys) z x) (sym (last-append x xs y ys))
        (Linked-ring_link_self (last y ys) x (ring_link (last x xs) y l)),
  )

  joined-SameAt :
      (zs : List ℕ) → Apart (x ∷ xs) zs → Apart (y ∷ ys) zs → SameAt l (joined l x xs y ys) zs
  joined-SameAt zs h k =
      SameAt-trans l (ring_link (last x xs) y l) (joined l x xs y ys) zs
        (SameAt-ring_link (last x xs) y l zs (NotIn-last x xs zs h) k.0)
        (SameAt-ring_link (last y ys) x (ring_link (last x xs) y l) zs (NotIn-last y ys zs k) h.0)

  push_back_lem : ring_push_back source target l ≡ (x, (joined l x xs y ys))
  unfolding ring_push_back
  push_back_lem =
      rw (t.0, s.0, ne→== y 0 (λ e. s.1.0 (sym e)), ne→== x 0 (λ e. t.1.0 (sym e)), t.4.1, s.4.1)

push_back_nil :
    (l : Links) (source target : ℕ) → source ≡ 0 → ring_push_back source target l ≡ (target, l)
unfolding ring_push_back
push_back_nil l source target s = rw s

push_back_empty :
    (l : Links) (source target y : ℕ) (ys : List ℕ)
    → target ≡ 0
    → IsRing l source (y ∷ ys)
    → ring_push_back source target l ≡ (source, l)
unfolding ring_push_back
push_back_empty l source target y ys t s = rw (t, ne→== source 0 (λ e. s.1.0 (sym e ∙ s.0)))

-- For two rings with no common node, either of which may be NULL, `ring_push_back` of
-- dll_boxroot.c leaves at `*target` one ring with the target's nodes followed by the source's, in
-- order.
pub ring_push_back-IsRing :
    (l : Links) (source target : ℕ) (xs ys : List ℕ)
    → IsRing l target xs
    → IsRing l source ys
    → Apart xs ys
    → IsRing (ring_push_back source target l).1 (ring_push_back source target l).0 (xs ++ ys)
ring_push_back-IsRing l source target xs [] t s apart =
    rw (push_back_nil l source target s) (subst (IsRing l target) (sym (append-nil xs)) t)
ring_push_back-IsRing l source target [] (y ∷ ys) t s apart =
    rw (push_back_empty l source target y ys t s) s
ring_push_back-IsRing l source target (x ∷ xs) (y ∷ ys) t s apart =
    rw (push_back_lem l x xs y ys t s apart) (joined-IsRing l x xs y ys t s apart)

-- `ring_push_back` of two rings with no common node changes `next` and `prev` at no node outside
-- the two.
pub ring_push_back-SameAt :
    (l : Links) (source target : ℕ) (xs ys zs : List ℕ)
    → IsRing l target xs
    → IsRing l source ys
    → Apart xs ys
    → Apart xs zs
    → Apart ys zs
    → SameAt l (ring_push_back source target l).1 zs
ring_push_back-SameAt l source target xs [] zs t s apart h k =
    rw (push_back_nil l source target s) (SameAt-refl l zs)
ring_push_back-SameAt l source target [] (y ∷ ys) zs t s apart h k =
    rw (push_back_empty l source target y ys t s) (SameAt-refl l zs)
ring_push_back-SameAt l source target (x ∷ xs) (y ∷ ys) zs t s apart h k =
    rw (push_back_lem l x xs y ys t s apart) (joined-SameAt l x xs y ys t s apart zs h k)
