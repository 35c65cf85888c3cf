-- ===== src/Ring/Pop.antt =====
-- `ring_pop` splits off the head of a ring.
use ocaml_boxroot.Prelude.{
  ℕ, ◌≡◌, refl, sym, ◌≢◌, List, [], ◌∷◌, last, Apart, last-ne, eq→==, ne→==, NotIn-last,
}
use ocaml_boxroot.Ring.{Links, ring_link, ring_pop}
use ocaml_boxroot.Ring.Paths.{
  IsRing, NotBefore-of_NotIn, NotBefore-last, Linked-ring_link_self, Linked-ring_link_ne,
  PathTo-ring_link, SameAt, SameAt-ring_link, SameAt-trans,
}

abbrev rest_links : Links → ℕ → ℕ → List ℕ → Links
rest_links l x y ys = ring_link x x (ring_link (last y ys) y l)

module _ (l : Links) (x y : ℕ) (ys : List ℕ) {target : ℕ} (t : IsRing l target (x ∷ y ∷ ys)) where
  pop_lem : ring_pop target l ≡ (x, y, rest_links l x y ys)
  unfolding ring_pop
  pop_lem = rw (t.0, t.3.0.0, ne→== y x (λ e. t.2.0.0 (sym e)), t.4.1)

  rest-IsRing : IsRing (rest_links l x y ys) y (y ∷ ys)
  rest-IsRing = (
    refl,
    t.1.1,
    t.2.1,
    PathTo-ring_link x x _ y ys (NotBefore-of_NotIn x y ys t.2.0) t.2.0.1
        (PathTo-ring_link (last y ys) y l y ys (NotBefore-last y ys t.2.1) t.2.1.0 t.3.1),
    Linked-ring_link_ne x x (last y ys) y _ (λ e. last-ne x y ys t.2.0 (sym e))
        (λ e. t.2.0.0 (sym e)) (Linked-ring_link_self (last y ys) y l),
  )

pub single-IsRing : (l : Links) (x : ℕ) → x ≢ 0 → IsRing (ring_link x x l) x (x ∷ [])
single-IsRing l x h = (refl, ((λ e. h (sym e)), tt), (tt, tt), tt, Linked-ring_link_self x x l)

pop_single :
    (l : Links) (x : ℕ) {target : ℕ}
    → IsRing l target (x ∷ [])
    → ring_pop target l ≡ (x, 0, ring_link x x l)
unfolding ring_pop
pop_single l x t = rw (t.0, t.4.0, eq→== x x refl)

-- `ring_pop` of a ring that is not empty returns its head, which becomes a ring of one node, and
-- leaves at `*target` the ring of the other nodes in order, NULL if there are none.
pub ring_pop-IsRing :
    (l : Links) (target x : ℕ) (xs : List ℕ)
    → IsRing l target (x ∷ xs)
    → ((ring_pop target l).0 ≡ x)
      × IsRing (ring_pop target l).2 x (x ∷ [])
      × IsRing (ring_pop target l).2 (ring_pop target l).1 xs
ring_pop-IsRing l target x [] t =
    rw (pop_single l x t) (refl, single-IsRing l x (λ e. t.1.0 (sym e)), refl)
ring_pop-IsRing l target x (y ∷ ys) t =
    rw (pop_lem l x y ys t) (refl, single-IsRing _ x (λ e. t.1.0 (sym e)), rest-IsRing l x y ys t)

-- `ring_pop` of a ring that is not empty changes `next` and `prev` at no node outside the ring.
pub ring_pop-SameAt :
    (l : Links) (target x : ℕ) (xs zs : List ℕ)
    → IsRing l target (x ∷ xs)
    → Apart (x ∷ xs) zs
    → SameAt l (ring_pop target l).2 zs
ring_pop-SameAt l target x [] zs t h = rw (pop_single l x t) (SameAt-ring_link x x l zs h.0 h.0)
ring_pop-SameAt l target x (y ∷ ys) zs t h = rw (pop_lem l x y ys t) (
    SameAt-trans l (ring_link (last y ys) y l) _ zs
      (SameAt-ring_link (last y ys) y l zs (NotIn-last y ys zs h.1) h.1.0)
      (SameAt-ring_link x x _ zs h.0 h.0))
