-- ===== src/Ring/Walk.antt =====
-- The loops over a ring visit each node once, in ring order, and come to an end.
use ocaml_boxroot.Prelude.{
  ℕ, zero, suc, ◌≤◌, ◌≡◌, sym, ◌∙◌, List, [], ◌∷◌, arith, length, last, NotIn, eq→==, ne→==,
}
use ocaml_boxroot.Ring.{Links, ring_walk}
use ocaml_boxroot.Ring.Paths.{PathTo, IsRing}

walk-PathTo :
    (f : ℕ) (l : Links) (start a : ℕ) (xs : List ℕ)
    → length (a ∷ xs) ≤ f
    → PathTo l a xs
    → l.next (last a xs) ≡ start
    → NotIn start xs
    → ring_walk f l a start ≡ a ∷ xs
unfolding ring_walk
walk-PathTo zero l start a xs h p e d = absurd (omega arith)
walk-PathTo (suc f) l start a [] h p e d = rw (eq→== (l.next a) start e)
walk-PathTo (suc f) l start a (y ∷ ys) h p e d =
    rw (ne→== (l.next a) start (λ k. d.0 (sym k ∙ p.0.0)), p.0.0)
      (rw (walk-PathTo f l start y ys (omega arith) p.1 e d.1))

-- The loop `do { ... p = p->next; } while (p != start);` from the head of a ring that is not
-- empty, with fuel for as many rounds as it has nodes, visits each node of the ring once, in
-- order.
pub ring_walk-IsRing :
    (f : ℕ) (l : Links) (h x : ℕ) (xs : List ℕ)
    → IsRing l h (x ∷ xs)
    → length (x ∷ xs) ≤ f
    → ring_walk f l h h ≡ x ∷ xs
ring_walk-IsRing f l h x xs r k = rw r.0 (walk-PathTo f l x x xs k r.3 r.4.0 r.2.0)
