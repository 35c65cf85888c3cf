-- ===== src/Dll/Visit.antt =====
-- "Scanning" of boxroot/dll_boxroot.c, on the rings as lists.
use ocaml_boxroot.Prelude.{
  ℕ, zero, suc, ◌+◌, ◌≤◌, ◌≡◌, refl, sym, ◌∙◌, ap, true, false, List, [], ◌∷◌, ◌++◌, some, arith,
  length, last, Apart-symm, NotIn, eq→==, ne→==,
}
use ocaml_boxroot.Words.{Runtime}
use ocaml_boxroot.Ring.{ring_push_back}
use ocaml_boxroot.Ring.Paths.{IsRing, PathTo, Linked}
use ocaml_boxroot.Ring.PushBack.{ring_push_back-IsRing}
use ocaml_boxroot.Dll.{Dll, free_loop, free_ring}
use ocaml_boxroot.Dll.Invariant.{IsDll}
use ocaml_boxroot.Dll.Scan.{scan_loop, scan_ring, scan_roots}

scan_path :
    (n : ℕ) (s : Dll) (start p : ℕ) (ys : List ℕ) (w : ℕ)
    → PathTo s.links p ys
    → Linked s.links (last p ys) start
    → NotIn start ys
    → suc (length ys) ≤ n
    → scan_loop n s start p w ≡ some (p ∷ ys, suc (length ys) + w)
unfolding scan_loop
scan_path zero s start p ys w path close out fuel = absurd (omega (arith, fuel))
scan_path (suc n) s start p [] w path close out fuel =
    rw (eq→== (s.links.next p) start close.0, scan_loop)
      (ap (λ (m : ℕ). some (p ∷ [], m)) (omega arith))
scan_path (suc n) s start p (y ∷ ys) w path close out fuel =
    rw (ne→== (s.links.next p) start (λ e. out.0 (sym e ∙ path.0.0)), scan_loop)
      (rw path.0.0 (
        rw (scan_path n s start y ys (suc w) path.1 close out.1 (omega (arith, fuel)))
          (ap (λ (m : ℕ). some (p ∷ y ∷ ys, m)) (omega arith))))

-- The loop visits the whole ring.
scan_ring-IsRing :
    (n : ℕ) (s : Dll) (ring : ℕ) (xs : List ℕ)
    → IsRing s.links ring xs
    → length xs ≤ n
    → scan_ring n s ring ≡ some (xs, length xs)
unfolding scan_ring
scan_ring-IsRing n s ring [] r fuel = rw (eq→== ring 0 r) refl
scan_ring-IsRing n s ring (x ∷ xs) r fuel =
    rw (r.0, ne→== x 0 (λ e. r.1.0 (sym e)), scan_path n s x x xs 0 r.3 r.4 r.2.0 fuel)
      (ap (λ (m : ℕ). some (x ∷ xs, m)) (omega arith))

-- The free elements `xs` are given back, the latest first.
abbrev pub given_back : List ℕ → List ℕ → List ℕ
given_back [] gone = gone
given_back (x ∷ xs) gone = given_back xs (x ∷ gone)

free_path :
    (n : ℕ) (s : Dll) (start p : ℕ) (ys : List ℕ)
    → PathTo s.links p ys
    → Linked s.links (last p ys) start
    → NotIn start ys
    → suc (length ys) ≤ n
    → free_loop n start p s ≡ some (record s { freed = given_back (p ∷ ys) s.freed })
unfolding free_loop
free_path zero s start p ys path close out fuel = absurd (omega (arith, fuel))
free_path (suc n) s start p [] path close out fuel =
    rw (eq→== (s.links.next p) start close.0, free_loop) refl
free_path (suc n) s start p (y ∷ ys) path close out fuel =
    rw (ne→== (s.links.next p) start (λ e. out.0 (sym e ∙ path.0.0)), free_loop)
      (rw path.0.0 (
        free_path n (record s { freed = p ∷ s.freed }) start y ys path.1 close out.1
          (omega (arith, fuel))))

free_ring-IsRing :
    (n : ℕ) (s : Dll) (ring : ℕ) (xs : List ℕ)
    → IsRing s.links ring xs
    → length xs ≤ n
    → free_ring n ring s ≡ some (record s { freed = given_back xs s.freed })
unfolding free_ring
free_ring-IsRing n s ring [] r fuel = rw (eq→== ring 0 r) refl
free_ring-IsRing n s ring (x ∷ xs) r fuel =
    rw (r.0, ne→== x 0 (λ e. r.1.0 (sym e))) (free_path n s x x xs r.3 r.4 r.2.0 fuel)

-- In a well-formed state of dll_boxroot.c and with fuel for as many rounds as there are young
-- elements, `scan_roots` in a minor collection ends, calls the GC's action on each young element
-- once, in ring order, reports their number as the work, and leaves no young elements and an old
-- ring of the old elements followed by the young ones.
pub scan_roots-minor :
    (r : Runtime) (n : ℕ) (s : Dll) (ys os fs : List ℕ)
    → IsDll r s ys os fs
    → length ys ≤ n
    → (s' : Dll) × (scan_roots n true s ≡ some (ys, length ys, s'))
      × (s'.young ≡ 0)
      × IsRing s'.links s'.old (os ++ ys)
unfolding scan_roots
scan_roots-minor r n s ys os fs inv fuel = (
  record s {
    old = (ring_push_back s.young s.old s.links).0;
    links = (ring_push_back s.young s.old s.links).1;
    young = 0;
  },
  rw (scan_ring-IsRing n s s.young ys inv.young_ring fuel) refl,
  refl,
  ring_push_back-IsRing s.links s.young s.old os ys inv.old_ring inv.young_ring
      (Apart-symm ys os inv.young_old),
)

-- In a well-formed state of dll_boxroot.c and with fuel for as many rounds as each ring has
-- elements, `scan_roots` outside a minor collection ends, calls the GC's action on each young and
-- then each old element once, in ring order, reports their number as the work, gives back each
-- free element once, and changes nothing else.
pub scan_roots-major :
    (r : Runtime) (n : ℕ) (s : Dll) (ys os fs : List ℕ)
    → IsDll r s ys os fs
    → length ys ≤ n
    → length os ≤ n
    → length fs ≤ n
    → scan_roots n false s
      ≡ some (ys ++ os, length ys + length os, record s { freed = given_back fs s.freed; free = 0 })
unfolding scan_roots
scan_roots-major r n s ys os fs inv fuel_ys fuel_os fuel_fs =
    rw
      (
        scan_ring-IsRing n s s.young ys inv.young_ring fuel_ys,
        scan_ring-IsRing n s s.old os inv.old_ring fuel_os,
        free_ring-IsRing n s s.free fs inv.free_ring fuel_fs,
      )
      refl
