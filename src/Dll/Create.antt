-- ===== src/Dll/Create.antt =====
-- `dll_boxroot_create`.
use ocaml_boxroot.Prelude.{
  ℕ, ◌≡◌, refl, sym, ◌∙◌, ap, ◌≢◌, Bool, true, false, not, List, [], ◌∷◌, ◌++◌, some, All-append,
  NotIn, Apart, Apart-symm, Apart-append, Apart-cons, subst, upd, upd_self, ne→==, eq→==,
  Bool-cases, inl, inr,
}
use ocaml_boxroot.Words.{Runtime, is_young_block}
use ocaml_boxroot.Ring.{ring_pop, ring_link}
use ocaml_boxroot.Ring.Paths.{IsRing, IsRing-SameAt, SameAt-ring_link}
use ocaml_boxroot.Ring.Pop.{ring_pop-IsRing, ring_pop-SameAt, single-IsRing}
use ocaml_boxroot.Dll.{Dll, set_slot, create_elem, track_elem, dll_boxroot_create}
use ocaml_boxroot.Dll.Invariant.{IsDll, IsLone, All-upd, pushed-IsRing, spared-IsRing}

-- Where an element is put: at the back of the ring that is told.
abbrev pub back_if : Bool → ℕ → List ℕ → List ℕ
back_if true x xs = xs ++ x ∷ []
back_if false x xs = xs

module _ (r : Runtime) (s : Dll) (ys os fs : List ℕ) (x init : ℕ) (inv : IsDll r s ys os fs)
    (lone : IsLone s ys os fs x) where
  track_young :
      is_young_block r init ≡ true
      → IsDll r (track_elem r x (set_slot x init s)) (ys ++ x ∷ []) os fs
  unfolding track_elem
  track_young h =
      rw (eq→== x x refl, h)
        (record {
          young_ring = pushed-IsRing s.links x s.young ys inv.young_ring lone.single lone.off_young;
          old_ring =
              spared-IsRing s.links x s.young ys inv.young_ring lone.single lone.off_young s.old os
                inv.old_ring inv.young_old lone.off_old;
          free_ring =
              spared-IsRing s.links x s.young ys inv.young_ring lone.single lone.off_young s.free fs
                inv.free_ring inv.young_free lone.off_free;
          young_old = Apart-append ys (x ∷ []) os inv.young_old (lone.off_old, tt);
          young_free = Apart-append ys (x ∷ []) fs inv.young_free (lone.off_free, tt);
          old_free = inv.old_free;
          old_values =
              All-upd (λ v. is_young_block r v ≡ false) s.slots x init os lone.off_old
                inv.old_values;
          no_values = All-upd (λ v. v ≡ 0) s.slots x init fs lone.off_free inv.no_values;
        })

  track_old :
      is_young_block r init ≡ false
      → IsDll r (track_elem r x (set_slot x init s)) ys (os ++ x ∷ []) fs
  unfolding track_elem
  track_old h =
      rw (eq→== x x refl, h)
        (record {
          young_ring =
              spared-IsRing s.links x s.old os inv.old_ring lone.single lone.off_old s.young ys
                inv.young_ring (Apart-symm ys os inv.young_old) lone.off_young;
          old_ring = pushed-IsRing s.links x s.old os inv.old_ring lone.single lone.off_old;
          free_ring =
              spared-IsRing s.links x s.old os inv.old_ring lone.single lone.off_old s.free fs
                inv.free_ring inv.old_free lone.off_free;
          young_old =
              Apart-symm (os ++ x ∷ []) ys
                (Apart-append os (x ∷ []) ys (Apart-symm ys os inv.young_old) (lone.off_young, tt));
          young_free = inv.young_free;
          old_free = Apart-append os (x ∷ []) fs inv.old_free (lone.off_free, tt);
          old_values =
              All-append _ os (x ∷ [])
                (All-upd (λ v. is_young_block r v ≡ false) s.slots x init os lone.off_old
                  inv.old_values)
                (subst (λ v. is_young_block r v ≡ false) (sym (upd_self s.slots x init)) h, tt);
          no_values = All-upd (λ v. v ≡ 0) s.slots x init fs lone.off_free inv.no_values;
        })

  pub track_elem-IsDll :
      IsDll r
        (track_elem r x (set_slot x init s))
        (back_if (is_young_block r init) x ys)
        (back_if (not (is_young_block r init)) x os)
        fs
  track_elem-IsDll = elim (Bool-cases (is_young_block r init)) [
    | inl h ↦ rw h (track_young h)
    | inr h ↦ rw h (track_old h)
  ]

  pub slots-track_elem : (track_elem r x (set_slot x init s)).slots ≡ upd s.slots x init
  unfolding track_elem
  slots-track_elem = elim (Bool-cases (is_young_block r init)) [
    | inl h ↦ rw (eq→== x x refl, h) refl
    | inr h ↦ rw (eq→== x x refl, h) refl
  ]

-- The next element is `x`: the first free one, or a new one if none is free.
abbrev pub Supplies : Dll → List ℕ → List ℕ → List ℕ → ℕ → Type 0
Supplies s ys os (y ∷ fs) x = y ≡ x
Supplies s ys os [] x = (more : List ℕ) × (s.memory ≡ x ∷ more) × (x ≢ 0) × NotIn x ys × NotIn x os

abbrev pub still_free : List ℕ → List ℕ
still_free [] = []
still_free (y ∷ fs) = fs

-- What `create_elem` promises.
abbrev Supplied : Runtime → Dll → List ℕ → List ℕ → List ℕ → ℕ → ℕ × Dll → Type 0
Supplied r s ys os fs x (elem, s') =
    (elem ≡ x) × (x ≢ 0) × (s'.slots ≡ s.slots) × IsDll r s' ys os fs × IsLone s' ys os fs x

create_elem-free :
    (r : Runtime) (s : Dll) (ys os : List ℕ) (x : ℕ) (fs : List ℕ)
    → IsDll r s ys os (x ∷ fs)
    → Supplied r s ys os fs x (create_elem s)
unfolding create_elem
create_elem-free r s ys os x fs inv =
    let t = inv.free_ring in
    let head : s.free ≢ 0 = λ h. t.1.0 (sym h ∙ t.0) in
    let (front, single, rest) = ring_pop-IsRing s.links s.free x fs t in
    let (out_young, ay) = Apart-cons ys x fs inv.young_free in
    let (out_old, ao) = Apart-cons os x fs inv.old_free in
    let spared = λ (h : ℕ) (zs : List ℕ) (z : IsRing s.links h zs) (a : Apart (x ∷ fs) zs).
      IsRing-SameAt s.links (ring_pop s.free s.links).2 h zs
        (ring_pop-SameAt s.links s.free x fs zs t a) z in
    rw (ne→== s.free 0 head) (
      front,
      λ h. t.1.0 (sym h),
      refl,
      record {
        young_ring = spared s.young ys inv.young_ring (Apart-symm ys (x ∷ fs) inv.young_free);
        old_ring = spared s.old os inv.old_ring (Apart-symm os (x ∷ fs) inv.old_free);
        free_ring = rest;
        young_old = inv.young_old;
        young_free = ay;
        old_free = ao;
        old_values = inv.old_values;
        no_values = inv.no_values.1;
      },
      record { single = single; off_young = out_young; off_old = out_old; off_free = t.2.0 },
    )

create_elem-new :
    (r : Runtime) (s : Dll) (ys os : List ℕ) (x : ℕ) (more : List ℕ)
    → IsDll r s ys os []
    → s.memory ≡ x ∷ more
    → x ≢ 0
    → NotIn x ys
    → NotIn x os
    → Supplied r s ys os [] x (create_elem s)
unfolding create_elem ring_link
create_elem-new r s ys os x more inv e n out_young out_old =
    rw (eq→== s.free 0 inv.free_ring, e, ne→== x 0 n)
      (
        refl,
        n,
        refl,
        record {
          young_ring =
              IsRing-SameAt s.links _ s.young ys
                (SameAt-ring_link x x s.links ys out_young out_young) inv.young_ring;
          old_ring =
              IsRing-SameAt s.links _ s.old os (SameAt-ring_link x x s.links os out_old out_old)
                inv.old_ring;
          free_ring = inv.free_ring;
          young_old = inv.young_old;
          young_free = inv.young_free;
          old_free = inv.old_free;
          old_values = inv.old_values;
          no_values = tt;
        },
        record {
          single = single-IsRing s.links x n;
          off_young = out_young;
          off_old = out_old;
          off_free = tt;
        },
      )

create_elem_lem :
    (r : Runtime) (s : Dll) (ys os fs : List ℕ) (x : ℕ)
    → IsDll r s ys os fs
    → Supplies s ys os fs x
    → Supplied r s ys os (still_free fs) x (create_elem s)
create_elem_lem r s ys os [] x inv (more, e, n, out_young, out_old) =
    create_elem-new r s ys os x more inv e n out_young out_old
create_elem_lem r s ys os (y ∷ fs) x inv e =
    subst (λ z. Supplied r s ys os fs z (create_elem s)) e (create_elem-free r s ys os y fs inv)

-- In a well-formed state of dll_boxroot.c whose next element is `x`, the first free one, or a new
-- one if none is free, `dll_boxroot_create` returns `x`, writes the value to it and to no other
-- element, and keeps the state well formed, with `x` at the back of the young ring if the value is
-- a young block and else at the back of the old one.
pub dll_boxroot_create-IsDll :
    (r : Runtime) (s : Dll) (ys os fs : List ℕ) (x init : ℕ)
    → IsDll r s ys os fs
    → Supplies s ys os fs x
    → (s' : Dll) × (dll_boxroot_create r init s ≡ some (x, s'))
      × (s'.slots ≡ upd s.slots x init)
      × IsDll r s'
          (back_if (is_young_block r init) x ys)
          (back_if (not (is_young_block r init)) x os)
          (still_free fs)
unfolding dll_boxroot_create
dll_boxroot_create-IsDll r s ys os fs x init inv sup =
    let (e, n, slots, inv', lone) = create_elem_lem r s ys os fs x inv sup in
    let s1 = (create_elem s).1 in
    (
      track_elem r x (set_slot x init s1),
      rw (e, ne→== x 0 n) refl,
      slots-track_elem r s1 ys os (still_free fs) x init inv' lone
          ∙ ap (λ (m : ℕ → ℕ). upd m x init) slots,
      track_elem-IsDll r s1 ys os (still_free fs) x init inv' lone,
    )
