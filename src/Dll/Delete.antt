-- ===== src/Dll/Delete.antt =====
-- `dll_boxroot_delete`.
use ocaml_boxroot.Prelude.{
  ℕ, ◌≡◌, refl, sym, ◌∙◌, ap, ◌≢◌, false, List, [], ◌∷◌, ◌++◌, All, All-append, NotIn, NotIn-right,
  Apart, Apart-symm, Apart-append, Distinct, upd, upd_self, ne→==,
}
use ocaml_boxroot.Words.{Runtime, is_young_block}
use ocaml_boxroot.Ring.{Links, ring_pop}
use ocaml_boxroot.Ring.Paths.{IsRing, IsRing-SameAt}
use ocaml_boxroot.Ring.Inside.{
  middle-NotIn, middle-Apart, ring_pop-inside, ring_pop-inside_SameAt, head-ne,
}
use ocaml_boxroot.Dll.{Dll, ring_pop_elem, delete_elem, dll_boxroot_delete}
use ocaml_boxroot.Dll.Invariant.{IsDll, IsLone, All-upd, pushed-IsRing, spared-IsRing}

middle-ne_zero : (x : ℕ) (before after : List ℕ) → NotIn 0 (before ++ x ∷ after) → x ≢ 0
middle-ne_zero x before after n e = (NotIn-right 0 before (x ∷ after) n).0 (sym e)

ring-NotIn_zero : (l : Links) (h : ℕ) (before : List ℕ) → IsRing l h before → NotIn 0 before
ring-NotIn_zero l h [] r = tt
ring-NotIn_zero l h (x ∷ before) r = r.1

ring-Distinct : (l : Links) (h : ℕ) (before : List ℕ) → IsRing l h before → Distinct before
ring-Distinct l h [] r = tt
ring-Distinct l h (x ∷ before) r = r.2

middle-All :
    (P : ℕ → Type 0) (x : ℕ) (before after : List ℕ)
    → All P (before ++ x ∷ after)
    → All P (before ++ after)
middle-All P x [] after h = h.1
middle-All P x (a ∷ before) after h = (h.0, middle-All P x before after h.1)

-- What `ring_pop_elem` promises.
abbrev pub Popped : Runtime → Dll → List ℕ → List ℕ → List ℕ → ℕ → ℕ × Dll → Type 0
Popped r s ys os fs x (elem, s') =
    (elem ≡ x) × (s'.slots ≡ s.slots) × IsDll r s' ys os fs × IsLone s' ys os fs x

pub pop_young :
    (r : Runtime) (s : Dll) (before : List ℕ) (x : ℕ) (after os fs : List ℕ)
    → IsDll r s (before ++ x ∷ after) os fs
    → Popped r s (before ++ after) os fs x (ring_pop_elem x s)
unfolding ring_pop_elem
pop_young r s before x after os fs inv =
    let t = inv.young_ring in
    let (front, single, rest) = ring_pop-inside s.links s.young x before after t in
    let (out_old, apart_old) = middle-Apart x before after os inv.young_old in
    let (out_free, apart_free) = middle-Apart x before after fs inv.young_free in
    let n =
      middle-ne_zero x before after (ring-NotIn_zero s.links s.young (before ++ x ∷ after) t) in
    let spared =
      λ (h : ℕ) (zs : List ℕ) (z : IsRing s.links h zs) (a : Apart (before ++ x ∷ after) zs).
        IsRing-SameAt s.links (ring_pop x s.links).2 h zs
          (ring_pop-inside_SameAt s.links s.young x before after zs t a) z in
    rw (front, ne→== s.old x (head-ne s.links s.old x os inv.old_ring n out_old))
      (
        refl,
        refl,
        record {
          young_ring = rest;
          old_ring = spared s.old os inv.old_ring inv.young_old;
          free_ring = spared s.free fs inv.free_ring inv.young_free;
          young_old = apart_old;
          young_free = apart_free;
          old_free = inv.old_free;
          old_values = inv.old_values;
          no_values = inv.no_values;
        },
        record {
          single = single;
          off_young =
              middle-NotIn x before after (ring-Distinct s.links s.young (before ++ x ∷ after) t);
          off_old = out_old;
          off_free = out_free;
        },
      )

pub pop_old :
    (r : Runtime) (s : Dll) (ys before : List ℕ) (x : ℕ) (after fs : List ℕ)
    → IsDll r s ys (before ++ x ∷ after) fs
    → Popped r s ys (before ++ after) fs x (ring_pop_elem x s)
unfolding ring_pop_elem
pop_old r s ys before x after fs inv =
    let t = inv.old_ring in
    let (front, single, rest) = ring_pop-inside s.links s.old x before after t in
    let old_young = Apart-symm ys (before ++ x ∷ after) inv.young_old in
    let (out_young, apart_young) = middle-Apart x before after ys old_young in
    let (out_free, apart_free) = middle-Apart x before after fs inv.old_free in
    let n = middle-ne_zero x before after (ring-NotIn_zero s.links s.old (before ++ x ∷ after) t) in
    let spared =
      λ (h : ℕ) (zs : List ℕ) (z : IsRing s.links h zs) (a : Apart (before ++ x ∷ after) zs).
        IsRing-SameAt s.links (ring_pop x s.links).2 h zs
          (ring_pop-inside_SameAt s.links s.old x before after zs t a) z in
    rw (front, ne→== s.young x (head-ne s.links s.young x ys inv.young_ring n out_young))
      (
        refl,
        refl,
        record {
          young_ring = spared s.young ys inv.young_ring old_young;
          old_ring = rest;
          free_ring = spared s.free fs inv.free_ring inv.old_free;
          young_old = Apart-symm (before ++ after) ys apart_young;
          young_free = inv.young_free;
          old_free = apart_free;
          old_values = middle-All _ x before after inv.old_values;
          no_values = inv.no_values;
        },
        record {
          single = single;
          off_young = out_young;
          off_old =
              middle-NotIn x before after (ring-Distinct s.links s.old (before ++ x ∷ after) t);
          off_free = out_free;
        },
      )

delete_elem-IsDll :
    (r : Runtime) (s : Dll) (ys os fs : List ℕ) (x : ℕ)
    → IsDll r s ys os fs
    → IsLone s ys os fs x
    → IsDll r (delete_elem x s) ys os (fs ++ x ∷ [])
unfolding delete_elem
delete_elem-IsDll r s ys os fs x inv lone = record {
  young_ring =
      spared-IsRing s.links x s.free fs inv.free_ring lone.single lone.off_free s.young ys
        inv.young_ring (Apart-symm ys fs inv.young_free) lone.off_young;
  old_ring =
      spared-IsRing s.links x s.free fs inv.free_ring lone.single lone.off_free s.old os
        inv.old_ring (Apart-symm os fs inv.old_free) lone.off_old;
  free_ring = pushed-IsRing s.links x s.free fs inv.free_ring lone.single lone.off_free;
  young_old = inv.young_old;
  young_free =
      Apart-symm (fs ++ x ∷ []) ys
        (Apart-append fs (x ∷ []) ys (Apart-symm ys fs inv.young_free) (lone.off_young, tt));
  old_free =
      Apart-symm (fs ++ x ∷ []) os
        (Apart-append fs (x ∷ []) os (Apart-symm os fs inv.old_free) (lone.off_old, tt));
  old_values = All-upd (λ v. is_young_block r v ≡ false) s.slots x 0 os lone.off_old inv.old_values;
  no_values =
      All-append _ fs (x ∷ []) (All-upd (λ v. v ≡ 0) s.slots x 0 fs lone.off_free inv.no_values)
        (upd_self s.slots x 0, tt);
}

-- What `dll_boxroot_delete` promises.
abbrev pub Deleted : Runtime → Dll → List ℕ → List ℕ → List ℕ → ℕ → Type 0
Deleted r s ys os fs x =
    IsDll r (dll_boxroot_delete x s) ys os (fs ++ x ∷ [])
    × ((dll_boxroot_delete x s).slots ≡ upd s.slots x 0)

slots-delete_elem : (x : ℕ) (s : Dll) → (delete_elem x s).slots ≡ upd s.slots x 0
unfolding delete_elem
slots-delete_elem x s = refl

Deleted-of_Popped :
    (r : Runtime) (s : Dll) (ys os fs : List ℕ) (x : ℕ)
    → Popped r s ys os fs x (ring_pop_elem x s)
    → Deleted r s ys os fs x
unfolding dll_boxroot_delete
Deleted-of_Popped r s ys os fs x (e, slots, inv, lone) = rw e (
  delete_elem-IsDll r (ring_pop_elem x s).1 ys os fs x inv lone,
  slots-delete_elem x (ring_pop_elem x s).1 ∙ ap (λ (m : ℕ → ℕ). upd m x 0) slots,
)

-- In a well-formed state of dll_boxroot.c with the root `x` in any position of the young ring,
-- `dll_boxroot_delete` puts its element at the back of the free ring and clears its slot; the
-- state stays well formed, the other elements stay in their rings in order, and no other slot is
-- changed.
pub dll_boxroot_delete-young :
    (r : Runtime) (s : Dll) (before : List ℕ) (x : ℕ) (after os fs : List ℕ)
    → IsDll r s (before ++ x ∷ after) os fs
    → Deleted r s (before ++ after) os fs x
dll_boxroot_delete-young r s before x after os fs inv =
    Deleted-of_Popped r s (before ++ after) os fs x (pop_young r s before x after os fs inv)

-- In a well-formed state of dll_boxroot.c with the root `x` in any position of the old ring,
-- `dll_boxroot_delete` puts its element at the back of the free ring and clears its slot; the
-- state stays well formed, the other elements stay in their rings in order, and no other slot is
-- changed.
pub dll_boxroot_delete-old :
    (r : Runtime) (s : Dll) (ys before : List ℕ) (x : ℕ) (after fs : List ℕ)
    → IsDll r s ys (before ++ x ∷ after) fs
    → Deleted r s ys (before ++ after) fs x
dll_boxroot_delete-old r s ys before x after fs inv =
    Deleted-of_Popped r s ys (before ++ after) fs x (pop_old r s ys before x after fs inv)
