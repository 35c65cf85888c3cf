-- ===== src/Dll/Modify.antt =====
-- `dll_boxroot_modify`.
use ocaml_boxroot.Prelude.{
  ℕ, ◌≡◌, refl, ◌∙◌, ap, true, false, not, ◌||◌, List, [], ◌∷◌, ◌++◌, All, subst, upd,
  if◌then◌else◌, Bool-cases, eq_cases, inl, inr, eq→==, ne→==,
}
use ocaml_boxroot.Words.{Runtime, is_young_block}
use ocaml_boxroot.Ring.Inside.{middle-Apart}
use ocaml_boxroot.Dll.{Dll, set_slot, ring_pop_elem, track_elem, dll_boxroot_modify}
use ocaml_boxroot.Dll.Invariant.{IsDll, All-upd}
use ocaml_boxroot.Dll.Create.{back_if, track_elem-IsDll, slots-track_elem}
use ocaml_boxroot.Dll.Delete.{Popped, pop_young, pop_old}

All-middle : (P : ℕ → Type 0) (x : ℕ) (before after : List ℕ) → All P (before ++ x ∷ after) → P x
All-middle P x [] after h = h.0
All-middle P x (a ∷ before) after h = All-middle P x before after h.1

All-upd_in :
    (P : ℕ → Type 0) (slots : ℕ → ℕ) (x v : ℕ) (xs : List ℕ)
    → P v
    → All (λ a. P (slots a)) xs
    → All (λ a. P (upd slots x v a)) xs
All-upd_in P slots x v [] p h = tt
All-upd_in P slots x v (y ∷ ys) p h = (
  elim (eq_cases y x) [ inl e ↦ rw (eq→== y x e) p | inr n ↦ rw (ne→== y x n) h.0 ],
  All-upd_in P slots x v ys p h.1,
)

-- What `dll_boxroot_modify` promises of the root `x` and the new value `v`.
abbrev pub Modified : Runtime → Dll → ℕ → ℕ → List ℕ → List ℕ → List ℕ → Type 0
Modified r s x v ys os fs =
    ((dll_boxroot_modify r x v s).0 ≡ x)
    × ((dll_boxroot_modify r x v s).1.slots ≡ upd s.slots x v)
    × IsDll r (dll_boxroot_modify r x v s).1 ys os fs

-- The branch that moves the element to the back of the young ring.
modify-moved :
    (r : Runtime) (s : Dll) (x v : ℕ) (ys os fs : List ℕ)
    → is_young_block r (s.slots x) ≡ false
    → is_young_block r v ≡ true
    → Popped r s ys os fs x (ring_pop_elem x s)
    → Modified r s x v (ys ++ x ∷ []) os fs
unfolding dll_boxroot_modify
modify-moved r s x v ys os fs h k (e, slots, inv, lone) =
    let s1 = (ring_pop_elem x s).1 in
    rw (h, k, e)
      (
        refl,
        slots-track_elem r s1 ys os fs x v inv lone ∙ ap (λ (m : ℕ → ℕ). upd m x v) slots,
        subst
            (λ b.
              IsDll r (track_elem r x (set_slot x v s1)) (back_if b x ys) (back_if (not b) x os) fs)
            k (track_elem-IsDll r s1 ys os fs x v inv lone),
      )

-- The branch that writes the slot in place.
modify-kept :
    (r : Runtime) (s : Dll) (x v : ℕ) (ys os fs : List ℕ)
    → (is_young_block r (s.slots x) || not (is_young_block r v)) ≡ true
    → IsDll r (set_slot x v s) ys os fs
    → Modified r s x v ys os fs
unfolding dll_boxroot_modify
modify-kept r s x v ys os fs h inv = rw h (refl, refl, inv)

-- In a well-formed state of dll_boxroot.c with the root `x` in any position of the old ring,
-- `dll_boxroot_modify` returns `x`, writes the new value to its slot and to no other, and keeps
-- the state well formed: `x` goes to the back of the young ring if the new value is a young block,
-- and else stays where it is.
pub dll_boxroot_modify-old :
    (r : Runtime) (s : Dll) (ys before : List ℕ) (x : ℕ) (after fs : List ℕ) (v : ℕ)
    → IsDll r s ys (before ++ x ∷ after) fs
    → Modified r s x v
        (back_if (is_young_block r v) x ys)
        (if is_young_block r v then before ++ after else before ++ x ∷ after)
        fs
dll_boxroot_modify-old r s ys before x after fs v inv =
    let old_value = All-middle _ x before after inv.old_values in
    elim (Bool-cases (is_young_block r v)) [
      | inl k ↦ rw k (
          modify-moved r s x v ys (before ++ after) fs old_value k
            (pop_old r s ys before x after fs inv))
      | inr k ↦
          let (out_free, _) = middle-Apart x before after fs inv.old_free in
          rw k (
            modify-kept r s x v ys (before ++ x ∷ after) fs (rw (old_value, k) refl) (record {
              young_ring = inv.young_ring;
              old_ring = inv.old_ring;
              free_ring = inv.free_ring;
              young_old = inv.young_old;
              young_free = inv.young_free;
              old_free = inv.old_free;
              old_values =
                  All-upd_in (λ a. is_young_block r a ≡ false) s.slots x v _ k inv.old_values;
              no_values = All-upd (λ a. a ≡ 0) s.slots x v fs out_free inv.no_values;
            }))
    ]

-- In a well-formed state of dll_boxroot.c with the root `x` in any position of the young ring,
-- `dll_boxroot_modify` returns `x`, writes the new value to its slot and to no other, and keeps
-- the state well formed: `x` stays where it is if its value is a young block or the new one is
-- not, and else goes to the back of the young ring.
pub dll_boxroot_modify-young :
    (r : Runtime) (s : Dll) (before : List ℕ) (x : ℕ) (after os fs : List ℕ) (v : ℕ)
    → IsDll r s (before ++ x ∷ after) os fs
    → Modified r s x v
        (if is_young_block r (s.slots x) || not (is_young_block r v)
          then before ++ x ∷ after
          else (before ++ after) ++ x ∷ [])
        os
        fs
dll_boxroot_modify-young r s before x after os fs v inv =
    let (out_old, _) = middle-Apart x before after os inv.young_old in
    let (out_free, _) = middle-Apart x before after fs inv.young_free in
    let kept : IsDll r (set_slot x v s) (before ++ x ∷ after) os fs = record {
      young_ring = inv.young_ring;
      old_ring = inv.old_ring;
      free_ring = inv.free_ring;
      young_old = inv.young_old;
      young_free = inv.young_free;
      old_free = inv.old_free;
      old_values = All-upd (λ a. is_young_block r a ≡ false) s.slots x v os out_old inv.old_values;
      no_values = All-upd (λ a. a ≡ 0) s.slots x v fs out_free inv.no_values;
    } in
    elim (Bool-cases (is_young_block r (s.slots x))) [
      | inl h ↦ rw h (modify-kept r s x v (before ++ x ∷ after) os fs (rw h refl) kept)
      | inr h ↦ elim (Bool-cases (is_young_block r v)) [
        | inl k ↦
            rw (h, k)
              (modify-moved r s x v (before ++ after) os fs h k
                (pop_young r s before x after os fs inv))
        | inr k ↦ rw (h, k) (modify-kept r s x v (before ++ x ∷ after) os fs (rw (h, k) refl) kept)
      ]
    ]
