-- ===== src/Dll/Invariant.antt =====
-- The well-formed states of boxroot/dll_boxroot.c: what its checks assume.
use ocaml_boxroot.Prelude.{
  ℕ, ◌≡◌, sym, false, List, [], ◌∷◌, ◌++◌, subst, All, NotIn, Apart, Apart-symm, upd, upd_ne,
}
use ocaml_boxroot.Words.{Runtime, is_young_block}
use ocaml_boxroot.Ring.{Links, ring_push_back}
use ocaml_boxroot.Ring.Paths.{IsRing, IsRing-SameAt}
use ocaml_boxroot.Ring.PushBack.{ring_push_back-IsRing, ring_push_back-SameAt}
use ocaml_boxroot.Dll.{Dll}

-- The young ring has the elements `ys`, the old one `os`, which hold no young block, and the free
-- one `fs`, which hold nothing. No element is in two rings.
pub record IsDll (r : Runtime) (s : Dll) (ys os fs : List ℕ) : Type 0 where
  pub young_ring : IsRing s.links s.young ys
  pub old_ring : IsRing s.links s.old os
  pub free_ring : IsRing s.links s.free fs
  pub young_old : Apart ys os
  pub young_free : Apart ys fs
  pub old_free : Apart os fs
  pub old_values : All (λ x. is_young_block r (s.slots x) ≡ false) os
  pub no_values : All (λ x. s.slots x ≡ 0) fs

-- The element `x` is a ring of its own, apart from the others.
pub record IsLone (s : Dll) (ys os fs : List ℕ) (x : ℕ) : Type 0 where
  pub single : IsRing s.links x (x ∷ [])
  pub off_young : NotIn x ys
  pub off_old : NotIn x os
  pub off_free : NotIn x fs

pub All-upd :
    (P : ℕ → Type 0) (slots : ℕ → ℕ) (x v : ℕ) (xs : List ℕ)
    → NotIn x xs
    → All (λ a. P (slots a)) xs
    → All (λ a. P (upd slots x v a)) xs
All-upd P slots x v [] n h = tt
All-upd P slots x v (y ∷ ys) n h =
    (subst P (sym (upd_ne slots x v y (λ e. n.0 (sym e)))) h.0, All-upd P slots x v ys n.1 h.1)

pub Apart-single : (x : ℕ) (xs : List ℕ) → NotIn x xs → Apart xs (x ∷ [])
Apart-single x xs n = Apart-symm (x ∷ []) xs (n, tt)

-- A ring with `x` behind its elements, and the other rings, after `ring_push_back`.
module _ (l : Links) (x head : ℕ) (xs : List ℕ) (t : IsRing l head xs)
    (single : IsRing l x (x ∷ [])) (n : NotIn x xs) where
  pub pushed-IsRing : IsRing (ring_push_back x head l).1 (ring_push_back x head l).0 (xs ++ x ∷ [])
  pushed-IsRing = ring_push_back-IsRing l x head xs (x ∷ []) t single (Apart-single x xs n)

  pub spared-IsRing :
      (h : ℕ) (zs : List ℕ)
      → IsRing l h zs
      → Apart xs zs
      → NotIn x zs
      → IsRing (ring_push_back x head l).1 h zs
  spared-IsRing h zs z a k =
      IsRing-SameAt l (ring_push_back x head l).1 h zs
        (ring_push_back-SameAt l x head xs (x ∷ []) zs t single (Apart-single x xs n) a (k, tt)) z
