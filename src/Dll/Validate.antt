-- ===== src/Dll/Validate.antt =====
-- `validate_all_rings` of boxroot/dll_boxroot.c.
use ocaml_boxroot.Prelude.{
  ℕ, zero, suc, ◌≤◌, ◌≡◌, refl, sym, ◌∙◌, ap, Bool, true, false, not, List, [], ◌∷◌, some, arith,
  length, last, All, NotIn, subst, ◌==◌, eq→==, ne→==,
}
use ocaml_boxroot.Words.{Runtime, is_young_block}
use ocaml_boxroot.Ring.Paths.{IsRing, PathTo, Linked}
use ocaml_boxroot.Dll.{Dll}
use ocaml_boxroot.Dll.Invariant.{IsDll}
use ocaml_boxroot.Dll.Scan.{check_ring, validate_free_ring, validate_old_ring, validate_all_rings}

check_path :
    (n : ℕ) (test : ℕ → Bool) (s : Dll) (start p : ℕ) (ys : List ℕ)
    → All (λ x. test x ≡ true) (p ∷ ys)
    → PathTo s.links p ys
    → Linked s.links (last p ys) start
    → NotIn start ys
    → suc (length ys) ≤ n
    → check_ring n test s start p ≡ some true
unfolding check_ring
check_path zero test s start p ys ok path close out fuel = absurd (omega (arith, fuel))
check_path (suc n) test s start p [] ok path close out fuel =
    rw (ok.0, eq→== (s.links.next p) start close.0, check_ring) refl
check_path (suc n) test s start p (y ∷ ys) ok path close out fuel =
    rw (ok.0, ne→== (s.links.next p) start (λ e. out.0 (sym e ∙ path.0.0)), check_ring)
      (rw path.0.0 (check_path n test s start y ys ok.1 path.1 close out.1 (omega (arith, fuel))))

All-map : (P Q : ℕ → Type 0) (xs : List ℕ) → ((a : ℕ) → P a → Q a) → All P xs → All Q xs
All-map P Q [] f h = tt
All-map P Q (x ∷ xs) f h = (f x h.0, All-map P Q xs f h.1)

validate_old_ring-IsRing :
    (r : Runtime) (n : ℕ) (s : Dll) (xs : List ℕ)
    → IsRing s.links s.old xs
    → All (λ x. is_young_block r (s.slots x) ≡ false) xs
    → length xs ≤ n
    → validate_old_ring r n s ≡ some true
unfolding validate_old_ring
validate_old_ring-IsRing r n s [] t ok fuel = rw (eq→== s.old 0 t) refl
validate_old_ring-IsRing r n s (x ∷ xs) t ok fuel = rw (ne→== s.old 0 (λ e. t.1.0 (sym e ∙ t.0))) (
    subst (λ h. check_ring n (λ elem. not (is_young_block r (s.slots elem))) s h h ≡ some true)
      (sym t.0)
      (check_path n (λ elem. not (is_young_block r (s.slots elem))) s x x xs
        (All-map _ _ (x ∷ xs) (λ a h. ap not h) ok) t.3 t.4 t.2.0 fuel))

validate_free_ring-IsRing :
    (n : ℕ) (s : Dll) (xs : List ℕ)
    → IsRing s.links s.free xs
    → All (λ x. s.slots x ≡ 0) xs
    → length xs ≤ n
    → validate_free_ring n s ≡ some true
unfolding validate_free_ring
validate_free_ring-IsRing n s [] t ok fuel = rw (eq→== s.free 0 t) refl
validate_free_ring-IsRing n s (x ∷ xs) t ok fuel = rw (ne→== s.free 0 (λ e. t.1.0 (sym e ∙ t.0))) (
    subst (λ h. check_ring n (λ elem. s.slots elem == 0) s h h ≡ some true) (sym t.0)
      (check_path n (λ elem. s.slots elem == 0) s x x xs
        (All-map _ _ (x ∷ xs) (λ a h. eq→== (s.slots a) 0 h) ok) t.3 t.4 t.2.0 fuel))

-- In a well-formed state of dll_boxroot.c and with fuel for as many rounds as the old and the free
-- ring have elements, `validate_all_rings` ends and none of its assertions fails.
pub validate_all_rings-IsDll :
    (r : Runtime) (n : ℕ) (s : Dll) (ys os fs : List ℕ)
    → IsDll r s ys os fs
    → length os ≤ n
    → length fs ≤ n
    → validate_all_rings r n s ≡ some true
unfolding validate_all_rings
validate_all_rings-IsDll r n s ys os fs inv fuel_os fuel_fs =
    rw
      (
        validate_old_ring-IsRing r n s os inv.old_ring inv.old_values fuel_os,
        validate_free_ring-IsRing n s fs inv.free_ring inv.no_values fuel_fs,
      )
      refl
