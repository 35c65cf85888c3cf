-- ===== src/Pool/Chain.antt =====
-- Free lists: chains of slots that end in a pointer to the pool.
use ocaml_boxroot.Prelude.{
  ℕ, ◌≡◌, refl, sym, List, [], ◌∷◌, ◌++◌, upd, upd_self, upd_ne, last, NotIn, Distinct, last-ne,
}

-- From `a` the slots lead through those of the list, in order, to `p`.
abbrev pub Chain : (ℕ → ℕ) → ℕ → ℕ → List ℕ → Type 0
Chain m p a [] = a ≡ p
Chain m p a (x ∷ xs) = (a ≡ x) × Chain m p (m x) xs

-- "if non-empty, points to last cell"
abbrev pub Ends : List ℕ → ℕ → Type 0
Ends [] e = Unit {0}
Ends (x ∷ xs) e = e ≡ last x xs

pub Chain-upd :
    (m : ℕ → ℕ) (p a s v : ℕ) (xs : List ℕ) → NotIn s xs → Chain m p a xs → Chain (upd m s v) p a xs
Chain-upd m p a s v [] h c = c
Chain-upd m p a s v (x ∷ xs) h c =
    (c.0, rw (upd_ne m s v x (λ e. h.0 (sym e))) (Chain-upd m p (m x) s v xs h.1 c.1))

-- A chain whose last slot is made to point at the start of another one.
pub Chain-append :
    (m : ℕ → ℕ) (p a b x : ℕ) (xs ys : List ℕ)
    → Distinct (x ∷ xs)
    → NotIn (last x xs) ys
    → Chain m p a (x ∷ xs)
    → Chain m p b ys
    → Chain (upd m (last x xs) b) p a (x ∷ xs ++ ys)
Chain-append m p a b x [] ys d n c e = (c.0, rw (upd_self m x b) (Chain-upd m p b x b ys n e))
Chain-append m p a b x (y ∷ zs) ys d n c e = (
  c.0,
  rw (upd_ne m (last y zs) b x (last-ne x y zs d.0)) (Chain-append m p (m x) b y zs ys d.1 n c.1 e),
)

pub Ends-append :
    (x : ℕ) (xs ys : List ℕ) (e : ℕ) → Ends ys e → (ys ≡ [] → e ≡ last x xs) → Ends (x ∷ xs ++ ys) e
Ends-append x [] [] e h k = k refl
Ends-append x [] (y ∷ ys) e h k = h
Ends-append x (z ∷ zs) ys e h k = Ends-append z zs ys e h k

pub Ends-tail : (x : ℕ) (xs : List ℕ) (e : ℕ) → Ends (x ∷ xs) e → Ends xs e
Ends-tail x [] e h = tt
Ends-tail x (y ∷ ys) e h = h

pub Ends-cons : (s : ℕ) (xs : List ℕ) (e : ℕ) → Ends xs e → (xs ≡ [] → e ≡ s) → Ends (s ∷ xs) e
Ends-cons s [] e h k = k refl
Ends-cons s (y ∷ ys) e h k = h
