-- ===== src/Prelude/Lists.antt =====
-- Lists measured by native numbers, membership tests, and lists of distinct addresses.
use Prim.Native.Nat.{ℕ, suc, ◌+◌, ◌≤◌}
use mathlib.Core.Path.{◌≡◌, refl, sym, ap, subst, ◌∙◌}
use mathlib.Core.Logic.{◌≢◌, inl, inr}
use mathlib.Core.Bool.{Bool, true, false, not, ◌||◌}
use mathlib.Core.List.{List, [], ◌∷◌, ◌++◌}
use native.Mathlib.Omega.{arith}
use ocaml_boxroot.Prelude.Tests.{◌==◌, if◌then◌else◌, ==→ne, ==→eq, ne→==, eq→==, Bool-cases}

module _ {ℓ} {A : Type ℓ} where
  abbrev pub length : List A → ℕ
  length [] = 0
  length (x ∷ xs) = suc (length xs)

  pub length-append : (xs ys : List A) → length (xs ++ ys) ≡ length xs + length ys
  length-append [] ys = omega arith
  length-append (x ∷ xs) ys = omega (arith, length-append xs ys)

  abbrev pub filter : (A → Bool) → List A → List A
  filter f [] = []
  filter f (x ∷ xs) = if f x then x ∷ filter f xs else filter f xs

  abbrev pub All {κ} : (A → Type κ) → List A → Type κ
  All P [] = Unit
  All P (x ∷ xs) = P x × All P xs

  pub All-append {κ} : (P : A → Type κ) (xs ys : List A) → All P xs → All P ys → All P (xs ++ ys)
  All-append P [] ys hx hy = hy
  All-append P (x ∷ xs) ys hx hy = (hx.0, All-append P xs ys hx.1 hy)

-- The last of `x ∷ xs`.
abbrev pub last : ℕ → List ℕ → ℕ
last x [] = x
last x (y ∷ ys) = last y ys

pub last-append : (x : ℕ) (xs : List ℕ) (y : ℕ) (ys : List ℕ) → last x (xs ++ y ∷ ys) ≡ last y ys
last-append x [] y ys = refl
last-append x (z ∷ zs) y ys = last-append z zs y ys

abbrev pub has : ℕ → List ℕ → Bool
has a [] = false
has a (x ∷ xs) = (a == x) || has a xs

abbrev pub NotIn : ℕ → List ℕ → Type 0
NotIn a [] = Unit {0}
NotIn a (x ∷ xs) = (a ≢ x) × NotIn a xs

abbrev pub Distinct : List ℕ → Type 0
Distinct [] = Unit {0}
Distinct (x ∷ xs) = NotIn x xs × Distinct xs

-- No address stands in both lists.
abbrev pub Apart : List ℕ → List ℕ → Type 0
Apart [] ys = Unit {0}
Apart (x ∷ xs) ys = NotIn x ys × Apart xs ys

pub NotIn-append : (a : ℕ) (xs ys : List ℕ) → NotIn a xs → NotIn a ys → NotIn a (xs ++ ys)
NotIn-append a [] ys h k = k
NotIn-append a (x ∷ xs) ys h k = (h.0, NotIn-append a xs ys h.1 k)

pub Distinct-append :
    (xs ys : List ℕ) → Distinct xs → Distinct ys → Apart xs ys → Distinct (xs ++ ys)
Distinct-append [] ys hx hy ap = hy
Distinct-append (x ∷ xs) ys hx hy ap =
    (NotIn-append x xs ys hx.0 ap.0, Distinct-append xs ys hx.1 hy ap.1)

pub last-ne : (a x : ℕ) (xs : List ℕ) → NotIn a (x ∷ xs) → a ≢ last x xs
last-ne a x [] h = h.0
last-ne a x (y ∷ ys) h = last-ne a y ys h.1

pub Apart-cons : (xs : List ℕ) (y : ℕ) (ys : List ℕ) → Apart xs (y ∷ ys) → NotIn y xs × Apart xs ys
Apart-cons [] y ys h = (tt, tt)
Apart-cons (x ∷ xs) y ys h =
    let rest = Apart-cons xs y ys h.1 in ((λ e. h.0.0 (sym e), rest.0), (h.0.1, rest.1))

pub has-NotIn : (a : ℕ) (xs : List ℕ) → has a xs ≡ false → NotIn a xs
has-NotIn a [] h = tt
has-NotIn a (x ∷ xs) h = (ground arith, has-NotIn a xs (ground arith))

pub NotIn-has : (a : ℕ) (xs : List ℕ) → NotIn a xs → has a xs ≡ false
NotIn-has a [] h = refl
NotIn-has a (x ∷ xs) h = rw (ne→== a x h.0, NotIn-has a xs h.1)

pub NotIn-last : (x : ℕ) (xs ys : List ℕ) → Apart (x ∷ xs) ys → NotIn (last x xs) ys
NotIn-last x [] ys h = h.0
NotIn-last x (z ∷ zs) ys h = NotIn-last z zs ys h.1

pub Apart-symm : (xs ys : List ℕ) → Apart xs ys → Apart ys xs
Apart-symm xs [] h = tt
Apart-symm xs (y ∷ ys) h = let rest = Apart-cons xs y ys h in (rest.0, Apart-symm xs ys rest.1)

pub last-ne_of_NotIn : (a y : ℕ) (ys : List ℕ) → NotIn a (y ∷ ys) → a ≢ last y ys
last-ne_of_NotIn a y ys h = last-ne a y ys h

-- A filter counts the members of a list of distinct addresses that the other list contains.
pub length-filter-not {ℓ} :
    {A : Type ℓ} (f : A → Bool) (xs : List A)
    → length (filter f xs) + length (filter (λ a. not (f a)) xs) ≡ length xs
length-filter-not f [] = omega arith
length-filter-not f (x ∷ xs) = ground (arith, length-filter-not f xs)

pub filter-eq {ℓ} :
    {A : Type ℓ} (f g : A → Bool) (xs : List A)
    → All (λ a. f a ≡ g a) xs
    → filter f xs ≡ filter g xs
filter-eq f g [] h = refl
filter-eq f g (x ∷ xs) h = rw (h.0, filter-eq f g xs h.1)

abbrev pub has_in : List ℕ → ℕ → Bool
has_in l a = has a l

filter-cons_out :
    (x : ℕ) (l xs : List ℕ)
    → NotIn x xs
    → length (filter (has_in (x ∷ l)) xs) ≡ length (filter (has_in l) xs)
filter-cons_out x l [] h = refl
filter-cons_out x l (y ∷ ys) h =
    rw (ne→== y x (λ e. h.0 (sym e))) (ground (arith, filter-cons_out x l ys h.1))

filter-cons_in :
    (x : ℕ) (l xs : List ℕ)
    → NotIn x l
    → has x xs ≡ true
    → Distinct xs
    → length (filter (has_in (x ∷ l)) xs) ≡ suc (length (filter (has_in l) xs))
filter-cons_in x l [] n h d = cc
filter-cons_in x l (y ∷ ys) n h d = elim (Bool-cases (x == y)) [
  | inl e ↦
      let same = ==→eq x y e in
      rw (← same, eq→== x x refl, NotIn-has x l n)
        (ap suc (filter-cons_out x l ys (subst (λ z. NotIn z ys) (sym same) d.0)))
  | inr e ↦ ground (arith, filter-cons_in x l ys n, ==→ne x y e)
]

pub filter_none : (xs : List ℕ) → length (filter (has_in []) xs) ≡ 0
filter_none [] = refl
filter_none (x ∷ xs) = filter_none xs

pub length-filter-has :
    (l xs : List ℕ)
    → All (λ a. has a xs ≡ true) l
    → Distinct l
    → Distinct xs
    → length (filter (has_in l) xs) ≡ length l
length-filter-has [] xs h dl dx = filter_none xs
length-filter-has (x ∷ l) xs h dl dx =
    filter-cons_in x l xs dl.0 h.0 dx ∙ ap suc (length-filter-has l xs h.1 dl.1 dx)

pub length-filter-pos :
    (f : ℕ → Bool) (a : ℕ) (xs : List ℕ) → has a xs ≡ true → f a ≡ true → 1 ≤ length (filter f xs)
length-filter-pos f a [] h e = cc
length-filter-pos f a (x ∷ xs) h e = elim (Bool-cases (a == x)) [
  | inl k ↦ let e' : f x ≡ true = subst (λ z. f z ≡ true) (==→eq a x k) e in rw e' (omega arith)
  | inr k ↦ let rest = length-filter-pos f a xs (rw k at h) e in ground (arith, rest)
]

pub NotIn-left : (a : ℕ) (xs ys : List ℕ) → NotIn a (xs ++ ys) → NotIn a xs
NotIn-left a [] ys h = tt
NotIn-left a (x ∷ xs) ys h = (h.0, NotIn-left a xs ys h.1)

pub NotIn-right : (a : ℕ) (xs ys : List ℕ) → NotIn a (xs ++ ys) → NotIn a ys
NotIn-right a [] ys h = h
NotIn-right a (x ∷ xs) ys h = NotIn-right a xs ys h.1

pub All-of {ℓ} : {P : ℕ → Type ℓ} (xs : List ℕ) → ((a : ℕ) → has a xs ≡ true → P a) → All P xs
All-of [] h = tt
All-of (x ∷ xs) h = (h x (ground arith), All-of xs (λ a i. h a (ground arith)))

pub Distinct-left : (xs ys : List ℕ) → Distinct (xs ++ ys) → Distinct xs
Distinct-left [] ys h = tt
Distinct-left (x ∷ xs) ys h = (NotIn-left x xs ys h.0, Distinct-left xs ys h.1)

pub Distinct-right : (xs ys : List ℕ) → Distinct (xs ++ ys) → Distinct ys
Distinct-right [] ys h = h
Distinct-right (x ∷ xs) ys h = Distinct-right xs ys h.1

pub Apart-of_Distinct : (xs ys : List ℕ) → Distinct (xs ++ ys) → Apart xs ys
Apart-of_Distinct [] ys h = tt
Apart-of_Distinct (x ∷ xs) ys h = (NotIn-right x xs ys h.0, Apart-of_Distinct xs ys h.1)

pub Apart-append : (xs ys zs : List ℕ) → Apart xs zs → Apart ys zs → Apart (xs ++ ys) zs
Apart-append [] ys zs h k = k
Apart-append (x ∷ xs) ys zs h k = (h.0, Apart-append xs ys zs h.1 k)

pub Apart-left : (xs ys zs : List ℕ) → Apart (xs ++ ys) zs → Apart xs zs
Apart-left [] ys zs h = tt
Apart-left (x ∷ xs) ys zs h = (h.0, Apart-left xs ys zs h.1)

pub Apart-right : (xs ys zs : List ℕ) → Apart (xs ++ ys) zs → Apart ys zs
Apart-right [] ys zs h = h
Apart-right (x ∷ xs) ys zs h = Apart-right xs ys zs h.1
