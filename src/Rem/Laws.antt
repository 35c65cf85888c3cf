-- ===== src/Rem/Laws.antt =====
-- The free lists of a pool of rem_boxroot.c at a minor collection, and its remembered set.
use ocaml_boxroot.Prelude.{
  ℕ, ◌%◌, ◌≡◌, refl, sym, ◌∙◌, ap, subst, ◌≢◌, Bool, true, false, not, ◌||◌, List, [], ◌∷◌, ◌++◌,
  some, none, arith, has, last, NotIn, Distinct, Apart, upd, upd_self, upd_ne, last-ne_of_NotIn,
  ◌==◌, if◌then◌else◌, Bool-cases, eq_cases, inl, inr, eq→==, ne→==,
}
use mathlib.Core.Bool.{false≢true}
use ocaml_boxroot.Words.{Runtime, is_young_block}
use ocaml_boxroot.Rem.{Rem, Header, is_free_slot, tag_free_slot, untag_free_slot}
use ocaml_boxroot.Rem.Api.{flush_minor_free_list, rem_boxroot_modify}

-- The list that starts at `a` and is linked through tagged slots, up to the pool's address.
abbrev pub FreeChain : (ℕ → ℕ) → ℕ → ℕ → List ℕ → Type 0
FreeChain m p a [] = a ≡ p
FreeChain m p a (x ∷ xs) = (a ≡ x) × (x ≢ p) × FreeChain m p (untag_free_slot (m x)) xs

pub untag-tag : (a : ℕ) → a % 2 ≡ 0 → untag_free_slot (tag_free_slot a) ≡ a
unfolding untag_free_slot tag_free_slot
untag-tag a h = omega (arith, h)

pub FreeChain-upd :
    (m : ℕ → ℕ) (p a x w : ℕ) (ys : List ℕ)
    → NotIn x ys
    → FreeChain m p a ys
    → FreeChain (upd m x w) p a ys
FreeChain-upd m p a x w [] n c = c
FreeChain-upd m p a x w (y ∷ ys) n c = (
  c.0,
  c.1,
  subst (λ z. FreeChain (upd m x w) p (untag_free_slot z) ys)
      (sym (upd_ne m x w y (λ e. n.0 (sym e))))
      (FreeChain-upd m p (untag_free_slot (m y)) x w ys n.1 c.2),
)

FreeChain-last :
    (m : ℕ → ℕ) (p a x : ℕ) (xs : List ℕ)
    → FreeChain m p a (x ∷ xs)
    → untag_free_slot (m (last x xs)) ≡ p
FreeChain-last m p a x [] c = c.2
FreeChain-last m p a x (y ∷ ys) c = FreeChain-last m p (untag_free_slot (m x)) y ys c.2

-- A write to the last slot of a list puts another list behind.
FreeChain-link :
    (m : ℕ → ℕ) (p a b x : ℕ) (xs ys : List ℕ)
    → b % 2 ≡ 0
    → Distinct (x ∷ xs)
    → Apart (x ∷ xs) ys
    → FreeChain m p a (x ∷ xs)
    → FreeChain m p b ys
    → FreeChain (upd m (last x xs) (tag_free_slot b)) p a (x ∷ xs ++ ys)
FreeChain-link m p a b x [] ys even d apart c k = (
  c.0,
  c.1,
  subst (λ z. FreeChain (upd m x (tag_free_slot b)) p z ys)
      (sym (ap untag_free_slot (upd_self m x (tag_free_slot b)) ∙ untag-tag b even))
      (FreeChain-upd m p b x (tag_free_slot b) ys apart.0 k),
)
FreeChain-link m p a b x (y ∷ ys) zs even d apart c k = (
  c.0,
  c.1,
  subst (λ z. FreeChain (upd m (last y ys) (tag_free_slot b)) p (untag_free_slot z) (y ∷ ys ++ zs))
      (sym (upd_ne m (last y ys) (tag_free_slot b) x (last-ne_of_NotIn x y ys d.0)))
      (FreeChain-link m p (untag_free_slot (m x)) b y ys zs even d.1 apart.1 c.2 k),
)

-- If in a pool of rem_boxroot.c the minor free list is `x` and then `xs`, with the last of them
-- noted as its last slot, the major free list is `ys`, at an even address, the slots are distinct,
-- the last is not at address 0 and the word of `x` is a tagged one, then in a minor collection
-- `scan_pool` passes its assertions, the major free list becomes `x`, `xs` and then `ys`, and the
-- minor one is empty.
pub flush_minor_free_list-FreeChain :
    (p x : ℕ) (xs ys : List ℕ) (s : Rem)
    → FreeChain s.slots p (s.header p).minor_free_list (x ∷ xs)
    → FreeChain s.slots p (s.header p).major_free_list ys
    → (s.header p).last_minor_free_slot ≡ last x xs
    → last x xs ≢ 0
    → is_free_slot (s.slots x) p ≡ true
    → (s.header p).major_free_list % 2 ≡ 0
    → Distinct (x ∷ xs)
    → Apart (x ∷ xs) ys
    → (s' : Rem) × (flush_minor_free_list p s ≡ some s')
      × FreeChain s'.slots p (s'.header p).major_free_list (x ∷ xs ++ ys)
      × FreeChain s'.slots p (s'.header p).minor_free_list []
unfolding flush_minor_free_list
flush_minor_free_list-FreeChain p x xs ys s minor major tail nonzero tagged even d apart = (
  flushed,
  ap (λ b. if b then some s else if failed then none else some flushed)
        (ne→== h.minor_free_list p (λ e. minor.1 (sym minor.0 ∙ e)))
      ∙ ap (λ b. if b then none else some flushed) passed,
  subst (λ g. FreeChain flushed.slots p (g.major_free_list) (x ∷ xs ++ ys)) (sym new_header)
      (subst
        (λ l.
          FreeChain (upd s.slots l (tag_free_slot h.major_free_list)) p h.minor_free_list
            (x ∷ xs ++ ys))
        (sym tail)
        (FreeChain-link s.slots p h.minor_free_list h.major_free_list x xs ys even d apart minor
          major)),
  ap (λ (g : Header). g.minor_free_list) new_header,
)
  where
    h : Header
    h = s.header p

    h' : Header
    h' = record h { major_free_list = h.minor_free_list; minor_free_list = p }

    flushed : Rem
    flushed = record s {
      slots = upd s.slots h.last_minor_free_slot (tag_free_slot h.major_free_list);
      header = upd s.header p h';
    }

    new_header : flushed.header p ≡ h'
    new_header = upd_self s.header p h'

    failed : Bool
    failed =
        h.last_minor_free_slot == 0
        || not (is_free_slot (s.slots h.minor_free_list) p)
        || not (untag_free_slot (s.slots h.last_minor_free_slot) == p)

    passed : failed ≡ false
    passed =
        ap
          (λ b.
            b
            || not (is_free_slot (s.slots h.minor_free_list) p)
            || not (untag_free_slot (s.slots h.last_minor_free_slot) == p))
          (ne→== h.last_minor_free_slot 0 (λ e. nonzero (sym tail ∙ e)))
        ∙ ap (λ b. not b || not (untag_free_slot (s.slots h.last_minor_free_slot) == p))
            (ap (λ z. is_free_slot (s.slots z) p) minor.0 ∙ tagged)
        ∙ ap not (
            eq→== (untag_free_slot (s.slots h.last_minor_free_slot)) p (
              ap (λ z. untag_free_slot (s.slots z)) tail
              ∙ FreeChain-last s.slots p h.minor_free_list x xs minor))

-- If each slot with a young block is in the remembered set, then each is after
-- `rem_boxroot_modify`.
pub rem_boxroot_modify-Remembered :
    (r : Runtime) (cell new_value : ℕ) (s : Rem)
    → ((a : ℕ) → is_young_block r (s.slots a) ≡ true → has a s.remembered ≡ true)
    → (a : ℕ) → is_young_block r ((rem_boxroot_modify r cell new_value s).slots a) ≡ true
    → has a (rem_boxroot_modify r cell new_value s).remembered ≡ true
unfolding rem_boxroot_modify
rem_boxroot_modify-Remembered r cell new_value s ok a y =
    elim (Bool-cases (is_young_block r new_value)) [
      | inr e ↦
          rw (e, rem_boxroot_modify)
            (elim (eq_cases a cell) [
              | inl same ↦
                  absurd
                    (false≢true (sym e ∙ sym (ap (is_young_block r) (written a same)) ∙ value y))
              | inr other ↦ ok a (kept a other (value y))
            ])
      | inl e ↦ elim (Bool-cases (is_young_block r (s.slots cell))) [
        | inl was ↦
            rw (e, was, rem_boxroot_modify)
              (elim (eq_cases a cell) [
                | inl same ↦ ok a (ap (λ z. is_young_block r (s.slots z)) same ∙ was)
                | inr other ↦ ok a (kept a other (value y))
              ])
        | inr was ↦
            rw (e, was, rem_boxroot_modify)
              (elim (eq_cases a cell) [
                | inl same ↦ ap (λ b. b || has a s.remembered) (eq→== a cell same)
                | inr other ↦
                    ap (λ b. b || has a s.remembered) (ne→== a cell other)
                    ∙ ok a (kept a other (value y))
              ])
      ]
    ]
  where
    m : ℕ → ℕ
    m = upd s.slots cell new_value

    slots_lem : (rem_boxroot_modify r cell new_value s).slots ≡ m
    slots_lem = elim (Bool-cases (is_young_block r new_value)) [
      | inr e ↦ rw (e, rem_boxroot_modify) refl
      | inl e ↦ elim (Bool-cases (is_young_block r (s.slots cell))) [
        | inl was ↦ rw (e, was, rem_boxroot_modify) refl
        | inr was ↦ rw (e, was, rem_boxroot_modify) refl
      ]
    ]

    value :
        is_young_block r ((rem_boxroot_modify r cell new_value s).slots a) ≡ true
        → is_young_block r (m a) ≡ true
    value h = ap (λ (f : ℕ → ℕ). is_young_block r (f a)) (sym slots_lem) ∙ h

    written : (b : ℕ) → b ≡ cell → m b ≡ new_value
    written b e = ap (λ t. if t then new_value else s.slots b) (eq→== b cell e)

    kept : (b : ℕ) → b ≢ cell → is_young_block r (m b) ≡ true → is_young_block r (s.slots b) ≡ true
    kept b n h = ap (is_young_block r) (sym (upd_ne s.slots cell new_value b n)) ∙ h
