-- ===== src/Rem/Invariant.antt =====
-- The well-formedness of a pool of rem_boxroot.c, and the remembered set.
use ocaml_boxroot.Prelude.{
  ℕ, ◌+◌, ◌%◌, ◌<◌, ◌≤◌, ◌≡◌, refl, sym, ◌∙◌, ap, subst, ◌≢◌, inl, inr, Bool, true, false, ◌||◌,
  List, [], ◌∷◌, arith, has, last, length, has-NotIn, Distinct, upd, upd_self, ◌==◌, if◌then◌else◌,
  Bool-cases, eq_cases, eq→==, ne→==,
}
use mathlib.Core.Bool.{false≢true}
use ocaml_boxroot.Pool.Count.{addrs, addrs-index}
use ocaml_boxroot.Rem.{
  Header, pool_size, sizeof_header, pool_roots_capacity, is_free_slot, untag_free_slot,
  tag_free_slot,
}
use ocaml_boxroot.Rem.Laws.{FreeChain, FreeChain-upd, untag-tag}

-- The slots of the pool `p`.
abbrev pub slots_of : ℕ → List ℕ
slots_of p = addrs (p + sizeof_header) pool_roots_capacity

-- The pool `p` with the header `h` is well formed: `fs` are the slots of its major free list and `ms`
-- those of its minor one, in order. Each of the others holds a value.
pub record IsPool (m : ℕ → ℕ) (h : Header) (p : ℕ) (fs ms : List ℕ) : Type 0 where
  pub aligned : p % pool_size ≡ 0
  pub major : FreeChain m p h.major_free_list fs
  pub minor : FreeChain m p h.minor_free_list ms
  pub tagged : (a : ℕ) → (has a fs || has a ms) ≡ true → is_free_slot (m a) p ≡ true
  pub members : (a : ℕ) → (has a fs || has a ms) ≡ true → has a (slots_of p) ≡ true
  pub major_distinct : Distinct fs
  pub minor_distinct : Distinct ms
  pub apart : (a : ℕ) → has a fs ≡ true → has a ms ≡ false
  pub count : h.alloc_count + length fs + length ms ≡ pool_roots_capacity
  pub others :
      (a : ℕ)
      → has a (slots_of p) ≡ true
      → (has a fs || has a ms) ≡ false
      → is_free_slot (m a) p ≡ false
  pub last_minor : (x : ℕ) (xs : List ℕ) → ms ≡ x ∷ xs → h.last_minor_free_slot ≡ last x xs

-- The slot `a` of the pool `p` holds a value.
abbrev pub IsLive : (ℕ → ℕ) → ℕ → ℕ → Type 0
IsLive m p a = (has a (slots_of p) ≡ true) × (is_free_slot (m a) p ≡ false)

even-head :
    (m : ℕ → ℕ) (p a : ℕ) (xs : List ℕ)
    → p % pool_size ≡ 0
    → FreeChain m p a xs
    → ((x : ℕ) → has x xs ≡ true → has x (slots_of p) ≡ true)
    → (a % 2 ≡ 0) × (p ≤ a) × (a < p + pool_size)
even-head m p a [] al c sub = (omega (arith, al, c), omega (arith, c), omega (arith, c))
even-head m p a (x ∷ xs) al c sub =
    let (i, lt, e) =
      addrs-index x (p + sizeof_header) pool_roots_capacity
        (sub x (ap (λ b. b || has x xs) (eq→== x x refl))) in
    let at : a ≡ x = c.0 in
    (omega (arith, al, at, e), omega (arith, at, e), omega (arith, at, e, lt))

tagged-is_free_slot :
    (a p : ℕ)
    → p % pool_size ≡ 0
    → a % 2 ≡ 0
    → p ≤ a
    → a < p + pool_size
    → is_free_slot (tag_free_slot a) p ≡ true
unfolding is_free_slot tag_free_slot
tagged-is_free_slot a p al even low high = eq→== _ _ (omega (arith, al, even, low, high))

slot-ne-pool : (a p : ℕ) → has a (slots_of p) ≡ true → a ≢ p
slot-ne-pool a p h e =
    let (i, lt, at) = addrs-index a (p + sizeof_header) pool_roots_capacity h in
    omega (arith, at, e)

live-out :
    (m : ℕ → ℕ) (h : Header) (p a : ℕ) (fs ms : List ℕ)
    → IsPool m h p fs ms
    → IsLive m p a
    → (has a fs || has a ms) ≡ false
live-out m h p a fs ms v live = elim (Bool-cases (has a fs || has a ms)) [
  | inl e ↦ absurd (false≢true (sym live.1 ∙ v.tagged a e))
  | inr e ↦ e
]

pub or-left : (b c : Bool) → (b || c) ≡ false → b ≡ false
or-left true c e = e
or-left false c e = refl

pub or-right : (b c : Bool) → (b || c) ≡ false → c ≡ false
or-right true c e = absurd (false≢true (sym e))
or-right false c e = e

-- A live slot goes to the front of the major free list.
module _ (m : ℕ → ℕ) (h : Header) (p x c : ℕ) (fs ms : List ℕ) (v : IsPool m h p fs ms)
    (live : IsLive m p x) (one : c + 1 ≡ h.alloc_count) where
  abbrev pushed : ℕ → ℕ → ℕ
  pushed head = upd m x (tag_free_slot head)

  out : (has x fs || has x ms) ≡ false
  out = live-out m h p x fs ms v live

  pushed-chain :
      (head : ℕ) (xs : List ℕ)
      → FreeChain m p head xs
      → has x xs ≡ false
      → ((y : ℕ) → has y xs ≡ true → has y (slots_of p) ≡ true)
      → FreeChain (pushed head) p x (x ∷ xs)
  pushed-chain head xs chain n sub = (
    refl,
    slot-ne-pool x p live.0,
    subst (λ z. FreeChain (pushed head) p z xs)
        (sym (
          ap untag_free_slot (upd_self m x (tag_free_slot head))
          ∙ untag-tag head (even-head m p head xs v.aligned chain sub).0))
        (FreeChain-upd m p head x (tag_free_slot head) xs (has-NotIn x xs n) chain),
  )

  pushed-tagged :
      (head : ℕ) (xs : List ℕ)
      → FreeChain m p head xs
      → ((y : ℕ) → has y xs ≡ true → has y (slots_of p) ≡ true)
      → (a : ℕ) → ((a == x) || (has a fs || has a ms)) ≡ true
      → is_free_slot (pushed head a) p ≡ true
  pushed-tagged head xs chain sub a k = elim (eq_cases a x) [
    | inl e ↦
        let (even, low, high) = even-head m p head xs v.aligned chain sub in
        ap (λ b. is_free_slot (if b then tag_free_slot head else m a) p) (eq→== a x e)
        ∙ tagged-is_free_slot head p v.aligned even low high
    | inr n ↦
        let k' : (has a fs || has a ms) ≡ true =
          ap (λ b. b || (has a fs || has a ms)) (sym (ne→== a x n)) ∙ k in
        ap (λ b. is_free_slot (if b then tag_free_slot head else m a) p) (ne→== a x n)
        ∙ v.tagged a k'
  ]

  pushed-members : (a : ℕ) → ((a == x) || (has a fs || has a ms)) ≡ true → has a (slots_of p) ≡ true
  pushed-members a k = elim (eq_cases a x) [
    | inl e ↦ subst (λ y. has y (slots_of p) ≡ true) (sym e) live.0
    | inr n ↦ v.members a (ap (λ b. b || (has a fs || has a ms)) (sym (ne→== a x n)) ∙ k)
  ]

  pushed-others :
      (head a : ℕ)
      → has a (slots_of p) ≡ true
      → ((a == x) || (has a fs || has a ms)) ≡ false
      → is_free_slot (pushed head a) p ≡ false
  pushed-others head a i k =
      ap (λ b. is_free_slot (if b then tag_free_slot head else m a) p) (or-left (a == x) _ k)
      ∙ v.others a i (or-right (a == x) _ k)

  sub-major : (y : ℕ) → has y fs ≡ true → has y (slots_of p) ≡ true
  sub-major y k = v.members y (ground (arith, k))

  sub-minor : (y : ℕ) → has y ms ≡ true → has y (slots_of p) ≡ true
  sub-minor y k = v.members y (ground (arith, k))

  pub push_major-IsPool :
      IsPool
        (pushed h.major_free_list)
        (record h { major_free_list = x; alloc_count = c })
        p
        (x ∷ fs)
        ms
  push_major-IsPool = record {
    aligned = v.aligned;
    major = pushed-chain h.major_free_list fs v.major (or-left _ _ out) sub-major;
    minor =
        FreeChain-upd m p h.minor_free_list x (tag_free_slot h.major_free_list) ms
          (has-NotIn x ms (or-right _ _ out)) v.minor;
    tagged = λ a k. pushed-tagged h.major_free_list fs v.major sub-major a (ground (arith, k));
    members = λ a k. pushed-members a (ground (arith, k));
    major_distinct = (has-NotIn x fs (or-left _ _ out), v.major_distinct);
    minor_distinct = v.minor_distinct;
    apart = λ a k. elim (eq_cases a x) [
      | inl e ↦ ap (λ y. has y ms) e ∙ or-right _ _ out
      | inr n ↦ v.apart a (ap (λ b. b || has a fs) (sym (ne→== a x n)) ∙ k)
    ];
    count = omega (arith, one, v.count);
    others = λ a i k. pushed-others h.major_free_list a i (ground (arith, k));
    last_minor = v.last_minor;
  }

  -- Or to the front of the minor one.
  pub push_minor-IsPool :
      IsPool
        (pushed h.minor_free_list)
        (record h {
          minor_free_list = x;
          last_minor_free_slot = if h.minor_free_list == p then x else h.last_minor_free_slot;
          alloc_count = c;
        })
        p
        fs
        (x ∷ ms)
  push_minor-IsPool = record {
    aligned = v.aligned;
    major =
        FreeChain-upd m p h.major_free_list x (tag_free_slot h.minor_free_list) fs
          (has-NotIn x fs (or-left _ _ out)) v.major;
    minor = pushed-chain h.minor_free_list ms v.minor (or-right _ _ out) sub-minor;
    tagged = λ a k. pushed-tagged h.minor_free_list ms v.minor sub-minor a (ground (arith, k));
    members = λ a k. pushed-members a (ground (arith, k));
    major_distinct = v.major_distinct;
    minor_distinct = (has-NotIn x ms (or-right _ _ out), v.minor_distinct);
    apart = λ a k. elim (eq_cases a x) [
      | inl e ↦ absurd (false≢true (sym (or-left _ _ out) ∙ subst (λ y. has y fs ≡ true) e k))
      | inr n ↦ ap (λ b. b || has a ms) (ne→== a x n) ∙ v.apart a k
    ];
    count = omega (arith, one, v.count);
    others = λ a i k. pushed-others h.minor_free_list a i (ground (arith, k));
    last_minor = λ y ys e. last-pushed ms refl y ys e;
  }
    where
      last_or : List ℕ → ℕ
      last_or [] = 0
      last_or (y ∷ ys) = last y ys

      last-of :
          (zs : List ℕ)
          → ms ≡ zs
          → (if h.minor_free_list == p then x else h.last_minor_free_slot) ≡ last x zs
      last-of [] k =
          let at : h.minor_free_list ≡ p = subst (FreeChain m p h.minor_free_list) k v.minor in
          ap (λ b. if b then x else h.last_minor_free_slot) (eq→== h.minor_free_list p at)
      last-of (z ∷ zs) k =
          let chain = subst (FreeChain m p h.minor_free_list) k v.minor in
          let n : h.minor_free_list ≢ p = λ e. chain.1 (sym chain.0 ∙ e) in
          ap (λ b. if b then x else h.last_minor_free_slot) (ne→== h.minor_free_list p n)
          ∙ v.last_minor z zs k

      last-pushed :
          (zs : List ℕ)
          → ms ≡ zs
          → (y : ℕ) (ys : List ℕ) → x ∷ ms ≡ y ∷ ys
          → (if h.minor_free_list == p then x else h.last_minor_free_slot) ≡ last y ys
      last-pushed zs k y ys e = last-of zs k ∙ ap (λ l. last_or l) (ap (λ l. x ∷ l) (sym k) ∙ e)
