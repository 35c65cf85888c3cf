-- ===== src/Boxroot/Rings.antt =====
-- The rings of all domains and of the orphans at once: which pools each place holds, in order.
use ocaml_boxroot.Prelude.{
  ℕ, ◌+◌, ◌*◌, ◌<◌, ◌≡◌, refl, sym, ◌∙◌, ap, ◌≢◌, List, [], ◌∷◌, ◌++◌, arith, upd, ◌==◌,
  if◌then◌else◌, NotIn, Apart, Apart-append, Apart-left, Apart-right, Apart-symm, eq_cases, inl,
  inr, eq→==, ne→==, subst,
}
use ocaml_boxroot.Ring.{Links, ring_pop}
use ocaml_boxroot.Ring.Paths.{IsRing, SameAt, SameAt-refl, IsRing-SameAt}
use ocaml_boxroot.Ring.Pop.{ring_pop-IsRing, ring_pop-SameAt}
use ocaml_boxroot.Ring.PushBack.{ring_push_back-IsRing, ring_push_back-SameAt}
use ocaml_boxroot.Ring.Rotate.{IsRing-rotate}
use ocaml_boxroot.Boxroot.State.{
  PoolRings, State, Place, of_domain, orphaned, variable, Field, old_ring, young_ring, current_ring,
  free_ring, get_field, set_field, rings_of, get_place, set_place, set_links, push_place, pop_place,
}

-- A number for each place in memory, and none for a local variable.
abbrev pub field_key : Field → ℕ
field_key old_ring = 0
field_key young_ring = 1
field_key current_ring = 2
field_key free_ring = 3

abbrev pub key : Place → ℕ
key (orphaned f) = field_key f
key (of_domain dom f) = 4 + 4 * dom + field_key f
key (variable p) = 0

abbrev pub IsGlobal : Place → Type 0
IsGlobal (orphaned f) = Unit {0}
IsGlobal (of_domain dom f) = Unit {0}
IsGlobal (variable p) = ⊥

-- The pools of each place.
abbrev pub View : Type 0
View = ℕ → List ℕ

-- Each place is the head of a ring of the pools that the view tells, and no pool is in two.
pub record IsRings (s : State) (v : View) : Type 0 where
  pub rings : (pl : Place) → IsGlobal pl → IsRing s.store.links (get_place pl s) (v (key pl))
  pub apart : (i j : ℕ) → i ≢ j → Apart (v i) (v j)

-- The pool `p` is a ring of its own, and in none of the places.
pub record IsDetached (s : State) (v : View) (p : ℕ) : Type 0 where
  pub single : IsRing s.store.links p (p ∷ [])
  pub outside : (i : ℕ) → Apart (p ∷ []) (v i)

get-set_field :
    (f g : Field) (h : ℕ) (ps : PoolRings)
    → get_field g (set_field f h ps) ≡ (if field_key g == field_key f then h else get_field g ps)
get-set_field old_ring old_ring h ps = refl
get-set_field old_ring young_ring h ps = refl
get-set_field old_ring current_ring h ps = refl
get-set_field old_ring free_ring h ps = refl
get-set_field young_ring old_ring h ps = refl
get-set_field young_ring young_ring h ps = refl
get-set_field young_ring current_ring h ps = refl
get-set_field young_ring free_ring h ps = refl
get-set_field current_ring old_ring h ps = refl
get-set_field current_ring young_ring h ps = refl
get-set_field current_ring current_ring h ps = refl
get-set_field current_ring free_ring h ps = refl
get-set_field free_ring old_ring h ps = refl
get-set_field free_ring young_ring h ps = refl
get-set_field free_ring current_ring h ps = refl
get-set_field free_ring free_ring h ps = refl

field_key-lt : (f : Field) → field_key f < 4
field_key-lt old_ring = omega arith
field_key-lt young_ring = omega arith
field_key-lt current_ring = omega arith
field_key-lt free_ring = omega arith

same-shift : (c a b : ℕ) → (c + a == c + b) ≡ (a == b)
same-shift c a b = ground arith

rings_of-set_place :
    (d : ℕ) (f : Field) (h : ℕ) (s : State)
    → rings_of d (set_place (of_domain d f) h s) ≡ set_field f h (rings_of d s)
rings_of-set_place d f h s = rw (eq→== d d refl, rings_of)

rings_of-set_place_ne :
    (d d' : ℕ) (f : Field) (h : ℕ) (s : State)
    → d' ≢ d
    → rings_of d' (set_place (of_domain d f) h s) ≡ rings_of d' s
rings_of-set_place_ne d d' f h s n = rw (ne→== d' d n, rings_of)

get-set_same :
    (d : ℕ) (f f' : Field) (h : ℕ) (s : State)
    → get_place (of_domain d f') (set_place (of_domain d f) h s)
      ≡ (if key (of_domain d f') == key (of_domain d f) then h else get_place (of_domain d f') s)
get-set_same d f f' h s =
    ap (get_field f') (rings_of-set_place d f h s)
    ∙ get-set_field f f' h (rings_of d s)
    ∙ ap (λ b. if b then h else get_field f' (rings_of d s))
        (sym (same-shift (4 + 4 * d) (field_key f') (field_key f)))

-- A write to a place is read back there and nowhere else.
get-set_place :
    (pl pl' : Place) (h : ℕ) (s : State)
    → IsGlobal pl
    → IsGlobal pl'
    → get_place pl' (set_place pl h s) ≡ (if key pl' == key pl then h else get_place pl' s)
get-set_place (variable p) pl' h s g g' = absurd g
get-set_place (orphaned f) (variable p) h s g g' = absurd g'
get-set_place (of_domain d f) (variable p) h s g g' = absurd g'
get-set_place (orphaned f) (orphaned f') h s g g' = get-set_field f f' h s.orphan
get-set_place (orphaned f) (of_domain d f') h s g g' =
    rw (ne→== (4 + 4 * d + field_key f') (field_key f) (λ e. omega (arith, field_key-lt f)))
get-set_place (of_domain d f) (orphaned f') h s g g' =
    rw (ne→== (field_key f') (4 + 4 * d + field_key f) (λ e. omega (arith, field_key-lt f')))
get-set_place (of_domain d f) (of_domain d' f') h s g g' = elim (eq_cases d' d) [
  | inl e ↦
      subst
        (λ d''. get_place (of_domain d'' f') (set_place (of_domain d f) h s) ≡ (
          if key (of_domain d'' f') == key (of_domain d f)
          then h
          else get_place (of_domain d'' f') s))
        (sym e) (get-set_same d f f' h s)
  | inr e ↦
      ap (get_field f') (rings_of-set_place_ne d d' f h s e)
      ∙ ap (λ b. if b then h else get_field f' (rings_of d' s))
          (sym (
            ne→== (4 + 4 * d' + field_key f') (4 + 4 * d + field_key f)
              (λ k. e (omega (arith, field_key-lt f, field_key-lt f')))))
]

pub store-set_place : (pl : Place) (h : ℕ) (s : State) → (set_place pl h s).store ≡ s.store
store-set_place (of_domain d f) h s = refl
store-set_place (orphaned f) h s = refl
store-set_place (variable p) h s = refl

pub get_place-set_links :
    (pl : Place) (l : Links) (s : State) → get_place pl (set_links l s) ≡ get_place pl s
get_place-set_links (of_domain d f) l s = refl
get_place-set_links (orphaned f) l s = refl
get_place-set_links (variable p) l s = refl

pub Apart-upd :
    (v : View) (k : ℕ) (xs : List ℕ)
    → ((i j : ℕ) → i ≢ j → Apart (v i) (v j))
    → ((i : ℕ) → i ≢ k → Apart xs (v i))
    → (i j : ℕ) → i ≢ j
    → Apart (upd v k xs i) (upd v k xs j)
Apart-upd v k xs h out i j n = elim (eq_cases i k) [
  | inl e ↦ let m : j ≢ k = λ e'. n (e ∙ sym e') in rw (eq→== i k e, ne→== j k m) (out j m)
  | inr m ↦ elim (eq_cases j k) [
    | inl e ↦ rw (ne→== i k m, eq→== j k e) (Apart-symm xs (v i) (out i m))
    | inr m' ↦ rw (ne→== i k m, ne→== j k m') (h i j n)
  ]
]

-- The links and one head have changed: enough to see what that place holds now, and that the
-- others are spared.
pub IsRings-place :
    (s : State) (v : View) (pl : Place) (h : ℕ) (l : Links) (xs : List ℕ)
    → IsGlobal pl
    → IsRings s v
    → IsRing l h xs
    → ((i : ℕ) → i ≢ key pl → SameAt s.store.links l (v i))
    → ((i : ℕ) → i ≢ key pl → Apart xs (v i))
    → IsRings (set_place pl h (set_links l s)) (upd v (key pl) xs)
IsRings-place s v pl h l xs g inv r same out = record {
  rings = λ pl' g'.
      rw
        (
          get-set_place pl pl' h (set_links l s) g g',
          store-set_place pl h (set_links l s),
          get_place-set_links pl' l s,
        )
        (elim (eq_cases (key pl') (key pl)) [
          | inl e ↦ rw (eq→== (key pl') (key pl) e) r
          | inr n ↦
              rw (ne→== (key pl') (key pl) n)
                (IsRing-SameAt s.store.links l _ _ (same (key pl') n) (inv.rings pl' g'))
        ]);
  apart = Apart-upd v (key pl) xs inv.apart out;
}

Apart-singleton : (x : ℕ) (ys : List ℕ) → NotIn x ys → Apart (x ∷ []) ys
Apart-singleton x ys h = (h, tt)

-- `ring_pop` at a place takes its first pool out.
pub pop_place-IsRings :
    (s : State) (v : View) (pl : Place) (x : ℕ) (xs : List ℕ)
    → IsGlobal pl
    → IsRings s v
    → v (key pl) ≡ x ∷ xs
    → ((pop_place pl s).0 ≡ x)
      × IsRings (pop_place pl s).1 (upd v (key pl) xs)
      × IsDetached (pop_place pl s).1 (upd v (key pl) xs) x
unfolding pop_place
pop_place-IsRings s v pl x xs g inv e =
    let r = subst (IsRing s.store.links (get_place pl s)) e (inv.rings pl g) in
    let (front, single, rest) = ring_pop-IsRing s.store.links (get_place pl s) x xs r in
    let out = λ (i : ℕ) (n : i ≢ key pl).
      subst (λ zs. Apart zs (v i)) e (inv.apart (key pl) i (λ k. n (sym k))) in
    let l = (ring_pop (get_place pl s) s.store.links).2 in
    (
      front,
      IsRings-place s v pl _ l xs g inv rest
          (λ i n. ring_pop-SameAt s.store.links (get_place pl s) x xs (v i) r (out i n))
          (λ i n. (out i n).1),
      record {
        single =
            rw (store-set_place pl (ring_pop (get_place pl s) s.store.links).1 (set_links l s))
              single;
        outside = λ i. elim (eq_cases i (key pl)) [
          | inl k ↦ rw (eq→== i (key pl) k) (r.2.0, tt)
          | inr n ↦ rw (ne→== i (key pl) n) ((out i n).0, tt)
        ];
      },
    )

-- `ring_push_back` of a detached pool puts it last.
pub push_place-IsRings :
    (s : State) (v : View) (pl : Place) (x : ℕ)
    → IsGlobal pl
    → IsRings s v
    → IsDetached s v x
    → IsRings (push_place x pl s) (upd v (key pl) (v (key pl) ++ x ∷ []))
unfolding push_place
push_place-IsRings s v pl x g inv d =
    let r = inv.rings pl g in
    let apart = Apart-symm (x ∷ []) (v (key pl)) (d.outside (key pl)) in
    IsRings-place s v pl _ _ (v (key pl) ++ x ∷ []) g inv
      (ring_push_back-IsRing s.store.links x (get_place pl s) (v (key pl)) (x ∷ []) r d.single
        apart)
      (λ i n.
        ring_push_back-SameAt s.store.links x (get_place pl s) (v (key pl)) (x ∷ []) (v i) r
          d.single apart (inv.apart (key pl) i (λ k. n (sym k))) (d.outside i))
      (λ i n.
        Apart-append (v (key pl)) (x ∷ []) (v i) (inv.apart (key pl) i (λ k. n (sym k)))
          (d.outside i))

-- The write of the head that makes the last pool of a ring the first.
pub IsRings-rotate :
    (s : State) (v : View) (pl : Place) (x : ℕ) (ys : List ℕ)
    → IsGlobal pl
    → IsRings s v
    → v (key pl) ≡ ys ++ x ∷ []
    → IsRings (set_place pl x s) (upd v (key pl) (x ∷ ys))
IsRings-rotate s v pl x ys g inv e =
    IsRings-place s v pl x s.store.links (x ∷ ys) g inv
      (rotated ys (subst (IsRing s.store.links (get_place pl s)) e (inv.rings pl g)))
      (λ i n. SameAt-refl s.store.links (v i))
      (λ i n.
        let out = subst (λ zs. Apart zs (v i)) e (inv.apart (key pl) i (λ k. n (sym k))) in
        ((Apart-right ys (x ∷ []) (v i) out).0, Apart-left ys (x ∷ []) (v i) out))
  where
    rotated :
        (ys : List ℕ)
        → IsRing s.store.links (get_place pl s) (ys ++ x ∷ [])
        → IsRing s.store.links x (x ∷ ys)
    rotated [] r = (refl, r.1, r.2, r.3, r.4)
    rotated (y ∷ ys) r = IsRing-rotate s.store.links y ys x [] r
