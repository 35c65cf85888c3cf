-- ===== src/Rem/Steps.antt =====
-- Allocation and deallocation in a well-formed pool of rem_boxroot.c.
use ocaml_boxroot.Prelude.{
  ℕ, ◌+◌, ◌*◌, ◌/◌, ◌%◌, ◌≡◌, refl, sym, ◌∙◌, ap, subst, ◌≢◌, inl, inr, Bool, true, false, not,
  ◌||◌, List, ◌∷◌, arith, has, length-filter-pos, NotIn-has, has-NotIn, upd, upd_self, upd_ne, ◌==◌,
  if◌then◌else◌, Bool-cases, eq_cases, eq→==, ne→==,
}
use mathlib.Core.Bool.{false≢true}
use ocaml_boxroot.Words.{Runtime, is_young_block, decr32, get_pool_header}
use ocaml_boxroot.Pool.Count.{addrs-index}
use ocaml_boxroot.Rem.{
  Rem, Header, pool_size, sizeof_header, pool_roots_capacity, is_free_slot, untag_free_slot,
  tag_free_slot, free_list_push, pool_remove,
}
use ocaml_boxroot.Rem.Api.{push_slot, move_to_pools, dealloc_slot}
use ocaml_boxroot.Rem.Laws.{FreeChain-upd}
use ocaml_boxroot.Rem.Invariant.{
  slots_of, IsPool, IsLive, or-right, push_major-IsPool, push_minor-IsPool,
}
use ocaml_boxroot.Rem.Accepted.{full_count}

-- The first slot of the major free list gets a value.
module _ (m : ℕ → ℕ) (h : Header) (p x c w : ℕ) (fs ms : List ℕ) (plain : is_free_slot w p ≡ false)
    (one : c ≡ h.alloc_count + 1) where
  abbrev written : ℕ → ℕ
  written = upd m x w

  written-tagged :
      (b : Bool) (a : ℕ) → a ≢ x → is_free_slot (m a) p ≡ b → is_free_slot (written a) p ≡ b
  written-tagged b a n k = ap (λ z. is_free_slot z p) (upd_ne m x w a n) ∙ k

  written-others :
      (a : ℕ) → ((a ≢ x) → is_free_slot (m a) p ≡ false) → is_free_slot (written a) p ≡ false
  written-others a k = elim (eq_cases a x) [
    | inl e ↦ ap (λ b. is_free_slot (if b then w else m a) p) (eq→== a x e) ∙ plain
    | inr n ↦ written-tagged false a n (k n)
  ]

  pub pop_major-IsPool :
      IsPool m h p (x ∷ fs) ms
      → IsPool written
          (record h { major_free_list = untag_free_slot (m x); alloc_count = c })
          p
          fs
          ms
  pop_major-IsPool v =
      let out_fs : has x fs ≡ false = NotIn-has x fs v.major_distinct.0 in
      let out_ms : has x ms ≡ false = v.apart x (ap (λ b. b || has x fs) (eq→== x x refl)) in
      record {
        aligned = v.aligned;
        major = FreeChain-upd m p (untag_free_slot (m x)) x w fs v.major_distinct.0 v.major.2;
        minor = FreeChain-upd m p h.minor_free_list x w ms (has-NotIn x ms out_ms) v.minor;
        tagged = λ a k.
            let n : a ≢ x = λ e.
              let at : (has x fs || has x ms) ≡ true =
                subst (λ y. (has y fs || has y ms) ≡ true) e k in
              false≢true (sym (ap (λ b. b || has x ms) out_fs ∙ out_ms) ∙ at) in
            written-tagged true a n (v.tagged a (ground (arith, k)));
        members = λ a k. v.members a (ground (arith, k));
        major_distinct = v.major_distinct.1;
        minor_distinct = v.minor_distinct;
        apart = λ a k. v.apart a (ground (arith, k));
        count = omega (arith, one, v.count);
        others = λ a i k.
            written-others a
              (λ n. v.others a i (ap (λ b. (b || has a fs) || has a ms) (ne→== a x n) ∙ k));
        last_minor = v.last_minor;
      }

  pub pop_minor-IsPool :
      IsPool m h p fs (x ∷ ms)
      → IsPool written
          (record h { minor_free_list = untag_free_slot (m x); alloc_count = c })
          p
          fs
          ms
  pop_minor-IsPool v =
      let out_ms : has x ms ≡ false = NotIn-has x ms v.minor_distinct.0 in
      let out_fs : has x fs ≡ false = elim (Bool-cases (has x fs)) [
        | inl e ↦ absurd (false≢true (sym (v.apart x e) ∙ ap (λ b. b || has x ms) (eq→== x x refl)))
        | inr e ↦ e
      ] in
      record {
        aligned = v.aligned;
        major = FreeChain-upd m p h.major_free_list x w fs (has-NotIn x fs out_fs) v.major;
        minor = FreeChain-upd m p (untag_free_slot (m x)) x w ms v.minor_distinct.0 v.minor.2;
        tagged = λ a k.
            let n : a ≢ x = λ e.
              let at : (has x fs || has x ms) ≡ true =
                subst (λ y. (has y fs || has y ms) ≡ true) e k in
              false≢true (sym (ap (λ b. b || has x ms) out_fs ∙ out_ms) ∙ at) in
            written-tagged true a n (v.tagged a (ground (arith, k)));
        members = λ a k. v.members a (ground (arith, k));
        major_distinct = v.major_distinct;
        minor_distinct = v.minor_distinct.1;
        apart = λ a k. or-right (a == x) (has a ms) (v.apart a k);
        count = omega (arith, one, v.count);
        others = λ a i k.
            written-others a
              (λ n. v.others a i (ap (λ b. has a fs || (b || has a ms)) (ne→== a x n) ∙ k));
        last_minor = λ y ys e. v.last_minor x (y ∷ ys) (ap (λ l. x ∷ l) e);
      }

move-slots : (p : ℕ) (s : Rem) → (move_to_pools p s).slots ≡ s.slots
unfolding move_to_pools pool_remove
move-slots p s = refl

move-header : (p : ℕ) (s : Rem) → (move_to_pools p s).header ≡ s.header
unfolding move_to_pools pool_remove
move-header p s = refl

header-slots_of : (p a : ℕ) → p % pool_size ≡ 0 → has a (slots_of p) ≡ true → get_pool_header a ≡ p
unfolding get_pool_header
header-slots_of p a al h =
    let (i, lt, e) = addrs-index a (p + sizeof_header) pool_roots_capacity h in
    omega (arith, al, lt, e)

abbrev decremented : ℕ → Rem → Rem
decremented p t = record t {
  header = upd t.header p (record (t.header p) { alloc_count = decr32 (t.header p).alloc_count });
}

-- The pool without the root `x`.
pub record IsDealloc (s t : Rem) (p x : ℕ) (fs ms : List ℕ) : Type 0 where
  pub pool : IsPool t.slots (t.header p) p fs ms
  pub gone : is_free_slot (t.slots x) p ≡ true
  pub others : (a : ℕ) → a ≢ x → t.slots a ≡ s.slots a

module _ (r : Runtime) (s : Rem) (p x : ℕ) (fs ms : List ℕ)
    (v : IsPool s.slots (s.header p) p fs ms) (live : IsLive s.slots p x) where
  abbrev h : Header
  h = s.header p

  abbrev Deallocs : Rem → Type 0
  Deallocs t = (fs' : List ℕ) × (ms' : List ℕ) × IsDealloc s t p x fs' ms'

  one_less : decr32 h.alloc_count + 1 ≡ h.alloc_count
  one_less =
      let some_live =
        length-filter-pos (λ a. not (is_free_slot (s.slots a) p)) x (slots_of p) live.0
          (ap not live.1) in
      omega (arith, some_live, full_count s p fs ms v, v.count)

  abbrev wrote : Header → ℕ → Rem
  wrote g head =
      decremented p
        (record s { header = upd s.header p g; slots = upd s.slots x (tag_free_slot head) })

  wrote-header :
      (g : Header) (head : ℕ)
      → g.alloc_count ≡ h.alloc_count
      → (wrote g head).header p ≡ record g { alloc_count = decr32 h.alloc_count }
  wrote-header g head e =
      upd_self (upd s.header p g) p _
      ∙ ap (λ (k : Header). record k { alloc_count = decr32 k.alloc_count }) (upd_self s.header p g)
      ∙ ap (λ k. record g { alloc_count = decr32 k }) e

  wrote-Deallocs :
      (g : Header) (head : ℕ) (fs' ms' : List ℕ)
      → g.alloc_count ≡ h.alloc_count
      → (has x fs' || has x ms') ≡ true
      → IsPool
          (upd s.slots x (tag_free_slot head))
          (record g { alloc_count = decr32 h.alloc_count })
          p
          fs'
          ms'
      → Deallocs (wrote g head)
  wrote-Deallocs g head fs' ms' e m k = (
    fs',
    ms',
    record {
      pool =
          subst (λ f. IsPool (upd s.slots x (tag_free_slot head)) f p fs' ms')
            (sym (wrote-header g head e)) k;
      gone = k.tagged x m;
      others = λ a n. upd_ne s.slots x (tag_free_slot head) a n;
    },
  )

  push_slot-Deallocs : Deallocs (decremented p (push_slot r x p s))
  unfolding push_slot free_list_push
  push_slot-Deallocs = elim (Bool-cases (is_young_block r (s.slots x))) [
    | inr e ↦
        rw (e, push_slot)
          (wrote-Deallocs (record h { major_free_list = x }) h.major_free_list (x ∷ fs) ms refl
            (ap (λ b. (b || has x fs) || has x ms) (eq→== x x refl))
            (push_major-IsPool s.slots h p x (decr32 h.alloc_count) fs ms v live one_less))
    | inl e ↦
        rw (e, push_slot)
          (wrote-Deallocs
            (record h {
              minor_free_list = x;
              last_minor_free_slot = if h.minor_free_list == p then x else h.last_minor_free_slot;
            })
            h.minor_free_list fs (x ∷ ms) refl (let k = eq→== x x refl in ground (arith, k))
            (push_minor-IsPool s.slots h p x (decr32 h.alloc_count) fs ms v live one_less))
  ]

  moved-Deallocs : (t : Rem) → Deallocs t → Deallocs (move_to_pools p t)
  moved-Deallocs t (fs', ms', d) = (
    fs',
    ms',
    record {
      pool =
          subst (λ f. IsPool f ((move_to_pools p t).header p) p fs' ms') (sym (move-slots p t))
            (subst (λ (g : ℕ → Header). IsPool t.slots (g p) p fs' ms') (sym (move-header p t))
              d.pool);
      gone = ap (λ (f : ℕ → ℕ). is_free_slot (f x) p) (move-slots p t) ∙ d.gone;
      others = λ a n. ap (λ (f : ℕ → ℕ). f a) (move-slots p t) ∙ d.others a n;
    },
  )

  pub dealloc_slot-Deallocs : Deallocs (dealloc_slot r x s)
  unfolding dealloc_slot
  dealloc_slot-Deallocs =
      let t = decremented p (push_slot r x p s) in
      let done : Deallocs (
          if (t.header p).alloc_count == pool_roots_capacity * 3 / 4
          then move_to_pools p t
          else t) =
        elim (Bool-cases ((t.header p).alloc_count == pool_roots_capacity * 3 / 4)) [
          | inl e ↦ rw e (moved-Deallocs t push_slot-Deallocs)
          | inr e ↦ rw e push_slot-Deallocs
        ] in
      subst
        (λ q. Deallocs (
          if ((decremented q (push_slot r x q s)).header q).alloc_count
            == pool_roots_capacity * 3 / 4
          then move_to_pools q (decremented q (push_slot r x q s))
          else decremented q (push_slot r x q s)))
        (sym (header-slots_of p x v.aligned live.0)) done
