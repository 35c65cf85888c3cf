-- ===== src/Boxroot/Heap/Relabel.antt =====
-- The operations on rings change no more of the pools than their links, classes and domains.
use ocaml_boxroot.Prelude.{
  ℕ, ◌≡◌, arith, refl, sym, ◌∙◌, subst, Bool, true, false, if◌then◌else◌, inr, eq→==, ne→==,
}
use ocaml_boxroot.Words.{Runtime}
use ocaml_boxroot.Ring.{Links}
use ocaml_boxroot.Pool.{Store, Class, is_not_too_full}
use ocaml_boxroot.Pool.Kept.{KeptAt, KeptAt-refl, KeptAt-trans}
use ocaml_boxroot.Boxroot.State.{
  State, Place, of_domain, orphaned, variable, set_place, set_links, push_place, pop_place, set_fl,
  fl_of,
}
use ocaml_boxroot.Boxroot.Classes.{reclassify_pool, ring_of_class}
use ocaml_boxroot.Boxroot.Reclassify.{settle}
use ocaml_boxroot.Boxroot.Heap.{IsFrame}
use ocaml_boxroot.Boxroot.Heap.Local.{IsFrame-refl, IsFrame-trans}

pub record IsRelabel (r : Runtime) (dom : ℕ) (s s' : State) : Type 0 where
  pub kept : (q : ℕ) → KeptAt r s.store s'.store q
  pub frame : IsFrame dom s s'

-- The place is no ring of another domain.
abbrev pub IsMine : ℕ → Place → Type 0
IsMine dom (of_domain d f) = d ≡ dom
IsMine dom (orphaned f) = Unit {0}
IsMine dom (variable p) = Unit {0}

module _ (r : Runtime) (dom : ℕ) where
  pub IsRelabel-refl : (s : State) → IsRelabel r dom s s
  IsRelabel-refl s = record { kept = KeptAt-refl r s.store; frame = IsFrame-refl dom s }

  pub IsRelabel-trans :
      (s t u : State) → IsRelabel r dom s t → IsRelabel r dom t u → IsRelabel r dom s u
  IsRelabel-trans s t u a b = record {
    kept = λ q. KeptAt-trans r s.store t.store u.store q (a.kept q) (b.kept q);
    frame = IsFrame-trans dom s t u a.frame b.frame;
  }

  KeptAt-eq : (st st' : Store) (q : ℕ) → st' ≡ st → KeptAt r st st' q
  KeptAt-eq st st' q e = subst (λ x. KeptAt r st x q) (sym e) (KeptAt-refl r st q)

  pub set_place-IsRelabel :
      (pl : Place) (h : ℕ) (s : State) → IsMine dom pl → IsRelabel r dom s (set_place pl h s)
  set_place-IsRelabel (of_domain d f) h s m = record {
    kept = KeptAt-refl r s.store;
    frame = record {
      memory = refl;
      empty_fl = refl;
      cached_dom_id = refl;
      thread_has_lock = refl;
      status = refl;
      current_fl = λ d. refl;
      pools = λ e n. rw (ne→== e d (λ k. n (k ∙ m)));
      ready = λ h. inr (rw (eq→== dom d (sym m)) (λ k. cc));
      trap = refl;
    };
  }
  set_place-IsRelabel (orphaned f) h s m = record {
    kept = KeptAt-refl r s.store;
    frame = record {
      memory = refl;
      empty_fl = refl;
      cached_dom_id = refl;
      thread_has_lock = refl;
      status = refl;
      current_fl = λ d. refl;
      pools = λ e n. refl;
      ready = λ h. h;
      trap = refl;
    };
  }
  set_place-IsRelabel (variable p) h s m = IsRelabel-refl s

  set_links-IsRelabel : (l : Links) (s : State) → IsRelabel r dom s (set_links l s)
  set_links-IsRelabel l s = record {
    kept =
        λ q. record { slots = λ x i. refl; next = refl; end = refl; count = refl; delayed = refl };
    frame = record {
      memory = refl;
      empty_fl = refl;
      cached_dom_id = refl;
      thread_has_lock = refl;
      status = refl;
      current_fl = λ d. refl;
      pools = λ e n. refl;
      ready = λ h. h;
      trap = refl;
    };
  }

  abbrev labelled : ℕ → Class → ℕ → State → State
  labelled d cl p s = set_fl p (record (fl_of p s) { domain_id = d; class = cl }) s

  relabel_next :
      (d : ℕ) (cl : Class) (p q : ℕ) (s : State)
      → ((labelled d cl p s).store.free_list q).next ≡ (s.store.free_list q).next
  relabel_next d cl p q s = ground arith

  pub set_fl-IsRelabel :
      (d : ℕ) (cl : Class) (p : ℕ) (s : State) → IsRelabel r dom s (labelled d cl p s)
  set_fl-IsRelabel d cl p s = record {
    kept = λ q. record {
      slots = λ x i. refl;
      next = relabel_next d cl p q s;
      end = ground arith;
      count = ground arith;
      delayed = refl;
    };
    frame = record {
      memory = refl;
      empty_fl = refl;
      cached_dom_id = refl;
      thread_has_lock = refl;
      status = refl;
      current_fl = λ d. refl;
      pools = λ e n. refl;
      ready = λ h. h;
      trap = relabel_next d cl p s.empty_fl s;
    };
  }

  pub push_place-IsRelabel :
      (p : ℕ) (pl : Place) (s : State) → IsMine dom pl → IsRelabel r dom s (push_place p pl s)
  unfolding push_place
  push_place-IsRelabel p pl s m =
      IsRelabel-trans s (set_links _ s) _ (set_links-IsRelabel _ s) (set_place-IsRelabel pl _ _ m)

  pub pop_place-IsRelabel :
      (pl : Place) (s : State) → IsMine dom pl → IsRelabel r dom s (pop_place pl s).1
  unfolding pop_place
  pop_place-IsRelabel pl s m =
      IsRelabel-trans s (set_links _ s) _ (set_links-IsRelabel _ s) (set_place-IsRelabel pl _ _ m)

  front_if :
      (b : Bool) (pl : Place) (p : ℕ) (s : State)
      → IsMine dom pl
      → IsRelabel r dom s (if b then set_place pl p s else s)
  front_if true pl p s m = set_place-IsRelabel pl p s m
  front_if false pl p s m = IsRelabel-refl s

  pub settle-IsRelabel : (p : ℕ) (cl : Class) (s : State) → IsRelabel r dom s (settle p dom cl s)
  settle-IsRelabel p cl s =
      let target = of_domain dom (ring_of_class cl) in
      let s2 = labelled dom cl p s in
      let s3 = push_place p target s2 in
      IsRelabel-trans s s2 _ (set_fl-IsRelabel dom cl p s) (
        IsRelabel-trans s2 s3 _ (push_place-IsRelabel p target s2 refl)
          (front_if (is_not_too_full p s3.store) target p s3 refl))

  pub reclassify_pool-IsRelabel :
      (source : Place) (cl : Class) (s : State)
      → IsMine dom source
      → IsRelabel r dom s (reclassify_pool source dom cl s)
  unfolding reclassify_pool
  reclassify_pool-IsRelabel source cl s m =
      IsRelabel-trans s (pop_place source s).1 _ (pop_place-IsRelabel source s m)
        (settle-IsRelabel (pop_place source s).0 cl (pop_place source s).1)
