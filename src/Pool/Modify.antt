-- ===== src/Pool/Modify.antt =====
-- `boxroot_modify` in place: a write to the slot of a live boxroot.
use ocaml_boxroot.Prelude.{
  ℕ, ◌≡◌, refl, sym, ◌∙◌, ap, false, List, ◌++◌, some, ◌==◌, if◌then◌else◌, has_in, NotIn,
  NotIn-left, NotIn-right, Bool-cases, inl, inr, ne→==,
}
use mathlib.Core.Bool.{false≢true}
use ocaml_boxroot.Words.{Runtime, IsRuntime, is_pool_member}
use ocaml_boxroot.Pool.{Store, write_slot}
use ocaml_boxroot.Pool.Chain.{Chain-upd}
use ocaml_boxroot.Pool.Count.{pool_slots, InPool}
use ocaml_boxroot.Pool.Invariant.{IsPool, SameElse, root_value, live-NotIn}

module _ (r : Runtime) (ok : IsRuntime r) (st : Store) (p x new : ℕ) (fs ds : List ℕ) (k : ℕ)
    (v : IsPool r st p fs ds k) (i : InPool r p x) (live : is_pool_member (st.slots x) p ≡ false)
    (h : is_pool_member new p ≡ false) where
  out : NotIn x (fs ++ ds)
  out = live-NotIn r ok v x i live

  pub written-IsPool : IsPool r (write_slot x new st) p fs ds k
  written-IsPool = record {
    extra = v.extra;
    aligned = v.aligned;
    fl_chain = Chain-upd st.slots p _ x new fs (NotIn-left x fs ds out) v.fl_chain;
    fl_end = v.fl_end;
    fl_count = v.fl_count;
    delayed_chain = Chain-upd st.slots p _ x new ds (NotIn-right x fs ds out) v.delayed_chain;
    delayed_end = v.delayed_end;
    delayed_count = v.delayed_count;
    fl_members = v.fl_members;
    delayed_members = v.delayed_members;
    fl_distinct = v.fl_distinct;
    delayed_distinct = v.delayed_distinct;
    apart = v.apart;
    others =
        λ a j n m. elim (Bool-cases (a == x)) [ inl e ↦ rw e h | inr e ↦ rw e (v.others a j n m) ];
  }

  pub written-values :
      (a : ℕ)
      → root_value (write_slot x new st) p a ≡ (if a == x then some new else root_value st p a)
  written-values a = elim (Bool-cases (a == x)) [ inl e ↦ rw (e, h) | inr e ↦ rw e ]

  pub written-SameElse : SameElse r p st (write_slot x new st)
  written-SameElse = record {
    slots = λ a n. rw (ne→== a x (λ e. false≢true (sym n ∙ ap (has_in (pool_slots r p)) e ∙ i)));
    free_list = λ q n. refl;
    delayed_fl = λ q n. refl;
    links = refl;
  }
