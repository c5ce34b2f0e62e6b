-- ===== src/Children/Sound.antt =====
-- src/children.rs: the rules of `validate_semantics` over the transitions.
use wezterm_attention.Prelude.{
  String, Bool, false, not, ◌≡◌, refl, sym, subst, List, [], ◌∷◌, ◌++◌, Option, none, some, str_eq,
  str_leb, contains, retain, arith, eq_iff, Bool-cases, inl, inr,
}
use wezterm_attention.Children.{LiveChild, ParentClear, ChildPresenceSet, EndMark, ChildTransition}
use wezterm_attention.Children.Readers.{child_ids}
use wezterm_attention.Children.Reduce.{
  find_child, forget_removed, apply_end, transit, apply, advanced, new_child,
}
use wezterm_attention.Children.Distinct.{
  Distinct, Fresh, Fresh-cons, Fresh-mono, Distinct-retain, contains_kept, Distinct-kept,
  contains-remove_child, Distinct-remove_child, child_ids-update_child, contains_of_find_child,
  contains-append, Distinct-append,
}
use wezterm_attention.Children.Cases.{
  Shown, set_after_clear, set_after_stop, set_after_known, set_after_new, transit_cases,
}

-- The ids that the last parent stop removed: no repeat, and none of them live.
abbrev pub RemovedIsSound : List LiveChild → Option ParentClear → Type 0
RemovedIsSound live none = Unit {0}
RemovedIsSound live (some clear) = Distinct clear.removed × Fresh (child_ids live) clear.removed

pub record IsSound (s : ChildPresenceSet) : Type 0 where
  pub distinct : Distinct (child_ids s.live)
  pub removed : RemovedIsSound s.live s.parent_clear

-- What stays live and what a parent stop removes are disjoint.
parted :
    (p : LiveChild → Bool) (cs : List LiveChild)
    → Distinct (child_ids cs)
    → Fresh (child_ids (retain (λ c. not (p c)) cs)) (child_ids (retain p cs))
parted p [] d = tt
parted p (c ∷ cs) d = elim (Bool-cases (p c)) [
  | inl goes ↦ rw goes (contains_kept (λ c. not (p c)) c.agent_id cs d.0, parted p cs d.1)
  | inr stays ↦
      rw stays ((Fresh-cons c.agent_id _ _).1 (contains_kept p c.agent_id cs d.0, parted p cs d.1))
]

-- Fewer live children, or the same ids, keep what was removed sound.
RemovedIsSound-mono :
    (live live' : List LiveChild)
    → ((x : String) → contains (child_ids live) x ≡ false → contains (child_ids live') x ≡ false)
    → (clear : Option ParentClear) → RemovedIsSound live clear
    → RemovedIsSound live' clear
RemovedIsSound-mono live live' f none h = tt
RemovedIsSound-mono live live' f (some clear) h =
    (h.0, Fresh-mono (child_ids live) (child_ids live') f clear.removed h.1)

Fresh-forget :
    (a : String) (live : List LiveChild) (c : LiveChild) (xs : List String)
    → c.agent_id ≡ a
    → Fresh (child_ids live) xs
    → Fresh (child_ids (live ++ c ∷ [])) (retain (λ removed. not (str_eq removed a)) xs)
Fresh-forget a live c [] e h = tt
Fresh-forget a live c (x ∷ xs) e h = ground (
  arith,
  Fresh-forget a live c xs e h.1,
  contains-append x live c h.0,
  eq_iff x a,
  eq_iff c.agent_id x,
)

RemovedIsSound-forget :
    (live : List LiveChild) (c : LiveChild) (clear : Option ParentClear)
    → RemovedIsSound live clear
    → RemovedIsSound (live ++ c ∷ []) (forget_removed clear c.agent_id)
RemovedIsSound-forget live c none h = tt
RemovedIsSound-forget live c (some clear) h =
    (Distinct-retain _ clear.removed h.0, Fresh-forget c.agent_id live c clear.removed refl h.1)

module _ (s : ChildPresenceSet) (v : IsSound s) where
  clear-IsSound : (order event_id : String) → IsSound (set_after_clear s order event_id)
  clear-IsSound order event_id = record {
    distinct = Distinct-kept _ s.live v.distinct;
    removed = (
      Distinct-kept _ s.live v.distinct,
      parted (λ child. str_leb child.last_mono_ns order) s.live v.distinct,
    );
  }

  kept-IsSound : (p : LiveChild → Bool) → IsSound (record s { live = retain p s.live })
  kept-IsSound p = record {
    distinct = Distinct-kept p s.live v.distinct;
    removed = RemovedIsSound-mono _ _ (λ x. contains_kept p x s.live) s.parent_clear v.removed;
  }

  stop-IsSound : (a : String) → IsSound (set_after_stop s a)
  stop-IsSound a = record {
    distinct = Distinct-remove_child a s.live v.distinct;
    removed =
        RemovedIsSound-mono _ _ (λ x. contains-remove_child a x s.live) s.parent_clear v.removed;
  }

  known-IsSound : (e : Shown) → IsSound (set_after_known s e)
  known-IsSound e =
      let same =
        child_ids-update_child e.agent_id (advanced e.agent_type e.order e.event) (λ c. refl)
          s.live in
      record {
        distinct = subst Distinct (sym same) v.distinct;
        removed =
            RemovedIsSound-mono _ _ (λ x h. subst (λ l. contains l x ≡ false) (sym same) h)
              s.parent_clear v.removed;
      }

  fresh-IsSound : (e : Shown) → find_child s.live e.agent_id ≡ none → IsSound (set_after_new s e)
  fresh-IsSound e missing = record {
    distinct =
        Distinct-append s.live _ v.distinct (contains_of_find_child e.agent_id s.live missing);
    removed =
        RemovedIsSound-forget s.live (new_child e.agent_id e.agent_type e.order e.event)
          s.parent_clear v.removed;
  }

  transit-IsSound : (end : Option EndMark) (t : ChildTransition) → IsSound (transit s end t).0
  transit-IsSound end t =
      transit_cases (λ r _. IsSound r) s end t
        (record {
          keep = v;
          cleared = λ o e _ _. clear-IsSound o e;
          reconciled = λ o l _ _. kept-IsSound _;
          stopped = λ a o c _ _ _ _. stop-IsSound a;
          known = λ e c _ _ _ _. known-IsSound e;
          fresh = λ e _ _ _ missing _. fresh-IsSound e missing;
        })

pub apply_end-IsSound :
    (s : ChildPresenceSet) (end : Option EndMark) → IsSound s → IsSound (apply_end s end).0
unfolding apply_end
apply_end-IsSound s none v = v
apply_end-IsSound s (some end) v = ground (arith, v)

pub apply-IsSound :
    (s : ChildPresenceSet) (end : Option EndMark) (t : ChildTransition)
    → IsSound s
    → IsSound (apply s end t).0
unfolding apply
apply-IsSound s end t v = transit-IsSound (apply_end s end).0 (apply_end-IsSound s end v) end t
