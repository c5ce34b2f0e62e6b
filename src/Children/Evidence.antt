-- ===== src/Children/Evidence.antt =====
-- src/children.rs: why a child leaves the set.
use wezterm_attention.Prelude.{
  String, Bool, true, false, not, ◌≡◌, refl, sym, ap, subst, ◌∙◌, ◌⊎◌, List, Option, none, some,
  arith, Bool-cases, inl, inr, contains, str_ltb, str_leb, str_eq, is_some_and, eq_iff,
}
use wezterm_attention.Children.{LiveChild, ChildPresenceSet, EndMark, ChildTransition}
use wezterm_attention.Children.Readers.{unapplied, kept_through_stop}
use wezterm_attention.Children.Reduce.{find_child, advanced, apply_end, transit, apply}
use wezterm_attention.Children.Find.{
  find_child-id, find_child_dropped, find_child-remove_child_ne, find_child-update_child_ne,
  find_child-update_child_self, find_child-append_some,
}
use wezterm_attention.Children.Cases.{
  Shown, set_after_clear, set_after_reconcile, set_after_stop, set_after_known, set_after_new,
  transit_cases,
}

-- The binding has an end that the set has not applied.
abbrev pub has_unapplied : ChildPresenceSet → Option EndMark → Bool
has_unapplied s end = is_some_and end (λ e. unapplied s.lifetime_end e)

-- Why a child may leave the set: its own stop, later than its last event; a parent's stop at or
-- after its last event; a list of the tasks in flight, at or after its last event, without it.
pub data Ended (c : LiveChild) : ChildTransition → Type 0 where
  by_stop :
      (order : String)
      → str_ltb c.last_mono_ns order ≡ true
      → Ended c (ChildTransition.stop c.agent_id order)
  by_parent :
      (order event_id : String)
      → str_leb c.last_mono_ns order ≡ true
      → Ended c (ChildTransition.parent_clear order event_id)
  by_list :
      (order : String) (in_flight : List String)
      → str_leb c.last_mono_ns order ≡ true
      → contains in_flight c.agent_id ≡ false
      → Ended c (ChildTransition.reconcile order in_flight)

module _ (s : ChildPresenceSet) (end : Option EndMark) (t : ChildTransition) (a : String)
    (c : LiveChild) (found : find_child s.live a ≡ some c) where
  abbrev Leaves : ChildPresenceSet → Bool → Type 0
  Leaves s' _ = find_child s'.live a ≡ none → Ended c t

  left_by_clear :
      (order event_id : String)
      → t ≡ ChildTransition.parent_clear order event_id
      → Leaves (set_after_clear s order event_id) true
  left_by_clear order event_id e gone = subst (Ended c) (sym e) (
      by_parent order event_id (
        ground (
          arith,
          find_child_dropped (λ child. not (str_leb child.last_mono_ns order)) a s.live c found
              gone,
        )))

  left_by_list :
      (order : String) (listed : List String)
      → t ≡ ChildTransition.reconcile order listed
      → Leaves (set_after_reconcile s order listed) true
  left_by_list order listed e gone =
      let dropped =
        find_child_dropped (λ child. kept_through_stop child order listed) a s.live c found gone in
      subst (Ended c) (sym e) (by_list order listed (ground arith) (ground arith))

  left_by_stop :
      (b order : String) (child : LiveChild)
      → t ≡ ChildTransition.stop b order
      → find_child s.live b ≡ some child
      → str_ltb child.last_mono_ns order ≡ true
      → Leaves (set_after_stop s b) true
  left_by_stop b order child e own later gone = elim (Bool-cases (str_eq b a)) [
    | inl same ↦
        let one : b ≡ a = (eq_iff b a).0 same in
        let child_c : child ≡ c = cc in
        let id_a : c.agent_id ≡ b = find_child-id a s.live c found ∙ sym one in
        subst (Ended c) (sym (e ∙ ap (λ x. ChildTransition.stop x order) (sym id_a))) (
          by_stop order
            (subst (λ (d : LiveChild). str_ltb d.last_mono_ns order ≡ true) child_c later))
    | inr other ↦ absurd (cc (find_child-remove_child_ne b a s.live other))
  ]

  left_by_known : (e : Shown) → Leaves (set_after_known s e) true
  left_by_known e gone =
      let f = advanced e.agent_type e.order e.event in
      elim (Bool-cases (str_eq e.agent_id a)) [
        | inl same ↦
            let one : e.agent_id ≡ a = (eq_iff e.agent_id a).0 same in
            let own : find_child s.live e.agent_id ≡ some c = rw one found in
            let gone' : find_child (set_after_known s e).live e.agent_id ≡ none =
              subst (λ x. find_child (set_after_known s e).live x ≡ none) (sym one) gone in
            absurd (cc (find_child-update_child_self e.agent_id f (λ _. refl) s.live c own))
        | inr other ↦
            absurd (cc (find_child-update_child_ne e.agent_id a f (λ _. refl) other s.live))
      ]

  left_by_new : (e : Shown) → Leaves (set_after_new s e) true
  left_by_new e gone = absurd (cc (find_child-append_some a s.live _ c found))

  transit-Ended : find_child (transit s end t).0.live a ≡ none → Ended c t
  transit-Ended = transit_cases Leaves s end t (record {
    keep = λ gone. absurd (cc);
    cleared = λ o id e _. left_by_clear o id e;
    reconciled = λ o l e _. left_by_list o l e;
    stopped = λ b o child e _ own later. left_by_stop b o child e own later;
    known = λ e _ _ _ _ _. left_by_known e;
    fresh = λ e _ _ _ _ _. left_by_new e;
  })

-- A live child that a transition takes out of the set ended: by its own stop after its last event,
-- by a stop of its parent at or after it, by a list of the tasks in flight that leaves it out and
-- was taken at or after it, or because the binding has an end that the set had not applied.
pub apply-Ended :
    (s : ChildPresenceSet) (end : Option EndMark) (t : ChildTransition) (a : String) (c : LiveChild)
    → find_child s.live a ≡ some c
    → find_child (apply s end t).0.live a ≡ none
    → (has_unapplied s end ≡ true) ⊎ Ended c t
unfolding apply apply_end
apply-Ended s none t a c found gone = inr (transit-Ended s none t a c found gone)
apply-Ended s (some end) t a c found gone = elim (Bool-cases (unapplied s.lifetime_end end)) [
  | inl closes ↦ inl closes
  | inr applied ↦ inr (transit-Ended s (some end) t a c found (rw (applied, apply_end) at gone))
]
