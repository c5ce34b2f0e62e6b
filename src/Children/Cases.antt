-- ===== src/Children/Cases.antt =====
-- The ways a transition can change the set, with the guards that lead there: one rule for every
-- property that is proved of all transitions at once.
use wezterm_attention.Prelude.{
  String, Bool, true, false, not, ◌≡◌, refl, sym, subst, List, [], ◌∷◌, ◌++◌, Option, none, some,
  str_ltb, str_leb, retain, length, nat_eq, nat_eq_iff, retain_of_length, str_ltb_of_not, arith,
  is_some_and, is_none, inl, inr, Bool-cases, Option-cases, ◌&&◌,
}
use wezterm_attention.Children.{
  ChildEvent, event_eq, LiveChild, ParentClear, ChildPresenceSet, EndMark, ChildTransition,
  Reduction,
}
use wezterm_attention.Children.Readers.{child_ids, kept_through_stop}
use wezterm_attention.Children.Reduce.{
  ignored_by_end, clear_refused, clear_for_parent, reconcile, find_child, remove_child,
  update_child, stop, advanced, new_child, forget_removed, advance_known, advance_new, advance,
  unless_ended, transit,
}

-- What a transition that shows a child working says: the child, its type, the order, the event.
pub record Shown : Type 0 where
  pub agent_id : String
  pub agent_type : Option String
  pub order : String
  pub event : ChildEvent

abbrev pub shown : ChildTransition → Option Shown
shown (ChildTransition.start a ty o) =
    some (record { agent_id = a; agent_type = ty; order = o; event = ChildEvent.start })
shown (ChildTransition.tool a ty o) =
    some (record { agent_id = a; agent_type = ty; order = o; event = ChildEvent.tool })
shown (ChildTransition.permission a ty o) =
    some (record { agent_id = a; agent_type = ty; order = o; event = ChildEvent.permission })
shown (ChildTransition.stop a o) = none
shown (ChildTransition.parent_clear o e) = none
shown (ChildTransition.reconcile o l) = none

abbrev pub set_after_clear : ChildPresenceSet → String → String → ChildPresenceSet
set_after_clear s order event_id = record s {
  live = retain (λ child. not (str_leb child.last_mono_ns order)) s.live;
  parent_clear = some (record {
    observed_mono_ns = order;
    event_id = event_id;
    removed = child_ids (retain (λ child. str_leb child.last_mono_ns order) s.live);
  });
}

abbrev pub set_after_reconcile : ChildPresenceSet → String → List String → ChildPresenceSet
set_after_reconcile s order in_flight = record s {
  live = retain (λ child. kept_through_stop child order in_flight) s.live;
}

abbrev pub set_after_stop : ChildPresenceSet → String → ChildPresenceSet
set_after_stop s agent_id = record s { live = remove_child s.live agent_id }

abbrev pub set_after_known : ChildPresenceSet → Shown → ChildPresenceSet
set_after_known s e = record s {
  live = update_child s.live e.agent_id (advanced e.agent_type e.order e.event);
}

abbrev pub set_after_new : ChildPresenceSet → Shown → ChildPresenceSet
set_after_new s e = record s {
  live = s.live ++ new_child e.agent_id e.agent_type e.order e.event ∷ [];
  parent_clear = forget_removed s.parent_clear e.agent_id;
}

-- The rule: `P` holds of the result of every transition if it holds of a set that stays, and of
-- the five sets above where their guards hold.
pub record Cases {ℓ} (P : ChildPresenceSet → Bool → Type ℓ) (s : ChildPresenceSet)
    (end : Option EndMark) (t : ChildTransition) : Type ℓ where
  pub keep : P s false
  pub cleared :
      (order event_id : String)
      → t ≡ ChildTransition.parent_clear order event_id
      → clear_refused s.parent_clear order event_id ≡ none
      → P (set_after_clear s order event_id) true
  pub reconciled :
      (order : String) (in_flight : List String)
      → t ≡ ChildTransition.reconcile order in_flight
      → nat_eq (length (set_after_reconcile s order in_flight).live) (length s.live) ≡ false
      → P (set_after_reconcile s order in_flight) true
  pub stopped :
      (agent_id order : String) (child : LiveChild)
      → t ≡ ChildTransition.stop agent_id order
      → ignored_by_end s end order ≡ none
      → find_child s.live agent_id ≡ some child
      → str_ltb child.last_mono_ns order ≡ true
      → P (set_after_stop s agent_id) true
  pub known :
      (e : Shown) (child : LiveChild)
      → shown t ≡ some e
      → ignored_by_end s end e.order ≡ none
      → find_child s.live e.agent_id ≡ some child
      → str_ltb child.last_mono_ns e.order ≡ true
      → P (set_after_known s e) true
  pub fresh :
      (e : Shown)
      → shown t ≡ some e
      → ignored_by_end s end e.order ≡ none
      → is_some_and s.parent_clear (λ clear. str_leb e.order clear.observed_mono_ns) ≡ false
      → find_child s.live e.agent_id ≡ none
      → (not (event_eq e.event ChildEvent.start) && is_none e.agent_type) ≡ false
      → P (set_after_new s e) true

clear_refused_unchanged :
    (clear : Option ParentClear) (order event_id : String) (r : Reduction)
    → clear_refused clear order event_id ≡ some r
    → r.changed ≡ false
unfolding clear_refused
clear_refused_unchanged none order event_id r h = cc
clear_refused_unchanged (some clear) order event_id r h = ground arith

ignored_by_end_unchanged :
    (s : ChildPresenceSet) (end : Option EndMark) (order : String) (r : Reduction)
    → ignored_by_end s end order ≡ some r
    → r.changed ≡ false
unfolding ignored_by_end
ignored_by_end_unchanged s end order r h = ground arith

module _ {ℓ} (P : ChildPresenceSet → Bool → Type ℓ) (s : ChildPresenceSet) (end : Option EndMark)
    (t : ChildTransition) (c : Cases P s end t) where
  abbrev Holds : ChildPresenceSet × Reduction → Type ℓ
  Holds r = P r.0 r.1.changed

  clear_cases :
      (order event_id : String)
      → t ≡ ChildTransition.parent_clear order event_id
      → Holds (clear_for_parent s order event_id)
  unfolding clear_for_parent
  clear_cases order event_id e = elim (Option-cases (clear_refused s.parent_clear order event_id)) [
    | inl free ↦ rw (free, clear_for_parent) (c.cleared order event_id e free)
    | inr (r, shut) ↦
        rw (shut, clear_for_parent, clear_refused_unchanged s.parent_clear order event_id r shut)
          c.keep
  ]

  reconcile_cases :
      (order : String) (in_flight : List String)
      → t ≡ ChildTransition.reconcile order in_flight
      → Holds (reconcile s order in_flight)
  unfolding reconcile
  reconcile_cases order in_flight e =
      let kept = retain (λ child. kept_through_stop child order in_flight) s.live in
      elim (Bool-cases (nat_eq (length kept) (length s.live))) [
        | inl same ↦ rw same (
            subst (λ (l : List LiveChild). P (record s { live = l }) false)
              (sym (
                retain_of_length (λ child. kept_through_stop child order in_flight) s.live
                  ((nat_eq_iff _ _).0 same)))
              c.keep)
        | inr fewer ↦ rw fewer (c.reconciled order in_flight e fewer)
      ]

  stop_cases :
      (agent_id order : String)
      → t ≡ ChildTransition.stop agent_id order
      → ignored_by_end s end order ≡ none
      → Holds (stop s agent_id order)
  unfolding stop
  stop_cases agent_id order e i = elim (Option-cases (find_child s.live agent_id)) [
    | inl missing ↦ rw (missing, stop) (ground (arith, c.keep))
    | inr (child, found) ↦
        rw (found, stop)
          (ground (
            arith,
            c.keep,
            c.stopped agent_id order child e i found,
            str_ltb_of_not order child.last_mono_ns,
          ))
  ]

  module _ (e : Shown) (shows : shown t ≡ some e) (i : ignored_by_end s end e.order ≡ none) where
    advance_new_cases :
        is_some_and s.parent_clear (λ clear. str_leb e.order clear.observed_mono_ns) ≡ false
        → find_child s.live e.agent_id ≡ none
        → Holds (advance_new s e.agent_id e.agent_type e.order e.event)
    unfolding advance_new
    advance_new_cases free missing = ground (arith, c.keep, c.fresh e shows i free missing)

    advance_known_cases :
        (child : LiveChild)
        → find_child s.live e.agent_id ≡ some child
        → Holds (advance_known s child e.agent_id e.agent_type e.order e.event)
    unfolding advance_known
    advance_known_cases child found =
        ground
          (arith, c.keep, c.known e child shows i found, str_ltb_of_not e.order child.last_mono_ns)

    advance_cases : Holds (advance s e.agent_id e.agent_type e.order e.event)
    unfolding advance
    advance_cases =
        let covered =
          is_some_and s.parent_clear (λ clear. str_leb e.order clear.observed_mono_ns) in
        elim (Bool-cases covered) [
          | inl under ↦ rw under c.keep
          | inr free ↦ elim (Option-cases (find_child s.live e.agent_id)) [
            | inl missing ↦ rw (free, missing, advance) (advance_new_cases free missing)
            | inr (child, found) ↦ rw (free, found, advance) (advance_known_cases child found)
          ]
        ]

  unless_ended_cases :
      (order : String) (next : ChildPresenceSet × Reduction)
      → (ignored_by_end s end order ≡ none → Holds next)
      → Holds (unless_ended s end order next)
  unless_ended_cases order next h = elim (Option-cases (ignored_by_end s end order)) [
    | inl free ↦ rw (free, unless_ended) (h free)
    | inr (r, shut) ↦ rw (shut, unless_ended, ignored_by_end_unchanged s end order r shut) c.keep
  ]

module _ {ℓ} (P : ChildPresenceSet → Bool → Type ℓ) (s : ChildPresenceSet)
    (end : Option EndMark) where
  pub transit_cases :
      (t : ChildTransition) (c : Cases P s end t)
      → P (transit s end t).0 (transit s end t).1.changed
  unfolding transit
  transit_cases (ChildTransition.parent_clear order event_id) c =
      clear_cases P s end _ c order event_id refl
  transit_cases (ChildTransition.reconcile order in_flight) c =
      reconcile_cases P s end _ c order in_flight refl
  transit_cases (ChildTransition.stop agent_id order) c =
      unless_ended_cases P s end _ c order _ (λ i. stop_cases P s end _ c agent_id order refl i)
  transit_cases (ChildTransition.start a ty o) c =
      unless_ended_cases P s end _ c o _ (λ i. advance_cases P s end _ c _ refl i)
  transit_cases (ChildTransition.tool a ty o) c =
      unless_ended_cases P s end _ c o _ (λ i. advance_cases P s end _ c _ refl i)
  transit_cases (ChildTransition.permission a ty o) c =
      unless_ended_cases P s end _ c o _ (λ i. advance_cases P s end _ c _ refl i)
