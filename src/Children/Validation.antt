-- ===== src/Children/Validation.antt =====
-- src/children.rs: `validate_semantics` against its specification, and every history of the set.
use wezterm_attention.Prelude.{
  String, true, ◌≡◌, refl, sym, subst, ◌↔◌, List, [], ◌∷◌, Option, none, some, arith,
}
use wezterm_attention.Identity.{PaneAddress}
use wezterm_attention.Protocol.{ok, Provider}
use wezterm_attention.Children.{ParentClear, ChildPresenceSet, EndMark, ChildTransition, empty}
use wezterm_attention.Children.Readers.{child_ids, removed_unique, validate_semantics}
use wezterm_attention.Children.Reduce.{apply_end, transit, apply, advanced, forget_removed}
use wezterm_attention.Children.Distinct.{
  Distinct, unique_iff, Distinct-retain, Distinct-kept, Distinct-remove_child,
  child_ids-update_child, contains_of_find_child, Distinct-append,
}
use wezterm_attention.Children.Cases.{transit_cases}
use wezterm_attention.Children.Sound.{IsSound, apply-IsSound}

abbrev pub RemovedIsDistinct : Option ParentClear → Type 0
RemovedIsDistinct none = Unit {0}
RemovedIsDistinct (some clear) = Distinct clear.removed

removed_unique_iff :
    (clear : Option ParentClear) → (removed_unique clear ≡ true) ↔ RemovedIsDistinct clear
removed_unique_iff none = (λ h. tt, λ h. refl)
removed_unique_iff (some clear) = unique_iff clear.removed

-- A set passes `validate_semantics` exactly when no child is in the live list twice and no child
-- is twice among those that the parent's stop removed.
pub validate_semantics_iff :
    (s : ChildPresenceSet)
    → (validate_semantics s ≡ ok tt)
      ↔ (Distinct (child_ids s.live) × RemovedIsDistinct s.parent_clear)
unfolding validate_semantics
validate_semantics_iff s =
    ground (arith, unique_iff (child_ids s.live), removed_unique_iff s.parent_clear)

abbrev pub IsValid : ChildPresenceSet → Type 0
IsValid s = Distinct (child_ids s.live) × RemovedIsDistinct s.parent_clear

forget-IsDistinct :
    (clear : Option ParentClear) (a : String)
    → RemovedIsDistinct clear
    → RemovedIsDistinct (forget_removed clear a)
forget-IsDistinct none a h = tt
forget-IsDistinct (some clear) a h = Distinct-retain _ clear.removed h

transit-IsValid :
    (s : ChildPresenceSet) (end : Option EndMark) (t : ChildTransition)
    → IsValid s
    → IsValid (transit s end t).0
transit-IsValid s end t (d, r) =
    transit_cases (λ s' _. IsValid s') s end t
      (record {
        keep = (d, r);
        cleared = λ o e _ _. (Distinct-kept _ s.live d, Distinct-kept _ s.live d);
        reconciled = λ o l _ _. (Distinct-kept _ s.live d, r);
        stopped = λ a o c _ _ _ _. (Distinct-remove_child a s.live d, r);
        known = λ e c _ _ _ _. (
          subst Distinct
              (sym (
                child_ids-update_child e.agent_id (advanced e.agent_type e.order e.event)
                  (λ _. refl) s.live))
              d,
          r,
        );
        fresh = λ e _ _ _ missing _. (
          Distinct-append s.live _ d (contains_of_find_child e.agent_id s.live missing),
          forget-IsDistinct s.parent_clear e.agent_id r,
        );
      })

apply_end-IsValid :
    (s : ChildPresenceSet) (end : Option EndMark) → IsValid s → IsValid (apply_end s end).0
unfolding apply_end
apply_end-IsValid s none v = v
apply_end-IsValid s (some end) v = ground (arith, v)

-- Whatever the transition and the binding's end, a set that passes `validate_semantics` passes it
-- afterwards: a writer never leaves a set that the next reader refuses for a repeated child.
pub apply-validate_semantics :
    (s : ChildPresenceSet) (end : Option EndMark) (t : ChildTransition)
    → validate_semantics s ≡ ok tt
    → validate_semantics (apply s end t).0 ≡ ok tt
unfolding apply
apply-validate_semantics s end t h =
    (validate_semantics_iff (transit (apply_end s end).0 end t).0).1 (
      transit-IsValid (apply_end s end).0 end t
        (apply_end-IsValid s end ((validate_semantics_iff s).0 h)))

-- The set after a history of transitions, each with what its writer knew of the binding's end.
abbrev pub run : ChildPresenceSet → List (Option EndMark × ChildTransition) → ChildPresenceSet
run s [] = s
run s ((end, t) ∷ rest) = run (apply s end t).0 rest

run-IsSound :
    (s : ChildPresenceSet) (history : List (Option EndMark × ChildTransition))
    → IsSound s
    → IsSound (run s history)
run-IsSound s [] v = v
run-IsSound s ((end, t) ∷ rest) v = run-IsSound (apply s end t).0 rest (apply-IsSound s end t v)

empty-IsSound :
    (address : PaneAddress) (launch_id binding_id : String) (provider : Provider)
    → IsSound (empty address launch_id binding_id provider)
unfolding empty
empty-IsSound address launch_id binding_id provider = record { distinct = tt; removed = tt }

-- After any history from the empty set no child is live twice, none is listed twice among those
-- that the latest parent stop removed, and none is both live and listed there.
pub run-empty-IsSound :
    (address : PaneAddress) (launch_id binding_id : String) (provider : Provider)
    (history : List (Option EndMark × ChildTransition))
    → IsSound (run (empty address launch_id binding_id provider) history)
run-empty-IsSound address launch_id binding_id provider history =
    run-IsSound _ history (empty-IsSound address launch_id binding_id provider)
