-- ===== src/Children/Reduce.antt =====
-- src/children.rs: the transitions. A method that takes `&mut self` returns the new set beside
-- its result.
use wezterm_attention.Prelude.{
  String, Bool, true, false, not, ◌&&◌, ◌||◌, List, [], ◌∷◌, ◌++◌, Option, none, some, str_eq,
  str_ltb, str_leb, contains, is_some_and, is_none, unwrap_or, retain, length, nat_eq,
  if◌then◌else◌,
}
use wezterm_attention.Protocol.{DiagnosticCode, Disposition}
use wezterm_attention.Children.{
  ChildStatus, ChildEvent, status_eq, event_eq, LiveChild, ParentClear, ChildPresenceSet, EndMark,
  ChildTransition, Reduction, reduction, diagnosed,
}
use wezterm_attention.Children.Readers.{child_ids, unapplied, kept_through_stop}

-- The part of `apply` that comes first whatever the transition is.
abbrev closed_by : ChildPresenceSet → EndMark → ChildPresenceSet
closed_by s end = record s {
  live = [];
  parent_clear = none;
  lifetime_end = some (record { event_id = end.event_id; observed_mono_ns = end.observed_mono_ns });
}

unfoldable pub apply_end : ChildPresenceSet → Option EndMark → ChildPresenceSet × Bool
apply_end s none = (s, false)
apply_end s (some end) =
    if unapplied s.lifetime_end end then (closed_by s end, true) else (s, false)

unfoldable pub ignored_by_end : ChildPresenceSet → Option EndMark → String → Option Reduction
ignored_by_end s end order =
    if is_some_and end (λ e. e.ends_binding)
    then some (
        diagnosed false Disposition.ignored DiagnosticCode.binding_conflict
          "child observation arrived after the binding ended")
    else if is_some_and s.lifetime_end (λ last. str_leb order last.observed_mono_ns)
    then some (
        diagnosed false Disposition.ignored DiagnosticCode.binding_conflict
          "child observation predates the binding's last end")
    else none

-- The early returns of `clear_for_parent`.
unfoldable pub clear_refused : Option ParentClear → String → String → Option Reduction
clear_refused none order event_id = none
clear_refused (some clear) order event_id =
    if str_ltb order clear.observed_mono_ns
    then some (reduction false Disposition.ignored)
    else if str_eq clear.observed_mono_ns order
    then (if str_eq clear.event_id event_id
        then some (reduction false Disposition.skipped)
        else some (
            diagnosed false Disposition.conflict DiagnosticCode.record_invalid
              "equal parent-clear order has different content"))
    else none

unfoldable pub clear_for_parent : ChildPresenceSet → String → String → ChildPresenceSet × Reduction
unfolding clear_refused
clear_for_parent s order event_id = elim (clear_refused s.parent_clear order event_id) [
  | some refused ↦ (s, refused)
  | none ↦ (
    record s {
      live = retain (λ child. not (str_leb child.last_mono_ns order)) s.live;
      parent_clear = some (record {
        observed_mono_ns = order;
        event_id = event_id;
        removed = child_ids (retain (λ child. str_leb child.last_mono_ns order) s.live);
      });
    },
    reduction true Disposition.applied,
  )
]

unfoldable pub reconcile : ChildPresenceSet → String → List String → ChildPresenceSet × Reduction
reconcile s order in_flight =
    let kept = retain (λ child. kept_through_stop child order in_flight) s.live in
    if nat_eq (length kept) (length s.live)
    then (record s { live = kept }, reduction false Disposition.skipped)
    else (record s { live = kept }, reduction true Disposition.applied)

-- `iter().find(…)` and `iter().position(…)` by `agent_id`, with the element found.
unfoldable pub find_child : List LiveChild → String → Option LiveChild
find_child [] agent_id = none
find_child (child ∷ rest) agent_id =
    if str_eq child.agent_id agent_id then some child else find_child rest agent_id

-- `Vec::remove` at the position found, and a write through `iter_mut().find(…)`.
unfoldable pub remove_child : List LiveChild → String → List LiveChild
remove_child [] agent_id = []
remove_child (child ∷ rest) agent_id =
    if str_eq child.agent_id agent_id then rest else child ∷ remove_child rest agent_id

unfoldable pub update_child : List LiveChild → String → (LiveChild → LiveChild) → List LiveChild
update_child [] agent_id f = []
update_child (child ∷ rest) agent_id f =
    if str_eq child.agent_id agent_id then f child ∷ rest else child ∷ update_child rest agent_id f

unfoldable pub stop : ChildPresenceSet → String → String → ChildPresenceSet × Reduction
stop s agent_id order = elim (find_child s.live agent_id) [
  | none ↦
      if is_some_and s.parent_clear
        (λ clear. str_ltb clear.observed_mono_ns order && contains clear.removed agent_id)
      then (
        s,
        diagnosed false Disposition.skipped DiagnosticCode.child_active_after_parent_clear
            "a child stopped after the parent stop that ended it",
      )
      else (s, reduction false Disposition.skipped)
  | some child ↦
      if str_ltb order child.last_mono_ns
      then (s, reduction false Disposition.ignored)
      else if str_eq order child.last_mono_ns
      then (
        s,
        diagnosed false Disposition.conflict DiagnosticCode.record_invalid
            "equal child order has different content",
      )
      else (record s { live = remove_child s.live agent_id }, reduction true Disposition.applied)
]

abbrev pub status_after : ChildEvent → Option ChildStatus → ChildStatus
status_after ChildEvent.start current = unwrap_or current ChildStatus.running
status_after ChildEvent.tool current = ChildStatus.running
status_after ChildEvent.permission current = ChildStatus.waiting

-- `if let Some(agent_type) = agent_type { child.agent_type = Some(…) }`.
abbrev pub typed : Option String → Option String → Option String
typed none current = current
typed (some agent_type) current = some agent_type

abbrev pub advanced : Option String → String → ChildEvent → LiveChild → LiveChild
advanced agent_type order event child = record child {
  status = status_after event (some child.status);
  last_event = event;
  last_mono_ns = order;
  agent_type = typed agent_type child.agent_type;
}

-- The branch of `advance` for a child that the set holds.
unfoldable pub advance_known :
    ChildPresenceSet
    → LiveChild
    → String
    → Option String
    → String
    → ChildEvent
    → ChildPresenceSet × Reduction
advance_known s child agent_id agent_type order event =
    if str_ltb order child.last_mono_ns
    then (s, reduction false Disposition.ignored)
    else if str_eq order child.last_mono_ns
    then (if status_eq child.status (status_after event (some child.status))
          && event_eq child.last_event event
        then (s, reduction false Disposition.skipped)
        else (
          s,
          diagnosed false Disposition.conflict DiagnosticCode.record_invalid
              "equal child order has different content",
        ))
    else (
      record s { live = update_child s.live agent_id (advanced agent_type order event) },
      reduction true Disposition.applied,
    )

abbrev pub new_child : String → Option String → String → ChildEvent → LiveChild
new_child agent_id agent_type order event = record {
  agent_id = agent_id;
  agent_type = agent_type;
  last_event = event;
  status = status_after event none;
  last_mono_ns = order;
}

-- `clear.removed.retain(|removed| removed != agent_id)`, and whether that took one away.
abbrev pub forget_removed : Option ParentClear → String → Option ParentClear
forget_removed none agent_id = none
forget_removed (some clear) agent_id =
    some
      (record clear { removed = retain (λ removed. not (str_eq removed agent_id)) clear.removed })

abbrev pub resumed : Option ParentClear → String → Bool
resumed clear agent_id = is_some_and clear (λ c. not (
    nat_eq (length (retain (λ removed. not (str_eq removed agent_id)) c.removed))
      (length c.removed)))

-- The branch of `advance` for a child that the set does not hold.
unfoldable pub advance_new :
    ChildPresenceSet → String → Option String → String → ChildEvent → ChildPresenceSet × Reduction
advance_new s agent_id agent_type order event =
    if not (event_eq event ChildEvent.start) && is_none agent_type
    then (
      s,
      diagnosed false Disposition.skipped DiagnosticCode.record_invalid
          "child event has no agent type and follows no start",
    )
    else (
      record s {
        live = s.live ++ new_child agent_id agent_type order event ∷ [];
        parent_clear = forget_removed s.parent_clear agent_id;
      },
      if resumed s.parent_clear agent_id
          then diagnosed true Disposition.applied DiagnosticCode.child_active_after_parent_clear
              "a child worked after the parent stop that ended it"
          else reduction true Disposition.applied,
    )

unfoldable pub advance :
    ChildPresenceSet → String → Option String → String → ChildEvent → ChildPresenceSet × Reduction
advance s agent_id agent_type order event =
    if is_some_and s.parent_clear (λ clear. str_leb order clear.observed_mono_ns)
    then (
      s,
      diagnosed false Disposition.ignored DiagnosticCode.binding_conflict
          "child observation is covered by parent clear",
    )
    else elim (find_child s.live agent_id) [
      | some child ↦ advance_known s child agent_id agent_type order event
      | none ↦ advance_new s agent_id agent_type order event
    ]

-- `self.ignored_by_end(end, order).unwrap_or_else(…)`.
abbrev pub unless_ended :
    ChildPresenceSet
    → Option EndMark
    → String
    → ChildPresenceSet × Reduction
    → ChildPresenceSet × Reduction
unless_ended s end order next = elim (ignored_by_end s end order) [
  | some refused ↦ (s, refused)
  | none ↦ next
]

-- The `match transition` of `apply`.
unfoldable pub transit :
    ChildPresenceSet → Option EndMark → ChildTransition → ChildPresenceSet × Reduction
transit s end (ChildTransition.parent_clear order event_id) = clear_for_parent s order event_id
transit s end (ChildTransition.reconcile order in_flight) = reconcile s order in_flight
transit s end (ChildTransition.stop agent_id order) =
    unless_ended s end order (stop s agent_id order)
transit s end (ChildTransition.start agent_id agent_type order) =
    unless_ended s end order (advance s agent_id agent_type order ChildEvent.start)
transit s end (ChildTransition.tool agent_id agent_type order) =
    unless_ended s end order (advance s agent_id agent_type order ChildEvent.tool)
transit s end (ChildTransition.permission agent_id agent_type order) =
    unless_ended s end order (advance s agent_id agent_type order ChildEvent.permission)

unfoldable pub apply :
    ChildPresenceSet → Option EndMark → ChildTransition → ChildPresenceSet × Reduction
apply s end transition =
    let (opened, closed) = apply_end s end in
    let (next, r) = transit opened end transition in
    (next, record r { changed = closed || r.changed })
