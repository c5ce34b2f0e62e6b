-- ===== src/Children/Readers.antt =====
-- src/children.rs: what a reader asks of the set, and the rules the manifest cannot state.
use wezterm_attention.Prelude.{
  String, Bool, true, not, ◌&&◌, ◌||◌, List, [], ◌∷◌, map, Option, none, some, str_eq, str_ltb,
  str_leb, contains, is_some_and, is_none_or, unwrap_or, any, if◌then◌else◌,
}
use wezterm_attention.Prelude.Json.{Value, get_str}
use wezterm_attention.Records.{ends_binding}
use wezterm_attention.Protocol.{DiagnosticCode, new_error, Result, ok, err}
use wezterm_attention.Children.{
  ChildStatus, status_eq, LiveChild, ParentClear, LifetimeEnd, ChildPresenceSet, EndMark,
}

-- The loop of `unique`: `seen` is the `BTreeSet`, and `all` stops at the first repeat.
unfoldable pub unique_from : List String → List String → Bool
unique_from seen [] = true
unique_from seen (id ∷ ids) = not (contains seen id) && unique_from (id ∷ seen) ids

abbrev pub child_ids : List LiveChild → List String
child_ids = map (λ child. child.agent_id)

abbrev pub removed_unique : Option ParentClear → Bool
removed_unique none = true
removed_unique (some clear) = unique_from [] clear.removed

unfoldable pub validate_semantics : ChildPresenceSet → Result (Unit {0})
validate_semantics s =
    if not (unique_from [] (child_ids s.live))
    then err (new_error DiagnosticCode.record_invalid "a child appears twice in the live set")
    else if not (removed_unique s.parent_clear)
    then err (
        new_error DiagnosticCode.record_invalid
          "a child appears twice among those a parent stop removed")
    else ok tt

-- `lifetime_end.as_ref().is_none_or(|last| last.event_id != end.event_id)`.
abbrev pub unapplied : Option LifetimeEnd → EndMark → Bool
unapplied last end = is_none_or last (λ l. not (str_eq l.event_id end.event_id))

unfoldable pub counted : ChildPresenceSet → Option EndMark → List LiveChild
counted s end =
    if is_some_and end (λ e. e.ends_binding || unapplied s.lifetime_end e) then [] else s.live

abbrev pub kept_through_stop : LiveChild → String → List String → Bool
kept_through_stop child order in_flight =
    str_ltb order child.last_mono_ns || contains in_flight child.agent_id

unfoldable pub waits_since : ChildPresenceSet → Option EndMark → String → Bool
waits_since s end since =
    any (λ child. status_eq child.status ChildStatus.waiting && str_leb since child.last_mono_ns)
      (counted s end)

unfoldable pub waits_through_stop :
    ChildPresenceSet → Option EndMark → String → Option (List String) → Bool
waits_through_stop s end order in_flight =
    any
      (λ child.
        status_eq child.status ChildStatus.waiting
        && is_none_or in_flight (λ listed. kept_through_stop child order listed))
      (counted s end)

-- `EndMark::of`.
abbrev pub end_mark_of : Option Value → Value → Option EndMark
end_mark_of none binding = none
end_mark_of (some end) binding = some record {
  event_id = unwrap_or (get_str end "event_id") "";
  observed_mono_ns = unwrap_or (get_str end "observed_mono_ns") "";
  ends_binding = ends_binding end binding;
}
