-- ===== src/Children/Tests.antt =====
-- Runs of the transitions on concrete sets, and the theorems at concrete inputs.
use wezterm_attention.Prelude.{
  true, false, ◌≡◌, refl, [], ◌∷◌, none, some, ◌⊎◌, str_leb, str_ltb, any, ◌↔◌,
}
use wezterm_attention.Identity.{PaneAddress}
use wezterm_attention.Protocol.{Provider, ok}
use wezterm_attention.Children.{
  ChildStatus, ChildEvent, LiveChild, ChildPresenceSet, EndMark, ChildTransition, empty,
}
use wezterm_attention.Children.Readers.{
  counted, validate_semantics, waits_through_stop, unique_from, child_ids,
}
use wezterm_attention.Children.Reduce.{
  apply_end, ignored_by_end, clear_for_parent, reconcile, find_child, update_child, advance,
  advance_known, advance_new, transit, apply,
}
use wezterm_attention.Children.Distinct.{Distinct}
use wezterm_attention.Children.Sound.{IsSound}
use wezterm_attention.Children.Validation.{
  RemovedIsDistinct, validate_semantics_iff, apply-validate_semantics, run, run-empty-IsSound,
}
use wezterm_attention.Children.Evidence.{has_unapplied, Ended, apply-Ended}
use wezterm_attention.Children.Arrival.{Admitted, apply-Admitted, apply-stamp_le}
use wezterm_attention.Children.Retry.{apply-changed_iff, apply_again}
use wezterm_attention.Children.Counting.{counted-apply, waits_through_stop-reconcile, is_waiting}

abbrev here : PaneAddress
here = record { realm_id = "r"; incarnation_id = "i"; pane_id = "7" }

abbrev fresh_set : ChildPresenceSet
fresh_set = record {
  kind = "child_presence_set";
  schema = 0;
  address = here;
  launch_id = "l";
  binding_id = "b";
  provider = Provider.codex;
  revision = "";
  written_at_unix_ns = "";
  live = [];
  parent_clear = none;
  lifetime_end = none;
}

abbrev worker : LiveChild
worker = record {
  agent_id = "w";
  agent_type = some "explore";
  last_event = ChildEvent.tool;
  status = ChildStatus.running;
  last_mono_ns = "20";
}

abbrev asker : LiveChild
asker = record {
  agent_id = "q";
  agent_type = some "plan";
  last_event = ChildEvent.permission;
  status = ChildStatus.waiting;
  last_mono_ns = "30";
}

abbrev busy_set : ChildPresenceSet
busy_set = record fresh_set { live = worker ∷ asker ∷ [] }

abbrev old_end : EndMark
old_end = record { event_id = "e"; observed_mono_ns = "15"; ends_binding = false }

start_then_ask :
    (run fresh_set (
      (none, ChildTransition.start "q" (some "plan") "10")
      ∷ (none, ChildTransition.permission "q" none "30")
      ∷ [])).live
    ≡ asker ∷ []
unfolding apply apply_end transit ignored_by_end advance advance_known advance_new find_child
    update_child str_ltb
start_then_ask = refl

parent_stop_then_work :
    (run busy_set (
      (none, ChildTransition.parent_clear "25" "p")
      ∷ (none, ChildTransition.tool "w" (some "x") "40")
      ∷ [])).parent_clear
    ≡ some (record { observed_mono_ns = "25"; event_id = "p"; removed = [] })
unfolding apply apply_end transit ignored_by_end clear_for_parent advance advance_known advance_new
    find_child update_child str_ltb
parent_stop_then_work = refl

busy_set-IsSound : IsSound busy_set
busy_set-IsSound = record { distinct = (refl, (refl, tt)); removed = tt }

validate_semantics_iff_example :
    (validate_semantics busy_set ≡ ok tt)
    ↔ (Distinct (child_ids busy_set.live) × RemovedIsDistinct busy_set.parent_clear)
validate_semantics_iff_example = validate_semantics_iff busy_set

apply-validate_semantics_example :
    validate_semantics (apply busy_set (some old_end) (ChildTransition.stop "w" "21")).0 ≡ ok tt
unfolding validate_semantics unique_from
apply-validate_semantics_example =
    apply-validate_semantics busy_set (some old_end) (ChildTransition.stop "w" "21") refl

run-empty-IsSound_example : IsSound (
    run (empty here "l" "b" Provider.codex) (
      (none, ChildTransition.start "q" none "10")
      ∷ (none, ChildTransition.parent_clear "12" "p")
      ∷ []))
run-empty-IsSound_example = run-empty-IsSound here "l" "b" Provider.codex (
    (none, ChildTransition.start "q" none "10")
    ∷ (none, ChildTransition.parent_clear "12" "p")
    ∷ [])

apply-Ended_example :
    (has_unapplied busy_set none ≡ true) ⊎ Ended worker (ChildTransition.parent_clear "25" "p")
unfolding apply apply_end transit clear_for_parent find_child str_ltb
apply-Ended_example =
    apply-Ended busy_set none (ChildTransition.parent_clear "25" "p") "w" worker refl refl

apply-Admitted_example :
    Admitted
      (apply_end busy_set (some old_end)).0
      (some old_end)
      (ChildTransition.start "n" none "50")
      "n"
      (record {
        agent_id = "n";
        agent_type = none;
        last_event = ChildEvent.start;
        status = ChildStatus.running;
        last_mono_ns = "50";
      })
unfolding apply apply_end transit ignored_by_end advance advance_new find_child str_ltb
apply-Admitted_example =
    apply-Admitted busy_set (some old_end) (ChildTransition.start "n" none "50") "n" _
      busy_set-IsSound refl refl

apply-stamp_le_example : str_leb "20" "50" ≡ true
unfolding apply apply_end transit ignored_by_end advance advance_known find_child update_child
    str_ltb
apply-stamp_le_example =
    apply-stamp_le busy_set none (ChildTransition.permission "w" none "50") "w" worker
      (record worker {
        status = ChildStatus.waiting;
        last_event = ChildEvent.permission;
        last_mono_ns = "50";
      })
      busy_set-IsSound refl refl refl

apply-changed_iff_example :
    ((apply busy_set (some old_end) (ChildTransition.stop "w" "21")).1.changed ≡ false)
    ↔ ((apply busy_set (some old_end) (ChildTransition.stop "w" "21")).0 ≡ busy_set)
apply-changed_iff_example =
    apply-changed_iff busy_set (some old_end) (ChildTransition.stop "w" "21")

apply_again_example :
    let s' = (apply busy_set none (ChildTransition.stop "w" "21")).0 in
    ((apply s' none (ChildTransition.stop "w" "21")).0 ≡ s')
    × ((apply s' none (ChildTransition.stop "w" "21")).1.changed ≡ false)
apply_again_example = apply_again busy_set none (ChildTransition.stop "w" "21") busy_set-IsSound

counted-apply_example :
    counted (apply busy_set (some old_end) (ChildTransition.stop "w" "21")).0 (some old_end)
    ≡ (apply busy_set (some old_end) (ChildTransition.stop "w" "21")).0.live
counted-apply_example = counted-apply busy_set (some old_end) (ChildTransition.stop "w" "21")

waits_through_stop-reconcile_example :
    waits_through_stop busy_set none "40" (some ("q" ∷ []))
    ≡ any is_waiting (counted (reconcile busy_set "40" ("q" ∷ [])).0 none)
waits_through_stop-reconcile_example = waits_through_stop-reconcile busy_set none "40" ("q" ∷ [])
