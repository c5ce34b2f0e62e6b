-- ===== src/Lifecycle/Tests.antt =====
-- src/lifecycle.rs: two activities and a clear in one slot.
use wezterm_attention.Prelude.{
  ◌≡◌, refl, Bool, true, false, String, List, [], ◌∷◌, none, some, str_leb, str_ltb, str_eq,
  eq_refl,
}
use wezterm_attention.Prelude.Json.{Value, Members, member, no_member}
use wezterm_attention.Protocol.{Disposition, Provider, ok, ◌>>=◌}
use wezterm_attention.Protocol.Samples.{manifest}
use wezterm_attention.Lifecycle.{new_result}
use wezterm_attention.Lifecycle.Activity.{
  kept, covered_by_clear, activity_record, takes_slot, meets, plan_activity, activity_visible,
  uncleared, acknowledged, expired, semantic_activity, replays,
}
use wezterm_attention.Lifecycle.Activity.Slot.{
  SlotName, Slot, SlotEvent, clears, activity_clear_plan, step, run, stamp, observed, cleared,
}
use wezterm_attention.Lifecycle.Activity.Later.{Later}
use wezterm_attention.Lifecycle.Activity.Cleared.{after_clear, cleared_stays, run-Later}
use wezterm_attention.Lifecycle.Activity.Again.{plan_activity_again}
use wezterm_attention.Lifecycle.Binding.{
  StartEvent, Records, replaces, current_refuses, unless_refused, own_binding, new_binding,
  plan_binding,
}
use wezterm_attention.Lifecycle.Binding.Guarded.{is_empty_plan, Guarded, plan_binding-Guarded}
use wezterm_attention.Lifecycle.Activity.Orders.{step_either_order}

abbrev name : SlotName
name = record { address = Value.null; launch_id = "launch"; binding_id = "binding" }

-- The type of an activity is what tells the contents of these tests apart.
abbrev kind_of : Value → String
kind_of (Value.object (member k (Value.string s) rest)) = s
kind_of _ = ""

abbrev value_eq : Value → Value → Bool
value_eq v w = str_eq (kind_of v) (kind_of w)

value_eq_self : (v : Value) → value_eq v v ≡ true
value_eq_self v = eq_refl (kind_of v)

abbrev thinking : Members
thinking = member "type" (Value.string "thinking") no_member

abbrev waiting : Members
waiting = member "type" (Value.string "waiting") no_member

abbrev empty : Slot
empty = record { activity = none; clear = none; acknowledgement = none }

abbrev events : List SlotEvent
events =
    observed false thinking "05" "05" "a"
    ∷ cleared "07" "c"
    ∷ observed false waiting "06" "08" "b"
    ∷ []

run-Later_example :
    Later none (run value_eq (ok manifest) name empty events).activity
    × Later none (run value_eq (ok manifest) name empty events).clear
run-Later_example = run-Later value_eq (ok manifest) name empty events

abbrev shown : Slot
shown = record {
  activity = some (Value.object (activity_record thinking "a" "05" "05"));
  clear = none;
  acknowledgement = none;
}

abbrev late : List SlotEvent
late = observed false waiting "06" "08" "b" ∷ []

stands_covered :
    str_leb (stamp (after_clear value_eq manifest name shown "07" "c" late).activity) "07" ≡ true
unfolding run step activity_clear_plan clears plan_activity meets covered_by_clear activity_record
    str_ltb activity_visible uncleared acknowledged expired semantic_activity replays ◌>>=◌
stands_covered = refl

cleared_stays_example :
    activity_visible value_eq
      (after_clear value_eq manifest name shown "07" "c" late).acknowledgement
      (after_clear value_eq manifest name shown "07" "c" late).activity
      (after_clear value_eq manifest name shown "07" "c" late).clear
      "09"
    ≡ false
cleared_stays_example = cleared_stays value_eq manifest name shown "07" "c" "09" late stands_covered

taken_first :
    (plan_activity value_eq none none false false thinking "05" "05" "a").result.disposition
    ≡ Disposition.applied
unfolding plan_activity covered_by_clear takes_slot
taken_first = refl

plan_activity_again_example :
    plan_activity value_eq
      (plan_activity value_eq none none false false thinking "05" "05" "a").standing
      none
      true
      false
      thinking
      "06"
      "06"
      "b"
    ≡ kept
        (record (new_result Disposition.skipped) { event_id = some "a" })
        (plan_activity value_eq none none false false thinking "05" "05" "a").standing
plan_activity_again_example =
    plan_activity_again value_eq value_eq_self none none none false false false thinking "05" "05"
      "a" "06" "06" "b" (refl, refl, refl, refl) refl taken_first

earlier_text : str_ltb "05" "06" ≡ true
unfolding str_ltb
earlier_text = refl

step_either_order_example :
    step value_eq
      (ok manifest)
      name
      (step value_eq (ok manifest) name empty (observed false thinking "05" "05" "a"))
      (observed false waiting "06" "08" "b")
    ≡ step value_eq
        (ok manifest)
        name
        (step value_eq (ok manifest) name empty (observed false waiting "06" "08" "b"))
        (observed true thinking "05" "05" "a")
step_either_order_example =
    step_either_order value_eq (ok manifest) name none none false false true thinking waiting "05"
      "05" "a" "06" "08" "b" (refl, refl, refl, refl) (refl, refl, refl, refl) refl refl
      earlier_text

-- A session that is resumed takes the pane over from an older one.
abbrev resumes : StartEvent
resumes = record {
  provider = Provider.claude;
  session = "session";
  source = "resume";
  transcript_path = none;
  cwd = some "/work";
  config_dir = none;
  model = none;
}

abbrev bound : Records
bound = record {
  lapsed = none;
  pointer = none;
  current = some (
      Value.object (
        member "binding_id" (Value.string "other")
          (member "observed_mono_ns" (Value.string "05") no_member)));
  existing = none;
  current_end = none;
  started_by_recorded_host = false;
}

takes_over : is_empty_plan (plan_binding resumes bound no_member "binding" "06" "06" "a") ≡ false
unfolding plan_binding unless_refused current_refuses replaces own_binding new_binding str_ltb
takes_over = refl

plan_binding-Guarded_example : Guarded resumes bound "binding" "06"
plan_binding-Guarded_example =
    plan_binding-Guarded resumes bound no_member "binding" "06" "06" "a" takes_over
