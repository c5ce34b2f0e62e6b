-- ===== src/Lifecycle/Activity/Slot.antt =====
-- src/lifecycle.rs: the slot of a binding's activity, as its writers leave it one after another, with
-- `activity_clear_plan`.
use wezterm_attention.Prelude.{
  ℕ, Bool, String, List, [], ◌∷◌, Option, none, some, if◌then◌else◌, str_ltb, str_leb,
}
use wezterm_attention.Prelude.Json.{Value, Members, no_member, member, Number, get_str}
use wezterm_attention.Protocol.{Disposition, Result, ok, err, ◌>>=◌, Manifest}
use wezterm_attention.Lifecycle.{LifecycleResult, new_result}
use wezterm_attention.Lifecycle.Activity.{text_at, activity_visible, plan_activity}

-- The names that a slot's records are filed under.
pub record SlotName : Type 0 where
  pub address : Value
  pub launch_id : String
  pub binding_id : String

abbrev pub clear_record : ℕ → SlotName → String → String → Value
clear_record schema slot event_id observation = Value.object (
    member "kind" (Value.string "activity_clear") (
      member "schema" (Value.number (Number.pos_int schema)) (
        member "address" slot.address (
          member "launch_id" (Value.string slot.launch_id) (
            member "binding_id" (Value.string slot.binding_id) (
              member "event_id" (Value.string event_id)
                (member "observed_mono_ns" (Value.string observation) no_member)))))))

module _ (manifest : Result Manifest) (slot : SlotName) where
  -- A clear that takes the place of the one before it.
  unfoldable pub clears : String → String → Result (LifecycleResult × Option Value)
  clears observation event_id = manifest >>= (λ m. ok (
    record (new_result Disposition.applied) { event_id = some event_id },
    some (clear_record m.record_schema slot event_id observation),
  ))

  unfoldable pub activity_clear_plan :
      Option Value → String → String → Result (LifecycleResult × Option Value)
  activity_clear_plan none observation event_id = clears observation event_id
  activity_clear_plan (some existing) observation event_id =
      let order = text_at existing "observed_mono_ns" in
      if str_leb observation order
      then ok (
        record (new_result
            (if str_ltb observation order then Disposition.ignored else Disposition.skipped)) {
              event_id = get_str existing "event_id";
            },
        none,
      )
      else clears observation event_id

-- What is on disk of one slot.
pub record Slot : Type 0 where
  pub activity : Option Value
  pub clear : Option Value
  pub acknowledgement : Option Value

pub data SlotEvent : Type 0 where
  observed : (held : Bool) (base : Members) (observation written_at event_id : String) → SlotEvent
  cleared : (observation event_id : String) → SlotEvent
  acknowledges : Value → SlotEvent

-- The clear that stands after a plan.
abbrev pub clear_after : Option Value → Result (LifecycleResult × Option Value) → Option Value
clear_after old (ok (result, none)) = old
clear_after old (ok (result, some clear)) = some clear
clear_after old (err e) = old

module _ (value_eq : Value → Value → Bool) (manifest : Result Manifest) (name : SlotName) where
  -- A writer reads the slot, plans with what it read, and writes what the plan says.
  unfoldable pub step : Slot → SlotEvent → Slot
  step s (SlotEvent.observed held base observation written_at event_id) = record s {
    activity =
        (plan_activity value_eq s.activity s.clear
          (activity_visible value_eq s.acknowledgement s.activity s.clear written_at) held base
          observation written_at event_id).standing;
  }
  step s (SlotEvent.cleared observation event_id) = record s {
    clear = clear_after s.clear (activity_clear_plan manifest name s.clear observation event_id);
  }
  step s (SlotEvent.acknowledges ack) = record s { acknowledgement = some ack }

  unfoldable pub run : Slot → List SlotEvent → Slot
  run s [] = s
  run s (e ∷ es) = run (step s e) es

-- The observation that a record was made at.
abbrev pub stamp : Option Value → String
stamp none = ""
stamp (some v) = text_at v "observed_mono_ns"
