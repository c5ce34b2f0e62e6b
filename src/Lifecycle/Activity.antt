-- ===== src/Lifecycle/Activity.antt =====
-- src/lifecycle.rs: the ordering that every writer of an activity applies (`plan_activity`), whether
-- an activity is still on screen (`activity_visible`), and the clear of a slot (`activity_clear_plan`).
-- A record that could not be read is none, and a new event id is what the uuid crate makes.
pub mod Slot
pub mod Later
pub mod Cleared
pub mod Record
pub mod Again
pub mod Orders
use wezterm_attention.Prelude.{
  ℕ, ◌*◌, ◌≡◌, Bool, true, false, not, ◌&&◌, String, Option, none, some, if◌then◌else◌, str_eq,
  str_ltb, str_leb, is_some, is_some_and, is_none, unwrap_or,
}
use wezterm_attention.Prelude.Json.{
  Value, Members, no_member, member, find_member, insert_member, get, get_str, as_u64, and_then,
}
use wezterm_attention.Protocol.{DiagnosticCode, Disposition}
use wezterm_attention.Protocol.Stamp.{elapsed_beyond}
use wezterm_attention.Owner.{set_field}
use wezterm_attention.Lifecycle.{LifecycleResult, new_result, diagnosed}

-- `value[field]` and `value[field].as_str().unwrap_or("")`.
abbrev pub index : Value → String → Value
index value field = unwrap_or (get value field) Value.null

abbrev pub text_at : Value → String → String
text_at value field = unwrap_or (get_str value field) ""

-- `Map::remove`.
abbrev pub remove_member : Members → String → Members
remove_member no_member k = no_member
remove_member (member j v ms) k = if str_eq j k then ms else member j v (remove_member ms k)

abbrev pub without_event : Members → Members
without_event ms =
    remove_member
      (remove_member (remove_member (remove_member ms "event_id") "observed_mono_ns")
        "written_at_unix_ns")
      "publication_id"

unfoldable pub semantic_activity : Value → Value
semantic_activity (Value.object ms) = Value.object (without_event ms)
semantic_activity Value.null = Value.null
semantic_activity (Value.array vs) = Value.array vs
semantic_activity (Value.string s) = Value.string s
semantic_activity (Value.number n) = Value.number n
semantic_activity (Value.boolean b) = Value.boolean b

unfoldable pub covered_by_clear : String → Option Value → Bool
covered_by_clear observation clear =
    is_some_and clear (λ c. str_leb observation (text_at c "observed_mono_ns"))

unfoldable pub uncleared : Value → Option Value → Bool
uncleared activity clear = not (covered_by_clear (text_at activity "observed_mono_ns") clear)

abbrev is_text : Option String → String → Bool
is_text none text = false
is_text (some s) text = str_eq s text

-- The time limit of an activity has passed.
abbrev is_true : Option Bool → Bool
is_true none = false
is_true (some b) = b

unfoldable pub expired : Value → String → Bool
expired activity now = is_some_and (and_then (get activity "ttl_ms") as_u64) (λ ttl_ms.
    is_true (elapsed_beyond now (text_at activity "written_at_unix_ns") (ttl_ms * 1000000)))

-- An activity record: the content that a writer observed, with the event's own fields.
unfoldable pub activity_record : Members → String → String → String → Members
activity_record base event_id observation written_at =
    insert_member
      (insert_member (insert_member base "event_id" (Value.string event_id)) "observed_mono_ns"
        (Value.string observation))
      "written_at_unix_ns" (Value.string written_at)

pub record ActivityOutcome : Type 0 where
  pub result : LifecycleResult
  pub standing : Option Value
  pub written : Option Value

abbrev pub kept : LifecycleResult → Option Value → ActivityOutcome
kept result standing = record { result = result; standing = standing; written = none }

abbrev covered_result : LifecycleResult
covered_result =
    diagnosed Disposition.ignored DiagnosticCode.binding_conflict
      "activity observation is covered by activity clear"

-- What an activity that takes the slot leaves.
unfoldable pub takes_slot : Members → String → String → String → ActivityOutcome
takes_slot base observation written_at event_id =
    let stored = Value.object (activity_record base event_id observation written_at) in
    record {
      result = record (new_result Disposition.applied) { event_id = some event_id };
      standing = some stored;
      written = some stored;
    }

-- What a replay of the activity that stands leaves.
unfoldable pub replays : Value → String → ActivityOutcome
replays existing written_at =
    if is_none (get existing "ttl_ms")
    then kept (record (new_result Disposition.skipped) { event_id = get_str existing "event_id" })
        (some existing)
    else let renewed = set_field existing "written_at_unix_ns" (Value.string written_at) in
      record {
        result = record (new_result Disposition.renewed) { event_id = get_str existing "event_id" };
        standing = some renewed;
        written = some renewed;
      }

-- `value_eq` is the equality of serde_json values.
module _ (value_eq : Value → Value → Bool) where
  unfoldable pub acknowledged : Option Value → Value → Bool
  acknowledged none existing = false
  acknowledged (some ack) existing = elim (get_str existing "event_id") [
    | none ↦ false
    | some event_id ↦
        value_eq (index ack "target") (index existing "target")
        && is_text (get_str ack "activity_event_id") event_id
  ]

  unfoldable pub activity_visible : Option Value → Option Value → Option Value → String → Bool
  activity_visible ack none clear now = is_none clear
  activity_visible ack (some activity) clear now =
      uncleared activity clear && not (acknowledged ack activity) && not (expired activity now)

  -- The meeting of an activity with the one that stands, where it is no replay of it.
  unfoldable pub meets :
      Value → Option Value → Bool → Members → String → String → String → ActivityOutcome
  meets existing clear held base observation written_at event_id =
      let order = text_at existing "observed_mono_ns" in
      if held
      then kept (new_result Disposition.ignored) (some existing)
      else if str_ltb observation order
      then kept (new_result Disposition.ignored) (some existing)
      else if str_eq observation order
      then kept
          (diagnosed Disposition.conflict DiagnosticCode.record_invalid
            "equal activity order has different content")
          (some existing)
      else if covered_by_clear observation clear
      then kept covered_result (some existing)
      else takes_slot base observation written_at event_id

  unfoldable pub plan_activity :
      Option Value
      → Option Value
      → Bool
      → Bool
      → Members
      → String
      → String
      → String
      → ActivityOutcome
  plan_activity none clear visible held base observation written_at event_id =
      if covered_by_clear observation clear
      then kept covered_result none
      else takes_slot base observation written_at event_id
  plan_activity (some existing) clear visible held base observation written_at event_id =
      if visible && value_eq (semantic_activity existing) (Value.object base)
      then replays existing written_at
      else meets existing clear held base observation written_at event_id
