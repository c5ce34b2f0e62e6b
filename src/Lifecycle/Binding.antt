-- ===== src/Lifecycle/Binding.antt =====
-- src/lifecycle.rs: which session a start event binds to the launch (`binding_mutation_for_session`),
-- over the records that the commit read under its locks. The writes are in the order of the commit.
pub mod Guarded
use wezterm_attention.Prelude.{
  ℕ, ◌≡◌, Bool, true, false, not, ◌&&◌, ◌||◌, String, List, [], ◌∷◌, Option, none, some,
  if◌then◌else◌, str_eq, str_ltb, any, is_some, is_some_and, contains,
}
use wezterm_attention.Prelude.Json.{
  Value, Members, member, no_member, Number, insert_member, get_str,
}
use wezterm_attention.Protocol.{
  DiagnosticCode, Diagnostic, AttentionError, Disposition, Provider, Result, ok, err, ◌>>=◌,
  Manifest, new_error,
}
use wezterm_attention.Records.{ends_binding}
use wezterm_attention.Owner.{set_field}
use wezterm_attention.Lifecycle.{LifecycleResult, new_result, diagnosed}
use wezterm_attention.Lifecycle.Activity.{text_at}

-- What a start event says.
pub record StartEvent : Type 0 where
  pub provider : Provider
  pub session : String
  pub source : String
  pub transcript_path : Option String
  pub cwd : Option String
  pub config_dir : Option String
  pub model : Option String

abbrev fact : String → Option String → List (String × String) → List (String × String)
fact name none facts = facts
fact name (some value) facts = (name, value) ∷ facts

unfoldable pub binding_facts : StartEvent → List (String × String)
binding_facts event =
    fact "transcript_path" event.transcript_path
      (fact "cwd" event.cwd (fact "config_dir" event.config_dir (fact "model" event.model [])))

-- What the commit read: why the event has lapsed, the launch's pointer, the binding that it selects, the
-- binding of the event's session, the end of the current binding, and whether its recorded host runs
-- this event.
pub record Records : Type 0 where
  pub lapsed : Option LifecycleResult
  pub pointer : Option Value
  pub current : Option Value
  pub existing : Option Value
  pub current_end : Option Value
  pub started_by_recorded_host : Bool

pub data Write : Type 0 where
  session_entry : String → Write
  binding : Value → Write
  pointer_always pointer_if_different : String → Write

pub record BindingPlan : Type 0 where
  pub result : LifecycleResult
  pub writes : List Write

abbrev pub reporting : LifecycleResult → BindingPlan
reporting result = record { result = result; writes = [] }

abbrev pub conflict_of : Disposition → String → LifecycleResult
conflict_of disposition message = diagnosed disposition DiagnosticCode.binding_conflict message

unfoldable pub replaces : StartEvent → Records → Value → Bool
replaces event records current =
    let resumed = contains ("resume" ∷ "clear" ∷ "fork" ∷ []) event.source in
    is_some_and records.current_end (λ end. ends_binding end current) || (elim event.provider [
      | Provider.claude ↦ resumed
      | Provider.codex ↦
          resumed
          || (str_eq event.source "startup"
              && is_some event.transcript_path
              && records.started_by_recorded_host)
      | Provider.pi ↦ contains ("new" ∷ "resume" ∷ "fork" ∷ []) event.source
    ])

-- `value.get("binding_id").and_then(Value::as_str) == Some(binding_id)`.
abbrev pub names_binding : Option Value → String → Bool
names_binding none binding_id = false
names_binding (some v) binding_id = is_some_and (get_str v "binding_id") (λ b. str_eq b binding_id)

-- Why the start may not take the place of the binding that is current, if another one is.
unfoldable pub current_refuses :
    StartEvent → Records → String → String → Option Value → Option LifecycleResult
current_refuses event records binding_id observation none = none
current_refuses event records binding_id observation (some current) =
    let order = text_at current "observed_mono_ns" in
    if names_binding (some current) binding_id
    then none
    else if str_ltb observation order
    then some (conflict_of Disposition.ignored "older binding selection was ignored")
    else if str_eq observation order
    then some (conflict_of Disposition.conflict "equal binding order names a different binding")
    else if contains ("compact" ∷ "reload" ∷ []) event.source
        || not (replaces event records current)
    then some (conflict_of Disposition.conflict "provider start cannot replace the active binding")
    else none

abbrev pub conflicts : StartEvent → Value → Bool
conflicts event existing =
    any (λ (field, value). not (is_some_and (get_str existing field) (λ s. str_eq s value)))
      (binding_facts event)

abbrev pub confirmed : Option String → LifecycleResult
confirmed event_id = record (new_result Disposition.confirmed) { event_id = event_id }

-- The start of a session whose binding is there.
unfoldable pub meets_existing :
    StartEvent → Records → String → String → String → String → Value → BindingPlan
meets_existing event records binding_id observation written_at event_id existing =
    let order = text_at existing "observed_mono_ns" in
    if str_ltb observation order
    then reporting (conflict_of Disposition.ignored "older binding observation was ignored")
    else if str_eq observation order
    then if conflicts event existing
      then reporting (conflict_of Disposition.conflict "equal binding order has different facts")
      else record {
        result = confirmed (get_str existing "event_id");
        writes =
            if names_binding records.pointer binding_id then [] else pointer_always binding_id ∷ [];
      }
    else record {
      result = confirmed (some event_id);
      writes =
          binding (
            set_field
              (set_field (set_field existing "event_id" (Value.string event_id)) "observed_mono_ns"
                (Value.string observation))
              "written_at_unix_ns" (Value.string written_at))
          ∷ pointer_if_different binding_id
          ∷ [];
    }

abbrev with_facts : List (String × String) → Members → Members
with_facts [] ms = ms
with_facts ((field, value) ∷ facts) ms =
    with_facts facts (insert_member ms field (Value.string value))

abbrev kept_writes : Disposition → String → List Write → List Write
kept_writes Disposition.applied binding_id writes = session_entry binding_id ∷ writes
kept_writes Disposition.replaced binding_id writes = session_entry binding_id ∷ writes
kept_writes Disposition.confirmed binding_id writes = session_entry binding_id ∷ writes
kept_writes _ binding_id writes = writes

-- The session index names every binding that is kept, and is written first.
abbrev pub indexed : String → BindingPlan → BindingPlan
indexed binding_id plan = record plan {
  writes = kept_writes plan.result.disposition binding_id plan.writes;
}

-- `base` is the record's fields that the event does not decide: kind, schema, address, launch_id,
-- binding_id, provider and writer_version.
unfoldable pub new_binding :
    StartEvent → Records → Members → String → String → String → String → BindingPlan
new_binding event records base binding_id observation written_at event_id = record {
  result =
      record (new_result
        (if is_some records.current then Disposition.replaced else Disposition.applied)) {
          event_id = some event_id;
        };
  writes =
      binding (
        Value.object (
          with_facts (binding_facts event) (
            insert_member
              (insert_member
                (insert_member
                  (insert_member (insert_member base "event_id" (Value.string event_id))
                    "provider_session_id" (Value.string event.session))
                  "start_source" (Value.string event.source))
                "observed_mono_ns" (Value.string observation))
              "written_at_unix_ns" (Value.string written_at))))
      ∷ pointer_always binding_id
      ∷ [];
}

-- An early return of a reported result.
unfoldable pub unless_refused : Option LifecycleResult → BindingPlan → BindingPlan
unless_refused none plan = plan
unless_refused (some refused) plan = reporting refused

-- The start of a session, over the binding that is recorded for it.
unfoldable pub own_binding :
    StartEvent → Records → Members → String → String → String → String → Option Value → BindingPlan
own_binding event records base binding_id observation written_at event_id none =
    new_binding event records base binding_id observation written_at event_id
own_binding event records base binding_id observation written_at event_id (some existing) =
    meets_existing event records binding_id observation written_at event_id existing

unfoldable pub plan_binding :
    StartEvent → Records → Members → String → String → String → String → BindingPlan
plan_binding event records base binding_id observation written_at event_id =
    unless_refused records.lapsed (
      unless_refused (current_refuses event records binding_id observation records.current) (
        indexed binding_id (
          own_binding event records base binding_id observation written_at event_id
            records.existing)))
