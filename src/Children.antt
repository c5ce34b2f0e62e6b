-- ===== src/Children.antt =====
-- src/children.rs: the sub-agents of one binding that are running now, as a record, and the
-- transitions that change it. A method that takes `&mut self` returns the new set beside its
-- result. Stamps are texts, compared as the code compares them.
pub mod Readers
pub mod Reduce
pub mod Distinct
pub mod Cases
pub mod Find
pub mod Sound
pub mod Validation
pub mod Evidence
pub mod Arrival
pub mod Retry
pub mod Counting
mod Tests
use wezterm_attention.Prelude.{
  ℕ, String, Bool, true, false, not, ◌&&◌, ◌||◌, List, [], ◌∷◌, ◌++◌, map, Option, none, some,
  str_eq, str_ltb, str_leb, contains, is_some_and, is_none_or, is_none, unwrap_or, any, retain,
  length, nat_eq, if◌then◌else◌,
}
use wezterm_attention.Identity.{PaneAddress}
use wezterm_attention.Protocol.{
  DiagnosticCode, Diagnostic, new_diagnostic, new_error, Provider, Disposition, Result, ok, err,
}

pub data ChildStatus : Type 0 where
  running waiting : ChildStatus

pub data ChildEvent : Type 0 where
  start tool permission : ChildEvent

-- `PartialEq` of the two vocabularies.
abbrev pub status_eq : ChildStatus → ChildStatus → Bool
status_eq ChildStatus.running ChildStatus.running = true
status_eq ChildStatus.running ChildStatus.waiting = false
status_eq ChildStatus.waiting ChildStatus.running = false
status_eq ChildStatus.waiting ChildStatus.waiting = true

abbrev pub event_eq : ChildEvent → ChildEvent → Bool
event_eq ChildEvent.start ChildEvent.start = true
event_eq ChildEvent.start _ = false
event_eq ChildEvent.tool ChildEvent.tool = true
event_eq ChildEvent.tool _ = false
event_eq ChildEvent.permission ChildEvent.permission = true
event_eq ChildEvent.permission _ = false

pub record LiveChild : Type 0 where
  pub agent_id : String
  pub agent_type : Option String
  pub last_event : ChildEvent
  pub status : ChildStatus
  pub last_mono_ns : String

pub record ParentClear : Type 0 where
  pub observed_mono_ns : String
  pub event_id : String
  pub removed : List String

pub record LifetimeEnd : Type 0 where
  pub event_id : String
  pub observed_mono_ns : String

pub record ChildPresenceSet : Type 0 where
  pub kind : String
  pub schema : ℕ
  pub address : PaneAddress
  pub launch_id : String
  pub binding_id : String
  pub provider : Provider
  pub revision : String
  pub written_at_unix_ns : String
  pub live : List LiveChild
  pub parent_clear : Option ParentClear
  pub lifetime_end : Option LifetimeEnd

pub record EndMark : Type 0 where
  pub event_id : String
  pub observed_mono_ns : String
  pub ends_binding : Bool

pub data ChildTransition : Type 0 where
  start tool permission :
      (agent_id : String) (agent_type : Option String) (order : String) → ChildTransition
  stop : (agent_id order : String) → ChildTransition
  parent_clear : (order event_id : String) → ChildTransition
  reconcile : (order : String) (in_flight : List String) → ChildTransition

pub record Reduction : Type 0 where
  pub changed : Bool
  pub disposition : Disposition
  pub diagnostic : Option Diagnostic

-- `Reduction::of` and `Reduction::diagnosed`.
abbrev pub reduction : Bool → Disposition → Reduction
reduction changed disposition = record {
  changed = changed;
  disposition = disposition;
  diagnostic = none;
}

abbrev pub diagnosed : Bool → Disposition → DiagnosticCode → String → Reduction
diagnosed changed disposition code message = record {
  changed = changed;
  disposition = disposition;
  diagnostic = some (new_diagnostic code message);
}

-- `ChildPresenceSet::empty`.
unfoldable pub empty : PaneAddress → String → String → Provider → ChildPresenceSet
empty address launch_id binding_id provider = record {
  kind = "child_presence_set";
  schema = 0;
  address = address;
  launch_id = launch_id;
  binding_id = binding_id;
  provider = provider;
  revision = "";
  written_at_unix_ns = "";
  live = [];
  parent_clear = none;
  lifetime_end = none;
}
