-- ===== src/Lifecycle.antt =====
-- src/lifecycle.rs: the result of a hook event, and how an activity, a clear and an acknowledgement
-- meet in the slot of a binding.
pub mod Activity
pub mod Binding
mod Tests
use wezterm_attention.Prelude.{String, Option, none, some}
use wezterm_attention.Protocol.{
  DiagnosticCode, Diagnostic, AttentionError, Disposition, new_diagnostic,
}

pub record LifecycleResult : Type 0 where
  pub disposition : Disposition
  pub diagnostic : Option Diagnostic
  pub event_id : Option String
  pub message : Option String

-- `LifecycleResult::new`, `diagnosed` and `ignored_error`.
abbrev pub new_result : Disposition → LifecycleResult
new_result disposition = record {
  disposition = disposition;
  diagnostic = none;
  event_id = none;
  message = none;
}

abbrev pub diagnosed : Disposition → DiagnosticCode → String → LifecycleResult
diagnosed disposition code message = record (new_result disposition) {
  diagnostic = some (new_diagnostic code message);
}

abbrev pub ignored_error : AttentionError → LifecycleResult
ignored_error e = record (new_result Disposition.ignored) { diagnostic = some e.diagnostic }
