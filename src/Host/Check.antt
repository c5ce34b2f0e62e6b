-- ===== src/Host/Check.antt =====
-- src/host.rs: the `host` facet of `inspect`.
pub mod Steps
pub mod Available
use wezterm_attention.Prelude.{
  ℕ, Bool, true, false, ◌&&◌, ◌||◌, not, String, Option, none, some, if◌then◌else◌, nat_eq, str_eq,
}
use wezterm_attention.Prelude.Json.{Value, get_str}
use wezterm_attention.Protocol.{Result, ok, err}
use wezterm_attention.Protocol.Decimal.{to_decimal}
use wezterm_attention.Wezterm.{
  ℤ, int_eq, ControllingTerminal, start_eq, ProcessFacts, ProcessRead, ProcessInspector, TtyWriter,
}
use wezterm_attention.Owner.{ClaimOwner, OwnerRead, claim_owner, recorded_terminal}
use wezterm_attention.Host.{is_contested}

pub record HostCheckPorts : Type 0 where
  pub processes : ProcessInspector
  pub tty : TtyWriter

pub data HostAvailability : Type 0 where
  available absent unavailable invalid unsupported : HostAvailability

pub data HostRefusal : Type 0 where
  none_recorded scope_not_matched binding_ended host_exited host_replaced : HostRefusal
  boot_changed terminal_changed host_contested probe_unavailable record_invalid : HostRefusal
  platform_unsupported : HostRefusal

unfoldable pub availability : HostRefusal → HostAvailability
availability HostRefusal.none_recorded = HostAvailability.absent
availability HostRefusal.record_invalid = HostAvailability.invalid
availability HostRefusal.platform_unsupported = HostAvailability.unsupported
availability HostRefusal.scope_not_matched = HostAvailability.unavailable
availability HostRefusal.binding_ended = HostAvailability.unavailable
availability HostRefusal.host_exited = HostAvailability.unavailable
availability HostRefusal.host_replaced = HostAvailability.unavailable
availability HostRefusal.boot_changed = HostAvailability.unavailable
availability HostRefusal.terminal_changed = HostAvailability.unavailable
availability HostRefusal.host_contested = HostAvailability.unavailable
availability HostRefusal.probe_unavailable = HostAvailability.unavailable

pub record HostStart : Type 0 where
  pub seconds : String
  pub microseconds : ℕ

pub record HostTerminal : Type 0 where
  pub path : String
  pub device : String
  pub fingerprint : String

pub record HostAdmission : Type 0 where
  pub source_event : String
  pub written_at_unix_ns : String

pub record CheckedHost : Type 0 where
  pub pid : ℤ
  pub start : HostStart
  pub boot_session_id : String
  pub terminal : HostTerminal
  pub admitted : HostAdmission
  pub foreground : Bool

pub record HostFacet : Type 0 where
  pub availability : HostAvailability
  pub reason : Option HostRefusal
  pub checked_at_unix_ns : Option String
  pub checked_host : Option CheckedHost

-- A step of the check: a value, or why the host is refused.
pub data Verdict {ℓ} (A : Type ℓ) : Type ℓ where
  vouched : A → Verdict A
  refused : HostRefusal → Verdict A

infixl 5 ◌then◌
unfoldable pub ◌then◌ {ℓ κ} : {A : Type ℓ} {B : Type κ} → Verdict A → (A → Verdict B) → Verdict B
vouched a then f = f a
refused reason then f = refused reason

abbrev pub unless : Bool → HostRefusal → Verdict {0} Unit
unless true reason = vouched tt
unless false reason = refused reason

-- `HostFacet::refused`.
abbrev pub refused_facet : HostRefusal → Option String → HostFacet
refused_facet reason checked_at = record {
  availability = availability reason;
  reason = some reason;
  checked_at_unix_ns = checked_at;
  checked_host = none;
}

abbrev pub owner_named : OwnerRead → Verdict ClaimOwner
owner_named (OwnerRead.named owner) = vouched owner
owner_named OwnerRead.unnamed = refused HostRefusal.record_invalid
owner_named OwnerRead.in_part = refused HostRefusal.record_invalid

-- `map_err(|_| RecordInvalid)`.
abbrev pub or_invalid {ℓ} : {A : Type ℓ} → Result A → Verdict A
or_invalid (ok a) = vouched a
or_invalid (err e) = refused HostRefusal.record_invalid

abbrev pub some_or {ℓ} : {A : Type ℓ} → HostRefusal → Option A → Verdict A
some_or reason (some a) = vouched a
some_or reason none = refused reason

abbrev pub reader_found : ProcessRead → Verdict ProcessFacts
reader_found (ProcessRead.found facts) = vouched facts
reader_found ProcessRead.gone = refused HostRefusal.probe_unavailable
reader_found ProcessRead.unknown = refused HostRefusal.probe_unavailable

abbrev pub host_found : ProcessRead → Verdict ProcessFacts
host_found (ProcessRead.found facts) =
    if facts.zombie then refused HostRefusal.host_exited else vouched facts
host_found ProcessRead.gone = refused HostRefusal.host_exited
host_found ProcessRead.unknown = refused HostRefusal.probe_unavailable

abbrev pub terminal_found : ControllingTerminal → Verdict ℕ
terminal_found (ControllingTerminal.device number) = vouched number
terminal_found ControllingTerminal.unknown = refused HostRefusal.probe_unavailable
terminal_found ControllingTerminal.absent = refused HostRefusal.terminal_changed

-- `device_at_path == Some(device)`, and `ok().as_ref() == Some(&fingerprint)`.
abbrev pub is_device : Option ℕ → ℕ → Bool
is_device none number = false
is_device (some n) number = nat_eq n number

abbrev pub is_fingerprint : Result String → String → Bool
is_fingerprint (err e) fingerprint = false
is_fingerprint (ok text) fingerprint = str_eq text fingerprint

unfoldable pub confirm_recorded : Value → HostCheckPorts → Verdict CheckedHost
confirm_recorded stored ports = owner_named (claim_owner stored) then (λ owner.
    or_invalid (recorded_terminal stored) then (λ (path, fingerprint).
      some_or HostRefusal.record_invalid (get_str stored "source_event") then (λ source_event.
        some_or HostRefusal.record_invalid (get_str stored "written_at_unix_ns") then (λ written_at.
          some_or HostRefusal.probe_unavailable (ports.processes.boot_session) then (λ boot.
            unless (str_eq boot owner.boot_session_id) HostRefusal.boot_changed then (λ _.
              reader_found (ports.processes.process ports.processes.own_pid) then (λ reader.
                host_found (ports.processes.process owner.pid) then (λ host.
                  unless (start_eq host.start owner.start && nat_eq host.uid reader.uid)
                    HostRefusal.host_replaced
                  then (λ _. terminal_found host.terminal then (λ device.
                      unless
                        (is_device (ports.processes.terminal_device path) device
                          && is_fingerprint (ports.tty.fingerprint path) fingerprint)
                        HostRefusal.terminal_changed
                      then (λ _.
                          unless (not (is_contested stored)) HostRefusal.host_contested then (λ _.
                            vouched record {
                              pid = owner.pid;
                              start = record {
                                seconds = to_decimal owner.start.seconds;
                                microseconds = owner.start.microseconds;
                              };
                              boot_session_id = owner.boot_session_id;
                              terminal = record {
                                path = path;
                                device = to_decimal device;
                                fingerprint = fingerprint;
                              };
                              admitted = record {
                                source_event = source_event;
                                written_at_unix_ns = written_at;
                              };
                              foreground = int_eq host.process_group host.terminal_foreground_group;
                            }))))))))))))

abbrev pub facet_of : Option String → Verdict CheckedHost → HostFacet
facet_of checked_at (vouched checked) = record {
  availability = HostAvailability.available;
  reason = none;
  checked_at_unix_ns = checked_at;
  checked_host = some checked;
}
facet_of checked_at (refused reason) = refused_facet reason checked_at

unfoldable pub check_host : Verdict Value → Bool → Option HostCheckPorts → Option String → HostFacet
check_host stored pane_gone ports checked_at = facet_of checked_at (
    some_or HostRefusal.probe_unavailable ports then (λ p.
      unless p.processes.self_claim_supported HostRefusal.platform_unsupported then (λ _.
        stored then (λ value.
          unless (not pane_gone) HostRefusal.terminal_changed
          then (λ _. confirm_recorded value p)))))
