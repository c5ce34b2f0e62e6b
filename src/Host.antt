-- ===== src/Host.antt =====
-- src/host.rs: the agent process that a binding's lead hooks proved, how the record of it is
-- written, and how it is checked again.
pub mod Record
pub mod Again
pub mod Check
mod Tests
use wezterm_attention.Prelude.{
  ℕ, Bool, true, false, ◌&&◌, ◌||◌, not, String, Option, none, some, is_some, if◌then◌else◌, nat_eq,
  str_eq,
}
use wezterm_attention.Prelude.Json.{Number, Value, Members, member, no_member, get, get_str}
use wezterm_attention.Protocol.{Result, ok, err, ◌>>=◌, Manifest}
use wezterm_attention.Protocol.Decimal.{to_decimal}
use wezterm_attention.Identity.{PaneAddress}
use wezterm_attention.Wezterm.{
  ℤ, int_eq, ControllingTerminal, start_eq, ProcessFacts, ProcessRead, ProcessInspector, TtyWriter,
}
use wezterm_attention.Owner.{
  ClaimOwner, owner_eq, OwnerRead, claim_owner, write_into, HostProof, owns, set_field, OwnerState,
  owner_state, recorded_terminal,
}

-- The binding that a record belongs to: the pane, the launch and the binding's own id.
pub record BindingRef : Type 0 where
  pub address : PaneAddress
  pub launch_id : String
  pub binding_id : String

unfoldable pub is_contested : Value → Bool
is_contested value = is_some (get value "contested_at_unix_ns")

-- The serialized form of a `PaneAddress`.
abbrev pub address_value : PaneAddress → Value
address_value address = Value.object (
    member "realm_id" (Value.string address.realm_id) (
      member "incarnation_id" (Value.string address.incarnation_id)
        (member "pane_id" (Value.string address.pane_id) no_member)))

abbrev pub host_members : HostProof → BindingRef → String → String → ℕ → Members
host_members proof binding source_event written_at schema = member "kind" (Value.string "host") (
    member "schema" (Value.number (Number.pos_int schema)) (
      member "address" (address_value binding.address) (
        member "launch_id" (Value.string binding.launch_id) (
          member "binding_id" (Value.string binding.binding_id) (
            member "tty_path" (Value.string proof.tty_path) (
              member "tty_fingerprint" (Value.string proof.tty_fingerprint) (
                member "source_event" (Value.string source_event)
                  (member "written_at_unix_ns" (Value.string written_at) no_member))))))))

-- `unwrap_or(false)` on a result.
abbrev pub is_ok_true : Result Bool → Bool
is_ok_true (ok b) = b
is_ok_true (err e) = false

abbrev pub owned : HostProof → Value → Bool
owned proof value = is_ok_true (owns proof value)

abbrev pub with_mark : Option Value → Value → Value
with_mark none value = value
with_mark (some at) value = set_field value "contested_at_unix_ns" at

-- Another process, which still runs or could not be read.
abbrev pub marked_record : Value → String → Option Value
marked_record stored written_at =
    if is_contested stored
    then none
    else some (set_field stored "contested_at_unix_ns" (Value.string written_at))

-- The manifest is the file that the program carries; whether it parses is a parameter.
module _ (manifest : Result Manifest) (proof : HostProof) (binding : BindingRef)
    (source_event written_at : String) where
  unfoldable pub host_record : Result Value
  host_record = manifest >>= (λ m. ok (
      write_into proof.owner
        (Value.object (host_members proof binding source_event written_at m.record_schema))))

  abbrev pub proved_record : Result (Option Value)
  proved_record = host_record >>= (λ value. ok (some value))

  -- The same process on another terminal.
  abbrev pub moved_record : Option Value → Result (Option Value)
  moved_record contested = host_record >>= (λ moved. ok (some (with_mark contested moved)))

  abbrev pub after_state : OwnerState → Value → Result (Option Value)
  after_state OwnerState.gone stored = proved_record
  after_state OwnerState.alive stored = ok (marked_record stored written_at)
  after_state OwnerState.unknown stored = ok (marked_record stored written_at)

  abbrev pub after_owner : OwnerRead → Value → ProcessInspector → Result (Option Value)
  after_owner (OwnerRead.named owner) stored processes =
      if owner_eq owner proof.owner
      then moved_record (get stored "contested_at_unix_ns")
      else after_state (owner_state owner processes) stored
  after_owner OwnerRead.unnamed stored processes = proved_record
  after_owner OwnerRead.in_part stored processes = proved_record

  unfoldable pub recorded_host : Option Value → ProcessInspector → Result (Option Value)
  recorded_host none processes = proved_record
  recorded_host (some stored) processes =
      if owned proof stored then ok none else after_owner (claim_owner stored) stored processes

unfoldable pub proves_recorded_host : HostProof → Value → Bool
proves_recorded_host proof stored = not (is_contested stored) && is_ok_true (owns proof stored)
