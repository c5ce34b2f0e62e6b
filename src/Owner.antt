-- ===== src/Owner.antt =====
-- src/launch.rs and src/protocol.rs: the process that a claim or a host record names, whether it
-- still runs, and the proof that a hook makes of its own.
pub mod RoundTrip
use wezterm_attention.Prelude.{
  ℕ, suc, ◌^◌, Bool, true, false, ◌&&◌, not, String, Option, none, some, if◌then◌else◌, ltb, nat_eq,
  str_eq, ◌≡◌,
}
use wezterm_attention.Prelude.Json.{
  Value, Members, member, no_member, get, get_str, as_str, insert_member, and_then,
}
use wezterm_attention.Protocol.{DiagnosticCode, Result, ok, err, new_error, ◌>>=◌}
use wezterm_attention.Protocol.Decimal.{parse_decimal, to_decimal}
use wezterm_attention.Wezterm.{
  ℤ, pos, negsuc, int_eq, ProcessStart, start_eq, ProcessFacts, ProcessRead, ProcessInspector,
}

pub record ClaimOwner : Type 0 where
  pub pid : ℤ
  pub start : ProcessStart
  pub boot_session_id : String

-- The derived `PartialEq`.
abbrev pub owner_eq : ClaimOwner → ClaimOwner → Bool
owner_eq o p =
    int_eq o.pid p.pid && start_eq o.start p.start && str_eq o.boot_session_id p.boot_session_id

-- The values of an `i32` that are not negative, of a `u64` and of a `u32`.
abbrev pub i32_limit : ℕ
i32_limit = 2 ^ 31

abbrev pub u64_limit : ℕ
u64_limit = 2 ^ 64

abbrev pub u32_limit : ℕ
u32_limit = 2 ^ 32

-- What the owner fields name: nothing, a whole owner, or an owner only in part, which is the
-- error `Err(())`.
pub data OwnerRead : Type 0 where
  unnamed : OwnerRead
  named : ClaimOwner → OwnerRead
  in_part : OwnerRead

abbrev filtered {ℓ} : {A : Type ℓ} → (A → Bool) → Option A → Option A
filtered p none = none
filtered p (some a) = if p a then some a else none

-- A pid that starts with `-` is not positive, so it is refused like a text that does not parse.
abbrev parse_pid : String → Option ℕ
parse_pid text = filtered (λ pid. ltb 0 pid) (parse_decimal i32_limit text)

abbrev parse_microseconds : String → Option ℕ
parse_microseconds text =
    filtered (λ microseconds. ltb microseconds 1000000) (parse_decimal u32_limit text)

abbrev owner_of_numbers : Option ℕ → Option ℕ → Option ℕ → String → OwnerRead
owner_of_numbers (some pid) (some seconds) (some microseconds) boot = OwnerRead.named record {
  pid = pos pid;
  start = record { seconds = seconds; microseconds = microseconds };
  boot_session_id = boot;
}
owner_of_numbers _ _ _ boot = OwnerRead.in_part

abbrev owner_of_fields :
    Option (Option String)
    → Option (Option String)
    → Option (Option String)
    → Option (Option String)
    → OwnerRead
owner_of_fields none none none none = OwnerRead.unnamed
owner_of_fields (some (some pid)) (some (some seconds)) (some (some microseconds))
      (some (some boot)) =
    owner_of_numbers (parse_pid pid) (parse_decimal u64_limit seconds)
      (parse_microseconds microseconds) boot
owner_of_fields _ _ _ _ = OwnerRead.in_part

-- `value.get(field).map(Value::as_str)`.
abbrev pub field_text : Value → String → Option (Option String)
field_text value field = and_then (get value field) (λ v. some (as_str v))

-- `claim_owner`, whose fields `ClaimOwner::of` puts together.
unfoldable pub claim_owner : Value → OwnerRead
claim_owner value =
    owner_of_fields (field_text value "owner_pid") (field_text value "owner_started_sec")
      (field_text value "owner_started_usec") (field_text value "owner_boot_session_id")

-- `record[field] = value`: a null becomes an object with that field. Any other value that is not
-- an object panics; the callers pass objects, and here such a value stays.
abbrev pub set_field : Value → String → Value → Value
set_field (Value.object ms) field v = Value.object (insert_member ms field v)
set_field Value.null field v = Value.object (member field v no_member)
set_field (Value.array vs) field v = Value.array vs
set_field (Value.string s) field v = Value.string s
set_field (Value.number n) field v = Value.number n
set_field (Value.boolean b) field v = Value.boolean b

-- `to_string` of a signed integer.
abbrev pub int_text : ℤ → String
int_text (pos n) = to_decimal n
int_text (negsuc n) = String.◌∷◌ "-" (to_decimal (suc n))

-- `ClaimOwner::write_into`.
unfoldable pub write_into : ClaimOwner → Value → Value
write_into owner value =
    set_field
      (set_field
        (set_field (set_field value "owner_pid" (Value.string (int_text owner.pid)))
          "owner_started_sec" (Value.string (to_decimal owner.start.seconds)))
        "owner_started_usec" (Value.string (to_decimal owner.start.microseconds)))
      "owner_boot_session_id" (Value.string owner.boot_session_id)

pub data ClaimMode : Type 0 where
  shell : ClaimMode
  self_owned : ClaimOwner → ClaimMode

abbrev pub mode_of_owner : OwnerRead → Result ClaimMode
mode_of_owner OwnerRead.unnamed = ok ClaimMode.shell
mode_of_owner (OwnerRead.named owner) = ok (ClaimMode.self_owned owner)
mode_of_owner OwnerRead.in_part =
    err (new_error DiagnosticCode.record_invalid "claim owner is invalid")

-- `ClaimMode::of`.
unfoldable pub claim_mode : Value → Result ClaimMode
claim_mode claim = mode_of_owner (claim_owner claim)

unfoldable pub claim_launch_id : Value → Result String
claim_launch_id claim = elim (get_str claim "launch_id") [
  | some launch ↦ ok launch
  | none ↦ err (new_error DiagnosticCode.record_invalid "claim has no launch id")
]

abbrev recorded_text : Value → String → Result String
recorded_text claim field = elim (get_str claim field) [
  | some text ↦ ok text
  | none ↦ err (new_error DiagnosticCode.record_invalid "claim has no terminal")
]

unfoldable pub recorded_terminal : Value → Result (String × String)
recorded_terminal claim =
    recorded_text claim "tty_path"
    >>= (λ path. recorded_text claim "tty_fingerprint" >>= (λ fingerprint. ok (path, fingerprint)))

pub record HostProof : Type 0 where
  pub owner : ClaimOwner
  pub tty_path : String
  pub tty_fingerprint : String
  pub terminal : ℕ
  pub foreground : Bool

-- `value == Some(text)`.
abbrev pub is_text : Option String → String → Bool
is_text none text = false
is_text (some s) text = str_eq s text

abbrev mode_is_owned : ClaimMode → ClaimOwner → Bool
mode_is_owned ClaimMode.shell owner = false
mode_is_owned (ClaimMode.self_owned o) owner = owner_eq o owner

-- `HostProof::owns`.
unfoldable pub owns : HostProof → Value → Result Bool
owns proof value = claim_mode value >>= (λ mode. ok (
    mode_is_owned mode proof.owner
    && is_text (get_str value "tty_path") proof.tty_path
    && is_text (get_str value "tty_fingerprint") proof.tty_fingerprint))

pub data OwnerState : Type 0 where
  alive gone unknown : OwnerState

abbrev state_of_read : ClaimOwner → ProcessRead → OwnerState
state_of_read owner ProcessRead.gone = OwnerState.gone
state_of_read owner ProcessRead.unknown = OwnerState.unknown
state_of_read owner (ProcessRead.found facts) =
    if facts.zombie
    then OwnerState.unknown
    else if not (start_eq facts.start owner.start)
    then OwnerState.gone
    else OwnerState.alive

unfoldable pub owner_state : ClaimOwner → ProcessInspector → OwnerState
owner_state owner processes = elim (processes.boot_session) [
  | none ↦ OwnerState.unknown
  | some boot ↦
      if not (str_eq boot owner.boot_session_id)
      then OwnerState.gone
      else state_of_read owner (processes.process owner.pid)
]

unfoldable pub owner_proven_gone : Value → ProcessInspector → Bool
owner_proven_gone claim processes = elim (claim_mode claim) [
  | err e ↦ false
  | ok mode ↦ elim mode [
    | ClaimMode.shell ↦ false
    | ClaimMode.self_owned owner ↦ elim (owner_state owner processes) [
      | OwnerState.gone ↦ true
      | _ ↦ false
    ]
  ]
]
