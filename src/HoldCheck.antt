-- ===== src/HoldCheck.antt =====
-- src/hold_check.rs: what a hold or quiet check leaves with a turn's end, and when it is valid.
use Prim.Native.Char.{code}
use wezterm_attention.Prelude.{
  ℕ, Bool, true, false, not, ◌&&◌, ◌||◌, String, Option, none, some, leb, nat_eq, is_some, is_none,
  is_none_or,
}
use wezterm_attention.Protocol.{Result, ok, err, Manifest, Limits}
use wezterm_attention.Protocol.Text.{byte_len, all_chars, is_ascii_digit, free_of_control}
use wezterm_attention.Identity.Socket.{is_absolute}
use wezterm_attention.Wezterm.{ℤ, pos, int_eq}

pub record HoldNote : Type 0 where
  pub hold : Bool
  pub answer : String

pub record QuietNote : Type 0 where
  pub quiet : Bool
  pub answer : String

pub data TurnEndNote : Type 0 where
  hold : HoldNote → TurnEndNote
  quiet : QuietNote → TurnEndNote

pub data Stage : Type 0 where
  not_dispatched not_started completed failed stdin_failed stdout_failed timed_out : Stage
  invalid_output output_too_large evidence_changed : Stage

pub data Bypass : Type 0 where
  not_applicable no_current_scope reply_unavailable input_too_large total_deadline : Bypass
  child_waiting history_unavailable : Bypass

pub record HoldCheckOutcome : Type 0 where
  pub name : String
  pub executable : String
  pub stage : Stage
  pub elapsed_ms : ℕ
  pub check_id : Option String
  pub exit_code : Option ℤ
  pub reason : Option Bypass
  pub note : Option TurnEndNote

abbrev pub note_holds : TurnEndNote → Bool
note_holds (TurnEndNote.hold note) = true
note_holds (TurnEndNote.quiet note) = false

abbrev is_ascii_lowercase : ℕ → Bool
is_ascii_lowercase c = leb b'a' c && leb c b'z'

-- A byte above 127 passes none of these tests, and a code point above 127 passes none.
abbrev token_rest : ℕ → Bool → Bool
token_rest c name =
    is_ascii_lowercase c || is_ascii_digit c || nat_eq c b'_' || (name && nat_eq c b'-')

unfoldable pub token : String → Bool → Bool
token String.[] name = false
token (String.◌∷◌ c s) name = is_ascii_lowercase (code c) && all_chars (λ d. token_rest d name) s

unfoldable pub valid_name : String → Bool
valid_name text = token text true

abbrev is_not_dispatched : Stage → Bool
is_not_dispatched Stage.not_dispatched = true
is_not_dispatched _ = false

abbrev is_completed : Stage → Bool
is_completed Stage.completed = true
is_completed _ = false

abbrev never_ran : Stage → Bool
never_ran Stage.not_dispatched = true
never_ran Stage.not_started = true
never_ran _ = false

abbrev bool_eq : Bool → Bool → Bool
bool_eq true b = b
bool_eq false b = not b

-- `exit_code == Some(0)`.
abbrev exited_zero : Option ℤ → Bool
exited_zero none = false
exited_zero (some n) = int_eq n (pos 0)

-- The manifest is a parameter, and `canonical_uuid` answers for the uuid crate whether a text
-- parses as a UUID and is that UUID's own spelling.
module _ (manifest : Result Manifest) (canonical_uuid : String → Bool) where
  abbrev pub within_limit : (Limits → ℕ) → ℕ → Bool
  within_limit limit n = elim manifest [ ok m ↦ leb n (limit m.limits) | err e ↦ false ]

  -- `HoldNote::valid`.
  unfoldable pub note_valid : HoldNote → Bool
  note_valid note =
      note.hold
      && token note.answer false
      && within_limit (λ limits. limits.safe_label_max_bytes) (byte_len note.answer)

  -- `TurnEndNote::valid`.
  unfoldable pub turn_end_note_valid : TurnEndNote → Bool
  turn_end_note_valid (TurnEndNote.hold note) = note_valid note
  turn_end_note_valid (TurnEndNote.quiet note) =
      note.quiet && note_valid record { hold = true; answer = note.answer }

  -- `HoldCheckOutcome::valid`, which is false where the manifest does not parse.
  unfoldable pub outcome_valid : HoldCheckOutcome → Bool
  outcome_valid o =
      token o.name true
      && within_limit (λ limits. limits.safe_label_max_bytes) (byte_len o.name)
      && is_absolute o.executable
      && within_limit (λ limits. limits.path_max_bytes) (byte_len o.executable)
      && free_of_control o.executable
      && bool_eq (is_not_dispatched o.stage) (is_some o.reason)
      && bool_eq (is_not_dispatched o.stage) (is_none o.check_id)
      && is_none_or o.check_id canonical_uuid
      && is_none_or o.note
          (λ note. is_completed o.stage && exited_zero o.exit_code && turn_end_note_valid note)
      && (not (is_completed o.stage) || exited_zero o.exit_code)
      && (not (never_ran o.stage) || is_none o.exit_code)
      && (not (is_not_dispatched o.stage) || nat_eq o.elapsed_ms 0)
