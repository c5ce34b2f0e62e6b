-- ===== src/ClaudeStatus.antt =====
-- src/claude_status.rs: Claude Code's status file, which says whether a turn is working.
pub mod Turn
pub mod Start
mod Tests
use wezterm_attention.Prelude.{
  ℕ, ◌+◌, ◌*◌, ◌/◌, ◌-◌, ◌^◌, Bool, true, false, not, ◌&&◌, ◌||◌, String, Option, none, some,
  if◌then◌else◌, str_eq, leb, ltb, nat_eq, List, length, ◌⊎◌, inl, inr,
}
use wezterm_attention.Prelude.Json.{Value, Members, find_member, as_str, as_u64, as_i64, and_then}
use wezterm_attention.Protocol.{Result, Manifest}
use wezterm_attention.Wezterm.{ℤ, pos, negsuc, int_eq, ProcessStart}
use wezterm_attention.Providers.{safe_text, okay}

pub data Unreadable : Type 0 where
  read_failed too_large not_json_object invalid_field unknown_status : Unreadable

pub data Foreign : Type 0 where
  link not_regular_file not_owned other_session other_process : Foreign

pub data Reading : Type 0 where
  working : (updated_at : ℕ) → Reading
  ended : (updated_at : ℕ) (version : Option String) → Reading
  unreadable : (reason : Unreadable) (version : Option String) → Reading
  foreign : Foreign → Reading
  gone : Reading

-- `Unreadable::as_str` and `Foreign::as_str`.
unfoldable pub unreadable_str : Unreadable → String
unreadable_str Unreadable.read_failed = "read_failed"
unreadable_str Unreadable.too_large = "too_large"
unreadable_str Unreadable.not_json_object = "not_json_object"
unreadable_str Unreadable.invalid_field = "invalid_field"
unreadable_str Unreadable.unknown_status = "unknown_status"

unfoldable pub foreign_str : Foreign → String
foreign_str Foreign.link = "link"
foreign_str Foreign.not_regular_file = "not_regular_file"
foreign_str Foreign.not_owned = "not_owned"
foreign_str Foreign.other_session = "other_session"
foreign_str Foreign.other_process = "other_process"

pub record Session : Type 0 where
  pub session_id : String
  pub started_at : ℕ

abbrev pub u64_max : ℕ
u64_max = 2 ^ 64 - 1

abbrev saturated : ℕ → ℕ
saturated n = if leb n u64_max then n else u64_max

-- `Session::written_by`, with `saturating_mul` and `saturating_add`.
unfoldable pub written_by : Session → ProcessStart → Bool
written_by session start =
    leb (saturated (saturated (start.seconds * 1000) + start.microseconds / 1000))
      session.started_at

-- The sign and the number of an `i64`.
abbrev pub signed : Bool × ℕ → ℤ
signed (true, n) = pos n
signed (false, n) = negsuc n

abbrev pub text_at : Members → String → Option String
text_at file field = and_then (find_member file field) as_str

abbrev pub int_at : Members → String → Option ℤ
int_at file field = and_then (and_then (find_member file field) as_i64) (λ i. some (signed i))

abbrev pub number_at : Members → String → Option ℕ
number_at file field = and_then (find_member file field) as_u64

-- A status that is a working turn, and one that is none.
abbrev pub status_turn : String → Option Bool
status_turn status =
    if str_eq status "busy" || str_eq status "waiting"
    then some true
    else if str_eq status "idle" || str_eq status "shell"
    then some false
    else none

abbrev pub status_reading : ℕ → Option String → Option Bool → Reading
status_reading updated_at version (some true) = Reading.working updated_at
status_reading updated_at version (some false) = Reading.ended updated_at version
status_reading updated_at version none = Reading.unreadable Unreadable.unknown_status version

abbrev pub fields_reading :
    Option String → String → ℤ → Option String → Option ℤ → Option String → Option ℕ → Reading
fields_reading version session_id pid (some session) (some owner) (some status) (some updated_at) =
    if not (str_eq session session_id)
    then Reading.foreign Foreign.other_session
    else if not (int_eq owner pid)
    then Reading.foreign Foreign.other_process
    else status_reading updated_at version (status_turn status)
fields_reading version session_id pid _ _ _ _ = Reading.unreadable Unreadable.invalid_field version

-- What the system answers of the file, in the order it is asked: the open, whether the file is a
-- regular one, its owner, and the bytes that `read_bounded` reads.
pub data OpenAnswer : Type 0 where
  opened no_entry too_many_links failed : OpenAnswer

pub record FileAnswers : Type 0 where
  pub open_answer : OpenAnswer
  pub metadata : Option (Bool × ℕ)
  pub effective_uid : ℕ
  pub bytes : Option (List ℕ)

abbrev pub max_bytes : ℕ
max_bytes = 65536

-- The reading that says why the bytes are not read, or the bytes.
abbrev failed_read : Reading ⊎ List ℕ
failed_read = inl (Reading.unreadable Unreadable.read_failed none)

abbrev pub opened_bytes : FileAnswers → Reading ⊎ List ℕ
opened_bytes answers = elim (answers.metadata) [
  | none ↦ failed_read
  | some (is_file, uid) ↦
      if not is_file
      then inl (Reading.foreign Foreign.not_regular_file)
      else if not (nat_eq uid answers.effective_uid)
      then inl (Reading.foreign Foreign.not_owned)
      else elim (answers.bytes) [
        | none ↦ failed_read
        | some read_bytes ↦
            if ltb max_bytes (length read_bytes)
            then inl (Reading.unreadable Unreadable.too_large none)
            else inr read_bytes
      ]
]

unfoldable pub file_bytes : FileAnswers → Reading ⊎ List ℕ
file_bytes answers = elim (answers.open_answer) [
  | OpenAnswer.no_entry ↦ inl Reading.gone
  | OpenAnswer.too_many_links ↦ inl (Reading.foreign Foreign.link)
  | OpenAnswer.failed ↦ failed_read
  | OpenAnswer.opened ↦ opened_bytes answers
]

-- `from_slice` answers for serde_json what value the bytes hold, if any.
module _ (manifest : Result Manifest) (from_slice : List ℕ → Option Value) where
  abbrev pub version_of : Members → Option String
  version_of file =
      and_then (text_at file "version") (λ version. okay (safe_text manifest version "version"))

  abbrev pub value_reading : Option Value → String → ℤ → Reading
  value_reading (some (Value.object file)) session_id pid =
      fields_reading (version_of file) session_id pid (text_at file "sessionId") (int_at file "pid")
        (text_at file "status") (number_at file "statusUpdatedAt")
  value_reading _ session_id pid = Reading.unreadable Unreadable.not_json_object none

  unfoldable pub understand : List ℕ → String → ℤ → Reading
  understand bytes session_id pid = value_reading (from_slice bytes) session_id pid

  unfoldable pub read_status : FileAnswers → String → ℤ → Reading
  read_status answers session_id pid = elim (file_bytes answers) [
    | inl reading ↦ reading
    | inr bytes ↦ understand bytes session_id pid
  ]

  abbrev is_interactive : Option String → Bool
  is_interactive none = false
  is_interactive (some kind) = str_eq kind "interactive"

  abbrev is_pid : Option ℤ → ℤ → Bool
  is_pid none pid = false
  is_pid (some owner) pid = int_eq owner pid

  abbrev session_of : Members → Option Session
  session_of file =
      and_then
        (and_then (text_at file "sessionId") (λ id. okay (safe_text manifest id "sessionId")))
        (λ session_id.
          and_then (number_at file "startedAt")
            (λ started_at. some record { session_id = session_id; started_at = started_at }))

  abbrev file_session : Option Value → ℤ → Option Session
  file_session (some (Value.object file)) pid =
      if not (is_pid (int_at file "pid") pid) || not (is_interactive (text_at file "kind"))
      then none
      else session_of file
  file_session _ pid = none

  -- `session`.
  unfoldable pub session : FileAnswers → ℤ → Option Session
  session answers pid = elim (file_bytes answers) [
    | inl reading ↦ none
    | inr bytes ↦ file_session (from_slice bytes) pid
  ]
