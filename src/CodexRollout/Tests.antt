-- ===== src/CodexRollout/Tests.antt =====
-- src/codex_rollout.rs: a turn that ends on an error, read in two parts.
use wezterm_attention.Prelude.{
  ℕ, ◌≡◌, refl, true, false, String, List, [], ◌∷◌, ◌++◌, Option, none, some, arith, any, nat_eq,
}
use wezterm_attention.Prelude.Json.{Value, member, no_member}
use wezterm_attention.Protocol.{ok}
use wezterm_attention.Protocol.Text.{byte_len, free_of_control}
use wezterm_attention.Providers.{safe_text}
use wezterm_attention.Identity.Bytes.{utf8, as_bytes}
use wezterm_attention.Protocol.Samples.{manifest}
use wezterm_attention.Identity.Socket.{FileType}
use wezterm_attention.Wezterm.{pos}
use wezterm_attention.Wezterm.Gui.{split, file_name}
use wezterm_attention.CodexRollout.{
  TurnSignal, Outcome.done, Rollout, read_line, is_complete, may_say, error_code, turn_end,
  classify_payload, classify_value, classify, next_signal,
}
use wezterm_attention.CodexRollout.Open.{OpenRead, named_for, heads, header_names, open_rollout}
use wezterm_attention.CodexRollout.Opened.{Opened, open_rollout-Opened}
use wezterm_attention.CodexRollout.Walk.{
  Unbroken, IsLine, written, walk, appended, next_signal-walk,
}
use wezterm_attention.CodexRollout.Lines.{Ends, next_signal-Ends}
use wezterm_attention.CodexRollout.Again.{next_signal-next_signal}

-- Of a line that names a turn's end this is what it holds.
abbrev end_value : Value
end_value = Value.object (
    member "type" (Value.string "event_msg") (
      member "payload"
        (Value.object (
          member "type" (Value.string "task_complete") (
            member "turn_id" (Value.string "t1") (
              member "error"
                (Value.object (member "codex_error_info" (Value.string "usage_limit") no_member))
                no_member))))
        no_member))

abbrev reads : List ℕ → Option Value
reads line = some end_value

abbrev rollout : ℕ → Rollout
rollout offset = record {
  path = "/rollout.jsonl";
  device = 1;
  inode = 7;
  offset = offset;
  skipping = false;
  ended = none;
}

abbrev other_line : List ℕ
other_line = as_bytes "\"message\""

abbrev end_line : List ℕ
end_line = as_bytes "\"task_complete\""

unbroken : (bytes : List ℕ) → any (λ b. nat_eq b b'\n') bytes ≡ false → Unbroken bytes
unfolding Unbroken
unbroken [] h = tt
unbroken (b ∷ bytes) h = ground (arith, unbroken bytes)

other_line-IsLine : IsLine other_line
unfolding IsLine as_bytes utf8
other_line-IsLine = (unbroken other_line refl, omega arith)

end_line-IsLine : IsLine end_line
unfolding IsLine as_bytes utf8
end_line-IsLine = (unbroken end_line refl, omega arith)

empty-IsLine : IsLine []
unfolding IsLine Unbroken
empty-IsLine = (tt, omega arith)

abbrev signal : TurnSignal
signal = TurnSignal.failed (some "usage_limit")

next_signal-walk_example :
    next_signal
      (ok manifest)
      reads
      (appended (rollout 5) (written (other_line ∷ end_line ∷ []) []))
      "t1"
      (rollout 5)
    ≡ some (done (some signal), record (rollout 31) { ended = some "t1" })
unfolding walk classify may_say classify_value classify_payload turn_end error_code safe_text
    as_bytes utf8 byte_len free_of_control
next_signal-walk_example =
    next_signal-walk (ok manifest) reads "t1" (other_line ∷ end_line ∷ []) [] (rollout 5)
      (other_line-IsLine, (end_line-IsLine, tt)) empty-IsLine refl

-- The first read finds no signal.
first_read :
    next_signal
      (ok manifest)
      reads
      (appended (rollout 0) (written (other_line ∷ []) []))
      "t1"
      (rollout 0)
    ≡ some (done none, rollout 10)
unfolding walk classify may_say as_bytes utf8
first_read =
    next_signal-walk (ok manifest) reads "t1" (other_line ∷ []) [] (rollout 0)
      (other_line-IsLine, tt) empty-IsLine refl

next_signal-next_signal_example :
    next_signal
      (ok manifest)
      reads
      (appended (rollout 10) (written (end_line ∷ []) []))
      "t1"
      (rollout 10)
    ≡ next_signal
        (ok manifest)
        reads
        (appended (rollout 0) (written (other_line ∷ end_line ∷ []) []))
        "t1"
        (rollout 0)
next_signal-next_signal_example =
    next_signal-next_signal (ok manifest) reads "t1" (other_line ∷ []) (end_line ∷ []) [] []
      (rollout 0) (rollout 10) (other_line-IsLine, tt) (end_line-IsLine, tt) empty-IsLine
      empty-IsLine refl first_read

next_signal-Ends_example : Ends (
    next_signal
      (ok manifest)
      reads
      (appended (rollout 5) (other_line ++ end_line))
      "t1"
      (rollout 5))
next_signal-Ends_example =
    next_signal-Ends (ok manifest) reads (appended (rollout 5) (other_line ++ end_line)) "t1"
      (rollout 5)

-- A session's file, of which the header is the first line.
abbrev session_file : OpenRead
session_file = record {
  opens = true;
  metadata = some (record {
    file_type = FileType.regular;
    uid = 501;
    dev = 1;
    ino = 7;
    rdev = 0;
    ctime = pos 0;
    ctime_nsec = pos 0;
  });
  effective_uid = 501;
  file_length = 10;
  bytes = some (other_line ++ (b'\n' ∷ []));
}

abbrev session_value : Value
session_value = Value.object (
    member "type" (Value.string "session_meta")
      (member "payload" (Value.object (member "id" (Value.string "s1") no_member)) no_member))

abbrev session_name : String
session_name = "/rollout-s1.jsonl"

open_rollout-Opened_example :
    Opened
      (λ line. some session_value)
      session_file
      session_name
      "s1"
      10
      (done (record (rollout 10) { path = session_name }))
unfolding open_rollout read_line named_for heads header_names split file_name is_complete as_bytes
    utf8
open_rollout-Opened_example =
    open_rollout-Opened (λ line. some session_value) session_file session_name "s1" 10
