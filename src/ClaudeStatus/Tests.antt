-- ===== src/ClaudeStatus/Tests.antt =====
-- src/claude_status.rs: a file of a working turn.
use wezterm_attention.Prelude.{ℕ, ◌≡◌, ◌↔◌, refl, true, Option, some, List, []}
use wezterm_attention.Prelude.Json.{Value, Members, member, no_member, Number}
use wezterm_attention.Protocol.{Result, Manifest, new_error, err, DiagnosticCode}
use wezterm_attention.Wezterm.{pos, ProcessStart}
use wezterm_attention.ClaudeStatus.{Reading, Session, understand}
use wezterm_attention.ClaudeStatus.Turn.{turn_of, NamesTurn, understand-turn_of}

abbrev manifest : Result Manifest
manifest = err (new_error DiagnosticCode.record_invalid "protocol manifest is invalid")

abbrev working_file : Members
working_file = member "pid" (Value.number (Number.pos_int 42)) (
    member "sessionId" (Value.string "session") (
      member "status" (Value.string "busy")
        (member "statusUpdatedAt" (Value.number (Number.pos_int 1700)) no_member)))

abbrev from_slice : List ℕ → Option Value
from_slice bytes = some (Value.object working_file)

reads_working : understand manifest from_slice [] "session" (pos 42) ≡ Reading.working 1700
unfolding understand
reads_working = refl

understand-turn_of_example :
    (turn_of (understand manifest from_slice [] "session" (pos 42)) ≡ some (true, 1700))
    ↔ NamesTurn manifest from_slice [] "session" (pos 42) (true, 1700)
understand-turn_of_example =
    understand-turn_of manifest from_slice [] "session" (pos 42) (true, 1700)

abbrev session_file : Session
session_file = record { session_id = "session"; started_at = 1700000 }

abbrev start : ProcessStart
start = record { seconds = 1699; microseconds = 5000 }
