-- ===== src/ClaudeStatus/Start.antt =====
-- src/claude_status.rs: whether a process can have written the file, with saturating arithmetic.
use wezterm_attention.Prelude.{◌+◌, ◌*◌, ◌/◌, ◌≤◌, ◌<◌, ◌≡◌, ◌↔◌, true, arith}
use wezterm_attention.Wezterm.{ProcessStart}
use wezterm_attention.ClaudeStatus.{Session, written_by, u64_max}

-- Below the greatest number of a `u64`, the saturating sum decides as the exact one does: the
-- process started, in milliseconds, at or before the file's own start.
pub written_by_lem :
    (session : Session) (start : ProcessStart)
    → session.started_at < u64_max
    → (written_by session start ≡ true)
      ↔ (start.seconds * 1000 + start.microseconds / 1000 ≤ session.started_at)
unfolding written_by
written_by_lem session start h = (λ e. ground arith, λ le. ground arith)
