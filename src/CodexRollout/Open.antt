-- ===== src/CodexRollout/Open.antt =====
-- src/codex_rollout.rs: `Rollout::open`. `str::ends_with` is written out over the bytes of the texts.
use wezterm_attention.Prelude.{
  ℕ, suc, Bool, true, false, not, ◌&&◌, ◌||◌, String, List, [], ◌∷◌, Option, none, some, ltb,
  nat_eq, if◌then◌else◌, length, is_some_and, append,
}
use wezterm_attention.Prelude.Json.{Value, get, get_str, and_then}
use wezterm_attention.Identity.Bytes.{as_bytes}
use wezterm_attention.Identity.Socket.{FileMetadata, FileType}
use wezterm_attention.Wezterm.Gui.{file_name}
use wezterm_attention.CodexRollout.{
  max_line_bytes, Refusal, Outcome, Outcome.done, Outcome.refused, Rollout, read_line, is_complete,
  starts_with, is_text,
}

-- What one call is answered: whether the path opens without following a link, the metadata of the open
-- file, its length, and its bytes, none where they are not read.
pub record OpenRead : Type 0 where
  pub opens : Bool
  pub metadata : Option FileMetadata
  pub effective_uid : ℕ
  pub file_length : ℕ
  pub bytes : Option (List ℕ)

abbrev pub is_regular : FileType → Bool
is_regular FileType.regular = true
is_regular _ = false

abbrev ends_with : List ℕ → List ℕ → Bool
ends_with suffix [] = starts_with suffix []
ends_with suffix (b ∷ bytes) =
    starts_with suffix (b ∷ bytes) && nat_eq (length suffix) (length (b ∷ bytes))
    || ends_with suffix bytes

unfoldable pub named_for : String → String → Bool
named_for path session_id =
    is_some_and (file_name path)
      (λ name. ends_with (as_bytes (append "-" (append session_id ".jsonl"))) (as_bytes name))

-- `Vec::pop`: the bytes before the last one.
abbrev without_last : List ℕ → List ℕ
without_last [] = []
without_last (b ∷ []) = []
without_last (b ∷ c ∷ bytes) = b ∷ without_last (c ∷ bytes)

-- Whether a header is the one of the session.
unfoldable pub heads : Value → String → Bool
heads header session_id =
    is_text (get_str header "type") "session_meta"
    && is_text (and_then (get header "payload") (λ payload. get_str payload "id")) session_id

module _ (from_slice : List ℕ → Option Value) where
  unfoldable pub header_names : List ℕ → String → Bool
  header_names line session_id =
      is_complete line && is_some_and (from_slice (without_last line)) (λ v. heads v session_id)

  unfoldable pub open_rollout : OpenRead → String → String → ℕ → Outcome Rollout
  open_rollout look path session_id offset =
      if not look.opens then refused Refusal.not_opened else elim look.metadata [
        | none ↦ refused Refusal.unreadable
        | some metadata ↦
            if not (is_regular metadata.file_type)
            then refused Refusal.not_regular_file
            else if not (nat_eq metadata.uid look.effective_uid)
            then refused Refusal.not_owned
            else if not (named_for path session_id)
            then refused Refusal.other_name
            else elim look.bytes [
              | none ↦ refused Refusal.unreadable
              | some bytes ↦
                  let (line, rest) = read_line (suc max_line_bytes) bytes in
                  if not (header_names line session_id)
                  then refused Refusal.other_session
                  else if ltb look.file_length offset
                  then refused Refusal.shrunk
                  else done (record {
                    path = path;
                    device = metadata.dev;
                    inode = metadata.ino;
                    offset = offset;
                    skipping = false;
                    ended = none;
                  })
            ]
      ]
