-- ===== src/CodexRollout/Opened.antt =====
-- src/codex_rollout.rs: what `Rollout::open` makes sure of.
use wezterm_attention.Prelude.{
  ℕ, suc, ◌≡◌, refl, ◌≤◌, Bool, true, false, not, String, List, Option, none, some, ltb, nat_eq,
  if_each, option_each, arith,
}
use wezterm_attention.Prelude.Json.{Value}
use wezterm_attention.Identity.Socket.{FileMetadata, FileType}
use wezterm_attention.CodexRollout.{
  max_line_bytes, Refusal, Outcome, Outcome.done, Outcome.refused, Rollout, read_line,
}
use wezterm_attention.CodexRollout.Open.{
  OpenRead, is_regular, named_for, header_names, open_rollout,
}

regular_of : (t : FileType) → not (is_regular t) ≡ false → t ≡ FileType.regular
regular_of t h = ground arith

true_of : (b : Bool) → not b ≡ false → b ≡ true
true_of b h = ground arith

same_uid : (m n : ℕ) → not (nat_eq m n) ≡ false → m ≡ n
same_uid m n h = ground arith

module _ (from_slice : List ℕ → Option Value) (look : OpenRead) (path session_id : String)
    (offset : ℕ) where
  -- The file is regular, the user's own, named for the session and headed by it.
  IsSessionFile : FileMetadata → List ℕ → Type 0
  IsSessionFile metadata bytes =
      (look.metadata ≡ some metadata)
      × (look.bytes ≡ some bytes)
      × (metadata.file_type ≡ FileType.regular)
      × (metadata.uid ≡ look.effective_uid)
      × (named_for path session_id ≡ true)
      × (header_names from_slice ((read_line (suc max_line_bytes) bytes).0) session_id ≡ true)

  -- The rollout is that file, at an offset within it, before any line was read.
  IsAt : FileMetadata → Rollout → Type 0
  IsAt metadata r =
      (r.path ≡ path)
      × (r.device ≡ metadata.dev)
      × (r.inode ≡ metadata.ino)
      × (r.offset ≡ offset)
      × (offset ≤ look.file_length)
      × (r.skipping ≡ false)
      × (r.ended ≡ none)

  pub Opened : Outcome Rollout → Type 0
  Opened (done r) =
      (metadata : FileMetadata) × (bytes : List ℕ) × IsSessionFile metadata bytes × IsAt metadata r
  Opened (refused e) = Unit

  refused_open : (e : Refusal) → Opened (refused e)
  unfolding Opened
  refused_open e = tt

  done_open :
      (metadata : FileMetadata) (bytes : List ℕ) (r : Rollout)
      → IsSessionFile metadata bytes
      → IsAt metadata r
      → Opened (done r)
  unfolding Opened
  done_open metadata bytes r h k = (metadata, bytes, h, k)

  -- What the tests on the open file leave.
  headed_open :
      (metadata : FileMetadata)
      → look.metadata ≡ some metadata
      → metadata.file_type ≡ FileType.regular
      → metadata.uid ≡ look.effective_uid
      → named_for path session_id ≡ true
      → (bytes : List ℕ) → look.bytes ≡ some bytes
      → not (header_names from_slice ((read_line (suc max_line_bytes) bytes).0) session_id) ≡ false
      → ltb look.file_length offset ≡ false
      → IsSessionFile metadata bytes × (offset ≤ look.file_length)
  unfolding IsSessionFile
  headed_open metadata found regular own named bytes read headed short =
      ((found, read, regular, own, named, true_of _ headed), ground arith)

  -- A rollout that is opened is a regular file of the user that is named for the session and has its
  -- header, at the offset asked for and no further than its length, not inside a skipped line and with
  -- no end of a turn read.
  pub open_rollout-Opened : Opened (open_rollout from_slice look path session_id offset)
  unfolding open_rollout IsAt
  open_rollout-Opened =
      if_each Opened (not look.opens) _ _ (λ _. refused_open _)
        (λ _.
          option_each Opened look.metadata _ _ (λ _. refused_open _)
            (λ metadata found.
              if_each Opened (not (is_regular metadata.file_type)) _ _ (λ _. refused_open _)
                (λ regular.
                  if_each Opened (not (nat_eq metadata.uid look.effective_uid)) _ _
                    (λ _. refused_open _)
                    (λ own.
                      if_each Opened (not (named_for path session_id)) _ _ (λ _. refused_open _)
                        (λ named.
                          option_each Opened look.bytes _ _ (λ _. refused_open _)
                            (λ bytes read.
                              if_each Opened
                                (not (
                                  header_names from_slice ((read_line (suc max_line_bytes) bytes).0)
                                    session_id))
                                _ _ (λ _. refused_open _)
                                (λ headed.
                                  if_each Opened (ltb look.file_length offset) _ _
                                    (λ _. refused_open _)
                                    (λ short.
                                      let (file, within) =
                                        headed_open metadata found (regular_of _ regular)
                                          (same_uid _ _ own) (true_of _ named) bytes read headed
                                          short in
                                      done_open metadata bytes _ file
                                        (refl, refl, refl, refl, within, refl, refl)))))))))
