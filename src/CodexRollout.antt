-- ===== src/CodexRollout.antt =====
-- src/codex_rollout.rs: a Codex session's rollout, read for how a lead turn came to an end. `from_slice`
-- is what serde_json makes of a line, none where it is no JSON or no UTF-8, and the file is the answers
-- of the system in one read. The lines' names are looked for in their bytes.
pub mod Open
pub mod Lines
pub mod Walk
pub mod Again
pub mod Opened
mod Tests
use wezterm_attention.Prelude.{
  ℕ, zero, suc, ◌+◌, ◌-◌, Bool, true, false, not, ◌&&◌, ◌||◌, String, List, [], ◌∷◌, Option, none,
  some, ltb, nat_eq, if◌then◌else◌, str_eq, length, is_some_and, append,
}
use wezterm_attention.Prelude.Json.{
  Value, Members, member, no_member, get, get_str, as_str, as_object, and_then, find_member,
}
use wezterm_attention.Protocol.{Result, Manifest}
use wezterm_attention.Identity.Bytes.{as_bytes}
use wezterm_attention.Providers.{safe_text, okay}

abbrev pub max_line_bytes : ℕ
max_line_bytes = 4194304

pub data TurnSignal : Type 0 where
  failed : Option String → TurnSignal
  other_turn_started : String → TurnSignal

pub data Refusal : Type 0 where
  not_opened not_regular_file not_owned other_name other_session shrunk replaced unreadable :
      Refusal

pub data Outcome {ℓ} (A : Type ℓ) : Type ℓ where
  done : A → Outcome A
  refused : Refusal → Outcome A

-- `offset` is where the next unread line starts, `skipping` whether the read stopped inside an overlong
-- line, and `ended` the followed turn whose end was read last.
pub record Rollout : Type 0 where
  pub path : String
  pub device : ℕ
  pub inode : ℕ
  pub offset : ℕ
  pub skipping : Bool
  pub ended : Option String

-- `read_until` a newline within a number of bytes: the bytes read, and those that are left.
unfoldable pub read_line : ℕ → List ℕ → List ℕ × List ℕ
read_line zero bytes = ([], bytes)
read_line (suc limit) [] = ([], [])
read_line (suc limit) (b ∷ bytes) =
    let (line, rest) = read_line limit bytes in
    if nat_eq b b'\n' then (b ∷ [], bytes) else (b ∷ line, rest)

-- `Read::take`.
unfoldable pub take : ℕ → List ℕ → List ℕ
take zero bytes = []
take (suc n) [] = []
take (suc n) (b ∷ bytes) = b ∷ take n bytes

-- `line.last() == Some(&b'\n')`.
unfoldable pub is_complete : List ℕ → Bool
is_complete [] = false
is_complete (b ∷ []) = nat_eq b b'\n'
is_complete (b ∷ c ∷ bytes) = is_complete (c ∷ bytes)

abbrev pub starts_with : List ℕ → List ℕ → Bool
starts_with [] bytes = true
starts_with (p ∷ ps) [] = false
starts_with (p ∷ ps) (b ∷ bytes) = nat_eq p b && starts_with ps bytes

-- `str::contains`.
abbrev holds_text : List ℕ → List ℕ → Bool
holds_text text [] = starts_with text []
holds_text text (b ∷ bytes) = starts_with text (b ∷ bytes) || holds_text text bytes

unfoldable pub may_say : List ℕ → Bool
may_say line =
    holds_text (as_bytes "\"task_complete\"") line
    || holds_text (as_bytes "\"task_started\"") line
    || holds_text (as_bytes "\"turn_aborted\"") line

abbrev pub is_text : Option String → String → Bool
is_text o text = is_some_and o (λ s. str_eq s text)

-- One round of the loop of `next_signal`, with the line that was read, what it says, the state after
-- it, and what the next rounds do after a line that is skipped and after one that is passed.
unfoldable pub read_round :
    Bool
    → List ℕ
    → Option TurnSignal
    → Rollout
    → Rollout
    → Option (Outcome (Option TurnSignal) × Rollout)
    → Option (Outcome (Option TurnSignal) × Rollout)
    → Option (Outcome (Option TurnSignal) × Rollout)
read_round fails line signal r after skipped passed =
    if fails
    then some (refused Refusal.unreadable, r)
    else if nat_eq (length line) 0
    then some (done none, r)
    else if r.skipping || (not (is_complete line) && ltb max_line_bytes (length line))
    then skipped
    else if not (is_complete line)
    then some (done none, r)
    else elim signal [ some s ↦ some (done (some s), after) | none ↦ passed ]

-- What one call of `next_signal` is answered: the device and inode that the path names, the length of
-- the open file, whether it seeks, and the bytes from the offset on.
pub record RolloutRead : Type 0 where
  pub named : Option (ℕ × ℕ)
  pub file_length : Option ℕ
  pub seeks : Bool
  pub read_fails : ℕ → Bool
  pub unread : List ℕ

abbrev pub still_named : Option (ℕ × ℕ) → Rollout → Bool
still_named none r = false
still_named (some (device, inode)) r = nat_eq device r.device && nat_eq inode r.inode

module _ (manifest : Result Manifest) (from_slice : List ℕ → Option Value) where
  -- The one key of an object.
  abbrev only_key : Members → Option String
  only_key (member key value no_member) = some key
  only_key (member key value (member j v ms)) = none
  only_key no_member = none

  abbrev code_text : Value → Option String
  code_text (Value.string code) = some code
  code_text (Value.object ms) = only_key ms
  code_text _ = none

  unfoldable pub error_code : Value → Option String
  error_code info =
      and_then (code_text info) (λ code. okay (safe_text manifest code "codex_error_info"))

  -- The end of the followed turn.
  unfoldable pub turn_end : Value → String → Option TurnSignal
  turn_end payload kind = and_then (and_then (get payload "error") as_object) (λ error.
      if str_eq kind "task_complete"
      then some (TurnSignal.failed (and_then (find_member error "codex_error_info") error_code))
      else none)

  abbrev parent_of : Value → Option String
  parent_of payload =
      and_then (get payload "turn_attribution") (λ turn. get_str turn "parent_turn_id")

  -- The start of another turn.
  unfoldable pub other_start : Value → String → String → Option String → Option TurnSignal
  other_start payload record_turn turn_id ended =
      if is_text (parent_of payload) turn_id && not (is_text ended turn_id)
      then none
      else and_then (okay (safe_text manifest record_turn "turn_id"))
          (λ started. some (TurnSignal.other_turn_started started))

  unfoldable pub classify_payload :
      Value → String → String → String → Option String → Option TurnSignal × Option String
  classify_payload payload kind record_turn turn_id ended =
      if (str_eq kind "task_complete" || str_eq kind "turn_aborted") && str_eq record_turn turn_id
      then (turn_end payload kind, some record_turn)
      else if str_eq kind "task_started" && not (str_eq record_turn turn_id)
      then (other_start payload record_turn turn_id ended, ended)
      else (none, ended)

  unfoldable pub classify_value : Value → String → Option String → Option TurnSignal × Option String
  classify_value value turn_id ended =
      if not (is_text (get_str value "type") "event_msg")
      then (none, ended)
      else elim (get value "payload") [
        | none ↦ (none, ended)
        | some payload ↦ elim (get_str payload "type") [
          | none ↦ (none, ended)
          | some kind ↦ elim (get_str payload "turn_id") [
            | none ↦ (none, ended)
            | some record_turn ↦ classify_payload payload kind record_turn turn_id ended
          ]
        ]
      ]

  unfoldable pub classify : List ℕ → String → Option String → Option TurnSignal × Option String
  classify line turn_id ended =
      if not (may_say line) then (none, ended) else elim (from_slice line) [
        | none ↦ (none, ended)
        | some value ↦ classify_value value turn_id ended
      ]

  -- The loop over the bytes that are not read, on fuel; `read_fails` says of an offset whether a read
  -- there fails. None is a loop that did not come to an end.
  unfoldable pub next_lines :
      ℕ → (ℕ → Bool) → String → Rollout → List ℕ → Option (Outcome (Option TurnSignal) × Rollout)
  next_lines zero read_fails turn_id r bytes = none
  next_lines (suc fuel) read_fails turn_id r bytes =
      let (line, rest) = read_line (suc max_line_bytes) bytes in
      let (signal, ended) = classify line turn_id r.ended in
      let offset = r.offset + length line in
      let after = record r { offset = offset; ended = ended } in
      let skipped =
        next_lines fuel read_fails turn_id
          record r { offset = offset; skipping = not (is_complete line) } rest in
      let passed = next_lines fuel read_fails turn_id after rest in
      read_round (read_fails r.offset) line signal r after skipped passed

  unfoldable pub next_signal :
      RolloutRead → String → Rollout → Option (Outcome (Option TurnSignal) × Rollout)
  next_signal look turn_id r =
      if not (still_named look.named r)
      then some (refused Refusal.replaced, r)
      else elim look.file_length [
        | none ↦ some (refused Refusal.unreadable, r)
        | some n ↦
            if ltb n r.offset
            then some (refused Refusal.shrunk, r)
            else if nat_eq n r.offset
            then some (done none, r)
            else if not look.seeks
            then some (refused Refusal.unreadable, r)
            else let unread = take (n - r.offset) look.unread in
              next_lines (suc (length unread)) look.read_fails turn_id r unread
      ]
