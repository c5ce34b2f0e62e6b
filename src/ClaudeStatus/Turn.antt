-- ===== src/ClaudeStatus/Turn.antt =====
-- src/claude_status.rs: when a file is read as a working or an ended turn.
use wezterm_attention.Prelude.{
  ℕ, ◌≡◌, ◌↔◌, refl, ap, ◌∙◌, Bool, true, false, not, String, Option, none, some, if◌then◌else◌,
  str_eq, eq_iff, eq_refl, List, arith, absurd_bool, nat_eq_iff,
}
use wezterm_attention.Prelude.Json.{Value, Members}
use wezterm_attention.Protocol.{Result, Manifest}
use wezterm_attention.Wezterm.{ℤ, pos, negsuc, int_eq}
use wezterm_attention.ClaudeStatus.{
  Reading, Foreign, text_at, int_at, number_at, status_turn, status_reading, fields_reading,
  version_of, value_reading, understand,
}

-- The turn that a reading reports: whether it is working, and when that was written.
abbrev pub turn_of : Reading → Option (Bool × ℕ)
turn_of (Reading.working updated_at) = some (true, updated_at)
turn_of (Reading.ended updated_at version) = some (false, updated_at)
turn_of _ = none

-- The file names the session, the process, a known status and when it was written.
pub record Names (file : Members) (session_id : String) (pid : ℤ) (turn : Bool × ℕ) : Type 0 where
  pub status : String
  pub names_session : text_at file "sessionId" ≡ some session_id
  pub names_process : int_at file "pid" ≡ some pid
  pub names_status : text_at file "status" ≡ some status
  pub is_known : status_turn status ≡ some turn.0
  pub names_time : number_at file "statusUpdatedAt" ≡ some turn.1

int_eq_sound : (i j : ℤ) → int_eq i j ≡ true → i ≡ j
int_eq_sound (pos m) (pos n) h = ap pos (ground (arith, nat_eq_iff m n))
int_eq_sound (negsuc m) (negsuc n) h = ap negsuc (ground (arith, nat_eq_iff m n))
int_eq_sound (pos m) (negsuc n) h = absurd_bool h
int_eq_sound (negsuc m) (pos n) h = absurd_bool h

int_eq_refl : (i : ℤ) → int_eq i i ≡ true
int_eq_refl (pos n) = ground arith
int_eq_refl (negsuc n) = ground arith

status_reading_inv :
    (updated_at : ℕ) (version : Option String) (known : Option Bool) (turn : Bool × ℕ)
    → turn_of (status_reading updated_at version known) ≡ some turn
    → (known ≡ some turn.0) × (updated_at ≡ turn.1)
status_reading_inv updated_at version none turn h = absurd cc
status_reading_inv updated_at version (some true) (w, at) h = (cc, cc)
status_reading_inv updated_at version (some false) (w, at) h = (cc, cc)

status_reading_known :
    (updated_at : ℕ) (version : Option String) (w : Bool)
    → turn_of (status_reading updated_at version (some w)) ≡ some (w, updated_at)
status_reading_known updated_at version true = refl
status_reading_known updated_at version false = refl

module _ (version : Option String) (session_id : String) (pid : ℤ) (turn : Bool × ℕ) where
  abbrev Fields : Option String → Option ℤ → Option String → Option ℕ → Type 0
  Fields session owner status updated_at =
      (session ≡ some session_id)
      × (owner ≡ some pid)
      × ((text : String) × (status ≡ some text) × (status_turn text ≡ some turn.0))
      × (updated_at ≡ some turn.1)

  checked-Fields :
      (session : String) (owner : ℤ) (status : String) (updated_at : ℕ) (b c : Bool)
      → str_eq session session_id ≡ b
      → int_eq owner pid ≡ c
      → turn_of (
          if not b
          then Reading.foreign Foreign.other_session
          else if not c
          then Reading.foreign Foreign.other_process
          else status_reading updated_at version (status_turn status))
        ≡ some turn
      → Fields (some session) (some owner) (some status) (some updated_at)
  checked-Fields session owner status updated_at false c e f h = absurd cc
  checked-Fields session owner status updated_at true false e f h = absurd cc
  checked-Fields session owner status updated_at true true e f h =
      let (known, time) = status_reading_inv updated_at version (status_turn status) turn h in
      (
        ap some
            (let same : session ≡ session_id = ground (arith, eq_iff session session_id) in same),
        ap some (int_eq_sound owner pid f),
        (status, refl, known),
        ap some time,
      )

  fields_reading_inv :
      (session : Option String) (owner : Option ℤ) (status : Option String) (updated_at : Option ℕ)
      → turn_of (fields_reading version session_id pid session owner status updated_at) ≡ some turn
      → Fields session owner status updated_at
  fields_reading_inv none owner status updated_at h = absurd cc
  fields_reading_inv (some s) none status updated_at h = absurd cc
  fields_reading_inv (some s) (some o) none updated_at h = absurd cc
  fields_reading_inv (some s) (some o) (some t) none h = absurd cc
  fields_reading_inv (some s) (some o) (some t) (some at) h =
      checked-Fields s o t at (str_eq s session_id) (int_eq o pid) refl refl h

module _ (manifest : Result Manifest) (from_slice : List ℕ → Option Value) (bytes : List ℕ)
    (session_id : String) (pid : ℤ) (turn : Bool × ℕ) where
  -- What the bytes must be for a turn to be read of them.
  abbrev pub NamesTurn : Type 0
  NamesTurn =
      (file : Members) × (from_slice bytes ≡ some (Value.object file))
      × Names file session_id pid turn

  value_reading_inv :
      (v : Option Value)
      → turn_of (value_reading manifest from_slice v session_id pid) ≡ some turn
      → (file : Members) × (v ≡ some (Value.object file)) × Names file session_id pid turn
  value_reading_inv none h = absurd cc
  value_reading_inv (some (Value.object file)) h =
      let (session, owner, (text, status, known), time) =
        fields_reading_inv (version_of manifest from_slice file) session_id pid turn
          (text_at file "sessionId") (int_at file "pid") (text_at file "status")
          (number_at file "statusUpdatedAt") h in
      (
        file,
        refl,
        record {
          status = text;
          names_session = session;
          names_process = owner;
          names_status = status;
          is_known = known;
          names_time = time;
        },
      )
  value_reading_inv (some Value.null) h = absurd cc
  value_reading_inv (some (Value.array vs)) h = absurd cc
  value_reading_inv (some (Value.string s)) h = absurd cc
  value_reading_inv (some (Value.number n)) h = absurd cc
  value_reading_inv (some (Value.boolean b)) h = absurd cc

  -- A turn is read, working or ended, exactly when the bytes are a JSON object that names this
  -- session, this process, a known status of that kind and its time.
  pub understand-turn_of :
      (turn_of (understand manifest from_slice bytes session_id pid) ≡ some turn) ↔ NamesTurn
  unfolding understand
  understand-turn_of = (
    value_reading_inv (from_slice bytes),
    λ (file, e, n).
        ap (λ v. turn_of (value_reading manifest from_slice v session_id pid)) e
        ∙ rw
            (
              n.names_session,
              n.names_process,
              n.names_status,
              n.names_time,
              eq_refl session_id,
              int_eq_refl pid,
              n.is_known,
            )
            (status_reading_known turn.1 (version_of manifest from_slice file) turn.0),
  )
