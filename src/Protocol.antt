-- ===== src/Protocol.antt =====
-- src/protocol.rs: the diagnostic codes, dispositions and providers, and what an error carries.
-- The text checks and the stamps are in the children.
pub mod Spelling
pub mod Text
pub mod Stamp
pub mod Decimal
pub mod Samples
mod Tests
use wezterm_attention.Prelude.{ℕ, String, List, [], Option, none, ◌≡◌, refl, arith}
use wezterm_attention.Prelude.Json.{Value}

pub data DiagnosticCode : Type 0 where
  identity_unpublished claim_stale unsafe_tty realm_unavailable incarnation_changed : DiagnosticCode
  socket_gone socket_refused record_invalid future_schema binding_conflict : DiagnosticCode
  probe_unavailable clock_skew integration_version_mismatch state_permissions : DiagnosticCode
  bad_usage self_claim_parent_unverified session_detached : DiagnosticCode
  child_active_after_parent_clear outside_pane state_root_missing : DiagnosticCode
  transcript_replaced : DiagnosticCode

pub record Diagnostic : Type 0 where
  pub code : DiagnosticCode
  pub message : String
  pub context : List (String × Value)
  pub help : Option String

pub record AttentionError : Type 0 where
  pub diagnostic : Diagnostic
  pub exit_code : ℕ

-- The limits that the modelled code reads, and the rest of what it reads of the manifest that the
-- program carries, protocol/v2.json. A map is the function that looks a key up.
pub record Limits : Type 0 where
  pub pane_id_max_digits : ℕ
  pub safe_label_max_bytes : ℕ
  pub path_max_bytes : ℕ
  pub max_json_bytes : ℕ
  pub lifecycle_max_json_bytes : ℕ
  pub lifecycle_pool_max_count : ℕ
  pub lifecycle_pool_max_bytes : ℕ
  pub lifecycle_envelope_max_bytes : ℕ
  pub lifecycle_observation_max_bytes : ℕ
  pub lifecycle_native_observation_max_bytes : ℕ

-- `vocabulary!(ToolClass)` and `vocabulary!(QuestionMode)`.
pub data ToolClass : Type 0 where
  generic question permission : ToolClass

pub data QuestionMode : Type 0 where
  blocking nonblocking : QuestionMode

pub record ToolClassification : Type 0 where
  pub tool_class : ToolClass
  pub question_mode : Option QuestionMode

pub record Manifest : Type 0 where
  pub record_schema : ℕ
  pub limits : Limits
  pub tool_classification : String → Option (String → Option ToolClassification)
  pub lifecycle_sources : String → Option (String → Option (List String))
  pub turn_end_sources : String → Option (String → Option (List String))

-- `Result<T>`.
pub data Result {ℓ} (A : Type ℓ) : Type ℓ where
  ok : A → Result A
  err : AttentionError → Result A

-- The `?` operator.
infixl 5 ◌>>=◌
unfoldable pub ◌>>=◌ {ℓ κ} : {A : Type ℓ} {B : Type κ} → Result A → (A → Result B) → Result B
◌>>=◌ r f = elim r [ err e ↦ err e | ok a ↦ f a ]

-- `Diagnostic::new`, `AttentionError::new` and `AttentionError::usage`.
abbrev pub new_diagnostic : DiagnosticCode → String → Diagnostic
new_diagnostic code message = record { code = code; message = message; context = []; help = none }

abbrev pub new_error : DiagnosticCode → String → AttentionError
new_error code message = record { diagnostic = new_diagnostic code message; exit_code = 3 }

abbrev pub usage : String → AttentionError
usage message = record {
  diagnostic = new_diagnostic DiagnosticCode.bad_usage message;
  exit_code = 2;
}

pub data Provider : Type 0 where
  claude codex pi : Provider

pub data Disposition : Type 0 where
  applied confirmed replaced skipped renewed ignored conflict partial : Disposition

-- A `?` that went on.
pub bind_elim {ℓ κ μ} :
    {A : Type ℓ} {B : Type κ} {C : Type μ} (r : Result A) (f : A → Result B) (b : B)
    → (r >>= f) ≡ ok b
    → ((a : A) → r ≡ ok a → f a ≡ ok b → C)
    → C
unfolding ◌>>=◌
bind_elim (ok a) f b h k = k a refl h
bind_elim (err e) f b h k = absurd cc

-- A `?` chain that failed.
pub bind_err_elim {ℓ κ μ} :
    {A : Type ℓ} {B : Type κ} {C : Type μ} (r : Result A) (f : A → Result B) (e : AttentionError)
    → (r >>= f) ≡ err e
    → (r ≡ err e → C)
    → ((a : A) → r ≡ ok a → f a ≡ err e → C)
    → C
unfolding ◌>>=◌
bind_err_elim (ok a) f e h k l = l a refl h
bind_err_elim (err e') f e h k l = k (ground arith)
