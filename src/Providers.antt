-- ===== src/Providers.antt =====
-- src/providers.rs: the check of a label that comes from outside.
use wezterm_attention.Prelude.{
  ◌||◌, not, String, ltb, if◌then◌else◌, append, Option, none, some, ◌⊎◌, inl, inr,
}
use wezterm_attention.Protocol.{
  DiagnosticCode, Diagnostic, new_diagnostic, Result, ok, err, Manifest,
}
use wezterm_attention.Protocol.Text.{byte_len, is_empty, free_of_control}

unfoldable pub safe_text : Result Manifest → String → String → Diagnostic ⊎ String
safe_text (err e) text field = inl (e.diagnostic)
safe_text (ok m) text field =
    if is_empty text
      || ltb m.limits.safe_label_max_bytes (byte_len text)
      || not (free_of_control text)
    then inl (new_diagnostic DiagnosticCode.record_invalid (append field " is missing or too long"))
    else inr text

-- `Result::ok`.
abbrev pub okay {ℓ κ} : {E : Type ℓ} {A : Type κ} → E ⊎ A → Option A
okay (inl e) = none
okay (inr a) = some a
