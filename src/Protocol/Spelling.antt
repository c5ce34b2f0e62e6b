-- ===== src/Protocol/Spelling.antt =====
-- src/protocol.rs: the published spellings of codes, dispositions and providers.
use wezterm_attention.Prelude.{
  String, ◌≡◌, refl, sym, subst, ◌↔◌, Option, none, some, arith, str_eq, if◌then◌else◌, eq_iff,
}
use wezterm_attention.Protocol.{DiagnosticCode, Disposition, Provider}

-- `DiagnosticCode::as_str`.
unfoldable pub code_str : DiagnosticCode → String
code_str DiagnosticCode.identity_unpublished = "identity_unpublished"
code_str DiagnosticCode.claim_stale = "claim_stale"
code_str DiagnosticCode.unsafe_tty = "unsafe_tty"
code_str DiagnosticCode.realm_unavailable = "realm_unavailable"
code_str DiagnosticCode.incarnation_changed = "incarnation_changed"
code_str DiagnosticCode.socket_gone = "socket_gone"
code_str DiagnosticCode.socket_refused = "socket_refused"
code_str DiagnosticCode.record_invalid = "record_invalid"
code_str DiagnosticCode.future_schema = "future_schema"
code_str DiagnosticCode.binding_conflict = "binding_conflict"
code_str DiagnosticCode.probe_unavailable = "probe_unavailable"
code_str DiagnosticCode.clock_skew = "clock_skew"
code_str DiagnosticCode.integration_version_mismatch = "integration_version_mismatch"
code_str DiagnosticCode.state_permissions = "state_permissions"
code_str DiagnosticCode.bad_usage = "bad_usage"
code_str DiagnosticCode.self_claim_parent_unverified = "self_claim_parent_unverified"
code_str DiagnosticCode.session_detached = "session_detached"
code_str DiagnosticCode.child_active_after_parent_clear = "child_active_after_parent_clear"
code_str DiagnosticCode.outside_pane = "outside_pane"
code_str DiagnosticCode.state_root_missing = "state_root_missing"
code_str DiagnosticCode.transcript_replaced = "transcript_replaced"

-- `Disposition::as_str`.
unfoldable pub disposition_str : Disposition → String
disposition_str Disposition.applied = "applied"
disposition_str Disposition.confirmed = "confirmed"
disposition_str Disposition.replaced = "replaced"
disposition_str Disposition.skipped = "skipped"
disposition_str Disposition.renewed = "renewed"
disposition_str Disposition.ignored = "ignored"
disposition_str Disposition.conflict = "conflict"
disposition_str Disposition.partial = "partial"

-- `Provider::as_str` and `Provider::parse`.
unfoldable pub provider_str : Provider → String
provider_str Provider.claude = "claude"
provider_str Provider.codex = "codex"
provider_str Provider.pi = "pi"

unfoldable pub parse_provider : String → Option Provider
parse_provider value =
    if str_eq value "claude"
    then some Provider.claude
    else if str_eq value "codex"
    then some Provider.codex
    else if str_eq value "pi"
    then some Provider.pi
    else none

parse_provider_str : (p : Provider) → parse_provider (provider_str p) ≡ some p
unfolding parse_provider provider_str
parse_provider_str Provider.claude = refl
parse_provider_str Provider.codex = refl
parse_provider_str Provider.pi = refl

parse_provider_sound :
    (value : String) (p : Provider) → parse_provider value ≡ some p → value ≡ provider_str p
unfolding parse_provider provider_str
parse_provider_sound value Provider.claude h =
    ground (arith, eq_iff value "claude", eq_iff value "codex", eq_iff value "pi")
parse_provider_sound value p h =
    ground (arith, eq_iff value "claude", eq_iff value "codex", eq_iff value "pi")

-- A text reads as a provider exactly when it is that provider's published spelling.
pub parse_provider_iff :
    (value : String) (p : Provider) → (parse_provider value ≡ some p) ↔ (value ≡ provider_str p)
parse_provider_iff value p = (
  parse_provider_sound value p,
  λ e. subst (λ t. parse_provider t ≡ some p) (sym e) (parse_provider_str p),
)
