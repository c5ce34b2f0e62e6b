-- ===== src/Presence/Pane.antt =====
-- src/presence.rs: `recorded_socket`, `presence_at_socket`, `pane_evidence` and `reader_presence`.
use wezterm_attention.Prelude.{
  ℕ, zero, suc, Bool, true, false, String, List, [], ◌∷◌, ◌++◌, Option, none, some, if◌then◌else◌,
  str_eq, any, length,
}
use wezterm_attention.Prelude.Json.{Value, get_str}
use wezterm_attention.Protocol.{
  DiagnosticCode, Diagnostic, AttentionError, Result, ok, err, new_diagnostic,
}
use wezterm_attention.Identity.{PaneAddress}
use wezterm_attention.Wezterm.Panes.{PaneRow, Presence}
use wezterm_attention.Presence.{
  PanePresence, PaneEvidence, World, PaneLister, ProcessProbe, Look, ask, done, ◌>>=◌, both,
  is_current, gui_exited, recorded_server, replaced_server_pane_gone, evidence_unless_current,
}

abbrev pub observed : PanePresence → PaneEvidence
observed = PaneEvidence.observed

abbrev pub probe_diagnostic : String → Diagnostic
probe_diagnostic message = new_diagnostic DiagnosticCode.probe_unavailable message

abbrev pub refused_diagnostic : Diagnostic
refused_diagnostic = new_diagnostic DiagnosticCode.socket_refused "mux socket refuses connections"

abbrev pub Answer : Type 0
Answer = PaneEvidence × List Diagnostic

abbrev pub lists_pane : String → List PaneRow → Bool
lists_pane pane_id rows = any (λ row. str_eq row.pane_id pane_id) rows

-- `Vec::truncate`.
abbrev pub truncate {ℓ} : {A : Type ℓ} → ℕ → List A → List A
truncate zero xs = []
truncate (suc n) [] = []
truncate (suc n) (x ∷ xs) = x ∷ truncate n xs

-- What the process listing adds to a mux listing that does not name the pane.
unfoldable pub unlisted_answer : List Diagnostic → Option Presence → Answer
unlisted_answer diagnostics (some Presence.present) = (observed PanePresence.present, diagnostics)
unlisted_answer diagnostics (some Presence.absent) =
    (observed PanePresence.verified_absent, diagnostics)
unlisted_answer diagnostics (some Presence.unseen) =
    (observed PanePresence.verified_absent, diagnostics)
unlisted_answer diagnostics (some Presence.unavailable) = (
  observed PanePresence.unavailable,
  diagnostics ++ (probe_diagnostic "identity-scoped process probe is unavailable" ∷ []),
)
unlisted_answer diagnostics none = (
  observed PanePresence.unavailable,
  diagnostics ++ (probe_diagnostic "identity-scoped process probe is unavailable" ∷ []),
)

unfoldable pub probe_presence : String → String → Option ProcessProbe → Look (Option Presence)
probe_presence socket_path pane_id none = done none
probe_presence socket_path pane_id (some probe) =
    ask (λ now. some (probe.presence now socket_path pane_id))

-- The evidence that stands after the socket was looked at again.
unfoldable pub settled : Answer → ℕ → Option PaneEvidence × List Diagnostic → Answer
settled (evidence, diagnostics) before (none, found) = (evidence, diagnostics)
settled (evidence, diagnostics) before (some state, found) =
    (state, truncate before diagnostics ++ found)

unfoldable pub report : Answer → (PanePresence × Bool) × List Diagnostic
report (PaneEvidence.observed presence, diagnostics) = ((presence, false), diagnostics)
report (PaneEvidence.kept_history diagnostic, diagnostics) =
    ((PanePresence.unavailable, true), diagnostics ++ (diagnostic ∷ []))

module _ (sha256_hex : List ℕ → String) (world : World) where
  unfoldable pub still_current : String → PaneAddress → Look Bool
  still_current socket_path address =
      recorded_server sha256_hex world socket_path address.realm_id address.incarnation_id
      >>= (λ server. done (is_current server))

  -- A refusal of the listener, with what shows the pane gone as well.
  unfoldable pub refused_answer :
      String → String → Option ProcessProbe → List Diagnostic → Look Answer
  refused_answer socket_path pane_id processes diagnostics =
      replaced_server_pane_gone sha256_hex world socket_path pane_id processes >>= (λ proven. done (
        if proven
        then (observed PanePresence.verified_absent, diagnostics)
        else (PaneEvidence.kept_history refused_diagnostic, diagnostics)))

  -- The looks that follow a listing that failed.
  unfoldable pub unlisted_socket :
      PaneLister
      → String
      → PaneAddress
      → Option ProcessProbe
      → AttentionError
      → List Diagnostic
      → Look Answer
  unlisted_socket lister socket_path address processes e diagnostics =
      both (gui_exited sha256_hex world socket_path) (still_current socket_path address)
      >>= (λ quit.
          if quit
          then done (observed PanePresence.verified_absent, diagnostics)
          else both (ask (λ now. lister.listener_refuses now socket_path))
              (still_current socket_path address)
            >>= (λ refuses.
                if refuses
                then refused_answer socket_path address.pane_id processes diagnostics
                else done (observed PanePresence.unavailable, diagnostics ++ (e.diagnostic ∷ []))))

  unfoldable pub presence_at_socket :
      String → PaneAddress → Option PaneLister → Option ProcessProbe → List Diagnostic → Look Answer
  presence_at_socket socket_path address none processes diagnostics = done (
    observed PanePresence.unavailable,
    diagnostics ++ (probe_diagnostic "pane probe is unavailable" ∷ []),
  )
  presence_at_socket socket_path address (some lister) processes diagnostics =
      ask (λ now. lister.list now socket_path) >>= (λ listing. elim listing [
        | ok rows ↦
            if lists_pane address.pane_id rows
            then done (observed PanePresence.present, diagnostics)
            else probe_presence socket_path address.pane_id processes
              >>= (λ presence. done (unlisted_answer diagnostics presence))
        | err e ↦ unlisted_socket lister socket_path address processes e diagnostics
      ])

  -- The socket that a realm's record names, if its incarnation is recorded as well.
  abbrev named_socket : Value → Option Value → Option String
  named_socket realm none = none
  named_socket realm (some incarnation) = get_str realm "socket_path"

  unfoldable pub recorded_socket : String → String → Look (Result (Option String))
  recorded_socket realm_id incarnation_id =
      ask (λ now. world.realm_record now realm_id) >>= (λ record_read. elim record_read [
        | err e ↦ done (err e)
        | ok found ↦ elim found [
          | none ↦ done (ok none)
          | some realm ↦
              ask (λ now. world.incarnation_record now realm_id incarnation_id) >>= (λ second.
                done (elim second [
                  | err e ↦ err e
                  | ok incarnation ↦ ok (named_socket realm incarnation)
                ]))
        ]
      ])

  unfoldable pub realm_socket : PaneAddress → Look (Option String)
  realm_socket address = recorded_socket address.realm_id address.incarnation_id >>= (λ found.
      elim found [
        | err e ↦ done none
        | ok socket ↦ elim socket [
          | none ↦ done none
          | some socket_path ↦
              still_current socket_path address
              >>= (λ current. done (if current then some socket_path else none))
        ]
      ])

  -- `pane_evidence` at the socket that is recorded.
  unfoldable pub evidence_at :
      String → PaneAddress → PaneLister → Option ProcessProbe → List Diagnostic → Look Answer
  evidence_at socket_path address lister processes diagnostics =
      evidence_unless_current sha256_hex world socket_path address processes diagnostics
      >>= (λ (first, noted). elim first [
        | some evidence ↦ done (evidence, noted)
        | none ↦ presence_at_socket socket_path address (some lister) processes noted >>= (λ seen.
            evidence_unless_current sha256_hex world socket_path address processes []
            >>= (λ again. done (settled seen (length noted) again)))
      ])

  unfoldable pub pane_evidence :
      PaneAddress → Option PaneLister → Option ProcessProbe → List Diagnostic → Look Answer
  pane_evidence address none processes diagnostics =
      done (observed PanePresence.unavailable, diagnostics)
  pane_evidence address (some lister) processes diagnostics =
      recorded_socket address.realm_id address.incarnation_id >>= (λ found. elim found [
        | err e ↦ done (observed PanePresence.unavailable, diagnostics ++ (e.diagnostic ∷ []))
        | ok socket ↦ elim socket [
          | none ↦ done (observed PanePresence.unavailable, diagnostics)
          | some socket_path ↦ evidence_at socket_path address lister processes diagnostics
        ]
      ])

  unfoldable pub reader_presence :
      PaneAddress
      → Option PaneLister
      → Option ProcessProbe
      → List Diagnostic
      → Look ((PanePresence × Bool) × List Diagnostic)
  reader_presence address panes processes diagnostics =
      pane_evidence address panes processes diagnostics >>= (λ answer. done (report answer))
