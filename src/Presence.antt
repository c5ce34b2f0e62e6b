-- ===== src/Presence.antt =====
-- src/presence.rs: what the state and the mux say about whether a pane is still there. A look at the
-- system happens at a moment, and every look is at a later one, so what two looks find may differ.
pub mod Pane
pub mod Caches
pub mod Once
pub mod Looks
pub mod Gone
pub mod Absent
pub mod Verified
pub mod Reported
mod Tests
use wezterm_attention.Prelude.{
  ℕ, suc, ◌≡◌, refl, Bool, true, false, not, ◌&&◌, ◌||◌, String, List, [], ◌∷◌, ◌++◌, Option, none,
  some, if◌then◌else◌, str_eq, any, length,
}
use wezterm_attention.Prelude.Json.{Value, get_str}
use wezterm_attention.Protocol.{
  DiagnosticCode, Diagnostic, AttentionError, Result, ok, err, new_diagnostic,
}
use wezterm_attention.Identity.{PaneAddress}
use wezterm_attention.Identity.Socket.{FileLook, SocketMetadata, socket_identity}
use wezterm_attention.Wezterm.Gui.{Signal, gui_process_exited}
use wezterm_attention.Wezterm.Panes.{PaneRow, Presence, ProcessListing}

pub data PanePresence : Type 0 where
  present verified_absent unavailable : PanePresence

pub data PaneEvidence : Type 0 where
  observed : PanePresence → PaneEvidence
  kept_history : Diagnostic → PaneEvidence

unfoldable pub kept_history_code : DiagnosticCode → Bool
kept_history_code DiagnosticCode.socket_gone = true
kept_history_code DiagnosticCode.socket_refused = true
kept_history_code DiagnosticCode.incarnation_changed = true
kept_history_code _ = false

pub data SocketChange : Type 0 where
  gone identity_changed : SocketChange

pub data RecordedServer : Type 0 where
  current : RecordedServer
  replaced : SocketChange → RecordedServer
  unreadable : AttentionError → RecordedServer

unfoldable pub change_diagnostic : SocketChange → Diagnostic
change_diagnostic SocketChange.gone =
    new_diagnostic DiagnosticCode.socket_gone "mux socket no longer exists"
change_diagnostic SocketChange.identity_changed =
    new_diagnostic DiagnosticCode.incarnation_changed "realm socket identity changed"

pub data ServerState : Type 0 where
  current exited : ServerState
  kept_history : Diagnostic → ServerState
  unreadable : AttentionError → ServerState

-- What each look would find at each moment of one run: the records of realms and incarnations, a
-- socket's file, whether no file is at its path, and what signal 0 answers.
pub record World : Type 0 where
  pub realm_record : ℕ → String → Result (Option Value)
  pub incarnation_record : ℕ → String → String → Result (Option Value)
  pub file_look : ℕ → FileLook
  pub path_missing : ℕ → String → Bool
  pub kill : ℕ → ℕ → Signal

-- The traits `PaneLister` and `ProcessProbe`, as their answers at each moment of the run.
pub record PaneLister : Type 0 where
  pub list : ℕ → String → Result (List PaneRow)
  pub listener_refuses : ℕ → String → Bool

pub record ProcessProbe : Type 0 where
  pub available : ℕ → Bool
  pub presence : ℕ → String → String → Presence

-- A computation that looks at the system: its value, and the moment after it.
abbrev pub Look {ℓ} : Type ℓ → Type ℓ
Look A = ℕ → A × ℕ

unfoldable pub ask {ℓ} : {A : Type ℓ} → (ℕ → A) → Look A
ask answer now = (answer now, suc now)

unfoldable pub done {ℓ} : {A : Type ℓ} → A → Look A
done a now = (a, now)

infixl 5 ◌>>=◌
unfoldable pub ◌>>=◌ {ℓ κ} : {A : Type ℓ} {B : Type κ} → Look A → (A → Look B) → Look B
◌>>=◌ m f now = f (m now).0 (m now).1

-- `a && b` on looks: the second is not taken where the first says no.
unfoldable pub both : Look Bool → Look Bool → Look Bool
both a b = a >>= (λ yes. if yes then b else done false)

unfoldable pub either : Look Bool → Look Bool → Look Bool
either a b = a >>= (λ yes. if yes then done true else b)

abbrev pub is_absent : Presence → Bool
is_absent Presence.absent = true
is_absent _ = false

abbrev is_realm_unavailable : DiagnosticCode → Bool
is_realm_unavailable DiagnosticCode.realm_unavailable = true
is_realm_unavailable _ = false

abbrev pub is_current : RecordedServer → Bool
is_current RecordedServer.current = true
is_current (RecordedServer.replaced change) = false
is_current (RecordedServer.unreadable e) = false

module _ (sha256_hex : List ℕ → String) (world : World) where
  unfoldable pub identity_at : String → Look (Result (String × String × SocketMetadata))
  identity_at socket_path =
      ask (λ now. socket_identity sha256_hex (world.file_look now) socket_path)

  unfoldable pub gui_exited : String → Look Bool
  gui_exited socket_path = ask (λ now. gui_process_exited (world.kill now) socket_path)

  -- The `Err` arms of `recorded_server`, from whether the path names nothing at all.
  unfoldable pub unread_server : AttentionError → Bool → RecordedServer
  unread_server e true = RecordedServer.replaced SocketChange.gone
  unread_server e false =
      if is_realm_unavailable e.diagnostic.code
      then RecordedServer.replaced SocketChange.identity_changed
      else RecordedServer.unreadable e

  unfoldable pub recorded_server : String → String → String → Look RecordedServer
  recorded_server socket_path realm_id incarnation_id = identity_at socket_path >>= (λ identity.
      elim identity [
        | ok found ↦ done (
            if str_eq found.0 realm_id && str_eq found.1 incarnation_id
            then RecordedServer.current
            else RecordedServer.replaced SocketChange.identity_changed)
        | err e ↦
            ask (λ now. world.path_missing now socket_path)
            >>= (λ missing. done (unread_server e missing))
      ])

  unfoldable pub probe_absent : String → String → Option ProcessProbe → Look Bool
  probe_absent socket_path pane_id none = done false
  probe_absent socket_path pane_id (some probe) =
      ask (λ now. is_absent (probe.presence now socket_path pane_id))

  unfoldable pub replaced_server_pane_gone : String → String → Option ProcessProbe → Look Bool
  replaced_server_pane_gone socket_path pane_id processes =
      either (gui_exited socket_path) (probe_absent socket_path pane_id processes)

  unfoldable pub server_state : String → PaneAddress → Option ProcessProbe → Look ServerState
  server_state socket_path address processes =
      recorded_server socket_path address.realm_id address.incarnation_id >>= (λ server.
        elim server [
          | current ↦ done ServerState.current
          | replaced change ↦
              replaced_server_pane_gone socket_path address.pane_id processes >>= (λ proven. done (
                if proven
                then ServerState.exited
                else ServerState.kept_history (change_diagnostic change)))
          | unreadable e ↦ done (ServerState.unreadable e)
        ])

  -- The diagnostics are the caller's vector, and the value that is returned with a result is what
  -- the vector holds then.
  unfoldable pub evidence_unless_current :
      String
      → PaneAddress
      → Option ProcessProbe
      → List Diagnostic
      → Look (Option PaneEvidence × List Diagnostic)
  evidence_unless_current socket_path address processes diagnostics =
      server_state socket_path address processes >>= (λ state. elim state [
        | current ↦ done (none, diagnostics)
        | exited ↦ done (some (PaneEvidence.observed PanePresence.verified_absent), diagnostics)
        | kept_history diagnostic ↦ done (some (PaneEvidence.kept_history diagnostic), diagnostics)
        | unreadable e ↦ done (
          some (PaneEvidence.observed PanePresence.unavailable),
          diagnostics ++ (e.diagnostic ∷ []),
        )
      ])
