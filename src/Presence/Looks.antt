-- ===== src/Presence/Looks.antt =====
-- src/presence.rs: the moments of the looks. No look goes back in time.
use wezterm_attention.Prelude.{
  ℕ, suc, ◌≤◌, ◌≡◌, refl, Bool, true, false, String, List, Option, none, some, arith, if◌then◌else◌,
  ap,
}
use wezterm_attention.Protocol.{Diagnostic, AttentionError, Result, ok, err}
use wezterm_attention.Identity.{PaneAddress}
use wezterm_attention.Presence.{
  PanePresence, World, PaneLister, ProcessProbe, PaneEvidence, SocketChange, RecordedServer,
  ServerState, Look, ask, done, ◌>>=◌, both, either, identity_at, gui_exited, recorded_server,
  probe_absent, replaced_server_pane_gone, server_state, evidence_unless_current,
}
use wezterm_attention.Presence.Pane.{
  probe_presence, still_current, refused_answer, unlisted_socket, presence_at_socket, lists_pane,
  observed, unlisted_answer,
}

-- A look that was followed by another.
pub look_elim {ℓ κ μ} :
    {A : Type ℓ} {B : Type κ} {C : Type μ} (m : Look A) (f : A → Look B) (now after : ℕ) (b : B)
    → (m >>= f) now ≡ (b, after)
    → ((a : A) (k : ℕ) → m now ≡ (a, k) → f a k ≡ (b, after) → C)
    → C
unfolding ◌>>=◌
look_elim m f now after b h k = k (m now).0 (m now).1 refl h

pub ask_elim {ℓ} :
    {A : Type ℓ} (f : ℕ → A) (now after : ℕ) (a : A)
    → ask f now ≡ (a, after)
    → (f now ≡ a) × (suc now ≡ after)
unfolding ask
ask_elim f now after a h = (ap (λ p. p.0) h, ap (λ p. p.1) h)

pub done_elim {ℓ} :
    {A : Type ℓ} (b : A) (now after : ℕ) (a : A) → done b now ≡ (a, after) → (b ≡ a) × (now ≡ after)
unfolding done
done_elim b now after a h = (ap (λ p. p.0) h, ap (λ p. p.1) h)

abbrev pub Forward {ℓ} : {A : Type ℓ} → Look A → Type 0
Forward m = (now : ℕ) → now ≤ (m now).1

pub Forward-ends {ℓ} :
    {A : Type ℓ} (m : Look A) (now after : ℕ) (a : A) → Forward m → m now ≡ (a, after) → now ≤ after
Forward-ends m now after a f h = rw (ap (λ p. p.1) h) at (f now)

Forward-ask {ℓ} : {A : Type ℓ} (f : ℕ → A) → Forward (ask f)
unfolding ask
Forward-ask f now = omega arith

Forward-done {ℓ} : {A : Type ℓ} (a : A) → Forward (done a)
unfolding done
Forward-done a now = omega arith

Forward-bind {ℓ κ} :
    {A : Type ℓ} {B : Type κ} (m : Look A) (f : A → Look B)
    → Forward m
    → ((a : A) → Forward (f a))
    → Forward (m >>= f)
unfolding ◌>>=◌
Forward-bind m f hm hf now = omega (arith, hm now, hf (m now).0 (m now).1)

-- What holds at each value of a type that a look branches on.
module _ {κ} where
  pub Bool-each : (P : Bool → Type κ) → P true → P false → (b : Bool) → P b
  Bool-each P h k true = h
  Bool-each P h k false = k

  pub Result-each {ℓ} :
      {A : Type ℓ} (P : Result A → Type κ)
      → ((a : A) → P (ok a))
      → ((e : AttentionError) → P (err e))
      → (r : Result A) → P r
  Result-each P h k (ok a) = h a
  Result-each P h k (err e) = k e

  pub Option-each {ℓ} :
      {A : Type ℓ} (P : Option A → Type κ) → P none → ((a : A) → P (some a)) → (o : Option A) → P o
  Option-each P h k none = h
  Option-each P h k (some a) = k a

  pub Server-each :
      (P : RecordedServer → Type κ)
      → P RecordedServer.current
      → ((c : SocketChange) → P (RecordedServer.replaced c))
      → ((e : AttentionError) → P (RecordedServer.unreadable e))
      → (s : RecordedServer) → P s
  Server-each P h k l RecordedServer.current = h
  Server-each P h k l (RecordedServer.replaced c) = k c
  Server-each P h k l (RecordedServer.unreadable e) = l e

  pub State-each :
      (P : ServerState → Type κ)
      → P ServerState.current
      → P ServerState.exited
      → ((d : Diagnostic) → P (ServerState.kept_history d))
      → ((e : AttentionError) → P (ServerState.unreadable e))
      → (s : ServerState) → P s
  State-each P h k l o ServerState.current = h
  State-each P h k l o ServerState.exited = k
  State-each P h k l o (ServerState.kept_history d) = l d
  State-each P h k l o (ServerState.unreadable e) = o e

  pub Seen-each :
      (P : Option PaneEvidence × List Diagnostic → Type κ)
      → ((ds : List Diagnostic) → P (none, ds))
      → ((e : PaneEvidence) (ds : List Diagnostic) → P (some e, ds))
      → (a : Option PaneEvidence × List Diagnostic) → P a
  Seen-each P h k (none, ds) = h ds
  Seen-each P h k (some e, ds) = k e ds

Forward-both : (a b : Look Bool) → Forward a → Forward b → Forward (both a b)
unfolding both
Forward-both a b ha hb = Forward-bind a _ ha (Bool-each _ hb (Forward-done false))

Forward-either : (a b : Look Bool) → Forward a → Forward b → Forward (either a b)
unfolding either
Forward-either a b ha hb = Forward-bind a _ ha (Bool-each _ (Forward-done true) hb)

module _ (sha256_hex : List ℕ → String) (world : World) where
  pub recorded_server-Forward :
      (socket_path realm incarnation : String)
      → Forward (recorded_server sha256_hex world socket_path realm incarnation)
  unfolding recorded_server identity_at
  recorded_server-Forward socket_path realm incarnation = Forward-bind _ _ (Forward-ask _) (
      Result-each _ (λ found. Forward-done _)
        (λ e. Forward-bind _ _ (Forward-ask _) (λ b. Forward-done _)))

  probe_absent-Forward :
      (socket_path pane_id : String) (processes : Option ProcessProbe)
      → Forward (probe_absent sha256_hex world socket_path pane_id processes)
  unfolding probe_absent
  probe_absent-Forward socket_path pane_id none = Forward-done _
  probe_absent-Forward socket_path pane_id (some probe) = Forward-ask _

  pub pane_gone-Forward :
      (socket_path pane_id : String) (processes : Option ProcessProbe)
      → Forward (replaced_server_pane_gone sha256_hex world socket_path pane_id processes)
  unfolding replaced_server_pane_gone gui_exited
  pane_gone-Forward socket_path pane_id processes =
      Forward-either _ _ (Forward-ask _) (probe_absent-Forward socket_path pane_id processes)

  pub server_state-Forward :
      (socket_path : String) (address : PaneAddress) (processes : Option ProcessProbe)
      → Forward (server_state sha256_hex world socket_path address processes)
  unfolding server_state
  server_state-Forward socket_path address processes =
      Forward-bind _ _ (recorded_server-Forward socket_path address.realm_id address.incarnation_id)
        (Server-each _ (Forward-done _)
          (λ c.
            Forward-bind _ _ (pane_gone-Forward socket_path address.pane_id processes)
              (λ b. Forward-done _))
          (λ e. Forward-done _))

  pub unless_current-Forward :
      (socket_path : String) (address : PaneAddress) (processes : Option ProcessProbe)
      (diagnostics : List Diagnostic)
      → Forward (evidence_unless_current sha256_hex world socket_path address processes diagnostics)
  unfolding evidence_unless_current
  unless_current-Forward socket_path address processes diagnostics =
      Forward-bind _ _ (server_state-Forward socket_path address processes)
        (State-each _ (Forward-done _) (Forward-done _) (λ d. Forward-done _) (λ e. Forward-done _))

  pub still_current-Forward :
      (socket_path : String) (address : PaneAddress)
      → Forward (still_current sha256_hex world socket_path address)
  unfolding still_current
  still_current-Forward socket_path address =
      Forward-bind _ _ (recorded_server-Forward socket_path address.realm_id address.incarnation_id)
        (λ s. Forward-done _)

  pub quit-Forward :
      (socket_path : String) (address : PaneAddress)
      → Forward (
          both
            (gui_exited sha256_hex world socket_path)
            (still_current sha256_hex world socket_path address))
  unfolding gui_exited
  quit-Forward socket_path address =
      Forward-both _ _ (Forward-ask _) (still_current-Forward socket_path address)

  probe_presence-Forward :
      (socket_path pane_id : String) (processes : Option ProcessProbe)
      → Forward (probe_presence socket_path pane_id processes)
  unfolding probe_presence
  probe_presence-Forward socket_path pane_id none = Forward-done _
  probe_presence-Forward socket_path pane_id (some probe) = Forward-ask _

  pub presence_at-Forward :
      (socket_path : String) (address : PaneAddress) (lister : PaneLister)
      (processes : Option ProcessProbe) (ds : List Diagnostic)
      → Forward (presence_at_socket sha256_hex world socket_path address (some lister) processes ds)
  unfolding presence_at_socket unlisted_socket refused_answer
  presence_at-Forward socket_path address lister processes ds = Forward-bind _ _ (Forward-ask _) (
      Result-each _
        (λ rows.
          Bool-each
            (λ b. Forward (
              if b
              then done (observed PanePresence.present, ds)
              else probe_presence socket_path address.pane_id processes
                >>= (λ presence. done (unlisted_answer ds presence))))
            (Forward-done _)
            (Forward-bind _ _ (probe_presence-Forward socket_path address.pane_id processes)
              (λ p. Forward-done _))
            (lists_pane address.pane_id rows))
        (λ e. Forward-bind _ _ (quit-Forward socket_path address) (
          Bool-each _ (Forward-done _) (
            Forward-bind _ _
              (Forward-both _ _ (Forward-ask _) (still_current-Forward socket_path address))
              (Bool-each _
                (Forward-bind _ _ (pane_gone-Forward socket_path address.pane_id processes)
                  (λ proven. Forward-done _))
                (Forward-done _))))))
