-- ===== src/Presence/Absent.antt =====
-- src/presence.rs: how `pane_evidence` comes to say that a pane is verified absent.
use wezterm_attention.Prelude.{
  ℕ, suc, ◌≤◌, ◌<◌, ◌≡◌, ap, ◌⊎◌, true, false, String, List, Option, none, some, arith, subst,
}
use wezterm_attention.Protocol.{Diagnostic, ok}
use wezterm_attention.Identity.{PaneAddress}
use wezterm_attention.Wezterm.Panes.{PaneRow, Presence}
use wezterm_attention.Presence.{
  PanePresence, PaneEvidence, ServerState, World, PaneLister, ProcessProbe, server_state,
  evidence_unless_current,
}
use wezterm_attention.Presence.Pane.{observed, lists_pane}
use wezterm_attention.Presence.Looks.{Bool-each, Server-each, State-each, look_elim, done_elim}
use wezterm_attention.Presence.Gone.{
  Carries, Quit, Replaced, Proven, recorded_server-current, recorded_server-replaced,
  pane_gone-Proven, Proven-wider,
}

abbrev pub verified_absent : PaneEvidence
verified_absent = observed PanePresence.verified_absent

module _ (sha256_hex : List ℕ → String) (world : World) where
  -- The recorded server was found replaced, and after that the pane was proven gone.
  pub record ServerGone (socket_path : String) (address : PaneAddress)
      (processes : Option ProcessProbe) (start end : ℕ) : Type 0 where
    pub lost : ℕ
    pub from_start : start ≤ lost
    pub replaced : Replaced sha256_hex world socket_path address lost
    pub not_carried : ¬ Carries sha256_hex world socket_path address lost
    pub proof : Proven sha256_hex world socket_path address.pane_id processes (suc lost) end

  -- What one look at a socket shows a pane gone by.
  pub data LookGone (socket_path : String) (address : PaneAddress) (lister : PaneLister)
      (processes : Option ProcessProbe) (start end : ℕ) : Type 0 where
    unlisted :
        (probe : ProcessProbe) (rows : List PaneRow) (k j : ℕ)
        → start ≤ k
        → k < j
        → j < end
        → lister.list k socket_path ≡ ok rows
        → lists_pane address.pane_id rows ≡ false
        → processes ≡ some probe
        → (probe.presence j socket_path address.pane_id ≡ Presence.absent)
          ⊎ (probe.presence j socket_path address.pane_id ≡ Presence.unseen)
        → LookGone socket_path address lister processes start end
    gui_quit :
        (k j : ℕ)
        → start ≤ k
        → k < j
        → j < end
        → Quit sha256_hex world socket_path k
        → Carries sha256_hex world socket_path address j
        → LookGone socket_path address lister processes start end
    refused :
        (k j : ℕ)
        → start ≤ k
        → k < j
        → j < end
        → lister.listener_refuses k socket_path ≡ true
        → Carries sha256_hex world socket_path address j
        → Proven sha256_hex world socket_path address.pane_id processes (suc j) end
        → LookGone socket_path address lister processes start end

  -- The server is gone, or one look showed the pane gone while, at a later moment, the socket still
  -- carried the incarnation.
  pub data Absence (socket_path : String) (address : PaneAddress) (lister : PaneLister)
      (processes : Option ProcessProbe) (start end : ℕ) : Type 0 where
    server_gone :
        ServerGone socket_path address processes start end
        → Absence socket_path address lister processes start end
    looked_gone :
        (k : ℕ)
        → k < end
        → LookGone socket_path address lister processes start k
        → Carries sha256_hex world socket_path address k
        → Absence socket_path address lister processes start end

  server_state-exited :
      (socket_path : String) (address : PaneAddress) (processes : Option ProcessProbe)
      (now after : ℕ)
      → server_state sha256_hex world socket_path address processes now
        ≡ (ServerState.exited, after)
      → ServerGone socket_path address processes now after
  unfolding server_state
  server_state-exited socket_path address processes now after h = look_elim _ _ now after _ h (
      Server-each _ (λ k hk h. absurd (let bad = (done_elim _ k after _ h).0 in cc))
        (λ c k hk h.
          let (replaced, lost, moved) =
            recorded_server-replaced sha256_hex world socket_path address now k c hk in
          look_elim _ _ k after _ h (
            Bool-each _
              (λ j hj h.
                let ends = (done_elim _ j after _ h).1 in
                record {
                  lost = now;
                  from_start = omega arith;
                  replaced = replaced;
                  not_carried = lost;
                  proof =
                      Proven-wider sha256_hex world socket_path address.pane_id processes k
                        (suc now) j after (omega (arith, moved)) (omega (arith, ends))
                        (pane_gone-Proven sha256_hex world socket_path address.pane_id processes k j
                          hj);
                })
              (λ j hj h. absurd (let bad = (done_elim _ j after _ h).0 in cc))))
        (λ e k hk h. absurd (let bad = (done_elim _ k after _ h).0 in cc)))

  server_state-current :
      (socket_path : String) (address : PaneAddress) (processes : Option ProcessProbe)
      (now after : ℕ)
      → server_state sha256_hex world socket_path address processes now
        ≡ (ServerState.current, after)
      → Carries sha256_hex world socket_path address now × (now < after)
  unfolding server_state
  server_state-current socket_path address processes now after h = look_elim _ _ now after _ h (
      Server-each _
        (λ k hk h.
          let (there, moved) =
            recorded_server-current sha256_hex world socket_path address now k hk in
          let ends = (done_elim _ k after _ h).1 in (there, omega (arith, moved, ends)))
        (λ c k hk h. look_elim _ _ k after _ h (
          Bool-each _ (λ j hj h. absurd (let bad = (done_elim _ j after _ h).0 in cc))
            (λ j hj h. absurd (let bad = (done_elim _ j after _ h).0 in cc))))
        (λ e k hk h. absurd (let bad = (done_elim _ k after _ h).0 in cc)))

  pub unless_current-none :
      (socket_path : String) (address : PaneAddress) (processes : Option ProcessProbe)
      (diagnostics noted : List Diagnostic) (now after : ℕ)
      → evidence_unless_current sha256_hex world socket_path address processes diagnostics now
        ≡ ((none, noted), after)
      → Carries sha256_hex world socket_path address now × (now < after)
  unfolding evidence_unless_current
  unless_current-none socket_path address processes diagnostics noted now after h =
      look_elim _ _ now after _ h (
        State-each _
          (λ k hk h.
            let (there, moved) = server_state-current socket_path address processes now k hk in
            (there, omega (arith, moved, (done_elim _ k after _ h).1)))
          (λ k hk h. absurd (let bad = ap (λ p. p.0) (done_elim _ k after _ h).0 in cc))
          (λ d k hk h. absurd (let bad = ap (λ p. p.0) (done_elim _ k after _ h).0 in cc))
          (λ e k hk h. absurd (let bad = ap (λ p. p.0) (done_elim _ k after _ h).0 in cc)))

  pub unless_current-absent :
      (socket_path : String) (address : PaneAddress) (processes : Option ProcessProbe)
      (diagnostics noted : List Diagnostic) (now after : ℕ)
      → evidence_unless_current sha256_hex world socket_path address processes diagnostics now
        ≡ ((some verified_absent, noted), after)
      → ServerGone socket_path address processes now after
  unfolding evidence_unless_current
  unless_current-absent socket_path address processes diagnostics noted now after h =
      look_elim _ _ now after _ h (
        State-each _ (λ k hk h. absurd (let bad = ap (λ p. p.0) (done_elim _ k after _ h).0 in cc))
          (λ k hk h.
            subst (ServerGone socket_path address processes now) (done_elim _ k after _ h).1
              (server_state-exited socket_path address processes now k hk))
          (λ d k hk h. absurd (let bad = ap (λ p. p.0) (done_elim _ k after _ h).0 in cc))
          (λ e k hk h. absurd (let bad = ap (λ p. p.0) (done_elim _ k after _ h).0 in cc)))
