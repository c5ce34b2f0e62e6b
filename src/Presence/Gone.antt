-- ===== src/Presence/Gone.antt =====
-- src/presence.rs: what a pane that is reported as gone was shown gone by.
use wezterm_attention.Prelude.{
  ℕ, suc, ◌≤◌, ◌<◌, ◌≡◌, refl, sym, ap, ◌∙◌, Bool, true, false, ◌&&◌, String, List, Option, none,
  some, arith, if◌then◌else◌, str_eq, eq_iff, eq_refl, absurd_bool,
}
use wezterm_attention.Protocol.{DiagnosticCode, AttentionError, ok, err}
use wezterm_attention.Identity.{PaneAddress}
use wezterm_attention.Identity.Socket.{
  SocketMetadata, socket_identity, Foreign, socket_identity-Foreign,
}
use wezterm_attention.Wezterm.Gui.{gui_process_exited}
use wezterm_attention.Wezterm.Panes.{Presence}
use wezterm_attention.Presence.{
  SocketChange, RecordedServer, World, ProcessProbe, Look, both, either, identity_at, gui_exited,
  unread_server, recorded_server, probe_absent, replaced_server_pane_gone, is_absent,
}
use wezterm_attention.Presence.Looks.{Bool-each, Result-each, look_elim, ask_elim, done_elim}

is_absent_elim : (p : Presence) → is_absent p ≡ true → p ≡ Presence.absent
is_absent_elim Presence.absent h = refl
is_absent_elim Presence.present h = absurd_bool h
is_absent_elim Presence.unseen h = absurd_bool h
is_absent_elim Presence.unavailable h = absurd_bool h

module _ (sha256_hex : List ℕ → String) (world : World) where
  -- The file at the socket path is the socket of this incarnation of the realm.
  abbrev pub Carries : String → PaneAddress → ℕ → Type 0
  Carries socket_path address k =
      (found : SocketMetadata) × (socket_identity sha256_hex (world.file_look k) socket_path
        ≡ ok (address.realm_id, address.incarnation_id, found))

  abbrev pub Quit : String → ℕ → Type 0
  Quit socket_path k = gui_process_exited (world.kill k) socket_path ≡ true

  -- What a look from one moment on finds where the recorded server was replaced: another socket, or,
  -- where no identity is read, that no file is at the path or that the file there is foreign.
  pub data Replaced (socket_path : String) (address : PaneAddress) (k : ℕ) : Type 0 where
    other_socket :
        (realm_id incarnation_id : String) (found : SocketMetadata)
        → socket_identity sha256_hex (world.file_look k) socket_path
          ≡ ok (realm_id, incarnation_id, found)
        → ¬ ((realm_id ≡ address.realm_id) × (incarnation_id ≡ address.incarnation_id))
        → Replaced socket_path address k
    nothing_there :
        (e : AttentionError)
        → socket_identity sha256_hex (world.file_look k) socket_path ≡ err e
        → world.path_missing (suc k) socket_path ≡ true
        → Replaced socket_path address k
    foreign_file :
        (e : AttentionError)
        → socket_identity sha256_hex (world.file_look k) socket_path ≡ err e
        → Foreign (world.file_look k) socket_path
        → Replaced socket_path address k

  -- From one moment on and before another, the GUI whose socket this is has exited, or the process
  -- probe read every process and saw none with the socket and the pane id.
  pub data Proven (socket_path pane_id : String) (processes : Option ProcessProbe) (start end : ℕ)
      : Type 0 where
    quit :
        (k : ℕ)
        → start ≤ k
        → k < end
        → Quit socket_path k
        → Proven socket_path pane_id processes start end
    no_process :
        (probe : ProcessProbe) (k : ℕ)
        → start ≤ k
        → k < end
        → processes ≡ some probe
        → probe.presence k socket_path pane_id ≡ Presence.absent
        → Proven socket_path pane_id processes start end

  pub both_elim :
      (a b : Look Bool) (now after : ℕ)
      → both a b now ≡ (true, after)
      → (k : ℕ) × (a now ≡ (true, k)) × (b k ≡ (true, after))
  unfolding both
  both_elim a b now after h = look_elim a _ now after true h (
      Bool-each _ (λ k ha hb. (k, ha, hb))
        (λ k ha hb. absurd (let bad = (done_elim false k after true hb).0 in cc)))

  abbrev compared : String × String × SocketMetadata → PaneAddress → RecordedServer
  compared found address =
      if str_eq found.0 address.realm_id && str_eq found.1 address.incarnation_id
      then RecordedServer.current
      else RecordedServer.replaced SocketChange.identity_changed

  compared_same :
      (found : String × String × SocketMetadata) (address : PaneAddress)
      → compared found address ≡ RecordedServer.current
      → found ≡ (address.realm_id, address.incarnation_id, found.2)
  compared_same (r, i, m) address h =
      ground (arith, eq_iff r address.realm_id, eq_iff i address.incarnation_id)

  compared_self :
      (address : PaneAddress) (m : SocketMetadata)
      → compared (address.realm_id, address.incarnation_id, m) address ≡ RecordedServer.current
  compared_self address m = rw (eq_refl address.realm_id, eq_refl address.incarnation_id) refl

  unread_server_not_current :
      (e : AttentionError) (missing : Bool)
      → ¬ (unread_server sha256_hex world e missing ≡ RecordedServer.current)
  unfolding unread_server
  unread_server_not_current e true h = cc
  unread_server_not_current e false h = ground arith

  pub recorded_server-current :
      (socket_path : String) (address : PaneAddress) (now after : ℕ)
      → recorded_server sha256_hex world socket_path address.realm_id address.incarnation_id now
        ≡ (RecordedServer.current, after)
      → Carries socket_path address now × (now < after)
  unfolding recorded_server identity_at
  recorded_server-current socket_path address now after h = look_elim _ _ now after _ h (
      Result-each _
        (λ found k hr h.
          let (read, moved) = ask_elim _ now k _ hr in
          let (same, ends) = done_elim _ k after _ h in
          ((found.2, read ∙ ap ok (compared_same found address same)), omega (arith, moved, ends)))
        (λ e k hr h. look_elim _ _ k after _ h (λ missing j hj h.
          absurd (unread_server_not_current e missing (done_elim _ j after _ h).0))))

  compared_other :
      (found : String × String × SocketMetadata) (address : PaneAddress) (c : SocketChange)
      → compared found address ≡ RecordedServer.replaced c
      → ¬ ((found.0 ≡ address.realm_id) × (found.1 ≡ address.incarnation_id))
  compared_other (r, i, m) address c h (same, same') =
      ground (arith, eq_iff r address.realm_id, eq_iff i address.incarnation_id)

  unavailable_of :
      (e : AttentionError) (c : SocketChange)
      → unread_server sha256_hex world e false ≡ RecordedServer.replaced c
      → e.diagnostic.code ≡ DiagnosticCode.realm_unavailable
  unfolding unread_server
  unavailable_of e c h = ground arith

  unread-Replaced :
      (socket_path : String) (address : PaneAddress) (k : ℕ) (e : AttentionError) (missing : Bool)
      (c : SocketChange)
      → socket_identity sha256_hex (world.file_look k) socket_path ≡ err e
      → world.path_missing (suc k) socket_path ≡ missing
      → unread_server sha256_hex world e missing ≡ RecordedServer.replaced c
      → Replaced socket_path address k
  unread-Replaced socket_path address k e true c failed gone h =
      Replaced.nothing_there e failed gone
  unread-Replaced socket_path address k e false c failed there h = Replaced.foreign_file e failed (
      socket_identity-Foreign sha256_hex (world.file_look k) socket_path e failed
        (unavailable_of e c h))

  pub recorded_server-replaced :
      (socket_path : String) (address : PaneAddress) (now after : ℕ) (c : SocketChange)
      → recorded_server sha256_hex world socket_path address.realm_id address.incarnation_id now
        ≡ (RecordedServer.replaced c, after)
      → Replaced socket_path address now × ¬ Carries socket_path address now × (now < after)
  unfolding recorded_server identity_at
  recorded_server-replaced socket_path address now after c h = look_elim _ _ now after _ h (
      Result-each _
        (λ found k hr h.
          let (read, moved) = ask_elim _ now k _ hr in
          let (same, ends) = done_elim _ k after _ h in
          (
            Replaced.other_socket found.0 found.1 found.2 read
                (compared_other found address c same),
            λ (m, carried).
                let bad = compared_self address m in
                let is : found ≡ (address.realm_id, address.incarnation_id, m) = cc in
                absurd (
                  let no : RecordedServer.replaced c ≡ RecordedServer.current =
                    sym same ∙ ap (λ f. compared f address) is ∙ bad in
                  cc),
            omega (arith, moved, ends),
          ))
        (λ e k hr h.
          let (read, moved) = ask_elim _ now k _ hr in
          look_elim _ _ k after _ h (λ missing j hj h.
            let (x, later) = ask_elim _ k j _ hj in
            let (y, ends) = done_elim _ j after _ h in
            (
              unread-Replaced socket_path address now e missing c read
                  (ap (λ n. world.path_missing n socket_path) moved ∙ x) y,
              λ (m, carried). cc,
              omega (arith, moved, later, ends),
            ))))

  probe_absent-Proven :
      (socket_path pane_id : String) (processes : Option ProcessProbe) (start now after : ℕ)
      → start ≤ now
      → probe_absent sha256_hex world socket_path pane_id processes now ≡ (true, after)
      → Proven socket_path pane_id processes start after
  unfolding probe_absent
  probe_absent-Proven socket_path pane_id none start now after l h =
      absurd (let bad = (done_elim false now after _ h).0 in cc)
  probe_absent-Proven socket_path pane_id (some probe) start now after l h =
      let (none_seen, moved) = ask_elim _ now after _ h in
      Proven.no_process probe now l (omega (arith, moved)) refl
        (is_absent_elim (probe.presence now socket_path pane_id) none_seen)

  pub pane_gone-Proven :
      (socket_path pane_id : String) (processes : Option ProcessProbe) (now after : ℕ)
      → replaced_server_pane_gone sha256_hex world socket_path pane_id processes now ≡ (true, after)
      → Proven socket_path pane_id processes now after
  unfolding replaced_server_pane_gone either gui_exited
  pane_gone-Proven socket_path pane_id processes now after h = look_elim _ _ now after _ h (
      Bool-each _
        (λ k hq h.
          let (quits, moved) = ask_elim _ now k _ hq in
          let (_, ends) = done_elim _ k after _ h in
          Proven.quit now (omega arith) (omega (arith, moved, ends)) quits)
        (λ k hq h.
          let (_, moved) = ask_elim _ now k _ hq in
          probe_absent-Proven socket_path pane_id processes now k after (omega (arith, moved)) h))

  pub Proven-wider :
      (socket_path pane_id : String) (processes : Option ProcessProbe) (start start' end end' : ℕ)
      → start' ≤ start
      → end ≤ end'
      → Proven socket_path pane_id processes start end
      → Proven socket_path pane_id processes start' end'
  Proven-wider s p procs start start' end end' l m (Proven.quit k a b q) =
      Proven.quit k (omega arith) (omega arith) q
  Proven-wider s p procs start start' end end' l m (Proven.no_process probe k a b e q) =
      Proven.no_process probe k (omega arith) (omega arith) e q

  pub Proven-bounds :
      (socket_path pane_id : String) (processes : Option ProcessProbe) (start end : ℕ)
      → Proven socket_path pane_id processes start end
      → start < end
  Proven-bounds s p procs start end (Proven.quit k a b q) = omega arith
  Proven-bounds s p procs start end (Proven.no_process probe k a b e q) = omega arith
