-- ===== src/Presence/Verified.antt =====
-- src/presence.rs: the looks behind a pane that `pane_evidence` calls verified absent.
use wezterm_attention.Prelude.{
  ℕ, suc, ◌≤◌, ◌<◌, ◌≡◌, refl, ap, ◌∙◌, ◌⊎◌, inl, inr, true, String, List, [], Option, none, some,
  arith, if◌then◌else◌, Bool-cases, length, subst,
}
use wezterm_attention.Protocol.{Diagnostic, AttentionError, ok}
use wezterm_attention.Identity.{PaneAddress}
use wezterm_attention.Wezterm.Panes.{PaneRow, Presence}
use wezterm_attention.Presence.{
  PanePresence, World, PaneLister, ProcessProbe, ask, done, ◌>>=◌, both, gui_exited,
  evidence_unless_current,
}
use wezterm_attention.Presence.Pane.{
  observed, lists_pane, unlisted_answer, probe_presence, still_current, refused_answer,
  unlisted_socket, presence_at_socket, settled, evidence_at,
}
use wezterm_attention.Presence.Looks.{
  Seen-each, Bool-each, Result-each, Server-each, look_elim, ask_elim, done_elim, Forward-ends,
  unless_current-Forward, quit-Forward, presence_at-Forward,
}
use wezterm_attention.Presence.Gone.{
  Carries, Proven, both_elim, recorded_server-current, pane_gone-Proven, Proven-wider,
  Proven-bounds,
}
use wezterm_attention.Presence.Absent.{
  verified_absent, ServerGone, LookGone, Absence, unless_current-none, unless_current-absent,
}

unlisted-absent :
    (ds ds' : List Diagnostic) (found : Option Presence)
    → unlisted_answer ds found ≡ (verified_absent, ds')
    → (found ≡ some Presence.absent) ⊎ (found ≡ some Presence.unseen)
unfolding unlisted_answer
unlisted-absent ds ds' none h = absurd (let bad = ap (λ p. p.0) h in cc)
unlisted-absent ds ds' (some Presence.present) h = absurd (let bad = ap (λ p. p.0) h in cc)
unlisted-absent ds ds' (some Presence.absent) h = inl refl
unlisted-absent ds ds' (some Presence.unseen) h = inr refl
unlisted-absent ds ds' (some Presence.unavailable) h = absurd (let bad = ap (λ p. p.0) h in cc)

module _ (sha256_hex : List ℕ → String) (world : World) where
  still_current-Carries :
      (socket_path : String) (address : PaneAddress) (now after : ℕ)
      → still_current sha256_hex world socket_path address now ≡ (true, after)
      → Carries sha256_hex world socket_path address now × (now < after)
  unfolding still_current
  still_current-Carries socket_path address now after h = look_elim _ _ now after _ h (
      Server-each _
        (λ k hk h.
          let (there, moved) =
            recorded_server-current sha256_hex world socket_path address now k hk in
          (there, omega (arith, moved, (done_elim _ k after _ h).1)))
        (λ c k hk h. absurd (let bad = (done_elim _ k after _ h).0 in cc))
        (λ e k hk h. absurd (let bad = (done_elim _ k after _ h).0 in cc)))

  probe_presence_elim :
      (socket_path pane_id : String) (processes : Option ProcessProbe) (found : Presence)
      (now after : ℕ)
      → probe_presence socket_path pane_id processes now ≡ (some found, after)
      → (probe : ProcessProbe) × (processes ≡ some probe)
        × (probe.presence now socket_path pane_id ≡ found)
        × (now < after)
  unfolding probe_presence
  probe_presence_elim socket_path pane_id none found now after h =
      absurd (let bad = (done_elim _ now after _ h).0 in cc)
  probe_presence_elim socket_path pane_id (some probe) found now after h =
      let (seen, moved) = ask_elim _ now after _ h in
      (probe, refl, ground arith, omega (arith, moved))

  module _ (socket_path : String) (address : PaneAddress) (lister : PaneLister)
      (processes : Option ProcessProbe) where
    refused-gone :
        (ds ds' : List Diagnostic) (now after : ℕ)
        → refused_answer sha256_hex world socket_path address.pane_id processes ds now
          ≡ ((verified_absent, ds'), after)
        → Proven sha256_hex world socket_path address.pane_id processes now after
    unfolding refused_answer
    refused-gone ds ds' now after h = look_elim _ _ now after _ h (
        Bool-each _
          (λ k hk h.
            subst (Proven sha256_hex world socket_path address.pane_id processes now)
              (done_elim _ k after _ h).1
              (pane_gone-Proven sha256_hex world socket_path address.pane_id processes now k hk))
          (λ k hk h. absurd (let bad = ap (λ p. p.0) (done_elim _ k after _ h).0 in cc)))

    unlisted_socket-gone :
        (e : AttentionError) (ds ds' : List Diagnostic) (start now after : ℕ)
        → start ≤ now
        → unlisted_socket sha256_hex world lister socket_path address processes e ds now
          ≡ ((verified_absent, ds'), after)
        → LookGone sha256_hex world socket_path address lister processes start after
    unfolding unlisted_socket gui_exited
    unlisted_socket-gone e ds ds' start now after l h = look_elim _ _ now after _ h (
        Bool-each _
          (λ k hk h.
            let (i, hq, hc) = both_elim sha256_hex world _ _ now k hk in
            let (quits, moved) = ask_elim _ now i _ hq in
            let (there, later) = still_current-Carries socket_path address i k hc in
            let ends = (done_elim _ k after _ h).1 in
            LookGone.gui_quit now i l (omega (arith, moved)) (omega (arith, later, ends)) quits
              there)
          (λ k hk h. look_elim _ _ k after _ h (
            Bool-each _
              (λ j hj h.
                let (i, hr, hc) = both_elim sha256_hex world _ _ k j hj in
                let (refuses, moved) = ask_elim _ k i _ hr in
                let (there, later) = still_current-Carries socket_path address i j hc in
                let from_k =
                  Forward-ends
                    (both (gui_exited sha256_hex world socket_path)
                      (still_current sha256_hex world socket_path address))
                    now k _ (quit-Forward sha256_hex world socket_path address) hk in
                let proof = refused-gone ds ds' j after h in
                let ends =
                  Proven-bounds sha256_hex world socket_path address.pane_id processes j after
                    proof in
                LookGone.refused k i (omega (arith, l, from_k)) (omega (arith, moved))
                  (omega (arith, later, ends)) refuses there
                  (Proven-wider sha256_hex world socket_path address.pane_id processes j (suc i)
                    after after later (omega arith) proof))
              (λ j hj h. absurd (let bad = ap (λ p. p.0) (done_elim _ j after _ h).0 in cc)))))

    rows-gone :
        (ds ds' : List Diagnostic) (rows : List PaneRow) (now k after : ℕ)
        → ask (λ at. lister.list at socket_path) now ≡ (ok rows, k)
        → (if lists_pane address.pane_id rows
              then done (observed PanePresence.present, ds)
              else probe_presence socket_path address.pane_id processes
                >>= (λ presence. done (unlisted_answer ds presence)))
            k
          ≡ ((verified_absent, ds'), after)
        → LookGone sha256_hex world socket_path address lister processes now after
    rows-gone ds ds' rows now k after hk h = elim (Bool-cases (lists_pane address.pane_id rows)) [
      | inl listed ↦
          absurd (let bad = ap (λ p. p.0) (done_elim _ k after _ (rw listed at h)).0 in cc)
      | inr unnamed ↦
          let (lists, moved) = ask_elim _ now k _ hk in
          look_elim _ _ k after _ (rw unnamed at h) (λ found j hj h.
            let (answers, ends) = done_elim _ j after _ h in
            let seen = unlisted-absent ds ds' found answers in
            let gone : (p : Presence)
                → found ≡ some p
                → (p ≡ Presence.absent) ⊎ (p ≡ Presence.unseen)
                → LookGone sha256_hex world socket_path address lister processes now after =
              λ p e which.
                let (probe, is, shows, later) =
                  probe_presence_elim socket_path address.pane_id processes p k j (rw e at hj) in
                LookGone.unlisted probe rows now k (omega arith) (omega (arith, moved))
                  (omega (arith, later, ends)) lists unnamed is
                  (elim which [ inl x ↦ inl (shows ∙ x) | inr x ↦ inr (shows ∙ x) ]) in
            elim seen [ inl e ↦ gone _ e (inl refl) | inr e ↦ gone _ e (inr refl) ])
    ]

    presence_at-gone :
        (ds ds' : List Diagnostic) (now after : ℕ)
        → presence_at_socket sha256_hex world socket_path address (some lister) processes ds now
          ≡ ((verified_absent, ds'), after)
        → LookGone sha256_hex world socket_path address lister processes now after
    unfolding presence_at_socket
    presence_at-gone ds ds' now after h = look_elim _ _ now after _ h (
        Result-each _ (λ rows k hk h. rows-gone ds ds' rows now k after hk h)
          (λ e k hk h.
            let (_, moved) = ask_elim _ now k _ hk in
            unlisted_socket-gone e ds ds' now k after (omega (arith, moved)) h))

    LookGone-sooner :
        (start end start' : ℕ)
        → start' ≤ start
        → LookGone sha256_hex world socket_path address lister processes start end
        → LookGone sha256_hex world socket_path address lister processes start' end
    LookGone-sooner start end start' l (LookGone.unlisted probe rows k j a b c x y z w) =
        LookGone.unlisted probe rows k j (omega arith) b c x y z w
    LookGone-sooner start end start' l (LookGone.gui_quit k j a b c x y) =
        LookGone.gui_quit k j (omega arith) b c x y
    LookGone-sooner start end start' l (LookGone.refused k j a b c x y z) =
        LookGone.refused k j (omega arith) b c x y z

    ServerGone-wider :
        (start end start' end' : ℕ)
        → start' ≤ start
        → end ≤ end'
        → ServerGone sha256_hex world socket_path address processes start end
        → ServerGone sha256_hex world socket_path address processes start' end'
    ServerGone-wider start end start' end' l m gone = record {
      lost = gone.lost;
      from_start = omega (arith, gone.from_start);
      replaced = gone.replaced;
      not_carried = gone.not_carried;
      proof =
          Proven-wider sha256_hex world socket_path address.pane_id processes (suc gone.lost)
            (suc gone.lost) end end' (omega arith) m gone.proof;
    }

    first-gone :
        (ds noted ds' : List Diagnostic) (now k after : ℕ)
        → now ≤ k
        → (presence_at_socket sha256_hex world socket_path address (some lister) processes noted
              >>= (λ seen.
                  evidence_unless_current sha256_hex world socket_path address processes []
                  >>= (λ again. done (settled seen (length noted) again))))
            k
          ≡ ((verified_absent, ds'), after)
        → Absence sha256_hex world socket_path address lister processes now after
    unfolding settled
    first-gone ds noted ds' now k after l h = look_elim _ _ k after _ h (λ seen j hj h.
        look_elim _ _ j after _ h (
          Seen-each _
            (λ fresh i hi h.
              let (answer, ends) = done_elim _ i after _ h in
              let (there, later) =
                unless_current-none sha256_hex world socket_path address processes [] fresh j i
                  hi in
              Absence.looked_gone j (omega (arith, later, ends))
                (LookGone-sooner k j now l
                  (presence_at-gone noted ds' k j (hj ∙ ap (λ a. (a, j)) answer)))
                there)
            (λ state fresh i hi h.
              let (answer, ends) = done_elim _ i after _ h in
              let which : state ≡ verified_absent = ap (λ a. a.0) answer in
              let fresh_state = hi ∙ ap (λ e. ((some e, fresh), i)) which in
              let gone =
                unless_current-absent sha256_hex world socket_path address processes [] fresh j i
                  fresh_state in
              let looked =
                Forward-ends
                  (presence_at_socket sha256_hex world socket_path address (some lister) processes
                    noted)
                  k j _
                  (presence_at-Forward sha256_hex world socket_path address lister processes noted)
                  hj in
              Absence.server_gone (
                ServerGone-wider j i now after (omega (arith, l, looked)) (omega (arith, ends))
                  gone))))

    pub evidence_at-gone :
        (ds ds' : List Diagnostic) (now after : ℕ)
        → evidence_at sha256_hex world socket_path address lister processes ds now
          ≡ ((verified_absent, ds'), after)
        → Absence sha256_hex world socket_path address lister processes now after
    unfolding evidence_at
    evidence_at-gone ds ds' now after h = look_elim _ _ now after _ h (
        Seen-each _
          (λ noted k hk h.
            let earlier =
              Forward-ends
                (evidence_unless_current sha256_hex world socket_path address processes ds) now k _
                (unless_current-Forward sha256_hex world socket_path address processes ds) hk in
            first-gone ds noted ds' now k after earlier h)
          (λ e noted k hk h.
            let (answer, ends) = done_elim _ k after _ h in
            let which : e ≡ verified_absent = ap (λ a. a.0) answer in
            let first_state = hk ∙ ap (λ e. ((some e, noted), k)) which in
            let gone =
              unless_current-absent sha256_hex world socket_path address processes ds noted now k
                first_state in
            Absence.server_gone
              (ServerGone-wider now k now after (omega arith) (omega (arith, ends)) gone)))
