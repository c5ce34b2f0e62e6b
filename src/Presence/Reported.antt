-- ===== src/Presence/Reported.antt =====
-- src/presence.rs: the diagnostics that come with what a reader reports of a pane.
use mathlib.Core.List.{append-nil}
use wezterm_attention.Prelude.{
  ℕ, ◌≤◌, ◌≡◌, refl, sym, ap, ◌∙◌, Bool, true, false, String, List, [], ◌∷◌, ◌++◌, Option, none,
  some, subst, arith, if◌then◌else◌, length,
}
use wezterm_attention.Protocol.{Diagnostic, ok}
use wezterm_attention.Identity.{PaneAddress}
use wezterm_attention.Wezterm.Panes.{Presence}
use wezterm_attention.Presence.{
  PanePresence, PaneEvidence, SocketChange, ServerState, World, PaneLister, ProcessProbe, Look,
  done, ◌>>=◌, kept_history_code, change_diagnostic, server_state, evidence_unless_current,
}
use wezterm_attention.Presence.Pane.{
  Answer, observed, lists_pane, unlisted_answer, probe_presence, refused_answer, refused_diagnostic,
  unlisted_socket, presence_at_socket, settled, evidence_at, recorded_socket, pane_evidence, report,
  reader_presence, truncate,
}
use wezterm_attention.Presence.Looks.{
  Bool-each, Result-each, Server-each, State-each, Seen-each, Option-each, look_elim, done_elim,
}
use wezterm_attention.Presence.Absent.{Absence}
use wezterm_attention.Presence.Verified.{evidence_at-gone}

-- What a computation of looks returns, whatever the looks find.
Always {ℓ κ} : {A : Type ℓ} → (A → Type κ) → Look A → Type κ
Always P m = (now : ℕ) → P (m now).0

Always-done {ℓ κ} : {A : Type ℓ} (P : A → Type κ) (a : A) → P a → Always P (done a)
unfolding Always done
Always-done P a h now = h

Always-bind {ℓ κ μ ν} :
    {A : Type ℓ} {B : Type κ} (P : A → Type μ) (Q : B → Type ν) (m : Look A) (f : A → Look B)
    → Always P m
    → ((a : A) → P a → Always Q (f a))
    → Always Q (m >>= f)
unfolding Always ◌>>=◌
Always-bind P Q m f hm hf now = hf (m now).0 (hm now) (m now).1

-- A branch on what any look found.
Always-after {ℓ κ μ} :
    {A : Type ℓ} {B : Type κ} (Q : B → Type μ) (m : Look A) (f : A → Look B)
    → ((a : A) → Always Q (f a))
    → Always Q (m >>= f)
unfolding Always ◌>>=◌
Always-after Q m f h now = h (m now).0 (m now).1

-- The diagnostics that evidence comes with.
abbrev Fits : PaneEvidence → List Diagnostic → Type 0
Fits (PaneEvidence.observed PanePresence.present) added = added ≡ []
Fits (PaneEvidence.observed PanePresence.verified_absent) added = added ≡ []
Fits (PaneEvidence.observed PanePresence.unavailable) added = length added ≤ 1
Fits (PaneEvidence.kept_history d) added = (added ≡ []) × (kept_history_code d.code ≡ true)

abbrev Adds : List Diagnostic → Answer → Type 0
Adds ds (evidence, ds') = (added : List Diagnostic) × (ds' ≡ ds ++ added) × Fits evidence added

-- The server's state lets the caller look on and adds nothing, or is evidence of its own.
abbrev Settles : List Diagnostic → Option PaneEvidence × List Diagnostic → Type 0
Settles ds (none, ds') = ds' ≡ ds
Settles ds (some e, ds') = Adds ds (e, ds')

nothing_added : (ds : List Diagnostic) → ds ≡ ds ++ []
nothing_added ds = sym (append-nil ds)

truncate-append {ℓ} : {A : Type ℓ} (xs ys : List A) → truncate (length xs) (xs ++ ys) ≡ xs
truncate-append [] ys = refl
truncate-append (x ∷ xs) ys = ap (◌∷◌ x) (truncate-append xs ys)

change_kept : (c : SocketChange) → kept_history_code (change_diagnostic c).code ≡ true
unfolding kept_history_code change_diagnostic
change_kept SocketChange.gone = refl
change_kept SocketChange.identity_changed = refl

settled-Adds :
    (ds : List Diagnostic) (seen : Answer) (again : Option PaneEvidence × List Diagnostic)
    → Adds ds seen
    → Settles [] again
    → Adds ds (settled seen (length ds) again)
unfolding settled
settled-Adds ds (evidence, diagnostics) (none, found) h k = h
settled-Adds ds (evidence, diagnostics) (some state, found) (added, e, fits) (more, e', fits') = (
  found,
  ap (λ l. l ++ found) (ap (truncate (length ds)) e ∙ truncate-append ds added),
  subst (Fits state) (sym e') fits',
)

unlisted-Adds :
    (ds : List Diagnostic) (found : Option Presence) → Adds ds (unlisted_answer ds found)
unfolding unlisted_answer
unlisted-Adds ds none = (_, refl, omega arith)
unlisted-Adds ds (some Presence.present) = ([], nothing_added ds, refl)
unlisted-Adds ds (some Presence.absent) = ([], nothing_added ds, refl)
unlisted-Adds ds (some Presence.unseen) = ([], nothing_added ds, refl)
unlisted-Adds ds (some Presence.unavailable) = (_, refl, omega arith)

refused_kept : kept_history_code refused_diagnostic.code ≡ true
unfolding kept_history_code
refused_kept = refl

-- A server whose records are kept history says what became of its socket.
abbrev Kept : ServerState → Type 0
Kept (ServerState.kept_history d) = kept_history_code d.code ≡ true
Kept ServerState.current = Unit
Kept ServerState.exited = Unit
Kept (ServerState.unreadable e) = Unit

-- What is reported of a pane, with what it adds to the diagnostics.
abbrev ReportFits : PanePresence → Bool → List Diagnostic → Type 0
ReportFits PanePresence.present false added = added ≡ []
ReportFits PanePresence.present true added = ⊥
ReportFits PanePresence.verified_absent false added = added ≡ []
ReportFits PanePresence.verified_absent true added = ⊥
ReportFits PanePresence.unavailable false added = length added ≤ 1
ReportFits PanePresence.unavailable true added =
    (d : Diagnostic) × (added ≡ d ∷ []) × (kept_history_code d.code ≡ true)

abbrev pub Reports : List Diagnostic → (PanePresence × Bool) × List Diagnostic → Type 0
Reports ds ((presence, kept), ds') =
    (added : List Diagnostic) × (ds' ≡ ds ++ added) × ReportFits presence kept added

report-Reports :
    (ds : List Diagnostic) (answer : Answer) → Adds ds answer → Reports ds (report answer)
unfolding report
report-Reports ds (PaneEvidence.observed PanePresence.present, ds') h = h
report-Reports ds (PaneEvidence.observed PanePresence.verified_absent, ds') h = h
report-Reports ds (PaneEvidence.observed PanePresence.unavailable, ds') h = h
report-Reports ds (PaneEvidence.kept_history d, ds') (added, e, (empty, kept)) =
    (d ∷ [], ap (λ l. l ++ (d ∷ [])) (e ∙ ap (λ a. ds ++ a) empty ∙ append-nil ds), (d, refl, kept))

module _ (sha256_hex : List ℕ → String) (world : World) where
  unless_current-Settles :
      (socket_path : String) (address : PaneAddress) (processes : Option ProcessProbe)
      (ds : List Diagnostic)
      → Always
          (Settles ds)
          (evidence_unless_current sha256_hex world socket_path address processes ds)
  unfolding evidence_unless_current server_state
  unless_current-Settles socket_path address processes ds =
      Always-bind Kept _ _ _
        (Always-after _ _ _ (
          Server-each _ (Always-done _ _ tt)
            (λ c.
              Always-after _ _ _
                (Bool-each _ (Always-done _ _ tt) (Always-done _ _ (change_kept c))))
            (λ e. Always-done _ _ tt)))
        (State-each _ (λ _. Always-done _ _ refl)
          (λ _. Always-done _ _ ([], nothing_added ds, refl))
          (λ d kept. Always-done _ _ ([], nothing_added ds, (refl, kept)))
          (λ e _. Always-done _ _ (_, refl, omega arith)))

  presence_at-Adds :
      (socket_path : String) (address : PaneAddress) (lister : PaneLister)
      (processes : Option ProcessProbe) (ds : List Diagnostic)
      → Always
          (Adds ds)
          (presence_at_socket sha256_hex world socket_path address (some lister) processes ds)
  unfolding presence_at_socket unlisted_socket refused_answer
  presence_at-Adds socket_path address lister processes ds = Always-after _ _ _ (
      Result-each _
        (λ rows.
          Bool-each
            (λ b. Always (Adds ds) (
              if b
              then done (observed PanePresence.present, ds)
              else probe_presence socket_path address.pane_id processes
                >>= (λ presence. done (unlisted_answer ds presence))))
            (Always-done _ _ ([], nothing_added ds, refl))
            (Always-after _ _ _ (λ found. Always-done _ _ (unlisted-Adds ds found)))
            (lists_pane address.pane_id rows))
        (λ e. Always-after _ _ _ (
          Bool-each _ (Always-done _ _ ([], nothing_added ds, refl)) (
            Always-after _ _ _ (
              Bool-each _
                (Always-after _ _ _ (
                  Bool-each _ (Always-done _ _ ([], nothing_added ds, refl))
                    (Always-done _ _ ([], nothing_added ds, (refl, refused_kept)))))
                (Always-done _ _ (_, refl, omega arith)))))))

  evidence_at-Adds :
      (socket_path : String) (address : PaneAddress) (lister : PaneLister)
      (processes : Option ProcessProbe) (ds : List Diagnostic)
      → Always (Adds ds) (evidence_at sha256_hex world socket_path address lister processes ds)
  unfolding evidence_at
  evidence_at-Adds socket_path address lister processes ds =
      Always-bind (Settles ds) _ _ _ (unless_current-Settles socket_path address processes ds) (
        Seen-each _
          (λ noted same.
            Always-bind (Adds noted) _ _ _
              (presence_at-Adds socket_path address lister processes noted)
              (λ seen h.
                Always-bind (Settles []) _ _ _
                  (unless_current-Settles socket_path address processes [])
                  (λ again k. Always-done _ _ (
                    subst (λ l. Adds l (settled seen (length noted) again)) same
                      (settled-Adds noted seen again h k)))))
          (λ e noted h. Always-done _ _ h))

  pane_evidence-Adds :
      (address : PaneAddress) (panes : Option PaneLister) (processes : Option ProcessProbe)
      (ds : List Diagnostic)
      → Always (Adds ds) (pane_evidence sha256_hex world address panes processes ds)
  unfolding pane_evidence
  pane_evidence-Adds address none processes ds = Always-done _ _ ([], nothing_added ds, omega arith)
  pane_evidence-Adds address (some lister) processes ds = Always-after _ _ _ (
      Result-each _
        (Option-each _ (Always-done _ _ ([], nothing_added ds, omega arith))
          (λ socket_path. evidence_at-Adds socket_path address lister processes ds))
        (λ e. Always-done _ _ (_, refl, omega arith)))

  -- What a reader reports decides what it adds to the diagnostics: a pane that is present or verified
  -- absent comes with none, one whose records are kept as history is unavailable and comes with one
  -- diagnostic that says what became of its socket, and any other one that is unavailable comes with
  -- one at most.
  pub reader_presence-Reports :
      (address : PaneAddress) (panes : Option PaneLister) (processes : Option ProcessProbe)
      (ds : List Diagnostic) (now : ℕ)
      → Reports ds (reader_presence sha256_hex world address panes processes ds now).0
  unfolding reader_presence Always
  reader_presence-Reports address panes processes ds now =
      Always-bind (Adds ds) (Reports ds) _ _ (pane_evidence-Adds address panes processes ds)
        (λ answer h. Always-done (Reports ds) (report answer) (report-Reports ds answer h)) now

  -- A pane is reported as verified absent only with a proof, found between the reading of its
  -- recorded socket and the answer: its recorded server was found replaced and, at a later moment,
  -- its GUI had exited or every process had been read and none carried the pane; or a look at the
  -- socket showed the pane gone and, at a later moment, the socket still belonged to the recorded
  -- server. The server was replaced where another socket is at the path, or its identity is not read
  -- and no file is at the path or the file there is no socket of the user or has no path in UTF-8; a
  -- socket that cannot be read proves nothing. The look is a listing without the pane that the process
  -- probe did not contradict, a GUI that had exited, or a refusing listener with the first proof.
  pub pane_evidence-Absence :
      (address : PaneAddress) (panes : Option PaneLister) (processes : Option ProcessProbe)
      (ds ds' : List Diagnostic) (now after : ℕ)
      → pane_evidence sha256_hex world address panes processes ds now
        ≡ ((observed PanePresence.verified_absent, ds'), after)
      → (lister : PaneLister) × (socket_path : String) × (k : ℕ) × (panes ≡ some lister)
        × (recorded_socket sha256_hex world address.realm_id address.incarnation_id now
            ≡ (ok (some socket_path), k))
        × Absence sha256_hex world socket_path address lister processes k after
  unfolding pane_evidence
  pane_evidence-Absence address none processes ds ds' now after h =
      absurd (let bad = ap (λ p. p.0) (done_elim _ now after _ h).0 in cc)
  pane_evidence-Absence address (some lister) processes ds ds' now after h =
      look_elim _ _ now after _ h (
        Result-each _
          (Option-each _
            (λ k hk h. absurd (let bad = ap (λ p. p.0) (done_elim _ k after _ h).0 in cc))
            (λ socket_path k hk h. (
              lister,
              socket_path,
              k,
              refl,
              hk,
              evidence_at-gone sha256_hex world socket_path address lister processes ds ds' k after
                  h,
            )))
          (λ e k hk h. absurd (let bad = ap (λ p. p.0) (done_elim _ k after _ h).0 in cc)))
