-- ===== src/Host/Check/Available.antt =====
-- src/host.rs: when `inspect` vouches for a binding's host.
use wezterm_attention.Prelude.{
  ℕ, ◌≡◌, ◌≢◌, ◌↔◌, refl, ap, ◌∙◌, Bool, true, false, String, Option, some, arith, nat_eq,
  if◌then◌else◌, eq_refl,
}
use wezterm_attention.Prelude.Json.{Value, get_str}
use wezterm_attention.Protocol.{ok}
use wezterm_attention.Wezterm.{ControllingTerminal, start_eq, ProcessFacts, ProcessRead}
use wezterm_attention.Owner.{ClaimOwner, OwnerRead, claim_owner, recorded_terminal}
use wezterm_attention.Host.{is_contested}
use wezterm_attention.Host.Check.{
  HostCheckPorts, HostAvailability, HostRefusal, availability, CheckedHost, Verdict, ◌then◌,
  vouched, refused, owner_named, or_invalid, some_or, reader_found, host_found, terminal_found,
  confirm_recorded, facet_of, check_host,
}
use wezterm_attention.Host.Check.Steps.{
  then_elim, unless_inv, owner_named_inv, or_invalid_inv, some_or_inv, reader_found_inv,
  host_found_inv, terminal_found_inv, is_device_inv, is_fingerprint_inv, and_true, eq_text,
  eq_number, not_inv,
}

-- The recorded process is the one that runs now, as this user, on the recorded terminal, and no
-- other process contests the record.
pub record Stands (value : Value) (ports : HostCheckPorts) : Type 0 where
  pub owner : ClaimOwner
  pub path : String
  pub fingerprint : String
  pub source_event : String
  pub written_at : String
  pub reader : ProcessFacts
  pub process : ProcessFacts
  pub number : ℕ
  pub names_owner : claim_owner value ≡ OwnerRead.named owner
  pub names_terminal : recorded_terminal value ≡ ok (path, fingerprint)
  pub names_event : get_str value "source_event" ≡ some source_event
  pub names_time : get_str value "written_at_unix_ns" ≡ some written_at
  pub same_boot : ports.processes.boot_session ≡ some owner.boot_session_id
  pub reader_runs : ports.processes.process ports.processes.own_pid ≡ ProcessRead.found reader
  pub process_runs : ports.processes.process owner.pid ≡ ProcessRead.found process
  pub not_zombie : process.zombie ≡ false
  pub same_start : start_eq process.start owner.start ≡ true
  pub same_user : process.uid ≡ reader.uid
  pub on_terminal : process.terminal ≡ ControllingTerminal.device number
  pub same_device : ports.processes.terminal_device path ≡ some number
  pub same_fingerprint : ports.tty.fingerprint path ≡ ok fingerprint
  pub uncontested : is_contested value ≡ false

confirm_recorded-Stands :
    (value : Value) (ports : HostCheckPorts) (c : CheckedHost)
    → confirm_recorded value ports ≡ vouched c
    → Stands value ports
unfolding confirm_recorded
confirm_recorded-Stands value ports c h = then_elim _ _ _ h (λ owner e1 h1.
    then_elim _ _ _ h1 (λ (path, fingerprint) e2 h2. then_elim _ _ _ h2 (λ source_event e3 h3.
      then_elim _ _ _ h3 (λ written_at e4 h4. then_elim _ _ _ h4 (λ boot e5 h5.
        then_elim _ _ _ h5 (λ _ e6 h6. then_elim _ _ _ h6 (λ reader e7 h7.
          then_elim _ _ _ h7 (λ process e8 h8. then_elim _ _ _ h8 (λ _ e9 h9.
            then_elim _ _ _ h9 (λ number e10 h10. then_elim _ _ _ h10 (λ _ e11 h11.
              then_elim _ _ _ h11 (λ _ e12 _.
                let (start, user) = and_true _ _ (unless_inv _ _ _ e9) in
                let (at_device, print) = and_true _ _ (unless_inv _ _ _ e11) in
                let (runs, live) = host_found_inv _ _ e8 in
                record {
                  owner = owner;
                  path = path;
                  fingerprint = fingerprint;
                  source_event = source_event;
                  written_at = written_at;
                  reader = reader;
                  process = process;
                  number = number;
                  names_owner = owner_named_inv _ _ e1;
                  names_terminal = or_invalid_inv _ _ e2;
                  names_event = some_or_inv _ _ _ e3;
                  names_time = some_or_inv _ _ _ e4;
                  same_boot = some_or_inv _ _ _ e5 ∙ ap some (eq_text _ _ (unless_inv _ _ _ e6));
                  reader_runs = reader_found_inv _ _ e7;
                  process_runs = runs;
                  not_zombie = live;
                  same_start = start;
                  same_user = eq_number _ _ user;
                  on_terminal = terminal_found_inv _ _ e10;
                  same_device = is_device_inv _ _ at_device;
                  same_fingerprint = is_fingerprint_inv _ _ print;
                  uncontested = not_inv _ (unless_inv _ _ _ e12);
                }))))))))))))

-- A check that comes to an end with a host.
abbrev Passes : {A : Type 0} → Verdict A → Type 0
Passes {A} v = (a : A) × (v ≡ vouched a)

then_Passes :
    {A B : Type 0} (v : Verdict A) (f : A → Verdict B) (a : A)
    → v ≡ vouched a
    → Passes (f a)
    → Passes (v then f)
unfolding ◌then◌
then_Passes v f a e h = rw e h

nat_eq_refl : (n : ℕ) → nat_eq n n ≡ true
nat_eq_refl n = ground arith

Stands-confirm_recorded :
    (value : Value) (ports : HostCheckPorts)
    → Stands value ports
    → Passes (confirm_recorded value ports)
unfolding confirm_recorded
Stands-confirm_recorded value ports s = then_Passes _ _ s.owner (ap owner_named s.names_owner) (
    then_Passes _ _ (s.path, s.fingerprint) (ap or_invalid s.names_terminal)
      (then_Passes _ _ s.source_event (ap (some_or _) s.names_event) (
        then_Passes _ _ s.written_at (ap (some_or _) s.names_time) (
          then_Passes _ _ s.owner.boot_session_id (ap (some_or _) s.same_boot) (
            then_Passes _ _ tt (rw (eq_refl s.owner.boot_session_id) refl) (
              then_Passes _ _ s.reader (ap reader_found s.reader_runs) (
                then_Passes _ _ s.process (ap host_found s.process_runs ∙ rw s.not_zombie refl) (
                  then_Passes _ _ tt (rw (s.same_start, s.same_user, nat_eq_refl s.reader.uid) refl)
                    (then_Passes _ _ s.number (ap terminal_found s.on_terminal) (
                      then_Passes _ _ tt
                        (rw
                          (
                            s.same_device,
                            s.same_fingerprint,
                            nat_eq_refl s.number,
                            eq_refl s.fingerprint,
                          )
                          refl)
                        (then_Passes _ _ tt (rw s.uncontested refl) ((_, refl)))))))))))))

-- What a check that vouches for a host has found.
pub record Vouches (stored : Verdict Value) (pane_gone : Bool) (ports : Option HostCheckPorts)
    : Type 0 where
  pub given : HostCheckPorts
  pub value : Value
  pub has_ports : ports ≡ some given
  pub supported : given.processes.self_claim_supported ≡ true
  pub is_stored : stored ≡ vouched value
  pub pane_runs : pane_gone ≡ false
  pub stands : Stands value given

-- No refusal is available.
not_available : (reason : HostRefusal) → availability reason ≢ HostAvailability.available
unfolding availability
not_available HostRefusal.none_recorded h = cc
not_available HostRefusal.scope_not_matched h = cc
not_available HostRefusal.binding_ended h = cc
not_available HostRefusal.host_exited h = cc
not_available HostRefusal.host_replaced h = cc
not_available HostRefusal.boot_changed h = cc
not_available HostRefusal.terminal_changed h = cc
not_available HostRefusal.host_contested h = cc
not_available HostRefusal.probe_unavailable h = cc
not_available HostRefusal.record_invalid h = cc
not_available HostRefusal.platform_unsupported h = cc

facet_of-available :
    (checked_at : Option String) (v : Verdict CheckedHost)
    → (facet_of checked_at v).availability ≡ HostAvailability.available
    → Passes v
unfolding availability
facet_of-available checked_at (vouched c) h = (c, refl)
facet_of-available checked_at (refused reason) h = absurd (not_available reason h)

-- The `host` facet is available exactly when the platform answers, a record is stored, the pane's
-- server was not shown to have exited, and the recorded process runs now: the same boot and start,
-- this user, the recorded terminal with its recorded fingerprint, and no other process contests it.
pub check_host-available_iff :
    (stored : Verdict Value) (pane_gone : Bool) (ports : Option HostCheckPorts)
    (checked_at : Option String)
    → ((check_host stored pane_gone ports checked_at).availability ≡ HostAvailability.available)
      ↔ Vouches stored pane_gone ports
unfolding check_host
check_host-available_iff stored pane_gone ports checked_at = (
  λ h.
      let (c, passes) = facet_of-available checked_at _ h in
      then_elim _ _ _ passes (λ given e1 h1. then_elim _ _ _ h1 (λ _ e2 h2.
        then_elim _ _ _ h2 (λ value e3 h3. then_elim _ _ _ h3 (λ _ e4 h4. record {
          given = given;
          value = value;
          has_ports = some_or_inv _ _ _ e1;
          supported = unless_inv _ _ _ e2;
          is_stored = e3;
          pane_runs = not_inv _ (unless_inv _ _ _ e4);
          stands = confirm_recorded-Stands value given c h4;
        })))),
  λ v.
      let (c, passes) = then_Passes _ _ v.given (ap (some_or _) v.has_ports) (
        then_Passes _ _ tt (rw v.supported refl) (
          then_Passes _ _ v.value v.is_stored (
            then_Passes _ _ tt (rw v.pane_runs refl)
              (Stands-confirm_recorded v.value v.given v.stands)))) in
      ap (λ w. (facet_of checked_at w).availability) passes,
)
