-- ===== src/Host/Record.antt =====
-- src/host.rs: the host record over the hooks that prove a host.
use wezterm_attention.Prelude.{
  ℕ, ◌≡◌, ◌≢◌, refl, ap, subst, true, false, String, Option, some, unwrap_or, str_eq, eq_refl, inl,
  inr, Bool-cases,
}
use wezterm_attention.Prelude.Json.{
  Value, get, find_member-insert_member_self, find_member-insert_member_ne,
}
use wezterm_attention.Protocol.{◌>>=◌, Result, ok, err, Manifest}
use wezterm_attention.Wezterm.{ProcessInspector}
use wezterm_attention.Owner.{
  ClaimOwner, owner_eq, OwnerRead, claim_owner, write_into, claim_mode, mode_of_owner, HostProof,
  owns, set_field, OwnerState, owner_state,
}
use wezterm_attention.Owner.RoundTrip.{
  IsProcess, owner_eq_refl, write_into-other, claim_owner-write_into,
}
use wezterm_attention.Host.{
  after_state, BindingRef, is_contested, host_members, host_record, recorded_host, owned,
  marked_record,
}

-- The same fields but for the mark that a second process contests the record.
abbrev pub Agrees : Value → Value → Type 0
Agrees v w = (j : String) → str_eq "contested_at_unix_ns" j ≡ false → get v j ≡ get w j

pub set_field-Agrees : (v mark : Value) → Agrees (set_field v "contested_at_unix_ns" mark) v
set_field-Agrees (Value.object ms) mark j h =
    find_member-insert_member_ne ms "contested_at_unix_ns" j mark h
set_field-Agrees Value.null mark j h = rw h
set_field-Agrees (Value.array vs) mark j h = refl
set_field-Agrees (Value.string s) mark j h = refl
set_field-Agrees (Value.number n) mark j h = refl
set_field-Agrees (Value.boolean b) mark j h = refl

pub claim_owner-Agrees : (v w : Value) → Agrees v w → claim_owner v ≡ claim_owner w
unfolding claim_owner
claim_owner-Agrees v w h =
    rw
      (
        h "owner_pid" refl,
        h "owner_started_sec" refl,
        h "owner_started_usec" refl,
        h "owner_boot_session_id" refl,
      )
      refl

pub claim_mode-Agrees : (v w : Value) → Agrees v w → claim_mode v ≡ claim_mode w
unfolding claim_mode
claim_mode-Agrees v w h = ap mode_of_owner (claim_owner-Agrees v w h)

pub owns-Agrees : (proof : HostProof) (v w : Value) → Agrees v w → owns proof v ≡ owns proof w
unfolding owns
owns-Agrees proof v w h =
    rw (claim_mode-Agrees v w h, h "tty_path" refl, h "tty_fingerprint" refl) refl

-- Only an object names an owner, and a mark on an object is found.
pub mark_found :
    (v mark : Value) (o : ClaimOwner)
    → claim_owner v ≡ OwnerRead.named o
    → is_contested (set_field v "contested_at_unix_ns" mark) ≡ true
unfolding claim_owner is_contested
mark_found (Value.object ms) mark o h =
    rw (find_member-insert_member_self ms "contested_at_unix_ns" mark) refl
mark_found Value.null mark o h = absurd cc
mark_found (Value.array vs) mark o h = absurd cc
mark_found (Value.string s) mark o h = absurd cc
mark_found (Value.number n) mark o h = absurd cc
mark_found (Value.boolean b) mark o h = absurd cc

-- What holds of the record written under each schema holds of a record that was written.
host_record_cases :
    (P : Value → Type 0) (manifest : Result Manifest) (proof : HostProof) (binding : BindingRef)
    (source_event written_at : String) (value : Value)
    → ((schema : ℕ)
        → P (
            write_into proof.owner
              (Value.object (host_members proof binding source_event written_at schema))))
    → host_record manifest proof binding source_event written_at ≡ ok value
    → P value
unfolding host_record ◌>>=◌
host_record_cases P (err f) proof binding source_event written_at value h e = absurd cc
host_record_cases P (ok m) proof binding source_event written_at value h e =
    let same : write_into proof.owner
          (Value.object (host_members proof binding source_event written_at m.record_schema))
        ≡ value =
      cc in
    subst P same (h m.record_schema)

module _ (proof : HostProof) (binding : BindingRef) (source_event written_at : String) where
  owns-written :
      (schema : ℕ)
      → IsProcess proof.owner
      → owns proof (
          write_into proof.owner
            (Value.object (host_members proof binding source_event written_at schema)))
        ≡ ok true
  unfolding owns claim_mode ◌>>=◌
  owns-written schema process =
      let ms = host_members proof binding source_event written_at schema in
      let path = write_into-other proof.owner ms "tty_path" refl refl refl refl in
      let print = write_into-other proof.owner ms "tty_fingerprint" refl refl refl refl in
      rw
        (
          ap mode_of_owner (claim_owner-write_into proof.owner ms process),
          path,
          print,
          owner_eq_refl proof.owner,
          eq_refl proof.tty_path,
          eq_refl proof.tty_fingerprint,
        )
        refl

  -- The record that a hook leaves names the host that it proved.
  pub owns-host_record :
      (manifest : Result Manifest) (value : Value)
      → IsProcess proof.owner
      → host_record manifest proof binding source_event written_at ≡ ok value
      → owns proof value ≡ ok true
  owns-host_record manifest value process e =
      host_record_cases (λ v. owns proof v ≡ ok true) manifest proof binding source_event written_at
        value (λ schema. owns-written schema process) e

-- The record stands but for the mark.
marked_record-Agrees :
    (stored : Value) (written_at : String)
    → Agrees (unwrap_or (marked_record stored written_at) stored) stored
marked_record-Agrees stored written_at = elim (Bool-cases (is_contested stored)) [
  | inl marked ↦ rw marked (λ j h. refl)
  | inr clear ↦ rw clear (set_field-Agrees stored (Value.string written_at))
]

marked_record-is_contested :
    (stored : Value) (written_at : String) (o : ClaimOwner)
    → claim_owner stored ≡ OwnerRead.named o
    → is_contested (unwrap_or (marked_record stored written_at) stored) ≡ true
marked_record-is_contested stored written_at o e = elim (Bool-cases (is_contested stored)) [
  | inl marked ↦ rw marked marked
  | inr clear ↦ rw clear (mark_found stored (Value.string written_at) o e)
]

not_owned :
    (proof : HostProof) (stored : Value) (o : ClaimOwner)
    → claim_owner stored ≡ OwnerRead.named o
    → owner_eq o proof.owner ≡ false
    → owned proof stored ≡ false
unfolding owns claim_mode ◌>>=◌
not_owned proof stored o e h = rw (ap mode_of_owner e, h) refl

module _ (manifest : Result Manifest) (proof : HostProof) (binding : BindingRef)
    (source_event written_at : String) (stored : Value) (o : ClaimOwner)
    (processes : ProcessInspector) where
  abbrev decided : Result (Option Value)
  decided = recorded_host manifest proof binding source_event written_at (some stored) processes

  not_gone :
      (s : OwnerState)
      → s ≢ OwnerState.gone
      → after_state manifest proof binding source_event written_at s stored
        ≡ ok (marked_record stored written_at)
  not_gone OwnerState.gone h = absurd (h refl)
  not_gone OwnerState.alive h = refl
  not_gone OwnerState.unknown h = refl

  pub recorded_host_marks :
      claim_owner stored ≡ OwnerRead.named o
      → owner_eq o proof.owner ≡ false
      → owner_state o processes ≢ OwnerState.gone
      → decided ≡ ok (marked_record stored written_at)
  unfolding recorded_host
  recorded_host_marks e h g =
      rw (not_owned proof stored o e h, e, h) (not_gone (owner_state o processes) g)

  -- The record of another process, one not shown to have exited, is kept: the hook changes no field
  -- of it, and leaves it marked as contested.
  pub recorded_host-kept :
      claim_owner stored ≡ OwnerRead.named o
      → owner_eq o proof.owner ≡ false
      → owner_state o processes ≢ OwnerState.gone
      → (r : Option Value) × (decided ≡ ok r)
        × Agrees (unwrap_or r stored) stored
        × (is_contested (unwrap_or r stored) ≡ true)
  recorded_host-kept e h g = (
    marked_record stored written_at,
    recorded_host_marks e h g,
    marked_record-Agrees stored written_at,
    marked_record-is_contested stored written_at o e,
  )
