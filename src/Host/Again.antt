-- ===== src/Host/Again.antt =====
-- src/host.rs: a hook that proves a recorded host again.
use wezterm_attention.Prelude.{
  ◌≡◌, ◌≢◌, refl, ap, ◌∙◌, true, false, String, Option, none, some, inl, inr, Bool-cases,
}
use wezterm_attention.Prelude.Json.{Value, get}
use wezterm_attention.Protocol.{Result, ok, err, ◌>>=◌, Manifest}
use wezterm_attention.Wezterm.{ProcessInspector}
use wezterm_attention.Owner.{
  ClaimOwner, owner_eq, OwnerRead, claim_owner, HostProof, set_field, OwnerState, owner_state,
}
use wezterm_attention.Owner.RoundTrip.{IsProcess}
use wezterm_attention.Host.{
  after_state, after_owner, with_mark, BindingRef, is_contested, host_record, recorded_host, owned,
  is_ok_true, marked_record,
}
use wezterm_attention.Host.Record.{
  Agrees, set_field-Agrees, claim_owner-Agrees, owns-Agrees, mark_found, owns-host_record,
  recorded_host_marks,
}

-- How a hook may leave a record: the host it proved, with the mark of the record before it or
-- none; or the record of another process, now marked.
data Left (manifest : Result Manifest) (proof : HostProof) (binding : BindingRef)
    (source_event written_at : String) (processes : ProcessInspector) (r : Value) : Type 0 where
  proved :
      (contested : Option Value) (v : Value)
      → host_record manifest proof binding source_event written_at ≡ ok v
      → r ≡ with_mark contested v
      → Left manifest proof binding source_event written_at processes r
  marked :
      (stored : Value) (o : ClaimOwner)
      → claim_owner stored ≡ OwnerRead.named o
      → owner_eq o proof.owner ≡ false
      → owner_state o processes ≢ OwnerState.gone
      → r ≡ set_field stored "contested_at_unix_ns" (Value.string written_at)
      → Left manifest proof binding source_event written_at processes r

module _ (manifest : Result Manifest) (proof : HostProof) (binding : BindingRef)
    (source_event written_at : String) (processes : ProcessInspector) (r : Value) where
  abbrev LeftHere : Type 0
  LeftHere = Left manifest proof binding source_event written_at processes r

  proved_left :
      (contested : Option Value) (written : Result Value)
      → host_record manifest proof binding source_event written_at ≡ written
      → (written >>= (λ v. ok (some (with_mark contested v)))) ≡ ok (some r)
      → LeftHere
  unfolding ◌>>=◌
  proved_left contested (err f) e h = absurd cc
  proved_left contested (ok v) e h = Left.proved contested v e cc

  marked_left :
      (stored : Value) (o : ClaimOwner)
      → claim_owner stored ≡ OwnerRead.named o
      → owner_eq o proof.owner ≡ false
      → owner_state o processes ≢ OwnerState.gone
      → marked_record stored written_at ≡ some r
      → LeftHere
  marked_left stored o e other g h = elim (Bool-cases (is_contested stored)) [
    | inl old ↦ absurd (let bad : none ≡ some r = (rw old at h) in cc)
    | inr clear ↦ Left.marked stored o e other g (
        let now : some (set_field stored "contested_at_unix_ns" (Value.string written_at))
            ≡ some r =
          (rw clear at h) in
        cc)
  ]

  state_left :
      (stored : Value) (o : ClaimOwner) (s : OwnerState)
      → owner_state o processes ≡ s
      → claim_owner stored ≡ OwnerRead.named o
      → owner_eq o proof.owner ≡ false
      → after_state manifest proof binding source_event written_at s stored ≡ ok (some r)
      → LeftHere
  state_left stored o OwnerState.gone es e other h = proved_left none _ refl h
  state_left stored o OwnerState.alive es e other h = marked_left stored o e other (λ g. cc) cc
  state_left stored o OwnerState.unknown es e other h = marked_left stored o e other (λ g. cc) cc

  owner_left :
      (stored : Value) (read : OwnerRead)
      → claim_owner stored ≡ read
      → after_owner manifest proof binding source_event written_at read stored processes
        ≡ ok (some r)
      → LeftHere
  owner_left stored OwnerRead.unnamed e h = proved_left none _ refl h
  owner_left stored OwnerRead.in_part e h = proved_left none _ refl h
  owner_left stored (OwnerRead.named o) e h = elim (Bool-cases (owner_eq o proof.owner)) [
    | inl same ↦ proved_left (get stored "contested_at_unix_ns") _ refl (rw same at h)
    | inr other ↦ state_left stored o _ refl e other (rw other at h)
  ]

  recorded_host_cases :
      (stored : Option Value)
      → recorded_host manifest proof binding source_event written_at stored processes ≡ ok (some r)
      → LeftHere
  unfolding recorded_host
  recorded_host_cases none h = proved_left none _ refl h
  recorded_host_cases (some stored) h = elim (Bool-cases (owned proof stored)) [
    | inl mine ↦ absurd (let bad : ok none ≡ ok (some r) = (rw mine at h) in cc)
    | inr not_mine ↦ owner_left stored _ refl (rw not_mine at h)
  ]

with_mark-Agrees : (contested : Option Value) (v : Value) → Agrees (with_mark contested v) v
with_mark-Agrees none v j h = refl
with_mark-Agrees (some at) v j h = set_field-Agrees v at j h

-- Once a hook has written the record, a hook that proves the same host, with the processes as they
-- were, leaves it as it stands, whatever the record was before.
pub recorded_host_again :
    (manifest : Result Manifest) (proof : HostProof) (binding : BindingRef)
    (event later_event at later_at : String) (processes : ProcessInspector) (stored : Option Value)
    (r : Value)
    → IsProcess proof.owner
    → recorded_host manifest proof binding event at stored processes ≡ ok (some r)
    → recorded_host manifest proof binding later_event later_at (some r) processes ≡ ok none
unfolding recorded_host
recorded_host_again manifest proof binding event later_event at later_at processes stored r p h =
    elim (recorded_host_cases manifest proof binding event at processes r stored h) [
      | proved contested v e same ↦
          rw
            (
              ap (owned proof) same,
              ap is_ok_true (owns-Agrees proof _ v (with_mark-Agrees contested v)),
              ap is_ok_true (owns-host_record proof binding event at manifest v p e),
            )
            refl
      | marked before o e other g same ↦
          let agrees = set_field-Agrees before (Value.string at) in
          let named : claim_owner r ≡ OwnerRead.named o =
            ap claim_owner same ∙ claim_owner-Agrees _ before agrees ∙ e in
          let flagged : is_contested r ≡ true =
            ap is_contested same ∙ mark_found before (Value.string at) o e in
          recorded_host_marks manifest proof binding later_event later_at r o processes named other
            g
          ∙ rw flagged refl
    ]
