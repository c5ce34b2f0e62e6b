-- ===== src/Owner/RoundTrip.antt =====
-- src/launch.rs: an owner written into a record, and what is read of that record.
use wezterm_attention.Prelude.{
  ℕ, ◌<◌, ◌≡◌, refl, ◌∙◌, true, false, String, some, arith, str_eq, eq_refl,
}
use wezterm_attention.Prelude.Json.{
  Value, Members, get, insert_member, find_member, find_member-insert_member_self,
  find_member-insert_member_ne,
}
use wezterm_attention.Protocol.Decimal.{to_decimal, parse_decimal-to_decimal}
use wezterm_attention.Wezterm.{ℤ, pos, negsuc, ProcessStart, int_eq, start_eq}
use wezterm_attention.Owner.{
  int_text, ClaimOwner, owner_eq, i32_limit, u64_limit, u32_limit, OwnerRead, claim_owner,
  write_into, parse_pid, parse_microseconds,
}

int_eq_refl : (i : ℤ) → int_eq i i ≡ true
int_eq_refl (pos n) = ground arith
int_eq_refl (negsuc n) = ground arith

start_eq_refl : (s : ProcessStart) → start_eq s s ≡ true
start_eq_refl s = ground arith

pub owner_eq_refl : (o : ClaimOwner) → owner_eq o o ≡ true
owner_eq_refl o =
    ground (arith, int_eq_refl o.pid, start_eq_refl o.start, eq_refl o.boot_session_id)

-- A process that the system can have: a positive pid, and a start time whose microseconds are
-- less than a second.
abbrev pub IsProcess : ClaimOwner → Type 0
IsProcess o =
    ((n : ℕ) × (o.pid ≡ pos n) × (0 < n) × (n < i32_limit))
    × (o.start.seconds < u64_limit)
    × (o.start.microseconds < 1000000)

parse_pid-to_decimal : (n : ℕ) → 0 < n → n < i32_limit → parse_pid (to_decimal n) ≡ some n
parse_pid-to_decimal n h k =
    rw (parse_decimal-to_decimal n i32_limit (omega arith) k) (ground arith)

parse_microseconds-to_decimal : (n : ℕ) → n < 1000000 → parse_microseconds (to_decimal n) ≡ some n
parse_microseconds-to_decimal n h =
    rw (parse_decimal-to_decimal n u32_limit (omega arith) (omega arith)) (ground arith)

module _ (o : ClaimOwner) (ms : Members) where
  abbrev with_pid : Members
  with_pid = insert_member ms "owner_pid" (Value.string (int_text o.pid))

  abbrev with_seconds : Members
  with_seconds =
      insert_member with_pid "owner_started_sec" (Value.string (to_decimal o.start.seconds))

  abbrev with_microseconds : Members
  with_microseconds =
      insert_member with_seconds "owner_started_usec"
        (Value.string (to_decimal o.start.microseconds))

  abbrev written : Members
  written = insert_member with_microseconds "owner_boot_session_id" (Value.string o.boot_session_id)

  -- A field before the last is read below the inserts after it.
  below_boot :
      (j : String)
      → str_eq "owner_boot_session_id" j ≡ false
      → find_member written j ≡ find_member with_microseconds j
  below_boot j h = find_member-insert_member_ne with_microseconds "owner_boot_session_id" j _ h

  below_microseconds :
      (j : String)
      → str_eq "owner_started_usec" j ≡ false
      → find_member with_microseconds j ≡ find_member with_seconds j
  below_microseconds j h = find_member-insert_member_ne with_seconds "owner_started_usec" j _ h

  below_seconds :
      (j : String)
      → str_eq "owner_started_sec" j ≡ false
      → find_member with_seconds j ≡ find_member with_pid j
  below_seconds j h = find_member-insert_member_ne with_pid "owner_started_sec" j _ h

  -- The fields that `write_into` leaves.
  pub write_into-other :
      (j : String)
      → str_eq "owner_pid" j ≡ false
      → str_eq "owner_started_sec" j ≡ false
      → str_eq "owner_started_usec" j ≡ false
      → str_eq "owner_boot_session_id" j ≡ false
      → get (write_into o (Value.object ms)) j ≡ find_member ms j
  unfolding write_into
  write_into-other j a b c d =
      below_boot j d
      ∙ below_microseconds j c
      ∙ below_seconds j b
      ∙ find_member-insert_member_ne ms "owner_pid" j _ a

  written-pid : find_member written "owner_pid" ≡ some (Value.string (int_text o.pid))
  written-pid =
      below_boot "owner_pid" refl
      ∙ below_microseconds "owner_pid" refl
      ∙ below_seconds "owner_pid" refl
      ∙ find_member-insert_member_self ms "owner_pid" _

  written-seconds :
      find_member written "owner_started_sec" ≡ some (Value.string (to_decimal o.start.seconds))
  written-seconds =
      below_boot "owner_started_sec" refl
      ∙ below_microseconds "owner_started_sec" refl
      ∙ find_member-insert_member_self with_pid "owner_started_sec" _

  written-microseconds :
      find_member written "owner_started_usec"
      ≡ some (Value.string (to_decimal o.start.microseconds))
  written-microseconds =
      below_boot "owner_started_usec" refl
      ∙ find_member-insert_member_self with_seconds "owner_started_usec" _

  written-boot : find_member written "owner_boot_session_id" ≡ some (Value.string o.boot_session_id)
  written-boot = find_member-insert_member_self with_microseconds "owner_boot_session_id" _

  pub claim_owner-write_into :
      IsProcess o → claim_owner (write_into o (Value.object ms)) ≡ OwnerRead.named o
  unfolding claim_owner write_into
  claim_owner-write_into ((n, e, positive, bound), seconds, microseconds) =
      rw
        (
          written-pid,
          written-seconds,
          written-microseconds,
          written-boot,
          e,
          parse_pid-to_decimal n positive bound,
          parse_decimal-to_decimal o.start.seconds u64_limit (omega arith) seconds,
          parse_microseconds-to_decimal o.start.microseconds microseconds,
        )
        refl
