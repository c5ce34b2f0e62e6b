-- ===== src/Lifecycle/Activity/Record.antt =====
-- src/lifecycle.rs: the fields that an activity record adds to its content.
use wezterm_attention.Prelude.{◌≡◌, refl, false, String, none, some, str_eq, arith, eq_refl, eq_iff}
use wezterm_attention.Prelude.Json.{
  Value, Members, no_member, member, find_member, insert_member, find_member-insert_member_self,
  find_member-insert_member_ne,
}
use wezterm_attention.Protocol.{Disposition}
use wezterm_attention.Lifecycle.{new_result}
use wezterm_attention.Lifecycle.Activity.{
  remove_member, semantic_activity, activity_record, kept, replays,
}

-- Content without the fields of one event, which is what every writer builds.
abbrev pub IsBase : Members → Type 0
IsBase base =
    (find_member base "event_id" ≡ none)
    × (find_member base "observed_mono_ns" ≡ none)
    × (find_member base "written_at_unix_ns" ≡ none)
    × (find_member base "publication_id" ≡ none)

remove_absent : (ms : Members) (k : String) → find_member ms k ≡ none → remove_member ms k ≡ ms
remove_absent no_member k h = refl
remove_absent (member j v ms) k h = ground (arith, remove_absent ms k)

remove_inserted :
    (ms : Members) (k : String) (v : Value)
    → find_member ms k ≡ none
    → remove_member (insert_member ms k v) k ≡ ms
remove_inserted no_member k v h = rw (eq_refl k) refl
remove_inserted (member j w ms) k v h = ground (arith, remove_inserted ms k v)

remove_other :
    (ms : Members) (k j : String) (v : Value)
    → str_eq k j ≡ false
    → remove_member (insert_member ms k v) j ≡ insert_member (remove_member ms j) k v
remove_other no_member k j v h = rw h refl
remove_other (member i w ms) k j v h = ground (arith, remove_other ms k j v h, eq_iff i k)

pub semantic_activity-record :
    (base : Members) (event_id observation written_at : String)
    → IsBase base
    → semantic_activity (Value.object (activity_record base event_id observation written_at))
      ≡ Value.object base
unfolding semantic_activity activity_record
semantic_activity-record base event_id observation written_at
      (no_id, no_order, no_time, no_publication) =
    let i = Value.string event_id in
    let o = Value.string observation in
    let w = Value.string written_at in
    rw
      (
        remove_other (insert_member (insert_member base "event_id" i) "observed_mono_ns" o)
            "written_at_unix_ns" "event_id" w refl,
        remove_other (insert_member base "event_id" i) "observed_mono_ns" "event_id" o refl,
        remove_inserted base "event_id" i no_id,
        remove_other (insert_member base "observed_mono_ns" o) "written_at_unix_ns"
            "observed_mono_ns" w refl,
        remove_inserted base "observed_mono_ns" o no_order,
        remove_inserted base "written_at_unix_ns" w no_time,
        remove_absent base "publication_id" no_publication,
      )
      refl

pub record_limit :
    (base : Members) (event_id observation written_at : String)
    → find_member base "ttl_ms" ≡ none
    → find_member (activity_record base event_id observation written_at) "ttl_ms" ≡ none
unfolding activity_record
record_limit base event_id observation written_at h =
    let first = insert_member base "event_id" (Value.string event_id) in
    let second = insert_member first "observed_mono_ns" (Value.string observation) in
    rw
      (
        find_member-insert_member_ne second "written_at_unix_ns" "ttl_ms" (Value.string written_at)
            refl,
        find_member-insert_member_ne first "observed_mono_ns" "ttl_ms" (Value.string observation)
            refl,
        find_member-insert_member_ne base "event_id" "ttl_ms" (Value.string event_id) refl,
      )
      h

pub record_event :
    (base : Members) (event_id observation written_at : String)
    → find_member (activity_record base event_id observation written_at) "event_id"
      ≡ some (Value.string event_id)
unfolding activity_record
record_event base event_id observation written_at =
    let first = insert_member base "event_id" (Value.string event_id) in
    let second = insert_member first "observed_mono_ns" (Value.string observation) in
    rw
      (
        find_member-insert_member_ne second "written_at_unix_ns" "event_id"
            (Value.string written_at) refl,
        find_member-insert_member_ne first "observed_mono_ns" "event_id" (Value.string observation)
            refl,
      )
      (find_member-insert_member_self base "event_id" (Value.string event_id))

pub replays_record :
    (base : Members) (event_id observation written_at later : String)
    → find_member base "ttl_ms" ≡ none
    → let stored = Value.object (activity_record base event_id observation written_at) in
      replays stored later
      ≡ kept (record (new_result Disposition.skipped) { event_id = some event_id }) (some stored)
unfolding replays
replays_record base event_id observation written_at later h =
    rw
      (
        record_limit base event_id observation written_at h,
        record_event base event_id observation written_at,
      )
      refl
