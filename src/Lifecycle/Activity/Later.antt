-- ===== src/Lifecycle/Activity/Later.antt =====
-- src/lifecycle.rs: the stamps in a slot only go up.
use wezterm_attention.Prelude.{
  ℕ, ◌≡◌, refl, sym, Bool, true, false, String, Option, none, some, str_eq, str_ltb, str_leb,
  is_none, arith, str_ltb_irrefl, if_each, subst, str_ltb_trans, str_ltb_tri, str_ltb_asym,
}
use wezterm_attention.Prelude.Json.{
  Value, Members, insert_member, get, find_member-insert_member_self, find_member-insert_member_ne,
}
use wezterm_attention.Protocol.{Result, ok, err, ◌>>=◌, Manifest}
use wezterm_attention.Owner.{set_field}
use wezterm_attention.Lifecycle.{LifecycleResult}
use wezterm_attention.Lifecycle.Activity.{
  text_at, covered_by_clear, activity_record, ActivityOutcome, takes_slot, replays, meets, kept,
  plan_activity,
}
use wezterm_attention.Lifecycle.Activity.Slot.{
  SlotName, clear_record, clears, activity_clear_plan, clear_after, stamp,
}

pub leb_refl : (s : String) → str_leb s s ≡ true
leb_refl s = rw (str_ltb_irrefl s)

pub leb_trans : (s t u : String) → str_leb s t ≡ true → str_leb t u ≡ true → str_leb s u ≡ true
leb_trans s t u h k = ground (arith, str_ltb_trans u s t, str_ltb_tri s t, str_ltb_trans u t s)

leb_empty : (s : String) → str_leb "" s ≡ true
unfolding str_ltb
leb_empty s = refl

pub leb_of_not : (s t : String) → str_leb s t ≡ false → str_leb t s ≡ true
leb_of_not s t h = ground (arith, str_ltb_asym t s)

pub leb_of_ltb : (s t : String) → str_ltb s t ≡ true → str_leb s t ≡ true
leb_of_ltb s t h = rw (str_ltb_asym s t h)

pub activity_record-stamp :
    (base : Members) (event_id observation written_at : String)
    → stamp (some (Value.object (activity_record base event_id observation written_at)))
      ≡ observation
unfolding activity_record
activity_record-stamp base event_id observation written_at =
    let first = insert_member base "event_id" (Value.string event_id) in
    let second = insert_member first "observed_mono_ns" (Value.string observation) in
    rw
      (
        find_member-insert_member_ne second "written_at_unix_ns" "observed_mono_ns"
            (Value.string written_at) refl,
        find_member-insert_member_self first "observed_mono_ns" (Value.string observation),
      )
      refl

set_field-stamp :
    (v : Value) (written_at : String)
    → stamp (some (set_field v "written_at_unix_ns" (Value.string written_at))) ≡ stamp (some v)
set_field-stamp (Value.object ms) written_at =
    rw
      (find_member-insert_member_ne ms "written_at_unix_ns" "observed_mono_ns"
        (Value.string written_at) refl)
      refl
set_field-stamp Value.null written_at = refl
set_field-stamp (Value.array vs) written_at = refl
set_field-stamp (Value.string s) written_at = refl
set_field-stamp (Value.number n) written_at = refl
set_field-stamp (Value.boolean b) written_at = refl

unfoldable pub Later : Option Value → Option Value → Type 0
Later a b = str_leb (stamp a) (stamp b) ≡ true

unfoldable pub Stands : Option Value → ActivityOutcome → Type 0
Stands a o = Later a o.standing

pub Later-self : (a : Option Value) → Later a a
unfolding Later
Later-self a = leb_refl (stamp a)

pub Later-trans : (a b c : Option Value) → Later a b → Later b c → Later a c
unfolding Later
Later-trans a b c h k = leb_trans (stamp a) (stamp b) (stamp c) h k

Later-same : (a b : Option Value) → stamp a ≡ stamp b → Later a b
unfolding Later
Later-same a b h = subst (λ t. str_leb (stamp a) t ≡ true) h (leb_refl (stamp a))

kept-Later :
    (existing : Value) (result : LifecycleResult)
    → Stands (some existing) (kept result (some existing))
unfolding Stands
kept-Later existing result = Later-self (some existing)

none-Later :
    (result : LifecycleResult) (written : Option Value)
    → Stands none record { result = result; standing = none; written = written }
unfolding Stands
none-Later result written = Later-self none

renewed-Later :
    (existing : Value) (written_at : String) (result : LifecycleResult) (written : Option Value)
    → Stands (some existing) record {
      result = result;
      standing = some (set_field existing "written_at_unix_ns" (Value.string written_at));
      written = written;
    }
unfolding Stands
renewed-Later existing written_at result written =
    Later-same (some existing) _ (sym (set_field-stamp existing written_at))

takes_slot-Later :
    (a : Option Value) (base : Members) (observation written_at event_id : String)
    → str_leb (stamp a) observation ≡ true
    → Stands a (takes_slot base observation written_at event_id)
unfolding Stands Later takes_slot
takes_slot-Later a base observation written_at event_id h =
    rw (activity_record-stamp base event_id observation written_at) h

replays-Later :
    (existing : Value) (written_at : String) → Stands (some existing) (replays existing written_at)
unfolding replays
replays-Later existing written_at =
    if_each (Stands (some existing)) (is_none (get existing "ttl_ms")) _ _
      (λ _. kept-Later existing _) (λ _. renewed-Later existing written_at _ _)

module _ (value_eq : Value → Value → Bool) where
  meets-Later :
      (existing : Value) (clear : Option Value) (held : Bool) (base : Members)
      (observation written_at event_id : String)
      → Stands
          (some existing)
          (meets value_eq existing clear held base observation written_at event_id)
  unfolding meets
  meets-Later existing clear held base observation written_at event_id =
      let order = text_at existing "observed_mono_ns" in
      if_each (Stands (some existing)) held _ _ (λ _. kept-Later existing _)
        (λ _.
          if_each (Stands (some existing)) (str_ltb observation order) _ _
            (λ _. kept-Later existing _)
            (λ not_before.
              if_each (Stands (some existing)) (str_eq observation order) _ _
                (λ _. kept-Later existing _)
                (λ _.
                  if_each (Stands (some existing)) (covered_by_clear observation clear) _ _
                    (λ _. kept-Later existing _)
                    (λ _.
                      takes_slot-Later (some existing) base observation written_at event_id
                        (rw not_before refl)))))

  pub plan_activity-Later :
      (existing clear : Option Value) (visible held : Bool) (base : Members)
      (observation written_at event_id : String)
      → Stands existing
          (plan_activity value_eq existing clear visible held base observation written_at event_id)
  unfolding plan_activity
  plan_activity-Later none clear visible held base observation written_at event_id =
      if_each (Stands none) (covered_by_clear observation clear) _ _ (λ _. none-Later _ _)
        (λ _. takes_slot-Later none base observation written_at event_id (leb_empty observation))
  plan_activity-Later (some existing) clear visible held base observation written_at event_id =
      if_each (Stands (some existing)) _ _ _ (λ _. replays-Later existing written_at)
        (λ _. meets-Later existing clear held base observation written_at event_id)

clear_record-stamp :
    (schema : ℕ) (name : SlotName) (event_id observation : String)
    → stamp (some (clear_record schema name event_id observation)) ≡ observation
clear_record-stamp schema name event_id observation = refl

-- What a plan leaves is no earlier than the clear before it, and than its own observation.
unfoldable pub ClearLater : Option Value → Result (LifecycleResult × Option Value) → Type 0
ClearLater old plan = Later old (clear_after old plan)

ClearReaches : String → Option Value → Result (LifecycleResult × Option Value) → Type 0
ClearReaches observation old plan = str_leb observation (stamp (clear_after old plan)) ≡ true

clears-Later :
    (manifest : Result Manifest) (name : SlotName) (clear : Option Value)
    (observation event_id : String)
    → str_leb (stamp clear) observation ≡ true
    → ClearLater clear (clears manifest name observation event_id)
unfolding clears ◌>>=◌ Later ClearLater
clears-Later (ok m) name clear observation event_id h = h
clears-Later (err e) name clear observation event_id h = leb_refl (stamp clear)

stays-Later :
    (clear : Option Value) (result : LifecycleResult) → ClearLater clear (ok (result, none))
unfolding ClearLater
stays-Later clear result = Later-self clear

pub clear_plan-Later :
    (manifest : Result Manifest) (name : SlotName) (clear : Option Value)
    (observation event_id : String)
    → ClearLater clear (activity_clear_plan manifest name clear observation event_id)
unfolding activity_clear_plan
clear_plan-Later manifest name none observation event_id =
    clears-Later manifest name none observation event_id (leb_empty observation)
clear_plan-Later manifest name (some existing) observation event_id =
    if_each (ClearLater (some existing)) (str_leb observation (stamp (some existing))) _ _
      (λ _. stays-Later (some existing) _)
      (λ later.
        clears-Later manifest name (some existing) observation event_id
          (leb_of_not observation (stamp (some existing)) later))

clears-reaches :
    (m : Manifest) (name : SlotName) (clear : Option Value) (observation event_id : String)
    → ClearReaches observation clear (clears (ok m) name observation event_id)
unfolding clears ◌>>=◌ ClearReaches
clears-reaches m name clear observation event_id = leb_refl observation

stays-reaches :
    (existing : Value) (observation : String) (result : LifecycleResult)
    → str_leb observation (stamp (some existing)) ≡ true
    → ClearReaches observation (some existing) (ok (result, none))
unfolding ClearReaches
stays-reaches existing observation result h = h

clear_plan-reaches :
    (m : Manifest) (name : SlotName) (clear : Option Value) (observation event_id : String)
    → ClearReaches observation clear (activity_clear_plan (ok m) name clear observation event_id)
unfolding activity_clear_plan
clear_plan-reaches m name none observation event_id =
    clears-reaches m name none observation event_id
clear_plan-reaches m name (some existing) observation event_id =
    if_each (ClearReaches observation (some existing)) (str_leb observation (stamp (some existing)))
      _ _ (stays-reaches existing observation _)
      (λ _. clears-reaches m name (some existing) observation event_id)
