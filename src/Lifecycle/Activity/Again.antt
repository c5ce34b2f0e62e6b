-- ===== src/Lifecycle/Activity/Again.antt =====
-- src/lifecycle.rs: an activity that is observed again.
use wezterm_attention.Prelude.{
  ◌≡◌, refl, Bool, true, ◌&&◌, String, Option, none, some, str_eq, str_ltb, is_none, if_each,
}
use wezterm_attention.Prelude.Json.{Value, Members, find_member, get}
use wezterm_attention.Protocol.{Disposition}
use wezterm_attention.Lifecycle.{LifecycleResult, new_result}
use wezterm_attention.Lifecycle.Activity.{
  text_at, semantic_activity, covered_by_clear, ActivityOutcome, kept, takes_slot, replays, meets,
  plan_activity,
}
use wezterm_attention.Lifecycle.Activity.Record.{IsBase, semantic_activity-record, replays_record}

-- The activity was taken into the slot.
Taken : ActivityOutcome → ActivityOutcome → Type 0
Taken taking o = o.result.disposition ≡ Disposition.applied → o ≡ taking

not-Taken :
    (taking : ActivityOutcome) (result : LifecycleResult) (standing written : Option Value)
    → ¬ (result.disposition ≡ Disposition.applied)
    → Taken taking record { result = result; standing = standing; written = written }
unfolding Taken
not-Taken taking result standing written n h = absurd (n h)

Taken-self : (taking : ActivityOutcome) → Taken taking taking
unfolding Taken
Taken-self taking h = refl

replays-Taken :
    (taking : ActivityOutcome) (existing : Value) (written_at : String)
    → Taken taking (replays existing written_at)
unfolding replays
replays-Taken taking existing written_at =
    if_each (Taken taking) (is_none (get existing "ttl_ms")) _ _
      (λ _. not-Taken taking _ _ _ (λ h. cc)) (λ _. not-Taken taking _ _ _ (λ h. cc))

module _ (value_eq : Value → Value → Bool) where
  meets-Taken :
      (existing : Value) (clear : Option Value) (held : Bool) (base : Members)
      (observation written_at event_id : String)
      → Taken
          (takes_slot base observation written_at event_id)
          (meets value_eq existing clear held base observation written_at event_id)
  unfolding meets
  meets-Taken existing clear held base observation written_at event_id =
      let taking = takes_slot base observation written_at event_id in
      let order = text_at existing "observed_mono_ns" in
      if_each (Taken taking) held _ _ (λ _. not-Taken taking _ _ _ (λ h. cc))
        (λ _.
          if_each (Taken taking) (str_ltb observation order) _ _
            (λ _. not-Taken taking _ _ _ (λ h. cc))
            (λ _.
              if_each (Taken taking) (str_eq observation order) _ _
                (λ _. not-Taken taking _ _ _ (λ h. cc))
                (λ _.
                  if_each (Taken taking) (covered_by_clear observation clear) _ _
                    (λ _. not-Taken taking _ _ _ (λ h. cc)) (λ _. Taken-self taking))))

  plan_activity-Taken :
      (existing clear : Option Value) (visible held : Bool) (base : Members)
      (observation written_at event_id : String)
      → Taken
          (takes_slot base observation written_at event_id)
          (plan_activity value_eq existing clear visible held base observation written_at event_id)
  unfolding plan_activity
  plan_activity-Taken none clear visible held base observation written_at event_id =
      let taking = takes_slot base observation written_at event_id in
      if_each (Taken taking) (covered_by_clear observation clear) _ _
        (λ _. not-Taken taking _ _ _ (λ h. cc)) (λ _. Taken-self taking)
  plan_activity-Taken (some existing) clear visible held base observation written_at event_id =
      let taking = takes_slot base observation written_at event_id in
      if_each (Taken taking) (visible && value_eq (semantic_activity existing) (Value.object base))
        _ _ (λ _. replays-Taken taking existing written_at)
        (λ _. meets-Taken existing clear held base observation written_at event_id)

  replayed_lem :
      ((v : Value) → value_eq v v ≡ true)
      → (clear : Option Value) (held : Bool) (base : Members)
        (observation written_at event_id later_observation later_written later_id : String)
      → IsBase base
      → find_member base "ttl_ms" ≡ none
      → plan_activity value_eq
          (takes_slot base observation written_at event_id).standing
          clear
          true
          held
          base
          later_observation
          later_written
          later_id
        ≡ kept
            (record (new_result Disposition.skipped) { event_id = some event_id })
            (takes_slot base observation written_at event_id).standing
  unfolding plan_activity takes_slot
  replayed_lem same clear held base observation written_at event_id lo lw li is_base no_limit =
      rw
        (
          semantic_activity-record base event_id observation written_at is_base,
          same (Value.object base),
        )
        (replays_record base event_id observation written_at lw no_limit)

  -- An activity without a time limit that was taken into the slot, and that is observed again while it
  -- is visible, changes nothing: the event is skipped, under the id that was given the first time.
  pub plan_activity_again :
      ((v : Value) → value_eq v v ≡ true)
      → (existing clear later_clear : Option Value) (visible held later_held : Bool)
        (base : Members)
        (observation written_at event_id later_observation later_written later_id : String)
      → IsBase base
      → find_member base "ttl_ms" ≡ none
      → (plan_activity value_eq existing clear visible held base observation written_at
          event_id).result.disposition
        ≡ Disposition.applied
      → plan_activity value_eq
          (plan_activity value_eq existing clear visible held base observation written_at
            event_id).standing
          later_clear
          true
          later_held
          base
          later_observation
          later_written
          later_id
        ≡ kept
            (record (new_result Disposition.skipped) { event_id = some event_id })
            (plan_activity value_eq existing clear visible held base observation written_at
              event_id).standing
  unfolding Taken
  plan_activity_again same existing clear later_clear visible held later_held base observation
        written_at event_id lo lw li is_base no_limit applied =
      let taken =
        plan_activity-Taken existing clear visible held base observation written_at event_id
          applied in
      rw taken (
        replayed_lem same later_clear later_held base observation written_at event_id lo lw li
          is_base no_limit)
