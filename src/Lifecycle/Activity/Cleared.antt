-- ===== src/Lifecycle/Activity/Cleared.antt =====
-- src/lifecycle.rs: what a slot holds after any further writes.
use wezterm_attention.Prelude.{
  ◌≡◌, refl, Bool, true, false, String, List, [], ◌∷◌, Option, none, some, str_leb, if_each,
  absurd_bool,
}
use wezterm_attention.Prelude.Json.{Value}
use wezterm_attention.Protocol.{Result, ok, err, ◌>>=◌, Manifest}
use wezterm_attention.Lifecycle.{LifecycleResult}
use wezterm_attention.Lifecycle.Activity.{covered_by_clear, uncleared, activity_visible}
use wezterm_attention.Lifecycle.Activity.Slot.{
  SlotName, clears, activity_clear_plan, Slot, SlotEvent, clear_after, step, run, stamp, observed,
  cleared, acknowledges,
}
use wezterm_attention.Lifecycle.Activity.Later.{
  Later, Stands, ClearLater, leb_refl, leb_trans, leb_of_not, Later-self, Later-trans,
  plan_activity-Later, clear_plan-Later,
}

-- What a clear at an observation leaves covers the observation.
CoversAfter : String → Option Value → Result (LifecycleResult × Option Value) → Type 0
CoversAfter observation old plan = covered_by_clear observation (clear_after old plan) ≡ true

stays-Covers :
    (o : String) (old : Option Value) (result : LifecycleResult)
    → covered_by_clear o old ≡ true
    → CoversAfter o old (ok (result, none))
unfolding CoversAfter
stays-Covers o old result h = h

clears-Covers :
    (m : Manifest) (name : SlotName) (o observation event_id : String) (old : Option Value)
    → str_leb o observation ≡ true
    → CoversAfter o old (clears (ok m) name observation event_id)
unfolding CoversAfter clears ◌>>=◌ covered_by_clear
clears-Covers m name o observation event_id old h = h

-- Without a manifest no clear is written.
unwritten-Covers :
    (e : _) (name : SlotName) (o observation event_id : String) (old : Option Value)
    → covered_by_clear o old ≡ true
    → CoversAfter o old (clears (err e) name observation event_id)
unfolding CoversAfter clears ◌>>=◌
unwritten-Covers e name o observation event_id old h = h

plan-Covers :
    (manifest : Result Manifest) (name : SlotName) (o observation event_id : String)
    (old : Option Value)
    → covered_by_clear o old ≡ true
    → CoversAfter o old (activity_clear_plan manifest name old observation event_id)
unfolding activity_clear_plan covered_by_clear
plan-Covers manifest name o observation event_id none h = absurd_bool h
plan-Covers (ok m) name o observation event_id (some existing) h =
    if_each (CoversAfter o (some existing)) (str_leb observation (stamp (some existing))) _ _
      (λ _. stays-Covers o (some existing) _ h)
      (λ later.
        clears-Covers m name o observation event_id (some existing)
          (leb_trans o (stamp (some existing)) observation h (leb_of_not observation _ later)))
plan-Covers (err e) name o observation event_id (some existing) h =
    if_each (CoversAfter o (some existing)) (str_leb observation (stamp (some existing))) _ _
      (λ _. stays-Covers o (some existing) _ h)
      (λ later. unwritten-Covers e name o observation event_id (some existing) h)

covered_by_lem :
    (o : String) (c : Value)
    → str_leb o (stamp (some c)) ≡ true
    → covered_by_clear o (some c) ≡ true
unfolding covered_by_clear
covered_by_lem o c h = h

-- A clear covers its own observation from then on.
clear-Covers :
    (m : Manifest) (name : SlotName) (observation event_id : String) (old : Option Value)
    → CoversAfter observation old (activity_clear_plan (ok m) name old observation event_id)
unfolding activity_clear_plan
clear-Covers m name observation event_id none =
    clears-Covers m name observation observation event_id none (leb_refl observation)
clear-Covers m name observation event_id (some existing) =
    if_each (CoversAfter observation (some existing)) (str_leb observation (stamp (some existing)))
      _ _
      (λ covered.
        stays-Covers observation (some existing) _ (covered_by_lem observation existing covered))
      (λ later.
        clears-Covers m name observation observation event_id (some existing)
          (leb_refl observation))

covered-not_visible :
    (value_eq : Value → Value → Bool) (ack activity clear : Option Value) (observation now : String)
    → covered_by_clear observation clear ≡ true
    → str_leb (stamp activity) observation ≡ true
    → activity_visible value_eq ack activity clear now ≡ false
unfolding activity_visible uncleared covered_by_clear
covered-not_visible value_eq ack activity none observation now h l = absurd_bool h
covered-not_visible value_eq ack none (some c) observation now h l = refl
covered-not_visible value_eq ack (some a) (some c) observation now h l =
    rw (leb_trans (stamp (some a)) observation (stamp (some c)) l h) refl

module _ (value_eq : Value → Value → Bool) (manifest : Result Manifest) (name : SlotName) where
  step-Covers :
      (s : Slot) (e : SlotEvent) (observation : String)
      → covered_by_clear observation s.clear ≡ true
      → covered_by_clear observation (step value_eq manifest name s e).clear ≡ true
  unfolding step CoversAfter
  step-Covers s (observed held base o written_at event_id) observation h = h
  step-Covers s (cleared o event_id) observation h =
      plan-Covers manifest name observation o event_id s.clear h
  step-Covers s (acknowledges ack) observation h = h

  run-Covers :
      (s : Slot) (es : List SlotEvent) (observation : String)
      → covered_by_clear observation s.clear ≡ true
      → covered_by_clear observation (run value_eq manifest name s es).clear ≡ true
  unfolding run
  run-Covers s [] observation h = h
  run-Covers s (e ∷ es) observation h =
      run-Covers (step value_eq manifest name s e) es observation (step-Covers s e observation h)

  step-Later :
      (s : Slot) (e : SlotEvent)
      → Later s.activity (step value_eq manifest name s e).activity
        × Later s.clear (step value_eq manifest name s e).clear
  unfolding step Stands ClearLater
  step-Later s (observed held base o written_at event_id) = (
    plan_activity-Later value_eq s.activity s.clear _ held base o written_at event_id,
    Later-self s.clear,
  )
  step-Later s (cleared o event_id) =
      (Later-self s.activity, clear_plan-Later manifest name s.clear o event_id)
  step-Later s (acknowledges ack) = (Later-self s.activity, Later-self s.clear)

  -- Whatever is observed, cleared and acknowledged after one another, neither the observation that the
  -- activity of a slot was made at nor that of its clear ever goes back.
  pub run-Later :
      (s : Slot) (es : List SlotEvent)
      → Later s.activity (run value_eq manifest name s es).activity
        × Later s.clear (run value_eq manifest name s es).clear
  unfolding run
  run-Later s [] = (Later-self s.activity, Later-self s.clear)
  run-Later s (e ∷ es) =
      let (activity, clear) = step-Later s e in
      let (activity_on, clear_on) = run-Later (step value_eq manifest name s e) es in
      (Later-trans _ _ _ activity activity_on, Later-trans _ _ _ clear clear_on)

cleared-Covers :
    (value_eq : Value → Value → Bool) (m : Manifest) (name : SlotName) (s : Slot)
    (observation event_id : String)
    → covered_by_clear observation
        (step value_eq (ok m) name s (cleared observation event_id)).clear
      ≡ true
unfolding step CoversAfter
cleared-Covers value_eq m name s observation event_id =
    clear-Covers m name observation event_id s.clear

-- A slot after a clear and what is written later.
abbrev pub after_clear :
    (Value → Value → Bool) → Manifest → SlotName → Slot → String → String → List SlotEvent → Slot
after_clear value_eq m name s observation event_id es =
    run value_eq (ok m) name (step value_eq (ok m) name s (cleared observation event_id)) es

-- Once a slot was cleared at an observation, an activity that was observed then or before is never
-- visible again, whatever is written after the clear.
pub cleared_stays :
    (value_eq : Value → Value → Bool) (m : Manifest) (name : SlotName) (s : Slot)
    (observation event_id now : String) (es : List SlotEvent)
    → str_leb (stamp (after_clear value_eq m name s observation event_id es).activity) observation
      ≡ true
    → activity_visible value_eq
        (after_clear value_eq m name s observation event_id es).acknowledgement
        (after_clear value_eq m name s observation event_id es).activity
        (after_clear value_eq m name s observation event_id es).clear
        now
      ≡ false
cleared_stays value_eq m name s observation event_id now es earlier =
    let covers =
      run-Covers value_eq (ok m) name _ es observation
        (cleared-Covers value_eq m name s observation event_id) in
    covered-not_visible value_eq _ _ _ observation now covers earlier
