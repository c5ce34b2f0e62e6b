-- ===== src/Lifecycle/Activity/Orders.antt =====
-- src/lifecycle.rs: two activities that arrive in either order.
use wezterm_attention.Prelude.{
  ◌≡◌, refl, sym, ap, ◌∙◌, Bool, true, false, ◌&&◌, String, Option, none, some, str_eq, str_ltb,
  arith, Bool-cases, inl, inr, eq_iff, str_ltb_asym, str_ltb_irrefl,
}
use wezterm_attention.Prelude.Json.{Value, Members}
use wezterm_attention.Protocol.{Result, Manifest}
use wezterm_attention.Lifecycle.Activity.{
  covered_by_clear, takes_slot, activity_visible, meets, plan_activity,
}
use wezterm_attention.Lifecycle.Activity.Slot.{SlotName, Slot, step, stamp, observed}
use wezterm_attention.Lifecycle.Activity.Later.{activity_record-stamp, leb_trans, leb_of_ltb}
use wezterm_attention.Lifecycle.Activity.Record.{IsBase, semantic_activity-record}

and_false : (b : Bool) → (b && false) ≡ false
and_false true = refl
and_false false = refl

ltb_not_eq : (s t : String) → str_ltb s t ≡ true → str_eq t s ≡ false
ltb_not_eq s t h = ground (arith, str_ltb_irrefl s, eq_iff t s)

module _ (value_eq : Value → Value → Bool) where
  -- An activity that meets a later one, with other content, leaves it.
  earlier_stays :
      (clear : Option Value) (visible held : Bool) (base base' : Members) (o w i o' w' i' : String)
      → IsBase base
      → value_eq (Value.object base) (Value.object base') ≡ false
      → str_ltb o' o ≡ true
      → (plan_activity value_eq
          (takes_slot base o w i).standing
          clear
          visible
          held
          base'
          o'
          w'
          i').standing
        ≡ (takes_slot base o w i).standing
  unfolding plan_activity takes_slot meets
  earlier_stays clear visible true base base' o w i o' w' i' is_base other before =
      rw (semantic_activity-record base i o w is_base, other, and_false visible) refl
  earlier_stays clear visible false base base' o w i o' w' i' is_base other before =
      rw
        (
          semantic_activity-record base i o w is_base,
          other,
          and_false visible,
          activity_record-stamp base i o w,
          before,
        )
        refl

  later_takes :
      (clear : Option Value) (visible : Bool) (base base' : Members) (o w i o' w' i' : String)
      → IsBase base
      → value_eq (Value.object base) (Value.object base') ≡ false
      → str_ltb o o' ≡ true
      → covered_by_clear o' clear ≡ false
      → (plan_activity value_eq
          (takes_slot base o w i).standing
          clear
          visible
          false
          base'
          o'
          w'
          i').standing
        ≡ (takes_slot base' o' w' i').standing
  unfolding plan_activity takes_slot meets
  later_takes clear visible base base' o w i o' w' i' is_base other after open_slot =
      rw
        (
          semantic_activity-record base i o w is_base,
          other,
          and_false visible,
          activity_record-stamp base i o w,
          str_ltb_asym o o' after,
          ltb_not_eq o o' after,
          open_slot,
        )
        refl

  plan_none_covered :
      (clear : Option Value) (visible held : Bool) (base : Members) (o w i : String)
      → covered_by_clear o clear ≡ true
      → (plan_activity value_eq none clear visible held base o w i).standing ≡ none
  unfolding plan_activity
  plan_none_covered clear visible held base o w i h = rw h refl

  plan_none_open :
      (clear : Option Value) (visible held : Bool) (base : Members) (o w i : String)
      → covered_by_clear o clear ≡ false
      → (plan_activity value_eq none clear visible held base o w i).standing
        ≡ (takes_slot base o w i).standing
  unfolding plan_activity
  plan_none_open clear visible held base o w i h = rw h refl

covered_earlier :
    (o o' : String) (clear : Option Value)
    → str_ltb o o' ≡ true
    → covered_by_clear o' clear ≡ true
    → covered_by_clear o clear ≡ true
unfolding covered_by_clear
covered_earlier o o' none before h = h
covered_earlier o o' (some c) before h = leb_trans o o' (stamp (some c)) (leb_of_ltb o o' before) h

module _ (value_eq : Value → Value → Bool) (clear ack : Option Value) where
  -- One activity after what stands, held or not.
  after_one : Option Value → Bool → Members → String → String → String → Option Value
  after_one standing held base o w i =
      (plan_activity value_eq standing clear (activity_visible value_eq ack standing clear w) held
        base o w i).standing

  both_orders :
      (held held' again : Bool) (base base' : Members) (o w i o' w' i' : String)
      → IsBase base
      → IsBase base'
      → value_eq (Value.object base) (Value.object base') ≡ false
      → value_eq (Value.object base') (Value.object base) ≡ false
      → str_ltb o o' ≡ true
      → after_one (after_one none held base o w i) false base' o' w' i'
        ≡ after_one (after_one none held' base' o' w' i') again base o w i
  unfolding after_one
  both_orders held held' again base base' o w i o' w' i' is_base is_base' other other' before =
      elim (Bool-cases (covered_by_clear o' clear)) [
        | inl covered' ↦
            let covered = covered_earlier o o' clear before covered' in
            ap (λ a. after_one a false base' o' w' i')
              (plan_none_covered value_eq clear _ held base o w i covered)
            ∙ plan_none_covered value_eq clear _ false base' o' w' i' covered'
            ∙ sym (
                ap (λ a. after_one a again base o w i)
                  (plan_none_covered value_eq clear _ held' base' o' w' i' covered')
                ∙ plan_none_covered value_eq clear _ again base o w i covered)
        | inr open' ↦
            let second =
              ap (λ a. after_one a again base o w i)
                (plan_none_open value_eq clear _ held' base' o' w' i' open')
              ∙ earlier_stays value_eq clear _ again base' base o' w' i' o w i is_base' other'
                  before in
            elim (Bool-cases (covered_by_clear o clear)) [
              | inl covered ↦
                  ap (λ a. after_one a false base' o' w' i')
                    (plan_none_covered value_eq clear _ held base o w i covered)
                  ∙ plan_none_open value_eq clear _ false base' o' w' i' open'
                  ∙ sym second
              | inr open_slot ↦
                  ap (λ a. after_one a false base' o' w' i')
                    (plan_none_open value_eq clear _ held base o w i open_slot)
                  ∙ later_takes value_eq clear _ base base' o w i o' w' i' is_base other before
                      open'
                  ∙ sym second
            ]
      ]

-- Two activities with different contents, which hold none of an event's own fields, that are observed
-- at different moments leave an empty slot in the same state in whichever order they arrive, whatever
-- clear and acknowledgement stand in it, where the one that is observed later is not held back when it
-- arrives second; every other arrival may be held.
pub step_either_order :
    (value_eq : Value → Value → Bool) (manifest : Result Manifest) (name : SlotName)
    (clear ack : Option Value) (held held' again : Bool) (base base' : Members)
    (o w i o' w' i' : String)
    → IsBase base
    → IsBase base'
    → value_eq (Value.object base) (Value.object base') ≡ false
    → value_eq (Value.object base') (Value.object base) ≡ false
    → str_ltb o o' ≡ true
    → let empty : Slot = record { activity = none; clear = clear; acknowledgement = ack } in
      step value_eq manifest name
        (step value_eq manifest name empty (observed held base o w i))
        (observed false base' o' w' i')
      ≡ step value_eq manifest name
          (step value_eq manifest name empty (observed held' base' o' w' i'))
          (observed again base o w i)
unfolding step after_one
step_either_order value_eq manifest name clear ack held held' again base base' o w i o' w' i' b b'
      other other' before =
    ap (λ a. record { activity = a; clear = clear; acknowledgement = ack })
      (both_orders value_eq clear ack held held' again base base' o w i o' w' i' b b' other other'
        before)
