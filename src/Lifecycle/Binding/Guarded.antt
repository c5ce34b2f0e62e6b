-- ===== src/Lifecycle/Binding/Guarded.antt =====
-- src/lifecycle.rs: what a start event may write over the binding that is current.
use wezterm_attention.Prelude.{
  ◌≡◌, refl, sym, ◌⊎◌, Bool, true, false, not, ◌||◌, String, [], ◌∷◌, Option, none, some,
  if◌then◌else◌, str_eq, str_ltb, str_leb, contains, str_ltb_of_not, Bool-cases, inl, inr, arith,
  absurd_bool,
}
use wezterm_attention.Prelude.Json.{Value, Members}
use wezterm_attention.Lifecycle.{LifecycleResult}
use wezterm_attention.Lifecycle.Activity.{text_at}
use wezterm_attention.Lifecycle.Binding.{
  StartEvent, Records, BindingPlan, replaces, names_binding, current_refuses, meets_existing,
  indexed, unless_refused, own_binding, plan_binding,
}

abbrev pub is_empty_plan : BindingPlan → Bool
is_empty_plan plan = elim plan.writes [ [] ↦ true | w ∷ ws ↦ false ]

-- The current binding is this one, or an older one that ended or gives way to the start.
abbrev pub MayReplace : StartEvent → Records → String → String → Option Value → Type 0
MayReplace event records binding_id observation none = Unit
MayReplace event records binding_id observation (some current) =
    (names_binding (some current) binding_id ≡ true)
    ⊎ ((str_ltb (text_at current "observed_mono_ns") observation ≡ true)
        × (replaces event records current ≡ true))

abbrev pub NotOlder : String → Option Value → Type 0
NotOlder observation none = Unit
NotOlder observation (some existing) =
    str_leb (text_at existing "observed_mono_ns") observation ≡ true

-- Why a start may write.
pub record Guarded (event : StartEvent) (records : Records) (binding_id observation : String)
    : Type 0 where
  pub not_lapsed : records.lapsed ≡ none
  pub may_replace : MayReplace event records binding_id observation records.current
  pub not_older : NotOlder observation records.existing

all_passed :
    (same before equal kept replaced : Bool) (x y z : LifecycleResult)
    → (if same
        then none
        else if before
        then some x
        else if equal
        then some y
        else if kept || not replaced
        then some z
        else none)
      ≡ none
    → same ≡ false
    → (before ≡ false) × ((equal ≡ false) × (replaced ≡ true))
all_passed same before equal kept replaced x y z h n = ground arith

accepted_current :
    (event : StartEvent) (records : Records) (binding_id observation : String) (current : Value)
    → current_refuses event records binding_id observation (some current) ≡ none
    → names_binding (some current) binding_id ≡ false
    → (str_ltb (text_at current "observed_mono_ns") observation ≡ true)
      × (replaces event records current ≡ true)
unfolding current_refuses
accepted_current event records binding_id observation current h other =
    let order = text_at current "observed_mono_ns" in
    let (not_before, (not_equal, replaced)) =
      all_passed (names_binding (some current) binding_id) (str_ltb observation order)
        (str_eq observation order) (contains ("compact" ∷ "reload" ∷ []) event.source)
        (replaces event records current) _ _ _ h other in
    (str_ltb_of_not observation order not_before not_equal, replaced)

accepted_any :
    (event : StartEvent) (records : Records) (binding_id observation : String)
    (current : Option Value)
    → current_refuses event records binding_id observation current ≡ none
    → MayReplace event records binding_id observation current
accepted_any event records binding_id observation none h = tt
accepted_any event records binding_id observation (some current) h =
    elim (Bool-cases (names_binding (some current) binding_id)) [
      | inl same ↦ inl same
      | inr other ↦ inr (accepted_current event records binding_id observation current h other)
    ]

meets_existing-Writes :
    (event : StartEvent) (records : Records) (binding_id observation written_at event_id : String)
    (existing : Value)
    → is_empty_plan (
        indexed binding_id
          (meets_existing event records binding_id observation written_at event_id existing))
      ≡ false
    → str_leb (text_at existing "observed_mono_ns") observation ≡ true
unfolding meets_existing
meets_existing-Writes event records binding_id observation written_at event_id existing h =
    elim (Bool-cases (str_ltb observation (text_at existing "observed_mono_ns"))) [
      | inl before ↦ absurd_bool (sym (rw before at h))
      | inr after ↦ rw after refl
    ]

own_binding-NotOlder :
    (event : StartEvent) (records : Records) (base : Members)
    (binding_id observation written_at event_id : String) (existing : Option Value)
    → is_empty_plan (
        indexed binding_id
          (own_binding event records base binding_id observation written_at event_id existing))
      ≡ false
    → NotOlder observation existing
unfolding own_binding
own_binding-NotOlder event records base binding_id observation written_at event_id none h = tt
own_binding-NotOlder event records base binding_id observation written_at event_id (some existing)
      h =
    meets_existing-Writes event records binding_id observation written_at event_id existing h

unless_refused-written :
    (refused : Option LifecycleResult) (plan : BindingPlan)
    → is_empty_plan (unless_refused refused plan) ≡ false
    → (refused ≡ none) × (is_empty_plan plan ≡ false)
unfolding unless_refused
unless_refused-written none plan h = (refl, h)
unless_refused-written (some result) plan h = absurd_bool (sym h)

-- A start event writes only if it has not lapsed; over the current binding of another session only if
-- it is observed later and that binding has ended or gives way to such a start; and over a binding of
-- its own session only if it is observed no earlier.
pub plan_binding-Guarded :
    (event : StartEvent) (records : Records) (base : Members)
    (binding_id observation written_at event_id : String)
    → is_empty_plan (plan_binding event records base binding_id observation written_at event_id)
      ≡ false
    → Guarded event records binding_id observation
unfolding plan_binding
plan_binding-Guarded event records base binding_id observation written_at event_id h =
    let (lasts, unrefused) = unless_refused-written records.lapsed _ h in
    let (accepted, planned) =
      unless_refused-written (current_refuses event records binding_id observation records.current)
        _ unrefused in
    record {
      not_lapsed = lasts;
      may_replace = accepted_any event records binding_id observation records.current accepted;
      not_older =
          own_binding-NotOlder event records base binding_id observation written_at event_id
            records.existing planned;
    }
