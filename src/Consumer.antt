-- ===== src/Consumer.antt =====
-- src/consumer.rs with src/lifecycle/outcome.rs: whether consumers are well named, and what is delivered
-- to them of a hook. The admitted hook is passed through, so its type is a parameter; `to_vec` is
-- serde_json's, and `representable` says of a wait whether the clock can be that much further on.
pub mod Delivered
mod Tests
use wezterm_attention.Prelude.{
  ℕ, Bool, true, false, not, ◌&&◌, ◌||◌, String, List, Option, none, some, ltb, length, any,
  if◌then◌else◌,
}
use wezterm_attention.Protocol.{Result, ok, err, ◌>>=◌, Manifest, usage}
use wezterm_attention.Protocol.Text.{byte_len, free_of_control}
use wezterm_attention.Identity.Socket.{is_absolute}
use wezterm_attention.Observations.{TurnEnd}
use wezterm_attention.HoldCheck.{HoldCheckOutcome}
use wezterm_attention.Lifecycle.{LifecycleResult}

pub data Persistence : Type 0 where
  not_requested confirmed rejected unconfirmed : Persistence

pub record HookPersistence : Type 0 where
  pub native_state : Persistence
  pub activity : Persistence
  pub lifecycle : Persistence

pub data HookContent : Type 0 where
  not_requested : HookContent
  available : String → HookContent
  absent unsupported invalid too_large : HookContent

pub data NotDispatchedReason : Type 0 where
  no_admitted_scope native_state_rejected native_state_unconfirmed : NotDispatchedReason
  lifecycle_rejected lifecycle_unconfirmed envelope_too_large : NotDispatchedReason

pub record HookOutcome (Admitted : Type 0) : Type 0 where
  pub result : Result LifecycleResult
  pub admission : Option Admitted
  pub persistence : HookPersistence
  pub observation_id : Option String
  pub turn_end : Option TurnEnd
  pub hold_checks : List HoldCheckOutcome
  pub muted : Bool

pub record HookDelivery (Admitted : Type 0) : Type 0 where
  pub schema : ℕ
  pub delivery_id : String
  pub source : Admitted
  pub observation_id : Option String
  pub persistence : HookPersistence
  pub muted : Bool
  pub turn_end : Option TurnEnd
  pub reply : HookContent
  pub prompt : HookContent

pub data Delivery : Type 0 where
  bytes : List ℕ → Delivery
  withheld : NotDispatchedReason → Delivery

abbrev is_misnamed : ℕ → String → Bool
is_misnamed maximum executable =
    not (is_absolute executable)
    || ltb maximum (byte_len executable)
    || not (free_of_control executable)

abbrev has_none : List String → Bool
has_none List.[] = true
has_none (List.◌∷◌ x xs) = false

-- The wait that a call asks for, in milliseconds.
abbrev wait_of : List String → Option ℕ → Result (Option ℕ)
wait_of executables (some ms) =
    if ltb 0 ms
    then ok (some ms)
    else err (usage "--consumer requires a positive --consumer-timeout-ms")
wait_of executables none =
    if has_none executables
    then ok none
    else err (usage "--consumer requires a positive --consumer-timeout-ms")

abbrev representable_wait : (ℕ → Bool) → Option ℕ → Result (Option ℕ)
representable_wait representable none = ok none
representable_wait representable (some ms) =
    if representable ms
    then ok (some ms)
    else err (usage "--consumer-timeout-ms is not representable")

unfoldable pub validate_consumers :
    Result Manifest → (ℕ → Bool) → List String → Option ℕ → Result (Option ℕ)
validate_consumers manifest representable executables timeout_ms = manifest >>= (λ m.
    if any (is_misnamed m.limits.path_max_bytes) executables
    then err (usage "--consumer requires an absolute executable path")
    else (wait_of executables timeout_ms >>= representable_wait representable))

abbrev pub is_rejected : Persistence → Bool
is_rejected Persistence.rejected = true
is_rejected _ = false

abbrev pub is_confirmed : Persistence → Bool
is_confirmed Persistence.confirmed = true
is_confirmed Persistence.not_requested = true
is_confirmed _ = false

-- Why the persistence of a hook keeps it from being delivered.
unfoldable pub unsettled : HookPersistence → Option NotDispatchedReason
unsettled p =
    if is_rejected p.native_state || is_rejected p.activity
    then some NotDispatchedReason.native_state_rejected
    else if not (is_confirmed p.native_state) || not (is_confirmed p.activity)
    then some NotDispatchedReason.native_state_unconfirmed
    else if is_rejected p.lifecycle
    then some NotDispatchedReason.lifecycle_rejected
    else if not (is_confirmed p.lifecycle)
    then some NotDispatchedReason.lifecycle_unconfirmed
    else none

abbrev pub cut_content : HookContent → HookContent
cut_content (HookContent.available text) = HookContent.too_large
cut_content content = content

-- The bytes of one try, where they are within the limit.
abbrev pub fitting : ℕ → Option (List ℕ) → Delivery
fitting maximum none = withheld NotDispatchedReason.envelope_too_large
fitting maximum (some written) =
    if ltb maximum (length written)
    then withheld NotDispatchedReason.envelope_too_large
    else bytes written

module _ {Admitted : Type 0} where
  abbrev pub cut_delivery : HookDelivery Admitted → HookDelivery Admitted
  cut_delivery d = record d { reply = cut_content d.reply; prompt = cut_content d.prompt }

  abbrev pub in_budget :
      ℕ → (HookDelivery Admitted → Option (List ℕ)) → HookDelivery Admitted → Delivery
  in_budget maximum to_vec delivery = elim (to_vec delivery) [
    | none ↦ withheld NotDispatchedReason.envelope_too_large
    | some written ↦
        if ltb maximum (length written)
        then fitting maximum (to_vec (cut_delivery delivery))
        else bytes written
  ]

  unfoldable pub delivery_of :
      HookOutcome Admitted → Admitted → String → HookContent → HookContent → HookDelivery Admitted
  delivery_of outcome source delivery_id reply prompt = record {
    schema = 1;
    delivery_id = delivery_id;
    source = source;
    observation_id = outcome.observation_id;
    persistence = outcome.persistence;
    muted = outcome.muted;
    turn_end = outcome.turn_end;
    reply = reply;
    prompt = prompt;
  }

  unfoldable pub delivery_bytes :
      Result Manifest
      → (HookDelivery Admitted → Option (List ℕ))
      → HookOutcome Admitted
      → String
      → HookContent
      → HookContent
      → Delivery
  delivery_bytes manifest to_vec outcome delivery_id reply prompt = elim outcome.admission [
    | none ↦ withheld NotDispatchedReason.no_admitted_scope
    | some source ↦ elim (unsettled outcome.persistence) [
      | some reason ↦ withheld reason
      | none ↦ elim manifest [
        | err e ↦ withheld NotDispatchedReason.envelope_too_large
        | ok m ↦
            in_budget m.limits.max_json_bytes to_vec
              (delivery_of outcome source delivery_id reply prompt)
      ]
    ]
  ]
