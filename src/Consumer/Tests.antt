-- ===== src/Consumer/Tests.antt =====
-- src/consumer.rs: a hook that is delivered with its text cut.
use wezterm_attention.Prelude.{ℕ, false, String, List, [], ◌∷◌, Option, none, some}
use wezterm_attention.Protocol.{Disposition, ok, Manifest}
use wezterm_attention.Protocol.Samples.{limits, manifest}
use wezterm_attention.Lifecycle.{new_result}
use wezterm_attention.Consumer.{
  Persistence, HookContent, HookOutcome, HookDelivery, Delivery, unsettled, delivery_of,
  delivery_bytes,
}
use wezterm_attention.Consumer.Delivered.{Delivers, delivery_bytes-Delivers}

abbrev small : Manifest
small = record manifest { limits = record limits { max_json_bytes = 2 } }

abbrev to_vec : HookDelivery String → Option (List ℕ)
to_vec d = elim d.reply [ HookContent.available text ↦ some (1 ∷ 2 ∷ 3 ∷ []) | _ ↦ some (1 ∷ []) ]

abbrev outcome : HookOutcome String
outcome = record {
  result = ok (new_result Disposition.applied);
  hold_checks = [];
  admission = some "hook";
  persistence = record {
    native_state = Persistence.confirmed;
    activity = Persistence.not_requested;
    lifecycle = Persistence.confirmed;
  };
  observation_id = none;
  muted = false;
  turn_end = none;
}

delivery_bytes-Delivers_example :
    Delivers small to_vec outcome "d"
      (HookContent.available "reply")
      HookContent.absent
      (Delivery.bytes (1 ∷ []))
unfolding delivery_bytes unsettled delivery_of
delivery_bytes-Delivers_example =
    delivery_bytes-Delivers small to_vec outcome "d" (HookContent.available "reply")
      HookContent.absent
