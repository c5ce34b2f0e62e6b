-- ===== src/Records.antt =====
-- src/records.rs: `ends_binding`, the rule that every reader and writer of a binding's end applies.
use wezterm_attention.Prelude.{
  Bool, false, not, ◌||◌, String, Option, none, some, str_eq, str_ltb, is_some_and,
}
use wezterm_attention.Prelude.Json.{Value, get_str}

abbrev same_event : Option String → Value → Bool
same_event none binding = false
same_event (some event) binding = is_some_and (get_str binding "event_id") (λ e. str_eq e event)

abbrev observed_after : Option String → Option String → Bool
observed_after none binding = false
observed_after (some end) none = false
observed_after (some end) (some binding) = not (str_ltb end binding)

unfoldable pub ends_binding : Value → Value → Bool
ends_binding end binding =
    same_event (get_str end "binding_event_id") binding
    || observed_after (get_str end "observed_mono_ns") (get_str binding "observed_mono_ns")
