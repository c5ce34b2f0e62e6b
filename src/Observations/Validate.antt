-- ===== src/Observations/Validate.antt =====
-- src/observations.rs: `TurnEnd::valid`, `within_bounds` and `validate_semantics`.
use wezterm_attention.Prelude.{
  ℕ, ◌+◌, ◌-◌, Bool, true, false, not, ◌&&◌, ◌||◌, String, Option, none, some, is_some, is_none,
  is_some_and, List, [], ◌∷◌, length, any, contains, ltb, leb, str_eq, str_leb,
}
use wezterm_attention.Prelude.Sorting.{pair_ltb}
use wezterm_attention.Protocol.{
  DiagnosticCode, Provider, QuestionMode, Result, ok, err, AttentionError, new_error, ◌>>=◌,
  Manifest, Limits,
}
use wezterm_attention.HoldCheck.{HoldCheckOutcome, note_holds, outcome_valid}
use wezterm_attention.Observations.{
  Actor, ObservationBody, ResultSurface, LifecycleObservation, TurnEndStatus, TurnEnd,
  ObservationPool, LifecycleSnapshot,
}
use wezterm_attention.Observations.Body.{
  pool, tool, ToolUse, class_eq, mode_eq, is_lead, listed, ends_turn, classify_tool,
}
use wezterm_attention.Observations.Keys.{KeyParts, storage_key_parts, key_eq}

-- The answers of code that is not the program's: the bytes that serde_json writes of a value, the
-- digest of the sha2 crate, and whether a text is a UUID's own spelling, by the uuid crate.
pub record Outside : Type 0 where
  pub observation_size : LifecycleObservation → Result ℕ
  pub pool_size : ObservationPool → Result ℕ
  pub snapshot_size : LifecycleSnapshot → Result ℕ
  pub sha256_hex : String → String
  pub canonical_uuid : String → Bool

abbrev pub invalid : AttentionError
invalid = new_error DiagnosticCode.record_invalid "lifecycle evidence violates its contract"

unfoldable pub refuse_if {ℓ} : {A : Type ℓ} → Bool → Result A → Result A
refuse_if true r = err invalid
refuse_if false r = r

abbrev flag_is : Option Bool → Bool → Bool
flag_is none b = false
flag_is (some true) b = b
flag_is (some false) b = not b

abbrev check_holds : HoldCheckOutcome → Bool
check_holds check = is_some_and check.note note_holds

abbrev check_quiet : HoldCheckOutcome → Bool
check_quiet check = is_some_and check.note (λ note. not (note_holds note))

abbrev held_agrees : TurnEndStatus → Option Bool → Bool → Bool
held_agrees TurnEndStatus.recorded held notes = flag_is held notes
held_agrees TurnEndStatus.superseded held notes = flag_is held false
held_agrees TurnEndStatus.unconfirmed held notes = is_none held

abbrev is_elicitation : ObservationBody → Bool
is_elicitation (ObservationBody.elicitation_requested _) = true
is_elicitation (ObservationBody.elicitation_action_selected _) = true
is_elicitation _ = false

abbrev is_claude : Provider → Bool
is_claude Provider.claude = true
is_claude _ = false

abbrev is_pi : Provider → Bool
is_pi Provider.pi = true
is_pi _ = false

abbrev is_post_hook : ResultSurface → Bool
is_post_hook ResultSurface.post_hook = true
is_post_hook _ = false

-- A result of a nonblocking question that is not the hook after the tool, or that failed.
abbrev bad_publication : LifecycleObservation → ObservationBody → Bool
bad_publication item (ObservationBody.tool_result _ _ _ surface is_error interrupted) =
    not (is_post_hook surface)
    || flag_is is_error true
    || flag_is interrupted true
    || not (str_eq item.source_event "PostToolUse")
bad_publication item _ = false

-- The keys and ids met so far, over both pools.
pub record Seen : Type 0 where
  pub keys : List KeyParts
  pub ids : List String

module _ (manifest : Result Manifest) (outside : Outside) where
  abbrev checks_valid : List String → List HoldCheckOutcome → Bool
  checks_valid names [] = true
  checks_valid names (check ∷ checks) =
      outcome_valid manifest (outside.canonical_uuid) check
      && not (contains names check.name)
      && checks_valid (check.name ∷ names) checks

  -- `TurnEnd::valid`.
  unfoldable pub turn_end_valid : TurnEnd → Bool
  turn_end_valid end =
      checks_valid [] end.hold_checks
      && held_agrees end.status end.held (any check_holds end.hold_checks)

  -- `within_bounds`.
  unfoldable pub within_bounds : LifecycleObservation → Result Bool
  within_bounds item = manifest >>= (λ m.
      outside.observation_size (record item { turn_end = none }) >>= (λ native_size.
        outside.observation_size item >>= (λ size. ok (
          leb native_size m.limits.lifecycle_native_observation_max_bytes
          && leb size m.limits.lifecycle_observation_max_bytes
          && leb (size - native_size) m.limits.lifecycle_envelope_max_bytes))))

  abbrev turn_end_refused : Provider → LifecycleObservation → TurnEnd → Bool
  turn_end_refused provider item end =
      let stop = str_eq item.source_event "Stop" in
      not (ends_turn manifest provider item)
      || not (turn_end_valid end)
      || (any check_holds end.hold_checks && (not (is_claude provider) || not stop))
      || (any check_quiet end.hold_checks && (is_pi provider || not stop))

  abbrev actor_refused : Provider → Actor → Bool
  actor_refused provider Actor.lead = false
  actor_refused provider (Actor.child agent_id agent_key) =
      is_pi provider || not (str_eq (outside.sha256_hex agent_id) agent_key)

  abbrev tool_refused : Provider → LifecycleObservation → ToolUse → Bool
  tool_refused provider item use_ =
      let (class, mode) = classify_tool manifest provider use_.tool_name in
      not (class_eq class use_.tool_class && mode_eq mode use_.question_mode)
      || (mode_eq use_.question_mode (some QuestionMode.nonblocking)
          && (not (is_lead item.actor) || bad_publication item item.body))

  abbrev source_refused : Provider → LifecycleObservation → Bool
  source_refused provider item =
      is_some_and item.turn_end (turn_end_refused provider item)
      || not (listed manifest (λ m. m.lifecycle_sources) provider item)
      || is_some_and item.correlation
          (λ c. is_some c.mcp_server_name && not (is_elicitation item.body))

  -- `prior > order`, where the prior observation is the one before in the pool.
  abbrev out_of_order : Option LifecycleObservation → LifecycleObservation → Bool
  out_of_order prior item =
      is_some_and prior (λ p.
        pair_ltb item.observed_mono_ns item.observation_id p.observed_mono_ns p.observation_id)

  abbrev content_refused : String → Provider → LifecycleObservation → Bool
  content_refused snapshot_kind provider item =
      is_some_and item.correlation (λ c. is_some c.elicitation_id && is_none c.mcp_server_name)
      || (str_eq snapshot_kind "child_lifecycle_snapshot" && is_lead item.actor)
      || actor_refused provider item.actor
      || is_some_and (tool item.body) (tool_refused provider item)

  -- One observation of a pool.
  unfoldable pub check_item :
      LifecycleSnapshot
      → String
      → Option String
      → Option LifecycleObservation
      → Seen
      → LifecycleObservation
      → Result Seen
  check_item s name floor prior seen item =
      refuse_if
        (source_refused s.provider item
          || out_of_order prior item
          || not (str_eq (pool item.body) name))
        (within_bounds item >>= (λ fits.
          let key = storage_key_parts item in
          refuse_if
            (not fits
              || is_some_and floor (λ f. str_leb item.observed_mono_ns f)
              || contains seen.ids item.observation_id
              || any (key_eq key) seen.keys
              || content_refused s.kind s.provider item)
            (ok record { keys = key ∷ seen.keys; ids = item.observation_id ∷ seen.ids })))

  unfoldable pub check_items :
      LifecycleSnapshot
      → String
      → Option String
      → Option LifecycleObservation
      → Seen
      → List LifecycleObservation
      → Result Seen
  check_items s name floor prior seen [] = ok seen
  check_items s name floor prior seen (item ∷ items) =
      check_item s name floor prior seen item
      >>= (λ seen_next. check_items s name floor (some item) seen_next items)

  abbrev pub check_pool :
      Limits → LifecycleSnapshot → String → ObservationPool → Seen → Result (Seen × ℕ)
  check_pool limits s name p seen = outside.pool_size p >>= (λ size.
      refuse_if
        (ltb limits.lifecycle_pool_max_count (length p.observations)
          || ltb limits.lifecycle_pool_max_bytes size)
        (check_items s name p.retention_floor_mono_ns none seen p.observations
          >>= (λ seen_next. ok (seen_next, size))))

  unfoldable pub validate_semantics : LifecycleSnapshot → Result {0} Unit
  validate_semantics s = manifest >>= (λ m.
      check_pool m.limits s "requests" s.pools.requests record { keys = []; ids = [] }
      >>= (λ (seen, requests_size).
          check_pool m.limits s "general" s.pools.general seen >>= (λ (_, general_size).
            outside.snapshot_size s >>= (λ snapshot_size.
              let size = snapshot_size + 1 in
              refuse_if
                (ltb m.limits.lifecycle_max_json_bytes size
                  || ltb m.limits.lifecycle_envelope_max_bytes
                      (size - (requests_size + general_size)))
                (ok tt)))))
