-- ===== src/Observations/Reduce/Tests.antt =====
-- src/observations.rs: a pool of one observation that takes a second in.
use wezterm_attention.Prelude.{
  ◌≡◌, refl, true, false, String, Option, none, some, List, [], ◌∷◌, str_ltb,
}
use wezterm_attention.Protocol.{Result, ok, Limits, Manifest, Provider, ◌>>=◌}
use wezterm_attention.Observations.{
  Actor, ObservationBody, LifecycleObservation, ObservationPool, LifecycleSnapshot,
}
use wezterm_attention.Observations.Body.{kind, pool, tool}
use wezterm_attention.Observations.Keys.{storage_key_parts}
use wezterm_attention.Observations.Validate.{
  Outside, refuse_if, within_bounds, check_item, check_items, validate_semantics,
}
use wezterm_attention.Observations.Reduce.{evict, insert, reduce, unchanged_if}
use wezterm_attention.Observations.Reduce.Rounds.{Ends, evict_all-Ends}
use wezterm_attention.Observations.Reduce.Again.{reduce_again}
use wezterm_attention.Observations.Reduce.Taken.{Changed, reduce-Changed}

-- A pool holds one observation.
abbrev limits : Limits
limits = record {
  pane_id_max_digits = 20;
  safe_label_max_bytes = 256;
  path_max_bytes = 4096;
  max_json_bytes = 65536;
  lifecycle_max_json_bytes = 262144;
  lifecycle_pool_max_count = 1;
  lifecycle_pool_max_bytes = 122880;
  lifecycle_envelope_max_bytes = 16384;
  lifecycle_observation_max_bytes = 18432;
  lifecycle_native_observation_max_bytes = 2048;
}

abbrev manifest : Result Manifest
manifest = ok record {
  record_schema = 2;
  limits = limits;
  tool_classification = λ provider. none;
  lifecycle_sources = λ provider. some (λ kind_. some ("UserPromptSubmit" ∷ []));
  turn_end_sources = λ provider. none;
}

abbrev outside : Outside
outside = record {
  observation_size = λ item. ok 300;
  pool_size = λ p. ok 400;
  snapshot_size = λ s. ok 1000;
  sha256_hex = λ text. text;
  canonical_uuid = λ text. true;
}

abbrev prompt : String → String → LifecycleObservation
prompt id stamp = record {
  observation_id = id;
  source_event = "UserPromptSubmit";
  source_version = none;
  observed_mono_ns = stamp;
  written_at_unix_ns = stamp;
  actor = Actor.lead;
  correlation = none;
  turn_end = none;
  body = ObservationBody.prompt_submitted none;
}

abbrev nothing : ObservationPool
nothing = record { observations = []; retention_floor_mono_ns = none }

abbrev holding : String → Option String → List LifecycleObservation → LifecycleSnapshot
holding snapshot_id floor observations = record {
  kind = "lifecycle_snapshot";
  schema = 2;
  address = record { realm_id = "r"; incarnation_id = "i"; pane_id = "3" };
  launch_id = "launch";
  binding_id = "binding";
  provider = Provider.claude;
  snapshot_id = snapshot_id;
  written_at_unix_ns = "20";
  pools = record {
    requests = nothing;
    general = record { observations = observations; retention_floor_mono_ns = floor };
  };
}

abbrev before : LifecycleSnapshot
before = record (holding "s1" none (prompt "a" "10" ∷ [])) { written_at_unix_ns = "10" }

abbrev after : LifecycleSnapshot
after = holding "s2" (some "10") (prompt "b" "20" ∷ [])

takes_second : reduce manifest outside before (prompt "b" "20") none "s2" ≡ ok (after, true)
unfolding reduce insert evict validate_semantics check_items check_item within_bounds refuse_if
    unchanged_if storage_key_parts kind pool tool ◌>>=◌ str_ltb
takes_second = refl

reduce-Changed_example : Changed manifest outside before after (prompt "b" "20") "s2"
reduce-Changed_example =
    reduce-Changed manifest outside before after (prompt "b" "20") "s2" none takes_second

abbrev two_prompts : ObservationPool
two_prompts = record {
  observations = prompt "a" "10" ∷ prompt "b" "20" ∷ [];
  retention_floor_mono_ns = none;
}

evict_all-Ends_example :
    Ends manifest outside limits 2 two_prompts
      (ok (record { observations = prompt "b" "20" ∷ []; retention_floor_mono_ns = some "10" }))
unfolding evict ◌>>=◌ str_ltb
evict_all-Ends_example = evict_all-Ends manifest outside limits two_prompts

reduce_again_example : reduce manifest outside after (prompt "b" "20") none "s3" ≡ ok (after, false)
reduce_again_example =
    reduce_again manifest outside before after (prompt "b" "20") none none "s2" "s3" takes_second
