-- ===== src/Protocol/Samples.antt =====
-- protocol/v2: a manifest with the limits that the tests run against.
use wezterm_attention.Prelude.{none}
use wezterm_attention.Protocol.{Manifest, Limits}

abbrev pub limits : Limits
limits = record {
  pane_id_max_digits = 20;
  safe_label_max_bytes = 256;
  path_max_bytes = 4096;
  max_json_bytes = 65536;
  lifecycle_max_json_bytes = 262144;
  lifecycle_pool_max_count = 8;
  lifecycle_pool_max_bytes = 122880;
  lifecycle_envelope_max_bytes = 16384;
  lifecycle_observation_max_bytes = 18432;
  lifecycle_native_observation_max_bytes = 2048;
}

abbrev pub manifest : Manifest
manifest = record {
  record_schema = 2;
  limits = limits;
  tool_classification = λ provider. none;
  lifecycle_sources = λ provider. none;
  turn_end_sources = λ provider. none;
}
