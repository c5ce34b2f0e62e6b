-- ===== src/Observations/Keys.antt =====
-- src/observations.rs: the key that an observation is stored under.
pub mod Injective
use wezterm_attention.Prelude.{
  append, ℕ, Bool, true, false, ◌&&◌, String, Option, none, some, str_eq, unwrap_or, List, [], ◌∷◌,
  ◌++◌,
}
use wezterm_attention.Prelude.Json.{and_then}
use wezterm_attention.Protocol.Text.{byte_len}
use wezterm_attention.Protocol.Decimal.{to_decimal}
use wezterm_attention.Observations.{Actor, NativeCorrelation, ObservationBody, LifecycleObservation}
use wezterm_attention.Observations.Body.{kind}

abbrev labelled : String → Option String → Option (String × String)
labelled label none = none
labelled label (some id) = some (label, id)

-- `Option::or_else`.
abbrev or_else {ℓ} : {A : Type ℓ} → Option A → Option A → Option A
or_else none o = o
or_else (some a) o = some a

abbrev message_or_turn : NativeCorrelation → Option (String × String)
message_or_turn c = or_else (labelled "message_id" c.message_id) (labelled "turn_id" c.turn_id)

-- The provider's own id of what the body is about.
abbrev pub native_id : ObservationBody → NativeCorrelation → Option (String × String)
native_id (ObservationBody.tool_preflight _ _ _) c = labelled "tool_call_id" c.tool_call_id
native_id (ObservationBody.tool_result _ _ _ _ _ _) c = labelled "tool_call_id" c.tool_call_id
native_id (ObservationBody.automatic_denial _ _) c = labelled "tool_call_id" c.tool_call_id
native_id (ObservationBody.approval_requested _) c = labelled "tool_call_id" c.tool_call_id
native_id (ObservationBody.elicitation_requested _) c = labelled "elicitation_id" c.elicitation_id
native_id (ObservationBody.elicitation_action_selected _) c =
    labelled "elicitation_id" c.elicitation_id
native_id (ObservationBody.prompt_submitted _) c = message_or_turn c
native_id (ObservationBody.response_finished _) c = message_or_turn c
native_id ObservationBody.run_settled c = message_or_turn c
native_id (ObservationBody.attempt_outcome _ _ _) c = message_or_turn c
native_id ObservationBody.user_interrupt c = message_or_turn c
native_id (ObservationBody.notice _) c = message_or_turn c
native_id (ObservationBody.compaction_attempted _) c = message_or_turn c
native_id (ObservationBody.compaction_succeeded _) c = message_or_turn c

abbrev actor_parts : Actor → String × String
actor_parts Actor.lead = ("lead", "")
actor_parts (Actor.child agent_id _) = ("child", agent_id)

-- `[&str; 7]`.
pub record KeyParts : Type 0 where
  pub kind_part : String
  pub actor_part : String
  pub actor_id : String
  pub namespace : String
  pub id : String
  pub turn_part : String
  pub server_part : String

unfoldable pub storage_key_parts : LifecycleObservation → KeyParts
storage_key_parts item =
    let (actor, actor_id) = actor_parts item.actor in
    let (namespace, id) =
      unwrap_or (and_then item.correlation (native_id item.body))
        ("observation_id", item.observation_id) in
    record {
      kind_part = kind item.body;
      actor_part = actor;
      actor_id = actor_id;
      namespace = namespace;
      id = id;
      turn_part = unwrap_or (and_then item.correlation (λ c. c.turn_id)) "";
      server_part = unwrap_or (and_then item.correlation (λ c. c.mcp_server_name)) "";
    }

abbrev pub key_eq : KeyParts → KeyParts → Bool
key_eq j k =
    str_eq j.kind_part k.kind_part
    && str_eq j.actor_part k.actor_part
    && str_eq j.actor_id k.actor_id
    && str_eq j.namespace k.namespace
    && str_eq j.id k.id
    && str_eq j.turn_part k.turn_part
    && str_eq j.server_part k.server_part

abbrev pub parts_list : KeyParts → List String
parts_list k =
    k.kind_part ∷ k.actor_part ∷ k.actor_id ∷ k.namespace ∷ k.id ∷ k.turn_part ∷ k.server_part ∷ []

-- Each text after its length in bytes and a colon.
unfoldable pub prefixed : List String → String
prefixed [] = ""
prefixed (text ∷ texts) =
    append (to_decimal (byte_len text)) (String.◌∷◌ ":" (append text (prefixed texts)))

unfoldable pub storage_key : LifecycleObservation → String
storage_key item = prefixed (parts_list (storage_key_parts item))
