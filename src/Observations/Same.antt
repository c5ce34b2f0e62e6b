-- ===== src/Observations/Same.antt =====
-- src/observations.rs: what `semantic` compares, the fields of an observation but its id, its times
-- and its turn end. Serialization is derived, so two values are equal when those fields are.
pub mod Reflexive
use wezterm_attention.Prelude.{Bool, true, false, ◌&&◌, String, Option, none, some, str_eq}
use wezterm_attention.Observations.{
  Actor, NativeCorrelation, ObservationBody, LifecycleObservation, ResultSurface, AttemptOutcome,
  SelectionAction, NoticeSubtype, ElicitationMode,
}
use wezterm_attention.Observations.Body.{class_eq, mode_eq}

abbrev pub option_eq {ℓ} : {A : Type ℓ} → (A → A → Bool) → Option A → Option A → Bool
option_eq eq none none = true
option_eq eq (some a) (some b) = eq a b
option_eq eq _ _ = false

abbrev pub text_eq : Option String → Option String → Bool
text_eq = option_eq str_eq

abbrev pub bool_eq : Bool → Bool → Bool
bool_eq true true = true
bool_eq false false = true
bool_eq _ _ = false

abbrev pub flag_eq : Option Bool → Option Bool → Bool
flag_eq = option_eq bool_eq

abbrev pub surface_eq : ResultSurface → ResultSurface → Bool
surface_eq ResultSurface.success_hook ResultSurface.success_hook = true
surface_eq ResultSurface.post_hook ResultSurface.post_hook = true
surface_eq ResultSurface.execution_end ResultSurface.execution_end = true
surface_eq _ _ = false

abbrev pub attempt_eq : AttemptOutcome → AttemptOutcome → Bool
attempt_eq AttemptOutcome.failed AttemptOutcome.failed = true
attempt_eq AttemptOutcome.aborted AttemptOutcome.aborted = true
attempt_eq _ _ = false

abbrev pub action_eq : SelectionAction → SelectionAction → Bool
action_eq SelectionAction.accept SelectionAction.accept = true
action_eq SelectionAction.decline SelectionAction.decline = true
action_eq SelectionAction.cancel SelectionAction.cancel = true
action_eq _ _ = false

abbrev pub subtype_eq : NoticeSubtype → NoticeSubtype → Bool
subtype_eq NoticeSubtype.permission_prompt NoticeSubtype.permission_prompt = true
subtype_eq NoticeSubtype.elicitation_dialog NoticeSubtype.elicitation_dialog = true
subtype_eq NoticeSubtype.elicitation_url_dialog NoticeSubtype.elicitation_url_dialog = true
subtype_eq _ _ = false

abbrev pub elicitation_eq : ElicitationMode → ElicitationMode → Bool
elicitation_eq ElicitationMode.form ElicitationMode.form = true
elicitation_eq ElicitationMode.url ElicitationMode.url = true
elicitation_eq _ _ = false

abbrev pub body_eq : ObservationBody → ObservationBody → Bool
body_eq (ObservationBody.prompt_submitted a) (ObservationBody.prompt_submitted b) = text_eq a b
body_eq (ObservationBody.tool_preflight n c m) (ObservationBody.tool_preflight o d k) =
    str_eq n o && class_eq c d && mode_eq m k
body_eq (ObservationBody.tool_result n c m s e i) (ObservationBody.tool_result o d k t f j) =
    str_eq n o && class_eq c d && mode_eq m k && surface_eq s t && flag_eq e f && flag_eq i j
body_eq (ObservationBody.approval_requested a) (ObservationBody.approval_requested b) = text_eq a b
body_eq (ObservationBody.automatic_denial n p) (ObservationBody.automatic_denial o q) =
    str_eq n o && str_eq p q
body_eq (ObservationBody.response_finished a) (ObservationBody.response_finished b) = flag_eq a b
body_eq ObservationBody.run_settled ObservationBody.run_settled = true
body_eq (ObservationBody.attempt_outcome o c e) (ObservationBody.attempt_outcome p d f) =
    attempt_eq o p && text_eq c d && text_eq e f
body_eq ObservationBody.user_interrupt ObservationBody.user_interrupt = true
body_eq (ObservationBody.elicitation_requested m) (ObservationBody.elicitation_requested k) =
    elicitation_eq m k
body_eq (ObservationBody.elicitation_action_selected a)
      (ObservationBody.elicitation_action_selected b) =
    action_eq a b
body_eq (ObservationBody.notice a) (ObservationBody.notice b) = subtype_eq a b
body_eq (ObservationBody.compaction_attempted a) (ObservationBody.compaction_attempted b) =
    text_eq a b
body_eq (ObservationBody.compaction_succeeded a) (ObservationBody.compaction_succeeded b) =
    text_eq a b
body_eq _ _ = false

abbrev pub actor_eq : Actor → Actor → Bool
actor_eq Actor.lead Actor.lead = true
actor_eq (Actor.child i k) (Actor.child j l) = str_eq i j && str_eq k l
actor_eq _ _ = false

abbrev pub correlation_eq : NativeCorrelation → NativeCorrelation → Bool
correlation_eq a b =
    text_eq a.mcp_server_name b.mcp_server_name
    && text_eq a.turn_id b.turn_id
    && text_eq a.tool_call_id b.tool_call_id
    && text_eq a.elicitation_id b.elicitation_id
    && text_eq a.message_id b.message_id

-- `a.semantic() == b.semantic()`.
unfoldable pub semantic_eq : LifecycleObservation → LifecycleObservation → Bool
semantic_eq a b =
    str_eq a.source_event b.source_event
    && text_eq a.source_version b.source_version
    && actor_eq a.actor b.actor
    && option_eq correlation_eq a.correlation b.correlation
    && body_eq a.body b.body
