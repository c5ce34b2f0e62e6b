-- ===== src/Observations/Same/Reflexive.antt =====
-- src/observations.rs: an observation's fields, compared with themselves.
use wezterm_attention.Prelude.{◌≡◌, refl, Bool, true, false, String, Option, none, some, eq_refl}
use wezterm_attention.Protocol.{ToolClass, QuestionMode}
use wezterm_attention.Observations.{
  Actor, NativeCorrelation, ObservationBody, ResultSurface, AttemptOutcome, SelectionAction,
  NoticeSubtype, ElicitationMode, LifecycleObservation,
}
use wezterm_attention.Observations.Body.{ToolUse, tool_eq, class_eq, mode_eq}
use wezterm_attention.Observations.Same.{
  option_eq, semantic_eq, body_eq, actor_eq, correlation_eq, text_eq, flag_eq, surface_eq,
  attempt_eq, action_eq, subtype_eq, elicitation_eq,
}

class_eq_refl : (c : ToolClass) → class_eq c c ≡ true
class_eq_refl ToolClass.generic = refl
class_eq_refl ToolClass.question = refl
class_eq_refl ToolClass.permission = refl

mode_eq_refl : (m : Option QuestionMode) → mode_eq m m ≡ true
mode_eq_refl none = refl
mode_eq_refl (some QuestionMode.blocking) = refl
mode_eq_refl (some QuestionMode.nonblocking) = refl

text_eq_refl : (o : Option String) → text_eq o o ≡ true
text_eq_refl none = refl
text_eq_refl (some t) = eq_refl t

flag_eq_refl : (o : Option Bool) → flag_eq o o ≡ true
flag_eq_refl none = refl
flag_eq_refl (some true) = refl
flag_eq_refl (some false) = refl

surface_eq_refl : (s : ResultSurface) → surface_eq s s ≡ true
surface_eq_refl ResultSurface.success_hook = refl
surface_eq_refl ResultSurface.post_hook = refl
surface_eq_refl ResultSurface.execution_end = refl

attempt_eq_refl : (a : AttemptOutcome) → attempt_eq a a ≡ true
attempt_eq_refl AttemptOutcome.failed = refl
attempt_eq_refl AttemptOutcome.aborted = refl

action_eq_refl : (a : SelectionAction) → action_eq a a ≡ true
action_eq_refl SelectionAction.accept = refl
action_eq_refl SelectionAction.decline = refl
action_eq_refl SelectionAction.cancel = refl

subtype_eq_refl : (s : NoticeSubtype) → subtype_eq s s ≡ true
subtype_eq_refl NoticeSubtype.permission_prompt = refl
subtype_eq_refl NoticeSubtype.elicitation_dialog = refl
subtype_eq_refl NoticeSubtype.elicitation_url_dialog = refl

elicitation_eq_refl : (m : ElicitationMode) → elicitation_eq m m ≡ true
elicitation_eq_refl ElicitationMode.form = refl
elicitation_eq_refl ElicitationMode.url = refl

body_eq_refl : (b : ObservationBody) → body_eq b b ≡ true
body_eq_refl (ObservationBody.prompt_submitted a) = text_eq_refl a
body_eq_refl (ObservationBody.tool_preflight n c m) =
    rw (eq_refl n, class_eq_refl c, mode_eq_refl m) refl
body_eq_refl (ObservationBody.tool_result n c m s e i) =
    rw
      (
        eq_refl n,
        class_eq_refl c,
        mode_eq_refl m,
        surface_eq_refl s,
        flag_eq_refl e,
        flag_eq_refl i,
      )
      refl
body_eq_refl (ObservationBody.approval_requested a) = text_eq_refl a
body_eq_refl (ObservationBody.automatic_denial n p) = rw (eq_refl n, eq_refl p) refl
body_eq_refl (ObservationBody.response_finished a) = flag_eq_refl a
body_eq_refl ObservationBody.run_settled = refl
body_eq_refl (ObservationBody.attempt_outcome o c e) =
    rw (attempt_eq_refl o, text_eq_refl c, text_eq_refl e) refl
body_eq_refl ObservationBody.user_interrupt = refl
body_eq_refl (ObservationBody.elicitation_requested m) = elicitation_eq_refl m
body_eq_refl (ObservationBody.elicitation_action_selected a) = action_eq_refl a
body_eq_refl (ObservationBody.notice a) = subtype_eq_refl a
body_eq_refl (ObservationBody.compaction_attempted a) = text_eq_refl a
body_eq_refl (ObservationBody.compaction_succeeded a) = text_eq_refl a

actor_eq_refl : (a : Actor) → actor_eq a a ≡ true
actor_eq_refl Actor.lead = refl
actor_eq_refl (Actor.child i k) = rw (eq_refl i, eq_refl k) refl

correlation_eq_refl : (o : Option NativeCorrelation) → option_eq correlation_eq o o ≡ true
correlation_eq_refl none = refl
correlation_eq_refl (some c) =
    rw
      (
        text_eq_refl c.mcp_server_name,
        text_eq_refl c.turn_id,
        text_eq_refl c.tool_call_id,
        text_eq_refl c.elicitation_id,
        text_eq_refl c.message_id,
      )
      refl

pub semantic_eq_refl : (c : LifecycleObservation) → semantic_eq c c ≡ true
unfolding semantic_eq
semantic_eq_refl c =
    rw
      (
        eq_refl c.source_event,
        text_eq_refl c.source_version,
        actor_eq_refl c.actor,
        correlation_eq_refl c.correlation,
        body_eq_refl c.body,
      )
      refl

pub tool_eq_refl : (t : Option ToolUse) → tool_eq t t ≡ true
tool_eq_refl none = refl
tool_eq_refl (some t) =
    rw (eq_refl t.tool_name, class_eq_refl t.tool_class, mode_eq_refl t.question_mode) refl
