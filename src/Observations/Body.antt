-- ===== src/Observations/Body.antt =====
-- src/observations.rs: what an observation's body says of its kind, its pool and its tool.
use wezterm_attention.Prelude.{
  Bool, true, false, ◌&&◌, String, Option, none, some, str_eq, is_some_and, contains, List,
}
use wezterm_attention.Protocol.{
  Provider, ToolClass, QuestionMode, ToolClassification, Result, ok, err, Manifest,
}
use wezterm_attention.Protocol.Spelling.{provider_str}
use wezterm_attention.Prelude.Json.{and_then}
use wezterm_attention.Observations.{Actor, ObservationBody, LifecycleObservation}

unfoldable pub kind : ObservationBody → String
kind (ObservationBody.prompt_submitted _) = "prompt_submitted"
kind (ObservationBody.tool_preflight _ _ _) = "tool_preflight"
kind (ObservationBody.tool_result _ _ _ _ _ _) = "tool_result"
kind (ObservationBody.approval_requested _) = "approval_requested"
kind (ObservationBody.automatic_denial _ _) = "automatic_denial"
kind (ObservationBody.response_finished _) = "response_finished"
kind ObservationBody.run_settled = "run_settled"
kind (ObservationBody.attempt_outcome _ _ _) = "attempt_outcome"
kind ObservationBody.user_interrupt = "user_interrupt"
kind (ObservationBody.elicitation_requested _) = "elicitation_requested"
kind (ObservationBody.elicitation_action_selected _) = "elicitation_action_selected"
kind (ObservationBody.notice _) = "notice"
kind (ObservationBody.compaction_attempted _) = "compaction_attempted"
kind (ObservationBody.compaction_succeeded _) = "compaction_succeeded"

abbrev pool_of_class : ToolClass → String
pool_of_class ToolClass.generic = "general"
pool_of_class ToolClass.question = "requests"
pool_of_class ToolClass.permission = "requests"

unfoldable pub pool : ObservationBody → String
pool (ObservationBody.tool_preflight _ class _) = pool_of_class class
pool (ObservationBody.tool_result _ class _ _ _ _) = pool_of_class class
pool (ObservationBody.approval_requested _) = "requests"
pool (ObservationBody.automatic_denial _ _) = "requests"
pool (ObservationBody.elicitation_requested _) = "requests"
pool (ObservationBody.elicitation_action_selected _) = "requests"
pool (ObservationBody.notice _) = "requests"
pool (ObservationBody.prompt_submitted _) = "general"
pool (ObservationBody.response_finished _) = "general"
pool ObservationBody.run_settled = "general"
pool (ObservationBody.attempt_outcome _ _ _) = "general"
pool ObservationBody.user_interrupt = "general"
pool (ObservationBody.compaction_attempted _) = "general"
pool (ObservationBody.compaction_succeeded _) = "general"

-- A tool's name, its class and its question mode.
pub record ToolUse : Type 0 where
  pub tool_name : String
  pub tool_class : ToolClass
  pub question_mode : Option QuestionMode

unfoldable pub tool : ObservationBody → Option ToolUse
tool (ObservationBody.tool_preflight name class mode) =
    some record { tool_name = name; tool_class = class; question_mode = mode }
tool (ObservationBody.tool_result name class mode _ _ _) =
    some record { tool_name = name; tool_class = class; question_mode = mode }
tool _ = none

abbrev pub class_eq : ToolClass → ToolClass → Bool
class_eq ToolClass.generic ToolClass.generic = true
class_eq ToolClass.question ToolClass.question = true
class_eq ToolClass.permission ToolClass.permission = true
class_eq _ _ = false

abbrev pub mode_eq : Option QuestionMode → Option QuestionMode → Bool
mode_eq none none = true
mode_eq (some QuestionMode.blocking) (some QuestionMode.blocking) = true
mode_eq (some QuestionMode.nonblocking) (some QuestionMode.nonblocking) = true
mode_eq _ _ = false

abbrev pub tool_eq : Option ToolUse → Option ToolUse → Bool
tool_eq none none = true
tool_eq (some t) (some u) =
    str_eq t.tool_name u.tool_name
    && class_eq t.tool_class u.tool_class
    && mode_eq t.question_mode u.question_mode
tool_eq _ _ = false

abbrev pub is_lead : Actor → Bool
is_lead Actor.lead = true
is_lead (Actor.child _ _) = false

abbrev pub is_prompt : ObservationBody → Bool
is_prompt (ObservationBody.prompt_submitted _) = true
is_prompt _ = false

unfoldable pub is_lead_prompt : LifecycleObservation → Bool
is_lead_prompt item = is_lead item.actor && is_prompt item.body

-- The provider's id of the turn an observation belongs to.
unfoldable pub turn_id : LifecycleObservation → Option String
turn_id item = and_then item.correlation (λ c. c.turn_id)

module _ (manifest : Result Manifest) where
  -- A table by provider, then by kind or by tool.
  abbrev pub listed :
      (Manifest → String → Option (String → Option (List String)))
      → Provider
      → LifecycleObservation
      → Bool
  listed table provider item = elim manifest [
    | err e ↦ false
    | ok m ↦
        is_some_and (and_then (table m (provider_str provider)) (λ kinds. kinds (kind item.body)))
          (λ sources. contains sources item.source_event)
  ]

  unfoldable pub ends_turn : Provider → LifecycleObservation → Bool
  ends_turn provider item = is_lead item.actor && listed (λ m. m.turn_end_sources) provider item

  abbrev classified : Option ToolClassification → ToolClass × Option QuestionMode
  classified (some c) = (c.tool_class, c.question_mode)
  classified none = (ToolClass.generic, none)

  unfoldable pub classify_tool : Provider → String → ToolClass × Option QuestionMode
  classify_tool provider name = elim manifest [
    | err e ↦ classified none
    | ok m ↦
        classified (and_then (m.tool_classification (provider_str provider)) (λ tools. tools name))
  ]
