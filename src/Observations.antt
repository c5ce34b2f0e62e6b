-- ===== src/Observations.antt =====
-- src/observations.rs: the observations that a binding's hooks leave, and the pools that keep them.
pub mod Body
pub mod Keys
pub mod Prompts
pub mod Same
pub mod Validate
pub mod Reduce
use wezterm_attention.Prelude.{ℕ, Bool, String, List, Option}
use wezterm_attention.Protocol.{Provider, ToolClass, QuestionMode}
use wezterm_attention.Identity.{PaneAddress}
use wezterm_attention.HoldCheck.{HoldCheckOutcome}

pub data ResultSurface : Type 0 where
  success_hook post_hook execution_end : ResultSurface

pub data AttemptOutcome : Type 0 where
  failed aborted : AttemptOutcome

pub data SelectionAction : Type 0 where
  accept decline cancel : SelectionAction

pub data NoticeSubtype : Type 0 where
  permission_prompt elicitation_dialog elicitation_url_dialog : NoticeSubtype

pub data ElicitationMode : Type 0 where
  form url : ElicitationMode

pub data Actor : Type 0 where
  lead : Actor
  child : (agent_id agent_key : String) → Actor

pub record NativeCorrelation : Type 0 where
  pub mcp_server_name : Option String
  pub turn_id : Option String
  pub tool_call_id : Option String
  pub elicitation_id : Option String
  pub message_id : Option String

pub data ObservationBody : Type 0 where
  prompt_submitted : (input_source : Option String) → ObservationBody
  tool_preflight :
      (tool_name : String) (tool_class : ToolClass) (question_mode : Option QuestionMode)
      → ObservationBody
  tool_result :
      (tool_name : String) (tool_class : ToolClass) (question_mode : Option QuestionMode)
      (result_surface : ResultSurface) (is_error interrupted : Option Bool)
      → ObservationBody
  approval_requested : (tool_name : Option String) → ObservationBody
  automatic_denial : (tool_name policy_scope : String) → ObservationBody
  response_finished : (stop_hook_active : Option Bool) → ObservationBody
  run_settled : ObservationBody
  attempt_outcome :
      (outcome : AttemptOutcome) (error_category error_code : Option String) → ObservationBody
  user_interrupt : ObservationBody
  elicitation_requested : (mode : ElicitationMode) → ObservationBody
  elicitation_action_selected : (action : SelectionAction) → ObservationBody
  notice : (subtype : NoticeSubtype) → ObservationBody
  compaction_attempted : (trigger : Option String) → ObservationBody
  compaction_succeeded : (trigger : Option String) → ObservationBody

pub data TurnEndStatus : Type 0 where
  recorded superseded unconfirmed : TurnEndStatus

pub record TurnEnd : Type 0 where
  pub status : TurnEndStatus
  pub held : Option Bool
  pub hold_checks : List HoldCheckOutcome

pub record LifecycleObservation : Type 0 where
  pub observation_id : String
  pub source_event : String
  pub source_version : Option String
  pub observed_mono_ns : String
  pub written_at_unix_ns : String
  pub actor : Actor
  pub correlation : Option NativeCorrelation
  pub turn_end : Option TurnEnd
  pub body : ObservationBody

pub record ObservationPool : Type 0 where
  pub observations : List LifecycleObservation
  pub retention_floor_mono_ns : Option String

pub record ObservationPools : Type 0 where
  pub requests : ObservationPool
  pub general : ObservationPool

pub record LifecycleSnapshot : Type 0 where
  pub kind : String
  pub schema : ℕ
  pub address : PaneAddress
  pub launch_id : String
  pub binding_id : String
  pub provider : Provider
  pub snapshot_id : String
  pub written_at_unix_ns : String
  pub pools : ObservationPools
