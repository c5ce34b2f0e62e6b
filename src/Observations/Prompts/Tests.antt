-- ===== src/Observations/Prompts/Tests.antt =====
-- src/observations.rs: a record of two answers, and prompts that come late.
use wezterm_attention.Prelude.{
  ℕ, ◌≡◌, ◌↔◌, refl, true, ◌||◌, String, none, some, List, [], ◌∷◌, All, str_ltb, ◌<◌, ◌^◌, arith,
}
use wezterm_attention.Protocol.Text.{byte_len}
use wezterm_attention.Observations.{Actor, ObservationBody, LifecycleObservation}
use wezterm_attention.Observations.Keys.{storage_key, storage_key_parts, parts_list}
use wezterm_attention.Observations.Body.{kind}
use wezterm_attention.Observations.Keys.Injective.{Addressable, storage_key_iff}
use wezterm_attention.Observations.Prompts.{
  PromptReference, AnsweredQuestion, PromptAnswer, LeadPrompts, order_ltb, record_prompt,
  record_answers, add_answers,
}
use wezterm_attention.Observations.Prompts.Answers.{From, after, record_answers-From}
use wezterm_attention.Observations.Prompts.Latest.{record_prompt-record_prompt}

abbrev prompt : String → String → PromptReference
prompt id stamp = record {
  observation_id = id;
  observed_mono_ns = stamp;
  written_at_unix_ns = stamp;
}

abbrev question : String → ℕ → AnsweredQuestion
question call index = record { tool_call_id = call; question_index = index }

abbrev answer : String → ℕ → String → String → PromptAnswer
answer call index id stamp = record {
  tool_call_id = call;
  question_index = index;
  observation_id = id;
  observed_mono_ns = stamp;
}

abbrev prompts : LeadPrompts
prompts = record {
  kind = "lead_prompts";
  schema = 2;
  address = record { realm_id = "r"; incarnation_id = "i"; pane_id = "3" };
  launch_id = "launch";
  binding_id = "binding";
  latest = some (prompt "p1" "10");
  answers = answer "call" 0 "p1" "10" ∷ answer "call" 1 "p1" "10" ∷ [];
}

abbrev asked : List AnsweredQuestion
asked = question "call" 1 ∷ question "next" 0 ∷ []

-- The question that has an answer keeps it, and beyond two the oldest goes.
answers_pushed_out :
    after prompts (prompt "p2" "20") asked 2
    ≡ answer "call" 1 "p1" "10" ∷ answer "next" 0 "p2" "20" ∷ []
unfolding record_answers add_answers str_ltb
answers_pushed_out = refl

record_answers-From_example :
    All (From prompts.answers (prompt "p2" "20") asked) (after prompts (prompt "p2" "20") asked 2)
record_answers-From_example = record_answers-From prompts (prompt "p2" "20") asked 2

changes : (record_answers prompts (prompt "p2" "20") asked 2).1 ≡ true
unfolding record_answers add_answers str_ltb
changes = refl

differ :
    (order_ltb (prompt "p3" "30") (prompt "p2" "20")
      || order_ltb (prompt "p2" "20") (prompt "p3" "30"))
    ≡ true
unfolding str_ltb
differ = refl

record_prompt-record_prompt_example :
    (record_prompt (record_prompt prompts (prompt "p3" "30")).0 (prompt "p2" "20")).0
    ≡ (record_prompt (record_prompt prompts (prompt "p2" "20")).0 (prompt "p3" "30")).0
record_prompt-record_prompt_example =
    record_prompt-record_prompt prompts (prompt "p3" "30") (prompt "p2" "20") differ

abbrev notice_of : String → LifecycleObservation
notice_of id = record {
  observation_id = id;
  source_event = "UserPromptSubmit";
  source_version = none;
  observed_mono_ns = "10";
  written_at_unix_ns = "10";
  actor = Actor.lead;
  correlation = none;
  turn_end = none;
  body = ObservationBody.prompt_submitted none;
}

parts_fit :
    (id : String)
    → byte_len id < 2 ^ 64
    → All Addressable (parts_list (storage_key_parts (notice_of id)))
unfolding storage_key_parts kind byte_len
parts_fit id h = ground arith

storage_key_iff_example :
    (storage_key (notice_of "1:a") ≡ storage_key (notice_of "a:1"))
    ↔ (storage_key_parts (notice_of "1:a") ≡ storage_key_parts (notice_of "a:1"))
unfolding byte_len
storage_key_iff_example =
    storage_key_iff (notice_of "1:a") (notice_of "a:1") (parts_fit "1:a" (omega arith))
      (parts_fit "a:1" (omega arith))
