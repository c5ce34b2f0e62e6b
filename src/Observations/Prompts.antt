-- ===== src/Observations/Prompts.antt =====
-- src/observations.rs: the lead's latest prompt and the questions that its prompts answered.
pub mod Order
pub mod Answers
pub mod Latest
mod Tests
use wezterm_attention.Prelude.{
  ℕ, zero, suc, ◌-◌, Bool, true, false, not, ◌&&◌, ◌||◌, String, Option, none, some, is_none_or,
  List, [], ◌∷◌, ◌++◌, length, any, ltb, nat_eq, if◌then◌else◌, str_eq, str_ltb,
}
use wezterm_attention.Prelude.Sorting.{pair_ltb, sort_by}
use wezterm_attention.Identity.{PaneAddress}
use wezterm_attention.Observations.{LifecycleObservation}

pub record PromptReference : Type 0 where
  pub observation_id : String
  pub observed_mono_ns : String
  pub written_at_unix_ns : String

pub record AnsweredQuestion : Type 0 where
  pub tool_call_id : String
  pub question_index : ℕ

pub record PromptAnswer : Type 0 where
  pub tool_call_id : String
  pub question_index : ℕ
  pub observation_id : String
  pub observed_mono_ns : String

pub record LeadPrompts : Type 0 where
  pub kind : String
  pub schema : ℕ
  pub address : PaneAddress
  pub launch_id : String
  pub binding_id : String
  pub latest : Option PromptReference
  pub answers : List PromptAnswer

-- `PromptReference::of`.
unfoldable pub reference_of : LifecycleObservation → PromptReference
reference_of prompt = record {
  observation_id = prompt.observation_id;
  observed_mono_ns = prompt.observed_mono_ns;
  written_at_unix_ns = prompt.written_at_unix_ns;
}

-- `a.order() < b.order()`.
abbrev pub order_ltb : PromptReference → PromptReference → Bool
order_ltb a b = pair_ltb a.observed_mono_ns a.observation_id b.observed_mono_ns b.observation_id

unfoldable pub later_of : Option PromptReference → Option PromptReference → Option PromptReference
later_of (some stored) (some pooled) =
    if not (order_ltb stored pooled) then some stored else some pooled
later_of (some stored) none = some stored
later_of none pooled = pooled

-- `LeadPrompts::empty`.
unfoldable pub empty_prompts : PaneAddress → String → String → ℕ → LeadPrompts
empty_prompts address launch_id binding_id schema = record {
  kind = "lead_prompts";
  schema = schema;
  address = address;
  launch_id = launch_id;
  binding_id = binding_id;
  latest = none;
  answers = [];
}

unfoldable pub record_prompt : LeadPrompts → PromptReference → LeadPrompts × Bool
record_prompt s prompt =
    if is_none_or s.latest (λ latest. order_ltb latest prompt)
    then (record s { latest = some prompt }, true)
    else (s, false)

abbrev pub same_question : AnsweredQuestion → PromptAnswer → Bool
same_question question answer =
    str_eq answer.tool_call_id question.tool_call_id
    && nat_eq answer.question_index question.question_index

abbrev pub answer_of : PromptReference → AnsweredQuestion → PromptAnswer
answer_of prompt question = record {
  tool_call_id = question.tool_call_id;
  question_index = question.question_index;
  observation_id = prompt.observation_id;
  observed_mono_ns = prompt.observed_mono_ns;
}

-- The loop over the questions that a prompt answered.
unfoldable pub add_answers :
    PromptReference → List AnsweredQuestion → List PromptAnswer → List PromptAnswer
add_answers prompt [] answers = answers
add_answers prompt (question ∷ questions) answers = add_answers prompt questions (
    if any (same_question question) answers
    then answers
    else answers ++ answer_of prompt question ∷ [])

abbrev pub answer_ltb : PromptAnswer → PromptAnswer → Bool
answer_ltb a b =
    pair_ltb a.observed_mono_ns a.tool_call_id b.observed_mono_ns b.tool_call_id
    || (str_eq a.observed_mono_ns b.observed_mono_ns
        && str_eq a.tool_call_id b.tool_call_id
        && ltb a.question_index b.question_index)

abbrev pub answer_eq : PromptAnswer → PromptAnswer → Bool
answer_eq a b =
    str_eq a.tool_call_id b.tool_call_id
    && nat_eq a.question_index b.question_index
    && str_eq a.observation_id b.observation_id
    && str_eq a.observed_mono_ns b.observed_mono_ns

abbrev pub answers_eq : List PromptAnswer → List PromptAnswer → Bool
answers_eq [] [] = true
answers_eq [] (b ∷ bs) = false
answers_eq (a ∷ rest) [] = false
answers_eq (a ∷ rest) (b ∷ bs) = answer_eq a b && answers_eq rest bs

-- `drain(..n)`.
abbrev pub drain {ℓ} : {A : Type ℓ} → ℕ → List A → List A
drain n [] = []
drain zero (x ∷ xs) = x ∷ xs
drain (suc n) (x ∷ xs) = drain n xs

unfoldable pub record_answers :
    LeadPrompts → PromptReference → List AnsweredQuestion → ℕ → LeadPrompts × Bool
record_answers s prompt answered limit =
    let added = add_answers prompt answered s.answers in
    if nat_eq (length added) (length s.answers)
    then (record s { answers = added }, false)
    else let sorted = sort_by answer_ltb added in
      let kept = drain (length sorted - limit) sorted in
      (record s { answers = kept }, not (answers_eq kept s.answers))
