-- ===== src/Observations/Prompts/Order.antt =====
-- src/observations.rs: the order and the equality of the answers, and what the loop over the
-- questions adds.
use wezterm_attention.Prelude.{
  ℕ, zero, suc, ◌-◌, ◌≤◌, ◌≡◌, inl, inr, refl, Bool, true, false, ◌||◌, List, [], ◌∷◌, ◌++◌, length,
  any, All, length-append, arith, nat_eq_iff, eq_iff, eq_refl, Bool-cases, absurd_bool,
}
use wezterm_attention.Prelude.Sorting.{
  str_ltb_later, str_ltb_later_eq, pair_ltb_asym, pair_ltb_irrefl, Ascending,
}
use wezterm_attention.Observations.Prompts.{
  PromptReference, AnsweredQuestion, PromptAnswer, same_question, answer_of, add_answers,
  answer_ltb, answer_eq, answers_eq, drain,
}

module _ {ℓ κ} {A : Type ℓ} (P : A → Type κ) where
  pub All-drain : (n : ℕ) (xs : List A) → All P xs → All P (drain n xs)
  All-drain n [] h = tt
  All-drain zero (x ∷ xs) h = h
  All-drain (suc n) (x ∷ xs) (p, h) = All-drain n xs h

pub length-drain : {A : Type 0} (n : ℕ) (xs : List A) → length (drain n xs) ≡ length xs - n
length-drain n [] = omega arith
length-drain zero (x ∷ xs) = omega arith
length-drain (suc n) (x ∷ xs) = omega (arith, length-drain n xs)

pub Ascending-drain :
    (n : ℕ) (xs : List PromptAnswer) → Ascending answer_ltb xs → Ascending answer_ltb (drain n xs)
Ascending-drain n [] h = tt
Ascending-drain zero (x ∷ xs) h = h
Ascending-drain (suc n) (x ∷ xs) (first, h) = Ascending-drain n xs h

pub answer_eq_refl : (a : PromptAnswer) → answer_eq a a ≡ true
answer_eq_refl a =
    ground (arith, eq_refl a.tool_call_id, eq_refl a.observation_id, eq_refl a.observed_mono_ns)

pub any-append :
    {A : Type 0} (p : A → Bool) (xs ys : List A) → any p (xs ++ ys) ≡ (any p xs || any p ys)
any-append p [] ys = refl
any-append p (x ∷ xs) ys = ground (arith, any-append p xs ys)

pub same_question_refl :
    (prompt : PromptReference) (q : AnsweredQuestion) → same_question q (answer_of prompt q) ≡ true
same_question_refl prompt q = ground (arith, eq_refl q.tool_call_id)

-- The loop only adds.
pub add_answers-length :
    (prompt : PromptReference) (questions : List AnsweredQuestion) (answers : List PromptAnswer)
    → (length answers ≤ length (add_answers prompt questions answers))
      × (length (add_answers prompt questions answers) ≡ length answers
          → add_answers prompt questions answers ≡ answers)
unfolding add_answers
add_answers-length prompt [] answers = (omega arith, λ e. refl)
add_answers-length prompt (q ∷ qs) answers = elim (Bool-cases (any (same_question q) answers)) [
  | inl known ↦ rw known (add_answers-length prompt qs answers)
  | inr new ↦
      let longer = length-append answers (answer_of prompt q ∷ []) in
      let (le, same) = add_answers-length prompt qs (answers ++ answer_of prompt q ∷ []) in
      rw new (omega (arith, longer, le), λ e. absurd (omega (arith, longer, le, e)))
]

pub answers_eq_refl : (xs : List PromptAnswer) → answers_eq xs xs ≡ true
answers_eq_refl [] = refl
answers_eq_refl (x ∷ xs) = ground (arith, answer_eq_refl x, answers_eq_refl xs)

pub answer_eq_sound : (a b : PromptAnswer) → answer_eq a b ≡ true → a ≡ b
answer_eq_sound a b h =
    let call : a.tool_call_id ≡ b.tool_call_id =
      ground (arith, eq_iff a.tool_call_id b.tool_call_id) in
    let index : a.question_index ≡ b.question_index =
      ground (arith, nat_eq_iff a.question_index b.question_index) in
    let id : a.observation_id ≡ b.observation_id =
      ground (arith, eq_iff a.observation_id b.observation_id) in
    let order : a.observed_mono_ns ≡ b.observed_mono_ns =
      ground (arith, eq_iff a.observed_mono_ns b.observed_mono_ns) in
    cc

pub answers_eq_sound : (xs ys : List PromptAnswer) → answers_eq xs ys ≡ true → xs ≡ ys
answers_eq_sound [] [] h = refl
answers_eq_sound [] (y ∷ ys) h = absurd_bool h
answers_eq_sound (x ∷ xs) [] h = absurd_bool h
answers_eq_sound (x ∷ xs) (y ∷ ys) h =
    let head : x ≡ y = answer_eq_sound x y (ground arith) in
    let rest : xs ≡ ys = answers_eq_sound xs ys (ground arith) in cc

pub answer_ltb_asym : (a b : PromptAnswer) → answer_ltb a b ≡ true → answer_ltb b a ≡ false
answer_ltb_asym a b h = ground (
  arith,
  pair_ltb_asym a.observed_mono_ns a.tool_call_id b.observed_mono_ns b.tool_call_id,
  pair_ltb_irrefl a.observed_mono_ns a.tool_call_id,
  eq_iff a.observed_mono_ns b.observed_mono_ns,
  eq_iff b.observed_mono_ns a.observed_mono_ns,
  eq_iff a.tool_call_id b.tool_call_id,
  eq_iff b.tool_call_id a.tool_call_id,
)

pub answer_ltb_later :
    (a b c : PromptAnswer)
    → answer_ltb b a ≡ false
    → answer_ltb c b ≡ false
    → answer_ltb c a ≡ false
answer_ltb_later a b c h k = ground (
  arith,
  str_ltb_later a.observed_mono_ns b.observed_mono_ns c.observed_mono_ns,
  str_ltb_later a.tool_call_id b.tool_call_id c.tool_call_id,
  str_ltb_later_eq a.observed_mono_ns b.observed_mono_ns,
  str_ltb_later_eq a.tool_call_id b.tool_call_id,
  eq_iff c.observed_mono_ns a.observed_mono_ns,
  eq_iff c.tool_call_id a.tool_call_id,
  eq_iff a.observed_mono_ns b.observed_mono_ns,
  eq_iff a.tool_call_id b.tool_call_id,
  eq_iff b.observed_mono_ns a.observed_mono_ns,
  eq_iff b.tool_call_id a.tool_call_id,
  eq_iff c.observed_mono_ns b.observed_mono_ns,
  eq_iff c.tool_call_id b.tool_call_id,
)
