-- ===== src/Observations/Prompts/Answers.antt =====
-- src/observations.rs: the answers of the prompt record before and after a hook.
use wezterm_attention.Prelude.{
  ℕ, ◌-◌, ◌≤◌, ◌≡◌, ◌↔◌, inl, inr, refl, sym, ap, subst, ◌∙◌, Bool, true, false, not, ◌||◌, List,
  [], ◌∷◌, ◌++◌, length, any, All, All-append, All-implied, arith, nat_eq, nat_eq_iff,
  if◌then◌else◌, Bool-cases, absurd_bool,
}
use wezterm_attention.Prelude.Sorting.{Ascending-sort_by, sort_by, All-sort_by, Ascending}
use wezterm_attention.Observations.Prompts.{
  PromptReference, AnsweredQuestion, PromptAnswer, LeadPrompts, same_question, answer_of,
  add_answers, answer_ltb, answer_eq, answers_eq, drain, record_answers,
}
use wezterm_attention.Observations.Prompts.Order.{
  All-drain, length-drain, Ascending-drain, answer_eq_refl, any-append, same_question_refl,
  add_answers-length, answers_eq_refl, answers_eq_sound, answer_ltb_asym, answer_ltb_later,
}

-- Where an answer of the record after a hook comes from: it stood there before, or the hook's
-- prompt answered a question that had no answer.
pub data From (before : List PromptAnswer) (prompt : PromptReference)
    (answered : List AnsweredQuestion) (a : PromptAnswer) : Type 0 where
  stood : any (answer_eq a) before ≡ true → From before prompt answered a
  first_answer :
      (q : AnsweredQuestion)
      → any (λ r. same_question r (answer_of prompt q)) answered ≡ true
      → any (same_question q) before ≡ false
      → a ≡ answer_of prompt q
      → From before prompt answered a

-- Every element of a list is among its elements.
All-self :
    {A : Type 0} (r : A → A → Bool) (xs : List A)
    → ((a : A) → r a a ≡ true)
    → All (λ a. any (r a) xs ≡ true) xs
All-self r [] h = tt
All-self r (x ∷ xs) h = (
  rw (h x) refl,
  All-implied (λ a. any (r a) xs ≡ true) (λ a. (r a x || any (r a) xs) ≡ true) xs
      (λ a k. ground (arith, k)) (All-self r xs h),
)

module _ (before : List PromptAnswer) (prompt : PromptReference)
    (answered : List AnsweredQuestion) where
  add_answers-From :
      (questions : List AnsweredQuestion) (current : List PromptAnswer)
      → All (λ q. any (λ r. same_question r (answer_of prompt q)) answered ≡ true) questions
      → ((q : AnsweredQuestion)
          → any (same_question q) before ≡ true
          → any (same_question q) current ≡ true)
      → All (From before prompt answered) current
      → All (From before prompt answered) (add_answers prompt questions current)
  unfolding add_answers
  add_answers-From [] current member grows h = h
  add_answers-From (q ∷ qs) current (here, member) grows h =
      elim (Bool-cases (any (same_question q) current)) [
        | inl known ↦ rw known (add_answers-From qs current member grows h)
        | inr new ↦
            let unanswered : any (same_question q) before ≡ false = ground (arith, grows q) in
            rw new (
              add_answers-From qs (current ++ answer_of prompt q ∷ []) member
                (λ r k. any-append (same_question r) current _ ∙ ground (arith, grows r k))
                (All-append (From before prompt answered) current (answer_of prompt q ∷ []) h
                  (From.first_answer q here unanswered refl, tt)))
      ]

module _ (s : LeadPrompts) (prompt : PromptReference) (answered : List AnsweredQuestion)
    (limit : ℕ) where
  abbrev pub after : List PromptAnswer
  after = (record_answers s prompt answered limit).0.answers

  abbrev Origin : PromptAnswer → Type 0
  Origin = From s.answers prompt answered

  added_origins : All Origin (add_answers prompt answered s.answers)
  added_origins =
      add_answers-From s.answers prompt answered answered s.answers
        (All-self (λ q r. same_question r (answer_of prompt q)) answered
          (λ q. same_question_refl prompt q))
        (λ q k. k)
        (All-implied (λ a. any (answer_eq a) s.answers ≡ true) Origin s.answers
          (λ a k. From.stood k) (All-self answer_eq s.answers answer_eq_refl))

  abbrev kept : List PromptAnswer
  kept =
      let sorted = sort_by answer_ltb (add_answers prompt answered s.answers) in
      drain (length sorted - limit) sorted

  split_result :
      (P : LeadPrompts × Bool → Type 0) (added : List PromptAnswer) (b : Bool)
      → nat_eq (length added) (length s.answers) ≡ b
      → (length added ≡ length s.answers → P (record s { answers = added }, false))
      → P (
        record s {
          answers = drain (length (sort_by answer_ltb added) - limit) (sort_by answer_ltb added);
        },
        not (
            answers_eq
              (drain (length (sort_by answer_ltb added) - limit) (sort_by answer_ltb added))
              s.answers),
      )
      → P (
          if b then (record s { answers = added }, false) else (
            record s {
              answers =
                  drain (length (sort_by answer_ltb added) - limit) (sort_by answer_ltb added);
            },
            not (
                answers_eq
                  (drain (length (sort_by answer_ltb added) - limit) (sort_by answer_ltb added))
                  s.answers),
          ))
  split_result P added true e f g = f (ground (arith, nat_eq_iff (length added) (length s.answers)))
  split_result P added false e f g = g

  -- The two ways the hook leaves the record.
  record_answers_cases :
      (P : LeadPrompts × Bool → Type 0)
      → (add_answers prompt answered s.answers ≡ s.answers → P (s, false))
      → P (record s { answers = kept }, not (answers_eq kept s.answers))
      → P (record_answers s prompt answered limit)
  unfolding record_answers
  record_answers_cases P f g =
      let added = add_answers prompt answered s.answers in
      let (_, same) = add_answers-length prompt answered s.answers in
      split_result P added (nat_eq (length added) (length s.answers)) refl
        (λ e. subst (λ l. P (record s { answers = l }, false)) (sym (same e)) (f (same e))) g

  -- Every answer after a hook stood there before, or is the hook's own prompt for a question that
  -- it names and that had no answer: the first answer to a question is never replaced.
  pub record_answers-From : All (From s.answers prompt answered) after
  record_answers-From =
      record_answers_cases (λ r. All Origin r.0.answers)
        (λ same. subst (All Origin) same added_origins)
        (All-drain Origin _ _ (All-sort_by Origin answer_ltb _ added_origins))

  -- The flag is false exactly when the hook left the record as it stood.
  pub record_answers-changed_iff :
      ((record_answers s prompt answered limit).1 ≡ false)
      ↔ ((record_answers s prompt answered limit).0 ≡ s)
  record_answers-changed_iff =
      record_answers_cases (λ r. (r.1 ≡ false) ↔ (r.0 ≡ s)) (λ same. (λ e. refl, λ e. refl))
        (
          λ e.
              ap (λ l. record s { answers = l })
                (answers_eq_sound kept s.answers (ground (arith, e))),
          λ e.
              let same : kept ≡ s.answers = ap (λ r. r.answers) e in
              rw (ap (answers_eq kept) (sym same), answers_eq_refl kept) refl,
        )

  -- A hook that changes the record leaves at most `limit` answers, in observation order.
  pub record_answers-length :
      (record_answers s prompt answered limit).1 ≡ true
      → (length after ≤ limit) × Ascending answer_ltb after
  record_answers-length =
      let now = add_answers prompt answered s.answers in
      let sorted = sort_by answer_ltb now in
      record_answers_cases
        (λ r. r.1 ≡ true → (length r.0.answers ≤ limit) × Ascending answer_ltb r.0.answers)
        (λ same e. absurd_bool e)
        (λ e. (
          omega (arith, length-drain (length sorted - limit) sorted),
          Ascending-drain (length sorted - limit) sorted
              (Ascending-sort_by answer_ltb answer_ltb_asym answer_ltb_later now),
        ))
