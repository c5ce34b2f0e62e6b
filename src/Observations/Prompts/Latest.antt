-- ===== src/Observations/Prompts/Latest.antt =====
-- src/observations.rs: the lead's latest prompt and the order in which hooks are delivered.
use wezterm_attention.Prelude.{
  ◌≡◌, refl, sym, ap, ◌∙◌, Bool, true, false, ◌||◌, Bool-cases, inl, inr, absurd_bool, Option, none,
  some, is_none_or, if◌then◌else◌,
}
use wezterm_attention.Prelude.Sorting.{pair_ltb_trans, pair_ltb_asym}
use wezterm_attention.Observations.Prompts.{PromptReference, LeadPrompts, order_ltb, record_prompt}

abbrev newest : Option PromptReference → PromptReference → Option PromptReference
newest latest prompt = if is_none_or latest (λ l. order_ltb l prompt) then some prompt else latest

settled :
    (s : LeadPrompts) (p : PromptReference) (b : Bool)
    → (let r : LeadPrompts × Bool =
          (if b then (record s { latest = some p }, true) else (s, false)) in
        r.0 ≡ record s { latest = if b then some p else s.latest })
settled s p true = refl
settled s p false = refl

record_prompt_latest :
    (s : LeadPrompts) (p : PromptReference)
    → (record_prompt s p).0 ≡ record s { latest = newest s.latest p }
unfolding record_prompt
record_prompt_latest s p = settled s p (is_none_or s.latest (λ l. order_ltb l p))

module _ (l p q : PromptReference) where
  before_both :
      order_ltb l p ≡ true
      → order_ltb l q ≡ true
      → (order_ltb p q || order_ltb q p) ≡ true
      → newest (newest (some l) p) q ≡ newest (newest (some l) q) p
  before_both a b h = elim (Bool-cases (order_ltb p q)) [
    | inl first ↦ rw (a, b, first, pair_ltb_asym _ _ _ _ first) refl
    | inr second ↦
        let later : order_ltb q p ≡ true = (rw second at h) in rw (a, b, second, later) refl
  ]

  -- What is not after the latest comes before what is.
  before_one : order_ltb l p ≡ true → order_ltb l q ≡ false → order_ltb p q ≡ false
  before_one a b = elim (Bool-cases (order_ltb p q)) [
    | inl first ↦ absurd_bool (sym b ∙ pair_ltb_trans _ _ _ _ _ _ a first)
    | inr second ↦ second
  ]

newest-newest :
    (latest : Option PromptReference) (p q : PromptReference)
    → (order_ltb p q || order_ltb q p) ≡ true
    → newest (newest latest p) q ≡ newest (newest latest q) p
newest-newest none p q h = elim (Bool-cases (order_ltb p q)) [
  | inl first ↦ rw (first, pair_ltb_asym _ _ _ _ first) refl
  | inr second ↦ let later : order_ltb q p ≡ true = (rw second at h) in rw (second, later) refl
]
newest-newest (some l) p q h = elim (Bool-cases (order_ltb l p)) [
  | inl a ↦ elim (Bool-cases (order_ltb l q)) [
    | inl b ↦ before_both l p q a b h
    | inr b ↦ rw (a, b, before_one l p q a b, a) refl
  ]
  | inr a ↦ elim (Bool-cases (order_ltb l q)) [
    | inl b ↦ rw (a, b, before_one l q p b a) refl
    | inr b ↦ rw (a, b, a) refl
  ]
]

-- Two prompts of different orders leave the same record whichever is delivered first.
pub record_prompt-record_prompt :
    (s : LeadPrompts) (p q : PromptReference)
    → (order_ltb p q || order_ltb q p) ≡ true
    → (record_prompt (record_prompt s p).0 q).0 ≡ (record_prompt (record_prompt s q).0 p).0
record_prompt-record_prompt s p q h =
    rw
      (
        record_prompt_latest s p,
        record_prompt_latest s q,
        record_prompt_latest (record s { latest = newest s.latest p }) q,
        record_prompt_latest (record s { latest = newest s.latest q }) p,
      )
      (ap (λ l. record s { latest = l }) (newest-newest s.latest p q h))
