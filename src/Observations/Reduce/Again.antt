-- ===== src/Observations/Reduce/Again.antt =====
-- src/observations.rs: an observation that is delivered again.
use wezterm_attention.Prelude.{
  ◌≡◌, inl, inr, refl, sym, ap, ◌∙◌, Bool, true, false, not, ◌&&◌, String, Option, none, some,
  is_some_and, is_some, if◌then◌else◌, List, [], ◌∷◌, ◌++◌, any, retain, arith, Bool-cases, str_eq,
  str_ltb, str_ltb_irrefl, str_ltb_asym, absurd_bool,
}
use wezterm_attention.Protocol.{Result, ok, bind_elim, Manifest, ◌>>=◌}
use wezterm_attention.Observations.{LifecycleObservation, LifecycleSnapshot}
use wezterm_attention.Observations.Body.{pool, tool, turn_id, is_lead_prompt, ends_turn}
use wezterm_attention.Observations.Prompts.{PromptReference}
use wezterm_attention.Observations.Same.{option_eq}
use wezterm_attention.Observations.Same.Reflexive.{semantic_eq_refl, tool_eq_refl}
use wezterm_attention.Observations.Validate.{Outside, refuse_if}
use wezterm_attention.Observations.Reduce.{
  Reduced, repeats, lead_observations, unchanged_if, in_pool, meet_existing, reduce,
}
use wezterm_attention.Observations.Reduce.Evict.{In}
use wezterm_attention.Observations.Reduce.Sound.{refuse_if_elim}
use wezterm_attention.Observations.Reduce.Kept.{In-append_left, In-append_right}
use wezterm_attention.Observations.Reduce.Taken.{reduce-Changed}
use wezterm_attention.Observations.Reduce.Apart.{find_key-Apart, validate_semantics-Apart}

-- Nothing that comes after a stamp comes before it.
none_between :
    (p : LifecycleObservation → Bool) (stamp : String) (xs : List LifecycleObservation)
    → any
        (λ x. p x && str_ltb x.observed_mono_ns stamp)
        (retain (λ x. str_ltb stamp x.observed_mono_ns) xs)
      ≡ false
none_between p stamp [] = refl
none_between p stamp (x ∷ xs) = elim (Bool-cases (str_ltb stamp x.observed_mono_ns)) [
  | inl later ↦
      rw (later, str_ltb_asym stamp x.observed_mono_ns later)
        (ground (arith, none_between p stamp xs))
  | inr other ↦ rw other (none_between p stamp xs)
]

none_recorded :
    (prompt : Option PromptReference) (stamp : String)
    → is_some_and prompt (λ p. str_ltb stamp p.observed_mono_ns && str_ltb p.observed_mono_ns stamp)
      ≡ false
none_recorded none stamp = refl
none_recorded (some p) stamp = ground (arith, str_ltb_asym stamp p.observed_mono_ns)

either_way : (b : Bool) → (if b then true else true) ≡ true
either_way true = refl
either_way false = refl

-- An observation repeats itself, whatever the lead did later.
repeats_self :
    (manifest : Result Manifest) (outside : Outside) (t : LifecycleSnapshot)
    (c : LifecycleObservation) (prompt : Option PromptReference)
    → repeats manifest outside t c c c.observed_mono_ns prompt ≡ true
unfolding repeats
repeats_self manifest outside t c prompt =
    rw
      (
        none_between (λ x. is_lead_prompt x && not (option_eq str_eq (turn_id x) (turn_id c)))
            c.observed_mono_ns (lead_observations t),
        none_between (λ x. true) c.observed_mono_ns (lead_observations t),
        none_recorded prompt c.observed_mono_ns,
        semantic_eq_refl c,
      )
      (either_way (is_some (turn_id c) && ends_turn manifest t.provider c))

bind_intro :
    {A B : Type 0} (r : Result A) (f : A → Result B) (a : A) (b : B)
    → r ≡ ok a
    → f a ≡ ok b
    → (r >>= f) ≡ ok b
unfolding ◌>>=◌
bind_intro r f a b e h = rw e h

refuse_if_intro :
    {A : Type 0} (b : Bool) (r : Result A) (a : A) → b ≡ false → r ≡ ok a → refuse_if b r ≡ ok a
unfolding refuse_if
refuse_if_intro b r a e h = rw e h

unchanged_if_intro :
    (b : Bool) (t : LifecycleSnapshot) (r : Result Reduced)
    → (b ≡ false → r ≡ ok (t, false))
    → unchanged_if b t r ≡ ok (t, false)
unfolding unchanged_if
unchanged_if_intro true t r h = refl
unchanged_if_intro false t r h = h refl

In-pools :
    (t : LifecycleSnapshot) (c : LifecycleObservation) (b : Bool)
    → In c (in_pool b t).observations
    → In c (t.pools.requests.observations ++ t.pools.general.observations)
In-pools t c true m = In-append_left c t.pools.requests.observations t.pools.general.observations m
In-pools t c false m =
    In-append_right c t.pools.requests.observations t.pools.general.observations m

module _ (manifest : Result Manifest) (outside : Outside) (t : LifecycleSnapshot)
    (c : LifecycleObservation) (prompt : Option PromptReference) where
  -- The candidate meets itself.
  meet_existing_self :
      (inserted : Result Reduced)
      → meet_existing manifest outside t c prompt inserted (some c) ≡ ok (t, false)
  meet_existing_self inserted = refuse_if_intro _ _ _ (rw (tool_eq_refl (tool c.body)) refl) (
      unchanged_if_intro _ _ _ (λ e. absurd_bool (
        sym e
        ∙ rw (repeats_self manifest outside t c prompt, str_ltb_irrefl c.observed_mono_ns) refl)))

-- An observation that `reduce` took in is reported as no change when it is delivered again, and
-- leaves the snapshot as it stands, whatever the latest prompt is by then.
pub reduce_again :
    (manifest : Result Manifest) (outside : Outside) (s t : LifecycleSnapshot)
    (c : LifecycleObservation) (prompt later_prompt : Option PromptReference)
    (fresh_id later_id : String)
    → reduce manifest outside s c prompt fresh_id ≡ ok (t, true)
    → reduce manifest outside t c later_prompt later_id ≡ ok (t, false)
unfolding reduce
reduce_again manifest outside s t c prompt later_prompt fresh_id later_id h =
    let (taken, _, valid) = reduce-Changed manifest outside s t c fresh_id prompt h in
    bind_elim _ _ _ h (λ _ _ h1. bind_elim _ _ _ h1 (λ m parsed h2.
      bind_elim _ _ _ h2 (λ fits measured h3. refuse_if_elim _ _ _ h3 (λ within _.
        bind_intro _ _ tt _ valid (
          bind_intro _ _ m _ parsed (
            bind_intro _ _ fits _ measured (
              refuse_if_intro _ _ _ within (
                unchanged_if_intro _ _ _ (λ above. elim taken.arrives [
                  | inl held ↦
                      ap (meet_existing manifest outside t c later_prompt _) (
                        find_key-Apart c _ (validate_semantics-Apart manifest outside t tt valid)
                          (In-pools t c (str_eq (pool c.body) "requests") held))
                      ∙ meet_existing_self manifest outside t c later_prompt _
                  | inr forgotten ↦ absurd_bool (sym above ∙ forgotten)
                ])))))))))
