-- ===== src/Observations/Reduce/Sound.antt =====
-- src/observations.rs: what a snapshot that passes `validate_semantics` satisfies.
use wezterm_attention.Prelude.{
  ℕ, ◌≡◌, refl, Bool, true, false, not, ◌||◌, String, Option, none, some, is_none_or, is_some_and,
  List, [], ◌∷◌, All, arith, str_leb, str_ltb,
}
use wezterm_attention.Protocol.{Result, ok, bind_elim, Manifest, Limits}
use wezterm_attention.Observations.{LifecycleObservation, ObservationPool, LifecycleSnapshot}
use wezterm_attention.Observations.Validate.{
  Outside, refuse_if, Seen, check_item, check_items, check_pool, validate_semantics,
}
use wezterm_attention.Observations.Reduce.Evict.{Above}

pub refuse_if_elim {ℓ κ} :
    {A : Type ℓ} {C : Type κ} (b : Bool) (r : Result A) (a : A)
    → refuse_if b r ≡ ok a
    → (b ≡ false → r ≡ ok a → C)
    → C
unfolding refuse_if
refuse_if_elim true r a h k = absurd cc
refuse_if_elim false r a h k = k refl h

-- A stamp that is not at or below the floor is above it.
pub floor_passed :
    (floor : Option String) (t : String)
    → is_some_and floor (λ f. str_leb t f) ≡ false
    → is_none_or floor (λ f. str_ltb f t) ≡ true
floor_passed none t h = refl
floor_passed (some f) t h = ground arith

second_of : (a b c d e : Bool) → (a || b || c || d || e) ≡ false → b ≡ false
second_of a b c d e h = ground arith

module _ (manifest : Result Manifest) (outside : Outside) (s : LifecycleSnapshot) (name : String)
    (floor : Option String) where
  abbrev AboveFloor : LifecycleObservation → Type 0
  AboveFloor x = is_none_or floor (λ f. str_ltb f x.observed_mono_ns) ≡ true

  check_item-above :
      (prior : Option LifecycleObservation) (seen after : Seen) (item : LifecycleObservation)
      → check_item manifest outside s name floor prior seen item ≡ ok after
      → AboveFloor item
  unfolding check_item
  check_item-above prior seen after item h = refuse_if_elim _ _ _ h (λ _ h1.
      bind_elim _ _ _ h1 (λ fits _ h2. refuse_if_elim _ _ _ h2 (λ refused _.
        floor_passed floor item.observed_mono_ns (second_of (not fits) _ _ _ _ refused))))

  pub check_items-above :
      (prior : Option LifecycleObservation) (seen after : Seen) (items : List LifecycleObservation)
      → check_items manifest outside s name floor prior seen items ≡ ok after
      → All AboveFloor items
  unfolding check_items
  check_items-above prior seen after [] h = tt
  check_items-above prior seen after (item ∷ items) h = bind_elim _ _ _ h (λ middle first rest. (
    check_item-above prior seen middle item first,
    check_items-above (some item) middle after items rest,
  ))

module _ (manifest : Result Manifest) (outside : Outside) (s : LifecycleSnapshot) where
  check_pool-Above :
      (limits : Limits) (name : String) (p : ObservationPool) (seen : Seen) (r : Seen × ℕ)
      → check_pool manifest outside limits s name p seen ≡ ok r
      → Above p
  check_pool-Above limits name p seen r h = bind_elim _ _ _ h (λ size _ h1.
      refuse_if_elim _ _ _ h1 (λ _ h2. bind_elim _ _ _ h2 (λ after items _.
        check_items-above manifest outside s name p.retention_floor_mono_ns none seen after
          p.observations items)))

  -- Both pools are above their floors.
  pub validate_semantics-Above :
      (u : Unit {0})
      → validate_semantics manifest outside s ≡ ok u
      → Above s.pools.requests × Above s.pools.general
  unfolding validate_semantics
  validate_semantics-Above u h = bind_elim _ _ _ h (λ m _ h1.
      bind_elim _ _ _ h1 (λ first requests h2. bind_elim _ _ _ h2 (λ second general _. (
        check_pool-Above m.limits "requests" s.pools.requests _ first requests,
        check_pool-Above m.limits "general" s.pools.general _ second general,
      ))))
