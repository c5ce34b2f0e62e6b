-- ===== src/Observations/Reduce/Taken.antt =====
-- src/observations.rs: what `reduce` returns.
use wezterm_attention.Prelude.{
  ◌≡◌, refl, sym, subst, Bool, true, false, not, String, Option, none, some, is_some_and, str_eq,
  str_leb,
}
use wezterm_attention.Protocol.{Result, ok, bind_elim, Manifest, Limits}
use wezterm_attention.Observations.{LifecycleObservation, ObservationPool, LifecycleSnapshot}
use wezterm_attention.Observations.Body.{pool}
use wezterm_attention.Observations.Prompts.{PromptReference}
use wezterm_attention.Observations.Validate.{Outside, validate_semantics}
use wezterm_attention.Observations.Reduce.{
  unchanged_if, Reduced, in_pool, next_snapshot, insert, meet_existing, reduce,
}
use wezterm_attention.Observations.Reduce.Evict.{Above}
use wezterm_attention.Observations.Reduce.Sound.{
  refuse_if_elim, floor_passed, validate_semantics-Above,
}
use wezterm_attention.Observations.Reduce.Kept.{Taken, evict_all-Taken}

-- A test whose first branch reports no change.
changed_branch :
    {C : Type 0} (b : Bool) (s t : LifecycleSnapshot) (r : Result Reduced)
    → unchanged_if b s r ≡ ok (t, true)
    → (b ≡ false → r ≡ ok (t, true) → C)
    → C
unfolding unchanged_if
changed_branch true s t r h k = absurd cc
changed_branch false s t r h k = k refl h

not-false : (b : Bool) → not b ≡ false → b ≡ true
not-false true h = refl
not-false false h = sym h

in_pool_next :
    (s : LifecycleSnapshot) (c : LifecycleObservation) (fresh_id : String) (q : ObservationPool)
    (b : Bool)
    → str_eq (pool c.body) "requests" ≡ b
    → (in_pool b (next_snapshot s c fresh_id q) ≡ q)
      × (in_pool (not b) (next_snapshot s c fresh_id q) ≡ in_pool (not b) s)
in_pool_next s c fresh_id q true e = rw e (refl, refl)
in_pool_next s c fresh_id q false e = rw e (refl, refl)

pool-Above :
    (s : LifecycleSnapshot) (b : Bool)
    → Above s.pools.requests
    → Above s.pools.general
    → Above (in_pool b s)
pool-Above s true h k = h
pool-Above s false h k = k

module _ (manifest : Result Manifest) (outside : Outside) (s t : LifecycleSnapshot)
    (c : LifecycleObservation) (fresh_id : String) where
  abbrev to_requests : Bool
  to_requests = str_eq (pool c.body) "requests"

  -- What `reduce` promises of a change.
  abbrev pub Changed : Type 0
  Changed =
      Taken c (in_pool to_requests s) (in_pool to_requests t)
      × (in_pool (not to_requests) t ≡ in_pool (not to_requests) s)
      × (validate_semantics manifest outside t ≡ ok tt)

  insert-Changed :
      (limits : Limits)
      → Above (in_pool to_requests s)
      → is_some_and
          (in_pool to_requests s).retention_floor_mono_ns
          (λ floor. str_leb c.observed_mono_ns floor)
        ≡ false
      → insert manifest outside limits s c fresh_id ≡ ok (t, true)
      → Changed
  unfolding insert
  insert-Changed limits above passed h = bind_elim _ _ _ h (λ q kept h1.
      changed_branch _ _ _ _ h1 (λ held h2. bind_elim _ _ _ h2 (λ u valid h3.
        let next = next_snapshot s c fresh_id q in
        let same : next ≡ t = cc in
        let (mine, others) = in_pool_next s c fresh_id q to_requests refl in
        let taken =
          evict_all-Taken manifest outside limits c (in_pool to_requests s) q above
            (floor_passed _ _ passed) kept (not-false _ held) in
        (
          subst (λ v. Taken c (in_pool to_requests s) (in_pool to_requests v)) same
              (subst (Taken c (in_pool to_requests s)) (sym mine) taken),
          subst (λ v. in_pool (not to_requests) v ≡ in_pool (not to_requests) s) same others,
          subst (λ v. validate_semantics manifest outside v ≡ ok tt) same valid,
        ))))

  meet_existing-insert :
      {C : Type 0} (prompt : Option PromptReference) (inserted : Result Reduced)
      (existing : Option LifecycleObservation)
      → meet_existing manifest outside s c prompt inserted existing ≡ ok (t, true)
      → (inserted ≡ ok (t, true) → C)
      → C
  meet_existing-insert prompt inserted none h k = k h
  meet_existing-insert prompt inserted (some e) h k =
      refuse_if_elim _ _ _ h
        (λ _ h1. changed_branch _ _ _ _ h1 (λ _ h2. refuse_if_elim _ _ _ h2 (λ _ h3. k h3)))

  -- When `reduce` reports a change, the candidate's pool holds what it held but for an observation of
  -- the candidate's key and those at or below its floor, it holds nothing new but the candidate, its
  -- floor did not fall, an observation of the candidate's id is held, the other pool stands, and the
  -- snapshot passes `validate_semantics`.
  pub reduce-Changed :
      (prompt : Option PromptReference)
      → reduce manifest outside s c prompt fresh_id ≡ ok (t, true)
      → Changed
  unfolding reduce
  reduce-Changed prompt h = bind_elim _ _ _ h (λ u valid h1. bind_elim _ _ _ h1 (λ m _ h2.
      bind_elim _ _ _ h2 (λ fits _ h3. refuse_if_elim _ _ _ h3 (λ _ h4.
        changed_branch _ _ _ _ h4 (λ passed h5. meet_existing-insert prompt _ _ h5 (λ inserted.
          let (requests, general) = validate_semantics-Above manifest outside s u valid in
          insert-Changed m.limits (pool-Above s to_requests requests general) passed inserted))))))
