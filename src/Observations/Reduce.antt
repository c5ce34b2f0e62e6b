-- ===== src/Observations/Reduce.antt =====
-- src/observations.rs: a snapshot takes an observation in, and forgets the oldest.
pub mod Evict
pub mod Rounds
pub mod Sound
pub mod Kept
pub mod Taken
pub mod Apart
pub mod Again
mod Tests
use wezterm_attention.Prelude.{
  ℕ, zero, suc, Bool, true, false, not, ◌&&◌, ◌||◌, String, Option, none, some, is_some,
  is_some_and, is_none_or, if◌then◌else◌, List, [], ◌∷◌, ◌++◌, length, any, retain, ltb, leb,
  str_eq, str_leb, str_ltb,
}
use wezterm_attention.Prelude.Sorting.{pair_ltb, sort_by}
use wezterm_attention.Protocol.{Result, ok, err, ◌>>=◌, Manifest, Limits}
use wezterm_attention.Observations.{
  LifecycleObservation, ObservationPool, ObservationPools, LifecycleSnapshot,
}
use wezterm_attention.Observations.Body.{
  pool, tool, tool_eq, is_lead, is_lead_prompt, turn_id, ends_turn,
}
use wezterm_attention.Observations.Keys.{KeyParts, storage_key_parts, key_eq}
use wezterm_attention.Observations.Prompts.{PromptReference}
use wezterm_attention.Observations.Same.{semantic_eq, option_eq}
use wezterm_attention.Observations.Validate.{
  Outside, invalid, refuse_if, within_bounds, validate_semantics,
}

abbrev pub has_key : KeyParts → LifecycleObservation → Bool
has_key key item = key_eq (storage_key_parts item) key

-- `Iterator::find`.
abbrev pub find_key : KeyParts → List LifecycleObservation → Option LifecycleObservation
find_key key [] = none
find_key key (item ∷ items) =
    let rest = find_key key items in if has_key key item then some item else rest

abbrev pub order_ltb : LifecycleObservation → LifecycleObservation → Bool
order_ltb a b = pair_ltb a.observed_mono_ns a.observation_id b.observed_mono_ns b.observation_id

-- `lead_observations`: the general pool, then the requests.
unfoldable pub lead_observations : LifecycleSnapshot → List LifecycleObservation
lead_observations s =
    retain (λ item. is_lead item.actor)
      (s.pools.general.observations ++ s.pools.requests.observations)

abbrev pub in_pool : Bool → LifecycleSnapshot → ObservationPool
in_pool requests s = if requests then s.pools.requests else s.pools.general

abbrev pub with_pool : Bool → LifecycleSnapshot → ObservationPool → LifecycleSnapshot
with_pool true s p = record s { pools = record { requests = p; general = s.pools.general } }
with_pool false s p = record s { pools = record { requests = s.pools.requests; general = p } }

abbrev pub first_of : List LifecycleObservation → Result LifecycleObservation
first_of [] = err invalid
first_of (item ∷ items) = ok item

-- The observations later than `floor`, with it as the pool's floor.
abbrev pub above : String → ObservationPool → ObservationPool
above floor p = record {
  observations = retain (λ item. str_ltb floor item.observed_mono_ns) p.observations;
  retention_floor_mono_ns = some floor;
}

-- The snapshot as a hook left it, and whether it changed.
abbrev pub Reduced : Type 0
Reduced = LifecycleSnapshot × Bool

-- The candidate in place of what its pool holds under its key.
abbrev pub placed : ObservationPool → LifecycleObservation → ObservationPool
placed p candidate = record {
  observations = sort_by order_ltb (
      retain (λ item. not (has_key (storage_key_parts candidate) item)) p.observations
      ++ candidate ∷ []);
  retention_floor_mono_ns = p.retention_floor_mono_ns;
}

abbrev pub next_snapshot :
    LifecycleSnapshot → LifecycleObservation → String → ObservationPool → LifecycleSnapshot
next_snapshot s candidate fresh_id p =
    with_pool (str_eq (pool candidate.body) "requests")
      (record s { written_at_unix_ns = candidate.written_at_unix_ns; snapshot_id = fresh_id }) p

-- A test under which `reduce` returns `Ok(false)`.
unfoldable pub unchanged_if : Bool → LifecycleSnapshot → Result Reduced → Result Reduced
unchanged_if true s r = ok (s, false)
unchanged_if false s r = r

module _ (manifest : Result Manifest) (outside : Outside) where
  unfoldable pub repeats :
      LifecycleSnapshot
      → LifecycleObservation
      → LifecycleObservation
      → String
      → Option PromptReference
      → Bool
  repeats s stored candidate at recorded_prompt =
      let after =
        retain (λ item. str_ltb stored.observed_mono_ns item.observed_mono_ns)
          (lead_observations s) in
      let over =
        any
          (λ item.
            is_lead_prompt item
            && not (option_eq str_eq (turn_id item) (turn_id stored))
            && str_ltb item.observed_mono_ns at)
          after in
      let went_on =
        any (λ item. str_ltb item.observed_mono_ns at) after
        || is_some_and recorded_prompt (λ prompt.
          str_ltb stored.observed_mono_ns prompt.observed_mono_ns
          && str_ltb prompt.observed_mono_ns at) in
      if is_some (turn_id stored) && ends_turn manifest s.provider stored
      then (if over then true else if went_on then false else semantic_eq stored candidate)
      else semantic_eq stored candidate

  unfoldable pub repeats_turn_end :
      LifecycleSnapshot → LifecycleObservation → String → Option PromptReference → Bool
  repeats_turn_end s draft at recorded_prompt =
      is_some_and (find_key (storage_key_parts draft) s.pools.general.observations)
        (λ stored. repeats s stored draft at recorded_prompt)

  -- The loop's condition.
  abbrev pub over_limits : Limits → ObservationPool → Result Bool
  over_limits limits p =
      if ltb limits.lifecycle_pool_max_count (length p.observations)
      then ok true
      else outside.pool_size p >>= (λ size. ok (ltb limits.lifecycle_pool_max_bytes size))

  -- The loop that forgets the oldest, over what its condition reads. Each round forgets one
  -- observation at least, the first, so their number and one more is fuel enough.
  unfoldable pub evict : ℕ → Limits → ObservationPool → Result ObservationPool
  evict zero limits p = err invalid
  evict (suc fuel) limits p = over_limits limits p >>= (λ over. elim over [
    | false ↦ ok p
    | true ↦
        first_of p.observations >>= (λ first. evict fuel limits (above first.observed_mono_ns p))
  ])

  abbrev pub evict_all : Limits → ObservationPool → Result ObservationPool
  evict_all limits p = evict (suc (length p.observations)) limits p

  unfoldable pub insert :
      Limits → LifecycleSnapshot → LifecycleObservation → String → Result Reduced
  insert limits s candidate fresh_id =
      evict_all limits (placed (in_pool (str_eq (pool candidate.body) "requests") s) candidate)
      >>= (λ p.
          unchanged_if
            (not (any (λ item. str_eq item.observation_id candidate.observation_id) p.observations))
            s
            (let next = next_snapshot s candidate fresh_id p in
              validate_semantics manifest outside next >>= (λ _. ok (next, true))))

  -- What a stored observation of the candidate's key means for it.
  abbrev pub meet_existing :
      LifecycleSnapshot
      → LifecycleObservation
      → Option PromptReference
      → Result Reduced
      → Option LifecycleObservation
      → Result Reduced
  meet_existing s candidate recorded_prompt inserted none = inserted
  meet_existing s candidate recorded_prompt inserted (some existing) =
      refuse_if (not (tool_eq (tool existing.body) (tool candidate.body))) (
        unchanged_if
          (str_ltb candidate.observed_mono_ns existing.observed_mono_ns
            || repeats s existing candidate candidate.observed_mono_ns recorded_prompt)
          s (refuse_if (str_eq candidate.observed_mono_ns existing.observed_mono_ns) inserted))

  -- `reduce`, where the uuid crate makes `fresh_id`.
  unfoldable pub reduce :
      LifecycleSnapshot → LifecycleObservation → Option PromptReference → String → Result Reduced
  reduce s candidate recorded_prompt fresh_id = validate_semantics manifest outside s >>= (λ _.
      manifest >>= (λ m. within_bounds manifest outside candidate >>= (λ fits.
        refuse_if (not fits) (
          unchanged_if
            (is_some_and
              (in_pool (str_eq (pool candidate.body) "requests") s).retention_floor_mono_ns
              (λ floor. str_leb candidate.observed_mono_ns floor))
            s
            (meet_existing s candidate recorded_prompt (insert m.limits s candidate fresh_id) (
              find_key (storage_key_parts candidate)
                (s.pools.requests.observations ++ s.pools.general.observations)))))))
