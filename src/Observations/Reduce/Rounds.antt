-- ===== src/Observations/Reduce/Rounds.antt =====
-- src/observations.rs: the loop that forgets a pool's oldest observations comes to an end.
use wezterm_attention.Prelude.{
  ℕ, zero, suc, ◌<◌, ◌≤◌, ◌≡◌, refl, Bool, true, false, some, List, [], ◌∷◌, length, retain, arith,
  str_ltb,
}
use wezterm_attention.Protocol.{AttentionError, Result, ok, err, ◌>>=◌, Manifest, Limits}
use wezterm_attention.Observations.{LifecycleObservation, ObservationPool}
use wezterm_attention.Observations.Validate.{Outside, invalid}
use wezterm_attention.Observations.Reduce.{above, over_limits, evict, evict_all}
use wezterm_attention.Observations.Reduce.Evict.{round, length-above}

module _ (manifest : Result Manifest) (outside : Outside) (limits : Limits) where
  -- The loop of the source on a pool, which has no fuel: after `n` rounds that forget observations it
  -- came to an end with a result. A loop that does not end relates a pool to no result.
  pub data Runs : ℕ → ObservationPool → Result ObservationPool → Type 0 where
    fits :
        (p : ObservationPool) → over_limits manifest outside limits p ≡ ok false → Runs 0 p (ok p)
    unmeasured :
        (p : ObservationPool) (e : AttentionError)
        → over_limits manifest outside limits p ≡ err e
        → Runs 0 p (err e)
    nothing_left :
        (p : ObservationPool)
        → over_limits manifest outside limits p ≡ ok true
        → p.observations ≡ []
        → Runs 0 p (err invalid)
    forgets :
        (n : ℕ) (p : ObservationPool) (first : LifecycleObservation)
        (later : List LifecycleObservation) (r : Result ObservationPool)
        → over_limits manifest outside limits p ≡ ok true
        → p.observations ≡ first ∷ later
        → Runs n
            (record {
              observations =
                  retain
                    (λ item. str_ltb first.observed_mono_ns item.observed_mono_ns)
                    p.observations;
              retention_floor_mono_ns = some first.observed_mono_ns;
            })
            r
        → Runs (suc n) p r

  -- An end after at most so many rounds.
  abbrev pub Ends : ℕ → ObservationPool → Result ObservationPool → Type 0
  Ends most p r = (n : ℕ) × (n ≤ most) × Runs n p r

  round-Ends :
      (fuel : ℕ) (over : Result Bool) (p : ObservationPool) (items : List LifecycleObservation)
      → over_limits manifest outside limits p ≡ over
      → p.observations ≡ items
      → length p.observations ≤ fuel
      → ((first : LifecycleObservation)
          → length (above first.observed_mono_ns p).observations < fuel
          → Ends
              (length (above first.observed_mono_ns p).observations)
              (above first.observed_mono_ns p)
              (evict manifest outside fuel limits (above first.observed_mono_ns p)))
      → Ends (length p.observations) p (
          round manifest outside limits over p items
            (λ first. evict manifest outside fuel limits (above first.observed_mono_ns p)))
  unfolding ◌>>=◌
  round-Ends fuel (err e) p items o same l next = (0, omega arith, Runs.unmeasured p e o)
  round-Ends fuel (ok false) p items o same l next = (0, omega arith, Runs.fits p o)
  round-Ends fuel (ok true) p [] o same l next = (0, omega arith, Runs.nothing_left p o same)
  round-Ends fuel (ok true) p (first ∷ later) o same l next =
      let less = length-above manifest outside limits p first later same in
      let (n, most, runs) = next first (omega (arith, less, l)) in
      (suc n, omega (arith, most, less), Runs.forgets n p first later _ o same runs)

  evict-Ends :
      (fuel : ℕ) (p : ObservationPool)
      → length p.observations < fuel
      → Ends (length p.observations) p (evict manifest outside fuel limits p)
  unfolding evict
  evict-Ends zero p h = absurd (omega arith)
  evict-Ends (suc fuel) p h =
      round-Ends fuel (over_limits manifest outside limits p) p p.observations refl refl
        (omega arith) (λ first less. evict-Ends fuel (above first.observed_mono_ns p) less)

  -- The loop of the source that forgets the oldest observations comes to an end for every pool, after
  -- at most as many rounds as the pool has observations, and `evict_all` is what it ends with.
  pub evict_all-Ends :
      (p : ObservationPool) → Ends (length p.observations) p (evict_all manifest outside limits p)
  evict_all-Ends p = evict-Ends (suc (length p.observations)) p (omega arith)
