-- ===== src/Observations/Reduce/Evict.antt =====
-- src/observations.rs: the loop that forgets a pool's oldest observations.
use wezterm_attention.Prelude.{
  ℕ, zero, suc, ◌<◌, ◌≡◌, ◌⊎◌, inl, inr, refl, sym, ap, subst, ◌∙◌, Bool, true, false, not, String,
  Option, none, some, is_none_or, is_some_and, List, [], ◌∷◌, length, retain, All, All-implied,
  All-retain, length-retain-le, arith, Bool-cases, str_leb, str_ltb, str_ltb_irrefl, str_ltb_asym,
  All-retained,
}
use wezterm_attention.Prelude.Sorting.{str_ltb_later}
use wezterm_attention.Protocol.{Result, ok, err, ◌>>=◌, Manifest, Limits}
use wezterm_attention.Observations.{LifecycleObservation, ObservationPool}
use wezterm_attention.Observations.Validate.{Outside}
use wezterm_attention.Observations.Reduce.{first_of, above, over_limits, evict}

-- Membership.
abbrev pub In : LifecycleObservation → List LifecycleObservation → Type 0
In x [] = ⊥
In x (y ∷ ys) = (x ≡ y) ⊎ In x ys

-- The observation is at or below the pool's floor.
abbrev pub Forgotten : ObservationPool → LifecycleObservation → Type 0
Forgotten p x = is_some_and p.retention_floor_mono_ns (λ f. str_leb x.observed_mono_ns f) ≡ true

-- Every observation of the pool is later than its floor.
abbrev pub Above : ObservationPool → Type 0
Above p =
    All (λ x. is_none_or p.retention_floor_mono_ns (λ f. str_ltb f x.observed_mono_ns) ≡ true)
      p.observations

-- The floor of `q` is at or above the floor of `p`, where `p` has one.
abbrev pub NotLower : ObservationPool → ObservationPool → Type 0
NotLower p q =
    is_none_or p.retention_floor_mono_ns
      (λ f. is_some_and q.retention_floor_mono_ns (λ g. str_leb f g))
    ≡ true

pub In-All : (xs : List LifecycleObservation) → All (λ x. In x xs) xs
In-All [] = tt
In-All (x ∷ xs) =
    (inl refl, All-implied (λ y. In y xs) (λ y. In y (x ∷ xs)) xs (λ y h. inr h) (In-All xs))

pub In-retain :
    (p : LifecycleObservation → Bool) (x : LifecycleObservation) (xs : List LifecycleObservation)
    → p x ≡ true
    → In x xs
    → In x (retain p xs)
In-retain p x [] h m = m
In-retain p x (y ∷ ys) h (inl e) = rw (sym (ap p e) ∙ h) (inl e)
In-retain p x (y ∷ ys) h (inr m) = elim (Bool-cases (p y)) [
  | inl kept ↦ rw kept (inr (In-retain p x ys h m))
  | inr dropped ↦ rw dropped (In-retain p x ys h m)
]

pub retain-In :
    (p : LifecycleObservation → Bool) (xs : List LifecycleObservation)
    → All (λ x. In x xs) (retain p xs)
retain-In p xs = All-retain (λ x. In x xs) p xs (In-All xs)

module _ (manifest : Result Manifest) (outside : Outside) (limits : Limits) where
  abbrev over : ObservationPool → Result Bool
  over p = over_limits manifest outside limits p

  -- One round of the loop, and what comes after it.
  abbrev pub round :
      Result Bool
      → ObservationPool
      → List LifecycleObservation
      → (LifecycleObservation → Result ObservationPool)
      → Result ObservationPool
  round r p items next = r >>= (λ b. elim b [ false ↦ ok p | true ↦ first_of items >>= next ])

  -- A round forgets one observation at least.
  pub length-above :
      (p : ObservationPool) (x : LifecycleObservation) (xs : List LifecycleObservation)
      → p.observations ≡ x ∷ xs
      → length (above x.observed_mono_ns p).observations < length p.observations
  length-above p x xs e =
      rw (e, str_ltb_irrefl x.observed_mono_ns)
        (omega (arith, length-retain-le (λ y. str_ltb x.observed_mono_ns y.observed_mono_ns) xs))

-- What the loop leaves of a pool whose observations are above its floor.
pub record Evicted (p q : ObservationPool) : Type 0 where
  pub each_kept : All (λ x. In x q.observations ⊎ Forgotten q x) p.observations
  pub all_old : All (λ x. In x p.observations) q.observations
  pub is_above : Above q
  pub not_lower : NotLower p q

str_leb_trans : (s t u : String) → str_leb s t ≡ true → str_leb t u ≡ true → str_leb s u ≡ true
str_leb_trans s t u h k = ground (arith, str_ltb_later s t u)

NotLower-refl : (p : ObservationPool) → NotLower p p
NotLower-refl p = leb_self p.retention_floor_mono_ns
  where
    leb_self : (o : Option String) → is_none_or o (λ f. is_some_and o (λ g. str_leb f g)) ≡ true
    leb_self none = refl
    leb_self (some f) = rw (str_ltb_irrefl f) refl

Evicted-refl : (p : ObservationPool) → Above p → Evicted p p
Evicted-refl p h = record {
  each_kept =
      All-implied (λ x. In x p.observations) (λ x. In x p.observations ⊎ Forgotten p x)
        p.observations (λ x m. inl m) (In-All p.observations);
  all_old = In-All p.observations;
  is_above = h;
  not_lower = NotLower-refl p;
}

pub All-In :
    (P : LifecycleObservation → Type 0) (xs : List LifecycleObservation)
    → All P xs
    → (y : LifecycleObservation) → In y xs
    → P y
All-In P [] h y m = absurd m
All-In P (x ∷ xs) (p, h) y (inl e) = subst P (sym e) p
All-In P (x ∷ xs) (p, h) y (inr m) = All-In P xs h y m

abbrev AboveAll : Option String → List LifecycleObservation → Type 0
AboveAll floor xs = All (λ x. is_none_or floor (λ f. str_ltb f x.observed_mono_ns) ≡ true) xs

floor_le :
    (floor : Option String) (t : String)
    → is_none_or floor (λ f. str_ltb f t) ≡ true
    → is_none_or floor (λ f. str_leb f t) ≡ true
floor_le none t h = refl
floor_le (some f) t h = ground (arith, str_ltb_asym f t)

above_floor :
    (floor : Option String) (s t : String)
    → str_leb s t ≡ true
    → is_some_and floor (λ g. str_leb t g) ≡ true
    → is_some_and floor (λ g. str_leb s g) ≡ true
above_floor none s t h k = k
above_floor (some g) s t h k = str_leb_trans s t g h k

floor_trans :
    (floor : Option String) (t : String) (later : Option String)
    → is_none_or floor (λ f. str_leb f t) ≡ true
    → is_some_and later (λ g. str_leb t g) ≡ true
    → is_none_or floor (λ f. is_some_and later (λ g. str_leb f g)) ≡ true
floor_trans none t later h k = refl
floor_trans (some f) t later h k = above_floor later f t h k

module _ (p : ObservationPool) (x : LifecycleObservation) (xs : List LifecycleObservation)
    (first : p.observations ≡ x ∷ xs) (h : Above p) where
  abbrev later_pool : ObservationPool
  later_pool = above x.observed_mono_ns p

  Above-later : Above later_pool
  Above-later = All-retained (λ y. str_ltb x.observed_mono_ns y.observed_mono_ns) p.observations

  NotLower-later : NotLower p later_pool
  NotLower-later =
      let (here, _) : AboveAll p.retention_floor_mono_ns (x ∷ xs) =
        subst (AboveAll p.retention_floor_mono_ns) first h in
      floor_le p.retention_floor_mono_ns x.observed_mono_ns here

  -- At or below a floor that is not lower.
  passed_on :
      (q : ObservationPool) (y : LifecycleObservation)
      → NotLower later_pool q
      → str_leb y.observed_mono_ns x.observed_mono_ns ≡ true
      → Forgotten q y
  passed_on q y l m = above_floor q.retention_floor_mono_ns _ _ m l

  Evicted-later : (q : ObservationPool) → Evicted later_pool q → Evicted p q
  Evicted-later q e = record {
    each_kept =
        All-implied (λ y. In y p.observations) (λ y. In y q.observations ⊎ Forgotten q y)
          p.observations
          (λ y m. elim (Bool-cases (str_ltb x.observed_mono_ns y.observed_mono_ns)) [
            | inl later ↦
                All-In (λ z. In z q.observations ⊎ Forgotten q z) later_pool.observations
                  e.each_kept y (In-retain _ y p.observations later m)
            | inr earlier ↦ inr (passed_on q y e.not_lower (ap not earlier))
          ])
          (In-All p.observations);
    all_old =
        All-implied (λ y. In y later_pool.observations) (λ y. In y p.observations) q.observations
          (λ y m.
            All-In (λ z. In z p.observations) later_pool.observations (retain-In _ p.observations) y
              m)
          e.all_old;
    is_above = e.is_above;
    not_lower =
        floor_trans p.retention_floor_mono_ns x.observed_mono_ns q.retention_floor_mono_ns
          NotLower-later e.not_lower;
  }

module _ (manifest : Result Manifest) (outside : Outside) (limits : Limits) where
  round-Evicted :
      (fuel : ℕ) (r : Result Bool) (p q : ObservationPool) (items : List LifecycleObservation)
      → p.observations ≡ items
      → Above p
      → ((x : LifecycleObservation)
          → evict manifest outside fuel limits (above x.observed_mono_ns p) ≡ ok q
          → Above (above x.observed_mono_ns p)
          → Evicted (above x.observed_mono_ns p) q)
      → round manifest outside limits r p items
          (λ x. evict manifest outside fuel limits (above x.observed_mono_ns p))
        ≡ ok q
      → Evicted p q
  unfolding ◌>>=◌
  round-Evicted fuel (err e) p q items same h next k = absurd cc
  round-Evicted fuel (ok false) p q items same h next k =
      let stop : p ≡ q = cc in subst (Evicted p) stop (Evicted-refl p h)
  round-Evicted fuel (ok true) p q [] same h next k = absurd cc
  round-Evicted fuel (ok true) p q (x ∷ xs) same h next k =
      Evicted-later p x xs same h q (next x k (Above-later p x xs same h))

  -- The loop keeps every observation later than the floor that it leaves, adds none, and never
  -- lowers the floor.
  pub evict-Evicted :
      (fuel : ℕ) (p q : ObservationPool)
      → Above p
      → evict manifest outside fuel limits p ≡ ok q
      → Evicted p q
  unfolding evict
  evict-Evicted zero p q h k = absurd cc
  evict-Evicted (suc fuel) p q h k =
      round-Evicted fuel (over_limits manifest outside limits p) p q p.observations refl h
        (λ x e a. evict-Evicted fuel (above x.observed_mono_ns p) q a e) k
