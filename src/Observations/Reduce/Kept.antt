-- ===== src/Observations/Reduce/Kept.antt =====
-- src/observations.rs: the candidate's pool before and after it is taken in.
use wezterm_attention.Prelude.{
  suc, ◌≡◌, ◌⊎◌, inl, inr, refl, ap, Bool, true, not, is_none_or, List, [], ◌∷◌, ◌++◌, length, any,
  retain, All, All-append, All-implied, All-retain, Bool-cases, str_eq, str_ltb,
}
use wezterm_attention.Prelude.Sorting.{sort_by, insert_sorted, All-sort_by}
use wezterm_attention.Protocol.{Result, ok, Manifest, Limits}
use wezterm_attention.Observations.{LifecycleObservation, ObservationPool}
use wezterm_attention.Observations.Keys.{storage_key_parts}
use wezterm_attention.Observations.Validate.{Outside}
use wezterm_attention.Observations.Reduce.{has_key, order_ltb, evict_all, placed}
use wezterm_attention.Observations.Reduce.Evict.{
  In, Forgotten, Above, NotLower, evict-Evicted, In-retain, All-In, In-All, retain-In,
}

pub In-append_right :
    (x : LifecycleObservation) (xs ys : List LifecycleObservation) → In x ys → In x (xs ++ ys)
In-append_right x [] ys m = m
In-append_right x (z ∷ xs) ys m = inr (In-append_right x xs ys m)

pub In-append_left :
    (x : LifecycleObservation) (xs ys : List LifecycleObservation) → In x xs → In x (xs ++ ys)
In-append_left x [] ys m = absurd m
In-append_left x (z ∷ xs) ys (inl e) = inl e
In-append_left x (z ∷ xs) ys (inr m) = inr (In-append_left x xs ys m)

In-insert_sorted :
    (x y : LifecycleObservation) (ys : List LifecycleObservation)
    → In x (y ∷ ys)
    → In x (insert_sorted order_ltb y ys)
In-insert_sorted x y [] m = m
In-insert_sorted x y (z ∷ zs) m = elim (Bool-cases (order_ltb z y)) [
  | inl before ↦ rw before (elim m [
    | inl e ↦ inr (In-insert_sorted x y zs (inl e))
    | inr n ↦ elim n [ inl e ↦ inl e | inr k ↦ inr (In-insert_sorted x y zs (inr k)) ]
  ])
  | inr here ↦ rw here m
]

In-sort_by :
    (x : LifecycleObservation) (xs : List LifecycleObservation)
    → In x xs
    → In x (sort_by order_ltb xs)
In-sort_by x [] m = m
In-sort_by x (y ∷ ys) (inl e) = In-insert_sorted x y (sort_by order_ltb ys) (inl e)
In-sort_by x (y ∷ ys) (inr m) =
    In-insert_sorted x y (sort_by order_ltb ys) (inr (In-sort_by x ys m))

-- What an observation's arrival does to its pool.
pub record Taken (candidate : LifecycleObservation) (p q : ObservationPool) : Type 0 where
  pub each_kept :
      All
        (λ x.
          (has_key (storage_key_parts candidate) x ≡ true) ⊎ In x q.observations ⊎ Forgotten q x)
        p.observations
  pub none_new : All (λ x. In x p.observations ⊎ (x ≡ candidate)) q.observations
  pub arrives : In candidate q.observations ⊎ Forgotten q candidate
  pub is_above : Above q
  pub not_lower : NotLower p q
  pub is_held : any (λ x. str_eq x.observation_id candidate.observation_id) q.observations ≡ true

module _ (manifest : Result Manifest) (outside : Outside) (limits : Limits)
    (c : LifecycleObservation) (p q : ObservationPool) where
  abbrev other : LifecycleObservation → Bool
  other x = not (has_key (storage_key_parts c) x)

  abbrev AboveFloor : LifecycleObservation → Type 0
  AboveFloor x = is_none_or p.retention_floor_mono_ns (λ f. str_ltb f x.observed_mono_ns) ≡ true

  abbrev OldOrNew : LifecycleObservation → Type 0
  OldOrNew x = In x p.observations ⊎ (x ≡ c)

  abbrev joined : List LifecycleObservation
  joined = retain other p.observations ++ c ∷ []

  placed-Above : Above p → AboveFloor c → Above (placed p c)
  placed-Above h k = All-sort_by AboveFloor order_ltb joined (
      All-append AboveFloor (retain other p.observations) (c ∷ [])
        (All-retain AboveFloor other p.observations h) (k, tt))

  placed_old : All OldOrNew (placed p c).observations
  placed_old = All-sort_by OldOrNew order_ltb joined (
      All-append OldOrNew (retain other p.observations) (c ∷ [])
        (All-implied (λ x. In x p.observations) OldOrNew (retain other p.observations)
          (λ x m. inl m) (retain-In other p.observations))
        (inr refl, tt))

  stays :
      (x : LifecycleObservation)
      → In x p.observations
      → (has_key (storage_key_parts c) x ≡ true) ⊎ In x (placed p c).observations
  stays x m = elim (Bool-cases (has_key (storage_key_parts c) x)) [
    | inl mine ↦ inl mine
    | inr not_mine ↦ inr (
        In-sort_by x joined (
          In-append_left x (retain other p.observations) (c ∷ [])
            (In-retain other x p.observations (ap not not_mine) m)))
  ]

  pub evict_all-Taken :
      Above p
      → AboveFloor c
      → evict_all manifest outside limits (placed p c) ≡ ok q
      → any (λ x. str_eq x.observation_id c.observation_id) q.observations ≡ true
      → Taken c p q
  evict_all-Taken h k e held =
      let start = placed p c in
      let evicted =
        evict-Evicted manifest outside limits (suc (length start.observations)) start q
          (placed-Above h k) e in
      record {
        each_kept =
            All-implied (λ x. In x p.observations)
              (λ x. (has_key (storage_key_parts c) x ≡ true) ⊎ In x q.observations ⊎ Forgotten q x)
              p.observations
              (λ x m. elim (stays x m) [
                | inl mine ↦ inl mine
                | inr there ↦ inr (
                    All-In (λ y. In y q.observations ⊎ Forgotten q y) start.observations
                      evicted.each_kept x there)
              ])
              (In-All p.observations);
        none_new =
            All-implied (λ x. In x start.observations) OldOrNew q.observations
              (λ x m. All-In OldOrNew start.observations placed_old x m) evicted.all_old;
        arrives =
            All-In (λ y. In y q.observations ⊎ Forgotten q y) start.observations evicted.each_kept c
              (In-sort_by c joined
                (In-append_right c (retain other p.observations) (c ∷ []) (inl refl)));
        is_above = evicted.is_above;
        not_lower = evicted.not_lower;
        is_held = held;
      }
