-- ===== src/Observations/Reduce/Apart.antt =====
-- src/observations.rs: the keys of a snapshot that passes `validate_semantics`.
use wezterm_attention.Prelude.{
  ℕ, ◌≡◌, refl, sym, ap, subst, ◌∙◌, Bool, true, false, not, ◌||◌, String, Option, none, some, List,
  [], ◌∷◌, ◌++◌, any, All, All-implied, All-append, arith, inl, inr, str_eq, eq_iff, eq_refl,
}
use wezterm_attention.Protocol.{Result, ok, bind_elim, Manifest, Limits}
use wezterm_attention.Observations.{LifecycleObservation, ObservationPool, LifecycleSnapshot}
use wezterm_attention.Observations.Keys.{KeyParts, key_eq, storage_key_parts}
use wezterm_attention.Observations.Validate.{
  Outside, Seen, check_item, check_items, check_pool, validate_semantics,
}
use wezterm_attention.Observations.Reduce.{has_key, find_key}
use wezterm_attention.Observations.Reduce.Evict.{In}
use wezterm_attention.Observations.Reduce.Sound.{refuse_if_elim}

str_eq_sym : (s t : String) → str_eq s t ≡ str_eq t s
str_eq_sym s t = ground (arith, eq_iff s t, eq_iff t s)

key_eq_sym : (j k : KeyParts) → key_eq j k ≡ key_eq k j
key_eq_sym j k =
    rw
      (
        str_eq_sym j.kind_part k.kind_part,
        str_eq_sym j.actor_part k.actor_part,
        str_eq_sym j.actor_id k.actor_id,
        str_eq_sym j.namespace k.namespace,
        str_eq_sym j.id k.id,
        str_eq_sym j.turn_part k.turn_part,
        str_eq_sym j.server_part k.server_part,
      )
      refl

pub key_eq_refl : (k : KeyParts) → key_eq k k ≡ true
key_eq_refl k =
    rw
      (
        eq_refl k.kind_part,
        eq_refl k.actor_part,
        eq_refl k.actor_id,
        eq_refl k.namespace,
        eq_refl k.id,
        eq_refl k.turn_part,
        eq_refl k.server_part,
      )
      refl

-- The observation's key is none of the keys.
abbrev Fresh : List KeyParts → LifecycleObservation → Type 0
Fresh keys x = any (key_eq (storage_key_parts x)) keys ≡ false

-- The key is that of none of the observations.
abbrev Unlike : LifecycleObservation → LifecycleObservation → Type 0
Unlike x y = key_eq (storage_key_parts y) (storage_key_parts x) ≡ false

-- No two observations have one key.
abbrev pub Apart : List LifecycleObservation → Type 0
Apart [] = Unit
Apart (x ∷ xs) = All (Unlike x) xs × Apart xs

Apart-append :
    (xs ys : List LifecycleObservation)
    → Apart xs
    → Apart ys
    → All (λ x. All (Unlike x) ys) xs
    → Apart (xs ++ ys)
Apart-append [] ys h k c = k
Apart-append (x ∷ xs) ys (first, h) k (cross, c) =
    (All-append (Unlike x) xs ys first cross, Apart-append xs ys h k c)

All-found :
    (x : LifecycleObservation) (xs : List LifecycleObservation) (c : LifecycleObservation)
    → All (Unlike x) xs
    → In c xs
    → has_key (storage_key_parts c) x ≡ false
All-found x [] c h m = absurd m
All-found x (y ∷ ys) c (here, h) (inl e) =
    key_eq_sym (storage_key_parts x) (storage_key_parts c)
    ∙ ap (λ z. key_eq (storage_key_parts z) (storage_key_parts x)) e
    ∙ here
All-found x (y ∷ ys) c (here, h) (inr m) = All-found x ys c h m

-- The only observation of its key is found under it.
pub find_key-Apart :
    (c : LifecycleObservation) (xs : List LifecycleObservation)
    → Apart xs
    → In c xs
    → find_key (storage_key_parts c) xs ≡ some c
find_key-Apart c [] h m = absurd m
find_key-Apart c (x ∷ xs) (first, h) (inl e) =
    rw
      (ap (λ z. key_eq (storage_key_parts x) (storage_key_parts z)) e
        ∙ key_eq_refl (storage_key_parts x))
      (ap some (sym e))
find_key-Apart c (x ∷ xs) (first, h) (inr m) =
    rw (All-found x xs c first m) (find_key-Apart c xs h m)

fourth_of : (a b c d e : Bool) → (a || b || c || d || e) ≡ false → d ≡ false
fourth_of a b c d e h = ground arith

head_false : (a b : Bool) → (a || b) ≡ false → a ≡ false
head_false a b h = ground arith

tail_false : (a b : Bool) → (a || b) ≡ false → b ≡ false
tail_false a b h = ground arith

module _ (manifest : Result Manifest) (outside : Outside) (s : LifecycleSnapshot) (name : String)
    (floor : Option String) where
  check_item-Fresh :
      (prior : Option LifecycleObservation) (seen after : Seen) (item : LifecycleObservation)
      → check_item manifest outside s name floor prior seen item ≡ ok after
      → Fresh seen.keys item × (after.keys ≡ storage_key_parts item ∷ seen.keys)
  unfolding check_item
  check_item-Fresh prior seen after item h = refuse_if_elim _ _ _ h (λ _ h1.
      bind_elim _ _ _ h1 (λ fits _ h2.
        refuse_if_elim _ _ _ h2 (λ refused h3. (fourth_of (not fits) _ _ _ _ refused, cc))))

  -- The observations are fresh, apart, and their keys are seen afterwards with those before.
  check_items-Apart :
      (prior : Option LifecycleObservation) (seen after : Seen) (items : List LifecycleObservation)
      → check_items manifest outside s name floor prior seen items ≡ ok after
      → All (Fresh seen.keys) items
        × Apart items
        × ((y : LifecycleObservation)
            → Fresh after.keys y
            → Fresh seen.keys y × All (λ x. Unlike x y) items)
  unfolding check_items
  check_items-Apart prior seen after [] h =
      let same : seen ≡ after = cc in
      (tt, tt, λ y f. (subst (λ z. Fresh z.keys y) (sym same) f, tt))
  check_items-Apart prior seen after (item ∷ items) h = bind_elim _ _ _ h (λ middle first rest.
      let (fresh, keys) = check_item-Fresh prior seen middle item first in
      let (each, apart, later) = check_items-Apart (some item) middle after items rest in
      let now : All (Fresh (storage_key_parts item ∷ seen.keys)) items =
        subst (λ ks. All (Fresh ks) items) keys each in
      (
        (
          fresh,
          All-implied (Fresh (storage_key_parts item ∷ seen.keys)) (Fresh seen.keys) items
              (λ y f. tail_false _ _ f) now,
        ),
        (
          All-implied (Fresh (storage_key_parts item ∷ seen.keys)) (Unlike item) items
              (λ y f. head_false _ _ f) now,
          apart,
        ),
        λ y f.
            let (before, unlike) = later y f in
            let g : Fresh (storage_key_parts item ∷ seen.keys) y =
              subst (λ ks. Fresh ks y) keys before in
            (tail_false _ _ g, (head_false _ _ g, unlike)),
      ))

module _ (manifest : Result Manifest) (outside : Outside) (s : LifecycleSnapshot) where
  check_pool-items :
      {C : Type 0} (limits : Limits) (name : String) (p : ObservationPool) (seen : Seen)
      (r : Seen × ℕ)
      → check_pool manifest outside limits s name p seen ≡ ok r
      → (check_items manifest outside s name p.retention_floor_mono_ns none seen p.observations
            ≡ ok r.0
          → C)
      → C
  check_pool-items limits name p seen r h k = bind_elim _ _ _ h (λ size _ h1.
      refuse_if_elim _ _ _ h1 (λ _ h2.
        bind_elim _ _ _ h2
          (λ after items done. k (items ∙ ap ok (let same : after ≡ r.0 = cc in same)))))

  crossed :
      (seen : Seen) (xs ys : List LifecycleObservation)
      → All (Fresh seen.keys) ys
      → ((y : LifecycleObservation) → Fresh seen.keys y → All (λ x. Unlike x y) xs)
      → All (λ x. All (Unlike x) ys) xs
  crossed seen [] ys h k = tt
  crossed seen (x ∷ xs) ys h k = (
    All-implied (Fresh seen.keys) (Unlike x) ys (λ y f. (k y f).0) h,
    crossed seen xs ys h (λ y f. (k y f).1),
  )

  pub validate_semantics-Apart :
      (u : Unit {0})
      → validate_semantics manifest outside s ≡ ok u
      → Apart (s.pools.requests.observations ++ s.pools.general.observations)
  unfolding validate_semantics
  validate_semantics-Apart u h = bind_elim _ _ _ h (λ m _ h1.
      bind_elim _ _ _ h1 (λ first requests h2. bind_elim _ _ _ h2 (λ second general _.
        check_pool-items m.limits "requests" s.pools.requests _ first requests (λ r.
          check_pool-items m.limits "general" s.pools.general _ second general (λ g.
            let (_, apart, later) =
              check_items-Apart manifest outside s "requests" _ none _ _ _ r in
            let (fresh, apart_too, _) =
              check_items-Apart manifest outside s "general" _ none _ _ _ g in
            Apart-append s.pools.requests.observations s.pools.general.observations apart apart_too
              (crossed first.0 s.pools.requests.observations s.pools.general.observations fresh
                (λ y f. (later y f).1)))))))
