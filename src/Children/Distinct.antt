-- ===== src/Children/Distinct.antt =====
-- Lists of ids with no repeats, as `validate_semantics` tests them, and what the operations on the
-- list of live children do to the ids.
use wezterm_attention.Prelude.{
  String, Bool, true, false, ◌≡◌, refl, ◌↔◌, List, [], ◌∷◌, ◌++◌, none, str_eq, contains, retain,
  arith, eq_iff, All,
}
use wezterm_attention.Children.{LiveChild}
use wezterm_attention.Children.Readers.{child_ids, unique_from}
use wezterm_attention.Children.Reduce.{find_child, remove_child, update_child}

abbrev pub Distinct : List String → Type 0
Distinct [] = Unit
Distinct (x ∷ xs) = (contains xs x ≡ false) × Distinct xs

abbrev pub Fresh : List String → List String → Type 0
Fresh seen ids = All (λ id. contains seen id ≡ false) ids

pub Fresh-cons :
    (x : String) (seen ids : List String)
    → Fresh (x ∷ seen) ids ↔ ((contains ids x ≡ false) × Fresh seen ids)
Fresh-cons x seen [] = (λ h. (refl, tt), λ h. tt)
Fresh-cons x seen (y ∷ ys) = ground (arith, Fresh-cons x seen ys, eq_iff x y, eq_iff y x)

unique_from_iff :
    (seen ids : List String) → (unique_from seen ids ≡ true) ↔ (Fresh seen ids × Distinct ids)
unfolding unique_from
unique_from_iff seen [] = (λ h. (tt, tt), λ h. refl)
unique_from_iff seen (x ∷ xs) = ground (arith, unique_from_iff (x ∷ seen) xs, Fresh-cons x seen xs)

pub Fresh-nil : (ids : List String) → Fresh [] ids
Fresh-nil [] = tt
Fresh-nil (x ∷ xs) = (refl, Fresh-nil xs)

pub Fresh-mono :
    (seen seen' : List String)
    → ((x : String) → contains seen x ≡ false → contains seen' x ≡ false)
    → (ids : List String) → Fresh seen ids
    → Fresh seen' ids
Fresh-mono seen seen' f [] h = tt
Fresh-mono seen seen' f (x ∷ xs) h = (f x h.0, Fresh-mono seen seen' f xs h.1)

-- The test of `validate_semantics` says that no id is repeated.
pub unique_iff : (ids : List String) → (unique_from [] ids ≡ true) ↔ Distinct ids
unique_iff ids = ground (arith, unique_from_iff [] ids, Fresh-nil ids)

pub contains-retain :
    (p : String → Bool) (x : String) (xs : List String)
    → contains xs x ≡ false
    → contains (retain p xs) x ≡ false
contains-retain p x [] h = refl
contains-retain p x (y ∷ ys) h = ground (arith, contains-retain p x ys)

pub Distinct-retain : (p : String → Bool) (xs : List String) → Distinct xs → Distinct (retain p xs)
Distinct-retain p [] h = tt
Distinct-retain p (x ∷ xs) h = ground (arith, Distinct-retain p xs h.1, contains-retain p x xs h.0)

pub contains_kept :
    (p : LiveChild → Bool) (x : String) (cs : List LiveChild)
    → contains (child_ids cs) x ≡ false
    → contains (child_ids (retain p cs)) x ≡ false
contains_kept p x [] h = refl
contains_kept p x (c ∷ cs) h = ground (arith, contains_kept p x cs)

pub Distinct-kept :
    (p : LiveChild → Bool) (cs : List LiveChild)
    → Distinct (child_ids cs)
    → Distinct (child_ids (retain p cs))
Distinct-kept p [] h = tt
Distinct-kept p (c ∷ cs) h =
    ground (arith, Distinct-kept p cs h.1, contains_kept p c.agent_id cs h.0)

pub contains-remove_child :
    (a x : String) (cs : List LiveChild)
    → contains (child_ids cs) x ≡ false
    → contains (child_ids (remove_child cs a)) x ≡ false
unfolding remove_child
contains-remove_child a x [] h = refl
contains-remove_child a x (c ∷ cs) h = ground (arith, contains-remove_child a x cs)

pub Distinct-remove_child :
    (a : String) (cs : List LiveChild)
    → Distinct (child_ids cs)
    → Distinct (child_ids (remove_child cs a))
unfolding remove_child
Distinct-remove_child a [] h = tt
Distinct-remove_child a (c ∷ cs) h =
    ground (arith, Distinct-remove_child a cs h.1, contains-remove_child a c.agent_id cs h.0)

-- A write to a child that leaves its id leaves the list of ids.
pub child_ids-update_child :
    (a : String) (f : LiveChild → LiveChild)
    → ((c : LiveChild) → (f c).agent_id ≡ c.agent_id)
    → (cs : List LiveChild) → child_ids (update_child cs a f) ≡ child_ids cs
unfolding update_child
child_ids-update_child a f same [] = refl
child_ids-update_child a f same (c ∷ cs) =
    ground (arith, child_ids-update_child a f same cs, same c)

pub contains_of_find_child :
    (a : String) (cs : List LiveChild) → find_child cs a ≡ none → contains (child_ids cs) a ≡ false
unfolding find_child
contains_of_find_child a [] h = refl
contains_of_find_child a (c ∷ cs) h = ground (arith, contains_of_find_child a cs)

pub contains-append :
    (x : String) (xs : List LiveChild) (c : LiveChild)
    → contains (child_ids xs) x ≡ false
    → str_eq c.agent_id x ≡ false
    → contains (child_ids (xs ++ c ∷ [])) x ≡ false
contains-append x [] c h k = ground arith
contains-append x (d ∷ xs) c h k = ground (arith, contains-append x xs c)

pub Distinct-append :
    (cs : List LiveChild) (c : LiveChild)
    → Distinct (child_ids cs)
    → contains (child_ids cs) c.agent_id ≡ false
    → Distinct (child_ids (cs ++ c ∷ []))
Distinct-append [] c h k = (refl, tt)
Distinct-append (d ∷ cs) c h k = ground (
  arith,
  Distinct-append cs c h.1,
  contains-append d.agent_id cs c h.0,
  eq_iff c.agent_id d.agent_id,
  eq_iff d.agent_id c.agent_id,
)
