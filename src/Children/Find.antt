-- ===== src/Children/Find.antt =====
-- How the operations on the list of live children act on the lookup of one child.
use wezterm_attention.Prelude.{
  String, Bool, false, ◌≡◌, refl, List, [], ◌∷◌, ◌++◌, none, some, str_eq, contains, retain, arith,
  eq_iff,
}
use wezterm_attention.Children.{LiveChild}
use wezterm_attention.Children.Readers.{child_ids}
use wezterm_attention.Children.Reduce.{find_child, remove_child, update_child}
use wezterm_attention.Children.Distinct.{Distinct}

pub find_child-id :
    (a : String) (cs : List LiveChild) (c : LiveChild) → find_child cs a ≡ some c → c.agent_id ≡ a
unfolding find_child
find_child-id a [] c h = cc
find_child-id a (d ∷ cs) c h = ground (arith, find_child-id a cs c, eq_iff d.agent_id a)

pub find_child_of_contains :
    (a : String) (cs : List LiveChild) → contains (child_ids cs) a ≡ false → find_child cs a ≡ none
unfolding find_child
find_child_of_contains a [] h = refl
find_child_of_contains a (c ∷ cs) h = ground (arith, find_child_of_contains a cs)

-- A child that a `retain` drops did not pass its test.
pub find_child_dropped :
    (p : LiveChild → Bool) (a : String) (cs : List LiveChild) (c : LiveChild)
    → find_child cs a ≡ some c
    → find_child (retain p cs) a ≡ none
    → p c ≡ false
unfolding find_child
find_child_dropped p a [] c h k = cc
find_child_dropped p a (d ∷ cs) c h k = ground (arith, find_child_dropped p a cs c)

-- In a list with no repeats a `retain` gives the child as it stood, and only if it passed.
pub find_child-retain :
    (p : LiveChild → Bool) (a : String) (cs : List LiveChild) (c : LiveChild)
    → Distinct (child_ids cs)
    → find_child (retain p cs) a ≡ some c
    → find_child cs a ≡ some c
unfolding find_child
find_child-retain p a [] c d h = h
find_child-retain p a (x ∷ cs) c d h = ground (
  arith,
  find_child-retain p a cs c d.1,
  eq_iff x.agent_id a,
  find_child_of_contains x.agent_id cs d.0,
  find_child_of_contains a cs,
)

pub find_child-remove_child_ne :
    (a b : String) (cs : List LiveChild)
    → str_eq a b ≡ false
    → find_child (remove_child cs a) b ≡ find_child cs b
unfolding find_child remove_child
find_child-remove_child_ne a b [] h = refl
find_child-remove_child_ne a b (c ∷ cs) h = ground (
  arith,
  find_child-remove_child_ne a b cs h,
  eq_iff c.agent_id a,
  eq_iff c.agent_id b,
  eq_iff a b,
)

pub find_child-remove_child_self :
    (a : String) (cs : List LiveChild)
    → Distinct (child_ids cs)
    → find_child (remove_child cs a) a ≡ none
unfolding find_child remove_child
find_child-remove_child_self a [] d = refl
find_child-remove_child_self a (c ∷ cs) d =
    ground (
      arith,
      find_child-remove_child_self a cs d.1,
      eq_iff c.agent_id a,
      find_child_of_contains a cs,
    )

pub find_child-update_child_ne :
    (a b : String) (f : LiveChild → LiveChild)
    → ((c : LiveChild) → (f c).agent_id ≡ c.agent_id)
    → str_eq a b ≡ false
    → (cs : List LiveChild) → find_child (update_child cs a f) b ≡ find_child cs b
unfolding find_child update_child
find_child-update_child_ne a b f same h [] = refl
find_child-update_child_ne a b f same h (c ∷ cs) = ground (
  arith,
  find_child-update_child_ne a b f same h cs,
  same c,
  eq_iff c.agent_id a,
  eq_iff c.agent_id b,
  eq_iff a b,
)

pub find_child-update_child_self :
    (a : String) (f : LiveChild → LiveChild)
    → ((c : LiveChild) → (f c).agent_id ≡ c.agent_id)
    → (cs : List LiveChild) (c : LiveChild) → find_child cs a ≡ some c
    → find_child (update_child cs a f) a ≡ some (f c)
unfolding find_child update_child
find_child-update_child_self a f same [] c h = cc
find_child-update_child_self a f same (x ∷ cs) c h =
    ground (arith, find_child-update_child_self a f same cs c, same x)

pub find_child-append_some :
    (a : String) (cs : List LiveChild) (d c : LiveChild)
    → find_child cs a ≡ some c
    → find_child (cs ++ d ∷ []) a ≡ some c
unfolding find_child
find_child-append_some a [] d c h = cc
find_child-append_some a (x ∷ cs) d c h = ground (arith, find_child-append_some a cs d c)

pub find_child-append_none :
    (a : String) (cs : List LiveChild) (d : LiveChild)
    → find_child cs a ≡ none
    → find_child (cs ++ d ∷ []) a ≡ find_child (d ∷ []) a
unfolding find_child
find_child-append_none a [] d h = refl
find_child-append_none a (x ∷ cs) d h = ground (arith, find_child-append_none a cs d)
