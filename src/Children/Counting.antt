-- ===== src/Children/Counting.antt =====
-- src/children.rs: what readers count after the writer's transitions.
use wezterm_attention.Prelude.{
  String, Bool, false, ◌≡◌, refl, sym, ap, ◌∙◌, List, [], ◌∷◌, Option, none, some, arith,
  is_some_and, ◌&&◌, eq_refl, retain, any, if◌then◌else◌,
}
use wezterm_attention.Children.{
  ChildStatus, status_eq, LiveChild, ChildPresenceSet, EndMark, ChildTransition,
}
use wezterm_attention.Children.Readers.{unapplied, counted, kept_through_stop, waits_through_stop}
use wezterm_attention.Children.Reduce.{apply_end, reconcile, transit, apply}
use wezterm_attention.Children.Arrival.{transit-lifetime_end}

applied_end :
    (s s' : ChildPresenceSet) (end : Option EndMark)
    → s'.lifetime_end ≡ (apply_end s end).0.lifetime_end
    → is_some_and end (λ e. unapplied s'.lifetime_end e) ≡ false
unfolding apply_end
applied_end s s' none h = refl
applied_end s s' (some e) h = ground (arith, eq_refl e.event_id)

counted_applied :
    (s : ChildPresenceSet) (end : Option EndMark)
    → is_some_and end (λ e. unapplied s.lifetime_end e) ≡ false
    → counted s end ≡ (if is_some_and end (λ e. e.ends_binding) then [] else s.live)
unfolding counted
counted_applied s none h = refl
counted_applied s (some e) h = ground arith

-- After a writer's transition a reader with the same knowledge of the binding's end counts the
-- whole live list while the binding runs, and nothing once it has ended.
pub counted-apply :
    (s : ChildPresenceSet) (end : Option EndMark) (t : ChildTransition)
    → let s' = (apply s end t).0 in
      counted s' end ≡ (if is_some_and end (λ e. e.ends_binding) then [] else s'.live)
unfolding apply
counted-apply s end t =
    let s' = (transit (apply_end s end).0 end t).0 in
    counted_applied s' end (applied_end s s' end (transit-lifetime_end (apply_end s end).0 end t))

any-retain :
    (p q : LiveChild → Bool) (cs : List LiveChild) → any (λ c. p c && q c) cs ≡ any p (retain q cs)
any-retain p q [] = refl
any-retain p q (c ∷ cs) = ground (arith, any-retain p q cs)

reconcile_set :
    (s : ChildPresenceSet) (order : String) (listed : List String)
    → (reconcile s order listed).0
      ≡ record s { live = retain (λ child. kept_through_stop child order listed) s.live }
unfolding reconcile
reconcile_set s order listed = ground arith

counted-kept :
    (s : ChildPresenceSet) (end : Option EndMark) (p : LiveChild → Bool)
    → counted (record s { live = retain p s.live }) end ≡ retain p (counted s end)
unfolding counted
counted-kept s end p = ground arith

abbrev pub is_waiting : LiveChild → Bool
is_waiting child = status_eq child.status ChildStatus.waiting

-- What the reader says of a stop of the lead with a list agrees with what the writer then does:
-- a waiting child outlasts the stop exactly when one is still counted after `reconcile`.
pub waits_through_stop-reconcile :
    (s : ChildPresenceSet) (end : Option EndMark) (order : String) (listed : List String)
    → waits_through_stop s end order (some listed)
      ≡ any is_waiting (counted (reconcile s order listed).0 end)
unfolding waits_through_stop
waits_through_stop-reconcile s end order listed =
    let keeps = λ (child : LiveChild). kept_through_stop child order listed in
    any-retain is_waiting keeps (counted s end)
    ∙ ap (any is_waiting) (
        sym (
          ap (λ (x : ChildPresenceSet). counted x end) (reconcile_set s order listed)
          ∙ counted-kept s end keeps))
