-- ===== src/Children/Retry.antt =====
-- src/children.rs: the `changed` flag, and a transition that is applied again.
use wezterm_attention.Prelude.{
  suc, String, Bool, true, false, ◌≡◌, ◌≢◌, refl, sym, ap, subst, ◌∙◌, List, [], ◌∷◌, Option, none,
  some, arith, Bool-cases, Option-cases, inl, inr, str_ltb, str_leb, eq_iff, eq_refl,
  str_ltb_irrefl, retain, retain-retain, length, nat_eq_iff, ◌↔◌,
}
use wezterm_attention.Children.{LiveChild, ChildPresenceSet, EndMark, ChildTransition, Reduction}
use wezterm_attention.Children.Readers.{child_ids, unapplied, kept_through_stop}
use wezterm_attention.Children.Reduce.{
  clear_refused, clear_for_parent, reconcile, stop, advance_known, advance, unless_ended,
  find_child, remove_child, advanced, new_child, apply_end, ignored_by_end, transit, apply,
}
use wezterm_attention.Children.Sound.{IsSound, apply_end-IsSound}
use wezterm_attention.Children.Find.{
  find_child-update_child_self, find_child-append_none, find_child-remove_child_self,
}
use wezterm_attention.Children.Arrival.{transit-lifetime_end}
use wezterm_attention.Children.Cases.{
  Shown, shown, set_after_clear, set_after_reconcile, set_after_stop, set_after_known,
  set_after_new, transit_cases,
}

clear_refused_self :
    (order event_id : String) (removed : List String)
    → clear_refused
        (some (record { observed_mono_ns = order; event_id = event_id; removed = removed }))
        order
        event_id
      ≢ none
unfolding clear_refused
clear_refused_self order event_id removed h =
    ground (arith, str_ltb_irrefl order, eq_refl order, eq_refl event_id)

length-remove_child :
    (a : String) (cs : List LiveChild) (c : LiveChild)
    → find_child cs a ≡ some c
    → suc (length (remove_child cs a)) ≡ length cs
unfolding find_child remove_child
length-remove_child a [] c h = absurd (cc)
length-remove_child a (d ∷ cs) c h = ground (arith, length-remove_child a cs c)

find_child-new : (a : String) (d : LiveChild) → d.agent_id ≡ a → find_child (d ∷ []) a ≡ some d
unfolding find_child
find_child-new a d e = ground (arith, eq_iff d.agent_id a)

module _ (s : ChildPresenceSet) (end : Option EndMark) (t : ChildTransition) where
  -- A flag that is set goes with a set that differs, and one that is not with the same set.
  abbrev Flagged : ChildPresenceSet → Bool → Type 0
  Flagged s' true = s' ≢ s
  Flagged s' false = s' ≡ s

  live_differs : {s' : ChildPresenceSet} → length s'.live ≢ length s.live → s' ≢ s
  live_differs h e = h (ap (λ (x : ChildPresenceSet). length x.live) e)

  cleared_differs :
      (order event_id : String)
      → clear_refused s.parent_clear order event_id ≡ none
      → set_after_clear s order event_id ≢ s
  cleared_differs order event_id free e =
      clear_refused_self order event_id _
        (ap (λ (x : ChildPresenceSet). clear_refused x.parent_clear order event_id) e ∙ free)

  known_differs :
      (e : Shown) (child : LiveChild)
      → find_child s.live e.agent_id ≡ some child
      → str_ltb child.last_mono_ns e.order ≡ true
      → set_after_known s e ≢ s
  known_differs e child own later same =
      let f = advanced e.agent_type e.order e.event in
      let now = find_child-update_child_self e.agent_id f (λ _. refl) s.live child own in
      let before : find_child (set_after_known s e).live e.agent_id ≡ some child =
        ap (λ (x : ChildPresenceSet). find_child x.live e.agent_id) same ∙ own in
      ground (arith, now, before, str_ltb_irrefl e.order)

  new_differs : (e : Shown) → find_child s.live e.agent_id ≡ none → set_after_new s e ≢ s
  new_differs e missing same =
      let child = new_child e.agent_id e.agent_type e.order e.event in
      let now = find_child-append_none e.agent_id s.live child missing in
      let before : find_child (set_after_new s e).live e.agent_id ≡ none =
        ap (λ (x : ChildPresenceSet). find_child x.live e.agent_id) same ∙ missing in
      cc (now, find_child-new e.agent_id child refl)

  transit-Flagged : Flagged (transit s end t).0 (transit s end t).1.changed
  transit-Flagged = transit_cases Flagged s end t (record {
    keep = refl;
    cleared = λ o id _ free. cleared_differs o id free;
    reconciled = λ o l _ fewer. live_differs (λ e. cc ((nat_eq_iff _ _).1 e));
    stopped =
        λ b o child _ _ own _. live_differs (omega (arith, length-remove_child b s.live child own));
    known = λ e child _ _ own later. known_differs e child own later;
    fresh = λ e _ _ _ missing _. new_differs e missing;
  })

Flagged-iff :
    (s s' : ChildPresenceSet) (end : Option EndMark) (t : ChildTransition) (b : Bool)
    → Flagged s end t s' b
    → (b ≡ false) ↔ (s' ≡ s)
Flagged-iff s s' end t true differs = (λ e. absurd (cc), λ e. absurd (differs e))
Flagged-iff s s' end t false same = (λ e. same, λ e. refl)

-- A newly applied end changes the set whatever comes after it.
closed_differs :
    (s : ChildPresenceSet) (end : EndMark) (t : ChildTransition)
    → unapplied s.lifetime_end end ≡ true
    → (transit (apply_end s (some end)).0 (some end) t).0 ≢ s
unfolding apply_end
closed_differs s end t open_end same =
    let opened = (apply_end s (some end)).0 in
    let kept = transit-lifetime_end opened (some end) t in
    let now : s.lifetime_end ≡ opened.lifetime_end =
      sym (ap (λ (x : ChildPresenceSet). x.lifetime_end) same) ∙ kept in
    let still : unapplied opened.lifetime_end end ≡ true =
      subst (λ l. unapplied l end ≡ true) now open_end in
    ground (arith, eq_refl end.event_id)

-- `changed` is false exactly when the transition left the set as it stood, so the writer writes
-- the record exactly when it differs.
pub apply-changed_iff :
    (s : ChildPresenceSet) (end : Option EndMark) (t : ChildTransition)
    → ((apply s end t).1.changed ≡ false) ↔ ((apply s end t).0 ≡ s)
unfolding apply apply_end
apply-changed_iff s none t = Flagged-iff s _ none t _ (transit-Flagged s none t)
apply-changed_iff s (some end) t = elim (Bool-cases (unapplied s.lifetime_end end)) [
  | inl closes ↦
      let differs = rw (closes, apply_end) at (closed_differs s end t closes) in
      rw (closes, apply_end) (λ e. absurd (cc), λ same. absurd (differs same))
  | inr applied ↦
      rw (applied, apply_end) (Flagged-iff s _ (some end) t _ (transit-Flagged s (some end) t))
]

clear_again :
    (s : ChildPresenceSet) (order event_id : String)
    → let s' = set_after_clear s order event_id in (clear_for_parent s' order event_id).0 ≡ s'
unfolding clear_for_parent
clear_again s order event_id =
    let s' = set_after_clear s order event_id in
    elim (Option-cases (clear_refused s'.parent_clear order event_id)) [
      | inl free ↦ absurd (
          clear_refused_self order event_id
            (child_ids (retain (λ child. str_leb child.last_mono_ns order) s.live)) free)
      | inr (r, refused) ↦ rw (refused, clear_for_parent)
    ]

reconcile_again :
    (s : ChildPresenceSet) (order : String) (listed : List String)
    → let s' = set_after_reconcile s order listed in (reconcile s' order listed).0 ≡ s'
unfolding reconcile
reconcile_again s order listed =
    rw (retain-retain (λ child. kept_through_stop child order listed) s.live) (ground arith)

unless_ended_again :
    (s : ChildPresenceSet) (end : Option EndMark) (order : String)
    (next : ChildPresenceSet × Reduction)
    → next.0 ≡ s
    → (unless_ended s end order next).0 ≡ s
unless_ended_again s end order next h = elim (Option-cases (ignored_by_end s end order)) [
  | inl free ↦ rw (free, unless_ended) h
  | inr (r, refused) ↦ rw (refused, unless_ended)
]

stop_missing :
    (s : ChildPresenceSet) (a order : String) → find_child s.live a ≡ none → (stop s a order).0 ≡ s
unfolding stop
stop_missing s a order missing = rw (missing, stop) (ground arith)

-- An event at the stamp that the child already has moves nothing.
advance_again :
    (s : ChildPresenceSet) (e : Shown) (child : LiveChild)
    → find_child s.live e.agent_id ≡ some child
    → child.last_mono_ns ≡ e.order
    → (advance s e.agent_id e.agent_type e.order e.event).0 ≡ s
unfolding advance advance_known
advance_again s e child found same =
    rw (found, advance) (ground (arith, str_ltb_irrefl e.order, eq_iff e.order child.last_mono_ns))

-- A transition that shows a child working is `advance` with what it says, behind the end's guard.
transit-shown :
    (s : ChildPresenceSet) (end : Option EndMark) (t : ChildTransition) (e : Shown)
    → shown t ≡ some e
    → transit s end t
      ≡ unless_ended s end e.order (advance s e.agent_id e.agent_type e.order e.event)
unfolding transit
transit-shown s end (ChildTransition.start a ty o) e h = ground arith
transit-shown s end (ChildTransition.tool a ty o) e h = ground arith
transit-shown s end (ChildTransition.permission a ty o) e h = ground arith
transit-shown s end (ChildTransition.stop a o) e h = absurd (cc)
transit-shown s end (ChildTransition.parent_clear o id) e h = absurd (cc)
transit-shown s end (ChildTransition.reconcile o l) e h = absurd (cc)

module _ (s : ChildPresenceSet) (end : Option EndMark) (t : ChildTransition) (v : IsSound s) where
  -- A set that the transition made stays under it.
  abbrev Settled : ChildPresenceSet → Bool → Type 0
  Settled s' b = b ≡ true → (transit s' end t).0 ≡ s'

  Settled-shown :
      (s' : ChildPresenceSet) (e : Shown) (child : LiveChild)
      → shown t ≡ some e
      → find_child s'.live e.agent_id ≡ some child
      → child.last_mono_ns ≡ e.order
      → Settled s' true
  Settled-shown s' e child shows found same _ =
      rw (transit-shown s' end t e shows)
        (unless_ended_again s' end e.order _ (advance_again s' e child found same))

  Settled-known :
      (e : Shown) (child : LiveChild)
      → shown t ≡ some e
      → find_child s.live e.agent_id ≡ some child
      → Settled (set_after_known s e) true
  Settled-known e child shows own =
      let f = advanced e.agent_type e.order e.event in
      Settled-shown (set_after_known s e) e (f child) shows
        (find_child-update_child_self e.agent_id f (λ _. refl) s.live child own) refl

  Settled-new :
      (e : Shown)
      → shown t ≡ some e
      → find_child s.live e.agent_id ≡ none
      → Settled (set_after_new s e) true
  Settled-new e shows missing =
      let child = new_child e.agent_id e.agent_type e.order e.event in
      Settled-shown (set_after_new s e) e child shows
        (find_child-append_none e.agent_id s.live child missing
          ∙ find_child-new e.agent_id child refl)
        refl

  Settled-by :
      (u : ChildTransition) (s' : ChildPresenceSet)
      → t ≡ u
      → (transit s' end u).0 ≡ s'
      → Settled s' true
  Settled-by u s' e h _ = rw e h

  transit-Settled : Settled (transit s end t).0 (transit s end t).1.changed
  unfolding transit
  transit-Settled = transit_cases Settled s end t (record {
    keep = λ e. absurd (cc);
    cleared = λ o id e _. Settled-by _ _ e (clear_again s o id);
    reconciled = λ o l e _. Settled-by _ _ e (reconcile_again s o l);
    stopped = λ b o child e _ _ _. Settled-by _ _ e (
        unless_ended_again _ end o _ (
          stop_missing (set_after_stop s b) b o
            (find_child-remove_child_self b s.live v.distinct)));
    known = λ e child shows _ own _. Settled-known e child shows own;
    fresh = λ e shows _ _ missing _. Settled-new e shows missing;
  })

  transit_again : (transit (transit s end t).0 end t).0 ≡ (transit s end t).0
  transit_again = elim (Bool-cases (transit s end t).1.changed) [
    | inl moved ↦ transit-Settled moved
    | inr stayed ↦
        let same = (Flagged-iff s _ end t _ (transit-Flagged s end t)).0 stayed in
        ap (λ x. (transit x end t).0) same
  ]

apply_end_again :
    (s s' : ChildPresenceSet) (end : Option EndMark)
    → s'.lifetime_end ≡ (apply_end s end).0.lifetime_end
    → (apply_end s' end).0 ≡ s'
unfolding apply_end
apply_end_again s s' none e = refl
apply_end_again s s' (some end) e = ground (arith, eq_refl end.event_id)

-- Delivering a transition a second time, with the same knowledge of the binding's end, leaves a
-- sound set as the first delivery left it, and is reported as no change.
pub apply_again :
    (s : ChildPresenceSet) (end : Option EndMark) (t : ChildTransition)
    → IsSound s
    → let s' = (apply s end t).0 in ((apply s' end t).0 ≡ s') × ((apply s' end t).1.changed ≡ false)
unfolding apply
apply_again s end t v =
    let opened = (apply_end s end).0 in
    let s' = (transit opened end t).0 in
    let settled = apply_end_again s s' end (transit-lifetime_end opened end t) in
    let same : (transit (apply_end s' end).0 end t).0 ≡ s' =
      ap (λ x. (transit x end t).0) settled
      ∙ transit_again opened end t (apply_end-IsSound s end v) in
    (same, (apply-changed_iff s' end t).1 same)
