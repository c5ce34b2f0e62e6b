-- ===== src/Children/Arrival.antt =====
-- src/children.rs: how a child enters the set, and a live child's stamp.
use wezterm_attention.Prelude.{
  String, Bool, true, false, not, ◌≡◌, refl, sym, ◌∙◌, [], ◌∷◌, Option, none, some, arith,
  Bool-cases, inl, inr, str_ltb, str_leb, str_eq, is_some_and, is_none, ◌&&◌, eq_iff,
  str_ltb_irrefl, str_ltb_asym, retain,
}
use wezterm_attention.Children.{
  ChildEvent, event_eq, LiveChild, ChildPresenceSet, EndMark, ChildTransition,
}
use wezterm_attention.Children.Reduce.{
  find_child, advanced, new_child, apply_end, ignored_by_end, transit, apply,
}
use wezterm_attention.Children.Sound.{IsSound, apply_end-IsSound}
use wezterm_attention.Children.Find.{
  find_child-retain, find_child-remove_child_ne, find_child-remove_child_self,
  find_child-update_child_ne, find_child-update_child_self, find_child-append_some,
  find_child-append_none,
}
use wezterm_attention.Children.Evidence.{has_unapplied}
use wezterm_attention.Children.Cases.{
  Shown, shown, set_after_stop, set_after_known, set_after_new, transit_cases,
}

pub transit-lifetime_end :
    (s : ChildPresenceSet) (end : Option EndMark) (t : ChildTransition)
    → (transit s end t).0.lifetime_end ≡ s.lifetime_end
transit-lifetime_end s end t =
    transit_cases (λ s' _. s'.lifetime_end ≡ s.lifetime_end) s end t
      (record {
        keep = refl;
        cleared = λ o id _ _. refl;
        reconciled = λ o l _ _. refl;
        stopped = λ b o child _ _ _ _. refl;
        known = λ e _ _ _ _ _. refl;
        fresh = λ e _ _ _ _ _. refl;
      })

-- A binding that has ended, or an event at or before its last end, admits no child.
ignored_by_end-none :
    (s : ChildPresenceSet) (end : Option EndMark) (order : String)
    → ignored_by_end s end order ≡ none
    → (is_some_and end (λ e. e.ends_binding) ≡ false)
      × (is_some_and s.lifetime_end (λ last. str_leb order last.observed_mono_ns) ≡ false)
unfolding ignored_by_end
ignored_by_end-none s end order h = ground arith

-- The event that brought a child into the set.
pub record Admitted (s : ChildPresenceSet) (end : Option EndMark) (t : ChildTransition) (a : String)
    (c : LiveChild) : Type 0 where
  pub event : Shown
  pub shows : shown t ≡ some event
  pub same : event.agent_id ≡ a
  pub child : c ≡ new_child event.agent_id event.agent_type event.order event.event
  pub typed : (not (event_eq event.event ChildEvent.start) && is_none event.agent_type) ≡ false
  pub uncovered : is_some_and s.parent_clear (λ p. str_leb event.order p.observed_mono_ns) ≡ false
  pub later : is_some_and s.lifetime_end (λ last. str_leb event.order last.observed_mono_ns) ≡ false
  pub running : is_some_and end (λ e. e.ends_binding) ≡ false

module _ (s : ChildPresenceSet) (end : Option EndMark) (t : ChildTransition) (a : String)
    (c : LiveChild) (v : IsSound s) (missing : find_child s.live a ≡ none) where
  abbrev Enters : ChildPresenceSet → Bool → Type 0
  Enters s' _ = find_child s'.live a ≡ some c → Admitted s end t a c

  entered_kept :
      (p : LiveChild → Bool) → find_child (retain p s.live) a ≡ some c → Admitted s end t a c
  entered_kept p found = absurd (cc (find_child-retain p a s.live c v.distinct found))

  entered_stop : (b : String) → Enters (set_after_stop s b) true
  entered_stop b found = elim (Bool-cases (str_eq b a)) [
    | inl same ↦ absurd (cc (find_child-remove_child_self b s.live v.distinct, (eq_iff b a).0 same))
    | inr other ↦ absurd (cc (find_child-remove_child_ne b a s.live other))
  ]

  entered_known :
      (e : Shown) (child : LiveChild)
      → find_child s.live e.agent_id ≡ some child
      → Enters (set_after_known s e) true
  entered_known e child own found = elim (Bool-cases (str_eq e.agent_id a)) [
    | inl same ↦ absurd (cc ((eq_iff e.agent_id a).0 same))
    | inr other ↦ absurd (
        cc (
          find_child-update_child_ne e.agent_id a (advanced e.agent_type e.order e.event)
            (λ _. refl) other s.live))
  ]

  entered_new :
      (e : Shown)
      → shown t ≡ some e
      → ignored_by_end s end e.order ≡ none
      → is_some_and s.parent_clear (λ clear. str_leb e.order clear.observed_mono_ns) ≡ false
      → (not (event_eq e.event ChildEvent.start) && is_none e.agent_type) ≡ false
      → Enters (set_after_new s e) true
  unfolding find_child
  entered_new e shows i free typed found =
      let child = new_child e.agent_id e.agent_type e.order e.event in
      let alone : find_child (child ∷ []) a ≡ some c =
        sym (find_child-append_none a s.live child missing) ∙ found in
      record {
        event = e;
        shows = shows;
        same = ground (arith, eq_iff e.agent_id a);
        child = ground arith;
        typed = typed;
        uncovered = free;
        later = (ignored_by_end-none s end e.order i).1;
        running = (ignored_by_end-none s end e.order i).0;
      }

  transit-Admitted : find_child (transit s end t).0.live a ≡ some c → Admitted s end t a c
  transit-Admitted = transit_cases Enters s end t (record {
    keep = λ found. absurd (cc);
    cleared = λ o id _ _. entered_kept _;
    reconciled = λ o l _ _. entered_kept _;
    stopped = λ b o child _ _ _ _. entered_stop b;
    known = λ e child _ _ own _. entered_known e child own;
    fresh = λ e shows i free _ typed. entered_new e shows i free typed;
  })

apply_end-missing :
    (s : ChildPresenceSet) (end : Option EndMark) (a : String)
    → find_child s.live a ≡ none
    → find_child (apply_end s end).0.live a ≡ none
unfolding apply_end find_child
apply_end-missing s none a h = h
apply_end-missing s (some end) a h = ground arith

-- A child that a transition brings into a sound set came by a start, or by a tool call or a
-- permission request that names its type, while the binding runs, later than the binding's last
-- end and than the latest parent stop; and its entry is the one that event makes.
pub apply-Admitted :
    (s : ChildPresenceSet) (end : Option EndMark) (t : ChildTransition) (a : String) (c : LiveChild)
    → IsSound s
    → find_child s.live a ≡ none
    → find_child (apply s end t).0.live a ≡ some c
    → Admitted (apply_end s end).0 end t a c
unfolding apply
apply-Admitted s end t a c v missing found =
    transit-Admitted (apply_end s end).0 end t a c (apply_end-IsSound s end v)
      (apply_end-missing s end a missing) found

module _ (s : ChildPresenceSet) (end : Option EndMark) (t : ChildTransition) (a : String)
    (c d : LiveChild) (v : IsSound s) (found : find_child s.live a ≡ some c) where
  abbrev Rises : ChildPresenceSet → Bool → Type 0
  Rises s' _ = find_child s'.live a ≡ some d → str_leb c.last_mono_ns d.last_mono_ns ≡ true

  Rises-same : find_child s.live a ≡ some d → str_leb c.last_mono_ns d.last_mono_ns ≡ true
  Rises-same e = ground (arith, str_ltb_irrefl c.last_mono_ns)

  Rises-stop : (b : String) → Rises (set_after_stop s b) true
  Rises-stop b e = elim (Bool-cases (str_eq b a)) [
    | inl same ↦ absurd (cc (find_child-remove_child_self b s.live v.distinct, (eq_iff b a).0 same))
    | inr other ↦ Rises-same (sym (find_child-remove_child_ne b a s.live other) ∙ e)
  ]

  Rises-known :
      (e : Shown) (child : LiveChild)
      → find_child s.live e.agent_id ≡ some child
      → str_ltb child.last_mono_ns e.order ≡ true
      → Rises (set_after_known s e) true
  Rises-known e child own later after =
      let f = advanced e.agent_type e.order e.event in
      elim (Bool-cases (str_eq e.agent_id a)) [
        | inl same ↦
            let one : e.agent_id ≡ a = (eq_iff e.agent_id a).0 same in
            let now = find_child-update_child_self e.agent_id f (λ _. refl) s.live child own in
            ground (arith, str_ltb_asym child.last_mono_ns e.order, now, one)
        | inr other ↦
            Rises-same
              (sym (find_child-update_child_ne e.agent_id a f (λ _. refl) other s.live) ∙ after)
      ]

  transit-Rises : Rises (transit s end t).0 true
  transit-Rises =
      transit_cases (λ s' b. Rises s' true) s end t
        (record {
          keep = Rises-same;
          cleared = λ o id _ _ e. Rises-same (find_child-retain _ a s.live d v.distinct e);
          reconciled = λ o l _ _ e. Rises-same (find_child-retain _ a s.live d v.distinct e);
          stopped = λ b o child _ _ _ _. Rises-stop b;
          known = λ e child _ _ own later. Rises-known e child own later;
          fresh = λ e _ _ _ _ _ after.
              Rises-same (found ∙ sym (find_child-append_some a s.live _ c found) ∙ after);
        })

-- While a child of a sound set stays live and no end of the binding is newly applied, its stamp
-- never falls, whatever order the events come in.
pub apply-stamp_le :
    (s : ChildPresenceSet) (end : Option EndMark) (t : ChildTransition) (a : String)
    (c d : LiveChild)
    → IsSound s
    → has_unapplied s end ≡ false
    → find_child s.live a ≡ some c
    → find_child (apply s end t).0.live a ≡ some d
    → str_leb c.last_mono_ns d.last_mono_ns ≡ true
unfolding apply apply_end
apply-stamp_le s none t a c d v h found after = transit-Rises s none t a c d v found after
apply-stamp_le s (some end) t a c d v h found after =
    transit-Rises s (some end) t a c d v found (rw (h, apply_end) at after)
