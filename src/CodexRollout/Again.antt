-- ===== src/CodexRollout/Again.antt =====
-- src/codex_rollout.rs: reads of a rollout after one another.
use wezterm_attention.Prelude.{
  ℕ, ap, ◌≡◌, refl, sym, ◌∙◌, false, String, List, [], ◌∷◌, ◌++◌, Option, none, some, All,
  All-append, arith,
}
use wezterm_attention.Prelude.Json.{Value}
use wezterm_attention.Protocol.{Result, Manifest}
use wezterm_attention.CodexRollout.{TurnSignal, Outcome.done, Rollout, classify, next_signal}
use wezterm_attention.CodexRollout.Walk.{
  IsLine, written, walk, appended, answer_of, next_signal-walk,
}

-- A signal that is none, and what the next lines make of it.
no_signal :
    (o : Option TurnSignal) (r later : Rollout) (y : Option TurnSignal × Rollout)
    → (elim o [ some s ↦ (some s, r) | none ↦ y ]) ≡ (none, later)
    → ((z : Option TurnSignal × Rollout) → (elim o [ some s ↦ (some s, r) | none ↦ z ]) ≡ z)
      × (y ≡ (none, later))
no_signal none r later y h = ((λ z. refl), h)
no_signal (some s) r later y h = grind (arith, ap (λ p. p.0) h)

answered :
    (p : Option TurnSignal × Rollout) (later : Rollout)
    → answer_of p ≡ some (done none, later)
    → p ≡ (none, later)
answered (o, r) later h = grind arith

module _ (manifest : Result Manifest) (from_slice : List ℕ → Option Value) (turn_id : String) where
  -- A walk that said nothing.
  abbrev Silent : List (List ℕ) → Rollout → Rollout → Type 0
  Silent lines r later = walk manifest from_slice turn_id lines r ≡ (none, later)

  walk-append :
      (lines more : List (List ℕ)) (r later : Rollout)
      → r.skipping ≡ false
      → Silent lines r later
      → (walk manifest from_slice turn_id (lines ++ more) r
          ≡ walk manifest from_slice turn_id more later)
        × (later.skipping ≡ false)
  unfolding walk
  walk-append [] more r later reads h =
      let same : r ≡ later = ap (λ p. p.1) h in
      (ap (walk manifest from_slice turn_id more) same, sym (ap (λ r. r.skipping) same) ∙ reads)
  walk-append (line ∷ lines) more r later reads h =
      let (silent, rest) =
        no_signal ((classify manifest from_slice _ turn_id r.ended).0) _ later _ h in
      let (same, later_reads) = walk-append lines more _ later reads rest in
      (silent _ ∙ same, later_reads)

  -- When a read of complete lines and a part of one finds no signal, a later read from where it stopped,
  -- of further lines and a part of one, is answered as one read of all the lines is, whatever the part
  -- was; no line is longer than the longest read and none is being skipped.
  pub next_signal-next_signal :
      (lines more : List (List ℕ)) (first_part last_part : List ℕ) (r later : Rollout)
      → All IsLine lines
      → All IsLine more
      → IsLine first_part
      → IsLine last_part
      → r.skipping ≡ false
      → next_signal manifest from_slice (appended r (written lines first_part)) turn_id r
        ≡ some (done none, later)
      → next_signal manifest from_slice (appended later (written more last_part)) turn_id later
        ≡ next_signal manifest from_slice (appended r (written (lines ++ more) last_part)) turn_id r
  next_signal-next_signal lines more first_part last_part r later all all_more first last reads
        silent =
      let walked = answered _ later (
        sym (next_signal-walk manifest from_slice turn_id lines first_part r all first reads)
        ∙ silent) in
      let (same, later_reads) = walk-append lines more r later reads walked in
      next_signal-walk manifest from_slice turn_id more last_part later all_more last later_reads
      ∙ ap answer_of (sym same)
      ∙ sym (
          next_signal-walk manifest from_slice turn_id (lines ++ more) last_part r
            (All-append IsLine lines more all all_more) last reads)
