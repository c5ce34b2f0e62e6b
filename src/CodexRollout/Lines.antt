-- ===== src/CodexRollout/Lines.antt =====
-- src/codex_rollout.rs: the loop of `next_signal`, which comes to an end.
use wezterm_attention.Prelude.{
  ℕ, zero, suc, ◌+◌, ◌<◌, ◌≡◌, refl, Bool, true, false, not, ◌||◌, String, List, [], ◌∷◌, Option,
  none, some, is_some, ltb, nat_eq, length, arith, if_each,
}
use wezterm_attention.Prelude.Json.{Value}
use wezterm_attention.Protocol.{Result, Manifest}
use wezterm_attention.CodexRollout.{
  max_line_bytes, TurnSignal, Outcome, Rollout, read_line, is_complete, next_lines, read_round,
  still_named, RolloutRead, next_signal,
}

length-read_line :
    (limit : ℕ) (bytes : List ℕ)
    → length ((read_line limit bytes).0) + length ((read_line limit bytes).1) ≡ length bytes
unfolding read_line
length-read_line zero bytes = omega arith
length-read_line (suc limit) [] = refl
length-read_line (suc limit) (b ∷ bytes) = ground (arith, length-read_line limit bytes)

read_line_shorter :
    (limit : ℕ) (bytes : List ℕ)
    → nat_eq (length ((read_line limit bytes).0)) 0 ≡ false
    → length ((read_line limit bytes).1) < length bytes
read_line_shorter limit bytes some_read = ground (arith, length-read_line limit bytes)

-- What is left after a line that read some byte is in the reach of one fuel less.
ends_in :
    (fuel : ℕ) (bytes : List ℕ)
    → length bytes < suc fuel
    → nat_eq (length ((read_line (suc max_line_bytes) bytes).0)) 0 ≡ false
    → length ((read_line (suc max_line_bytes) bytes).1) < fuel
ends_in fuel bytes h e = omega (arith, read_line_shorter (suc max_line_bytes) bytes e)

pub signal_each {ℓ κ} :
    {A : Type ℓ} (P : A → Type κ) (o : Option TurnSignal) (f : TurnSignal → A) (y : A)
    → ((s : TurnSignal) → P (f s))
    → P y
    → P (elim o [ none ↦ y | some s ↦ f s ])
signal_each P none f y h k = k
signal_each P (some s) f y h k = h s

-- A loop that came to an end.
pub Ends : Option (Outcome (Option TurnSignal) × Rollout) → Type 0
Ends answer = is_some answer ≡ true

ended_with : (answer : Outcome (Option TurnSignal) × Rollout) → Ends (some answer)
unfolding Ends
ended_with answer = refl

read_round-Ends :
    (fails : Bool) (line : List ℕ) (signal : Option TurnSignal) (r after : Rollout)
    (skipped passed : Option (Outcome (Option TurnSignal) × Rollout))
    → (nat_eq (length line) 0 ≡ false → Ends skipped)
    → (nat_eq (length line) 0 ≡ false → Ends passed)
    → Ends (read_round fails line signal r after skipped passed)
unfolding read_round Ends
read_round-Ends fails line signal r after skipped passed h k =
    if_each Ends fails _ _ (λ _. refl)
      (λ _.
        if_each Ends (nat_eq (length line) 0) _ _ (λ _. refl)
          (λ e.
            if_each Ends (r.skipping || _) _ _ (λ _. h e)
              (λ _.
                if_each Ends (not (is_complete line)) _ _ (λ _. refl)
                  (λ _. signal_each Ends signal _ _ (λ s. refl) (k e)))))

length_each {ℓ} :
    (P : Option (Outcome (Option TurnSignal) × Rollout) → Type ℓ) (o : Option ℕ)
    (f : ℕ → Option (Outcome (Option TurnSignal) × Rollout))
    (y : Option (Outcome (Option TurnSignal) × Rollout))
    → ((n : ℕ) → P (f n))
    → P y
    → P (elim o [ none ↦ y | some n ↦ f n ])
length_each P none f y h k = k
length_each P (some n) f y h k = h n

module _ (manifest : Result Manifest) (from_slice : List ℕ → Option Value) where
  next_lines-Ends :
      (fuel : ℕ) (read_fails : ℕ → Bool) (turn_id : String) (r : Rollout) (bytes : List ℕ)
      → length bytes < fuel
      → Ends (next_lines manifest from_slice fuel read_fails turn_id r bytes)
  unfolding next_lines
  next_lines-Ends zero read_fails turn_id r bytes h = ground arith
  next_lines-Ends (suc fuel) read_fails turn_id r bytes h =
      read_round-Ends (read_fails r.offset) _ _ r _ _ _
        (λ e. next_lines-Ends fuel read_fails turn_id _ _ (ends_in fuel bytes h e))
        (λ e. next_lines-Ends fuel read_fails turn_id _ _ (ends_in fuel bytes h e))

  -- The fuel that `next_signal` gives is enough.
  enough_fuel :
      (read_fails : ℕ → Bool) (turn_id : String) (r : Rollout) (bytes : List ℕ)
      → Ends (next_lines manifest from_slice (suc (length bytes)) read_fails turn_id r bytes)
  enough_fuel read_fails turn_id r bytes =
      next_lines-Ends (suc (length bytes)) read_fails turn_id r bytes (omega arith)

  -- A read of a rollout comes to an end with a signal, with none or with a refusal, whatever the file
  -- holds, however long its lines are and wherever a read of it fails.
  pub next_signal-Ends :
      (look : RolloutRead) (turn_id : String) (r : Rollout)
      → Ends (next_signal manifest from_slice look turn_id r)
  unfolding next_signal
  next_signal-Ends look turn_id r =
      if_each Ends (not (still_named look.named r)) _ _ (λ _. ended_with _)
        (λ _.
          length_each Ends look.file_length _ _
            (λ n.
              if_each Ends (ltb n r.offset) _ _ (λ _. ended_with _)
                (λ _.
                  if_each Ends (nat_eq n r.offset) _ _ (λ _. ended_with _)
                    (λ _.
                      if_each Ends (not look.seeks) _ _ (λ _. ended_with _)
                        (λ _. enough_fuel look.read_fails turn_id r _))))
            (ended_with _))
