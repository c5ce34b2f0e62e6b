-- ===== src/CodexRollout/Walk.antt =====
-- src/codex_rollout.rs: what `next_signal` makes of the lines that Codex appended.
use wezterm_attention.Prelude.{
  ℕ, zero, suc, ◌+◌, ◌-◌, ◌≤◌, ◌<◌, ◌≡◌, refl, ◌∙◌, true, false, String, List, [], ◌∷◌, ◌++◌,
  Option, none, some, ltb, nat_eq, length, length-append, arith, All, if_each,
}
use wezterm_attention.Prelude.Json.{Value}
use wezterm_attention.Protocol.{Result, Manifest}
use wezterm_attention.CodexRollout.{
  max_line_bytes, TurnSignal, Outcome, Outcome.done, Rollout, read_line, is_complete, take,
  classify, next_lines, read_round, RolloutRead, next_signal,
}

-- The bytes before a line's end.
unfoldable pub Unbroken : List ℕ → Type 0
Unbroken bytes = All (λ b. nat_eq b b'\n' ≡ false) bytes

-- A line of which `next_signal` reads the whole.
unfoldable pub IsLine : List ℕ → Type 0
IsLine line = Unbroken line × length line ≤ max_line_bytes

-- Lines with their ends, and what is written of the next one.
abbrev pub written : List (List ℕ) → List ℕ → List ℕ
written [] partial_line = partial_line
written (line ∷ lines) partial_line = line ++ (b'\n' ∷ written lines partial_line)

read_line_line :
    (limit : ℕ) (line rest : List ℕ)
    → Unbroken line
    → length line < limit
    → read_line limit (line ++ (b'\n' ∷ rest)) ≡ (line ++ (b'\n' ∷ []), rest)
unfolding read_line Unbroken
read_line_line zero line rest u h = ground arith
read_line_line (suc limit) [] rest u h = refl
read_line_line (suc limit) (b ∷ line) rest (e, u) h =
    rw (e, read_line_line limit line rest u (omega arith)) refl

read_line_partial :
    (limit : ℕ) (line : List ℕ)
    → Unbroken line
    → length line ≤ limit
    → read_line limit line ≡ (line, [])
unfolding read_line Unbroken
read_line_partial zero [] u h = refl
read_line_partial zero (b ∷ line) u h = ground arith
read_line_partial (suc limit) [] u h = refl
read_line_partial (suc limit) (b ∷ line) (e, u) h =
    rw (e, read_line_partial limit line u (omega arith)) refl

is_complete_line : (line : List ℕ) → is_complete (line ++ (b'\n' ∷ [])) ≡ true
unfolding is_complete
is_complete_line [] = refl
is_complete_line (b ∷ []) = refl
is_complete_line (b ∷ c ∷ line) = is_complete_line (c ∷ line)

is_complete_partial : (line : List ℕ) → Unbroken line → is_complete line ≡ false
unfolding is_complete Unbroken
is_complete_partial [] u = refl
is_complete_partial (b ∷ []) (e, u) = e
is_complete_partial (b ∷ c ∷ line) (e, u) = is_complete_partial (c ∷ line) u

take_all : (bytes : List ℕ) → take (length bytes) bytes ≡ bytes
unfolding take
take_all [] = refl
take_all (b ∷ bytes) = rw (take_all bytes) refl

abbrev Answer : Type 0
Answer = Option (Outcome (Option TurnSignal) × Rollout)

read_round_complete :
    (line : List ℕ) (r after : Rollout) (signal : Option TurnSignal) (skipped passed : Answer)
    → nat_eq (length line) 0 ≡ false
    → is_complete line ≡ true
    → r.skipping ≡ false
    → read_round false line signal r after skipped passed
      ≡ (elim signal [ some s ↦ some (done (some s), after) | none ↦ passed ])
unfolding read_round
read_round_complete line r after signal skipped passed nonempty complete reads =
    rw (nonempty, complete, reads) refl

within : (n : ℕ) → n ≤ max_line_bytes → ltb max_line_bytes n ≡ false
within n h = ground arith

read_round_partial :
    (line : List ℕ) (signal : Option TurnSignal) (r after : Rollout) (skipped passed : Answer)
    → is_complete line ≡ false
    → length line ≤ max_line_bytes
    → r.skipping ≡ false
    → read_round false line signal r after skipped passed ≡ some (done none, r)
unfolding read_round
read_round_partial line signal r after skipped passed broken h reads =
    simp (broken, reads, within (length line) h)
      (if_each (λ answer. answer ≡ some (done none, r)) (nat_eq (length line) 0) _ _ (λ _. refl)
        (λ _. refl))

nonempty : (line : List ℕ) → nat_eq (length (line ++ (b'\n' ∷ []))) 0 ≡ false
nonempty line = ground (arith, length-append line (b'\n' ∷ []))

abbrev pub answer_of : Option TurnSignal × Rollout → Answer
answer_of (signal, r) = some (done signal, r)

signals_agree :
    (o : Option TurnSignal) (r : Rollout) (x : Answer) (y : Option TurnSignal × Rollout)
    → x ≡ answer_of y
    → (elim o [ some s ↦ some (done (some s), r) | none ↦ x ])
      ≡ answer_of (elim o [ some s ↦ (some s, r) | none ↦ y ])
signals_agree none r x y h = h
signals_agree (some s) r x y h = refl

same_number : (n : ℕ) → nat_eq n n ≡ true
same_number n = ground arith

not_shrunk : (offset n : ℕ) → ltb (offset + n) offset ≡ false
not_shrunk offset n = ground arith

take_appended : (offset : ℕ) (bytes : List ℕ) → take (offset + length bytes - offset) bytes ≡ bytes
take_appended offset bytes =
    let same : offset + length bytes - offset ≡ length bytes = omega arith in
    rw same (take_all bytes)

lines_le :
    (lines : List (List ℕ)) (partial_line : List ℕ)
    → length lines ≤ length (written lines partial_line)
lines_le [] partial_line = omega arith
lines_le (line ∷ lines) partial_line =
    omega
      (arith, lines_le lines partial_line, length-append line (b'\n' ∷ written lines partial_line))

-- What `next_signal` is answered when Codex appended some bytes and every call works.
abbrev pub appended : Rollout → List ℕ → RolloutRead
appended r bytes = record {
  named = some (r.device, r.inode);
  file_length = some (r.offset + length bytes);
  seeks = true;
  read_fails = λ _. false;
  unread = bytes;
}

module _ (manifest : Result Manifest) (from_slice : List ℕ → Option Value) (turn_id : String) where
  abbrev passed : List ℕ → Rollout → Rollout
  passed line r = record r {
    offset = r.offset + length line;
    ended = (classify manifest from_slice line turn_id r.ended).1;
  }

  -- The first signal of the lines, and how far they were read.
  unfoldable pub walk : List (List ℕ) → Rollout → Option TurnSignal × Rollout
  walk [] r = (none, r)
  walk (line ∷ lines) r =
      let bytes = line ++ (b'\n' ∷ []) in
      let later = walk lines (passed bytes r) in
      elim ((classify manifest from_slice bytes turn_id r.ended).0) [
        | some s ↦ (some s, passed bytes r)
        | none ↦ later
      ]

  -- What a line that is read to its end leads to, with what the next ones do.
  abbrev after_line : List ℕ → Rollout → (Rollout → Answer) → Answer
  after_line line r go_on = elim ((classify manifest from_slice line turn_id r.ended).0) [
    | some s ↦ some (done (some s), passed line r)
    | none ↦ go_on (passed line r)
  ]

  next_lines_line :
      (fuel : ℕ) (r : Rollout) (bytes line rest : List ℕ)
      → read_line (suc max_line_bytes) bytes ≡ (line, rest)
      → nat_eq (length line) 0 ≡ false
      → is_complete line ≡ true
      → r.skipping ≡ false
      → next_lines manifest from_slice (suc fuel) (λ _. false) turn_id r bytes
        ≡ after_line line r
            (λ passed. next_lines manifest from_slice fuel (λ _. false) turn_id passed rest)
  unfolding next_lines
  next_lines_line fuel r bytes line rest cut nonempty complete reads =
      rw cut (read_round_complete line r _ _ _ _ nonempty complete reads)

  after_line_answers :
      (line : List ℕ) (lines : List (List ℕ)) (r : Rollout) (go_on : Rollout → Answer)
      → ((later : Rollout) → later.skipping ≡ false → go_on later ≡ answer_of (walk lines later))
      → r.skipping ≡ false
      → after_line (line ++ (b'\n' ∷ [])) r go_on ≡ answer_of (walk (line ∷ lines) r)
  unfolding walk
  after_line_answers line lines r go_on goes reads =
      signals_agree ((classify manifest from_slice _ turn_id r.ended).0) _ _ _ (goes _ reads)

  next_lines_partial :
      (fuel : ℕ) (r : Rollout) (line : List ℕ)
      → Unbroken line
      → length line ≤ max_line_bytes
      → r.skipping ≡ false
      → next_lines manifest from_slice (suc fuel) (λ _. false) turn_id r line ≡ some (done none, r)
  unfolding next_lines
  next_lines_partial fuel r line u h reads =
      rw (read_line_partial (suc max_line_bytes) line u (omega arith))
        (read_round_partial line _ r _ _ _ (is_complete_partial line u) h reads)

  next_lines-walk :
      (lines : List (List ℕ)) (partial_line : List ℕ) (fuel : ℕ) (r : Rollout)
      → All IsLine lines
      → IsLine partial_line
      → length lines < fuel
      → r.skipping ≡ false
      → next_lines manifest from_slice fuel (λ _. false) turn_id r (written lines partial_line)
        ≡ answer_of (walk lines r)
  unfolding IsLine walk
  next_lines-walk lines partial_line zero r all one h reads = ground arith
  next_lines-walk [] partial_line (suc fuel) r all (u, short) h reads =
      next_lines_partial fuel r partial_line u short reads
  next_lines-walk (line ∷ lines) partial_line (suc fuel) r ((u, short), all) one h reads =
      next_lines_line fuel r _ _ _ (read_line_line (suc max_line_bytes) line _ u (omega arith))
        (nonempty line) (is_complete_line line) reads
      ∙ after_line_answers line lines r _
          (λ later. next_lines-walk lines partial_line fuel later all one (omega arith)) reads

  nothing_written :
      (lines : List (List ℕ)) (partial_line : List ℕ) (r : Rollout)
      → length lines ≡ 0
      → some (done none, r) ≡ answer_of (walk lines r)
  unfolding walk
  nothing_written [] partial_line r h = refl
  nothing_written (line ∷ lines) partial_line r h = ground arith

  -- When Codex appended complete lines of at most the longest length and a part of one, and no line is
  -- being skipped, the first signal of the lines is found, and the next read starts after the line
  -- that gave it, or after the last complete line where none did.
  pub next_signal-walk :
      (lines : List (List ℕ)) (partial_line : List ℕ) (r : Rollout)
      → All IsLine lines
      → IsLine partial_line
      → r.skipping ≡ false
      → next_signal manifest from_slice (appended r (written lines partial_line)) turn_id r
        ≡ answer_of (walk lines r)
  unfolding next_signal
  next_signal-walk lines partial_line r all one reads =
      let bytes = written lines partial_line in
      rw
        (
          same_number r.device,
          same_number r.inode,
          not_shrunk r.offset (length bytes),
          take_appended r.offset bytes,
        )
        (if_each (λ answer. answer ≡ answer_of (walk lines r))
          (nat_eq (r.offset + length bytes) r.offset) _ _
          (λ e. nothing_written lines partial_line r (ground (arith, lines_le lines partial_line)))
          (λ _.
            next_lines-walk lines partial_line _ r all one
              (omega (arith, lines_le lines partial_line)) reads))
