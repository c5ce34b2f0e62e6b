-- ===== src/Protocol/Stamp/Reading.antt =====
-- src/protocol.rs: a stamp and the number it is read as, and the time between two stamps.
use Prim.Native.Char.{Char, code}
use text.Mathlib.TextEquality.{Char-path}
use wezterm_attention.Prelude.{
  ℕ, suc, ◌+◌, ◌-◌, ◌*◌, ◌/◌, ◌^◌, ◌%◌, ◌<◌, ◌≡◌, refl, ap, ◌∙◌, true, String, arith, ltb, leb,
  if◌then◌else◌, none, some, subst,
}
use wezterm_attention.Protocol.Text.{byte_len, all_chars, is_ascii_digit, ns20_text}
use wezterm_attention.Protocol.Stamp.{
  digit_char, fixed_digits, format_ns20, u128_limit, within_u128, parse_u128, elapsed_beyond,
}
use wezterm_attention.Protocol.Stamp.Printing.{code-digit_char, format_ns20_fixed}
use wezterm_attention.Protocol.Stamp.Order.{
  value, value_split, value_bound, stamp_parts, parse_digits, value-digits_value, within_u128_of_lt,
  stamp_value,
}

digit_char-code : (c : Char) → is_ascii_digit (code c) ≡ true → digit_char (code c - 48) ≡ c
digit_char-code c h =
    Char-path (digit_char (code c - 48)) c
      (code-digit_char (code c - 48) (ground arith) ∙ (ground arith))

lead : (d P v : ℕ) → v < P → (d * P + v) / P ≡ d
lead d P v h = grind arith

trail : (d P v : ℕ) → v < P → (d * P + v) % P ≡ v
trail d P v h = grind arith

fixed_digits-value :
    (s : String) → all_chars is_ascii_digit s ≡ true → fixed_digits (byte_len s) (value 0 s) ≡ s
unfolding fixed_digits byte_len value
fixed_digits-value String.[] h = refl
fixed_digits-value (String.◌∷◌ c s) h =
    let digits : all_chars is_ascii_digit s ≡ true = ground arith in
    let digit : is_ascii_digit (code c) ≡ true = ground arith in
    let width : byte_len (String.◌∷◌ c s) ≡ suc (byte_len s) = ground arith in
    let d = code c - 48 in
    let whole : value 0 (String.◌∷◌ c s) ≡ d * 10 ^ byte_len s + value 0 s =
      value_split (0 * 10 + d) s digits ∙ omega arith in
    let bound = value_bound s digits in
    rw (
      width,
      whole,
      lead d _ _ bound,
      trail d _ _ bound,
      digit_char-code c digit,
      fixed_digits-value s digits,
    )

-- Every stamp reads as a number below ten to the twentieth, and is the text that `format_ns20`
-- writes for it.
pub format_ns20-parse_u128 :
    (s : String)
    → ns20_text s ≡ true
    → (n : ℕ) × (parse_u128 s ≡ some n) × (n < 10 ^ 20) × (format_ns20 n ≡ s)
format_ns20-parse_u128 s h =
    let (len, digits, full) = stamp_parts s h in
    let small : value 0 s < 10 ^ 20 = subst (λ k. value 0 s < 10 ^ k) len (value_bound s digits) in
    (
      value 0 s,
      parse_digits s digits full
          ∙ ap within_u128 (value-digits_value 0 s digits)
          ∙ within_u128_of_lt (value 0 s) (value 0 s) refl small,
      small,
      format_ns20_fixed (value 0 s) small
          ∙ subst (λ k. fixed_digits k (value 0 s) ≡ s) len (fixed_digits-value s digits),
    )

parsed_small : (s : String) (x : ℕ) → ns20_text s ≡ true → parse_u128 s ≡ some x → x < 10 ^ 20
parsed_small s x h e =
    let (len, digits, _) = stamp_parts s h in
    let bound : value 0 s < 10 ^ 20 = subst (λ k. value 0 s < 10 ^ k) len (value_bound s digits) in
    subst (λ k. k < 10 ^ 20) (stamp_value s x h e) bound

-- Between two stamps, and for an interval that a `u128` can add to a stamp, `elapsed_beyond`
-- answers whether more than the interval passed, without overflow, and answers nothing exactly
-- when the clock was set back.
pub elapsed_beyond_lem :
    (now written : String) (x y interval : ℕ)
    → ns20_text now ≡ true
    → ns20_text written ≡ true
    → parse_u128 now ≡ some x
    → parse_u128 written ≡ some y
    → interval < u128_limit - 10 ^ 20
    → elapsed_beyond now written interval ≡ (if leb y x then some (ltb (y + interval) x) else none)
unfolding elapsed_beyond
elapsed_beyond_lem now written x y interval hn hw ex ey small =
    let fits : (y + interval) % u128_limit ≡ y + interval =
      omega (arith, parsed_small written y hw ey) in
    rw (ex, elapsed_beyond) (rw (ey, elapsed_beyond) (rw fits))
