-- ===== src/Protocol/Decimal.antt =====
-- Decimal numbers as the language prints and parses them, for the owner fields of src/protocol.rs.
use Prim.Native.Char.{code}
use native.Mathlib.Nat.{pow-suc}
use wezterm_attention.Prelude.{
  ℕ, zero, suc, ◌/◌, ◌^◌, ◌<◌, ◌≡◌, refl, sym, ap, ◌∙◌, Bool, true, false, String, arith, ltb,
  nat_eq, if◌then◌else◌, Option, none, some,
}
use wezterm_attention.Protocol.Stamp.{fixed_digits, digit_count, digits_value}
use wezterm_attention.Protocol.Stamp.Printing.{
  code-digit_char, pow_pos, digit_bound, digits_value-fixed_digits, fixed_digits-digits,
}
use wezterm_attention.Protocol.Text.{all_chars, is_ascii_digit}

abbrev pub within : ℕ → Option ℕ → Option ℕ
within limit none = none
within limit (some n) = if ltb n limit then some n else none

abbrev drop_plus : String → String
drop_plus String.[] = ""
drop_plus (String.◌∷◌ c s) = if nat_eq (code c) b'+' then s else String.◌∷◌ c s

abbrev no_digits : String → Bool
no_digits String.[] = true
no_digits (String.◌∷◌ c s) = false

-- `str::parse` for an unsigned type of `limit` values, and for the values of a signed type that
-- are not negative: an optional `+`, at least one digit, and no overflow.
unfoldable pub parse_decimal : ℕ → String → Option ℕ
parse_decimal limit text =
    if no_digits (drop_plus text) then none else within limit (digits_value 0 (drop_plus text))

-- The most decimal digits that a `u128` has.
abbrev pub decimal_width : ℕ
decimal_width = 39

-- `to_string`: the decimal digits without leading zeros.
unfoldable pub to_decimal : ℕ → String
to_decimal n = fixed_digits (digit_count decimal_width n) n

-- The count of digits is enough for the number.
below_digit_count : (fuel n : ℕ) → n < 10 ^ suc fuel → n < 10 ^ digit_count fuel n
unfolding digit_count
below_digit_count zero n h = h
below_digit_count (suc fuel) n h =
    let smaller : n / 10 < 10 ^ suc fuel = omega (arith, rw pow-suc at h) in
    let rest = below_digit_count fuel (n / 10) smaller in grind (arith, pow-suc, rest)

digit_count-positive : (fuel n : ℕ) → 0 < digit_count fuel n
unfolding digit_count
digit_count-positive zero n = omega arith
digit_count-positive (suc fuel) n = ground arith

not_plus : (w n : ℕ) → n < 10 ^ suc w → drop_plus (fixed_digits (suc w) n) ≡ fixed_digits (suc w) n
unfolding fixed_digits
not_plus w n h =
    let below : n / 10 ^ w < 10 = digit_bound n (10 ^ w) (pow_pos w) (rw pow-suc at h) in
    ground (arith, code-digit_char (n / 10 ^ w) below)

some_digits : (w n : ℕ) → no_digits (fixed_digits (suc w) n) ≡ false
unfolding fixed_digits
some_digits w n = refl

parse_fixed :
    (w n limit : ℕ)
    → 0 < w
    → n < 10 ^ w
    → n < limit
    → parse_decimal limit (fixed_digits w n) ≡ some n
unfolding parse_decimal
parse_fixed zero n limit p h k = absurd (omega arith)
parse_fixed (suc w) n limit p h k =
    rw (not_plus w n h, some_digits w n, digits_value-fixed_digits (suc w) 0 n h) (ground arith)

-- A printed number is read back where the type holds it.
pub parse_decimal-to_decimal :
    (n limit : ℕ) → n < 10 ^ 40 → n < limit → parse_decimal limit (to_decimal n) ≡ some n
unfolding to_decimal
parse_decimal-to_decimal n limit h k =
    parse_fixed (digit_count decimal_width n) n limit (digit_count-positive decimal_width n)
      (below_digit_count decimal_width n h) k

pub to_decimal-digits : (n : ℕ) → n < 10 ^ 40 → all_chars is_ascii_digit (to_decimal n) ≡ true
unfolding to_decimal
to_decimal-digits n h =
    fixed_digits-digits (digit_count decimal_width n) n (below_digit_count decimal_width n h)

some_inj : (m n : ℕ) → some m ≡ some n → m ≡ n
some_inj m n h = cc

-- Two numbers printed alike are equal.
pub to_decimal_inj : (m n : ℕ) → m < 10 ^ 40 → n < 10 ^ 40 → to_decimal m ≡ to_decimal n → m ≡ n
to_decimal_inj m n h k e = some_inj m n (
    sym (parse_decimal-to_decimal m (10 ^ 40) h h)
    ∙ ap (parse_decimal (10 ^ 40)) e
    ∙ parse_decimal-to_decimal n (10 ^ 40) k k)
