-- ===== src/Protocol/Stamp/Printing.antt =====
-- src/protocol.rs: the digits that a number is printed with, and their value.
use Prim.Native.Char.{code}
use native.Mathlib.Nat.{pow-suc}
use wezterm_attention.Prelude.{
  ℕ, zero, suc, ◌+◌, ◌-◌, ◌*◌, ◌/◌, ◌%◌, ◌^◌, ◌≤◌, ◌<◌, max, ◌≡◌, refl, ap, true, arith, some,
}
use wezterm_attention.Protocol.Text.{byte_len, all_chars, is_ascii_digit}
use wezterm_attention.Protocol.Stamp.{
  digit_char, fixed_digits, digit_count, u128_digits, format_ns20, digits_value,
}

pub code-digit_char : (d : ℕ) → d < 10 → code (digit_char d) ≡ 48 + d
code-digit_char zero h = refl
code-digit_char (suc zero) h = refl
code-digit_char (suc (suc zero)) h = refl
code-digit_char (suc (suc (suc zero))) h = refl
code-digit_char (suc (suc (suc (suc zero)))) h = refl
code-digit_char (suc (suc (suc (suc (suc zero))))) h = refl
code-digit_char (suc (suc (suc (suc (suc (suc zero)))))) h = refl
code-digit_char (suc (suc (suc (suc (suc (suc (suc zero))))))) h = refl
code-digit_char (suc (suc (suc (suc (suc (suc (suc (suc zero)))))))) h = refl
code-digit_char (suc (suc (suc (suc (suc (suc (suc (suc (suc n))))))))) h = omega arith

pub pow_pos : (w : ℕ) → 0 < 10 ^ w
pow_pos zero = omega arith
pow_pos (suc w) = rw pow-suc (omega (arith, pow_pos w))

pub digit_bound : (n P : ℕ) → 0 < P → n < P * 10 → n / P < 10
digit_bound n P p h = grind arith

pub fixed_digits-digits :
    (w n : ℕ) → n < 10 ^ w → all_chars is_ascii_digit (fixed_digits w n) ≡ true
unfolding fixed_digits
fixed_digits-digits zero n h = refl
fixed_digits-digits (suc w) n h =
    let below : n / 10 ^ w < 10 = digit_bound n (10 ^ w) (pow_pos w) (rw pow-suc at h) in
    ground (
      arith,
      code-digit_char (n / 10 ^ w) below,
      fixed_digits-digits w (n % 10 ^ w) (grind (arith, pow_pos w)),
    )

pub fixed_digits-byte_len : (w n : ℕ) → n < 10 ^ w → byte_len (fixed_digits w n) ≡ w
unfolding fixed_digits byte_len
fixed_digits-byte_len zero n h = refl
fixed_digits-byte_len (suc w) n h =
    let below : n / 10 ^ w < 10 = digit_bound n (10 ^ w) (pow_pos w) (rw pow-suc at h) in
    ground (
      arith,
      code-digit_char (n / 10 ^ w) below,
      fixed_digits-byte_len w (n % 10 ^ w) (grind (arith, pow_pos w)),
    )

value_step : (acc n P : ℕ) → 0 < P → (acc * 10 + n / P) * P + n % P ≡ acc * (P * 10) + n
value_step acc n P h = grind arith

digit_test : (d : ℕ) → d < 10 → is_ascii_digit (48 + d) ≡ true
digit_test d h = ground arith

minus_zero_char : (d : ℕ) → 48 + d - 48 ≡ d
minus_zero_char d = omega arith

pub digits_value-fixed_digits :
    (w acc n : ℕ) → n < 10 ^ w → digits_value acc (fixed_digits w n) ≡ some (acc * 10 ^ w + n)
unfolding fixed_digits digits_value
digits_value-fixed_digits zero acc n h = ground arith
digits_value-fixed_digits (suc w) acc n h =
    let below : n / 10 ^ w < 10 = digit_bound n (10 ^ w) (pow_pos w) (rw pow-suc at h) in
    let digit = code-digit_char (n / 10 ^ w) below in
    let rest =
      digits_value-fixed_digits w (acc * 10 + n / 10 ^ w) (n % 10 ^ w) (grind (arith, pow_pos w)) in
    rw (digit, pow-suc, digit_test _ below, minus_zero_char (n / 10 ^ w), rest)
      (ap some (value_step acc n (10 ^ w) (pow_pos w)))

-- The count of digits is at most `k` where the number is below ten to the `k`.
digit_count-le : (fuel n k : ℕ) → n < 10 ^ suc k → digit_count fuel n ≤ suc k
unfolding digit_count
digit_count-le zero n k h = omega arith
digit_count-le (suc fuel) n zero h = ground arith
digit_count-le (suc fuel) n (suc k) h =
    let P = 10 ^ suc k in
    let smaller : n / 10 < 10 ^ suc k = omega (arith, rw pow-suc at h) in
    ground (arith, digit_count-le fuel (n / 10) k smaller)

pub format_ns20_fixed : (n : ℕ) → n < 10 ^ 20 → format_ns20 n ≡ fixed_digits 20 n
unfolding format_ns20
format_ns20_fixed n h =
    let bound : digit_count u128_digits n ≤ 20 = digit_count-le u128_digits n 19 h in
    let width : max 20 (digit_count u128_digits n) ≡ 20 = omega arith in rw width
