-- ===== src/Protocol/Stamp/Order.antt =====
-- src/protocol.rs: the order of stamps as texts and as numbers.
use Prim.Native.Char.{code}
use native.Mathlib.Nat.{pow-suc}
use wezterm_attention.Prelude.{
  ℕ, suc, ◌+◌, ◌-◌, ◌*◌, ◌^◌, ◌≤◌, ◌<◌, ◌≡◌, refl, sym, ap, ◌∙◌, true, false, String, arith, ltb,
  str_ltb, some,
}
use wezterm_attention.Protocol.Text.{byte_len, all_chars, is_ascii_digit, ns20_text, is_empty}
use wezterm_attention.Protocol.Stamp.{
  fixed_digits, format_ns20, digits_value, parse_u128, within_u128,
}
use wezterm_attention.Protocol.Stamp.Printing.{
  fixed_digits-digits, fixed_digits-byte_len, digits_value-fixed_digits, format_ns20_fixed,
}

-- The number that a text of digits spells, after `acc`.
unfoldable pub value : ℕ → String → ℕ
value acc String.[] = acc
value acc (String.◌∷◌ c s) = value (acc * 10 + (code c - 48)) s

pub value-digits_value :
    (acc : ℕ) (s : String)
    → all_chars is_ascii_digit s ≡ true
    → digits_value acc s ≡ some (value acc s)
unfolding value digits_value
value-digits_value acc String.[] h = refl
value-digits_value acc (String.◌∷◌ c s) h =
    ground (arith, value-digits_value (acc * 10 + (code c - 48)) s)

-- A smaller number before the same number of digits stays smaller.
value_lt :
    (a b : ℕ) (s t : String)
    → all_chars is_ascii_digit s ≡ true
    → all_chars is_ascii_digit t ≡ true
    → byte_len s ≡ byte_len t
    → a < b
    → value a s < value b t
unfolding value byte_len
value_lt a b String.[] String.[] h k e l = l
value_lt a b String.[] (String.◌∷◌ d t) h k e l = absurd (ground arith)
value_lt a b (String.◌∷◌ c s) String.[] h k e l = absurd (ground arith)
value_lt a b (String.◌∷◌ c s) (String.◌∷◌ d t) h k e l =
    ground (arith, value_lt (a * 10 + (code c - 48)) (b * 10 + (code d - 48)) s t)

str_ltb-value :
    (a : ℕ) (s t : String)
    → all_chars is_ascii_digit s ≡ true
    → all_chars is_ascii_digit t ≡ true
    → byte_len s ≡ byte_len t
    → str_ltb s t ≡ ltb (value a s) (value a t)
unfolding value byte_len str_ltb
str_ltb-value a String.[] String.[] h k e = ground arith
str_ltb-value a String.[] (String.◌∷◌ d t) h k e = absurd (ground arith)
str_ltb-value a (String.◌∷◌ c s) String.[] h k e = absurd (ground arith)
str_ltb-value a (String.◌∷◌ c s) (String.◌∷◌ d t) h k e = ground (
  arith,
  str_ltb-value (a * 10 + (code c - 48)) s t,
  value_lt (a * 10 + (code c - 48)) (a * 10 + (code d - 48)) s t,
  value_lt (a * 10 + (code d - 48)) (a * 10 + (code c - 48)) t s,
)

pub parse_digits :
    (s : String)
    → all_chars is_ascii_digit s ≡ true
    → is_empty s ≡ false
    → parse_u128 s ≡ within_u128 (digits_value 0 s)
unfolding parse_u128
parse_digits String.[] h k = absurd (cc)
parse_digits (String.◌∷◌ c String.[]) h k = ground arith
parse_digits (String.◌∷◌ c (String.◌∷◌ d s)) h k = ground arith

-- What `ns20_text` checks.
pub stamp_parts :
    (s : String)
    → ns20_text s ≡ true
    → (byte_len s ≡ 20) × (all_chars is_ascii_digit s ≡ true) × (is_empty s ≡ false)
unfolding ns20_text byte_len
stamp_parts String.[] h = absurd (ground arith)
stamp_parts (String.◌∷◌ c s) h = ground arith

within_u128-some : (n m : ℕ) → within_u128 (some n) ≡ some m → n ≡ m
within_u128-some n m h = ground arith

pub stamp_value : (s : String) (x : ℕ) → ns20_text s ≡ true → parse_u128 s ≡ some x → value 0 s ≡ x
stamp_value s x h e =
    let (len, digits, full) = stamp_parts s h in
    within_u128-some (value 0 s) x
      (sym (ap within_u128 (value-digits_value 0 s digits)) ∙ sym (parse_digits s digits full) ∙ e)

-- Two stamps compare as texts exactly as the numbers they spell compare.
pub str_ltb-parse_u128 :
    (s t : String) (x y : ℕ)
    → ns20_text s ≡ true
    → ns20_text t ≡ true
    → parse_u128 s ≡ some x
    → parse_u128 t ≡ some y
    → str_ltb s t ≡ ltb x y
str_ltb-parse_u128 s t x y hs ht ex ey =
    let (slen, sdigits, _) = stamp_parts s hs in
    let (tlen, tdigits, _) = stamp_parts t ht in
    ground (
      arith,
      str_ltb-value 0 s t sdigits tdigits (slen ∙ sym tlen),
      stamp_value s x hs ex,
      stamp_value t y ht ey,
    )

is_empty-fixed_digits : (w n : ℕ) → is_empty (fixed_digits (suc w) n) ≡ false
unfolding fixed_digits
is_empty-fixed_digits w n = refl

pub within_u128_of_lt : (m n : ℕ) → m ≡ n → n < 10 ^ 20 → within_u128 (some m) ≡ some n
within_u128_of_lt m n e h = ground arith

-- A number below ten to the twentieth is written as a stamp, which is read back as that number.
pub parse_u128-format_ns20 :
    (n : ℕ)
    → n < 10 ^ 20
    → (ns20_text (format_ns20 n) ≡ true) × (parse_u128 (format_ns20 n) ≡ some n)
unfolding ns20_text
parse_u128-format_ns20 n h = rw (format_ns20_fixed n h) (
  ground (arith, fixed_digits-byte_len 20 n h, fixed_digits-digits 20 n h),
  parse_digits (fixed_digits 20 n) (fixed_digits-digits 20 n h) (is_empty-fixed_digits 19 n)
      ∙ ap within_u128 (digits_value-fixed_digits 20 0 n h)
      ∙ within_u128_of_lt (0 * 10 ^ 20 + n) n (omega arith) h,
)

-- The value of digits after `a`, split at their length.
pub value_split :
    (a : ℕ) (s : String)
    → all_chars is_ascii_digit s ≡ true
    → value a s ≡ a * 10 ^ byte_len s + value 0 s
unfolding value byte_len
value_split a String.[] h = omega arith
value_split a (String.◌∷◌ c s) h =
    let digits : all_chars is_ascii_digit s ≡ true = ground arith in
    let width : byte_len (String.◌∷◌ c s) ≡ suc (byte_len s) = ground arith in
    let here = value_split (a * 10 + (code c - 48)) s digits in
    let there = value_split (0 * 10 + (code c - 48)) s digits in rw (width, pow-suc) (grind arith)

pub value_bound : (s : String) → all_chars is_ascii_digit s ≡ true → value 0 s < 10 ^ byte_len s
unfolding value byte_len
value_bound String.[] h = omega arith
value_bound (String.◌∷◌ c s) h =
    let digits : all_chars is_ascii_digit s ≡ true = ground arith in
    let width : byte_len (String.◌∷◌ c s) ≡ suc (byte_len s) = ground arith in
    let small : code c - 48 ≤ 9 = ground arith in
    let split = value_split (0 * 10 + (code c - 48)) s digits in
    rw (width, pow-suc) (grind (arith, value_bound s digits))
