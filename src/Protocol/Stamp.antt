-- ===== src/Protocol/Stamp.antt =====
-- src/protocol.rs: nanosecond stamps. `format!("{n:020}")` and `str::parse::<u128>` are written
-- out as the language defines them.
pub mod Printing
pub mod Order
pub mod Reading
use Prim.Native.Char.{Char, code}
use wezterm_attention.Prelude.{
  ℕ, zero, suc, ◌+◌, ◌-◌, ◌*◌, ◌/◌, ◌%◌, ◌^◌, ◌≤◌, ◌<◌, max, ◌≡◌, refl, sym, ap, ◌∙◌, Bool, true,
  false, not, ◌&&◌, ◌||◌, String, arith, ltb, leb, nat_eq, if◌then◌else◌, str_eq, str_ltb, Option,
  none, some,
}
use wezterm_attention.Protocol.Text.{byte_len, all_chars, is_ascii_digit, ns20_text, utf8_width}

-- The character of a digit; the caller passes a number below ten.
abbrev pub digit_char : ℕ → Char
digit_char zero = "0"
digit_char (suc zero) = "1"
digit_char (suc (suc zero)) = "2"
digit_char (suc (suc (suc zero))) = "3"
digit_char (suc (suc (suc (suc zero)))) = "4"
digit_char (suc (suc (suc (suc (suc zero))))) = "5"
digit_char (suc (suc (suc (suc (suc (suc zero)))))) = "6"
digit_char (suc (suc (suc (suc (suc (suc (suc zero))))))) = "7"
digit_char (suc (suc (suc (suc (suc (suc (suc (suc zero)))))))) = "8"
digit_char _ = "9"

-- The decimal digits of `n`, zeros in front up to `width`, which is at least the digits of `n`.
unfoldable pub fixed_digits : ℕ → ℕ → String
fixed_digits zero n = ""
fixed_digits (suc w) n = String.◌∷◌ (digit_char (n / 10 ^ w)) (fixed_digits w (n % 10 ^ w))

-- How many decimal digits `n` has, up to `fuel`; 39 are enough for a `u128`.
unfoldable pub digit_count : ℕ → ℕ → ℕ
digit_count zero n = 1
digit_count (suc fuel) n =
    let more = suc (digit_count fuel (n / 10)) in if ltb n 10 then 1 else more

abbrev pub u128_digits : ℕ
u128_digits = 39

-- `format!("{nanoseconds:020}")`: at least 20 digits, more where the number has more.
unfoldable pub format_ns20 : ℕ → String
format_ns20 nanoseconds = fixed_digits (max 20 (digit_count u128_digits nanoseconds)) nanoseconds

-- The value of a text of decimal digits, after `acc`; `none` at another character.
unfoldable pub digits_value : ℕ → String → Option ℕ
digits_value acc String.[] = some acc
digits_value acc (String.◌∷◌ c s) =
    let rest = digits_value (acc * 10 + (code c - 48)) s in
    if is_ascii_digit (code c) then rest else none

abbrev pub u128_limit : ℕ
u128_limit = 2 ^ 128

abbrev pub within_u128 : Option ℕ → Option ℕ
within_u128 none = none
within_u128 (some n) = if ltb n u128_limit then some n else none

-- `str::parse::<u128>`: an optional `+`, at least one digit, and no overflow.
unfoldable pub parse_u128 : String → Option ℕ
unfolding digits_value
parse_u128 String.[] = none
parse_u128 (String.◌∷◌ c String.[]) =
    if nat_eq (code c) b'+' then none else within_u128 (digits_value 0 (String.◌∷◌ c ""))
parse_u128 (String.◌∷◌ c (String.◌∷◌ d s)) = within_u128 (
    digits_value 0 (if nat_eq (code c) b'+' then String.◌∷◌ d s else String.◌∷◌ c (String.◌∷◌ d s)))

-- `written + interval_ns` in a `u128`, which wraps in a release build.
unfoldable pub elapsed_beyond : String → String → ℕ → Option Bool
elapsed_beyond now written interval_ns = elim (parse_u128 now) [
  | none ↦ none
  | some n ↦ elim (parse_u128 written) [
    | none ↦ none
    | some w ↦ if leb w n then some (ltb ((w + interval_ns) % u128_limit) n) else none
  ]
]
