-- ===== src/Protocol/Tests.antt =====
-- Stamps and spellings on concrete texts, and the theorems at concrete inputs.
use wezterm_attention.Prelude.{
  ◌≡◌, refl, true, false, ltb, ◌+◌, ◌<◌, ◌^◌, ℕ, some, String, str_ltb, arith,
}
use wezterm_attention.Protocol.Text.{ns20_text, byte_len, canonical_decimal_text}
use wezterm_attention.Protocol.Stamp.{
  fixed_digits, digit_count, format_ns20, parse_u128, elapsed_beyond,
}
use wezterm_attention.Protocol.Stamp.Order.{str_ltb-parse_u128}
use wezterm_attention.Protocol.Stamp.Reading.{format_ns20-parse_u128, elapsed_beyond_lem}

format_short : format_ns20 1250 ≡ "00000000000000001250"
unfolding format_ns20 fixed_digits digit_count
format_short = refl

format_long : format_ns20 (10 ^ 21 + 7) ≡ "1000000000000000000007"
unfolding format_ns20 fixed_digits digit_count
format_long = refl

decimals : canonical_decimal_text "07" 20 ≡ false
unfolding canonical_decimal_text byte_len
decimals = refl

abbrev earlier : String
earlier = "00000000000000000900"

abbrev later : String
later = "00000000000000001250"

str_ltb-parse_u128_example : str_ltb earlier later ≡ ltb 900 1250
unfolding ns20_text byte_len parse_u128
str_ltb-parse_u128_example = str_ltb-parse_u128 earlier later 900 1250 refl refl refl refl

format_ns20-parse_u128_example :
    (n : ℕ) × (parse_u128 later ≡ some n) × (n < 10 ^ 20) × (format_ns20 n ≡ later)
unfolding ns20_text byte_len
format_ns20-parse_u128_example = format_ns20-parse_u128 later refl

elapsed_beyond_lem_example : elapsed_beyond later earlier 300 ≡ some true
unfolding ns20_text byte_len parse_u128
elapsed_beyond_lem_example =
    elapsed_beyond_lem later earlier 1250 900 300 refl refl refl refl (omega arith)
