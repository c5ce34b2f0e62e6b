-- ===== src/Protocol/Text.antt =====
-- src/protocol.rs: the text checks. A text's length is in UTF-8 bytes, and a byte below 128 is a
-- code point of its own, so a test for ASCII bytes is a test of every code point.
use Prim.Native.Char.{Char, code}
use wezterm_attention.Prelude.{
  ℕ, ◌+◌, ◌≡◌, refl, ◌↔◌, Bool, true, false, not, ◌&&◌, ◌||◌, String, ltb, leb, nat_eq,
  if◌then◌else◌, str_eq, ap, subst, inl, inr, Bool-cases, absurd_bool,
}

-- The bytes of a code point in UTF-8.
abbrev pub utf8_width : ℕ → ℕ
utf8_width c = if ltb c 0x80 then 1 else if ltb c 0x800 then 2 else if ltb c 0x10000 then 3 else 4

-- `str::len`.
unfoldable pub byte_len : String → ℕ
byte_len String.[] = 0
byte_len (String.◌∷◌ c s) = utf8_width (code c) + byte_len s

-- `chars().all(p)` and `chars().any(p)`, by code point.
abbrev pub all_chars : (ℕ → Bool) → String → Bool
all_chars p String.[] = true
all_chars p (String.◌∷◌ c s) = p (code c) && all_chars p s

abbrev pub any_chars : (ℕ → Bool) → String → Bool
any_chars p String.[] = false
any_chars p (String.◌∷◌ c s) = p (code c) || any_chars p s

-- `char::is_control`: the Unicode category Cc.
abbrev pub is_control : ℕ → Bool
is_control c = ltb c 0x20 || (leb 0x7f c && leb c 0x9f)

abbrev pub is_ascii_digit : ℕ → Bool
is_ascii_digit c = leb b'0' c && leb c b'9'

unfoldable pub free_of_control : String → Bool
free_of_control text = not (any_chars is_control text)

abbrev question_mark : Char
question_mark = "?"

abbrev safe_char : Char → Char
safe_char c = if is_control (code c) then question_mark else c

unfoldable pub terminal_safe : String → String
terminal_safe String.[] = ""
terminal_safe (String.◌∷◌ c s) = String.◌∷◌ (safe_char c) (terminal_safe s)

unfoldable pub hex64_text : String → Bool
hex64_text text =
    nat_eq (byte_len text) 64
    && all_chars (λ c. is_ascii_digit c || (leb b'a' c && leb c b'f')) text

unfoldable pub ns20_text : String → Bool
ns20_text text = nat_eq (byte_len text) 20 && all_chars is_ascii_digit text

-- `str::starts_with` for the character `0`.
abbrev pub starts_with_zero : String → Bool
starts_with_zero String.[] = false
starts_with_zero (String.◌∷◌ c s) = nat_eq (code c) b'0'

abbrev pub is_empty : String → Bool
is_empty String.[] = true
is_empty (String.◌∷◌ c s) = false

unfoldable pub canonical_decimal_text : String → ℕ → Bool
canonical_decimal_text text maximum =
    not (is_empty text)
    && leb (byte_len text) maximum
    && all_chars is_ascii_digit text
    && (str_eq text "0" || not (starts_with_zero text))

safe_char_clean : (c : Char) → is_control (code (safe_char c)) ≡ false
safe_char_clean c = elim (Bool-cases (is_control (code c))) [
  | inl control ↦ rw control
  | inr clean ↦ rw clean clean
]

terminal_safe-free_of_control : (text : String) → free_of_control (terminal_safe text) ≡ true
unfolding terminal_safe free_of_control
terminal_safe-free_of_control String.[] = refl
terminal_safe-free_of_control (String.◌∷◌ c s) =
    rw (safe_char_clean c) (terminal_safe-free_of_control s)

terminal_safe_of_clean : (text : String) → free_of_control text ≡ true → terminal_safe text ≡ text
unfolding terminal_safe free_of_control
terminal_safe_of_clean String.[] h = refl
terminal_safe_of_clean (String.◌∷◌ c s) h = elim (Bool-cases (is_control (code c))) [
  | inl control ↦ absurd_bool (rw control at h)
  | inr clean ↦ rw clean (ap (String.◌∷◌ c) (terminal_safe_of_clean s (rw clean at h)))
]

-- What is printed on a terminal holds no control character, and a text that passes
-- `free_of_control`, and no other, is printed as it stands.
pub terminal_safe_lem :
    (text : String)
    → (free_of_control (terminal_safe text) ≡ true)
      × ((free_of_control text ≡ true) ↔ (terminal_safe text ≡ text))
terminal_safe_lem text = (
  terminal_safe-free_of_control text,
  (
    terminal_safe_of_clean text,
    λ e. subst (λ t. free_of_control t ≡ true) e (terminal_safe-free_of_control text),
  ),
)
