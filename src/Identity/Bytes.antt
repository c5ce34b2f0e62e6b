-- ===== src/Identity/Bytes.antt =====
-- The bytes of texts and lengths: `str::as_bytes` and `u64::to_be_bytes`, written out as the language
-- defines them.
use Prim.Native.Char.{code}
use mathlib.Core.Path.{ap₂}
use text.Mathlib.TextEquality.{Char-path}
use wezterm_attention.Prelude.{
  ℕ, zero, suc, ◌+◌, ◌/◌, ◌%◌, ◌^◌, ◌≡◌, refl, sym, String, List, [], ◌∷◌, ◌++◌, length, arith, ltb,
  if◌then◌else◌, length-append,
}
use wezterm_attention.Protocol.Text.{byte_len}

-- The UTF-8 bytes of a code point.
unfoldable pub utf8 : ℕ → List ℕ
utf8 c =
    if ltb c 0x80
    then c ∷ []
    else if ltb c 0x800
    then (0xc0 + c / 64) ∷ (0x80 + c % 64) ∷ []
    else if ltb c 0x10000
    then (0xe0 + c / 4096) ∷ (0x80 + c / 64 % 64) ∷ (0x80 + c % 64) ∷ []
    else (0xf0 + c / 262144) ∷ (0x80 + c / 4096 % 64) ∷ (0x80 + c / 64 % 64) ∷ (0x80 + c % 64) ∷ []

unfoldable pub as_bytes : String → List ℕ
as_bytes String.[] = []
as_bytes (String.◌∷◌ c s) = utf8 (code c) ++ as_bytes s

-- The last `width` bytes of a number, the greatest first.
unfoldable pub be_bytes : ℕ → ℕ → List ℕ
be_bytes zero n = []
be_bytes (suc w) n = (n / 256 ^ w) ∷ be_bytes w (n % 256 ^ w)

pub length-as_bytes : (s : String) → length (as_bytes s) ≡ byte_len s
unfolding as_bytes byte_len utf8
length-as_bytes String.[] = refl
length-as_bytes (String.◌∷◌ c s) =
    grind (arith, length-as_bytes s, length-append (utf8 (code c)) (as_bytes s))

-- The first code point is read off the bytes in front.
utf8-first : (c d : ℕ) (xs ys : List ℕ) → utf8 c ++ xs ≡ utf8 d ++ ys → (c ≡ d) × (xs ≡ ys)
unfolding utf8
utf8-first c d xs ys h = ground arith

utf8-not_empty : (c : ℕ) (xs : List ℕ) → ¬ ((utf8 c ++ xs) ≡ [])
unfolding utf8
utf8-not_empty c xs h = ground arith

pub as_bytes-injective : (s t : String) → as_bytes s ≡ as_bytes t → s ≡ t
unfolding as_bytes
as_bytes-injective String.[] String.[] h = refl
as_bytes-injective String.[] (String.◌∷◌ d t) h = absurd (utf8-not_empty _ _ (sym h))
as_bytes-injective (String.◌∷◌ c s) String.[] h = absurd (utf8-not_empty _ _ h)
as_bytes-injective (String.◌∷◌ c s) (String.◌∷◌ d t) h =
    let first = utf8-first (code c) (code d) (as_bytes s) (as_bytes t) h in
    ap₂ String.◌∷◌ (Char-path c d first.0) (as_bytes-injective s t first.1)
