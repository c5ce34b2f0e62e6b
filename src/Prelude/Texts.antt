-- ===== src/Prelude/Texts.antt =====
-- Text: equality, the byte order of `str` (which is the order of code points) and UTF-8 lengths.
use Prim.Native.Char.{code}
use Prim.Native.String.{String}
use mathlib.Core.Path.{◌≡◌, refl, ap₂}
use mathlib.Core.Bool.{Bool, true, false, not, ◌||◌}
use mathlib.Core.List.{List, [], ◌∷◌}
use native.Mathlib.Omega.{arith}
use text.Mathlib.Text.{◌==◌}
use text.Mathlib.TextEquality.{Char-path, eq_iff}
use wezterm_attention.Prelude.Tests.{ltb, nat_eq, if◌then◌else◌}

-- Equality of texts.
abbrev pub str_eq : String → String → Bool
str_eq s t = s == t

-- `Ord for str`: `s < t`, by the first code point that differs.
unfoldable pub str_ltb : String → String → Bool
str_ltb s String.[] = false
str_ltb String.[] (String.◌∷◌ d t) = true
str_ltb (String.◌∷◌ c s) (String.◌∷◌ d t) =
    let rest = str_ltb s t in
    if ltb (code c) (code d) then true else if nat_eq (code c) (code d) then rest else false

abbrev pub str_leb : String → String → Bool
str_leb s t = not (str_ltb t s)

-- `slice::contains` on texts.
abbrev pub contains : List String → String → Bool
contains [] s = false
contains (x ∷ xs) s = str_eq x s || contains xs s

-- `String::push_str`.
abbrev pub append : String → String → String
append String.[] t = t
append (String.◌∷◌ c s) t = String.◌∷◌ c (append s t)

pub str_ltb_irrefl : (s : String) → str_ltb s s ≡ false
unfolding str_ltb
str_ltb_irrefl String.[] = refl
str_ltb_irrefl (String.◌∷◌ c s) = ground (arith, str_ltb_irrefl s)

pub str_ltb_trans : (s t u : String) → str_ltb s t ≡ true → str_ltb t u ≡ true → str_ltb s u ≡ true
unfolding str_ltb
str_ltb_trans s t String.[] h k = ground arith
str_ltb_trans s String.[] (String.◌∷◌ e u) h k = ground arith
str_ltb_trans String.[] (String.◌∷◌ d t) (String.◌∷◌ e u) h k = refl
str_ltb_trans (String.◌∷◌ c s) (String.◌∷◌ d t) (String.◌∷◌ e u) h k =
    ground (arith, str_ltb_trans s t u)

-- Texts that neither precedes the other are equal.
pub str_ltb_tri : (s t : String) → str_ltb s t ≡ false → str_ltb t s ≡ false → s ≡ t
unfolding str_ltb
str_ltb_tri String.[] String.[] h k = refl
str_ltb_tri String.[] (String.◌∷◌ d t) h k = ground arith
str_ltb_tri (String.◌∷◌ c s) String.[] h k = ground arith
str_ltb_tri (String.◌∷◌ c s) (String.◌∷◌ d t) h k =
    let same : code c ≡ code d = ground arith in
    ap₂ String.◌∷◌ (Char-path c d same) (str_ltb_tri s t (ground arith) (ground arith))

-- The order is strict.
pub str_ltb_asym : (s t : String) → str_ltb s t ≡ true → str_ltb t s ≡ false
str_ltb_asym s t h = ground (arith, str_ltb_trans s t s h, str_ltb_irrefl s)

-- A text that neither precedes another nor equals it comes after it.
pub str_ltb_of_not : (s t : String) → str_ltb s t ≡ false → str_eq s t ≡ false → str_ltb t s ≡ true
str_ltb_of_not s t h k = ground (arith, str_ltb_tri s t h, eq_iff s t)
