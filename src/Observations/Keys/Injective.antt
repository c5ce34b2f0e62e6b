-- ===== src/Observations/Keys/Injective.antt =====
-- src/observations.rs: the length-prefixed storage key and its parts.
use Prim.Native.Char.{Char, code}
use mathlib.Core.Path.{ap₂}
use wezterm_attention.Prelude.{
  append, ◌^◌, ◌<◌, ◌≡◌, ◌↔◌, refl, sym, ap, true, String, List, [], ◌∷◌, All, arith,
}
use wezterm_attention.Protocol.Text.{byte_len, utf8_width, all_chars, is_ascii_digit}
use wezterm_attention.Protocol.Decimal.{to_decimal, to_decimal-digits, to_decimal_inj}
use wezterm_attention.Observations.{LifecycleObservation}
use wezterm_attention.Observations.Keys.{
  KeyParts, storage_key_parts, parts_list, prefixed, storage_key,
}

abbrev colon : Char
colon = ":"

-- The rests after a first colon, and what stands before it, where that has digits alone.
colon_split :
    (s s' t t' : String)
    → all_chars is_ascii_digit s ≡ true
    → all_chars is_ascii_digit s' ≡ true
    → append s (String.◌∷◌ ":" t) ≡ append s' (String.◌∷◌ ":" t')
    → (s ≡ s') × (t ≡ t')
colon_split String.[] String.[] t t' h h' e = (refl, cc)
colon_split String.[] (String.◌∷◌ c s') t t' h h' e =
    let same : colon ≡ c = cc in absurd (ground (arith, ap code same))
colon_split (String.◌∷◌ c s) String.[] t t' h h' e =
    let same : c ≡ colon = cc in absurd (ground (arith, ap code same))
colon_split (String.◌∷◌ c s) (String.◌∷◌ d s') t t' h h' e =
    let head : c ≡ d = cc in
    let (rest, tail) = colon_split s s' t t' (ground arith) (ground arith) cc in
    (ap₂ String.◌∷◌ head rest, tail)

-- Texts of one length in bytes, taken off the front.
length_split :
    (s s' t t' : String)
    → byte_len s ≡ byte_len s'
    → append s t ≡ append s' t'
    → (s ≡ s') × (t ≡ t')
unfolding byte_len
length_split String.[] String.[] t t' h e = (refl, e)
length_split String.[] (String.◌∷◌ c s') t t' h e = absurd (ground arith)
length_split (String.◌∷◌ c s) String.[] t t' h e = absurd (ground arith)
length_split (String.◌∷◌ c s) (String.◌∷◌ d s') t t' h e =
    let head : c ≡ d = cc in
    let same : utf8_width (code c) ≡ utf8_width (code d) = ap (λ x. utf8_width (code x)) head in
    let (rest, tail) = length_split s s' t t' (omega (arith, same, h)) cc in
    (ap₂ String.◌∷◌ head rest, tail)

-- The lengths that a `usize` holds.
abbrev pub Addressable : String → Type 0
Addressable text = byte_len text < 2 ^ 64

append_nonempty : (s : String) (c : Char) (t : String) → append s (String.◌∷◌ c t) ≡ "" → ⊥
append_nonempty String.[] c t e = cc
append_nonempty (String.◌∷◌ d s) c t e = cc

prefixed_nonempty : (x : String) (xs : List String) → prefixed (x ∷ xs) ≡ "" → ⊥
unfolding prefixed
prefixed_nonempty x xs e = append_nonempty (to_decimal (byte_len x)) colon _ e

pub prefixed_inj :
    (xs ys : List String)
    → All Addressable xs
    → All Addressable ys
    → prefixed xs ≡ prefixed ys
    → xs ≡ ys
unfolding prefixed
prefixed_inj [] [] h k e = refl
prefixed_inj [] (y ∷ ys) h k e = absurd (prefixed_nonempty y ys (sym e))
prefixed_inj (x ∷ xs) [] h k e = absurd (prefixed_nonempty x xs e)
prefixed_inj (x ∷ xs) (y ∷ ys) (p, h) (q, k) e =
    let m = byte_len x in
    let n = byte_len y in
    let (digits, rests) =
      colon_split (to_decimal m) (to_decimal n) (append x (prefixed xs)) (append y (prefixed ys))
        (to_decimal-digits m (omega (arith, p))) (to_decimal-digits n (omega (arith, q))) e in
    let lengths = to_decimal_inj m n (omega (arith, p)) (omega (arith, q)) digits in
    let (head, tail) = length_split x y (prefixed xs) (prefixed ys) lengths rests in
    ap₂ ◌∷◌ head (prefixed_inj xs ys h k tail)

parts_list_inj : (j k : KeyParts) → parts_list j ≡ parts_list k → j ≡ k
parts_list_inj j k e = cc

-- The length-prefixed key of two observations is one text exactly when their parts are the same,
-- where each part's length fits a `usize`.
pub storage_key_iff :
    (a b : LifecycleObservation)
    → All Addressable (parts_list (storage_key_parts a))
    → All Addressable (parts_list (storage_key_parts b))
    → (storage_key a ≡ storage_key b) ↔ (storage_key_parts a ≡ storage_key_parts b)
unfolding storage_key
storage_key_iff a b h k = (
  λ e. parts_list_inj (storage_key_parts a) (storage_key_parts b) (prefixed_inj _ _ h k e),
  λ e. ap (λ parts. prefixed (parts_list parts)) e,
)
