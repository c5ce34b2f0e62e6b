-- ===== src/Identity/Marker.antt =====
-- src/identity.rs: `canonical_pane_id` and `marker_address`, with `published_marker_id` of
-- src/query.rs. `strip_prefix` and `splitn` are written out as the language defines them.
use Prim.Native.Char.{Char, code}
use mathlib.Core.Path.{ap₂}
use text.Mathlib.TextEquality.{Char-path}
use wezterm_attention.Prelude.{
  ℕ, zero, suc, ◌≡◌, refl, sym, ap, ◌∙◌, ◌↔◌, Bool, true, not, ◌&&◌, ◌||◌, String, List, [], ◌∷◌,
  Option, none, some, arith, leb, nat_eq, if◌then◌else◌, append, is_some, Bool-cases, inl, inr,
  Option-cases,
}
use wezterm_attention.Protocol.{DiagnosticCode, Result, ok, err, ◌>>=◌, new_error, Manifest}
use wezterm_attention.Protocol.Text.{hex64_text, canonical_decimal_text, all_chars, is_ascii_digit}
use wezterm_attention.Identity.{PaneAddress}

unfoldable pub strip_prefix : String → String → Option String
strip_prefix String.[] t = some t
strip_prefix (String.◌∷◌ c s) String.[] = none
strip_prefix (String.◌∷◌ c s) (String.◌∷◌ d t) =
    let rest = strip_prefix s t in if nat_eq (code c) (code d) then rest else none

abbrev push_char : Char → String × Option String → String × Option String
push_char c (piece, rest) = (String.◌∷◌ c piece, rest)

-- What stands before the first separator, and what stands after it.
unfoldable pub cut : ℕ → String → String × Option String
cut sep String.[] = ("", none)
cut sep (String.◌∷◌ c s) =
    let more = cut sep s in if nat_eq (code c) sep then ("", some s) else push_char c more

unfoldable pub splitn : ℕ → ℕ → String → List String
splitn zero sep s = []
splitn (suc zero) sep s = s ∷ []
splitn (suc (suc n)) sep s =
    let (piece, rest) = cut sep s in
    elim rest [ none ↦ piece ∷ [] | some t ↦ piece ∷ splitn (suc n) sep t ]

abbrev address_of : String → String → Result String → Option PaneAddress
address_of realm incarnation (ok pane) =
    some record { realm_id = realm; incarnation_id = incarnation; pane_id = pane }
address_of realm incarnation (err e) = none

-- The manifest is a parameter.
module _ (manifest : Result Manifest) where
  unfoldable pub canonical_pane_id : String → Result String
  canonical_pane_id value = manifest >>= (λ m.
      if canonical_decimal_text value m.limits.pane_id_max_digits
      then ok value
      else err (new_error DiagnosticCode.record_invalid "WEZTERM_PANE is not canonical"))

  unfoldable pub marker_parts : List String → Option PaneAddress
  marker_parts (realm ∷ incarnation ∷ pane ∷ _) =
      if not (hex64_text realm) || not (hex64_text incarnation)
      then none
      else address_of realm incarnation (canonical_pane_id pane)
  marker_parts _ = none

  unfoldable pub marker_address : String → Option PaneAddress
  marker_address text = elim (strip_prefix "v2:" text) [
    | none ↦ none
    | some rest ↦ marker_parts (splitn 3 b':' rest)
  ]

  unfoldable pub published_marker_id : String → ℕ → Bool
  published_marker_id text pane_id_max_digits =
      canonical_decimal_text text pane_id_max_digits || is_some (marker_address text)

-- The marker of an address, as the comment on `marker_address` spells it.
abbrev pub marker : PaneAddress → String
marker a =
    append "v2:" (append a.realm_id (append ":" (append a.incarnation_id (append ":" a.pane_id))))

not-none : (a : PaneAddress) → ¬ (◌≡◌ {A = Option PaneAddress} none (some a))
not-none a h = cc

strip_prefix-append : (s t : String) → strip_prefix s (append s t) ≡ some t
unfolding strip_prefix
strip_prefix-append String.[] t = refl
strip_prefix-append (String.◌∷◌ c s) t = ground (arith, strip_prefix-append s t)

append_of-strip_prefix : (s t u : String) → strip_prefix s t ≡ some u → t ≡ append s u
unfolding strip_prefix
append_of-strip_prefix String.[] t u h = cc
append_of-strip_prefix (String.◌∷◌ c s) String.[] u h = absurd cc
append_of-strip_prefix (String.◌∷◌ c s) (String.◌∷◌ d t) u h =
    ground (arith, append_of-strip_prefix s t u, Char-path c d)

-- A text that no separator stands in is cut where the next one stands.
cut-append :
    (sep : ℕ) (s t : String)
    → all_chars (λ c. not (nat_eq c sep)) s ≡ true
    → (c : Char) → code c ≡ sep
    → cut sep (append s (String.◌∷◌ c t)) ≡ (s, some t)
unfolding cut
cut-append sep String.[] t h c e = ground arith
cut-append sep (String.◌∷◌ d s) t h c e = ground (arith, cut-append sep s t (ground arith) c e)

append_of-cut :
    (c : Char) (s u : String)
    → (cut (code c) s).1 ≡ some u
    → s ≡ append (cut (code c) s).0 (String.◌∷◌ c u)
unfolding cut
append_of-cut c String.[] u h = absurd cc
append_of-cut c (String.◌∷◌ d s) u h = elim (Bool-cases (nat_eq (code d) (code c))) [
  | inl same ↦
      let rest : s ≡ u = ground (arith, rw same at h) in
      rw same (ap₂ String.◌∷◌ (Char-path d c (ground arith)) rest)
  | inr other ↦ rw other (ap (String.◌∷◌ d) (append_of-cut c s u (rw other at h)))
]

canonical_pane_id_self :
    (manifest : Result Manifest) (value pane : String)
    → canonical_pane_id manifest value ≡ ok pane
    → pane ≡ value
unfolding canonical_pane_id ◌>>=◌
canonical_pane_id_self (ok m) value pane h = ground arith
canonical_pane_id_self (err e) value pane h = absurd cc

abbrev colon : Char
colon = ":"

module _ (n sep : ℕ) (s : String) where
  splitn_whole : (cut sep s).1 ≡ none → splitn (suc (suc n)) sep s ≡ (cut sep s).0 ∷ []
  unfolding splitn
  splitn_whole e = rw (e, splitn) refl

  splitn-cut :
      (t : String)
      → (cut sep s).1 ≡ some t
      → splitn (suc (suc n)) sep s ≡ (cut sep s).0 ∷ splitn (suc n) sep t
  unfolding splitn
  splitn-cut t e = rw (e, splitn) refl

-- A text that is read has two separators at least, and is its three parts.
splitn-three {κ} :
    {C : Type κ} (manifest : Result Manifest) (a : PaneAddress) (s : String)
    → marker_parts manifest (splitn 3 b':' s) ≡ some a
    → ((x y z : String)
        → s ≡ append x (append ":" (append y (append ":" z)))
        → marker_parts manifest (x ∷ y ∷ z ∷ []) ≡ some a
        → C)
    → C
unfolding marker_parts splitn
splitn-three manifest a s h k = elim (Option-cases (cut b':' s).1) [
  | inl e ↦ let bad : none ≡ some a = (rw (splitn_whole 1 b':' s e) at h) in absurd (not-none a bad)
  | inr (t, e) ↦
      let h' = (rw (splitn-cut 1 b':' s t e) at h) in
      elim (Option-cases (cut b':' t).1) [
        | inl e' ↦
            let bad : none ≡ some a = (rw (splitn_whole 0 b':' t e') at h') in
            absurd (not-none a bad)
        | inr (u, e') ↦
            k (cut b':' s).0 (cut b':' t).0 u
              (append_of-cut colon s t e
                ∙ ap (λ r. append (cut b':' s).0 (append ":" r)) (append_of-cut colon t u e'))
              (rw (splitn-cut 0 b':' t u e') at h')
      ]
]

address_of-pane :
    (x y : String) (pane : Result String) (a : PaneAddress)
    → address_of x y pane ≡ some a
    → pane ≡ ok a.pane_id × (x ≡ a.realm_id) × (y ≡ a.incarnation_id)
address_of-pane x y (ok pane) a h = ground arith
address_of-pane x y (err e) a h = absurd cc

parts-marker :
    (manifest : Result Manifest) (x y z : String) (a : PaneAddress)
    → marker_parts manifest (x ∷ y ∷ z ∷ []) ≡ some a
    → (hex64_text x ≡ true)
      × (hex64_text y ≡ true)
      × (address_of x y (canonical_pane_id manifest z) ≡ some a)
unfolding marker_parts
parts-marker manifest x y z a h = ground arith

module _ (manifest : Result Manifest) (text : String) where
  marker_address-none : strip_prefix "v2:" text ≡ none → marker_address manifest text ≡ none
  unfolding marker_address
  marker_address-none e = rw (e, marker_address) refl

  marker_address-some :
      (rest : String)
      → strip_prefix "v2:" text ≡ some rest
      → marker_address manifest text ≡ marker_parts manifest (splitn 3 b':' rest)
  unfolding marker_address
  marker_address-some rest e = rw (e, marker_address) refl

abbrev colon_free : String → Bool
colon_free s = all_chars (λ c. not (nat_eq c b':')) s

hex_digits-colon :
    (s : String)
    → all_chars (λ c. is_ascii_digit c || (leb b'a' c && leb c b'f')) s ≡ true
    → colon_free s ≡ true
hex_digits-colon String.[] h = refl
hex_digits-colon (String.◌∷◌ c s) h = ground (arith, hex_digits-colon s)

hex64_text-colon : (s : String) → hex64_text s ≡ true → colon_free s ≡ true
unfolding hex64_text
hex64_text-colon s h = hex_digits-colon s (ground arith)

splitn-append :
    (n : ℕ) (x t : String)
    → colon_free x ≡ true
    → splitn (suc (suc n)) b':' (append x (append ":" t)) ≡ x ∷ splitn (suc n) b':' t
splitn-append n x t h =
    let e = cut-append b':' x t h colon refl in
    splitn-cut n b':' (append x (append ":" t)) t (ap (λ p. p.1) e)
    ∙ ap (λ p. p.0 ∷ splitn (suc n) b':' t) e

splitn-marker :
    (x y z : String)
    → colon_free x ≡ true
    → colon_free y ≡ true
    → splitn 3 b':' (append x (append ":" (append y (append ":" z)))) ≡ x ∷ y ∷ z ∷ []
unfolding splitn
splitn-marker x y z hx hy =
    splitn-append 1 x (append y (append ":" z)) hx ∙ ap (◌∷◌ x) (splitn-append 0 y z hy)

parts_of_pane :
    (manifest : Result Manifest) (a : PaneAddress)
    → hex64_text a.realm_id ≡ true
    → hex64_text a.incarnation_id ≡ true
    → canonical_pane_id manifest a.pane_id ≡ ok a.pane_id
    → marker_parts manifest (a.realm_id ∷ a.incarnation_id ∷ a.pane_id ∷ []) ≡ some a
unfolding marker_parts
parts_of_pane manifest a realm incarnation pane = rw (realm, incarnation, pane) refl

-- A text is read as the marker of a pane exactly when it is that pane's marker, spelled with two
-- digests and a canonical pane id.
pub marker_address_lem :
    (manifest : Result Manifest) (text : String) (a : PaneAddress)
    → (marker_address manifest text ≡ some a) ↔ (
        (text ≡ marker a)
        × (hex64_text a.realm_id ≡ true)
        × (hex64_text a.incarnation_id ≡ true)
        × (canonical_pane_id manifest a.pane_id ≡ ok a.pane_id))
marker_address_lem manifest text a = (
  λ h. elim (Option-cases (strip_prefix "v2:" text)) [
    | inl e ↦ absurd (not-none a (sym (marker_address-none manifest text e) ∙ h))
    | inr (rest, e) ↦
        splitn-three manifest a rest (sym (marker_address-some manifest text rest e) ∙ h)
          (λ x y z spelled parts.
            let (realm, incarnation, read) = parts-marker manifest x y z a parts in
            let (pane, rx, iy) = address_of-pane x y (canonical_pane_id manifest z) a read in
            let whole = append_of-strip_prefix "v2:" text rest e in
            let same = canonical_pane_id_self manifest z a.pane_id pane in
            (rw (spelled, rx, iy, sym same) at whole, rw rx at realm, rw iy at incarnation, cc))
  ],
  λ (spelled, realm, incarnation, pane).
      let no_colon_1 = hex64_text-colon a.realm_id realm in
      let no_colon_2 = hex64_text-colon a.incarnation_id incarnation in
      rw spelled (
        marker_address-some manifest (marker a) _ (strip_prefix-append "v2:" _)
        ∙ ap (marker_parts manifest)
            (splitn-marker a.realm_id a.incarnation_id a.pane_id no_colon_1 no_colon_2)
        ∙ parts_of_pane manifest a realm incarnation pane),
)
