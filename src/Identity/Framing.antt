-- ===== src/Identity/Framing.antt =====
-- src/identity.rs: `length_prefixed_digest`, which hashes parts that an id is made of.
use wezterm_attention.Prelude.{
  ℕ, zero, suc, ◌/◌, ◌%◌, ◌^◌, ◌<◌, ◌≡◌, refl, sym, ◌∙◌, String, List, [], ◌∷◌, ◌++◌, length, arith,
}
use native.Mathlib.Nat.{pow-suc}
use mathlib.Core.Path.{ap₂}
use wezterm_attention.Prelude.{All}
use wezterm_attention.Protocol.Text.{byte_len}
use wezterm_attention.Identity.Bytes.{as_bytes, be_bytes, length-as_bytes, as_bytes-injective}

-- The bytes that the digest is updated with.
unfoldable pub preimage : List String → List ℕ
preimage [] = []
preimage (part ∷ parts) = be_bytes 8 (byte_len part % 2 ^ 64) ++ (as_bytes part ++ preimage parts)

-- The SHA-256 digest in hexadecimal digits is the sha2 crate's.
module _ (sha256_hex : List ℕ → String) where
  abbrev pub length_prefixed_digest : List String → String
  length_prefixed_digest parts = sha256_hex (preimage parts)

-- Two splits of one list at the same length are the same split.
same_split {ℓ} :
    {A : Type ℓ} (xs ys zs ws : List A)
    → length xs ≡ length ys
    → xs ++ zs ≡ ys ++ ws
    → (xs ≡ ys) × (zs ≡ ws)
same_split [] [] zs ws l h = (refl, h)
same_split [] (y ∷ ys) zs ws l h = absurd (omega (arith, l))
same_split (x ∷ xs) [] zs ws l h = absurd (omega (arith, l))
same_split (x ∷ xs) (y ∷ ys) zs ws l h =
    let rest = same_split xs ys zs ws (ground arith) (ground arith) in
    (ap₂ ◌∷◌ (ground arith) rest.0, rest.1)

byte_pow_pos : (w : ℕ) → 0 < 256 ^ w
byte_pow_pos zero = omega arith
byte_pow_pos (suc w) = rw pow-suc (omega (arith, byte_pow_pos w))

same_quotient : (p m n : ℕ) → 0 < p → m / p ≡ n / p → m % p ≡ n % p → m ≡ n
same_quotient p m n h q r = grind arith

be_bytes-first :
    (w m n : ℕ) (xs ys : List ℕ)
    → m < 256 ^ w
    → n < 256 ^ w
    → be_bytes w m ++ xs ≡ be_bytes w n ++ ys
    → (m ≡ n) × (xs ≡ ys)
unfolding be_bytes
be_bytes-first zero m n xs ys hm hn h = (omega arith, h)
be_bytes-first (suc w) m n xs ys hm hn h =
    let p = byte_pow_pos w in
    let rest =
      be_bytes-first w (m % 256 ^ w) (n % 256 ^ w) xs ys (grind arith) (grind arith)
        (ground arith) in
    (same_quotient (256 ^ w) m n p (ground arith) rest.0, rest.1)

not_framed : (n : ℕ) (xs : List ℕ) → ¬ ((be_bytes 8 (n % 2 ^ 64) ++ xs) ≡ [])
unfolding be_bytes
not_framed n xs h = ground arith

abbrev pub IsHashable : String → Type 0
IsHashable part = byte_len part < 2 ^ 64

-- Different lists of parts, each shorter than 2 ^ 64 bytes, are hashed from different bytes: no part
-- can borrow bytes of its neighbour.
pub preimage-injective :
    (xs ys : List String)
    → All IsHashable xs
    → All IsHashable ys
    → preimage xs ≡ preimage ys
    → xs ≡ ys
unfolding preimage
preimage-injective [] [] hx hy h = refl
preimage-injective [] (y ∷ ys) hx hy h = absurd (not_framed (byte_len y) _ (sym h))
preimage-injective (x ∷ xs) [] hx hy h = absurd (not_framed (byte_len x) _ h)
preimage-injective (x ∷ xs) (y ∷ ys) hx hy h =
    let split = be_bytes-first 8 _ _ _ _ (omega arith) (omega arith) h in
    let same : byte_len x ≡ byte_len y = omega (arith, split.0, hx.0, hy.0) in
    let parts =
      same_split (as_bytes x) (as_bytes y) _ _ (length-as_bytes x ∙ same ∙ sym (length-as_bytes y))
        split.1 in
    ap₂ ◌∷◌ (as_bytes-injective x y parts.0) (preimage-injective xs ys hx.1 hy.1 parts.1)
