-- ===== src/Identity/Socket.antt =====
-- src/identity.rs: `socket_identity`, `pane_address` and `tty_fingerprint`, over what the system
-- answers of a path in one look.
use Prim.Native.Char.{code}
use wezterm_attention.Prelude.{
  ap, Option-cases, ℕ, suc, ◌+◌, ◌-◌, ◌*◌, ◌≡◌, refl, subst, ◌↔◌, ◌⊎◌, inl, inr, Bool, true, false,
  not, ◌||◌, String, List, [], ◌∷◌, Option, none, some, arith, ltb, nat_eq, if◌then◌else◌, append,
}
use wezterm_attention.Protocol.{
  DiagnosticCode, AttentionError, Result, ok, err, ◌>>=◌, new_error, Manifest, bind_err_elim,
}
use wezterm_attention.Protocol.Stamp.{format_ns20}
use wezterm_attention.Protocol.Decimal.{to_decimal}
use wezterm_attention.Wezterm.{ℤ, pos, negsuc}
use wezterm_attention.Identity.{PaneAddress}
use wezterm_attention.Identity.Bytes.{as_bytes}
use wezterm_attention.Identity.Framing.{length_prefixed_digest}
use wezterm_attention.Identity.Marker.{canonical_pane_id}

pub record SocketMetadata : Type 0 where
  pub socket_path : String
  pub socket_device : String
  pub socket_inode : String
  pub socket_ctime_ns : String

-- `fs::Metadata`, as far as it is read.
pub data FileType : Type 0 where
  socket char_device regular other : FileType

pub record FileMetadata : Type 0 where
  pub file_type : FileType
  pub uid : ℕ
  pub dev : ℕ
  pub ino : ℕ
  pub rdev : ℕ
  pub ctime : ℤ
  pub ctime_nsec : ℤ

-- A path that the system returns is bytes, which may be no text.
pub data PathBytes : Type 0 where
  utf8_path : String → PathBytes
  other_path : PathBytes

-- The answers of `fs::canonicalize`, `fs::metadata` and `geteuid` in one look, none where a call fails.
pub record FileLook : Type 0 where
  pub canonicalize : String → Option PathBytes
  pub metadata : PathBytes → Option FileMetadata
  pub effective_uid : ℕ

abbrev pub is_socket : FileType → Bool
is_socket FileType.socket = true
is_socket _ = false

abbrev pub is_char_device : FileType → Bool
is_char_device FileType.char_device = true
is_char_device _ = false

-- `Path::is_absolute` on Unix.
abbrev pub is_absolute : String → Bool
is_absolute String.[] = false
is_absolute (String.◌∷◌ c s) = nat_eq (code c) b'/'

abbrev int_sub : ℕ → ℕ → ℤ
int_sub m n = if ltb m n then negsuc (n - suc m) else pos (m - n)

abbrev int_add : ℤ → ℤ → ℤ
int_add (pos m) (pos n) = pos (m + n)
int_add (pos m) (negsuc n) = int_sub m (suc n)
int_add (negsuc m) (pos n) = int_sub n (suc m)
int_add (negsuc m) (negsuc n) = negsuc (suc (m + n))

abbrev int_scale : ℕ → ℤ → ℤ
int_scale k (pos m) = pos (k * m)
int_scale k (negsuc m) = int_sub 0 (k * suc m)

-- `ok_or_else` and `map_err` on a call that may fail.
abbrev pub ok_or {ℓ} : {A : Type ℓ} → Option A → AttentionError → Result A
ok_or none e = err e
ok_or (some a) e = ok a

abbrev pub guard : Bool → AttentionError → Result {0} Unit
guard true e = err e
guard false e = ok tt

abbrev utf8_text : PathBytes → Option String
utf8_text (PathBytes.utf8_path s) = some s
utf8_text PathBytes.other_path = none

abbrev not_negative : ℤ → Option ℕ
not_negative (pos n) = some n
not_negative (negsuc n) = none

abbrev probe_error : AttentionError
probe_error = new_error DiagnosticCode.probe_unavailable "mux socket identity could not be read"

-- `ctime` in nanoseconds, an `i128` that a pair of 64-bit numbers does not overflow.
abbrev ctime_ns : FileMetadata → ℤ
ctime_ns m = int_add (int_scale 1000000000 m.ctime) m.ctime_nsec

module _ (sha256_hex : List ℕ → String) (look : FileLook) where
  -- The ids and what is recorded of a socket, from its resolved path and metadata.
  unfoldable pub identity_of : String → FileMetadata → ℕ → String × String × SocketMetadata
  identity_of canonical m ns =
      let realm_id = sha256_hex (as_bytes canonical) in
      let device = to_decimal m.dev in
      let inode = to_decimal m.ino in
      (
        realm_id,
        length_prefixed_digest sha256_hex (realm_id ∷ device ∷ inode ∷ to_decimal ns ∷ []),
        record {
          socket_path = canonical;
          socket_device = device;
          socket_inode = inode;
          socket_ctime_ns = format_ns20 ns;
        },
      )

  unfoldable pub socket_identity : String → Result (String × String × SocketMetadata)
  socket_identity socket_value = do
    _ ←
        guard (not (is_absolute socket_value))
          (new_error DiagnosticCode.record_invalid "WEZTERM_UNIX_SOCKET must be absolute")
    canonical ← ok_or (look.canonicalize socket_value) probe_error
    metadata ← ok_or (look.metadata canonical) probe_error
    _ ←
        guard (not (is_socket metadata.file_type) || not (nat_eq metadata.uid look.effective_uid))
          (new_error DiagnosticCode.realm_unavailable "mux socket is unavailable or unsafe")
    path ←
        ok_or (utf8_text canonical)
          (new_error DiagnosticCode.realm_unavailable "mux socket path is not UTF-8")
    ns ←
        ok_or (not_negative (ctime_ns metadata))
          (new_error DiagnosticCode.clock_skew "mux socket creation time is negative")
    ok (identity_of path metadata ns)

  unfoldable pub tty_fingerprint_from_metadata : FileMetadata → Result String
  tty_fingerprint_from_metadata m = do
    _ ←
        guard (not (is_char_device m.file_type) || not (nat_eq m.uid look.effective_uid))
          (new_error DiagnosticCode.unsafe_tty "tty is not a same-UID character device")
    ok (
        length_prefixed_digest sha256_hex
          (to_decimal m.dev ∷ to_decimal m.ino ∷ to_decimal m.rdev ∷ []))

  unfoldable pub tty_fingerprint : String → Result String
  tty_fingerprint path = do
    _ ←
        guard (not (is_absolute path))
          (new_error DiagnosticCode.unsafe_tty "tty path must be absolute")
    metadata ←
        ok_or (look.metadata (PathBytes.utf8_path path))
          (new_error DiagnosticCode.unsafe_tty "tty is unavailable")
    tty_fingerprint_from_metadata metadata

-- The environment is the function that looks a variable up.
module _ (env : String → Option String) where
  unfoldable pub pane_variable : String → Result String
  pane_variable variable =
      ok_or (env variable) (new_error DiagnosticCode.outside_pane (append variable " is missing"))

  unfoldable pub pane_socket : Result String
  pane_socket = pane_variable "WEZTERM_UNIX_SOCKET"

  module _ (sha256_hex : List ℕ → String) (look : FileLook) (manifest : Result Manifest) where
    unfoldable pub pane_address : Result (PaneAddress × SocketMetadata)
    pane_address = do
      socket_value ← pane_socket
      pane ← pane_variable "WEZTERM_PANE"
      (realm_id, incarnation_id, metadata) ← socket_identity sha256_hex look socket_value
      pane_id ← canonical_pane_id manifest pane
      ok (
        record { realm_id = realm_id; incarnation_id = incarnation_id; pane_id = pane_id },
        metadata,
      )

-- What is not the `OutsidePane` code.
abbrev NotOutside : AttentionError → Type 0
NotOutside e = ¬ (e.diagnostic.code ≡ DiagnosticCode.outside_pane)

-- What holds of the error that a call would be refused with holds of the one it is refused with.
guard_err :
    (P : AttentionError → Type 0) (b : Bool) (e e' : AttentionError)
    → P e
    → guard b e ≡ err e'
    → P e'
guard_err P true e e' n h = let same : e ≡ e' = ground arith in subst P same n
guard_err P false e e' n h = absurd cc

ok_or_err {ℓ} :
    {A : Type ℓ} (P : AttentionError → Type 0) (o : Option A) (e e' : AttentionError)
    → P e
    → ok_or o e ≡ err e'
    → P e'
ok_or_err P none e e' n h = let same : e ≡ e' = ground arith in subst P same n
ok_or_err P (some a) e e' n h = absurd cc

socket_identity_inside :
    (sha256_hex : List ℕ → String) (look : FileLook) (value : String) (e : AttentionError)
    → socket_identity sha256_hex look value ≡ err e
    → NotOutside e
unfolding socket_identity
socket_identity_inside sha256_hex look value e h =
    bind_err_elim _ _ e h (guard_err NotOutside _ _ e (λ c. cc)) (λ _ _ h.
      bind_err_elim _ _ e h (ok_or_err NotOutside _ _ e (λ c. cc)) (λ _ _ h.
        bind_err_elim _ _ e h (ok_or_err NotOutside _ _ e (λ c. cc)) (λ _ _ h.
          bind_err_elim _ _ e h (guard_err NotOutside _ _ e (λ c. cc)) (λ _ _ h.
            bind_err_elim _ _ e h (ok_or_err NotOutside _ _ e (λ c. cc)) (λ _ _ h.
              bind_err_elim _ _ e h (ok_or_err NotOutside _ _ e (λ c. cc)) (λ _ _ h. absurd cc))))))

-- What is not the `RealmUnavailable` code.
abbrev Available : AttentionError → Type 0
Available e = ¬ (e.diagnostic.code ≡ DiagnosticCode.realm_unavailable)

ok_or_ok {ℓ} :
    {A : Type ℓ} (o : Option A) (e : AttentionError) (a : A) → ok_or o e ≡ ok a → o ≡ some a
ok_or_ok none e a h = absurd cc
ok_or_ok (some b) e a h = ap some (let same : b ≡ a = cc in same)

unsafe_file :
    (a b : Bool) (e e' : AttentionError)
    → guard (not a || not b) e ≡ err e'
    → (a ≡ false) ⊎ (b ≡ false)
unsafe_file false b e e' h = inl refl
unsafe_file true false e e' h = inr refl
unsafe_file true true e e' h = absurd cc

not_utf8 :
    (path : PathBytes) (e e' : AttentionError)
    → ok_or (utf8_text path) e ≡ err e'
    → path ≡ PathBytes.other_path
not_utf8 (PathBytes.utf8_path s) e e' h = absurd cc
not_utf8 PathBytes.other_path e e' h = refl

-- The file that a path leads to is no socket of this user, or has no path in UTF-8.
abbrev pub Foreign : FileLook → String → Type 0
Foreign look value =
    (path : PathBytes) × (m : FileMetadata) × (look.canonicalize value ≡ some path)
    × (look.metadata path ≡ some m)
    × (((is_socket m.file_type ≡ false) ⊎ (nat_eq m.uid look.effective_uid ≡ false))
        ⊎ (path ≡ PathBytes.other_path))

-- A realm is unavailable only where the file at its socket's path is foreign.
pub socket_identity-Foreign :
    (sha256_hex : List ℕ → String) (look : FileLook) (value : String) (e : AttentionError)
    → socket_identity sha256_hex look value ≡ err e
    → e.diagnostic.code ≡ DiagnosticCode.realm_unavailable
    → Foreign look value
unfolding socket_identity
socket_identity-Foreign sha256_hex look value e h c =
    bind_err_elim _ _ e h (λ h1. absurd (guard_err Available _ _ e (λ c. cc) h1 c))
      (λ _ _ h.
        bind_err_elim _ _ e h (λ h1. absurd (ok_or_err Available _ _ e (λ c. cc) h1 c))
          (λ path hp h.
            bind_err_elim _ _ e h (λ h1. absurd (ok_or_err Available _ _ e (λ c. cc) h1 c))
              (λ m hm h.
                let at = ok_or_ok _ _ path hp in
                let read = ok_or_ok _ _ m hm in
                bind_err_elim _ _ e h (λ h1. (path, m, at, read, inl (unsafe_file _ _ _ e h1)))
                  (λ _ _ h.
                    bind_err_elim _ _ e h (λ h1. (path, m, at, read, inr (not_utf8 path _ e h1)))
                      (λ _ _ h.
                        bind_err_elim _ _ e h
                          (λ h1. absurd (ok_or_err Available _ _ e (λ c. cc) h1 c))
                          (λ _ _ h. absurd cc))))))

canonical_pane_id_inside :
    (m : Manifest) (value : String) (e : AttentionError)
    → canonical_pane_id (ok m) value ≡ err e
    → NotOutside e
unfolding canonical_pane_id ◌>>=◌
canonical_pane_id_inside m value e h c = ground arith

missing_variable :
    (o : Option String) (e e' : AttentionError)
    → e.diagnostic.code ≡ DiagnosticCode.outside_pane
    → ok_or o e ≡ err e'
    → (e'.diagnostic.code ≡ DiagnosticCode.outside_pane) × (o ≡ none)
missing_variable none e e' c h = (let same : e ≡ e' = ground arith in rw same at c, refl)
missing_variable (some v) e e' c h = absurd cc

-- The variables that name a pane are not both there.
abbrev pub Unnamed : (String → Option String) → Type 0
Unnamed env = (env "WEZTERM_UNIX_SOCKET" ≡ none) ⊎ (env "WEZTERM_PANE" ≡ none)

-- A result that is refused as outside any pane.
abbrev pub RefusedOutside {ℓ} : {A : Type ℓ} → Result A → Type 0
RefusedOutside (ok a) = ⊥
RefusedOutside (err e) = e.diagnostic.code ≡ DiagnosticCode.outside_pane

Unnamed-RefusedOutside :
    (env : String → Option String) (sha256_hex : List ℕ → String) (look : FileLook) (m : Manifest)
    → Unnamed env
    → RefusedOutside (pane_address env sha256_hex look (ok m))
unfolding pane_address pane_socket pane_variable ◌>>=◌
Unnamed-RefusedOutside env sha256_hex look m (inl gone) = rw gone refl
Unnamed-RefusedOutside env sha256_hex look m (inr gone) =
    elim (Option-cases (env "WEZTERM_UNIX_SOCKET")) [
      | inl missing ↦ rw missing refl
      | inr (v, there) ↦ rw (there, gone) refl
    ]

RefusedOutside-Unnamed :
    (env : String → Option String) (sha256_hex : List ℕ → String) (look : FileLook) (m : Manifest)
    (r : Result (PaneAddress × SocketMetadata))
    → pane_address env sha256_hex look (ok m) ≡ r
    → RefusedOutside r
    → Unnamed env
unfolding pane_address pane_socket pane_variable
RefusedOutside-Unnamed env sha256_hex look m (ok a) h c = absurd c
RefusedOutside-Unnamed env sha256_hex look m (err e) h c =
    bind_err_elim _ _ e h (λ h1. inl (missing_variable _ _ e refl h1).1)
      (λ v _ h.
        bind_err_elim _ _ e h (λ h1. inr (missing_variable _ _ e refl h1).1)
          (λ p _ h.
            bind_err_elim _ _ e h (λ h1. absurd (socket_identity_inside sha256_hex look v e h1 c))
              (λ i _ h.
                bind_err_elim _ _ e h (λ h1. absurd (canonical_pane_id_inside m p e h1 c))
                  (λ _ _ h. absurd cc))))

-- Where the manifest parses, asking for the pane's address is refused as outside any pane exactly when
-- one of the two variables that name the pane is missing, whatever the system says of the socket.
pub pane_address-outside_pane :
    (env : String → Option String) (sha256_hex : List ℕ → String) (look : FileLook) (m : Manifest)
    → RefusedOutside (pane_address env sha256_hex look (ok m)) ↔ Unnamed env
pane_address-outside_pane env sha256_hex look m = (
  RefusedOutside-Unnamed env sha256_hex look m _ refl,
  Unnamed-RefusedOutside env sha256_hex look m,
)
