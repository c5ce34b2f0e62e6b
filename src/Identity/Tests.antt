-- ===== src/Identity/Tests.antt =====
-- src/identity.rs: one address, its marker and its socket.
use wezterm_attention.Prelude.{
  ◌≡◌, refl, ◌↔◌, true, String, List, [], ◌∷◌, Option, none, some, arith, if◌then◌else◌, str_eq,
}
use wezterm_attention.Protocol.{DiagnosticCode, ok, err, new_error, ◌>>=◌}
use wezterm_attention.Protocol.Text.{byte_len, hex64_text, canonical_decimal_text}
use wezterm_attention.Wezterm.{pos}
use wezterm_attention.Protocol.Samples.{manifest}
use wezterm_attention.Identity.{PaneAddress}
use wezterm_attention.Identity.Framing.{preimage-injective}
use wezterm_attention.Identity.Marker.{
  marker, canonical_pane_id, marker_address, strip_prefix, cut, splitn, marker_parts,
  marker_address_lem,
}
use wezterm_attention.Identity.Socket.{
  FileType, PathBytes, FileLook, pane_variable, pane_socket, pane_address,
  pane_address-outside_pane, RefusedOutside, Unnamed,
}

abbrev digest : String
digest = "0123456789abcdef0123456789abcdef0123456789abcdef0123456789abcdef"

abbrev address : PaneAddress
address = record { realm_id = digest; incarnation_id = digest; pane_id = "16" }

reads_marker : marker_address (ok manifest) (marker address) ≡ some address
unfolding marker_address strip_prefix cut splitn marker_parts hex64_text canonical_pane_id byte_len
    canonical_decimal_text ◌>>=◌
reads_marker = refl

marker_address_lem_example : (marker_address (ok manifest) (marker address) ≡ some address) ↔ (
    (marker address ≡ marker address)
    × (hex64_text digest ≡ true)
    × (hex64_text digest ≡ true)
    × (canonical_pane_id (ok manifest) "16" ≡ ok "16"))
marker_address_lem_example = marker_address_lem (ok manifest) (marker address) address

abbrev parts : List String
parts = "12" ∷ "3" ∷ []

preimage-injective_example : parts ≡ parts
unfolding byte_len
preimage-injective_example =
    preimage-injective parts parts (omega arith, (omega arith, tt)) (omega arith, (omega arith, tt))
      refl

abbrev look : FileLook
look = record {
  canonicalize = λ path. some (PathBytes.utf8_path path);
  metadata = λ path. some record {
    file_type = FileType.socket;
    uid = 501;
    dev = 1;
    ino = 77;
    rdev = 0;
    ctime = pos 1700000000;
    ctime_nsec = pos 5;
  };
  effective_uid = 501;
}

abbrev env : String → Option String
env name = if str_eq name "WEZTERM_UNIX_SOCKET" then some "/tmp/sock" else none

missing_pane :
    pane_address env (λ bytes. digest) look (ok manifest)
    ≡ err (new_error DiagnosticCode.outside_pane "WEZTERM_PANE is missing")
unfolding pane_address pane_socket pane_variable ◌>>=◌
missing_pane = refl

pane_address-outside_pane_example :
    RefusedOutside (pane_address env (λ bytes. digest) look (ok manifest)) ↔ Unnamed env
pane_address-outside_pane_example = pane_address-outside_pane env (λ bytes. digest) look manifest
