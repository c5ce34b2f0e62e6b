-- ===== src/Presence/Tests.antt =====
-- src/presence.rs: a pane whose server does not list it, and a command that asks about two sockets.
use wezterm_attention.Prelude.{
  ℕ, ◌+◌, ◌≡◌, refl, ◌↔◌, true, false, String, List, [], ◌∷◌, none, some, map, All, str_eq,
}
use wezterm_attention.Prelude.Json.{Value, member, no_member}
use wezterm_attention.Protocol
use wezterm_attention.Protocol.{Diagnostic, Result, ok, err}
use wezterm_attention.Wezterm.{pos}
use wezterm_attention.Wezterm.Gui.{Signal, gui_pid, file_name, split, pid_text}
use wezterm_attention.Wezterm.Panes.{
  Presence, Paths, PaneProcessSet, presence_in, Differs, presence_in-absent,
}
use wezterm_attention.Identity.Marker.{strip_prefix}
use wezterm_attention.Protocol.Text.{canonical_decimal_text, byte_len}
use wezterm_attention.Protocol.Stamp.{digits_value}
use wezterm_attention.Protocol.Decimal.{parse_decimal}
use wezterm_attention.Identity.{PaneAddress}
use wezterm_attention.Identity.Socket.{FileType, PathBytes, FileLook, socket_identity, identity_of}
use wezterm_attention.Presence.{
  PanePresence, PaneEvidence, World, PaneLister, ProcessProbe, ask, done, ◌>>=◌, identity_at,
  recorded_server, server_state, evidence_unless_current,
}
use wezterm_attention.Presence.Pane.{
  pane_evidence, recorded_socket, reader_presence, evidence_at, presence_at_socket, probe_presence,
  unlisted_answer, settled,
}
use wezterm_attention.Presence.Absent.{Absence}
use wezterm_attention.Presence.Reported.{Reports, reader_presence-Reports, pane_evidence-Absence}
use wezterm_attention.Presence.Once.{taken, first_asks, list_all, list_all-taken}

abbrev sha256_hex : List ℕ → String
sha256_hex bytes = "digest"

abbrev look : FileLook
look = record {
  canonicalize = λ path. some (PathBytes.utf8_path path);
  metadata = λ path. some record {
    file_type = FileType.socket;
    uid = 501;
    dev = 1;
    ino = 77;
    rdev = 0;
    ctime = pos 1700000000;
    ctime_nsec = pos 5;
  };
  effective_uid = 501;
}

abbrev realm : Value
realm = Value.object (member "socket_path" (Value.string "/tmp/sock") no_member)

abbrev world : World
world = record {
  realm_record = λ now id. ok (some realm);
  incarnation_record = λ now id incarnation. ok (some (Value.object no_member));
  file_look = λ now. look;
  path_missing = λ now path. false;
  kill = λ now pid. Signal.delivered;
}

abbrev lister : PaneLister
lister = record {
  list = λ now socket. ok (record { pane_id = "3"; tty_name = none } ∷ []);
  listener_refuses = λ now socket. false;
}

abbrev probe : ProcessProbe
probe = record { available = λ now. true; presence = λ now socket pane. Presence.absent }

abbrev address : PaneAddress
address = record { realm_id = "digest"; incarnation_id = "digest"; pane_id = "16" }

not_listed :
    pane_evidence sha256_hex world address (some lister) (some probe) [] 0
    ≡ ((PaneEvidence.observed PanePresence.verified_absent, []), 6)
unfolding pane_evidence recorded_socket evidence_at presence_at_socket probe_presence
    unlisted_answer settled evidence_unless_current server_state recorded_server identity_at
    socket_identity identity_of ask done ◌>>=◌ Protocol.◌>>=◌
not_listed = refl

pane_evidence-Absence_example :
    (found : PaneLister) × (socket_path : String) × (k : ℕ) × (some lister ≡ some found)
    × (recorded_socket sha256_hex world "digest" "digest" 0 ≡ (ok (some socket_path), k))
    × Absence sha256_hex world socket_path address found (some probe) k 6
pane_evidence-Absence_example =
    pane_evidence-Absence sha256_hex world address (some lister) (some probe) [] [] 0 6 not_listed

reader_presence-Reports_example :
    Reports [] (reader_presence sha256_hex world address (some lister) none [] 0).0
reader_presence-Reports_example =
    reader_presence-Reports sha256_hex world address (some lister) none [] 0

abbrev asks : List String
asks = "/a" ∷ "/b" ∷ "/a" ∷ []

list_all-taken_example :
    (times : List (String × ℕ)) × ((list_all sha256_hex world lister asks (some []) 7).0.0
      ≡ map (λ socket. lister.list (taken times socket) socket) asks)
    × ((list_all sha256_hex world lister asks (some []) 7).1 ≡ 7 + first_asks [] asks)
list_all-taken_example = list_all-taken sha256_hex world lister asks 7

two_looks : first_asks [] asks ≡ 2
two_looks = refl

gui_socket : gui_pid "/run/user/501/wezterm/gui-sock-4242" ≡ some 4242
unfolding gui_pid file_name split strip_prefix pid_text canonical_decimal_text byte_len
    parse_decimal digits_value
gui_socket = refl

abbrev paths : Paths String
paths = record {
  path_eq = str_eq;
  from_text = λ text. text;
  join = λ directory name. directory;
  canonical_parent = λ path. some path;
}

abbrev processes : PaneProcessSet String
processes = record {
  pairs = ("/other", "16") ∷ ("/tmp/sock", "3") ∷ [];
  resolved = ("/other", some "/other") ∷ ("/tmp/sock", some "/tmp/sock") ∷ [];
  missed = false;
  codex_servers = [];
}

presence_in-absent_example :
    (presence_in paths processes "/tmp/sock" "16" ≡ Presence.absent)
    ↔ ((false ≡ false) × All (Differs paths processes "/tmp/sock" "16") processes.pairs)
presence_in-absent_example = presence_in-absent paths processes "/tmp/sock" "16"
