-- ===== src/Wezterm/Gui.antt =====
-- src/wezterm.rs: `gui_process_exited`, with `pid_text` of src/protocol.rs. `Path::file_name` is
-- written out as the language defines it.
use Prim.Native.Char.{Char, code}
use wezterm_attention.Prelude.{
  ℕ, ◌-◌, ◌^◌, Bool, true, false, not, ◌&&◌, ◌||◌, String, List, [], ◌∷◌, Option, none, some,
  nat_eq, if◌then◌else◌, str_eq, retain,
}
use wezterm_attention.Protocol.Text.{canonical_decimal_text}
use wezterm_attention.Protocol.Decimal.{parse_decimal}
use wezterm_attention.Identity.Marker.{strip_prefix}

abbrev push_first : Char → List String → List String
push_first c [] = String.◌∷◌ c "" ∷ []
push_first c (piece ∷ pieces) = String.◌∷◌ c piece ∷ pieces

-- `str::split` at a character.
unfoldable pub split : ℕ → String → List String
split sep String.[] = "" ∷ []
split sep (String.◌∷◌ c s) =
    let rest = split sep s in if nat_eq (code c) sep then "" ∷ rest else push_first c rest

abbrev last : List String → Option String
last [] = none
last (x ∷ []) = some x
last (x ∷ y ∷ xs) = last (y ∷ xs)

abbrev not_parent : Option String → Option String
not_parent none = none
not_parent (some name) = if str_eq name ".." then none else some name

-- The last component, where it is a name.
unfoldable pub file_name : String → Option String
file_name path =
    not_parent
      (last (retain (λ piece. not (str_eq piece "" || str_eq piece ".")) (split b'/' path)))

-- The answer of signal 0: it was delivered, or an error number.
pub data Signal : Type 0 where
  delivered : Signal
  failed : Option ℕ → Signal

pub data PidState : Type 0 where
  running exited unknown : PidState

abbrev eperm : ℕ
eperm = 1

abbrev esrch : ℕ
esrch = 3

unfoldable pub pid_state : Signal → PidState
pid_state Signal.delivered = PidState.running
pid_state (Signal.failed none) = PidState.unknown
pid_state (Signal.failed (some errno)) =
    if nat_eq errno eperm
    then PidState.running
    else if nat_eq errno esrch
    then PidState.exited
    else PidState.unknown

unfoldable pub pid_text : String → Bool
pid_text text = not (str_eq text "0") && canonical_decimal_text text (2 ^ 64 - 1)

abbrev pid_of : Option String → Option ℕ
pid_of none = none
pid_of (some text) = if pid_text text then parse_decimal (2 ^ 31) text else none

abbrev gui_suffix : Option String → Option String
gui_suffix none = none
gui_suffix (some name) = strip_prefix "gui-sock-" name

-- The pid in a GUI's own socket path, where the path is one.
unfoldable pub gui_pid : String → Option ℕ
gui_pid socket_path = pid_of (gui_suffix (file_name socket_path))

abbrev has_exited : PidState → Bool
has_exited PidState.exited = true
has_exited PidState.running = false
has_exited PidState.unknown = false

abbrev exited_pid : (ℕ → Signal) → Option ℕ → Bool
exited_pid kill none = false
exited_pid kill (some pid) = has_exited (pid_state (kill pid))

-- `kill` is what signal 0 answers for a pid.
unfoldable pub gui_process_exited : (ℕ → Signal) → String → Bool
gui_process_exited kill socket_path = exited_pid kill (gui_pid socket_path)
