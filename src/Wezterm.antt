-- ===== src/Wezterm.antt =====
-- src/wezterm.rs: what the system is asked about processes and terminals. `ProcessInspector` and
-- `TtyWriter` are traits, and here records of the answers that one check reads.
pub mod Gui
pub mod Panes
use wezterm_attention.Prelude.{ℕ, String, Bool, false, ◌&&◌, Option, nat_eq}
use wezterm_attention.Protocol.{Result}

-- A signed machine integer.
pub data ℤ : Type 0 where
  pos : ℕ → ℤ
  negsuc : ℕ → ℤ

abbrev pub int_eq : ℤ → ℤ → Bool
int_eq (pos m) (pos n) = nat_eq m n
int_eq (negsuc m) (negsuc n) = nat_eq m n
int_eq (pos m) (negsuc n) = false
int_eq (negsuc m) (pos n) = false

pub data ControllingTerminal : Type 0 where
  device : ℕ → ControllingTerminal
  absent unknown : ControllingTerminal

pub record ProcessStart : Type 0 where
  pub seconds : ℕ
  pub microseconds : ℕ

-- The derived `PartialEq`.
abbrev pub start_eq : ProcessStart → ProcessStart → Bool
start_eq s t = nat_eq s.seconds t.seconds && nat_eq s.microseconds t.microseconds

pub record ProcessFacts : Type 0 where
  pub parent_pid : ℤ
  pub process_group : ℤ
  pub terminal : ControllingTerminal
  pub terminal_foreground_group : ℤ
  pub uid : ℕ
  pub start : ProcessStart
  pub traced : Bool
  pub zombie : Bool

pub data ProcessRead : Type 0 where
  found : ProcessFacts → ProcessRead
  gone unknown : ProcessRead

pub record ProcessInspector : Type 0 where
  pub self_claim_supported : Bool
  pub own_pid : ℤ
  pub process : ℤ → ProcessRead
  pub boot_session : Option String
  pub terminal_device : String → Option ℕ

pub record TtyWriter : Type 0 where
  pub fingerprint : String → Result String
