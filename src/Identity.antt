-- ===== src/Identity.antt =====
-- src/identity.rs: pane addresses. The bytes that are hashed, the markers of panes and the identity
-- of a socket are in the children.
pub mod Bytes
pub mod Framing
pub mod Marker
pub mod Socket
mod Tests
use wezterm_attention.Prelude.{String}

pub record PaneAddress : Type 0 where
  pub realm_id : String
  pub incarnation_id : String
  pub pane_id : String
