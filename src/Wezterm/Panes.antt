-- ===== src/Wezterm/Panes.antt =====
-- src/wezterm.rs: the traits `PaneLister` and `ProcessProbe`, and `PaneProcessSet`, what one process
-- listing shows.
use wezterm_attention.Prelude.{
  Bool, true, false, not, ◌&&◌, ◌||◌, String, List, [], ◌∷◌, Option, none, some, any, if◌then◌else◌,
  str_eq, is_some, unwrap_or, ◌≡◌, refl, absurd_bool, ◌⊎◌, inl, inr, Bool-cases, ◌↔◌, All, arith,
}
use wezterm_attention.Identity.Socket.{is_absolute}
use wezterm_attention.Wezterm.Gui.{file_name}

pub record PaneRow : Type 0 where
  pub pane_id : String
  pub tty_name : Option String

pub data Presence : Type 0 where
  present absent unseen unavailable : Presence

-- What the system knows of paths: a `PathBuf` and its equality, `PathBuf::from`, `Path::join`, and
-- `fs::canonicalize` of a path's parent directory.
pub record Paths (PathBuf : Type 0) : Type 0 where
  pub path_eq : PathBuf → PathBuf → Bool
  pub from_text : String → PathBuf
  pub join : PathBuf → String → PathBuf
  pub canonical_parent : String → Option PathBuf

pub record CodexServer (PathBuf : Type 0) : Type 0 where
  pub codex_home : Option PathBuf

-- A `BTreeSet` and a `BTreeMap` are lists that hold each key once, since no answer reads their order.
pub record PaneProcessSet (PathBuf : Type 0) : Type 0 where
  pub pairs : List (String × String)
  pub resolved : List (String × Option PathBuf)
  pub missed : Bool
  pub codex_servers : List (CodexServer PathBuf)

-- `BTreeMap::get`, and `contains_key`.
abbrev pub find_entry {ℓ} : {A : Type ℓ} → List (String × A) → String → Option A
find_entry [] k = none
find_entry ((j, a) ∷ rest) k = if str_eq j k then some a else find_entry rest k

-- What one socket says: it is the same, it differs, or it could not be compared.
pub data Match : Type 0 where
  same differs undecided : Match

Match-cases : (m : Match) → (m ≡ Match.same) ⊎ ((m ≡ Match.differs) ⊎ (m ≡ Match.undecided))
Match-cases Match.same = inl refl
Match-cases Match.differs = inr (inl refl)
Match-cases Match.undecided = inr (inr refl)

module _ {PathBuf : Type 0} (paths : Paths PathBuf) where
  abbrev join_name : String → Option PathBuf → Option PathBuf
  join_name name none = none
  join_name name (some directory) = some (paths.join directory name)

  abbrev named_path : String → Option String → Option PathBuf
  named_path path none = none
  named_path path (some name) = join_name name (paths.canonical_parent path)

  unfoldable pub resolved_path : String → Option PathBuf
  resolved_path path = if not (is_absolute path) then none else named_path path (file_name path)

  abbrev pair_eq : String × String → String × String → Bool
  pair_eq (s, p) (t, q) = str_eq s t && str_eq p q

  unfoldable pub insert_pair : PaneProcessSet PathBuf → String → String → PaneProcessSet PathBuf
  insert_pair set socket pane = record set {
    resolved =
        if is_some (find_entry set.resolved socket)
        then set.resolved
        else (socket, resolved_path socket) ∷ set.resolved;
    pairs =
        if any (pair_eq (socket, pane)) set.pairs then set.pairs else (socket, pane) ∷ set.pairs;
  }

  unfoldable pub missed_one : PaneProcessSet PathBuf → PaneProcessSet PathBuf
  missed_one set = record set { missed = true }

  abbrev wanted : String → PathBuf
  wanted socket_path = unwrap_or (resolved_path socket_path) (paths.from_text socket_path)

  unfoldable pub compare_socket : PaneProcessSet PathBuf → String → String → Match
  compare_socket set socket_path socket =
      if str_eq socket socket_path then Match.same else elim (find_entry set.resolved socket) [
        | none ↦ Match.undecided
        | some carried ↦ elim carried [
          | none ↦ Match.undecided
          | some path ↦
              if paths.path_eq path (wanted socket_path) then Match.same else Match.differs
        ]
      ]

  abbrev nothing_seen : Bool → Presence
  nothing_seen true = Presence.unseen
  nothing_seen false = Presence.absent

  -- The loop, from whether an earlier socket could not be compared.
  unfoldable pub look_for :
      PaneProcessSet PathBuf → String → String → Bool → List (String × String) → Presence
  look_for set socket_path pane_id unsettled [] = nothing_seen (unsettled || set.missed)
  look_for set socket_path pane_id unsettled ((socket, pane) ∷ pairs) =
      if not (str_eq pane pane_id)
      then look_for set socket_path pane_id unsettled pairs
      else elim (compare_socket set socket_path socket) [
        | same ↦ Presence.present
        | differs ↦ look_for set socket_path pane_id unsettled pairs
        | undecided ↦ look_for set socket_path pane_id true pairs
      ]

  -- `PaneProcessSet::presence`.
  unfoldable pub presence_in : PaneProcessSet PathBuf → String → String → Presence
  presence_in set socket_path pane_id = look_for set socket_path pane_id false set.pairs

  -- Every process was read, and every socket that carries the pane id is another one.
  abbrev pub Differs : PaneProcessSet PathBuf → String → String → String × String → Type 0
  Differs set socket_path pane_id (socket, pane) =
      str_eq pane pane_id ≡ true → compare_socket set socket_path socket ≡ Match.differs

-- What a probe answers when it is asked for its whole listing.
pub data ProcessListing (PathBuf : Type 0) : Type 0 where
  not_offered failed : ProcessListing PathBuf
  listed : PaneProcessSet PathBuf → ProcessListing PathBuf

module _ {PathBuf : Type 0} (paths : Paths PathBuf) (set : PaneProcessSet PathBuf) where
  look_for-absent :
      (socket_path pane_id : String) (unsettled : Bool) (pairs : List (String × String))
      → (look_for paths set socket_path pane_id unsettled pairs ≡ Presence.absent) ↔ (
          (unsettled ≡ false)
          × (set.missed ≡ false)
          × All (Differs paths set socket_path pane_id) pairs)
  unfolding look_for
  look_for-absent socket_path pane_id unsettled [] =
      (λ h. (ground arith, ground arith, tt), λ (u, m, _). rw (u, m) refl)
  look_for-absent socket_path pane_id unsettled ((socket, pane) ∷ pairs) =
      let same_flag = look_for-absent socket_path pane_id unsettled pairs in
      let raised = look_for-absent socket_path pane_id true pairs in
      elim (Bool-cases (str_eq pane pane_id)) [
        | inl asked ↦ elim (Match-cases (compare_socket paths set socket_path socket)) [
          | inl eq ↦
              rw (asked, eq) (λ h. absurd cc, λ (_, _, (d, _)). let bad = d refl in absurd cc)
          | inr (inl eq) ↦
              rw (asked, eq)
                (
                  λ h. let (u, m, rest) = same_flag.0 h in (u, m, ((λ _. refl), rest)),
                  λ (u, m, (_, rest)). same_flag.1 (u, m, rest),
                )
          | inr (inr eq) ↦
              rw (asked, eq)
                (
                  λ h. let bad = (raised.0 h).0 in absurd cc,
                  λ (_, _, (d, _)). let bad = d refl in absurd cc,
                )
        ]
        | inr passed ↦ rw passed (
          λ h. let (u, m, rest) = same_flag.0 h in (u, m, (absurd_bool, rest)),
          λ (u, m, (_, rest)). same_flag.1 (u, m, rest),
        )
      ]

  -- A process listing shows a pane absent exactly when every process was read and each socket that
  -- a process carries with that pane id is known to be another file than the one that is asked for.
  pub presence_in-absent :
      (socket_path pane_id : String)
      → (presence_in paths set socket_path pane_id ≡ Presence.absent)
        ↔ ((set.missed ≡ false) × All (Differs paths set socket_path pane_id) set.pairs)
  unfolding presence_in
  presence_in-absent socket_path pane_id =
      let whole = look_for-absent socket_path pane_id false set.pairs in
      (λ h. ((whole.0 h).1, (whole.0 h).2), λ (m, rest). whole.1 (refl, m, rest))
