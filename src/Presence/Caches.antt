-- ===== src/Presence/Caches.antt =====
-- src/presence.rs: the listings that a command takes at most once. The lock of a cache is none where
-- a thread that held it panicked. The time spent in a call is not kept.
use wezterm_attention.Prelude.{
  ℕ, Bool, true, false, not, ◌&&◌, String, List, [], ◌∷◌, ◌++◌, Option, none, some, if◌then◌else◌,
  str_eq, ltb, length, is_some, retain,
}
use wezterm_attention.Protocol.{AttentionError, Result, ok, err}
use wezterm_attention.Identity.Socket.{SocketMetadata}
use wezterm_attention.Wezterm.Panes.{
  PaneRow, Presence, Paths, ProcessListing, presence_in, find_entry,
}
use wezterm_attention.Presence.{
  World, PaneLister, ProcessProbe, Look, ask, done, ◌>>=◌, identity_at,
}

-- A `Mutex` around a `BTreeMap`.
abbrev pub Locked : Type 0 → Type 0
Locked A = Option (List (String × A))

abbrev pub Listing : Type 0
Listing = Result (List PaneRow)

-- `BTreeMap::insert`, whose earlier entry for the key no lookup finds.
abbrev pub put {ℓ} : {A : Type ℓ} → String → A → List (String × A) → List (String × A)
put k a entries = (k, a) ∷ entries

abbrev pub put_locked : {A : Type 0} → String → A → Locked A → Locked A
put_locked k a none = none
put_locked k a (some entries) = some (put k a entries)

-- `Option<String>` equality.
abbrev pub same_incarnation : Option String → Option String → Bool
same_incarnation none none = true
same_incarnation none (some t) = false
same_incarnation (some s) none = false
same_incarnation (some s) (some t) = str_eq s t

abbrev pub ListenerAnswers : Type 0
ListenerAnswers = Locked (Option String × Bool)

abbrev incarnation_of : Result (String × String × SocketMetadata) → Option String
incarnation_of (ok found) = some found.1
incarnation_of (err e) = none

-- A kept answer speaks for the incarnation that it was taken of.
abbrev pub answers_for : Option String → Option String × Bool → Bool
answers_for incarnation (kept, refused) = same_incarnation kept incarnation && refused

module _ (sha256_hex : List ℕ → String) (world : World) (inner : PaneLister) where
  unfoldable pub incarnation_now : String → Look (Option String)
  incarnation_now socket_path =
      identity_at sha256_hex world socket_path >>= (λ found. done (incarnation_of found))

  unfoldable pub listener_refuses_once : ListenerAnswers → String → Look (Bool × ListenerAnswers)
  listener_refuses_once answers socket_path = incarnation_now socket_path >>= (λ incarnation.
      elim answers [
        | none ↦ done (false, none)
        | some entries ↦ elim (find_entry entries socket_path) [
          | some kept ↦ done (answers_for incarnation kept, some entries)
          | none ↦ ask (λ now. inner.listener_refuses now socket_path) >>= (λ refused. done (
            answers_for incarnation (incarnation, refused),
            some (put socket_path (incarnation, refused) entries),
          ))
        ]
      ])

  -- `ListOncePerSocket::list`.
  unfoldable pub list_once : Locked Listing → String → Look (Listing × Locked Listing)
  list_once none socket_path =
      ask (λ now. inner.list now socket_path) >>= (λ answer. done (answer, none))
  list_once (some listed) socket_path = elim (find_entry listed socket_path) [
    | some cached ↦ done (cached, some listed)
    | none ↦
        ask (λ now. inner.list now socket_path)
        >>= (λ answer. done (answer, some (put socket_path answer listed)))
  ]

  abbrev pub joined_answers : (String → Bool) → ℕ → List String → List (String × Listing)
  joined_answers joined now [] = []
  joined_answers joined now (socket ∷ sockets) =
      let rest = joined_answers joined now sockets in
      if joined socket then (socket, inner.list now socket) ∷ rest else rest

  -- `ListOncePerSocket::list_together`, over the sockets in their order: the threads ask at one
  -- moment, and `joined` says which of them did not panic.
  unfoldable pub list_together :
      (String → Bool) → Locked Listing → List String → Look (Locked Listing)
  list_together joined none sockets = done none
  list_together joined (some listed) sockets =
      let wanted = retain (λ socket. not (is_some (find_entry listed socket))) sockets in
      if ltb (length wanted) 2
      then done (some listed)
      else ask (λ now. some (joined_answers joined now wanted ++ listed))

  abbrev earlier_failure : Locked AttentionError → String → Option AttentionError
  earlier_failure none socket_path = none
  earlier_failure (some entries) socket_path = find_entry entries socket_path

  -- `FailedListingOncePerSocket::list`.
  unfoldable pub list_unless_failed :
      Locked AttentionError → String → Look (Listing × Locked AttentionError)
  list_unless_failed failed socket_path = elim (earlier_failure failed socket_path) [
    | some e ↦ done (err e, failed)
    | none ↦ ask (λ now. inner.list now socket_path) >>= (λ answer. elim answer [
      | ok rows ↦ done (ok rows, failed)
      | err e ↦ done (err e, put_locked socket_path e failed)
    ])
  ]

-- `ProcessProbe::pane_processes`, at each moment.
module _ {PathBuf : Type 0} (paths : Paths PathBuf) (probe : ProcessProbe)
    (pane_processes : ℕ → ProcessListing PathBuf) where
  -- `get_or_insert_with`, on a lock that is held.
  unfoldable pub listing_once : Option (ProcessListing PathBuf) → Look (ProcessListing PathBuf)
  listing_once (some listing) = done listing
  listing_once none = ask pane_processes

  -- `ProbeOncePerAssembly`, whose lock holds the listing once it was taken.
  abbrev pub Held : Type 0
  Held = Option (Option (ProcessListing PathBuf))

  unfoldable pub available_once : Held → Look (Bool × Held)
  available_once none = ask probe.available >>= (λ yes. done (yes, none))
  available_once (some held) = listing_once held >>= (λ listing. elim listing [
    | ProcessListing.listed processes ↦ done (true, some (some (ProcessListing.listed processes)))
    | ProcessListing.failed ↦ done (false, some (some ProcessListing.failed))
    | ProcessListing.not_offered ↦
        ask probe.available >>= (λ yes. done (yes, some (some ProcessListing.not_offered)))
  ])

  unfoldable pub presence_once : Held → String → String → Look (Presence × Held)
  presence_once none socket_path pane_id =
      ask (λ now. probe.presence now socket_path pane_id) >>= (λ found. done (found, none))
  presence_once (some held) socket_path pane_id = listing_once held >>= (λ listing. elim listing [
    | ProcessListing.listed processes ↦ done (
      presence_in paths processes socket_path pane_id,
      some (some (ProcessListing.listed processes)),
    )
    | ProcessListing.failed ↦ done (Presence.unavailable, some (some ProcessListing.failed))
    | ProcessListing.not_offered ↦
        ask (λ now. probe.presence now socket_path pane_id)
        >>= (λ found. done (found, some (some ProcessListing.not_offered)))
  ])

  unfoldable pub pane_processes_once : Held → Look (ProcessListing PathBuf × Held)
  pane_processes_once none = ask pane_processes >>= (λ listing. done (listing, none))
  pane_processes_once (some held) =
      listing_once held >>= (λ listing. done (listing, some (some listing)))
