-- ===== src/Lib.antt =====
-- Verification library of wezterm-attention, the program that records what the agent in a terminal
-- pane is doing and reports it to tab bars and other readers.
--
-- The program. An agent's hooks run the binary; each hook is one event of a provider (Claude, Codex
-- or Pi). `src/providers.rs` reads the event and `src/lifecycle.rs` decides what it changes, under
-- the binding's lock. A binding's state is a set of files: the children that run now
-- (`src/children.rs`), the lifecycle observations and the lead's prompts (`src/observations.rs`), the
-- host process that its hooks proved (`src/host.rs`), and the pane's claim (`src/launch.rs`).
-- `src/records.rs` reads and writes the files, `src/protocol.rs` holds the vocabularies, the text
-- checks, the stamps and the manifest `protocol/v2.json`. Readers (`src/query.rs`, `src/presence.rs`,
-- `src/observe.rs`) answer from the files, from the mux and from the process table, which
-- `src/wezterm.rs` asks.
--
-- The files, each with its code:
--   Prelude            the names that all modules share: Boolean tests, lists, texts with the byte
--                      order of `str`, JSON values, `sort_by`
--   Protocol           src/protocol.rs: diagnostics and errors, vocabularies (Spelling), text checks
--                      (Text), nanosecond stamps (Stamp), decimal numbers of bounded types (Decimal),
--                      what is read of the manifest
--   Identity           src/identity.rs: `PaneAddress`, the bytes that are hashed (Bytes, Framing), the
--                      markers (Marker), `socket_identity`, `pane_address`, `tty_fingerprint` (Socket)
--   Wezterm            src/wezterm.rs: `ProcessInspector`, `TtyWriter` and the types of their answers,
--                      `gui_process_exited` (Gui), the listings of panes and processes (Panes)
--   Owner              src/launch.rs: `ClaimOwner` with `claim_owner` of src/protocol.rs, `ClaimMode`,
--                      `HostProof::owns`, `owner_state`
--   Host               src/host.rs: `recorded_host` and `host_record` (Host), `check_host` and
--                      `confirm_recorded` (Host/Check)
--   Children           src/children.rs: `ChildPresenceSet`, its readers and `validate_semantics`
--                      (Readers), its `apply` with every transition (Reduce)
--   HoldCheck          src/hold_check.rs: `HoldCheckOutcome::valid` and the notes
--   Observations       src/observations.rs: the bodies (Body), `storage_key` (Keys), `LeadPrompts`
--                      (Prompts), `semantic` (Same), `validate_semantics` (Validate), `reduce`,
--                      `repeats` and the eviction (Reduce)
--   Providers          src/providers.rs: `safe_text`
--   ClaudeStatus       src/claude_status.rs: `read`, `understand`, `session` and `written_by`
--   Presence           src/presence.rs: `server_state` (Presence), `pane_evidence` and `reader_presence`
--                      (Pane), the caches of one command (Caches)
--   Records            src/records.rs: `ends_binding`
--   Lifecycle          src/lifecycle.rs: `LifecycleResult` (Lifecycle), `plan_activity` and the
--                      visibility (Activity), `activity_clear_plan` and the slot (Activity/Slot),
--                      `binding_mutation_for_session` (Binding)
--   Consumer           src/consumer.rs: `validate_consumers` and `delivery_bytes`
--   CodexRollout       src/codex_rollout.rs: `classify` and `next_signal` (CodexRollout), `Rollout::open`
--                      (Open)
-- A file below one of these holds the lemmas of that part, and Tests the states they are run at.
--
-- How the model stands to the code. A method that mutates `self` returns the new value, with the
-- value that the method returns. `Result` and the `?` operator are `Result` and `>>=`; a closure's
-- other error type is a type of its own (`OwnerRead`, `Verdict`). Every number is a natural number
-- with its bound written out where the code parses or adds one (`parse_decimal`, `elapsed_beyond`).
-- `chars`, `str::cmp`, `parse`, `to_string` and `sort_by` are written out as the language defines them.
-- A map of the manifest is the function that looks a key up. In Presence a look at the system happens
-- at a moment, each look of a run at a later one than the last, and `World`, `PaneLister` and
-- `ProcessProbe` hold what each would find at each moment, so that what two looks find may differ.
--
-- Parameters, for code that is not the program's: whether the embedded manifest parses and what it
-- says, the answers of the process table and of the terminals during one check, and in `Outside` the
-- bytes that serde_json writes of a value, the SHA-256 digest and whether a text is a UUID's spelling.
-- `reduce` takes the id that the uuid crate makes, as the plans of Lifecycle do, and the equality of
-- serde_json values is a parameter there.
--
-- Fuel. `evict`, the loop that forgets a pool's oldest observations, runs on one more than their
-- number; each round forgets the first at least, so the fuel is not used up. `next_signal` runs on
-- one more than the bytes that are not read, of which each round reads one at least. `digit_count`
-- runs on the most digits that a `u128` has.
--
-- Not modelled. The files, locks, sockets, processes and terminals themselves are I/O, and a commit is
-- the decision over the records that it read. Of the modelled files: the read side of
-- src/observations.rs (`LifecycleView`); of src/protocol.rs the manifest's parser and the record
-- validator; of src/launch.rs the proofs of a host and the claim decision; of src/hold_check.rs the
-- registrations and the running of checks; of src/providers.rs the adapters; of src/claude_status.rs
-- the paths and the listing of sessions; of src/wezterm.rs the parsing of listings; of
-- src/lifecycle.rs the review and its carry to a resumed pane, the acknowledgement, the children's
-- plan and the hold checks around an activity; of src/records.rs all but `ends_binding`; of
-- src/query.rs all but `published_marker_id`; of src/consumer.rs all but the names and the bytes of a
-- delivery. src/maintenance.rs, src/observe.rs and src/turn_follower.rs have no definitions here, nor
-- have the command line of src/main.rs and the code in other languages (plugin, pi, shell, scripts).
pub mod Prelude
pub mod Protocol
pub mod Identity
pub mod Wezterm
pub mod Owner
pub mod Records
pub mod Host
pub mod Children
pub mod HoldCheck
pub mod Observations
pub mod Providers
pub mod ClaudeStatus
pub mod Presence
pub mod Lifecycle
pub mod Consumer
pub mod CodexRollout
