-- ===== src/Presence/Once.antt =====
-- src/presence.rs: what a command reads through `ListOncePerSocket`.
use wezterm_attention.Prelude.{
  ℕ, suc, ◌+◌, ◌≡◌, refl, sym, ap, ◌∙◌, true, false, String, List, [], ◌∷◌, none, some, arith,
  if◌then◌else◌, map, unwrap_or, Option-cases, contains, eq_iff, eq_refl, inl, inr,
}
use mathlib.Core.Path.{ap₂}
use wezterm_attention.Presence.{PaneLister, World, Look, ask, done, ◌>>=◌}
use wezterm_attention.Presence.Caches.{Listing, Locked, list_once, put}
use wezterm_attention.Wezterm.Panes.{find_entry}

abbrev pub Times : Type 0
Times = List (String × ℕ)

-- When a socket was listed.
abbrev pub taken : Times → String → ℕ
taken times socket = unwrap_or (find_entry times socket) 0

-- How many of the sockets are asked for the first time.
abbrev pub first_asks : List String → List String → ℕ
first_asks known [] = 0
first_asks known (socket ∷ asks) =
    let more = first_asks (socket ∷ known) asks in
    let same = first_asks known asks in if contains known socket then same else suc more

-- The asks of one command, one after another.
unfoldable pub list_all :
    (List ℕ → String)
    → World
    → PaneLister
    → List String
    → Locked Listing
    → Look (List Listing × Locked Listing)
list_all sha256_hex world inner [] listed = done ([], listed)
list_all sha256_hex world inner (socket ∷ asks) listed =
    list_once sha256_hex world inner listed socket >>= (λ (answer, kept).
      list_all sha256_hex world inner asks kept
      >>= (λ (answers, last). done (answer ∷ answers, last)))

module _ (sha256_hex : List ℕ → String) (world : World) (inner : PaneLister) where
  abbrev stored : Times → List (String × Listing)
  stored [] = []
  stored ((socket, t) ∷ times) = (socket, inner.list t socket) ∷ stored times

  abbrev keys : Times → List String
  keys [] = []
  keys ((socket, t) ∷ times) = socket ∷ keys times

  -- Later times keep the earlier ones.
  abbrev Extends : Times → Times → Type 0
  Extends times times' =
      (socket : String) (t : ℕ)
      → find_entry times socket ≡ some t
      → find_entry times' socket ≡ some t

  find_entry-stored :
      (times : Times) (socket : String) (t : ℕ)
      → find_entry times socket ≡ some t
      → find_entry (stored times) socket ≡ some (inner.list t socket)
  find_entry-stored [] socket t h = absurd cc
  find_entry-stored ((s, u) ∷ times) socket t h =
      ground (arith, eq_iff s socket, find_entry-stored times socket t)

  unlisted-stored :
      (times : Times) (socket : String)
      → find_entry times socket ≡ none
      → (find_entry (stored times) socket ≡ none) × (contains (keys times) socket ≡ false)
  unlisted-stored [] socket h = (refl, refl)
  unlisted-stored ((s, u) ∷ times) socket h = ground (arith, unlisted-stored times socket)

  listed-contains :
      (times : Times) (socket : String) (t : ℕ)
      → find_entry times socket ≡ some t
      → contains (keys times) socket ≡ true
  listed-contains [] socket t h = absurd cc
  listed-contains ((s, u) ∷ times) socket t h = ground (arith, listed-contains times socket t)

  Extends-put :
      (times : Times) (socket : String) (t : ℕ)
      → find_entry times socket ≡ none
      → Extends times ((socket, t) ∷ times)
  Extends-put times socket t h s u e = ground (arith, eq_iff socket s)

  abbrev Ran : List String → Times → ℕ → Type 0
  Ran asks times now =
      (times' : Times) × Extends times times'
      × (list_all sha256_hex world inner asks (some (stored times)) now ≡ (
        (map (λ socket. inner.list (taken times' socket) socket) asks, some (stored times')),
        now + first_asks (keys times) asks,
      ))

  list_once_fresh :
      (listed : List (String × Listing)) (socket : String) (now : ℕ)
      → find_entry listed socket ≡ none
      → list_once sha256_hex world inner (some listed) socket now
        ≡ ((inner.list now socket, some (put socket (inner.list now socket) listed)), suc now)
  unfolding list_once ◌>>=◌ ask done
  list_once_fresh listed socket now h = rw (h, list_once) refl

  list_once_kept :
      (listed : List (String × Listing)) (socket : String) (answer : Listing) (now : ℕ)
      → find_entry listed socket ≡ some answer
      → list_once sha256_hex world inner (some listed) socket now ≡ ((answer, some listed), now)
  unfolding list_once ◌>>=◌ ask done
  list_once_kept listed socket answer now h = rw (h, list_once) refl

  list_all_step :
      (socket : String) (asks : List String) (listed kept end : Locked Listing) (answer : Listing)
      (answers : List Listing) (now k after : ℕ)
      → list_once sha256_hex world inner listed socket now ≡ ((answer, kept), k)
      → list_all sha256_hex world inner asks kept k ≡ ((answers, end), after)
      → list_all sha256_hex world inner (socket ∷ asks) listed now
        ≡ ((answer ∷ answers, end), after)
  unfolding list_all ◌>>=◌ done
  list_all_step socket asks listed kept end answer answers now k after h g = rw (h, g) refl

  list_all-Ran : (asks : List String) (times : Times) (now : ℕ) → Ran asks times now
  unfolding list_all done
  list_all-Ran [] times now =
      (times, (λ s t e. e), ap (λ n. (([], some (stored times)), n)) (omega arith))
  list_all-Ran (socket ∷ asks) times now = elim (Option-cases (find_entry times socket)) [
    | inl new ↦
        let (times', extends, run) = list_all-Ran asks ((socket, now) ∷ times) (suc now) in
        let (unlisted, unknown) = unlisted-stored times socket new in
        let is : taken times' socket ≡ now =
          ap (λ o. unwrap_or o 0) (extends socket now (rw (eq_refl socket) refl)) in
        let count : suc now + first_asks (socket ∷ keys times) asks
            ≡ now + first_asks (keys times) (socket ∷ asks) =
          rw unknown (omega arith) in
        (
          times',
          (λ s t e. extends s t (Extends-put times socket now new s t e)),
          list_all_step socket asks _ _ _ _ _ now (suc now) _
                (list_once_fresh (stored times) socket now unlisted) run
              ∙ ap₂
                  (λ t n. (
                    (
                      inner.list t socket ∷ map (λ s. inner.list (taken times' s) s) asks,
                      some (stored times'),
                    ),
                    n,
                  ))
                  (sym is) count,
        )
    | inr (t, known) ↦
        let (times', extends, run) = list_all-Ran asks times now in
        let is : taken times' socket ≡ t = ap (λ o. unwrap_or o 0) (extends socket t known) in
        let count : now + first_asks (keys times) asks
            ≡ now + first_asks (keys times) (socket ∷ asks) =
          rw (listed-contains times socket t known) refl in
        (
          times',
          extends,
          list_all_step socket asks _ _ _ _ _ now now _
                (list_once_kept (stored times) socket _ now
                  (find_entry-stored times socket t known))
                run
              ∙ ap₂
                  (λ t n. (
                    (
                      inner.list t socket ∷ map (λ s. inner.list (taken times' s) s) asks,
                      some (stored times'),
                    ),
                    n,
                  ))
                  (sym is) count,
        )
  ]

  -- Whatever sockets a command asks about, and however often, each is listed once: the command takes
  -- as many looks as there are different sockets, and every answer about a socket is the listing that
  -- was taken at one moment, the same for every ask about it.
  pub list_all-taken :
      (asks : List String) (now : ℕ)
      → (times : Times) × ((list_all sha256_hex world inner asks (some []) now).0.0
          ≡ map (λ socket. inner.list (taken times socket) socket) asks)
        × ((list_all sha256_hex world inner asks (some []) now).1 ≡ now + first_asks [] asks)
  list_all-taken asks now =
      let (times, extends, run) = list_all-Ran asks [] now in
      (times, ap (λ r. r.0.0) run, ap (λ r. r.1) run)
