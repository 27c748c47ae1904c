-- ===== src/Proxy/Uses/Arrivals.antt =====
-- Uses of the connections of a new client and of the server that is dialled for it.
use irc_idler.Prelude.{ℕ, ◌==◌, false, Option, none, some, ◌≡◌, arith, Bool-cases, inl, inr}
use irc_idler.Proxy.World.{Env, World, ◌>>=◌, modify, gets, pure}
use irc_idler.Proxy.World.Keeps.{After}
use irc_idler.Proxy.Link.{is_closed, setup, drop_client, drop_client_world}
use irc_idler.Proxy.Run.{set_client, set_server, connected, accept_client}
use irc_idler.Proxy.Stable.{IfSome}
use irc_idler.Proxy.Uses.{IsProper, IsUnknown, used_after-open, unknown-IsProper}
use irc_idler.Proxy.Uses.Steps.{drop_client_world-IsProper, drop_client_world-IsUnknown}

-- The number is another one.
abbrev pub IsOther : ℕ → ℕ → Type 0
IsOther i k = (k == i) ≡ false

module _ (env : Env) (i : ℕ) where
  open env.store use {State}

  abbrev Proper : World State → Type 0
  Proper = IsProper i

  abbrev Unknown : World State → Type 0
  Unknown = IsUnknown i

  -- Behind a new client with another number.
  client_other-IsProper :
      (id now : ℕ) (w : World State)
      → IsOther i id
      → Proper w
      → Proper (set_client (setup id now) w)
  unfolding set_client setup
  client_other-IsProper id now w o h = ground arith

  client_other-IsUnknown :
      (id now : ℕ) (w : World State)
      → IsOther i id
      → Unknown w
      → Unknown (set_client (setup id now) w)
  unfolding set_client setup
  client_other-IsUnknown id now w o h = ground arith

  -- Behind a new client with this number.
  client_new-IsProper :
      (now : ℕ) (w : World State) → Unknown w → Proper (set_client (setup i now) w)
  unfolding set_client setup
  client_new-IsProper now w h = ground (arith, used_after-open i w.out)

  connected-IsProper :
      (dialled : Option ℕ) (now : ℕ) (w : World State)
      → IfSome (IsOther i) dialled
      → Proper w
      → After Proper (connected env dialled now w)
  unfolding connected drop_client modify set_server setup
  connected-IsProper none now w o h = drop_client_world-IsProper i w h
  connected-IsProper (some k) now w o h = ground arith

  connected-IsUnknown :
      (dialled : Option ℕ) (now : ℕ) (w : World State)
      → IfSome (IsOther i) dialled
      → Unknown w
      → After Unknown (connected env dialled now w)
  unfolding connected drop_client modify set_server setup
  connected-IsUnknown none now w o h = drop_client_world-IsUnknown i w h
  connected-IsUnknown (some k) now w o h = ground arith

  connected_new-IsProper :
      (now : ℕ) (w : World State) → Unknown w → After Proper (connected env (some i) now w)
  unfolding connected modify set_server setup
  connected_new-IsProper now w h = ground (arith, used_after-open i w.out)

  pub accept_other-IsProper :
      (id now : ℕ) (dialled : Option ℕ) (later : ℕ) (w : World State)
      → IsOther i id
      → IfSome (IsOther i) dialled
      → Proper w
      → After Proper (accept_client env id now dialled later w)
  unfolding accept_client ◌>>=◌ modify gets pure drop_client
  accept_other-IsProper id now dialled later w o os h =
      let w2 = set_client (setup id now) (drop_client_world w) in
      let h2 = client_other-IsProper id now _ o (drop_client_world-IsProper i w h) in
      elim (Bool-cases (is_closed w2.server)) [
        | inl closed' ↦ rw closed' (connected-IsProper dialled later w2 os h2)
        | inr open' ↦ rw open' h2
      ]

  pub accept_other-IsUnknown :
      (id now : ℕ) (dialled : Option ℕ) (later : ℕ) (w : World State)
      → IsOther i id
      → IfSome (IsOther i) dialled
      → Unknown w
      → After Unknown (accept_client env id now dialled later w)
  unfolding accept_client ◌>>=◌ modify gets pure drop_client
  accept_other-IsUnknown id now dialled later w o os h =
      let w2 = set_client (setup id now) (drop_client_world w) in
      let h2 = client_other-IsUnknown id now _ o (drop_client_world-IsUnknown i w h) in
      elim (Bool-cases (is_closed w2.server)) [
        | inl closed' ↦ rw closed' (connected-IsUnknown dialled later w2 os h2)
        | inr open' ↦ rw open' h2
      ]

  pub accept_new-IsProper :
      (now : ℕ) (dialled : Option ℕ) (later : ℕ) (w : World State)
      → IfSome (IsOther i) dialled
      → Unknown w
      → After Proper (accept_client env i now dialled later w)
  unfolding accept_client ◌>>=◌ modify gets pure drop_client
  accept_new-IsProper now dialled later w os h =
      let w2 = set_client (setup i now) (drop_client_world w) in
      let h2 = client_new-IsProper now _ (drop_client_world-IsUnknown i w h) in
      elim (Bool-cases (is_closed w2.server)) [
        | inl closed' ↦ rw closed' (connected-IsProper dialled later w2 os h2)
        | inr open' ↦ rw open' h2
      ]

  pub accept_dialled-IsProper :
      (id now later : ℕ) (w : World State)
      → IsOther i id
      → Unknown w
      → After Proper (accept_client env id now (some i) later w)
  unfolding accept_client ◌>>=◌ modify gets pure drop_client
  accept_dialled-IsProper id now later w o h =
      let w2 = set_client (setup id now) (drop_client_world w) in
      let h2 = client_other-IsUnknown id now _ o (drop_client_world-IsUnknown i w h) in
      elim (Bool-cases (is_closed w2.server)) [
        | inl closed' ↦ rw closed' (connected_new-IsProper later w2 h2)
        | inr open' ↦ rw open' (unknown-IsProper i w2 h2)
      ]
