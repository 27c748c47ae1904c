-- ===== src/Proxy/Held.antt =====
-- What becomes of a connection that the daemon has had: it is kept, or closed.
pub mod Steps
pub mod Events
use irc_idler.Prelude.{
  ℕ, ◌==◌, List, [], ◌∷◌, ◌++◌, Bool, true, false, ◌||◌, Option, none, some, ◌≡◌, refl, arith,
  Option-cases, inl, inr,
}
use irc_idler.Irc.Message.{Message}
use irc_idler.Proxy.World.{Output, wrote, write_failed, closed, Connection, World}
use irc_idler.Proxy.Link.{shutdown}

abbrev pub names : ℕ → Option ℕ → Bool
names i none = false
names i (some j) = j == i

-- `Close` was called on the connection.
abbrev pub was_closed : ℕ → List Output → Bool
was_closed i [] = false
was_closed i (wrote j m ∷ out) = was_closed i out
was_closed i (write_failed j m ∷ out) = was_closed i out
was_closed i (closed j ∷ out) = j == i || was_closed i out

pub was_closed-append :
    (i : ℕ) (xs ys : List Output) → was_closed i (xs ++ ys) ≡ (was_closed i xs || was_closed i ys)
was_closed-append i [] ys = refl
was_closed-append i (wrote j m ∷ xs) ys = was_closed-append i xs ys
was_closed-append i (write_failed j m ∷ xs) ys = was_closed-append i xs ys
was_closed-append i (closed j ∷ xs) ys = ground (arith, was_closed-append i xs ys)

-- The connection is the client's or the server's, or it was closed.
abbrev pub held : {L : Type 0} → ℕ → World L → Bool
held i w = names i w.client.chan || names i w.server.chan || was_closed i w.out

pub record IsHeld {L : Type 0} (i : ℕ) (w : World L) : Type 0 where
  pub client_paired : w.client.rwc ≡ w.client.chan
  pub server_paired : w.server.rwc ≡ w.server.chan
  pub still : held i w ≡ true

-- What `shutdown` adds to the closed connections.
pub shutdown_closes :
    (i : ℕ) (out : List Output) (c : Connection)
    → c.rwc ≡ c.chan
    → was_closed i (out ++ (shutdown c).1) ≡ (was_closed i out || names i c.chan)
unfolding shutdown
shutdown_closes i out c e = elim (Option-cases c.rwc) [
  | inl gone ↦ ground (arith, was_closed-append i out [])
  | inr (k, on) ↦ ground (arith, was_closed-append i out (closed k ∷ []))
]

abbrev pub IsPaired : {L : Type 0} → World L → Type 0
IsPaired w = (w.client.rwc ≡ w.client.chan) × (w.server.rwc ≡ w.server.chan)
