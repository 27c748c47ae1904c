-- ===== src/Proxy/Uses.antt =====
-- The use of a connection behind its Close: a write, or a second Close.
pub mod Steps
pub mod Arrivals
pub mod Events
use irc_idler.Prelude.{
  ℕ, ◌==◌, List, [], ◌∷◌, ◌++◌, Bool, true, false, ◌||◌, ◌&&◌, Option, some, none, ◌≡◌, refl, arith,
  Option-cases, inl, inr, if◌then◌else◌,
}
use irc_idler.Irc.Message.{Message}
use irc_idler.Proxy.World.{Output, wrote, write_failed, closed, Connection, World}
use irc_idler.Proxy.Link.{shutdown}
use irc_idler.Proxy.Held.{names, was_closed, was_closed-append}

-- Something is done to the connection.
abbrev pub mentions : ℕ → List Output → Bool
mentions i [] = false
mentions i (wrote j m ∷ out) = j == i || mentions i out
mentions i (write_failed j m ∷ out) = j == i || mentions i out
mentions i (closed j ∷ out) = j == i || mentions i out

-- Something is done to it behind its `Close`.
abbrev pub used_after : ℕ → List Output → Bool
used_after i [] = false
used_after i (wrote j m ∷ out) = used_after i out
used_after i (write_failed j m ∷ out) = used_after i out
used_after i (closed j ∷ out) = (j == i && mentions i out) || used_after i out

mentions-append :
    (i : ℕ) (xs ys : List Output) → mentions i (xs ++ ys) ≡ (mentions i xs || mentions i ys)
mentions-append i [] ys = refl
mentions-append i (wrote j m ∷ xs) ys = ground (arith, mentions-append i xs ys)
mentions-append i (write_failed j m ∷ xs) ys = ground (arith, mentions-append i xs ys)
mentions-append i (closed j ∷ xs) ys = ground (arith, mentions-append i xs ys)

pub used_after-append :
    (i : ℕ) (xs ys : List Output)
    → used_after i (xs ++ ys)
      ≡ (used_after i xs || (was_closed i xs && mentions i ys) || used_after i ys)
used_after-append i [] ys = refl
used_after-append i (wrote j m ∷ xs) ys = used_after-append i xs ys
used_after-append i (write_failed j m ∷ xs) ys = used_after-append i xs ys
used_after-append i (closed j ∷ xs) ys =
    ground (arith, used_after-append i xs ys, mentions-append i xs ys)

-- What was not closed was not used afterwards.
pub used_after-open :
    (i : ℕ) (out : List Output) → was_closed i out ≡ false → used_after i out ≡ false
used_after-open i [] h = refl
used_after-open i (wrote j m ∷ out) h = used_after-open i out h
used_after-open i (write_failed j m ∷ out) h = used_after-open i out h
used_after-open i (closed j ∷ out) h = ground (arith, used_after-open i out)

-- What `shutdown` adds to the uses of closed connections.
pub shutdown_uses :
    (i : ℕ) (out : List Output) (c : Connection)
    → c.rwc ≡ c.chan
    → used_after i (out ++ (shutdown c).1)
      ≡ (used_after i out || (was_closed i out && names i c.chan))
unfolding shutdown
shutdown_uses i out c e = elim (Option-cases c.rwc) [
  | inl gone ↦ ground (arith, used_after-append i out [])
  | inr (k, on) ↦ ground (arith, used_after-append i out (closed k ∷ []))
]

-- The connection was not used behind its `Close`; if it was closed, it is neither the client's nor
-- the server's, and in any case not both.
pub record IsProper {L : Type 0} (i : ℕ) (w : World L) : Type 0 where
  pub client_paired : w.client.rwc ≡ w.client.chan
  pub server_paired : w.server.rwc ≡ w.server.chan
  pub unused : used_after i w.out ≡ false
  pub gone_client : was_closed i w.out ≡ true → names i w.client.chan ≡ false
  pub gone_server : was_closed i w.out ≡ true → names i w.server.chan ≡ false
  pub once : (names i w.client.chan && names i w.server.chan) ≡ false

-- The daemon has not met the connection.
pub record IsUnknown {L : Type 0} (i : ℕ) (w : World L) : Type 0 where
  pub client_paired : w.client.rwc ≡ w.client.chan
  pub server_paired : w.server.rwc ≡ w.server.chan
  pub not_client : names i w.client.chan ≡ false
  pub not_server : names i w.server.chan ≡ false
  pub not_closed : was_closed i w.out ≡ false

pub unknown-IsProper : {L : Type 0} (i : ℕ) (w : World L) → IsUnknown i w → IsProper i w
unknown-IsProper i w h = ground (arith, used_after-open i w.out)
