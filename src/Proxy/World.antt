-- ===== src/Proxy/World.antt =====
-- The state of a `Proxy` and what its code meets outside itself.
pub mod Keeps
pub mod Completes
pub mod Runs
pub mod SameLogs
use irc_idler.Prelude.{
  ℕ, List, [], ◌∷◌, ◌++◌, Bytes, Bool, true, false, Option, none, some, get_elem?, ◌&&◌, ◌||◌, not,
}
use irc_idler.Irc.Message.{Message}
use irc_idler.State.Session.{Session, new_session}
use irc_idler.Storage.{Store}

-- What the daemon does to its connections, in order. A connection goes by a number.
pub data Output : Type 0 where
  wrote : ℕ → Message → Output
  write_failed : ℕ → Message → Output
  closed : ℕ → Output

-- The store, the outcome of each `WriteMessage` by what was done before (`true` if it returns no
-- error), and the order in which Go goes through the names of a map.
pub record Env : Type 1 where
  pub store : Store
  pub writes : List Output → ℕ → Message → Bool
  pub order : List Output → List Bytes → List Bytes

pub record Connection : Type 0 where
  pub rwc : Option ℕ
  pub chan : Option ℕ
  pub session : Session
  pub drop_deadline : ℕ
  pub ping_deadline : ℕ
  pub ping_sent : Bool

abbrev pub empty_connection : Connection
empty_connection = record {
  rwc = none;
  chan = none;
  session = new_session;
  drop_deadline = 0;
  ping_deadline = 0;
  ping_sent = false;
}

-- The fields of `Proxy` that change, with the log store's state and the outputs so far.
pub record World (Logs : Type 0) : Type 0 where
  pub client : Connection
  pub server : Connection
  pub logs : Logs
  pub pre_log : Session
  pub have_msg_cache : Bool
  pub yourhost : Bytes
  pub created : Bytes
  pub myinfo : List Bytes
  pub server_prefix : Bytes
  pub out : List Output

-- Code that changes the proxy and may panic.
abbrev pub Proc : Type 0 → Type 0 → Type 0
Proc L A = World L → Option (A × World L)

module _ {L A B : Type 0} where
  abbrev pub and_then : Option (A × World L) → (A → Proc L B) → Option (B × World L)
  and_then none f = none
  and_then (some (a, w)) f = f a w

  infixl 5 ◌>>=◌ ◌>>◌
  unfoldable pub ◌>>=◌ : Proc L A → (A → Proc L B) → Proc L B
  ◌>>=◌ p f w = and_then (p w) f

  abbrev pub ◌>>◌ : Proc L A → Proc L B → Proc L B
  p >> q = p >>= λ _. q

module _ {L A : Type 0} where
  unfoldable pub pure : A → Proc L A
  pure a w = some (a, w)

  unfoldable pub gets : (World L → A) → Proc L A
  gets f w = some (f w, w)

module _ {L : Type 0} where
  unfoldable pub modify : (World L → World L) → Proc L Unit
  modify f w = some (tt, f w)

  with_param : Option Bytes → Proc L Bytes
  with_param none w = none
  with_param (some p) w = some (p, w)

  -- `msg.Params[i]`.
  unfoldable pub param : Message → ℕ → Proc L Bytes
  unfolding with_param
  param m i = with_param (get_elem? m.params i)
