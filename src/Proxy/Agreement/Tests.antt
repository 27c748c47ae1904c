-- ===== src/Proxy/Agreement/Tests.antt =====
-- A client that has just said its nick, with the in-memory store.
use irc_idler.Prelude.{[], ◌∷◌, bytes, bytes_eq, one_of, true, All, Option, none, some, refl, sym}
use mathlib.Core.Path.{subst}
use irc_idler.Irc.Message.{Message}
use irc_idler.Irc.Validate.{validate, min_params}
use irc_idler.Irc.Codes.{cmd_nick}
use irc_idler.Storage.Ephemeral.{ephemeral, new_store}
use irc_idler.Storage.Ephemeral.Meets.{ephemeral_laws, ephemeral_stores, new_store_empty}
use irc_idler.Storage.Holds.{Holds}
use irc_idler.State.Handshake
use irc_idler.State.Handshake.{done}
use irc_idler.State.Session.{update_from_client}
use irc_idler.Proxy.World.{◌>>=◌, gets, modify, pure, Env, World}
use irc_idler.Proxy.Link.{drop_client, setup, send_server, update_deadlines}
use irc_idler.Proxy.Client.{handle_client_event, handle_handshake_message, set_client_session}
use irc_idler.Proxy.Run.{
  from_client, client_conn, handle_event, new_proxy, Reachable, start, step, accept_client,
}
use irc_idler.Proxy.Agreement.{IsAgreed, IsQuiet}
use irc_idler.Proxy.Agreement.Reached.{Took, CanStore, Reachable-IsAgreed}

abbrev open_env : Env
open_env = record { store = ephemeral; writes = λ done id m. true; order = λ done names. names }

abbrev or_start : Option (Unit {0} × World open_env.store.State) → World open_env.store.State
or_start none = new_proxy new_store
or_start (some (_, w)) = w

abbrev arrived : World open_env.store.State
arrived = or_start (handle_event open_env (client_conn 1 0 (some 2) 0) (new_proxy new_store))

abbrev nick_msg : Message
nick_msg = record { prefix = []; command = cmd_nick; params = (b'n' ∷ []) ∷ [] }

abbrev named : World open_env.store.State
named = or_start (handle_event open_env (from_client (some nick_msg) 1) arrived)

named-Reachable : Reachable open_env new_store named
unfolding handle_event new_proxy ◌>>=◌ drop_client gets modify pure done setup accept_client
    handle_client_event validate bytes_eq bytes min_params one_of update_from_client send_server
    handle_handshake_message set_client_session update_deadlines Handshake.update_from_client
named-Reachable =
    step (from_client (some nick_msg) 1) (step (client_conn 1 0 (some 2) 0) start tt refl) (1, refl)
      refl

named-Took : Took (CanStore open_env ephemeral_laws) named-Reachable
unfolding named-Reachable
named-Took = (tt, (tt, tt))

empty-Holds : Holds ephemeral_laws IsQuiet new_store
empty-Holds = record {
  sound = ephemeral_stores.0 new_store;
  every = λ k. subst (All IsQuiet) (sym (new_store_empty k)) tt;
}

Reachable-IsAgreed_example : IsAgreed named
Reachable-IsAgreed_example =
    Reachable-IsAgreed open_env ephemeral_laws named-Reachable named-Took empty-Holds
