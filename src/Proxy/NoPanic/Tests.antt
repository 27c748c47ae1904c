-- ===== src/Proxy/NoPanic/Tests.antt =====
-- A run of the loop with the in-memory store.
use irc_idler.Prelude.{List, [], ◌∷◌, bytes, bytes_eq, All, none, some, ◌≡◌, arith, sym}
use mathlib.Core.Path.{subst}
use irc_idler.State.Session.Total.{IsIndexable}
use irc_idler.Irc.Message.{Message}
use irc_idler.Storage.Ephemeral.{ephemeral, new_store}
use irc_idler.Storage.Ephemeral.Meets.{ephemeral_laws, ephemeral_stores, new_store_empty}
use irc_idler.Proxy.World.{Env, World}
use irc_idler.Proxy.Run
use irc_idler.Proxy.Run.{Event, stop, from_client, from_server, tick, client_conn, new_proxy}
use irc_idler.Proxy.NoPanic.Steps.{CanReplay}
use irc_idler.Proxy.NoPanic.Events.{
  CanTake, stops, of_client, server_end, of_server, ticks, accepts, run_never_panics,
}

-- Only pings can be written.
abbrev weary : Env
weary = record {
  store = ephemeral;
  writes = λ done id m. bytes_eq m.command (bytes "PING");
  order = λ done names. names;
}

abbrev kick : Message
kick = record {
  prefix = b'n' ∷ [];
  command = bytes "KICK";
  params = (b'#' ∷ b'c' ∷ []) ∷ (b'm' ∷ []) ∷ [];
}

abbrev day : List Event
day =
    client_conn 1 0 (some 2) 1
    ∷ from_client (some kick) 2
    ∷ from_server (some kick) 3
    ∷ tick 4 5
    ∷ from_client none 6
    ∷ from_server none 7
    ∷ stop
    ∷ []

day-CanTake : All (CanTake weary ephemeral_laws) day
day-CanTake = (
  accepts 1 0 (some 2) 1,
  (
    of_client (some kick) 2,
    (
      of_server kick 3 (λ e. omega arith) (ephemeral_stores.1 kick),
      (ticks 4 5, (of_client none 6, (server_end 7, (stops, tt)))),
    ),
  ),
)

empty-CanReplay : CanReplay weary ephemeral_laws new_store
empty-CanReplay = record {
  sound = ephemeral_stores.0 new_store;
  every = λ k. subst (All IsIndexable) (sym (new_store_empty k)) tt;
}

run_never_panics_example :
    (w' : World weary.store.State) × (Run.run weary day (new_proxy new_store) ≡ some (tt, w'))
    × CanReplay weary ephemeral_laws w'.logs
unfolding new_proxy
run_never_panics_example =
    run_never_panics weary ephemeral_laws day (new_proxy new_store) day-CanTake empty-CanReplay
