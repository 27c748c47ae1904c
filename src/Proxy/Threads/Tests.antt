-- ===== src/Proxy/Threads/Tests.antt =====
-- A client that connects and says its nick, and a daemon that is stopped meanwhile.
use irc_idler.Prelude.{◌<◌, [], ◌∷◌, true, false, Option, none, some, ◌≡◌, ◌⊎◌, refl}
use irc_idler.Irc.Message.{Message}
use irc_idler.Irc.Codes.{cmd_nick}
use irc_idler.Storage.Ephemeral.{ephemeral, new_store}
use irc_idler.State.Handshake.{done}
use irc_idler.Proxy.World.{◌>>=◌, gets, modify, pure, Env, World}
use irc_idler.Proxy.Link.{drop_client, setup, reset}
use irc_idler.Proxy.Run.{
  stop, client_conn, handle_event, new_proxy, accept_client, set_client, set_server,
}
use irc_idler.Proxy.Held.{was_closed}
use irc_idler.Proxy.Threads.{
  System, boot, ended, arrived, begun, Step, arrives, reads, accepts, dials, Runs, here, next,
  Reached, IsDrained, stops,
}
use irc_idler.Proxy.Uses.{used_after}
use irc_idler.Proxy.Threads.Careful.{no_use_after_close}
use irc_idler.Proxy.Threads.Leaks.{live, no_leak}
use irc_idler.Proxy.Threads.Draining.{effort, shutdown_returns}

abbrev open_env : Env
open_env = record { store = ephemeral; writes = λ done id m. true; order = λ done names. names }

abbrev Threads : Type 0
Threads = System open_env.store.State

abbrev or_start : Option (Unit {0} × World open_env.store.State) → World open_env.store.State
or_start none = new_proxy new_store
or_start (some (_, w)) = w

abbrev served : World open_env.store.State
served = or_start (handle_event open_env (client_conn 0 5 (some 1) 6) (new_proxy new_store))

abbrev halted : World open_env.store.State
halted = or_start (handle_event open_env stop served)

abbrev nick_msg : Message
nick_msg = record { prefix = []; command = cmd_nick; params = (b'n' ∷ []) ∷ [] }

nothing_closed : (s : Threads) → s.daemon.out ≡ [] → IsDrained s
nothing_closed s e j c = absurd (cc (e, c))

-- The client's message waits to be received.
speaking :
    (s : Threads) × Reached open_env new_store s
    × (s.daemon ≡ served)
    × (live (s.loops 0) ≡ true)
    × (s.daemon.out ≡ [])
    × (s.running ≡ true)
unfolding boot handle_event new_proxy ◌>>=◌ drop_client gets modify pure done setup accept_client
    set_client set_server arrived begun live
speaking = (
  _,
  next
      (next (next (next here (accepts refl)) (dials 0 5 6 (refl, λ j c. absurd (cc c)) refl refl))
        (arrives 0 nick_msg refl))
      (reads 0 nick_msg [] refl),
  refl,
  refl,
  refl,
  refl,
)

no_leak_example :
    (speaking.0.running ≡ true)
    × ((speaking.0.daemon.client.chan ≡ some 0) ⊎ (speaking.0.daemon.server.chan ≡ some 0))
no_leak_example =
    no_leak open_env new_store {s = speaking.0} 0 speaking.1 (nothing_closed speaking.0 speaking.4)
      speaking.3

-- The daemon has been stopped, and waits for the client's goroutine.
abbrev halting : Threads
halting = record (speaking.0) { daemon = halted; running = false }

halted_closed : was_closed 0 halted.out ≡ true
unfolding handle_event new_proxy ◌>>=◌ drop_client gets modify pure done setup accept_client
    set_client set_server reset
halted_closed = refl

shutdown_returns_example :
    ((t : Threads)
      → Step open_env halting t
      → (t.daemon ≡ halted)
        × ((t.loops 0 ≡ halting.loops 0) ⊎ (effort (t.loops 0) < effort (halting.loops 0))))
    × ((t : Threads) × Runs open_env halting t × (t.daemon ≡ halted) × (t.loops 0 ≡ ended))
shutdown_returns_example = shutdown_returns open_env 0 halting halted_closed speaking.3

stopped : (s : Threads) × Reached open_env new_store s × (s.daemon ≡ halted)
unfolding handle_event new_proxy ◌>>=◌ drop_client gets modify pure done setup accept_client
    set_client set_server reset speaking
stopped =
    let step : Step open_env speaking.0 (record (speaking.0) { daemon = halted; running = false }) =
      stops (refl, nothing_closed speaking.0 speaking.4) refl in
    (_, next speaking.1 step, refl)

no_use_after_close_example : used_after 0 stopped.0.daemon.out ≡ false
no_use_after_close_example = no_use_after_close open_env new_store {s = stopped.0} 0 stopped.1
