-- ===== src/Proxy/NoPanic/Events.antt =====
-- The events of the loop of `Run`, and sequences of them, by the rules of Completes.
use irc_idler.Prelude.{
  ℕ, ◌≤◌, List, [], ◌∷◌, All, one_of, true, Option, none, some, ◌≡◌, refl, length,
}
use irc_idler.Irc.Message.{Message}
use irc_idler.Irc.Codes.{cmd_kick, cmd_part}
use irc_idler.Storage.Laws.{StoreLaws}
use irc_idler.Proxy.World.{Env, World, Proc}
use irc_idler.Proxy.World.Completes.{
  Ends, Completes, Completes-bind, Completes-pure, Completes-gets, Completes-either,
  Completes-modify,
}
use irc_idler.Proxy.Run
use irc_idler.Proxy.Run.{
  Event, stop, from_client, from_server, tick, client_conn, new_proxy, handle_event,
}
use irc_idler.Proxy.NoPanic.Steps.{
  CanReplay, IsFine, send_client-Completes, send_server-Completes, drop_client-Completes,
  reset-Completes,
}
use irc_idler.Proxy.NoPanic.Messages.{ping-IsIndexable}
use irc_idler.Proxy.NoPanic.ClientSide.{handle_client_event-Completes}
use irc_idler.Proxy.NoPanic.ServerSide.{handle_server_event-Completes, server_end-Completes}

module _ (env : Env) (laws : StoreLaws env.store) where
  open env.store use {State}
  open laws use {contents, IsSound, Storable}

  abbrev Fine : World State → Type 0
  Fine = IsFine env laws

  -- What is asked of the server's messages: the store takes them, and a KICK or PART, for which
  -- `Validate` asks none, has a parameter.
  pub data CanTake : Event → Type 0 where
    stops : CanTake stop
    of_client : (o : Option Message) (now : ℕ) → CanTake (from_client o now)
    server_end : (now : ℕ) → CanTake (from_server none now)
    of_server :
        (m : Message) (now : ℕ)
        → (one_of m.command (cmd_kick ∷ cmd_part ∷ []) ≡ true → 1 ≤ length m.params)
        → Storable m
        → CanTake (from_server (some m) now)
    ticks : (now later : ℕ) → CanTake (tick now later)
    accepts :
        (id now : ℕ) (dialled : Option ℕ) (later : ℕ) → CanTake (client_conn id now dialled later)

  check_client-Completes : (now : ℕ) (v : Run.Verdict) → Completes Fine (Run.check_client env now v)
  unfolding Run.check_client Run.set_client
  check_client-Completes now Run.nothing = Completes-pure tt
  check_client-Completes now Run.drop_it = drop_client-Completes env laws
  check_client-Completes now Run.ping_it =
      Completes-bind _ _ (send_client-Completes env laws _ (ping-IsIndexable [] _))
        (λ _. Completes-modify _ (λ w h. h))

  check_server-Completes : (now : ℕ) (v : Run.Verdict) → Completes Fine (Run.check_server env now v)
  unfolding Run.check_server Run.set_server
  check_server-Completes now Run.nothing = Completes-pure tt
  check_server-Completes now Run.drop_it = reset-Completes env laws
  check_server-Completes now Run.ping_it =
      Completes-bind _ _ (send_server-Completes env laws _) (λ _. Completes-modify _ (λ w h. h))

  tick-Completes : (now later : ℕ) → Completes Fine (handle_event env (tick now later))
  unfolding handle_event Run.client_timeout Run.server_timeout
  tick-Completes now later =
      Completes-bind _ _
        (Completes-bind _ _ (Completes-gets (λ w. w)) (λ w. check_client-Completes now _))
        (λ _. Completes-bind _ _ (Completes-gets (λ w. w)) (λ w. check_server-Completes later _))

  connected-Completes :
      (dialled : Option ℕ) (now : ℕ) → Completes Fine (Run.connected env dialled now)
  unfolding Run.connected Run.set_server
  connected-Completes none now = drop_client-Completes env laws
  connected-Completes (some id) now = Completes-modify _ (λ w h. h)

  accept-Completes :
      (id now : ℕ) (dialled : Option ℕ) (later : ℕ)
      → Completes Fine (handle_event env (client_conn id now dialled later))
  unfolding handle_event Run.accept_client Run.set_client
  accept-Completes id now dialled later = Completes-bind _ _ (drop_client-Completes env laws) (λ _.
      Completes-bind _ _ (Completes-modify _ (λ w h. h)) (λ _.
        Completes-bind _ _ (Completes-gets (λ w. w))
          (λ w. Completes-either _ _ _ (connected-Completes dialled later) (Completes-pure tt))))

  handle_event-Completes : (e : Event) → CanTake e → Completes Fine (handle_event env e)
  unfolding handle_event Run.set_client Run.set_server
  handle_event-Completes stop stops = reset-Completes env laws
  handle_event-Completes e (of_client o now) =
      Completes-bind _ _ (Completes-modify _ (λ w h. h))
        (λ _. handle_client_event-Completes env laws o)
  handle_event-Completes e (server_end now) =
      Completes-bind _ _ (Completes-modify _ (λ w h. h)) (λ _. server_end-Completes env laws)
  handle_event-Completes e (of_server m now asked fits) =
      Completes-bind _ _ (Completes-modify _ (λ w h. h))
        (λ _. handle_server_event-Completes env laws m asked fits)
  handle_event-Completes e (ticks now later) = tick-Completes now later
  handle_event-Completes e (accepts id now dialled later) = accept-Completes id now dialled later

  next-Completes :
      (e : Event) (rest : Proc State Unit)
      → Completes Fine (handle_event env e)
      → Completes Fine rest
      → Completes Fine (Run.next_round env e rest)
  unfolding Run.next_round
  next-Completes stop rest ke kr = ke
  next-Completes (from_client o now) rest ke kr = Completes-bind _ _ ke (λ _. kr)
  next-Completes (from_server o now) rest ke kr = Completes-bind _ _ ke (λ _. kr)
  next-Completes (tick now later) rest ke kr = Completes-bind _ _ ke (λ _. kr)
  next-Completes (client_conn id now dialled later) rest ke kr = Completes-bind _ _ ke (λ _. kr)

  run-Completes : (es : List Event) → All CanTake es → Completes Fine (Run.run env es)
  unfolding Run.run
  run-Completes [] ok = Completes-pure tt
  run-Completes (e ∷ es) (first, others) =
      next-Completes e (Run.run env es) (handle_event-Completes e first) (run-Completes es others)

  ended :
      (r : Option (Unit {0} × World State))
      → Ends Fine r
      → (w : World State) × (r ≡ some (tt, w)) × CanReplay env laws w.logs
  ended none h = absurd h
  ended (some (_, w)) h = (w, refl, h)

  -- The loop of Run does not panic through any sequence of events, with any store that keeps its
  -- laws, any outcome of the writes and any map order: it starts from sound logs whose messages
  -- have the parameters that a session reads, and each message of the server is one that the
  -- store can store and, if it is a KICK or PART, has a parameter. The logs behind the run are
  -- such logs again.
  pub run_never_panics :
      (es : List Event) (w : World State)
      → All CanTake es
      → CanReplay env laws w.logs
      → (w' : World State) × (Run.run env es w ≡ some (tt, w')) × CanReplay env laws w'.logs
  run_never_panics es w ok h = ended (Run.run env es w) ((run-Completes es ok).at w h)
