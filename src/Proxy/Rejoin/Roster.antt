-- ===== src/Proxy/Rejoin/Roster.antt =====
-- The names and the log that a client is told when it joins again.
use irc_idler.Prelude.{
  ℕ, List, [], ◌∷◌, All, Bytes, bytes, Bool, some, ◌≡◌, refl, sym, inl, inr, ◌⊎◌, if◌then◌else◌,
}
use mathlib.Core.Path.{subst}
use irc_idler.Irc.Message.{Message}
use irc_idler.Irc.Codes.{rpl_endofnames}
use irc_idler.State.Session.Total.{IsIndexable}
use irc_idler.State.Session.{get_channel}
use irc_idler.State.Channel.{users}
use irc_idler.Proxy.World.{Env, World, ◌>>=◌, pure, gets, modify}
use irc_idler.Proxy.World.Runs.{bind_runs}
use irc_idler.Proxy.Link.{send_client}
use irc_idler.Proxy.Client.{message, touch_client, send_names, send_roster, set_client_session}
use irc_idler.Proxy.Sends.{IsOpen}
use irc_idler.Proxy.Sends.Each.{AllSent, IsCut, behind-IsCut, before-IsCut}
use irc_idler.Storage.Laws.{StoreLaws}
use irc_idler.Proxy.Log.{replay_log}
use irc_idler.Proxy.Replay.{replay_log_lem}
use irc_idler.Proxy.Replay.Ends.{IsReplayed, IsKept}
use irc_idler.Proxy.NoPanic.Messages.{endofnames-IsIndexable}
use irc_idler.Proxy.Rejoin.Lines.{
  name_lines, roster_lines, send_client-Sending, send_names_lem, AllSent-append,
}

module _ (env : Env) (laws : StoreLaws env.store) where
  open env.store use {State}
  open laws use {contents, IsSound}

  -- The log was replayed behind what was told, or the client is gone and no log has changed.
  abbrev pub Replayed : ℕ → Bytes → List Message → World State → World State → Type 0
  Replayed id name ms w w' = IsReplayed env laws id name ms w w' ⊎ IsKept env laws id ms w w'

  replay_log-Replayed :
      (id : ℕ) (name : Bytes) (w w1 : World State)
      → w1.logs ≡ w.logs
      → IsOpen id w1
      → IsSound w.logs
      → All IsIndexable (contents w.logs name)
      → (w' : World State) × (replay_log env name w1 ≡ some (tt, w'))
        × Replayed id name (contents w.logs name) w1 w'
  replay_log-Replayed id name w w1 same is_open sound ok =
      let (w', runs, out) =
        replay_log_lem env laws id name w1 (subst IsSound (sym same) sound) is_open
          (subst (λ (s : State). All IsIndexable (contents s name)) (sym same) ok) in
      (w', runs, subst (λ (s : State). Replayed id name (contents s name) w1 w') same out)

  touched :
      (id : ℕ) (name : Bytes) (ms : List Message) (w w1 : World State)
      → AllSent env id ms (touch_client name w) w1
      → AllSent env id ms w w1
  unfolding touch_client
  touched id name ms w w1 a = record {
    written = a.written;
    same_server = a.same_server;
    same_prefix = a.same_prefix;
    same_logs = a.same_logs;
    pre_log_taken = a.pre_log_taken;
    still_open = a.still_open;
  }

  touched-IsCut :
      (id : ℕ) (name : Bytes) (ms : List Message) (w : World State) {w1 : World State}
      → IsCut env id ms (touch_client name w) w1
      → IsCut env id ms w w1
  unfolding touch_client
  touched-IsCut id name ms w c = record {
    sent = c.sent;
    missed = c.missed;
    unsent = c.unsent;
    split = c.split;
    closings = c.closings;
    written = c.written;
    gone = c.gone;
    same_logs = c.same_logs;
  }

  pub send_roster_lem :
      (id : ℕ) (name : Bytes) (w : World State)
      → IsOpen id w
      → IsSound w.logs
      → All IsIndexable (contents w.logs name)
      → (w' : World State) × (send_roster env name w ≡ some (tt, w'))
        × (((w1 : World State) × AllSent env id (roster_lines env name w) w w1
              × Replayed id name (contents w.logs name) w1 w')
            ⊎ IsCut env id (roster_lines env name w) w w')
  unfolding send_roster roster_lines gets modify ◌>>=◌ pure touch_client set_client_session
  send_roster_lem id name w is_open sound ok =
      let me = w.server.session.client_id.nick in
      let w0 = touch_client name w in
      let nicks = env.order w.out (users (get_channel name w.pre_log.channels)) in
      let last =
        message w.server_prefix rpl_endofnames (me ∷ name ∷ bytes "End of NAMES list" ∷ []) in
      let close = λ (sent : Bool). if sent then replay_log env name else pure tt in
      let f = λ (listed : Bool). if listed then (send_client env last >>= close) else pure tt in
      elim (send_names_lem env id name me nicks w0 is_open) [
        | inl (w1, runs, a) ↦
            let b = touched id name (name_lines w.server_prefix name me nicks) w w1 a in
            elim (send_client-Sending env id last w1
              (endofnames-IsIndexable w.server_prefix (me ∷ name ∷ bytes "End of NAMES list" ∷ []))
              b.still_open) [
                | inl (w2, runs2, c) ↦
                    let all =
                      AllSent-append env id (name_lines w.server_prefix name me nicks) (last ∷ []) w
                        w1 w2 b c in
                    let (w', runs3, out) =
                      replay_log-Replayed id name w w2 all.same_logs all.still_open sound ok in
                    (
                      w',
                      bind_runs (send_names env name me nicks) f w0 runs
                          (bind_runs (send_client env last) close w1 runs2 runs3),
                      inl (w2, all, out),
                    )
                | inr (w2, runs2, cut) ↦ (
                  w2,
                  bind_runs (send_names env name me nicks) f w0 runs
                      (bind_runs (send_client env last) close w1 runs2 refl),
                  inr (
                      behind-IsCut env id (name_lines w.server_prefix name me nicks) (last ∷ []) w
                        w1 b.written b.same_logs cut),
                )
              ]
        | inr (w1, runs, cut) ↦ (
          w1,
          bind_runs (send_names env name me nicks) f w0 runs refl,
          inr (
              before-IsCut env id (name_lines w.server_prefix name me nicks) (last ∷ []) w
                (touched-IsCut id name (name_lines w.server_prefix name me nicks) w cut)),
        )
      ]
