-- ===== src/Proxy/Sends/Each.antt =====
-- A list of messages sent to a connected client.
use irc_idler.Prelude.{
  ℕ, List, [], ◌∷◌, ◌++◌, map, append_assoc, append-nil, All, Bool, true, false, Option, none, some,
  ◌≡◌, refl, sym, ap, ◌∙◌, inl, inr, ◌⊎◌, if◌then◌else◌,
}
use irc_idler.Irc.Message.{Message}
use mathlib.Core.List.{map-append}
use irc_idler.State.Session.{Session, update_from_server}
use irc_idler.State.Session.Total.{IsIndexable}
use irc_idler.Proxy.World.{Output, wrote, write_failed, closed, Env, World, pure}
use irc_idler.Proxy.World.Runs.{bind_runs}
use irc_idler.Proxy.Link.{send_client}
use irc_idler.Proxy.Client.{send_each}
use irc_idler.Proxy.Sends.{IsOpen, IsSent, IsDropped, send_client-cases}

-- A session takes in messages, one after the other.
pub data Takes : List Message → Session → Session → Type 0 where
  nothing : {s : Session} → Takes [] s s
  takes :
      {m : Message} {ms : List Message} {s t u : Session}
      → update_from_server m s ≡ some t
      → Takes ms t u
      → Takes (m ∷ ms) s u

pub Takes-append :
    (ms ns : List Message) {s t u : Session} → Takes ms s t → Takes ns t u → Takes (ms ++ ns) s u
Takes-append [] ns nothing more = more
Takes-append (m ∷ ms) ns (takes e rest) more = takes e (Takes-append ms ns rest more)

module _ (env : Env) where
  open env.store use {State}

  -- All of `ms` were written, in order.
  pub record AllSent (id : ℕ) (ms : List Message) (w w' : World State) : Type 0 where
    pub written : w'.out ≡ w.out ++ map (wrote id) ms
    pub same_server : w'.server ≡ w.server
    pub same_prefix : w'.server_prefix ≡ w.server_prefix
    pub same_logs : w'.logs ≡ w.logs
    pub pre_log_taken : Takes ms w.pre_log w'.pre_log
    pub still_open : IsOpen id w'

  -- Some of `ms` were written, in order, the write of the next one failed, and the client's
  -- connection was closed.
  pub record IsCut (id : ℕ) (ms : List Message) (w w' : World State) : Type 0 where
    pub sent : List Message
    pub missed : Message
    pub unsent : List Message
    pub split : ms ≡ sent ++ missed ∷ unsent
    pub closings : List Output
    pub written :
        w'.out ≡ (w.out ++ map (wrote id) sent) ++ write_failed id missed ∷ closed id ∷ closings
    pub gone : w'.client.rwc ≡ none
    pub same_logs : w'.logs ≡ w.logs

  pub dropped-IsCut :
      (id : ℕ) (m : Message) (ms : List Message) (w : World State) (d : IsDropped env id m w)
      → IsCut id (m ∷ ms) w d.after
  dropped-IsCut id m ms w d = record {
    sent = [];
    missed = m;
    unsent = ms;
    split = refl;
    closings = d.closings;
    written =
        d.written
        ∙ ap (λ (o : List Output). o ++ write_failed id m ∷ closed id ∷ d.closings)
            (sym (append-nil w.out));
    gone = d.gone;
    same_logs = d.same_logs;
  }

  -- A cut behind messages that were written, and one before messages that are not sent.
  pub behind-IsCut :
      (id : ℕ) (ms ns : List Message) (w w1 : World State) {w' : World State}
      → w1.out ≡ w.out ++ map (wrote id) ms
      → w1.logs ≡ w.logs
      → IsCut id ns w1 w'
      → IsCut id (ms ++ ns) w w'
  behind-IsCut id ms ns w w1 written same c = record {
    sent = ms ++ c.sent;
    missed = c.missed;
    unsent = c.unsent;
    split =
        ap (λ (l : List Message). ms ++ l) c.split
        ∙ sym (append_assoc ms c.sent (c.missed ∷ c.unsent));
    closings = c.closings;
    written =
        c.written
        ∙ ap (λ (o : List Output). o ++ write_failed id c.missed ∷ closed id ∷ c.closings)
            (ap (λ (o : List Output). o ++ map (wrote id) c.sent) written
              ∙ append_assoc w.out (map (wrote id) ms) (map (wrote id) c.sent)
              ∙ ap (λ (o : List Output). w.out ++ o) (sym (map-append (wrote id) ms c.sent)));
    gone = c.gone;
    same_logs = c.same_logs ∙ same;
  }

  pub before-IsCut :
      (id : ℕ) (ms ns : List Message) (w : World State) {w' : World State}
      → IsCut id ms w w'
      → IsCut id (ms ++ ns) w w'
  before-IsCut id ms ns w c = record {
    sent = c.sent;
    missed = c.missed;
    unsent = c.unsent ++ ns;
    split =
        ap (λ (l : List Message). l ++ ns) c.split ∙ append_assoc c.sent (c.missed ∷ c.unsent) ns;
    closings = c.closings;
    written = c.written;
    gone = c.gone;
    same_logs = c.same_logs;
  }

  abbrev pub Sending : ℕ → List Message → World State → Option (Bool × World State) → Type 0
  Sending id ms w r =
      ((w' : World State) × (r ≡ some (true, w')) × AllSent id ms w w')
      ⊎ ((w' : World State) × (r ≡ some (false, w')) × IsCut id ms w w')

  pub behind_sent :
      (id : ℕ) (m : Message) (ms : List Message) (w : World State) (s : IsSent env id m w)
      {r r' : Option (Bool × World State)}
      → r' ≡ r
      → Sending id ms s.after r
      → Sending id (m ∷ ms) w r'
  behind_sent id m ms w s e (inl (w', runs, a)) = inl (
    w',
    e ∙ runs,
    record {
      written =
          a.written
          ∙ ap (λ (o : List Output). o ++ map (wrote id) ms) s.written
          ∙ append_assoc w.out (wrote id m ∷ []) (map (wrote id) ms);
      same_server = a.same_server ∙ s.same_server;
      same_prefix = a.same_prefix ∙ s.same_prefix;
      same_logs = a.same_logs ∙ s.same_logs;
      pre_log_taken = takes s.pre_log_taken a.pre_log_taken;
      still_open = a.still_open;
    },
  )
  behind_sent id m ms w s e (inr (w', runs, c)) =
      inr (w', e ∙ runs, behind-IsCut id (m ∷ []) ms w s.after s.written s.same_logs c)

  pub send_each_lem :
      (id : ℕ) (ms : List Message) (w : World State)
      → IsOpen id w
      → All IsIndexable ms
      → Sending id ms w (send_each env ms w)
  unfolding send_each pure
  send_each_lem id [] w is_open ok = inl (
    w,
    refl,
    record {
      written = sym (append-nil w.out);
      same_server = refl;
      same_prefix = refl;
      same_logs = refl;
      pre_log_taken = nothing;
      still_open = is_open;
    },
  )
  send_each_lem id (m ∷ ms) w is_open (first, others) =
      let f = λ (sent : Bool). if sent then send_each env ms else pure false in
      elim (send_client-cases env id m w first is_open) [
        | inl s ↦
            behind_sent id m ms w s (bind_runs (send_client env m) f w s.runs refl)
              (send_each_lem id ms s.after s.still_open others)
        | inr d ↦
            inr (d.after, bind_runs (send_client env m) f w d.runs refl, dropped-IsCut id m ms w d)
      ]
