-- ===== src/Proxy/Threads/Careful.antt =====
-- What the daemon does to the connections that it has closed, under the schedules of Threads.
use mathlib.Core.Path.{subst}
use irc_idler.Prelude.{
  ℕ, suc, ◌≤◌, ◌<◌, ◌==◌, false, Option, none, some, ◌≡◌, refl, arith, Bool-cases, inl, inr,
}
use irc_idler.Proxy.World.{Env, World}
use irc_idler.Proxy.Run.{
  Event, stop, from_client, from_server, tick, client_conn, new_proxy, handle_event,
}
use irc_idler.Proxy.Handlers.{IsIn}
use irc_idler.Proxy.Stable.{any_talk}
use irc_idler.Proxy.Uses.{used_after, IsProper, IsUnknown, unknown-IsProper}
use irc_idler.Proxy.Uses.Events.{
  others_talk, event-IsProper, event-IsUnknown, arrival-IsProper, dialled-IsProper,
}
use irc_idler.Proxy.Threads.{
  System, boot, Step, arrives, reads, fails, accepts, discards, stops, hears_client, client_ends,
  hears_server, server_ends, ticks, takes, dials, here, next, Reached,
}

-- Each connection is used properly, and the daemon has met none whose number is not given out yet,
-- nor the one that waits to be taken.
record IsCareful {L : Type 0} (w : World L) (next_id : ℕ) (accepted : Option ℕ) : Type 0 where
  proper : (i : ℕ) → IsProper i w
  unknown : (i : ℕ) → next_id ≤ i → IsUnknown i w
  apart : (id : ℕ) → accepted ≡ some id → IsUnknown id w × (id < next_id)

module _ (env : Env) where
  open env.store use {State}

  -- An event that brings no connection.
  plain-IsCareful :
      (e : Event) (w : World State) {w' : World State} (n : ℕ) (a : Option ℕ)
      → ((i : ℕ) → IsIn (others_talk i) e)
      → handle_event env e w ≡ some (tt, w')
      → IsCareful w n a
      → IsCareful w' n a
  plain-IsCareful e w n a ok runs h = record {
    proper = λ i. event-IsProper env i e w (ok i) runs (h.proper i);
    unknown = λ i le. event-IsUnknown env i e w (ok i) runs (h.unknown i le);
    apart = λ id eq. let (u, lt) = h.apart id eq in (event-IsUnknown env id e w (ok id) runs u, lt);
  }

  takes-IsCareful :
      (id now later : ℕ) (w : World State) {w' : World State} (n : ℕ)
      → handle_event env (client_conn id now none later) w ≡ some (tt, w')
      → IsCareful w n (some id)
      → IsCareful w' n none
  unfolding others_talk
  takes-IsCareful id now later w {w'} n runs h =
      let (u, lt) = h.apart id refl in
      record {
        proper = λ i. elim (Bool-cases (id == i)) [
          | inl same ↦
              let e : id ≡ i = ground arith in
              subst (λ j. IsProper j w') e (arrival-IsProper env id now none later w tt runs u)
          | inr other ↦ event-IsProper env i _ w (other, tt) runs (h.proper i)
        ];
        unknown = λ i le. event-IsUnknown env i _ w (ground arith, tt) runs (h.unknown i le);
        apart = λ j eq. absurd (cc eq);
      }

  dials-IsCareful :
      (id now later : ℕ) (w : World State) {w' : World State} (n : ℕ)
      → handle_event env (client_conn id now (some n) later) w ≡ some (tt, w')
      → IsCareful w n (some id)
      → IsCareful w' (suc n) none
  unfolding others_talk
  dials-IsCareful id now later w {w'} n runs h =
      let (u, lt) = h.apart id refl in
      record {
        proper = λ i. elim (Bool-cases (id == i)) [
          | inl same ↦
              let e : id ≡ i = ground arith in
              subst (λ j. IsProper j w') e
                (arrival-IsProper env id now (some n) later w (ground arith) runs u)
          | inr other ↦ elim (Bool-cases (n == i)) [
            | inl met ↦
                let e : n ≡ i = ground arith in
                subst (λ j. IsProper j w') e
                  (dialled-IsProper env n id now later w (ground arith) runs
                    (h.unknown n (omega arith)))
            | inr none' ↦ event-IsProper env i _ w (other, none') runs (h.proper i)
          ]
        ];
        unknown = λ i le.
            event-IsUnknown env i _ w (ground arith, ground arith) runs (h.unknown i (omega arith));
        apart = λ j eq. absurd (cc eq);
      }

  abbrev Careful : System State → Type 0
  Careful s = IsCareful s.daemon s.next_id s.accepted

  accepts-IsCareful :
      (s : System State)
      → s.accepted ≡ none
      → Careful s
      → IsCareful s.daemon (suc s.next_id) (some s.next_id)
  accepts-IsCareful s e h = record {
    proper = h.proper;
    unknown = λ i le. h.unknown i (omega arith);
    apart = λ id eq.
        let same : s.next_id ≡ id = cc eq in
        (subst (λ j. IsUnknown j s.daemon) same (h.unknown s.next_id (omega arith)), omega arith);
  }

  Step-IsCareful : {s t : System State} → Step env s t → Careful s → Careful t
  unfolding others_talk any_talk
  Step-IsCareful (arrives i m e) h = h
  Step-IsCareful (reads i m ms e) h = h
  Step-IsCareful (fails i ms e) h = h
  Step-IsCareful {s} (accepts e) h = accepts-IsCareful s e h
  Step-IsCareful (discards i m ms c e) h = h
  Step-IsCareful {s} (stops sel runs) h =
      plain-IsCareful stop s.daemon s.next_id s.accepted (λ i. tt) runs h
  Step-IsCareful {s} (hears_client i m ms now sel c e runs) h =
      plain-IsCareful (from_client (some m) now) s.daemon s.next_id s.accepted (λ i. tt) runs h
  Step-IsCareful {s} (client_ends i now sel c e runs) h =
      plain-IsCareful (from_client none now) s.daemon s.next_id s.accepted (λ i. tt) runs h
  Step-IsCareful {s} (hears_server i m ms now sel c e runs) h =
      plain-IsCareful (from_server (some m) now) s.daemon s.next_id s.accepted (λ i. (tt, tt)) runs
        h
  Step-IsCareful {s} (server_ends i now sel c e runs) h =
      plain-IsCareful (from_server none now) s.daemon s.next_id s.accepted (λ i. tt) runs h
  Step-IsCareful {s} (ticks now later sel runs) h =
      plain-IsCareful (tick now later) s.daemon s.next_id s.accepted (λ i. tt) runs h
  Step-IsCareful {s} (takes id now later sel a runs) h =
      takes-IsCareful id now later s.daemon s.next_id runs
        (subst (IsCareful s.daemon s.next_id) a h)
  Step-IsCareful {s} (dials id now later sel a runs) h =
      dials-IsCareful id now later s.daemon s.next_id runs
        (subst (IsCareful s.daemon s.next_id) a h)

  new_proxy-IsCareful : (logs : State) → IsCareful (new_proxy logs) 0 none
  unfolding new_proxy
  new_proxy-IsCareful logs =
      let u : (i : ℕ) → IsUnknown i (new_proxy logs) = λ i. ground arith in
      record {
        proper = λ i. unknown-IsProper i (new_proxy logs) (u i);
        unknown = λ i le. u i;
        apart = λ id eq. absurd (cc eq);
      }

  Reached-IsCareful : (logs : State) {s : System State} → Reached env logs s → Careful s
  unfolding boot
  Reached-IsCareful logs here = new_proxy-IsCareful logs
  Reached-IsCareful logs (next r st) = Step-IsCareful st (Reached-IsCareful logs r)

  -- Under any schedule of the goroutines, with any store, any outcome of the writes and any map
  -- order, the daemon does nothing to a connection behind its Close.
  pub no_use_after_close :
      (logs : State) {s : System State} (i : ℕ)
      → Reached env logs s
      → used_after i s.daemon.out ≡ false
  no_use_after_close logs i r = ((Reached-IsCareful logs r).proper i).unused
