-- ===== src/State/Session/Effects.antt =====
-- What a server's message does to the parts of a session.
use irc_idler.Prelude.{some, ◌≡◌, arith, Bool-cases, inl, inr}
use irc_idler.Irc.Message.{Message}
use irc_idler.State.Handshake
use irc_idler.State.Session.{
  Session, update_channels, update_own, tracked, finish_update, update_from_server, is_me,
}
use irc_idler.Prelude.Maybe.{>>=-eq-some}

own_handshake :
    (m : Message) (s : Session) {s' : Session}
    → update_own m s ≡ some s'
    → s'.handshake ≡ s.handshake
unfolding update_own
own_handshake m s h = ground arith

finish_handshake :
    (m : Message) (s : Session) {s' : Session}
    → finish_update m s ≡ some s'
    → s'.handshake ≡ s.handshake
unfolding finish_update
finish_handshake m s {s'} h = elim (Bool-cases (is_me m.prefix s)) [
  | inl mine ↦ own_handshake m s (rw mine at h)
  | inr other ↦ ground arith
]

-- The handshake is that of the handshake's own update, whatever else the message changes.
pub update_from_server-handshake :
    (m : Message) (s : Session) {s' : Session}
    → update_from_server m s ≡ some s'
    → s'.handshake ≡ Handshake.update_from_server m s.handshake
unfolding update_from_server
update_from_server-handshake m s h =
    let (cs, _, own) =
      >>=-eq-some (update_channels m s.channels) (λ cs. finish_update m (tracked m s cs)) h in
    unfold tracked in finish_handshake m (tracked m s cs) own
