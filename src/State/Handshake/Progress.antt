-- ===== src/State/Handshake/Progress.antt =====
-- A handshake that is done stays done, and is done once NICK, USER and the MOTD were seen.
use irc_idler.Prelude.{true, ◌≡◌, arith}
use irc_idler.Irc.Message.{Message}
use irc_idler.State.Handshake.{Handshake, done, update_from_client, update_from_server}

-- A done handshake is not changed by any message, from either side.
pub done-stable :
    (m : Message) (h : Handshake)
    → done h ≡ true
    → (update_from_client m h ≡ h) × (update_from_server m h ≡ h)
unfolding update_from_client update_from_server
done-stable m h d = ground arith

-- Two messages of the client count the same in either order, so USER may come before NICK.
pub update_from_client_comm :
    (m n : Message) (h : Handshake)
    → update_from_client m (update_from_client n h) ≡ update_from_client n (update_from_client m h)
unfolding update_from_client
update_from_client_comm m n h = ground arith

pub done-update_from_client :
    (m : Message) (h : Handshake) → done h ≡ true → done (update_from_client m h) ≡ true
done-update_from_client m h d = cc ((done-stable m h d).0)

pub done-update_from_server :
    (m : Message) (h : Handshake) → done h ≡ true → done (update_from_server m h) ≡ true
done-update_from_server m h d = cc ((done-stable m h d).1)
