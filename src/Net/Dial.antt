-- ===== src/Net/Dial.antt =====
-- internal/netextra/tlsdialer.go, and `DialerConnector` of proxy/proxy.go. What the network does is
-- a parameter: the handshake of package tls, and the base dialer, which is any of the same type.
pub mod Clean
use irc_idler.Prelude.{
  ℕ, List, [], ◌∷◌, Bytes, Bool, true, false, Option, none, some, if◌then◌else◌,
}
use irc_idler.Net.HostPort.{split_host_port}

-- A connection goes by a number; TLS sessions over it go by the server names that they verify, the
-- outermost first.
pub record NetConn : Type 0 where
  pub id : ℕ
  pub verified : List Bytes

-- What was done to connections.
pub data NetAction : Type 0 where
  dialled : ℕ → NetAction
  shook : ℕ → Bytes → NetAction
  shake_failed : ℕ → Bytes → NetAction
  closed : ℕ → NetAction

-- The actions so far, the latest first.
abbrev pub History : Type 0
History = List NetAction

-- `Dial(network, addr)`. An error is `none`.
abbrev pub Dialer : Type 0
Dialer = Bytes → Bytes → History → Option NetConn × History

-- Whether the handshake over a connection that verifies a server name succeeds.
module _ (handshake : History → ℕ → Bytes → Bool) where
  -- `tls.Client(conn, cfg)` and its handshake, behind the base dialer's `Dial`.
  start_tls : Bytes → Option NetConn × History → Option NetConn × History
  start_tls host (none, done) = (none, done)
  start_tls host (some conn, done) =
      if handshake done conn.id host
      then (some (record conn { verified = host ∷ conn.verified }), shook conn.id host ∷ done)
      else (none, closed conn.id ∷ shake_failed conn.id host ∷ done)

  with_host : Dialer → Bytes → Bytes → History → Option (Bytes × Bytes) → Option NetConn × History
  unfolding start_tls
  with_host base network addr done none = (none, done)
  with_host base network addr done (some (host, port)) = start_tls host (base network addr done)

  -- `TLSDialer.Dial`.
  unfoldable pub tls_dial : Dialer → Dialer
  unfolding with_host
  tls_dial base network addr done = with_host base network addr done (split_host_port addr)

pub record DialerConnector : Type 0 where
  pub dialer : Dialer
  pub network : Bytes
  pub addr : Bytes

-- `DialerConnector.Connect`; the reader and writer of the connection stand for it.
unfoldable pub connect : DialerConnector → History → Option NetConn × History
connect dc done = dc.dialer dc.network dc.addr done
