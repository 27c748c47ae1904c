-- ===== src/Sandstorm/Control/Dials.antt =====
-- The connections that the daemon for a configuration makes.
use irc_idler.Prelude.{ℕ, bytes, true, some, ◌∷◌, Lacks, ◌<◌, ◌≡◌}
use irc_idler.Net.Dial.{NetConn, shook, History, connect}
use irc_idler.Net.Dial.Clean.{tls_dial-join}
use irc_idler.Sandstorm.Webui.{ServerConfig, to_string}
use irc_idler.Sandstorm.Control.{Platform, choose_dialer, connector_for}

-- With TLS, for a host without brackets and a port of 16 bits, a connection that the proxy's
-- connector returns runs over one that was dialled through the network capability to the
-- configured address, and its handshake has verified the configured host.
pub connect-connector_for :
    (p : Platform) (c : ServerConfig) (net : ℕ) (done : History) {conn : NetConn} {done' : History}
    → c.tls ≡ true
    → Lacks b'[' c.host
    → Lacks b']' c.host
    → c.port < 65536
    → connect (connector_for p c net) done ≡ (some conn, done')
    → (inner : NetConn) × (done1 : History) × (p.ip_dialer net (bytes "tcp") (to_string c) done
        ≡ (some inner, done1))
      × (p.handshake done1 inner.id c.host ≡ true)
      × (conn ≡ record inner { verified = c.host ∷ inner.verified })
      × (done' ≡ shook inner.id c.host ∷ done1)
unfolding connect connector_for choose_dialer to_string
connect-connector_for p c net done on no_open no_close fits e =
    tls_dial-join p.handshake (p.ip_dialer net) (bytes "tcp") c.host c.port done no_open no_close
      fits (rw on at e)
