-- ===== src/Cli/Dials.antt =====
-- The connections that the daemon makes whose flags ask for TLS.
use irc_idler.Prelude.{ℕ, Bytes, bytes, true, some, ◌∷◌, Lacks, ◌<◌, ◌≡◌}
use irc_idler.Net.Dial.{NetConn, shook, History, connect}
use irc_idler.Net.HostPort.{join_host_port, sprint}
use irc_idler.Net.Dial.Clean.{tls_dial-join}
use irc_idler.Storage.Sql.{Database}
use irc_idler.Cli.{Flags, Services, Running, runs, dialer_for, main}
use irc_idler.Cli.Started.{main-connector}

-- With TLS, where the flag raddr is a host without brackets and a port of 16 bits, a connection that
-- the connector of the daemon that main starts returns runs over one that was dialled directly to
-- that address, and its handshake has verified the host.
connect-main :
    (D : Database) (p : Services D) (flags : Flags) (host : Bytes) (port : ℕ) (done : History)
    {r : Running D} {conn : NetConn} {done' : History}
    → main D p flags ≡ runs r
    → flags.use_tls ≡ true
    → flags.raddr ≡ join_host_port host (sprint port)
    → Lacks b'[' host
    → Lacks b']' host
    → port < 65536
    → connect r.connector done ≡ (some conn, done')
    → (inner : NetConn) × (done1 : History) × (p.direct
          (bytes "tcp")
          (join_host_port host (sprint port))
          done
        ≡ (some inner, done1))
      × (p.handshake done1 inner.id host ≡ true)
      × (conn ≡ record inner { verified = host ∷ inner.verified })
      × (done' ≡ shook inner.id host ∷ done1)
unfolding connect dialer_for
connect-main D p flags host port done starts on addr no_open no_close fits e =
    let (level, db, l, same) = main-connector D p flags starts in
    tls_dial-join p.handshake p.direct (bytes "tcp") host port done no_open no_close fits
      (rw (same, on, addr) at e)
