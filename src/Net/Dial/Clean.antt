-- ===== src/Net/Dial/Clean.antt =====
-- What dialling leaves open.
use irc_idler.Prelude.{
  ℕ, List, without_one, [], ◌∷◌, Bytes, Bool, true, Option, none, some, ◌≡◌, refl, arith,
  Bool-cases, inl, inr, Lacks, ◌<◌,
}
use irc_idler.Net.HostPort.{split_host_port, join_host_port, sprint}
use irc_idler.Net.HostPort.Joined.{split_host_port-sprint}
use irc_idler.Net.Dial.{
  NetConn, dialled, shook, shake_failed, closed, History, Dialer, start_tls, with_host, tls_dial,
}

-- The connections that were dialled and not closed.
unfoldable pub open_conns : History → List ℕ
open_conns [] = []
open_conns (dialled n ∷ done) = n ∷ open_conns done
open_conns (shook n host ∷ done) = open_conns done
open_conns (shake_failed n host ∷ done) = open_conns done
open_conns (closed n ∷ done) = without_one n (open_conns done)

-- A dialer's result: the connection that it returns is all that it leaves open.
unfoldable pub IsCleanResult : History → Option NetConn × History → Type 0
IsCleanResult done (none, done') = open_conns done' ≡ open_conns done
IsCleanResult done (some conn, done') = open_conns done' ≡ conn.id ∷ open_conns done

-- The documented contract of `Dial`.
unfoldable pub IsClean : Dialer → Type 0
IsClean d = (network addr : Bytes) (done : History) → IsCleanResult done (d network addr done)

module _ (handshake : History → ℕ → Bytes → Bool) where
  start_tls-IsClean :
      (host : Bytes) (done : History) (r : Option NetConn × History)
      → IsCleanResult done r
      → IsCleanResult done (start_tls handshake host r)
  unfolding start_tls IsCleanResult open_conns
  start_tls-IsClean host done (none, done') ok = ok
  start_tls-IsClean host done (some conn, done') ok =
      elim (Bool-cases (handshake done' conn.id host)) [
        | inl h ↦ rw h ok
        | inr h ↦ rw h (ground (arith, ok))
      ]

  with_host-IsClean :
      (base : Dialer) (network addr : Bytes) (done : History) (parts : Option (Bytes × Bytes))
      → IsClean base
      → IsCleanResult done (with_host handshake base network addr done parts)
  unfolding with_host IsClean
  with_host-IsClean base network addr done none ok = unfold IsCleanResult in refl
  with_host-IsClean base network addr done (some (host, port)) ok =
      start_tls-IsClean host done (base network addr done) (ok network addr done)

  -- Over a dialer that leaves nothing open but the connection that it returns, a TLS dialer
  -- leaves nothing open but the connection that it returns, whatever the handshakes do.
  pub tls_dial-IsClean : (base : Dialer) → IsClean base → IsClean (tls_dial handshake base)
  unfolding tls_dial
  tls_dial-IsClean base ok =
      unfold IsClean in
      λ network addr done. with_host-IsClean base network addr done (split_host_port addr) ok

  -- A connection that a TLS dialer returns has a session that verifies the host of the address,
  -- over the connection that the base dialer returned for the same address.
  start_tls_verified :
      (host : Bytes) (r : Option NetConn × History) {conn : NetConn} {done' : History}
      → start_tls handshake host r ≡ (some conn, done')
      → (inner : NetConn) × (done1 : History) × (r ≡ (some inner, done1))
        × (handshake done1 inner.id host ≡ true)
        × (conn ≡ record inner { verified = host ∷ inner.verified })
        × (done' ≡ shook inner.id host ∷ done1)
  unfolding start_tls
  start_tls_verified host (none, done1) e = cc e
  start_tls_verified host (some inner, done1) {conn} {done'} e =
      elim (Bool-cases (handshake done1 inner.id host)) [
        | inl ok ↦
            let e' : ◌≡◌ {A = Option NetConn × History}
                (
                  some (record inner { verified = host ∷ inner.verified }),
                  shook inner.id host ∷ done1,
                )
                (some conn, done') =
              rw ok at e in
            (inner, done1, refl, ok, cc e', cc e')
        | inr failed ↦
            let e' : ◌≡◌ {A = Option NetConn × History}
                (none, closed inner.id ∷ shake_failed inner.id host ∷ done1) (some conn, done') =
              rw failed at e in
            cc e'
      ]

  pub tls_dial-join :
      (base : Dialer) (network host : Bytes) (port : ℕ) (done : History) {conn : NetConn}
      {done' : History}
      → Lacks b'[' host
      → Lacks b']' host
      → port < 65536
      → tls_dial handshake base network (join_host_port host (sprint port)) done
        ≡ (some conn, done')
      → (inner : NetConn) × (done1 : History) × (base network
            (join_host_port host (sprint port))
            done
          ≡ (some inner, done1))
        × (handshake done1 inner.id host ≡ true)
        × (conn ≡ record inner { verified = host ∷ inner.verified })
        × (done' ≡ shook inner.id host ∷ done1)
  unfolding tls_dial with_host
  tls_dial-join base network host port done no_open no_close fits e =
      let (parts, value) = split_host_port-sprint host port no_open no_close fits in
      start_tls_verified host (base network (join_host_port host (sprint port)) done)
        (rw parts at e)
