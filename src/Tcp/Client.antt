-- ===== src/Tcp/Client.antt =====
-- AceTcpClient.h and AceTcpClient.cpp.
use tcp_udp.Base.{Option, none, some, [], ◌∷◌, if◌then◌else◌}
use tcp_udp.Base.Int.{negsuc, eqb_ℤ}
use tcp_udp.Common.Endpoint.{Endpoint, EndpointPair, any, print}
use tcp_udp.Sys.Exec.{text, Exec, pure, ◌>>=◌, ◌>>◌}
use tcp_udp.Sys.World.{World, Os, Reply, ask, log, info, stream_connect}
use tcp_udp.Io.{set_linger_timeout}
use tcp_udp.Tcp.Session.{Session, server_session}
use tcp_udp.Tcp.Session

-- The session is shared with the caller of `connect`.
pub record TcpClient : Type 0 where
  pub session : Option Session
  pub endpoints : EndpointPair

abbrev pub create : TcpClient
create = record { session = none; endpoints = record { local = any; remote = any } }

-- The session of a connection that was made: the answer holds its socket and its own address.
abbrev pub connected : Endpoint → Reply → Session
connected remote r = record {
  side = server_session;
  endpoints = record { local = r.address; remote = remote };
  socket = some r.socket;
  address = remote;
}

module _ (os : Os) where
  keep_session : TcpClient → Endpoint → Reply → Exec World (Option Session × TcpClient)
  unfolding set_linger_timeout log
  keep_session c remote r = if eqb_ℤ r.value (negsuc 0) then pure (none, c) else (do
    set_linger_timeout os (some r.socket)
    log info (record {
      format = "TcpClient: %s -> %s connected";
      args = text (print r.address) ∷ text (print remote) ∷ [];
    })
    pure (
      some (connected remote r),
      record {
        session = some (connected remote r);
        endpoints = record { local = r.address; remote = remote };
      },
    ))

  unfoldable pub connect : TcpClient → Endpoint → Endpoint → Exec World (Option Session × TcpClient)
  unfolding ask keep_session
  connect c local remote = do r ← ask os (stream_connect local remote); keep_session c remote r

  -- Closes the session, and closes it once more where this was its last owner.
  unfoldable pub drop_session : TcpClient → Option Session → Exec World TcpClient
  unfolding Session.close log
  drop_session c none = pure c
  drop_session c (some s) = do
    s' ← Session.close os s
    s'' ← Session.close os s'
    log info (record {
      format = "TcpClient: %s -> %s disconnected";
      args = text (print c.endpoints.local) ∷ text (print c.endpoints.remote) ∷ [];
    })
    pure (record c { session = none })

  -- `disconnect`, and the destructor.
  unfoldable pub disconnect : TcpClient → Exec World TcpClient
  unfolding drop_session
  disconnect c = drop_session c c.session

  unfoldable pub drop_shared : TcpClient → Option Session → Exec World TcpClient
  unfolding Session.close log
  drop_shared c none = pure c
  drop_shared c (some s) = do
    s' ← Session.close os s
    log info (record {
      format = "TcpClient: %s -> %s disconnected";
      args = text (print c.endpoints.local) ∷ text (print c.endpoints.remote) ∷ [];
    })
    pure (record c { session = none })

  -- `disconnect` where somebody else still owns the session, which is then closed once.
  unfoldable pub disconnect_shared : TcpClient → Exec World TcpClient
  unfolding drop_shared
  disconnect_shared c = drop_shared c c.session
