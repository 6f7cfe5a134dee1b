-- ===== src/Notifiable/Lifecycle.antt =====
-- What connecting and stopping leave of a notifiable client.
use tcp_udp.Base.{
  ℕ, ◌≡◌, refl, sym, ap, false, Option, none, some, List, [], ◌∷◌, ◌++◌, append-nil, Bool, true,
  ◌&&◌, ◌⊎◌, inl, inr, Bool-cases,
}
use tcp_udp.Sys.Exec.{ok, continue}
use tcp_udp.Sys.World.{World, Os, log, ask, Call, Reply, stream_close}
use tcp_udp.Sys.Trace.{observe, observe-snoc}
use tcp_udp.Tcp.Session
use tcp_udp.Tcp.Session.{Session, server_session}
use tcp_udp.Tcp.Client
use tcp_udp.Tcp.Client.{TcpClient, connected}
use tcp_udp.Notifiable.Client as Notifier
use tcp_udp.Notifiable.Client.{NotifiableClient, returns, finish, stop}

-- The sockets of TCP connections that are closed.
abbrev pub closed : Call → Reply → List (Option ℕ)
closed (stream_close s) r = s ∷ []
closed _ r = []

abbrev socket_of : Option Session → List (Option ℕ)
socket_of none = []
socket_of (some s) = s.socket ∷ []

-- The socket of the session that a client holds.
abbrev pub held : Option TcpClient → List (Option ℕ)
held none = []
held (some client) = socket_of client.session

-- What a stop leaves: the TCP client holds no session, and no thread can be joined. The pointer of the
-- notifiable client to the session, which is closed, is as it was.
pub record IsStopped (c d : NotifiableClient) : Type 0 where
  pub not_running : d.running ≡ false
  pub no_sender : d.sender_thread ≡ false
  pub no_receiver : d.receiver_thread ≡ false
  pub nothing_held : held d.client ≡ []
  pub still_set : d.session ≡ c.session

-- A client whose session, if it has one, is that of a connection that it made.
abbrev pub IsOwn : Option TcpClient → Type 0
IsOwn none = Unit
IsOwn (some client) = (s : Session) → client.session ≡ some s → s.side ≡ server_session

module _ (os : Os) where
  drop_shared_lem :
      (client : TcpClient) (o : Option Session) (w : World)
      → client.session ≡ o
      → ((s : Session) → o ≡ some s → s.side ≡ server_session)
      → (client' : TcpClient) × ((Client.drop_shared os client o w).0 ≡ ok client')
        × (client'.session ≡ none)
        × (observe closed (Client.drop_shared os client o w).1.calls
            ≡ observe closed w.calls ++ socket_of o)
  unfolding Client.drop_shared Session.close log ask
  drop_shared_lem client none w e own = (client, refl, e, sym (append-nil _))
  drop_shared_lem client (some s) w e own = (
    record client { session = none },
    rw (own s refl) refl,
    refl,
    rw (own s refl) (simp observe-snoc),
  )

  -- The members that a stop sets first.
  abbrev told : NotifiableClient → NotifiableClient
  told c = record c { running = false; sender_thread = false; receiver_thread = false }

  disconnect_lem :
      (o : Option TcpClient) (c : NotifiableClient)
      → c.client ≡ o
      → IsOwn o
      → let r = Notifier.disconnect os o (told c) in
        (r.0 ≡ ok tt)
        × IsStopped c r.1
        × (observe closed r.1.world.calls ≡ observe closed c.world.calls ++ held o)
  unfolding Notifier.disconnect Client.disconnect_shared
  disconnect_lem none c e own = (
    refl,
    record {
      not_running = refl;
      no_sender = refl;
      no_receiver = refl;
      nothing_held = ap held e;
      still_set = refl;
    },
    sym (append-nil _),
  )
  disconnect_lem (some client) c e own =
      let (client', gave, empty, closes) = drop_shared_lem client client.session c.world refl own in
      (
        rw (gave, continue) refl,
        rw (gave, continue)
            (record {
              not_running = refl;
              no_sender = refl;
              no_receiver = refl;
              nothing_held = ap socket_of empty;
              still_set = refl;
            }),
        rw (gave, continue) closes,
      )

  -- Stopping a client, in whatever state, with a connection or without, returns exactly if the threads
  -- that it has to join end. Then it does not throw, closes exactly the connection that its TCP client
  -- had, if any, once, and leaves the TCP client without a session and no thread to join; the
  -- notifiable client itself still points to the session (the session of its TCP client, if there is
  -- one, is that of a connection that it made).
  pub stop-IsStopped :
      (sender_ends receiver_ends : Bool) (c : NotifiableClient)
      → IsOwn c.client
      → let joined =
          returns c.sender_thread sender_ends && returns c.receiver_thread receiver_ends in
        ((joined ≡ true)
          × ((d : NotifiableClient) × (stop os sender_ends receiver_ends c ≡ some (ok tt, d))
              × IsStopped c d
              × (observe closed d.world.calls ≡ observe closed c.world.calls ++ held c.client)))
        ⊎ ((joined ≡ false) × (stop os sender_ends receiver_ends c ≡ none))
  unfolding stop finish
  stop-IsStopped sender_ends receiver_ends c own =
      let joined = returns c.sender_thread sender_ends && returns c.receiver_thread receiver_ends in
      let (gave, stopped, closes) = disconnect_lem c.client c refl own in
      elim (Bool-cases joined) [
        | inl e ↦ inl (e, (_, rw e (ap (λ r. some (r, (finish os c).1)) gave), stopped, closes))
        | inr e ↦ inr (e, rw e refl)
      ]
