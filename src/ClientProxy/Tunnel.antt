-- ===== src/ClientProxy/Tunnel.antt =====
-- The client proxy as a tunnel: datagrams to TCP connections.
use tcp_udp.Base.{ℕ, ◌≡◌, ◌≢◌, refl, ◌∙◌, ◌⊎◌, true, false, Option, none, some, [], ◌∷◌, ◌++◌}
use tcp_udp.Base.Int.{negsuc, eqb_ℤ}
use tcp_udp.Std.Text.{Bytes}
use tcp_udp.Std.Dict.{lookup}
use tcp_udp.Common.Endpoint.{print, any}
use tcp_udp.Sys.Exec.{ok}
use tcp_udp.Sys.World.{Os, IsPosix, Reply}
use tcp_udp.Sys.Trace.{observe-snoc, writes_out, accepted, taken}
use tcp_udp.Io.{IoResult, success, connection_closed, timeout}
use tcp_udp.Common.Buffer.{standard_timeout}
use tcp_udp.Tcp.Effects.{write_reply}
use tcp_udp.Tcp.Client.{connected}
use tcp_udp.ClientProxy.Binding.{Binding}
use tcp_udp.ClientProxy.Manager.{Factory}
use tcp_udp.ClientProxy.Handler.{ClientProxy, handle_client, session_handler}
use tcp_udp.ClientProxy.Create.{IsFor, connect_reply}
use tcp_udp.ClientProxy.Delivery.{deliver_known, deliver_known-calls, deliver_new, deliver_refused}
use tcp_udp.ClientProxy.Input.{
  datagram, outcome, after_read, read_message, read_nothing, handle_client_delivers,
  after_read-writes, after_read-accepted,
}

module _ (os : Os) (socket : Option ℕ) (p : ClientProxy) where
  -- The answer to the read, and what `SocketIO` makes of it.
  abbrev pub incoming : Reply
  incoming = datagram os socket (session_handler p)

  abbrev pub read_outcome : IoResult
  read_outcome = outcome os socket (session_handler p)

  abbrev after : ClientProxy
  after = after_read os socket p

  -- A datagram of a sender with a binding: its bytes are what is written, in one call, to the TCP
  -- connection of that binding, and the bindings stay as they are.
  pub handle_client_known :
      (b : Binding)
      → IsPosix os
      → read_outcome.code ≡ success
      → lookup (print incoming.address) p.manager.bindings ≡ some b
      → let q = (handle_client os socket p).1 in
        (writes_out q.manager.world.calls
          ≡ writes_out p.manager.world.calls ++ (b.tcp_session.socket, incoming.bytes) ∷ [])
        × (q.manager.bindings ≡ p.manager.bindings)
  handle_client_known b posix good found =
      let (kept, made, _) =
        handle_client_delivers os socket p incoming.bytes incoming.address
          (read_message os socket (session_handler p) posix good) in
      let (wrote, same) = deliver_known os socket incoming.bytes incoming.address after b found in
      (rw (made, wrote, after_read-writes os socket p) refl, kept ∙ same)

  -- What the write to the connection of a binding answers.
  abbrev pub send_reply : Binding → Reply
  send_reply b =
      write_reply os b.tcp_session incoming.bytes (some standard_timeout) after.manager.world

  -- A datagram of a sender with a binding, whatever the write answers: the TCP connection of that
  -- binding gets as many of its bytes as the one write takes, none where it fails or times out, and
  -- no other connection gets any; the rest is lost, for nothing is written again, nothing is thrown,
  -- and the bindings stay as they are.
  pub handle_client_known_takes :
      (b : Binding)
      → IsPosix os
      → read_outcome.code ≡ success
      → lookup (print incoming.address) p.manager.bindings ≡ some b
      → let (result, q) = handle_client os socket p in
        (result ≡ ok tt)
        × (accepted q.manager.world.calls
            ≡ accepted p.manager.world.calls
              ++ (b.tcp_session.socket, taken (send_reply b).value incoming.bytes) ∷ [])
        × (writes_out q.manager.world.calls
            ≡ writes_out p.manager.world.calls ++ (b.tcp_session.socket, incoming.bytes) ∷ [])
        × (q.manager.bindings ≡ p.manager.bindings)
  handle_client_known_takes b posix good found =
      let (_, made, gave) =
        handle_client_delivers os socket p incoming.bytes incoming.address
          (read_message os socket (session_handler p) posix good) in
      let calls = deliver_known-calls os socket incoming.bytes incoming.address after b found in
      let (wrote, same) = handle_client_known b posix good found in
      (
        gave,
        rw (made, calls, observe-snoc) (rw (after_read-accepted os socket p) refl),
        wrote,
        same,
      )

  -- A datagram of a sender without a binding, where the TCP server accepts: the sender is bound to a
  -- new connection to the server, the bytes go to that connection and to no other, and the bindings
  -- of the other senders stay.
  pub handle_client_new :
      (factory : Factory)
      → IsPosix os
      → read_outcome.code ≡ success
      → lookup (print incoming.address) p.manager.bindings ≡ none
      → p.manager.factory ≡ some factory
      → eqb_ℤ (connect_reply os factory after.manager.world).value (negsuc 0) ≡ false
      → let q = (handle_client os socket p).1 in
        let session = connected factory.tcp_server (connect_reply os factory after.manager.world) in
        (writes_out q.manager.world.calls
          ≡ writes_out p.manager.world.calls ++ (session.socket, incoming.bytes) ∷ [])
        × ((b : Binding) × (lookup (print incoming.address) q.manager.bindings ≡ some b)
            × IsFor incoming.address session b)
        × ((j : Bytes)
            → print incoming.address ≢ j
            → lookup j q.manager.bindings ≡ lookup j p.manager.bindings)
  handle_client_new factory posix good absent has accepts =
      let (kept, made, _) =
        handle_client_delivers os socket p incoming.bytes incoming.address
          (read_message os socket (session_handler p) posix good) in
      let (wrote, (b, bound, for), others) =
        deliver_new os socket incoming.bytes incoming.address after factory absent has accepts in
      (
        rw (made, wrote, after_read-writes os socket p) refl,
        (b, rw kept bound, for),
        λ j ne. rw kept (others j ne),
      )

  -- A datagram of a sender without a binding, where the TCP server refuses: nothing is written, and
  -- no binding is made or changed.
  pub handle_client_refused :
      (factory : Factory)
      → IsPosix os
      → read_outcome.code ≡ success
      → lookup (print incoming.address) p.manager.bindings ≡ none
      → p.manager.factory ≡ some factory
      → eqb_ℤ (connect_reply os factory after.manager.world).value (negsuc 0) ≡ true
      → let q = (handle_client os socket p).1 in
        (writes_out q.manager.world.calls ≡ writes_out p.manager.world.calls)
        × (q.manager.bindings ≡ p.manager.bindings)
        × ((handle_client os socket p).0 ≡ ok tt)
  handle_client_refused factory posix good absent has refuses =
      let (kept, made, gave) =
        handle_client_delivers os socket p incoming.bytes incoming.address
          (read_message os socket (session_handler p) posix good) in
      let (wrote, same) =
        deliver_refused os socket incoming.bytes incoming.address after factory absent has
          refuses in
      (rw (made, wrote, after_read-writes os socket p) refl, kept ∙ same, gave)

  -- A read that times out, or whose datagram is empty, is treated as a message of the endpoint
  -- `any:0`: if that has no binding and the TCP server accepts, a connection to the server is made
  -- and bound to `any:0`, and an empty write goes to it.
  pub handle_client_binds_nobody :
      (factory : Factory)
      → (read_outcome.code ≡ timeout) ⊎ (read_outcome.code ≡ connection_closed)
      → lookup (print any) p.manager.bindings ≡ none
      → p.manager.factory ≡ some factory
      → eqb_ℤ (connect_reply os factory after.manager.world).value (negsuc 0) ≡ false
      → let q = (handle_client os socket p).1 in
        let session = connected factory.tcp_server (connect_reply os factory after.manager.world) in
        (writes_out q.manager.world.calls
          ≡ writes_out p.manager.world.calls ++ (session.socket, []) ∷ [])
        × ((b : Binding) × (lookup (print any) q.manager.bindings ≡ some b) × IsFor any session b)
  handle_client_binds_nobody factory bad absent has accepts =
      let (kept, made, _) =
        handle_client_delivers os socket p [] any
          (read_nothing os socket (session_handler p) bad) in
      let (wrote, (b, bound, for), _) =
        deliver_new os socket [] any after factory absent has accepts in
      (rw (made, wrote, after_read-writes os socket p) refl, (b, rw kept bound, for))
