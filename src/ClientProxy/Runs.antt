-- ===== src/ClientProxy/Runs.antt =====
-- Sequences of events of the reactor of a client proxy.
use tcp_udp.Base.{ℕ, ◌≡◌, sym, ◌⊎◌, Option, some, List, [], ◌∷◌, ◌++◌}
use tcp_udp.Std.Text.{Bytes}
use tcp_udp.Std.Dict.{lookup, lookup-All_entries}
use tcp_udp.Common.Endpoint.{Endpoint, print}
use tcp_udp.Sys.World.{World, Os, IsPosix}
use tcp_udp.Sys.Trace.{datagrams_out, writes_out}
use tcp_udp.Io.{success, connection_closed, error}
use tcp_udp.ClientProxy.Binding.{Binding}
use tcp_udp.ClientProxy.Handler.{ClientProxy, create, handle_client, binding_input}
use tcp_udp.ClientProxy.Tunnel.{incoming, read_outcome, handle_client_known}
use tcp_udp.ClientProxy.Responses.{got, outcome, ended, binding_input_data, binding_input_end}
use tcp_udp.ClientProxy.Invariant.{IsKeyed, IsSound, handle_client-IsSound, binding_input-IsSound}

-- The UDP socket can be read, or the TCP connection of the binding under a key.
pub data Event : Type 0 where
  datagram_ready : Event
  connection_ready : Bytes → Event

module _ (os : Os) (socket : Option ℕ) where
  unfoldable pub step : Event → ClientProxy → ClientProxy
  step datagram_ready p = (handle_client os socket p).1
  step (connection_ready key) p = (binding_input os socket key p).1

  unfoldable pub run : List Event → ClientProxy → ClientProxy
  unfolding step
  run [] p = p
  run (e ∷ es) p = run es (step e p)

  pub step-IsSound : (e : Event) (p : ClientProxy) → IsSound p.manager → IsSound (step e p).manager
  unfolding step
  step-IsSound datagram_ready p h = handle_client-IsSound os socket p h
  step-IsSound (connection_ready key) p h = binding_input-IsSound os socket key p h

  run-IsSound : (es : List Event) (p : ClientProxy) → IsSound p.manager → IsSound (run es p).manager
  unfolding run
  run-IsSound [] p h = h
  run-IsSound (e ∷ es) p h = run-IsSound es (step e p) (step-IsSound e p h)

  pub create-IsSound : (tcp_server : Endpoint) (w : World) → IsSound (create tcp_server w).manager
  unfolding create
  create-IsSound tcp_server w = record { is_map = tt; is_keyed = tt }

  -- After any events no sender has two bindings, each binding stands under the printed address of its
  -- sender, and only a binding with a reactor is registered.
  pub run-create-IsSound :
      (tcp_server : Endpoint) (w : World) (es : List Event)
      → IsSound (run es (create tcp_server w)).manager
  run-create-IsSound tcp_server w es =
      run-IsSound es (create tcp_server w) (create-IsSound tcp_server w)

  -- After any events, bytes that arrive on the TCP connection that is bound under a key are sent, in
  -- one datagram, to the peer whose printed address is that key, and nothing else is sent.
  pub run_routes_back :
      (tcp_server : Endpoint) (w : World) (es : List Event) (key : Bytes) (b : Binding)
      → IsPosix os
      → let p = run es (create tcp_server w) in
        lookup key p.manager.bindings ≡ some b
        → (outcome os socket b p.manager.world).code ≡ success
        → (datagrams_out (step (connection_ready key) p).manager.world.calls
            ≡ datagrams_out p.manager.world.calls
              ++ ((got os socket b p.manager.world).bytes, b.udp_sender) ∷ [])
          × (print b.udp_sender ≡ key)
  unfolding step
  run_routes_back tcp_server w es key b posix found good =
      let p = run es (create tcp_server w) in
      let sound = run-create-IsSound tcp_server w es in
      let entry = lookup-All_entries IsKeyed key p.manager.bindings found sound.is_keyed in
      ((binding_input_data os socket p key b posix good found).1, sym entry.keyed)

  -- After the connection of a binding has ended, the next datagram of its sender is written to the
  -- dead connection, no other write is made, and the binding stays (the bindings are sound before).
  pub dead_binding_stays :
      (p : ClientProxy) (key : Bytes) (b : Binding)
      → IsPosix os
      → IsSound p.manager
      → lookup key p.manager.bindings ≡ some b
      → ((outcome os socket b p.manager.world).code ≡ connection_closed)
        ⊎ ((outcome os socket b p.manager.world).code ≡ error)
      → let q = step (connection_ready key) p in
        (read_outcome os socket q).code ≡ success
        → print (incoming os socket q).address ≡ key
        → let r = step datagram_ready q in
          (writes_out r.manager.world.calls
            ≡ writes_out q.manager.world.calls
              ++ (b.tcp_session.socket, (incoming os socket q).bytes) ∷ [])
          × (lookup key r.manager.bindings ≡ some (ended os socket b p.manager.world))
  unfolding step
  dead_binding_stays p key b posix sound found over good from =
      let entry = lookup-All_entries IsKeyed key p.manager.bindings found sound.is_keyed in
      let (_, _, stays, _) = binding_input_end os socket p key b over entry.has_reactor found in
      let q = (binding_input os socket key p).1 in
      let (wrote, same) =
        handle_client_known os socket q (ended os socket b p.manager.world) posix good
          (rw from stays) in
      (wrote, rw same stays)
