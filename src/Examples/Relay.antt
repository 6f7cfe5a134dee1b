-- ===== src/Examples/Relay.antt =====
-- The client proxy beside the abstract relay, and the stream of one sender.
use tcp_udp.Base.{◌≡◌, refl, true, some, List, [], ◌∷◌, ◌++◌, none, bytes_eq, All}
use tcp_udp.Std.Text.{codes}
use tcp_udp.Std.Decimal.{to_string}
use tcp_udp.Std.Dict.{lookup, insert}
use tcp_udp.Common.Endpoint.{get_address_string, print}
use tcp_udp.Common.Buffer.{fill, owned_buffer}
use tcp_udp.Sys.World.{start}
use tcp_udp.Sys.Trace.{accepted, IsWhole}
use tcp_udp.Io.{from_size}
use tcp_udp.ClientProxy.Binding.{Binding}
use tcp_udp.ClientProxy.Manager.{get_or_create_binding}
use tcp_udp.ClientProxy.SessionHandler.{read_udp_message}
use tcp_udp.ClientProxy.Handler.{create, handle_client, deliver, send_to_tcp_server}
use tcp_udp.ClientProxy.Runs.{Event, datagram_ready, connection_ready, run}
use tcp_udp.ClientProxy.Spec.{empty, react_all}
use tcp_udp.ClientProxy.View.{view, offer_of}
use tcp_udp.ClientProxy.Refinement.{seen, seen_all, run-create-view}
use tcp_udp.ClientProxy.Streams.{written_on, spoken, spoken_now, IsFresh, AreFresh}
use tcp_udp.ClientProxy.Streamed.{inputs, start_relay, run_streams}
use tcp_udp.ClientProxy.Assembly.{destroy_bindings}
use tcp_udp.ClientProxy.Destroying.{given_back, leaving_all, run-destroy_bindings}
use tcp_udp.Sys.Exec.{ok}
use tcp_udp.Sys.World.{remove_handler, binding, stream_close}
use tcp_udp.Examples.Scripted.{peer, server, scripted, scripted-IsPosix, lively, session}

abbrev events : List Event
events = datagram_ready ∷ connection_ready (print peer) ∷ []

run-create-view_example :
    view (run (scripted lively) (some 4) events (create server start)).manager
    ≡ react_all (seen_all (scripted lively) (some 4) events (create server start)) (empty [] [])
run-create-view_example =
    run-create-view (scripted lively) (some 4) server start events (scripted-IsPosix lively)

abbrev pub one : List Event
one = datagram_ready ∷ []

abbrev pub bound_by_run : Binding
bound_by_run = record {
  client = record { session = some (session 9); endpoints = (session 9).endpoints };
  tcp_session = session 9;
  udp_sender = peer;
  reactor = true;
  registered = true;
  buffer = owned_buffer 2048;
}

pub found_after_run :
    lookup (print peer) (run (scripted lively) (some 4) one (create server start)).manager.bindings
    ≡ some bound_by_run
unfolding run create lookup handle_client read_udp_message owned_buffer deliver
    get_or_create_binding send_to_tcp_server fill insert bytes_eq print get_address_string to_string
found_after_run = refl

-- The first connection is unused, for there is none before it.
pub one-AreFresh :
    AreFresh
      (inputs (scripted lively) (some 4) server start one)
      (start_relay (scripted lively) (some 4) server start one)
unfolding AreFresh IsFresh seen_all seen from_size owned_buffer create offer_of written_on
one-AreFresh = (λ h. record { unrouted = λ k r e. absurd cc; unwritten = refl }, tt)

pub one-IsWhole :
    All IsWhole (run (scripted lively) (some 4) one (create server start)).manager.world.calls
unfolding run create lookup handle_client read_udp_message owned_buffer deliver
    get_or_create_binding send_to_tcp_server fill insert bytes_eq print get_address_string to_string
one-IsWhole = (tt, (tt, (tt, (tt, (refl, tt)))))

run_streams_example :
    written_on
      (some 9)
      (accepted (run (scripted lively) (some 4) one (create server start)).manager.world.calls)
    ≡ spoken
        (print peer)
        (inputs (scripted lively) (some 4) server start one)
        (start_relay (scripted lively) (some 4) server start one)
run_streams_example =
    run_streams (scripted lively) (some 4) server start one (print peer) bound_by_run
      (scripted-IsPosix lively) one-AreFresh one-IsWhole found_after_run

-- What that sender said is what its datagram held.
spoken_by_peer :
    spoken
      (print peer)
      (inputs (scripted lively) (some 4) server start one)
      (start_relay (scripted lively) (some 4) server start one)
    ≡ codes "ping"
unfolding spoken spoken_now seen_all seen from_size owned_buffer create offer_of bytes_eq print
    get_address_string to_string
spoken_by_peer = refl

run-destroy_bindings_example :
    let p = run (scripted lively) (some 4) one (create server start) in
    let (result, q) = destroy_bindings (scripted lively) p in
    (result ≡ ok tt)
    × (given_back q.manager.world ≡ given_back p.manager.world ++ leaving_all p.manager.bindings)
    × (q.manager.bindings ≡ [])
run-destroy_bindings_example = run-destroy_bindings (scripted lively) (some 4) server start one

-- The binding that the run made leaves the reactor, and then its connection is closed; the destructor
-- of the session closes what is no socket any more.
left_after_run :
    leaving_all (run (scripted lively) (some 4) one (create server start)).manager.bindings
    ≡ remove_handler (binding (some 9)) ∷ stream_close (some 9) ∷ stream_close none ∷ []
unfolding run create handle_client read_udp_message owned_buffer deliver get_or_create_binding
    send_to_tcp_server fill insert bytes_eq print get_address_string to_string lookup
left_after_run = refl
