-- ===== src/Examples/Tunnel.antt =====
-- The client proxy: a datagram to a bound sender, to a new one, and the way back.
use tcp_udp.Base.{◌≡◌, refl, inl, true, some, [], ◌∷◌, ◌++◌, bytes_eq, bytes_eq_refl}
use tcp_udp.Base.Int.{pos}
use tcp_udp.Sys.Exec.{ok}
use tcp_udp.Std.Text.{codes}
use tcp_udp.Std.Decimal.{to_string}
use tcp_udp.Std.Dict.{lookup, insert}
use tcp_udp.Common.Endpoint.{get_address_string, print, any}
use tcp_udp.Common.Buffer.{fill, owned_buffer}
use tcp_udp.Sys.World.{start}
use tcp_udp.Sys.Trace.{accepted, writes_out, datagrams_out}
use tcp_udp.Io.{success, timeout, connection_closed, from_size}
use tcp_udp.ClientProxy.Binding.{Binding}
use tcp_udp.ClientProxy.Manager.{Factory, get_or_create_binding}
use tcp_udp.ClientProxy.Handler.{
  deliver, send_to_tcp_server, ClientProxy, create, handle_client, binding_input,
}
use tcp_udp.ClientProxy.SessionHandler.{read_udp_message}
use tcp_udp.ClientProxy.Create.{IsFor}
use tcp_udp.ClientProxy.Tunnel.{handle_client_known_takes, handle_client_binds_nobody, read_outcome}
use tcp_udp.ClientProxy.Responses.{binding_input_data, binding_input_end, ended}
use tcp_udp.ClientProxy.Responses
use tcp_udp.ClientProxy.Invariant.{IsSound}
use tcp_udp.ClientProxy.Runs.{
  datagram_ready, connection_ready, step, run, run-create-IsSound, run_routes_back,
  dead_binding_stays,
}
use tcp_udp.Examples.Scripted.{
  Script, taking, taking-IsPosix, peer, server, scripted, scripted-IsPosix, lively, silent, ending,
  session, small_buffer,
}

abbrev bound : Binding
bound = record {
  client = record { session = some (session 9); endpoints = (session 9).endpoints };
  tcp_session = session 9;
  udp_sender = peer;
  reactor = true;
  registered = true;
  buffer = small_buffer;
}

abbrev factory : Factory
factory = record { tcp_server = server; reactor = true }

abbrev unbound_proxy : ClientProxy
unbound_proxy = record {
  manager = record { world = start; bindings = []; factory = some factory };
  buffer = small_buffer;
}

abbrev bound_proxy : ClientProxy
bound_proxy = record unbound_proxy {
  manager = record { world = start; bindings = (print peer, bound) ∷ []; factory = some factory };
}

readable :
    (s : Script)
    → s.datagram ≡ some (codes "ping")
    → (p : ClientProxy) → p.buffer ≡ small_buffer
    → (read_outcome (scripted s) (some 4) p).code ≡ success
unfolding from_size
readable s e p b = rw (b, e) refl

two_readable : (read_outcome (taking (pos 2) lively) (some 4) bound_proxy).code ≡ success
unfolding from_size
two_readable = refl

bound_found : lookup (print peer) bound_proxy.manager.bindings ≡ some bound
unfolding lookup
bound_found = rw (bytes_eq_refl (print peer)) refl

-- The connection takes two of the four bytes.
handle_client_known_takes_example :
    let (result, q) = handle_client (taking (pos 2) lively) (some 4) bound_proxy in
    (result ≡ ok tt)
    × (accepted q.manager.world.calls ≡ (some 9, codes "pi") ∷ [])
    × (writes_out q.manager.world.calls ≡ (some 9, codes "ping") ∷ [])
    × (q.manager.bindings ≡ (print peer, bound) ∷ [])
handle_client_known_takes_example =
    handle_client_known_takes (taking (pos 2) lively) (some 4) bound_proxy bound
      (taking-IsPosix (pos 2) lively) two_readable bound_found

timed_out : (read_outcome (scripted silent) (some 4) unbound_proxy).code ≡ timeout
unfolding from_size
timed_out = refl

handle_client_binds_nobody_example :
    let q = (handle_client (scripted silent) (some 4) unbound_proxy).1 in
    (writes_out q.manager.world.calls ≡ (some 9, []) ∷ [])
    × ((b : Binding) × (lookup (print any) q.manager.bindings ≡ some b) × IsFor any (session 9) b)
unfolding lookup
handle_client_binds_nobody_example =
    handle_client_binds_nobody (scripted silent) (some 4) unbound_proxy factory (inl timed_out) refl
      refl refl

got_data : (Responses.outcome (scripted lively) (some 4) bound start).code ≡ success
unfolding from_size
got_data = refl

got_end : (Responses.outcome (scripted ending) (some 4) bound start).code ≡ connection_closed
unfolding from_size
got_end = refl

run-create-IsSound_example :
    IsSound
      (run
        (scripted lively)
        (some 4)
        (datagram_ready ∷ connection_ready (print peer) ∷ [])
        (create server start)).manager
run-create-IsSound_example =
    run-create-IsSound (scripted lively) (some 4) server start
      (datagram_ready ∷ connection_ready (print peer) ∷ [])

bound_proxy-IsSound : IsSound bound_proxy.manager
bound_proxy-IsSound = record {
  is_map = (tt, tt);
  is_keyed = (record { keyed = refl; has_reactor = λ h. refl }, tt);
}

after_end-buffer :
    (step (scripted ending) (some 4) (connection_ready (print peer)) bound_proxy).buffer
    ≡ small_buffer
unfolding step binding_input lookup bytes_eq print get_address_string to_string
after_end-buffer = refl

dead_binding_stays_example :
    let q = step (scripted ending) (some 4) (connection_ready (print peer)) bound_proxy in
    let r = step (scripted ending) (some 4) datagram_ready q in
    (writes_out r.manager.world.calls
      ≡ writes_out q.manager.world.calls ++ (some 9, codes "ping") ∷ [])
    × (lookup (print peer) r.manager.bindings ≡ some (ended (scripted ending) (some 4) bound start))
unfolding step binding_input lookup bytes_eq print get_address_string to_string
dead_binding_stays_example =
    dead_binding_stays (scripted ending) (some 4) bound_proxy (print peer) bound
      (scripted-IsPosix ending) bound_proxy-IsSound bound_found (inl got_end)
      (readable ending refl
        (step (scripted ending) (some 4) (connection_ready (print peer)) bound_proxy)
        after_end-buffer)
      refl

abbrev bound_by_run : Binding
bound_by_run = record bound { buffer = owned_buffer 2048 }

found_after_run :
    lookup
      (print peer)
      (run (scripted lively) (some 4) (datagram_ready ∷ []) (create server start)).manager.bindings
    ≡ some bound_by_run
unfolding run create lookup handle_client read_udp_message owned_buffer deliver
    get_or_create_binding send_to_tcp_server fill insert bytes_eq print get_address_string to_string
found_after_run = refl

abbrev proxy_after_run : ClientProxy
proxy_after_run = run (scripted lively) (some 4) (datagram_ready ∷ []) (create server start)

readable_after_run :
    (Responses.outcome (scripted lively) (some 4) bound_by_run proxy_after_run.manager.world).code
    ≡ success
unfolding from_size owned_buffer
readable_after_run = refl

run_routes_back_example :
    (datagrams_out
        (step
          (scripted lively)
          (some 4)
          (connection_ready (print peer))
          proxy_after_run).manager.world.calls
      ≡ datagrams_out proxy_after_run.manager.world.calls ++ (codes "pong", peer) ∷ [])
    × (print peer ≡ print peer)
unfolding owned_buffer
run_routes_back_example =
    run_routes_back (scripted lively) (some 4) server start (datagram_ready ∷ []) (print peer)
      bound_by_run (scripted-IsPosix lively) found_after_run readable_after_run
