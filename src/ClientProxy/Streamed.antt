-- ===== src/ClientProxy/Streamed.antt =====
-- What a run of the client proxy writes to the TCP connection of a sender.
use tcp_udp.Base.{ℕ, ◌≡◌, refl, sym, subst, Option, some, List, All}
use tcp_udp.Std.Text.{Bytes}
use tcp_udp.Std.Dict.{lookup}
use tcp_udp.Common.Endpoint.{Endpoint}
use tcp_udp.Sys.World.{World, Os, IsPosix}
use tcp_udp.Sys.Trace.{datagrams_out, writes_out, accepted, IsWhole, accepted-IsWhole}
use tcp_udp.ClientProxy.Binding.{Binding}
use tcp_udp.ClientProxy.Handler.{create}
use tcp_udp.ClientProxy.Runs.{Event, run}
use tcp_udp.ClientProxy.Spec.{Relay, Input, empty}
use tcp_udp.ClientProxy.View.{view}
use tcp_udp.ClientProxy.Refinement.{seen_all, run-create-view}
use tcp_udp.ClientProxy.Streams.{written_on, so_far, spoken, IsSeparate, AreFresh}
use tcp_udp.ClientProxy.Isolation.{react_all-so_far}

module _ (os : Os) (socket : Option ℕ) (tcp_server : Endpoint) (w : World) (es : List Event) where
  -- The relay before the run.
  abbrev pub start_relay : Relay
  start_relay = empty (writes_out w.calls) (datagrams_out w.calls)

  -- What the events of the run bring.
  abbrev pub inputs : List Input
  inputs = seen_all os socket es (create tcp_server w)

  -- What the calls on the connection of a bound sender were given to write.
  run_offers :
      (key : Bytes) (b : Binding)
      → IsPosix os
      → AreFresh inputs start_relay
      → let p = run os socket es (create tcp_server w) in
        lookup key p.manager.bindings ≡ some b
        → written_on b.tcp_session.socket (writes_out p.manager.world.calls)
          ≡ spoken key inputs start_relay
  run_offers key b posix fresh found =
      let p = run os socket es (create tcp_server w) in
      let apart : IsSeparate start_relay = record { separate = λ j k r s h. absurd cc } in
      let streams = react_all-so_far inputs start_relay key apart fresh in
      let shows = run-create-view os socket tcp_server w es posix in
      let at_view : so_far ((view p.manager).routes key) (view p.manager).up
          ≡ spoken key inputs start_relay =
        subst (λ (t : Relay). so_far (t.routes key) t.up ≡ spoken key inputs start_relay)
          (sym shows) streams in
      rw⁻¹ at_view (rw found refl)

  -- After any events, if every write to a TCP connection took all that it was given, and the
  -- operating system offers every new sender a connection that no sender has and nothing was written
  -- to, the bytes that the connection of a bound sender took are exactly the bytes of that sender's
  -- own datagrams, in the order of their arrival, from the one on that it got the connection for.
  pub run_streams :
      (key : Bytes) (b : Binding)
      → IsPosix os
      → AreFresh inputs start_relay
      → let p = run os socket es (create tcp_server w) in
        All IsWhole p.manager.world.calls
        → lookup key p.manager.bindings ≡ some b
        → written_on b.tcp_session.socket (accepted p.manager.world.calls)
          ≡ spoken key inputs start_relay
  run_streams key b posix fresh whole found =
      let p = run os socket es (create tcp_server w) in
      rw (accepted-IsWhole p.manager.world.calls whole) (run_offers key b posix fresh found)
