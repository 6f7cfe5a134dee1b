-- ===== src/Examples/EndToEnd.antt =====
-- Both proxies, with one client.
use tcp_udp.Base.{◌≡◌, refl, sym, ◌∙◌, some, [], ◌∷◌, bytes_eq, All}
use tcp_udp.Std.Text.{codes}
use tcp_udp.Std.Decimal.{to_string}
use tcp_udp.Common.Endpoint.{get_address_string, print}
use tcp_udp.Common.Buffer.{fill, owned_buffer}
use tcp_udp.Sys.World.{start}
use tcp_udp.Sys.Loop.{while_not_cancelled}
use tcp_udp.Sys.Trace.{chunks, accepted}
use tcp_udp.Io.{from_size}
use tcp_udp.Udp.Client.{send_to}
use tcp_udp.ServerProxy.Forwarder.{Forwarder, Route, forward_tcp_to_udp}
use tcp_udp.ClientProxy.Handler.{create}
use tcp_udp.ClientProxy.Runs.{run}
use tcp_udp.ClientProxy.View.{offer_of}
use tcp_udp.ClientProxy.Refinement.{seen, seen_all}
use tcp_udp.ClientProxy.Streams.{written_on}
use tcp_udp.ClientProxy.Streamed.{inputs}
use tcp_udp.Tunnel.Carried.{arrived, IsOffered, sent, flatten, tunnel_carries}
use tcp_udp.Examples.Relay.{one, one-AreFresh, one-IsWhole, found_after_run, bound_by_run}
use tcp_udp.Examples.Scripted.{
  Script, peer, server, scripted, scripted-IsPosix, lively, session, small_buffer,
}

abbrev route : Route
route = record {
  udp_proxy = server;
  udp_client = record { local_endpoint = peer; socket = some 4 };
}

-- One read of "ping", and then the flag is set.
abbrev talking : Script
talking = record lively { stream = some (codes "ping"); stop = 1 }

abbrev forwarder : Forwarder
forwarder = record { world = start; tcp_buffer = small_buffer }

abbrev forwarded : Forwarder
forwarded = (forward_tcp_to_udp (scripted talking) route 4 (session 5) (codes "a:1") forwarder).1

forwarded_once : sent forwarded ≡ codes "ping" ∷ []
unfolding forward_tcp_to_udp from_size send_to fill while_not_cancelled
forwarded_once = refl

one-IsOffered : All IsOffered (inputs (scripted lively) (some 4) server start one)
unfolding seen_all seen from_size owned_buffer create offer_of
one-IsOffered = ((some 9, refl), tt)

arrived_once :
    arrived (print peer) (inputs (scripted lively) (some 4) server start one) ≡ codes "ping" ∷ []
unfolding seen_all seen from_size owned_buffer create offer_of bytes_eq print get_address_string
    to_string
arrived_once = refl

tunnel_carries_example :
    written_on
      (some 9)
      (accepted (run (scripted lively) (some 4) one (create server start)).manager.world.calls)
    ≡ flatten (chunks forwarded.world.calls)
tunnel_carries_example =
    tunnel_carries (scripted lively) (some 4) server start one (scripted-IsPosix lively)
      one-AreFresh one-IsOffered (scripted talking) route (session 5) (codes "a:1") 4 forwarder peer
      bound_by_run (scripted-IsPosix talking) refl (arrived_once ∙ sym forwarded_once) one-IsWhole
      found_after_run
