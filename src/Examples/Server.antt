-- ===== src/Examples/Server.antt =====
-- The server proxy: a broadcast, the forwarding loop, and the registered clients.
use tcp_udp.Base.{◌≡◌, ◌≢◌, refl, ◌↔◌, Option, none, some, List, [], ◌∷◌, ◌++◌, arith}
use tcp_udp.Base.Int.{pos}
use tcp_udp.Std.Text.{Bytes, codes}
use tcp_udp.Std.Dict.{lookup, IsMap}
use tcp_udp.Common.Buffer.{fill}
use tcp_udp.Sys.Exec.{ok}
use tcp_udp.Sys.Loop.{finished}
use tcp_udp.Sys.World.{start}
use tcp_udp.Sys.Trace.{writes_out, datagrams_out}
use tcp_udp.Io.{success, from_size}
use tcp_udp.Tcp.Session.{Session}
use tcp_udp.Udp.Client.{UdpClient, minus_one}
use tcp_udp.ServerProxy.UdpHandler.{UdpHandler, handle_udp_input}
use tcp_udp.ServerProxy.Broadcast.{handle_udp_input-broadcast}
use tcp_udp.ServerProxy.Forwarder.{Forwarder, Route, read_client, handle_result, forward_tcp_to_udp}
use tcp_udp.ServerProxy.Forwarding.{Forwarded, forward_tcp_to_udp-Forwarded}
use tcp_udp.ServerProxy.SharedBuffer.{interleaved_reads_mix}
use tcp_udp.ServerProxy.SharedBuffer
use tcp_udp.ServerProxy.ClientHandler.{Proxy, Task, run_task}
use tcp_udp.ServerProxy.Registry.{run_task_unregisters}
use tcp_udp.Examples.Scripted.{
  peer, server, scripted, scripted-IsPosix, stop_set, lively, session, small_buffer,
}

abbrev udp_client : UdpClient
udp_client = record { local_endpoint = peer; socket = some 4 }

abbrev route : Route
route = record { udp_proxy = server; udp_client = udp_client }

abbrev two_sessions : List (Bytes × Option Session)
two_sessions =
    (codes "a:1", some (session 5)) ∷ (codes "b:2", some (session 6)) ∷ (codes "c:3", none) ∷ []

abbrev handler : UdpHandler
handler = record { world = start; tcp_sessions = two_sessions; buffer = small_buffer }

abbrev forwarder : Forwarder
forwarder = record { world = start; tcp_buffer = small_buffer }

handle_udp_input-broadcast_example :
    (writes_out (handle_udp_input (scripted lively) udp_client handler).1.world.calls
      ≡ (some 5, codes "ping") ∷ (some 6, codes "ping") ∷ [])
    × ((handle_udp_input (scripted lively) udp_client handler).1.tcp_sessions ≡ two_sessions)
    × (((handle_udp_input (scripted lively) udp_client handler).0 ≡ ok minus_one)
        ↔ (pos 4 ≡ minus_one))
handle_udp_input-broadcast_example =
    handle_udp_input-broadcast (scripted lively) udp_client handler (scripted-IsPosix lively)

forward_tcp_to_udp-Forwarded_example :
    Forwarded route
      (forward_tcp_to_udp (scripted lively) route 4 (session 5) (codes "a:1") forwarder).1
forward_tcp_to_udp-Forwarded_example =
    forward_tcp_to_udp-Forwarded (scripted lively) route (session 5) (codes "a:1") 4 forwarder
      (scripted-IsPosix lively) refl

abbrev proxy : Proxy
proxy = record { udp_handler = handler; tcp_buffer = small_buffer }

two_sessions-IsMap : IsMap two_sessions
two_sessions-IsMap = (
  (λ e. ground (arith, e), (λ e. ground (arith, e), tt)),
  ((λ e. ground (arith, e), tt), (tt, tt)),
)

run_task_unregisters_example :
    let task : Task = record { session = session 5; client_key = codes "a:1" } in
    let ended = run_task (scripted lively) route 4 task proxy in
    (ended.0 ≡ ok finished)
    × (lookup (codes "a:1") ended.1.udp_handler.tcp_sessions ≡ none)
    × ((j : Bytes)
        → codes "a:1" ≢ j
        → lookup j ended.1.udp_handler.tcp_sessions ≡ lookup j two_sessions)
run_task_unregisters_example =
    run_task_unregisters (scripted lively) route 3 3
      (record { session = session 5; client_key = codes "a:1" }) proxy (stop_set lively)
      (omega arith) two_sessions-IsMap

read_a :
    (SharedBuffer.result_a
      (scripted lively)
      route
      (session 5)
      (session 6)
      (codes "a:1")
      forwarder).code
    ≡ success
unfolding from_size
read_a = refl

interleaved_reads_mix_example :
    let result =
      SharedBuffer.result_a
        (scripted lively)
        route
        (session 5)
        (session 6)
        (codes "a:1")
        forwarder in
    let after_a = (read_client (scripted lively) route (session 5) forwarder).1 in
    let after_b = (read_client (scripted lively) route (session 6) after_a).1 in
    datagrams_out
      (handle_result (scripted lively) route (codes "a:1") result result.code after_b).1.world.calls
    ≡ datagrams_out after_b.world.calls ++ (codes "pong", server) ∷ []
unfolding read_client from_size fill
interleaved_reads_mix_example =
    interleaved_reads_mix (scripted lively) route (session 5) (session 6) (codes "a:1") forwarder
      read_a (omega arith)
