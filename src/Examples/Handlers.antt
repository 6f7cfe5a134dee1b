-- ===== src/Examples/Handlers.antt =====
-- The example servers: echoes and notifications.
use tcp_udp.Base.{◌≡◌, refl, some, [], ◌∷◌, arith}
use tcp_udp.Std.Text.{codes}
use tcp_udp.Common.Buffer.{owned_buffer}
use tcp_udp.Sys.Exec.{ok}
use tcp_udp.Sys.Loop.{finished, while_not_cancelled}
use tcp_udp.Sys.World.{World, Os}
use tcp_udp.Sys.World
use tcp_udp.Sys.Trace.{writes_out, chunks, datagrams_out}
use tcp_udp.Tcp.Messages.{echo_response, notification}
use tcp_udp.Tcp.Echo.{EchoTask}
use tcp_udp.Tcp.Echo
use tcp_udp.Tcp.Echoes.{Echoed, handle_client-Echoed}
use tcp_udp.Tcp.Notifying.{Client, Handler, Task, round, run_task, process_message, erase_first}
use tcp_udp.Tcp.Notified.{process_message-writes}
use tcp_udp.Tcp.Notifications.{Answered, answers, loop-Answered}
use tcp_udp.Tcp.Departure.{run_task_lem}
use tcp_udp.Udp
use tcp_udp.Udp.Echo.{handle_client-echoes}
use tcp_udp.Examples.Scripted.{
  peer, scripted, scripted-IsPosix, stop_set, lively, session, small_buffer,
}

abbrev echo_task : EchoTask
echo_task = record { world = World.start; buffer_in = small_buffer }

handle_client-Echoed_example :
    Echoed (session 5) (Echo.handle_client (scripted lively) 4 (session 5) echo_task).1
handle_client-Echoed_example =
    handle_client-Echoed (scripted lively) (session 5) 4 echo_task (scripted-IsPosix lively) refl

abbrev first : Client
first = record { pointer = 1; session = session 5 }

abbrev second : Client
second = record { pointer = 2; session = session 6 }

abbrev third : Client
third = record { pointer = 3; session = session 7 }

abbrev handler : Handler
handler = record { world = World.start; active_sessions = first ∷ second ∷ third ∷ [] }

abbrev task : Task
task = record { handler = handler; buffer_in = small_buffer }

process_message-writes_example :
    (writes_out (process_message (scripted lively) (codes "hi") second handler).1.world.calls
      ≡ (some 6, codes "echo [hi]")
        ∷ (some 5, codes "notify [hi]")
        ∷ (some 7, codes "notify [hi]")
        ∷ [])
    × ((process_message (scripted lively) (codes "hi") second handler).1.active_sessions
        ≡ first ∷ second ∷ third ∷ [])
    × ((process_message (scripted lively) (codes "hi") second handler).0 ≡ ok tt)
unfolding echo_response notification
process_message-writes_example =
    process_message-writes (scripted lively) (codes "hi") second handler

loop-Answered_example :
    Answered second
      (first ∷ second ∷ third ∷ [])
      (while_not_cancelled
        (λ u. (scripted lively).cancelled u.handler.world.time)
        (round (scripted lively) second)
        4
        task).1
loop-Answered_example =
    loop-Answered (scripted lively) second (first ∷ second ∷ third ∷ []) 4 task
      (scripted-IsPosix lively) (refl, refl)

run_task_lem_example :
    let ended = run_task (scripted lively) 4 second task in
    (ended.0 ≡ ok finished)
    × (ended.1.handler.active_sessions ≡ first ∷ third ∷ [])
    × (writes_out ended.1.handler.world.calls
        ≡ answers second (first ∷ second ∷ third ∷ []) (chunks ended.1.handler.world.calls))
unfolding erase_first
run_task_lem_example =
    run_task_lem (scripted lively) second 3 3 task (scripted-IsPosix lively) (stop_set lively)
      (omega arith) (refl, refl)

handle_client-echoes_example :
    (datagrams_out (Udp.Echo.handle_client (scripted lively) (some 4) World.start).1.calls
      ≡ (codes "echo ping", peer) ∷ [])
    × ((Udp.Echo.handle_client (scripted lively) (some 4) World.start).0 ≡ ok tt)
unfolding Udp.Echo.echo_message owned_buffer
handle_client-echoes_example =
    handle_client-echoes (scripted lively) (some 4) World.start (scripted-IsPosix lively)
