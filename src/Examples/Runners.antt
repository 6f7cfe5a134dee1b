-- ===== src/Examples/Runners.antt =====
-- The notifiable client, the echo test, and a server in the background.
use tcp_udp.Base.{◌≡◌, ◌⊎◌, refl, sym, ap, true, false, Option, none, some, [], ◌∷◌}
use tcp_udp.Std.Text.{codes}
use tcp_udp.Sys.Exec.{ok}
use tcp_udp.Sys.World.{start}
use tcp_udp.Sys.Trace.{observe}
use tcp_udp.Tcp.Session.{Session, Side, server_session}
use tcp_udp.Notifiable.Client.{NotifiableClient, stop}
use tcp_udp.Notifiable.Lifecycle.{closed, IsStopped, stop-IsStopped}
use tcp_udp.Programs.Background.{
  waiting, creating, returned, calling, serving, joining, begin, Runner, Reach, Step, at_begin,
  by_step, here, next, spawns, creates, sets, wakes, calls,
}
use tcp_udp.Programs.Joining.{Ends, Reach-Ends, lost_stop_waits}
use tcp_udp.Examples.Scripted.{scripted, lively, session}

abbrev connected : NotifiableClient
connected = record {
  world = start;
  client = some (record { session = some (session 9); endpoints = (session 9).endpoints });
  session = some (session 9);
  running = true;
  current_client_id = codes "client1";
  sender_thread = true;
  receiver_thread = true;
}

side_or : Option Session → Side
side_or none = server_session
side_or (some s) = s.side

own : (s : Session) → some (session 9) ≡ some s → s.side ≡ server_session
unfolding side_or
own s e = sym (ap side_or e)

stop-IsStopped_example :
    ((true ≡ true)
      × ((d : NotifiableClient) × (stop (scripted lively) true true connected ≡ some (ok tt, d))
          × IsStopped connected d
          × (observe closed d.world.calls ≡ some 9 ∷ [])))
    ⊎ ((true ≡ false) × (stop (scripted lively) true true connected ≡ none))
stop-IsStopped_example = stop-IsStopped (scripted lively) true true connected own

-- A sender in a write that never returns: the connection stays open.
stop_blocked : stop (scripted lively) false true connected ≡ none
unfolding stop
stop_blocked = refl

Reach-Ends_example : Ends true (record begin { caller = waiting; worker = creating })
Reach-Ends_example = Reach-Ends true refl (by_step at_begin (spawns begin refl))

-- `startServer` returns before the thread calls `runner`.
abbrev back : Runner
back = record begin { caller = returned; worker = calling; promised = true }

back-Reach : Reach false back
back-Reach =
    by_step (by_step (by_step (by_step at_begin (spawns _ refl)) (creates _ refl)) (sets _ refl))
      (wakes _ refl refl)

abbrev lost : Runner
lost = record back { caller = joining }

lost_stop_waits_example :
    Step false back lost × (joining ≡ joining) × ((serving ≡ calling) ⊎ (serving ≡ serving))
lost_stop_waits_example = lost_stop_waits back-Reach refl refl (next here (calls lost refl))
