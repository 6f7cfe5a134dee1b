-- ===== src/ServerProxy/Registry.antt =====
-- Which TCP clients are registered, and for how long.
use tcp_udp.Base.{ℕ, suc, ◌+◌, ◌≤◌, ◌≡◌, ◌≢◌, refl, true, none, some, arith}
use tcp_udp.Std.Text.{Bytes}
use tcp_udp.Std.Dict.{
  lookup, erase, IsMap, insert-IsMap, lookup-insert_self, lookup-insert_ne, lookup-erase_self,
  lookup-erase_ne,
}
use tcp_udp.Sys.Exec.{ok}
use tcp_udp.Sys.Loop.{finished}
use tcp_udp.Sys.World.{Os}
use tcp_udp.Tcp.Session.{Session}
use tcp_udp.ServerProxy.Forwarder.{Route, forward_tcp_to_udp}
use tcp_udp.ServerProxy.Forwarding.{forward_tcp_to_udp-finished}
use tcp_udp.ServerProxy.ClientHandler.{
  Proxy, Task, forwarder, generate_client_key, handle_client, run_task,
}

-- A new client is registered under the printed address of its peer, and its task has that key and
-- its session; the other entries stay, and no key gets two entries.
pub handle_client_lem :
    (s : Session) (p : Proxy)
    → let q = (handle_client s p).1 in
      let key = generate_client_key s in
      ((handle_client s p).0 ≡ ok (record { session = s; client_key = key }))
      × (lookup key q.udp_handler.tcp_sessions ≡ some (some s))
      × ((j : Bytes)
          → key ≢ j
          → lookup j q.udp_handler.tcp_sessions ≡ lookup j p.udp_handler.tcp_sessions)
      × (IsMap p.udp_handler.tcp_sessions → IsMap q.udp_handler.tcp_sessions)
unfolding handle_client
handle_client_lem s p = (
  refl,
  lookup-insert_self (generate_client_key s) (some s) p.udp_handler.tcp_sessions,
  λ j ne. lookup-insert_ne (generate_client_key s) j (some s) p.udp_handler.tcp_sessions ne,
  λ h. insert-IsMap (generate_client_key s) (some s) p.udp_handler.tcp_sessions h,
)

module _ (os : Os) (route : Route) where
  run_task-sessions :
      (rounds : ℕ) (task : Task) (p : Proxy)
      → (forward_tcp_to_udp os route rounds task.session task.client_key (forwarder p)).0
        ≡ ok finished
      → ((run_task os route rounds task p).0 ≡ ok finished)
        × ((run_task os route rounds task p).1.udp_handler.tcp_sessions
            ≡ erase task.client_key p.udp_handler.tcp_sessions)
  unfolding run_task
  run_task-sessions rounds task p e = ground arith

  -- A task that is cancelled ends, and its client is no longer registered then; the other clients
  -- are. With one round more than the calls up to the one from which the flag is set, it ends.
  pub run_task_unregisters :
      (rounds stop : ℕ) (task : Task) (p : Proxy)
      → ((t : ℕ) → stop ≤ t → os.cancelled t ≡ true)
      → stop ≤ p.udp_handler.world.time + rounds
      → IsMap p.udp_handler.tcp_sessions
      → let ended = run_task os route (suc rounds) task p in
        (ended.0 ≡ ok finished)
        × (lookup task.client_key ended.1.udp_handler.tcp_sessions ≡ none)
        × ((j : Bytes)
            → task.client_key ≢ j
            → lookup j ended.1.udp_handler.tcp_sessions ≡ lookup j p.udp_handler.tcp_sessions)
  run_task_unregisters rounds stop task p set enough map =
      let (ends, left) = run_task-sessions (suc rounds) task p (
        forward_tcp_to_udp-finished os route task.session task.client_key rounds stop (forwarder p)
          set enough) in
      (
        ends,
        rw left (lookup-erase_self task.client_key p.udp_handler.tcp_sessions map),
        λ j ne. rw left (lookup-erase_ne task.client_key j p.udp_handler.tcp_sessions ne),
      )
