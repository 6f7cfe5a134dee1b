-- ===== src/Notifiable/Client.antt =====
-- NotifiableClient.cpp: connecting, starting and stopping. The loops of the threads are in
-- Notifiable/Threads.antt.
use tcp_udp.Base.{Bool, true, false, Option, none, some, [], not, ◌||◌, ◌&&◌, if◌then◌else◌}
use tcp_udp.Std.Text.{Bytes}
use tcp_udp.Common.Endpoint.{Endpoint, from_string, any_loop_back}
use tcp_udp.Sys.Exec.{Exec, Result, ok, pure, zoom, ◌>>=◌, ◌>>◌}
use tcp_udp.Sys.World.{World, Os, LogLevel, log, info}
use tcp_udp.Tcp.Session.{Session}
use tcp_udp.Tcp.Client
use tcp_udp.Tcp.Client.{TcpClient}

-- The threads are told by whether they can be joined.
pub record NotifiableClient : Type 0 where
  pub world : World
  pub client : Option TcpClient
  pub session : Option Session
  pub running : Bool
  pub current_client_id : Bytes
  pub sender_thread : Bool
  pub receiver_thread : Bool

unfoldable pub create : World → NotifiableClient
create w = record {
  world = w;
  client = none;
  session = none;
  running = false;
  current_client_id = [];
  sender_thread = false;
  receiver_thread = false;
}

abbrev on_world : {A : Type 0} → Exec World A → Exec NotifiableClient A
on_world = zoom (λ c. c.world) (λ w c. record c { world = w })

abbrev update : (NotifiableClient → NotifiableClient) → Exec NotifiableClient (Unit {0})
update f c = (ok tt, f c)

-- Whether a thread's `joinable` and `join` return.
abbrev pub returns : Bool → Bool → Bool
returns joinable ends = not joinable || ends

-- The receiver is started first.
unfoldable pub start : Bytes → Exec NotifiableClient (Unit {0})
start client_id = do
  update (λ c. record c { current_client_id = client_id; running = true })
  update (λ c. record c { receiver_thread = true })
  update (λ c. record c { sender_thread = true })

module _ (os : Os) where
  report : Option Session → Exec NotifiableClient Bool
  unfolding log
  report none = do
    on_world (log LogLevel.error (record { format = "Failed to connect to server"; args = [] }))
    pure false
  report (some s) = do
    on_world (log info (record { format = "Connected to server successfully"; args = [] }))
    pure true

  connect_to : Option Endpoint → Exec NotifiableClient (Option Bool)
  unfolding Client.connect report
  connect_to none = pure none
  connect_to (some ep) = do
    (session, client) ← on_world (Client.connect os Client.create any_loop_back ep)
    update (λ c. record c { client = some client; session = session })
    connected ← report session
    pure (some connected)

  -- `create_tcp_client` never returns null. `none` is an exception of `std::stoi`.
  unfoldable pub connect : Bytes → Exec NotifiableClient (Option Bool)
  unfolding connect_to
  connect endpoint = do
    update (λ c. record c { client = some Client.create })
    connect_to (from_string endpoint)

  unfoldable pub disconnect : Option TcpClient → Exec NotifiableClient (Unit {0})
  unfolding Client.disconnect_shared
  disconnect none = pure tt
  disconnect (some client) = do
    client' ← on_world (Client.disconnect_shared os client)
    update (λ c. record c { client = some client' })

  -- What follows the joins of the two threads, which cannot be joined again.
  unfoldable pub finish : Exec NotifiableClient (Unit {0})
  unfolding disconnect
  finish = do
    update (λ c. record c { running = false; sender_thread = false; receiver_thread = false })
    (λ c. disconnect c.client c)

  -- The arguments say whether the loops of the sender and of the receiver end once `running` is false:
  -- a write of the sender has no time limit. `none` is a join that never returns.
  unfoldable pub stop :
      Bool → Bool → NotifiableClient → Option (Result (Unit {0}) × NotifiableClient)
  unfolding finish
  stop sender_ends receiver_ends c =
      if returns c.sender_thread sender_ends && returns c.receiver_thread receiver_ends
      then some (finish c)
      else none
