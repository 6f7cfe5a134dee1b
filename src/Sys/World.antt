-- ===== src/Sys/World.antt =====
-- The program's boundary: the calls that it makes of ACE and of the operating system, what they
-- answer, and what it logs. ACE is no part of the program: its answers are the parameter `Os`.
use tcp_udp.Base.{ℕ, suc, ◌≡◌, Bool, Option, List, [], ◌∷◌, ◌++◌, length}
use tcp_udp.Base.Int.{ℤ, pos, negsuc, ◌≤ℤ◌}
use tcp_udp.Std.Text.{Bytes}
use tcp_udp.Common.Endpoint.{Endpoint}
use tcp_udp.Sys.Exec.{Message, ok, Exec}

-- `ACE_Time_Value`.
pub record TimeValue : Type 0 where
  pub sec : ℕ
  pub usec : ℕ

-- What is registered with a reactor: the listening handler of a TCP server, the handler of a UDP
-- server, the UDP client of a server proxy, or the binding on a socket.
pub data Owner : Type 0 where
  acceptor udp_server udp_client : Owner
  binding : Option ℕ → Owner

-- Sockets are numbered. An absent time limit is a call that blocks. The last calls are those of the
-- check of a port: of a stream socket by its descriptor, bound to every address, and of `system`.
pub data Call : Type 0 where
  stream_connect : Endpoint → Endpoint → Call
  stream_recv : Option ℕ → ℤ → Option TimeValue → Call
  stream_send : Option ℕ → Bytes → ℤ → Option TimeValue → Call
  stream_linger : Option ℕ → Call
  stream_close : Option ℕ → Call
  dgram_open : Endpoint → Call
  dgram_recv : Option ℕ → ℤ → Option TimeValue → Call
  dgram_send : Option ℕ → Bytes → ℤ → Endpoint → Option TimeValue → Call
  dgram_close : Option ℕ → Call
  acceptor_open : Endpoint → Call
  acceptor_accept : Option ℕ → Call
  acceptor_close : Option ℕ → Call
  register_handler : Owner → Call
  remove_handler : Owner → Call
  register_sigint : Call
  remove_sigint : Call
  run_event_loop : Call
  end_event_loop : Call
  socket_open : Call
  socket_reuse : ℤ → Call
  socket_bind : ℤ → ℕ → Call
  socket_close : ℤ → Call
  shell : Bytes → Call

-- What a call leaves: its value, `ACE_OS::last_error()`, the bytes that it put at the front of the
-- buffer, the address that it filled in (as `to_endpoint` reads it), and a new socket.
pub record Reply : Type 0 where
  pub value : ℤ
  pub last_error : ℕ
  pub bytes : Bytes
  pub address : Endpoint
  pub socket : ℕ

-- The answer to the `t`-th call of a thread, for every `t` and every call, and the value of the
-- thread's flag `cancelled` at that time.
pub record Os : Type 0 where
  pub reply : ℕ → Call → Reply
  pub cancelled : ℕ → Bool

pub data LogLevel : Type 0 where
  debug info error : LogLevel

-- One call of `ILogger::log`.
pub record Entry : Type 0 where
  pub level : LogLevel
  pub message : Message

-- What one thread has done so far, oldest first.
pub record World : Type 0 where
  pub time : ℕ
  pub calls : List (Call × Reply)
  pub logs : List Entry

abbrev pub start : World
start = record { time = 0; calls = []; logs = [] }

module _ (os : Os) where
  unfoldable pub ask : Call → Exec World Reply
  ask c w = (
    ok (os.reply w.time c),
    record w { time = suc w.time; calls = w.calls ++ (c, os.reply w.time c) ∷ [] },
  )

unfoldable pub log : LogLevel → Message → Exec World (Unit {0})
log l m w = (ok tt, record w { logs = w.logs ++ record { level = l; message = m } ∷ [] })

-- What `recv` of a socket documents: with a positive value, that many bytes are in the buffer, at
-- most as many as were asked for; a negative value is -1.
abbrev pub Received : ℤ → Bytes → ℤ → Type 0
Received (pos n) bytes limit = (length bytes ≡ n) × (pos n ≤ℤ limit)
Received (negsuc n) bytes limit = n ≡ 0

pub record IsPosix (os : Os) : Type 0 where
  pub stream_received :
      (t : ℕ) (h : Option ℕ) (limit : ℤ) (d : Option TimeValue)
      → let r = os.reply t (stream_recv h limit d) in Received r.value r.bytes limit
  pub dgram_received :
      (t : ℕ) (h : Option ℕ) (limit : ℤ) (d : Option TimeValue)
      → let r = os.reply t (dgram_recv h limit d) in Received r.value r.bytes limit
