-- ===== src/Examples/Scripted.antt =====
-- An operating system with fixed answers.
use tcp_udp.Base.{
  ℕ, ◌≤◌, ◌≡◌, refl, inl, inr, true, Option, none, some, [], ◌∷◌, arith, leb, if◌then◌else◌,
  Bool-cases, length,
}
use tcp_udp.Base.Int.{ℤ, pos, negsuc}
use tcp_udp.Std.Text.{Bytes, codes}
use tcp_udp.Common.Endpoint.{Endpoint}
use tcp_udp.Sys.World.{
  Os, Reply, Call, IsPosix, Received, stream_connect, stream_recv, stream_send, dgram_recv,
  dgram_send,
}
use tcp_udp.Tcp.Session.{Session, server_session}

abbrev pub peer : Endpoint
peer = record { address = codes "10.0.0.7"; port = 5000 }

abbrev pub server : Endpoint
server = record { address = codes "10.0.0.1"; port = 17000 }

-- What the calls answer: a connection attempt, and a read of a stream and of a datagram, where
-- `none` is a timeout. The flag is set from the call numbered `stop` on.
pub record Script : Type 0 where
  pub connect : ℤ
  pub stream : Option Bytes
  pub datagram : Option Bytes
  pub stop : ℕ

-- Error number 11 is EAGAIN.
abbrev answer : ℤ → Bytes → Reply
answer value bytes = record {
  value = value;
  last_error = 11;
  bytes = bytes;
  address = peer;
  socket = 9;
}

abbrev received : Option Bytes → ℤ → Reply
received none limit = answer (negsuc 0) []
received (some bytes) (negsuc n) = answer (negsuc 0) []
received (some bytes) (pos n) =
    if leb (length bytes) n then answer (pos (length bytes)) bytes else answer (negsuc 0) []

abbrev reply_of : Script → Call → Reply
reply_of s (stream_connect _ _) = answer s.connect []
reply_of s (stream_recv _ limit _) = received s.stream limit
reply_of s (dgram_recv _ limit _) = received s.datagram limit
reply_of s (stream_send _ bytes _ _) = answer (pos (length bytes)) []
reply_of s (dgram_send _ bytes _ _ _) = answer (pos (length bytes)) []
reply_of s _ = answer (pos 0) []

abbrev pub scripted : Script → Os
scripted s = record { reply = λ t c. reply_of s c; cancelled = λ t. leb s.stop t }

received-Received :
    (bytes : Option Bytes) (limit : ℤ)
    → let r = received bytes limit in Received r.value r.bytes limit
received-Received none limit = refl
received-Received (some bytes) (negsuc n) = refl
received-Received (some bytes) (pos n) = elim (Bool-cases (leb (length bytes) n)) [
  | inl e ↦ rw e (refl, ground arith)
  | inr e ↦ rw e refl
]

pub scripted-IsPosix : (s : Script) → IsPosix (scripted s)
scripted-IsPosix s = record {
  stream_received = λ t h limit d. received-Received s.stream limit;
  dgram_received = λ t h limit d. received-Received s.datagram limit;
}

abbrev short_reply : ℤ → Script → Call → Reply
short_reply value s (stream_send _ _ _ _) = answer value []
short_reply value s c = reply_of s c

-- The same system, where every write to a TCP connection has one value.
abbrev pub taking : ℤ → Script → Os
taking value s = record { reply = λ t c. short_reply value s c; cancelled = λ t. leb s.stop t }

pub taking-IsPosix : (value : ℤ) (s : Script) → IsPosix (taking value s)
taking-IsPosix value s = record {
  stream_received = λ t h limit d. received-Received s.stream limit;
  dgram_received = λ t h limit d. received-Received s.datagram limit;
}

pub stop_set : (s : Script) (t : ℕ) → s.stop ≤ t → (scripted s).cancelled t ≡ true
stop_set s t h = ground arith

-- Everything succeeds; the server refuses; the UDP socket is silent; the stream is at its end.
abbrev pub lively : Script
lively = record {
  connect = pos 0;
  stream = some (codes "pong");
  datagram = some (codes "ping");
  stop = 3;
}

abbrev pub refusing : Script
refusing = record lively { connect = negsuc 0 }

abbrev pub silent : Script
silent = record lively { datagram = none }

abbrev pub ending : Script
ending = record lively { stream = some [] }

abbrev pub session : ℕ → Session
session socket = record {
  side = server_session;
  endpoints = record { local = peer; remote = server };
  socket = some socket;
  address = server;
}

abbrev pub small_buffer : Bytes
small_buffer = 0 ∷ 0 ∷ 0 ∷ 0 ∷ 0 ∷ 0 ∷ 0 ∷ 0 ∷ []
