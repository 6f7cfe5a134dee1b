-- ===== src/ClientProxy/Spec.antt =====
-- What `libtcpclientproxy` promises, without its buffers, sessions, logs and calls: a table that
-- takes the printed address of a sender to the TCP connection that speaks for it, what was written
-- to the connections, and what was sent back in datagrams.
use tcp_udp.Base.{ℕ, Option, none, some, List, [], ◌∷◌, ◌++◌, bytes_eq, if◌then◌else◌}
use tcp_udp.Std.Text.{Bytes}
use tcp_udp.Common.Endpoint.{Endpoint, print}

-- The connection that speaks for a sender.
pub record Route : Type 0 where
  pub sender : Endpoint
  pub socket : Option ℕ

pub record Relay : Type 0 where
  pub routes : Bytes → Option Route
  pub up : List (Option ℕ × Bytes)
  pub down : List (Bytes × Endpoint)

abbrev pub empty : List (Option ℕ × Bytes) → List (Bytes × Endpoint) → Relay
empty up down = record { routes = λ key. none; up = up; down = down }

-- What reaches the proxy: bytes of a sender, with the connection that the TCP server offers for a
-- new one, if it does; bytes on the connection of a key; or nothing to do.
pub data Input : Type 0 where
  arrival : Bytes → Endpoint → Option (Option ℕ) → Input
  answer : Bytes → Bytes → Input
  idle : Input

unfoldable pub bind : Bytes → Route → (Bytes → Option Route) → Bytes → Option Route
bind key r routes k = if bytes_eq key k then some r else routes k

abbrev pub pass_up : Bytes → Endpoint → Option (Option ℕ) → Option Route → Relay → Relay
pass_up bytes sender offer (some r) t = record t { up = t.up ++ (r.socket, bytes) ∷ [] }
pass_up bytes sender none none t = t
pass_up bytes sender (some socket) none t = record t {
  routes = bind (print sender) (record { sender = sender; socket = socket }) t.routes;
  up = t.up ++ (socket, bytes) ∷ [];
}

abbrev pub pass_down : Bytes → Option Route → Relay → Relay
pass_down bytes none t = t
pass_down bytes (some r) t = record t { down = t.down ++ (bytes, r.sender) ∷ [] }

unfoldable pub react : Input → Relay → Relay
react (arrival bytes sender offer) t = pass_up bytes sender offer (t.routes (print sender)) t
react (answer key bytes) t = pass_down bytes (t.routes key) t
react idle t = t

unfoldable pub react_all : List Input → Relay → Relay
unfolding react
react_all [] t = t
react_all (i ∷ is) t = react_all is (react i t)
