-- ===== src/ClientProxy/Streams.antt =====
-- The streams of bytes on the connections of the relay, by sender.
use tcp_udp.Base.{
  ℕ, ◌≡◌, ◌≢◌, refl, ap, inl, inr, Bool, true, false, Option, none, some, List, [], ◌∷◌, ◌++◌,
  append-nil, append_assoc, arith, ◌==◌, if◌then◌else◌, Bool-cases, bytes_eq, ==_iff,
}
use tcp_udp.Std.Text.{Bytes}
use tcp_udp.Common.Endpoint.{print}
use tcp_udp.ClientProxy.Spec.{Route, Relay, Input, arrival, react}

same_socket : Option ℕ → Option ℕ → Bool
same_socket none none = true
same_socket (some a) (some b) = a == b
same_socket _ _ = false

same_socket_refl : (s : Option ℕ) → same_socket s s ≡ true
unfolding same_socket
same_socket_refl none = refl
same_socket_refl (some a) = ground arith

same_socket_ne : (s t : Option ℕ) → s ≢ t → same_socket s t ≡ false
unfolding same_socket
same_socket_ne none none h = absurd (h refl)
same_socket_ne none (some b) h = refl
same_socket_ne (some a) none h = refl
same_socket_ne (some a) (some b) h = elim (Bool-cases (a == b)) [
  | inl e ↦ absurd (h (ap some ((==_iff a b).0 e)))
  | inr e ↦ e
]

-- The bytes that were written to one connection.
unfoldable pub written_on : Option ℕ → List (Option ℕ × Bytes) → Bytes
unfolding same_socket
written_on s [] = []
written_on s ((t, bytes) ∷ l) = (if same_socket s t then bytes else []) ++ written_on s l

pub written_on_self :
    (s : Option ℕ) (bytes : Bytes) (l : List (Option ℕ × Bytes))
    → written_on s (l ++ (s, bytes) ∷ []) ≡ written_on s l ++ bytes
unfolding written_on
written_on_self s bytes [] = rw (same_socket_refl s) (append-nil bytes)
written_on_self s bytes ((t, b) ∷ l) = simp (written_on_self s bytes l, append_assoc)

pub written_on_other :
    (s t : Option ℕ) (bytes : Bytes) (l : List (Option ℕ × Bytes))
    → s ≢ t
    → written_on s (l ++ (t, bytes) ∷ []) ≡ written_on s l
unfolding written_on
written_on_other s t bytes [] h = rw (same_socket_ne s t h) refl
written_on_other s t bytes ((u, b) ∷ l) h = simp (written_on_other s t bytes l h)

-- The bytes on the connection of a route.
abbrev pub so_far : Option Route → List (Option ℕ × Bytes) → Bytes
so_far none up = []
so_far (some r) up = written_on r.socket up

abbrev pub kept : Bytes → Option Route → Option (Option ℕ) → Bytes
kept bytes none none = []
kept bytes none (some s) = bytes
kept bytes (some r) _ = bytes

-- The bytes that an input brings of a sender who has a connection or is given one.
unfoldable pub spoken_now : Bytes → Input → Relay → Bytes
spoken_now key (arrival bytes sender offer) t =
    if bytes_eq (print sender) key then kept bytes (t.routes key) offer else []
spoken_now key _ t = []

unfoldable pub spoken : Bytes → List Input → Relay → Bytes
unfolding spoken_now react
spoken key [] t = []
spoken key (i ∷ is) t = spoken_now key i t ++ spoken key is (react i t)

-- Different keys have different connections.
pub record IsSeparate (t : Relay) : Type 0 where
  pub separate :
      (j k : Bytes) (r s : Route)
      → t.routes j ≡ some r
      → t.routes k ≡ some s
      → r.socket ≡ s.socket
      → j ≡ k

-- A connection that no route has, and to which nothing was written.
pub record IsUnused (socket : Option ℕ) (t : Relay) : Type 0 where
  pub unrouted : (k : Bytes) (r : Route) → t.routes k ≡ some r → r.socket ≢ socket
  pub unwritten : written_on socket t.up ≡ []

-- A new sender is offered an unused connection.
unfoldable pub IsFresh : Input → Relay → Type 0
IsFresh (arrival bytes sender (some socket)) t = t.routes (print sender) ≡ none → IsUnused socket t
IsFresh _ t = Unit

unfoldable pub AreFresh : List Input → Relay → Type 0
unfolding IsFresh react
AreFresh [] t = Unit
AreFresh (i ∷ is) t = IsFresh i t × AreFresh is (react i t)
