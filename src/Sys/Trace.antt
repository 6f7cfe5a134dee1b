-- ===== src/Sys/Trace.antt =====
-- What an observer reads off a list of calls.
use tcp_udp.Base.{
  ℕ, zero, suc, ◌≡◌, refl, Option, List, [], ◌∷◌, ◌++◌, append-nil, append_assoc, length, take,
  take_all, All, ap, arith,
}
use tcp_udp.Base.Int.{ℤ, pos, negsuc}
use tcp_udp.Std.Text.{Bytes}
use tcp_udp.Common.Endpoint.{Endpoint}
use tcp_udp.Sys.World.{Call, Reply, stream_recv, stream_send, dgram_recv, dgram_send}

module _ {ℓ} {A : Type ℓ} where
  abbrev pub observe : (Call → Reply → List A) → List (Call × Reply) → List A
  observe f [] = []
  observe f ((c, r) ∷ l) = f c r ++ observe f l

  pub observe-append :
      (f : Call → Reply → List A) (l m : List (Call × Reply))
      → observe f (l ++ m) ≡ observe f l ++ observe f m
  observe-append f [] m = refl
  observe-append f ((c, r) ∷ l) m = simp (observe-append f l m, append_assoc)

  -- One more call.
  pub observe-snoc :
      (f : Call → Reply → List A) (l : List (Call × Reply)) (c : Call) (r : Reply)
      → observe f (l ++ (c, r) ∷ []) ≡ observe f l ++ f c r
  observe-snoc f l c r = simp (observe-append f l, append-nil)

-- The bytes of a read that returned a positive count.
abbrev pub data_of : ℤ → Bytes → List Bytes
data_of (pos zero) bytes = []
data_of (pos (suc n)) bytes = bytes ∷ []
data_of (negsuc n) bytes = []

abbrev pub chunk : Call → Reply → List Bytes
chunk (stream_recv _ _ _) r = data_of r.value r.bytes
chunk _ r = []

abbrev pub datagram_in : Call → Reply → List Bytes
datagram_in (dgram_recv _ _ _) r = data_of r.value r.bytes
datagram_in _ r = []

abbrev pub datagram_out : Call → Reply → List (Bytes × Endpoint)
datagram_out (dgram_send _ bytes _ dest _) r = (bytes, dest) ∷ []
datagram_out _ r = []

abbrev pub write_out : Call → Reply → List (Option ℕ × Bytes)
write_out (stream_send socket bytes _ _) r = (socket, bytes) ∷ []
write_out _ r = []

-- What was read from TCP connections, in order.
abbrev pub chunks : List (Call × Reply) → List Bytes
chunks = observe chunk

-- What was received in datagrams, in order.
abbrev pub datagrams_in : List (Call × Reply) → List Bytes
datagrams_in = observe datagram_in

-- The datagrams that were sent, with their destinations, in order.
abbrev pub datagrams_out : List (Call × Reply) → List (Bytes × Endpoint)
datagrams_out = observe datagram_out

-- What was written to TCP connections, with their sockets, in order.
abbrev pub writes_out : List (Call × Reply) → List (Option ℕ × Bytes)
writes_out = observe write_out

-- What a sending call takes of its bytes: as many as its value says.
abbrev pub taken : ℤ → Bytes → Bytes
taken (pos n) bytes = take n bytes
taken (negsuc n) bytes = []

abbrev pub accept : Call → Reply → List (Option ℕ × Bytes)
accept (stream_send socket bytes _ _) r = (socket, taken r.value bytes) ∷ []
accept _ r = []

-- What TCP connections took of what was written to them, with their sockets, in order.
abbrev pub accepted : List (Call × Reply) → List (Option ℕ × Bytes)
accepted = observe accept

-- A sending call on a TCP connection took all of its bytes.
abbrev pub IsWhole : Call × Reply → Type 0
IsWhole (stream_send _ bytes _ _, r) = r.value ≡ pos (length bytes)
IsWhole _ = Unit

taken_all : (r : Reply) (bytes : Bytes) → r.value ≡ pos (length bytes) → taken r.value bytes ≡ bytes
taken_all r bytes h = rw h (take_all (length bytes) bytes (omega arith))

accept-IsWhole : (c : Call) (r : Reply) → IsWhole (c, r) → accept c r ≡ write_out c r
accept-IsWhole (stream_send socket bytes _ _) r h = ap (λ b. (socket, b) ∷ []) (taken_all r bytes h)
accept-IsWhole _ r h = refl

-- Where every call took all, the connections took what was written to them.
pub accepted-IsWhole : (l : List (Call × Reply)) → All IsWhole l → accepted l ≡ writes_out l
accepted-IsWhole [] h = refl
accepted-IsWhole ((c, r) ∷ l) (whole, h) = rw (accept-IsWhole c r whole, accepted-IsWhole l h) refl
