-- ===== src/Common/Buffer.antt =====
-- include/common/Buffer.h, OwnedBuffer.h and src/common/Constants.h. A `ConstBuffer` that is read is
-- the bytes that it shows; the store that a `Buffer` points to is an `OwnedBuffer`.
use tcp_udp.Base.{
  ℕ, zero, suc, ◌≤◌, ◌≡◌, refl, ◌≢◌, [], ◌∷◌, ◌++◌, arith, ◌==◌, if◌then◌else◌, length, take, drop,
  take-length_append, length-append, length-drop,
}
use tcp_udp.Std.Text.{Bytes}

abbrev pub small_buffer_size : ℕ
small_buffer_size = 256

abbrev pub standard_buffer_size : ℕ
standard_buffer_size = 1024

abbrev pub large_buffer_size : ℕ
large_buffer_size = 2048

abbrev pub max_port : ℕ
max_port = 65535

abbrev pub default_tcp_port : ℕ
default_tcp_port = 12345

-- Milliseconds.
abbrev pub short_timeout : ℕ
short_timeout = 100

abbrev pub standard_timeout : ℕ
standard_timeout = 1000

-- `vec_(size)`: as many zero bytes.
unfoldable pub owned_buffer : ℕ → Bytes
owned_buffer zero = []
owned_buffer (suc n) = 0 ∷ owned_buffer n

-- The bytes that `view(size)` shows; `view()` and `view(0)` show the whole buffer.
unfoldable pub view : Bytes → ℕ → Bytes
view vec size = if size == 0 then vec else take size vec

-- A call that fills the buffer from its front leaves the bytes behind as they were.
unfoldable pub fill : Bytes → Bytes → Bytes
fill received vec = received ++ drop (length received) vec

pub length-owned_buffer : (n : ℕ) → length (owned_buffer n) ≡ n
unfolding owned_buffer
length-owned_buffer zero = refl
length-owned_buffer (suc n) = omega (arith, length-owned_buffer n)

pub length-fill :
    (received vec : Bytes) → length received ≤ length vec → length (fill received vec) ≡ length vec
unfolding fill
length-fill received vec h =
    omega (
      arith,
      length-append received (drop (length received) vec),
      length-drop (length received) vec,
    )

-- What was received is what the view of that size shows, if something was received.
pub view-fill :
    (received vec : Bytes) → received ≢ [] → view (fill received vec) (length received) ≡ received
unfolding view fill
view-fill [] vec h = absurd (h refl)
view-fill (c ∷ r) vec h = ground (arith, take-length_append (c ∷ r) (drop (length (c ∷ r)) vec))
