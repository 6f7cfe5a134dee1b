-- ===== src/Io/Transfer.antt =====
-- The bytes that a reading call hands to its caller.
use tcp_udp.Base.{
  ap, ◌⊎◌, inl, inr, ℕ, zero, suc, ◌≡◌, ◌≢◌, refl, [], ◌∷◌, arith, length, take, drop,
  take-length_append,
}
use tcp_udp.Base.Int.{ℤ, pos, negsuc}
use tcp_udp.Std.Text.{Bytes}
use tcp_udp.Common.Buffer.{fill}
use tcp_udp.Sys.World.{Received}
use tcp_udp.Sys.Trace.{data_of}
use tcp_udp.Io.{success, from_size}

-- After a successful read the first `count` bytes of the buffer are what the call received.
pub handed_over :
    (v : ℤ) (e : ℕ) (bytes buffer : Bytes) (limit : ℤ)
    → Received v bytes limit
    → (from_size v e).code ≡ success
    → (take (from_size v e).count (fill bytes buffer) ≡ bytes) × (data_of v bytes ≡ bytes ∷ [])
unfolding from_size fill
handed_over (pos zero) e bytes buffer limit h good = absurd (ground arith)
handed_over (pos (suc n)) e bytes buffer limit h good =
    ground (arith, take-length_append bytes (drop (length bytes) buffer))
handed_over (negsuc n) e bytes buffer limit h good = absurd (ground arith)

-- A read that is no success hands over nothing.
pub nothing_handed_over :
    (v : ℤ) (e : ℕ) (bytes : Bytes) → (from_size v e).code ≢ success → data_of v bytes ≡ []
unfolding from_size
nothing_handed_over (pos zero) e bytes bad = refl
nothing_handed_over (pos (suc n)) e bytes bad = absurd (bad (ground arith))
nothing_handed_over (negsuc n) e bytes bad = refl

-- The three answers of a receiving call.
pub receiving_cases :
    (v : ℤ) (bytes buffer : Bytes) (limit : ℤ)
    → Received v bytes limit
    → (v ≡ negsuc zero)
      ⊎ ((v ≡ pos zero)
          ⊎ ((n : ℕ) × (v ≡ pos (suc n)) × (take (suc n) (fill bytes buffer) ≡ bytes)))
unfolding fill
receiving_cases (negsuc n) bytes buffer limit h = inl (ap negsuc h)
receiving_cases (pos zero) bytes buffer limit h = inr (inl refl)
receiving_cases (pos (suc n)) bytes buffer limit h =
    inr (inr (n, refl, ground (arith, take-length_append bytes (drop (length bytes) buffer))))
