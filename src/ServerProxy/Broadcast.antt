-- ===== src/ServerProxy/Broadcast.antt =====
-- Who gets a datagram that comes back from the client proxy.
use tcp_udp.Base.{
  ℕ, zero, suc, ◌≡◌, refl, Option, none, some, List, [], ◌∷◌, ◌++◌, append-nil, append_assoc, arith,
  take, length, ◌↔◌, ◌⊎◌, inl, inr,
}
use tcp_udp.Base.Int.{pos, negsuc}
use tcp_udp.Std.Text.{Bytes}
use tcp_udp.Common.Endpoint.{any}
use tcp_udp.Common.Buffer.{fill, standard_timeout}
use tcp_udp.Sys.Exec.{ok, continue}
use tcp_udp.Sys.World.{World, Os, IsPosix, Call, Reply, dgram_recv, log, info}
use tcp_udp.Sys.Trace.{observe-snoc, writes_out, data_of}
use tcp_udp.Tcp.Session.{Session}
use tcp_udp.Io.Transfer.{receiving_cases}
use tcp_udp.Tcp.Effects.{write_call, write_reply}
use tcp_udp.Udp.Client.{UdpClient, minus_one, receive_from}
use tcp_udp.ServerProxy.UdpHandler.{
  received_message, UdpHandler, forward_one, forward_all, handle_udp_input,
}

-- The writes that give `udp_data` to every session that is not null, in the order of the map.
abbrev pub to_all : Bytes → List (Bytes × Option Session) → List (Option ℕ × Bytes)
to_all udp_data [] = []
to_all udp_data ((key, none) ∷ rest) = to_all udp_data rest
to_all udp_data ((key, some s) ∷ rest) = (s.socket, udp_data) ∷ to_all udp_data rest

-- The same for each datagram.
abbrev pub broadcast : List Bytes → List (Bytes × Option Session) → List (Option ℕ × Bytes)
broadcast [] sessions = []
broadcast (d ∷ ds) sessions = to_all d sessions ++ broadcast ds sessions

module _ (os : Os) where
  forward_one-calls :
      (udp_data key : Bytes) (s : Session) (w : World)
      → ((forward_one os udp_data key (some s) w).1.calls
          ≡ w.calls
            ++ (
              write_call os s udp_data (some standard_timeout) w,
              write_reply os s udp_data (some standard_timeout) w,
            )
              ∷ [])
        × ((forward_one os udp_data key (some s) w).0 ≡ ok tt)
  unfolding forward_one
  forward_one-calls udp_data key s w = ground arith

  forward_one-none :
      (udp_data key : Bytes) (w : World) → forward_one os udp_data key none w ≡ (ok tt, w)
  unfolding forward_one
  forward_one-none udp_data key w = refl

  forward_all-writes :
      (udp_data : Bytes) (sessions : List (Bytes × Option Session)) (w : World)
      → (writes_out (forward_all os udp_data sessions w).1.calls
          ≡ writes_out w.calls ++ to_all udp_data sessions)
        × ((forward_all os udp_data sessions w).0 ≡ ok tt)
  unfolding forward_all
  forward_all-writes udp_data [] w = (rw append-nil, refl)
  forward_all-writes udp_data ((key, none) ∷ rest) w =
      rw (forward_one-none udp_data key w) (forward_all-writes udp_data rest w)
  forward_all-writes udp_data ((key, some s) ∷ rest) w =
      let (made, done) = forward_one-calls udp_data key s w in
      let w' = (forward_one os udp_data key (some s) w).1 in
      let ih = forward_all-writes udp_data rest w' in
      rw (done, continue) (simp (ih.0, made, observe-snoc, append_assoc), ih.1)

module _ (os : Os) (c : UdpClient) (h : UdpHandler) where
  abbrev datagram : Reply
  datagram = os.reply h.world.time (dgram_recv c.socket (pos (length h.buffer)) none)

  abbrev asked : Call
  asked = dgram_recv c.socket (pos (length h.buffer)) none

  -- The state of the thread in front of the loop.
  abbrev before_loop : Bytes → World
  before_loop udp_data =
      (log info (received_message datagram.address udp_data)
        (receive_from os c h.buffer any h.world).1).1

  handle_failed :
      datagram.value ≡ negsuc zero
      → ((handle_udp_input os c h).1.world.calls ≡ h.world.calls ++ (asked, datagram) ∷ [])
        × ((handle_udp_input os c h).1.tcp_sessions ≡ h.tcp_sessions)
        × ((handle_udp_input os c h).0 ≡ ok minus_one)
  unfolding handle_udp_input
  handle_failed e = ground arith

  handle_empty :
      datagram.value ≡ pos zero
      → ((handle_udp_input os c h).1.world.calls ≡ h.world.calls ++ (asked, datagram) ∷ [])
        × ((handle_udp_input os c h).1.tcp_sessions ≡ h.tcp_sessions)
        × ((handle_udp_input os c h).0 ≡ ok (pos 0))
  unfolding handle_udp_input
  handle_empty e = ground arith

  before_loop-calls :
      (n : ℕ) (udp_data : Bytes)
      → datagram.value ≡ pos n
      → (before_loop udp_data).calls ≡ h.world.calls ++ (asked, datagram) ∷ []
  unfolding receive_from log
  before_loop-calls n udp_data e = ground arith

  handle_data :
      (n : ℕ)
      → datagram.value ≡ pos (suc n)
      → take (suc n) (fill datagram.bytes h.buffer) ≡ datagram.bytes
      → ((handle_udp_input os c h).1.world
          ≡ (forward_all os datagram.bytes h.tcp_sessions (before_loop datagram.bytes)).1)
        × ((handle_udp_input os c h).1.tcp_sessions ≡ h.tcp_sessions)
        × ((handle_udp_input os c h).0 ≡ ok (pos 0))
  unfolding handle_udp_input
  handle_data n e d =
      ground
        (arith, d, forward_all-writes os datagram.bytes h.tcp_sessions (before_loop datagram.bytes))

  datagram_cases :
      IsPosix os
      → (datagram.value ≡ negsuc zero)
        ⊎ ((datagram.value ≡ pos zero)
            ⊎ ((n : ℕ) × (datagram.value ≡ pos (suc n))
                × (take (suc n) (fill datagram.bytes h.buffer) ≡ datagram.bytes)))
  datagram_cases posix =
      receiving_cases datagram.value datagram.bytes h.buffer (pos (length h.buffer))
        (posix.dgram_received h.world.time c.socket (pos (length h.buffer)) none)

  -- A datagram is given, whole and once, to a write on every registered session that is there, whether
  -- or not the writes to the others succeed; without one nothing is written. The sessions stay registered.
  -- The result is -1 exactly if the receiving call fails.
  pub handle_udp_input-broadcast :
      IsPosix os
      → (writes_out (handle_udp_input os c h).1.world.calls
          ≡ writes_out h.world.calls
            ++ broadcast (data_of datagram.value datagram.bytes) h.tcp_sessions)
        × ((handle_udp_input os c h).1.tcp_sessions ≡ h.tcp_sessions)
        × (((handle_udp_input os c h).0 ≡ ok minus_one) ↔ (datagram.value ≡ minus_one))
  handle_udp_input-broadcast posix = elim (datagram_cases posix) [
    | inl e ↦
        let (made, kept, gave) = handle_failed e in
        (rw (made, e) (simp (observe-snoc, append-nil)), kept, (λ _. e, λ _. gave))
    | inr (inl e) ↦
        let (made, kept, gave) = handle_empty e in
        (
          rw (made, e) (simp (observe-snoc, append-nil)),
          kept,
          (λ q. absurd (ground (arith, gave)), λ q. absurd (ground (arith, e))),
        )
    | inr (inr (n, e, d)) ↦
        let (made, kept, gave) = handle_data n e d in
        let looped =
          forward_all-writes os datagram.bytes h.tcp_sessions (before_loop datagram.bytes) in
        (
          rw (made, e)
              (simp
                (looped.0, before_loop-calls (suc n) datagram.bytes e, observe-snoc, append-nil)),
          kept,
          (λ q. absurd (ground (arith, gave)), λ q. absurd (ground (arith, e))),
        )
  ]
