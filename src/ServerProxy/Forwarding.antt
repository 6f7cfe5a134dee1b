-- ===== src/ServerProxy/Forwarding.antt =====
-- What `forwardTcpToUdp` sends, and when it ends.
use tcp_udp.Base.{
  ℕ, suc, ◌+◌, ◌≤◌, ◌<◌, ◌≡◌, ◌≢◌, ◌⊎◌, inl, inr, some, none, [], ◌∷◌, ◌++◌, map, length,
  append-nil, true, false, arith,
}
use mathlib.Core.List.{map-append}
use tcp_udp.Base.Int.{pos}
use tcp_udp.Std.Text.{Bytes}
use tcp_udp.Common.Buffer.{short_timeout}
use tcp_udp.Sys.Exec.{ok}
use tcp_udp.Sys.Loop.{finished, while_not_cancelled_inv, while_not_cancelled-finished}
use tcp_udp.Sys.World.{Os, IsPosix, Call, Reply, dgram_send}
use tcp_udp.Sys.Trace.{observe-snoc, chunks, datagrams_out}
use tcp_udp.Io.{IoResult, success}
use tcp_udp.Io.Classify.{success-cases}
use tcp_udp.Tcp.Effects.{read_call, read_reply, read_result, read_data, read_nothing}
use tcp_udp.Tcp.Session.{Session}
use tcp_udp.ServerProxy.Forwarder.{Forwarder, Route, round, forward_tcp_to_udp}

-- A datagram to the proxy.
abbrev sent_call : Route → Bytes → Call
sent_call route bytes =
    dgram_send route.udp_client.socket bytes (pos (length bytes)) route.udp_proxy none

module _ (os : Os) (route : Route) (s : Session) (key : Bytes) (f : Forwarder) where
  abbrev got : Reply
  got = read_reply os s f.tcp_buffer (some short_timeout) f.world

  abbrev outcome : IoResult
  outcome = read_result os s f.tcp_buffer (some short_timeout) f.world

  abbrev asked : Call
  asked = read_call os s f.tcp_buffer (some short_timeout) f.world

  -- A round with data makes two calls, and goes on.
  round_data :
      IsPosix os
      → outcome.code ≡ success
      → ((round os route s key f).1.world.calls
          ≡ (f.world.calls ++ (asked, got) ∷ [])
            ++ (sent_call route got.bytes, os.reply (suc f.world.time) (sent_call route got.bytes))
              ∷ [])
  unfolding round
  round_data posix good =
      let (data_is, _) = read_data os s f.tcp_buffer (some short_timeout) f.world posix good in
      ground (arith, data_is)

  round_goes_on :
      outcome.code ≡ success
      → ((round os route s key f).0 ≡ ok true)
        × (f.world.time < (round os route s key f).1.world.time)
  unfolding round
  round_goes_on good = ground arith

  -- Any other round makes one call, and goes on after a timeout only.
  round_nothing :
      outcome.code ≢ success
      → ((round os route s key f).1.world.calls ≡ f.world.calls ++ (asked, got) ∷ [])
        × (((round os route s key f).0 ≡ ok true) ⊎ ((round os route s key f).0 ≡ ok false))
        × (f.world.time < (round os route s key f).1.world.time)
  unfolding round
  round_nothing bad = ground arith

-- The calls so far: every chunk that was read was sent to the proxy, once and in order, and no other
-- datagram was sent.
abbrev pub Forwarded : Route → Forwarder → Type 0
Forwarded route f =
    datagrams_out f.world.calls ≡ map (λ b. (b, route.udp_proxy)) (chunks f.world.calls)

module _ (os : Os) (route : Route) (s : Session) (key : Bytes) where
  round-Forwarded :
      (f : Forwarder) → IsPosix os → Forwarded route f → Forwarded route (round os route s key f).1
  round-Forwarded f posix h = elim (success-cases (outcome os route s key f).code) [
    | inl good ↦
        let r = got os route s key f in
        rw (round_data os route s key f posix good) (
          simp (
            observe-snoc,
            h,
            map-append,
            append-nil,
            (read_data os s f.tcp_buffer (some short_timeout) f.world posix good).1,
          ))
    | inr bad ↦ rw ((round_nothing os route s key f bad).0) (
        simp (
          observe-snoc,
          h,
          append-nil,
          read_nothing os s f.tcp_buffer (some short_timeout) f.world bad,
        ))
  ]

  round-cases :
      (f : Forwarder)
      → (((round os route s key f).0 ≡ ok true) ⊎ ((round os route s key f).0 ≡ ok false))
        × (f.world.time < (round os route s key f).1.world.time)
  round-cases f = elim (success-cases (outcome os route s key f).code) [
    | inl good ↦ let (more, later) = round_goes_on os route s key f good in (inl more, later)
    | inr bad ↦ ((round_nothing os route s key f bad).1, (round_nothing os route s key f bad).2)
  ]

  -- A property of the state that each round keeps is kept by the loop.
  pub forward_tcp_to_udp_inv {ℓ} :
      (P : Forwarder → Type ℓ)
      → ((f : Forwarder) → P f → P (round os route s key f).1)
      → (rounds : ℕ) (f : Forwarder) → P f
      → P (forward_tcp_to_udp os route rounds s key f).1
  unfolding forward_tcp_to_udp
  forward_tcp_to_udp_inv P keep rounds f h =
      while_not_cancelled_inv (λ f. os.cancelled f.world.time) (round os route s key)
        (λ g. (round-cases g).0) P keep rounds f h

  -- Whatever the system answers and however the loop ends, the datagrams that it sent are the chunks
  -- that it read, in order, each sent once, all to the proxy.
  pub forward_tcp_to_udp-Forwarded :
      (rounds : ℕ) (f : Forwarder)
      → IsPosix os
      → Forwarded route f
      → Forwarded route (forward_tcp_to_udp os route rounds s key f).1
  forward_tcp_to_udp-Forwarded rounds f posix h =
      forward_tcp_to_udp_inv (Forwarded route) (λ g k. round-Forwarded g posix k) rounds f h

  -- The flag ends the loop: where it is set for good from the call numbered `stop` on, one round more
  -- than the calls up to there is enough.
  pub forward_tcp_to_udp-finished :
      (rounds stop : ℕ) (f : Forwarder)
      → ((t : ℕ) → stop ≤ t → os.cancelled t ≡ true)
      → stop ≤ f.world.time + rounds
      → (forward_tcp_to_udp os route (suc rounds) s key f).0 ≡ ok finished
  unfolding forward_tcp_to_udp
  forward_tcp_to_udp-finished rounds stop f set enough =
      while_not_cancelled-finished (λ f. os.cancelled f.world.time) (round os route s key)
        (λ g. (round-cases g).0) (λ f. f.world.time) (λ g. (round-cases g).1) rounds stop f
        (λ f late. set f.world.time late) enough
