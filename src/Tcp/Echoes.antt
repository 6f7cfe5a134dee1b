-- ===== src/Tcp/Echoes.antt =====
-- What the echo server of TcpEchoHandler.cpp writes, and when its task ends.
use tcp_udp.Base.{
  ℕ, suc, ◌+◌, ◌≤◌, ◌<◌, ◌≡◌, ◌≢◌, ◌⊎◌, inl, inr, true, false, some, [], ◌∷◌, ◌++◌, map, append-nil,
  arith,
}
use mathlib.Core.List.{map-append}
use tcp_udp.Std.Text.{Bytes}
use tcp_udp.Common.Buffer.{short_timeout}
use tcp_udp.Sys.Exec.{ok}
use tcp_udp.Sys.Loop.{finished, while_not_cancelled_inv, while_not_cancelled-finished}
use tcp_udp.Sys.World.{Os, IsPosix, Call, Reply}
use tcp_udp.Sys.Trace.{observe-snoc, chunks, writes_out}
use tcp_udp.Io.{IoResult, success}
use tcp_udp.Io.Classify.{success-cases}
use tcp_udp.Tcp.Effects.{read_call, read_reply, read_result, write_call, read_data, read_nothing}
use tcp_udp.Tcp.Session.{Session}
use tcp_udp.Tcp.Messages.{echo_response}
use tcp_udp.Tcp.Echo.{EchoTask, round, handle_client}

module _ (os : Os) (s : Session) (t : EchoTask) where
  abbrev got : Reply
  got = read_reply os s t.buffer_in (some short_timeout) t.world

  abbrev outcome : IoResult
  outcome = read_result os s t.buffer_in (some short_timeout) t.world

  abbrev asked : Call
  asked = read_call os s t.buffer_in (some short_timeout) t.world

  abbrev sent : Bytes → Call
  sent m = write_call os s (echo_response m) (some short_timeout) t.world

  round_data :
      IsPosix os
      → outcome.code ≡ success
      → (round os s t).1.world.calls
        ≡ (t.world.calls ++ (asked, got) ∷ [])
          ++ (sent got.bytes, os.reply (suc t.world.time) (sent got.bytes)) ∷ []
  unfolding round
  round_data posix good =
      let (data_is, _) = read_data os s t.buffer_in (some short_timeout) t.world posix good in
      ground (arith, data_is)

  round_nothing :
      outcome.code ≢ success → (round os s t).1.world.calls ≡ t.world.calls ++ (asked, got) ∷ []
  unfolding round
  round_nothing bad = ground arith

  round_returns : ((round os s t).0 ≡ ok true) ⊎ ((round os s t).0 ≡ ok false)
  unfolding round
  round_returns = ground arith

  round_takes_time : t.world.time < (round os s t).1.world.time
  unfolding round
  round_takes_time = ground arith

-- The calls so far: every chunk that was read was answered, once and in order, with its echo.
abbrev pub Echoed : Session → EchoTask → Type 0
Echoed s t =
    writes_out t.world.calls ≡ map (λ b. (s.socket, echo_response b)) (chunks t.world.calls)

module _ (os : Os) (s : Session) where
  round-Echoed : (t : EchoTask) → IsPosix os → Echoed s t → Echoed s (round os s t).1
  round-Echoed t posix h = elim (success-cases (outcome os s t).code) [
    | inl good ↦ rw (round_data os s t posix good) (
        simp (
          observe-snoc,
          h,
          map-append,
          append-nil,
          (read_data os s t.buffer_in (some short_timeout) t.world posix good).1,
        ))
    | inr bad ↦ rw (round_nothing os s t bad) (
        simp (
          observe-snoc,
          h,
          append-nil,
          read_nothing os s t.buffer_in (some short_timeout) t.world bad,
        ))
  ]

  -- Whatever the system answers and however the task ends, each chunk that it read from its client is
  -- answered with one write of "echo [", the chunk and "]" to that client, in order, and nothing else
  -- is written. A timeout is answered with nothing.
  pub handle_client-Echoed :
      (rounds : ℕ) (t : EchoTask)
      → IsPosix os
      → Echoed s t
      → Echoed s (handle_client os rounds s t).1
  unfolding handle_client
  handle_client-Echoed rounds t posix h =
      while_not_cancelled_inv (λ u. os.cancelled u.world.time) (round os s) (round_returns os s)
        (Echoed s) (λ u k. round-Echoed u posix k) rounds t h

  -- The task of a client ends: where the flag is set for good from the call numbered `stop` on, one
  -- round more than the calls up to there is enough.
  pub handle_client-finished :
      (rounds stop : ℕ) (t : EchoTask)
      → ((n : ℕ) → stop ≤ n → os.cancelled n ≡ true)
      → stop ≤ t.world.time + rounds
      → (handle_client os (suc rounds) s t).0 ≡ ok finished
  unfolding handle_client
  handle_client-finished rounds stop t set enough =
      while_not_cancelled-finished (λ u. os.cancelled u.world.time) (round os s)
        (round_returns os s) (λ u. u.world.time) (round_takes_time os s) rounds stop t
        (λ u late. set u.world.time late) enough
