-- ===== src/Notifiable/Receiving.antt =====
-- What `receiver_loop` of NotifiableClient.cpp checks.
use tcp_udp.Base.{
  ℕ, suc, ◌<◌, ◌≡◌, ◌≢◌, refl, ◌⊎◌, inl, inr, true, false, some, List, [], ◌∷◌, ◌++◌, append-nil,
  arith, length,
}
use tcp_udp.Std.Text.{Bytes}
use tcp_udp.Common.Buffer.{short_timeout}
use tcp_udp.Sys.Exec.{ok}
use tcp_udp.Sys.Loop.{while_not_cancelled_inv}
use tcp_udp.Sys.World.{Os, IsPosix, Call, Reply}
use tcp_udp.Sys.Trace.{observe-snoc, chunks}
use tcp_udp.Io.{IoResult, success}
use tcp_udp.Io.Classify.{success-cases}
use tcp_udp.Tcp.Session.{Session}
use tcp_udp.Tcp.Effects.{read_call, read_reply, read_result, read_data, read_nothing}
use tcp_udp.Notifiable.Validator.{Validator}
use tcp_udp.Notifiable.Stream.{process_response, process_response-total}
use tcp_udp.Notifiable.Threads.{Receiver, process_received, receive, receiver_loop}

-- The checks after a list of responses.
abbrev pub process_all : List Bytes → Validator → Validator
process_all [] v = v
process_all (r ∷ rs) v = process_all rs (process_received r v)

process_all-append :
    (xs ys : List Bytes) (v : Validator)
    → process_all (xs ++ ys) v ≡ process_all ys (process_all xs v)
process_all-append [] ys v = refl
process_all-append (x ∷ xs) ys v = process_all-append xs ys (process_received x v)

-- The fuel that a response is given is enough.
process_received_lem :
    (response : Bytes) (v : Validator)
    → process_response (suc (length response)) response v ≡ some (process_received response v)
unfolding process_received
process_received_lem response v =
    let (w, done) = process_response-total (suc (length response)) response v (omega arith) in
    rw done refl

module _ (os : Os) (session : Session) (s : Receiver) where
  abbrev got : Reply
  got = read_reply os session s.buffer (some short_timeout) s.world

  abbrev outcome : IoResult
  outcome = read_result os session s.buffer (some short_timeout) s.world

  abbrev asked : Call
  asked = read_call os session s.buffer (some short_timeout) s.world

  receive-calls : (receive os session s).1.world.calls ≡ s.world.calls ++ (asked, got) ∷ []
  unfolding receive
  receive-calls = ground arith

  receive_data :
      IsPosix os
      → outcome.code ≡ success
      → (receive os session s).1.validator ≡ process_received got.bytes s.validator
  unfolding receive
  receive_data posix good =
      let (data_is, _) = read_data os session s.buffer (some short_timeout) s.world posix good in
      ground (arith, data_is)

  receive_nothing : outcome.code ≢ success → (receive os session s).1.validator ≡ s.validator
  unfolding receive
  receive_nothing bad = ground arith

  receive-returns : ((receive os session s).0 ≡ ok true) ⊎ ((receive os session s).0 ≡ ok false)
  unfolding receive
  receive-returns = ground arith

  receive_takes_time : s.world.time < (receive os session s).1.world.time
  unfolding receive
  receive_takes_time = ground arith

-- The checks so far: each chunk that was read since the start was processed, once and in order.
abbrev pub Processed : Validator → Receiver → Type 0
Processed v s = s.validator ≡ process_all (chunks s.world.calls) v

module _ (os : Os) (session : Session) (v : Validator) where
  receive-Processed :
      (s : Receiver) → IsPosix os → Processed v s → Processed v (receive os session s).1
  receive-Processed s posix h = elim (success-cases (outcome os session s).code) [
    | inl good ↦
        let (_, data_in) = read_data os session s.buffer (some short_timeout) s.world posix good in
        rw (receive_data os session s posix good, receive-calls os session s)
          (simp (observe-snoc, data_in, h, process_all-append))
    | inr bad ↦
        rw (receive_nothing os session s bad, receive-calls os session s)
          (simp (
            observe-snoc,
            h,
            append-nil,
            read_nothing os session s.buffer (some short_timeout) s.world bad,
          ))
  ]

  -- However the loop ends, the checks are what processing each chunk that was read, once and in order,
  -- makes of the checks at the start.
  pub receiver_loop-Processed :
      (rounds : ℕ) (s : Receiver)
      → IsPosix os
      → Processed v s
      → Processed v (receiver_loop os session rounds s).1
  unfolding receiver_loop
  receiver_loop-Processed rounds s posix h =
      while_not_cancelled_inv (λ r. os.cancelled r.world.time) (receive os session)
        (receive-returns os session) (Processed v) (λ r k. receive-Processed r posix k) rounds s h
