-- ===== src/Notifiable/Sending.antt =====
-- What `sender_loop` of NotifiableClient.cpp writes.
use tcp_udp.Base.{
  ℕ, zero, suc, ◌<◌, ◌≡◌, refl, ap, ◌∙◌, ◌⊎◌, true, false, Option, none, List, [], ◌∷◌, ◌++◌,
  append-nil, append_assoc, arith,
}
use tcp_udp.Base.Int.{ℤ, int_suc}
use tcp_udp.Std.Text.{Bytes}
use tcp_udp.Sys.Exec.{ok}
use tcp_udp.Sys.Loop.{while_not_cancelled_inv}
use tcp_udp.Sys.World.{Os}
use tcp_udp.Sys.Trace.{observe-snoc, writes_out}
use tcp_udp.Tcp.Session.{Session}
use tcp_udp.Tcp.Effects.{write_call, write_reply}
use tcp_udp.Notifiable.Threads.{Sender, request_text, send_request, sender_loop}

-- A number after `k` increments of an `int`.
abbrev pub later : ℕ → ℤ → ℤ
later zero z = z
later (suc k) z = int_suc (later k z)

-- `k` requests, whose numbers follow `number` and whose counts begin with `count`.
abbrev pub requests : Bytes → Option ℕ → ℤ → ℤ → ℕ → List (Option ℕ × Bytes)
requests client_id socket number count zero = []
requests client_id socket number count (suc k) =
    requests client_id socket number count k
    ++ (socket, request_text client_id (later (suc k) number) (later k count)) ∷ []

module _ (os : Os) (session : Session) (client_id : Bytes) where
  send_request-returns :
      (s : Sender)
      → ((send_request os session client_id s).0 ≡ ok true)
        ⊎ ((send_request os session client_id s).0 ≡ ok false)
  unfolding send_request
  send_request-returns s = ground arith

  send_request-state :
      (s : Sender)
      → let r = (send_request os session client_id s).1 in
        let message = request_text client_id (int_suc s.current_sequence_number) s.request_count in
        (r.current_sequence_number ≡ int_suc s.current_sequence_number)
        × (r.request_count ≡ int_suc s.request_count)
        × (s.world.time < r.world.time)
        × (r.world.calls
            ≡ s.world.calls
              ++ (
                write_call os session message none s.world,
                write_reply os session message none s.world,
              )
                ∷ [])
  unfolding send_request
  send_request-state s = ground arith

  -- The requests so far: as many as rounds, with the numbers in a row.
  abbrev pub Numbered : Sender → Sender → Type 0
  Numbered first s =
      (k : ℕ) × (s.current_sequence_number ≡ later k first.current_sequence_number)
      × (s.request_count ≡ later k first.request_count)
      × (writes_out s.world.calls
          ≡ writes_out first.world.calls
            ++ requests client_id session.socket first.current_sequence_number first.request_count
                k)

  send_request-Numbered :
      (first s : Sender) → Numbered first s → Numbered first (send_request os session client_id s).1
  send_request-Numbered first s (k, number, count, wrote) =
      let (number', count', _, made) = send_request-state s in
      (
        suc k,
        number' ∙ ap int_suc number,
        count' ∙ ap int_suc count,
        rw made (simp (observe-snoc, wrote, number, count, append_assoc)),
      )

  -- Whatever the system answers and however the loop ends, what the sender has written is some number
  -- of requests of its client id to its connection, each once, and their sequence numbers follow the
  -- last one of before in a row.
  pub sender_loop-Numbered :
      (rounds : ℕ) (first : Sender)
      → Numbered first (sender_loop os session rounds client_id first).1
  unfolding sender_loop
  sender_loop-Numbered rounds first =
      while_not_cancelled_inv (λ s. os.cancelled s.world.time) (send_request os session client_id)
        send_request-returns (Numbered first) (send_request-Numbered first) rounds first
        (0, refl, refl, simp (append-nil))
